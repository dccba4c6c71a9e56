-- ===== src/Prelude/Result.antt =====
-- A value or an error, and its sequencing.
use mathlib.Core.Path.{◌≡◌, refl}
use mathlib.Core.Logic.{◌⊎◌, inl, inr}
use mathlib.Core.Bool.{Bool, true, false}
use bebo.Prelude.Tests.{if◌then◌else◌}

pub data Result {ℓ} (E : Type 0) (A : Type ℓ) : Type ℓ where
  ok : A → Result E A
  err : E → Result E A

infixl 5 ◌>>=◌
abbrev pub ◌>>=◌ {ℓ κ} :
    {E : Type 0} {A : Type ℓ} {B : Type κ} → Result E A → (A → Result E B) → Result E B
err failure >>= next = err failure
ok value >>= next = next value

-- What a successful bind says of its two parts.
pub >>=-eq-ok {ℓ κ} :
    {E : Type 0} {A : Type ℓ} {B : Type κ} (first : Result E A) (next : A → Result E B) {b : B}
    → (first >>= next) ≡ ok b
    → (value : A) × (first ≡ ok value) × (next value ≡ ok b)
>>=-eq-ok (err failure) next success = cc
>>=-eq-ok (ok value) next success = (value, refl, success)

-- To split on a computed result and keep the equation.
pub Result-cases {ℓ} :
    {E : Type 0} {A : Type ℓ} (r : Result E A) → ((e : E) × (r ≡ err e)) ⊎ ((a : A) × (r ≡ ok a))
Result-cases (err e) = inl (e, refl)
Result-cases (ok a) = inr (a, refl)

-- A failure is a P, and a value is a Q.
abbrev pub Each {ℓ} : {E : Type 0} {A : Type ℓ} → (E → Type 0) → (A → Type 0) → Result E A → Type 0
Each P Q (err e) = P e
Each P Q (ok a) = Q a

pub Each-bind {ℓ κ} :
    {E : Type 0} {A : Type ℓ} {B : Type κ} (P : E → Type 0) (Q : A → Type 0) (R : B → Type 0)
    (r : Result E A) (next : A → Result E B)
    → Each P Q r
    → ((a : A) → Q a → Each P R (next a))
    → Each P R (r >>= next)
Each-bind P Q R (err e) next h k = h
Each-bind P Q R (ok a) next h k = k a h

pub Each-if {ℓ} :
    {E : Type 0} {A : Type ℓ} (P : E → Type 0) (Q : A → Type 0) (test : Bool) (r s : Result E A)
    → (test ≡ true → Each P Q r)
    → (test ≡ false → Each P Q s)
    → Each P Q (if test then r else s)
Each-if P Q true r s h k = h refl
Each-if P Q false r s h k = k refl

pub Each-map {ℓ} :
    {E : Type 0} {A : Type ℓ} (P P' : E → Type 0) (Q Q' : A → Type 0) (r : Result E A)
    → ((e : E) → P e → P' e)
    → ((a : A) → Q a → Q' a)
    → Each P Q r
    → Each P' Q' r
Each-map P P' Q Q' (err e) f g h = f e h
Each-map P P' Q Q' (ok a) f g h = g a h
