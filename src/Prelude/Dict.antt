-- ===== src/Prelude/Dict.antt =====
-- Go maps as association lists, over a key type with a Boolean equality.
use Prim.Native.Nat.{ℕ}
use Prim.Native.String.{String}
use mathlib.Core.Path.{◌≡◌, refl}
use mathlib.Core.Logic.{◌↔◌}
use mathlib.Core.Bool.{Bool, true}
use mathlib.Core.Option.{Option, none, some}
use mathlib.Core.List.{List, [], ◌∷◌, ◌++◌}
use native.Mathlib.Omega.{arith}
use text.Mathlib.Text.{◌==◌ as str_eq}
use text.Mathlib.TextEquality.{eq_iff}
use bebo.Prelude.Tests.{◌==◌, ==_iff, if◌then◌else◌}
use bebo.Prelude.Text.{Bytes, text_eq, text_eq_iff}

pub record Eq (K : Type 0) : Type 0 where
  pub beq : K → K → Bool
  pub beq_iff : (a b : K) → (beq a b ≡ true) ↔ (a ≡ b)

instance abbrev pub nat_eq : Eq ℕ
nat_eq = record { beq = ◌==◌; beq_iff = ==_iff }

instance abbrev pub bytes_eq : Eq Bytes
bytes_eq = record { beq = text_eq; beq_iff = text_eq_iff }

instance abbrev pub string_eq : Eq String
string_eq = record { beq = str_eq; beq_iff = eq_iff }

pub Eq-beq_self : {K : Type 0} ⦃e : Eq K⦄ (k : K) → e.beq k k ≡ true
Eq-beq_self ⦃e⦄ k = (e.beq_iff k k).1 refl

abbrev pub Dict {ℓ} : Type 0 → Type ℓ → Type ℓ
Dict K V = List (K × V)

module _ {ℓ} {K : Type 0} {V : Type ℓ} ⦃e : Eq K⦄ where
  -- v, ok := m[k]
  unfoldable pub lookup : K → Dict K V → Option V
  lookup k [] = none
  lookup k ((j, v) ∷ m) = if e.beq j k then some v else lookup k m

  -- m[k] = v
  unfoldable pub insert : K → V → Dict K V → Dict K V
  insert k v [] = (k, v) ∷ []
  insert k v ((j, w) ∷ m) =
      let rest = insert k v m in if e.beq j k then (k, v) ∷ m else (j, w) ∷ rest

  -- delete(m, k)
  unfoldable pub delete : K → Dict K V → Dict K V
  delete k [] = []
  delete k ((j, w) ∷ m) = let rest = delete k m in if e.beq j k then rest else (j, w) ∷ rest

  pub lookup-insert :
      (k j : K) (v : V) (m : Dict K V)
      → lookup j (insert k v m) ≡ (if e.beq k j then some v else lookup j m)
  unfolding lookup insert
  lookup-insert k j v [] = refl
  lookup-insert k j v ((i, w) ∷ m) =
      ground (arith, e.beq_iff k j, e.beq_iff i k, e.beq_iff i j, lookup-insert k j v m)

  pub lookup-delete :
      (k j : K) (m : Dict K V) → lookup j (delete k m) ≡ (if e.beq k j then none else lookup j m)
  unfolding lookup delete
  lookup-delete k j [] = ground arith
  lookup-delete k j ((i, w) ∷ m) =
      ground (arith, e.beq_iff k j, e.beq_iff i k, e.beq_iff i j, lookup-delete k j m)

  pub lookup-insert_self : (k : K) (v : V) (m : Dict K V) → lookup k (insert k v m) ≡ some v
  lookup-insert_self k v m = rw (lookup-insert k k v m) (rw (Eq-beq_self k) refl)

  pub lookup-delete_self : (k : K) (m : Dict K V) → lookup k (delete k m) ≡ none
  lookup-delete_self k m = rw (lookup-delete k k m) (rw (Eq-beq_self k) refl)

  -- A key that is not there is put at the end, and is found there.
  pub insert-absent :
      (k : K) (v : V) (m : Dict K V) → lookup k m ≡ none → insert k v m ≡ m ++ ((k, v) ∷ [])
  unfolding lookup insert
  insert-absent k v [] h = refl
  insert-absent k v ((j, w) ∷ m) h = ground (arith, insert-absent k v m)

  -- Behind a map without the key, a map is changed and looked up as alone.
  pub insert-append :
      (k : K) (v : V) (m n : Dict K V) → lookup k m ≡ none → insert k v (m ++ n) ≡ m ++ insert k v n
  unfolding lookup insert
  insert-append k v [] n h = refl
  insert-append k v ((j, w) ∷ m) n h = ground (arith, insert-append k v m n)

  pub lookup-append : (k : K) (m n : Dict K V) → lookup k m ≡ none → lookup k (m ++ n) ≡ lookup k n
  unfolding lookup
  lookup-append k [] n h = refl
  lookup-append k ((j, w) ∷ m) n h = ground (arith, lookup-append k m n)

  pub insert-last :
      (k : K) (v w : V) (m : Dict K V)
      → lookup k m ≡ none
      → insert k v (m ++ ((k, w) ∷ [])) ≡ m ++ ((k, v) ∷ [])
  unfolding lookup insert
  insert-last k v w [] h = rw (Eq-beq_self k) refl
  insert-last k v w ((j, u) ∷ m) h = ground (arith, insert-last k v w m)

  pub lookup-last :
      (k j : K) (w : V) (m : Dict K V)
      → lookup j m ≡ none
      → lookup j (m ++ ((k, w) ∷ [])) ≡ (if e.beq k j then some w else none)
  unfolding lookup
  lookup-last k j w [] h = refl
  lookup-last k j w ((i, u) ∷ m) h = ground (arith, lookup-last k j w m)
