-- ===== src/Prelude/Text.antt =====
-- Text as a list of bytes, and the functions of Go's package strings that the sources use on it.
-- A byte is a number below 256; on the texts that the sources treat so, bytes are ASCII.
use Prim.Native.Char.{code}
use Prim.Native.String.{String}
use Prim.Native.Nat.{ℕ}
use mathlib.Core.Path.{◌≡◌, refl, sym, ap, ◌∙◌}
use mathlib.Core.Logic.{◌≢◌, ◌↔◌, inl, inr}
use mathlib.Core.Bool.{Bool, true, false, ◌&&◌, ◌||◌}
use mathlib.Core.List.{List, [], ◌∷◌, ◌++◌, append_assoc}
use native.Mathlib.Omega.{arith}
use bebo.Prelude.Tests.{◌==◌, ==_iff, if◌then◌else◌, Bool-cases}
use bebo.Prelude.Lists.{All, is_empty}

abbrev pub Bytes : Type 0
Bytes = List ℕ

abbrev pub bytes : String → Bytes
bytes String.[] = []
bytes (String.◌∷◌ c s) = code c ∷ bytes s

unfoldable pub text_eq : Bytes → Bytes → Bool
text_eq [] [] = true
text_eq [] (_ ∷ _) = false
text_eq (_ ∷ _) [] = false
text_eq (a ∷ s) (b ∷ t) = a == b && text_eq s t

pub text_eq_sound : (s t : Bytes) → text_eq s t ≡ true → s ≡ t
unfolding text_eq
text_eq_sound [] [] h = refl
text_eq_sound [] (_ ∷ _) h = cc
text_eq_sound (_ ∷ _) [] h = cc
text_eq_sound (a ∷ s) (b ∷ t) h = ground (arith, text_eq_sound s t)

pub text_eq_self : (s : Bytes) → text_eq s s ≡ true
unfolding text_eq
text_eq_self [] = refl
text_eq_self (a ∷ s) = ground (arith, text_eq_self s)

pub text_eq_iff : (s t : Bytes) → (text_eq s t ≡ true) ↔ (s ≡ t)
text_eq_iff s t = (text_eq_sound s t, λ e. rw e (text_eq_self t))

-- strings.HasPrefix and strings.TrimPrefix
unfoldable pub has_prefix : Bytes → Bytes → Bool
has_prefix s [] = true
has_prefix [] (_ ∷ _) = false
has_prefix (a ∷ s) (b ∷ p) = a == b && has_prefix s p

unfoldable pub drop_prefix : Bytes → Bytes → Bytes
drop_prefix s [] = s
drop_prefix [] (_ ∷ _) = []
drop_prefix (a ∷ s) (_ ∷ p) = drop_prefix s p

unfoldable pub trim_prefix : Bytes → Bytes → Bytes
unfolding has_prefix drop_prefix
trim_prefix s p = if has_prefix s p then drop_prefix s p else s

-- strings.HasSuffix
unfoldable pub has_suffix : Bytes → Bytes → Bool
unfolding text_eq
has_suffix [] p = text_eq [] p
has_suffix (a ∷ s) p = text_eq (a ∷ s) p || has_suffix s p

-- strings.Trim with a cutset of one byte
unfoldable pub trim_left : ℕ → Bytes → Bytes
trim_left c [] = []
trim_left c (a ∷ s) = if a == c then trim_left c s else a ∷ s

unfoldable pub trim_right : ℕ → Bytes → Bytes
trim_right c [] = []
trim_right c (a ∷ s) = let rest = trim_right c s in if is_empty rest && a == c then [] else a ∷ rest

unfoldable pub trim : ℕ → Bytes → Bytes
unfolding trim_left trim_right
trim c s = trim_right c (trim_left c s)

-- strings.Split and strings.Join with a separator of one byte
unfoldable pub cons_head : ℕ → List Bytes → List Bytes
cons_head a [] = (a ∷ []) ∷ []
cons_head a (w ∷ ws) = (a ∷ w) ∷ ws

unfoldable pub split : ℕ → Bytes → List Bytes
unfolding cons_head
split c [] = [] ∷ []
split c (a ∷ s) = let rest = split c s in if a == c then [] ∷ rest else cons_head a rest

unfoldable pub join : ℕ → List Bytes → Bytes
join c [] = []
join c (w ∷ []) = w
join c (w ∷ v ∷ ws) = w ++ (c ∷ join c (v ∷ ws))

abbrev pub Lacks : ℕ → Bytes → Type 0
Lacks c s = All (λ a. a ≢ c) s

join-cons_head : (c a : ℕ) (ws : List Bytes) → ws ≢ [] → join c (cons_head a ws) ≡ a ∷ join c ws
unfolding join cons_head
join-cons_head c a [] h = absurd (h refl)
join-cons_head c a (w ∷ []) h = refl
join-cons_head c a (w ∷ v ∷ ws) h = refl

cons_head-ne-nil : (a : ℕ) (ws : List Bytes) → cons_head a ws ≢ []
unfolding cons_head
cons_head-ne-nil a [] = λ e. cc
cons_head-ne-nil a (w ∷ ws) = λ e. cc

pub split-ne-nil : (c : ℕ) (s : Bytes) → split c s ≢ []
unfolding split
split-ne-nil c [] = λ e. cc
split-ne-nil c (a ∷ s) = ground (arith, cons_head-ne-nil a (split c s))

join-nil_cons : (c : ℕ) (ws : List Bytes) → ws ≢ [] → join c ([] ∷ ws) ≡ c ∷ join c ws
unfolding join
join-nil_cons c [] h = absurd (h refl)
join-nil_cons c (w ∷ ws) h = refl

-- Joining the parts of a split gives the text back.
pub join-split : (c : ℕ) (s : Bytes) → join c (split c s) ≡ s
unfolding split
join-split c [] = unfold join in refl
join-split c (a ∷ s) = elim (Bool-cases (a == c)) [
  | inl e ↦
      rw (e, split)
        (cc (join-nil_cons c (split c s) (split-ne-nil c s), join-split c s, (==_iff a c).0 e))
  | inr e ↦
      rw (e, split)
        (join-cons_head c a (split c s) (split-ne-nil c s) ∙ ap (λ t. a ∷ t) (join-split c s))
]

cons_head-All :
    (c a : ℕ) (ws : List Bytes) → a ≢ c → All (Lacks c) ws → All (Lacks c) (cons_head a ws)
unfolding cons_head
cons_head-All c a [] n h = ((n, tt), tt)
cons_head-All c a (w ∷ ws) n (k, h) = ((n, k), h)

-- No part of a split holds the separator.
pub split-All-Lacks : (c : ℕ) (s : Bytes) → All (Lacks c) (split c s)
unfolding split
split-All-Lacks c [] = (tt, tt)
split-All-Lacks c (a ∷ s) = ground (arith, split-All-Lacks c s, cons_head-All c a (split c s))

pub split_of_Lacks : (c : ℕ) (w : Bytes) → Lacks c w → split c w ≡ w ∷ []
unfolding split cons_head
split_of_Lacks c [] h = refl
split_of_Lacks c (a ∷ w) (n, h) = ground (arith, split_of_Lacks c w h)

pub split-append : (c : ℕ) (w t : Bytes) → Lacks c w → split c (w ++ (c ∷ t)) ≡ w ∷ split c t
unfolding split cons_head
split-append c [] t h = ground arith
split-append c (a ∷ w) t (n, h) = ground (arith, split-append c w t h)

-- Splitting joined parts gives the parts back, where no part holds the separator.
pub split-join :
    (c : ℕ) (w : Bytes) (ws : List Bytes)
    → All (Lacks c) (w ∷ ws)
    → split c (join c (w ∷ ws)) ≡ w ∷ ws
unfolding join
split-join c w [] (h, _) = split_of_Lacks c w h
split-join c w (v ∷ ws) (h, k) =
    split-append c w (join c (v ∷ ws)) h ∙ ap (λ t. w ∷ t) (split-join c v ws k)

-- What a trim leaves alone.
trim_right_of_Lacks : (c : ℕ) (w : Bytes) → Lacks c w → trim_right c w ≡ w
unfolding trim_right
trim_right_of_Lacks c [] h = refl
trim_right_of_Lacks c (a ∷ w) (n, h) = ground (arith, trim_right_of_Lacks c w h)

trim_right-append :
    (c : ℕ) (s t : Bytes) → trim_right c t ≡ t → t ≢ [] → trim_right c (s ++ t) ≡ s ++ t
unfolding trim_right
trim_right-append c [] t e n = e
trim_right-append c (a ∷ s) t e n = ground (arith, trim_right-append c s t e n, append-ne-nil s t n)
  where
    append-ne-nil : (s t : Bytes) → t ≢ [] → s ++ t ≢ []
    append-ne-nil [] t n = n
    append-ne-nil (a ∷ s) t n = λ e. cc

-- A part of a path: not empty, and without the separator.
abbrev pub IsPart : ℕ → Bytes → Type 0
IsPart c w = (w ≢ []) × Lacks c w

pub join-ne-nil : (c : ℕ) (w : Bytes) (ws : List Bytes) → w ≢ [] → join c (w ∷ ws) ≢ []
unfolding join
join-ne-nil c w [] n = n
join-ne-nil c [] (v ∷ ws) n = absurd (n refl)
join-ne-nil c (a ∷ w) (v ∷ ws) n = λ e. cc

pub trim_right-join :
    (c : ℕ) (w : Bytes) (ws : List Bytes)
    → All (IsPart c) (w ∷ ws)
    → trim_right c (join c (w ∷ ws)) ≡ join c (w ∷ ws)
unfolding join
trim_right-join c w [] ((n, h), _) = trim_right_of_Lacks c w h
trim_right-join c w (v ∷ ws) ((n, h), ((n', h'), k)) =
    trim_right-append c w (c ∷ join c (v ∷ ws))
      (trim_right-append c (c ∷ []) (join c (v ∷ ws)) (trim_right-join c v ws ((n', h'), k))
        (join-ne-nil c v ws n'))
      (λ e. cc)

trim_left-join :
    (c : ℕ) (w : Bytes) (ws : List Bytes)
    → IsPart c w
    → trim_left c (c ∷ join c (w ∷ ws)) ≡ join c (w ∷ ws)
unfolding trim_left join
trim_left-join c [] ws (n, h) = absurd (n refl)
trim_left-join c (a ∷ w) [] (n, h) = ground arith
trim_left-join c (a ∷ w) (v ∷ ws) (n, h) = ground arith

-- A separator in front of joined parts is all that a trim removes.
pub trim-join :
    (c : ℕ) (w : Bytes) (ws : List Bytes)
    → All (IsPart c) (w ∷ ws)
    → trim c (c ∷ join c (w ∷ ws)) ≡ join c (w ∷ ws)
unfolding trim
trim-join c w ws (p, k) = rw (trim_left-join c w ws p) (trim_right-join c w ws (p, k))

-- The rest is the end of the input.
abbrev pub EndsIn : Bytes → Bytes → Type 0
EndsIn input rest = (front : Bytes) × (input ≡ front ++ rest)

pub EndsIn-trans : (a b c : Bytes) → EndsIn a b → EndsIn b c → EndsIn a c
EndsIn-trans a b c (x, e) (y, f) = (x ++ y, e ∙ ap (λ t. x ++ t) f ∙ sym (append_assoc x y c))
