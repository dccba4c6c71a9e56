-- ===== src/Router/Host.antt =====
-- router/router.go, hostMatches and normalizeHost.
use bebo.Prelude.{
  ◌≡◌, refl, ap, true, false, not, [], ◌∷◌, ◌++◌, arith, is_empty, Bool-cases, inl, inr, ◌↔◌, ◌≢◌,
  length, length-append,
}
use bebo.Prelude.Text.{Bytes, has_suffix, text_eq, text_eq_iff, text_eq_self}
use bebo.Router.{host_matches}

has_suffix_sound : (s p : Bytes) → has_suffix s p ≡ true → (t : Bytes) × (s ≡ t ++ p)
unfolding has_suffix
has_suffix_sound [] p h = ([], (text_eq_iff [] p).0 h)
has_suffix_sound (a ∷ s) p h = elim (Bool-cases (text_eq (a ∷ s) p)) [
  | inl e ↦ ([], (text_eq_iff (a ∷ s) p).0 e)
  | inr e ↦ let (t, eq) = has_suffix_sound s p (rw e at h) in (a ∷ t, ap (λ u. a ∷ u) eq)
]

has_suffix-append : (t p : Bytes) → has_suffix (t ++ p) p ≡ true
unfolding has_suffix
has_suffix-append [] [] = unfold text_eq in refl
has_suffix-append [] (a ∷ p) = rw (text_eq_self (a ∷ p)) refl
has_suffix-append (a ∷ t) p = elim (Bool-cases (text_eq (a ∷ (t ++ p)) p)) [
  | inl e ↦ rw e refl
  | inr e ↦ rw (e, has_suffix-append t p) refl
]

-- A text that ends in ".base" is longer than the base.
longer : (sub base : Bytes) → sub ++ (b'.' ∷ base) ≢ base
longer sub base e = omega (arith, length-append sub (b'.' ∷ base), ap (λ (s : Bytes). length s) e)

not_empty : (sub base : Bytes) → is_empty (sub ++ (b'.' ∷ base)) ≡ false
not_empty [] base = refl
not_empty (a ∷ sub) base = refl

-- The pattern "*.base" accepts exactly the hosts that end in ".base"; so never the base itself,
-- nor a host that only ends in the same letters.
pub host_matches-wildcard :
    (base host : Bytes)
    → (host_matches (b'*' ∷ b'.' ∷ base) host ≡ true)
      ↔ ((sub : Bytes) × (host ≡ sub ++ (b'.' ∷ base)))
unfolding host_matches
host_matches-wildcard base host = (
  λ h. has_suffix_sound host (b'.' ∷ base) (ground arith),
  λ (sub, e). rw (e, not_empty sub base, has_suffix-append sub (b'.' ∷ base)) (differs sub),
)
  where
    differs : (sub : Bytes) → not (text_eq (sub ++ (b'.' ∷ base)) base) ≡ true
    differs sub = elim (Bool-cases (text_eq (sub ++ (b'.' ∷ base)) base)) [
      | inl e ↦ absurd (longer sub base ((text_eq_iff _ _).0 e))
      | inr e ↦ rw e refl
    ]
