-- ===== src/Auth/Jwt/Fine.antt =====
-- auth/jwt.go, validateTiming, audienceMatches and the end of verify: which claims are accepted.
use bebo.Prelude.{
  ℕ, suc, ◌+◌, ◌*◌, ◌≤◌, ◌≡◌, ◌≢◌, ◌⊎◌, inl, inr, refl, sym, ap, ◌∙◌, Bool, true, false, not, ◌&&◌,
  Option, none, some, List, [], ◌∷◌, is_empty, arith, Memᴰ, Bool-cases, Option-cases,
}
use bebo.Prelude.Int.{ℤ, pos, negsuc, ltb_ℤ, eq_ℤ, eq_ℤ_iff}
use bebo.Prelude.Text.{Bytes, bytes, text_eq, text_eq_iff}
use bebo.Prelude.Result.{ok}
use bebo.Prelude.Dict.{lookup, bytes_eq}
use bebo.Auth.{
  Item, text_item, other_item, Value, null, not_integer, other, text, number, strings, items,
  Claims,
}
use bebo.Auth.Roles.{is_listed, text_items}
use bebo.Auth.Jwt.{
  Authenticator, claim_time, is_expired, is_early, add_time, nanoseconds, validate_timing,
  audience_matches, text_of, check_claims,
}

-- x = up x - down x
abbrev pub up : ℤ → ℕ
up (pos n) = n
up (negsuc n) = 0

abbrev pub down : ℤ → ℕ
down (pos n) = 0
down (negsuc n) = suc n

abbrev pub per_second : ℕ
per_second = 1000000000

-- The seconds of the zero time of the package time, 1 January of the year 1.
abbrev pub year_one : ℤ
year_one = negsuc 62135596799

-- The audience is the expected text, or a list with the expected text in it.
pub data Names (expected : Bytes) (v : Option Value) : Type 0 where
  alone : v ≡ some (text expected) → Names expected v
  in_texts : (ss : List Bytes) → v ≡ some (strings ss) → Memᴰ expected ss → Names expected v
  in_items :
      (more : List Item) → v ≡ some (items more) → Memᴰ (text_item expected) more → Names expected v

-- now <= exp + skew and nbf <= now + skew in nanoseconds, with the negative parts on the other side,
-- for an exp and an nbf that are integers and not the zero time; the issuer and the audience that are
-- asked for, if any.
pub record IsFine (a : Authenticator) (claims : Claims) : Type 0 where
  pub not_expired :
      (seconds : ℤ)
      → lookup (bytes "exp") claims ≡ some (number seconds)
      → seconds ≢ year_one
      → up a.now + (down seconds * per_second + down a.clock_skew)
        ≤ up seconds * per_second + (up a.clock_skew + down a.now)
  pub begun :
      (seconds : ℤ)
      → lookup (bytes "nbf") claims ≡ some (number seconds)
      → seconds ≢ year_one
      → up seconds * per_second + (down a.now + down a.clock_skew)
        ≤ up a.now + (up a.clock_skew + down seconds * per_second)
  pub issued : (a.issuer ≡ []) ⊎ (lookup (bytes "iss") claims ≡ some (text a.issuer))
  pub addressed : (a.audience ≡ []) ⊎ Names a.audience (lookup (bytes "aud") claims)

in_time :
    (seconds skew now : ℤ)
    → ltb_ℤ (add_time (nanoseconds seconds) skew) now ≡ false
    → up now + (down seconds * per_second + down skew)
      ≤ up seconds * per_second + (up skew + down now)
unfolding nanoseconds add_time
in_time (pos s) (pos k) (pos n) h = ground arith
in_time (pos s) (pos k) (negsuc n) h = ground arith
in_time (pos s) (negsuc k) (pos n) h = ground arith
in_time (pos s) (negsuc k) (negsuc n) h = ground arith
in_time (negsuc s) (pos k) (pos n) h = ground arith
in_time (negsuc s) (pos k) (negsuc n) h = ground arith
in_time (negsuc s) (negsuc k) (pos n) h = ground arith
in_time (negsuc s) (negsuc k) (negsuc n) h = ground arith

by_now :
    (seconds skew now : ℤ)
    → ltb_ℤ (add_time now skew) (nanoseconds seconds) ≡ false
    → up seconds * per_second + (down now + down skew)
      ≤ up now + (up skew + down seconds * per_second)
unfolding nanoseconds add_time
by_now (pos s) (pos k) (pos n) h = ground arith
by_now (pos s) (pos k) (negsuc n) h = ground arith
by_now (pos s) (negsuc k) (pos n) h = ground arith
by_now (pos s) (negsuc k) (negsuc n) h = ground arith
by_now (negsuc s) (pos k) (pos n) h = ground arith
by_now (negsuc s) (pos k) (negsuc n) h = ground arith
by_now (negsuc s) (negsuc k) (pos n) h = ground arith
by_now (negsuc s) (negsuc k) (negsuc n) h = ground arith

claim_time-number :
    (v : Option Value) (seconds : ℤ)
    → v ≡ some (number seconds)
    → seconds ≢ year_one
    → claim_time v ≡ some (nanoseconds seconds)
unfolding claim_time
claim_time-number v seconds h later = elim (Bool-cases (eq_ℤ seconds year_one)) [
  | inl e ↦ absurd (later ((eq_ℤ_iff seconds year_one).0 e))
  | inr e ↦ rw (h, e) refl
]

is_listed-Memᴰ : (xs : List Bytes) (x : Bytes) → is_listed xs x ≡ true → Memᴰ x xs
unfolding is_listed
is_listed-Memᴰ [] x h = cc
is_listed-Memᴰ (y ∷ xs) x h = elim (Bool-cases (text_eq y x)) [
  | inl e ↦ Memᴰ.head (sym ((text_eq_iff y x).0 e))
  | inr e ↦ Memᴰ.tail (is_listed-Memᴰ xs x (rw e at h))
]

text_items-Memᴰ :
    (more : List Item) (x : Bytes) → Memᴰ x (text_items more) → Memᴰ (text_item x) more
unfolding text_items
text_items-Memᴰ [] x m = elim m [ ]
text_items-Memᴰ (text_item s ∷ more) x (Memᴰ.head e) = Memᴰ.head (ap (λ t. text_item t) e)
text_items-Memᴰ (text_item s ∷ more) x (Memᴰ.tail m) = Memᴰ.tail (text_items-Memᴰ more x m)
text_items-Memᴰ (other_item ∷ more) x m = Memᴰ.tail (text_items-Memᴰ more x m)

audience_matches-Names :
    (v : Option Value) (expected : Bytes) → audience_matches v expected ≡ true → Names expected v
unfolding audience_matches
audience_matches-Names none expected h = cc
audience_matches-Names (some null) expected h = cc
audience_matches-Names (some not_integer) expected h = cc
audience_matches-Names (some other) expected h = cc
audience_matches-Names (some (number n)) expected h = cc
audience_matches-Names (some (text s)) expected h =
    alone (ap (λ t. some (text t)) ((text_eq_iff s expected).0 h))
audience_matches-Names (some (strings ss)) expected h =
    in_texts ss refl (is_listed-Memᴰ ss expected h)
audience_matches-Names (some (items more)) expected h =
    in_items more refl (text_items-Memᴰ more expected (is_listed-Memᴰ (text_items more) expected h))

text_of-some : (v : Option Value) (s : Bytes) → s ≢ [] → text_of v ≡ s → v ≡ some (text s)
text_of-some none s full h = absurd (full (sym h))
text_of-some (some null) s full h = absurd (full (sym h))
text_of-some (some not_integer) s full h = absurd (full (sym h))
text_of-some (some other) s full h = absurd (full (sym h))
text_of-some (some (number n)) s full h = absurd (full (sym h))
text_of-some (some (text t)) s full h = ap (λ x. some (text x)) h
text_of-some (some (strings ss)) s full h = absurd (full (sym h))
text_of-some (some (items more)) s full h = absurd (full (sym h))

validate_timing-eq-none :
    (claims : Claims) (now skew : ℤ)
    → validate_timing claims now skew ≡ none
    → ((t : ℤ)
        → claim_time (lookup (bytes "exp") claims) ≡ some t
        → ltb_ℤ (add_time t skew) now ≡ false)
      × ((t : ℤ)
          → claim_time (lookup (bytes "nbf") claims) ≡ some t
          → ltb_ℤ (add_time now skew) t ≡ false)
unfolding validate_timing
validate_timing-eq-none claims now skew h =
    let exp = claim_time (lookup (bytes "exp") claims) in
    let nbf = claim_time (lookup (bytes "nbf") claims) in
    elim (Bool-cases (is_expired exp now skew)) [
      | inl e ↦ absurd (let h' = rw e at h in cc)
      | inr e ↦ elim (Bool-cases (is_early nbf now skew)) [
        | inl e' ↦ absurd (let h' = rw (e, e') at h in cc)
        | inr e' ↦ (
          (λ t f. sym (ap (λ o. is_expired o now skew) f) ∙ e),
          (λ t f. sym (ap (λ o. is_early o now skew) f) ∙ e'),
        )
      ]
    ]

pub is_empty-eq-true : (s : Bytes) → is_empty s ≡ true → s ≡ []
is_empty-eq-true [] h = refl
is_empty-eq-true (x ∷ s) h = cc

-- A check that is skipped for an empty wish.
passed :
    (wish : Bytes) (b : Bool) → (not (is_empty wish) && not b) ≡ false → (wish ≡ []) ⊎ (b ≡ true)
passed wish b h = elim (Bool-cases (is_empty wish)) [
  | inl e ↦ inl (is_empty-eq-true wish e)
  | inr e ↦ inr (let h' = rw e at h in ground arith)
]

issuer_of :
    (wish : Bytes) (found : Option Value)
    → (wish ≡ []) ⊎ (text_eq (text_of found) wish ≡ true)
    → (wish ≡ []) ⊎ (found ≡ some (text wish))
issuer_of [] found h = inl refl
issuer_of (b ∷ wish) found (inl e) = inl e
issuer_of (b ∷ wish) found (inr e) =
    inr (text_of-some found (b ∷ wish) (λ e'. cc) ((text_eq_iff (text_of found) (b ∷ wish)).0 e))

audience_of :
    (wish : Bytes) (found : Option Value)
    → (wish ≡ []) ⊎ (audience_matches found wish ≡ true)
    → (wish ≡ []) ⊎ Names wish found
audience_of wish found (inl e) = inl e
audience_of wish found (inr e) = inr (audience_matches-Names found wish e)

pub check_claims-eq-ok :
    (a : Authenticator) (claims claims' : Claims)
    → check_claims a claims ≡ ok claims'
    → (claims ≡ claims') × IsFine a claims
unfolding check_claims
check_claims-eq-ok a claims claims' h =
    let issuer = text_of (lookup (bytes "iss") claims) in
    let right = audience_matches (lookup (bytes "aud") claims) a.audience in
    elim (Option-cases (validate_timing claims a.now a.clock_skew)) [
      | inr (e, eq) ↦ absurd (let h' = rw (eq, check_claims) at h in cc)
      | inl eq ↦ elim (Bool-cases (not (is_empty a.issuer) && not (text_eq issuer a.issuer))) [
        | inl i ↦ absurd (let h' = rw (eq, i, check_claims) at h in cc)
        | inr i ↦ elim (Bool-cases (not (is_empty a.audience) && not right)) [
          | inl d ↦ absurd (let h' = rw (eq, i, d, check_claims) at h in cc)
          | inr d ↦
              let same = rw (eq, i, d, check_claims) at h in
              let (not_expired, begun) = validate_timing-eq-none claims a.now a.clock_skew eq in
              (
                (cc),
                record {
                  not_expired = λ seconds f later.
                      in_time seconds a.clock_skew a.now
                        (not_expired (nanoseconds seconds) (claim_time-number _ seconds f later));
                  begun = λ seconds f later.
                      by_now seconds a.clock_skew a.now
                        (begun (nanoseconds seconds) (claim_time-number _ seconds f later));
                  issued =
                      issuer_of a.issuer (lookup (bytes "iss") claims)
                        (passed a.issuer (text_eq issuer a.issuer) i);
                  addressed =
                      audience_of a.audience (lookup (bytes "aud") claims)
                        (passed a.audience right d);
                },
              )
        ]
      ]
    ]
