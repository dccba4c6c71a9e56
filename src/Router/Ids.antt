-- ===== src/Router/Ids.antt =====
-- router/router.go, AddWithHost: route ids are positions in the table.
use bebo.Prelude.{
  ℕ, suc, ◌+◌, ◌≡◌, refl, sym, ap, ◌∙◌, some, List, [], ◌∷◌, ◌++◌, arith, is_empty, Bool-cases, ◌⊎◌,
  inl, inr, length, length-append, get_elem?,
}
use bebo.Prelude.Text.{Bytes}
use bebo.Prelude.Result.{Result, ok, err}
use bebo.Router.{
  Route, Segment, starts_with_slash, Router, RouteError, method_required, pattern_slash,
  add_with_host, added, new, normalize_host, parse_pattern,
}

-- Each route's id is its place in the table, counted from n.
abbrev pub IsNumberedFrom : ℕ → List Route → Type 0
IsNumberedFrom n [] = Unit
IsNumberedFrom n (rt ∷ rts) = (rt.id ≡ n) × IsNumberedFrom (suc n) rts

abbrev pub IsNumbered : Router → Type 0
IsNumbered r = IsNumberedFrom 0 r.routes × (r.next_id ≡ length r.routes)

IsNumberedFrom-append :
    (n : ℕ) (rts : List Route) (rt : Route)
    → IsNumberedFrom n rts
    → rt.id ≡ n + length rts
    → IsNumberedFrom n (rts ++ (rt ∷ []))
IsNumberedFrom-append n [] rt h e = (omega arith, tt)
IsNumberedFrom-append n (r ∷ rts) rt (h, hs) e =
    (h, IsNumberedFrom-append (suc n) rts rt hs (omega arith))

pub new-IsNumbered : IsNumbered new
unfolding new
new-IsNumbered = (tt, refl)

added-IsNumbered :
    (r : Router) (method host pattern : Bytes) (p : Result RouteError _)
    → IsNumbered r
    → IsNumbered (added r method host pattern p).0
added-IsNumbered r method host pattern (err e) h = h
added-IsNumbered r method host pattern (ok segs) (h, e) =
    (IsNumberedFrom-append 0 r.routes _ h (omega arith), omega (arith, length-append {0} r.routes))

abbrev Added : Router → Bytes → Bytes → Bytes → Router × Result RouteError ℕ → Type 0
Added r method host pattern out =
    ((e : RouteError) × (out ≡ (r, err e)))
    ⊎ ((segs : List Segment) × (parse_pattern pattern ≡ ok segs)
        × (out ≡ added r method (normalize_host host) pattern (ok segs)))

Result-cases :
    (p : Result RouteError (List Segment))
    → ((e : RouteError) × (p ≡ err e)) ⊎ ((segs : List Segment) × (p ≡ ok segs))
Result-cases (err e) = inl (e, refl)
Result-cases (ok segs) = inr (segs, refl)

pub add_with_host_cases :
    (r : Router) (method host pattern : Bytes)
    → Added r method host pattern (add_with_host r method host pattern)
unfolding add_with_host
add_with_host_cases r method host pattern = elim (Bool-cases (is_empty method)) [
  | inl e ↦ inl (method_required, rw e refl)
  | inr named ↦ elim (Bool-cases (starts_with_slash pattern)) [
    | inr e ↦ inl (pattern_slash, rw (named, e) refl)
    | inl slash ↦ elim (Result-cases (parse_pattern pattern)) [
      | inl (e, eq) ↦ inl (e, rw (named, slash, eq) refl)
      | inr (segs, eq) ↦ inr (segs, eq, rw (named, slash, eq) refl)
    ]
  ]
]

-- Adding a route, or failing to, keeps every route's id its place in the table.
pub add_with_host-IsNumbered :
    (r : Router) (method host pattern : Bytes)
    → IsNumbered r
    → IsNumbered (add_with_host r method host pattern).0
add_with_host-IsNumbered r method host pattern h =
    elim (add_with_host_cases r method host pattern) [
      | inl (e, eq) ↦ rw eq h
      | inr (segs, _, eq) ↦
          rw eq (added-IsNumbered r method (normalize_host host) pattern (ok segs) h)
    ]

get_elem?-append_end :
    {A : Type 0} (xs : List A) (x : A) (i : ℕ)
    → i ≡ length xs
    → get_elem? (xs ++ (x ∷ [])) i ≡ some x
get_elem?-append_end [] x i e = rw e refl
get_elem?-append_end (y ∷ xs) x i e = rw e (get_elem?-append_end xs x (length xs) refl)

ok_injective : {a b : ℕ} → ◌≡◌ {A = Result RouteError ℕ} (ok a) (ok b) → a ≡ b
ok_injective p = cc

-- An accepted registration returns the place of the new route, which has the method, the
-- normalized host, and the parsed segments; the older routes stay in front of it.
pub add_with_host-eq-ok :
    (r : Router) (method host pattern : Bytes) (id : ℕ)
    → IsNumbered r
    → (add_with_host r method host pattern).1 ≡ ok id
    → (rt : Route) × (get_elem? (add_with_host r method host pattern).0.routes id ≡ some rt)
      × ((add_with_host r method host pattern).0.routes ≡ r.routes ++ (rt ∷ []))
      × (rt.id ≡ id)
      × (rt.method ≡ method)
      × (rt.host ≡ normalize_host host)
      × (parse_pattern pattern ≡ ok rt.segments)
add_with_host-eq-ok r method host pattern id (h, n) k =
    elim (add_with_host_cases r method host pattern) [
      | inl (e, eq) ↦ absurd (cc)
      | inr (segs, parsed, eq) ↦
          let same : r.next_id ≡ id = ok_injective (sym (ap (λ t. t.1) eq) ∙ k) in
          let rt : Route = record {
            id = r.next_id;
            method = method;
            host = normalize_host host;
            pattern = pattern;
            segments = segs;
          } in
          (
            rt,
            rw eq (get_elem?-append_end r.routes rt id (sym same ∙ n)),
            rw eq refl,
            same,
            refl,
            refl,
            parsed,
          )
    ]

-- A refused registration changes nothing.
pub add_with_host-eq-err :
    (r : Router) (method host pattern : Bytes) (e : RouteError)
    → (add_with_host r method host pattern).1 ≡ err e
    → (add_with_host r method host pattern).0 ≡ r
add_with_host-eq-err r method host pattern e k = elim (add_with_host_cases r method host pattern) [
  | inl (e', eq) ↦ rw eq refl
  | inr (segs, parsed, eq) ↦ absurd (cc)
]
