-- ===== src/Router/Select.antt =====
-- router/router.go, MatchHost: which route is chosen.
use bebo.Prelude.{
  ℕ, ◌≡◌, refl, ◌∙◌, Bool, true, false, Option, none, some, List, [], ◌∷◌, arith, Bool-cases, ◌⊎◌,
  inl, inr, ◌↔◌, All,
}
use bebo.Prelude.Text.{Bytes, bytes, text_eq_iff}
use bebo.Router.{
  Route, Router, Params, hit, or_else, path_or_root, split_path, normalize_host, method_matches,
  host_matches, match_segments, match_routes, match_host,
}
use bebo.Router.Fits.{
  Fits, match_segments_iff, match_segments_sound, match_segments_complete, insert_all,
  store_all-some,
}

module _ (method host : Bytes) (parts : List Bytes) where
  -- The route is for the request's method and host, and the path fits its pattern.
  abbrev pub Serves : Route → List (Bytes × Bytes) → Type 0
  Serves rt bs =
      ((rt.method ≡ bytes "*") ⊎ (rt.method ≡ method))
      × (host_matches rt.host host ≡ true)
      × Fits rt.segments parts bs

  abbrev pub Passes : Route → Type 0
  Passes rt = (bs : List (Bytes × Bytes)) → ¬ Serves rt bs

  -- The first route of the list that serves the request, with the bindings of its fit.
  pub data First : List Route → Route → List (Bytes × Bytes) → Type 0 where
    here :
        {rt : Route} {rts : List Route} {bs : List (Bytes × Bytes)}
        → Serves rt bs
        → First (rt ∷ rts) rt bs
    later :
        {rt chosen : Route} {rts : List Route} {bs : List (Bytes × Bytes)}
        → Passes rt
        → First rts chosen bs
        → First (rt ∷ rts) chosen bs

pub method_matches_iff : (a m : Bytes) → (method_matches a m ≡ true) ↔ ((a ≡ bytes "*") ⊎ (a ≡ m))
unfolding method_matches
method_matches_iff a m = ground (arith, text_eq_iff a (bytes "*"), text_eq_iff a m)

module _ (method host : Bytes) (parts : List Bytes) where
  Serves-step :
      (rt : Route) (rts : List Route) {bs : List (Bytes × Bytes)}
      → Serves method host parts rt bs
      → match_routes method host parts (rt ∷ rts) ≡ some (rt.id, insert_all bs [])
  unfolding match_routes
  Serves-step rt rts {bs} (m, h, f) =
      rw
        (
          (method_matches_iff rt.method method).1 m,
          h,
          (match_segments_iff rt.segments parts (some []) _).1 (bs, f, refl),
          store_all-some bs [],
        )
        refl

  route_cases :
      (rt : Route)
      → ((bs : List (Bytes × Bytes)) × Serves method host parts rt bs) ⊎ Passes method host parts rt
  route_cases rt = elim (Bool-cases (method_matches rt.method method)) [
    | inr e ↦ inr (λ bs s. cc (e, (method_matches_iff rt.method method).1 s.0))
    | inl em ↦ elim (Bool-cases (host_matches rt.host host)) [
      | inr e ↦ inr (λ bs s. cc (e, s.1))
      | inl eh ↦ elim (Bool-cases (match_segments rt.segments parts none).0) [
        | inr e ↦ inr (λ bs s. cc (e, match_segments_complete none s.2))
        | inl ef ↦
            let (bs, fits, _) = match_segments_sound rt.segments parts none ef in
            inl (bs, ((method_matches_iff rt.method method).0 em, eh, fits))
      ]
    ]
  ]

  Passes-step :
      (rt : Route) (rts : List Route)
      → Passes method host parts rt
      → match_routes method host parts (rt ∷ rts) ≡ match_routes method host parts rts
  unfolding match_routes
  Passes-step rt rts p = elim (Bool-cases (method_matches rt.method method)) [
    | inr e ↦ rw e refl
    | inl em ↦ elim (Bool-cases (host_matches rt.host host)) [
      | inr e ↦ rw (em, e) refl
      | inl eh ↦
          rw (em, eh)
            (miss rt.id (match_segments rt.segments parts (some []))
              (match_routes method host parts rts) (fails em eh))
    ]
  ]
    where
      miss :
          (id : ℕ) (r : Bool × Option Params) (other : Option (ℕ × Params))
          → r.0 ≡ false
          → or_else (hit id r) other ≡ other
      miss id (false, m) other e = refl
      miss id (true, m) other e = cc

      fails :
          method_matches rt.method method ≡ true
          → host_matches rt.host host ≡ true
          → (match_segments rt.segments parts (some [])).0 ≡ false
      fails em eh = elim (Bool-cases (match_segments rt.segments parts (some [])).0) [
        | inr e ↦ e
        | inl ef ↦
            let (bs, fits, _) = match_segments_sound rt.segments parts (some []) ef in
            absurd (p bs ((method_matches_iff rt.method method).0 em, eh, fits))
      ]

  -- The loop finds the first route that serves, and reports none when no route does.
  pub match_routes_cases :
      (rts : List Route)
      → ((rt : Route) × (bs : List (Bytes × Bytes)) × First method host parts rts rt bs
          × (match_routes method host parts rts ≡ some (rt.id, insert_all bs [])))
        ⊎ (All (Passes method host parts) rts × (match_routes method host parts rts ≡ none))
  match_routes_cases [] = inr (tt, unfold match_routes in refl)
  match_routes_cases (rt ∷ rts) = elim (route_cases rt) [
    | inl (bs, s) ↦ inl (rt, bs, here s, Serves-step rt rts s)
    | inr p ↦ elim (match_routes_cases rts) [
      | inl (chosen, bs, f, e) ↦ inl (chosen, bs, later p f, Passes-step rt rts p ∙ e)
      | inr (ps, e) ↦ inr ((p, ps), Passes-step rt rts p ∙ e)
    ]
  ]

  pub First-match_routes :
      {rts : List Route} {rt : Route} {bs : List (Bytes × Bytes)}
      → First method host parts rts rt bs
      → match_routes method host parts rts ≡ some (rt.id, insert_all bs [])
  First-match_routes (here {rt} {rts} s) = Serves-step rt rts s
  First-match_routes (later {rt} {rts} p f) = Passes-step rt rts p ∙ First-match_routes f

  pub All-Passes-match_routes :
      (rts : List Route)
      → All (Passes method host parts) rts
      → match_routes method host parts rts ≡ none
  All-Passes-match_routes [] _ = unfold match_routes in refl
  All-Passes-match_routes (rt ∷ rts) (p, ps) = Passes-step rt rts p ∙ All-Passes-match_routes rts ps

-- The request as the loop reads it.
module _ (r : Router) (method host path : Bytes) where
  -- MatchHost answers with an id and parameters exactly when some route serves the request (its
  -- method is the request's or "*", its host pattern accepts the normalized host, the parts of the
  -- path fit its segments); it is then the first such route in the order of registration, and the
  -- parameters are the bindings of that fit.
  pub match_host-eq-some_iff :
      (id : ℕ) (ps : Params)
      → (match_host r method host path ≡ some (id, ps)) ↔ (
          (rt : Route) × (bs : List (Bytes × Bytes)) × First method
            (normalize_host host)
            (split_path (path_or_root path))
            r.routes
            rt
            bs
          × (id ≡ rt.id)
          × (ps ≡ insert_all bs []))
  unfolding match_host
  match_host-eq-some_iff id ps =
      let host' = normalize_host host in
      let parts = split_path (path_or_root path) in
      (
        λ e. elim (match_routes_cases method host' parts r.routes) [
          | inl (rt, bs, f, found) ↦ (rt, bs, f, cc, cc)
          | inr (_, missed) ↦ absurd (cc)
        ],
        λ w. rw (w.3, w.4) (First-match_routes method _ _ w.2),
      )

  -- MatchHost answers that there is no route exactly when no registered route serves the request.
  pub match_host-eq-none_iff :
      (match_host r method host path ≡ none)
      ↔ All (Passes method (normalize_host host) (split_path (path_or_root path))) r.routes
  unfolding match_host
  match_host-eq-none_iff =
      let host' = normalize_host host in
      let parts = split_path (path_or_root path) in
      (
        λ e. elim (match_routes_cases method host' parts r.routes) [
          | inl (rt, bs, f, found) ↦ absurd (cc)
          | inr (all, _) ↦ all
        ],
        λ all. All-Passes-match_routes method _ _ r.routes all,
      )
