-- ===== src/Router/Allowed.antt =====
-- router/router.go, AllowedHost: the methods that a path has, and how they bear on MatchHost.
use bebo.Prelude.{
  ◌≡◌, refl, sym, ap, subst, true, none, some, List, [], ◌∷◌, arith, Bool-cases, Option-cases, ◌⊎◌,
  inl, inr, ◌↔◌, All, ◌≢◌, Memᴰ,
}
use bebo.Prelude.Text.{Bytes, bytes, text_eq, text_eq_iff}
use bebo.Prelude.Dict.{Dict, lookup, insert, bytes_eq, lookup-insert}
use bebo.Router.{
  Route, Router, path_or_root, split_path, normalize_host, host_matches, match_segments,
  allowed_routes, allowed_host, match_host,
}
use bebo.Router.Fits.{Fits, match_segments_sound, match_segments_complete}
use bebo.Router.Select.{Serves, Passes, First, match_host-eq-some_iff, match_host-eq-none_iff}

-- No value stands twice in the list.
abbrev pub IsDistinct : List Bytes → Type 0
IsDistinct [] = Unit
IsDistinct (x ∷ xs) = (¬ Memᴰ x xs) × IsDistinct xs

module _ (host : Bytes) (parts : List Bytes) where
  -- The route accepts the host and the path, whatever its method.
  abbrev pub Offers : Route → Type 0
  Offers rt =
      (host_matches rt.host host ≡ true) × ((bs : List (Bytes × Bytes)) × Fits rt.segments parts bs)

  data Round (seen : Dict Bytes (Unit {0})) (rt : Route) (rts : List Route) : Type 0 where
    skipped :
        ¬ Offers rt
        → allowed_routes host parts seen (rt ∷ rts) ≡ allowed_routes host parts seen rts
        → Round seen rt rts
    repeated :
        Offers rt
        → lookup rt.method seen ≡ some tt
        → allowed_routes host parts seen (rt ∷ rts) ≡ allowed_routes host parts seen rts
        → Round seen rt rts
    listed :
        Offers rt
        → lookup rt.method seen ≡ none
        → allowed_routes host parts seen (rt ∷ rts)
          ≡ rt.method ∷ allowed_routes host parts (insert rt.method tt seen) rts
        → Round seen rt rts

  round : (seen : Dict Bytes (Unit {0})) (rt : Route) (rts : List Route) → Round seen rt rts
  unfolding allowed_routes
  round seen rt rts = elim (Bool-cases (host_matches rt.host host)) [
    | inr e ↦ skipped (λ o. cc (e, o.0)) (rw e refl)
    | inl eh ↦ elim (Bool-cases (match_segments rt.segments parts none).0) [
      | inr e ↦ skipped (λ o. cc (e, match_segments_complete none o.1.1)) (rw (eh, e) refl)
      | inl ef ↦
          let (bs, fits, _) = match_segments_sound rt.segments parts none ef in
          elim (Option-cases (lookup rt.method seen)) [
            | inl e ↦ listed (eh, (bs, fits)) e (rw (eh, ef, e) refl)
            | inr (u, e) ↦ repeated (eh, (bs, fits)) e (rw (eh, ef, e) refl)
          ]
    ]
  ]

  -- Some listed route offers the method.
  abbrev pub Has : Bytes → List Route → Type 0
  Has m rts = (rt : Route) × Memᴰ rt rts × (rt.method ≡ m) × Offers rt

  Has-tail : {m : Bytes} {rt : Route} {rts : List Route} → Has m rts → Has m (rt ∷ rts)
  Has-tail (r, m, e, o) = (r, Memᴰ.tail m, e, o)

  unseen :
      (k m : Bytes) (seen : Dict Bytes (Unit {0}))
      → lookup m (insert k tt seen) ≡ none
      → (k ≢ m) × (lookup m seen ≡ none)
  unseen k m seen e = ground (arith, lookup-insert k m tt seen, text_eq_iff k m)

  still_unseen :
      (k m : Bytes) (seen : Dict Bytes (Unit {0}))
      → k ≢ m
      → lookup m seen ≡ none
      → lookup m (insert k tt seen) ≡ none
  still_unseen k m seen n e = ground (arith, lookup-insert k m tt seen, text_eq_iff k m)

  allowed_routes_sound :
      (seen : Dict Bytes (Unit {0})) (rts : List Route) (m : Bytes)
      → Memᴰ m (allowed_routes host parts seen rts)
      → (lookup m seen ≡ none) × Has m rts
  allowed_routes_sound seen [] m h =
      let none_listed : Memᴰ m [] = unfold allowed_routes in h in elim none_listed [ ]
  allowed_routes_sound seen (rt ∷ rts) m h = elim (round seen rt rts) [
    | skipped _ e ↦ let (u, has) = allowed_routes_sound seen rts m (rw e at h) in (u, Has-tail has)
    | repeated _ _ e ↦
        let (u, has) = allowed_routes_sound seen rts m (rw e at h) in (u, Has-tail has)
    | listed o new e ↦
        here_or_later o new (allowed_routes_sound (insert rt.method tt seen) rts m) (rw e at h)
  ]
    where
      here_or_later :
          Offers rt
          → lookup rt.method seen ≡ none
          → (Memᴰ m (allowed_routes host parts (insert rt.method tt seen) rts)
              → (lookup m (insert rt.method tt seen) ≡ none) × Has m rts)
          → Memᴰ m (rt.method ∷ allowed_routes host parts (insert rt.method tt seen) rts)
          → (lookup m seen ≡ none) × Has m (rt ∷ rts)
      here_or_later o new ih (Memᴰ.head e) = (rw e new, (rt, Memᴰ.head refl, sym e, o))
      here_or_later o new ih (Memᴰ.tail t) =
          let (u, has) = ih t in ((unseen rt.method m seen u).1, Has-tail has)

  allowed_routes_complete :
      (seen : Dict Bytes (Unit {0})) (rts : List Route) (rt : Route)
      → Memᴰ rt rts
      → Offers rt
      → lookup rt.method seen ≡ none
      → Memᴰ rt.method (allowed_routes host parts seen rts)
  allowed_routes_complete seen [] rt h o u = elim h [ ]
  allowed_routes_complete seen (r ∷ rts) rt (Memᴰ.head same) o u = elim (round seen r rts) [
    | skipped p _ ↦ absurd (p (subst Offers same o))
    | repeated _ old _ ↦ absurd (cc (old, u, ap (λ (x : Route). lookup x.method seen) same))
    | listed _ _ e ↦ rw e (Memᴰ.head (ap (λ x. x.method) same))
  ]
  allowed_routes_complete seen (r ∷ rts) rt (Memᴰ.tail h) o u = elim (round seen r rts) [
    | skipped _ e ↦ rw e (allowed_routes_complete seen rts rt h o u)
    | repeated _ _ e ↦ rw e (allowed_routes_complete seen rts rt h o u)
    | listed _ _ e ↦ elim (Bool-cases (text_eq r.method rt.method)) [
      | inl t ↦ rw e (Memᴰ.head (sym ((text_eq_iff _ _).0 t)))
      | inr f ↦ rw e (
          Memᴰ.tail (
            allowed_routes_complete (insert r.method tt seen) rts rt h o
              (still_unseen r.method rt.method seen (λ q. cc (f, (text_eq_iff _ _).1 q)) u)))
    ]
  ]

  allowed_routes-IsDistinct :
      (seen : Dict Bytes (Unit {0})) (rts : List Route)
      → IsDistinct (allowed_routes host parts seen rts)
  allowed_routes-IsDistinct seen [] = unfold allowed_routes in tt
  allowed_routes-IsDistinct seen (rt ∷ rts) = elim (round seen rt rts) [
    | skipped _ e ↦ rw e (allowed_routes-IsDistinct seen rts)
    | repeated _ _ e ↦ rw e (allowed_routes-IsDistinct seen rts)
    | listed _ _ e ↦ rw e (
      (λ h.
          (unseen rt.method rt.method seen
              (allowed_routes_sound (insert rt.method tt seen) rts rt.method h).0).0
            refl),
      allowed_routes-IsDistinct (insert rt.method tt seen) rts,
    )
  ]

module _ (r : Router) (host path m : Bytes) where
  -- AllowedHost lists exactly the methods of the registered routes whose host pattern accepts the
  -- host and whose segments fit the path, each of them once.
  pub allowed_host_lem :
      (Memᴰ m (allowed_host r host path)
        ↔ Has (normalize_host host) (split_path (path_or_root path)) m r.routes)
      × IsDistinct (allowed_host r host path)
  unfolding allowed_host
  allowed_host_lem =
      let host' = normalize_host host in
      let parts = split_path (path_or_root path) in
      (
        (
          (λ h. (allowed_routes_sound host' parts [] r.routes m h).1),
          (λ (rt, h, e, o).
              subst (λ k. Memᴰ k (allowed_routes host' parts [] r.routes)) e
                (allowed_routes_complete host' parts [] r.routes rt h o (unfold lookup in refl))),
        ),
        allowed_routes-IsDistinct host' parts [] r.routes,
      )

First-Serves :
    {method host : Bytes} {parts : List Bytes} {rts : List Route} {rt : Route}
    {bs : List (Bytes × Bytes)}
    → First method host parts rts rt bs
    → Memᴰ rt rts × Serves method host parts rt bs
First-Serves (First.here s) = (Memᴰ.head refl, s)
First-Serves (First.later _ f) = let (m, s) = First-Serves f in (Memᴰ.tail m, s)

All-Passes_not :
    (method host : Bytes) (parts : List Bytes) (rts : List Route) (rt : Route)
    {bs : List (Bytes × Bytes)}
    → All (Passes method host parts) rts
    → Memᴰ rt rts
    → ¬ Serves method host parts rt bs
All-Passes_not method host parts [] rt a m s = elim m [ ]
All-Passes_not method host parts (r ∷ rts) rt {bs} (p, a) (Memᴰ.head e) s =
    p bs (subst (λ x. Serves method host parts x bs) e s)
All-Passes_not method host parts (r ∷ rts) rt {bs} (p, a) (Memᴰ.tail m) s =
    All-Passes_not method host parts rts rt a m s

module _ (r : Router) (method host path : Bytes) where
  served :
      Memᴰ method (allowed_host r host path) ⊎ Memᴰ (bytes "*") (allowed_host r host path)
      → (rt : Route) × (bs : List (Bytes × Bytes)) × Memᴰ rt r.routes
        × Serves method (normalize_host host) (split_path (path_or_root path)) rt bs
  served (inl m) =
      let (rt, at_rt, e, (h, (bs, f))) = (allowed_host_lem r host path method).0.0 m in
      (rt, bs, at_rt, (inr e, h, f))
  served (inr m) =
      let (rt, at_rt, e, (h, (bs, f))) = (allowed_host_lem r host path (bytes "*")).0.0 m in
      (rt, bs, at_rt, (inl e, h, f))

  -- MatchHost finds a route exactly when AllowedHost lists the request's method or "*". So a
  -- request without a route whose path has allowed methods is one with a wrong method.
  pub match_host-allowed_host :
      (match_host r method host path ≢ none)
      ↔ (Memᴰ method (allowed_host r host path) ⊎ Memᴰ (bytes "*") (allowed_host r host path))
  match_host-allowed_host = (
    λ n. elim (Option-cases (match_host r method host path)) [
      | inl e ↦ absurd (n e)
      | inr ((id, ps), e) ↦
          let (rt, bs, first, _, _) = (match_host-eq-some_iff r method host path id ps).0 e in
          let (at_rt, (m, h, f)) = First-Serves first in
          elim m [
            | inl star ↦
                inr ((allowed_host_lem r host path (bytes "*")).0.1 (rt, at_rt, star, (h, (bs, f))))
            | inr same ↦
                inl ((allowed_host_lem r host path method).0.1 (rt, at_rt, same, (h, (bs, f))))
          ]
    ],
    λ m e.
        let (rt, bs, at_rt, s) = served m in
        All-Passes_not method (normalize_host host) (split_path (path_or_root path)) r.routes rt
          ((match_host-eq-none_iff r method host path).0 e) at_rt s,
  )
