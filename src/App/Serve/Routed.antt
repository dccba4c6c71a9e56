-- ===== src/App/Serve/Routed.antt =====
-- app.go, ServeHTTP: which handler a request gets, with the router and the table of entries together.
use bebo.Prelude.{
  ℕ, suc, ◌+◌, ◌≡◌, refl, ap, ◌∙◌, ◌↔◌, true, false, some, List, [], ◌∷◌, is_empty, arith, All,
  Memᴰ, get_elem?, Option-cases, inl, inr,
}
use bebo.Prelude.Text.{Bytes, bytes}
use bebo.Prelude.Dict.{lookup, nat_eq}
use bebo.Router.{Route, normalize_host, split_path, path_or_root, match_host, allowed_host}
use bebo.Router.Fits.{insert_all}
use bebo.Router.Select.{First, Passes, match_host-eq-some_iff, match_host-eq-none_iff}
use bebo.Router.Allowed.{IsDistinct, Has, allowed_host_lem}
use bebo.Router.Ids.{IsNumberedFrom}
use bebo.App.Errors.{not_found, method_not_allowed}
use bebo.App.Response.{set_header, client_action, on_client}
use bebo.App.Table.{Entry, App}
use bebo.App.Table.Registered.{Describes, IsTable}
use bebo.App.Serve.{
  Context, Timing, request_host, join_methods, fails_with, run_with_middleware, run_entry,
  run_unmatched, run_pre_middleware, dispatch, serve,
}

First-place :
    (method host : Bytes) (parts : List Bytes) (n : ℕ) (rts : List Route) {rt : Route}
    {bs : List (Bytes × Bytes)}
    → IsNumberedFrom n rts
    → First method host parts rts rt bs
    → (i : ℕ) × (get_elem? rts i ≡ some rt) × (rt.id ≡ n + i)
First-place method host parts n [] h first = elim first [ ]
First-place method host parts n (r ∷ rts) (at_n, _) (First.here s) = (0, refl, omega arith)
First-place method host parts n (r ∷ rts) (_, more) (First.later p f) =
    let (i, found, place) = First-place method host parts (suc n) rts more f in
    (suc i, found, omega arith)

All-Passes :
    (method host : Bytes) (parts : List Bytes) (rts : List Route)
    → ((m : Bytes) → ¬ Has host parts m rts)
    → All (Passes method host parts) rts
All-Passes method host parts [] nowhere = tt
All-Passes method host parts (rt ∷ rts) nowhere = (
  (λ bs (_, h, f). nowhere rt.method (rt, Memᴰ.head refl, refl, (h, (bs, f)))),
  All-Passes method host parts rts (λ m (r, found, e, o). nowhere m (r, Memᴰ.tail found, e, o)),
)

Memᴰ-is_empty : (m : Bytes) (ms : List Bytes) → Memᴰ m ms → is_empty ms ≡ false
Memᴰ-is_empty m [] h = elim h [ ]
Memᴰ-is_empty m (x ∷ ms) h = refl

is_empty-eq-true : (ms : List Bytes) → ((m : Bytes) → ¬ Memᴰ m ms) → is_empty ms ≡ true
is_empty-eq-true [] h = refl
is_empty-eq-true (m ∷ ms) h = absurd (h m (Memᴰ.head refl))

module _ {V : Type 0} (a : App (Context V)) (t : Timing V) (ctx : Context V) where
  abbrev host : Bytes
  host = normalize_host (request_host ctx.request)

  abbrev parts : List Bytes
  parts = split_path (path_or_root ctx.request.path)

  -- With a right table, a request that some route serves is run by the entry of the first such
  -- route in the order of registration: the entry has the method, the host and the pattern of that
  -- route, and the parameters are those of its match.
  pub dispatch-First :
      IsTable a
      → {rt : Route} {bs : List (Bytes × Bytes)}
      → First ctx.request.method host parts a.router.routes rt bs
      → (entry : Entry (Context V)) × Describes entry rt
        × (lookup rt.id a.routes ≡ some entry)
        × (dispatch a t ctx ≡ some (run_entry a t entry (record ctx { params = insert_all bs [] })))
  unfolding dispatch
  dispatch-First table {rt} {bs} first =
      let (i, found, place) =
        First-place ctx.request.method host parts 0 a.router.routes table.ids.0 first in
      let (entry, known, same) = table.described i rt found in
      let id_known : lookup rt.id a.routes ≡ some entry =
        ap (λ n. lookup n a.routes) (omega arith) ∙ known in
      let matched =
        (match_host-eq-some_iff a.router ctx.request.method (request_host ctx.request)
            ctx.request.path rt.id (insert_all bs [])).1
          (rt, bs, first, refl, refl) in
      (entry, same, id_known, rw (matched, id_known, dispatch) refl)

  unserved :
      All (Passes ctx.request.method host parts) a.router.routes
      → dispatch a t ctx
        ≡ some (
            run_unmatched a (allowed_host a.router (request_host ctx.request) ctx.request.path) ctx)
  unfolding dispatch
  unserved passes =
      rw
        (
          (match_host-eq-none_iff a.router ctx.request.method (request_host ctx.request)
                ctx.request.path).1
              passes,
          dispatch,
        )
        refl

  -- A request that no route serves, of a path that some route offers for another method, gets the
  -- error of a method that is not allowed, through the middleware of the application. The Allow header
  -- lists, without repetition, the methods of all routes whose host and pattern fit, and no others.
  pub dispatch-not_allowed :
      {m : Bytes}
      → All (Passes ctx.request.method host parts) a.router.routes
      → Has host parts m a.router.routes
      → (allowed : List Bytes) × ((n : Bytes) → Memᴰ n allowed ↔ Has host parts n a.router.routes)
        × IsDistinct allowed
        × (dispatch a t ctx
            ≡ some (
                run_with_middleware a
                  (fails_with (method_not_allowed (bytes "method not allowed")))
                  (record ctx {
                    writer =
                        on_client
                          (client_action (set_header (bytes "Allow") (join_methods allowed)))
                          ctx.writer;
                  })))
  dispatch-not_allowed {m} passes offered =
      let path = ctx.request.path in
      let ms = allowed_host a.router (request_host ctx.request) path in
      let among = (allowed_host_lem a.router (request_host ctx.request) path m).0.1 offered in
      (
        ms,
        (λ n. (allowed_host_lem a.router (request_host ctx.request) path n).0),
        (allowed_host_lem a.router (request_host ctx.request) path m).1,
        (unserved passes
            ∙ (unfold run_unmatched in rw (Memᴰ-is_empty m ms among, run_unmatched) refl)),
      )

  -- A request of a path that no route offers for any method gets the error of a page that is not
  -- found, through the middleware of the application.
  pub dispatch-not_found :
      ((m : Bytes) → ¬ Has host parts m a.router.routes)
      → dispatch a t ctx
        ≡ some (run_with_middleware a (fails_with (not_found (bytes "not found"))) ctx)
  dispatch-not_found nowhere =
      let ms = allowed_host a.router (request_host ctx.request) ctx.request.path in
      let nothing = is_empty-eq-true ms (λ m found.
        nowhere m
          ((allowed_host_lem a.router (request_host ctx.request) ctx.request.path m).0.0 found)) in
      unserved (All-Passes ctx.request.method host parts a.router.routes nowhere)
      ∙ (unfold run_unmatched in rw (nothing, run_unmatched) refl)

  dispatch_total : IsTable a → (ctx' : Context V) × (dispatch a t ctx ≡ some ctx')
  dispatch_total table =
      let host' = request_host ctx.request in
      let method = ctx.request.method in
      let path = ctx.request.path in
      elim (Option-cases (match_host a.router method host' path)) [
        | inl e ↦ (_, unserved ((match_host-eq-none_iff a.router method host' path).0 e))
        | inr ((id, ps), e) ↦
            let (rt, bs, first, _, _) =
              (match_host-eq-some_iff a.router method host' path id ps).0 e in
            let (entry, _, _, done) = dispatch-First table first in (_, done)
      ]

-- On an application that was set up by registrations, ServeHTTP ends without the dereference of an
-- entry that is not there, for every request, middleware and outcome of the deadline.
pub serve_total :
    {V : Type 0} (a : App (Context V)) (t : Timing V) (ctx : Context V)
    → IsTable a
    → (ctx' : Context V) × (serve a t ctx ≡ some ctx')
unfolding serve
serve_total a t ctx table = elim (Option-cases (run_pre_middleware a.pre_middleware ctx).1) [
  | inr (e, failed) ↦
      (a.error_handler (run_pre_middleware a.pre_middleware ctx).0 e, rw (failed, serve) refl)
  | inl fine ↦
      let (ctx', done) = dispatch_total a t (run_pre_middleware a.pre_middleware ctx).0 table in
      (ctx', rw (fine, serve) done)
]
