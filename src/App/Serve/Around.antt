-- ===== src/App/Serve/Around.antt =====
-- app.go: the order in which middleware runs.
use bebo.Prelude.{◌≡◌, refl, ap, ◌∙◌, true, List, [], ◌∷◌, map}
use bebo.Prelude.Int.{is_nonpos}
use bebo.App.Table.{Handler, Middleware, Entry, App}
use bebo.App.Serve.{wrap, Context, Timing, handled, run_entry}

-- Middleware that does one thing before the handler and one after it.
pub record Layer (C : Type 0) : Type 0 where
  pub before : C → C
  pub after : C → C

module _ {C : Type 0} where
  abbrev pub around : Layer C → Middleware C
  around l next ctx = let (ctx', e) = next (l.before ctx) in (l.after ctx', e)

  -- What the layers do on the way in, the first one first, and on the way out, the last one first.
  unfoldable pub way_in : List (Layer C) → C → C
  way_in [] ctx = ctx
  way_in (l ∷ ls) ctx = way_in ls (l.before ctx)

  unfoldable pub way_out : List (Layer C) → C → C
  way_out [] ctx = ctx
  way_out (l ∷ ls) ctx = l.after (way_out ls ctx)

  wrap-around :
      (ls : List (Layer C)) (h : Handler C) (ctx : C)
      → wrap (map around ls) h ctx ≡ (way_out ls (h (way_in ls ctx)).0, (h (way_in ls ctx)).1)
  unfolding wrap way_in way_out
  wrap-around [] h ctx = refl
  wrap-around (l ∷ ls) h ctx = ap (λ r. (l.after r.0, r.1)) (wrap-around ls h (l.before ctx))

-- The middleware of the application runs around that of the route, each in its order, for layers
-- around a route without a timeout; the error handler comes after the last layer.
pub run_entry-around :
    {V : Type 0} (a : App (Context V)) (t : Timing V) (entry : Entry (Context V)) (ctx : Context V)
    (outer inner : List (Layer (Context V)))
    → a.middleware ≡ map around outer
    → entry.middleware ≡ map around inner
    → is_nonpos entry.timeout ≡ true
    → run_entry a t entry ctx ≡ (
        let (ctx', e) = entry.handler (way_in inner (way_in outer ctx)) in
        handled a (way_out outer (way_out inner ctx'), e))
unfolding run_entry
run_entry-around a t entry ctx outer inner global route untimed =
    rw (untimed, global, route)
      (ap (handled a) (
        wrap-around outer (wrap (map around inner) entry.handler) ctx
        ∙ ap (λ r. (way_out outer r.0, r.1)) (wrap-around inner entry.handler (way_in outer ctx))))
