-- ===== src/App/Serve.antt =====
-- app.go and timeout.go: the dispatch of a request. `V` is the type of what a handler keeps in the
-- values of its context; a writer that other middleware puts in front of the response is not
-- represented.
pub mod Routed
pub mod Deadline
pub mod Around
use bebo.Prelude.{
  ℕ, Bool, true, false, Option, none, some, List, [], ◌∷◌, ◌++◌, if◌then◌else◌, is_empty,
}
use bebo.Prelude.Int.{ℤ, is_nonpos}
use bebo.Prelude.Text.{Bytes, bytes, has_prefix}
use bebo.Prelude.Ascii.{to_lower, contains, split_host_port}
use bebo.Prelude.Dict.{Dict, lookup, insert, nat_eq}
use bebo.Router.{Router, Params, match_host, allowed_host}
use bebo.App.Errors.{
  AppError, Error, plain, not_found, method_not_allowed, timeout_error, reported,
  error_template_name,
}
use bebo.App.Response.{
  Writer, Action, set_header, write_header, write, act_all, client_action, new_timeout_writer,
  depth, commit, expire, on_client,
}
use bebo.App.Table.{Handler, Middleware, Entry, App}

pub record Request : Type 0 where
  pub method : Bytes
  pub host : Bytes
  pub url_host : Bytes
  pub path : Bytes
  pub accept : Bytes

pub record Context (V : Type 0) : Type 0 where
  pub writer : Writer
  pub request : Request
  pub params : Params
  pub values : V

-- How a handler runs under a deadline: whether the deadline passes before it returns, and what it
-- has done by then.
pub record Timing (V : Type 0) : Type 0 where
  pub expires : Bool
  pub so_far : Context V → Context V

abbrev host_of : Option (Bytes × Bytes) → Bytes → Bytes
host_of none host = host
host_of (some (h, _)) host = h

unfoldable pub request_host : Request → Bytes
unfolding contains split_host_port
request_host r =
    let host = if is_empty r.host then r.url_host else r.host in
    if contains b':' host then host_of (split_host_port host) host else host

-- strings.Join(methods, ", ")
unfoldable pub join_methods : List Bytes → Bytes
join_methods [] = []
join_methods (m ∷ []) = m
join_methods (m ∷ n ∷ ms) = m ++ (bytes ", " ++ join_methods (n ∷ ms))

-- The loops that wrap a handler, the last middleware first.
unfoldable pub wrap : {C : Type 0} → List (Middleware C) → Handler C → Handler C
wrap [] h = h
wrap (m ∷ ms) h = m (wrap ms h)

-- The texts of error pages, and the template engine (none for nil): what its Render does to the
-- writer, and whether it succeeds.
pub record Pages : Type 0 where
  pub json : Error → Bytes
  pub html : Error → Bytes
  pub templates : Dict ℕ Bytes
  pub renderer : Option (ℕ → Bytes → Error → List Action × Bool)

-- strings.Contains(s, sub)
unfoldable pub has_text : Bytes → Bytes → Bool
unfolding has_prefix
has_text [] sub = has_prefix [] sub
has_text (c ∷ s) sub = if has_prefix (c ∷ s) sub then true else has_text s sub

unfoldable pub wants_json : Request → Bool
unfolding to_lower has_text
wants_json r =
    if is_empty r.accept then true else has_text (to_lower r.accept) (bytes "application/json")

abbrev pub page : Bytes → ℕ → Bytes → List Action
page content_type status text =
    set_header (bytes "Content-Type") content_type ∷ write_header status ∷ write text ∷ []

abbrev html_page : Pages → Error → List Action
html_page pages e = page (bytes "text/html; charset=utf-8") (reported e).status (pages.html e)

abbrev or_html : List Action × Bool → List Action → List Action
or_html (done, true) other = done
or_html (done, false) other = done ++ other

abbrev templated :
    Option (ℕ → Bytes → Error → List Action × Bool) → Option Bytes → Pages → Error → List Action
templated none name pages e = html_page pages e
templated (some render) none pages e = html_page pages e
templated (some render) (some name) pages e =
    or_html (render (reported e).status name e) (html_page pages e)

unfoldable pub error_response : Pages → Request → Error → List Action
unfolding wants_json reported error_template_name
error_response pages r e =
    if wants_json r
    then page (bytes "application/json; charset=utf-8") (reported e).status (pages.json e)
    else templated pages.renderer (error_template_name pages.templates (reported e).status) pages e

module _ {V : Type 0} where
  unfoldable pub default_error_handler : Pages → Context V → Error → Context V
  unfolding error_response act_all
  default_error_handler pages ctx e = record ctx {
    writer = act_all (error_response pages ctx.request e) ctx.writer;
  }

  abbrev expired : Context V → ℕ → Context V × Option Error
  expired ctx n = (
    record ctx { writer = expire n ctx.writer },
    some (timeout_error (bytes "request timeout") (plain (bytes "context deadline exceeded"))),
  )

  abbrev finished : Context V × Option Error → ℕ → Context V × Option Error
  finished (ctx, e) n = (record ctx { writer = commit n ctx.writer }, e)

  -- TimeoutHandler
  unfoldable pub timeout_handler : Timing V → Handler (Context V) → ℤ → Handler (Context V)
  unfolding new_timeout_writer commit expire
  timeout_handler t next duration ctx =
      if is_nonpos duration
      then next ctx
      else (let ctx' = record ctx { writer = new_timeout_writer ctx.writer } in
          let n = depth ctx.writer in
          if t.expires then expired (t.so_far ctx') n else finished (next ctx') n)

  unfoldable pub run_pre_middleware : List (Handler (Context V)) → Handler (Context V)
  run_pre_middleware [] ctx = (ctx, none)
  run_pre_middleware (m ∷ ms) ctx =
      let (ctx', result) = m ctx in
      elim result [ some e ↦ (ctx', some e) | none ↦ run_pre_middleware ms ctx' ]

  -- if err := h(ctx); err != nil { a.errorHandler(ctx, err) }
  abbrev pub handled : App (Context V) → Context V × Option Error → Context V
  handled a (ctx, none) = ctx
  handled a (ctx, some e) = a.error_handler ctx e

  unfoldable pub run_with_middleware : App (Context V) → Handler (Context V) → Context V → Context V
  unfolding wrap
  run_with_middleware a h ctx = handled a (wrap a.middleware h ctx)

  abbrev pub fails_with : Error → Handler (Context V)
  fails_with e ctx = (ctx, some e)

  -- ServeHTTP after a match, and after none.
  unfoldable pub run_entry : App (Context V) → Timing V → Entry (Context V) → Context V → Context V
  unfolding wrap timeout_handler
  run_entry a t entry ctx =
      let h = wrap a.middleware (wrap entry.middleware entry.handler) in
      handled a (if is_nonpos entry.timeout then h ctx else timeout_handler t h entry.timeout ctx)

  unfoldable pub run_unmatched : App (Context V) → List Bytes → Context V → Context V
  unfolding run_with_middleware join_methods
  run_unmatched a allowed ctx =
      if is_empty allowed
      then run_with_middleware a (fails_with (not_found (bytes "not found"))) ctx
      else run_with_middleware a (fails_with (method_not_allowed (bytes "method not allowed")))
          (record ctx {
            writer =
                on_client (client_action (set_header (bytes "Allow") (join_methods allowed)))
                  ctx.writer;
          })

  -- The rest of ServeHTTP after the pre-middleware; `none` is the dereference of a nil entry.
  unfoldable pub dispatch : App (Context V) → Timing V → Context V → Option (Context V)
  unfolding match_host allowed_host request_host run_entry run_unmatched lookup
  dispatch a t ctx =
      let host = request_host ctx.request in
      elim (match_host a.router ctx.request.method host ctx.request.path) [
        | none ↦ some (run_unmatched a (allowed_host a.router host ctx.request.path) ctx)
        | some (id, params) ↦ elim (lookup id a.routes) [
          | none ↦ none
          | some entry ↦ some (run_entry a t entry (record ctx { params = params }))
        ]
      ]

  -- ServeHTTP
  unfoldable pub serve : App (Context V) → Timing V → Context V → Option (Context V)
  unfolding run_pre_middleware dispatch
  serve a t ctx =
      let (ctx', result) = run_pre_middleware a.pre_middleware ctx in
      elim result [ some e ↦ some (a.error_handler ctx' e) | none ↦ dispatch a t ctx' ]
