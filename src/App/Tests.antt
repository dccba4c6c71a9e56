-- ===== src/App/Tests.antt =====
-- The application: the theorems at a small application.
use bebo.Prelude.{
  ◌↔◌, ◌≡◌, ◌≢◌, refl, false, none, some, List, [], ◌∷◌, map, arith, All, Memᴰ, inl, inr,
}
use bebo.Prelude.Int.{pos}
use bebo.Prelude.Text.{Bytes, bytes, text_eq, has_prefix}
use bebo.Prelude.Dict.{lookup, nat_eq, bytes_eq}
use bebo.Router.{
  static, param, Route, Params, new, normalize_host, split_path, path_or_root, host_matches,
}
use bebo.Router.Fits.{Fits, insert_all}
use bebo.Router.Select.{First, Passes}
use bebo.Router.Pattern.{print}
use bebo.App.Errors.{plain, method_not_allowed}
use bebo.Prelude.Dict.{lookup, bytes_eq}
use bebo.App.Response.{
  Headers, add, set, direct, Action, set_header, write_header, write, act, act_all, client,
  client_action, on_client, new_timeout_writer, commit, expire, received,
}
use bebo.App.Response.Buffered.{expire-client}
use bebo.App.Response.Transparent.{commit-transparent}
use bebo.App.Table.{Handler, Entry, App, Registration, with_name, new_app, register_all}
use bebo.App.Table.Registered.{Describes, IsTable, register_all-IsTable}
use bebo.App.Serve.{
  Context, Request, Timing, Pages, request_host, join_methods, wrap, fails_with,
  default_error_handler, run_with_middleware, run_entry, dispatch,
}
use bebo.Router.Allowed.{Has, IsDistinct}
use bebo.App.Serve.Routed.{dispatch-First, dispatch-not_allowed}
use bebo.App.Serve.Around.{Layer, around, way_in, way_out, run_entry-around}
use bebo.App.Serve.Deadline.{unsent, run_entry-error_lost}
use bebo.App.Groups.Prefixes.{path_of, AreParts}
use bebo.App.Paths.{build_path}
use bebo.App.Paths.Built.{build_path-Fits}

abbrev pages : Pages
pages = record { json = λ e. bytes "{}"; html = λ e. bytes "oops"; templates = []; renderer = none }

abbrev greet : Handler (Context (Unit {0}))
greet ctx = (record ctx { writer = act (write (bytes "hi")) ctx.writer }, none)

abbrev user_registration : Registration (Context (Unit {0}))
user_registration = record {
  method = bytes "GET";
  path = bytes "/users/:id";
  handler = greet;
  middleware = [];
  options = with_name (bytes "user") ∷ [];
}

abbrev started : App (Context (Unit {0}))
started = new_app (default_error_handler pages)

abbrev small_app : App (Context (Unit {0}))
small_app = register_all (user_registration ∷ []) started

register_all-IsTable_example : IsTable small_app
register_all-IsTable_example =
    register_all-IsTable (user_registration ∷ []) (default_error_handler pages)

abbrev get_user : Request
get_user = record {
  method = bytes "GET";
  host = bytes "a.b:80";
  url_host = [];
  path = bytes "/users/7";
  accept = [];
}

abbrev get_context : Context (Unit {0})
get_context = unsent [] get_user [] tt

abbrev post_context : Context (Unit {0})
post_context = unsent [] (record get_user { method = bytes "POST" }) [] tt

abbrev prompt : Timing (Unit {0})
prompt = record { expires = false; so_far = λ ctx. ctx }

abbrev user_route : Route
user_route = record {
  id = 0;
  method = bytes "GET";
  host = [];
  pattern = bytes "/users/:id";
  segments = static (bytes "users") ∷ param (bytes "id") ∷ [];
}

small_routes : small_app.router.routes ≡ user_route ∷ []
unfolding register_all new_app new
small_routes = refl

small-IsTable : IsTable small_app
small-IsTable = register_all-IsTable_example

user-Fits : Fits user_route.segments (bytes "users" ∷ bytes "7" ∷ []) ((bytes "id", bytes "7") ∷ [])
user-Fits = Fits.literal (Fits.binds Fits.end)

user-First :
    First
      (bytes "GET")
      (normalize_host (request_host get_user))
      (split_path (path_or_root (bytes "/users/7")))
      small_app.router.routes
      user_route
      ((bytes "id", bytes "7") ∷ [])
unfolding split_path host_matches
user-First = rw small_routes (First.here (inr refl, refl, user-Fits))

dispatch-First_example :
    (entry : Entry (Context (Unit {0}))) × Describes entry user_route
    × (lookup 0 small_app.routes ≡ some entry)
    × (dispatch small_app prompt get_context
        ≡ some (
            run_entry small_app prompt entry
              (record get_context { params = insert_all ((bytes "id", bytes "7") ∷ []) [] })))
dispatch-First_example = dispatch-First small_app prompt get_context small-IsTable user-First

user-Passes :
    All
      (Passes
        (bytes "POST")
        (normalize_host (request_host get_user))
        (split_path (path_or_root (bytes "/users/7"))))
      small_app.router.routes
user-Passes = rw small_routes ((λ bs (m, _, _). elim m [ inl e ↦ cc | inr e ↦ cc ]), tt)

user_offered :
    Has
      (normalize_host (request_host get_user))
      (split_path (path_or_root (bytes "/users/7")))
      (bytes "GET")
      small_app.router.routes
unfolding split_path host_matches
user_offered =
    rw small_routes
      (user_route, Memᴰ.head refl, refl, (refl, ((bytes "id", bytes "7") ∷ [], user-Fits)))

dispatch-not_allowed_example :
    (allowed : List Bytes) × ((n : Bytes)
      → Memᴰ n allowed
        ↔ Has
            (normalize_host (request_host get_user))
            (split_path (path_or_root (bytes "/users/7")))
            n
            small_app.router.routes)
    × IsDistinct allowed
    × (dispatch small_app prompt post_context
        ≡ some (
            run_with_middleware small_app
              (fails_with (method_not_allowed (bytes "method not allowed")))
              (record post_context {
                writer =
                    on_client
                      (client_action (set_header (bytes "Allow") (join_methods allowed)))
                      post_context.writer;
              })))
unfolding request_host
dispatch-not_allowed_example =
    dispatch-not_allowed small_app prompt post_context user-Passes user_offered

abbrev mark : Bytes → Layer (Context (Unit {0}))
mark text = record {
  before = λ ctx. record ctx { writer = act (write text) ctx.writer };
  after = λ ctx. record ctx { writer = act (write text) ctx.writer };
}

abbrev layered : App (Context (Unit {0}))
layered = record started { middleware = map around (mark (bytes "a") ∷ []) }

abbrev layered_entry : Entry (Context (Unit {0}))
layered_entry = record {
  method = bytes "GET";
  host = [];
  pattern = bytes "/";
  handler = greet;
  middleware = map around (mark (bytes "b") ∷ []);
  name = [];
  timeout = pos 0;
}

run_entry-around_example : run_entry layered prompt layered_entry get_context ≡ record get_context {
  writer = direct (record { header = []; sent = some (200, []); body = bytes "abhiba" });
}
unfolding way_in way_out
run_entry-around_example =
    run_entry-around layered prompt layered_entry get_context (mark (bytes "a") ∷ [])
      (mark (bytes "b") ∷ []) refl refl refl

abbrev hello_actions : List Action
hello_actions = set_header (bytes "X") (bytes "1") ∷ write_header 201 ∷ write (bytes "hi") ∷ []

expire-client_example :
    (client (
        act_all hello_actions
          (expire 0 (act_all hello_actions (new_timeout_writer get_context.writer))))
      ≡ client get_context.writer)
    × (client (
          commit 0 (
            act_all hello_actions
              (expire 0 (act_all hello_actions (new_timeout_writer get_context.writer)))))
        ≡ client get_context.writer)
expire-client_example = expire-client hello_actions hello_actions get_context.writer

-- What RequestID has set before the handler.
abbrev with_request_id : Headers
with_request_id = (bytes "Id", bytes "a" ∷ []) ∷ []

commit-transparent_example :
    received (
      commit 0 (
        act_all hello_actions (
          new_timeout_writer
            (direct (record { header = with_request_id; sent = none; body = [] })))))
    ≡ received (
        act_all hello_actions
          (direct (record { header = with_request_id; sent = none; body = [] })))
unfolding lookup text_eq
commit-transparent_example =
    commit-transparent with_request_id hello_actions ((λ e. omega (arith, e)), tt) (refl, tt)

-- A header that the response already has is replaced without the timeoutWriter, and gets a second
-- value with it.
commit_repeats_header :
    received (
      commit 0 (
        act_all hello_actions (
          new_timeout_writer (
            direct
              (record { header = (bytes "X", bytes "0" ∷ []) ∷ []; sent = none; body = [] })))))
    ≡ (some (201, (bytes "X", bytes "0" ∷ bytes "1" ∷ []) ∷ []), bytes "hi")
unfolding received commit act_all new_timeout_writer add set text_eq
commit_repeats_header = refl

abbrev failing_entry : Entry (Context (Unit {0}))
failing_entry = record layered_entry {
  handler = fails_with (plain (bytes "broken"));
  middleware = [];
  timeout = pos 5;
}

failing_fails :
    (ctx : Context (Unit {0}))
    → wrap started.middleware (wrap failing_entry.middleware failing_entry.handler) ctx
      ≡ (ctx, some (plain (bytes "broken")))
unfolding wrap new_app
failing_fails ctx = refl

run_entry-error_lost_example :
    received (run_entry started prompt failing_entry get_context).writer ≡ (some (200, []), [])
run_entry-error_lost_example =
    run_entry-error_lost pages [] get_user [] tt started prompt failing_entry
      (plain (bytes "broken")) (unfold new_app in refl) refl refl failing_fails

abbrev api : List Bytes
api = bytes "api" ∷ []

api-AreParts : AreParts api
api-AreParts = (
  ((λ e. cc), ((λ e. omega (arith, e)), ((λ e. omega (arith, e)), ((λ e. omega (arith, e)), tt)))),
  tt,
)

abbrev id_seven : Params
id_seven = (bytes "id", bytes "7") ∷ []

users_part : (bytes "users" ≢ []) × All (λ c. c ≢ b'/') (bytes "users")
users_part = (
  (λ e. cc),
  (
    (λ e. omega (arith, e)),
    (
      (λ e. omega (arith, e)),
      ((λ e. omega (arith, e)), ((λ e. omega (arith, e)), ((λ e. omega (arith, e)), tt))),
    ),
  ),
)

seven_part : (bytes "7" ≢ []) × All (λ c. c ≢ b'/') (bytes "7")
seven_part = ((λ e. cc), ((λ e. omega (arith, e)), tt))

id_part : All (λ c. c ≢ b'/') (bytes ":id")
id_part = ((λ e. omega (arith, e)), ((λ e. omega (arith, e)), ((λ e. omega (arith, e)), tt)))

build_path-Fits_example :
    (build_path (λ v. v) (print user_route.segments) id_seven
      ≡ some (path_of (bytes "users" ∷ bytes "7" ∷ [])))
    × (split_path (path_of (bytes "users" ∷ bytes "7" ∷ [])) ≡ bytes "users" ∷ bytes "7" ∷ [])
unfolding has_prefix lookup text_eq
build_path-Fits_example =
    build_path-Fits (λ v. v) id_seven user-Fits ((λ e. cc), refl, refl, ((λ e. cc), tt))
      (users_part.1, (id_part, tt)) (users_part, (seven_part, tt)) ((refl, (λ e. cc), refl), tt)
