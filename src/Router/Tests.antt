-- ===== src/Router/Tests.antt =====
-- router/router.go: the theorems at a small table of routes.
use bebo.Prelude.{◌≡◌, ◌≢◌, ◌↔◌, ◌⊎◌, refl, true, false, none, some, List, [], ◌∷◌, Memᴰ, arith}
use bebo.Prelude.Text.{Bytes, bytes, has_prefix}
use bebo.Prelude.Result.{ok}
use bebo.Router.{
  Segment, static, param, Route, Router, new, split_path, parse_pattern, normalize_host,
  match_segments, match_host, allowed_host, add_with_host, path_or_root,
}
use bebo.Router.Fits.{Fits, store_all, insert_all, match_segments_iff}
use bebo.Router.Select.{First, match_host-eq-some_iff}
use bebo.Router.Allowed.{match_host-allowed_host}
use bebo.Router.Pattern.{print, parse_pattern-print}

abbrev user_segments : List Segment
user_segments = static (bytes "users") ∷ param (bytes "id") ∷ []

abbrev user_route : Route
user_route = record {
  id = 0;
  method = bytes "GET";
  host = [];
  pattern = bytes "/users/:id";
  segments = user_segments;
}

abbrev table : Router
table = record { routes = user_route ∷ []; next_id = 1 }

abbrev user_parts : List Bytes
user_parts = bytes "users" ∷ bytes "7" ∷ []

registered : (add_with_host new (bytes "GET") [] (bytes "/users/:id")).0 ≡ table
unfolding add_with_host new
registered = refl

match_segments_iff_example :
    (match_segments user_segments user_parts (some [])
      ≡ (true, some ((bytes "id", bytes "7") ∷ [])))
    ↔ ((bs : List (Bytes × Bytes)) × Fits user_segments user_parts bs
        × (some ((bytes "id", bytes "7") ∷ []) ≡ store_all bs (some [])))
match_segments_iff_example =
    match_segments_iff user_segments user_parts (some []) (some ((bytes "id", bytes "7") ∷ []))

match_host-eq-some_iff_example :
    (match_host table (bytes "GET") [] (bytes "/users/7") ≡ some (0, (bytes "id", bytes "7") ∷ []))
    ↔ ((rt : Route) × (bs : List (Bytes × Bytes)) × First
          (bytes "GET")
          (normalize_host [])
          (split_path (path_or_root (bytes "/users/7")))
          table.routes
          rt
          bs
        × (0 ≡ rt.id)
        × ((bytes "id", bytes "7") ∷ [] ≡ insert_all bs []))
match_host-eq-some_iff_example =
    match_host-eq-some_iff table (bytes "GET") [] (bytes "/users/7") 0
      ((bytes "id", bytes "7") ∷ [])

match_host-allowed_host_example : (match_host table (bytes "POST") [] (bytes "/users/7") ≢ none) ↔ (
    Memᴰ (bytes "POST") (allowed_host table [] (bytes "/users/7"))
    ⊎ Memᴰ (bytes "*") (allowed_host table [] (bytes "/users/7")))
match_host-allowed_host_example = match_host-allowed_host table (bytes "POST") [] (bytes "/users/7")

accepted : (add_with_host new (bytes "GET") [] (bytes "/users/:id")).1 ≡ ok 0
unfolding add_with_host new
accepted = refl

users_literal :
    (bytes "users" ≢ [])
    × (has_prefix (bytes "users") (bytes ":") ≡ false)
    × (has_prefix (bytes "users") (bytes "*") ≡ false)
unfolding has_prefix
users_literal = (λ e. cc, refl, refl)

parse_pattern-print_example : parse_pattern (print user_segments) ≡ ok user_segments
parse_pattern-print_example =
    parse_pattern-print user_segments
      (users_literal.0, users_literal.1, users_literal.2, (λ e. cc, tt))
      (
        (
          (λ e. omega (arith, e)),
          (
            (λ e. omega (arith, e)),
            ((λ e. omega (arith, e)), ((λ e. omega (arith, e)), ((λ e. omega (arith, e)), tt))),
          ),
        ),
        (((λ e. omega (arith, e)), ((λ e. omega (arith, e)), ((λ e. omega (arith, e)), tt))), tt),
      )
