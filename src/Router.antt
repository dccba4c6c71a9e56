-- ===== src/Router.antt =====
-- router/router.go: route patterns, host patterns, and the choice of a route.
-- Texts are byte lists (Prelude.Text); a Go map is an association list (Prelude.Dict).
pub mod Pattern
pub mod Fits
pub mod Select
pub mod Allowed
pub mod Ids
pub mod Host
mod Tests
use bebo.Prelude.{
  ℕ, ◌+◌, Bool, true, false, ◌&&◌, ◌||◌, not, Option, none, some, List, [], ◌∷◌, ◌++◌, ◌==◌,
  if◌then◌else◌, is_empty,
}
use bebo.Prelude.Text.{
  Bytes, bytes, text_eq, has_prefix, trim_prefix, has_suffix, trim, split, join,
}
use bebo.Prelude.Ascii.{to_lower, equal_fold, trim_space, contains, split_host_port}
use bebo.Prelude.Dict.{Dict, lookup, insert, bytes_eq}
use bebo.Prelude.Result.{Result, ok, err, ◌>>=◌}

-- A segment's kind with its value.
pub data Segment : Type 0 where
  static param wildcard : Bytes → Segment

pub record Route : Type 0 where
  pub id : ℕ
  pub method : Bytes
  pub host : Bytes
  pub pattern : Bytes
  pub segments : List Segment

pub record Router : Type 0 where
  pub routes : List Route
  pub next_id : ℕ

pub data RouteError : Type 0 where
  method_required pattern_slash empty_segment param_name wildcard_name wildcard_last : RouteError

abbrev pub Params : Type 0
Params = Dict Bytes Bytes

unfoldable pub new : Router
new = record { routes = []; next_id = 0 }

unfoldable pub split_path : Bytes → List Bytes
unfolding trim split
split_path path = let clean = trim b'/' path in if is_empty clean then [] else split b'/' clean

-- One round of the loop of parsePattern; `last` is i == len(parts)-1.
unfoldable pub parse_part : Bytes → Bool → Result RouteError Segment
unfolding has_prefix trim_prefix
parse_part part last =
    if is_empty part
    then err empty_segment
    else if has_prefix part (bytes ":")
    then (let name = trim_prefix part (bytes ":") in
        if is_empty name then err param_name else ok (param name))
    else if has_prefix part (bytes "*")
    then (let name = trim_prefix part (bytes "*") in
        if is_empty name
        then err wildcard_name
        else if last
        then ok (wildcard name)
        else err wildcard_last)
    else ok (static part)

-- The loop of parsePattern.
unfoldable pub parse_parts : List Bytes → Result RouteError (List Segment)
unfolding parse_part
parse_parts [] = ok []
parse_parts (part ∷ parts) = do
  seg ← parse_part part (is_empty parts)
  segs ← parse_parts parts
  ok (seg ∷ segs)

unfoldable pub parse_pattern : Bytes → Result RouteError (List Segment)
unfolding parse_parts split_path text_eq
parse_pattern pattern =
    if text_eq pattern (bytes "/") then ok [] else parse_parts (split_path pattern)

-- net.SplitHostPort's host where it succeeds, and the text as it is where it does not.
abbrev host_or : Option (Bytes × Bytes) → Bytes → Bytes
host_or none host = host
host_or (some (h, _)) host = h

unfoldable pub normalize_host : Bytes → Bytes
unfolding to_lower trim_space contains split_host_port
normalize_host host =
    if is_empty host
    then []
    else (let clean = to_lower (trim_space host) in
        if contains b':' clean then host_or (split_host_port clean) clean else clean)

unfoldable pub host_matches : Bytes → Bytes → Bool
unfolding text_eq has_prefix trim_prefix has_suffix equal_fold
host_matches pattern host =
    if is_empty pattern || text_eq pattern (bytes "*")
    then true
    else if is_empty host
    then false
    else if has_prefix pattern (bytes "*.")
    then (let suffix = trim_prefix pattern (bytes "*") in
        has_suffix host suffix && not (text_eq host (trim_prefix suffix (bytes "."))))
    else equal_fold pattern host

unfoldable pub method_matches : Bytes → Bytes → Bool
unfolding text_eq
method_matches route_method request_method =
    text_eq route_method (bytes "*") || text_eq route_method request_method

-- params[name] = value, if params != nil
abbrev pub store : Bytes → Bytes → Option Params → Option Params
store name value none = none
store name value (some m) = some (insert name value m)

-- The loop of matchSegments over the pattern and the parts from pi on; the Boolean is its result,
-- and the map (none for nil) is what it has written.
unfoldable pub match_segments : List Segment → List Bytes → Option Params → Bool × Option Params
unfolding text_eq join insert
match_segments [] parts params = (is_empty parts, params)
match_segments (static v ∷ more) [] params = (false, params)
match_segments (static v ∷ more) (part ∷ parts) params =
    let rest = match_segments more parts params in if text_eq part v then rest else (false, params)
match_segments (param v ∷ more) [] params = (false, params)
match_segments (param v ∷ more) (part ∷ parts) params =
    match_segments more parts (store v part params)
match_segments (wildcard v ∷ more) parts params = (true, store v (join b'/' parts) params)

-- Both matchers read the empty path as "/".
abbrev pub path_or_root : Bytes → Bytes
path_or_root path = if is_empty path then bytes "/" else path

-- The result of one route's match: the id with the parameters, if it fits.
abbrev pub hit : ℕ → Bool × Option Params → Option (ℕ × Params)
hit id (true, some params) = some (id, params)
hit id (true, none) = some (id, [])
hit id (false, _) = none

abbrev pub or_else {ℓ} : {A : Type ℓ} → Option A → Option A → Option A
or_else none other = other
or_else (some a) _ = some a

-- The loop of MatchHost.
unfoldable pub match_routes : Bytes → Bytes → List Bytes → List Route → Option (ℕ × Params)
unfolding method_matches host_matches match_segments
match_routes method host parts [] = none
match_routes method host parts (rt ∷ rts) =
    let rest = match_routes method host parts rts in
    if not (method_matches rt.method method)
    then rest
    else if not (host_matches rt.host host)
    then rest
    else or_else (hit rt.id (match_segments rt.segments parts (some []))) rest

unfoldable pub match_host : Router → Bytes → Bytes → Bytes → Option (ℕ × Params)
unfolding match_routes split_path normalize_host
match_host r method host path =
    match_routes method (normalize_host host) (split_path (path_or_root path)) r.routes

-- The loop of AllowedHost; the map seen keeps the methods that are listed already.
unfoldable pub allowed_routes : Bytes → List Bytes → Dict Bytes (Unit {0}) → List Route → List Bytes
unfolding host_matches match_segments lookup insert
allowed_routes host parts seen [] = []
allowed_routes host parts seen (rt ∷ rts) =
    let skip = allowed_routes host parts seen rts in
    let taken = rt.method ∷ allowed_routes host parts (insert rt.method tt seen) rts in
    if not (host_matches rt.host host)
    then skip
    else if (match_segments rt.segments parts none).0
    then elim (lookup rt.method seen) [ none ↦ taken | some _ ↦ skip ]
    else skip

unfoldable pub allowed_host : Router → Bytes → Bytes → List Bytes
unfolding allowed_routes split_path normalize_host
allowed_host r host path =
    allowed_routes (normalize_host host) (split_path (path_or_root path)) [] r.routes

abbrev pub starts_with_slash : Bytes → Bool
starts_with_slash [] = false
starts_with_slash (c ∷ _) = c == b'/'

-- The end of AddWithHost, on the outcome of parsePattern.
abbrev pub added :
    Router → Bytes → Bytes → Bytes → Result RouteError (List Segment) → Router × Result RouteError ℕ
added r method host pattern (err e) = (r, err e)
added r method host pattern (ok segs) = (
  record {
    routes =
        r.routes
        ++ (record {
          id = r.next_id;
          method = method;
          host = host;
          pattern = pattern;
          segments = segs;
        }
            ∷ []);
    next_id = r.next_id + 1;
  },
  ok r.next_id,
)

unfoldable pub add_with_host : Router → Bytes → Bytes → Bytes → Router × Result RouteError ℕ
unfolding parse_pattern normalize_host
add_with_host r method host pattern =
    if is_empty method
    then (r, err method_required)
    else if not (starts_with_slash pattern)
    then (r, err pattern_slash)
    else added r method (normalize_host host) pattern (parse_pattern pattern)

unfoldable pub add : Router → Bytes → Bytes → Router × Result RouteError ℕ
unfolding add_with_host
add r method pattern = add_with_host r method [] pattern

unfoldable pub match_path : Router → Bytes → Bytes → Option (ℕ × Params)
unfolding match_host
match_path r method path = match_host r method [] path

unfoldable pub allowed : Router → Bytes → List Bytes
unfolding allowed_host
allowed r path = allowed_host r [] path
