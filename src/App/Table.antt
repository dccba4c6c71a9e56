-- ===== src/App/Table.antt =====
-- app.go and route_options.go: the registration of routes. `C` is what a handler works on.
pub mod Registered
use bebo.Prelude.{
  ℕ, Bool, true, false, Option, none, some, List, [], ◌∷◌, ◌++◌, if◌then◌else◌, is_empty,
}
use bebo.Prelude.Int.{ℤ, pos}
use bebo.Prelude.Text.{Bytes}
use bebo.Prelude.Result.{Result, ok, err}
use bebo.Prelude.Dict.{Dict, lookup, insert, nat_eq, bytes_eq}
use bebo.Router.{Router, RouteError, new, add_with_host}
use bebo.App.Errors.{Error}

-- A handler changes what it works on, and may return an error.
abbrev pub Handler : Type 0 → Type 0
Handler C = C → C × Option Error

abbrev pub Middleware : Type 0 → Type 0
Middleware C = Handler C → Handler C

-- routeEntry
pub record Entry (C : Type 0) : Type 0 where
  pub method : Bytes
  pub host : Bytes
  pub pattern : Bytes
  pub handler : Handler C
  pub middleware : List (Middleware C)
  pub name : Bytes
  pub timeout : ℤ

-- routeConfig
pub record RouteConfig (C : Type 0) : Type 0 where
  pub name : Bytes
  pub timeout : ℤ
  pub host : Bytes
  pub middleware : List (Middleware C)

-- The options of the package; routeConfig is private to it.
pub data RouteOption (C : Type 0) : Type 0 where
  with_name with_host : Bytes → RouteOption C
  with_timeout : ℤ → RouteOption C
  with_middleware : List (Middleware C) → RouteOption C

pub record App (C : Type 0) : Type 0 where
  pub router : Router
  pub routes : Dict ℕ (Entry C)
  pub routes_by_name : Dict Bytes ℕ
  pub middleware : List (Middleware C)
  pub pre_middleware : List (Handler C)
  pub error_handler : C → Error → C

pub data RegisterError : Type 0 where
  name_taken : RegisterError
  refused : RouteError → RegisterError

-- A request to register a route, as handleWithOptions takes it.
pub record Registration (C : Type 0) : Type 0 where
  pub method : Bytes
  pub path : Bytes
  pub handler : Handler C
  pub middleware : List (Middleware C)
  pub options : List (RouteOption C)

-- RouteInfo
pub record RouteInfo : Type 0 where
  pub name : Bytes
  pub method : Bytes
  pub host : Bytes
  pub pattern : Bytes

-- if cfg.name != ""; is the name registered?
unfoldable pub is_taken : Bytes → Dict Bytes ℕ → Bool
unfolding lookup
is_taken name names =
    if is_empty name then false else elim (lookup name names) [ none ↦ false | some _ ↦ true ]

module _ {C : Type 0} where
  abbrev pub apply_option : RouteOption C → RouteConfig C → RouteConfig C
  apply_option (with_name name) cfg = record cfg { name = name }
  apply_option (with_host host) cfg = record cfg { host = host }
  apply_option (with_timeout timeout) cfg = record cfg { timeout = timeout }
  apply_option (with_middleware ms) cfg = record cfg { middleware = cfg.middleware ++ ms }

  unfoldable pub apply_options : List (RouteOption C) → RouteConfig C → RouteConfig C
  apply_options [] cfg = cfg
  apply_options (o ∷ os) cfg = apply_options os (apply_option o cfg)

  unfoldable pub configured : List (RouteOption C) → RouteConfig C
  unfolding apply_options
  configured options =
      apply_options options (record { name = []; timeout = pos 0; host = []; middleware = [] })

  unfoldable pub new_app : (C → Error → C) → App C
  unfolding new
  new_app error_handler = record {
    router = new;
    routes = [];
    routes_by_name = [];
    middleware = [];
    pre_middleware = [];
    error_handler = error_handler;
  }

  -- Use and UsePre
  abbrev pub use_middleware : List (Middleware C) → App C → App C
  use_middleware ms a = record a { middleware = a.middleware ++ ms }

  abbrev pub use_pre : List (Handler C) → App C → App C
  use_pre ms a = record a { pre_middleware = a.pre_middleware ++ ms }

  abbrev pub entry_of : Registration C → Entry C
  entry_of g =
      let cfg = configured g.options in
      record {
        method = g.method;
        host = cfg.host;
        pattern = g.path;
        handler = g.handler;
        middleware = g.middleware ++ cfg.middleware;
        name = cfg.name;
        timeout = cfg.timeout;
      }

  -- handleWithOptions after AddWithHost.
  abbrev pub recorded :
      Registration C → App C → Router × Result RouteError ℕ → App C × Option RegisterError
  recorded g a (router, err e) = (record a { router = router }, some (refused e))
  recorded g a (router, ok id) =
      let entry = entry_of g in
      (
        record a {
          router = router;
          routes = insert id entry a.routes;
          routes_by_name =
              if is_empty entry.name
              then a.routes_by_name
              else insert entry.name id a.routes_by_name;
        },
        none,
      )

  -- handleWithOptions; what it logs is returned.
  unfoldable pub handle_with_options : Registration C → App C → App C × Option RegisterError
  unfolding configured is_taken insert add_with_host
  handle_with_options g a =
      let cfg = configured g.options in
      if is_taken cfg.name a.routes_by_name
      then (a, some name_taken)
      else recorded g a (add_with_host a.router g.method cfg.host g.path)

  unfoldable pub register_all : List (Registration C) → App C → App C
  unfolding handle_with_options
  register_all [] a = a
  register_all (g ∷ gs) a = register_all gs (handle_with_options g a).0

  abbrev info_of : Option (Entry C) → Option RouteInfo
  info_of none = none
  info_of (some e) =
      some (record { name = e.name; method = e.method; host = e.host; pattern = e.pattern })

  abbrev info_at : Option ℕ → Dict ℕ (Entry C) → Option RouteInfo
  info_at none routes = none
  info_at (some id) routes = info_of (lookup id routes)

  -- App.RouteInfo
  unfoldable pub route_info : App C → Bytes → Option RouteInfo
  unfolding lookup
  route_info a name = info_at (lookup name a.routes_by_name) a.routes
