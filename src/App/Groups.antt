-- ===== src/App/Groups.antt =====
-- group.go: route groups, with a prefix and middleware.
pub mod Prefixes
use bebo.Prelude.{
  Bool, true, false, Option, List, [], ◌∷◌, ◌++◌, if◌then◌else◌, is_empty, not, ◌||◌,
}
use bebo.Prelude.Text.{Bytes, bytes, has_prefix, text_eq, trim, trim_right}
use bebo.App.Table.{
  Middleware, RouteOption, Handler, Registration, RegisterError, App, handle_with_options,
}

-- len(prefix) > 1
abbrev is_longer : Bytes → Bool
is_longer [] = false
is_longer (c ∷ s) = not (is_empty s)

unfoldable pub clean_prefix : Bytes → Bytes
unfolding has_prefix trim_right
clean_prefix prefix =
    if is_empty prefix
    then []
    else (let slashed = if has_prefix prefix (bytes "/") then prefix else b'/' ∷ prefix in
        if is_longer slashed then trim_right b'/' slashed else slashed)

unfoldable pub join_paths : Bytes → Bytes → Bytes
unfolding clean_prefix text_eq trim_right
join_paths base path =
    if is_empty base
    then clean_prefix path
    else if is_empty path || text_eq path (bytes "/")
    then clean_prefix base
    else if text_eq (clean_prefix base) (bytes "/")
    then clean_prefix path
    else trim_right b'/' (clean_prefix base) ++ clean_prefix path

-- Group, without the application that it registers with.
pub record Group (C : Type 0) : Type 0 where
  pub prefix : Bytes
  pub middleware : List (Middleware C)

module _ {C : Type 0} where
  -- App.Group, App.Version and Group.Group
  unfoldable pub app_group : Bytes → List (Middleware C) → Group C
  unfolding clean_prefix
  app_group prefix ms = record { prefix = clean_prefix prefix; middleware = ms }

  unfoldable pub version_group : Bytes → List (Middleware C) → Group C
  unfolding app_group trim
  version_group version ms = app_group (bytes "/api/" ++ trim b'/' version) ms

  unfoldable pub sub_group : Group C → Bytes → List (Middleware C) → Group C
  unfolding join_paths
  sub_group g prefix ms = record {
    prefix = join_paths g.prefix prefix;
    middleware = g.middleware ++ ms;
  }

  -- What Group.handle passes on to the application.
  unfoldable pub group_registration : Group C → Registration C → Registration C
  unfolding join_paths
  group_registration g r = record r {
    path = join_paths g.prefix r.path;
    middleware = g.middleware ++ r.middleware;
  }

  unfoldable pub group_handle : Group C → Registration C → App C → App C × Option RegisterError
  unfolding group_registration handle_with_options
  group_handle g r a = handle_with_options (group_registration g r) a
