-- ===== src/App/Paths.antt =====
-- path.go: the path of a named route. `escape` is url.PathEscape.
pub mod Built
use bebo.Prelude.{
  Bool, true, false, Option, none, some, List, [], ◌∷◌, ◌++◌, if◌then◌else◌, is_empty, ◌||◌,
}
use bebo.Prelude.Text.{Bytes, bytes, has_prefix, trim_prefix, text_eq, trim, split, join}
use bebo.Prelude.Dict.{Dict, lookup, bytes_eq}
use bebo.Router.{Params}
use bebo.App.Table.{App, RouteInfo, route_info}

module _ (escape : Bytes → Bytes) where
  abbrev escaped : Option Bytes → Option Bytes
  escaped none = none
  escaped (some value) = some (escape value)

  abbrev unslashed : Option Bytes → Option Bytes
  unslashed none = none
  unslashed (some value) = some (trim_prefix value (bytes "/"))

  -- One round of the loop of buildPath.
  unfoldable pub build_part : Params → Bytes → Option Bytes
  unfolding has_prefix trim_prefix lookup
  build_part params part =
      if has_prefix part (bytes ":")
      then escaped (lookup (trim_prefix part (bytes ":")) params)
      else if has_prefix part (bytes "*")
      then unslashed (lookup (trim_prefix part (bytes "*")) params)
      else some part

  abbrev both : Option Bytes → Option (List Bytes) → Option (List Bytes)
  both none rest = none
  both (some part) none = none
  both (some part) (some rest) = some (part ∷ rest)

  unfoldable pub build_parts : Params → List Bytes → Option (List Bytes)
  unfolding build_part
  build_parts params [] = some []
  build_parts params (part ∷ parts) = both (build_part params part) (build_parts params parts)

  abbrev slashed : Option (List Bytes) → Option Bytes
  slashed none = none
  slashed (some out) = some (b'/' ∷ join b'/' out)

  unfoldable pub build_path : Bytes → Params → Option Bytes
  unfolding build_parts text_eq trim split join
  build_path pattern params =
      if is_empty pattern || text_eq pattern (bytes "/")
      then some (bytes "/")
      else slashed (build_parts params (split b'/' (trim b'/' pattern)))

  abbrev path_of_info : Option RouteInfo → Params → Option Bytes
  path_of_info none params = none
  path_of_info (some info) params = build_path info.pattern params

  -- App.Path
  unfoldable pub app_path : {C : Type 0} → App C → Bytes → Params → Option Bytes
  unfolding route_info build_path
  app_path a name params = path_of_info (route_info a name) params
