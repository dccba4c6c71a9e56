-- ===== src/Auth/Roles.antt =====
-- auth/roles.go: the roles and the permissions of a principal.
pub mod Granted
use bebo.Prelude.{
  Bool, true, false, not, ◌&&◌, ◌||◌, Option, none, some, List, [], ◌∷◌, if◌then◌else◌, is_empty,
}
use bebo.Prelude.Text.{Bytes, bytes, text_eq}
use bebo.Prelude.Dict.{lookup, bytes_eq}
use bebo.Auth.{Item, text_item, other_item, Value, null, text, strings, items, Claims, Principal}

pub data AuthorizeError : Type 0 where
  missing_role missing_permission : AuthorizeError

-- The loops of HasRole and HasPermission.
unfoldable pub is_listed : List Bytes → Bytes → Bool
unfolding text_eq
is_listed [] name = false
is_listed (x ∷ xs) name = text_eq x name || is_listed xs name

unfoldable pub has_role : Option Principal → Bytes → Bool
unfolding is_listed
has_role none role = false
has_role (some p) role = if is_empty role then false else is_listed p.roles role

-- The loops of HasAnyRole and HasAnyPermission, and of HasAllRoles and HasAllPermissions.
unfoldable pub any_of : (Bytes → Bool) → List Bytes → Bool
any_of has [] = false
any_of has (x ∷ xs) = has x || any_of has xs

unfoldable pub all_of : (Bytes → Bool) → List Bytes → Bool
all_of has [] = true
all_of has (x ∷ xs) = has x && all_of has xs

abbrev is_nil : Option Principal → Bool
is_nil none = true
is_nil (some p) = false

unfoldable pub has_any_role : Option Principal → List Bytes → Bool
unfolding has_role any_of
has_any_role p roles = if is_nil p || is_empty roles then false else any_of (has_role p) roles

unfoldable pub has_all_roles : Option Principal → List Bytes → Bool
unfolding has_role all_of
has_all_roles p roles = if is_nil p || is_empty roles then false else all_of (has_role p) roles

-- The loop over a []any of parseStringList and of parseRoles.
unfoldable pub text_items : List Item → List Bytes
text_items [] = []
text_items (text_item s ∷ more) = s ∷ text_items more
text_items (other_item ∷ more) = text_items more

-- parseStringList of a claim that may be missing.
unfoldable pub parse_string_list : Option Value → List Bytes
unfolding text_items
parse_string_list (some (text s)) = s ∷ []
parse_string_list (some (strings ss)) = ss
parse_string_list (some (items more)) = text_items more
parse_string_list _ = []

unfoldable pub permissions_from_claims : Principal → List Bytes
unfolding parse_string_list lookup
permissions_from_claims p = parse_string_list (lookup (bytes "permissions") p.claims)

unfoldable pub has_permission : Option Principal → Bytes → Bool
unfolding is_listed permissions_from_claims
has_permission none permission = false
has_permission (some p) permission =
    if is_empty permission then false else is_listed (permissions_from_claims p) permission

unfoldable pub has_any_permission : Option Principal → List Bytes → Bool
unfolding has_permission any_of
has_any_permission p permissions =
    if is_nil p || is_empty permissions then false else any_of (has_permission p) permissions

unfoldable pub has_all_permissions : Option Principal → List Bytes → Bool
unfolding has_permission all_of
has_all_permissions p permissions =
    if is_nil p || is_empty permissions then false else all_of (has_permission p) permissions

-- RoleAuthorizer and PermissionAuthorizer
pub record Authorizer : Type 0 where
  pub any : List Bytes
  pub all : List Bytes

unfoldable pub authorize_roles : Authorizer → Option Principal → Option AuthorizeError
unfolding has_any_role has_all_roles
authorize_roles r p =
    if is_empty r.all && is_empty r.any
    then none
    else if is_nil p
    then some missing_role
    else if not (is_empty r.all) && not (has_all_roles p r.all)
    then some missing_role
    else if not (is_empty r.any) && not (has_any_role p r.any)
    then some missing_role
    else none

unfoldable pub authorize_permissions : Authorizer → Option Principal → Option AuthorizeError
unfolding has_any_permission has_all_permissions
authorize_permissions r p =
    if is_empty r.all && is_empty r.any
    then none
    else if is_nil p
    then some missing_permission
    else if not (is_empty r.all) && not (has_all_permissions p r.all)
    then some missing_permission
    else if not (is_empty r.any) && not (has_any_permission p r.any)
    then some missing_permission
    else none
