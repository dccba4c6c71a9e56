-- ===== src/Auth.antt =====
-- auth: JSON web tokens (jwt.go, jwt_keys.go), and roles and permissions (roles.go).
pub mod Jwt
pub mod Roles
mod Tests
use bebo.Prelude.{List}
use bebo.Prelude.Int.{ℤ}
use bebo.Prelude.Text.{Bytes}
use bebo.Prelude.Dict.{Dict}

-- An element of a []any: a string, or anything else.
pub data Item : Type 0 where
  text_item : Bytes → Item
  other_item : Item

-- A value of a claim: `number` is an integer (a json.Number that is an int64, an int64 or an int, or
-- a float64 by its whole part), `not_integer` a json.Number that is none.
pub data Value : Type 0 where
  null not_integer other : Value
  text : Bytes → Value
  number : ℤ → Value
  strings : List Bytes → Value
  items : List Item → Value

abbrev pub Claims : Type 0
Claims = Dict Bytes Value

pub record Principal : Type 0 where
  pub id : Bytes
  pub roles : List Bytes
  pub claims : Claims
