-- ===== src/Session/CookieStore.antt =====
-- session/session.go: CookieStore, which keeps a session's values in a signed cookie. HMAC-SHA256,
-- the unpadded URL alphabet of base64 and JSON are the fields of Codec; hmac.Equal compares
-- bytes. A cookie's attributes other than its value are left out.
pub mod Signed
use bebo.Prelude.{
  ◌≡◌, Bool, true, false, Option, none, some, List, [], ◌∷◌, ◌++◌, if◌then◌else◌, is_empty,
}
use bebo.Prelude.Text.{Bytes, bytes, split, text_eq, Lacks}
use bebo.Prelude.Result.{Result, ok, err}
use bebo.Session.Memory.{Values}

pub data CookieError : Type 0 where
  key_required marshal_failed unmarshal_failed invalid_cookie session_missing : CookieError

-- The functions of other packages: none is an error.
pub record Codec : Type 0 where
  -- hmac.New(sha256.New, key) on the payload
  pub hmac : Bytes → Bytes → Bytes
  pub encode64 : Bytes → Bytes
  pub decode64 : Bytes → Option Bytes
  pub marshal : Values → Option Bytes
  pub unmarshal : Bytes → Option Values

-- What the store relies on of base64: a text decodes to what was encoded, and has no dot.
pub record IsBase64 (c : Codec) : Type 0 where
  pub decodes : (b : Bytes) → c.decode64 (c.encode64 b) ≡ some b
  pub no_dot : (b : Bytes) → Lacks b'.' (c.encode64 b)

-- A session as CookieStore keeps it.
pub record CookieSession : Type 0 where
  pub values : Values
  pub is_new : Bool

unfoldable pub new_cookie_store : Bytes → List Bytes → List Bytes
new_cookie_store key old_keys = key ∷ old_keys

abbrev pub new_session : CookieSession
new_session = record { values = []; is_new = true }

module _ (c : Codec) where
  unfoldable pub sign : Bytes → Bytes → Bytes
  sign payload key = c.hmac payload key

  -- The cookie's value for a payload.
  abbrev pub signed : Bytes → Bytes → Bytes
  unfolding sign
  signed payload key = c.encode64 payload ++ (b'.' ∷ c.encode64 (sign payload key))

  abbrev encode_with : Bytes → Option Bytes → Result CookieError Bytes
  encode_with key none = err marshal_failed
  encode_with key (some payload) = ok (signed payload key)

  unfoldable pub encode : Values → List Bytes → Result CookieError Bytes
  encode values [] = err key_required
  encode values (key ∷ keys) =
      if is_empty key then err key_required else encode_with key (c.marshal values)

  -- The loop of decode over the keys.
  unfoldable pub is_valid : Bytes → Bytes → List Bytes → Bool
  unfolding sign text_eq
  is_valid payload signature [] = false
  is_valid payload signature (key ∷ keys) =
      let rest = is_valid payload signature keys in
      if is_empty key then rest else if text_eq signature (sign payload key) then true else rest

  abbrev parsed : Option Values → Result CookieError Values
  parsed none = err unmarshal_failed
  parsed (some values) = ok values

  abbrev decode_parts : Option Bytes → Option Bytes → List Bytes → Result CookieError Values
  decode_parts (some payload) (some signature) keys =
      if is_valid payload signature keys then parsed (c.unmarshal payload) else err invalid_cookie
  decode_parts none _ keys = err invalid_cookie
  decode_parts (some payload) none keys = err invalid_cookie

  abbrev decode_split : List Bytes → List Bytes → Result CookieError Values
  decode_split (p ∷ s ∷ []) keys = decode_parts (c.decode64 p) (c.decode64 s) keys
  decode_split _ keys = err invalid_cookie

  unfoldable pub decode : Bytes → List Bytes → Result CookieError Values
  unfolding is_valid split
  decode value keys = decode_split (split b'.' value) keys

  abbrev got : Result CookieError Values → CookieSession × Option CookieError
  got (err e) = (new_session, some invalid_cookie)
  got (ok values) = (record { values = values; is_new = false }, none)

  -- Get, by the cookie's value if there is one.
  unfoldable pub get : List Bytes → Option Bytes → CookieSession × Option CookieError
  unfolding decode
  get keys none = (new_session, none)
  get keys (some value) = got (decode value keys)

  abbrev saved :
      CookieSession → Result CookieError Bytes → Result CookieError (CookieSession × Bytes)
  saved session (err e) = err e
  saved session (ok value) = ok (record session { is_new = false }, value)

  -- Save: the session after it and the cookie's value; none is a session that is nil.
  unfoldable pub save :
      List Bytes → Option CookieSession → Result CookieError (CookieSession × Bytes)
  unfolding encode
  save keys none = err session_missing
  save keys (some session) = saved session (encode session.values keys)

-- Clear: the session after it and the value of the cookie, which is deleted.
unfoldable pub clear : Option CookieSession → Option CookieSession × Bytes
clear none = (none, [])
clear (some session) = (some new_session, [])
