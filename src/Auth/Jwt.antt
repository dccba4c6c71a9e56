-- ===== src/Auth/Jwt.antt =====
-- auth/jwt.go and auth/jwt_keys.go: signing and verifying tokens. A time is a whole number of
-- nanoseconds since 1970, and does not overflow.
pub mod Fine
pub mod Keys
pub mod Signed
use bebo.Prelude.{
  ℕ, suc, ◌+◌, ◌-◌, ◌*◌, Bool, true, false, not, ◌&&◌, Option, none, some, List, [], ◌∷◌, ◌++◌, leb,
  if◌then◌else◌, is_empty,
}
use bebo.Prelude.Int.{ℤ, pos, negsuc, ltb_ℤ, eq_ℤ, add_nat, sub_nat}
use bebo.Prelude.Text.{Bytes, bytes, has_prefix, drop_prefix, split, text_eq}
use bebo.Prelude.Ascii.{to_lower, trim_space}
use bebo.Prelude.Result.{Result, ok, err, ◌>>=◌}
use bebo.Prelude.Dict.{lookup, bytes_eq}
use bebo.Auth.{Item, Value, text, number, strings, items, Claims, Principal}
use bebo.Auth.Roles.{is_listed, text_items, parse_string_list}

pub data JwtError : Type 0 where
  invalid_token unsupported_alg expired_token not_before invalid_issuer invalid_audience : JwtError

-- JWTKey and JWTKeySet
pub record JwtKey : Type 0 where
  pub id : Bytes
  pub secret : Bytes

pub record KeySet : Type 0 where
  pub primary : JwtKey
  pub fallback : List JwtKey

-- The functions of other packages; none is an error.
pub record TokenCodec : Type 0 where
  -- hmac.New(sha256.New, key) on the message
  pub hmac : Bytes → Bytes → Bytes
  -- base64.RawURLEncoding
  pub encode64 : Bytes → Bytes
  pub decode64 : Bytes → Option Bytes
  -- encoding/json on the header with alg "HS256" and typ "JWT", and the kid where it is not empty
  pub marshal_header : Bytes → Option Bytes
  -- encoding/json on a header: its alg and its kid
  pub unmarshal_header : Bytes → Option (Bytes × Bytes)
  pub marshal_claims : Claims → Option Bytes
  pub decode_claims : Bytes → Option Claims

-- JWTAuthenticator, with the time of now.
pub record Authenticator : Type 0 where
  pub key : Bytes
  pub keys : List Bytes
  pub key_set : Option KeySet
  pub issuer : Bytes
  pub audience : Bytes
  pub scheme : Bytes
  pub clock_skew : ℤ
  pub now : ℤ

unfoldable pub with_secrets : List JwtKey → List JwtKey
with_secrets [] = []
with_secrets (k ∷ ks) = let rest = with_secrets ks in if is_empty k.secret then rest else k ∷ rest

-- JWTKeySet.Keys
unfoldable pub all_keys : KeySet → List JwtKey
unfolding with_secrets
all_keys s =
    if is_empty s.primary.secret
    then with_secrets s.fallback
    else s.primary ∷ with_secrets s.fallback

-- The loop of Lookup.
unfoldable pub lookup_fallback : Bytes → List JwtKey → Option JwtKey
unfolding text_eq
lookup_fallback id [] = none
lookup_fallback id (k ∷ ks) =
    let rest = lookup_fallback id ks in
    if text_eq k.id id && not (is_empty k.secret) then some k else rest

-- JWTKeySet.Lookup
unfoldable pub lookup_key : KeySet → Bytes → Option JwtKey
unfolding lookup_fallback text_eq
lookup_key s id =
    if is_empty id
    then none
    else if text_eq s.primary.id id
    then (if is_empty s.primary.secret then none else some s.primary)
    else lookup_fallback id s.fallback

unfoldable pub secrets_of : List JwtKey → List Bytes
secrets_of [] = []
secrets_of (k ∷ ks) =
    let rest = secrets_of ks in if is_empty k.secret then rest else k.secret ∷ rest

unfoldable pub not_empty : List Bytes → List Bytes
not_empty [] = []
not_empty (k ∷ ks) = let rest = not_empty ks in if is_empty k then rest else k ∷ rest

abbrev pub secret_of : Option JwtKey → List Bytes
secret_of none = []
secret_of (some k) = k.secret ∷ []

abbrev pub keys_of_set : KeySet → Bytes → List Bytes
keys_of_set s kid = if is_empty kid then secrets_of (all_keys s) else secret_of (lookup_key s kid)

-- keysForHeader
unfoldable pub keys_for_header : Authenticator → Bytes → List Bytes
unfolding lookup_key all_keys secrets_of not_empty
keys_for_header a kid = elim a.key_set [
  | some s ↦ keys_of_set s kid
  | none ↦ if is_empty a.key then not_empty a.keys else a.key ∷ not_empty a.keys
]

-- seconds times 1e9, and the sum of two times
unfoldable pub nanoseconds : ℤ → ℤ
nanoseconds (pos n) = pos (n * 1000000000)
nanoseconds (negsuc n) = negsuc (suc n * 1000000000 - 1)

unfoldable pub add_time : ℤ → ℤ → ℤ
add_time t (pos n) = add_nat t n
add_time t (negsuc n) = sub_nat t (suc n)

-- The seconds of the zero time.Time, from which IsZero tells a missing time.
abbrev zero_time : ℤ
zero_time = negsuc 62135596799

-- claimTime of a claim that may be missing; none stands for the zero time.
unfoldable pub claim_time : Option Value → Option ℤ
unfolding nanoseconds
claim_time (some (number seconds)) =
    if eq_ℤ seconds zero_time then none else some (nanoseconds seconds)
claim_time _ = none

abbrev pub is_expired : Option ℤ → ℤ → ℤ → Bool
is_expired none now skew = false
is_expired (some t) now skew = ltb_ℤ (add_time t skew) now

abbrev pub is_early : Option ℤ → ℤ → ℤ → Bool
is_early none now skew = false
is_early (some t) now skew = ltb_ℤ (add_time now skew) t

-- validateTiming
unfoldable pub validate_timing : Claims → ℤ → ℤ → Option JwtError
unfolding claim_time add_time lookup
validate_timing claims now skew =
    if is_expired (claim_time (lookup (bytes "exp") claims)) now skew
    then some expired_token
    else if is_early (claim_time (lookup (bytes "nbf") claims)) now skew
    then some not_before
    else none

unfoldable pub audience_matches : Option Value → Bytes → Bool
unfolding text_eq is_listed text_items
audience_matches (some (text s)) expected = text_eq s expected
audience_matches (some (items more)) expected = is_listed (text_items more) expected
audience_matches (some (strings ss)) expected = is_listed ss expected
audience_matches _ expected = false

-- claims[name].(string), the empty text where it is not one
abbrev pub text_of : Option Value → Bytes
text_of (some (text s)) = s
text_of _ = []

abbrev pub or_fail : {A : Type 0} → JwtError → Option A → Result JwtError A
or_fail e none = err e
or_fail e (some x) = ok x

-- verify after the claims have been read.
unfoldable pub check_claims : Authenticator → Claims → Result JwtError Claims
unfolding validate_timing audience_matches text_eq lookup
check_claims a claims = elim (validate_timing claims a.now a.clock_skew) [
  | some e ↦ err e
  | none ↦
      if not (is_empty a.issuer) && not (text_eq (text_of (lookup (bytes "iss") claims)) a.issuer)
      then err invalid_issuer
      else if not (is_empty a.audience)
          && not (audience_matches (lookup (bytes "aud") claims) a.audience)
      then err invalid_audience
      else ok claims
]

module _ (c : TokenCodec) where
  -- The loop of verify over the keys; ConstantTimeCompare compares bytes.
  unfoldable pub is_signed : List Bytes → Bytes → Bytes → Bool
  unfolding text_eq
  is_signed [] message sig = false
  is_signed (key ∷ keys) message sig =
      let rest = is_signed keys message sig in
      if text_eq (c.hmac key message) sig then true else rest

  unfoldable pub verify_parts : Authenticator → Bytes → Bytes → Bytes → Result JwtError Claims
  unfolding is_signed keys_for_header check_claims text_eq
  verify_parts a first second third = do
    header ← or_fail invalid_token (c.decode64 first)
    (alg, kid) ← or_fail invalid_token (c.unmarshal_header header)
    if not (text_eq alg (bytes "HS256")) then err unsupported_alg else (do
      payload ← or_fail invalid_token (c.decode64 second)
      sig ← or_fail invalid_token (c.decode64 third)
      if not (is_signed (keys_for_header a kid) (first ++ (b'.' ∷ second)) sig)
          then err invalid_token
          else (do claims ← or_fail invalid_token (c.decode_claims payload); check_claims a claims))

  abbrev pub verify_split : Authenticator → List Bytes → Result JwtError Claims
  verify_split a (first ∷ second ∷ third ∷ []) = verify_parts a first second third
  verify_split a _ = err invalid_token

  -- verify
  unfoldable pub verify : Authenticator → Bytes → Result JwtError Claims
  unfolding split verify_parts
  verify a token = verify_split a (split b'.' token)

  abbrev signed : JwtKey → Option Bytes → Option Bytes → Option Bytes
  signed key none _ = none
  signed key (some header) none = none
  signed key (some header) (some payload) =
      let message = c.encode64 header ++ (b'.' ∷ c.encode64 payload) in
      some (message ++ (b'.' ∷ c.encode64 (c.hmac key.secret message)))

  -- SignHS256; none is an error.
  unfoldable pub sign_hs256 : JwtKey → Claims → Option Bytes
  sign_hs256 key claims =
      if is_empty key.secret
      then none
      else signed key (c.marshal_header key.id) (c.marshal_claims claims)

  -- extractToken
  unfoldable pub extract_token : Bytes → Bytes → Bytes
  unfolding trim_space to_lower has_prefix drop_prefix
  extract_token value scheme =
      let clean = trim_space value in
      let prefix = to_lower (if is_empty scheme then bytes "Bearer" else scheme) ++ bytes " " in
      if is_empty clean
      then []
      else if has_prefix (to_lower clean) prefix
      then trim_space (drop_prefix clean prefix)
      else []

  abbrev principal_of : Claims → Principal
  principal_of claims = record {
    id = text_of (lookup (bytes "sub") claims);
    roles = parse_string_list (lookup (bytes "roles") claims);
    claims = claims;
  }

  -- Authenticate, given the value of the header; the inner Option is the nil principal.
  unfoldable pub authenticate : Authenticator → Bytes → Result JwtError (Option Principal)
  unfolding verify extract_token parse_string_list lookup
  authenticate a value =
      let token = extract_token value a.scheme in
      if is_empty token
      then ok none
      else (do claims ← verify a token; ok (some (principal_of claims)))
