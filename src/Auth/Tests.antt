-- ===== src/Auth/Tests.antt =====
-- auth: the theorems at a small principal and at a small token.
use bebo.Prelude.{
  ◌+◌, ◌-◌, ◌≡◌, ◌≢◌, ◌↔◌, inr, refl, ap, Option, none, some, [], ◌∷◌, ◌++◌, arith, if◌then◌else◌,
}
use bebo.Prelude.Int.{pos}
use bebo.Prelude.Text.{Bytes, bytes, text_eq, text_eq_iff, Lacks}
use bebo.Auth.{text, number, Claims, Principal}
use bebo.Auth.Roles.{Authorizer, authorize_roles, authorize_permissions, permissions_from_claims}
use bebo.Auth.Roles.Granted.{
  IsGranted, authorize_roles-eq-none_iff, authorize_permissions-eq-none_iff,
}
use bebo.Auth.Jwt.{JwtKey, KeySet, TokenCodec, Authenticator, check_claims, verify, sign_hs256}
use bebo.Auth.Jwt.Signed.{IsCodec, verify-rotated}

abbrev ann_claims : Claims
ann_claims =
    (bytes "sub", text (bytes "ann"))
    ∷ (bytes "permissions", text (bytes "read"))
    ∷ (bytes "exp", number (pos 2))
    ∷ []

abbrev ann : Principal
ann = record { id = bytes "ann"; roles = bytes "admin" ∷ []; claims = ann_claims }

abbrev admins : Authorizer
admins = record { any = bytes "admin" ∷ bytes "owner" ∷ []; all = [] }

authorize_roles-eq-none_iff_example :
    (authorize_roles admins (some ann) ≡ none) ↔ IsGranted ann.roles admins
authorize_roles-eq-none_iff_example = authorize_roles-eq-none_iff admins ann

authorize_permissions-eq-none_iff_example :
    (authorize_permissions (record { any = []; all = bytes "read" ∷ [] }) (some ann) ≡ none)
    ↔ IsGranted (permissions_from_claims ann) (record { any = []; all = bytes "read" ∷ [] })
authorize_permissions-eq-none_iff_example =
    authorize_permissions-eq-none_iff (record { any = []; all = bytes "read" ∷ [] }) ann

-- A codec: base64 as a shift of the bytes, HMAC as the key in front of the message, a header as a
-- byte in front of its kid, and JSON for one set of claims.
abbrev raised : Bytes → Bytes
raised [] = []
raised (b ∷ s) = (b + 60) ∷ raised s

abbrev lowered : Bytes → Bytes
lowered [] = []
lowered (b ∷ s) = (b - 60) ∷ lowered s

abbrev read_header : Bytes → Option (Bytes × Bytes)
read_header [] = none
read_header (b ∷ kid) = some (bytes "HS256", kid)

abbrev small_codec : TokenCodec
small_codec = record {
  hmac = λ key message. key ++ message;
  encode64 = raised;
  decode64 = λ s. some (lowered s);
  marshal_header = λ kid. some (1 ∷ kid);
  unmarshal_header = read_header;
  marshal_claims = λ claims. some (bytes "c");
  decode_claims = λ payload. if text_eq payload (bytes "c") then some ann_claims else none;
}

lowered-raised : (s : Bytes) → lowered (raised s) ≡ s
lowered-raised [] = refl
lowered-raised (b ∷ s) = let back : b + 60 - 60 ≡ b = omega arith in cc (lowered-raised s)

raised-Lacks : (s : Bytes) → Lacks b'.' (raised s)
raised-Lacks [] = tt
raised-Lacks (b ∷ s) = ((λ e. omega (arith, e)), raised-Lacks s)

header_read :
    (kid header : Bytes)
    → small_codec.marshal_header kid ≡ some header
    → small_codec.unmarshal_header header ≡ some (bytes "HS256", kid)
header_read kid [] h = cc
header_read kid (b ∷ s) h = let same : s ≡ kid = cc in ap (λ k. some (bytes "HS256", k)) same

small_codec-IsCodec : IsCodec small_codec
small_codec-IsCodec = record {
  decodes = λ s. ap (λ x. some x) (lowered-raised s);
  no_dot = raised-Lacks;
}

abbrev signing : KeySet
signing = record { primary = record { id = bytes "k1"; secret = bytes "s1" }; fallback = [] }

abbrev verifier : Authenticator
verifier = record {
  key = [];
  keys = [];
  key_set = some signing;
  issuer = [];
  audience = [];
  scheme = [];
  clock_skew = pos 0;
  now = pos 1000;
}

abbrev fresh_key : JwtKey
fresh_key = record { id = bytes "k2"; secret = bytes "s2" }

kids_differ : fresh_key.id ≢ signing.primary.id
unfolding text_eq
kids_differ e = let same = (text_eq_iff fresh_key.id signing.primary.id).1 e in cc

abbrev ann_token : Bytes
ann_token =
    (raised (1 ∷ bytes "k1") ++ (b'.' ∷ raised (bytes "c")))
    ++ (b'.' ∷ raised (bytes "s1" ++ (raised (1 ∷ bytes "k1") ++ (b'.' ∷ raised (bytes "c")))))

ann_token_signed : sign_hs256 small_codec signing.primary ann_claims ≡ some ann_token
unfolding sign_hs256
ann_token_signed = refl

claims_read : small_codec.decode_claims (bytes "c") ≡ some ann_claims
unfolding text_eq
claims_read = refl

verify-rotated_example :
    (verify small_codec verifier ann_token ≡ check_claims verifier ann_claims)
    × (verify small_codec
          (record verifier {
            key_set = some (record { primary = fresh_key; fallback = signing.primary ∷ [] });
          })
          ann_token
        ≡ check_claims
            (record verifier {
              key_set = some (record { primary = fresh_key; fallback = signing.primary ∷ [] });
            })
            ann_claims)
verify-rotated_example =
    verify-rotated small_codec verifier signing fresh_key ann_claims ann_claims ann_token
      (bytes "c") small_codec-IsCodec (header_read (bytes "k1")) ann_token_signed refl claims_read
      (λ e. cc) (inr kids_differ)
