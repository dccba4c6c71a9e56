-- ===== src/Auth/Jwt/Signed.antt =====
-- auth/jwt.go and auth/jwt_keys.go: which tokens are accepted, and that signed ones are.
use bebo.Prelude.{
  ◌≡◌, ◌≢◌, ◌⊎◌, inl, inr, refl, sym, ap, ◌∙◌, true, false, some, List, [], ◌∷◌, ◌++◌, is_empty,
  arith, Memᴰ, Bool-cases, Option-cases, append_assoc,
}
use bebo.Prelude.Text.{
  Bytes, bytes, text_eq, text_eq_iff, split, split-append, split_of_Lacks, Lacks,
}
use bebo.Prelude.Dict.{bytes_eq}
use bebo.Auth.{Claims}
use bebo.Auth.Jwt.Fine.{is_empty-eq-true}
use bebo.Auth.Jwt.Keys.{MayUse}
use bebo.Auth.Jwt.{
  JwtKey, KeySet, TokenCodec, Authenticator, with_secrets, all_keys, lookup_key, lookup_fallback,
  secrets_of, keys_for_header, check_claims, is_signed, verify_parts, verify, sign_hs256,
}

-- What is relied on of base64: a text decodes to what was encoded, and has no dot.
pub record IsCodec (c : TokenCodec) : Type 0 where
  pub decodes : (b : Bytes) → c.decode64 (c.encode64 b) ≡ some b
  pub no_dot : (b : Bytes) → Lacks b'.' (c.encode64 b)

-- The header of a key is read with the algorithm and the kid that it was written with.
abbrev pub ReadsHeader : TokenCodec → Bytes → Type 0
ReadsHeader c kid =
    (header : Bytes)
    → c.marshal_header kid ≡ some header
    → c.unmarshal_header header ≡ some (bytes "HS256", kid)

module _ (c : TokenCodec) where
  is_signed_complete :
      (keys : List Bytes) (message key : Bytes)
      → Memᴰ key keys
      → is_signed c keys message (c.hmac key message) ≡ true
  unfolding is_signed
  is_signed_complete [] message key m = elim m [ ]
  is_signed_complete (k ∷ keys) message key (Memᴰ.head e) =
      rw
        ((text_eq_iff (c.hmac k message) (c.hmac key message)).1
          (ap (λ x. c.hmac x message) (sym e)))
        refl
  is_signed_complete (k ∷ keys) message key (Memᴰ.tail m) =
      elim (Bool-cases (text_eq (c.hmac k message) (c.hmac key message))) [
        | inl e ↦ rw e refl
        | inr e ↦ rw e (is_signed_complete keys message key m)
      ]

module _ (c : TokenCodec) (a : Authenticator) where
  -- The token is a header with HS256, a payload and a signature, separated by dots, and one of the
  -- keys for its kid has made the signature.
  pub record IsSigned (token : Bytes) (claims : Claims) : Type 0 where
    pub first : Bytes
    pub second : Bytes
    pub third : Bytes
    pub parts : split b'.' token ≡ first ∷ second ∷ third ∷ []
    pub header : Bytes
    pub header_of : c.decode64 first ≡ some header
    pub kid : Bytes
    pub hs256 : c.unmarshal_header header ≡ some (bytes "HS256", kid)
    pub key : Bytes
    pub key_known : MayUse a kid key
    pub signature : c.decode64 third ≡ some (c.hmac key (first ++ (b'.' ∷ second)))
    pub payload : Bytes
    pub payload_of : c.decode64 second ≡ some payload
    pub claims_of : c.decode_claims payload ≡ some claims

  split_three :
      (x y z : Bytes)
      → Lacks b'.' x
      → Lacks b'.' y
      → Lacks b'.' z
      → split b'.' ((x ++ (b'.' ∷ y)) ++ (b'.' ∷ z)) ≡ x ∷ y ∷ z ∷ []
  split_three x y z h k l =
      ap (split b'.') (append_assoc x (b'.' ∷ y) (b'.' ∷ z))
      ∙ split-append b'.' x (y ++ (b'.' ∷ z)) h
      ∙ ap (λ ws. x ∷ ws) (split-append b'.' y z k ∙ ap (λ ws. y ∷ ws) (split_of_Lacks b'.' z l))

  verify_parts_made :
      (key : JwtKey) (read : Claims) (header payload : Bytes)
      → IsCodec c
      → ReadsHeader c key.id
      → c.marshal_header key.id ≡ some header
      → Memᴰ key.secret (keys_for_header a key.id)
      → c.decode_claims payload ≡ some read
      → verify_parts c a
          (c.encode64 header)
          (c.encode64 payload)
          (c.encode64 (c.hmac key.secret (c.encode64 header ++ (b'.' ∷ c.encode64 payload))))
        ≡ check_claims a read
  unfolding verify_parts text_eq
  verify_parts_made key read header payload codec reads_header wrote known reads =
      let message = c.encode64 header ++ (b'.' ∷ c.encode64 payload) in
      rw
        (
          codec.decodes header,
          reads_header header wrote,
          codec.decodes payload,
          codec.decodes (c.hmac key.secret message),
          is_signed_complete c (keys_for_header a key.id) message key.secret known,
          reads,
        )
        refl

  -- A token that SignHS256 makes with a key that the authenticator has for the kid of that key passes
  -- all checks but those of its claims, for a codec whose decoders undo its encoders, where the
  -- payload is read as those claims.
  pub verify-sign_hs256 :
      (key : JwtKey) (claims read : Claims) (token payload : Bytes)
      → IsCodec c
      → ReadsHeader c key.id
      → sign_hs256 c key claims ≡ some token
      → Memᴰ key.secret (keys_for_header a key.id)
      → c.marshal_claims claims ≡ some payload
      → c.decode_claims payload ≡ some read
      → verify c a token ≡ check_claims a read
  unfolding sign_hs256 verify
  verify-sign_hs256 key claims read token payload codec reads_header signed known wrote reads =
      elim (Bool-cases (is_empty key.secret)) [
        | inl e ↦ absurd (let signed' = rw e at signed in cc)
        | inr e ↦ elim (Option-cases (c.marshal_header key.id)) [
          | inl n ↦ absurd (let signed' = rw (e, n) at signed in cc)
          | inr (header, n) ↦
              let message = c.encode64 header ++ (b'.' ∷ c.encode64 payload) in
              let sig = c.hmac key.secret message in
              let made = rw (e, n, wrote) at signed in
              let token_is : message ++ (b'.' ∷ c.encode64 sig) ≡ token = cc in
              rw
                (
                  ← token_is,
                  split_three (c.encode64 header) (c.encode64 payload) (c.encode64 sig)
                      (codec.no_dot header) (codec.no_dot payload) (codec.no_dot sig),
                )
                (verify_parts_made key read header payload codec reads_header n known reads)
        ]
      ]

is_empty-false : (s : Bytes) → s ≢ [] → is_empty s ≡ false
is_empty-false [] h = absurd (h refl)
is_empty-false (x ∷ s) h = refl

text_eq_self : (s : Bytes) → text_eq s s ≡ true
text_eq_self s = (text_eq_iff s s).1 refl

text_eq_other : (s t : Bytes) → s ≢ t → text_eq s t ≡ false
text_eq_other s t h = ground (arith, text_eq_iff s t)

-- A key set has the secret of its primary key for the kid of that key.
primary-known :
    (a : Authenticator) (s : KeySet)
    → a.key_set ≡ some s
    → s.primary.secret ≢ []
    → Memᴰ s.primary.secret (keys_for_header a s.primary.id)
unfolding keys_for_header lookup_key all_keys secrets_of
primary-known a s set some_secret = elim (Bool-cases (is_empty s.primary.id)) [
  | inl e ↦
      rw (set, e, is_empty-false s.primary.secret some_secret)
        (rw (is_empty-false s.primary.secret some_secret) (Memᴰ.head refl))
  | inr e ↦
      rw (set, e, text_eq_self s.primary.id, is_empty-false s.primary.secret some_secret)
        (Memᴰ.head refl)
]

fallback_without_kid-known :
    (a : Authenticator) (new old : JwtKey) (older : List JwtKey)
    → a.key_set ≡ some (record { primary = new; fallback = old ∷ older })
    → old.secret ≢ []
    → old.id ≡ []
    → Memᴰ old.secret (keys_for_header a old.id)
unfolding keys_for_header lookup_key lookup_fallback all_keys with_secrets secrets_of
fallback_without_kid-known a new old older set some_secret no_kid =
    elim (Bool-cases (is_empty new.secret)) [
      | inl e ↦
          rw (set, no_kid, e, is_empty-false old.secret some_secret)
            (rw (is_empty-false old.secret some_secret) (Memᴰ.head refl))
      | inr e ↦
          rw (set, no_kid, e, is_empty-false old.secret some_secret)
            (rw (e, is_empty-false old.secret some_secret) (Memᴰ.tail (Memᴰ.head refl)))
    ]

-- So it has the secret of its first fallback key for the kid of that key, unless the primary key has
-- the same kid and it is not empty.
fallback-known :
    (a : Authenticator) (new old : JwtKey) (older : List JwtKey)
    → a.key_set ≡ some (record { primary = new; fallback = old ∷ older })
    → old.secret ≢ []
    → (old.id ≡ []) ⊎ (new.id ≢ old.id)
    → Memᴰ old.secret (keys_for_header a old.id)
unfolding keys_for_header lookup_key lookup_fallback all_keys with_secrets secrets_of
fallback-known a new old older set some_secret (inl no_kid) =
    fallback_without_kid-known a new old older set some_secret no_kid
fallback-known a new old older set some_secret (inr other) = elim (Bool-cases (is_empty old.id)) [
  | inl e ↦ fallback_without_kid-known a new old older set some_secret (is_empty-eq-true old.id e)
  | inr e ↦
      rw
        (
          set,
          e,
          text_eq_other new.id old.id other,
          text_eq_self old.id,
          is_empty-false old.secret some_secret,
        )
        (Memᴰ.head refl)
]

-- A token that a key set signs passes all checks but those of its claims, with an authenticator that
-- has this key set, and also with one that has a new primary key in front and the old key set as the
-- fallback, where the old key has no kid or one that is not the new key's. The old secret is not
-- empty, base64 decodes what it encodes without dots, and the codec reads the header and the payload
-- back.
pub verify-rotated :
    (c : TokenCodec) (a : Authenticator) (s : KeySet) (new : JwtKey) (claims read : Claims)
    (token payload : Bytes)
    → IsCodec c
    → ReadsHeader c s.primary.id
    → sign_hs256 c s.primary claims ≡ some token
    → c.marshal_claims claims ≡ some payload
    → c.decode_claims payload ≡ some read
    → s.primary.secret ≢ []
    → (s.primary.id ≡ []) ⊎ (new.id ≢ s.primary.id)
    → (verify c (record a { key_set = some s }) token
        ≡ check_claims (record a { key_set = some s }) read)
      × (verify c
            (record a {
              key_set = some (record { primary = new; fallback = s.primary ∷ s.fallback });
            })
            token
          ≡ check_claims
              (record a {
                key_set = some (record { primary = new; fallback = s.primary ∷ s.fallback });
              })
              read)
verify-rotated c a s new claims read token payload codec reads_header signed wrote reads some_secret
      kid =
    let before : Authenticator = record a { key_set = some s } in
    let after : Authenticator = record a {
      key_set = some (record { primary = new; fallback = s.primary ∷ s.fallback });
    } in
    (
      verify-sign_hs256 c before s.primary claims read token payload codec reads_header signed
          (primary-known before s refl some_secret) wrote reads,
      verify-sign_hs256 c after s.primary claims read token payload codec reads_header signed
          (fallback-known after new s.primary s.fallback refl some_secret kid) wrote reads,
    )
