-- ===== src/Session/CookieStore/Signed.antt =====
-- session/session.go, CookieStore: which cookies are accepted, and that a saved session is read back.
use bebo.Prelude.{
  ◌≡◌, ◌≢◌, ◌↔◌, inl, inr, refl, ap, ◌∙◌, true, false, none, some, List, [], ◌∷◌, is_empty, Memᴰ,
  arith, Bool-cases, Option-cases,
}
use bebo.Prelude.Text.{Bytes, split, join, text_eq, text_eq_iff, split-join}
use bebo.Prelude.Result.{Result, ok, err}
use bebo.Session.Memory.{Values}
use bebo.Session.CookieStore.{
  Codec, IsBase64, CookieError, CookieSession, sign, signed, encode, is_valid, decode_split, decode,
  get, save,
}

is_empty-false : (key : Bytes) → key ≢ [] → is_empty key ≡ false
is_empty-false [] n = absurd (n refl)
is_empty-false (a ∷ key) n = refl

is_empty-ne : (key : Bytes) → is_empty key ≡ false → key ≢ []
is_empty-ne [] h e = cc
is_empty-ne (a ∷ key) h e = cc

module _ (c : Codec) where
  -- One of the keys, and not an empty one, has signed the payload.
  abbrev pub IsSignedBy : Bytes → Bytes → List Bytes → Type 0
  IsSignedBy payload signature keys =
      (key : Bytes) × Memᴰ key keys × (key ≢ []) × (signature ≡ sign c payload key)

  is_valid_sound :
      (payload signature : Bytes) (keys : List Bytes)
      → is_valid c payload signature keys ≡ true
      → IsSignedBy payload signature keys
  unfolding is_valid
  is_valid_sound payload signature [] h = absurd (cc)
  is_valid_sound payload signature (key ∷ keys) h = elim (Bool-cases (is_empty key)) [
    | inl e ↦ further (is_valid_sound payload signature keys (rw e at h))
    | inr e ↦ elim (Bool-cases (text_eq signature (sign c payload key))) [
      | inl s ↦
          (key, Memᴰ.head refl, is_empty-ne key e, (text_eq_iff signature (sign c payload key)).0 s)
      | inr s ↦ further (is_valid_sound payload signature keys (rw (e, s) at h))
    ]
  ]
    where
      further : IsSignedBy payload signature keys → IsSignedBy payload signature (key ∷ keys)
      further (k, m, n, s) = (k, Memᴰ.tail m, n, s)

  is_valid_complete :
      (payload signature : Bytes) (keys : List Bytes)
      → IsSignedBy payload signature keys
      → is_valid c payload signature keys ≡ true
  unfolding is_valid
  is_valid_complete payload signature [] (key, m, n, s) = elim m [ ]
  is_valid_complete payload signature (key ∷ keys) (k, Memᴰ.head e, n, s) =
      ground (arith, is_empty-false k n, text_eq_iff signature (sign c payload key))
  is_valid_complete payload signature (key ∷ keys) (k, Memᴰ.tail m, n, s) =
      ground (arith, is_valid_complete payload signature keys (k, m, n, s))

  -- The parts are a payload and its signature by one of the keys, and the payload has the values.
  abbrev pub Holds : List Bytes → List Bytes → Values → Type 0
  Holds parts keys values =
      (p : Bytes) × (s : Bytes) × (payload : Bytes) × (signature : Bytes) × (parts ≡ p ∷ s ∷ [])
      × (c.decode64 p ≡ some payload)
      × (c.decode64 s ≡ some signature)
      × IsSignedBy payload signature keys
      × (c.unmarshal payload ≡ some values)

  decode_complete :
      (value : Bytes) (keys : List Bytes) (values : Values)
      → Holds (split b'.' value) keys values
      → decode c value keys ≡ ok values
  unfolding decode
  decode_complete value keys values (p, s, payload, signature, e, d, d', v, u) =
      rw (e, d, d', is_valid_complete payload signature keys v, u) refl

  split_sound :
      (parts : List Bytes) (keys : List Bytes) (values : Values)
      → decode_split c parts keys ≡ ok values
      → Holds parts keys values
  split_sound [] keys values h = absurd (cc)
  split_sound (p ∷ []) keys values h = absurd (cc)
  split_sound (p ∷ s ∷ t ∷ ts) keys values h = absurd (cc)
  split_sound (p ∷ s ∷ []) keys values h = elim (Option-cases (c.decode64 p)) [
    | inl d ↦ absurd (refused (rw d at h))
    | inr (payload, d) ↦ elim (Option-cases (c.decode64 s)) [
      | inl d' ↦ absurd (refused (rw (d, d') at h))
      | inr (signature, d') ↦ elim (Bool-cases (is_valid c payload signature keys)) [
        | inr v ↦ absurd (refused (rw (d, d', v) at h))
        | inl v ↦ elim (Option-cases (c.unmarshal payload)) [
          | inl u ↦ absurd (refused (rw (d, d', v, u) at h))
          | inr (found, u) ↦ (
            p,
            s,
            payload,
            signature,
            refl,
            d,
            d',
            is_valid_sound payload signature keys v,
            u ∙ ap (λ x. some x) (same (rw (d, d', v, u) at h)),
          )
        ]
      ]
    ]
  ]
    where
      refused : {e : CookieError} → err e ≡ ok values → ⊥
      refused x = cc

      same :
          {found : Values}
          → ◌≡◌ {A = Result CookieError Values} (ok found) (ok values)
          → found ≡ values
      same x = cc

  -- A cookie is accepted with some values exactly when it is two parts, a payload and a signature
  -- in base64, where one of the keys that is not empty has signed the payload, and the payload
  -- has these values.
  pub decode-eq-ok_iff :
      (value : Bytes) (keys : List Bytes) (values : Values)
      → (decode c value keys ≡ ok values) ↔ Holds (split b'.' value) keys values
  unfolding decode
  decode-eq-ok_iff value keys values =
      (split_sound (split b'.' value) keys values, decode_complete value keys values)

  module _ (laws : IsBase64 c) where
    split-signed :
        (payload key : Bytes)
        → split b'.' (signed c payload key)
          ≡ c.encode64 payload ∷ c.encode64 (sign c payload key) ∷ []
    split-signed payload key =
        unfold join sign in
        (split-join b'.' (c.encode64 payload) (c.encode64 (sign c payload key) ∷ [])
          (laws.no_dot payload, (laws.no_dot (sign c payload key), tt)))

    -- A session whose values JSON can carry is saved, and a Get with the cookie that Save wrote
    -- returns it with the same values, not new, under any keys that still hold the first key of
    -- the store that saved it, as after a rotation of keys.
    pub get-save :
        (key : Bytes) (old_keys keys : List Bytes) (session : CookieSession) (payload : Bytes)
        → key ≢ []
        → Memᴰ key keys
        → c.marshal session.values ≡ some payload
        → c.unmarshal payload ≡ some session.values
        → (value : Bytes) × (save c (key ∷ old_keys) (some session)
            ≡ ok (record session { is_new = false }, value))
          × (get c keys (some value) ≡ (record { values = session.values; is_new = false }, none))
    unfolding save get
    get-save key old_keys keys session payload n m e u =
        let value = signed c payload key in
        let read : decode c value keys ≡ ok session.values =
          (decode-eq-ok_iff value keys session.values).1 (
            c.encode64 payload,
            c.encode64 (sign c payload key),
            payload,
            sign c payload key,
            split-signed payload key,
            laws.decodes payload,
            laws.decodes (sign c payload key),
            (key, m, n, refl),
            u,
          ) in
        (value, rw (is_empty-false key n, e, encode) refl, rw read refl)
