-- ===== src/Auth/Jwt/Keys.antt =====
-- auth/jwt.go and auth/jwt_keys.go, keysForHeader: which keys may have signed a token.
use bebo.Prelude.{
  ◌≡◌, ◌≢◌, ◌⊎◌, inl, inr, refl, sym, ap, ◌∙◌, true, false, Option, none, some, List, [], ◌∷◌,
  is_empty, if◌then◌else◌, Memᴰ, Bool-cases, Option-cases,
}
use bebo.Prelude.Text.{Bytes, text_eq, text_eq_iff}
use bebo.Auth.Jwt.{
  JwtKey, KeySet, Authenticator, with_secrets, all_keys, lookup_key, lookup_fallback, secrets_of,
  not_empty, keys_for_header, keys_of_set, secret_of,
}

-- The key is not empty. Without a key set it is one of those of the authenticator; with one it is the
-- secret of a key of the set, which has the kid of the header if there is a kid.
pub data MayUse (a : Authenticator) (kid key : Bytes) : Type 0 where
  own_key : a.key_set ≡ none → key ≢ [] → Memᴰ key (a.key ∷ a.keys) → MayUse a kid key
  of_set :
      (s : KeySet) (k : JwtKey)
      → a.key_set ≡ some s
      → key ≢ []
      → Memᴰ k (s.primary ∷ s.fallback)
      → k.secret ≡ key
      → (kid ≡ []) ⊎ (k.id ≡ kid)
      → MayUse a kid key

is_empty-full : (s : Bytes) → is_empty s ≡ false → s ≢ []
is_empty-full [] h = cc
is_empty-full (b ∷ s) h = λ e. cc

is_empty-none : (s : Bytes) → is_empty s ≡ true → s ≡ []
is_empty-none [] h = refl
is_empty-none (b ∷ s) h = cc

first_or_later :
    {A C : Type 0} {x y : A} {xs : List A} → Memᴰ x (y ∷ xs) → (x ≡ y → C) → (Memᴰ x xs → C) → C
first_or_later (Memᴰ.head e) first later = first e
first_or_later (Memᴰ.tail m) first later = later m

not_empty-Memᴰ :
    (keys : List Bytes) (key : Bytes) → Memᴰ key (not_empty keys) → (key ≢ []) × Memᴰ key keys
unfolding not_empty
not_empty-Memᴰ [] key m = elim m [ ]
not_empty-Memᴰ (k ∷ keys) key m = elim (Bool-cases (is_empty k)) [
  | inl e ↦ let (full, found) = not_empty-Memᴰ keys key (rw e at m) in (full, Memᴰ.tail found)
  | inr e ↦
      first_or_later {x = key} {y = k} {xs = not_empty keys} (rw e at m)
        (λ same. ((λ f. is_empty-full k e (sym same ∙ f)), Memᴰ.head same))
        (λ m'. let (full, found) = not_empty-Memᴰ keys key m' in (full, Memᴰ.tail found))
]

-- A key of the list with the secret, which is not empty.
abbrev HasSecret : List JwtKey → Bytes → Type 0
HasSecret ks key = (k : JwtKey) × Memᴰ k ks × (k.secret ≡ key) × (key ≢ [])

with_secrets-Memᴰ : (ks : List JwtKey) (k : JwtKey) → Memᴰ k (with_secrets ks) → Memᴰ k ks
unfolding with_secrets
with_secrets-Memᴰ [] k m = elim m [ ]
with_secrets-Memᴰ (x ∷ ks) k m = elim (Bool-cases (is_empty x.secret)) [
  | inl e ↦ Memᴰ.tail (with_secrets-Memᴰ ks k (rw e at m))
  | inr e ↦
      first_or_later {x = k} {y = x} {xs = with_secrets ks} (rw e at m) (λ same. Memᴰ.head same)
        (λ m'. Memᴰ.tail (with_secrets-Memᴰ ks k m'))
]

all_keys-Memᴰ : (s : KeySet) (k : JwtKey) → Memᴰ k (all_keys s) → Memᴰ k (s.primary ∷ s.fallback)
unfolding all_keys
all_keys-Memᴰ s k m = elim (Bool-cases (is_empty s.primary.secret)) [
  | inl e ↦ Memᴰ.tail (with_secrets-Memᴰ s.fallback k (rw e at m))
  | inr e ↦ headed (rw e at m)
]
  where
    headed : Memᴰ k (s.primary ∷ with_secrets s.fallback) → Memᴰ k (s.primary ∷ s.fallback)
    headed (Memᴰ.head same) = Memᴰ.head same
    headed (Memᴰ.tail m) = Memᴰ.tail (with_secrets-Memᴰ s.fallback k m)

HasSecret-later :
    (x : JwtKey) (ks : List JwtKey) (key : Bytes) → HasSecret ks key → HasSecret (x ∷ ks) key
HasSecret-later x ks key (k, found, same, full) = (k, Memᴰ.tail found, same, full)

secrets_of-HasSecret :
    (ks : List JwtKey) (key : Bytes) → Memᴰ key (secrets_of ks) → HasSecret ks key
unfolding secrets_of
secrets_of-HasSecret [] key m = elim m [ ]
secrets_of-HasSecret (x ∷ ks) key m = elim (Bool-cases (is_empty x.secret)) [
  | inl e ↦ HasSecret-later x ks key (secrets_of-HasSecret ks key (rw e at m))
  | inr e ↦
      first_or_later {x = key} {y = x.secret} {xs = secrets_of ks} (rw e at m)
        (λ same. (x, Memᴰ.head refl, sym same, (λ f. is_empty-full x.secret e (sym same ∙ f))))
        (λ m'. HasSecret-later x ks key (secrets_of-HasSecret ks key m'))
]

-- A key of the list with the id and a secret.
abbrev HasId : List JwtKey → Bytes → JwtKey → Type 0
HasId ks id k = Memᴰ k ks × (k.id ≡ id) × (k.secret ≢ [])

lookup_fallback-HasId :
    (id : Bytes) (ks : List JwtKey) (k : JwtKey) → lookup_fallback id ks ≡ some k → HasId ks id k
unfolding lookup_fallback
lookup_fallback-HasId id [] k h = cc
lookup_fallback-HasId id (x ∷ ks) k h = elim (Bool-cases (text_eq x.id id)) [
  | inr e ↦ later (lookup_fallback-HasId id ks k (rw e at h))
  | inl e ↦ elim (Bool-cases (is_empty x.secret)) [
    | inl e' ↦ later (lookup_fallback-HasId id ks k (rw (e, e') at h))
    | inr e' ↦ here (rw (e, e') at h) e e'
  ]
]
  where
    later : HasId ks id k → HasId (x ∷ ks) id k
    later (found, same, full) = (Memᴰ.tail found, same, full)

    here :
        ◌≡◌ {A = Option JwtKey} (some x) (some k)
        → text_eq x.id id ≡ true
        → is_empty x.secret ≡ false
        → HasId (x ∷ ks) id k
    here same e e' =
        let is_x : k ≡ x = cc in
        (
          Memᴰ.head is_x,
          ap (λ y. y.id) is_x ∙ (text_eq_iff x.id id).0 e,
          (λ f. is_empty-full x.secret e' (sym (ap (λ y. y.secret) is_x) ∙ f)),
        )

lookup_key-HasId :
    (s : KeySet) (id : Bytes) (k : JwtKey)
    → lookup_key s id ≡ some k
    → HasId (s.primary ∷ s.fallback) id k
unfolding lookup_key
lookup_key-HasId s id k h = elim (Bool-cases (is_empty id)) [
  | inl e ↦ absurd (let h' = rw e at h in cc)
  | inr e ↦ elim (Bool-cases (text_eq s.primary.id id)) [
    | inr other ↦
        let (found, same, full) = lookup_fallback-HasId id s.fallback k (rw (e, other) at h) in
        (Memᴰ.tail found, same, full)
    | inl same ↦ elim (Bool-cases (is_empty s.primary.secret)) [
      | inl e' ↦ absurd (let h' = rw (e, same, e') at h in cc)
      | inr e' ↦ here (rw (e, same, e') at h) same e'
    ]
  ]
]
  where
    here :
        ◌≡◌ {A = Option JwtKey} (some s.primary) (some k)
        → text_eq s.primary.id id ≡ true
        → is_empty s.primary.secret ≡ false
        → HasId (s.primary ∷ s.fallback) id k
    here same e e' =
        let is_x : k ≡ s.primary = cc in
        (
          Memᴰ.head is_x,
          ap (λ y. y.id) is_x ∙ (text_eq_iff s.primary.id id).0 e,
          (λ f. is_empty-full s.primary.secret e' (sym (ap (λ y. y.secret) is_x) ∙ f)),
        )

own-MayUse :
    (a : Authenticator) (kid key : Bytes)
    → a.key_set ≡ none
    → Memᴰ key (if is_empty a.key then not_empty a.keys else a.key ∷ not_empty a.keys)
    → MayUse a kid key
own-MayUse a kid key alone m = elim (Bool-cases (is_empty a.key)) [
  | inl e ↦
      let (full, found) = not_empty-Memᴰ a.keys key (rw e at m) in
      own_key alone full (Memᴰ.tail found)
  | inr e ↦ headed (rw e at m) e
]
  where
    headed : Memᴰ key (a.key ∷ not_empty a.keys) → is_empty a.key ≡ false → MayUse a kid key
    headed (Memᴰ.head same) e =
        own_key alone (λ f. is_empty-full a.key e (sym same ∙ f)) (Memᴰ.head same)
    headed (Memᴰ.tail m) e =
        let (full, found) = not_empty-Memᴰ a.keys key m in own_key alone full (Memᴰ.tail found)

set-MayUse :
    (a : Authenticator) (s : KeySet) (kid key : Bytes)
    → a.key_set ≡ some s
    → Memᴰ key (keys_of_set s kid)
    → MayUse a kid key
set-MayUse a s kid key set m = elim (Bool-cases (is_empty kid)) [
  | inl e ↦ any_key e (secrets_of-HasSecret (all_keys s) key (rw e at m))
  | inr e ↦ found_key (lookup_key s kid) refl (rw e at m)
]
  where
    any_key : is_empty kid ≡ true → HasSecret (all_keys s) key → MayUse a kid key
    any_key e (k, found, same, full) =
        of_set s k set full (all_keys-Memᴰ s k found) same (inl (is_empty-none kid e))

    found_key :
        (o : Option JwtKey) → lookup_key s kid ≡ o → Memᴰ key (secret_of o) → MayUse a kid key
    found_key none e m = elim m [ ]
    found_key (some k) e (Memᴰ.head same) =
        let (found, right, full) = lookup_key-HasId s kid k e in
        of_set s k set (λ f. full (sym same ∙ f)) found (sym same) (inr right)
    found_key (some k) e (Memᴰ.tail m) = elim m [ ]

pub keys_for_header-MayUse :
    (a : Authenticator) (kid key : Bytes) → Memᴰ key (keys_for_header a kid) → MayUse a kid key
unfolding keys_for_header
keys_for_header-MayUse a kid key m = elim (Option-cases a.key_set) [
  | inl e ↦ own-MayUse a kid key e (rw e at m)
  | inr (s, e) ↦ set-MayUse a s kid key e (rw e at m)
]
