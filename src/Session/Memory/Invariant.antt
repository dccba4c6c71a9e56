-- ===== src/Session/Memory/Invariant.antt =====
-- session/memory.go, MemoryStore: the heap covers the sessions, under any calls.
use Prim.Native.String.{String}
use text.Mathlib.Text.{◌==◌ as str_eq}
use text.Mathlib.TextEquality.{eq_iff}
use bebo.Prelude.{
  ℕ, ◌+◌, ◌≤◌, ◌<◌, ◌≡◌, refl, true, false, Option, some, List, [], ◌∷◌, ltb, leb, arith,
  Option-cases, Bool-cases, inl, inr, ◌⊎◌, All, Memᴰ,
}
use bebo.Prelude.Dict.{Dict, lookup, insert, delete, string_eq, lookup-insert, lookup-delete}
use bebo.Session.Memory.{
  Values, MemoryEntry, ExpirationEntry, MemoryStore, is_expired, push, cleanup_expired,
  first_is_due, maybe_cleanup, get_cleaned, get, stored,
}
use bebo.Session.Memory.Cleanup.{IsSorted, IsCovered, cleanup_loop-Clean, entry_of, all_later}

pub record Inv (s : MemoryStore) : Type 0 where
  pub has_ttl : 0 < s.ttl
  pub sorted : IsSorted s.expirations
  pub covered : IsCovered s.expirations s.sessions

-- No stored session is expired.
abbrev pub IsFresh : ℕ → MemoryStore → Type 0
IsFresh now s =
    (id : String) (e : MemoryEntry) → lookup id s.sessions ≡ some e → is_expired e now ≡ false

push-All :
    (t : ℕ) (x : ExpirationEntry) (ys : List ExpirationEntry)
    → t ≤ x.expires_at
    → All (λ y. t ≤ y.expires_at) ys
    → All (λ y. t ≤ y.expires_at) (push x ys)
unfolding push
push-All t x [] h a = (h, tt)
push-All t x (y ∷ ys) h (k, a) = ground (arith, push-All t x ys h a)

weaken :
    (a b : ℕ) (ys : List ExpirationEntry)
    → a ≤ b
    → All (λ y. b ≤ y.expires_at) ys
    → All (λ y. a ≤ y.expires_at) ys
weaken a b [] h k = tt
weaken a b (y ∷ ys) h (l, k) = (omega arith, weaken a b ys h k)

push-IsSorted :
    (x : ExpirationEntry) (ys : List ExpirationEntry) → IsSorted ys → IsSorted (push x ys)
unfolding push
push-IsSorted x [] s = (tt, tt)
push-IsSorted x (y ∷ ys) (a, s) = elim (Bool-cases (ltb x.expires_at y.expires_at)) [
  | inl h ↦ rw h ((ground arith, weaken x.expires_at y.expires_at ys (ground arith) a), (a, s))
  | inr h ↦ rw h (push-All y.expires_at x ys (ground arith) a, push-IsSorted x ys s)
]

push-mem_new : (x : ExpirationEntry) (ys : List ExpirationEntry) → Memᴰ x (push x ys)
unfolding push
push-mem_new x [] = Memᴰ.head refl
push-mem_new x (y ∷ ys) = elim (Bool-cases (ltb x.expires_at y.expires_at)) [
  | inl h ↦ rw h (Memᴰ.head refl)
  | inr h ↦ rw h (Memᴰ.tail (push-mem_new x ys))
]

push-mem_old : (x z : ExpirationEntry) (ys : List ExpirationEntry) → Memᴰ z ys → Memᴰ z (push x ys)
unfolding push
push-mem_old x z [] m = elim m [ ]
push-mem_old x z (y ∷ ys) (Memᴰ.head e) = elim (Bool-cases (ltb x.expires_at y.expires_at)) [
  | inl h ↦ rw h (Memᴰ.tail (Memᴰ.head e))
  | inr h ↦ rw h (Memᴰ.head e)
]
push-mem_old x z (y ∷ ys) (Memᴰ.tail m) = elim (Bool-cases (ltb x.expires_at y.expires_at)) [
  | inl h ↦ rw h (Memᴰ.tail (Memᴰ.tail m))
  | inr h ↦ rw h (Memᴰ.tail (push-mem_old x z ys m))
]

pub cleanup_expired-Inv :
    (s : MemoryStore) (now : ℕ)
    → Inv s
    → Inv (cleanup_expired s now) × IsFresh now (cleanup_expired s now)
unfolding cleanup_expired
cleanup_expired-Inv s now i =
    let (sorted, covered, gone) =
      cleanup_loop-Clean now s.expirations s.sessions i.sorted i.covered in
    let has_ttl : leb s.ttl 0 ≡ false = ground (arith, i.has_ttl) in
    rw has_ttl (record { has_ttl = i.has_ttl; sorted = sorted; covered = covered }, gone)

-- The heap's first entry says whether anything is due.
IsFresh-unless_due :
    (s : MemoryStore) (now : ℕ) → Inv s → first_is_due s.expirations now ≡ false → IsFresh now s
IsFresh-unless_due s now i d id e look =
    let (t, same, m) = i.covered id e look in
    let l : now < t = none_due s.expirations t i.sorted d m in ground arith
  where
    none_due :
        (xs : List ExpirationEntry) (t : ℕ)
        → IsSorted xs
        → first_is_due xs now ≡ false
        → Memᴰ (entry_of id t) xs
        → now < t
    none_due [] t s d m = elim m [ ]
    none_due (x ∷ xs) t s d m = all_later now t id x xs s (ground arith) m

maybe_cleanup_cases :
    (s : MemoryStore) (now : ℕ)
    → Inv s
    → (maybe_cleanup s now ≡ cleanup_expired s now)
      ⊎ ((maybe_cleanup s now ≡ s) × (first_is_due s.expirations now ≡ false))
unfolding maybe_cleanup
maybe_cleanup_cases s now i =
    let has_ttl : leb s.ttl 0 ≡ false = ground (arith, i.has_ttl) in
    elim (Bool-cases (first_is_due s.expirations now)) [
      | inl d ↦ inl (rw (has_ttl, d) refl)
      | inr d ↦ inr (rw (has_ttl, d) refl, d)
    ]

maybe_cleanup-Inv :
    (s : MemoryStore) (now : ℕ)
    → Inv s
    → Inv (maybe_cleanup s now) × IsFresh now (maybe_cleanup s now)
maybe_cleanup-Inv s now i = elim (maybe_cleanup_cases s now i) [
  | inl e ↦ rw e (cleanup_expired-Inv s now i)
  | inr (e, d) ↦ rw e (i, IsFresh-unless_due s now i d)
]

delete-lookup :
    (k id : String) (m : Dict String MemoryEntry) (e : MemoryEntry)
    → lookup id (delete k m) ≡ some e
    → lookup id m ≡ some e
delete-lookup k id m e h = ground (arith, lookup-delete k id m)

pub delete-Inv :
    (s : MemoryStore) (k : String) → Inv s → Inv (record s { sessions = delete k s.sessions })
delete-Inv s k i = record {
  has_ttl = i.has_ttl;
  sorted = i.sorted;
  covered = λ id e h. i.covered id e (delete-lookup k id s.sessions e h);
}

get_cleaned-Inv :
    (s : MemoryStore) (cookie : String) (now : ℕ) (new_id : Option String)
    → Inv s
    → IsFresh now s
    → Inv (get_cleaned s cookie now new_id).0 × IsFresh now (get_cleaned s cookie now new_id).0
unfolding get_cleaned
get_cleaned-Inv s cookie now new_id i f = elim (Bool-cases (str_eq cookie "")) [
  | inl e ↦ rw e (i, f)
  | inr e ↦ elim (Option-cases (lookup cookie s.sessions)) [
    | inl h ↦ rw (e, h) (i, f)
    | inr (entry, h) ↦ rw (e, h, f cookie entry h) (i, f)
  ]
]

-- In a store whose heap covers its sessions, Get leaves no session that is expired at the time of
-- the call, and the heap still covers the sessions.
pub get-Inv :
    (s : MemoryStore) (cookie : String) (now : ℕ) (new_id : Option String)
    → Inv s
    → Inv (get s cookie now new_id).0 × IsFresh now (get s cookie now new_id).0
unfolding get
get-Inv s cookie now new_id i =
    let (i', f) = maybe_cleanup-Inv s now i in
    get_cleaned-Inv (maybe_cleanup s now) cookie now new_id i' f

pub stored-Inv :
    (s : MemoryStore) (id : String) (values : Values) (now : ℕ)
    → Inv s
    → IsFresh now s
    → Inv (stored s id values now) × IsFresh now (stored s id values now)
stored-Inv s id values now i f =
    let has_ttl : leb s.ttl 0 ≡ false = ground (arith, i.has_ttl) in
    rw has_ttl (
      record {
        has_ttl = i.has_ttl;
        sorted = push-IsSorted (entry_of id (now + s.ttl)) s.expirations i.sorted;
        covered = λ j e h. covers j e h (Bool-cases (str_eq id j));
      },
      λ j e h. still_fresh j e h (Bool-cases (str_eq id j)),
    )
  where
    new_entry : MemoryEntry
    new_entry = record { values = values; expires_at = some (now + s.ttl) }

    covers :
        (j : String) (e : MemoryEntry)
        → lookup j (insert id new_entry s.sessions) ≡ some e
        → (str_eq id j ≡ true) ⊎ (str_eq id j ≡ false)
        → (t : ℕ) × (e.expires_at ≡ some t)
          × Memᴰ (entry_of j t) (push (entry_of id (now + s.ttl)) s.expirations)
    covers j e h (inl same) = (
      now + s.ttl,
      ground (arith, lookup-insert id j new_entry s.sessions),
      rw ((eq_iff id j).0 same) (push-mem_new (entry_of j (now + s.ttl)) s.expirations),
    )
    covers j e h (inr other) =
        let (t, same, m) =
          i.covered j e (ground (arith, lookup-insert id j new_entry s.sessions)) in
        (t, same, push-mem_old (entry_of id (now + s.ttl)) (entry_of j t) s.expirations m)

    still_fresh :
        (j : String) (e : MemoryEntry)
        → lookup j (insert id new_entry s.sessions) ≡ some e
        → (str_eq id j ≡ true) ⊎ (str_eq id j ≡ false)
        → is_expired e now ≡ false
    still_fresh j e h (inl same) =
        ground (arith, lookup-insert id j new_entry s.sessions, i.has_ttl)
    still_fresh j e h (inr other) = f j e (ground (arith, lookup-insert id j new_entry s.sessions))
