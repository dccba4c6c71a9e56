-- ===== src/Session/Memory/Cleanup.antt =====
-- session/memory.go, cleanupExpiredLocked: no expired session stays in memory.
use Prim.Native.String.{String}
use text.Mathlib.TextEquality.{eq_iff}
use bebo.Prelude.{
  ℕ, ◌≤◌, ◌<◌, ◌≡◌, ap, false, some, List, [], ◌∷◌, ltb, arith, Bool-cases, inl, inr, All, Memᴰ,
}
use bebo.Prelude.Dict.{Dict, lookup, string_eq, lookup-delete}
use bebo.Session.Memory.{MemoryEntry, ExpirationEntry, is_expired, drop_expired, cleanup_loop}

-- The expirations ascend, as the heap hands them out.
abbrev pub IsSorted : List ExpirationEntry → Type 0
IsSorted [] = Unit
IsSorted (x ∷ xs) = All (λ y. x.expires_at ≤ y.expires_at) xs × IsSorted xs

abbrev pub entry_of : String → ℕ → ExpirationEntry
entry_of id t = record { id = id; expires_at = t }

-- Every stored session expires, and the heap has its expiration.
abbrev pub IsCovered : List ExpirationEntry → Dict String MemoryEntry → Type 0
IsCovered xs sessions =
    (id : String) (e : MemoryEntry)
    → lookup id sessions ≡ some e
    → (t : ℕ) × (e.expires_at ≡ some t) × Memᴰ (entry_of id t) xs

drop_expired-lookup :
    (x : ExpirationEntry) (now : ℕ) (sessions : Dict String MemoryEntry) (id : String)
    (e : MemoryEntry)
    → lookup id (drop_expired x now sessions) ≡ some e
    → lookup id sessions ≡ some e
unfolding drop_expired
drop_expired-lookup x now sessions id e h =
    ground (arith, lookup-delete x.id id sessions, eq_iff x.id id)

-- The session whose expiration is popped goes, if it is due.
drop_expired-drops :
    (now t : ℕ) (sessions : Dict String MemoryEntry) (id : String) (e : MemoryEntry)
    → t ≤ now
    → lookup id (drop_expired (entry_of id t) now sessions) ≡ some e
    → e.expires_at ≡ some t
    → ⊥
unfolding drop_expired
drop_expired-drops now t sessions id e due h same =
    ground (arith, lookup-delete id id sessions, eq_iff id id)

drop_expired-IsCovered :
    (x : ExpirationEntry) (xs : List ExpirationEntry) (now : ℕ) (sessions : Dict String MemoryEntry)
    → x.expires_at ≤ now
    → IsCovered (x ∷ xs) sessions
    → IsCovered xs (drop_expired x now sessions)
drop_expired-IsCovered x xs now sessions due c id e h =
    let (t, same, m) = c id e (drop_expired-lookup x now sessions id e h) in
    (t, same, later t same m)
  where
    later :
        (t : ℕ) → e.expires_at ≡ some t → Memᴰ (entry_of id t) (x ∷ xs) → Memᴰ (entry_of id t) xs
    later t same (Memᴰ.head eq) =
        absurd (
          drop_expired-drops now t sessions id e (rw (ap (λ y. y.expires_at) eq) due) (rw eq h)
            same)
    later t same (Memᴰ.tail m) = m

pub all_later :
    (now t : ℕ) (id : String) (x : ExpirationEntry) (xs : List ExpirationEntry)
    → IsSorted (x ∷ xs)
    → now < x.expires_at
    → Memᴰ (entry_of id t) (x ∷ xs)
    → now < t
all_later now t id x xs s h (Memᴰ.head eq) =
    omega (arith, h, ap (λ (y : ExpirationEntry). y.expires_at) eq)
all_later now t id x [] s h (Memᴰ.tail m) = elim m [ ]
all_later now t id x (y ∷ ys) s h (Memᴰ.tail m) =
    all_later now t id y ys s.1 (omega (arith, h, s.0.0)) m

-- After the loop what is left is sorted and covered, and no session is expired.
abbrev pub Clean : ℕ → List ExpirationEntry × Dict String MemoryEntry → Type 0
Clean now r =
    IsSorted r.0
    × IsCovered r.0 r.1
    × ((id : String) (e : MemoryEntry) → lookup id r.1 ≡ some e → is_expired e now ≡ false)

pub cleanup_loop-Clean :
    (now : ℕ) (xs : List ExpirationEntry) (sessions : Dict String MemoryEntry)
    → IsSorted xs
    → IsCovered xs sessions
    → Clean now (cleanup_loop now xs sessions)
unfolding cleanup_loop
cleanup_loop-Clean now [] sessions s c =
    (tt, c, λ id e h. let (t, same, m) = c id e h in elim m [ ])
cleanup_loop-Clean now (x ∷ xs) sessions s c = elim (Bool-cases (ltb now x.expires_at)) [
  | inl h ↦ rw h (
    s,
    c,
    λ id e look.
        let (t, same, m) = c id e look in
        let l = all_later now t id x xs s (ground arith) m in ground arith,
  )
  | inr h ↦ rw h (
      cleanup_loop-Clean now xs (drop_expired x now sessions) s.1
        (drop_expired-IsCovered x xs now sessions (ground arith) c))
]
