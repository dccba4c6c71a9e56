-- ===== src/Session/Memory/Runs.antt =====
-- session/memory.go, MemoryStore: what holds after any calls of Get, Save and Clear.
use Prim.Native.String.{String}
use text.Mathlib.Text.{◌==◌ as str_eq}
use bebo.Prelude.{
  ℕ, ◌<◌, ◌≡◌, Option, none, some, List, [], ◌∷◌, Option-cases, Bool-cases, inl, inr,
}
use bebo.Prelude.Dict.{lookup, string_eq}
use bebo.Session.Memory.{
  MemoryEntry, MemoryStore, Session, new_memory_store, cleanup_expired, get, save_id, stored,
  save_as, save, clear,
}
use bebo.Session.Memory.Invariant.{
  Inv, IsFresh, cleanup_expired-Inv, stored-Inv, delete-Inv, get-Inv,
}

pub data Op : Type 0 where
  gets : String → ℕ → Option String → Op
  saves : Session → ℕ → Option String → Op
  clears : Session → Op

pub run : MemoryStore → List Op → MemoryStore
run s [] = s
run s (gets cookie now new_id ∷ ops) = run (get s cookie now new_id).0 ops
run s (saves session now new_id ∷ ops) = run (save s session now new_id).0 ops
run s (clears session ∷ ops) = run (clear s session).0 ops

save-Inv :
    (s : MemoryStore) (session : Session) (now : ℕ) (new_id : Option String)
    → Inv s
    → Inv (save s session now new_id).0
unfolding save
save-Inv s session now new_id i = elim (Option-cases (save_id session new_id)) [
  | inl e ↦ rw (e, save_as) i
  | inr (id, e) ↦ rw (e, save_as) (saved id)
]
  where
    saved : (id : String) → Inv (stored (cleanup_expired s now) id session.values now)
    saved id =
        let (i', f) = cleanup_expired-Inv s now i in
        (stored-Inv (cleanup_expired s now) id session.values now i' f).0

clear-Inv : (s : MemoryStore) (session : Session) → Inv s → Inv (clear s session).0
unfolding clear
clear-Inv s session i = elim (Bool-cases (str_eq session.id "")) [
  | inl e ↦ rw e i
  | inr e ↦ rw e (delete-Inv s session.id i)
]

new_memory_store-Inv : (ttl : ℕ) → 0 < ttl → Inv (new_memory_store ttl)
unfolding new_memory_store
new_memory_store-Inv ttl h = record {
  has_ttl = h;
  sorted = tt;
  covered = λ id e look. absurd (nothing {e = e} (unfold lookup in look));
}
  where
    nothing : {e : MemoryEntry} → none ≡ some e → ⊥
    nothing e = cc

-- A store that is used by any calls of Get, Save and Clear at any times keeps its expirations
-- sorted, and has an expiration for each session that it stores.
pub run-Inv : (s : MemoryStore) (ops : List Op) → Inv s → Inv (run s ops)
unfolding run
run-Inv s [] i = i
run-Inv s (gets cookie now new_id ∷ ops) i =
    run-Inv (get s cookie now new_id).0 ops (get-Inv s cookie now new_id i).0
run-Inv s (saves session now new_id ∷ ops) i =
    run-Inv (save s session now new_id).0 ops (save-Inv s session now new_id i)
run-Inv s (clears session ∷ ops) i = run-Inv (clear s session).0 ops (clear-Inv s session i)

-- After any calls on a new store with a TTL, a Get leaves no session in memory that is expired at
-- the time of the Get.
pub get-no_expired_left :
    (ttl now : ℕ) (ops : List Op) (cookie : String) (new_id : Option String)
    → 0 < ttl
    → IsFresh now (get (run (new_memory_store ttl) ops) cookie now new_id).0
get-no_expired_left ttl now ops cookie new_id h =
    (get-Inv (run (new_memory_store ttl) ops) cookie now new_id
      (run-Inv (new_memory_store ttl) ops (new_memory_store-Inv ttl h))).1
