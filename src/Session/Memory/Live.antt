-- ===== src/Session/Memory/Live.antt =====
-- session/memory.go against an abstract store: a map from ids to the values that are live at a time.
use Prim.Native.String.{String}
use text.Mathlib.Text.{◌==◌ as str_eq}
use text.Mathlib.TextEquality.{eq_iff}
use bebo.Prelude.{
  ℕ, ◌+◌, ◌≤◌, ◌≡◌, refl, ◌∙◌, false, Option, none, some, List, [], ◌∷◌, ltb, leb, if◌then◌else◌,
  arith, Bool-cases, inl, inr, ◌||◌,
}
use bebo.Prelude.Dict.{Dict, lookup, string_eq, lookup-insert, lookup-delete}
use bebo.Session.Memory.{
  Values, MemoryEntry, ExpirationEntry, MemoryStore, Session, is_expired, drop_expired,
  cleanup_loop, cleanup_expired, maybe_cleanup, fresh, get_cleaned, get, save_id, stored, save_as,
  save, clear,
}

abbrev pub live_entry : Option MemoryEntry → ℕ → Option Values
live_entry none now = none
live_entry (some e) now = if is_expired e now then none else some e.values

-- The values that a session id has at a time, if it is known and not expired then.
unfoldable pub live : MemoryStore → ℕ → String → Option Values
live s now id = live_entry (lookup id s.sessions) now

live_in : Dict String MemoryEntry → ℕ → String → Option Values
live_in sessions now id = live_entry (lookup id sessions) now

drop_expired-live :
    (x : ExpirationEntry) (now later : ℕ) (sessions : Dict String MemoryEntry) (id : String)
    → now ≤ later
    → live_in (drop_expired x now sessions) later id ≡ live_in sessions later id
unfolding live_in drop_expired
drop_expired-live x now later sessions id h =
    ground (arith, lookup-delete x.id id sessions, eq_iff x.id id)

cleanup_loop-live :
    (now later : ℕ) (xs : List ExpirationEntry) (sessions : Dict String MemoryEntry) (id : String)
    → now ≤ later
    → live_in (cleanup_loop now xs sessions).1 later id ≡ live_in sessions later id
unfolding cleanup_loop
cleanup_loop-live now later [] sessions id h = refl
cleanup_loop-live now later (x ∷ xs) sessions id h = elim (Bool-cases (ltb now x.expires_at)) [
  | inl e ↦ rw e refl
  | inr e ↦ rw e (
      cleanup_loop-live now later xs (drop_expired x now sessions) id h
      ∙ drop_expired-live x now later sessions id h)
]

cleanup_expired-live :
    (s : MemoryStore) (now later : ℕ) (id : String)
    → now ≤ later
    → live (cleanup_expired s now) later id ≡ live s later id
unfolding cleanup_expired
cleanup_expired-live s now later id h = elim (Bool-cases (leb s.ttl 0)) [
  | inl e ↦ rw e refl
  | inr e ↦
      rw e (unfold live live_in in (cleanup_loop-live now later s.expirations s.sessions id h))
]

maybe_cleanup-live :
    (s : MemoryStore) (now later : ℕ) (id : String)
    → now ≤ later
    → live (maybe_cleanup s now) later id ≡ live s later id
unfolding maybe_cleanup
maybe_cleanup-live s now later id h = ground (arith, cleanup_expired-live s now later id h)

-- What Get answers for a cookie, by the values that are live.
abbrev pub answer : String → Option String → Option Values → Option Session
answer cookie new_id none = fresh new_id
answer cookie new_id (some values) = some (record { id = cookie; values = values; is_new = false })

get_cleaned-answer :
    (s : MemoryStore) (cookie : String) (now : ℕ) (new_id : Option String)
    → str_eq cookie "" ≡ false
    → (get_cleaned s cookie now new_id).1 ≡ answer cookie new_id (live s now cookie)
unfolding get_cleaned live
get_cleaned-answer s cookie now new_id h = ground arith

-- Get with a session cookie returns that session, not new, with exactly the values that are live
-- at the time of the call; for an id that is unknown or expired it returns a new session with no
-- values under a new id (or the error of making one).
pub get_lem :
    (s : MemoryStore) (cookie : String) (now : ℕ) (new_id : Option String)
    → str_eq cookie "" ≡ false
    → (get s cookie now new_id).1 ≡ answer cookie new_id (live s now cookie)
unfolding get
get_lem s cookie now new_id h =
    rw (← maybe_cleanup-live s now now cookie (omega arith))
      (get_cleaned-answer (maybe_cleanup s now) cookie now new_id h)

get_cleaned-live :
    (s : MemoryStore) (cookie : String) (now later : ℕ) (new_id : Option String) (id : String)
    → now ≤ later
    → live (get_cleaned s cookie now new_id).0 later id ≡ live s later id
unfolding get_cleaned live
get_cleaned-live s cookie now later new_id id h =
    ground (arith, lookup-delete cookie id s.sessions, eq_iff cookie id)

-- Get changes no session: what is live at the time of the call or later is the same after it.
pub get-live :
    (s : MemoryStore) (cookie : String) (now later : ℕ) (new_id : Option String) (id : String)
    → now ≤ later
    → live (get s cookie now new_id).0 later id ≡ live s later id
unfolding get
get-live s cookie now later new_id id h =
    get_cleaned-live (maybe_cleanup s now) cookie now later new_id id h
    ∙ maybe_cleanup-live s now later id h

-- The values saved at one time, as they are live at another: for the TTL, or for ever if it is 0.
abbrev pub saved_live : ℕ → ℕ → ℕ → Values → Option Values
saved_live ttl now later values = if leb ttl 0 || ltb later (now + ttl) then some values else none

stored-live :
    (s : MemoryStore) (k : String) (values : Values) (now later : ℕ) (id : String)
    → live (stored s k values now) later id
      ≡ (if str_eq k id then saved_live s.ttl now later values else live s later id)
unfolding live
stored-live s k values now later id = ground (
  arith,
  lookup-insert k id (record { values = values; expires_at = none }) s.sessions,
  lookup-insert k id (record { values = values; expires_at = some (now + s.ttl) }) s.sessions,
)

cleanup_expired-ttl : (s : MemoryStore) (now : ℕ) → (cleanup_expired s now).ttl ≡ s.ttl
unfolding cleanup_expired
cleanup_expired-ttl s now = ground arith

-- Save under an id makes the session's values live there for the TTL from the call on (for ever, if
-- there is no TTL), renewing what was there, and changes no other session.
pub save-live :
    (s : MemoryStore) (session : Session) (now later : ℕ) (new_id : Option String) (k id : String)
    → save_id session new_id ≡ some k
    → now ≤ later
    → live (save s session now new_id).0 later id
      ≡ (if str_eq k id then saved_live s.ttl now later session.values else live s later id)
unfolding save
save-live s session now later new_id k id e h =
    rw (e, save_as)
      (stored-live (cleanup_expired s now) k session.values now later id
        ∙ rw (cleanup_expired-ttl s now, cleanup_expired-live s now later id h) refl)

-- Clear removes the session, and no other.
pub clear-live :
    (s : MemoryStore) (session : Session) (now : ℕ) (id : String)
    → str_eq session.id "" ≡ false
    → live (clear s session).0 now id ≡ (if str_eq session.id id then none else live s now id)
unfolding clear live
clear-live s session now id h = ground (arith, lookup-delete session.id id s.sessions)
