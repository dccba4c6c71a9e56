-- ===== src/Session/Memory.antt =====
-- session/memory.go: sessions in memory, with a heap of expirations. Times are nanoseconds, and the
-- zero time is none; a TTL of 0 stands for one that is not positive. The heap of container/heap is
-- kept by its contract, the least expiration first; entries of the same time may stand in any
-- order there. What newSessionID returns is an argument: none is its error.
pub mod Cleanup
pub mod Invariant
pub mod Runs
pub mod Live
use Prim.Native.String.{String}
use text.Mathlib.Text.{◌==◌ as str_eq}
use bebo.Prelude.{
  ℕ, ◌+◌, ◌/◌, Bool, true, false, not, Option, none, some, List, [], ◌∷◌, ltb, leb, ◌==◌,
  if◌then◌else◌,
}
use bebo.Prelude.Dict.{Dict, lookup, insert, delete, string_eq}

abbrev pub Values : Type 0
Values = Dict String String

pub record MemoryEntry : Type 0 where
  pub values : Values
  pub expires_at : Option ℕ

pub record ExpirationEntry : Type 0 where
  pub id : String
  pub expires_at : ℕ

pub record MemoryStore : Type 0 where
  pub ttl : ℕ
  pub sessions : Dict String MemoryEntry
  pub expirations : List ExpirationEntry

pub record Session : Type 0 where
  pub id : String
  pub values : Values
  pub is_new : Bool

-- The cookie that a response sets, by its value and its age in seconds; -1 deletes it.
pub data Cookie : Type 0 where
  plain : String → Cookie
  lasting : String → ℕ → Cookie
  deleted : Cookie

unfoldable pub new_memory_store : ℕ → MemoryStore
new_memory_store ttl = record { ttl = ttl; sessions = []; expirations = [] }

abbrev pub expired_at : Option ℕ → ℕ → Bool
expired_at none now = false
expired_at (some t) now = leb t now

abbrev pub is_expired : MemoryEntry → ℕ → Bool
is_expired entry now = expired_at entry.expires_at now

-- heap.Push
unfoldable pub push : ExpirationEntry → List ExpirationEntry → List ExpirationEntry
push x [] = x ∷ []
push x (y ∷ ys) =
    let rest = push x ys in if ltb x.expires_at y.expires_at then x ∷ y ∷ ys else y ∷ rest

-- stored.expiresAt.Equal(entry.expiresAt)
abbrev pub same_time : Option ℕ → ℕ → Bool
same_time none t = false
same_time (some s) t = s == t

abbrev pub drop_stored :
    Option MemoryEntry → ExpirationEntry → ℕ → Dict String MemoryEntry → Dict String MemoryEntry
drop_stored none x now sessions = sessions
drop_stored (some stored) x now sessions =
    if not (same_time stored.expires_at x.expires_at)
    then sessions
    else if is_expired stored now
    then delete x.id sessions
    else sessions

-- What a round of the cleanup does with the entry that it pops.
unfoldable pub drop_expired :
    ExpirationEntry → ℕ → Dict String MemoryEntry → Dict String MemoryEntry
unfolding lookup delete
drop_expired x now sessions = drop_stored (lookup x.id sessions) x now sessions

-- The loop of cleanupExpiredLocked.
unfoldable pub cleanup_loop :
    ℕ
    → List ExpirationEntry
    → Dict String MemoryEntry
    → List ExpirationEntry × Dict String MemoryEntry
unfolding drop_expired
cleanup_loop now [] sessions = ([], sessions)
cleanup_loop now (x ∷ xs) sessions =
    let rest = cleanup_loop now xs (drop_expired x now sessions) in
    if ltb now x.expires_at then (x ∷ xs, sessions) else rest

unfoldable pub cleanup_expired : MemoryStore → ℕ → MemoryStore
unfolding cleanup_loop
cleanup_expired s now =
    if leb s.ttl 0
    then s
    else (let (xs, sessions) = cleanup_loop now s.expirations s.sessions in
        record s { sessions = sessions; expirations = xs })

abbrev pub first_is_due : List ExpirationEntry → ℕ → Bool
first_is_due [] now = false
first_is_due (x ∷ _) now = leb x.expires_at now

unfoldable pub maybe_cleanup : MemoryStore → ℕ → MemoryStore
unfolding cleanup_expired
maybe_cleanup s now =
    if leb s.ttl 0 then s else if first_is_due s.expirations now then cleanup_expired s now else s

-- A fresh session under the new id, or the error of newSessionID.
abbrev pub fresh : Option String → Option Session
fresh none = none
fresh (some id) = some (record { id = id; values = []; is_new = true })

abbrev pub get_entry :
    Option MemoryEntry → MemoryStore → String → ℕ → Option String → MemoryStore × Option Session
get_entry none s id now new_id = (s, fresh new_id)
get_entry (some entry) s id now new_id =
    if is_expired entry now
    then (record s { sessions = delete id s.sessions }, fresh new_id)
    else (s, some (record { id = id; values = entry.values; is_new = false }))

-- The part of Get behind the clean-up, for the cookie's value, "" for no cookie.
unfoldable pub get_cleaned : MemoryStore → String → ℕ → Option String → MemoryStore × Option Session
unfolding lookup delete
get_cleaned s cookie now new_id =
    if str_eq cookie ""
    then (s, fresh new_id)
    else get_entry (lookup cookie s.sessions) s cookie now new_id

unfoldable pub get : MemoryStore → String → ℕ → Option String → MemoryStore × Option Session
unfolding maybe_cleanup get_cleaned
get s cookie now new_id = get_cleaned (maybe_cleanup s now) cookie now new_id

-- The id under which Save stores: the session's, or a new one.
unfoldable pub save_id : Session → Option String → Option String
save_id session new_id = if str_eq session.id "" then new_id else some session.id

abbrev pub stored : MemoryStore → String → Values → ℕ → MemoryStore
stored s id values now =
    if leb s.ttl 0
    then record s {
      sessions = insert id (record { values = values; expires_at = none }) s.sessions;
    }
    else record s {
      sessions = insert id (record { values = values; expires_at = some (now + s.ttl) }) s.sessions;
      expirations = push (record { id = id; expires_at = now + s.ttl }) s.expirations;
    }

abbrev pub cookie_for : MemoryStore → String → Cookie
cookie_for s id = if leb s.ttl 0 then plain id else lasting id (s.ttl / 1000000000)

abbrev pub save_as :
    Option String → MemoryStore → Session → ℕ → MemoryStore × Option (Session × Cookie)
save_as none s session now = (s, none)
save_as (some id) s session now = (
  stored (cleanup_expired s now) id session.values now,
  some (record { id = id; values = session.values; is_new = false }, cookie_for s id),
)

-- Save of a session that is not nil; none is the error of newSessionID.
unfoldable pub save :
    MemoryStore → Session → ℕ → Option String → MemoryStore × Option (Session × Cookie)
unfolding cleanup_expired push insert save_id
save s session now new_id = save_as (save_id session new_id) s session now

-- Clear of a session that is not nil.
unfoldable pub clear : MemoryStore → Session → MemoryStore × (Session × Cookie)
unfolding delete
clear s session = (
  if str_eq session.id "" then s else record s { sessions = delete session.id s.sessions },
  (record { id = ""; values = []; is_new = true }, deleted),
)
