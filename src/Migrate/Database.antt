-- ===== src/Migrate/Database.antt =====
-- migrate/runner.go, Runner.Up, Down and Plan, over a database that is a parameter: what the
-- migrations change is of a type C, a script either changes it or fails, and the version table is
-- the list of the applied versions as SELECT ... ORDER BY version DESC returns it. A transaction
-- that fails is rolled back: nothing of it stays. The table exists; the lock, if any, is granted or
-- not, and what is done with it is recorded.
pub mod Applied
pub mod Down
use bebo.Prelude.{
  ℕ, zero, suc, ◌+◌, Bool, true, false, not, ◌&&◌, ◌||◌, Option, none, some, List, [], ◌∷◌, ◌++◌,
  if◌then◌else◌, is_empty,
}
use bebo.Prelude.Int.{ℤ, ltb_ℤ, eq_ℤ}
use bebo.Prelude.Text.{Bytes}
use bebo.Migrate.{Migration}

pub record Db (C : Type 0) : Type 0 where
  pub content : C
  pub applied : List ℤ

pub data MigrateError : Type 0 where
  missing_up missing_migration missing_down : ℤ → MigrateError
  failed_script : ℤ → MigrateError
  lock_failed : MigrateError

unfoldable pub has : ℤ → List ℤ → Bool
has v [] = false
has v (w ∷ ws) = eq_ℤ w v || has v ws

-- A row in its place by descending version, and without the row.
unfoldable pub insert_row : ℤ → List ℤ → List ℤ
insert_row v [] = v ∷ []
insert_row v (w ∷ ws) = let rest = insert_row v ws in if ltb_ℤ w v then v ∷ w ∷ ws else w ∷ rest

unfoldable pub delete_row : ℤ → List ℤ → List ℤ
delete_row v [] = []
delete_row v (w ∷ ws) = let rest = delete_row v ws in if eq_ℤ w v then rest else w ∷ rest

-- What Up and Down return beside the database: how many migrations were done, and the error.
abbrev pub Outcome : Type 0 → Type 0
Outcome C = Db C × ℕ × Option MigrateError

-- byVersion[version]
unfoldable pub find_version : ℤ → List Migration → Option Migration
find_version v [] = none
find_version v (m ∷ ms) = if eq_ℤ m.version v then some m else find_version v ms

module _ {C : Type 0} (run_script : Bytes → C → Option C) where
  -- apply(ctx, m, true): the script and the INSERT, whose key must be new; none is an error.
  unfoldable pub apply_up : Migration → Db C → Option (Db C)
  unfolding has insert_row
  apply_up m db = elim (run_script m.up_path db.content) [
    | none ↦ none
    | some c ↦
        if has m.version db.applied
        then none
        else some (record { content = c; applied = insert_row m.version db.applied })
  ]

  -- apply(ctx, m, false): the script and the DELETE.
  unfoldable pub apply_down : Migration → Db C → Option (Db C)
  unfolding delete_row
  apply_down m db = elim (run_script m.down_path db.content) [
    | none ↦ none
    | some c ↦ some (record { content = c; applied = delete_row m.version db.applied })
  ]

  -- The loop of Up; `old` is appliedSet, read before it.
  unfoldable pub up_loop : List ℤ → List Migration → Db C → ℕ → Outcome C
  unfolding apply_up has
  up_loop old [] db count = (db, count, none)
  up_loop old (m ∷ ms) db count =
      let skip = up_loop old ms db count in
      if has m.version old
      then skip
      else if is_empty m.up_path
      then (db, count, some (missing_up m.version))
      else elim (apply_up m db) [
        | none ↦ (db, count, some (failed_script m.version))
        | some db' ↦ up_loop old ms db' (count + 1)
      ]

  unfoldable pub up_unlocked : List Migration → Db C → Outcome C
  unfolding up_loop
  up_unlocked migrations db = up_loop db.applied migrations db 0

  -- The loop of Down over the versions that were applied, latest first.
  unfoldable pub down_loop : List Migration → ℕ → List ℤ → Db C → ℕ → Outcome C
  unfolding apply_down find_version
  down_loop migrations zero versions db count = (db, count, none)
  down_loop migrations (suc steps) [] db count = (db, count, none)
  down_loop migrations (suc steps) (v ∷ versions) db count = elim (find_version v migrations) [
    | none ↦ (db, count, some (missing_migration v))
    | some m ↦
        if is_empty m.down_path
        then (db, count, some (missing_down v))
        else elim (apply_down m db) [
          | none ↦ (db, count, some (failed_script v))
          | some db' ↦ down_loop migrations steps versions db' (count + 1)
        ]
  ]

  unfoldable pub down_unlocked : List Migration → ℕ → Db C → Outcome C
  unfolding down_loop
  down_unlocked migrations steps db = down_loop migrations steps db.applied db 0

-- PlanEntry: each migration, and whether it has been applied.
unfoldable pub plan : List ℤ → List Migration → List (Migration × Bool)
unfolding has
plan applied [] = []
plan applied (m ∷ ms) = (m, has m.version applied) ∷ plan applied ms

-- No locker; one whose Lock succeeds; one whose Lock fails.
pub data Locker : Type 0 where
  no_locker granted refused : Locker

pub data LockCall : Type 0 where
  lock unlock : LockCall

-- The lock is taken before the work, and the deferred Unlock follows it however it ends.
abbrev pub with_lock {ℓ} : {A : Type ℓ} → Locker → A → A → A × List LockCall
with_lock no_locker work refusal = (work, [])
with_lock granted work refusal = (work, lock ∷ unlock ∷ [])
with_lock refused work refusal = (refusal, lock ∷ [])

module _ {C : Type 0} (run_script : Bytes → C → Option C) where
  unfoldable pub up : Locker → List Migration → Db C → Outcome C × List LockCall
  unfolding up_unlocked
  up lk migrations db =
      with_lock lk (up_unlocked run_script migrations db) (db, 0, some lock_failed)

  -- Down with no steps returns before the lock.
  unfoldable pub down : Locker → List Migration → ℕ → Db C → Outcome C × List LockCall
  unfolding down_unlocked
  down lk migrations zero db = ((db, 0, none), [])
  down lk migrations (suc steps) db =
      with_lock lk (down_unlocked run_script migrations (suc steps) db) (db, 0, some lock_failed)
