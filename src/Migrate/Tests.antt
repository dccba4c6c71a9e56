-- ===== src/Migrate/Tests.antt =====
-- migrate/runner.go: the theorems at a small directory and database. A script is run by counting it.
use bebo.Prelude.{
  ℕ, suc, ◌≡◌, refl, true, false, ◌||◌, Option, none, some, List, [], ◌∷◌, ◌++◌, if◌then◌else◌,
}
use bebo.Prelude.Int.{pos}
use bebo.Prelude.Text.{Bytes, bytes, text_eq}
use bebo.Migrate.{Migration, DirEntry}
use bebo.Migrate.Database.{Db, failed_script, has, up_loop, up_unlocked, down_unlocked}
use bebo.Migrate.Database.Applied.{versions, up_unlocked-has, up_loop-failure}
use bebo.Migrate.Database.Down.{AreDistinct}

abbrev in_dir : Bytes → Bytes
in_dir name = bytes "db/" ++ name

abbrev entries : List DirEntry
entries =
    record { name = bytes "2_add.up.sql"; is_dir = false }
    ∷ record { name = bytes "1_init.up.sql"; is_dir = false }
    ∷ record { name = bytes "old"; is_dir = true }
    ∷ []

abbrev run_script : Bytes → ℕ → Option ℕ
run_script path n = if text_eq path (bytes "bad") then none else some (suc n)

abbrev init : Migration
init = record { version = pos 1; name = bytes "init"; up_path = bytes "u1"; down_path = bytes "d1" }

abbrev add : Migration
add = record { version = pos 2; name = bytes "add"; up_path = bytes "u2"; down_path = bytes "d2" }

abbrev broken : Migration
broken = record { version = pos 3; name = bytes "broken"; up_path = bytes "bad"; down_path = [] }

abbrev empty_db : Db ℕ
empty_db = record { content = 0; applied = [] }

up_succeeds : (up_unlocked run_script (init ∷ add ∷ []) empty_db).2 ≡ none
unfolding up_unlocked text_eq
up_succeeds = refl

up_fails :
    (up_loop run_script [] (init ∷ broken ∷ add ∷ []) empty_db 0).2 ≡ some (failed_script (pos 3))
unfolding up_loop text_eq
up_fails = refl

up_unlocked-has_example :
    has (pos 2) (up_unlocked run_script (init ∷ add ∷ []) empty_db).0.applied
    ≡ (has (pos 2) empty_db.applied || has (pos 2) (versions (init ∷ add ∷ [])))
up_unlocked-has_example = up_unlocked-has run_script (init ∷ add ∷ []) empty_db (pos 2) up_succeeds

up_loop-failure_example :
    (pre : List Migration) × (m : Migration) × (post : List Migration) × (init ∷ broken ∷ add ∷ []
      ≡ pre ++ (m ∷ post))
    × (has m.version [] ≡ false)
    × (up_loop run_script [] pre empty_db 0 ≡ (
      (up_loop run_script [] (init ∷ broken ∷ add ∷ []) empty_db 0).0,
      (up_loop run_script [] (init ∷ broken ∷ add ∷ []) empty_db 0).1,
      none,
    ))
up_loop-failure_example =
    up_loop-failure run_script [] (init ∷ broken ∷ add ∷ []) empty_db 0 (failed_script (pos 3))
      up_fails

abbrev migrated : Db ℕ
migrated = record { content = 2; applied = pos 2 ∷ pos 1 ∷ [] }

migrated_distinct : AreDistinct migrated.applied
unfolding has
migrated_distinct = (refl, (refl, tt))

down_succeeds : (down_unlocked run_script (init ∷ add ∷ []) 1 migrated).2 ≡ none
unfolding down_unlocked text_eq
down_succeeds = refl
