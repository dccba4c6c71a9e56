-- ===== src/Migrate/Database/Down.antt =====
-- migrate/runner.go, Runner.Down: what is rolled back.
use bebo.Prelude.{
  ℕ, zero, suc, ◌+◌, ◌≡◌, refl, ap, ◌∙◌, false, Option, none, some, List, [], ◌∷◌, arith,
  Bool-cases, Option-cases, inl, inr, is_empty,
}
use bebo.Prelude.Int.{ℤ, eq_ℤ_iff}
use bebo.Prelude.Text.{Bytes}
use bebo.Migrate.{Migration}
use bebo.Migrate.Database.{
  Db, MigrateError, has, delete_row, apply_down, find_version, down_loop, down_unlocked,
}

-- The versions are all different, as the table's primary key has it.
abbrev pub AreDistinct : List ℤ → Type 0
AreDistinct [] = Unit
AreDistinct (v ∷ vs) = (has v vs ≡ false) × AreDistinct vs

abbrev pub drop : ℕ → List ℤ → List ℤ
drop zero vs = vs
drop (suc n) [] = []
drop (suc n) (v ∷ vs) = drop n vs

delete_row_absent : (v : ℤ) (rows : List ℤ) → has v rows ≡ false → delete_row v rows ≡ rows
unfolding has delete_row
delete_row_absent v [] h = refl
delete_row_absent v (w ∷ rows) h = ground (arith, delete_row_absent v rows)

delete_row_first : (v : ℤ) (rows : List ℤ) → has v rows ≡ false → delete_row v (v ∷ rows) ≡ rows
unfolding delete_row
delete_row_first v rows h = rw ((eq_ℤ_iff v v).1 refl) (delete_row_absent v rows h)

find_version_version :
    (v : ℤ) (ms : List Migration) (m : Migration) → find_version v ms ≡ some m → m.version ≡ v
unfolding find_version
find_version_version v [] m h = cc
find_version_version v (n ∷ ms) m h =
    ground (arith, eq_ℤ_iff n.version v, find_version_version v ms m)

module _ {C : Type 0} (run_script : Bytes → C → Option C) where
  apply_down-applied :
      (m : Migration) (db db' : Db C)
      → apply_down run_script m db ≡ some db'
      → db'.applied ≡ delete_row m.version db.applied
  unfolding apply_down
  apply_down-applied m db db' h = ground arith

  -- What a round without an error does.
  abbrev RollsBack : List Migration → ℕ → ℤ → List ℤ → Db C → ℕ → Type 0
  RollsBack migrations steps v versions db count =
      (db' : Db C) × (db'.applied ≡ delete_row v db.applied)
      × (down_loop run_script migrations (suc steps) (v ∷ versions) db count
          ≡ down_loop run_script migrations steps versions db' (count + 1))

  round :
      (migrations : List Migration) (steps : ℕ) (v : ℤ) (versions : List ℤ) (db : Db C) (count : ℕ)
      → (down_loop run_script migrations (suc steps) (v ∷ versions) db count).2 ≡ none
      → RollsBack migrations steps v versions db count
  unfolding down_loop
  round migrations steps v versions db count ok = elim (Option-cases (find_version v migrations)) [
    | inl e ↦ absurd (stopped (rw (e, down_loop) at ok))
    | inr (m, e) ↦ elim (Bool-cases (is_empty m.down_path)) [
      | inl p ↦ absurd (stopped (rw (e, p, down_loop) at ok))
      | inr p ↦ elim (Option-cases (apply_down run_script m db)) [
        | inl a ↦ absurd (stopped (rw (e, p, a, down_loop) at ok))
        | inr (db', a) ↦ (
          db',
          apply_down-applied m db db' a
              ∙ ap (λ w. delete_row w db.applied) (find_version_version v migrations m e),
          rw (e, p, a, down_loop) refl,
        )
      ]
    ]
  ]
    where
      stopped : {x : MigrateError} → some x ≡ none → ⊥
      stopped p = cc

  down_loop-applied :
      (migrations : List Migration) (steps : ℕ) (versions : List ℤ) (db : Db C) (count : ℕ)
      → db.applied ≡ versions
      → AreDistinct versions
      → (down_loop run_script migrations steps versions db count).2 ≡ none
      → (down_loop run_script migrations steps versions db count).0.applied ≡ drop steps versions
  down_loop-applied migrations zero versions db count e d ok = unfold down_loop in e
  down_loop-applied migrations (suc steps) [] db count e d ok = unfold down_loop in e
  down_loop-applied migrations (suc steps) (v ∷ versions) db count e (new, d) ok =
      let (db', rows, eq) = round migrations steps v versions db count ok in
      let left : db'.applied ≡ versions =
        rows ∙ ap (delete_row v) e ∙ delete_row_first v versions new in
      rw eq (down_loop-applied migrations steps versions db' (count + 1) left d (rw eq at ok))

  -- After a Down without an error the latest versions, as many as the steps, are no longer applied,
  -- and all others still are.
  pub down_unlocked-applied :
      (migrations : List Migration) (steps : ℕ) (db : Db C)
      → AreDistinct db.applied
      → (down_unlocked run_script migrations steps db).2 ≡ none
      → (down_unlocked run_script migrations steps db).0.applied ≡ drop steps db.applied
  unfolding down_unlocked
  down_unlocked-applied migrations steps db d ok =
      down_loop-applied migrations steps db.applied db 0 refl d ok
