-- ===== src/Migrate/Database/Applied.antt =====
-- migrate/runner.go, Runner.Up: what has been applied after it.
use bebo.Prelude.{
  ℕ, ◌+◌, ◌≡◌, refl, ap, ◌∙◌, Bool, true, false, ◌||◌, Option, none, some, List, [], ◌∷◌, ◌++◌,
  arith, Bool-cases, Option-cases, inl, inr, All, map, is_empty,
}
use bebo.Prelude.Int.{ℤ, eq_ℤ, eq_ℤ_iff}
use bebo.Prelude.Text.{Bytes}
use bebo.Migrate.{Migration}
use bebo.Migrate.Database.{
  Db, MigrateError, missing_up, failed_script, has, insert_row, Outcome, apply_up, up_loop,
  up_unlocked,
}

has-insert_row : (v w : ℤ) (rows : List ℤ) → has v (insert_row w rows) ≡ (eq_ℤ w v || has v rows)
unfolding has insert_row
has-insert_row v w [] = refl
has-insert_row v w (r ∷ rows) = ground (arith, has-insert_row v w rows)

has_cons : (v w : ℤ) (rows : List ℤ) → has v (w ∷ rows) ≡ (eq_ℤ w v || has v rows)
unfolding has
has_cons v w rows = refl

abbrev pub versions : List Migration → List ℤ
versions ms = map (λ m. m.version) ms

module _ {C : Type 0} (run_script : Bytes → C → Option C) where
  apply_up-has :
      (m : Migration) (db db' : Db C) (v : ℤ)
      → apply_up run_script m db ≡ some db'
      → has v db'.applied ≡ (eq_ℤ m.version v || has v db.applied)
  unfolding apply_up
  apply_up-has m db db' v h = ground (arith, has-insert_row v m.version db.applied)

  -- What a round of the loop of Up does.
  data Round (old : List ℤ) (m : Migration) (ms : List Migration) (db : Db C) (count : ℕ)
      (o : Outcome C) : Type 0 where
    skips :
        has m.version old ≡ true
        → o ≡ up_loop run_script old ms db count
        → Round old m ms db count o
    stops :
        (e : MigrateError)
        → has m.version old ≡ false
        → o ≡ (db, count, some e)
        → Round old m ms db count o
    applies :
        (db' : Db C)
        → has m.version old ≡ false
        → is_empty m.up_path ≡ false
        → apply_up run_script m db ≡ some db'
        → o ≡ up_loop run_script old ms db' (count + 1)
        → Round old m ms db count o

  round :
      (old : List ℤ) (m : Migration) (ms : List Migration) (db : Db C) (count : ℕ)
      → Round old m ms db count (up_loop run_script old (m ∷ ms) db count)
  unfolding up_loop
  round old m ms db count = elim (Bool-cases (has m.version old)) [
    | inl e ↦ skips e (rw e refl)
    | inr new ↦ elim (Bool-cases (is_empty m.up_path)) [
      | inl e ↦ stops (missing_up m.version) new (rw (new, e) refl)
      | inr path ↦ elim (Option-cases (apply_up run_script m db)) [
        | inl e ↦ stops (failed_script m.version) new (rw (new, path, e) refl)
        | inr (db', e) ↦ applies db' new path e (rw (new, path, e) refl)
      ]
    ]
  ]

  skip_eq :
      (old : List ℤ) (m : Migration) (ms : List Migration) (db : Db C) (count : ℕ)
      → has m.version old ≡ true
      → up_loop run_script old (m ∷ ms) db count ≡ up_loop run_script old ms db count
  unfolding up_loop
  skip_eq old m ms db count e = rw e refl

  apply_eq :
      (old : List ℤ) (m : Migration) (ms : List Migration) (db db' : Db C) (count : ℕ)
      → has m.version old ≡ false
      → is_empty m.up_path ≡ false
      → apply_up run_script m db ≡ some db'
      → up_loop run_script old (m ∷ ms) db count ≡ up_loop run_script old ms db' (count + 1)
  unfolding up_loop
  apply_eq old m ms db db' count new path e = rw (new, path, e) refl

  Within : List ℤ → List ℤ → Type 0
  Within old rows = (v : ℤ) → has v old ≡ true → has v rows ≡ true

  error_of : Outcome C → Option MigrateError
  error_of o = o.2

  up_loop-has :
      (old : List ℤ) (ms : List Migration) (db : Db C) (count : ℕ) (v : ℤ)
      → Within old db.applied
      → (up_loop run_script old ms db count).2 ≡ none
      → has v (up_loop run_script old ms db count).0.applied
        ≡ (has v db.applied || has v (versions ms))
  unfolding Within
  up_loop-has old [] db count v w ok = unfold up_loop has in (ground arith)
  up_loop-has old (m ∷ ms) db count v w ok = elim (round old m ms db count) [
    | skips e o ↦ rw o (skip_step (up_loop-has old ms db count v w (rw o at ok)) (w m.version e))
    | stops x e o ↦ absurd (stopped (rw o at ok))
    | applies db' e _ a o ↦ rw o (
        apply_step db'
          (up_loop-has old ms db' (count + 1) v (λ u h. still db' a u (w u h)) (rw o at ok))
          (apply_up-has m db db' v a))
  ]
    where
      stopped : {e : MigrateError} → some e ≡ none → ⊥
      stopped p = cc

      skip_step :
          {b : Bool}
          → b ≡ (has v db.applied || has v (versions ms))
          → has m.version db.applied ≡ true
          → b ≡ (has v db.applied || has v (m.version ∷ versions ms))
      skip_step ih h = ground (arith, has_cons v m.version (versions ms), eq_ℤ_iff m.version v)

      still :
          (db' : Db C)
          → apply_up run_script m db ≡ some db'
          → (u : ℤ) → has u db.applied ≡ true
          → has u db'.applied ≡ true
      still db' a u h = ground (arith, apply_up-has m db db' u a)

      apply_step :
          (db' : Db C) {b : Bool}
          → b ≡ (has v db'.applied || has v (versions ms))
          → has v db'.applied ≡ (eq_ℤ m.version v || has v db.applied)
          → b ≡ (has v db.applied || has v (m.version ∷ versions ms))
      apply_step db' ih h = ground (arith, has_cons v m.version (versions ms))

  -- After an Up without an error, exactly the versions that were applied before and those of the
  -- migrations are applied.
  pub up_unlocked-has :
      (migrations : List Migration) (db : Db C) (v : ℤ)
      → (up_unlocked run_script migrations db).2 ≡ none
      → has v (up_unlocked run_script migrations db).0.applied
        ≡ (has v db.applied || has v (versions migrations))
  unfolding up_unlocked
  up_unlocked-has migrations db v ok =
      up_loop-has db.applied migrations db 0 v (unfold Within in (λ u h. h)) ok

  All-skipped :
      (old : List ℤ) (ms : List Migration) (db : Db C) (count : ℕ)
      → All (λ m. has m.version old ≡ true) ms
      → up_loop run_script old ms db count ≡ (db, count, none)
  All-skipped old [] db count a = unfold up_loop in refl
  All-skipped old (m ∷ ms) db count (h, a) = elim (round old m ms db count) [
    | skips e o ↦ o ∙ All-skipped old ms db count a
    | stops x e o ↦ absurd (cc)
    | applies db' e _ s o ↦ absurd (cc)
  ]

  listed-All :
      (rows : List ℤ) (all : List Migration) (ms : List Migration)
      → ((v : ℤ) → has v (versions ms) ≡ true → has v rows ≡ true)
      → All (λ m. has m.version rows ≡ true) ms
  listed-All rows all [] f = tt
  listed-All rows all (m ∷ ms) f = (
    f m.version
        (ground (arith, has_cons m.version m.version (versions ms), eq_ℤ_iff m.version m.version)),
    listed-All rows all ms (λ v h. f v (ground (arith, has_cons v m.version (versions ms)))),
  )

  -- A second Up after one without an error does nothing: no migration runs twice.
  pub up_unlocked-again :
      (migrations : List Migration) (db : Db C)
      → (up_unlocked run_script migrations db).2 ≡ none
      → let db' = (up_unlocked run_script migrations db).0 in
        up_unlocked run_script migrations db' ≡ (db', 0, none)
  up_unlocked-again migrations db ok =
      let db' = (up_unlocked run_script migrations db).0 in
      unfold up_unlocked in
      (All-skipped db'.applied migrations db' 0 (
        listed-All db'.applied migrations migrations
          (λ v h. ground (arith, up_unlocked-has migrations db v ok))))

  -- Where Up fails, the migrations before the one that failed are applied and committed as in an Up
  -- of those alone, and nothing of that one or of a later one is.
  pub up_loop-failure :
      (old : List ℤ) (ms : List Migration) (db : Db C) (count : ℕ) (e : MigrateError)
      → (up_loop run_script old ms db count).2 ≡ some e
      → (pre : List Migration) × (m : Migration) × (post : List Migration) × (ms
          ≡ pre ++ (m ∷ post))
        × (has m.version old ≡ false)
        × (up_loop run_script old pre db count ≡ (
          (up_loop run_script old ms db count).0,
          (up_loop run_script old ms db count).1,
          none,
        ))
  up_loop-failure old [] db count e h = absurd (no_error (unfold up_loop in h))
    where
      no_error : none ≡ some e → ⊥
      no_error p = cc
  up_loop-failure old (m ∷ ms) db count e h = elim (round old m ms db count) [
    | skips s o ↦
        let (pre, n, post, eq, new, done) = up_loop-failure old ms db count e (rw o at h) in
        (m ∷ pre, n, post, ap (λ t. m ∷ t) eq, new, rw o (skip_eq old m pre db count s ∙ done))
    | stops x new o ↦ ([], m, ms, refl, new, rw o (unfold up_loop in refl))
    | applies db' new path s o ↦
        let (pre, n, post, eq, new', done) = up_loop-failure old ms db' (count + 1) e (rw o at h) in
        (
          m ∷ pre,
          n,
          post,
          ap (λ t. m ∷ t) eq,
          new',
          rw o (apply_eq old m pre db db' count new path s ∙ done),
        )
  ]
