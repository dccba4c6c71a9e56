-- ===== src/Db/Builder/Chains.antt =====
-- db/builder.go, UpdateBuilder: a query that is put together by calls of Set and Where.
use bebo.Prelude.{
  ◌+◌, ◌≡◌, ◌≢◌, refl, ◌∙◌, List, [], ◌∷◌, ◌++◌, All, is_empty, length, length-append, arith, ℕ,
  Bool-cases, inl, inr,
}
use bebo.Prelude.Text.{Bytes, bytes}
use bebo.Prelude.Result.{ok}
use bebo.Db.Builder.{question, UpdateBuilder, update, set_column, update_where, build_update}
use bebo.Db.Builder.Placeholders.{marks, total_marks, marks-append}
use bebo.Db.Builder.Counts.{build_update-marks}

-- A call of Set or of Where.
pub data UpdateCall (A : Type 0) : Type 0 where
  sets : Bytes → A → UpdateCall A
  wheres : Bytes → List A → UpdateCall A

total_marks-append :
    (ws : List Bytes) (w : Bytes) → total_marks (ws ++ (w ∷ [])) ≡ total_marks ws + marks w
unfolding total_marks
total_marks-append [] w = omega arith
total_marks-append (v ∷ ws) w = omega (arith, total_marks-append ws w)

module _ {A : Type 0} where
  unfoldable pub run_calls : UpdateBuilder A → List (UpdateCall A) → UpdateBuilder A
  unfolding set_column update_where
  run_calls b [] = b
  run_calls b (sets column value ∷ calls) = run_calls (set_column b column value) calls
  run_calls b (wheres condition args ∷ calls) = run_calls (update_where b condition args) calls

  -- A column without placeholders; a condition with as many as it has arguments.
  abbrev pub IsMatched : UpdateCall A → Type 0
  IsMatched (sets column value) = marks column ≡ 0
  IsMatched (wheres condition args) = marks condition ≡ length args

  abbrev pub IsBound : UpdateBuilder A → Type 0
  IsBound b =
      (b.dialect ≡ question)
      × (total_marks b.sets ≡ length b.set_args)
      × (total_marks b.conditions ≡ length b.where_args)

  set_column-IsBound :
      (b : UpdateBuilder A) (column : Bytes) (value : A)
      → marks column ≡ 0
      → IsBound b
      → IsBound (set_column b column value)
  unfolding set_column marks
  set_column-IsBound b column value h (d, s, w) = elim (Bool-cases (is_empty column)) [
    | inl e ↦ rw e (d, s, w)
    | inr e ↦ rw e (
      d,
      omega (
        arith,
        total_marks-append b.sets (column ++ bytes " = ?"),
        marks-append column (bytes " = ?"),
        length-append b.set_args (value ∷ []),
        h,
        s,
      ),
      w,
    )
  ]

  update_where-IsBound :
      (b : UpdateBuilder A) (condition : Bytes) (args : List A)
      → marks condition ≡ length args
      → IsBound b
      → IsBound (update_where b condition args)
  unfolding update_where
  update_where-IsBound b condition args h (d, s, w) = elim (Bool-cases (is_empty condition)) [
    | inl e ↦ rw e (d, s, w)
    | inr e ↦ rw e (
      d,
      s,
      omega
          (arith, total_marks-append b.conditions condition, length-append b.where_args args, h, w),
    )
  ]

  set_column-table :
      (b : UpdateBuilder A) (column : Bytes) (value : A)
      → (set_column b column value).table ≡ b.table
  unfolding set_column
  set_column-table b column value = ground arith

  update_where-table :
      (b : UpdateBuilder A) (condition : Bytes) (args : List A)
      → (update_where b condition args).table ≡ b.table
  unfolding update_where
  update_where-table b condition args = ground arith

  run_calls-IsBound :
      (b : UpdateBuilder A) (calls : List (UpdateCall A))
      → All IsMatched calls
      → IsBound b
      → (IsBound (run_calls b calls)) × ((run_calls b calls).table ≡ b.table)
  unfolding run_calls
  run_calls-IsBound b [] m i = (i, refl)
  run_calls-IsBound b (sets column value ∷ calls) (h, m) i =
      let (bound, table) =
        run_calls-IsBound (set_column b column value) calls m
          (set_column-IsBound b column value h i) in
      (bound, table ∙ set_column-table b column value)
  run_calls-IsBound b (wheres condition args ∷ calls) (h, m) i =
      let (bound, table) =
        run_calls-IsBound (update_where b condition args) calls m
          (update_where-IsBound b condition args h i) in
      (bound, table ∙ update_where-table b condition args)

  -- An UPDATE of a table, without placeholders in its name, that is put together by any calls of
  -- Set and Where, where columns hold no placeholder and each condition as many as it is given
  -- arguments, and that sets a column, is built with one placeholder for each argument, those of
  -- Set first.
  pub run_calls-marks :
      (itoa : ℕ → Bytes) (table : Bytes) (calls : List (UpdateCall A))
      → table ≢ []
      → marks table ≡ 0
      → All IsMatched calls
      → (run_calls (update table) calls).sets ≢ []
      → let b = run_calls (update table) calls in
        (query : Bytes) × (build_update itoa b ≡ ok (query, b.set_args ++ b.where_args))
        × (marks query ≡ length (b.set_args ++ b.where_args))
  unfolding update
  run_calls-marks itoa table calls n h m s =
      let ((d, sb, wb), t) =
        run_calls-IsBound (update table) calls m
          (refl, unfold total_marks in refl, unfold total_marks in refl) in
      build_update-marks itoa (run_calls (update table) calls) d (rw t h) sb wb (rw t n) s
