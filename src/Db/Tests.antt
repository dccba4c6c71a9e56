-- ===== src/Db/Tests.antt =====
-- db/builder.go: the theorems at small queries.
use bebo.Prelude.{ℕ, zero, suc, ◌≡◌, refl, none, some, List, [], ◌∷◌, ◌++◌, length}
use bebo.Prelude.Text.{Bytes, bytes}
use bebo.Prelude.Result.{ok}
use bebo.Db.Builder.{question, SelectBuilder, InsertBuilder, update, build_update}
use bebo.Db.Builder.Placeholders.{marks, total_marks}
use bebo.Db.Builder.Chains.{UpdateCall, sets, wheres, run_calls, run_calls-marks}

-- A number as that many strokes.
abbrev strokes : ℕ → Bytes
strokes zero = []
strokes (suc n) = b'1' ∷ strokes n

strokes_unmarked : (n : ℕ) → marks (strokes n) ≡ 0
unfolding marks
strokes_unmarked zero = refl
strokes_unmarked (suc n) = strokes_unmarked n

abbrev selected : SelectBuilder ℕ
selected = record {
  dialect = question;
  columns = bytes "id" ∷ [];
  table = bytes "users";
  conditions = bytes "age > ?" ∷ [];
  args = 18 ∷ [];
  order = bytes "id";
  limit = some 10;
  offset = none;
}

unmarked :
    (total_marks selected.columns ≡ 0) × (marks selected.table ≡ 0) × (marks selected.order ≡ 0)
unfolding marks total_marks
unmarked = (refl, refl, refl)

one_condition : total_marks selected.conditions ≡ 1
unfolding marks total_marks
one_condition = refl

abbrev inserted : InsertBuilder ℕ
inserted = record {
  dialect = question;
  table = bytes "t";
  columns = bytes "a" ∷ bytes "b" ∷ [];
  values = 1 ∷ 2 ∷ [];
}

insert_unmarked : (total_marks inserted.columns ≡ 0) × (marks inserted.table ≡ 0)
unfolding marks total_marks
insert_unmarked = (refl, refl)

abbrev calls : List (UpdateCall ℕ)
calls = sets (bytes "name") 5 ∷ wheres (bytes "id = ?") (7 ∷ []) ∷ []

calls_matched :
    (marks (bytes "users") ≡ 0) × (marks (bytes "name") ≡ 0) × (marks (bytes "id = ?") ≡ 1)
unfolding marks
calls_matched = (refl, refl, refl)

sets_something : (run_calls (update (bytes "users")) calls).sets ≡ (bytes "name = ?") ∷ []
unfolding run_calls update
sets_something = refl

run_calls-marks_example :
    let b = run_calls (update (bytes "users")) calls in
    (query : Bytes) × (build_update strokes b ≡ ok (query, b.set_args ++ b.where_args))
    × (marks query ≡ length (b.set_args ++ b.where_args))
run_calls-marks_example =
    run_calls-marks strokes (bytes "users") calls (λ e. cc) calls_matched.0
      (calls_matched.1, (calls_matched.2, tt)) (λ e. cc (sets_something))
