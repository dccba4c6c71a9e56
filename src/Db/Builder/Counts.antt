-- ===== src/Db/Builder/Counts.antt =====
-- db/builder.go, Build: a query has as many placeholders as arguments.
use bebo.Prelude.{
  ℕ, zero, suc, ◌+◌, ◌≡◌, ◌≢◌, refl, sym, ◌∙◌, false, Option, none, some, List, [], ◌∷◌, ◌++◌,
  ==_iff, is_empty, length, length-append, replicate, arith,
}
use bebo.Prelude.Text.{Bytes, bytes}
use bebo.Prelude.Result.{ok}
use bebo.Db.Builder.Placeholders.{
  marks, total_marks, marks-append, marks-join_with, marks-where_text,
}
use bebo.Db.Builder.{
  question, SelectBuilder, InsertBuilder, UpdateBuilder, join_with, where_text, text_after,
  non_empty, number, columns_or_all, select_text, build_select, insert_text, build_insert,
  update_text, build_update,
}

skip : (s t : Bytes) → marks s ≡ 0 → marks (s ++ t) ≡ marks t
skip s t h = omega (arith, marks-append s t)

marks-order :
    (order : Bytes)
    → marks order ≡ 0
    → marks (text_after (bytes " ORDER BY ") (non_empty order)) ≡ 0
marks-order [] h = unfold marks in refl
marks-order (a ∷ s) h = skip (bytes " ORDER BY ") (a ∷ s) (unfold marks in refl) ∙ h

marks-columns :
    (columns : List Bytes)
    → total_marks columns ≡ 0
    → marks (join_with (bytes ", ") (columns_or_all columns)) ≡ 0
unfolding marks total_marks join_with
marks-columns [] h = refl
marks-columns (w ∷ ws) h = marks-join_with (bytes ", ") (w ∷ ws) refl ∙ h

given {ℓ} : {A : Type ℓ} (xs : List A) → xs ≢ [] → is_empty xs ≡ false
given [] n = absurd (n refl)
given (x ∷ xs) n = refl

values_given :
    {A : Type 0} (values : List A) (columns : List Bytes)
    → columns ≢ []
    → length values ≡ length columns
    → is_empty values ≡ false
values_given values [] n l = absurd (n refl)
values_given [] (w ∷ ws) n l = absurd (omega (arith, l))
values_given (v ∷ values) (w ∷ ws) n l = refl

total_marks-replicate : (n : ℕ) → total_marks (replicate n (bytes "?")) ≡ n
unfolding total_marks marks
total_marks-replicate zero = refl
total_marks-replicate (suc n) = omega (arith, total_marks-replicate n)

module _ (itoa : ℕ → Bytes) (digits : (n : ℕ) → marks (itoa n) ≡ 0) where
  marks-number :
      (keyword : Bytes) (n : Option ℕ)
      → marks keyword ≡ 0
      → marks (text_after keyword (number itoa n)) ≡ 0
  marks-number keyword none h = unfold marks in refl
  marks-number keyword (some n) h = skip keyword (itoa n) h ∙ digits n

  module _ {A : Type 0} where
    marks-select_text :
        (b : SelectBuilder A)
        → total_marks b.columns ≡ 0
        → marks b.table ≡ 0
        → marks b.order ≡ 0
        → marks (select_text itoa b) ≡ total_marks b.conditions
    unfolding select_text marks
    marks-select_text b hc ht ho =
        let offset = text_after (bytes " OFFSET ") (number itoa b.offset) in
        let limit = text_after (bytes " LIMIT ") (number itoa b.limit) ++ offset in
        let order = text_after (bytes " ORDER BY ") (non_empty b.order) ++ limit in
        let conditions = where_text b.conditions ++ order in
        skip (join_with (bytes ", ") (columns_or_all b.columns))
          (bytes " FROM " ++ (b.table ++ conditions)) (marks-columns b.columns hc)
        ∙ skip b.table conditions ht
        ∙ omega (
          arith,
          marks-append (where_text b.conditions) order,
          marks-where_text b.conditions,
          skip (text_after (bytes " ORDER BY ") (non_empty b.order)) limit (marks-order b.order ho),
          skip (text_after (bytes " LIMIT ") (number itoa b.limit)) offset
              (marks-number (bytes " LIMIT ") b.limit refl),
          marks-number (bytes " OFFSET ") b.offset refl,
        )

    -- A SELECT with a table is built, with its arguments, where the texts of numbers hold no
    -- placeholder. Where the columns, the table and the order hold none either, and the
    -- conditions as many as there are arguments, the query that is built for the question dialect
    -- has one placeholder for each argument.
    pub build_select-marks :
        (b : SelectBuilder A)
        → b.dialect ≡ question
        → total_marks b.columns ≡ 0
        → marks b.table ≡ 0
        → marks b.order ≡ 0
        → total_marks b.conditions ≡ length b.args
        → b.table ≢ []
        → (query : Bytes) × (build_select itoa b ≡ ok (query, b.args))
          × (marks query ≡ length b.args)
    unfolding build_select
    build_select-marks b d hc ht ho ha n =
        (select_text itoa b, rw (given b.table n, d) refl, marks-select_text b hc ht ho ∙ ha)

module _ {A : Type 0} where
  marks-insert_text :
      (b : InsertBuilder A)
      → total_marks b.columns ≡ 0
      → marks b.table ≡ 0
      → marks (insert_text b) ≡ length b.columns
  unfolding insert_text marks
  marks-insert_text b hc ht =
      let places = replicate (length b.columns) (bytes "?") in
      let values = join_with (bytes ", ") places ++ bytes ")" in
      let columns = join_with (bytes ", ") b.columns ++ (bytes ") VALUES (" ++ values) in
      skip b.table (bytes " (" ++ columns) ht
      ∙ skip (join_with (bytes ", ") b.columns) (bytes ") VALUES (" ++ values)
          (marks-join_with (bytes ", ") b.columns refl ∙ hc)
      ∙ marks-append (join_with (bytes ", ") places) (bytes ")")
      ∙ omega (
        arith,
        marks-join_with (bytes ", ") places refl,
        total_marks-replicate (length b.columns),
      )

  -- An INSERT with a table, columns, and as many values as columns is built, with its values.
  -- Where its table and columns hold no placeholder, the query that is built for the question
  -- dialect has one placeholder for each value.
  pub build_insert-marks :
      (itoa : ℕ → Bytes) (b : InsertBuilder A)
      → b.dialect ≡ question
      → total_marks b.columns ≡ 0
      → marks b.table ≡ 0
      → b.table ≢ []
      → b.columns ≢ []
      → length b.values ≡ length b.columns
      → (query : Bytes) × (build_insert itoa b ≡ ok (query, b.values))
        × (marks query ≡ length b.values)
  unfolding build_insert
  build_insert-marks itoa b d hc ht n nc l = (
    insert_text b,
    rw
        (
          given b.table n,
          given b.columns nc,
          values_given b.values b.columns nc l,
          (==_iff (length b.values) (length b.columns)).1 l,
          d,
        )
        refl,
    marks-insert_text b hc ht ∙ sym l,
  )

  marks-update_text :
      (b : UpdateBuilder A)
      → marks b.table ≡ 0
      → marks (update_text b) ≡ total_marks b.sets + total_marks b.conditions
  unfolding update_text marks
  marks-update_text b ht =
      let rest = join_with (bytes ", ") b.sets ++ where_text b.conditions in
      skip b.table (bytes " SET " ++ rest) ht
      ∙ omega (
        arith,
        marks-append (join_with (bytes ", ") b.sets) (where_text b.conditions),
        marks-join_with (bytes ", ") b.sets refl,
        marks-where_text b.conditions,
      )

  -- An UPDATE with a table and assignments is built, with the arguments of the assignments before
  -- those of the conditions. Where the table holds no placeholder, and the assignments and the
  -- conditions each as many as they have arguments, the query that is built for the question
  -- dialect has one placeholder for each argument.
  pub build_update-marks :
      (itoa : ℕ → Bytes) (b : UpdateBuilder A)
      → b.dialect ≡ question
      → marks b.table ≡ 0
      → total_marks b.sets ≡ length b.set_args
      → total_marks b.conditions ≡ length b.where_args
      → b.table ≢ []
      → b.sets ≢ []
      → (query : Bytes) × (build_update itoa b ≡ ok (query, b.set_args ++ b.where_args))
        × (marks query ≡ length (b.set_args ++ b.where_args))
  unfolding build_update
  build_update-marks itoa b d ht hs hw n ns = (
    update_text b,
    rw (given b.table n, given b.sets ns, d) refl,
    omega (arith, marks-update_text b ht, length-append b.set_args b.where_args, hs, hw),
  )
