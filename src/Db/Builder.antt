-- ===== src/Db/Builder.antt =====
-- db/builder.go: the builders of SELECT, INSERT and UPDATE queries. A query is a byte list, and an
-- argument is of any type A. Limits and offsets are kept only where they are not negative.
pub mod Placeholders
pub mod Counts
pub mod Chains
use bebo.Prelude.{
  ℕ, suc, ◌+◌, Bool, true, false, not, Option, none, some, List, [], ◌∷◌, ◌++◌, ◌==◌, if◌then◌else◌,
  is_empty, length, replicate,
}
use bebo.Prelude.Int.{ℤ, pos, negsuc}
use bebo.Prelude.Text.{Bytes, bytes}
use bebo.Prelude.Result.{Result, ok, err}

pub data Dialect : Type 0 where
  question dollar : Dialect

pub data BuildError : Type 0 where
  missing_table missing_columns missing_values mismatched_values : BuildError

pub record SelectBuilder (A : Type 0) : Type 0 where
  pub dialect : Dialect
  pub columns : List Bytes
  pub table : Bytes
  pub conditions : List Bytes
  pub args : List A
  pub order : Bytes
  pub limit : Option ℕ
  pub offset : Option ℕ

pub record InsertBuilder (A : Type 0) : Type 0 where
  pub dialect : Dialect
  pub table : Bytes
  pub columns : List Bytes
  pub values : List A

pub record UpdateBuilder (A : Type 0) : Type 0 where
  pub dialect : Dialect
  pub table : Bytes
  pub sets : List Bytes
  pub set_args : List A
  pub conditions : List Bytes
  pub where_args : List A

-- strings.Join
unfoldable pub join_with : Bytes → List Bytes → Bytes
join_with sep [] = []
join_with sep (w ∷ ws) = elim ws [ [] ↦ w | _ ∷ _ ↦ w ++ (sep ++ join_with sep ws) ]

-- strconv.Itoa of a number that is not negative is a parameter: its decimal digits.
module _ (itoa : ℕ → Bytes) where
  -- The loop of normalizePlaceholders, idx being the next number.
  unfoldable pub numbered : ℕ → Bytes → Bytes
  numbered idx [] = []
  numbered idx (a ∷ query) =
      let kept = a ∷ numbered idx query in
      if a == b'?' then bytes "$" ++ (itoa idx ++ numbered (suc idx) query) else kept

  unfoldable pub normalize_placeholders : Bytes → Dialect → Bytes
  unfolding numbered
  normalize_placeholders query question = query
  normalize_placeholders query dollar = numbered 1 query

unfoldable pub select : {A : Type 0} → List Bytes → SelectBuilder A
select columns = record {
  dialect = question;
  columns = columns;
  table = [];
  conditions = [];
  args = [];
  order = [];
  limit = none;
  offset = none;
}

-- A number that is not negative replaces what was set.
abbrev set_if_not_negative : ℤ → Option ℕ → Option ℕ
set_if_not_negative (pos n) old = some n
set_if_not_negative (negsuc n) old = old

-- WHERE with its conditions, if there are any.
unfoldable pub where_text : List Bytes → Bytes
unfolding join_with
where_text conditions =
    if is_empty conditions then [] else bytes " WHERE " ++ join_with (bytes " AND ") conditions

abbrev pub text_after : Bytes → Option Bytes → Bytes
text_after keyword none = []
text_after keyword (some t) = keyword ++ t

abbrev pub non_empty : Bytes → Option Bytes
non_empty t = if is_empty t then none else some t

abbrev pub number : (ℕ → Bytes) → Option ℕ → Option Bytes
number itoa none = none
number itoa (some n) = some (itoa n)

abbrev pub columns_or_all : List Bytes → List Bytes
columns_or_all columns = if is_empty columns then bytes "*" ∷ [] else columns

module _ {A : Type 0} where
  unfoldable pub from : SelectBuilder A → Bytes → SelectBuilder A
  from b table = record b { table = table }

  unfoldable pub with_dialect : SelectBuilder A → Dialect → SelectBuilder A
  with_dialect b dialect = record b { dialect = dialect }

  unfoldable pub add_where : SelectBuilder A → Bytes → List A → SelectBuilder A
  add_where b condition args =
      if is_empty condition
      then b
      else record b { conditions = b.conditions ++ (condition ∷ []); args = b.args ++ args }

  unfoldable pub order_by : SelectBuilder A → Bytes → SelectBuilder A
  order_by b order = record b { order = order }

  unfoldable pub limit_to : SelectBuilder A → ℤ → SelectBuilder A
  limit_to b limit = record b { limit = set_if_not_negative limit b.limit }

  unfoldable pub offset_by : SelectBuilder A → ℤ → SelectBuilder A
  offset_by b offset = record b { offset = set_if_not_negative offset b.offset }

  -- The text that Build writes, before the placeholders are numbered.
  unfoldable pub select_text : (ℕ → Bytes) → SelectBuilder A → Bytes
  unfolding join_with where_text
  select_text itoa b =
      bytes "SELECT "
      ++ (join_with (bytes ", ") (columns_or_all b.columns)
          ++ (bytes " FROM "
              ++ (b.table
                  ++ (where_text b.conditions
                      ++ (text_after (bytes " ORDER BY ") (non_empty b.order)
                          ++ (text_after (bytes " LIMIT ") (number itoa b.limit)
                              ++ text_after (bytes " OFFSET ") (number itoa b.offset)))))))

  unfoldable pub build_select : (ℕ → Bytes) → SelectBuilder A → Result BuildError (Bytes × List A)
  unfolding select_text normalize_placeholders
  build_select itoa b =
      if is_empty b.table
      then err missing_table
      else ok (normalize_placeholders itoa (select_text itoa b) b.dialect, b.args)

  unfoldable pub insert_into : Bytes → InsertBuilder A
  insert_into table = record { dialect = question; table = table; columns = []; values = [] }

  unfoldable pub insert_dialect : InsertBuilder A → Dialect → InsertBuilder A
  insert_dialect b dialect = record b { dialect = dialect }

  unfoldable pub set_columns : InsertBuilder A → List Bytes → InsertBuilder A
  set_columns b columns = record b { columns = columns }

  unfoldable pub set_values : InsertBuilder A → List A → InsertBuilder A
  set_values b values = record b { values = values }

  unfoldable pub insert_text : InsertBuilder A → Bytes
  unfolding join_with
  insert_text b =
      bytes "INSERT INTO "
      ++ (b.table
          ++ (bytes " ("
              ++ (join_with (bytes ", ") b.columns
                  ++ (bytes ") VALUES ("
                      ++ (join_with (bytes ", ") (replicate (length b.columns) (bytes "?"))
                          ++ bytes ")")))))

  unfoldable pub build_insert : (ℕ → Bytes) → InsertBuilder A → Result BuildError (Bytes × List A)
  unfolding insert_text normalize_placeholders
  build_insert itoa b =
      if is_empty b.table
      then err missing_table
      else if is_empty b.columns
      then err missing_columns
      else if is_empty b.values
      then err missing_values
      else if not (length b.values == length b.columns)
      then err mismatched_values
      else ok (normalize_placeholders itoa (insert_text b) b.dialect, b.values)

  unfoldable pub update : Bytes → UpdateBuilder A
  update table = record {
    dialect = question;
    table = table;
    sets = [];
    set_args = [];
    conditions = [];
    where_args = [];
  }

  unfoldable pub update_dialect : UpdateBuilder A → Dialect → UpdateBuilder A
  update_dialect b dialect = record b { dialect = dialect }

  unfoldable pub set_column : UpdateBuilder A → Bytes → A → UpdateBuilder A
  set_column b column value = if is_empty column then b else record b {
    sets = b.sets ++ ((column ++ bytes " = ?") ∷ []);
    set_args = b.set_args ++ (value ∷ []);
  }

  unfoldable pub update_where : UpdateBuilder A → Bytes → List A → UpdateBuilder A
  update_where b condition args = if is_empty condition then b else record b {
    conditions = b.conditions ++ (condition ∷ []);
    where_args = b.where_args ++ args;
  }

  unfoldable pub update_text : UpdateBuilder A → Bytes
  unfolding join_with where_text
  update_text b =
      bytes "UPDATE "
      ++ (b.table ++ (bytes " SET " ++ (join_with (bytes ", ") b.sets ++ where_text b.conditions)))

  unfoldable pub build_update : (ℕ → Bytes) → UpdateBuilder A → Result BuildError (Bytes × List A)
  unfolding update_text normalize_placeholders
  build_update itoa b =
      if is_empty b.table
      then err missing_table
      else if is_empty b.sets
      then err missing_values
      else ok (normalize_placeholders itoa (update_text b) b.dialect, b.set_args ++ b.where_args)
