-- ===== src/Migrate/Order.antt =====
-- migrate/runner.go, loadMigrations: the order of the migrations.
use bebo.Prelude.{
  ◌≡◌, ◌≢◌, refl, sym, ◌∙◌, true, false, Option, none, some, List, [], ◌∷◌, arith, Bool-cases, inl,
  inr, All,
}
use bebo.Prelude.Int.{ℤ, ltb_ℤ, ltb_ℤ_total, ltb_ℤ_trans, eq_ℤ, eq_ℤ_iff}
use bebo.Prelude.Text.{Bytes, bytes, split, text_eq}
use bebo.Prelude.Dict.{Dict, lookup, insert, lookup-insert}
use bebo.Migrate.{
  version_eq, Migration, DirEntry, add_direction, add_version, add_parts, by_version, insert_sorted,
  sort_migrations, load_migrations,
}

-- The versions ascend strictly: none stands twice.
abbrev pub Ascends : List Migration → Type 0
Ascends [] = Unit
Ascends (m ∷ ms) = All (λ n. ltb_ℤ m.version n.version ≡ true) ms × Ascends ms

-- Each migration stands under its version, once.
Keyed : Dict ℤ Migration → Type 0
Keyed [] = Unit
Keyed ((v, m) ∷ found) = (m.version ≡ v) × (lookup v found ≡ none) × Keyed found

still_absent :
    (m : Migration) (v : ℤ) (found : Dict ℤ Migration)
    → eq_ℤ v m.version ≡ false
    → lookup v found ≡ none
    → lookup v (insert m.version m found) ≡ none
still_absent m v found other absent =
    ground (arith, lookup-insert m.version v m found, eq_ℤ_iff m.version v, eq_ℤ_iff v m.version)

insert-Keyed :
    (m : Migration) (found : Dict ℤ Migration) → Keyed found → Keyed (insert m.version m found)
unfolding Keyed insert
insert-Keyed m [] k = (refl, unfold lookup in refl, tt)
insert-Keyed m ((v, n) ∷ found) (e, absent, k) = elim (Bool-cases (eq_ℤ v m.version)) [
  | inl same ↦ rw same (refl, rw ((eq_ℤ_iff v m.version).0 same) at absent, k)
  | inr other ↦ rw other (e, still_absent m v found other absent, insert-Keyed m found k)
]

insert_sorted-All :
    (t : ℤ) (m : Migration) (ms : List Migration)
    → ltb_ℤ t m.version ≡ true
    → All (λ n. ltb_ℤ t n.version ≡ true) ms
    → All (λ n. ltb_ℤ t n.version ≡ true) (insert_sorted m ms)
unfolding insert_sorted
insert_sorted-All t m [] h a = (h, tt)
insert_sorted-All t m (n ∷ ms) h (k, a) = ground (arith, insert_sorted-All t m ms h a)

weaken :
    (a b : ℤ) (ms : List Migration)
    → ltb_ℤ a b ≡ true
    → All (λ n. ltb_ℤ b n.version ≡ true) ms
    → All (λ n. ltb_ℤ a n.version ≡ true) ms
weaken a b [] h k = tt
weaken a b (n ∷ ms) h (l, k) = (ltb_ℤ_trans a b n.version h l, weaken a b ms h k)

insert_sorted-Ascends :
    (m : Migration) (ms : List Migration)
    → All (λ n. n.version ≢ m.version) ms
    → Ascends ms
    → Ascends (insert_sorted m ms)
unfolding insert_sorted
insert_sorted-Ascends m [] d s = (tt, tt)
insert_sorted-Ascends m (n ∷ ms) (ne, d) (a, s) = elim (Bool-cases (ltb_ℤ m.version n.version)) [
  | inl h ↦ rw h ((h, weaken m.version n.version ms h a), (a, s))
  | inr h ↦ rw h (
    insert_sorted-All n.version m ms (ltb_ℤ_total m.version n.version h (λ e. ne (sym e))) a,
    insert_sorted-Ascends m ms d s,
  )
]

insert_sorted-differs :
    (v : ℤ) (m : Migration) (ms : List Migration)
    → m.version ≢ v
    → All (λ n. n.version ≢ v) ms
    → All (λ n. n.version ≢ v) (insert_sorted m ms)
unfolding insert_sorted
insert_sorted-differs v m [] h a = (h, tt)
insert_sorted-differs v m (n ∷ ms) h (k, a) = elim (Bool-cases (ltb_ℤ m.version n.version)) [
  | inl e ↦ rw e (h, (k, a))
  | inr e ↦ rw e (k, insert_sorted-differs v m ms h a)
]

sort-differs :
    (v : ℤ) (found : Dict ℤ Migration)
    → Keyed found
    → lookup v found ≡ none
    → All (λ n. n.version ≢ v) (sort_migrations found)
unfolding Keyed sort_migrations lookup
sort-differs v [] k absent = tt
sort-differs v ((w, m) ∷ found) (e, _, k) absent = elim (Bool-cases (eq_ℤ w v)) [
  | inl same ↦ absurd (some_not_none (rw same at absent))
  | inr other ↦
      insert_sorted-differs v m (sort_migrations found)
        (λ p. cc (other, (eq_ℤ_iff w v).1 (sym e ∙ p)))
        (sort-differs v found k (rw other at absent))
]
  where
    some_not_none : some m ≡ none → ⊥
    some_not_none p = cc

sort-Ascends : (found : Dict ℤ Migration) → Keyed found → Ascends (sort_migrations found)
unfolding Keyed sort_migrations
sort-Ascends [] k = tt
sort-Ascends ((v, m) ∷ found) (e, absent, k) =
    insert_sorted-Ascends m (sort_migrations found) (rw e (sort-differs v found k absent))
      (sort-Ascends found k)

add_direction-Keyed :
    (direction path : Bytes) (m : Migration) (found : Dict ℤ Migration)
    → Keyed found
    → Keyed (add_direction direction path m found)
add_direction-Keyed direction path m found k = elim (Bool-cases (text_eq direction (bytes "up"))) [
  | inl e ↦ rw e (insert-Keyed (record m { up_path = path }) found k)
  | inr up ↦ elim (Bool-cases (text_eq direction (bytes "down"))) [
    | inl e ↦ rw (up, e) (insert-Keyed (record m { down_path = path }) found k)
    | inr down ↦ rw (up, down) k
  ]
]

add_version-Keyed :
    (version : Option ℤ) (name : Option Bytes) (direction path : Bytes) (found : Dict ℤ Migration)
    → Keyed found
    → Keyed (add_version version name direction path found)
add_version-Keyed none name direction path found k = k
add_version-Keyed (some version) name direction path found k =
    add_direction-Keyed direction path _ found k

add_parts-Keyed :
    (parts : List Bytes) (path : Bytes) (found : Dict ℤ Migration)
    → Keyed found
    → Keyed (add_parts parts path found)
add_parts-Keyed [] path found k = k
add_parts-Keyed (a ∷ []) path found k = k
add_parts-Keyed (a ∷ b ∷ []) path found k = k
add_parts-Keyed (a ∷ b ∷ c ∷ []) path found k = elim (Bool-cases (text_eq c (bytes "sql"))) [
  | inl e ↦ rw e (add_version-Keyed _ _ b path found k)
  | inr e ↦ rw e k
]
add_parts-Keyed (a ∷ b ∷ c ∷ d ∷ rest) path found k = k

by_version-Keyed :
    (in_dir : Bytes → Bytes) (entries : List DirEntry) (found : Dict ℤ Migration)
    → Keyed found
    → Keyed (by_version in_dir entries found)
unfolding by_version
by_version-Keyed in_dir [] found k = k
by_version-Keyed in_dir (entry ∷ entries) found k = elim (Bool-cases entry.is_dir) [
  | inl e ↦ rw e (by_version-Keyed in_dir entries found k)
  | inr e ↦ rw e (
      by_version-Keyed in_dir entries (add_parts (split b'.' entry.name) (in_dir entry.name) found)
        (add_parts-Keyed (split b'.' entry.name) (in_dir entry.name) found k))
]

-- Whatever the directory holds, in whatever order, the migrations come in strictly ascending order
-- of their versions: one for each version.
pub load_migrations-Ascends :
    (in_dir : Bytes → Bytes) (entries : List DirEntry) → Ascends (load_migrations in_dir entries)
unfolding load_migrations
load_migrations-Ascends in_dir entries =
    sort-Ascends (by_version in_dir entries [])
      (by_version-Keyed in_dir entries [] (unfold Keyed in tt))
