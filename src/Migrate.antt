-- ===== src/Migrate.antt =====
-- migrate/runner.go, loadMigrations: the migrations that a directory's file names describe.
-- os.ReadDir gives the names with a mark for directories; in_dir stands for filepath.Join with the
-- directory. File names are byte lists.
pub mod Order
pub mod Database
mod Tests
use bebo.Prelude.{
  ℕ, ◌+◌, ◌-◌, ◌*◌, Bool, true, false, not, ◌&&◌, ◌||◌, Option, none, some, List, [], ◌∷◌, ltb, leb,
  ◌==◌, if◌then◌else◌, is_empty, map,
}
use bebo.Prelude.Int.{ℤ, pos, negsuc, ltb_ℤ, eq_ℤ, eq_ℤ_iff, two_63}
use bebo.Prelude.Text.{Bytes, bytes, split, text_eq}
use bebo.Prelude.Ascii.{cut}
use bebo.Prelude.Dict.{Eq, Dict, lookup, insert}

instance abbrev pub version_eq : Eq ℤ
version_eq = record { beq = eq_ℤ; beq_iff = eq_ℤ_iff }

-- A path of "" is none.
pub record Migration : Type 0 where
  pub version : ℤ
  pub name : Bytes
  pub up_path : Bytes
  pub down_path : Bytes

pub record DirEntry : Type 0 where
  pub name : Bytes
  pub is_dir : Bool

-- The number of a text of digits, read on from n.
digits_from : ℕ → Bytes → Option ℕ
digits_from n [] = some n
digits_from n (c ∷ s) =
    let rest = digits_from (n * 10 + (c - b'0')) s in
    if leb b'0' c && leb c b'9' then rest else none

abbrev natural : Bytes → Option ℕ
natural [] = none
natural (c ∷ s) = digits_from 0 (c ∷ s)

abbrev in_int64 : Option ℕ → Option ℤ
in_int64 none = none
in_int64 (some n) = if ltb n two_63 then some (pos n) else none

abbrev negated : Option ℕ → Option ℤ
negated none = none
negated (some n) =
    if n == 0 then some (pos 0) else if leb n two_63 then some (negsuc (n - 1)) else none

-- strconv.Atoi: decimal digits behind an optional sign, within int64; none is an error.
unfoldable pub atoi : Bytes → Option ℤ
unfolding digits_from
atoi [] = none
atoi (c ∷ s) =
    if c == b'-'
    then negated (natural s)
    else if c == b'+'
    then in_int64 (natural s)
    else in_int64 (natural (c ∷ s))

-- strings.SplitN(s, "_", 2): the text up to the first underscore, and the rest if there is one.
abbrev version_parts : Bytes → Option (Bytes × Bytes) → Bytes × Option Bytes
version_parts s none = (s, none)
version_parts s (some (before, after)) = (before, some after)

-- byVersion[version], whose zero value has an empty name and no paths
abbrev pub found_or_new : ℤ → Option Migration → Migration
found_or_new version none = record { version = version; name = []; up_path = []; down_path = [] }
found_or_new version (some m) = record m { version = version }

abbrev named : Option Bytes → Migration → Migration
named none m = m
named (some name) m = record m { name = name }

-- What a file name with a version does to the map.
abbrev pub add_direction : Bytes → Bytes → Migration → Dict ℤ Migration → Dict ℤ Migration
add_direction direction path m found =
    if text_eq direction (bytes "up")
    then insert m.version (record m { up_path = path }) found
    else if text_eq direction (bytes "down")
    then insert m.version (record m { down_path = path }) found
    else found

abbrev pub add_version :
    Option ℤ → Option Bytes → Bytes → Bytes → Dict ℤ Migration → Dict ℤ Migration
add_version none name direction path found = found
add_version (some version) name direction path found =
    add_direction direction path (named name (found_or_new version (lookup version found))) found

abbrev pub add_parts : List Bytes → Bytes → Dict ℤ Migration → Dict ℤ Migration
add_parts (version_name ∷ direction ∷ extension ∷ []) path found =
    (let (version, name) = version_parts version_name (cut b'_' version_name) in
      if text_eq extension (bytes "sql")
      then add_version (atoi version) name direction path found
      else found)
add_parts _ path found = found

-- One round of the loop over the directory's entries.
unfoldable pub add_entry : (Bytes → Bytes) → DirEntry → Dict ℤ Migration → Dict ℤ Migration
unfolding split text_eq atoi cut lookup insert
add_entry in_dir entry found =
    if entry.is_dir then found else add_parts (split b'.' entry.name) (in_dir entry.name) found

unfoldable pub by_version : (Bytes → Bytes) → List DirEntry → Dict ℤ Migration → Dict ℤ Migration
unfolding add_entry
by_version in_dir [] found = found
by_version in_dir (entry ∷ entries) found = by_version in_dir entries (add_entry in_dir entry found)

-- sort.Slice by version: the versions differ, so the order is the only one.
unfoldable pub insert_sorted : Migration → List Migration → List Migration
insert_sorted m [] = m ∷ []
insert_sorted m (n ∷ ns) =
    let rest = insert_sorted m ns in if ltb_ℤ m.version n.version then m ∷ n ∷ ns else n ∷ rest

unfoldable pub sort_migrations : Dict ℤ Migration → List Migration
unfolding insert_sorted
sort_migrations [] = []
sort_migrations ((version, m) ∷ found) = insert_sorted m (sort_migrations found)

unfoldable pub load_migrations : (Bytes → Bytes) → List DirEntry → List Migration
unfolding by_version sort_migrations
load_migrations in_dir entries = sort_migrations (by_version in_dir entries [])
