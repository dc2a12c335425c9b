-- ===== src/Migrations/Folder.antt =====
-- The folder of a migrations source: _reject_version_conflicts and load_migration_set of
-- sandbox/migrations/goose.py, check_local_migrations and _check_names of
-- sandbox/migrations/source.py
pub mod Load
pub mod Check
use goga_tool_pybuggy.Prelude.{
  ℕ, ◌≡◌, refl, Bool, true, false, ◌&&◌, Option, none, some, List, [], ◌∷◌, ◌++◌, if◌then◌else◌,
  Result, ok, err, ◌>>=◌, ◌>>◌, raise_if, Done, keep, is_empty, length, leb, ◌==◌, traverse, map,
  String,
}
use goga_tool_pybuggy.Prelude.Sort.{le_text, sort_by, le_key}
use goga_tool_pybuggy.Prelude.Text.{Text, codes, ends_with}
use goga_tool_pybuggy.Migrations.Filename.{version_prefix}
use goga_tool_pybuggy.Migrations.Sections
use goga_tool_pybuggy.Migrations.Sections.{MigrationError}
use goga_tool_pybuggy.Migrations.Parse.{MigrationFile, parse_migration_file}

-- One entry of the folder: its name, whether it is a file, and what reading its text gives: the text, or
-- the exception of a file that cannot be read or is not in UTF-8.
pub record Entry : Type 0 where
  pub name : Text
  pub is_file : Bool
  pub read_text : Result String Text

-- A path; `none` is no folder.
abbrev pub Folder : Type 0
Folder = Option (List Entry)

-- `path.is_file() and path.suffix == ".sql"`: a name that is only a suffix has none.
abbrev pub is_sql_file : Entry → Bool
is_sql_file e = e.is_file && (ends_with e.name (codes ".sql") && leb 5 (length e.name))

abbrev le_name : Entry → Entry → Bool
le_name a b = le_text a.name b.name

-- `sorted(path for path in folder.iterdir() if ...)`
unfoldable pub sql_files : List Entry → List Entry
unfolding sort_by le_text ends_with
sql_files entries = sort_by le_name (keep is_sql_file entries)

-- The dict `seen`, keyed by the version.
unfoldable pub seen_name : ℕ → List (ℕ × Text) → Option Text
seen_name version [] = none
seen_name version ((v, name) ∷ seen) = if v == version then some name else seen_name version seen

claim_version : List (ℕ × Text) → Text → Option ℕ → Result MigrationError ℕ
unfolding seen_name
claim_version seen name none = err (MigrationError.invalid_filename name)
claim_version seen name (some version) = elim (seen_name version seen) [
  | none ↦ ok version
  | some other ↦ err (MigrationError.duplicate_version version other name)
]

-- The loop of `_reject_version_conflicts`, and that of `_check_names`.
pub conflict_loop : List (ℕ × Text) → List Entry → Result MigrationError Done
unfolding claim_version
conflict_loop seen [] = ok tt
conflict_loop seen (e ∷ es) = do
  version ← claim_version seen e.name (version_prefix e.name)
  conflict_loop ((version, e.name) ∷ seen) es

unfoldable pub reject_version_conflicts : List Entry → Result MigrationError Done
unfolding conflict_loop
reject_version_conflicts files = conflict_loop [] files

-- What a load raises: a `MigrationError`, or the exception of the reading of a file.
pub data LoadError : Type 0 where
  migration_error : MigrationError → LoadError
  unread : Text → String → LoadError

abbrev pub in_load {ℓ} : {A : Type ℓ} → Result MigrationError A → Result LoadError A
in_load (ok a) = ok a
in_load (err e) = err (migration_error e)

abbrev pub parse_text : Text → Result String Text → Result LoadError MigrationFile
parse_text name (ok text) = in_load (parse_migration_file name text)
parse_text name (err message) = err (unread name message)

-- The entry's file read and parsed: the name is the path's, the text its content.
abbrev pub parse_entry : Entry → Result LoadError MigrationFile
parse_entry e = parse_text e.name e.read_text

unfoldable pub load_migration_set : Folder → Result LoadError (List MigrationFile)
unfolding sql_files reject_version_conflicts sort_by traverse
load_migration_set none = err (migration_error MigrationError.not_a_folder)
load_migration_set (some entries) = do
  let files = sql_files entries
  raise_if (is_empty files) (migration_error MigrationError.no_sql_files)
  in_load (reject_version_conflicts files)
  migrations ← traverse parse_entry files
  ok (sort_by (le_key (λ m. m.version)) migrations)

unfoldable pub check_names : List Entry → Result MigrationError Done
unfolding conflict_loop
check_names files = conflict_loop [] files

unfoldable pub check_local_migrations : Folder → Result MigrationError Done
unfolding sql_files check_names
check_local_migrations none = err MigrationError.not_a_folder
check_local_migrations (some entries) = do
  raise_if (is_empty entries) MigrationError.empty_folder
  let files = sql_files entries
  raise_if (is_empty files) MigrationError.no_sql_files
  check_names files
