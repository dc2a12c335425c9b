-- ===== src/Migrations/Folder/Check.antt =====
-- The load-time check of sandbox/migrations/source.py against the load of
-- sandbox/migrations/goose.py: they agree on the shape of the folder.
use mathlib.Core.List.{Perm}
use goga_tool_pybuggy.Prelude.{
  ◌≡◌, refl, sym, ap, ◌∙◌, subst, String, some, List, [], ◌∷◌, ◌++◌, Result, ok, err, ◌>>=◌, arith,
  traverse, ◌⊎◌, inl, inr, Result-cases,
}
use goga_tool_pybuggy.Prelude.Text.{Text}
use goga_tool_pybuggy.Migrations.Sections.{MigrationError}
use goga_tool_pybuggy.Prelude.Sort.{sort_by, sort_by-perm, le_key}
use goga_tool_pybuggy.Migrations.Parse.{MigrationFile, parse_migration_file}
use goga_tool_pybuggy.Migrations.Folder.{
  Entry, sql_files, reject_version_conflicts, check_names, parse_entry, load_migration_set,
  check_local_migrations, LoadError, unread, migration_error,
}

sql_files-nil : sql_files [] ≡ []
unfolding sql_files
sql_files-nil = refl

-- A folder whose migrations load passes the load-time check.
pub load_migration_set-check_local_migrations :
    (entries : List Entry) (ms : List MigrationFile)
    → load_migration_set (some entries) ≡ ok ms
    → check_local_migrations (some entries) ≡ ok tt
unfolding check_local_migrations load_migration_set reject_version_conflicts check_names
load_migration_set-check_local_migrations [] ms h = ground (arith, sql_files-nil)
load_migration_set-check_local_migrations (e ∷ es) ms h = ground arith

load-after-check :
    (entries : List Entry)
    → check_local_migrations (some entries) ≡ ok tt
    → load_migration_set (some entries) ≡ (
        traverse parse_entry (sql_files entries) >>= λ ms.
        ok (sort_by (le_key (λ (m : MigrationFile). m.version)) ms))
unfolding check_local_migrations load_migration_set reject_version_conflicts check_names
load-after-check [] h = absurd (ground (arith, sql_files-nil))
load-after-check (e ∷ es) h = ground arith

-- Why one file of the folder gives no migration: it cannot be read, or its name or its text is refused.
abbrev pub Refused : Entry → LoadError → Type 0
Refused e x =
    ((message : String) × (e.read_text ≡ err message) × (x ≡ unread e.name message))
    ⊎ ((text : Text) × (y : MigrationError) × (e.read_text ≡ ok text)
        × (parse_migration_file e.name text ≡ err y)
        × (x ≡ migration_error y))

parse_entry-Refused : (e : Entry) {x : LoadError} → parse_entry e ≡ err x → Refused e x
parse_entry-Refused e h = elim (Result-cases e.read_text) [
  | inr (message, r) ↦ inl (message, r, ground arith)
  | inl (text, r) ↦ elim (Result-cases (parse_migration_file e.name text)) [
    | inl (m, p) ↦ absurd (ground arith)
    | inr (y, p) ↦ inr (text, y, r, p, ground arith)
  ]
]

-- The first of the files that is refused: those before it give migrations.
abbrev pub FirstRefused : List Entry → LoadError → Type 0
FirstRefused files x =
    (before : List Entry) × (e : Entry) × (after : List Entry) × (parsed : List MigrationFile)
    × (files ≡ before ++ e ∷ after)
    × (traverse parse_entry before ≡ ok parsed)
    × Refused e x

traverse-FirstRefused :
    (files : List Entry) {x : LoadError} → traverse parse_entry files ≡ err x → FirstRefused files x
unfolding traverse
traverse-FirstRefused [] h = cc
traverse-FirstRefused (e ∷ files) {x} h = elim (Result-cases (parse_entry e)) [
  | inr (y, p) ↦ ([], e, files, [], refl, refl, parse_entry-Refused e (p ∙ ground arith))
  | inl (m, p) ↦
      let (before, f, after, parsed, s, t, r) =
        traverse-FirstRefused files {x = x} (ground arith) in
      (e ∷ before, f, after, m ∷ parsed, ap (λ z. e ∷ z) s, ground arith, r)
]

-- How a load of a checked folder ends: with the migrations of all its `.sql` files, or with the first
-- of these that is refused.
abbrev pub LoadEnds : List Entry → Result LoadError (List MigrationFile) → Type 0
LoadEnds entries (ok ms) =
    (parsed : List MigrationFile) × (traverse parse_entry (sql_files entries) ≡ ok parsed)
    × Perm ms parsed
LoadEnds entries (err x) = FirstRefused (sql_files entries) x

loaded-LoadEnds :
    (entries : List Entry) (r : Result LoadError (List MigrationFile))
    → traverse parse_entry (sql_files entries) ≡ r
    → LoadEnds entries (r >>= λ ms. ok (sort_by (le_key (λ (m : MigrationFile). m.version)) ms))
loaded-LoadEnds entries (ok ms) h = (ms, h, sort_by-perm _ ms)
loaded-LoadEnds entries (err x) h = traverse-FirstRefused (sql_files entries) h

-- Once a folder has passed the load-time check, a load either returns the migrations of all its `.sql`
-- files, or raises what the first of them raises that cannot be read or whose name or text is refused.
-- The listing and the version check raise nothing any more.
pub check_local_migrations-load :
    (entries : List Entry)
    → check_local_migrations (some entries) ≡ ok tt
    → LoadEnds entries (load_migration_set (some entries))
check_local_migrations-load entries h =
    subst (LoadEnds entries) (sym (load-after-check entries h))
      (loaded-LoadEnds entries (traverse parse_entry (sql_files entries)) refl)
