-- ===== src/Migrations/Folder/Load.antt =====
-- What a successful load of a migrations folder gives: load_migration_set of
-- sandbox/migrations/goose.py
use mathlib.Core.List.{Perm}
use goga_tool_pybuggy.Prelude.{
  ℕ, String, Result, err, ◌≡◌, ◌≢◌, ap, none, some, List, [], ◌∷◌, ok, arith, All, inl, inr,
  Option-cases, is_empty, raise_if, raise_if-eq-ok, >>=-eq-ok, traverse, traverse-cons,
  traverse-nil,
}
use goga_tool_pybuggy.Prelude.Sort.{sort_by, sort_by-perm, sort_by-Ascends, le_key, Ascends, Differ}
use goga_tool_pybuggy.Prelude.Text.{Text}
use goga_tool_pybuggy.Migrations.Filename.{version_prefix}
use goga_tool_pybuggy.Migrations.Parse.{MigrationFile, parse_migration_file}
use goga_tool_pybuggy.Migrations.Folder.{
  Entry, sql_files, seen_name, conflict_loop, reject_version_conflicts, parse_entry,
  load_migration_set, in_load, parse_text,
}
use goga_tool_pybuggy.Migrations.Sections.{MigrationError}

abbrev pub version_of : MigrationFile → ℕ
version_of m = m.version

-- A parsed file has the version of its name.
parse_migration_file-version :
    (filename text : Text) {m : MigrationFile}
    → parse_migration_file filename text ≡ ok m
    → version_prefix filename ≡ some m.version
unfolding parse_migration_file
parse_migration_file-version filename text h = ground arith

pub in_load-eq-ok {ℓ} :
    {A : Type ℓ} (r : Result MigrationError A) {a : A} → in_load r ≡ ok a → r ≡ ok a
in_load-eq-ok (ok a) h = ground arith
in_load-eq-ok (err e) h = cc

parse_text-version :
    (name : Text) (read : Result String Text) {m : MigrationFile}
    → parse_text name read ≡ ok m
    → version_prefix name ≡ some m.version
parse_text-version name (ok text) h =
    parse_migration_file-version name text (in_load-eq-ok (parse_migration_file name text) h)
parse_text-version name (err message) h = cc

abbrev IsNew : List (ℕ × Text) → MigrationFile → Type 0
IsNew seen m = seen_name m.version seen ≡ none

-- A round of the conflict loop that does not raise.
conflict_loop-cons :
    (seen : List (ℕ × Text)) (e : Entry) (es : List Entry)
    → conflict_loop seen (e ∷ es) ≡ ok tt
    → (v : ℕ) × (version_prefix e.name ≡ some v)
      × (seen_name v seen ≡ none)
      × (conflict_loop ((v, e.name) ∷ seen) es ≡ ok tt)
unfolding conflict_loop
conflict_loop-cons seen e es h = elim (Option-cases (version_prefix e.name)) [
  | inl p ↦ absurd (ground arith)
  | inr (v, p) ↦ (v, p, ground arith, ground arith)
]

All-IsNew :
    (seen : List (ℕ × Text)) (v : ℕ) (name : Text) (ms : List MigrationFile)
    → All (IsNew ((v, name) ∷ seen)) ms
    → All (IsNew seen) ms × All (λ m. v ≢ m.version) ms
unfolding seen_name
All-IsNew seen v name [] h = (tt, tt)
All-IsNew seen v name (m ∷ ms) h = ground (arith, All-IsNew seen v name ms h.1)

-- Past the conflict check, the parsed versions are new and differ.
conflict_loop-Differ :
    (seen : List (ℕ × Text)) (es : List Entry) (ms : List MigrationFile)
    → conflict_loop seen es ≡ ok tt
    → traverse parse_entry es ≡ ok ms
    → All (IsNew seen) ms × Differ version_of ms
conflict_loop-Differ seen [] ms c t = rw (traverse-nil parse_entry t) (tt, tt)
conflict_loop-Differ seen (e ∷ es) ms c t =
    let (v, p, n, c') = conflict_loop-cons seen e es c in
    let (m, ms', h, t', z) = traverse-cons parse_entry e es t in
    let same : v ≡ m.version = cc (parse_text-version e.name e.read_text h) in
    let (new, differ) = conflict_loop-Differ ((v, e.name) ∷ seen) es ms' c' t' in
    let (old, apart) = All-IsNew seen v e.name ms' new in
    rw z ((rw same at n, old), (rw same at apart, differ))

-- A load that succeeds has parsed every `.sql` file of the folder, each under the version of its
-- name, and returns exactly the parsed migrations, in strictly ascending version order: no version
-- occurs twice.
pub load_migration_set-Ascends :
    (entries : List Entry) (ms : List MigrationFile)
    → load_migration_set (some entries) ≡ ok ms
    → (parsed : List MigrationFile) × (traverse parse_entry (sql_files entries) ≡ ok parsed)
      × Perm ms parsed
      × Ascends version_of ms
      × (sql_files entries ≢ [])
unfolding load_migration_set
load_migration_set-Ascends entries ms h =
    let (u, e, h₁) = >>=-eq-ok (raise_if (is_empty (sql_files entries)) _) _ h in
    let (v, c, h₂) = >>=-eq-ok (in_load (reject_version_conflicts (sql_files entries))) _ h₁ in
    let (parsed, t, h₃) = >>=-eq-ok (traverse parse_entry (sql_files entries)) _ h₂ in
    let sorted : ms ≡ sort_by (le_key version_of) parsed = cc in
    (
      parsed,
      t,
      rw sorted (sort_by-perm (le_key version_of) parsed),
      rw sorted (
          sort_by-Ascends version_of parsed
            (conflict_loop-Differ [] (sql_files entries) parsed (in_load-eq-ok _ c) t).1),
      λ z. cc (raise_if-eq-ok (is_empty (sql_files entries)) _ e, ap is_empty z),
    )
