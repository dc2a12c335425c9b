-- ===== src/Migrations/Tests.antt =====
-- Runs of the goose reader and of the migrations runner on small files:
-- sandbox/migrations/goose.py, sandbox/migrations/apply.py
use mathlib.Core.List.{Perm}
use goga_tool_pybuggy.Prelude.{
  ◌≡◌, refl, true, false, none, some, List, [], ◌∷◌, ◌++◌, Result, ok, err, traverse, ◌≢◌, any,
  arith, ◌==◌, if◌then◌else◌,
}
use goga_tool_pybuggy.Prelude.Text.{Text, codes, eq_text, splitlines, strip, join_lines, contains}
use goga_tool_pybuggy.Prelude.Sort.{Ascends}
use goga_tool_pybuggy.Migrations.Filename.{version_prefix}
use goga_tool_pybuggy.Migrations.Annotation.{annotation_token}
use goga_tool_pybuggy.Migrations.Sections.{is_token, scan_sections, scan_sections_regions}
use goga_tool_pybuggy.Migrations.Statements.{split_fragments}
use goga_tool_pybuggy.Migrations.Statements.Scanner.{IsLine, scan, plain, text_of}
use goga_tool_pybuggy.Migrations.Statements.Equivalence.{split_fragments-eq-scan}
use goga_tool_pybuggy.Migrations.Parse.{MigrationFile, split_up_statements, parse_migration_file}
use goga_tool_pybuggy.Migrations.Parse.Segments.{
  Segment, IsSegment, split_up_statements-lines_of, parse_migration_file_regions, lines_of,
}
use goga_tool_pybuggy.Migrations.Folder.{
  Folder, Entry, sql_files, load_migration_set, check_local_migrations, parse_entry, unread,
}
use goga_tool_pybuggy.Migrations.Folder.Load.{load_migration_set-Ascends, version_of}
use goga_tool_pybuggy.Migrations.Folder.Check.{
  load_migration_set-check_local_migrations, check_local_migrations-load, LoadEnds,
}
use goga_tool_pybuggy.Migrations.Apply.{
  Connection, apply_in_transaction, ApplyError, Sources, Session, apply_migrations, run_migrations,
}
use goga_tool_pybuggy.Migrations.Apply.Atomic.{FailedApply, apply_migrations-FailedApply}
use goga_tool_pybuggy.Migrations.Apply.Run.{RunEnds, run_migrations-RunEnds}

abbrev filename : Text
filename = codes "3_x.sql"

abbrev up : Text
up = codes "-- +goose Up"

abbrev down : List Text
down = codes "-- +goose Down" ∷ codes "D;" ∷ []

scan_sections_regions_example :
    scan_sections filename (codes "note" ∷ up ∷ codes "A;" ∷ down)
    ≡ ok (false, codes "note" ∷ [], codes "A;" ∷ [])
unfolding annotation_token is_token eq_text
scan_sections_regions_example =
    scan_sections_regions filename (codes "note" ∷ []) up (codes "A;" ∷ []) down (refl, tt) refl
      (refl, tt) refl

any-IsLine : (line : Text) → any (λ c. c == 10) line ≡ false → IsLine line
any-IsLine [] h = tt
any-IsLine (c ∷ line) h = ground (arith, any-IsLine line)

abbrev quoted : List Text
quoted = codes "A 'x;" ∷ codes "y'; B -- z;" ∷ codes "-- w" ∷ []

split_fragments-eq-scan_example : split_fragments quoted ≡ scan plain [] [] (text_of quoted)
split_fragments-eq-scan_example = split_fragments-eq-scan quoted (
  any-IsLine (codes "A 'x;") refl,
  (any-IsLine (codes "y'; B -- z;") refl, (any-IsLine (codes "-- w") refl, tt)),
)

quoted_statements : split_fragments quoted ≡ codes "A 'x;\ny'" ∷ codes "B -- z;\n-- w" ∷ []
unfolding split_fragments
quoted_statements = refl

abbrev segment : Segment
segment = record {
  plain_lines = codes "A;" ∷ [];
  begin_line = codes "-- +goose StatementBegin";
  body = codes "B;" ∷ codes "C" ∷ [];
  end_line = codes "-- +goose StatementEnd";
}

segment-IsSegment : IsSegment segment
unfolding annotation_token is_token
segment-IsSegment = record {
  plain = (refl, tt);
  begins = refl;
  inside = (refl, (refl, tt));
  ends = refl;
}

split_up_statements-lines_of_example :
    split_up_statements filename (lines_of (segment ∷ []) (codes "E" ∷ []))
    ≡ ok (codes "A" ∷ codes "B;\nC" ∷ codes "E" ∷ [])
unfolding annotation_token split_fragments strip join_lines
split_up_statements-lines_of_example =
    split_up_statements-lines_of filename (segment ∷ []) (codes "E" ∷ []) (segment-IsSegment, tt)
      (refl, tt)

abbrev sample : Text
sample =
    codes
      "note\n-- +goose Up\nA;\n-- +goose StatementBegin\nB;\nC\n-- +goose StatementEnd\nE\n-- +goose Down\nD;"

parse_migration_file_regions_example :
    parse_migration_file filename sample
    ≡ ok (record {
      version = 3;
      filename = filename;
      statements = codes "A" ∷ codes "B;\nC" ∷ codes "E" ∷ [];
      no_transaction = false;
    })
unfolding annotation_token split_fragments strip splitlines version_prefix contains is_token
    join_lines
parse_migration_file_regions_example =
    parse_migration_file_regions filename sample 3 (codes "note" ∷ []) up (segment ∷ [])
      (codes "E" ∷ []) down refl refl (refl, tt) refl
      (refl, (refl, (refl, (refl, (refl, (refl, tt)))))) refl (segment-IsSegment, tt) (refl, tt)
      refl

abbrev file : Text → Text → Entry
file name text = record { name = name; is_file = true; read_text = ok text }

abbrev entries : List Entry
entries =
    file (codes "2_b.sql") (codes "-- +goose NO TRANSACTION\n-- +goose Up\nB;BAD;C;")
    ∷ file (codes "readme.md") []
    ∷ file (codes "1_a.sql") (codes "-- +goose Up\nA;")
    ∷ []

abbrev first_file : MigrationFile
first_file = record {
  version = 1;
  filename = codes "1_a.sql";
  statements = codes "A" ∷ [];
  no_transaction = false;
}

abbrev second_file : MigrationFile
second_file = record {
  version = 2;
  filename = codes "2_b.sql";
  statements = codes "B" ∷ codes "BAD" ∷ codes "C" ∷ [];
  no_transaction = true;
}

entries_load : load_migration_set (some entries) ≡ ok (first_file ∷ second_file ∷ [])
unfolding load_migration_set version_prefix parse_migration_file scan_sections splitlines
    annotation_token split_up_statements split_fragments
entries_load = refl

load_migration_set-Ascends_example :
    (parsed : List MigrationFile) × (traverse parse_entry (sql_files entries) ≡ ok parsed)
    × Perm (first_file ∷ second_file ∷ []) parsed
    × Ascends version_of (first_file ∷ second_file ∷ [])
    × (sql_files entries ≢ [])
load_migration_set-Ascends_example =
    load_migration_set-Ascends entries (first_file ∷ second_file ∷ []) entries_load

load_migration_set-check_local_migrations_example : check_local_migrations (some entries) ≡ ok tt
load_migration_set-check_local_migrations_example =
    load_migration_set-check_local_migrations entries (first_file ∷ second_file ∷ []) entries_load

-- The second file in the order of the names is not in UTF-8.
abbrev unread_entries : List Entry
unread_entries =
    record { name = codes "2_b.sql"; is_file = true; read_text = err "invalid start byte" }
    ∷ file (codes "1_a.sql") (codes "-- +goose Up\nA;")
    ∷ []

unread_entries_checked : check_local_migrations (some unread_entries) ≡ ok tt
unfolding check_local_migrations version_prefix
unread_entries_checked = refl

unread_entries_load :
    load_migration_set (some unread_entries) ≡ err (unread (codes "2_b.sql") "invalid start byte")
unfolding load_migration_set version_prefix parse_migration_file scan_sections splitlines
    annotation_token split_up_statements split_fragments
unread_entries_load = refl

check_local_migrations-load_example :
    LoadEnds unread_entries (load_migration_set (some unread_entries))
check_local_migrations-load_example =
    check_local_migrations-load unread_entries unread_entries_checked

-- The database is the list of the executed statements; the statement `BAD` fails.
abbrev run : Text → List Text → Result Text (List Text)
run statement db =
    if eq_text statement (codes "BAD") then err (codes "refused") else ok (db ++ statement ∷ [])

abbrev connection : Connection
connection = record { Database = List Text; execute = run; commit = λ db. ok db }

apply_migrations-FailedApply_example :
    FailedApply connection (first_file ∷ second_file ∷ []) [] (codes "A" ∷ codes "B" ∷ [])
unfolding apply_migrations apply_in_transaction eq_text
apply_migrations-FailedApply_example =
    apply_migrations-FailedApply connection (first_file ∷ second_file ∷ []) []
      (codes "A" ∷ codes "B" ∷ []) (ApplyError.statement_failed (codes "2_b.sql") (codes "refused"))
      refl

-- A folder of one good file.
abbrev good_folder : Folder
good_folder = some (file (codes "1_a.sql") (codes "-- +goose Up\nA;") ∷ [])

abbrev good_sources : Sources
good_sources = record {
  local_folder = λ _. good_folder;
  clone = λ _ _. ok (record { escapes = λ _. false; folder = λ _. good_folder });
}

abbrev good_session : Session connection good_sources
good_session = record { database = []; temporary = codes "other" ∷ [] }

-- Both runs return.
local_run :
    run_migrations connection good_sources (codes "db") none none (codes "t") good_session
    ≡ (ok tt, record { database = codes "A" ∷ []; temporary = codes "other" ∷ [] })
unfolding run_migrations load_migration_set version_prefix parse_migration_file scan_sections
    splitlines annotation_token split_up_statements split_fragments apply_migrations
    apply_in_transaction
local_run = refl

remote_run :
    run_migrations connection good_sources
      (codes "db")
      (some (codes "https://h/r"))
      none
      (codes "t")
      good_session
    ≡ (ok tt, record { database = codes "A" ∷ []; temporary = codes "other" ∷ [] })
unfolding run_migrations load_migration_set version_prefix parse_migration_file scan_sections
    splitlines annotation_token split_up_statements split_fragments apply_migrations
    apply_in_transaction
remote_run = refl

run_migrations-RunEnds_example :
    let (r, s') =
      run_migrations connection good_sources
        (codes "db")
        (some (codes "https://h/r"))
        none
        (codes "t")
        good_session in
    (s'.temporary ≡ codes "other" ∷ [])
    × RunEnds connection good_sources
        (codes "db")
        (some (codes "https://h/r"))
        none
        []
        (r, s'.database)
run_migrations-RunEnds_example =
    run_migrations-RunEnds connection good_sources (codes "db") (some (codes "https://h/r")) none
      (codes "t") good_session
