-- ===== src/Migrations/Parse.antt =====
-- _split_up_statements, _reject_interpolation and parse_migration_file of
-- sandbox/migrations/goose.py
pub mod Segments
use goga_tool_pybuggy.Prelude.{
  ℕ, ◌≡◌, refl, Bool, true, false, Option, none, some, List, [], ◌∷◌, ◌++◌, if◌then◌else◌, Result,
  ok, err, ◌>>=◌, ◌>>◌, raise_if, Done,
}
use goga_tool_pybuggy.Prelude.Text.{Text, codes, eq_text, strip, splitlines, join_lines, contains}
use goga_tool_pybuggy.Migrations.Filename.{version_prefix}
use goga_tool_pybuggy.Migrations.Annotation.{annotation_token}
use goga_tool_pybuggy.Migrations.Sections
use goga_tool_pybuggy.Migrations.Sections.{MigrationError, is_token, scan_sections}
use goga_tool_pybuggy.Migrations.Statements.{split_fragments}

-- The variables of the loop; `body` is `None` outside a statement body.
pub record Split : Type 0 where
  pub statements : List Text
  pub fragments : List Text
  pub body : Option (List Text)

body_line : Split → List Text → Text → Option Text → Split
unfolding is_token
body_line s body line token =
    if is_token "StatementEnd" token
    then record s { statements = s.statements ++ strip (join_lines body) ∷ []; body = none }
    else record s { body = some (body ++ line ∷ []) }

plain_line : Text → Split → Text → Option Text → Result MigrationError Split
plain_line filename s line none = ok (record s { fragments = s.fragments ++ line ∷ [] })
plain_line filename s line (some token) =
    if eq_text token (codes "StatementBegin")
    then ok (record {
      statements = s.statements ++ split_fragments s.fragments;
      fragments = [];
      body = some [];
    })
    else if eq_text token (codes "StatementEnd")
    then err (MigrationError.stray_statement_end filename)
    else if eq_text token (codes "Up")
    then err (MigrationError.duplicate_up filename)
    else if eq_text token (codes "NO TRANSACTION")
    then err (MigrationError.late_no_transaction filename)
    else err (MigrationError.unsupported_annotation filename token)

pub split_line : Text → Split → Text → Result MigrationError Split
unfolding body_line plain_line
split_line filename s line = elim s.body [
  | none ↦ plain_line filename s line (annotation_token line)
  | some body ↦ ok (body_line s body line (annotation_token line))
]

pub split_loop : Text → Split → List Text → Result MigrationError Split
unfolding split_line
split_loop filename s [] = ok s
split_loop filename s (line ∷ lines) = do
  s' ← split_line filename s line
  split_loop filename s' lines

pub finish_split : Text → Split → Result MigrationError (List Text)
finish_split filename s = elim s.body [
  | none ↦ ok (s.statements ++ split_fragments s.fragments)
  | some body ↦ err (MigrationError.unclosed_statement filename)
]

abbrev pub no_split : Split
no_split = record { statements = []; fragments = []; body = none }

unfoldable pub split_up_statements : Text → List Text → Result MigrationError (List Text)
unfolding split_loop finish_split
split_up_statements filename lines = do
  s ← split_loop filename no_split lines
  finish_split filename s

unfoldable pub reject_interpolation : Text → List Text → Result MigrationError Done
unfolding contains join_lines
reject_interpolation filename lines =
    raise_if (contains (codes "{{") (join_lines lines)) (MigrationError.interpolation filename)

pub record MigrationFile : Type 0 where
  pub version : ℕ
  pub filename : Text
  pub statements : List Text
  pub no_transaction : Bool

require_version : Text → Option ℕ → Result MigrationError ℕ
require_version filename none = err (MigrationError.invalid_filename filename)
require_version filename (some version) = ok version

unfoldable pub parse_migration_file : Text → Text → Result MigrationError MigrationFile
unfolding require_version reject_interpolation
parse_migration_file filename text = do
  version ← require_version filename (version_prefix filename)
  (no_transaction, header, up_lines) ← scan_sections filename (splitlines text)
  statements ← split_up_statements filename up_lines
  reject_interpolation filename (header ++ up_lines)
  ok (record {
    version = version;
    filename = filename;
    statements = statements;
    no_transaction = no_transaction;
  })

abbrev sample : Text
sample =
    codes
      "-- +goose Up\nA;\n-- +goose StatementBegin\nB; C\n-- +goose StatementEnd\n-- +goose Down\nD;"

parse_migration_file_runs :
    parse_migration_file (codes "3_x.sql") sample
    ≡ ok (record {
      version = 3;
      filename = codes "3_x.sql";
      statements = codes "A" ∷ codes "B; C" ∷ [];
      no_transaction = false;
    })
unfolding parse_migration_file version_prefix scan_sections split_up_statements annotation_token
    split_fragments splitlines
parse_migration_file_runs = refl
