-- ===== src/Migrations/Sections.antt =====
-- MigrationError and _scan_sections of sandbox/migrations: the header and the Up section.
use goga_tool_pybuggy.Prelude.{
  ℕ, ◌≡◌, refl, Bool, true, false, Option, none, some, List, [], ◌∷◌, ◌++◌, if◌then◌else◌, Result,
  ok, err, ◌>>=◌, String, ◌||◌, not, any, keep, All, append-nil, append_assoc, arith, ap, ◌∙◌,
}
use goga_tool_pybuggy.Prelude.Text.{Text, codes, eq_text}
use goga_tool_pybuggy.Migrations.Annotation.{annotation_token}

-- What the message names, behind the file or the folder.
pub data MigrationError : Type 0 where
  invalid_filename no_up_section interpolation : Text → MigrationError
  stray_statement_end duplicate_up late_no_transaction unclosed_statement : Text → MigrationError
  unsupported_annotation : Text → Text → MigrationError
  not_a_folder empty_folder no_sql_files : MigrationError
  duplicate_version : ℕ → Text → Text → MigrationError

-- The variables of the loop: `up_lines` is `None` in the header.
pub record Sections : Type 0 where
  pub no_transaction : Bool
  pub header : List Text
  pub up_lines : Option (List Text)

-- What one round of the loop does: go on, `break`, or raise.
pub data Round : Type 0 where
  next stop : Sections → Round
  raise : MigrationError → Round

header_line : Text → Sections → Text → Option Text → Round
unfolding eq_text
header_line filename s line none = next (record s { header = s.header ++ line ∷ [] })
header_line filename s line (some token) =
    if eq_text token (codes "NO TRANSACTION")
    then next (record s { no_transaction = true })
    else if eq_text token (codes "Up")
    then next (record s { up_lines = some [] })
    else if eq_text token (codes "Down")
    then raise (no_up_section filename)
    else raise (unsupported_annotation filename token)

unfoldable pub is_token : String → Option Text → Bool
is_token name token = elim token [ none ↦ false | some t ↦ eq_text t (codes name) ]

up_line : Sections → List Text → Text → Option Text → Round
unfolding is_token
up_line s up line token =
    if is_token "Down" token then stop s else next (record s { up_lines = some (up ++ line ∷ []) })

section_line : Text → Sections → Text → Round
unfolding header_line up_line
section_line filename s line = elim s.up_lines [
  | none ↦ header_line filename s line (annotation_token line)
  | some up ↦ up_line s up line (annotation_token line)
]

section_loop : Text → Sections → List Text → Result MigrationError Sections
unfolding section_line
section_loop filename s [] = ok s
section_loop filename s (line ∷ lines) = elim (section_line filename s line) [
  | next s' ↦ section_loop filename s' lines
  | stop s' ↦ ok s'
  | raise e ↦ err e
]

abbrev pub start : Sections
start = record { no_transaction = false; header = []; up_lines = none }

require_up : Text → Sections → Result MigrationError (Bool × List Text × List Text)
require_up filename s = elim s.up_lines [
  | none ↦ err (no_up_section filename)
  | some up ↦ ok (s.no_transaction, s.header, up)
]

unfoldable pub scan_sections :
    Text → List Text → Result MigrationError (Bool × List Text × List Text)
unfolding section_loop require_up
scan_sections filename lines = do s ← section_loop filename start lines; require_up filename s

scan_sections_runs :
    scan_sections [] (
      codes "-- x"
      ∷ codes "-- +goose NO TRANSACTION"
      ∷ codes "-- +goose Up"
      ∷ codes "a;"
      ∷ codes "-- +goose Down"
      ∷ codes "b;"
      ∷ [])
    ≡ ok (true, codes "-- x" ∷ [], codes "a;" ∷ [])
unfolding scan_sections annotation_token
scan_sections_runs = refl

-- A line that the header may hold before `Up`.
abbrev pub is_header_line : Text → Bool
is_header_line line = elim (annotation_token line) [
  | none ↦ true
  | some t ↦ eq_text t (codes "NO TRANSACTION")
]

abbrev pub is_plain : Text → Bool
is_plain line = elim (annotation_token line) [ none ↦ true | some t ↦ false ]

abbrev pub is_down : Text → Bool
is_down line = is_token "Down" (annotation_token line)

-- The end of the file, or the Down section.
abbrev pub EndsUp : List Text → Type 0
EndsUp [] = Unit
EndsUp (line ∷ lines) = is_down line ≡ true

or_true : (b : Bool) → (b || true) ≡ true
or_true true = refl
or_true false = refl

or_false : (b : Bool) → (b || false) ≡ b
or_false true = refl
or_false false = refl

section_loop-header :
    (filename : Text) (lines rest : List Text) (b : Bool) (header : List Text)
    → All (λ line. is_header_line line ≡ true) lines
    → section_loop filename
        (record { no_transaction = b; header = header; up_lines = none })
        (lines ++ rest)
      ≡ section_loop filename
          (record {
            no_transaction = b || any (λ line. not (is_plain line)) lines;
            header = header ++ keep is_plain lines;
            up_lines = none;
          })
          rest
unfolding section_loop
section_loop-header filename [] rest b header h = rw (or_false b, append-nil header)
section_loop-header filename (line ∷ lines) rest b header h = ground (
  arith,
  or_true b,
  section_loop-header filename lines rest b (header ++ line ∷ []) h.1,
  section_loop-header filename lines rest true header h.1,
  append_assoc header (line ∷ []) (keep is_plain lines),
)

section_loop-up :
    (filename : Text) (lines rest : List Text) (b : Bool) (header up : List Text)
    → All (λ line. is_down line ≡ false) lines
    → EndsUp rest
    → section_loop filename
        (record { no_transaction = b; header = header; up_lines = some up })
        (lines ++ rest)
      ≡ ok (record { no_transaction = b; header = header; up_lines = some (up ++ lines) })
unfolding section_loop is_token
section_loop-up filename [] [] b header up h e = rw (append-nil up)
section_loop-up filename [] (down ∷ rest) b header up h e = rw append-nil (ground arith)
section_loop-up filename (line ∷ lines) rest b header up h e = ground (
  arith,
  section_loop-up filename lines rest b header (up ++ line ∷ []) h.1 e,
  append_assoc up (line ∷ []) lines,
)

section_loop-enter :
    (filename up : Text) (lines : List Text) (b : Bool) (header : List Text)
    → annotation_token up ≡ some (codes "Up")
    → section_loop filename
        (record { no_transaction = b; header = header; up_lines = none })
        (up ∷ lines)
      ≡ section_loop filename
          (record { no_transaction = b; header = header; up_lines = some [] })
          lines
unfolding section_loop
section_loop-enter filename up lines b header u = ground arith

-- On a file whose first lines are plain or NO TRANSACTION annotations, followed by an Up
-- annotation, lines without a Down annotation, and then nothing or a Down annotation with any
-- lines behind it, the scan succeeds: the flag tells whether some first line is an annotation, the
-- header is the plain first lines, and the Up section is the lines between Up and Down. What
-- stands behind Down does not matter.
pub scan_sections_regions :
    (filename : Text) (first : List Text) (up : Text) (body rest : List Text)
    → All (λ line. is_header_line line ≡ true) first
    → annotation_token up ≡ some (codes "Up")
    → All (λ line. is_down line ≡ false) body
    → EndsUp rest
    → scan_sections filename (first ++ (up ∷ (body ++ rest)))
      ≡ ok (any (λ line. not (is_plain line)) first, keep is_plain first, body)
unfolding scan_sections
scan_sections_regions filename first up body rest h u d e =
    ap (λ r. r >>= require_up filename)
      (section_loop-header filename first (up ∷ (body ++ rest)) false [] h
        ∙ section_loop-enter filename up (body ++ rest) (any (λ line. not (is_plain line)) first)
            (keep is_plain first) u
        ∙ section_loop-up filename body rest (any (λ line. not (is_plain line)) first)
            (keep is_plain first) [] d e)
