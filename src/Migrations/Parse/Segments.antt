-- ===== src/Migrations/Parse/Segments.antt =====
-- What _split_up_statements and parse_migration_file of sandbox/migrations/goose.py give for a file
-- that is written section by section and statement by statement.
use goga_tool_pybuggy.Prelude.{
  ℕ, ◌≡◌, refl, ap, ◌∙◌, true, false, not, none, some, List, [], ◌∷◌, ◌++◌, append-nil,
  append_assoc, arith, ok, ◌>>=◌, All, any, keep, sym,
}
use goga_tool_pybuggy.Prelude.Text.{
  Text, codes, strip, splitlines, join_lines, contains, eq_text_refl,
}
use goga_tool_pybuggy.Migrations.Filename.{version_prefix}
use goga_tool_pybuggy.Migrations.Annotation.{annotation_token}
use goga_tool_pybuggy.Migrations.Sections.{
  is_token, scan_sections_regions, is_header_line, is_plain, is_down, EndsUp,
}
use goga_tool_pybuggy.Migrations.Statements.{split_fragments}
use goga_tool_pybuggy.Migrations.Parse.{
  Split, split_loop, finish_split, split_up_statements, parse_migration_file,
}

-- Lines outside a statement body, then the lines of a body, with the two annotation lines.
pub record Segment : Type 0 where
  pub plain_lines : List Text
  pub begin_line : Text
  pub body : List Text
  pub end_line : Text

abbrev pub lines_of : List Segment → List Text → List Text
lines_of [] tail = tail
lines_of (s ∷ segments) tail =
    s.plain_lines ++ (s.begin_line ∷ (s.body ++ (s.end_line ∷ lines_of segments tail)))

abbrev pub statements_of : List Segment → List Text → List Text
statements_of [] tail = split_fragments tail
statements_of (s ∷ segments) tail =
    split_fragments s.plain_lines ++ (strip (join_lines s.body) ∷ statements_of segments tail)

abbrev pub IsPlain : List Text → Type 0
IsPlain = All (λ line. annotation_token line ≡ none)

pub record IsSegment (s : Segment) : Type 0 where
  pub plain : IsPlain s.plain_lines
  pub begins : annotation_token s.begin_line ≡ some (codes "StatementBegin")
  pub inside : All (λ line. is_token "StatementEnd" (annotation_token line) ≡ false) s.body
  pub ends : annotation_token s.end_line ≡ some (codes "StatementEnd")

abbrev outside_body : List Text → List Text → Split
outside_body statements fragments = record {
  statements = statements;
  fragments = fragments;
  body = none;
}

abbrev inside_body : List Text → List Text → Split
inside_body statements body = record { statements = statements; fragments = []; body = some body }

module _ (filename : Text) where
  split_loop-plain :
      (statements lines rest fragments : List Text)
      → IsPlain lines
      → split_loop filename (outside_body statements fragments) (lines ++ rest)
        ≡ split_loop filename (outside_body statements (fragments ++ lines)) rest
  unfolding split_loop
  split_loop-plain statements [] rest fragments h = rw (append-nil fragments)
  split_loop-plain statements (line ∷ lines) rest fragments h = ground (
    arith,
    split_loop-plain statements lines rest (fragments ++ line ∷ []) h.1,
    append_assoc fragments (line ∷ []) lines,
  )

  split_loop-body :
      (statements lines rest body : List Text)
      → All (λ line. is_token "StatementEnd" (annotation_token line) ≡ false) lines
      → split_loop filename (inside_body statements body) (lines ++ rest)
        ≡ split_loop filename (inside_body statements (body ++ lines)) rest
  unfolding split_loop
  split_loop-body statements [] rest body h = rw (append-nil body)
  split_loop-body statements (line ∷ lines) rest body h = ground (
    arith,
    split_loop-body statements lines rest (body ++ line ∷ []) h.1,
    append_assoc body (line ∷ []) lines,
  )

  split_loop-begin :
      (statements : List Text) (line : Text) (rest fragments : List Text)
      → annotation_token line ≡ some (codes "StatementBegin")
      → split_loop filename (outside_body statements fragments) (line ∷ rest)
        ≡ split_loop filename (inside_body (statements ++ split_fragments fragments) []) rest
  unfolding split_loop
  split_loop-begin statements line rest fragments h =
      ground (arith, eq_text_refl (codes "StatementBegin"))

  split_loop-end :
      (statements : List Text) (line : Text) (rest body : List Text)
      → annotation_token line ≡ some (codes "StatementEnd")
      → split_loop filename (inside_body statements body) (line ∷ rest)
        ≡ split_loop filename (outside_body (statements ++ strip (join_lines body) ∷ []) []) rest
  unfolding split_loop is_token
  split_loop-end statements line rest body h = ground (arith, eq_text_refl (codes "StatementEnd"))

  split_loop-segment :
      (s : Segment) (statements rest : List Text)
      → IsSegment s
      → split_loop filename
          (outside_body statements [])
          (s.plain_lines ++ (s.begin_line ∷ (s.body ++ (s.end_line ∷ rest))))
        ≡ split_loop filename
            (outside_body
              (statements ++ (split_fragments s.plain_lines ++ strip (join_lines s.body) ∷ []))
              [])
            rest
  split_loop-segment s statements rest h =
      split_loop-plain statements s.plain_lines (s.begin_line ∷ (s.body ++ (s.end_line ∷ rest))) []
        h.plain
      ∙ split_loop-begin statements s.begin_line (s.body ++ (s.end_line ∷ rest)) s.plain_lines
          h.begins
      ∙ split_loop-body (statements ++ split_fragments s.plain_lines) s.body (s.end_line ∷ rest) []
          h.inside
      ∙ split_loop-end (statements ++ split_fragments s.plain_lines) s.end_line rest s.body h.ends
      ∙ ap (λ t. split_loop filename (outside_body t []) rest)
          (append_assoc statements (split_fragments s.plain_lines) (strip (join_lines s.body) ∷ []))

  split_loop-end_of_file :
      (statements fragments : List Text)
      → (split_loop filename (outside_body statements fragments) [] >>= finish_split filename)
        ≡ ok (statements ++ split_fragments fragments)
  unfolding split_loop finish_split
  split_loop-end_of_file statements fragments = refl

  split_loop-segments :
      (segments : List Segment) (tail statements : List Text)
      → All IsSegment segments
      → IsPlain tail
      → (split_loop filename (outside_body statements []) (lines_of segments tail)
          >>= finish_split filename)
        ≡ ok (statements ++ statements_of segments tail)
  unfolding finish_split
  split_loop-segments [] tail statements h p =
      ap (λ t. split_loop filename (outside_body statements []) t >>= finish_split filename)
        (sym (append-nil tail))
      ∙ ap (λ r. r >>= finish_split filename) (split_loop-plain statements tail [] [] p)
      ∙ split_loop-end_of_file statements tail
  split_loop-segments (s ∷ segments) tail statements h p =
      ap (λ r. r >>= finish_split filename)
        (split_loop-segment s statements (lines_of segments tail) h.0)
      ∙ split_loop-segments segments tail
          (statements ++ (split_fragments s.plain_lines ++ strip (join_lines s.body) ∷ [])) h.1 p
      ∙ ap ok (
          append_assoc statements (split_fragments s.plain_lines ++ strip (join_lines s.body) ∷ [])
            (statements_of segments tail)
          ∙ ap (λ t. statements ++ t)
              (append_assoc (split_fragments s.plain_lines) (strip (join_lines s.body) ∷ [])
                (statements_of segments tail)))

-- An Up section that alternates plain lines with StatementBegin/StatementEnd bodies splits into
-- exactly the statements of the plain lines, cut at their semicolons, and one statement for each
-- body, whatever semicolons it holds, in file order.
pub split_up_statements-lines_of :
    (filename : Text) (segments : List Segment) (tail : List Text)
    → All IsSegment segments
    → IsPlain tail
    → split_up_statements filename (lines_of segments tail) ≡ ok (statements_of segments tail)
unfolding split_up_statements
split_up_statements-lines_of filename segments tail h p =
    split_loop-segments filename segments tail [] h p

-- A file whose name carries a version, whose first lines are plain or NO TRANSACTION, whose Up
-- section is made of segments without a Down annotation, and which then ends or goes Down, parses
-- if its first plain lines and its Up section hold no `{{`: into its version, its name, the
-- statements of the segments and the flag of the NO TRANSACTION annotation.
pub parse_migration_file_regions :
    (filename text : Text) (version : ℕ) (first : List Text) (up : Text) (segments : List Segment)
    (tail rest : List Text)
    → version_prefix filename ≡ some version
    → splitlines text ≡ first ++ (up ∷ (lines_of segments tail ++ rest))
    → All (λ line. is_header_line line ≡ true) first
    → annotation_token up ≡ some (codes "Up")
    → All (λ line. is_down line ≡ false) (lines_of segments tail)
    → EndsUp rest
    → All IsSegment segments
    → IsPlain tail
    → contains (codes "{{") (join_lines (keep is_plain first ++ lines_of segments tail)) ≡ false
    → parse_migration_file filename text
      ≡ ok (record {
        version = version;
        filename = filename;
        statements = statements_of segments tail;
        no_transaction = any (λ line. not (is_plain line)) first;
      })
unfolding parse_migration_file
parse_migration_file_regions filename text version first up segments tail rest v l h u d e s p c =
    ground (
      arith,
      scan_sections_regions filename first up (lines_of segments tail) rest h u d e,
      split_up_statements-lines_of filename segments tail s p,
    )
