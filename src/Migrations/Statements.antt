-- ===== src/Migrations/Statements.antt =====
-- _statement_endings, _is_comment_only and _split_fragments of sandbox/migrations/goose.py
pub mod Scanner
pub mod Slice
pub mod Equivalence
use goga_tool_pybuggy.Prelude.{
  ℕ, ◌+◌, ◌-◌, ◌≡◌, refl, Bool, true, false, ◌&&◌, not, List, [], ◌∷◌, ◌++◌, ◌==◌, if◌then◌else◌,
  is_empty, all, take, drop,
}
use goga_tool_pybuggy.Prelude.Text.{Text, codes, starts_with, strip, splitlines}

-- `line[index : index + 2] == "--"`, on the text from `index` on
abbrev pub at_comment : Text → Bool
at_comment (c ∷ d ∷ s) = c == b'-' && d == b'-'
at_comment _ = false

-- The loop of `_statement_endings`, on the text from `index` on.
unfoldable pub endings_from : ℕ → Bool → Text → List ℕ × Bool
endings_from index in_literal [] = ([], in_literal)
endings_from index true (c ∷ s) = endings_from (index + 1) (not (c == 39)) s
endings_from index false (c ∷ s) = elim (c == 39) [
  | true ↦ endings_from (index + 1) true s
  | false ↦ elim (at_comment (c ∷ s)) [
    | true ↦ ([], false)
    | false ↦
        let rest = endings_from (index + 1) false s in
        if c == b';' then (index ∷ rest.0, rest.1) else rest
  ]
]

unfoldable pub statement_endings : Text → Bool → List ℕ × Bool
unfolding endings_from
statement_endings line in_literal = endings_from 0 in_literal line

unfoldable pub is_comment_only : Text → Bool
unfolding starts_with strip splitlines
is_comment_only text =
    if is_empty text then true else all (λ l. starts_with (strip l) (codes "--")) (splitlines text)

-- One finished piece joins the statements, stripped, if it is not only comment.
unfoldable pub finish : Text → List Text → List Text
unfolding is_comment_only strip
finish piece statements =
    let finished = strip piece in
    if is_comment_only finished then statements else statements ++ finished ∷ []

-- `line[start:ending]`
abbrev pub slice : Text → ℕ → ℕ → Text
slice line start ending = take (ending - start) (drop start line)

-- The loop over the endings of one line, then `text += line[start:] + "\n"`.
unfoldable pub cut_line : Text → ℕ → List ℕ → Text → List Text → Text × List Text
unfolding finish
cut_line line start [] text statements = (text ++ drop start line ++ 10 ∷ [], statements)
cut_line line start (ending ∷ endings) text statements =
    cut_line line (ending + 1) endings [] (finish (text ++ slice line start ending) statements)

-- The loop over the lines, then the tail.
unfoldable pub fragments_from : Text → Bool → List Text → List Text → List Text
unfolding finish statement_endings cut_line
fragments_from text in_literal statements [] = finish text statements
fragments_from text in_literal statements (line ∷ lines) =
    let (endings, in_literal') = statement_endings line in_literal in
    let (text', statements') = cut_line line 0 endings text statements in
    fragments_from text' in_literal' statements' lines

unfoldable pub split_fragments : List Text → List Text
unfolding fragments_from
split_fragments lines = fragments_from [] false [] lines

split_fragments_runs :
    split_fragments (codes "SELECT 'a;b'; -- x;y" ∷ codes "DROP t;;" ∷ [])
    ≡ codes "SELECT 'a;b'" ∷ codes "-- x;y\nDROP t" ∷ []
unfolding split_fragments
split_fragments_runs = refl
