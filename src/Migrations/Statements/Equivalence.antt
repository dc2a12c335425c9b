-- ===== src/Migrations/Statements/Equivalence.antt =====
-- `_split_fragments` of sandbox/migrations/goose.py is the scanner of Statements/Scanner.antt.
use goga_tool_pybuggy.Prelude.{
  ℕ, ◌+◌, ◌≤◌, ◌≡◌, refl, ap, sym, ◌∙◌, Bool, true, false, inl, inr, List, [], ◌∷◌, ◌++◌,
  append-nil, append_assoc, arith, ◌==◌, All, Bool-cases, drop, not,
}
use goga_tool_pybuggy.Prelude.Text.{Text}
use goga_tool_pybuggy.Migrations.Statements.{
  at_comment, endings_from, statement_endings, finish, slice, cut_line, fragments_from,
  split_fragments,
}
use goga_tool_pybuggy.Migrations.Statements.Scanner.{
  plain, literal, mode_of, scan, scan-nil, text_of, IsLine, scan-literal, scan-quote, scan-dash,
  scan-end, scan-plain, scan-newline, scan-comment, at_comment-line,
}
use goga_tool_pybuggy.Migrations.Statements.Slice.{
  slice_self, slice_all, slice-append-drop, grown, drop-add_one,
}

module _ (index c : ℕ) (rest : Text) where
  endings-quote :
      (c == 39) ≡ true → endings_from index false (c ∷ rest) ≡ endings_from (index + 1) true rest
  unfolding endings_from
  endings-quote e = ground arith

  endings-dash :
      (c == 39) ≡ false
      → at_comment (c ∷ rest) ≡ true
      → endings_from index false (c ∷ rest) ≡ ([], false)
  unfolding endings_from
  endings-dash e d = ground arith

  endings-end :
      at_comment (c ∷ rest) ≡ false
      → (c == b';') ≡ true
      → endings_from index false (c ∷ rest)
        ≡ (index ∷ (endings_from (index + 1) false rest).0, (endings_from (index + 1) false rest).1)
  unfolding endings_from
  endings-end d e = ground arith

  endings-plain :
      (c == 39) ≡ false
      → at_comment (c ∷ rest) ≡ false
      → (c == b';') ≡ false
      → endings_from index false (c ∷ rest) ≡ endings_from (index + 1) false rest
  unfolding endings_from
  endings-plain q d e = ground arith

regroup :
    (text piece sl rest tail : Text) (c : ℕ)
    → piece ≡ text ++ sl
    → tail ≡ sl ++ c ∷ rest
    → (piece ++ c ∷ []) ++ (rest ++ 10 ∷ []) ≡ (text ++ tail) ++ 10 ∷ []
regroup text piece sl rest tail c p e = rw (p, e) (simp append_assoc)

-- One line cut at its endings leaves the scanner behind the line.
scan-cut_line :
    (rest line : Text) (start index : ℕ) (lit : Bool) (text piece : Text) (statements : List Text)
    (s : Text)
    → start ≤ index
    → drop index line ≡ rest
    → IsLine rest
    → piece ≡ text ++ slice line start index
    → let r = cut_line line start (endings_from index lit rest).0 text statements in
      scan (mode_of lit) piece statements (rest ++ 10 ∷ s)
      ≡ scan (mode_of (endings_from index lit rest).1) r.0 r.1 s
unfolding endings_from cut_line
scan-cut_line [] line start index lit text piece statements s h e l p =
    scan-newline lit piece statements s
    ∙ ap (λ t. scan (mode_of lit) (t ++ 10 ∷ []) statements s)
        (p ∙ ap (λ t. text ++ t) (slice_all line start index h e))
scan-cut_line (c ∷ rest) line start index true text piece statements s h e l p =
    scan-literal c piece statements (rest ++ 10 ∷ s)
    ∙ scan-cut_line rest line start (index + 1) (not (c == 39)) text (piece ++ c ∷ []) statements s
        (omega arith) (drop-add_one index line e) l.1 (grown line start index h text p e)
scan-cut_line (c ∷ rest) line start index false text piece statements s h e l p =
    elim (Bool-cases (c == 39)) [
      | inl quote ↦ rw (endings-quote index c rest quote) (
          scan-quote c piece statements (rest ++ 10 ∷ s) quote
          ∙ scan-cut_line rest line start (index + 1) true text (piece ++ c ∷ []) statements s
              (omega arith) (drop-add_one index line e) l.1 (grown line start index h text p e))
      | inr other ↦ elim (Bool-cases (at_comment (c ∷ rest))) [
        | inl dash ↦ rw (endings-dash index c rest other dash) (
            scan-dash c piece statements (rest ++ 10 ∷ s) (at_comment-line c rest s ∙ dash)
            ∙ scan-comment rest (piece ++ c ∷ []) statements s l.1
            ∙ ap (λ t. scan plain t statements s)
                (regroup text piece (slice line start index) rest (drop start line) c p (
                  sym (slice-append-drop line start index h)
                  ∙ ap (λ t. slice line start index ++ t) e)))
        | inr d ↦ elim (Bool-cases (c == b';')) [
          | inl semi ↦ rw (endings-end index c rest d semi) (
              scan-end c piece statements (rest ++ 10 ∷ s) semi
              ∙ ap (λ t. scan plain [] (finish t statements) (rest ++ 10 ∷ s)) p
              ∙ scan-cut_line rest line (index + 1) (index + 1) false [] []
                  (finish (text ++ slice line start index) statements) s (omega arith)
                  (drop-add_one index line e) l.1 (sym (slice_self line (index + 1))))
          | inr no_semi ↦ rw (endings-plain index c rest other d no_semi) (
              scan-plain c piece statements (rest ++ 10 ∷ s) other (at_comment-line c rest s ∙ d)
                no_semi
              ∙ scan-cut_line rest line start (index + 1) false text (piece ++ c ∷ []) statements s
                  (omega arith) (drop-add_one index line e) l.1 (grown line start index h text p e))
        ]
      ]
    ]

fragments_from-scan :
    (lines : List Text) (lit : Bool) (text : Text) (statements : List Text)
    → All IsLine lines
    → fragments_from text lit statements lines ≡ scan (mode_of lit) text statements (text_of lines)
unfolding fragments_from statement_endings
fragments_from-scan [] true text statements h = sym (scan-nil literal text statements)
fragments_from-scan [] false text statements h = sym (scan-nil plain text statements)
fragments_from-scan (line ∷ lines) lit text statements h =
    let cut = cut_line line 0 (endings_from 0 lit line).0 text statements in
    fragments_from-scan lines (endings_from 0 lit line).1 cut.0 cut.1 h.1
    ∙ sym (
        scan-cut_line line line 0 0 lit text text statements (text_of lines) (omega arith) refl h.0
          (sym (append-nil text) ∙ ap (λ t. text ++ t) (sym (slice_self line 0))))

-- On lines that hold no line feed, the line by line splitting at semicolon positions gives exactly
-- the statements that the scanner of the whole text gives: a piece ends at each semicolon that
-- stands in plain text, none ends inside a quoted literal (which may run over lines) or inside a
-- comment (which runs to the end of its line), and the pieces that are only comment are dropped.
pub split_fragments-eq-scan :
    (lines : List Text)
    → All IsLine lines
    → split_fragments lines ≡ scan plain [] [] (text_of lines)
unfolding split_fragments
split_fragments-eq-scan lines h = fragments_from-scan lines false [] [] h
