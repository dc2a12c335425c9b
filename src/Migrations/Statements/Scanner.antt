-- ===== src/Migrations/Statements/Scanner.antt =====
-- `_split_fragments` of sandbox/migrations/goose.py against a scanner of the whole text that knows
-- no lines and no indexes: it reads one code point at a time in one of three modes.
use goga_tool_pybuggy.Prelude.{
  ℕ, ◌≡◌, ◌≢◌, refl, Bool, true, false, List, [], ◌∷◌, ◌++◌, append_assoc, arith, ◌==◌,
  if◌then◌else◌, All, not,
}
use goga_tool_pybuggy.Prelude.Text.{Text}
use goga_tool_pybuggy.Migrations.Statements.{at_comment, finish}

pub data Mode : Type 0 where
  plain literal comment : Mode

abbrev pub mode_of : Bool → Mode
mode_of true = literal
mode_of false = plain

-- The mode behind one code point; a comment runs to the end of its line.
abbrev pub next_mode : Mode → ℕ → Text → Mode
next_mode comment c s = if c == 10 then plain else comment
next_mode literal c s = if c == 39 then plain else literal
next_mode plain c s = if c == 39 then literal else if at_comment (c ∷ s) then comment else plain

-- A semicolon ends a piece in plain text only.
abbrev pub ends_piece : Mode → ℕ → Bool
ends_piece plain c = c == b';'
ends_piece _ c = false

pub scan : Mode → Text → List Text → Text → List Text
scan mode piece statements [] = finish piece statements
scan mode piece statements (c ∷ s) =
    scan (next_mode mode c s) (if ends_piece mode c then [] else piece ++ c ∷ [])
      (if ends_piece mode c then finish piece statements else statements) s

pub scan-nil :
    (m : Mode) (piece : Text) (statements : List Text)
    → scan m piece statements [] ≡ finish piece statements
unfolding scan
scan-nil m piece statements = refl

-- The text of the lines, each with its line feed.
abbrev pub text_of : List Text → Text
text_of [] = []
text_of (line ∷ lines) = line ++ 10 ∷ text_of lines

abbrev pub IsLine : Text → Type 0
IsLine = All (λ c. c ≢ 10)

pub at_comment-newline : (s : Text) → at_comment (10 ∷ s) ≡ false
at_comment-newline [] = refl
at_comment-newline (c ∷ s) = refl

-- A comment opens on a dash, which is neither a quote nor a semicolon.
pub at_comment-dash : (c : ℕ) (s : Text) → at_comment (c ∷ s) ≡ true → c ≡ b'-'
at_comment-dash c [] h = cc
at_comment-dash c (d ∷ s) h = ground arith

-- The lookahead does not reach over the end of a line.
pub at_comment-line :
    (c : ℕ) (line s : Text) → at_comment (c ∷ line ++ 10 ∷ s) ≡ at_comment (c ∷ line)
at_comment-line c [] s = ground arith
at_comment-line c (d ∷ line) s = refl

pub scan-comment :
    (line piece : Text) (statements : List Text) (s : Text)
    → IsLine line
    → scan comment piece statements (line ++ 10 ∷ s)
      ≡ scan plain (piece ++ (line ++ 10 ∷ [])) statements s
unfolding scan
scan-comment [] piece statements s h = refl
scan-comment (c ∷ line) piece statements s h = ground (
  arith,
  scan-comment line (piece ++ c ∷ []) statements s h.1,
  append_assoc piece (c ∷ []) (line ++ 10 ∷ []),
)

-- The step of one code point that is no line feed: what the scanner does with it.
pub scan-newline :
    (lit : Bool) (piece : Text) (statements : List Text) (s : Text)
    → scan (mode_of lit) piece statements (10 ∷ s)
      ≡ scan (mode_of lit) (piece ++ 10 ∷ []) statements s
unfolding scan
scan-newline true piece statements s = refl
scan-newline false piece statements s = rw (at_comment-newline s)

module _ (c : ℕ) (piece : Text) (statements : List Text) (t : Text) where
  pub scan-literal :
      scan literal piece statements (c ∷ t)
      ≡ scan (mode_of (not (c == 39))) (piece ++ c ∷ []) statements t
  unfolding scan
  scan-literal = ground arith

  pub scan-quote :
      (c == 39) ≡ true
      → scan plain piece statements (c ∷ t) ≡ scan literal (piece ++ c ∷ []) statements t
  unfolding scan
  scan-quote e = ground arith

  pub scan-dash :
      at_comment (c ∷ t) ≡ true
      → scan plain piece statements (c ∷ t) ≡ scan comment (piece ++ c ∷ []) statements t
  unfolding scan
  scan-dash e = ground (arith, at_comment-dash c t e)

  pub scan-end :
      (c == b';') ≡ true
      → scan plain piece statements (c ∷ t) ≡ scan plain [] (finish piece statements) t
  unfolding scan
  scan-end e = ground (arith, at_comment-dash c t)

  pub scan-plain :
      (c == 39) ≡ false
      → at_comment (c ∷ t) ≡ false
      → (c == b';') ≡ false
      → scan plain piece statements (c ∷ t) ≡ scan plain (piece ++ c ∷ []) statements t
  unfolding scan
  scan-plain q d e = ground arith
