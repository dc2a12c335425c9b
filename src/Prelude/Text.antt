-- ===== src/Prelude/Text.antt =====
-- Python's `str` as the list of its code points, with the methods that the program calls.
use Prim.Native.Nat.{ℕ}
use Prim.Native.Char.{code}
use Prim.Native.String.{String}
use mathlib.Core.Path.{◌≡◌, refl}
use mathlib.Core.Logic.{◌↔◌}
use mathlib.Core.Bool.{Bool, true, false, ◌&&◌, ◌||◌}
use mathlib.Core.List.{List, [], ◌∷◌, ◌++◌}
use native.Mathlib.Omega.{arith}
use goga_tool_pybuggy.Prelude.Tests.{◌==◌, leb, if◌then◌else◌}
use goga_tool_pybuggy.Prelude.Lists.{is_empty}

abbrev pub Text : Type 0
Text = List ℕ

-- The code points of a literal.
abbrev pub codes : String → Text
codes String.[] = []
codes (String.◌∷◌ c s) = code c ∷ codes s

-- `s == t`
unfoldable pub eq_text : Text → Text → Bool
eq_text [] [] = true
eq_text [] (d ∷ t) = false
eq_text (c ∷ s) [] = false
eq_text (c ∷ s) (d ∷ t) = c == d && eq_text s t

-- `s.startswith(t)`, `s.endswith(t)`, `t in s`
unfoldable pub starts_with : Text → Text → Bool
starts_with s [] = true
starts_with [] (d ∷ t) = false
starts_with (c ∷ s) (d ∷ t) = c == d && starts_with s t

unfoldable pub ends_with : Text → Text → Bool
unfolding eq_text
ends_with [] t = is_empty t
ends_with (c ∷ s) t = eq_text (c ∷ s) t || ends_with s t

unfoldable pub contains : Text → Text → Bool
unfolding starts_with
contains t [] = is_empty t
contains t (c ∷ s) = starts_with (c ∷ s) t || contains t s

-- `c.isspace()`, which is also the class `\s`
unfoldable pub is_space : ℕ → Bool
is_space c =
    leb 9 c && leb c 13
    || leb 28 c && leb c 32
    || c == 133
    || c == 160
    || c == 5760
    || leb 8192 c && leb c 8202
    || c == 8232
    || c == 8233
    || c == 8239
    || c == 8287
    || c == 12288

-- `s.lstrip()`, `s.rstrip()`, `s.strip()`
unfoldable pub lstrip : Text → Text
unfolding is_space
lstrip [] = []
lstrip (c ∷ s) = if is_space c then lstrip s else c ∷ s

unfoldable pub rstrip : Text → Text
unfolding is_space
rstrip [] = []
rstrip (c ∷ s) = let rest = rstrip s in if is_space c && is_empty rest then [] else c ∷ rest

unfoldable pub strip : Text → Text
unfolding lstrip rstrip
strip s = rstrip (lstrip s)

-- The line boundaries of `str.splitlines`.
unfoldable pub is_line_break : ℕ → Bool
is_line_break c = leb 10 c && leb c 13 || leb 28 c && leb c 30 || c == 133 || c == 8232 || c == 8233

-- `line` holds the line read so far; a line feed after a carriage return ends no second line.
unfoldable pub splitlines_from : Bool → Text → Text → List Text
unfolding is_line_break
splitlines_from after_cr line [] = if is_empty line then [] else line ∷ []
splitlines_from after_cr line (c ∷ s) = elim (after_cr && c == 10) [
  | true ↦ splitlines_from false line s
  | false ↦ elim (is_line_break c) [
    | true ↦ line ∷ splitlines_from (c == 13) [] s
    | false ↦ splitlines_from false (line ++ c ∷ []) s
  ]
]

-- `s.splitlines()`
unfoldable pub splitlines : Text → List Text
unfolding splitlines_from
splitlines s = splitlines_from false [] s

-- `"\n".join(lines)`
unfoldable pub join_lines : List Text → Text
join_lines [] = []
join_lines (l ∷ []) = l
join_lines (l ∷ m ∷ ls) = l ++ 10 ∷ join_lines (m ∷ ls)

pub eq_text_iff : (s t : Text) → (eq_text s t ≡ true) ↔ (s ≡ t)
unfolding eq_text
eq_text_iff [] [] = (λ _. refl, λ _. refl)
eq_text_iff [] (d ∷ t) = (λ h. cc, λ h. cc)
eq_text_iff (c ∷ s) [] = (λ h. cc, λ h. cc)
eq_text_iff (c ∷ s) (d ∷ t) = ground (arith, eq_text_iff s t)

pub eq_text_refl : (s : Text) → eq_text s s ≡ true
eq_text_refl s = (eq_text_iff s s).1 refl

strip_runs : strip (codes "  a b \t") ≡ codes "a b"
unfolding strip
strip_runs = refl

splitlines_runs : splitlines (codes "a\r\n\nb\rc\n") ≡ codes "a" ∷ [] ∷ codes "b" ∷ codes "c" ∷ []
unfolding splitlines
splitlines_runs = refl
