-- ===== src/Migrations/Filename.antt =====
-- FILENAME_GRAMMAR and version_prefix of sandbox/migrations/goose.py
use goga_tool_pybuggy.Prelude.{
  ℕ, ◌+◌, ◌-◌, ◌*◌, ◌≡◌, refl, Bool, ◌&&◌, not, Option, none, some, List, [], ◌∷◌, ◌==◌, leb,
  if◌then◌else◌, is_empty, any, length,
}
use goga_tool_pybuggy.Prelude.Text.{Text, codes, ends_with}

-- The zeros of Unicode's runs of ten decimal digits, which `\d` matches and `int` reads.
abbrev decimal_zeros : List ℕ
decimal_zeros =
    48 ∷ 1632 ∷ 1776 ∷ 1984 ∷ 2406 ∷ 2534 ∷ 2662 ∷ 2790 ∷ 2918 ∷ 3046 ∷ 3174 ∷ 3302 ∷ 3430 ∷ 3558
    ∷ 3664 ∷ 3792 ∷ 3872 ∷ 4160 ∷ 4240 ∷ 6112 ∷ 6160 ∷ 6470 ∷ 6608 ∷ 6784 ∷ 6800 ∷ 6992 ∷ 7088
    ∷ 7232 ∷ 7248 ∷ 42528 ∷ 43216 ∷ 43264 ∷ 43472 ∷ 43504 ∷ 43600 ∷ 44016 ∷ 65296 ∷ 66720 ∷ 68912
    ∷ 69734 ∷ 69872 ∷ 69942 ∷ 70096 ∷ 70384 ∷ 70736 ∷ 70864 ∷ 71248 ∷ 71360 ∷ 71472 ∷ 71904 ∷ 72016
    ∷ 72784 ∷ 73040 ∷ 73120 ∷ 92768 ∷ 92864 ∷ 93008 ∷ 120782 ∷ 120792 ∷ 120802 ∷ 120812 ∷ 120822
    ∷ 123200 ∷ 123632 ∷ 125264 ∷ 130032 ∷ []

digit_from : List ℕ → ℕ → Option ℕ
digit_from [] c = none
digit_from (z ∷ zs) c = if leb z c && leb c (z + 9) then some (c - z) else digit_from zs c

unfoldable pub digit_value : ℕ → Option ℕ
unfolding digit_from
digit_value c = digit_from decimal_zeros c

-- The maximal run of digits, read as a number, and the text behind it: `none` for an empty run.
read_digits : Option ℕ → Text → Option (ℕ × Text)
read_digits acc [] = elim acc [ none ↦ none | some n ↦ some (n, []) ]
read_digits acc (c ∷ s) = elim (digit_value c) [
  | none ↦ elim acc [ none ↦ none | some n ↦ some (n, c ∷ s) ]
  | some d ↦ read_digits (some (elim acc [ none ↦ d | some n ↦ n * 10 + d ])) s
]

-- `$` matches before a final line feed too.
drop_final_newline : Text → Text
drop_final_newline [] = []
drop_final_newline (c ∷ s) = if is_empty s && c == 10 then [] else c ∷ drop_final_newline s

-- `(.+)\.sql$` matches all of the text: `.` is any code point but the line feed.
is_description : Text → Bool
unfolding drop_final_newline
is_description s =
    let name = drop_final_newline s in
    ends_with name (codes ".sql") && leb 5 (length name) && not (any (λ c. c == 10) name)

described : ℕ × Text → Option ℕ
unfolding is_description
described (n, []) = none
described (n, c ∷ s) = if c == b'_' && is_description s then some n else none

-- `^(\d+)_(.+)\.sql$`
unfoldable pub version_prefix : Text → Option ℕ
unfolding digit_value read_digits described ends_with
version_prefix filename = elim (read_digits none filename) [ none ↦ none | some r ↦ described r ]

version_prefix_runs : version_prefix (codes "00012_add_users.sql") ≡ some 12
unfolding version_prefix
version_prefix_runs = refl

version_prefix_rejects : version_prefix (codes "12.sql") ≡ none
unfolding version_prefix
version_prefix_rejects = refl
