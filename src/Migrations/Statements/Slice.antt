-- ===== src/Migrations/Statements/Slice.antt =====
-- Slices of one line, for the proof about `_split_fragments` of sandbox/migrations/goose.py.
use native.Mathlib.Nat.{zero-add, add-zero, suc-add}
use goga_tool_pybuggy.Prelude.{
  ℕ, zero, suc, ◌+◌, ◌-◌, ◌≤◌, ◌≡◌, refl, ap, sym, ◌∙◌, [], ◌∷◌, ◌++◌, append_assoc, arith, take,
  drop,
}
use goga_tool_pybuggy.Prelude.Text.{Text}
use goga_tool_pybuggy.Migrations.Statements.{slice}

take-suc :
    (n : ℕ) (xs : Text) {c : ℕ} {s : Text}
    → drop n xs ≡ c ∷ s
    → take (suc n) xs ≡ take n xs ++ c ∷ []
take-suc zero [] h = cc
take-suc zero (x ∷ xs) h = cc
take-suc (suc n) [] h = cc
take-suc (suc n) (x ∷ xs) h = ap (λ t. x ∷ t) (take-suc n xs h)

drop-suc : (n : ℕ) (xs : Text) {c : ℕ} {s : Text} → drop n xs ≡ c ∷ s → drop (suc n) xs ≡ s
drop-suc zero [] h = cc
drop-suc zero (x ∷ xs) h = cc
drop-suc (suc n) [] h = cc
drop-suc (suc n) (x ∷ xs) h = drop-suc n xs h

drop-drop : (m n : ℕ) (xs : Text) → drop m (drop n xs) ≡ drop (n + m) xs
drop-drop m zero xs = rw (zero-add m)
drop-drop zero (suc n) [] = rw (add-zero (suc n))
drop-drop (suc m) (suc n) [] = rw (suc-add n (suc m))
drop-drop m (suc n) (x ∷ xs) = rw (suc-add n m) (drop-drop m n xs)

take_all : (n : ℕ) (xs : Text) → drop n xs ≡ [] → take n xs ≡ xs
take_all zero xs h = sym h
take_all (suc n) [] h = refl
take_all (suc n) (x ∷ xs) h = ap (λ t. x ∷ t) (take_all n xs h)

take-append-drop : (n : ℕ) (xs : Text) → take n xs ++ drop n xs ≡ xs
take-append-drop zero xs = refl
take-append-drop (suc n) [] = refl
take-append-drop (suc n) (x ∷ xs) = ap (λ t. x ∷ t) (take-append-drop n xs)

module _ (line : Text) (start index : ℕ) (h : start ≤ index) where
  drop-slice : drop (index - start) (drop start line) ≡ drop index line
  drop-slice = drop-drop (index - start) start line ∙ ap (λ n. drop n line) (omega arith)

  pub slice_all : drop index line ≡ [] → slice line start index ≡ drop start line
  slice_all e = take_all (index - start) (drop start line) (drop-slice ∙ e)

  slice-suc :
      {c : ℕ} {s : Text}
      → drop index line ≡ c ∷ s
      → slice line start (index + 1) ≡ slice line start index ++ c ∷ []
  slice-suc e =
      ap (λ n. take n (drop start line)) {y = suc (index - start)} (omega arith)
      ∙ take-suc (index - start) (drop start line) (drop-slice ∙ e)

  pub slice-append-drop : slice line start index ++ drop index line ≡ drop start line
  slice-append-drop =
      ap (λ t. slice line start index ++ t) (sym drop-slice)
      ∙ take-append-drop (index - start) (drop start line)

pub grown :
    (line : Text) (start index : ℕ) (h : start ≤ index) (text : Text) {piece : Text} {c : ℕ}
    {s : Text}
    → piece ≡ text ++ slice line start index
    → drop index line ≡ c ∷ s
    → piece ++ c ∷ [] ≡ text ++ slice line start (index + 1)
grown line start index h text {c} p e =
    ap (λ t. t ++ c ∷ []) p
    ∙ append_assoc text (slice line start index) (c ∷ [])
    ∙ ap (λ t. text ++ t) (sym (slice-suc line start index h e))

pub drop-add_one : (n : ℕ) (xs : Text) {c : ℕ} {s : Text} → drop n xs ≡ c ∷ s → drop (n + 1) xs ≡ s
drop-add_one n xs h = ap (λ m. drop m xs) {y = suc n} (omega arith) ∙ drop-suc n xs h

pub slice_self : (line : Text) (n : ℕ) → slice line n n ≡ []
slice_self line n = ap (λ m. take m (drop n line)) {y = 0} (omega arith)
