-- ===== src/Sandbox/Refs/Address.antt =====
-- The addresses that `parse_ref_address` of sandbox/engines/refs.py reads.
use goga_tool_pybuggy.Prelude.{
  ℕ, ◌≡◌, ◌≢◌, refl, ap, subst, ==_iff, sym, ◌∙◌, Bool, true, false, not, ◌||◌, some, List, [], ◌∷◌,
  ◌++◌, ◌==◌, arith, all, any, All, inl, inr, Bool-cases, is_empty,
}
use goga_tool_pybuggy.Prelude.Text.{Text}
use goga_tool_pybuggy.Sandbox.Refs.{
  prepend, split_dots, is_digit, number_from, address_of, parse_ref_address,
}

abbrev join_dots : List Text → Text
join_dots [] = []
join_dots (part ∷ []) = part
join_dots (part ∷ next ∷ parts) = part ++ 46 ∷ join_dots (next ∷ parts)

abbrev pub has_dot : Text → Bool
has_dot s = any (λ c. c == 46) s

join_dots-prepend : (c : ℕ) (parts : List Text) → join_dots (prepend c parts) ≡ c ∷ join_dots parts
join_dots-prepend c [] = refl
join_dots-prepend c (part ∷ []) = refl
join_dots-prepend c (part ∷ next ∷ parts) = refl

split_dots-cons : (s : Text) → (part : Text) × (parts : List Text) × (split_dots s ≡ part ∷ parts)
unfolding split_dots
split_dots-cons [] = ([], [], refl)
split_dots-cons (c ∷ s) =
    let (part, parts, e) = split_dots-cons s in
    elim (Bool-cases (c == 46)) [
      | inl dot ↦ ([], part ∷ parts, ground arith)
      | inr other ↦ (c ∷ part, parts, ground arith)
    ]

split_dots-dot : (c : ℕ) (s : Text) → (c == 46) ≡ true → split_dots (c ∷ s) ≡ [] ∷ split_dots s
unfolding split_dots
split_dots-dot c s h = ground arith

split_dots-other :
    (c : ℕ) (s : Text) → (c == 46) ≡ false → split_dots (c ∷ s) ≡ prepend c (split_dots s)
unfolding split_dots
split_dots-other c s h = ground arith

join_dots-nil : (parts : List Text) → parts ≢ [] → join_dots ([] ∷ parts) ≡ 46 ∷ join_dots parts
join_dots-nil [] h = absurd (h refl)
join_dots-nil (part ∷ parts) h = refl

join_dots-split_dots : (s : Text) → join_dots (split_dots s) ≡ s
unfolding split_dots
join_dots-split_dots [] = refl
join_dots-split_dots (c ∷ s) = elim (Bool-cases (c == 46)) [
  | inl dot ↦
      let (part, parts, e) = split_dots-cons s in
      ap join_dots (split_dots-dot c s dot)
      ∙ join_dots-nil (split_dots s) (λ z. cc)
      ∙ ap (λ t. 46 ∷ t) (join_dots-split_dots s)
      ∙ ap (λ d. d ∷ s) (sym ((==_iff c 46).0 dot))
  | inr other ↦
      ap join_dots (split_dots-other c s other)
      ∙ join_dots-prepend c (split_dots s)
      ∙ ap (λ t. c ∷ t) (join_dots-split_dots s)
]

All-prepend :
    (c : ℕ) (parts : List Text)
    → (c == 46) ≡ false
    → All (λ part. has_dot part ≡ false) parts
    → All (λ part. has_dot part ≡ false) (prepend c parts)
All-prepend c [] h all = (ground arith, tt)
All-prepend c (part ∷ parts) h all = (ground arith, all.1)

no_dots : (s : Text) → All (λ part. has_dot part ≡ false) (split_dots s)
unfolding split_dots
no_dots [] = (refl, tt)
no_dots (c ∷ s) = elim (Bool-cases (c == 46)) [
  | inl dot ↦
      subst (All (λ part. has_dot part ≡ false)) (sym (split_dots-dot c s dot)) (refl, no_dots s)
  | inr other ↦
      subst (All (λ part. has_dot part ≡ false)) (sym (split_dots-other c s other))
        (All-prepend c (split_dots s) other (no_dots s))
]

-- What the pattern asks of the three parts.
abbrev pub Parts : Text → Text → Text → ℕ → Type 0
Parts table digits column index =
    (digits ≢ [])
    × (all is_digit digits ≡ true)
    × (index ≡ number_from 0 digits)
    × (table ≢ [])
    × (column ≢ [])

nonempty : (s : Text) → is_empty s ≡ false → s ≢ []
nonempty [] h = absurd (ground arith)
nonempty (c ∷ s) h = λ e. cc

four :
    (p q r s : Bool)
    → p || q || not r || s ≡ false
    → (p ≡ false) × (q ≡ false) × (r ≡ true) × (s ≡ false)
four p q r s h = ground arith

address_of-Parts :
    (parts : List Text) (table column : Text) (index : ℕ)
    → address_of parts ≡ some (table, index, column)
    → (digits : Text) × (parts ≡ table ∷ digits ∷ column ∷ []) × Parts table digits column index
unfolding address_of
address_of-Parts [] table column index h = absurd (ground arith)
address_of-Parts (a ∷ []) table column index h = absurd (ground arith)
address_of-Parts (a ∷ b ∷ []) table column index h = absurd (ground arith)
address_of-Parts (a ∷ b ∷ c ∷ d ∷ parts) table column index h = absurd (ground arith)
address_of-Parts (a ∷ b ∷ c ∷ []) table column index h =
    let bad = is_empty a || is_empty b || not (all is_digit b) || is_empty c in
    elim (Bool-cases bad) [
      | inl refused ↦ absurd (ground arith)
      | inr passed ↦
          let (na, nb, digits, nc) =
            four (is_empty a) (is_empty b) (all is_digit b) (is_empty c) passed in
          let same : ◌≡◌ {A = Text × ℕ × Text} (a, number_from 0 b, c) (table, index, column) =
            ground arith in
          let ta : a ≡ table = ap (λ t. t.0) same in
          let tc : c ≡ column = ap (λ t. t.2) same in
          (
            b,
            (λ i. ta i ∷ b ∷ tc i ∷ []),
            (
              nonempty b nb,
              digits,
              sym (ap (λ t. t.1) same),
              subst (λ t. t ≢ []) ta (nonempty a na),
              subst (λ t. t ≢ []) tc (nonempty c nc),
            ),
          )
    ]

-- If an address parses, it is the table, a dot, decimal digits, a dot and the column, where the
-- table and the column are not empty and hold no dot, and the index is the number of the digits.
pub parse_ref_address-Parts :
    (s table column : Text) (index : ℕ)
    → parse_ref_address s ≡ some (table, index, column)
    → (digits : Text) × (s ≡ table ++ 46 ∷ (digits ++ 46 ∷ column))
      × Parts table digits column index
      × (has_dot table ≡ false)
      × (has_dot column ≡ false)
unfolding parse_ref_address
parse_ref_address-Parts s table column index h =
    let (digits, e, parts) = address_of-Parts (split_dots s) table column index h in
    let dots = subst (All (λ part. has_dot part ≡ false)) e (no_dots s) in
    (digits, sym (join_dots-split_dots s) ∙ ap join_dots e, parts, dots.0, dots.1.1.0)
