-- ===== src/Config/Placeholders/Pieces.antt =====
-- What the accepted values of the instance's env are: sandbox/config/loader.py
use goga_tool_pybuggy.Prelude.{
  ℕ, zero, suc, ◌+◌, String, ◌≡◌, refl, ap, sym, ◌∙◌, Bool, true, false, not, ◌&&◌, ◌||◌, Option,
  none, some, List, [], ◌∷◌, ◌++◌, ok, Done, raise_if, >>=-eq-ok, raise_if-eq-ok, ◌==◌, ==_iff,
  arith, All, inl, inr, Option-cases, Bool-cases, length, drop, is_empty,
}
use goga_tool_pybuggy.Prelude.Text.{Text, codes, starts_with, contains}
use goga_tool_pybuggy.Prelude.Dict.{Dict}
use goga_tool_pybuggy.Config.Placeholders.{
  PlaceholderError, body_of, match_at, Piece, plain, placeholder, pieces_from, tokens, outside,
  service_of, is_configured, check_token, tokens_loop, validate_env_value, validate_placeholders,
}

-- The text that pieces stand for.
abbrev pub spelled : List Piece → Text
spelled [] = []
spelled (plain c ∷ pieces) = c ∷ spelled pieces
spelled (placeholder body ∷ pieces) = codes "{{" ++ (body ++ (codes "}}" ++ spelled pieces))

both : (a b : Bool) → a && b ≡ true → (a ≡ true) × (b ≡ true)
both a b h = ground arith

neither : (a b : Bool) → a || b ≡ false → (a ≡ false) × (b ≡ false)
neither a b h = ground arith

not-eq-false : (b : Bool) → not b ≡ false → b ≡ true
not-eq-false b h = ground arith

starts_with-drop : (s t : Text) → starts_with s t ≡ true → s ≡ t ++ drop (length t) s
unfolding starts_with
starts_with-drop s [] h = refl
starts_with-drop [] (d ∷ t) h = absurd (ground arith)
starts_with-drop (c ∷ s) (d ∷ t) h =
    let (same, rest) = both (c == d) (starts_with s t) h in
    (λ i. (==_iff c d).0 same i ∷ starts_with-drop s t rest i)

drop-nil : (k : ℕ) → ◌≡◌ {A = Text} (drop k []) []
drop-nil zero = refl
drop-nil (suc k) = refl

drop-drop : (m n : ℕ) (s : Text) → drop m (drop n s) ≡ drop (n + m) s
drop-drop m zero s = ap (λ k. drop k s) {x = m} {y = zero + m} (omega arith)
drop-drop m (suc n) [] = drop-nil m ∙ sym (drop-nil (suc n + m))
drop-drop m (suc n) (c ∷ s) =
    drop-drop m n s ∙ ap (λ k. drop k (c ∷ s)) {x = suc (n + m)} {y = suc n + m} (omega arith)

body_of-drop : (s : Text) → s ≡ body_of s ++ drop (length (body_of s)) s
unfolding body_of
body_of-drop [] = refl
body_of-drop (c ∷ s) = ground (arith, body_of-drop s)

match_at-eq :
    (s body : Text)
    → match_at s ≡ some body
    → s ≡ codes "{{" ++ (body ++ (codes "}}" ++ drop (length body + 4) s))
unfolding match_at
match_at-eq s body h =
    let rest = drop 2 s in
    let inner = body_of rest in
    let opens = starts_with s (codes "{{") in
    let filled = not (is_empty inner) in
    let closes = starts_with (drop (length inner) rest) (codes "}}") in
    elim (Bool-cases (opens && (filled && closes))) [
      | inr no_match ↦ absurd (ground arith)
      | inl found ↦
          let (o, fc) = both opens (filled && closes) found in
          let (_, c) = both filled closes fc in
          let same : inner ≡ body = ground arith in
          starts_with-drop s (codes "{{") o
          ∙ ap (λ t. codes "{{" ++ t)
              (body_of-drop rest
                ∙ ap (λ t. inner ++ t)
                    (starts_with-drop (drop (length inner) rest) (codes "}}") c
                      ∙ ap (λ t. codes "}}" ++ t)
                          (drop-drop 2 (length inner) rest ∙ drop-drop (length inner + 2) 2 s)))
          ∙ ap (λ b. codes "{{" ++ (b ++ (codes "}}" ++ drop (2 + (length b + 2)) s))) same
          ∙ ap (λ k. codes "{{" ++ (body ++ (codes "}}" ++ drop k s))) {x = 2 + (length body + 2)}
              {y = length body + 4} (omega arith)
    ]

pieces_from-plain :
    (c : ℕ) (s : Text) → match_at (c ∷ s) ≡ none → pieces_from 0 (c ∷ s) ≡ plain c ∷ pieces_from 0 s
unfolding pieces_from
pieces_from-plain c s h = ap at_match h
  where
    at_match : Option Text → List Piece
    at_match m = elim m [
      | none ↦ plain c ∷ pieces_from 0 s
      | some body ↦ placeholder body ∷ pieces_from (length body + 3) s
    ]

pieces_from-placeholder :
    (c : ℕ) (s body : Text)
    → match_at (c ∷ s) ≡ some body
    → pieces_from 0 (c ∷ s) ≡ placeholder body ∷ pieces_from (length body + 3) s
unfolding pieces_from
pieces_from-placeholder c s body h = ap at_match h
  where
    at_match : Option Text → List Piece
    at_match m = elim m [
      | none ↦ plain c ∷ pieces_from 0 s
      | some b ↦ placeholder b ∷ pieces_from (length b + 3) s
    ]

spelled-pieces_from : (skip : ℕ) (s : Text) → spelled (pieces_from skip s) ≡ drop skip s
unfolding pieces_from
spelled-pieces_from zero [] = refl
spelled-pieces_from (suc skip) [] = refl
spelled-pieces_from (suc skip) (c ∷ s) = spelled-pieces_from skip s
spelled-pieces_from zero (c ∷ s) = elim (Option-cases (match_at (c ∷ s))) [
  | inl no_match ↦
      ap spelled (pieces_from-plain c s no_match) ∙ ap (λ t. c ∷ t) (spelled-pieces_from 0 s)
  | inr (body, found) ↦
      ap spelled (pieces_from-placeholder c s body found)
      ∙ ap (λ t. codes "{{" ++ (body ++ (codes "}}" ++ t)))
          (spelled-pieces_from (length body + 3) s
            ∙ ap (λ k. drop k (c ∷ s)) {x = suc (length body + 3)} {y = length body + 4}
                (omega arith))
      ∙ sym (match_at-eq (c ∷ s) body found)
]

-- A placeholder that stands for a configured service: its token is the name, a dot, and `host` or
-- `port`.
abbrev pub Resolves : List String → Text → Type 0
Resolves configured token =
    (name : Text) × (service_of token ≡ some name) × (is_configured configured name ≡ true)

abbrev pub Accepted : List String → Text → Type 0
Accepted configured value =
    (pieces : List Piece) × (spelled pieces ≡ value)
    × All (Resolves configured) (tokens pieces)
    × (contains (codes "{{") (outside pieces) ≡ false)
    × (contains (codes "{%") value ≡ false)
    × (contains (codes "{#") value ≡ false)

module _ (configured : List String) where
  check_token-Resolves :
      (key : String) (token : Text) {u : Done}
      → check_token configured key token ≡ ok u
      → Resolves configured token
  unfolding check_token
  check_token-Resolves key token e = elim (Option-cases (service_of token)) [
    | inl missing ↦ absurd (ground arith)
    | inr (name, s) ↦
        let bad = not (is_configured configured name) in
        (
          name,
          s,
          not-eq-false (is_configured configured name)
              (raise_if-eq-ok bad (PlaceholderError.unknown_service key name) (ground arith)),
        )
  ]

  tokens_loop-Resolves :
      (key : String) (ts : List Text) {u : Done}
      → tokens_loop configured key ts ≡ ok u
      → All (Resolves configured) ts
  unfolding tokens_loop
  tokens_loop-Resolves key [] h = tt
  tokens_loop-Resolves key (t ∷ ts) h =
      let (_, e, h') = >>=-eq-ok (check_token configured key t) _ h in
      (check_token-Resolves key t e, tokens_loop-Resolves key ts h')

  validate_env_value-Accepted :
      (key : String) (value : Text) {u : Done}
      → validate_env_value configured key value ≡ ok u
      → Accepted configured value
  unfolding validate_env_value
  validate_env_value-Accepted key value h =
      let pieces = pieces_from 0 value in
      let syntax = contains (codes "{%") value || contains (codes "{#") value in
      let unclosed = contains (codes "{{") (outside pieces) in
      let (_, s, h₁) = >>=-eq-ok (raise_if syntax (PlaceholderError.template_syntax key)) _ h in
      let (_, o, h₂) = >>=-eq-ok (raise_if unclosed (PlaceholderError.unterminated key)) _ h₁ in
      let (percent, hash) =
        neither (contains (codes "{%") value) (contains (codes "{#") value)
          (raise_if-eq-ok syntax _ s) in
      (
        pieces,
        spelled-pieces_from 0 value,
        tokens_loop-Resolves key (tokens pieces) h₂,
        raise_if-eq-ok unclosed _ o,
        percent,
        hash,
      )

  -- If the loader accepts the env of the instance, every value is a sequence of plain characters and
  -- `{{ }}` placeholders, where every placeholder names a configured service and its host or port,
  -- the plain characters hold no `{{`, and the value has no statement and no comment block.
  pub validate_placeholders-Accepted :
      (env : Dict String)
      → validate_placeholders configured env ≡ ok tt
      → All (λ entry. Accepted configured (codes entry.1)) env
  unfolding validate_placeholders
  validate_placeholders-Accepted [] h = tt
  validate_placeholders-Accepted ((key, value) ∷ env) h =
      let (_, e, h') = >>=-eq-ok (validate_env_value configured key (codes value)) _ h in
      (validate_env_value-Accepted key (codes value) e, validate_placeholders-Accepted env h')
