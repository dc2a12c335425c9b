-- ===== src/Matchcrest/Responses/Headers.antt =====
-- What the matchers of the headers in matchcrest/matchers/response.py decide.
use goga_tool_pybuggy.Prelude.{
  Bool, true, false, not, ◌&&◌, ◌||◌, none, some, List, [], ◌∷◌, ◌++◌, ◌≡◌, refl, sym, ap, subst,
  ◌∙◌, ok, arith, inl, inr, Bool-cases, Option-cases, if◌then◌else◌, is_empty, All, ◌≢◌, ◌⊎◌,
}
use goga_tool_pybuggy.Prelude.Text.{Text, eq_text, eq_text_iff, starts_with, ends_with, contains}
use goga_tool_pybuggy.Matchcrest.Verdict.{MatchResult, passed, failed, is_passed, match_result}
use goga_tool_pybuggy.Matchcrest.Responses.{
  Complaint, not_equal, no_header, complaint_if, Outcome, Header, Matching, first_header,
  value_errors, judge_value, assert_header_value,
}

abbrev pub implies : Bool → Bool → Bool
implies true b = b
implies false b = true

-- A text as the options want it: each chosen relation holds and, with none chosen, the texts agree.
abbrev pub related : Matching → Text → Text → Bool
related m expected text =
    implies m.contains (contains expected text)
    && implies m.startswith (starts_with text expected)
    && implies m.endswith (ends_with text expected)

abbrev pub suits : Matching → Text → Text → Bool
suits m expected text =
    related m expected text && ((m.contains || m.startswith || m.endswith) || eq_text text expected)

-- An outcome that is a result, and passes or not.
abbrev pub Says : Bool → Outcome → Type 0
Says b outcome = (r : MatchResult Complaint) × (outcome ≡ ok r) × (is_passed r ≡ b)

passes : (outcome : Outcome) (b : Bool) → outcome ≡ ok passed → b ≡ true → Says b outcome
passes outcome b e h = (passed, e, sym h)

fails :
    (outcome : Outcome) (b : Bool) (c : Complaint) (cs : List Complaint) (key : Text)
    → outcome ≡ match_result false (c ∷ cs) key
    → b ≡ false
    → Says b outcome
unfolding match_result
fails outcome b c cs key e h = (failed (c ∷ cs) key, e, sym h)

empty_cons :
    {A : Type 0} (xs : List A) → is_empty xs ≡ false → (x : A) × (ys : List A) × (xs ≡ x ∷ ys)
empty_cons [] h = absurd (ground arith)
empty_cons (x ∷ xs) h = (x, xs, refl)

is_empty-append : {A : Type 0} (xs ys : List A) → is_empty (xs ++ ys) ≡ (is_empty xs && is_empty ys)
is_empty-append [] ys = refl
is_empty-append (x ∷ xs) ys = refl

and_assoc : (a b c : Bool) → ((a && b) && c) ≡ (a && (b && c))
and_assoc true b c = refl
and_assoc false b c = refl

-- The last branches of the judgement, for a value without errors.
rest_Says :
    (chosen same : Bool) (outcome : Outcome)
    → outcome ≡ (
        if chosen
        then match_result true [] []
        else if not same
        then match_result false (not_equal ∷ []) []
        else match_result true [] [])
    → Says (chosen || same) outcome
unfolding match_result
rest_Says true same outcome e = (passed, e, refl)
rest_Says false true outcome e = (passed, e, refl)
rest_Says false false outcome e = (failed (not_equal ∷ []) [], e, refl)

module _ (lower : Text → Text) where
  is_empty-complaint_if :
      (chosen good : Bool) (c : Complaint)
      → is_empty (complaint_if lower (chosen && not good) c) ≡ implies chosen good
  is_empty-complaint_if true true c = refl
  is_empty-complaint_if true false c = refl
  is_empty-complaint_if false good c = refl

  is_empty-value_errors :
      (m : Matching) (expected value : Text)
      → is_empty (value_errors lower m expected value) ≡ related m expected value
  unfolding value_errors
  is_empty-value_errors m expected value = simp (is_empty-append, is_empty-complaint_if, and_assoc)

  judge_value-Says :
      (m : Matching) (expected value : Text)
      → Says (suits m expected value) (judge_value lower m expected value)
  unfolding judge_value value_errors match_result
  judge_value-Says m expected value =
      let chosen = m.contains || m.startswith || m.endswith in
      elim (Bool-cases (is_empty (value_errors lower m expected value))) [
        | inr e ↦
            let (c, cs, shape) = empty_cons (value_errors lower m expected value) e in
            fails _ _ c cs [] (rw (e, judge_value) (ap (λ z. match_result false z []) shape)) (
              ap (λ z. z && (chosen || eq_text value expected))
                (sym (is_empty-value_errors m expected value) ∙ e))
        | inl e ↦
            subst (λ z. Says z (judge_value lower m expected value))
              (sym (
                ap (λ z. z && (chosen || eq_text value expected))
                  (sym (is_empty-value_errors m expected value) ∙ e)))
              (rest_Says chosen (eq_text value expected) _ (rw (e, judge_value) refl))
      ]

  -- A header whose name in lower case is the key, letter for letter, behind headers of other names.
  abbrev pub IsFirst : Text → List Header → Header → Type 0
  IsFirst key headers h =
      (before : List Header) × (after : List Header) × (headers ≡ before ++ h ∷ after)
      × (lower h.0 ≡ key)
      × All (λ e. lower e.0 ≢ key) before

  first_header-none :
      (key : Text) (headers : List Header)
      → first_header lower key headers ≡ none
      → All (λ e. lower e.0 ≢ key) headers
  unfolding first_header
  first_header-none key [] h = tt
  first_header-none key (x ∷ headers) h = elim (Bool-cases (eq_text (lower x.0) key)) [
    | inl e ↦ absurd (ground arith)
    | inr e ↦ (
      λ same. cc ((eq_text_iff (lower x.0) key).1 same),
      first_header-none key headers (ground arith),
    )
  ]

  first_header-IsFirst :
      (key : Text) (headers : List Header) {h : Header}
      → first_header lower key headers ≡ some h
      → IsFirst key headers h
  unfolding first_header
  first_header-IsFirst key [] h = cc
  first_header-IsFirst key (x ∷ headers) {h = y} h = elim (Bool-cases (eq_text (lower x.0) key)) [
    | inl e ↦
        let same : y ≡ x = ground arith in
        (
          [],
          headers,
          ap (λ z. z ∷ headers) (sym same),
          ap (λ z. lower z.0) same ∙ (eq_text_iff (lower x.0) key).0 e,
          tt,
        )
    | inr e ↦
        let (before, after, s, n, others) =
          first_header-IsFirst key headers {h = y} (ground arith) in
        (
          x ∷ before,
          after,
          ap (λ z. x ∷ z) s,
          n,
          (λ same. cc ((eq_text_iff (lower x.0) key).1 same), others),
        )
  ]

  -- The matcher of a header's value gives a verdict on all headers, options and texts. If no header has
  -- a name that in lower case is the key, it fails. Otherwise it passes exactly if the first such
  -- header has a value that suits the options, where the value and the expected text are in lower
  -- case. The key is taken as it is: one that is the lower case of no name is not found.
  pub assert_header_value-Says :
      (m : Matching) (key expected : Text) (headers : List Header)
      → (All (λ e. lower e.0 ≢ key) headers
          × Says false (assert_header_value lower m key expected headers))
        ⊎ ((h : Header) × IsFirst key headers h
            × Says
                (suits m (lower expected) (lower h.1))
                (assert_header_value lower m key expected headers))
  unfolding assert_header_value match_result
  assert_header_value-Says m key expected headers =
      elim (Option-cases (first_header lower key headers)) [
        | inl e ↦ inl (
          first_header-none key headers e,
          rw (e, assert_header_value) (fails _ _ no_header [] [] refl refl),
        )
        | inr (h, e) ↦ inr (
          h,
          first_header-IsFirst key headers e,
          rw (e, assert_header_value) (judge_value-Says m (lower expected) (lower h.1)),
        )
      ]
