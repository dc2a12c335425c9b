-- ===== src/Matchcrest/Values/Loop.antt =====
-- The value matchers of matchcrest/matchers/value.py over the values of an array: their loop.
use goga_tool_pybuggy.Prelude.{
  Bool, true, false, ◌&&◌, ◌||◌, Option, none, some, List, [], ◌∷◌, ◌++◌, ◌≡◌, refl, ap, sym, subst,
  ◌∙◌, Result, ok, arith, any, all, is_empty, traverse, traverse-cons, traverse-nil, append-nil,
}
use goga_tool_pybuggy.Matchcrest.Python.{Python, Raised}
use goga_tool_pybuggy.Matchcrest.Verdict.{Mismatch}
use goga_tool_pybuggy.Matchcrest.Values.{Round, hit, missed, Rounds}
use goga_tool_pybuggy.Matchcrest.Values.Assert.{values_loop}
use goga_tool_pybuggy.Matchcrest.Values.Meets.{Agrees}

-- What the options ask of the values: all of them, or one of them unless there is none.
abbrev pub quantified : Bool → List Bool → Bool
quantified true good = is_empty good || any (λ b. b) good
quantified false good = all (λ b. b) good

abbrev pub is_success {ℓ} : {E : Type ℓ} → Option (List E) → Bool
is_success none = true
is_success (some errors) = is_empty errors

-- The same, behind errors or not.
abbrev pub outcome : Bool → Bool → List Bool → Bool
outcome true clean good = any (λ b. b) good || clean && is_empty good
outcome false clean good = clean && all (λ b. b) good

pub outcome-quantified : (b : Bool) (good : List Bool) → outcome b true good ≡ quantified b good
outcome-quantified true [] = refl
outcome-quantified true (g ∷ good) = ground arith
outcome-quantified false good = refl

is_empty-append :
    {E : Type 0} (errors : List E) (e : E) (es : List E) → is_empty (errors ++ (e ∷ es)) ≡ false
is_empty-append [] e es = refl
is_empty-append (x ∷ errors) e es = refl

module _ {A E : Type 0} (round : A → Result Raised (Round E)) where
  values_loop-hit :
      (errors : List E) (v : A) (values : List A)
      → round v ≡ ok hit
      → values_loop round errors (v ∷ values) ≡ ok none
  unfolding values_loop
  values_loop-hit errors v values h = ground arith

  values_loop-missed :
      (errors more : List E) (v : A) (values : List A)
      → round v ≡ ok (missed more)
      → values_loop round errors (v ∷ values) ≡ values_loop round (errors ++ more) values
  unfolding values_loop
  values_loop-missed errors more v values h = ground arith

module _ (py : Python) where
  open py use {Object}

  -- The loop has an outcome, and this is a success as the options ask.
  abbrev pub Decided :
      Bool → Bool → List Bool → Result Raised (Option (List (Mismatch Object))) → Type 0
  Decided b clean good r =
      (o : Option (List (Mismatch Object))) × (r ≡ ok o) × (is_success o ≡ outcome b clean good)

  ends : (b clean : Bool) → clean ≡ outcome b clean []
  ends true clean = ground arith
  ends false clean = ground arith

  -- One round, for what holds of the values after it.
  one_more :
      (b g : Bool) (round : Rounds py) (errors : List (Mismatch Object)) (v : Object)
      (values : List Object) (good : List Bool)
      → Agrees py b (round v) (ok g)
      → ((es : List (Mismatch Object)) → Decided b (is_empty es) good (values_loop round es values))
      → Decided b (is_empty errors) (g ∷ good) (values_loop round errors (v ∷ values))
  one_more true true round errors v values good a later =
      (none, values_loop-hit round errors v values a, refl)
  one_more true false round errors v values good (e, es, a) later =
      let (o, run, s) = later (errors ++ (e ∷ es)) in
      (
        o,
        values_loop-missed round errors (e ∷ es) v values a ∙ run,
        s ∙ ap (λ z. outcome true z good) (is_empty-append errors e es) ∙ ground arith,
      )
  one_more false true round errors v values good a later =
      let (o, run, s) = later (errors ++ []) in
      (
        o,
        values_loop-missed round errors [] v values a ∙ run,
        s ∙ ap (λ z. outcome false (is_empty z) good) (append-nil errors),
      )
  one_more false false round errors v values good (e, es, a) later =
      let (o, run, s) = later (errors ++ (e ∷ es)) in
      (
        o,
        values_loop-missed round errors (e ∷ es) v values a ∙ run,
        s ∙ ap (λ z. outcome false z good) (is_empty-append errors e es) ∙ ground arith,
      )

  pub values_loop-Decided :
      (b : Bool) (round : Rounds py) (demand : Object → Result Raised Bool)
      (agrees : (v : Object) → Agrees py b (round v) (demand v)) (values : List Object)
      (good : List Bool) (errors : List (Mismatch Object))
      → traverse demand values ≡ ok good
      → Decided b (is_empty errors) good (values_loop round errors values)
  unfolding values_loop
  values_loop-Decided b round demand agrees [] good errors h =
      subst (λ z. Decided b (is_empty errors) z (values_loop round errors []))
        (sym (traverse-nil demand h)) (some errors, refl, ends b (is_empty errors))
  values_loop-Decided b round demand agrees (v ∷ values) good errors h =
      let (g, rest, e, es, z) = traverse-cons demand v values h in
      subst (λ z. Decided b (is_empty errors) z (values_loop round errors (v ∷ values))) (sym z)
        (one_more b g round errors v values rest (subst (Agrees py b (round v)) e (agrees v))
          λ more. values_loop-Decided b round demand agrees values rest more es)
