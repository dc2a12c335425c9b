-- ===== src/Api/Wrapper.antt =====
-- The class ResponseWrapper of api/response.py, whose `expect` is built on demand, and
-- load_assert_class of api/asserts/base.py.
use goga_tool_pybuggy.Prelude.{
  String, Bool, true, false, not, ◌&&◌, Option, none, some, ◌≡◌, refl, sym, ap, subst, ◌∙◌, Result,
  ok, err, Done, arith, inl, inr, Bool-cases, Option-cases, if◌then◌else◌, Result-cases,
}
use goga_tool_pybuggy.Matchcrest.Python.{
  Raised, type_error, value_error, other, Run, returned, raised, left,
}

-- The classes that an import path leads to: `import_module`, `getattr` and `__mro__` of Python.
pub record Classes : Type 1 where
  pub Class : Type 0
  pub Module : Type 0
  -- `import_path.split(":", 1)`, if there is a colon
  pub split_path : String → Option (String × String)
  pub import_module : String → Option Module
  pub attribute : Module → String → Option Class
  pub is_subclass : Class → Class → Bool

-- Each of the three ways to fail names its class of exception.
unfoldable pub load_assert_class :
    (classes : Classes) → String → classes.Class → Result Raised classes.Class
load_assert_class classes import_path base_class = elim (classes.split_path import_path) [
  | none ↦ err value_error
  | some (module_path, class_name) ↦ elim (classes.import_module module_path) [
    | none ↦ err (other "ImportError")
    | some m ↦ elim (classes.attribute m class_name) [
      | none ↦ err (other "ImportError")
      | some c ↦ if classes.is_subclass c base_class then ok c else err type_error
    ]
  ]
]

-- What the wrapper holds; `is_negative` is in the dispatcher that `build` gives.
pub record Wrapper (Expect : Type 0) : Type 0 where
  pub response_class : Option String
  pub use_autocheck : Bool
  pub expect : Option Expect
  pub autocheck_ran : Bool

module _ (classes : Classes) (expect_class : classes.Class) where
  unfoldable pub response_cls : {Expect : Type 0} → Wrapper Expect → Result Raised classes.Class
  response_cls w = elim w.response_class [
    | none ↦ ok expect_class
    | some path ↦ load_assert_class classes path expect_class
  ]

module _ {State Expect : Type 0} where
  abbrev pub kept : Wrapper Expect → Expect → Run State Done → Run (Wrapper Expect × State) Expect
  kept w d (returned x s) = returned d (record w { expect = some d }, s)
  kept w d (raised e s) = raised e (w, s)

  -- `dispatcher.autocheck()` and after it `self._expect = dispatcher`, for a dispatcher just built.
  unfoldable pub checked :
      (Expect → State → Run State Done)
      → Wrapper Expect
      → Expect
      → State
      → Run (Wrapper Expect × State) Expect
  checked autocheck w d s =
      if w.use_autocheck && not w.autocheck_ran
      then kept (record w { autocheck_ran = true }) d (autocheck d s)
      else kept w d (returned tt s)

  checked-quiet :
      (autocheck : Expect → State → Run State Done) (w : Wrapper Expect) (d : Expect) (s : State)
      → w.use_autocheck && not w.autocheck_ran ≡ false
      → checked autocheck w d s ≡ kept w d (returned tt s)
  unfolding checked
  checked-quiet autocheck w d s e = rw (e, checked) refl

  checked-loud :
      (autocheck : Expect → State → Run State Done) (w : Wrapper Expect) (d : Expect) (s : State)
      → w.use_autocheck && not w.autocheck_ran ≡ true
      → checked autocheck w d s ≡ kept (record w { autocheck_ran = true }) d (autocheck d s)
  unfolding checked
  checked-loud autocheck w d s e = rw (e, checked) refl

and_false : (b : Bool) → b && false ≡ false
and_false true = refl
and_false false = refl

module _ (classes : Classes) (expect_class : classes.Class) {State Expect : Type 0} where
  -- `expect`
  unfoldable pub get_expect :
      (classes.Class → Expect)
      → (Expect → State → Run State Done)
      → Wrapper Expect
      → State
      → Run (Wrapper Expect × State) Expect
  get_expect build autocheck w s = elim w.expect [
    | some d ↦ returned d (w, s)
    | none ↦ elim (response_cls classes expect_class w) [
      | err e ↦ raised e (w, s)
      | ok c ↦ checked autocheck w (build c) s
    ]
  ]

  outside : Run (Wrapper Expect × State) Expect → State
  outside r = (left r).1

  module _ (build : classes.Class → Expect) (autocheck : Expect → State → Run State Done) where
    get_expect-some :
        (w : Wrapper Expect) (s : State) (d : Expect)
        → w.expect ≡ some d
        → get_expect build autocheck w s ≡ returned d (w, s)
    unfolding get_expect
    get_expect-some w s d e = ground arith

    get_expect-err :
        (w : Wrapper Expect) (s : State) (e : Raised)
        → w.expect ≡ none
        → response_cls classes expect_class w ≡ err e
        → get_expect build autocheck w s ≡ raised e (w, s)
    unfolding get_expect
    get_expect-err w s e h h' = ground arith

    get_expect-ok :
        (w : Wrapper Expect) (s : State) (c : classes.Class)
        → w.expect ≡ none
        → response_cls classes expect_class w ≡ ok c
        → get_expect build autocheck w s ≡ checked autocheck w (build c) s
    unfolding get_expect
    get_expect-ok w s c h h' = ground arith

    -- An access after which no further access does anything to the outside.
    abbrev pub Spent : Wrapper Expect × State → Type 0
    Spent (w, s) = (left (get_expect build autocheck w s)).1 ≡ s

    kept-Spent :
        (w : Wrapper Expect) (s : State) (c : classes.Class)
        → w.expect ≡ none
        → response_cls classes expect_class w ≡ ok c
        → w.use_autocheck && not w.autocheck_ran ≡ false
        → (r : Run State Done) → Spent (left (kept w (build c) r))
    unfolding checked outside
    kept-Spent w s c h h' quiet (returned x t) =
        ap outside (get_expect-some (record w { expect = some (build c) }) t (build c) refl)
    kept-Spent w s c h h' quiet (raised e t) =
        ap outside (get_expect-ok w t c h h') ∙ rw (quiet, checked) refl

    checked-Spent :
        (w : Wrapper Expect) (s : State) (c : classes.Class)
        → w.expect ≡ none
        → response_cls classes expect_class w ≡ ok c
        → Spent (left (checked autocheck w (build c) s))
    unfolding response_cls
    checked-Spent w s c h h' = elim (Bool-cases (w.use_autocheck && not w.autocheck_ran)) [
      | inr e ↦
          subst (λ z. Spent (left z)) (sym (checked-quiet autocheck w (build c) s e))
            (kept-Spent w s c h h' e (returned tt s))
      | inl e ↦
          subst (λ z. Spent (left z)) (sym (checked-loud autocheck w (build c) s e))
            (kept-Spent (record w { autocheck_ran = true }) s c h h' (and_false w.use_autocheck)
              (autocheck (build c) s))
    ]

    -- Reading `expect` runs the auto-check at most once: whatever the first read did, a success or an
    -- exception of the class loader or of the check, the second one leaves the outside as it is.
    pub get_expect-Spent :
        (w : Wrapper Expect) (s : State) → Spent (left (get_expect build autocheck w s))
    unfolding outside
    get_expect-Spent w s = elim (Option-cases w.expect) [
      | inr (d, e) ↦
          subst (λ z. Spent (left z)) (sym (get_expect-some w s d e))
            (ap outside (get_expect-some w s d e))
      | inl e ↦ elim (Result-cases (response_cls classes expect_class w)) [
        | inr (x, h) ↦ rw (get_expect-err w s x e h) (
            ap (λ (z : Run (Wrapper Expect × State) Expect). (left z).1) (get_expect-err w s x e h))
        | inl (c, h) ↦
            subst (λ z. Spent (left z)) (sym (get_expect-ok w s c e h)) (checked-Spent w s c e h)
      ]
    ]
