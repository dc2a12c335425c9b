-- ===== src/Matchcrest/Values/Rounds.antt =====
-- Each round of the loops in matchcrest/matchers/value.py decides what its matcher demands.
use goga_tool_pybuggy.Prelude.{
  Bool, true, false, not, ◌&&◌, Option, none, some, List, [], ◌∷◌, ◌≡◌, refl, Result, ok, err,
  ◌>>=◌, if◌then◌else◌, arith, inl, inr, Bool-cases,
}
use goga_tool_pybuggy.Prelude.Text.{Text}
use goga_tool_pybuggy.Matchcrest.Python.{Python, Raised}
use goga_tool_pybuggy.Matchcrest.Url.{date_to_timestamp}
use goga_tool_pybuggy.Matchcrest.Verdict.{Mismatch, not_date, key_differs}
use goga_tool_pybuggy.Matchcrest.Values.{Round, hit, missed, judged, unless_hit, dict_loop}
use goga_tool_pybuggy.Matchcrest.Values.Dates.{with_timestamps}
use goga_tool_pybuggy.Matchcrest.Values.Meets.{negated, Lawful, agree, Agrees}

module _ (py : Python) (any_one : Bool) where
  open py use {Object, Set, contains, is_same, eq, ne, gt, ge, lt, le, set_of}

  pub judged-Agrees :
      (b good bad : Bool) (message : Mismatch Object)
      → bad ≡ not good
      → Agrees py b (ok (judged py b good bad message)) (ok good)
  judged-Agrees true true bad message h = refl
  judged-Agrees false true bad message h = ground arith
  judged-Agrees b false bad message h = (message, [], ground arith)

  pub tested-Agrees :
      (tested : Result Raised Bool) (message : Bool → Mismatch Object)
      → Agrees py any_one
          (tested >>= λ good. ok (judged py any_one good (not good) (message good)))
          tested
  tested-Agrees (ok good) message = judged-Agrees any_one good (not good) (message good) refl
  tested-Agrees (err x) message = refl

  pub negated-Agrees :
      (tested : Result Raised Bool) (message : Mismatch Object)
      → Agrees py any_one
          (tested >>= λ bad. ok (judged py any_one (not bad) bad message))
          (negated tested)
  negated-Agrees (ok true) message = (message, [], refl)
  negated-Agrees (ok false) message = judged-Agrees any_one true false message refl
  negated-Agrees (err x) message = refl

  pub unless_hit-Agrees :
      (tested compared : Result Raised Bool) (message : Bool → Mismatch Object)
      → compared ≡ negated tested
      → Agrees py any_one
          (tested >>= λ good. unless_hit py any_one good compared (message good))
          tested
  unfolding unless_hit
  unless_hit-Agrees (ok true) compared message h = ground arith
  unless_hit-Agrees (ok false) compared message h = (message false, [], ground arith)
  unless_hit-Agrees (err x) compared message h = refl

  -- An error of an operand is that of the round and of the demand.
  pub operand-Agrees :
      {A : Type 0} (operand : Result Raised A) (round : A → Result Raised (Round (Mismatch Object)))
      (demand : A → Result Raised Bool)
      → ((a : A) → operand ≡ ok a → Agrees py any_one (round a) (demand a))
      → Agrees py any_one (operand >>= round) (operand >>= demand)
  operand-Agrees (ok a) round demand f = f a refl
  operand-Agrees (err x) round demand f = refl

  abbrev pub DictAgrees :
      Result Raised (Bool × List (Mismatch Object)) → Result Raised Bool → Type 0
  DictAgrees r (err x) = r ≡ err x
  DictAgrees r (ok true) = r ≡ ok (true, [])
  DictAgrees r (ok false) =
      (e : Mismatch Object) × (es : List (Mismatch Object)) × (r ≡ ok (false, e ∷ es))

  dict_step :
      (differing agreeing : Bool) (e : Mismatch Object)
      (r : Result Raised (Bool × List (Mismatch Object))) (m : Result Raised Bool)
      → differing ≡ not agreeing
      → DictAgrees r m
      → DictAgrees
          (r >>= λ others. ok (if differing then (false, e ∷ others.1) else others))
          (m >>= λ others. ok (agreeing && others))
  dict_step differing true e r (err x) h a = ground arith
  dict_step differing true e r (ok true) h a = ground arith
  dict_step differing true e r (ok false) h (f, fs, a) = (f, fs, ground arith)
  dict_step differing false e r (err x) h a = ground arith
  dict_step differing false e r (ok true) h a = (e, [], ground arith)
  dict_step differing false e r (ok false) h (f, fs, a) = (e, f ∷ fs, ground arith)

  pub dict-Agrees :
      (r : Result Raised (Bool × List (Mismatch Object))) (m : Result Raised Bool)
      → DictAgrees r m
      → Agrees py any_one (r >>= λ p. ok (if p.0 && any_one then hit else missed p.1)) m
  dict-Agrees r (err x) a = ground arith
  dict-Agrees r (ok true) a = ground arith
  dict-Agrees r (ok false) (e, es, a) = (e, es, ground arith)

  pub branch-Agrees :
      (b : Bool) (e : Mismatch Object) (r : Result Raised (Round (Mismatch Object)))
      (m : Result Raised Bool)
      → Agrees py any_one r m
      → Agrees py any_one (if b then r else ok (missed (e ∷ []))) (if b then m else ok false)
  branch-Agrees true e r m a = a
  branch-Agrees false e r m a = (e, [], refl)

  pub text-Agrees :
      (text : Option Text) (test : Text → Bool) (e : Mismatch Object) (message : Mismatch Object)
      → Agrees py any_one
          (elim text [
            | none ↦ ok (missed (e ∷ []))
            | some s ↦ ok (judged py any_one (test s) (not (test s)) message)
          ])
          (elim text [ none ↦ ok false | some s ↦ ok (test s) ])
  text-Agrees none test e message = (e, [], refl)
  text-Agrees (some s) test e message = judged-Agrees any_one (test s) (not (test s)) message refl

  module _ (law : Lawful py) where
    pub timestamp_number : (value t : Object) → date_to_timestamp py value ≡ ok t → law.IsNumber t
    unfolding date_to_timestamp
    timestamp_number value t h = elim (Bool-cases (py.is_datetime value)) [
      | inl a ↦ law.datetime_number value t (ground arith)
      | inr b ↦ elim (Bool-cases (py.is_date value)) [
        | inl c ↦ law.iso_number value t (ground arith)
        | inr d ↦ absurd (ground arith)
      ]
    ]

    pub dict_loop-DictAgrees :
        (value : Object) (expected : List (Object × Object))
        → DictAgrees (dict_loop py value expected) (agree py value expected)
    unfolding dict_loop agree
    dict_loop-DictAgrees value [] = refl
    dict_loop-DictAgrees value ((key, expected) ∷ rest) =
        at_key (py.dict_get value key) (dict_loop-DictAgrees value rest)
      where
        at_key :
            (current : Result Raised Object)
            → DictAgrees (dict_loop py value rest) (agree py value rest)
            → DictAgrees
                (current >>= λ c. dict_loop py value rest >>= λ others.
                  ok (if ne c expected then (false, key_differs value key ∷ others.1) else others))
                (current >>= λ c. agree py value rest >>= λ others. ok (eq c expected && others))
        at_key (ok c) a =
            dict_step (ne c expected) (eq c expected) (key_differs value key)
              (dict_loop py value rest) (agree py value rest) (law.ne_eq c expected) a
        at_key (err x) a = refl

    pub dates-Agrees :
        (expected value : Object)
        (round : Object → Object → Result Raised (Round (Mismatch Object)))
        (compared : Object → Object → Result Raised Bool)
        → ((a b : Object)
            → law.IsNumber a
            → law.IsNumber b
            → Agrees py any_one (round a b) (compared a b))
        → Agrees py any_one (with_timestamps py any_one expected value round) (
            if py.is_date value
            then (date_to_timestamp py value >>= λ a.
                date_to_timestamp py expected >>= λ b. compared a b)
            else ok false)
    unfolding with_timestamps
    dates-Agrees expected value round compared f =
        branch-Agrees (py.is_date value) (not_date value) _ _ (
          operand-Agrees (date_to_timestamp py value) _ _ λ a p.
            operand-Agrees (date_to_timestamp py expected) _ _
              λ b q. f a b (timestamp_number value a p) (timestamp_number expected b q))
