-- ===== src/Matchcrest/Values/Quantified.antt =====
-- The value matchers of matchcrest/matchers/value.py over the values of an array.
use goga_tool_pybuggy.Prelude.{
  Bool, true, Option, none, some, List, [], ◌∷◌, ◌≡◌, refl, ap, sym, subst, ◌∙◌, Result, ok, ◌>>=◌,
  traverse, ◌⊎◌, inl, inr,
}
use goga_tool_pybuggy.Prelude.Text.{Text}
use goga_tool_pybuggy.Matchcrest.Python.{Python, Raised}
use goga_tool_pybuggy.Matchcrest.Verdict.{Mismatch, MatchResult, Context, is_passed, match_result}
use goga_tool_pybuggy.Matchcrest.Values.{
  Rounds, Matcher, value_contains, value_not_contains, value_is_in, value_is_not_in, value_is_equal,
  value_is_not_equal, value_is_greater, value_is_lesser, value_length_equal, value_length_greater,
  value_length_lesser, value_is_url, value_regex, value_contains_dict, value_ends_with,
  value_starts_with, value_is_empty, value_is_not_empty, value_date_equal, value_date_greater,
  value_date_lesser, value_is_subset, value_is_intersect, value_is_disjoint,
}
use goga_tool_pybuggy.Matchcrest.Values.Sets.{is_intersect_round}
use goga_tool_pybuggy.Matchcrest.Values.Assert.{
  Options, values_of, concluded, run_rounds, round_of, value_assert, set_assert, assert_item,
  check_iterable,
}
use goga_tool_pybuggy.Matchcrest.Values.Meets.{Lawful, meets}
use goga_tool_pybuggy.Matchcrest.Values.Decides.{Comparable, round_of-Agrees}
use goga_tool_pybuggy.Matchcrest.Values.Loop.{
  quantified, is_success, outcome, outcome-quantified, values_loop-Decided,
}

module _ (py : Python) (law : Lawful py) where
  open py use {Object}

  -- The matcher returns a result for every list of values on which its demand has an outcome.
  abbrev pub Settled : Options → List Bool → Result Raised (MatchResult (Mismatch Object)) → Type 0
  Settled options good run =
      (r : MatchResult (Mismatch Object)) × (run ≡ ok r)
      × (is_passed r ≡ quantified options.any_one good)

  concluded-Settled :
      (options : Options) (key : Text) (good : List Bool) (o : Option (List (Mismatch Object)))
      → is_success o ≡ outcome options.any_one true good
      → Settled options good (concluded py key o)
  unfolding concluded match_result
  concluded-Settled options key good none h = (_, refl, h ∙ outcome-quantified options.any_one good)
  concluded-Settled options key good (some []) h =
      (_, refl, h ∙ outcome-quantified options.any_one good)
  concluded-Settled options key good (some (e ∷ es)) h =
      (_, refl, h ∙ outcome-quantified options.any_one good)

  run_rounds-Settled :
      (options : Options) (m : Matcher py) (key : Text) (v : Object) (values : List Object)
      (good : List Bool)
      → Comparable py law m
      → values_of py options v ≡ ok values
      → traverse (meets py m) values ≡ ok good
      → Settled options good (run_rounds py options (round_of py options.any_one m) key v)
  unfolding run_rounds
  run_rounds-Settled options m key v values good c h t =
      let (o, run, s) =
        values_loop-Decided py options.any_one (round_of py options.any_one m) (meets py m)
          (λ v. round_of-Agrees py law options.any_one m v c) values good [] t in
      let (r, done, p) = concluded-Settled options key good o s in (r, rw h (rw run done), p)

  -- What a set matcher asks of its operands before the loop.
  abbrev pub Ready : Matcher py → Object → Type 0
  Ready (value_is_subset e) v = py.is_iterable v ≡ true
  Ready (value_is_disjoint e) v = py.is_iterable v ≡ true
  Ready (value_is_intersect e) v = (py.is_iterable v ≡ true) × (s : py.Set) × (py.set_of e ≡ ok s)
  Ready _ v = Unit

  set_assert-Settled :
      (options : Options) (m : Matcher py) (round : Rounds py)
      (prepared : Result Raised (Rounds py)) (item : Context Object) (key : Text) (v : Object)
      (good : List Bool)
      → item.key ≡ ok key
      → item.value ≡ ok v
      → py.is_iterable v ≡ true
      → prepared ≡ ok round
      → round_of py options.any_one m ≡ round
      → Settled options good (run_rounds py options (round_of py options.any_one m) key v)
      → Settled options good (set_assert py options prepared item)
  unfolding set_assert check_iterable
  set_assert-Settled options m round prepared item key v good k h i p same (r, done, s) = (
    r,
    rw h (rw i (rw k (rw p (subst (λ z. run_rounds py options z key v ≡ ok r) same done)))),
    s,
  )

  value_assert-Settled :
      (options : Options) (round : Rounds py) (item : Context Object) (key : Text) (v : Object)
      (good : List Bool)
      → item.key ≡ ok key
      → item.value ≡ ok v
      → Settled options good (run_rounds py options round key v)
      → Settled options good (value_assert py options round item)
  unfolding value_assert
  value_assert-Settled options round item key v good k h (r, done, s) = (r, rw k (rw h done), s)

  assert_item-cases :
      (options : Options) (m : Matcher py) (item : Context Object) (v : Object)
      → Ready m v
      → (assert_item py options m item
          ≡ value_assert py options (round_of py options.any_one m) item)
        ⊎ ((round : Rounds py) × (prepared : Result Raised (Rounds py)) × (py.is_iterable v ≡ true)
            × (prepared ≡ ok round)
            × (round_of py options.any_one m ≡ round)
            × (assert_item py options m item ≡ set_assert py options prepared item))
  unfolding assert_item round_of
  assert_item-cases options (value_contains e) item v ready = inl refl
  assert_item-cases options (value_not_contains e) item v ready = inl refl
  assert_item-cases options (value_is_in e) item v ready = inl refl
  assert_item-cases options (value_is_not_in e) item v ready = inl refl
  assert_item-cases options (value_is_equal st e) item v ready = inl refl
  assert_item-cases options (value_is_not_equal st e) item v ready = inl refl
  assert_item-cases options (value_is_greater st e) item v ready = inl refl
  assert_item-cases options (value_is_lesser st e) item v ready = inl refl
  assert_item-cases options (value_length_equal e) item v ready = inl refl
  assert_item-cases options (value_length_greater e) item v ready = inl refl
  assert_item-cases options (value_length_lesser e) item v ready = inl refl
  assert_item-cases options (value_is_url live protocols) item v ready = inl refl
  assert_item-cases options (value_regex match) item v ready = inl refl
  assert_item-cases options (value_contains_dict e) item v ready = inl refl
  assert_item-cases options (value_ends_with e) item v ready = inl refl
  assert_item-cases options (value_starts_with e) item v ready = inl refl
  assert_item-cases options value_is_empty item v ready = inl refl
  assert_item-cases options value_is_not_empty item v ready = inl refl
  assert_item-cases options (value_date_equal e) item v ready = inl refl
  assert_item-cases options (value_date_greater e) item v ready = inl refl
  assert_item-cases options (value_date_lesser e) item v ready = inl refl
  assert_item-cases options (value_is_subset e) item v ready =
      inr (_, ok (round_of py options.any_one (value_is_subset e)), ready, refl, refl, refl)
  assert_item-cases options (value_is_disjoint e) item v ready =
      inr (_, ok (round_of py options.any_one (value_is_disjoint e)), ready, refl, refl, refl)
  assert_item-cases options (value_is_intersect e) item v (i, s, h) = inr (
    is_intersect_round py options.any_one s,
    _,
    i,
    ap (λ z. z >>= λ t. ok (is_intersect_round py options.any_one t)) h,
    ap (λ z. λ value. z >>= λ t. is_intersect_round py options.any_one t value) h,
    refl,
  )

  -- A value matcher never fails for a reason of its own: if the key and the value of the item can be
  -- read and the demand of the matcher has an outcome on each value that the options select, the
  -- matcher returns a result. It is a success exactly when all the values meet the demand or, with
  -- `any`, when one of them does or there is none.
  pub assert_item-quantified :
      (options : Options) (m : Matcher py) (item : Context Object) (key : Text) (v : Object)
      (values : List Object) (good : List Bool)
      → item.key ≡ ok key
      → item.value ≡ ok v
      → Comparable py law m
      → Ready m v
      → values_of py options v ≡ ok values
      → traverse (meets py m) values ≡ ok good
      → (r : MatchResult (Mismatch Object)) × (assert_item py options m item ≡ ok r)
        × (is_passed r ≡ quantified options.any_one good)
  assert_item-quantified options m item key v values good k h c ready vs t =
      let run = run_rounds-Settled options m key v values good c vs t in
      elim (assert_item-cases options m item v ready) [
        | inl same ↦
            subst (Settled options good) (sym same)
              (value_assert-Settled options _ item key v good k h run)
        | inr (round, prepared, i, p, q, same) ↦
            subst (Settled options good) (sym same)
              (set_assert-Settled options m round prepared item key v good k h i p q run)
      ]
