-- ===== src/Matchcrest/Retry/Once.antt =====
-- BaseMatcher._matches for one proof and no timeout: one assert, and its verdict.
use goga_tool_pybuggy.Prelude.{ℕ, ◌≡◌, none, some, arith, Bool-cases, inl, inr}
use goga_tool_pybuggy.Matchcrest.Python.{returned}
use goga_tool_pybuggy.Matchcrest.Verdict.{MatchResult, is_passed}
use goga_tool_pybuggy.Matchcrest.Retry.{
  World, Polling, refreshed, asserted, assert_try, proofs_loop, matches, settled, suppressed,
  matches_item, fresh,
}

module _ (w : World) (p : Polling) (fuel : ℕ) (s : w.State) where
  pub matches_item_once :
      (r : MatchResult w.Error)
      → p.timeout ≡ none
      → p.proofs ≡ none
      → w.assert_item s ≡ returned r s
      → matches_item w p fuel (fresh w s)
        ≡ some (returned (is_passed r) (record { tries = 1; result = some r; world = s }))
  unfolding matches_item matches proofs_loop assert_try refreshed asserted suppressed settled
  matches_item_once r timeout proofs verdict = elim (Bool-cases (is_passed r)) [
    | inl e ↦ ground arith
    | inr e ↦ ground arith
  ]
