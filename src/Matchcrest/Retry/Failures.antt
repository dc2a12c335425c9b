-- ===== src/Matchcrest/Retry/Failures.antt =====
-- How BaseMatcher._matches fails when it is polled without a delay, and when a call of the item
-- runs into a TimeoutError.
use goga_tool_pybuggy.Prelude.{ℕ, suc, ◌+◌, ◌≡◌, true, false, none, some, leb, arith}
use goga_tool_pybuggy.Matchcrest.Python.{type_error, timeout_error, returned, raised}
use goga_tool_pybuggy.Matchcrest.Verdict.{MatchResult, is_passed}
use goga_tool_pybuggy.Matchcrest.Retry.{
  World, Polling, Attempt, refreshed, asserted, assert_try, paused, proofs_loop, matches, settled,
  suppressed, matches_item, fresh,
}
use goga_tool_pybuggy.Matchcrest.Retry.Steps.{waiting-stuck, matches_item-waited}

-- The attempt of which only the clock was read.
abbrev timed : (w : World) → Attempt w → Attempt w
timed w a = record a { world = (w.time a.world).1 }

module _ (w : World) (p : Polling) where
  open w use {State}

  -- Polled with no delay, a matcher does not say no: if its first attempt, which begins before the
  -- deadline, is negative, then the call of sleep raises a TypeError and this leaves the matcher.
  matches_item-without_delay :
      (fuel t : ℕ) (a b : Attempt w)
      → p.timeout ≡ some t
      → p.delay ≡ none
      → leb (w.time (timed w a).world).0 ((w.time a.world).0 + t) ≡ true
      → matches w p (timed w (timed w a)) ≡ returned false b
      → matches_item w p (suc fuel) a ≡ some (raised type_error b)
  unfolding suppressed
  matches_item-without_delay fuel t a b timeout delay early negative =
      matches_item-waited w p (suc fuel) a t _ timeout
        (waiting-stuck w p fuel _ (timed w a) b early negative delay)

  -- A TimeoutError of the item is taken for the end of the time: if it comes with the update before
  -- the second proof, the matcher says yes after the first proof only, however many are wanted.
  pub matches_item-swallowed :
      (fuel n : ℕ) (s s' z : State) (r : MatchResult w.Error)
      → p.timeout ≡ none
      → p.proofs ≡ some (suc (suc n))
      → w.assert_item s ≡ returned r s'
      → is_passed r ≡ true
      → w.update
          (paused w p.delay (suc n) (record { tries = 1; result = some r; world = s' })).world
        ≡ raised timeout_error z
      → matches_item w p fuel (fresh w s)
        ≡ some (returned true (record { tries = 1; result = some r; world = z }))
  unfolding matches_item matches proofs_loop assert_try refreshed asserted suppressed settled
  matches_item-swallowed fuel n s s' z r timeout proofs first good update = ground arith
