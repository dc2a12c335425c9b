-- ===== src/Matchcrest/Tests.antt =====
-- Runs of the matchers on small objects: matchcrest/matchers
use goga_tool_pybuggy.Prelude.{
  ◌⊎◌, ◌≢◌, All, ℕ, ◌+◌, ◌≡◌, ◌↔◌, refl, Bool, true, false, none, some, List, [], ◌∷◌, ok, Done,
  arith, leb, if◌then◌else◌, traverse,
}
use goga_tool_pybuggy.Prelude.Text.{codes}
use goga_tool_pybuggy.Value
use goga_tool_pybuggy.Value.{Value, get}
use goga_tool_pybuggy.Matchcrest.Python.{timeout_error, Run, returned, raised}
use goga_tool_pybuggy.Matchcrest.Verdict.{Mismatch, MatchResult, passed, failed, is_passed, Context}
use goga_tool_pybuggy.Matchcrest.Values.{value_is_greater}
use goga_tool_pybuggy.Matchcrest.Values.Assert.{Options, values_of, assert_item}
use goga_tool_pybuggy.Matchcrest.Values.Meets.{meets}
use goga_tool_pybuggy.Matchcrest.Values.Quantified.{assert_item-quantified}
use goga_tool_pybuggy.Matchcrest.Retry.{
  World, Polling, Attempt, matches_item, fresh, waiting_for, waiting, matches, proofs_loop,
  assert_try, refreshed, asserted, suppressed, settled,
}
use goga_tool_pybuggy.Matchcrest.Retry.Ends.{Clocked, Told, matches_item-ends}
use goga_tool_pybuggy.Matchcrest.Retry.Proofs.{Quiet, Streak}
use goga_tool_pybuggy.Matchcrest.Retry.Sound.{matches_item-Streak}
use goga_tool_pybuggy.Matchcrest.Retry.Failures.{matches_item-swallowed}
use goga_tool_pybuggy.Matchcrest.Responses.{
  Matching, Header, assert_header_value, assert_contains_key,
}
use goga_tool_pybuggy.Matchcrest.Responses.Headers.{Says, IsFirst, suits, assert_header_value-Says}
use goga_tool_pybuggy.Matchcrest.Responses.Json.{assert_contains_key-under}
use goga_tool_pybuggy.Matchcrest.Things.{Thing, num, arr, things, things-Lawful}

abbrev all_of : Options
all_of = record { any_one = false; in_array = true }

abbrev pair_item : Context Thing
pair_item = record { key = ok []; value = ok (arr (2 ∷ 3 ∷ [])) }

-- Both numbers are greater than one.
assert_item-quantified_example :
    (r : MatchResult (Mismatch Thing)) × (assert_item things all_of
        (value_is_greater false (num 1))
        pair_item
      ≡ ok r)
    × (is_passed r ≡ true)
unfolding values_of traverse meets
assert_item-quantified_example =
    assert_item-quantified things things-Lawful all_of (value_is_greater false (num 1)) pair_item []
      (arr (2 ∷ 3 ∷ [])) (num 2 ∷ num 3 ∷ []) (true ∷ true ∷ []) refl refl tt tt refl refl

-- A service that is ready from the third tick on.
abbrev ready_at_three : World
ready_at_three = record {
  State = ℕ;
  Error = Done;
  unknown_error = tt;
  time = λ s. (s, s);
  sleep = λ d s. s + d;
  update = λ s. returned tt s;
  assert_item = λ s. returned (if leb 3 s then passed else failed (tt ∷ []) []) s;
}

ready_at_three-Clocked : Clocked ready_at_three
ready_at_three-Clocked = record {
  stamp = λ s. s;
  time_from = λ s. omega arith;
  time_to = λ s. omega arith;
  sleep_lasts = λ d s. omega arith;
  update_later = λ s. omega arith;
  assert_later = λ s. omega arith;
}

ready_at_three-Quiet : Quiet ready_at_three
ready_at_three-Quiet = record { update_quiet = λ s z h. cc; assert_quiet = λ s z h. cc }

-- Two proofs, polled each tick for five ticks.
abbrev patient : Polling
patient = record { proofs = some 2; timeout = some 5; delay = some 1 }

matches_item-ends_example :
    (r : Run (Attempt ready_at_three) Bool) × (matches_item ready_at_three patient 7
        (fresh ready_at_three 0)
      ≡ some r)
    × Told ready_at_three r
matches_item-ends_example =
    matches_item-ends ready_at_three ready_at_three-Clocked patient 7 (fresh ready_at_three 0)
      (omega arith) (omega arith)

matches_item-Streak_example :
    (a : Attempt ready_at_three) × Streak ready_at_three
      (some 1)
      2
      a
      (record { tries = 5; result = some passed; world = 4 })
unfolding matches_item waiting_for waiting matches proofs_loop assert_try refreshed asserted
    suppressed settled
matches_item-Streak_example =
    matches_item-Streak ready_at_three patient ready_at_three-Quiet 7 0
      (record { tries = 5; result = some passed; world = 4 }) refl

-- An item that passes once, and whose update runs into a TimeoutError.
abbrev flaky : World
flaky = record {
  State = ℕ;
  Error = Done;
  unknown_error = tt;
  time = λ s. (s, s);
  sleep = λ d s. s + d;
  update = λ s. raised timeout_error (s + 60);
  assert_item = λ s. returned passed s;
}

abbrev three_proofs : Polling
three_proofs = record { proofs = some 3; timeout = none; delay = none }

matches_item-swallowed_example :
    matches_item flaky three_proofs 0 (fresh flaky 0)
    ≡ some (returned true (record { tries = 1; result = some passed; world = 60 }))
matches_item-swallowed_example =
    matches_item-swallowed flaky three_proofs 0 1 0 0 60 passed refl refl refl refl refl

abbrev starts : Matching
starts = record { contains = false; startswith = true; endswith = false }

abbrev one_header : List Header
one_header = (codes "type", codes "json; utf8") ∷ []

assert_header_value-Says_example :
    (All (λ e. e.0 ≢ codes "type") one_header
      × Says false (assert_header_value (λ s. s) starts (codes "type") (codes "json") one_header))
    ⊎ ((h : Header) × IsFirst (λ s. s) (codes "type") one_header h
        × Says
            (suits starts (codes "json") h.1)
            (assert_header_value (λ s. s) starts (codes "type") (codes "json") one_header))
assert_header_value-Says_example =
    assert_header_value-Says (λ s. s) starts (codes "type") (codes "json") one_header

abbrev nested : Value
nested = Value.dict (
    Value.field (Value.named "a")
      (Value.dict (Value.field (Value.named "b") (Value.bool true) Value.end)) Value.end)

assert_contains_key-under_example :
    (assert_contains_key ("a" ∷ "b" ∷ []) [] nested ≡ ok passed) ↔ (true ≡ true)
unfolding get
assert_contains_key-under_example = assert_contains_key-under ("a" ∷ "b" ∷ []) [] nested
