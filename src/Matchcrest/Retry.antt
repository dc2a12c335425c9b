-- ===== src/Matchcrest/Retry.antt =====
-- BaseMatcher._matches of matchcrest/matchers/base.py and waiting_for of matchcrest/utils/utils.py:
-- a matcher asserts an item until enough proofs in a row pass or the time is over.
use goga_tool_pybuggy.Prelude.{
  ℕ, zero, suc, ◌+◌, Bool, true, false, Option, none, some, List, [], ◌∷◌, Done, ltb, leb,
  if◌then◌else◌,
}
use goga_tool_pybuggy.Matchcrest.Python.{Raised, type_error, timeout_error, Run, returned, raised}
use goga_tool_pybuggy.Matchcrest.Verdict.{MatchResult, failed, is_passed}
pub mod Steps
pub mod Ends
pub mod Proofs
pub mod Sound
pub mod Failures
pub mod Once

-- All that stands outside of the matcher: the clock and the item. Times are in ticks of the clock.
pub record World : Type 1 where
  pub State : Type 0
  pub Error : Type 0
  -- The error that tells of a result that is not set.
  pub unknown_error : Error
  -- `time.time()` and `time.sleep(delay)`
  pub time : State → ℕ × State
  pub sleep : ℕ → State → State
  -- `item.update()` and `self._assert(item)`
  pub update : State → Run State Done
  pub assert_item : State → Run State (MatchResult Error)

-- The options of the constructor.
pub record Polling : Type 0 where
  pub proofs : Option ℕ
  pub timeout : Option ℕ
  pub delay : Option ℕ

-- `proofs or 1`
abbrev pub proofs_or_one : Option ℕ → ℕ
proofs_or_one none = 1
proofs_or_one (some zero) = 1
proofs_or_one (some (suc n)) = suc n

module _ (w : World) where
  open w use {State, Error}

  -- The matcher: `_tries` and `result`, in the world.
  pub record Attempt : Type 0 where
    pub tries : ℕ
    pub result : Option (MatchResult Error)
    pub world : State

  -- `bool(self.result)`
  abbrev pub verdict : Option (MatchResult Error) → Bool
  verdict none = false
  verdict (some r) = is_passed r

  unfoldable pub refreshed : Attempt → Run State Done
  refreshed a = if ltb 0 a.tries then w.update a.world else returned tt a.world

  unfoldable pub asserted : Attempt → Run State (MatchResult Error) → Run Attempt Done
  asserted a (raised e s) = raised e (record a { world = s })
  asserted a (returned r s) =
      returned tt (record { tries = a.tries + 1; result = some r; world = s })

  unfoldable pub assert_try : Attempt → Run Attempt Done
  assert_try a = elim (refreshed a) [
    | raised e s ↦ raised e (record a { world = s })
    | returned _ s ↦ asserted a (w.assert_item s)
  ]

  abbrev pub slept : ℕ → Attempt → Attempt
  slept d a = record a { world = w.sleep d a.world }

  -- The pause before the next proof, of which `n` are left.
  abbrev pub paused : Option ℕ → ℕ → Attempt → Attempt
  paused delay zero a = a
  paused none (suc n) a = a
  paused (some d) (suc n) a = slept d a

  -- `__matches__` with `n` proofs to go.
  unfoldable pub proofs_loop : Option ℕ → ℕ → Attempt → Run Attempt Bool
  proofs_loop delay zero a = returned (verdict a.result) a
  proofs_loop delay (suc n) a = elim (assert_try a) [
    | raised e b ↦ raised e b
    | returned _ b ↦ elim (verdict b.result) [
      | false ↦ returned false b
      | true ↦ proofs_loop delay n (paused delay n b)
    ]
  ]

  unfoldable pub matches : Polling → Attempt → Run Attempt Bool
  matches p a = proofs_loop p.delay (proofs_or_one p.proofs) a

  -- The loop of `waiting_for`, on fuel: `none` when this runs out. `time.sleep(None)` raises.
  unfoldable pub waiting : Polling → ℕ → ℕ → Attempt → Option (Run Attempt Bool)
  waiting p zero deadline a = none
  waiting p (suc fuel) deadline a =
      let (t, s) = w.time a.world in
      elim (leb t deadline) [
        | false ↦ some (raised timeout_error (record a { world = s }))
        | true ↦ elim (matches p (record a { world = s })) [
          | raised e b ↦ some (raised e b)
          | returned true b ↦ some (returned true b)
          | returned false b ↦ elim p.delay [
            | none ↦ some (raised type_error b)
            | some d ↦ waiting p fuel deadline (slept d b)
          ]
        ]
      ]

  unfoldable pub waiting_for : Polling → ℕ → ℕ → Attempt → Option (Run Attempt Bool)
  waiting_for p fuel timeout a =
      let (start, s) = w.time a.world in waiting p fuel (start + timeout) (record a { world = s })

  -- The end of `_matches`, after the block that suppresses a TimeoutError.
  unfoldable pub settled : Attempt → Run Attempt Bool
  settled a = elim a.result [
    | none ↦ returned false (record a { result = some (failed (w.unknown_error ∷ []) []) })
    | some r ↦ returned (is_passed r) a
  ]

  unfoldable pub suppressed : Run Attempt Bool → Run Attempt Bool
  suppressed (returned _ a) = settled a
  suppressed (raised timeout_error a) = settled a
  suppressed (raised e a) = raised e a

  -- `_matches`
  unfoldable pub matches_item : Polling → ℕ → Attempt → Option (Run Attempt Bool)
  matches_item p fuel a = elim p.timeout [
    | none ↦ some (suppressed (matches p a))
    | some t ↦ elim (waiting_for p fuel t a) [ none ↦ none | some r ↦ some (suppressed r) ]
  ]

  -- The matcher as the constructor leaves it.
  abbrev pub fresh : State → Attempt
  fresh s = record { tries = 0; result = none; world = s }
