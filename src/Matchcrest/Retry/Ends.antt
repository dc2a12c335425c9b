-- ===== src/Matchcrest/Retry/Ends.antt =====
-- A matcher of matchcrest/matchers/base.py comes to an end, whatever the item does.
use goga_tool_pybuggy.Prelude.{
  ℕ, zero, suc, ◌+◌, ◌-◌, ◌≤◌, ◌<◌, ◌≡◌, ◌≢◌, refl, Bool, true, false, Option, none, some, ltb, leb,
  arith, Bool-cases, Option-cases, ◌∙◌, sym, subst, inl, inr,
}
use goga_tool_pybuggy.Matchcrest.Python.{
  Run-cases, left, assertion_error, type_error, value_error, timeout_error, other, Run, returned,
  raised,
}
use goga_tool_pybuggy.Matchcrest.Verdict.{MatchResult, is_passed}
use goga_tool_pybuggy.Matchcrest.Retry.Steps.{
  settled-some, assert_try-raised, assert_try-asserted, proofs_loop-raised, proofs_loop-false,
  proofs_loop-true, waiting-late, waiting-raised, waiting-true, waiting-stuck, waiting-again,
  leb_at_most, matches_item-once, matches_item-waited,
}
use goga_tool_pybuggy.Matchcrest.Retry.{
  World, Polling, Attempt, verdict, refreshed, asserted, assert_try, slept, paused, proofs_loop,
  matches, waiting, settled, suppressed, matches_item,
}

-- What the code relies on in the clock: it never goes back, and a sleep lasts as long as asked.
pub record Clocked (w : World) : Type 1 where
  pub stamp : w.State → ℕ
  pub time_from : (s : w.State) → stamp s ≤ (w.time s).0
  pub time_to : (s : w.State) → (w.time s).0 ≤ stamp (w.time s).1
  pub sleep_lasts : (d : ℕ) (s : w.State) → stamp s + d ≤ stamp (w.sleep d s)
  pub update_later : (s : w.State) → stamp s ≤ stamp (left (w.update s))
  pub assert_later : (s : w.State) → stamp s ≤ stamp (left (w.assert_item s))

-- A sleep between two attempts takes time.
abbrev pub Moves : Option ℕ → Type 0
Moves none = Unit
Moves (some d) = 0 < d

-- The fuel for a timeout: the clock passes it in as many rounds.
abbrev pub Enough : Option ℕ → ℕ → Type 0
Enough none fuel = Unit
Enough (some t) fuel = t + 1 < fuel

module _ (w : World) where
  open w use {State, Error}

  -- A verdict from a result that is set, or an exception that is no TimeoutError.
  abbrev pub Told : Run (Attempt w) Bool → Type 0
  Told (returned b a) = (r : MatchResult w.Error) × (a.result ≡ some r) × (b ≡ is_passed r)
  Told (raised e a) = e ≢ timeout_error

  settled-Told : (a : Attempt w) → Told (settled w a)
  unfolding settled
  settled-Told a = elim (Option-cases a.result) [
    | inl e ↦ rw e (_, refl, refl)
    | inr (r, e) ↦ subst Told (sym (settled-some w a r e)) (r, e, refl)
  ]

  suppressed-Told : (r : Run (Attempt w) Bool) → Told (suppressed w r)
  unfolding suppressed
  suppressed-Told (returned b a) = settled-Told a
  suppressed-Told (raised timeout_error a) = settled-Told a
  suppressed-Told (raised assertion_error a) = λ e. absurd (cc)
  suppressed-Told (raised type_error a) = λ e. absurd (cc)
  suppressed-Told (raised value_error a) = λ e. absurd (cc)
  suppressed-Told (raised (other x) a) = λ e. absurd (cc)

  module _ (c : Clocked w) where
    abbrev at : Attempt w → ℕ
    at a = c.stamp a.world

    asserted_later :
        (a : Attempt w) (r : Run w.State (MatchResult w.Error))
        → at (left (asserted w a r)) ≡ c.stamp (left r)
    unfolding asserted
    asserted_later a (returned r s) = refl
    asserted_later a (raised e s) = refl

    refreshed_later : (a : Attempt w) → at a ≤ c.stamp (left (refreshed w a))
    unfolding refreshed
    refreshed_later a = elim (Bool-cases (ltb 0 a.tries)) [
      | inl e ↦ rw e (c.update_later a.world)
      | inr e ↦ rw e (omega arith)
    ]

    assert_try_later : (a : Attempt w) → at a ≤ at (left (assert_try w a))
    assert_try_later a = elim (Run-cases (refreshed w a)) [
      | inl (x, s, e) ↦
          let later = subst (λ z. at a ≤ c.stamp (left z)) e (refreshed_later a) in
          let next = c.assert_later s in
          rw (assert_try-asserted w a x s e) (rw (asserted_later a (w.assert_item s)) (omega arith))
      | inr (x, s, e) ↦
          rw (assert_try-raised w a x s e)
            (subst (λ z. at a ≤ c.stamp (left z)) e (refreshed_later a))
    ]

    paused_later : (delay : Option ℕ) (n : ℕ) (a : Attempt w) → at a ≤ at (paused w delay n a)
    paused_later delay zero a = omega arith
    paused_later none (suc n) a = omega arith
    paused_later (some d) (suc n) a = let lasts = c.sleep_lasts d a.world in omega arith

    proofs_loop_later :
        (delay : Option ℕ) (n : ℕ) (a : Attempt w) → at a ≤ at (left (proofs_loop w delay n a))
    unfolding proofs_loop
    proofs_loop_later delay zero a = omega arith
    proofs_loop_later delay (suc n) a = elim (Run-cases (assert_try w a)) [
      | inl (x, b, e) ↦
          let later = subst (λ z. at a ≤ at (left z)) e (assert_try_later a) in
          let rest = proofs_loop_later delay n (paused w delay n b) in
          let pause = paused_later delay n b in
          elim (Bool-cases (verdict w b.result)) [
            | inl v ↦ rw (proofs_loop-true w delay n a x b e v) (omega arith)
            | inr v ↦ rw (proofs_loop-false w delay n a x b e v) later
          ]
      | inr (x, b, e) ↦
          rw (proofs_loop-raised w delay n a x b e)
            (subst (λ z. at a ≤ at (left z)) e (assert_try_later a))
    ]

    -- The clock after one call of `__matches__` in the loop.
    round_later :
        (p : Polling) (a : Attempt w) (r : Run (Attempt w) Bool)
        → matches w p (record a { world = (w.time a.world).1 }) ≡ r
        → (w.time a.world).0 ≤ at (left r)
    unfolding matches
    round_later p a r e =
        let to = c.time_to a.world in
        let later =
          subst (λ z. c.stamp (w.time a.world).1 ≤ at (left z)) e
            (proofs_loop_later p.delay _ (record a { world = (w.time a.world).1 })) in
        omega arith

    waiting_ends :
        (p : Polling) (fuel deadline : ℕ) (a : Attempt w)
        → Moves p.delay
        → (deadline + 1) - at a < fuel
        → (r : Run (Attempt w) Bool) × (waiting w p fuel deadline a ≡ some r)
    waiting_ends p zero deadline a m h = absurd (omega arith)
    waiting_ends p (suc fuel) deadline a m h = elim (Bool-cases (leb (w.time a.world).0 deadline)) [
      | inr e ↦ (_, waiting-late w p fuel deadline a e)
      | inl e ↦ elim (Run-cases (matches w p (record a { world = (w.time a.world).1 }))) [
        | inr (x, b, h') ↦ (_, waiting-raised w p fuel deadline a x b e h')
        | inl (true, b, h') ↦ (_, waiting-true w p fuel deadline a b e h')
        | inl (false, b, h') ↦ elim (Option-cases p.delay) [
          | inl d ↦ (_, waiting-stuck w p fuel deadline a b e h' d)
          | inr (d, h'') ↦
              let from = c.time_from a.world in
              let later = round_later p a _ h' in
              let lasts = c.sleep_lasts d b.world in
              let moves = subst Moves h'' m in
              let in_time = leb_at_most (w.time a.world).0 deadline e in
              let (r, ends) = waiting_ends p fuel deadline (slept w d b) m (omega arith) in
              (r, waiting-again w p fuel deadline a b d e h' h'' ∙ ends)
        ]
      ]
    ]

    -- With the fuel for its timeout a matcher comes to an end, for any item and any verdicts: the clock
    -- passes the deadline, since each sleep between two attempts takes time. It then has a result and
    -- returns what this says, or raises an exception that is no TimeoutError.
    pub matches_item-ends :
        (p : Polling) (fuel : ℕ) (a : Attempt w)
        → Moves p.delay
        → Enough p.timeout fuel
        → (r : Run (Attempt w) Bool) × (matches_item w p fuel a ≡ some r) × Told r
    matches_item-ends p fuel a m h = elim (Option-cases p.timeout) [
      | inl e ↦ (_, matches_item-once w p fuel a e, suppressed-Told (matches w p a))
      | inr (t, e) ↦
          let enough = subst (λ z. Enough z fuel) e h in
          let to = c.time_to a.world in
          let (r, ends) =
            waiting_ends p fuel ((w.time a.world).0 + t) (record a { world = (w.time a.world).1 }) m
              (omega arith) in
          (_, matches_item-waited w p fuel a t r e ends, suppressed-Told r)
    ]
