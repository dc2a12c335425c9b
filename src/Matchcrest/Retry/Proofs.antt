-- ===== src/Matchcrest/Retry/Proofs.antt =====
-- What a positive verdict of BaseMatcher._matches rests on.
use goga_tool_pybuggy.Prelude.{
  ℕ, zero, suc, ◌≡◌, ◌≢◌, refl, sym, ap, subst, ◌∙◌, Bool, true, false, Option, Done, ltb, arith,
  Bool-cases, ◌⊎◌, inl, inr,
}
use goga_tool_pybuggy.Matchcrest.Python.{Run-cases, Raised, timeout_error, Run, returned, raised}
use goga_tool_pybuggy.Matchcrest.Verdict.{MatchResult}
use goga_tool_pybuggy.Matchcrest.Retry.{
  World, Attempt, verdict, refreshed, asserted, assert_try, paused, proofs_loop,
}
use goga_tool_pybuggy.Matchcrest.Retry.Steps.{
  assert_try-raised, assert_try-asserted, proofs_loop-raised, proofs_loop-false, proofs_loop-true,
}

-- No call of the item ends in a TimeoutError.
pub record Quiet (w : World) : Type 1 where
  pub update_quiet : (s z : w.State) → w.update s ≢ raised timeout_error z
  pub assert_quiet : (s z : w.State) → w.assert_item s ≢ raised timeout_error z

pub parts : {S A : Type 0} {x y : A} {s t : S} → returned x s ≡ returned y t → (x ≡ y) × (s ≡ t)
parts h = (cc, cc)

pub reason_of :
    {S A : Type 0} (r : Run S A) {e e' : Raised} {s t : S}
    → r ≡ raised e s
    → r ≡ raised e' t
    → e ≡ e'
reason_of r h h' = cc

pub differ : {S A : Type 0} {x : A} {e : Raised} {s t : S} → raised e s ≢ returned x t
differ h = cc

pub true-false : true ≢ false
true-false h = cc

module _ (w : World) where
  open w use {State, Error}

  -- `n` asserts in a row, each passed, lead from one state to the other; the item is updated and
  -- the pauses are made between them.
  pub data Streak (delay : Option ℕ) : ℕ → Attempt w → Attempt w → Type 0 where
    ended : {a : Attempt w} → Streak delay zero a a
    one_passed :
        {n : ℕ} {a b c : Attempt w} {x : Done}
        → assert_try w a ≡ returned x b
        → verdict w b.result ≡ true
        → Streak delay n (paused w delay n b) c
        → Streak delay (suc n) a c

  proofs_loop-cases :
      (delay : Option ℕ) (n : ℕ) (a b : Attempt w) (v : Bool)
      → proofs_loop w delay (suc n) a ≡ returned v b
      → (x : Done) × (c : Attempt w) × (assert_try w a ≡ returned x c)
        × (((verdict w c.result ≡ true)
              × (proofs_loop w delay n (paused w delay n c) ≡ returned v b))
            ⊎ ((verdict w c.result ≡ false) × (v ≡ false) × (c ≡ b)))
  proofs_loop-cases delay n a b v h = elim (Run-cases (assert_try w a)) [
    | inr (e, c, t) ↦ absurd (differ (sym (proofs_loop-raised w delay n a e c t) ∙ h))
    | inl (x, c, t) ↦ elim (Bool-cases (verdict w c.result)) [
      | inl p ↦ (x, c, t, inl (p, sym (proofs_loop-true w delay n a x c t p) ∙ h))
      | inr p ↦
          let same = parts (sym (proofs_loop-false w delay n a x c t p) ∙ h) in
          (x, c, t, inr (p, sym same.0, same.1))
    ]
  ]

  -- The value that the loop returns is the verdict of the last result.
  pub proofs_loop-verdict :
      (delay : Option ℕ) (n : ℕ) (a b : Attempt w) (v : Bool)
      → proofs_loop w delay n a ≡ returned v b
      → verdict w b.result ≡ v
  unfolding proofs_loop
  proofs_loop-verdict delay zero a b v h =
      let same = parts h in sym (ap (λ z. verdict w z.result) same.1) ∙ same.0
  proofs_loop-verdict delay (suc n) a b v h =
      let (x, c, t, way) = proofs_loop-cases delay n a b v h in
      elim way [
        | inl (p, rest) ↦ proofs_loop-verdict delay n (paused w delay n c) b v rest
        | inr (p, e, same) ↦ sym (ap (λ z. verdict w z.result) same) ∙ p ∙ sym e
      ]

  pub proofs_loop-Streak :
      (delay : Option ℕ) (n : ℕ) (a b : Attempt w)
      → proofs_loop w delay n a ≡ returned true b
      → Streak delay n a b
  unfolding proofs_loop
  proofs_loop-Streak delay zero a b h = subst (Streak delay zero a) (parts h).1 ended
  proofs_loop-Streak delay (suc n) a b h =
      let (x, c, t, way) = proofs_loop-cases delay n a b true h in
      elim way [
        | inl (p, rest) ↦ one_passed t p (proofs_loop-Streak delay n (paused w delay n c) b rest)
        | inr (p, e, same) ↦ absurd (true-false e)
      ]

  module _ (quiet : Quiet w) where
    refreshed_quiet : (a : Attempt w) (z : State) → refreshed w a ≢ raised timeout_error z
    unfolding refreshed
    refreshed_quiet a z h = elim (Bool-cases (ltb 0 a.tries)) [
      | inl e ↦ quiet.update_quiet a.world z (ground arith)
      | inr e ↦ ground arith
    ]

    asserted_quiet :
        (a z : Attempt w) (r : Run State (MatchResult Error))
        → ((s : State) → r ≢ raised timeout_error s)
        → asserted w a r ≢ raised timeout_error z
    unfolding asserted
    asserted_quiet a z (returned r s) q h = cc
    asserted_quiet a z (raised e s) q h = q s (ap (λ z. raised z s) (reason_of _ refl h))

    assert_try_quiet : (a z : Attempt w) → assert_try w a ≢ raised timeout_error z
    assert_try_quiet a z h = elim (Run-cases (refreshed w a)) [
      | inl (x, s, e) ↦
          asserted_quiet a z (w.assert_item s) (quiet.assert_quiet s)
            (sym (assert_try-asserted w a x s e) ∙ h)
      | inr (x, s, e) ↦
          refreshed_quiet a s
            (e ∙ ap (λ z. raised z s) (reason_of _ (assert_try-raised w a x s e) h))
    ]

    pub proofs_loop_quiet :
        (delay : Option ℕ) (n : ℕ) (a z : Attempt w)
        → proofs_loop w delay n a ≢ raised timeout_error z
    unfolding proofs_loop
    proofs_loop_quiet delay zero a z h = absurd (differ (sym h))
    proofs_loop_quiet delay (suc n) a z h = elim (Run-cases (assert_try w a)) [
      | inr (e, c, t) ↦
          assert_try_quiet a c
            (t ∙ ap (λ z. raised z c) (reason_of _ (proofs_loop-raised w delay n a e c t) h))
      | inl (x, c, t) ↦ elim (Bool-cases (verdict w c.result)) [
        | inl p ↦
            proofs_loop_quiet delay n (paused w delay n c) z
              (sym (proofs_loop-true w delay n a x c t p) ∙ h)
        | inr p ↦ differ (sym h ∙ proofs_loop-false w delay n a x c t p)
      ]
    ]
