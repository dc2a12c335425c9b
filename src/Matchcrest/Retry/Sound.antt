-- ===== src/Matchcrest/Retry/Sound.antt =====
-- A positive verdict of BaseMatcher._matches, with or without polling, rests on its proofs.
use goga_tool_pybuggy.Prelude.{
  ℕ, zero, suc, ◌+◌, ◌≡◌, ◌≢◌, refl, sym, ap, subst, ◌∙◌, Bool, true, false, Option, none, some,
  leb, arith, Bool-cases, Option-cases, ◌⊎◌, inl, inr,
}
use goga_tool_pybuggy.Matchcrest.Python.{
  Run-cases, assertion_error, type_error, value_error, timeout_error, other, Run, returned, raised,
}
use goga_tool_pybuggy.Matchcrest.Retry.{
  World, Polling, proofs_or_one, Attempt, verdict, slept, matches, waiting, waiting_for, settled,
  suppressed, matches_item, fresh,
}
use goga_tool_pybuggy.Matchcrest.Retry.Steps.{
  settled-some, waiting-late, waiting-raised, waiting-true, waiting-stuck, waiting-again,
  matches_item-once, matches_item-waited,
}
use goga_tool_pybuggy.Matchcrest.Retry.Proofs.{
  Quiet, Streak, parts, differ, true-false, proofs_loop-verdict, proofs_loop-Streak,
  proofs_loop_quiet,
}

pub some_parts : {A : Type 0} {x y : A} → some x ≡ some y → x ≡ y
some_parts h = cc

pub same_end : {A : Type 0} {x y : A} {o : Option A} → o ≡ some y → o ≡ some x → x ≡ y
same_end h h' = cc

none-some : {A : Type 0} {x : A} → none ≢ some x
none-some h = cc

module _ (w : World) (p : Polling) where
  open w use {State}

  -- Enough asserts in a row passed and led to the state.
  abbrev pub Earned : Attempt w → Type 0
  Earned b = (a : Attempt w) × Streak w p.delay (proofs_or_one p.proofs) a b

  -- What each way to end says before the TimeoutError is suppressed.
  abbrev Sound : Run (Attempt w) Bool → Type 0
  Sound (returned true b) = Earned b
  Sound (returned false b) = verdict w b.result ≡ false
  Sound (raised e b) = (e ≢ timeout_error) ⊎ (verdict w b.result ≡ false)

  settled-true :
      (a b : Attempt w) → settled w a ≡ returned true b → (verdict w a.result ≡ true) × (a ≡ b)
  unfolding settled
  settled-true a b h = elim (Option-cases a.result) [
    | inl e ↦ absurd (ground arith)
    | inr (r, e) ↦
        let same = parts (sym (settled-some w a r e) ∙ h) in (ap (verdict w) e ∙ same.0, same.1)
  ]

  suppressed-Earned :
      (r : Run (Attempt w) Bool) (b : Attempt w)
      → Sound r
      → suppressed w r ≡ returned true b
      → Earned b
  unfolding suppressed
  suppressed-Earned (returned true a) b s h = subst Earned (settled-true a b h).1 s
  suppressed-Earned (returned false a) b s h = absurd (true-false (sym (settled-true a b h).0 ∙ s))
  suppressed-Earned (raised timeout_error a) b (inl s) h = absurd (s refl)
  suppressed-Earned (raised timeout_error a) b (inr s) h =
      absurd (true-false (sym (settled-true a b h).0 ∙ s))
  suppressed-Earned (raised assertion_error a) b s h = absurd (differ h)
  suppressed-Earned (raised type_error a) b s h = absurd (differ h)
  suppressed-Earned (raised value_error a) b s h = absurd (differ h)
  suppressed-Earned (raised (other x) a) b s h = absurd (differ h)

  module _ (quiet : Quiet w) where
    matches-Sound : (a : Attempt w) (r : Run (Attempt w) Bool) → matches w p a ≡ r → Sound r
    unfolding matches
    matches-Sound a (returned true b) h = (a, proofs_loop-Streak w p.delay _ a b h)
    matches-Sound a (returned false b) h = proofs_loop-verdict w p.delay _ a b false h
    matches-Sound a (raised e b) h =
        inl λ t. proofs_loop_quiet w quiet p.delay _ a b (h ∙ ap (λ z. raised z b) t)

    waiting-Sound :
        (fuel deadline : ℕ) (a : Attempt w) (r : Run (Attempt w) Bool)
        → verdict w a.result ≡ false
        → waiting w p fuel deadline a ≡ some r
        → Sound r
    unfolding waiting
    waiting-Sound zero deadline a r v h = absurd (none-some h)
    waiting-Sound (suc fuel) deadline a r v h =
        elim (Bool-cases (leb (w.time a.world).0 deadline)) [
          | inr e ↦ subst Sound (same_end h (waiting-late w p fuel deadline a e)) (inr v)
          | inl e ↦ elim (Run-cases (matches w p (record a { world = (w.time a.world).1 }))) [
            | inr (x, b, m) ↦
                subst Sound (same_end h (waiting-raised w p fuel deadline a x b e m))
                  (matches-Sound _ (raised x b) m)
            | inl (true, b, m) ↦
                subst Sound (same_end h (waiting-true w p fuel deadline a b e m))
                  (matches-Sound _ (returned true b) m)
            | inl (false, b, m) ↦ elim (Option-cases p.delay) [
              | inl d ↦
                  subst Sound (same_end h (waiting-stuck w p fuel deadline a b e m d)) (inl λ t. cc)
              | inr (d, q) ↦
                  waiting-Sound fuel deadline (slept w d b) r (matches-Sound _ (returned false b) m)
                    (sym (waiting-again w p fuel deadline a b d e m q) ∙ h)
            ]
          ]
        ]

    matches_item-Sound :
        (fuel : ℕ) (a : Attempt w) (r : Run (Attempt w) Bool)
        → verdict w a.result ≡ false
        → matches_item w p fuel a ≡ some r
        → (r' : Run (Attempt w) Bool) × Sound r' × (suppressed w r' ≡ r)
    unfolding matches_item waiting_for
    matches_item-Sound fuel a r v h = elim (Option-cases p.timeout) [
      | inl e ↦ (_, matches-Sound a _ refl, same_end h (matches_item-once w p fuel a e))
      | inr (t, e) ↦
          elim (Option-cases
            (waiting w p fuel ((w.time a.world).0 + t) (record a { world = (w.time a.world).1 }))) [
              | inl none_left ↦ absurd (ground arith)
              | inr (r', run) ↦ (
                r',
                waiting-Sound fuel _ _ r' v run,
                same_end h (matches_item-waited w p fuel a t r' e run),
              )
            ]
    ]

    -- If no call of the item ends in a TimeoutError, a matcher that is polled in any way and says yes
    -- has seen as many asserts in a row pass as it wants proofs, up to the state it leaves; the item
    -- was updated before each of them but the first of all, and the pauses were made in between.
    pub matches_item-Streak :
        (fuel : ℕ) (s : State) (b : Attempt w)
        → matches_item w p fuel (fresh w s) ≡ some (returned true b)
        → (a : Attempt w) × Streak w p.delay (proofs_or_one p.proofs) a b
    matches_item-Streak fuel s b h =
        let (r, sound, e) = matches_item-Sound fuel (fresh w s) _ refl h in
        suppressed-Earned r b sound e
