-- ===== src/Matchcrest/Retry/Steps.antt =====
-- The steps of BaseMatcher._matches and waiting_for, one equation for each way on.
use goga_tool_pybuggy.Prelude.{
  ℕ, suc, ◌+◌, ◌≤◌, ◌≡◌, Bool, true, false, Option, none, some, Done, leb, arith,
}
use goga_tool_pybuggy.Matchcrest.Python.{Raised, type_error, timeout_error, Run, returned, raised}
use goga_tool_pybuggy.Matchcrest.Verdict.{MatchResult, is_passed}
use goga_tool_pybuggy.Matchcrest.Retry.{
  World, Polling, Attempt, verdict, refreshed, asserted, assert_try, slept, paused, proofs_loop,
  matches, waiting, waiting_for, settled, suppressed, matches_item,
}

pub leb_at_most : (a b : ℕ) → leb a b ≡ true → a ≤ b
leb_at_most a b h = ground arith

module _ (w : World) where
  open w use {State, Error}

  pub settled-some :
      (a : Attempt w) (r : MatchResult Error)
      → a.result ≡ some r
      → settled w a ≡ returned (is_passed r) a
  unfolding settled
  settled-some a r e = ground arith

  pub assert_try-raised :
      (a : Attempt w) (e : Raised) (s : State)
      → refreshed w a ≡ raised e s
      → assert_try w a ≡ raised e (record a { world = s })
  unfolding assert_try
  assert_try-raised a e s h = ground arith

  pub assert_try-asserted :
      (a : Attempt w) (x : Done) (s : State)
      → refreshed w a ≡ returned x s
      → assert_try w a ≡ asserted w a (w.assert_item s)
  unfolding assert_try
  assert_try-asserted a x s h = ground arith

  module _ (delay : Option ℕ) (n : ℕ) (a : Attempt w) where
    pub proofs_loop-raised :
        (e : Raised) (b : Attempt w)
        → assert_try w a ≡ raised e b
        → proofs_loop w delay (suc n) a ≡ raised e b
    unfolding proofs_loop
    proofs_loop-raised e b h = ground arith

    pub proofs_loop-false :
        (x : Done) (b : Attempt w)
        → assert_try w a ≡ returned x b
        → verdict w b.result ≡ false
        → proofs_loop w delay (suc n) a ≡ returned false b
    unfolding proofs_loop
    proofs_loop-false x b h v = ground arith

    pub proofs_loop-true :
        (x : Done) (b : Attempt w)
        → assert_try w a ≡ returned x b
        → verdict w b.result ≡ true
        → proofs_loop w delay (suc n) a ≡ proofs_loop w delay n (paused w delay n b)
    unfolding proofs_loop
    proofs_loop-true x b h v = ground arith

  module _ (p : Polling) (fuel deadline : ℕ) (a : Attempt w) where
    pub waiting-late :
        leb (w.time a.world).0 deadline ≡ false
        → waiting w p (suc fuel) deadline a
          ≡ some (raised timeout_error (record a { world = (w.time a.world).1 }))
    unfolding waiting
    waiting-late h = ground arith

    pub waiting-raised :
        (e : Raised) (b : Attempt w)
        → leb (w.time a.world).0 deadline ≡ true
        → matches w p (record a { world = (w.time a.world).1 }) ≡ raised e b
        → waiting w p (suc fuel) deadline a ≡ some (raised e b)
    unfolding waiting
    waiting-raised e b h m = ground arith

    pub waiting-true :
        (b : Attempt w)
        → leb (w.time a.world).0 deadline ≡ true
        → matches w p (record a { world = (w.time a.world).1 }) ≡ returned true b
        → waiting w p (suc fuel) deadline a ≡ some (returned true b)
    unfolding waiting
    waiting-true b h m = ground arith

    pub waiting-stuck :
        (b : Attempt w)
        → leb (w.time a.world).0 deadline ≡ true
        → matches w p (record a { world = (w.time a.world).1 }) ≡ returned false b
        → p.delay ≡ none
        → waiting w p (suc fuel) deadline a ≡ some (raised type_error b)
    unfolding waiting
    waiting-stuck b h m d = ground arith

    pub waiting-again :
        (b : Attempt w) (delay : ℕ)
        → leb (w.time a.world).0 deadline ≡ true
        → matches w p (record a { world = (w.time a.world).1 }) ≡ returned false b
        → p.delay ≡ some delay
        → waiting w p (suc fuel) deadline a ≡ waiting w p fuel deadline (slept w delay b)
    unfolding waiting
    waiting-again b delay h m d = ground arith

  module _ (p : Polling) (fuel : ℕ) (a : Attempt w) where
    pub matches_item-once :
        p.timeout ≡ none → matches_item w p fuel a ≡ some (suppressed w (matches w p a))
    unfolding matches_item
    matches_item-once h = ground arith

    pub matches_item-waited :
        (t : ℕ) (r : Run (Attempt w) Bool)
        → p.timeout ≡ some t
        → waiting w p fuel ((w.time a.world).0 + t) (record a { world = (w.time a.world).1 })
          ≡ some r
        → matches_item w p fuel a ≡ some (suppressed w r)
    unfolding matches_item waiting_for
    matches_item-waited t r h e = ground arith
