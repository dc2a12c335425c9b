-- ===== src/Sandbox/Session/Isolation.antt =====
-- Tests do not reach one another through the sandbox: sandbox/sandbox.py, sandbox/baseline.py.
use text.Mathlib.TextEquality.{eq_iff}
use goga_tool_pybuggy.Prelude.{
  ℕ, String, ◌≡◌, refl, ap, sym, ◌∙◌, none, some, List, [], ◌∷◌, Result, ok, err, Done, arith, All,
  inl, inr, Option-cases,
}
use goga_tool_pybuggy.Prelude.Dict.{Dict, lookup, insert}
use goga_tool_pybuggy.Sandbox.Operation.{DataOperation}
use goga_tool_pybuggy.Sandbox.Engine
use goga_tool_pybuggy.Sandbox.Engine.{Hooks}
use goga_tool_pybuggy.Sandbox.Engine.Laws.{AtBaseline, reset-drifted, apply-frame}
use goga_tool_pybuggy.Sandbox.Session.{
  test, Session, SandboxError, new_test_batch, take_pending, apply_to, apply_groups, group_from,
  apply_pending, declare, reset_all, reset_next, continue, no_engine, clear,
}

module _ {P : Type 0} where
  -- The engines `now` are those of `base`, each with another state of its service at most.
  abbrev pub Drifted : Dict (Engine.Engine P) → Dict (Engine.Engine P) → Type 0
  Drifted [] [] = Unit
  Drifted [] (x ∷ now) = ⊥
  Drifted (x ∷ base) [] = ⊥
  Drifted (x ∷ base) (y ∷ now) =
      (x.0 ≡ y.0) × (y.1 ≡ record x.1 { service = y.1.service }) × Drifted base now

  Drifted-refl : (base : Dict (Engine.Engine P)) → Drifted base base
  Drifted-refl [] = tt
  Drifted-refl (x ∷ base) = (refl, refl, Drifted-refl base)

  Drifted-insert :
      (name : String) (base now : Dict (Engine.Engine P)) (e e' : Engine.Engine P)
      → Drifted base now
      → lookup name now ≡ some e
      → e' ≡ record e { service = e'.service }
      → Drifted base (insert name e' now)
  unfolding lookup insert
  Drifted-insert name [] [] e e' d l f = absurd (ground arith)
  Drifted-insert name [] (y ∷ now) e e' d l f = absurd d
  Drifted-insert name (x ∷ base) [] e e' d l f = absurd d
  Drifted-insert name (x ∷ base) (y ∷ now) e e' d l f =
      ground (arith, eq_iff y.0 name, Drifted-insert name base now e e' d.2)

module _ {P : Type 0} (hooks : String → Hooks P) where
  pub apply_to-none :
      (name : String) (ops : List DataOperation) (now : Dict (Engine.Engine P))
      → lookup name now ≡ none
      → apply_to hooks name ops now ≡ (err (no_engine name), now)
  unfolding apply_to
  apply_to-none name ops now l = ground arith

  pub apply_to-some :
      (name : String) (ops : List DataOperation) (now : Dict (Engine.Engine P))
      {e : Engine.Engine P}
      → lookup name now ≡ some e
      → (apply_to hooks name ops now).1 ≡ insert name (Engine.apply (hooks name) ops e).1 now
  unfolding apply_to
  apply_to-some name ops now l = ground arith

  apply_to-Drifted :
      (name : String) (ops : List DataOperation) (base now : Dict (Engine.Engine P))
      → Drifted base now
      → Drifted base (apply_to hooks name ops now).1
  apply_to-Drifted name ops base now d = elim (Option-cases (lookup name now)) [
    | inl l ↦ rw (apply_to-none name ops now l) d
    | inr (e, l) ↦ rw (apply_to-some name ops now l) (
        Drifted-insert name base now e (Engine.apply (hooks name) ops e).1 d l
          (apply-frame (hooks name) ops e))
  ]

  continue-Drifted :
      (base : Dict (Engine.Engine P))
      (k : Dict (Engine.Engine P) → Result SandboxError Done × Dict (Engine.Engine P))
      (r : Result SandboxError Done × Dict (Engine.Engine P))
      → Drifted base r.1
      → ((now : Dict (Engine.Engine P)) → Drifted base now → Drifted base (k now).1)
      → Drifted base (continue hooks k r).1
  unfolding continue
  continue-Drifted base k (ok u, now) d f = f now d
  continue-Drifted base k (err e, now) d f = d

  apply_groups-Drifted :
      (groups : Dict (List DataOperation)) (base now : Dict (Engine.Engine P))
      → Drifted base now
      → Drifted base (apply_groups hooks groups now).1
  unfolding apply_groups
  apply_groups-Drifted [] base now d = d
  apply_groups-Drifted ((name, ops) ∷ groups) base now d =
      continue-Drifted base (apply_groups hooks groups) (apply_to hooks name ops now)
        (apply_to-Drifted name ops base now d) (λ later. apply_groups-Drifted groups base later)

  -- What may happen outside a baseline boundary: the product starts the next test's batch, a test
  -- declares an operation through any batch reference that a view holds, the pending operations are
  -- applied, and the services are cleared; an operation may fail at any point.
  pub data TestStep : Session P → Session P → Type 0 where
    next_test : (s : Session P) → TestStep s (new_test_batch s)
    declaration :
        (n : ℕ) (op : DataOperation) (s : Session P) → TestStep s (declare hooks (test n) op s).1
    pending : (s : Session P) → TestStep s (apply_pending hooks s).1
    reset : (s : Session P) → TestStep s (clear hooks s).1

  pub data TestRun (s : Session P) : Session P → Type 0 where
    here : TestRun s s
    further : {t u : Session P} → TestRun s t → TestStep t u → TestRun s u

  module _ (empty : P)
      (wipes : (name : String) (p : P) → (hooks name).wipe_data p ≡ (ok tt, empty)) where
    abbrev pub AllAtBaseline : Dict (Engine.Engine P) → Type 0
    AllAtBaseline = All (λ entry. AtBaseline (hooks entry.0) empty (wipes entry.0) entry.1)

    reset_all-Drifted :
        (base now : Dict (Engine.Engine P))
        → AllAtBaseline base
        → Drifted base now
        → reset_all hooks now ≡ (ok tt, base)
    unfolding reset_all
    reset_all-Drifted [] [] b d = refl
    reset_all-Drifted [] (x ∷ now) b d = absurd d
    reset_all-Drifted (x ∷ base) [] b d = absurd d
    reset_all-Drifted (x ∷ base) (y ∷ now) b d =
        ap (λ r. reset_next hooks y.0 now (reset_all hooks now) r)
          (ap (λ k. Engine.reset (hooks k) y.1) (sym d.0)
            ∙ ap (Engine.reset (hooks x.0)) d.1
            ∙ reset-drifted (hooks x.0) empty (wipes x.0) x.1 y.1.service b.0)
        ∙ ap (λ rest. (rest.0, (y.0, x.1) ∷ rest.1)) (reset_all-Drifted base now b.1 d.2)
        ∙ ap (λ k. (ok tt, (k, x.1) ∷ base)) (sym d.0)

    TestStep-Drifted :
        (base : Dict (Engine.Engine P)) {t u : Session P}
        → AllAtBaseline base
        → TestStep t u
        → Drifted base t.engines
        → Drifted base u.engines
    unfolding new_test_batch declare apply_pending clear take_pending
    TestStep-Drifted base b (next_test t) d = d
    TestStep-Drifted base b (declaration n op t) d = d
    TestStep-Drifted base b (pending t) d =
        apply_groups-Drifted (group_from [] (t.batches t.current)) base t.engines d
    TestStep-Drifted base b (reset t) d =
        rw (ap (λ r. r.1) (reset_all-Drifted base t.engines b d)) (Drifted-refl base)

    TestRun-Drifted :
        (s : Session P) {t : Session P}
        → AllAtBaseline s.engines
        → TestRun s t
        → Drifted s.engines t.engines
    TestRun-Drifted s b here = Drifted-refl s.engines
    TestRun-Drifted s b (further r st) = TestStep-Drifted s.engines b st (TestRun-Drifted s b r)

    -- If every engine's service is in the state that its journal describes, and the wipe of each
    -- kind leads to one empty state, then after any run of test steps, with whatever failures,
    -- `clear` succeeds and gives every engine back exactly as it was.
    pub clear-TestRun :
        (s t : Session P)
        → AllAtBaseline s.engines
        → TestRun s t
        → ((clear hooks t).0 ≡ ok tt) × ((clear hooks t).1.engines ≡ s.engines)
    unfolding clear
    clear-TestRun s t b r =
        let back = reset_all-Drifted s.engines t.engines b (TestRun-Drifted s b r) in
        (ap (λ r. r.0) back, ap (λ r. r.1) back)
