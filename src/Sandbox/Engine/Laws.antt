-- ===== src/Sandbox/Engine/Laws.antt =====
-- What `start`, `stop`, `apply` and `reset` of sandbox/engines/base.py promise.
use goga_tool_pybuggy.Prelude.{
  String, ◌≡◌, refl, sym, ap, subst, ◌∙◌, Bool, true, false, Option, List, [], ◌∷◌, ◌++◌, Result,
  ok, err, Done, arith, ◌⊎◌, inl, inr, Bool-cases, Result-cases,
}
use goga_tool_pybuggy.Sandbox.Operation.{DataOperation}
use goga_tool_pybuggy.Sandbox.Engine.{
  Hooks, Engine, EngineError, and_then, run_step, run_operation, apply_operations, stop, start,
  start_base, build_then, finish_start, bring_up, apply, with_service, container_build, wrap, reset,
  Cause, wrap_cause, run_quietly, journal_operations,
}

module _ {P : Type 0} (h : Hooks P) where
  -- Executing a list is executing its parts in order.
  pub apply_operations-append :
      (name : String) (xs ys : List DataOperation) (p : P)
      → apply_operations h name (xs ++ ys) p
        ≡ and_then (apply_operations h name xs p) (apply_operations h name ys)
  unfolding apply_operations
  apply_operations-append name [] ys p = refl
  apply_operations-append name (x ∷ xs) ys p =
      ground (arith, apply_operations-append name xs ys (run_operation h name x p).1)

  -- What a teardown makes of a service: its data plane is closed, and then its container, if there
  -- is one, is stopped and removed. What the two hooks answer does not matter.
  abbrev pub torn_down : Bool → P → P
  torn_down true p = (h.stop_container (h.close_data_plane p).1).1
  torn_down false p = (h.close_data_plane p).1

  -- The engine after a teardown, with the state of its service torn down.
  abbrev pub TornDown : Engine P → Engine P → Type 0
  TornDown e e' =
      (e'.name ≡ e.name)
      × (e'.journal ≡ e.journal)
      × (e'.started ≡ false)
      × (e'.has_container ≡ false)
      × (e'.service ≡ torn_down e.has_container e.service)

  pub stop-TornDown : (e : Engine P) → TornDown e (stop h e)
  unfolding stop run_quietly
  stop-TornDown e = elim (Bool-cases e.has_container) [
    | inl b ↦ rw b (refl, refl, refl, refl, refl)
    | inr b ↦ rw b (refl, refl, refl, refl, refl)
  ]

  -- How far a start came that stopped with an error: the engine `f` that it had then. The build failed,
  -- or a later step failed on a service whose container is built.
  abbrev pub FailedAt :
      List DataOperation → Option String → Engine P → EngineError → Engine P → Type 0
  FailedAt startup network e x f =
      ((c : Cause) × (p : P) × (h.build_container network e.service ≡ (err c, p))
        × (x ≡ wrap_cause e.name container_build c)
        × (f ≡ record e { network = network; service = p }))
      ⊎ ((built p : P) × (h.build_container network e.service ≡ (ok tt, built))
          × (bring_up h e.name startup built ≡ (err x, p))
          × (f ≡ record e { network = network; has_container = true; service = p }))

  -- Of a start: either every step succeeded, and the service is started, in the state in which the
  -- last step left it, with its startup data at the end of its journal; or the kind refused the start,
  -- and nothing has happened; or a step failed, and the engine as this step left it is torn down.
  abbrev pub StartEnds :
      List DataOperation → Option String → Engine P → Result EngineError Done × Engine P → Type 0
  StartEnds startup network e (ok _, e') =
      (e'.started ≡ true)
      × (e'.has_container ≡ true)
      × (e'.journal ≡ e.journal ++ startup)
      × (built : P) × (h.build_container network e.service ≡ (ok tt, built))
      × (bring_up h e.name startup built ≡ (ok tt, e'.service))
  StartEnds startup network e (err x, e') =
      ((h.check_start ≡ err x) × (e' ≡ e))
      ⊎ ((f : Engine P) × FailedAt startup network e x f × TornDown f e')

  start-eq-start_base :
      (startup : List DataOperation) (network : Option String) (e : Engine P)
      → h.check_start ≡ ok tt
      → start h startup network e ≡ start_base h startup network e
  unfolding start
  start-eq-start_base startup network e c = ground arith

  start_refused :
      (startup : List DataOperation) (network : Option String) (e : Engine P) {x : EngineError}
      → h.check_start ≡ err x
      → start h startup network e ≡ (err x, e)
  unfolding start
  start_refused startup network e c = ground arith

  start-returned :
      (startup : List DataOperation) (network : Option String) (e : Engine P)
      → (start h startup network e).0 ≡ ok tt
      → start h startup network e ≡ start_base h startup network e
  start-returned startup network e o = elim (Result-cases h.check_start) [
    | inl (u, c) ↦ start-eq-start_base startup network e c
    | inr (x, c) ↦ absurd (ground (arith, start_refused startup network e c))
  ]

  -- Applied operations change the service and nothing else of the engine.
  pub apply-frame :
      (ops : List DataOperation) (e : Engine P)
      → (apply h ops e).1 ≡ record e { service = (apply h ops e).1.service }
  unfolding apply
  apply-frame ops e = ground arith

  apply-started :
      (ops : List DataOperation) (e : Engine P)
      → e.started ≡ true
      → apply h ops e ≡ with_service e (apply_operations h e.name ops e.service)
  unfolding apply
  apply-started ops e s = ground arith

  -- The startup data goes in behind every other step.
  bring_up-nil :
      (name : String) (startup : List DataOperation) (p : P)
      → bring_up h name startup p
        ≡ and_then (bring_up h name [] p) (apply_operations h name startup)
  unfolding bring_up apply_operations run_step
  bring_up-nil name startup p = ground arith

  module _ (empty : P) (wipes : (p : P) → h.wipe_data p ≡ (ok tt, empty)) where
    -- If the kind's wipe leads to one empty state, a reset of a started service is the replay of
    -- its journal from there, whatever state the service was in.
    reset-replay :
        (e : Engine P)
        → e.started ≡ true
        → reset h e ≡ with_service e (apply_operations h e.name e.journal empty)
    unfolding reset run_step
    reset-replay e s = ground (arith, wipes e.service)

    -- The journal, replayed on the empty state, gives the service's state.
    pub record AtBaseline (e : Engine P) : Type 0 where
      pub is_started : e.started ≡ true
      pub replays : apply_operations h e.name e.journal empty ≡ (ok tt, e.service)

    finish_start-AtBaseline :
        (startup : List DataOperation) (e : Engine P) (r : Result EngineError Done × P)
        → e.journal ≡ []
        → apply_operations h e.name startup empty ≡ r
        → (finish_start h startup e r).0 ≡ ok tt
        → AtBaseline (finish_start h startup e r).1
    unfolding finish_start
    finish_start-AtBaseline startup e (ok _, p) j ran o = record {
      is_started = refl;
      replays = ap (λ l. apply_operations h e.name (l ++ startup) empty) j ∙ ran;
    }
    finish_start-AtBaseline startup e (err x, p) j ran o = absurd (ground arith)

    -- If the container builds, and the steps up to the migrations lead to the empty state, a start
    -- that returns leaves a service with an empty journal at the baseline of its startup data.
    pub start-AtBaseline :
        (startup : List DataOperation) (network : Option String) (e : Engine P) (built : P)
        → e.journal ≡ []
        → h.build_container network e.service ≡ (ok tt, built)
        → bring_up h e.name [] built ≡ (ok tt, empty)
        → (start h startup network e).0 ≡ ok tt
        → AtBaseline (start h startup network e).1
    unfolding start_base build_then run_step
    start-AtBaseline startup network e built j b r o =
        let e' = record e { network = network; has_container = true } in
        let passed : start h startup network e ≡ start_base h startup network e =
          start-returned startup network e o in
        let ends : start h startup network e
            ≡ finish_start h startup e' (apply_operations h e.name startup empty) =
          passed
          ∙ ap
              (λ t.
                build_then h startup (record e { network = network })
                  (wrap e.name container_build t))
              b
          ∙ ap (finish_start h startup e') (
              bring_up-nil e.name startup built
              ∙ ap (λ t. and_then t (apply_operations h e.name startup)) r) in
        subst (λ t. AtBaseline t.1) (sym ends)
          (finish_start-AtBaseline startup e' (apply_operations h e.name startup empty) j refl
            (sym (ap (λ t. t.0) ends) ∙ o))

    -- What a baseline boundary does with each declared operation: if it succeeds, the service is
    -- at the baseline that its longer journal describes.
    pub declare-AtBaseline :
        (ops : List DataOperation) (e : Engine P)
        → AtBaseline e
        → (apply h ops e).0 ≡ ok tt
        → AtBaseline (journal_operations ops (apply h ops e).1)
    declare-AtBaseline ops e b o = rw (apply-started ops e b.is_started) (
        unfold journal_operations in
        record {
          is_started = b.is_started;
          replays =
              apply_operations-append e.name e.journal ops empty
              ∙ ap (λ r. and_then r (apply_operations h e.name ops)) b.replays
              ∙ succeeded;
        })
      where
        succeeded :
            apply_operations h e.name ops e.service
            ≡ (ok tt, (apply_operations h e.name ops e.service).1)
        succeeded = ground (arith, apply-started ops e b.is_started)

    -- A reset forgets what happened to the service's state.
    pub reset-drifted :
        (e : Engine P) (p : P) → AtBaseline e → reset h (record e { service = p }) ≡ (ok tt, e)
    reset-drifted e p b =
        reset-replay (record e { service = p }) b.is_started ∙ ap (with_service e) b.replays

    -- If the kind's wipe never fails and leads every state to one fixed state, then from a service at
    -- its baseline, after any operations of a test, whether they failed or not, a reset succeeds and
    -- gives back exactly the engine at its baseline.
    pub reset-apply :
        (ops : List DataOperation) (e : Engine P)
        → AtBaseline e
        → reset h (apply h ops e).1 ≡ (ok tt, e)
    reset-apply ops e b =
        ap (reset h) (apply-frame ops e) ∙ reset-drifted e (apply h ops e).1.service b
