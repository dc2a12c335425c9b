-- ===== src/Sandbox/Engine.antt =====
-- BaseEngine of sandbox/engines/base.py: lifecycle, execution, journal and reset. The hooks that the
-- kind engines override, and the container engine behind them, are a parameter. Of the methods that
-- KafkaEngine extends around these, the check in front of `start` is the hook `check_start`; the flush
-- behind a group in its `_apply_operations` is not modelled, so that the hooks stand for the kinds
-- that keep this method of the base class.
pub mod Laws
use goga_tool_pybuggy.Prelude.{
  ℕ, String, Bool, true, false, Option, none, some, List, [], ◌∷◌, ◌++◌, if◌then◌else◌, Result, ok,
  err, Done,
}
use goga_tool_pybuggy.Sandbox.Operation.{DataOperation}

pub data Step : Type 0 where
  container_build container_start readiness_wait open_plane migrations wipe : Step
  operation : String → Step

-- The messages of `EngineError`: one that a hook raised itself, a failed step with its cause, and
-- the two that need a started service.
pub data EngineError : Type 0 where
  raised : String → EngineError
  failed : String → Step → String → EngineError
  not_started : String → String → EngineError
  no_address : String → EngineError

-- What a hook raises: an `EngineError`, or any other exception.
pub data Cause : Type 0 where
  engine_error : EngineError → Cause
  other : String → Cause

pub record Address : Type 0 where
  pub host : String
  pub port : ℕ

-- A call against the service, whose state is `P`.
abbrev pub Call : Type 0 → Type 0 → Type 0
Call P E = P → Result E Done × P

pub record Hooks (P : Type 0) : Type 0 where
  -- What a kind checks before the `start` of the base class runs; `ok` where it checks nothing.
  pub check_start : Result EngineError Done
  pub build_container : Option String → Call P Cause
  pub start_container : Call P Cause
  pub wait_ready : Call P Cause
  pub open_data_plane : Call P Cause
  pub migrate : Call P Cause
  pub execute : DataOperation → Call P Cause
  pub wipe_data : Call P Cause
  pub close_data_plane : Call P Cause
  pub stop_container : Call P Cause
  pub read_address : P → Result Cause Address

pub record Engine (P : Type 0) : Type 0 where
  pub name : String
  pub journal : List DataOperation
  pub started : Bool
  pub has_container : Bool
  pub network : Option String
  pub service : P

-- The `try` of `_run_step` and of `_run_operation`.
abbrev pub wrap_cause : String → Step → Cause → EngineError
wrap_cause name step (engine_error e) = e
wrap_cause name step (other cause) = failed name step cause

module _ {P : Type 0} where
  abbrev pub wrap : String → Step → Result Cause Done × P → Result EngineError Done × P
  wrap name step (ok _, p) = (ok tt, p)
  wrap name step (err cause, p) = (err (wrap_cause name step cause), p)

  unfoldable pub run_step : String → Step → Call P Cause → Call P EngineError
  run_step name step action p = wrap name step (action p)

  abbrev pub and_then :
      Result EngineError Done × P → Call P EngineError → Result EngineError Done × P
  and_then (ok _, p) next = next p
  and_then (err e, p) next = (err e, p)

  -- A teardown step: a failure is logged, the step's effect stays.
  unfoldable pub run_quietly : Call P Cause → P → P
  run_quietly action p = (action p).1

  abbrev pub with_service :
      Engine P → Result EngineError Done × P → Result EngineError Done × Engine P
  with_service e (r, p) = (r, record e { service = p })

  -- `record`
  unfoldable pub journal_operations : List DataOperation → Engine P → Engine P
  journal_operations ops e = record e { journal = e.journal ++ ops }

module _ {P : Type 0} (h : Hooks P) where
  pub run_operation : String → DataOperation → Call P EngineError
  unfolding run_step
  run_operation name op p = run_step name (operation op.action) (h.execute op) p

  unfoldable pub apply_operations : String → List DataOperation → Call P EngineError
  unfolding run_operation
  apply_operations name [] p = (ok tt, p)
  apply_operations name (op ∷ ops) p =
      and_then (run_operation name op p) (apply_operations name ops)

  -- `stop`
  unfoldable pub stop : Engine P → Engine P
  unfolding run_quietly
  stop e =
      let closed = run_quietly h.close_data_plane e.service in
      record e {
        started = false;
        has_container = false;
        service = if e.has_container then run_quietly h.stop_container closed else closed;
      }

  -- The steps of `start` behind the container build.
  unfoldable pub bring_up : String → List DataOperation → Call P EngineError
  unfolding run_step apply_operations
  bring_up name startup p = and_then (run_step name container_start h.start_container p) λ p₁.
      and_then (run_step name readiness_wait h.wait_ready p₁) λ p₂.
        and_then (run_step name open_plane h.open_data_plane p₂)
          λ p₃. and_then (run_step name migrations h.migrate p₃) (apply_operations name startup)

  -- The `except` of `start`: remove what was started, and raise again.
  finish_start :
      List DataOperation
      → Engine P
      → Result EngineError Done × P
      → Result EngineError Done × Engine P
  unfolding stop
  finish_start startup e (ok _, p) =
      (ok tt, record e { service = p; journal = e.journal ++ startup; started = true })
  finish_start startup e (err x, p) = (err x, stop (record e { service = p }))

  -- A failed build leaves `_container` as it was.
  build_then :
      List DataOperation
      → Engine P
      → Result EngineError Done × P
      → Result EngineError Done × Engine P
  unfolding bring_up finish_start
  build_then startup e (ok _, p) =
      finish_start startup (record e { has_container = true }) (bring_up e.name startup p)
  build_then startup e (err x, p) = finish_start startup e (err x, p)

  -- `BaseEngine.start`
  unfoldable pub start_base :
      List DataOperation → Option String → Engine P → Result EngineError Done × Engine P
  unfolding build_then run_step
  start_base startup network e =
      build_then startup (record e { network = network })
        (run_step e.name container_build (h.build_container network) e.service)

  unfoldable pub start :
      List DataOperation → Option String → Engine P → Result EngineError Done × Engine P
  unfolding start_base
  start startup network e = elim h.check_start [
    | ok _ ↦ start_base startup network e
    | err x ↦ (err x, e)
  ]

  unfoldable pub apply : List DataOperation → Engine P → Result EngineError Done × Engine P
  unfolding apply_operations
  apply ops e =
      if e.started
      then with_service e (apply_operations e.name ops e.service)
      else (err (not_started e.name "apply"), e)

  unfoldable pub reset : Engine P → Result EngineError Done × Engine P
  unfolding run_step apply_operations
  reset e =
      if e.started
      then with_service e (
          and_then (run_step e.name wipe h.wipe_data e.service) (apply_operations e.name e.journal))
      else (err (not_started e.name "reset"), e)

  unfoldable pub address : Engine P → Result Cause Address
  address e =
      if e.has_container then h.read_address e.service else err (engine_error (no_address e.name))
