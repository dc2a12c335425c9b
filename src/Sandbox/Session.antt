-- ===== src/Sandbox/Session.antt =====
-- Sandbox of sandbox/sandbox.py, with DataBatch of sandbox/data/batch.py and BoundaryBatch and
-- BaselineBoundary of sandbox/baseline.py. The views of a service hold a reference to the batch that
-- was current when they were made, so the batches stand in a store.
pub mod Isolation
pub mod Pending
pub mod Batches
use text.Mathlib.Text.{◌==◌ as str_eq}
use goga_tool_pybuggy.Prelude.{
  ℕ, ◌+◌, String, Bool, true, false, Option, none, some, List, [], ◌∷◌, ◌++◌, map, if◌then◌else◌,
  Result, ok, err, Done, ◌==◌,
}
use goga_tool_pybuggy.Prelude.Dict.{Dict, lookup, insert}
use goga_tool_pybuggy.Sandbox.Operation.{DataOperation}
use goga_tool_pybuggy.Sandbox.Engine
use goga_tool_pybuggy.Sandbox.Engine.{Hooks, Engine, EngineError, Cause, engine_error}

-- What a call of the sandbox raises; the last is a `KeyError` on the engines.
pub data SandboxError : Type 0 where
  from_cause : Cause → SandboxError
  no_service : String → String → SandboxError
  preset_not_mapping preset_action preset_invalid no_engine : String → SandboxError

-- A reference to a `DataBatch` of a test, or to a `BoundaryBatch`.
pub data BatchRef : Type 0 where
  test : ℕ → BatchRef
  boundary : BatchRef

-- `kinds` is the kind of each configured service. The flag `boundary_open` is set and reset
-- together with the boundary batch, which holds the engines and nothing of its own.
pub record Session (P : Type 0) : Type 0 where
  pub kinds : Dict String
  pub engines : Dict (Engine P)
  pub batches : ℕ → List DataOperation
  pub current : ℕ
  pub next_batch : ℕ
  pub boundary_open : Bool

abbrev pub update : (ℕ → List DataOperation) → ℕ → List DataOperation → ℕ → List DataOperation
update batches n ops m = if m == n then ops else batches m

abbrev pub Outcome : Type 0 → Type 0
Outcome P = Result SandboxError Done × Session P

module _ {P : Type 0} where
  -- `_current_batch`
  unfoldable pub current_batch : Session P → BatchRef
  current_batch s = if s.boundary_open then boundary else test s.current

  unfoldable pub new_test_batch : Session P → Session P
  new_test_batch s = record s {
    batches = update s.batches s.next_batch [];
    current = s.next_batch;
    next_batch = s.next_batch + 1;
  }

  -- `BaselineBoundary.open` and `close`
  unfoldable pub open_boundary : Session P → Session P
  open_boundary s = record s { boundary_open = true }

  unfoldable pub close_boundary : Session P → Session P
  close_boundary s = record s { boundary_open = false }

  -- `DataBatch.take` on the current test's batch
  unfoldable pub take_pending : Session P → List DataOperation × Session P
  take_pending s = (s.batches s.current, record s { batches = update s.batches s.current [] })

  unfoldable pub require_service : String → String → Session P → Result SandboxError Done
  unfolding lookup
  require_service kind name s = elim (lookup name s.kinds) [
    | none ↦ err (no_service kind name)
    | some k ↦ if str_eq k kind then ok tt else err (no_service kind name)
  ]

  -- `_view`: the reference that a view of the service holds
  unfoldable pub view : String → String → Session P → Result SandboxError BatchRef
  unfolding require_service current_batch
  view kind name s = elim (require_service kind name s) [
    | ok _ ↦ ok (current_batch s)
    | err e ↦ err e
  ]

module _ {P : Type 0} where
  abbrev pub with_engines :
      Session P → Result SandboxError Done × Dict (Engine P) → Result SandboxError Done × Session P
  with_engines s (r, engines) = (r, record s { engines = engines })

-- `groups.setdefault(operation.instance, []).append(operation)`
unfoldable pub add_to_group : DataOperation → Dict (List DataOperation) → Dict (List DataOperation)
unfolding lookup insert
add_to_group op groups =
    insert op.instance_name
      (elim (lookup op.instance_name groups) [ none ↦ op ∷ [] | some ops ↦ ops ++ op ∷ [] ]) groups

unfoldable pub group_from :
    Dict (List DataOperation) → List DataOperation → Dict (List DataOperation)
unfolding add_to_group
group_from groups [] = groups
group_from groups (op ∷ ops) = group_from (add_to_group op groups) ops

-- An `EngineError` passes through.
raised_by : Result EngineError Done → Result SandboxError Done
raised_by (ok _) = ok tt
raised_by (err e) = err (from_cause (engine_error e))

-- The engines, each with the hooks of its kind, which keeps `_apply_operations` of BaseEngine.
module _ {P : Type 0} (hooks : String → Hooks P) where
  store_engine :
      String
      → Result EngineError Done × Engine P
      → Dict (Engine P)
      → Result SandboxError Done × Dict (Engine P)
  unfolding raised_by insert
  store_engine name (r, e) engines = (raised_by r, insert name e engines)

  -- `self.engines[service].apply(group)`
  unfoldable pub apply_to :
      String → List DataOperation → Dict (Engine P) → Result SandboxError Done × Dict (Engine P)
  unfolding store_engine lookup
  apply_to name ops engines = elim (lookup name engines) [
    | none ↦ (err (no_engine name), engines)
    | some e ↦ store_engine name (Engine.apply (hooks name) ops e) engines
  ]

  continue :
      (Dict (Engine P) → Result SandboxError Done × Dict (Engine P))
      → Result SandboxError Done × Dict (Engine P)
      → Result SandboxError Done × Dict (Engine P)
  continue k (ok _, engines) = k engines
  continue k (err e, engines) = (err e, engines)

  unfoldable pub apply_groups :
      Dict (List DataOperation) → Dict (Engine P) → Result SandboxError Done × Dict (Engine P)
  unfolding apply_to continue
  apply_groups [] engines = (ok tt, engines)
  apply_groups ((name, ops) ∷ groups) engines =
      continue (apply_groups groups) (apply_to name ops engines)

  unfoldable pub apply_pending : Session P → Outcome P
  unfolding take_pending group_from apply_groups
  apply_pending s =
      let (ops, taken) = take_pending s in
      with_engines taken (apply_groups (group_from [] ops) taken.engines)

  recorded :
      DataOperation
      → Result EngineError Done × Engine P
      → Dict (Engine P)
      → Result SandboxError Done × Dict (Engine P)
  unfolding insert
  recorded op (ok _, e) engines =
      (ok tt, insert op.instance_name (Engine.journal_operations (op ∷ []) e) engines)
  recorded op (err x, e) engines =
      (err (from_cause (engine_error x)), insert op.instance_name e engines)

  -- `BoundaryBatch.add`: apply, then record.
  declare_in_boundary : DataOperation → Dict (Engine P) → Result SandboxError Done × Dict (Engine P)
  unfolding lookup recorded
  declare_in_boundary op engines = elim (lookup op.instance_name engines) [
    | none ↦ (err (no_engine op.instance_name), engines)
    | some e ↦ recorded op (Engine.apply (hooks op.instance_name) (op ∷ []) e) engines
  ]

  -- `batch.add(operation)` through a view's reference
  unfoldable pub declare : BatchRef → DataOperation → Session P → Outcome P
  unfolding declare_in_boundary
  declare (test n) op s =
      (ok tt, record s { batches = update s.batches n (s.batches n ++ op ∷ []) })
  declare boundary op s = with_engines s (declare_in_boundary op s.engines)

  -- `clear`: every engine is reset, in declaration order, up to the first that fails.
  reset_next :
      String
      → Dict (Engine P)
      → Result SandboxError Done × Dict (Engine P)
      → Result EngineError Done × Engine P
      → Result SandboxError Done × Dict (Engine P)
  reset_next name engines rest (ok _, e) = (rest.0, (name, e) ∷ rest.1)
  reset_next name engines rest (err x, e) = (err (from_cause (engine_error x)), (name, e) ∷ engines)

  pub reset_all : Dict (Engine P) → Result SandboxError Done × Dict (Engine P)
  unfolding reset_next
  reset_all [] = (ok tt, [])
  reset_all ((name, e) ∷ engines) =
      let rest = reset_all engines in reset_next name engines rest (Engine.reset (hooks name) e)

  unfoldable pub clear : Session P → Outcome P
  unfolding reset_all
  clear s = with_engines s (reset_all s.engines)
