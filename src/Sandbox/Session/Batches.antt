-- ===== src/Sandbox/Session/Batches.antt =====
-- Where a declared operation goes: sandbox/sandbox.py, sandbox/data/batch.py, sandbox/baseline.py.
use goga_tool_pybuggy.Prelude.{
  ℕ, ◌<◌, String, ◌≡◌, some, [], ◌∷◌, ok, arith, inl, inr, Option-cases,
}
use goga_tool_pybuggy.Prelude.Dict.{lookup, insert, All-lookup, All-insert}
use goga_tool_pybuggy.Sandbox.Operation.{DataOperation}
use goga_tool_pybuggy.Sandbox.Engine
use goga_tool_pybuggy.Sandbox.Engine.{Hooks}
use goga_tool_pybuggy.Sandbox.Engine.Laws.{AtBaseline, declare-AtBaseline}
use goga_tool_pybuggy.Sandbox.Session.{
  test, boundary, Session, new_test_batch, view, open_boundary, close_boundary, require_service,
  declare,
}
use goga_tool_pybuggy.Sandbox.Session.Isolation.{AllAtBaseline}

module _ {P : Type 0} (hooks : String → Hooks P) where
  -- Outside a boundary, a view of the current test adds its operation at the end of the pending
  -- ones; a view made before the last `new_test_batch` adds nothing to them, and they start empty.
  pub declare-new_test_batch :
      (s : Session P) (old : ℕ) (op : DataOperation)
      → old < s.next_batch
      → let s' = new_test_batch s in
        (s'.batches s'.current ≡ [])
        × ((declare hooks (test old) op s').1.batches s'.current ≡ [])
        × ((declare hooks (test s'.current) op s').1.batches s'.current ≡ op ∷ [])
  unfolding declare new_test_batch
  declare-new_test_batch s old op h = (ground arith, ground arith, ground arith)

  -- The view of a configured service refers to the batch that is current: the boundary batch
  -- while the boundary is open, that of the test again once it is closed.
  view-boundary :
      (s : Session P) (kind name : String)
      → require_service kind name s ≡ ok tt
      → (view kind name (open_boundary s) ≡ ok boundary)
        × (view kind name (close_boundary s) ≡ ok (test s.current))
  unfolding view open_boundary close_boundary require_service
  view-boundary s kind name h = (ground arith, ground arith)

  declare-ok :
      (s : Session P) (op : DataOperation) (e : Engine.Engine P)
      → lookup op.instance_name s.engines ≡ some e
      → (Engine.apply (hooks op.instance_name) (op ∷ []) e).0 ≡ ok tt
      → (declare hooks boundary op s).1.engines
        ≡ insert op.instance_name
            (Engine.journal_operations
              (op ∷ [])
              (Engine.apply (hooks op.instance_name) (op ∷ []) e).1)
            s.engines
  unfolding declare
  declare-ok s op e l d = ground arith

  module _ (empty : P)
      (wipes : (name : String) (p : P) → (hooks name).wipe_data p ≡ (ok tt, empty)) where
    -- A declaration through a boundary's view that returns has run at once, and has made the
    -- operation the last of its service's journal. If every service was in the state that its
    -- journal describes, every service is so again, with the longer journal.
    pub declare-AllAtBaseline :
        (s : Session P) (op : DataOperation)
        → AllAtBaseline hooks empty wipes s.engines
        → (declare hooks boundary op s).0 ≡ ok tt
        → (e : Engine.Engine P) × (lookup op.instance_name s.engines ≡ some e)
          × ((declare hooks boundary op s).1.engines
              ≡ insert op.instance_name
                  (Engine.journal_operations
                    (op ∷ [])
                    (Engine.apply (hooks op.instance_name) (op ∷ []) e).1)
                  s.engines)
          × AllAtBaseline hooks empty wipes (declare hooks boundary op s).1.engines
    declare-AllAtBaseline s op b h = elim (Option-cases (lookup op.instance_name s.engines)) [
      | inl l ↦ absurd (unfold declare in ground arith)
      | inr (e, l) ↦
          let done : (Engine.apply (hooks op.instance_name) (op ∷ []) e).0 ≡ ok tt =
            unfold declare in ground arith in
          let at =
            All-lookup (λ entry. AtBaseline (hooks entry.0) empty (wipes entry.0) entry.1)
              op.instance_name s.engines b l in
          let next =
            declare-AtBaseline (hooks op.instance_name) empty (wipes op.instance_name) (op ∷ []) e
              at done in
          let step = declare-ok s op e l done in
          (
            e,
            l,
            step,
            rw step (
                All-insert (λ entry. AtBaseline (hooks entry.0) empty (wipes entry.0) entry.1)
                  op.instance_name _ s.engines b next),
          )
    ]
