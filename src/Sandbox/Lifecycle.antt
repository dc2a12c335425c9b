-- ===== src/Sandbox/Lifecycle.antt =====
-- start and stop of sandbox/sandbox.py, with the container of the instance under test of
-- sandbox/service_container.py. The container runtime and the template renderer are parameters.
pub mod Ends
use goga_tool_pybuggy.Prelude.{
  String, Bool, true, false, Option, none, some, List, [], ◌∷◌, if◌then◌else◌, Result, ok, err,
  Done,
}
use goga_tool_pybuggy.Prelude.Dict.{Dict, insert}
use goga_tool_pybuggy.Sandbox.Operation.{DataOperation}
use goga_tool_pybuggy.Sandbox.Engine
use goga_tool_pybuggy.Sandbox.Engine.{
  Hooks, Engine, EngineError, Address, Cause, Call, engine_error, run_quietly,
}
use goga_tool_pybuggy.Sandbox.Startup.{StartupData, startup_operations}

-- The container runtime, whose state is `W`, and the rendering of the instance's env.
pub record Runtime (W : Type 0) : Type 0 where
  pub check_runtime : Call W Cause
  pub new_network : String
  pub create_network : Call W Cause
  pub remove_network : String → Call W Cause
  pub render_env : Dict Address → Result Cause (Dict String)
  pub build_instance : Dict String → Option String → Call W Cause
  pub run_instance : Call W Cause
  pub instance_ready : Call W Cause
  pub stop_instance : Call W Cause
  -- The host and the port of the instance's container, as `base_url` reads them.
  pub read_base_url : W → Result Cause String

pub record Sandbox (P W : Type 0) : Type 0 where
  pub engines : Dict (Engine P)
  pub network : Option String
  pub has_instance : Bool
  pub world : W

abbrev pub Started : Type 0 → Type 0
Started P = Result Cause (Dict Address) × Dict (Engine P)

abbrev pub Ended : Type 0 → Type 0 → Type 0
Ended P W = Result Cause Done × Sandbox P W

module _ {P W : Type 0} (runtime : Runtime W) (hooks : String → Hooks P)
    (startup : StartupData) where
  -- `ServiceContainer.stop`
  stop_service : Sandbox P W → Sandbox P W
  unfolding run_quietly
  stop_service s =
      if s.has_instance
      then record s { has_instance = false; world = run_quietly runtime.stop_instance s.world }
      else s

  -- The engines stop in reverse order: those behind the first one before it.
  unfoldable pub stop_engines : Dict (Engine P) → Dict (Engine P)
  stop_engines [] = []
  stop_engines ((name, e) ∷ engines) =
      let rest = stop_engines engines in (name, Engine.stop (hooks name) e) ∷ rest

  -- `_remove_network`
  remove_network : Sandbox P W → Sandbox P W
  unfolding run_quietly
  remove_network s = elim s.network [
    | none ↦ s
    | some network ↦ record s {
      network = none;
      world = run_quietly (runtime.remove_network network) s.world;
    }
  ]

  unfoldable pub stop : Sandbox P W → Sandbox P W
  unfolding stop_service stop_engines remove_network
  stop s =
      let without_instance = stop_service s in
      remove_network (record without_instance { engines = stop_engines without_instance.engines })

  after_engine : String → Engine P → Started P → Started P
  after_engine name e (r, engines) = (r, (name, e) ∷ engines)

  publish :
      String
      → Engine P
      → Dict (Engine P)
      → (Dict Address → Started P)
      → Dict Address
      → Result Cause Address
      → Started P
  unfolding after_engine insert
  publish name e engines next addresses (ok a) =
      after_engine name e (next (insert name a addresses))
  publish name e engines next addresses (err c) = (err c, (name, e) ∷ engines)

  started_engine :
      String
      → Dict (Engine P)
      → (Dict Address → Started P)
      → Dict Address
      → Result EngineError Done × Engine P
      → Started P
  unfolding publish
  started_engine name engines next addresses (ok _, e) =
      publish name e engines next addresses (Engine.address (hooks name) e)
  started_engine name engines next addresses (err x, e) =
      (err (engine_error x), (name, e) ∷ engines)

  -- One round of `_start_engines`, with the startup operations of the service.
  start_engine :
      String
      → Engine P
      → Dict (Engine P)
      → Option String
      → (Dict Address → Started P)
      → Dict Address
      → Result Cause (List DataOperation)
      → Started P
  unfolding started_engine
  start_engine name e engines network next addresses (ok ops) =
      started_engine name engines next addresses (Engine.start (hooks name) ops network e)
  start_engine name e engines network next addresses (err c) = (err c, (name, e) ∷ engines)

  unfoldable pub start_engines : Option String → Dict (Engine P) → Dict Address → Started P
  unfolding start_engine startup_operations
  start_engines network [] addresses = (ok addresses, [])
  start_engines network ((name, e) ∷ engines) addresses =
      start_engine name e engines network (start_engines network engines) addresses
        (startup_operations startup name)

  in_world : Sandbox P W → Result Cause Done × W → Ended P W
  in_world s (r, w) = (r, record s { world = w })

  and_then : Ended P W → (Sandbox P W → Ended P W) → Ended P W
  and_then (ok _, s) next = next s
  and_then (err c, s) next = (err c, s)

  -- `ServiceContainer.start`: the container is kept as soon as it is built.
  start_service : Dict String → Sandbox P W → Ended P W
  unfolding in_world and_then
  start_service env s =
      and_then (in_world s (runtime.build_instance env s.network s.world)) λ built.
        let kept = record built { has_instance = true } in
        and_then (in_world kept (runtime.run_instance kept.world))
          λ running. in_world running (runtime.instance_ready running.world)

  start_rendered : Sandbox P W → Result Cause (Dict String) → Ended P W
  unfolding start_service
  start_rendered s (ok env) = start_service env s
  start_rendered s (err c) = (err c, s)

  with_addresses : Sandbox P W → Started P → Ended P W
  unfolding start_rendered
  with_addresses s (ok addresses, engines) =
      start_rendered (record s { engines = engines }) (runtime.render_env addresses)
  with_addresses s (err c, engines) = (err c, record s { engines = engines })

  -- The `try` of `start`.
  pub attempt : Sandbox P W → Ended P W
  unfolding in_world and_then with_addresses start_engines
  attempt s = and_then (in_world s (runtime.check_runtime s.world)) λ checked.
      let joined = record checked { network = some runtime.new_network } in
      and_then (in_world joined (runtime.create_network joined.world))
        λ created. with_addresses created (start_engines created.network created.engines [])

  -- Its `except`: stop, and raise again.
  pub or_stop : Ended P W → Ended P W
  unfolding stop
  or_stop (ok _, s) = (ok tt, s)
  or_stop (err c, s) = (err c, stop s)

  -- The log of a start that succeeded evaluates `base_url`, behind the `try`.
  unfoldable pub announced : Ended P W → Ended P W
  announced (ok _, s) = elim (runtime.read_base_url s.world) [
    | ok url ↦ (ok tt, s)
    | err c ↦ (err c, s)
  ]
  announced (err c, s) = (err c, s)

  unfoldable pub start : Sandbox P W → Ended P W
  unfolding attempt or_stop announced
  start s = announced (or_stop (attempt s))
