-- ===== src/Sandbox/Tests.antt =====
-- Runs of the sandbox on services that keep the list of their executed actions:
-- sandbox/engines/base.py, sandbox/sandbox.py
use text.Mathlib.Text.{◌==◌ as str_eq}
use goga_tool_pybuggy.Prelude.{
  ◌≡◌, refl, Result, Done, true, false, none, some, List, [], ◌∷◌, ok, err, String, if◌then◌else◌,
  ◌==◌, arith,
}
use goga_tool_pybuggy.Prelude.Dict.{lookup, insert}
use goga_tool_pybuggy.Value.{Value}
use goga_tool_pybuggy.Value
use goga_tool_pybuggy.Sandbox.Operation.{DataOperation}
use goga_tool_pybuggy.Sandbox.Startup.{StartupData}
use goga_tool_pybuggy.Sandbox.Engine.{
  Hooks, Engine, Cause, Call, bring_up, start, apply, reset, journal_operations, apply_operations,
  address,
}
use goga_tool_pybuggy.Sandbox.Engine.Laws.{
  AtBaseline, start-AtBaseline, declare-AtBaseline, reset-apply,
}
use goga_tool_pybuggy.Sandbox.Session.{
  Session, test, boundary, apply_pending, declare, clear, new_test_batch,
}
use goga_tool_pybuggy.Sandbox.Session.Isolation.{
  AllAtBaseline, here, further, pending, next_test, declaration, clear-TestRun,
}
use goga_tool_pybuggy.Sandbox.Session.Pending.{
  after_operations, apply_pending-of_service, apply_pending_again,
}
use goga_tool_pybuggy.Sandbox.Session.Batches.{declare-new_test_batch, declare-AllAtBaseline}
use goga_tool_pybuggy.Sandbox.Lifecycle
use goga_tool_pybuggy.Sandbox.Lifecycle.{Runtime, Sandbox}

-- The action `bad` is refused after it has left its trace.
abbrev execute : DataOperation → Call (List String) Cause
execute op p =
    if str_eq op.action "bad"
    then (err (Cause.other "refused"), "half" ∷ p)
    else (ok tt, op.action ∷ p)

abbrev keeps : Call (List String) Cause
keeps p = (ok tt, p)

abbrev hooks : Hooks (List String)
hooks = record {
  check_start = ok tt;
  build_container = λ _. keeps;
  start_container = keeps;
  wait_ready = keeps;
  open_data_plane = keeps;
  migrate = keeps;
  execute = execute;
  wipe_data = λ _. (ok tt, []);
  close_data_plane = keeps;
  stop_container = keeps;
  read_address = λ _. ok (record { host = "127.0.0.1"; port = 6379 });
}

abbrev op : String → String → DataOperation
op name action = record {
  instance_name = name;
  kind = "redis";
  action = action;
  payload = Value.end;
}

-- An engine whose journal is one `set`, with that state of its service.
abbrev engine : String → Engine (List String)
engine name = record {
  name = name;
  journal = op name "set" ∷ [];
  started = true;
  has_container = true;
  network = none;
  service = "set" ∷ [];
}

abbrev fresh : String → Engine (List String)
fresh name = record {
  name = name;
  journal = [];
  started = false;
  has_container = false;
  network = none;
  service = [];
}

engine-AtBaseline : (name : String) → AtBaseline hooks [] (λ p. refl) (engine name)
unfolding apply_operations
engine-AtBaseline name = record { is_started = refl; replays = refl }

start-AtBaseline_example :
    AtBaseline hooks [] (λ p. refl) (start hooks (op "cache" "set" ∷ []) none (fresh "cache")).1
unfolding start bring_up apply_operations
start-AtBaseline_example =
    start-AtBaseline hooks [] (λ p. refl) (op "cache" "set" ∷ []) none (fresh "cache") [] refl refl
      refl refl

declare-AtBaseline_example :
    AtBaseline hooks []
      (λ p. refl)
      (journal_operations
        (op "cache" "sadd" ∷ [])
        (apply hooks (op "cache" "sadd" ∷ []) (engine "cache")).1)
unfolding apply apply_operations
declare-AtBaseline_example =
    declare-AtBaseline hooks [] (λ p. refl) (op "cache" "sadd" ∷ []) (engine "cache")
      (engine-AtBaseline "cache") refl

reset-apply_example :
    reset hooks (apply hooks (op "cache" "hset" ∷ op "cache" "bad" ∷ []) (engine "cache")).1
    ≡ (ok tt, engine "cache")
reset-apply_example =
    reset-apply hooks [] (λ p. refl) (op "cache" "hset" ∷ op "cache" "bad" ∷ []) (engine "cache")
      (engine-AtBaseline "cache")

abbrev declared_operations : List DataOperation
declared_operations = op "cache" "hset" ∷ op "queue" "rpush" ∷ op "cache" "sadd" ∷ []

abbrev session : Session (List String)
session = record {
  kinds = ("cache", "redis") ∷ ("queue", "redis") ∷ [];
  engines = ("cache", engine "cache") ∷ ("queue", engine "queue") ∷ [];
  batches = λ n. if n == 0 then declared_operations else [];
  current = 0;
  next_batch = 1;
  boundary_open = false;
}

session-AllAtBaseline : AllAtBaseline (λ _. hooks) [] (λ _ p. refl) session.engines
session-AllAtBaseline = (engine-AtBaseline "cache", (engine-AtBaseline "queue", tt))

abbrev later : Session (List String)
later = (declare (λ _. hooks) (test 1) (op "queue" "bad") (new_test_batch session)).1

clear-TestRun_example :
    let t = (apply_pending (λ _. hooks) later).1 in
    ((clear (λ _. hooks) t).0 ≡ ok tt) × ((clear (λ _. hooks) t).1.engines ≡ session.engines)
clear-TestRun_example =
    clear-TestRun (λ _. hooks) [] (λ _ p. refl) session (apply_pending (λ _. hooks) later).1
      session-AllAtBaseline
      (further
        (further (further here (next_test session))
          (declaration 1 (op "queue" "bad") (new_test_batch session)))
        (pending later))

apply_pending-of_service_example :
    lookup "cache" (apply_pending (λ _. hooks) session).1.engines
    ≡ after_operations
        (λ _. hooks)
        "cache"
        (op "cache" "hset" ∷ op "cache" "sadd" ∷ [])
        (some (engine "cache"))
unfolding apply_pending lookup apply
apply_pending-of_service_example = apply_pending-of_service (λ _. hooks) session "cache" refl

apply_pending_again_example :
    let s' = (apply_pending (λ _. hooks) session).1 in
    (s'.batches s'.current ≡ [])
    × ((apply_pending (λ _. hooks) s').0 ≡ ok tt)
    × ((apply_pending (λ _. hooks) s').1.engines ≡ s'.engines)
apply_pending_again_example = apply_pending_again (λ _. hooks) session

declare-new_test_batch_example :
    let s' = new_test_batch session in
    (s'.batches s'.current ≡ [])
    × ((declare (λ _. hooks) (test 0) (op "cache" "set") s').1.batches s'.current ≡ [])
    × ((declare (λ _. hooks) (test s'.current) (op "cache" "set") s').1.batches s'.current
        ≡ op "cache" "set" ∷ [])
declare-new_test_batch_example =
    declare-new_test_batch (λ _. hooks) session 0 (op "cache" "set") (omega arith)

declare-AllAtBaseline_example :
    (e : Engine (List String)) × (lookup "cache" session.engines ≡ some e)
    × ((declare (λ _. hooks) boundary (op "cache" "sadd") session).1.engines
        ≡ insert "cache"
            (journal_operations (op "cache" "sadd" ∷ []) (apply hooks (op "cache" "sadd" ∷ []) e).1)
            session.engines)
    × AllAtBaseline
        (λ _. hooks)
        []
        (λ _ p. refl)
        (declare (λ _. hooks) boundary (op "cache" "sadd") session).1.engines
unfolding declare lookup apply
declare-AllAtBaseline_example =
    declare-AllAtBaseline (λ _. hooks) [] (λ _ p. refl) session (op "cache" "sadd")
      session-AllAtBaseline refl

-- A container runtime that keeps the list of its calls, with the answer of the readiness check.
abbrev logged : {A : Type 0} → A → String → List String → A × List String
logged answer what w = (answer, what ∷ w)

abbrev runtime : Result Cause Done → Runtime (List String)
runtime ready = record {
  check_runtime = logged (ok tt) "check";
  new_network = "net";
  create_network = logged (ok tt) "create";
  remove_network = λ n. logged (err (Cause.other "busy")) "remove";
  render_env = λ a. ok [];
  build_instance = λ env n. logged (ok tt) "build";
  run_instance = logged (ok tt) "run";
  instance_ready = logged ready "ready";
  stop_instance = logged (err (Cause.other "gone")) "stop";
  read_base_url = λ w. ok "http://127.0.0.1:8080";
}

abbrev no_data : StartupData
no_data = record { vault = []; http = []; postgres = []; redis = [] }

abbrev sandbox : Sandbox (List String) (List String)
sandbox = record {
  engines = ("cache", fresh "cache") ∷ [];
  network = none;
  has_instance = false;
  world = [];
}

abbrev late : Runtime (List String)
late = runtime (err (Cause.other "deadline"))

-- The instance is not ready in time: it is stopped, and the network removed, though both calls fail.
deadline_passed : Lifecycle.start late (λ _. hooks) no_data sandbox ≡ (
  err (Cause.other "deadline"),
  record {
    engines = ("cache", record (fresh "cache") { network = some "net" }) ∷ [];
    network = none;
    has_instance = false;
    world = "remove" ∷ "stop" ∷ "ready" ∷ "run" ∷ "build" ∷ "create" ∷ "check" ∷ [];
  },
)
unfolding Lifecycle.start start address
deadline_passed = refl

ready_in_time : (Lifecycle.start (runtime (ok tt)) (λ _. hooks) no_data sandbox).0 ≡ ok tt
unfolding Lifecycle.start start address
ready_in_time = refl
