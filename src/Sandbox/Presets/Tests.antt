-- ===== src/Sandbox/Presets/Tests.antt =====
-- A run of enqueue_presets of sandbox/sandbox.py
use goga_tool_pybuggy.Prelude.{◌≡◌, refl, [], ◌∷◌, ok, err, false, ℕ, String}
use goga_tool_pybuggy.Value
use goga_tool_pybuggy.Value.{Value, Fields, get, without}
use goga_tool_pybuggy.Sandbox.Engine.{Hooks, Cause}
use goga_tool_pybuggy.Sandbox.Session.{
  Session, declare, current_batch, require_service, preset_action,
}
use goga_tool_pybuggy.Sandbox.Presets.{Presets, preset_operation, enqueue_presets}
use goga_tool_pybuggy.Sandbox.Presets.Order.{Appended, of_presets, enqueue_presets-Appended}

abbrev hooks : Hooks ℕ
hooks = record {
  check_start = ok tt;
  build_container = λ _ p. (ok tt, p);
  start_container = λ p. (ok tt, p);
  wait_ready = λ p. (ok tt, p);
  open_data_plane = λ p. (ok tt, p);
  migrate = λ p. (ok tt, p);
  execute = λ _ p. (ok tt, p);
  wipe_data = λ p. (ok tt, 0);
  close_data_plane = λ p. (ok tt, p);
  stop_container = λ p. (ok tt, p);
  read_address = λ p. err (Cause.other "no address");
}

abbrev session : Session ℕ
session = record {
  kinds = ("db", "postgresql") ∷ ("cache", "redis") ∷ [];
  engines = [];
  batches = λ _. [];
  current = 0;
  next_batch = 1;
  boundary_open = false;
}

abbrev pair : String → Value → Fields → Fields
pair name v d = Value.field (Value.named name) v d

abbrev presets : Presets
presets =
    (
      "redis",
      (
        "cache",
        Value.dict (pair "action" (Value.str "set") (pair "key" (Value.str "k") Value.end)) ∷ [],
      )
          ∷ [],
    )
    ∷ ("postgresql", ("db", Value.dict (pair "sql" (Value.str "x") Value.end) ∷ []) ∷ [])
    ∷ []

enqueue_presets-Appended_example :
    Appended
      (λ _. hooks)
      (of_presets presets)
      0
      session
      2
      (enqueue_presets (λ _. hooks) presets session).1
unfolding enqueue_presets preset_operation declare current_batch require_service
enqueue_presets-Appended_example =
    enqueue_presets-Appended (λ _. hooks) presets 2 session
      (enqueue_presets (λ _. hooks) presets session).1 refl refl

unknown_action :
    preset_operation "redis" "cache" (Value.dict (pair "action" (Value.str "flushall") Value.end))
    ≡ err (preset_action "cache")
unfolding preset_operation
unknown_action = refl
