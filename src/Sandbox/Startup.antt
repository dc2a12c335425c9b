-- ===== src/Sandbox/Startup.antt =====
-- Sandbox._startup_operations of sandbox/sandbox.py over the StartupData of
-- sandbox/config/startup_data.py
use goga_tool_pybuggy.Prelude.{
  String, none, some, List, [], ◌++◌, map, Result, ok, err, ◌>>=◌, traverse,
}
use goga_tool_pybuggy.Prelude.Dict.{Dict, lookup}
use goga_tool_pybuggy.Value
use goga_tool_pybuggy.Value.{Fields, Value, as_str, get, without}
use goga_tool_pybuggy.Sandbox.Operation.{DataOperation}
use goga_tool_pybuggy.Sandbox.Engine.{Cause}

pub record StartupData : Type 0 where
  pub vault : Dict (List Fields)
  pub http : Dict (List Fields)
  pub postgres : Dict (List String)
  pub redis : Dict (List Fields)

-- `section.get(name, [])`
abbrev pub declared {ℓ} : {A : Type ℓ} → String → Dict (List A) → List A
declared name section = elim (lookup name section) [ none ↦ [] | some declarations ↦ declarations ]

-- `declaration[key]`
require_key : String → Fields → Result Cause Value
unfolding get
require_key name d = elim (get name d) [ none ↦ err (Cause.other name) | some v ↦ ok v ]

-- A `DataOperation` wants a text action.
require_text : Value → Result Cause String
require_text v = elim (as_str (some v)) [ none ↦ err (Cause.other "action") | some s ↦ ok s ]

unfoldable pub vault_operation : String → Fields → Result Cause DataOperation
unfolding require_key
vault_operation name d = do
  path ← require_key "path" d
  secret ← require_key "data" d
  ok (record {
    instance_name = name;
    kind = "vault";
    action = "put";
    payload =
        Value.field (Value.named "path") path (Value.field (Value.named "data") secret Value.end);
  })

unfoldable pub http_operation : String → Fields → DataOperation
http_operation name mapping = record {
  instance_name = name;
  kind = "http";
  action = "stub";
  payload = mapping;
}

unfoldable pub postgres_operation : String → String → DataOperation
postgres_operation name statement = record {
  instance_name = name;
  kind = "postgresql";
  action = "insert";
  payload = Value.field (Value.named "sql") (Value.str statement) Value.end;
}

unfoldable pub redis_operation : String → Fields → Result Cause DataOperation
unfolding require_key require_text without
redis_operation name d = do
  action ← require_key "action" d
  action' ← require_text action
  ok (record {
    instance_name = name;
    kind = "redis";
    action = action';
    payload = without "action" d;
  })

unfoldable pub startup_operations : StartupData → String → Result Cause (List DataOperation)
unfolding lookup vault_operation http_operation postgres_operation redis_operation traverse
startup_operations sections name = do
  secrets ← traverse (vault_operation name) (declared name sections.vault)
  redis ← traverse (redis_operation name) (declared name sections.redis)
  ok (
      secrets
      ++ map (http_operation name) (declared name sections.http)
      ++ map (postgres_operation name) (declared name sections.postgres)
      ++ redis)
