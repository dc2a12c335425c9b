-- ===== src/Sandbox/Operation.antt =====
-- DataOperation of sandbox/engines/operation.py
use goga_tool_pybuggy.Prelude.{String}
use goga_tool_pybuggy.Value.{Fields}

pub record DataOperation : Type 0 where
  pub instance_name : String
  pub kind : String
  pub action : String
  pub payload : Fields
