-- ===== src/Api/Web.antt =====
-- What api/api.py uses of the packages resq, requests and pydantic: a parameter.
use goga_tool_pybuggy.Prelude.{ℕ, String, Bool, Option, List}
use goga_tool_pybuggy.Prelude.Text.{Text}
use goga_tool_pybuggy.Prelude.Dict.{Dict}
use goga_tool_pybuggy.Matchcrest.Python.{Run}

-- The arguments of `resq.Session(url, adapter, timeout=timeout)`.
pub record Session (Object : Type 0) : Type 0 where
  pub url : Text
  pub adapter : String
  pub timeout : Option Object

-- A call of a verb: its positional argument and its keyword arguments, `none` for one not given.
pub record Sent (Object Auth Cookies : Type 0) : Type 0 where
  pub session : Session Object
  pub verb : Text
  pub url_path : Text
  pub params : List (Text × Object)
  pub json : Option Object
  pub auth : Option Auth
  pub headers : Dict String
  pub cookies : Option (Option Cookies)
  pub rest : Dict Object

pub record Web : Type 1 where
  pub Object : Type 0
  pub Model : Type 0
  pub Auth : Type 0
  pub Cookies : Type 0
  pub Response : Type 0
  -- Everything outside of the client: the services and the open connections.
  pub State : Type 0
  -- `str(x)`, `s.lower()`, and the class `\w`
  pub show : Object → Text
  pub lower : Text → Text
  pub is_word : ℕ → Bool
  -- `model.model_dump(by_alias=...)`, of parameters and of a body
  pub dump_params : Model → Bool → List (Text × Object)
  pub dump_json : Model → Bool → Object
  pub send : Sent Object Auth Cookies → State → Run State Response
  pub close : Session Object → State → State
