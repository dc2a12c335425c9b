-- ===== src/Api/Client/Requests.antt =====
-- What Api.request of api/api.py hands to the verb.
use goga_tool_pybuggy.Prelude.{Bool, Option, none, some, [], ◌∷◌, ◌≡◌}
use goga_tool_pybuggy.Prelude.Text.{Text}
use goga_tool_pybuggy.Prelude.Dict.{Dict, lookup}
use goga_tool_pybuggy.Api.Web.{Web}
use goga_tool_pybuggy.Api.Client.{Body, model, plain, Client}
use text.Mathlib.Text.{◌==◌ as str_eq}

module _ {V : Type 0} where
  -- The later of two texts with their keys wins.
  abbrev pub preferred : Option V → Option V → Option V
  preferred none default = default
  preferred (some v) default = some v

  -- No key stands twice, as in a Python dict.
  abbrev pub KeysDiffer : Dict V → Type 0
  KeysDiffer [] = Unit
  KeysDiffer ((k, v) ∷ d) = (lookup k d ≡ none) × KeysDiffer d

module _ (web : Web) where
  open web use {Object, Model, Cookies}

  -- The body that a call gives: a model is dumped, by its aliases if the call wants this, anything else
  -- goes as it is, and no body is none.
  abbrev pub IsBody : Bool → Option (Body Model Object) → Option Object → Type 0
  IsBody use_aliases none sent = sent ≡ none
  IsBody use_aliases (some (model m)) sent = sent ≡ some (web.dump_json m use_aliases)
  IsBody use_aliases (some (plain x)) sent = sent ≡ some x

  -- The cookies of the call, if it gives any, be it `None`, or else those of the client, if it has any.
  abbrev pub IsCookies : Option (Option Cookies) → Option Cookies → Option (Option Cookies) → Type 0
  IsCookies (some given) default sent = sent ≡ some given
  IsCookies none (some default) sent = sent ≡ some (some default)
  IsCookies none none sent = sent ≡ none
