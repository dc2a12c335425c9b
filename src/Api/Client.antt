-- ===== src/Api/Client.antt =====
-- The class Api of api/api.py: its sessions, `bind` and `request`.
use goga_tool_pybuggy.Prelude.{
  String, Bool, true, false, not, ◌&&◌, Option, none, some, List, [], ◌∷◌, map, Result, ok, err,
  Done, ◌>>=◌, ◌>>◌, raise_if, if◌then◌else◌, is_empty, keep,
}
use goga_tool_pybuggy.Prelude.Text.{Text}
use goga_tool_pybuggy.Prelude.Dict.{Dict, lookup, insert}
use goga_tool_pybuggy.Matchcrest.Python.{
  Raised, type_error, value_error, Run, returned, raised, and_then,
}
use goga_tool_pybuggy.Api.Web.{Web, Session, Sent}
use goga_tool_pybuggy.Api.Paths.{Params, resolve_params, substitute_path_params}
use text.Mathlib.Text.{◌==◌ as str_eq}
pub mod Synced
pub mod Requests

-- `json` of a call.
pub data Body (Model Object : Type 0) : Type 0 where
  model : Model → Body Model Object
  plain : Object → Body Model Object

-- `adapter not in _SYNC_ADAPTERS`
unfoldable pub validate_adapter : String → Result Raised Done
validate_adapter adapter = raise_if (not (str_eq adapter "requests")) value_error

-- `kwargs.pop(name, None)`
unfoldable pub popped : {V : Type 0} → String → Dict V → Dict V
popped name kwargs = keep (λ e. not (str_eq e.0 name)) kwargs

-- `{**defaults, **given}`
unfoldable pub merged : {V : Type 0} → Dict V → Dict V → Dict V
unfolding insert
merged defaults [] = defaults
merged defaults ((k, v) ∷ given) = merged (insert k v defaults) given

-- `kwargs.setdefault(name, default)`
abbrev pub set_default : {V : Type 0} → V → Option V → V
set_default default none = default
set_default default (some v) = v

module _ (web : Web) where
  open web use {Object, Model, Auth, Cookies, Response, State}

  abbrev pub Preflight : Type 0
  Preflight = (State → Run State Done) × (State → Run State Done)

  -- The object that `bind` is given; an attribute is there or not.
  pub record Target : Type 0 where
    pub base_url : Option Text
    pub url : Option Text
    pub apply_pending : Option (State → Run State Done)
    pub ensure_service : Option (State → Run State Done)

  pub record Client : Type 0 where
    pub default_adapter : String
    pub base_url : Text
    pub timeout : Option Object
    pub sessions : Dict (Session Object)
    pub client : Session Object
    pub auth : Option Auth
    pub headers : Dict String
    pub cookies : Option Cookies
    pub assert_timeout : Option Object
    pub assert_delay : Option Object
    pub assert_field_class : Option String
    pub assert_response_class : Option String
    pub preflight : Option Preflight

  -- The keyword arguments of a request; `timeout` and `delay` are among the rest.
  pub record Kwargs : Type 0 where
    pub params : Option (Params Model Object)
    pub json : Option (Body Model Object)
    pub headers : Option (Dict String)
    pub cookies : Option (Option Cookies)
    pub auth : Option (Option Auth)
    pub use_aliases : Bool
    pub adapter : Option String
    pub rest : Dict Object

  -- The fields that `__init__` sets by itself.
  unfoldable pub constructed : Client → Client
  constructed given = record given {
    sessions = [];
    client = record {
      url = given.base_url;
      adapter = given.default_adapter;
      timeout = given.timeout;
    };
    preflight = none;
  }

  -- `__init__`, for the fields that its arguments give
  unfoldable pub init : Client → Result Raised Client
  init given = validate_adapter given.default_adapter >> ok (constructed given)

  -- `getattr(target, "base_url", None) or getattr(target, "url", None)`, if this is not empty
  abbrev pub non_empty : Option Text → Option Text
  non_empty none = none
  non_empty (some s) = if is_empty s then none else some s

  abbrev pub or_else : Option Text → Option Text → Option Text
  or_else none other = other
  or_else (some s) other = some s

  unfoldable pub address : Target → Option Text
  address target = or_else (non_empty target.base_url) (non_empty target.url)

  abbrev pub both : {A B : Type 0} → Option A → Option B → Option (A × B)
  both none b = none
  both (some a) none = none
  both (some a) (some b) = some (a, b)

  unfoldable pub close_all : Dict (Session Object) → State → State
  close_all [] s = s
  close_all ((name, session) ∷ rest) s = close_all rest (web.close session s)

  -- `close`
  unfoldable pub close : Client → State → State
  unfolding close_all
  close api s = close_all api.sessions (web.close api.client s)

  -- The client over another address.
  unfoldable pub rebound : Target → Text → Client → Client
  rebound target url api = record api {
    preflight = both target.apply_pending target.ensure_service;
    sessions = [];
    client = record { url = url; adapter = api.default_adapter; timeout = api.timeout };
    base_url = url;
  }

  unfoldable pub bind : Target → Client → State → Run (Client × State) Done
  bind target api s = elim (address target) [
    | none ↦ raised type_error (api, s)
    | some url ↦ returned tt (rebound target url api, close api s)
  ]

  abbrev pub session_for : Client → String → Session Object
  session_for api adapter = record { url = api.base_url; adapter = adapter; timeout = api.timeout }

  -- The session of an adapter that is not the default one.
  unfoldable pub override_session : String → Client → Session Object × Client
  unfolding lookup insert
  override_session adapter api = elim (lookup adapter api.sessions) [
    | some session ↦ (session, api)
    | none ↦ (
      session_for api adapter,
      record api { sessions = insert adapter (session_for api adapter) api.sessions },
    )
  ]

  unfoldable pub get_session : String → Client → Result Raised (Session Object × Client)
  get_session adapter api = do
    validate_adapter adapter
    ok (
        if str_eq adapter api.default_adapter
        then (api.client, api)
        else override_session adapter api)

  abbrev pub dumped : Bool → Body Model Object → Object
  dumped use_aliases (model m) = web.dump_json m use_aliases
  dumped use_aliases (plain x) = x

  abbrev pub or_empty : {V : Type 0} → Option (Dict V) → Dict V
  or_empty none = []
  or_empty (some d) = d

  -- What the verb is called with, after `_inject_defaults` and the pops.
  unfoldable pub prepared :
      Text → Text → Kwargs → Client → Session Object → Sent Object Auth Cookies
  prepared method url_path kwargs api session =
      let (path, params) =
        substitute_path_params web url_path (resolve_params web kwargs.params kwargs.use_aliases) in
      record {
        session = session;
        verb = web.lower method;
        url_path = path;
        params = params;
        json = elim kwargs.json [ none ↦ none | some body ↦ some (dumped kwargs.use_aliases body) ];
        auth = set_default api.auth kwargs.auth;
        headers = merged api.headers (or_empty kwargs.headers);
        cookies = elim api.cookies [
          | none ↦ kwargs.cookies
          | some c ↦ some (set_default (some c) kwargs.cookies)
        ];
        rest = popped "delay" (popped "timeout" kwargs.rest);
      }

  unfoldable pub run_preflight : Option Preflight → State → Run State Done
  run_preflight none s = returned tt s
  run_preflight (some (apply_pending, ensure_service)) s =
      and_then (apply_pending s) λ _ s. ensure_service s

  -- The client is as it was, or has one more session.
  abbrev pub beside : {A : Type 0} → Client → Run State A → Run (Client × State) A
  beside api (returned x s) = returned x (api, s)
  beside api (raised e s) = raised e (api, s)

  unfoldable pub dispatch : Text → Text → Kwargs → Client → State → Run (Client × State) Response
  dispatch method url_path kwargs api s =
      elim (get_session (set_default api.default_adapter kwargs.adapter) api) [
        | err e ↦ raised e (api, s)
        | ok (session, api') ↦
            beside api' (web.send (prepared method url_path kwargs api session) s)
      ]

  unfoldable pub request : Text → Text → Kwargs → Client → State → Run (Client × State) Response
  request method url_path kwargs api s = elim (run_preflight api.preflight s) [
    | raised e s' ↦ raised e (api, s')
    | returned _ s' ↦ dispatch method url_path kwargs api s'
  ]
