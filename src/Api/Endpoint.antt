-- ===== src/Api/Endpoint.antt =====
-- The class Endpoint of api/endpoint.py: one request for each call.
use goga_tool_pybuggy.Prelude.{ℕ, Bool, Option, none, some, List, ok, err, String}
use goga_tool_pybuggy.Prelude.Text.{Text}
use goga_tool_pybuggy.Matchcrest.Python.{Run, returned, raised, and_then}
use goga_tool_pybuggy.Api.Web.{Web}
use goga_tool_pybuggy.Api.Client.{Client, Kwargs, request, set_default}
use goga_tool_pybuggy.Api.Auth.{Signing, Signer, CallAuth, resolve_call_auth}

-- `expected_status` of the constructor: an int, or a member of an Enum over one.
pub data Status : Type 0 where
  number : ℕ → Status
  member : ℕ → Status

abbrev pub status_value : Status → ℕ
status_value (number n) = n
status_value (member n) = n

-- AssertConfig of api/asserts/config.py
pub record AssertConfig (Object Folder : Type 0) : Type 0 where
  pub expected_status : Option ℕ
  pub schemas_dir : Option Folder
  pub timeout : Option Object
  pub delay : Option Object
  pub assert_field_class : Option String
  pub assert_response_class : Option String

-- The folder of schemas is the one beside the caller's file.
pub record Endpoint (Folder : Type 0) : Type 0 where
  pub url_path : Text
  pub method : Text
  pub expected_status : Option ℕ
  pub use_autocheck : Bool
  pub adapter : Option String
  pub schemas_dir : Option Folder

-- The arguments of ResponseWrapper.
pub record Wrapped (Object Folder Response : Type 0) : Type 0 where
  pub response : Response
  pub config : AssertConfig Object Folder
  pub use_autocheck : Bool
  pub is_negative : Bool

abbrev pub own_auth :
    (web : Web) (signing : Signing) → (web.Auth → signing.Auth) → Client web → Option signing.Auth
own_auth web signing seen api = elim api.auth [ none ↦ none | some auth ↦ some (seen auth) ]

module _ (web : Web) (signing : Signing) {Folder : Type 0} where
  open web use {Object, Response, State}

  unfoldable pub config_of : Endpoint Folder → Client web → AssertConfig Object Folder
  config_of endpoint api = record {
    expected_status = endpoint.expected_status;
    schemas_dir = endpoint.schemas_dir;
    timeout = api.assert_timeout;
    delay = api.assert_delay;
    assert_field_class = api.assert_field_class;
    assert_response_class = api.assert_response_class;
  }

  -- The request and the wrapper over its response.
  unfoldable pub issue :
      Endpoint Folder
      → Bool
      → Bool
      → Kwargs web
      → Client web
      → State
      → Run (Client web × State) (Wrapped Object Folder Response)
  issue endpoint is_negative autocheck kwargs api s =
      and_then
        (request web endpoint.method endpoint.url_path
          (record kwargs { adapter = endpoint.adapter }) api s)
        λ raw after.
          returned
            (record {
              response = raw;
              config = config_of endpoint api;
              use_autocheck = autocheck;
              is_negative = is_negative;
            })
            after

  -- `_call`: `seen` takes the client's authenticator for what `Signing` knows of it, and `combined`
  -- is a CombineAuth as requests sees it.
  unfoldable pub call :
      (web.Auth → signing.Auth)
      → (List (Signer signing) → web.Auth)
      → Endpoint Folder
      → Bool
      → Option Bool
      → Option (CallAuth signing)
      → Kwargs web
      → Client web
      → State
      → Run (Client web × State) (Wrapped Object Folder Response)
  call seen combined endpoint is_negative use_autocheck auth kwargs api s =
      let autocheck = set_default endpoint.use_autocheck use_autocheck in
      elim auth [
        | none ↦ issue endpoint is_negative autocheck (record kwargs { auth = none }) api s
        | some given ↦ elim (resolve_call_auth signing (own_auth web signing seen api) given) [
          | err e ↦ raised e (api, s)
          | ok chain ↦
              issue endpoint is_negative autocheck
                (record kwargs { auth = some (some (combined chain)) }) api s
        ]
      ]
