-- ===== src/Config/Document.antt =====
-- `validate_sandbox_config` of sandbox/config/loader.py, and what is left of its checks
pub mod Validated
use text.Mathlib.Text.{◌==◌ as str_eq}
use goga_tool_pybuggy.Prelude.{
  String, Bool, true, false, not, Option, none, some, List, [], ◌∷◌, Result, ok, err, Done, ◌>>=◌,
  ◌>>◌, raise_if, any,
}
use goga_tool_pybuggy.Prelude.Dict.{Dict, keys}
use goga_tool_pybuggy.Value
use goga_tool_pybuggy.Value.{Value, Fields, Key, is_key, get, has, as_dict, entries}
use goga_tool_pybuggy.Sandbox.Startup.{StartupData}
use goga_tool_pybuggy.Config.Entry.{ServiceConfig}
use goga_tool_pybuggy.Config.Services.{Libraries, ServiceError, relabel, read_services}
use goga_tool_pybuggy.Config.Section.{SectionError, read_data}
use goga_tool_pybuggy.Config.Placeholders.{PlaceholderError, validate_placeholders}

-- The field that the loader reads.
pub record InstanceConfig : Type 0 where
  pub env : Dict String

pub record SandboxConfig : Type 0 where
  pub instance_config : InstanceConfig
  pub services : Dict ServiceConfig
  pub data_layer : StartupData

-- pydantic's constructors of the models that hold the whole document.
pub record Models : Type 0 where
  pub build_instance : Fields → Result String InstanceConfig
  pub build_data : Dict (Dict Value) → Result String StartupData
  pub build_config : SandboxConfig → Result String SandboxConfig

pub data DocumentError : Type 0 where
  renamed_key missing_mapping missing_field invalid_model : String → DocumentError
  unknown_key : Key → DocumentError
  in_services : ServiceError → DocumentError
  in_data : SectionError → DocumentError
  in_env : PlaceholderError → DocumentError

-- `_TOP_LEVEL_KEYS` and `_REQUIRED_INSTANCE_FIELDS`
abbrev pub top_level_keys : List String
top_level_keys = "instance" ∷ "services" ∷ "data" ∷ []

abbrev pub required_instance_fields : List String
required_instance_fields = "image" ∷ "env" ∷ "port" ∷ []

unfoldable pub keys_loop : List (Key × Value) → Result DocumentError Done
keys_loop [] = ok tt
keys_loop ((key, _) ∷ rest) =
    raise_if (not (any (λ n. is_key n key) top_level_keys)) (unknown_key key) >> keys_loop rest

unfoldable pub validate_top_level_keys : Fields → Result DocumentError Done
unfolding has keys_loop
validate_top_level_keys document = do
  raise_if (has "service" document) (renamed_key "service")
  raise_if (has "instances" document) (renamed_key "instances")
  keys_loop (entries document)

unfoldable pub mapping_entry : Fields → String → Result DocumentError Fields
unfolding get
mapping_entry parent key = elim (as_dict (get key parent)) [
  | none ↦ err (missing_mapping key)
  | some entry ↦ ok entry
]

unfoldable pub fields_loop : Fields → List String → Result DocumentError Done
unfolding has
fields_loop entry [] = ok tt
fields_loop entry (name ∷ names) =
    raise_if (not (has name entry)) (missing_field name) >> fields_loop entry names

module _ (libs : Libraries) (models : Models) where
  unfoldable pub read_instance : Fields → Result DocumentError InstanceConfig
  unfolding mapping_entry fields_loop
  read_instance document = do
    entry ← mapping_entry document "instance"
    fields_loop entry required_instance_fields
    relabel invalid_model (models.build_instance entry)

  unfoldable pub validate_sandbox_config : Fields → Result DocumentError SandboxConfig
  unfolding validate_top_level_keys read_instance read_services read_data validate_placeholders
  validate_sandbox_config document = do
    validate_top_level_keys document
    instance_config ← read_instance document
    services ← relabel in_services (read_services libs document)
    sections ← relabel in_data (read_data services document)
    data_layer ← relabel invalid_model (models.build_data sections)
    relabel in_env (validate_placeholders (keys services) instance_config.env)
    relabel invalid_model (
        models.build_config (record {
          instance_config = instance_config;
          services = services;
          data_layer = data_layer;
        }))
