-- ===== src/Config/Document/Validated.antt =====
-- What a validated sandbox document is: sandbox/config/loader.py
use goga_tool_pybuggy.Prelude.{
  ◌≡◌, refl, Option, none, some, ok, >>=-eq-ok, arith, All, List, [], ◌∷◌, not, any, raise_if,
  raise_if-eq-ok, Bool, true, false, Done,
}
use goga_tool_pybuggy.Sandbox.Startup.{StartupData}
use goga_tool_pybuggy.Prelude.Text.{codes}
use goga_tool_pybuggy.Prelude.Dict.{Dict, keys}
use goga_tool_pybuggy.Value.{Value, Fields, Key, is_key, get, has, entries}
use goga_tool_pybuggy.Config.Entry.{ServiceConfig}
use goga_tool_pybuggy.Config.Services.{Libraries, relabel, read_services}
use goga_tool_pybuggy.Config.Services.Migrated.{relabel-eq-ok}
use goga_tool_pybuggy.Config.Services.Accepted.{AcceptedEntry, read_services-AcceptedEntry}
use goga_tool_pybuggy.Config.Section.{section_kinds, read_data}
use goga_tool_pybuggy.Config.Section.Targets.{Section, read_data-Section}
use goga_tool_pybuggy.Config.Placeholders.{validate_placeholders}
use goga_tool_pybuggy.Config.Placeholders.Pieces.{Accepted, validate_placeholders-Accepted}
use goga_tool_pybuggy.Config.Document.{
  InstanceConfig, SandboxConfig, Models, in_services, in_data, in_env, invalid_model,
  validate_top_level_keys, keys_loop, unknown_key, top_level_keys, read_instance,
  validate_sandbox_config,
}

abbrev pub Services : Libraries → Option Value → Type 0
Services libs none = Unit
Services libs (some (Value.dict raw)) = All (AcceptedEntry libs) (entries raw)
Services libs (some _) = ⊥

abbrev pub Data : Dict ServiceConfig → Option Value → Type 0
Data services none = Unit
Data services (some (Value.dict raw)) = All (Section services raw) section_kinds
Data services (some _) = ⊥

keys_loop-known :
    (raw : List (Key × Value)) {u : Done}
    → keys_loop raw ≡ ok u
    → All (λ entry. any (λ n. is_key n entry.0) top_level_keys ≡ true) raw
unfolding keys_loop
keys_loop-known [] h = tt
keys_loop-known ((key, v) ∷ rest) h =
    let (_, e, h') =
      >>=-eq-ok (raise_if (not (any (λ n. is_key n key) top_level_keys)) (unknown_key key)) _ h in
    (not_false (raise_if-eq-ok _ _ e), keys_loop-known rest h')
  where
    not_false : {b : Bool} → not b ≡ false → b ≡ true
    not_false {b} h = ground arith

module _ (libs : Libraries) (models : Models) where
  read_services-Services :
      (document : Fields) (services : Dict ServiceConfig) (v : Option Value)
      → get "services" document ≡ v
      → read_services libs document ≡ ok services
      → Services libs v
  read_services-Services document services none given h = tt
  read_services-Services document services (some (Value.dict raw)) given h =
      read_services-AcceptedEntry libs document raw given h
  read_services-Services document services (some Value.null) given h =
      absurd (unfold read_services in ground arith)
  read_services-Services document services (some (Value.bool _)) given h =
      absurd (unfold read_services in ground arith)
  read_services-Services document services (some (Value.int _)) given h =
      absurd (unfold read_services in ground arith)
  read_services-Services document services (some (Value.float _)) given h =
      absurd (unfold read_services in ground arith)
  read_services-Services document services (some (Value.str _)) given h =
      absurd (unfold read_services in ground arith)
  read_services-Services document services (some (Value.list _)) given h =
      absurd (unfold read_services in ground arith)

  read_data-Data :
      (document : Fields) (services : Dict ServiceConfig) (v : Option Value)
      {sections : Dict (Dict Value)}
      → get "data" document ≡ v
      → read_data services document ≡ ok sections
      → Data services v
  read_data-Data document services none given h = tt
  read_data-Data document services (some (Value.dict raw)) given h =
      read_data-Section services document raw given h
  read_data-Data document services (some Value.null) given h =
      absurd (unfold read_data in ground arith)
  read_data-Data document services (some (Value.bool _)) given h =
      absurd (unfold read_data in ground arith)
  read_data-Data document services (some (Value.int _)) given h =
      absurd (unfold read_data in ground arith)
  read_data-Data document services (some (Value.float _)) given h =
      absurd (unfold read_data in ground arith)
  read_data-Data document services (some (Value.str _)) given h =
      absurd (unfold read_data in ground arith)
  read_data-Data document services (some (Value.list _)) given h =
      absurd (unfold read_data in ground arith)

  -- The parts of a validated document and of the model made of it. The instance is the one that the
  -- document declares, the sections are those of the document over its services, and the returned
  -- model is built from exactly these parts.
  pub record Validated (document : Fields) (config : SandboxConfig) : Type 0 where
    pub instance_config : InstanceConfig
    pub configured : Dict ServiceConfig
    pub sections : Dict (Dict Value)
    pub data_layer : StartupData
    pub keys_known :
        All (λ entry. any (λ n. is_key n entry.0) top_level_keys ≡ true) (entries document)
    pub instance_read : read_instance libs models document ≡ ok instance_config
    pub read : read_services libs document ≡ ok configured
    pub services_valid : Services libs (get "services" document)
    pub data_valid : Data configured (get "data" document)
    pub env_valid : All (λ entry. Accepted (keys configured) (codes entry.1)) instance_config.env
    pub sections_read : read_data configured document ≡ ok sections
    pub data_built : models.build_data sections ≡ ok data_layer
    pub built :
        models.build_config (record {
          instance_config = instance_config;
          services = configured;
          data_layer = data_layer;
        })
        ≡ ok config

  validate_top_level_keys-known :
      (document : Fields) {u : Done}
      → validate_top_level_keys document ≡ ok u
      → All (λ entry. any (λ n. is_key n entry.0) top_level_keys ≡ true) (entries document)
  unfolding validate_top_level_keys
  validate_top_level_keys-known document h =
      let (_, _, h₁) = >>=-eq-ok (raise_if (has "service" document) _) _ h in
      let (_, _, h₂) = >>=-eq-ok (raise_if (has "instances" document) _) _ h₁ in
      keys_loop-known (entries document) h₂

  -- If the loader returns a model, every top-level key of the document is a known one, every service
  -- entry is accepted, every target of the data layer is a configured service of the section's kind
  -- with checked declarations, every placeholder in the env of the instance that the document
  -- declares names a configured service, and the model is built from this instance, these services
  -- and this data layer.
  pub validate_sandbox_config-Validated :
      (document : Fields) (config : SandboxConfig)
      → validate_sandbox_config libs models document ≡ ok config
      → Validated document config
  unfolding validate_sandbox_config
  validate_sandbox_config-Validated document config h =
      let (_, k, h₁) = >>=-eq-ok (validate_top_level_keys document) _ h in
      let (i, ir, h₂) = >>=-eq-ok (read_instance libs models document) _ h₁ in
      let (services, s, h₃) = >>=-eq-ok (relabel in_services (read_services libs document)) _ h₂ in
      let (sections, d, h₄) = >>=-eq-ok (relabel in_data (read_data services document)) _ h₃ in
      let (data_layer, b, h₅) =
        >>=-eq-ok (relabel invalid_model (models.build_data sections)) _ h₄ in
      let (_, e, h₆) =
        >>=-eq-ok (relabel in_env (validate_placeholders (keys services) i.env)) _ h₅ in
      let read = relabel-eq-ok in_services (read_services libs document) s in
      record {
        instance_config = i;
        configured = services;
        sections = sections;
        data_layer = data_layer;
        keys_known = validate_top_level_keys-known document k;
        instance_read = ir;
        read = read;
        services_valid =
            read_services-Services document services (get "services" document) refl read;
        data_valid =
            read_data-Data document services (get "data" document) refl
              (relabel-eq-ok in_data (read_data services document) d);
        env_valid =
            validate_placeholders-Accepted (keys services) i.env
              (relabel-eq-ok in_env (validate_placeholders (keys services) i.env) e);
        sections_read = relabel-eq-ok in_data (read_data services document) d;
        data_built = relabel-eq-ok invalid_model (models.build_data sections) b;
        built = relabel-eq-ok invalid_model _ h₆;
      }
