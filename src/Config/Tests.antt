-- ===== src/Config/Tests.antt =====
-- Runs of the loader on a small document: sandbox/config/loader.py
use goga_tool_pybuggy.Prelude.{◌≡◌, refl, true, none, some, List, [], ◌∷◌, ok, err, String, All}
use goga_tool_pybuggy.Prelude.Text.{codes}
use goga_tool_pybuggy.Prelude.Dict.{Dict, lookup}
use goga_tool_pybuggy.Value.{Value, Fields, Items, get, entries}
use goga_tool_pybuggy.Value
use goga_tool_pybuggy.Sandbox.Operation.{DataOperation}
use goga_tool_pybuggy.Sandbox.Startup.{StartupData, startup_operations}
use goga_tool_pybuggy.Config.Entry.{ServiceConfig}
use goga_tool_pybuggy.Config.Services.{Libraries, read_services, validate_migrations}
use goga_tool_pybuggy.Migrations.Folder.{check_local_migrations}
use goga_tool_pybuggy.Migrations.Filename.{version_prefix}
use goga_tool_pybuggy.Config.Services.Accepted.{AcceptedEntry, read_services-AcceptedEntry}
use goga_tool_pybuggy.Config.Section.{
  section_kinds, read_data, validate_vault_declarations, validate_redis_declarations,
}
use goga_tool_pybuggy.Config.Section.Targets.{Section, read_data-Section}
use goga_tool_pybuggy.Config.Section.Assembly.{IsStartup, startup_operations-IsStartup}
use goga_tool_pybuggy.Config.Placeholders.{
  validate_placeholders, tokens, pieces_from, unknown_service,
}
use goga_tool_pybuggy.Config.Placeholders.Pieces.{Accepted, validate_placeholders-Accepted}
use goga_tool_pybuggy.Config.Document.{Models, validate_sandbox_config, renamed_key, SandboxConfig}
use goga_tool_pybuggy.Config.Document.Validated.{Validated, validate_sandbox_config-Validated}

abbrev text_field : String → Fields → String
text_field name d = elim (Value.as_str (get name d)) [ none ↦ "" | some s ↦ s ]

abbrev libraries : Libraries
libraries = record {
  build_topic = λ d. ok (record { name = text_field "name" d; partitions = 1 });
  build_service = λ d. ok (record { name = text_field "name" d; kind = text_field "kind" d });
  build_migrations = λ d. ok (record { location = text_field "location" d; git = none });
  folder_at = λ _. some (record { name = codes "1_a.sql"; is_file = true; read_text = ok [] } ∷ []);
  urlparse = λ _. err "no URL";
}

abbrev pair : String → Value → Fields → Fields
pair name v d = Value.field (Value.named name) v d

abbrev one : Value → Value
one v = Value.list (Value.cons v Value.nil)

abbrev cache : Fields
cache =
    pair "kind" (Value.str "redis")
      (pair "password" (Value.str "pw") (pair "db" (Value.int (Value.ℤ.pos 15)) Value.end))

abbrev events : Fields
events =
    pair "kind" (Value.str "kafka")
      (pair "topics" (one (Value.dict (pair "name" (Value.str "orders") Value.end))) Value.end)

abbrev database : Fields
database =
    pair "kind" (Value.str "postgresql")
      (pair "migrations" (Value.dict (pair "location" (Value.str "sql") Value.end)) Value.end)

abbrev declaration : Fields
declaration =
    pair "action" (Value.str "rpush")
      (pair "key" (Value.str "k") (pair "values" (one Value.null) Value.end))

abbrev services : Fields
services =
    pair "cache" (Value.dict cache)
      (pair "events_1" (Value.dict events) (pair "db" (Value.dict database) Value.end))

abbrev sections : Fields
sections =
    pair "redis" (Value.dict (pair "cache" (one (Value.dict declaration)) Value.end)) Value.end

abbrev document : Fields
document = pair "services" (Value.dict services) (pair "data" (Value.dict sections) Value.end)

abbrev configured : Dict ServiceConfig
configured =
    ("cache", record { name = "cache"; kind = "redis" })
    ∷ ("events_1", record { name = "events_1"; kind = "kafka" })
    ∷ ("db", record { name = "db"; kind = "postgresql" })
    ∷ []

document_services : read_services libraries document ≡ ok configured
unfolding read_services validate_migrations check_local_migrations version_prefix
document_services = refl

read_services-AcceptedEntry_example : All (AcceptedEntry libraries) (entries services)
unfolding get
read_services-AcceptedEntry_example =
    read_services-AcceptedEntry libraries document services refl document_services

read_data-Section_example : All (Section configured sections) section_kinds
unfolding get read_data
read_data-Section_example = read_data-Section configured document sections refl refl

abbrev startup : StartupData
startup = record { vault = []; http = []; postgres = []; redis = ("cache", declaration ∷ []) ∷ [] }

startup_operations-IsStartup_example :
    (ops : List DataOperation) × (startup_operations startup "cache" ≡ ok ops)
    × All (IsStartup "cache") ops
unfolding validate_vault_declarations validate_redis_declarations lookup
startup_operations-IsStartup_example = startup_operations-IsStartup startup "cache" refl refl

abbrev env : Dict String
env = ("URL", "http://{{ cache.host }}:{{cache.port}}/x") ∷ ("MODE", "{ }") ∷ []

validate_placeholders-Accepted_example :
    All (λ entry. Accepted ("cache" ∷ "events_1" ∷ []) (codes entry.1)) env
unfolding validate_placeholders
validate_placeholders-Accepted_example =
    validate_placeholders-Accepted ("cache" ∷ "events_1" ∷ []) env refl

blank_token : tokens (pieces_from 0 (codes "a{{{ b.c}}{{  }}{{")) ≡ codes "b.c" ∷ codes " " ∷ []
unfolding tokens pieces_from
blank_token = refl

unknown_service_name :
    validate_placeholders ("cache" ∷ []) (("A", "{{db.host}}") ∷ [])
    ≡ err (unknown_service "A" (codes "db"))
unfolding validate_placeholders
unknown_service_name = refl

abbrev models : Models
models = record {
  build_instance = λ d. ok (record { env = env });
  build_data = λ d. ok startup;
  build_config = λ config. ok config;
}

abbrev whole_document : Fields
whole_document =
    pair "instance"
      (Value.dict (
        pair "image" (Value.str "app")
          (pair "env" (Value.dict Value.end) (pair "port" (Value.int (Value.ℤ.pos 80)) Value.end))))
      document

abbrev whole_config : SandboxConfig
whole_config = record {
  instance_config = record { env = env };
  services = configured;
  data_layer = startup;
}

validate_sandbox_config-Validated_example : Validated libraries models whole_document whole_config
unfolding validate_sandbox_config version_prefix
validate_sandbox_config-Validated_example =
    validate_sandbox_config-Validated libraries models whole_document whole_config refl

renamed :
    validate_sandbox_config libraries models (pair "service" Value.null Value.end)
    ≡ err (renamed_key "service")
unfolding validate_sandbox_config
renamed = refl
