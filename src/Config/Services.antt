-- ===== src/Config/Services.antt =====
-- `_validate_migrations` and `_read_services` of sandbox/config/loader.py
pub mod Migrated
pub mod Accepted
use goga_tool_pybuggy.Prelude.{
  String, Bool, true, false, Option, none, some, List, [], ◌∷◌, if◌then◌else◌, Result, ok, err,
  Done, ◌>>=◌, ◌>>◌, raise_if,
}
use goga_tool_pybuggy.Prelude.Dict.{Dict, insert}
use goga_tool_pybuggy.Value
use goga_tool_pybuggy.Value.{
  Value, dict, str, Fields, field, Key, named, get, without, as_str, as_dict, entries,
}
use text.Mathlib.Text.{◌==◌ as str_eq}
use goga_tool_pybuggy.Migrations.Folder.{Folder, check_local_migrations}
use goga_tool_pybuggy.Migrations.Sections.{MigrationError}
use goga_tool_pybuggy.Migrations.Url.{Url, UrlError, check_git_url}
use goga_tool_pybuggy.Config.Entry
use goga_tool_pybuggy.Config.Entry.{
  EntryError, entry_not_mapping, ServiceConfig, TopicConfig, has_kind, validate_kind,
  validate_topics, validate_redis_keys, check_name,
}

pub record MigrationsConfig : Type 0 where
  pub location : String
  pub git : Option String

-- What the loader calls outside the program: pydantic's constructors of the models, the file
-- system from the current folder, and `urlparse`, each with the exception it may raise.
pub record Libraries : Type 0 where
  pub build_topic : Fields → Result String TopicConfig
  pub build_service : Fields → Result String ServiceConfig
  pub build_migrations : Fields → Result String MigrationsConfig
  pub folder_at : String → Folder
  pub urlparse : String → Result String Url

-- What the migrations declaration of an entry is refused for.
pub data MigrationsError : Type 0 where
  on_other_kind not_mapping location_missing : MigrationsError
  invalid_declaration url_unparsed : String → MigrationsError
  bad_source : MigrationError → MigrationsError
  bad_url : UrlError → MigrationsError

pub data ServiceError : Type 0 where
  services_not_mapping : ServiceError
  in_entry : Key → EntryError → ServiceError
  in_migrations : Key → MigrationsError → ServiceError

-- The errors of a call under another name: `raise ... from exc`.
abbrev pub relabel {ℓ} : {E F : Type 0} {A : Type ℓ} → (E → F) → Result E A → Result F A
relabel f (ok a) = ok a
relabel f (err e) = err (f e)

abbrev pub entry_fields : Key → Value → Result ServiceError Fields
entry_fields key (Value.dict entry) = ok entry
entry_fields key _ = err (in_entry key entry_not_mapping)

module _ (libs : Libraries) where
  unfoldable pub check_url : String → Result MigrationsError Done
  unfolding check_git_url
  check_url url = do
    parsed ← relabel url_unparsed (libs.urlparse url)
    relabel bad_url (check_git_url parsed)

  unfoldable pub check_source : MigrationsConfig → Result MigrationsError Done
  unfolding check_url check_local_migrations
  check_source declaration = elim declaration.git [
    | none ↦ relabel bad_source (check_local_migrations (libs.folder_at declaration.location))
    | some url ↦ check_url url
  ]

  unfoldable pub check_location : Option String → Result MigrationsError Done
  check_location none = err location_missing
  check_location (some location) = raise_if (str_eq location "") location_missing

  unfoldable pub check_declaration : Option Fields → Result MigrationsError Done
  unfolding check_location get check_source
  check_declaration none = err not_mapping
  check_declaration (some raw) = do
    check_location (as_str (get "location" raw))
    declaration ← relabel invalid_declaration (libs.build_migrations raw)
    check_source declaration

  unfoldable pub validate_migrations : Fields → Result MigrationsError Done
  unfolding check_declaration get has_kind
  validate_migrations entry = elim (get "migrations" entry) [
    | none ↦ ok tt
    | some raw ↦
        if has_kind "postgresql" entry
        then check_declaration (as_dict (some raw))
        else err on_other_kind
  ]

  -- One round of the loop of `_read_services`. `dict(entry, name=name)` overrides the entry's own
  -- `name`.
  unfoldable pub read_service : Key → Value → Result ServiceError (String × ServiceConfig)
  unfolding check_name validate_kind validate_topics validate_migrations validate_redis_keys without
  read_service key raw = do
    name ← relabel (in_entry key) (check_name key)
    entry ← entry_fields key raw
    relabel (in_entry key) (validate_kind entry)
    relabel (in_entry key) (validate_topics libs.build_topic entry)
    relabel (in_migrations key) (validate_migrations entry)
    relabel (in_entry key) (validate_redis_keys entry)
    config ←
        relabel (λ e. in_entry key (EntryError.invalid_model e))
          (libs.build_service (field (named "name") (str name) (without "name" entry)))
    ok (name, config)

  unfoldable pub services_loop :
      Dict ServiceConfig → List (Key × Value) → Result ServiceError (Dict ServiceConfig)
  unfolding read_service insert
  services_loop services [] = ok services
  services_loop services ((key, raw) ∷ rest) = do
    entry ← read_service key raw
    services_loop (insert entry.0 entry.1 services) rest

  -- `document.get("services", {})`
  unfoldable pub read_services : Fields → Result ServiceError (Dict ServiceConfig)
  unfolding get services_loop
  read_services document = elim (get "services" document) [
    | none ↦ ok []
    | some (dict raw) ↦ services_loop [] (entries raw)
    | some _ ↦ err services_not_mapping
  ]
