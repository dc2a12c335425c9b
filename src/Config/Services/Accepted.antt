-- ===== src/Config/Services/Accepted.antt =====
-- The entries that `_read_services` of sandbox/config/loader.py accepts
use goga_tool_pybuggy.Prelude.{
  String, subst, ◌≡◌, ap, Bool, true, false, not, ◌||◌, some, List, [], ◌∷◌, ok, raise_if,
  >>=-eq-ok, raise_if-eq-ok, arith, All, is_empty,
}
use goga_tool_pybuggy.Prelude.Text.{codes, strip}
use goga_tool_pybuggy.Prelude.Dict.{Dict}
use goga_tool_pybuggy.Value.{Value, Fields, Key, get, as_dict, as_str, entries}
use goga_tool_pybuggy.Value
use goga_tool_pybuggy.Config.Entry.{
  EntryError, ServiceConfig, is_member, is_identifier, literal_names, check_name, validate_kind,
  validate_topics, validate_redis_keys,
}
use goga_tool_pybuggy.Config.Entry.Accepted.{
  SupportedKind, Topics, RedisKeys, validate_kind-SupportedKind, validate_topics-Topics,
  validate_redis_keys-RedisKeys,
}
use goga_tool_pybuggy.Config.Services.Migrated.{
  Migrations, relabel-eq-ok, validate_migrations-Migrations,
}
use goga_tool_pybuggy.Config.Services.{
  Libraries, ServiceError, relabel, entry_fields, read_service, services_loop, read_services,
  validate_migrations,
}

abbrev pub ServiceName : String → Type 0
ServiceName name = (is_identifier (codes name) ≡ true) × (is_member name literal_names ≡ false)

abbrev pub AcceptedEntry : Libraries → Key × Value → Type 0
AcceptedEntry libs (key, raw) =
    (name : String) × (entry : Fields) × (key ≡ Value.named name)
    × (raw ≡ Value.dict entry)
    × ServiceName name
    × SupportedKind entry
    × Topics libs.build_topic entry
    × Migrations libs entry
    × RedisKeys entry

neither : (b c : Bool) → not b || c ≡ false → (b ≡ true) × (c ≡ false)
neither b c h = ground arith

check_name-ServiceName :
    (key : Key) {name : String}
    → check_name key ≡ ok name
    → (key ≡ Value.named name) × ServiceName name
unfolding check_name
check_name-ServiceName (Value.scalar s) h = cc
check_name-ServiceName (Value.named s) {name} h =
    let bad = not (is_identifier (codes s)) || is_member s literal_names in
    let (_, _, h₁) = >>=-eq-ok (raise_if (is_empty (strip (codes s))) EntryError.name_empty) _ h in
    let (_, e, h₂) = >>=-eq-ok (raise_if bad EntryError.name_not_identifier) _ h₁ in
    let same : s ≡ name = ground arith in
    (
      ap Value.named same,
      subst ServiceName same
          (neither (is_identifier (codes s)) (is_member s literal_names) (raise_if-eq-ok bad _ e)),
    )

entry_fields-eq-ok :
    (key : Key) (raw : Value) {entry : Fields}
    → entry_fields key raw ≡ ok entry
    → raw ≡ Value.dict entry
entry_fields-eq-ok key (Value.dict d) h = ground arith
entry_fields-eq-ok key Value.null h = cc
entry_fields-eq-ok key (Value.bool _) h = cc
entry_fields-eq-ok key (Value.int _) h = cc
entry_fields-eq-ok key (Value.float _) h = cc
entry_fields-eq-ok key (Value.str _) h = cc
entry_fields-eq-ok key (Value.list _) h = cc

module _ (libs : Libraries) where
  read_service-AcceptedEntry :
      (key : Key) (raw : Value) {config : String × ServiceConfig}
      → read_service libs key raw ≡ ok config
      → AcceptedEntry libs (key, raw)
  unfolding read_service
  read_service-AcceptedEntry key raw h =
      let (name, n, h₁) = >>=-eq-ok (relabel (ServiceError.in_entry key) (check_name key)) _ h in
      let (entry, f, h₂) = >>=-eq-ok (entry_fields key raw) _ h₁ in
      let (_, k, h₃) = >>=-eq-ok (relabel (ServiceError.in_entry key) (validate_kind entry)) _ h₂ in
      let (_, t, h₄) =
        >>=-eq-ok (relabel (ServiceError.in_entry key) (validate_topics libs.build_topic entry)) _
          h₃ in
      let (_, m, h₅) =
        >>=-eq-ok (relabel (ServiceError.in_migrations key) (validate_migrations libs entry)) _
          h₄ in
      let (_, r, _) =
        >>=-eq-ok (relabel (ServiceError.in_entry key) (validate_redis_keys entry)) _ h₅ in
      let (named, valid) = check_name-ServiceName key (relabel-eq-ok _ _ n) in
      (
        name,
        entry,
        named,
        entry_fields-eq-ok key raw f,
        valid,
        validate_kind-SupportedKind entry (relabel-eq-ok _ _ k),
        validate_topics-Topics libs.build_topic entry (relabel-eq-ok _ _ t),
        validate_migrations-Migrations libs entry (relabel-eq-ok _ _ m),
        validate_redis_keys-RedisKeys entry (relabel-eq-ok _ _ r),
      )

  services_loop-AcceptedEntry :
      (raw : List (Key × Value)) (seen : Dict ServiceConfig) {services : Dict ServiceConfig}
      → services_loop libs seen raw ≡ ok services
      → All (AcceptedEntry libs) raw
  unfolding services_loop
  services_loop-AcceptedEntry [] seen h = tt
  services_loop-AcceptedEntry ((key, v) ∷ raw) seen h =
      let (config, e, h') = >>=-eq-ok (read_service libs key v) _ h in
      (read_service-AcceptedEntry key v e, services_loop-AcceptedEntry raw _ h')

  -- Every entry of a `services` mapping that the loader accepts is named by a template identifier
  -- that is no literal, is a mapping of a supported kind, carries topics exactly if it is a kafka
  -- entry (at least one, each built, no name twice), carries migrations only if it is a postgresql
  -- entry (a mapping with a location that is not empty, of which the model is built, and either a
  -- folder that passes the load-time check or a git URL that passes the check of its shape), and
  -- carries a password or a database index only if it is a redis entry: a non-empty
  -- password without blanks, quotes and backslashes, an index of at most 15.
  pub read_services-AcceptedEntry :
      (document raw : Fields) {services : Dict ServiceConfig}
      → get "services" document ≡ some (Value.dict raw)
      → read_services libs document ≡ ok services
      → All (AcceptedEntry libs) (entries raw)
  unfolding read_services
  read_services-AcceptedEntry document raw {services} given h =
      services_loop-AcceptedEntry (entries raw) [] {services = services} (ground arith)
