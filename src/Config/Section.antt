-- ===== src/Config/Section.antt =====
-- The startup data sections: `_read_data` and what it calls in sandbox/config/loader.py
pub mod Targets
pub mod Assembly
use text.Mathlib.Text.{◌==◌ as str_eq}
use goga_tool_pybuggy.Prelude.{
  String, Bool, true, false, not, ◌&&◌, Option, none, some, List, [], ◌∷◌, if◌then◌else◌, Result,
  ok, err, Done, ◌>>=◌, ◌>>◌, raise_if, is_empty, any, all,
}
use goga_tool_pybuggy.Prelude.Text.{codes, strip}
use goga_tool_pybuggy.Prelude.Dict.{Dict, lookup, insert}
use goga_tool_pybuggy.Value
use goga_tool_pybuggy.Value.{
  Value, dict, Fields, Key, named, is_key, key_text, get, has, as_str, as_dict, as_list, entries,
  elements,
}
use goga_tool_pybuggy.Config.Entry.{ServiceConfig, is_member}

-- The texts are the section, the service and the action that the message names.
pub data SectionError : Type 0 where
  data_not_mapping kafka_removed : SectionError
  unknown_section : Key → SectionError
  section_not_mapping : String → SectionError
  not_configured wrong_kind : String → String → SectionError
  vault_path vault_data redis_action : String → SectionError
  redis_fields redis_key redis_field_type : String → String → SectionError

-- `_SECTION_KINDS`
abbrev pub section_kinds : Dict String
section_kinds =
    ("vault", "vault") ∷ ("http", "http") ∷ ("postgres", "postgresql") ∷ ("redis", "redis") ∷ []

-- `not isinstance(v, str) or not v.strip()`
unfoldable pub is_blank : Option Value → Bool
unfolding strip
is_blank v = elim (as_str v) [ none ↦ true | some s ↦ is_empty (strip (codes s)) ]

unfoldable pub validate_secret : String → Value → Result SectionError Done
unfolding is_blank get
validate_secret target v = elim (as_dict (some v)) [
  | none ↦ ok tt
  | some declaration ↦
      raise_if (is_blank (get "path" declaration)) (vault_path target)
      >> elim (as_dict (get "data" declaration)) [ none ↦ err (vault_data target) | some _ ↦ ok tt ]
]

-- `for declaration in declarations`
unfoldable pub each : (Value → Result SectionError Done) → List Value → Result SectionError Done
each check [] = ok tt
each check (v ∷ vs) = check v >> each check vs

unfoldable pub validate_vault_declarations : String → Value → Result SectionError Done
unfolding validate_secret each
validate_vault_declarations target declarations = elim (as_list (some declarations)) [
  | none ↦ ok tt
  | some items ↦ each (validate_secret target) (elements items)
]

-- `_REDIS_ACTIONS`, each with its second field; the first is `key`.
abbrev pub redis_actions : Dict String
redis_actions =
    ("set", "value") ∷ ("hset", "values") ∷ ("rpush", "values") ∷ ("sadd", "members") ∷ []

-- `set(declaration) == {*expected}`
unfoldable pub has_exactly : List String → Fields → Bool
unfolding has
has_exactly expected d =
    all (λ e. any (λ n. is_key n e.0) expected) (entries d) && all (λ n. has n d) expected

-- `_REDIS_FIELD_TYPES`: a dict, or a list; any value for `set`.
unfoldable pub has_field_type : String → Option Value → Bool
has_field_type action v =
    if str_eq action "set"
    then true
    else if str_eq action "hset"
    then elim (as_dict v) [ none ↦ false | some _ ↦ true ]
    else elim (as_list v) [ none ↦ false | some _ ↦ true ]

unfoldable pub validate_redis_declaration_fields :
    String → Fields → String → String → Result SectionError Done
unfolding has_exactly is_blank has_field_type get
validate_redis_declaration_fields target d action field = do
  raise_if (not (has_exactly ("action" ∷ "key" ∷ field ∷ []) d)) (redis_fields target action)
  raise_if (is_blank (get "key" d)) (redis_key target action)
  raise_if (not (has_field_type action (get field d))) (redis_field_type target action)

check_action : String → Fields → String → Result SectionError Done
unfolding lookup validate_redis_declaration_fields
check_action target d action = elim (lookup action redis_actions) [
  | none ↦ err (redis_action target)
  | some field ↦ validate_redis_declaration_fields target d action field
]

unfoldable pub validate_redis_declaration : String → Value → Result SectionError Done
unfolding check_action get
validate_redis_declaration target v = elim (as_dict (some v)) [
  | none ↦ ok tt
  | some d ↦ elim (as_str (get "action" d)) [
    | none ↦ err (redis_action target)
    | some action ↦ check_action target d action
  ]
]

unfoldable pub validate_redis_declarations : String → Value → Result SectionError Done
unfolding validate_redis_declaration each
validate_redis_declarations target declarations = elim (as_list (some declarations)) [
  | none ↦ ok tt
  | some items ↦ each (validate_redis_declaration target) (elements items)
]

unfoldable pub check_declarations : String → String → Value → Result SectionError Done
unfolding validate_vault_declarations validate_redis_declarations
check_declarations section name value = do
  if str_eq section "vault" then validate_vault_declarations name value else ok tt
  if str_eq section "redis" then validate_redis_declarations name value else ok tt

module _ (services : Dict ServiceConfig) (section kind : String) where
  unfoldable pub check_target : String → Value → Result SectionError Done
  unfolding lookup check_declarations
  check_target name value = elim (lookup name services) [
    | none ↦ err (not_configured section name)
    | some service ↦
        if str_eq service.kind kind
        then check_declarations section name value
        else err (wrong_kind section name)
  ]

  unfoldable pub targets_loop : Dict Value → List (Key × Value) → Result SectionError (Dict Value)
  unfolding check_target insert
  targets_loop declarations [] = ok declarations
  targets_loop declarations ((target, value) ∷ rest) = do
    check_target (key_text target) value
    targets_loop (insert (key_text target) value declarations) rest

  unfoldable pub read_section : Value → Result SectionError (Dict Value)
  unfolding targets_loop
  read_section targets = elim (as_dict (some targets)) [
    | none ↦ err (section_not_mapping section)
    | some d ↦ targets_loop [] (entries d)
  ]

unfoldable pub check_sections : List (Key × Value) → Result SectionError Done
check_sections [] = ok tt
check_sections ((section, _) ∷ rest) = do
  raise_if (is_key "kafka" section) kafka_removed
  raise_if (not (any (λ s. is_key s.0 section) section_kinds)) (unknown_section section)
  check_sections rest

module _ (services : Dict ServiceConfig) where
  -- `_read_section(...) if section in raw else {}`
  unfoldable pub section_declarations :
      String → String → Option Value → Result SectionError (Dict Value)
  unfolding read_section
  section_declarations section kind none = ok []
  section_declarations section kind (some targets) = read_section services section kind targets

  unfoldable pub sections_loop :
      Fields → List (String × String) → Result SectionError (Dict (Dict Value))
  unfolding get section_declarations
  sections_loop raw [] = ok []
  sections_loop raw ((section, kind) ∷ rest) = do
    declarations ← section_declarations section kind (get section raw)
    others ← sections_loop raw rest
    ok ((section, declarations) ∷ others)

  -- The sections that the constructor of `StartupData` takes; no `data` is an empty mapping.
  unfoldable pub read_data : Fields → Result SectionError (Dict (Dict Value))
  unfolding get check_sections sections_loop
  read_data document = elim (get "data" document) [
    | none ↦ sections_loop Value.end section_kinds
    | some (dict raw) ↦ check_sections (entries raw) >> sections_loop raw section_kinds
    | some _ ↦ err data_not_mapping
  ]
