-- ===== src/Config/Entry.antt =====
-- The checks of one service entry in sandbox/config/loader.py. What the program's models build from
-- a mapping is pydantic's work, so the constructors are parameters.
pub mod Accepted
use text.Mathlib.Text.{◌==◌ as str_eq}
use goga_tool_pybuggy.Prelude.{
  ℕ, String, Bool, true, false, not, ◌&&◌, ◌||◌, Option, none, some, List, [], ◌∷◌, ◌++◌,
  if◌then◌else◌, Result, ok, err, Done, ◌>>=◌, ◌>>◌, raise_if, leb, ◌==◌, any, is_empty,
}
use goga_tool_pybuggy.Prelude.Text.{codes, is_space, strip}
use goga_tool_pybuggy.Prelude.Dict.{Dict, insert}
use goga_tool_pybuggy.Value
use goga_tool_pybuggy.Value.{
  Value, Fields, Items, Key, get, has, ℤ, as_str, as_dict, as_list, entries, elements,
}

-- The models' fields that the loader reads.
pub record TopicConfig : Type 0 where
  pub name : String
  pub partitions : ℕ

pub record ServiceConfig : Type 0 where
  pub name : String
  pub kind : String

-- What one entry is refused for; `invalid_model` is the `ValidationError` that `_build_model` wraps.
pub data EntryError : Type 0 where
  kind_missing kind_grpc kind_unknown topics_on_other topics_missing topic_not_mapping : EntryError
  redis_keys_on_other password_shape password_characters db_range entry_not_mapping : EntryError
  name_empty name_not_identifier : EntryError
  topic_duplicate invalid_model : String → EntryError

abbrev pub is_member : String → List String → Bool
is_member s names = any (λ n. str_eq n s) names

abbrev pub supported_kinds : List String
supported_kinds = "postgresql" ∷ "kafka" ∷ "vault" ∷ "http" ∷ "redis" ∷ []

-- `entry.get("kind") == kind`
unfoldable pub has_kind : String → Fields → Bool
unfolding get
has_kind kind entry = elim (as_str (get "kind" entry)) [ none ↦ false | some k ↦ str_eq k kind ]

check_kind : String → Result EntryError Done
check_kind kind = do
  raise_if (str_eq kind "") kind_missing
  raise_if (str_eq kind "grpc") kind_grpc
  raise_if (not (is_member kind supported_kinds)) kind_unknown

unfoldable pub validate_kind : Fields → Result EntryError Done
unfolding get check_kind
validate_kind entry = elim (as_str (get "kind" entry)) [
  | none ↦ err kind_missing
  | some kind ↦ check_kind kind
]

-- `_build_model(TopicConfig, dict(declaration), …)`
module _ (build_topic : Fields → Result String TopicConfig) where
  pub build_in_entry : Fields → Result EntryError TopicConfig
  build_in_entry d = elim (build_topic d) [ ok topic ↦ ok topic | err e ↦ err (invalid_model e) ]

  unfoldable pub topic_of : Value → Result EntryError TopicConfig
  unfolding build_in_entry
  topic_of v = elim (as_dict (some v)) [ none ↦ err topic_not_mapping | some d ↦ build_in_entry d ]

  -- The loop of `_validate_topics`; `declared` holds the names seen so far.
  unfoldable pub topics_loop : List String → List Value → Result EntryError Done
  unfolding topic_of
  topics_loop declared [] = ok tt
  topics_loop declared (v ∷ vs) = do
    topic ← topic_of v
    raise_if (is_member topic.name declared) (topic_duplicate topic.name)
    topics_loop (topic.name ∷ declared) vs

  check_topics : List Value → Result EntryError Done
  unfolding topics_loop
  check_topics [] = err topics_missing
  check_topics (v ∷ vs) = topics_loop [] (v ∷ vs)

  unfoldable pub validate_topics : Fields → Result EntryError Done
  unfolding has_kind has get check_topics
  validate_topics entry =
      if has_kind "kafka" entry
      then elim (as_list (get "topics" entry)) [
        | none ↦ err topics_missing
        | some topics ↦ check_topics (elements topics)
      ]
      else raise_if (has "topics" entry) topics_on_other

-- `char.isspace() or char in "\"'\\"`
abbrev pub breaks_wiring : ℕ → Bool
breaks_wiring c = is_space c || c == 34 || c == 39 || c == 92

check_password : Option Value → Result EntryError Done
unfolding is_space
check_password none = ok tt
check_password (some (Value.str password)) = do
  raise_if (str_eq password "") password_shape
  raise_if (any breaks_wiring (codes password)) password_characters
check_password (some _) = err password_shape

-- `isinstance(db, int) and not isinstance(db, bool) and 0 <= db <= 15`
check_db : Option Value → Result EntryError Done
check_db none = ok tt
check_db (some (Value.int (ℤ.pos n))) = raise_if (not (leb n 15)) db_range
check_db (some _) = err db_range

unfoldable pub validate_redis_keys : Fields → Result EntryError Done
unfolding has_kind has get check_password check_db
validate_redis_keys entry =
    if has_kind "redis" entry
    then check_password (get "password" entry) >> check_db (get "db" entry)
    else raise_if (has "password" entry || has "db" entry) redis_keys_on_other

-- `_SERVICE_NAME.fullmatch(name)`: `[A-Za-z_][A-Za-z0-9_]*`
abbrev pub is_letter : ℕ → Bool
is_letter c = leb 65 c && leb c 90 || leb 97 c && leb c 122 || c == 95

unfoldable pub all_word : List ℕ → Bool
all_word [] = true
all_word (c ∷ s) = (is_letter c || leb 48 c && leb c 57) && all_word s

unfoldable pub is_identifier : List ℕ → Bool
unfolding all_word
is_identifier [] = false
is_identifier (c ∷ s) = is_letter c && all_word s

abbrev pub literal_names : List String
literal_names = "true" ∷ "false" ∷ "none" ∷ "True" ∷ "False" ∷ "None" ∷ []

-- A key that is no text is refused as an empty name is.
unfoldable pub check_name : Key → Result EntryError String
unfolding is_identifier strip
check_name (Value.scalar _) = err name_empty
check_name (Value.named name) = do
  raise_if (is_empty (strip (codes name))) name_empty
  raise_if (not (is_identifier (codes name)) || is_member name literal_names) name_not_identifier
  ok name
