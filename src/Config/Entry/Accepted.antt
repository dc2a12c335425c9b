-- ===== src/Config/Entry/Accepted.antt =====
-- What the checks of a service entry let through: sandbox/config/loader.py
use text.Mathlib.Text.{◌==◌ as str_eq}
use text.Mathlib.TextEquality.{eq_iff}
use goga_tool_pybuggy.Prelude.{
  ℕ, ◌≤◌, String, ◌≡◌, ◌≢◌, refl, Bool, true, false, not, ◌||◌, Option, none, some, List, [], ◌∷◌,
  map, Result, ok, Done, raise_if, >>=-eq-ok, raise_if-eq-ok, traverse, traverse-cons, arith, All,
  any, ◌⊎◌, inl, inr, Option-cases, Bool-cases,
}
use goga_tool_pybuggy.Prelude.Text.{codes}
use goga_tool_pybuggy.Value.{Value, Fields, Items, get, has, elements, as_list, as_str}
use goga_tool_pybuggy.Value
use goga_tool_pybuggy.Config.Entry.{
  EntryError, TopicConfig, is_member, supported_kinds, has_kind, validate_kind, check_kind,
  topic_of, topics_loop, check_topics, validate_topics, breaks_wiring, check_password, check_db,
  validate_redis_keys,
}

-- No name stands twice.
abbrev pub Distinct : List String → Type 0
Distinct [] = Unit
Distinct (n ∷ ns) = (is_member n ns ≡ false) × Distinct ns

abbrev pub SupportedKind : Fields → Type 0
SupportedKind entry =
    (kind : String) × (get "kind" entry ≡ some (Value.str kind))
    × (is_member kind supported_kinds ≡ true)

abbrev pub Topics : (Fields → Result String TopicConfig) → Fields → Type 0
Topics build_topic entry =
    ((has_kind "kafka" entry ≡ true)
      × (declared : Items) × (topics : List TopicConfig) × (get "topics" entry
          ≡ some (Value.list declared))
      × (traverse (topic_of build_topic) (elements declared) ≡ ok topics)
      × (topics ≢ [])
      × Distinct (map (λ t. t.name) topics))
    ⊎ ((has_kind "kafka" entry ≡ false) × (get "topics" entry ≡ none))

abbrev pub Password : Option Value → Type 0
Password v =
    (v ≡ none)
    ⊎ ((p : String) × (v ≡ some (Value.str p))
        × (str_eq p "" ≡ false)
        × (any breaks_wiring (codes p) ≡ false))

abbrev pub Database : Option Value → Type 0
Database v = (v ≡ none) ⊎ ((n : ℕ) × (v ≡ some (Value.int (Value.ℤ.pos n))) × (n ≤ 15))

abbrev pub RedisKeys : Fields → Type 0
RedisKeys entry =
    ((has_kind "redis" entry ≡ true) × Password (get "password" entry) × Database (get "db" entry))
    ⊎ ((has_kind "redis" entry ≡ false) × (get "password" entry ≡ none) × (get "db" entry ≡ none))

has-eq-false : (name : String) (d : Fields) → has name d ≡ false → get name d ≡ none
unfolding has
has-eq-false name d h = ground arith

not-eq-false : {b : Bool} → not b ≡ false → b ≡ true
not-eq-false h = ground arith

check_kind-is_member :
    (kind : String) {u : Done} → check_kind kind ≡ ok u → is_member kind supported_kinds ≡ true
unfolding check_kind
check_kind-is_member kind h =
    let (u, _, h₁) = >>=-eq-ok (raise_if (str_eq kind "") _) _ h in
    let (v, _, h₂) = >>=-eq-ok (raise_if (str_eq kind "grpc") _) _ h₁ in
    not-eq-false (raise_if-eq-ok (not (is_member kind supported_kinds)) _ h₂)

pub validate_kind-SupportedKind :
    (entry : Fields) → validate_kind entry ≡ ok tt → SupportedKind entry
unfolding validate_kind
validate_kind-SupportedKind entry h = elim (Option-cases (get "kind" entry)) [
  | inl none_given ↦ absurd (ground arith)
  | inr (Value.str kind, e) ↦ (kind, e, check_kind-is_member kind (ground arith))
  | inr (Value.null, e) ↦ absurd (ground arith)
  | inr (Value.bool _, e) ↦ absurd (ground arith)
  | inr (Value.int _, e) ↦ absurd (ground arith)
  | inr (Value.float _, e) ↦ absurd (ground arith)
  | inr (Value.list _, e) ↦ absurd (ground arith)
  | inr (Value.dict _, e) ↦ absurd (ground arith)
]

password : (v : Option Value) → check_password v ≡ ok tt → Password v
unfolding check_password
password none h = inl refl
password (some (Value.str p)) h =
    let (u, e, h₁) = >>=-eq-ok (raise_if (str_eq p "") _) _ h in
    inr
      (p, refl, raise_if-eq-ok (str_eq p "") _ e, raise_if-eq-ok (any breaks_wiring (codes p)) _ h₁)
password (some Value.null) h = absurd (ground arith)
password (some (Value.bool _)) h = absurd (ground arith)
password (some (Value.int _)) h = absurd (ground arith)
password (some (Value.float _)) h = absurd (ground arith)
password (some (Value.list _)) h = absurd (ground arith)
password (some (Value.dict _)) h = absurd (ground arith)

database : (v : Option Value) → check_db v ≡ ok tt → Database v
unfolding check_db
database none h = inl refl
database (some (Value.int (Value.ℤ.pos n))) h = inr (n, refl, ground arith)
database (some (Value.int (Value.ℤ.negsuc n))) h = absurd (ground arith)
database (some Value.null) h = absurd (ground arith)
database (some (Value.bool _)) h = absurd (ground arith)
database (some (Value.str _)) h = absurd (ground arith)
database (some (Value.float _)) h = absurd (ground arith)
database (some (Value.list _)) h = absurd (ground arith)
database (some (Value.dict _)) h = absurd (ground arith)

neither : (a b : Bool) → a || b ≡ false → (a ≡ false) × (b ≡ false)
neither a b h = ground arith

pub validate_redis_keys-RedisKeys :
    (entry : Fields) → validate_redis_keys entry ≡ ok tt → RedisKeys entry
unfolding validate_redis_keys
validate_redis_keys-RedisKeys entry h = elim (Bool-cases (has_kind "redis" entry)) [
  | inl redis ↦
      let (u, p, d) =
        >>=-eq-ok (check_password (get "password" entry)) (λ _. check_db (get "db" entry))
          (ground arith) in
      inl (redis, password _ p, database _ d)
  | inr other ↦
      let (p, d) = neither _ _ (
        raise_if-eq-ok (has "password" entry || has "db" entry) EntryError.redis_keys_on_other
          (ground arith)) in
      inr (other, has-eq-false "password" entry p, has-eq-false "db" entry d)
]

not_member :
    (n : String) (declared names : List String)
    → All (λ m. is_member m (n ∷ declared) ≡ false) names
    → (is_member n names ≡ false) × All (λ m. is_member m declared ≡ false) names
not_member n declared [] h = (refl, tt)
not_member n declared (m ∷ names) (h, hs) =
    let (i, is) = not_member n declared names hs in
    (ground (arith, eq_iff n m, eq_iff m n), (ground arith, is))

as_list-eq : (v : Option Value) {l : Items} → as_list v ≡ some l → v ≡ some (Value.list l)
as_list-eq (some (Value.list l)) h = ground arith
as_list-eq none h = cc
as_list-eq (some Value.null) h = cc
as_list-eq (some (Value.bool _)) h = cc
as_list-eq (some (Value.int _)) h = cc
as_list-eq (some (Value.str _)) h = cc
as_list-eq (some (Value.float _)) h = cc
as_list-eq (some (Value.dict _)) h = cc

module _ (build_topic : Fields → Result String TopicConfig) where
  topics_loop-Distinct :
      (declared : List String) (vs : List Value)
      → topics_loop build_topic declared vs ≡ ok tt
      → (topics : List TopicConfig) × (traverse (topic_of build_topic) vs ≡ ok topics)
        × All (λ m. is_member m declared ≡ false) (map (λ t. t.name) topics)
        × Distinct (map (λ t. t.name) topics)
  unfolding topics_loop traverse
  topics_loop-Distinct declared [] h = ([], refl, tt, tt)
  topics_loop-Distinct declared (v ∷ vs) h =
      let (topic, e, h₁) = >>=-eq-ok (topic_of build_topic v) _ h in
      let (u, r, h₂) = >>=-eq-ok (raise_if (is_member topic.name declared) _) _ h₁ in
      let new = raise_if-eq-ok (is_member topic.name declared) _ r in
      let (topics, es, fresh, distinct) = topics_loop-Distinct (topic.name ∷ declared) vs h₂ in
      let (first, others) = not_member topic.name declared _ fresh in
      (topic ∷ topics, rw e (rw es refl), (new, others), (first, distinct))

  topics_nonempty :
      (v : Value) (vs : List Value) (topics : List TopicConfig)
      → traverse (topic_of build_topic) (v ∷ vs) ≡ ok topics
      → topics ≢ []
  topics_nonempty v vs topics h nil =
      let (_, _, _, _, e) = traverse-cons (topic_of build_topic) v vs h in cc

  pub validate_topics-Topics :
      (entry : Fields) → validate_topics build_topic entry ≡ ok tt → Topics build_topic entry
  unfolding validate_topics
  validate_topics-Topics entry h = elim (Bool-cases (has_kind "kafka" entry)) [
    | inl kafka ↦ elim (Option-cases (as_list (get "topics" entry))) [
      | inl none_given ↦ absurd (ground arith)
      | inr (Value.nil, e) ↦ absurd (unfold check_topics in ground arith)
      | inr (Value.cons v vs, e) ↦
          let (topics, es, _, distinct) =
            topics_loop-Distinct [] (v ∷ elements vs) (unfold check_topics in ground arith) in
          inl (
            kafka,
            Value.cons v vs,
            topics,
            as_list-eq (get "topics" entry) e,
            es,
            topics_nonempty v (elements vs) topics es,
            distinct,
          )
    ]
    | inr other ↦ inr (
      other,
      has-eq-false "topics" entry
          (raise_if-eq-ok (has "topics" entry) EntryError.topics_on_other (ground arith)),
    )
  ]
