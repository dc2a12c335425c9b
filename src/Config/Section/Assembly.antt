-- ===== src/Config/Section/Assembly.antt =====
-- The loader's checks against what the start of the sandbox reads: the docstrings of
-- `_validate_vault_declarations` and `_validate_redis_declarations` in sandbox/config/loader.py, and
-- `_startup_operations` of sandbox/sandbox.py
use text.Mathlib.Text.{◌==◌ as str_eq}
use goga_tool_pybuggy.Prelude.{
  String, ◌≡◌, refl, true, false, some, List, [], ◌∷◌, ◌++◌, map, Result, ok, Done, >>=-eq-ok,
  raise_if, arith, All, ◌⊎◌, inl, inr, Option-cases, traverse,
}
use goga_tool_pybuggy.Prelude.Dict.{has_key}
use goga_tool_pybuggy.Value.{Value, Fields, Items, get, elements, without}
use goga_tool_pybuggy.Value
use goga_tool_pybuggy.Config.Section.{
  is_blank, vault_path, SectionError, each, validate_secret, validate_vault_declarations,
  validate_redis_declaration, validate_redis_declarations, check_action, redis_actions,
}
use goga_tool_pybuggy.Sandbox.Engine.{Cause}
use goga_tool_pybuggy.Sandbox.Operation.{DataOperation}
use goga_tool_pybuggy.Sandbox.Startup.{
  StartupData, declared, vault_operation, redis_operation, http_operation, postgres_operation,
  startup_operations,
}

-- A list of mappings, as the document holds it.
abbrev pub listed : List Fields → Items
listed [] = Value.nil
listed (d ∷ ds) = Value.cons (Value.dict d) (listed ds)

-- An operation on the service, which names one of the four actions if it is a redis operation.
abbrev pub IsStartup : String → DataOperation → Type 0
IsStartup name op =
    (op.instance_name ≡ name)
    × ((str_eq op.kind "redis" ≡ false) ⊎ (has_key op.action redis_actions ≡ true))

known_action :
    (name : String) (d : Fields) (action : String) {u : Done}
    → check_action name d action ≡ ok u
    → has_key action redis_actions ≡ true
unfolding check_action has_key
known_action name d action h = ground arith

vault_operation-eq :
    (name : String) (d : Fields) {path secret : Value}
    → get "path" d ≡ some path
    → get "data" d ≡ some secret
    → vault_operation name d
      ≡ ok (record {
        instance_name = name;
        kind = "vault";
        action = "put";
        payload =
            Value.field
              (Value.named "path")
              path
              (Value.field (Value.named "data") secret Value.end);
      })
unfolding vault_operation
vault_operation-eq name d p s = ground arith

redis_operation-eq :
    (name : String) (d : Fields) {action : String}
    → get "action" d ≡ some (Value.str action)
    → redis_operation name d
      ≡ ok (record {
        instance_name = name;
        kind = "redis";
        action = action;
        payload = without "action" d;
      })
unfolding redis_operation
redis_operation-eq name d a = ground arith

vault_operation-validate_secret :
    (name : String) (d : Fields)
    → validate_secret name (Value.dict d) ≡ ok tt
    → (op : DataOperation) × (vault_operation name d ≡ ok op) × IsStartup name op
unfolding validate_secret vault_operation
vault_operation-validate_secret name d h = elim (Option-cases (get "path" d)) [
  | inl no_path ↦ absurd (unfold is_blank in ground arith)
  | inr (path, p) ↦ elim (Option-cases (get "data" d)) [
    | inl no_data ↦ absurd (
        let (_, _, h') = >>=-eq-ok (raise_if (is_blank (get "path" d)) (vault_path name)) _ h in
        ground arith)
    | inr (secret, s) ↦ (_, vault_operation-eq name d p s, (refl, inl refl))
  ]
]

redis_operation-validate_redis_declaration :
    (name : String) (d : Fields)
    → validate_redis_declaration name (Value.dict d) ≡ ok tt
    → (op : DataOperation) × (redis_operation name d ≡ ok op) × IsStartup name op
unfolding validate_redis_declaration redis_operation
redis_operation-validate_redis_declaration name d h = elim (Option-cases (get "action" d)) [
  | inl missing ↦ absurd (ground arith)
  | inr (Value.str action, e) ↦
      (_, redis_operation-eq name d e, (refl, inr (known_action name d action (ground arith))))
  | inr (Value.null, e) ↦ absurd (ground arith)
  | inr (Value.bool _, e) ↦ absurd (ground arith)
  | inr (Value.int _, e) ↦ absurd (ground arith)
  | inr (Value.float _, e) ↦ absurd (ground arith)
  | inr (Value.list _, e) ↦ absurd (ground arith)
  | inr (Value.dict _, e) ↦ absurd (ground arith)
]

each-traverse :
    (name : String) (check : Value → Result SectionError Done)
    (assemble : Fields → Result Cause DataOperation) (ds : List Fields)
    → ((d : Fields)
        → check (Value.dict d) ≡ ok tt
        → (op : DataOperation) × (assemble d ≡ ok op) × IsStartup name op)
    → each check (elements (listed ds)) ≡ ok tt
    → (ops : List DataOperation) × (traverse assemble ds ≡ ok ops) × All (IsStartup name) ops
unfolding each traverse
each-traverse name check assemble [] passes h = ([], refl, tt)
each-traverse name check assemble (d ∷ ds) passes h =
    let (_, e, h') = >>=-eq-ok (check (Value.dict d)) _ h in
    let (op, assembled, good) = passes d e in
    let (ops, rest, all) = each-traverse name check assemble ds passes h' in
    (op ∷ ops, rw assembled (rw rest refl), (good, all))

All-append :
    (name : String) (xs ys : List DataOperation)
    → All (IsStartup name) xs
    → All (IsStartup name) ys
    → All (IsStartup name) (xs ++ ys)
All-append name [] ys p q = q
All-append name (x ∷ xs) ys (h, hs) q = (h, All-append name xs ys hs q)

All-http : (name : String) (ds : List Fields) → All (IsStartup name) (map (http_operation name) ds)
unfolding http_operation
All-http name [] = tt
All-http name (d ∷ ds) = ((refl, inl refl), All-http name ds)

All-postgres :
    (name : String) (ds : List String) → All (IsStartup name) (map (postgres_operation name) ds)
unfolding postgres_operation
All-postgres name [] = tt
All-postgres name (d ∷ ds) = ((refl, inl refl), All-postgres name ds)

startup_operations-eq :
    (sections : StartupData) (name : String) {vault redis : List DataOperation}
    → traverse (vault_operation name) (declared name sections.vault) ≡ ok vault
    → traverse (redis_operation name) (declared name sections.redis) ≡ ok redis
    → startup_operations sections name
      ≡ ok (
          vault
          ++ map (http_operation name) (declared name sections.http)
          ++ map (postgres_operation name) (declared name sections.postgres)
          ++ redis)
unfolding startup_operations
startup_operations-eq sections name v r = ground arith

-- If the vault and the redis declarations of a service passed the loader's checks, the start
-- assembles the service's operations without a lookup error. Each of them is on that service, and a
-- redis operation names one of the four known actions.
pub startup_operations-IsStartup :
    (sections : StartupData) (name : String)
    → validate_vault_declarations name (Value.list (listed (declared name sections.vault))) ≡ ok tt
    → validate_redis_declarations name (Value.list (listed (declared name sections.redis))) ≡ ok tt
    → (ops : List DataOperation) × (startup_operations sections name ≡ ok ops)
      × All (IsStartup name) ops
unfolding validate_vault_declarations validate_redis_declarations
startup_operations-IsStartup sections name v r =
    let (secrets, vs, all) =
      each-traverse name (validate_secret name) (vault_operation name)
        (declared name sections.vault) (vault_operation-validate_secret name) v in
    let (redis, rs, all') =
      each-traverse name (validate_redis_declaration name) (redis_operation name)
        (declared name sections.redis) (redis_operation-validate_redis_declaration name) r in
    let https = map (http_operation name) (declared name sections.http) in
    let posts = map (postgres_operation name) (declared name sections.postgres) in
    (
      _,
      startup_operations-eq sections name vs rs,
      All-append name (secrets ++ https ++ posts) redis
          (All-append name (secrets ++ https) posts
            (All-append name secrets https all (All-http name _)) (All-postgres name _))
          all',
    )
