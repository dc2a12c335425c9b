-- ===== src/Sandbox/Presets.antt =====
-- enqueue_presets of sandbox/sandbox.py
pub mod Order
mod Tests
use goga_tool_pybuggy.Prelude.{
  ℕ, ◌+◌, String, Bool, true, false, not, ◌&&◌, ◌||◌, Option, none, some, List, [], ◌∷◌,
  if◌then◌else◌, Result, ok, err, Done, ◌>>=◌, any, all,
}
use goga_tool_pybuggy.Prelude.Dict.{Dict, lookup}
use text.Mathlib.Text.{◌==◌ as str_eq}
use goga_tool_pybuggy.Value
use goga_tool_pybuggy.Value.{Value, Fields, Key, get, without, entries, as_str, as_dict}
use goga_tool_pybuggy.Sandbox.Operation.{DataOperation}
use goga_tool_pybuggy.Sandbox.Engine.{Hooks}
use goga_tool_pybuggy.Sandbox.Session.{
  Session, SandboxError, Outcome, current_batch, require_service, declare, no_engine,
  preset_not_mapping, preset_action, preset_invalid,
}

-- `_KIND_ACTIONS`: redis has no fixed action.
abbrev pub kind_actions : Dict (Option String)
kind_actions =
    ("postgresql", some "insert")
    ∷ ("kafka", some "produce")
    ∷ ("vault", some "put")
    ∷ ("http", some "stub")
    ∷ ("redis", none)
    ∷ []

-- `_REDIS_ACTIONS`
abbrev pub redis_actions : List String
redis_actions = "set" ∷ "hset" ∷ "rpush" ∷ "sadd" ∷ []

-- A `DataOperation` takes a mapping with text keys for its payload, and nothing else.
abbrev pub is_named : Key → Bool
is_named (Value.named s) = true
is_named (Value.scalar s) = false

abbrev pub has_text_keys : Fields → Bool
has_text_keys d = all (λ e. is_named e.0) (entries d)

build_operation : String → String → String → Fields → Result SandboxError DataOperation
build_operation name kind action payload =
    if has_text_keys payload
    then ok (record { instance_name = name; kind = kind; action = action; payload = payload })
    else err (preset_invalid name)

fixed_operation : String → String → String → Value → Result SandboxError DataOperation
unfolding build_operation
fixed_operation name kind action declaration = elim (as_dict (some declaration)) [
  | none ↦ err (preset_invalid name)
  | some payload ↦ build_operation name kind action payload
]

redis_action : String → Option String → Result SandboxError String
redis_action name none = err (preset_action name)
redis_action name (some action) =
    if any (λ a. str_eq a action) redis_actions then ok action else err (preset_action name)

own_operation : String → String → Option Fields → Result SandboxError DataOperation
unfolding redis_action build_operation get without
own_operation name kind none = err (preset_not_mapping name)
own_operation name kind (some declaration) = do
  action ← redis_action name (as_str (get "action" declaration))
  build_operation name kind action (without "action" declaration)

-- The operation that one declaration becomes; a kind that the table does not have is a `KeyError`.
unfoldable pub preset_operation : String → String → Value → Result SandboxError DataOperation
unfolding lookup fixed_operation own_operation
preset_operation kind name declaration = elim (lookup kind kind_actions) [
  | none ↦ err (no_engine kind)
  | some none ↦ own_operation name kind (as_dict (some declaration))
  | some (some action) ↦ fixed_operation name kind action declaration
]

abbrev pub Presets : Type 0
Presets = Dict (Dict (List Value))

-- What a loop leaves: the counter of the enqueued operations, and the session.
abbrev pub Counted : Type 0 → Type 0
Counted P = Result SandboxError ℕ × Session P

module _ {P : Type 0} where
  pub count_up : ℕ → Outcome P → Counted P
  count_up enqueued (ok _, s) = (ok (enqueued + 1), s)
  count_up enqueued (err e, s) = (err e, s)

  abbrev pub go_on : Counted P → (ℕ → Session P → Counted P) → Counted P
  go_on (ok enqueued, s) next = next enqueued s
  go_on (err e, s) next = (err e, s)

module _ {P : Type 0} (hooks : String → Hooks P) where
  pub enqueue : Result SandboxError DataOperation → ℕ → Session P → Counted P
  unfolding declare current_batch count_up
  enqueue (ok op) enqueued s = count_up enqueued (declare hooks (current_batch s) op s)
  enqueue (err e) enqueued s = (err e, s)

  unfoldable pub declarations_loop : String → String → List Value → ℕ → Session P → Counted P
  unfolding enqueue preset_operation
  declarations_loop kind name [] enqueued s = (ok enqueued, s)
  declarations_loop kind name (d ∷ ds) enqueued s =
      go_on (enqueue (preset_operation kind name d) enqueued s) (declarations_loop kind name ds)

  pub at_target : Result SandboxError Done → (ℕ → Session P → Counted P) → ℕ → Session P → Counted P
  at_target (ok _) next enqueued s = next enqueued s
  at_target (err e) next enqueued s = (err e, s)

  unfoldable pub targets_loop : String → Dict (List Value) → ℕ → Session P → Counted P
  unfolding declarations_loop at_target require_service
  targets_loop kind [] enqueued s = (ok enqueued, s)
  targets_loop kind ((name, ds) ∷ targets) enqueued s =
      go_on (at_target (require_service kind name s) (declarations_loop kind name ds) enqueued s)
        (targets_loop kind targets)

  unfoldable pub kinds_loop : Presets → ℕ → Session P → Counted P
  unfolding targets_loop
  kinds_loop [] enqueued s = (ok enqueued, s)
  kinds_loop ((kind, targets) ∷ presets) enqueued s =
      go_on (targets_loop kind targets enqueued s) (kinds_loop presets)

  unfoldable pub enqueue_presets : Presets → Session P → Counted P
  unfolding kinds_loop
  enqueue_presets presets s = kinds_loop presets 0 s
