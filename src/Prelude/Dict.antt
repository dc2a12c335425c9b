-- ===== src/Prelude/Dict.antt =====
-- A Python dict with text keys, in insertion order: an association list.
use Prim.Native.String.{String}
use mathlib.Core.Path.{◌≡◌, refl, subst}
use mathlib.Core.Bool.{Bool, true, false}
use mathlib.Core.Option.{Option, none, some}
use mathlib.Core.List.{List, [], ◌∷◌}
use native.Mathlib.Omega.{arith}
use text.Mathlib.Text.{◌==◌}
use text.Mathlib.TextEquality.{eq_iff}
use text.Mathlib.TextPositions.{eq_refl}
use goga_tool_pybuggy.Prelude.Tests.{if◌then◌else◌, Bool-cases}
use goga_tool_pybuggy.Prelude.Lists.{All}
use mathlib.Core.Logic.{inl, inr}

abbrev pub Dict {ℓ} : Type ℓ → Type ℓ
Dict V = List (String × V)

module _ {ℓ} {V : Type ℓ} where
  -- `d.get(k)`
  unfoldable pub lookup : String → Dict V → Option V
  lookup k [] = none
  lookup k ((j, v) ∷ d) = if j == k then some v else lookup k d

  -- `k in d`
  unfoldable pub has_key : String → Dict V → Bool
  unfolding lookup
  has_key k d = elim (lookup k d) [ none ↦ false | some _ ↦ true ]

  -- `d[k] = v`: a known key keeps its place.
  unfoldable pub insert : String → V → Dict V → Dict V
  insert k v [] = (k, v) ∷ []
  insert k v ((j, w) ∷ d) = if j == k then (k, v) ∷ d else (j, w) ∷ insert k v d

  pub lookup-insert :
      (k j : String) (v : V) (d : Dict V)
      → lookup j (insert k v d) ≡ (if k == j then some v else lookup j d)
  unfolding lookup insert
  lookup-insert k j v [] = refl
  lookup-insert k j v ((i, w) ∷ d) =
      ground (arith, eq_iff k j, eq_iff i k, eq_iff i j, lookup-insert k j v d)

  pub lookup-insert_self : (k : String) (v : V) (d : Dict V) → lookup k (insert k v d) ≡ some v
  lookup-insert_self k v d = simp (lookup-insert, eq_refl)

entry_path {ℓ} :
    {V : Type ℓ} {j k : String} {v w : V} → j ≡ k → w ≡ v → ◌≡◌ {A = String × V} (j, w) (k, v)
entry_path p q = λ i. (p i, q i)

module _ {ℓ κ} {V : Type ℓ} (Q : String × V → Type κ) where
  pub All-lookup : (k : String) (d : Dict V) {v : V} → All Q d → lookup k d ≡ some v → Q (k, v)
  unfolding lookup
  All-lookup k [] h e = absurd (ground arith)
  All-lookup k ((j, w) ∷ d) {v} h e = elim (Bool-cases (j == k)) [
    | inl same ↦ subst Q (entry_path ((eq_iff j k).0 same) (ground arith)) h.0
    | inr other ↦ All-lookup k d h.1 (ground arith)
  ]

  pub All-insert : (k : String) (v : V) (d : Dict V) → All Q d → Q (k, v) → All Q (insert k v d)
  unfolding insert
  All-insert k v [] h q = (q, tt)
  All-insert k v ((j, w) ∷ d) h q = elim (Bool-cases (j == k)) [
    | inl same ↦ rw same (q, h.1)
    | inr other ↦ rw other (h.0, All-insert k v d h.1 q)
  ]

-- `list(d)`
abbrev pub keys {ℓ} : {V : Type ℓ} → Dict V → List String
keys [] = []
keys ((k, v) ∷ d) = k ∷ keys d
