-- ===== src/Prelude/Sort.antt =====
-- Python's stable `sorted`, as an insertion sort: the order of equal items is kept.
use Prim.Native.Nat.{ℕ, ◌<◌}
use mathlib.Core.Bool.{Bool, true, false}
use mathlib.Core.List.{List, [], ◌∷◌, Perm}
use mathlib.Core.List.Perm
use mathlib.Core.Logic.{◌≢◌, inl, inr}
use native.Mathlib.Omega.{arith}
use goga_tool_pybuggy.Prelude.Tests.{◌==◌, ltb, leb, if◌then◌else◌, Bool-cases}
use goga_tool_pybuggy.Prelude.Lists.{All}
use goga_tool_pybuggy.Prelude.Text.{Text}

-- `s <= t` on texts: by code points.
unfoldable pub le_text : Text → Text → Bool
le_text [] t = true
le_text (c ∷ s) [] = false
le_text (c ∷ s) (d ∷ t) = if ltb c d then true else if c == d then le_text s t else false

module _ {ℓ} {A : Type ℓ} (le : A → A → Bool) where
  unfoldable pub insert_by : A → List A → List A
  insert_by x [] = x ∷ []
  insert_by x (y ∷ ys) = if le x y then x ∷ y ∷ ys else y ∷ insert_by x ys

  unfoldable pub sort_by : List A → List A
  unfolding insert_by
  sort_by [] = []
  sort_by (x ∷ xs) = insert_by x (sort_by xs)

  insert_by-perm : (x : A) (ys : List A) → Perm (insert_by x ys) (x ∷ ys)
  unfolding insert_by
  insert_by-perm x [] = Perm.refl (x ∷ [])
  insert_by-perm x (y ∷ ys) = elim (Bool-cases (le x y)) [
    | inl h ↦ rw h (Perm.refl (x ∷ y ∷ ys))
    | inr h ↦ rw h (Perm.trans (Perm.cons y (insert_by-perm x ys)) (Perm.swap x y ys))
  ]

  pub sort_by-perm : (xs : List A) → Perm (sort_by xs) xs
  unfolding sort_by
  sort_by-perm [] = Perm.refl []
  sort_by-perm (x ∷ xs) = Perm.trans (insert_by-perm x (sort_by xs)) (Perm.cons x (sort_by-perm xs))

  pub All-insert_by {κ} :
      (P : A → Type κ) (x : A) (ys : List A) → P x → All P ys → All P (insert_by x ys)
  unfolding insert_by
  All-insert_by P x [] p h = (p, tt)
  All-insert_by P x (y ∷ ys) p h = elim (Bool-cases (le x y)) [
    | inl e ↦ rw e (p, h)
    | inr e ↦ rw e (h.0, All-insert_by P x ys p h.1)
  ]

  pub All-sort_by {κ} : (P : A → Type κ) (xs : List A) → All P xs → All P (sort_by xs)
  unfolding sort_by
  All-sort_by P [] h = h
  All-sort_by P (x ∷ xs) h = All-insert_by P x (sort_by xs) h.0 (All-sort_by P xs h.1)

-- Strictly ascending by a numeric key, and pairwise different keys.
module _ {ℓ} {A : Type ℓ} (key : A → ℕ) where
  abbrev pub Ascends : List A → Type 0
  Ascends [] = Unit
  Ascends (x ∷ xs) = All (λ y. key x < key y) xs × Ascends xs

  abbrev pub Differ : List A → Type 0
  Differ [] = Unit
  Differ (x ∷ xs) = All (λ y. key x ≢ key y) xs × Differ xs

  abbrev pub le_key : A → A → Bool
  le_key x y = leb (key x) (key y)

  All-lt_trans :
      (x y : A) (ys : List A)
      → key x < key y
      → All (λ z. key y < key z) ys
      → All (λ z. key x < key z) ys
  All-lt_trans x y [] h a = tt
  All-lt_trans x y (z ∷ ys) h a = (omega arith, All-lt_trans x y ys h a.1)

  insert_by-Ascends :
      (x : A) (ys : List A)
      → Ascends ys
      → All (λ y. key x ≢ key y) ys
      → Ascends (insert_by le_key x ys)
  unfolding insert_by
  insert_by-Ascends x [] h d = (tt, tt)
  insert_by-Ascends x (y ∷ ys) h d = elim (Bool-cases (le_key x y)) [
    | inl e ↦ rw e ((ground arith, All-lt_trans x y ys (ground arith) h.0), h)
    | inr e ↦ rw e (
      All-insert_by le_key (λ z. key y < key z) x ys (ground arith) h.0,
      insert_by-Ascends x ys h.1 d.1,
    )
  ]

  pub sort_by-Ascends : (xs : List A) → Differ xs → Ascends (sort_by le_key xs)
  unfolding sort_by
  sort_by-Ascends [] h = tt
  sort_by-Ascends (x ∷ xs) h =
      insert_by-Ascends x (sort_by le_key xs) (sort_by-Ascends xs h.1)
        (All-sort_by le_key (λ y. key x ≢ key y) xs h.0)
