-- ===== src/Prelude/Fallible.antt =====
-- A Python function that may raise: `err` carries what the exception's message names.
use mathlib.Core.Path.{◌≡◌, refl}
use mathlib.Core.Logic.{◌⊎◌, inl, inr}
use mathlib.Core.Bool.{Bool, true, false}
use mathlib.Core.List.{List, [], ◌∷◌}

pub data Result {ℓ κ} (E : Type ℓ) (A : Type κ) : Type (ℓ ⊔ κ) where
  ok : A → Result E A
  err : E → Result E A

-- The result of a function that returns nothing.
abbrev pub Done : Type 0
Done = Unit

infixl 5 ◌>>=◌
abbrev pub ◌>>=◌ {ℓ κ ι} :
    {E : Type ℓ} {A : Type κ} {B : Type ι} → Result E A → (A → Result E B) → Result E B
err e >>= next = err e
ok a >>= next = next a

infixl 5 ◌>>◌
abbrev pub ◌>>◌ {ℓ ι} : {E : Type ℓ} {B : Type ι} → Result E Done → Result E B → Result E B
first >> second = first >>= λ _. second

-- `if b: raise e`
abbrev pub raise_if {ℓ} : {E : Type ℓ} → Bool → E → Result E Done
raise_if true e = err e
raise_if false e = ok tt

-- A list comprehension over a call that may raise.
unfoldable pub traverse {ℓ κ ι} :
    {E : Type ℓ} {A : Type κ} {B : Type ι} → (A → Result E B) → List A → Result E (List B)
traverse f [] = ok []
traverse f (x ∷ xs) = do y ← f x; ys ← traverse f xs; ok (y ∷ ys)

pub Result-cases {ℓ κ} :
    {E : Type ℓ} {A : Type κ} (r : Result E A) → ((a : A) × (r ≡ ok a)) ⊎ ((e : E) × (r ≡ err e))
Result-cases (ok a) = inl (a, refl)
Result-cases (err e) = inr (e, refl)

pub >>=-eq-ok {ℓ κ ι} :
    {E : Type ℓ} {A : Type κ} {B : Type ι} (m : Result E A) (f : A → Result E B) {b : B}
    → (m >>= f) ≡ ok b
    → (a : A) × (m ≡ ok a) × (f a ≡ ok b)
>>=-eq-ok (err e) next h = cc
>>=-eq-ok (ok a) next h = (a, refl, h)

pub raise_if-eq-ok {ℓ} :
    {E : Type ℓ} (b : Bool) (e : E) {u : Done} → raise_if b e ≡ ok u → b ≡ false
raise_if-eq-ok true e h = cc
raise_if-eq-ok false e h = refl

-- A successful comprehension, taken apart at its first item.
pub traverse-cons {ℓ κ ι} :
    {E : Type ℓ} {A : Type κ} {B : Type ι} (f : A → Result E B) (x : A) (xs : List A) {zs : List B}
    → traverse f (x ∷ xs) ≡ ok zs
    → (y : B) × (ys : List B) × (f x ≡ ok y) × (traverse f xs ≡ ok ys) × (zs ≡ y ∷ ys)
unfolding traverse
traverse-cons f x xs h =
    let (y, e, h') = >>=-eq-ok (f x) _ h in
    let (ys, e', h'') = >>=-eq-ok (traverse f xs) _ h' in (y, ys, e, e', cc)

pub traverse-nil {ℓ κ ι} :
    {E : Type ℓ} {A : Type κ} {B : Type ι} (f : A → Result E B) {zs : List B}
    → traverse f [] ≡ ok zs
    → zs ≡ []
unfolding traverse
traverse-nil f h = cc
