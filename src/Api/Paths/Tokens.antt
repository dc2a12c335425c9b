-- ===== src/Api/Paths/Tokens.antt =====
-- Which name Api._substitute_path_params of api/api.py finds at a place of the path.
use goga_tool_pybuggy.Prelude.{
  ℕ, ◌≤◌, ◌≡◌, ◌≢◌, refl, sym, ap, subst, ◌∙◌, Bool, true, false, ◌&&◌, ◌||◌, Option, none, some,
  List, [], ◌∷◌, ◌++◌, if◌then◌else◌, ◌==◌, leb, length, drop, all, All, Bool-cases, inl, inr,
  arith,
}
use goga_tool_pybuggy.Prelude.Text.{Text, eq_text, eq_text_iff, starts_with}
use goga_tool_pybuggy.Prelude.Sort.{sort_by, insert_by, All-insert_by}
use goga_tool_pybuggy.Api.Web.{Web}
use goga_tool_pybuggy.Api.Paths.{is_path_param, longer_first, token_ends, match_name}

-- `params[name]`
abbrev pub value_of {ℓ} : {V : Type ℓ} → Text → List (Text × V) → Option V
value_of name [] = none
value_of name ((k, v) ∷ params) = if eq_text k name then some v else value_of name params

-- Each name is no longer than the ones before it.
abbrev pub Shortens {ℓ} : {V : Type ℓ} → List (Text × V) → Type ℓ
Shortens [] = Unit
Shortens (x ∷ xs) = All (λ y. length y.0 ≤ length x.0) xs × Shortens xs

clash : false ≢ true
clash h = cc

longer : (s t : Text) → leb (length s) (length t) ≡ false → length s ≢ length t
longer s t h e = ground arith

leb_at_most : (m n : ℕ) → leb m n ≡ true → m ≤ n
leb_at_most m n h = ground arith

leb_above : (m n : ℕ) → leb m n ≡ false → n ≤ m
leb_above m n h = ground arith

or_false : (a b : Bool) → a || b ≡ false → (a ≡ false) × (b ≡ false)
or_false true b h = absurd (ground arith)
or_false false b h = (refl, h)

and_true : (a b : Bool) → a && b ≡ true → (a ≡ true) × (b ≡ true)
and_true true b h = (refl, h)
and_true false b h = absurd (ground arith)

equal : (c d : ℕ) → (c == d) ≡ true → c ≡ d
equal c d h = ground arith

module _ {V : Type 0} where
  value_of-insert_by :
      (name : Text) (x : Text × V) (xs : List (Text × V))
      → value_of name (insert_by longer_first x xs) ≡ value_of name (x ∷ xs)
  unfolding insert_by
  value_of-insert_by name x [] = refl
  value_of-insert_by name (j, v) ((k, w) ∷ xs) = elim (Bool-cases (leb (length k) (length j))) [
    | inl e ↦ rw e refl
    | inr e ↦ rw e (elim (Bool-cases (eq_text k name)) [
      | inr q ↦ rw q (value_of-insert_by name (j, v) xs)
      | inl q ↦ rw q (elim (Bool-cases (eq_text j name)) [
        | inr r ↦ rw r refl
        | inl r ↦
            absurd
              (longer k j e (ap length ((eq_text_iff k name).0 q ∙ sym ((eq_text_iff j name).0 r))))
      ])
    ])
  ]

  pub value_of-sort_by :
      (name : Text) (xs : List (Text × V))
      → value_of name (sort_by longer_first xs) ≡ value_of name xs
  unfolding sort_by
  value_of-sort_by name [] = refl
  value_of-sort_by name ((k, w) ∷ xs) =
      value_of-insert_by name (k, w) (sort_by longer_first xs)
      ∙ ap (λ z. if eq_text k name then some w else z) (value_of-sort_by name xs)

  All-shorter :
      (m n : ℕ) (xs : List (Text × V))
      → m ≤ n
      → All (λ y. length y.0 ≤ m) xs
      → All (λ y. length y.0 ≤ n) xs
  All-shorter m n [] l h = tt
  All-shorter m n (x ∷ xs) l h = let first = h.0 in (omega arith, All-shorter m n xs l h.1)

  insert_by-Shortens :
      (x : Text × V) (xs : List (Text × V)) → Shortens xs → Shortens (insert_by longer_first x xs)
  unfolding insert_by
  insert_by-Shortens x [] h = (tt, tt)
  insert_by-Shortens (j, v) ((k, w) ∷ xs) h = elim (Bool-cases (leb (length k) (length j))) [
    | inl e ↦
        let l = leb_at_most (length k) (length j) e in
        rw e ((l, All-shorter (length k) (length j) xs l h.0), h)
    | inr e ↦ rw e (
      All-insert_by longer_first (λ y. length y.0 ≤ length k) (j, v) xs
          (leb_above (length k) (length j) e) h.0,
      insert_by-Shortens (j, v) xs h.1,
    )
  ]

  pub sort_by-Shortens : (xs : List (Text × V)) → Shortens (sort_by longer_first xs)
  unfolding sort_by
  sort_by-Shortens [] = tt
  sort_by-Shortens (x ∷ xs) = insert_by-Shortens x (sort_by longer_first xs) (sort_by-Shortens xs)

  All-value_of :
      (P : Text → Type 0) (name : Text) (xs : List (Text × V)) {v : V}
      → All (λ y. P y.0) xs
      → value_of name xs ≡ some v
      → P name
  All-value_of P name [] h e = absurd (ground arith)
  All-value_of P name ((k, w) ∷ xs) {v} h e = elim (Bool-cases (eq_text k name)) [
    | inl q ↦ subst P ((eq_text_iff k name).0 q) h.0
    | inr q ↦ All-value_of P name xs {v = v} h.1 (ground arith)
  ]

module _ (web : Web) where
  open web use {Object, is_word}

  -- A character of a name: a colon, a hyphen or a word's.
  abbrev pub is_name_char : ℕ → Bool
  is_name_char c = c == 58 || (c == 45 || is_word c)

  -- The text does not go on with a name.
  abbrev pub Apart : Text → Type 0
  Apart [] = Unit
  Apart (c ∷ s) = is_name_char c ≡ false

  token_ends-Apart : (s : Text) → Apart s → token_ends web s ≡ true
  unfolding token_ends
  token_ends-Apart [] h = refl
  token_ends-Apart (c ∷ s) h =
      let (colon, other) = or_false (c == 58) (c == 45 || is_word c) h in
      let (hyphen, word) = or_false (c == 45) (is_word c) other in rw word (rw hyphen refl)

  starts_with-append : (name rest : Text) → starts_with (name ++ rest) name ≡ true
  unfolding starts_with
  starts_with-append [] [] = refl
  starts_with-append [] (c ∷ rest) = refl
  starts_with-append (c ∷ name) rest = ground (arith, starts_with-append name rest)

  drop-append : (name rest : Text) → drop (length name) (name ++ rest) ≡ rest
  drop-append [] rest = refl
  drop-append (c ∷ name) rest = drop-append name rest

  -- A name that stands there and is no shorter is the name itself.
  starts_with-Apart :
      (name rest other : Text)
      → all is_name_char other ≡ true
      → Apart rest
      → length name ≤ length other
      → starts_with (name ++ rest) other ≡ true
      → other ≡ name
  unfolding starts_with
  starts_with-Apart [] rest [] a p l h = refl
  starts_with-Apart [] [] (d ∷ other) a p l h = absurd (ground arith)
  starts_with-Apart [] (c ∷ rest) (d ∷ other) a p l h =
      let same = equal c d (and_true (c == d) _ h).0 in
      absurd (clash (sym p ∙ ap is_name_char same ∙ (and_true (is_name_char d) _ a).0))
  starts_with-Apart (c ∷ name) rest [] a p l h = absurd (omega arith)
  starts_with-Apart (c ∷ name) rest (d ∷ other) a p l h =
      let (e, more) = and_true (c == d) (starts_with (name ++ rest) other) h in
      let tail =
        starts_with-Apart name rest other (and_true (is_name_char d) _ a).1 p (omega arith) more in
      λ i. sym (equal c d e) i ∷ tail i

  -- All names are made of their characters.
  abbrev pub Clean : List (Text × Object) → Type 0
  Clean names = All (λ e. all is_name_char e.0 ≡ true) names

  pub match_name-Shortens :
      (names : List (Text × Object)) (name rest : Text) (v : Object)
      → Clean names
      → Shortens names
      → Apart rest
      → value_of name names ≡ some v
      → match_name web names (name ++ rest) ≡ some (name, v)
  unfolding match_name
  match_name-Shortens [] name rest v c s p h = absurd (ground arith)
  match_name-Shortens ((k, w) ∷ names) name rest v c s p h = elim (Bool-cases (eq_text k name)) [
    | inl q ↦
        let same = (eq_text_iff k name).0 q in
        let value : w ≡ v = ground arith in
        subst
          (λ z.
            (if starts_with (name ++ rest) z && token_ends web (drop (length z) (name ++ rest))
              then some (z, w)
              else match_name web names (name ++ rest))
            ≡ some (name, v))
          (sym same)
          (rw (starts_with-append name rest)
            (rw (drop-append name rest) (rw (token_ends-Apart rest p) (λ i. some (name, value i)))))
    | inr q ↦
        let later : value_of name names ≡ some v = ground arith in
        elim (Bool-cases (starts_with (name ++ rest) k)) [
          | inl e ↦ absurd (
              clash (
                sym q
                ∙ (eq_text_iff k name).1 (
                    starts_with-Apart name rest k c.0 p
                      (All-value_of (λ z. length z ≤ length k) name names s.0 later) e)))
          | inr e ↦ rw e (match_name-Shortens names name rest v c.1 s.1 p later)
        ]
  ]

  pub match_name-none :
      (names : List (Text × Object)) (c : ℕ) (s : Text)
      → All (λ e. is_path_param e ≡ true) names
      → (c == 58) ≡ false
      → match_name web names (c ∷ s) ≡ none
  unfolding match_name is_path_param starts_with
  match_name-none [] c s h e = refl
  match_name-none (([], w) ∷ names) c s h e = absurd (ground arith)
  match_name-none ((d ∷ k, w) ∷ names) c s h e = elim (Bool-cases (c == d)) [
    | inl q ↦
        let colon = (and_true (d == 58) _ h.0).0 in
        absurd (clash (sym e ∙ ap (λ z. z == 58) (equal c d q) ∙ colon))
    | inr q ↦ rw q (match_name-none names c s h.1 e)
  ]
