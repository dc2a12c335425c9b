-- ===== src/Api/Paths/Rendered.antt =====
-- Api._substitute_path_params of api/api.py on a path made of plain text and names.
use goga_tool_pybuggy.Prelude.{
  ℕ, ◌-◌, ◌≡◌, ◌≢◌, refl, sym, ap, subst, ◌∙◌, Bool, true, false, none, some, List, [], ◌∷◌, ◌++◌,
  if◌then◌else◌, ◌==◌, length, keep, is_empty, all, All, Bool-cases, inl, inr, arith,
}
use goga_tool_pybuggy.Prelude.Text.{Text, eq_text, eq_text_iff, starts_with}
use goga_tool_pybuggy.Prelude.Sort.{sort_by, All-sort_by}
use goga_tool_pybuggy.Api.Web.{Web}
use goga_tool_pybuggy.Api.Paths.{
  is_path_param, longer_first, match_name, sub_from, path_names, substitute_path_params,
}
use goga_tool_pybuggy.Api.Paths.Tokens.{
  value_of, value_of-sort_by, Shortens, sort_by-Shortens, is_name_char, Apart, Clean,
  match_name-Shortens, match_name-none,
}

-- A path: plain text, or a name with the value of its parameter.
pub data Piece (Object : Type 0) : Type 0 where
  plain : Text → Piece Object
  token : Text → Object → Piece Object

clash : false ≢ true
clash h = cc

starts_with-nil : (s : Text) → starts_with s [] ≡ true
unfolding starts_with
starts_with-nil [] = refl
starts_with-nil (c ∷ s) = refl

pub is_empty-nil : {A : Type 0} (xs : List A) → is_empty xs ≡ true → xs ≡ []
is_empty-nil [] h = refl
is_empty-nil (x ∷ xs) h = absurd (ground arith)

module _ (web : Web) where
  open web use {Object, show}

  -- The path as the route writes it, and as it is meant.
  unfoldable pub spelled : List (Piece Object) → Text
  spelled [] = []
  spelled (plain s ∷ pieces) = s ++ spelled pieces
  spelled (token name v ∷ pieces) = name ++ spelled pieces

  unfoldable pub rendered : List (Piece Object) → Text
  rendered [] = []
  rendered (plain s ∷ pieces) = s ++ rendered pieces
  rendered (token name v ∷ pieces) = show v ++ rendered pieces

  -- Plain text has no colon; a name begins with one, has its value among the parameters, and what
  -- follows it does not go on with a name.
  abbrev pub WellSpelled : List (Text × Object) → List (Piece Object) → Type 0
  WellSpelled params [] = Unit
  WellSpelled params (plain s ∷ pieces) = All (λ c. (c == 58) ≡ false) s × WellSpelled params pieces
  WellSpelled params (token name v ∷ pieces) =
      ((s : Text) × (name ≡ 58 ∷ s))
      × (value_of name params ≡ some v)
      × Apart web (spelled pieces)
      × WellSpelled params pieces

  -- The names of the parameters that stand for a part of the path are made of word characters,
  -- hyphens and colons.
  abbrev pub CleanParams : List (Text × Object) → Type 0
  CleanParams params = All (λ e. all (is_name_char web) e.0 ≡ true) (keep is_path_param params)

  sub_from-skip :
      (names : List (Text × Object)) (s rest : Text)
      → sub_from web names (length s) (s ++ rest) ≡ sub_from web names 0 rest
  unfolding sub_from
  sub_from-skip names [] rest = refl
  sub_from-skip names (c ∷ s) rest = sub_from-skip names s rest

  sub_from-none :
      (names : List (Text × Object)) (c : ℕ) (s : Text)
      → match_name web names (c ∷ s) ≡ none
      → sub_from web names 0 (c ∷ s) ≡ c ∷ sub_from web names 0 s
  unfolding sub_from
  sub_from-none names c s h = rw (h, sub_from) refl

  sub_from-some :
      (names : List (Text × Object)) (c : ℕ) (s name : Text) (v : Object)
      → match_name web names (c ∷ s) ≡ some (name, v)
      → sub_from web names 0 (c ∷ s) ≡ show v ++ sub_from web names (length name - 1) s
  unfolding sub_from
  sub_from-some names c s name v h = rw (h, sub_from) refl

  sub_from-plain :
      (names : List (Text × Object)) (s rest : Text)
      → All (λ e. is_path_param e ≡ true) names
      → All (λ c. (c == 58) ≡ false) s
      → sub_from web names 0 (s ++ rest) ≡ s ++ sub_from web names 0 rest
  sub_from-plain names [] rest h p = refl
  sub_from-plain names (c ∷ s) rest h p =
      sub_from-none names c (s ++ rest) (match_name-none web names c (s ++ rest) h p.0)
      ∙ ap (λ z. c ∷ z) (sub_from-plain names s rest h p.1)

  rest_length : (s : Text) → length (58 ∷ s) - 1 ≡ length s
  rest_length s = omega arith

  pub sub_from-nil : (s : Text) → sub_from web [] 0 s ≡ s
  unfolding sub_from match_name
  sub_from-nil [] = refl
  sub_from-nil (c ∷ s) = ap (λ z. c ∷ z) (sub_from-nil s)

  sub_from-token :
      (names : List (Text × Object)) (s rest : Text) (v : Object)
      → match_name web names ((58 ∷ s) ++ rest) ≡ some (58 ∷ s, v)
      → sub_from web names 0 ((58 ∷ s) ++ rest) ≡ show v ++ sub_from web names 0 rest
  sub_from-token names s rest v h =
      sub_from-some names 58 (s ++ rest) (58 ∷ s) v h
      ∙ ap (λ z. show v ++ sub_from web names z (s ++ rest)) (rest_length s)
      ∙ ap (λ z. show v ++ z) (sub_from-skip names s rest)

  sub_from-rendered :
      (names : List (Text × Object)) (pieces : List (Piece Object))
      → All (λ e. is_path_param e ≡ true) names
      → Clean web names
      → Shortens names
      → WellSpelled names pieces
      → sub_from web names 0 (spelled pieces) ≡ rendered pieces
  unfolding spelled rendered sub_from
  sub_from-rendered names [] h c s p = refl
  sub_from-rendered names (plain t ∷ pieces) h c s p =
      sub_from-plain names t (spelled pieces) h p.0
      ∙ ap (λ z. t ++ z) (sub_from-rendered names pieces h c s p.1)
  sub_from-rendered names (token name v ∷ pieces) h c s ((t, e), found, apart, p) =
      subst (λ z. sub_from web names 0 (z ++ spelled pieces) ≡ show v ++ rendered pieces) (sym e)
        (sub_from-token names t (spelled pieces) v (
            subst (λ z. match_name web names (z ++ spelled pieces) ≡ some (z, v)) e
              (match_name-Shortens web names name (spelled pieces) v c s apart found))
          ∙ ap (λ z. show v ++ z) (sub_from-rendered names pieces h c s p))

  value_of-keep :
      (name : Text) (s : Text) (params : List (Text × Object))
      → name ≡ 58 ∷ s
      → value_of name (keep is_path_param params) ≡ value_of name params
  unfolding is_path_param starts_with
  value_of-keep name s [] e = refl
  value_of-keep name s ((k, v) ∷ params) e = elim (Bool-cases (is_path_param (k, v))) [
    | inl q ↦ rw q (ap (λ z. if eq_text k name then some v else z) (value_of-keep name s params e))
    | inr q ↦ rw q (elim (Bool-cases (eq_text k name)) [
      | inl r ↦ absurd (
          clash (
            sym q
            ∙ ap (λ z. starts_with z (58 ∷ [])) ((eq_text_iff k name).0 r ∙ e)
            ∙ starts_with-nil s))
      | inr r ↦ rw r (value_of-keep name s params e)
    ])
  ]

  WellSpelled-path_names :
      (params : List (Text × Object)) (pieces : List (Piece Object))
      → WellSpelled params pieces
      → WellSpelled (path_names web params) pieces
  unfolding path_names
  WellSpelled-path_names params [] h = tt
  WellSpelled-path_names params (plain t ∷ pieces) h =
      (h.0, WellSpelled-path_names params pieces h.1)
  WellSpelled-path_names params (token name v ∷ pieces) ((t, e), found, apart, p) = (
    (t, e),
    value_of-sort_by name (keep is_path_param params) ∙ value_of-keep name t params e ∙ found,
    apart,
    WellSpelled-path_names params pieces p,
  )

  All-keep :
      (p : Text × Object → Bool) (xs : List (Text × Object)) → All (λ x. p x ≡ true) (keep p xs)
  All-keep p [] = tt
  All-keep p (x ∷ xs) = elim (Bool-cases (p x)) [
    | inl e ↦ rw e (e, All-keep p xs)
    | inr e ↦ rw e (All-keep p xs)
  ]

  -- A path that is made of plain text and of names with a parameter each becomes the path with the
  -- values in the places of the names, if the text has no colon, what follows a name does not go on
  -- with a character of a name, and the names are made of word characters, hyphens and colons. So a
  -- name is never taken for another one that it begins with, in whatever order the parameters are.
  pub substitute_path_params-rendered :
      (params : List (Text × Object)) (pieces : List (Piece Object))
      → CleanParams params
      → WellSpelled params pieces
      → (substitute_path_params web (spelled pieces) params).0 ≡ rendered pieces
  unfolding substitute_path_params path_names
  substitute_path_params-rendered params pieces clean p =
      let names = sort_by longer_first (keep is_path_param params) in
      let run =
        sub_from-rendered names pieces
          (All-sort_by longer_first (λ e. is_path_param e ≡ true) _ (All-keep is_path_param params))
          (All-sort_by longer_first (λ e. all (is_name_char web) e.0 ≡ true) _ clean)
          (sort_by-Shortens (keep is_path_param params)) (WellSpelled-path_names params pieces p) in
      elim (Bool-cases (is_empty names)) [
        | inr e ↦ rw (e, substitute_path_params) run
        | inl e ↦
            rw (e, substitute_path_params)
              (sym (sub_from-nil (spelled pieces))
                ∙ ap (λ z. sub_from web z 0 (spelled pieces)) (sym (is_empty-nil names e))
                ∙ run)
      ]
