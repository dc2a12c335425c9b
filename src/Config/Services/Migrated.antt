-- ===== src/Config/Services/Migrated.antt =====
-- The migrations declarations that `_validate_migrations` of sandbox/config/loader.py accepts
use text.Mathlib.Text.{◌==◌ as str_eq}
use goga_tool_pybuggy.Prelude.{
  String, ◌≡◌, refl, ◌∙◌, true, false, none, some, Option, Option-cases, inl, inr, Result, ok, err,
  Done, >>=-eq-ok, raise_if-eq-ok, arith, ◌⊎◌,
}
use goga_tool_pybuggy.Value.{Value, Fields, get, as_dict, as_str}
use goga_tool_pybuggy.Migrations.Folder.{check_local_migrations}
use goga_tool_pybuggy.Migrations.Url.{Url, check_git_url}
use goga_tool_pybuggy.Config.Entry.{has_kind}
use goga_tool_pybuggy.Config.Services.{
  Libraries, MigrationsConfig, bad_source, bad_url, url_unparsed, invalid_declaration, check_url,
  check_source, check_location, check_declaration, relabel, validate_migrations,
}

-- Where migrations come from: a folder that passes the load-time check, or a git URL that passes the
-- check of its shape.
abbrev pub Source : Libraries → MigrationsConfig → Type 0
Source libs declaration =
    ((declaration.git ≡ none)
      × (check_local_migrations (libs.folder_at declaration.location) ≡ ok tt))
    ⊎ ((url : String) × (parsed : Url) × (declaration.git ≡ some url)
        × (libs.urlparse url ≡ ok parsed)
        × (check_git_url parsed ≡ ok tt))

-- An entry without migrations, or a postgresql entry whose migrations are a mapping with a location
-- that is not empty, of which the model was built, with a source that passes its checks.
abbrev pub Migrations : Libraries → Fields → Type 0
Migrations libs entry =
    (get "migrations" entry ≡ none)
    ⊎ ((raw : Fields) × (location : String) × (declaration : MigrationsConfig) × (has_kind
            "postgresql" entry
          ≡ true)
        × (get "migrations" entry ≡ some (Value.dict raw))
        × (get "location" raw ≡ some (Value.str location))
        × (str_eq location "" ≡ false)
        × (libs.build_migrations raw ≡ ok declaration)
        × Source libs declaration)

pub relabel-eq-ok {ℓ} :
    {E F : Type 0} {A : Type ℓ} (f : E → F) (r : Result E A) {a : A} → relabel f r ≡ ok a → r ≡ ok a
relabel-eq-ok f (ok a) h = ground arith
relabel-eq-ok f (err e) h = cc

as_dict-eq-some : (v : Option Value) {d : Fields} → as_dict v ≡ some d → v ≡ some (Value.dict d)
as_dict-eq-some none h = cc
as_dict-eq-some (some (Value.dict d)) h = ground arith
as_dict-eq-some (some Value.null) h = cc
as_dict-eq-some (some (Value.bool _)) h = cc
as_dict-eq-some (some (Value.int _)) h = cc
as_dict-eq-some (some (Value.float _)) h = cc
as_dict-eq-some (some (Value.str _)) h = cc
as_dict-eq-some (some (Value.list _)) h = cc

as_str-eq-some : (v : Option Value) {s : String} → as_str v ≡ some s → v ≡ some (Value.str s)
as_str-eq-some none h = cc
as_str-eq-some (some (Value.str s)) h = ground arith
as_str-eq-some (some Value.null) h = cc
as_str-eq-some (some (Value.bool _)) h = cc
as_str-eq-some (some (Value.int _)) h = cc
as_str-eq-some (some (Value.float _)) h = cc
as_str-eq-some (some (Value.dict _)) h = cc
as_str-eq-some (some (Value.list _)) h = cc

module _ (libs : Libraries) where
  check_location-eq-ok :
      (given : Option String) {u : Done}
      → check_location libs given ≡ ok u
      → (location : String) × (given ≡ some location) × (str_eq location "" ≡ false)
  unfolding check_location
  check_location-eq-ok none h = cc
  check_location-eq-ok (some location) h = (location, refl, raise_if-eq-ok _ _ h)

  check_source-Source :
      (declaration : MigrationsConfig) {u : Done}
      → check_source libs declaration ≡ ok u
      → Source libs declaration
  unfolding check_source check_url
  check_source-Source declaration h = elim (Option-cases declaration.git) [
    | inl g ↦
        let checked : relabel bad_source
              (check_local_migrations (libs.folder_at declaration.location))
            ≡ ok tt =
          ground arith in
        inl (g, relabel-eq-ok bad_source _ checked)
    | inr (url, g) ↦
        let checked : check_url libs url ≡ ok tt = unfold check_url in ground arith in
        let (parsed, p, h₁) = >>=-eq-ok (relabel url_unparsed (libs.urlparse url)) _ checked in
        inr (url, parsed, g, relabel-eq-ok url_unparsed _ p, relabel-eq-ok bad_url _ h₁)
  ]

  check_declaration-eq-ok :
      (given : Option Fields) {u : Done}
      → check_declaration libs given ≡ ok u
      → (raw : Fields) × (given ≡ some raw)
        × (location : String) × (declaration : MigrationsConfig) × (get "location" raw
            ≡ some (Value.str location))
        × (str_eq location "" ≡ false)
        × (libs.build_migrations raw ≡ ok declaration)
        × Source libs declaration
  unfolding check_declaration
  check_declaration-eq-ok none h = cc
  check_declaration-eq-ok (some raw) h =
      let (_, l, h₁) = >>=-eq-ok (check_location libs (as_str (get "location" raw))) _ h in
      let (declaration, b, h₂) =
        >>=-eq-ok (relabel invalid_declaration (libs.build_migrations raw)) _ h₁ in
      let (location, t, e) = check_location-eq-ok (as_str (get "location" raw)) l in
      (
        raw,
        refl,
        location,
        declaration,
        as_str-eq-some (get "location" raw) t,
        e,
        relabel-eq-ok invalid_declaration _ b,
        check_source-Source declaration h₂,
      )

  pub validate_migrations-Migrations :
      (entry : Fields) {u : Done} → validate_migrations libs entry ≡ ok u → Migrations libs entry
  unfolding validate_migrations
  validate_migrations-Migrations entry h = elim (Option-cases (get "migrations" entry)) [
    | inl m ↦ inl m
    | inr (v, m) ↦
        let (k, c) : (has_kind "postgresql" entry ≡ true)
            × (check_declaration libs (as_dict (some v)) ≡ ok tt) =
          ground arith in
        let (raw, r, location, declaration, l, n, b, source) =
          check_declaration-eq-ok (as_dict (some v)) c in
        inr (raw, location, declaration, k, m ∙ as_dict-eq-some (some v) r, l, n, b, source)
  ]
