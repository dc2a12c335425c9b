-- ===== src/Config/Section/Targets.antt =====
-- What the loader's checks of the data sections establish: sandbox/config/loader.py
use text.Mathlib.Text.{◌==◌ as str_eq}
use text.Mathlib.TextEquality.{eq_iff}
use goga_tool_pybuggy.Prelude.{
  String, ◌≡◌, refl, ap, ◌∙◌, Option, none, some, List, [], ◌∷◌, ok, >>=-eq-ok, arith, All, ◌⊎◌,
  inl, inr, Option-cases, Bool-cases,
}
use goga_tool_pybuggy.Prelude.Dict.{Dict, lookup, insert}
use goga_tool_pybuggy.Value.{Value, Fields, Key, key_text, get, entries}
use goga_tool_pybuggy.Config.Entry.{ServiceConfig}
use goga_tool_pybuggy.Config.Section.{
  section_kinds, check_declarations, check_target, targets_loop, read_section, sections_loop,
  section_declarations, read_data, check_sections,
}

-- The target is a configured service of the section's kind, and its declarations passed.
abbrev pub Target : Dict ServiceConfig → String → String → Key × Value → Type 0
Target services section kind (target, value) =
    (service : ServiceConfig) × (lookup (key_text target) services ≡ some service)
    × (service.kind ≡ kind)
    × (check_declarations section (key_text target) value ≡ ok tt)

abbrev pub Section : Dict ServiceConfig → Fields → String × String → Type 0
Section services raw (section, kind) =
    (get section raw ≡ none)
    ⊎ ((targets : Fields) × (get section raw ≡ some (Value.dict targets))
        × All (Target services section kind) (entries targets))

module _ (services : Dict ServiceConfig) where
  check_target-Target :
      (section kind : String) (target : Key) (value : Value)
      → check_target services section kind (key_text target) value ≡ ok tt
      → Target services section kind (target, value)
  unfolding check_target
  check_target-Target section kind target value h =
      elim (Option-cases (lookup (key_text target) services)) [
        | inl missing ↦ absurd (ground arith)
        | inr (service, e) ↦ elim (Bool-cases (str_eq service.kind kind)) [
          | inl same ↦ (service, e, (eq_iff service.kind kind).0 same, ground arith)
          | inr other ↦ absurd (ground arith)
        ]
      ]

  targets_loop-Target :
      (section kind : String) (targets : List (Key × Value)) (seen : Dict Value)
      {declarations : Dict Value}
      → targets_loop services section kind seen targets ≡ ok declarations
      → All (Target services section kind) targets
  unfolding targets_loop
  targets_loop-Target section kind [] seen h = tt
  targets_loop-Target section kind ((target, value) ∷ rest) seen h =
      let (_, e, h') = >>=-eq-ok (check_target services section kind (key_text target) value) _ h in
      (
        check_target-Target section kind target value e,
        targets_loop-Target section kind rest (insert (key_text target) value seen) h',
      )

  read_section-Target :
      (section kind : String) (v : Value) {declarations : Dict Value}
      → read_section services section kind v ≡ ok declarations
      → (targets : Fields) × (v ≡ Value.dict targets)
        × All (Target services section kind) (entries targets)
  unfolding read_section
  read_section-Target section kind (Value.dict targets) h =
      (targets, refl, targets_loop-Target section kind (entries targets) [] h)
  read_section-Target section kind Value.null h = absurd (ground arith)
  read_section-Target section kind (Value.bool _) h = absurd (ground arith)
  read_section-Target section kind (Value.int _) h = absurd (ground arith)
  read_section-Target section kind (Value.str _) h = absurd (ground arith)
  read_section-Target section kind (Value.float _) h = absurd (ground arith)
  read_section-Target section kind (Value.list _) h = absurd (ground arith)

  section_declarations-Section :
      (raw : Fields) (section kind : String) (v : Option Value) {declarations : Dict Value}
      → get section raw ≡ v
      → section_declarations services section kind v ≡ ok declarations
      → Section services raw (section, kind)
  unfolding section_declarations
  section_declarations-Section raw section kind none given h = inl given
  section_declarations-Section raw section kind (some v) given h =
      let (targets, e, all) = read_section-Target section kind v h in
      inr (targets, given ∙ ap some e, all)

  sections_loop-Section :
      (raw : Fields) (kinds : List (String × String)) {sections : Dict (Dict Value)}
      → sections_loop services raw kinds ≡ ok sections
      → All (Section services raw) kinds
  unfolding sections_loop
  sections_loop-Section raw [] h = tt
  sections_loop-Section raw ((section, kind) ∷ rest) h =
      let (_, e, h₁) =
        >>=-eq-ok (section_declarations services section kind (get section raw)) _ h in
      let (_, e', _) = >>=-eq-ok (sections_loop services raw rest) _ h₁ in
      (
        section_declarations-Section raw section kind (get section raw) refl e,
        sections_loop-Section raw rest e',
      )

  -- In a data layer that the loader accepts, each of the four sections is absent, or is a mapping
  -- whose every target names a configured service of the kind that the section requires and
  -- carries declarations that passed the section's own checks.
  pub read_data-Section :
      (document raw : Fields) {sections : Dict (Dict Value)}
      → get "data" document ≡ some (Value.dict raw)
      → read_data services document ≡ ok sections
      → All (Section services raw) section_kinds
  unfolding read_data
  read_data-Section document raw {sections} given h =
      let (_, _, h') =
        >>=-eq-ok (check_sections (entries raw)) (λ _. sections_loop services raw section_kinds)
          {b = sections} (ground arith) in
      sections_loop-Section raw section_kinds h'
