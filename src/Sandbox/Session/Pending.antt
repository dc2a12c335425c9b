-- ===== src/Sandbox/Session/Pending.antt =====
-- apply_pending of sandbox/sandbox.py: each service gets its own pending operations, in order.
use text.Mathlib.Text.{◌==◌ as str_eq}
use text.Mathlib.TextEquality.{eq_iff}
use text.Mathlib.TextPositions.{eq_refl}
use goga_tool_pybuggy.Prelude.{
  String, ◌≡◌, refl, ap, sym, ◌∙◌, true, false, Option, none, some, List, [], ◌∷◌, ◌++◌, subst,
  ==_refl, ◌==◌, append_assoc, append-nil, ok, arith, inl, inr, Option-cases, Bool-cases, keep,
  if◌then◌else◌,
}
use goga_tool_pybuggy.Prelude.Dict.{Dict, lookup, insert, lookup-insert, lookup-insert_self}
use goga_tool_pybuggy.Sandbox.Operation.{DataOperation}
use goga_tool_pybuggy.Sandbox.Engine
use goga_tool_pybuggy.Sandbox.Engine.{Hooks}
use goga_tool_pybuggy.Sandbox.Session.{
  Session, apply_groups, add_to_group, group_from, apply_pending, take_pending,
}

-- The operations of one service, in accumulation order.
abbrev pub of_service : String → List DataOperation → List DataOperation
of_service k ops = keep (λ op. str_eq op.instance_name k) ops

abbrev joined : Option (List DataOperation) → List DataOperation → Option (List DataOperation)
joined none [] = none
joined none (op ∷ ops) = some (op ∷ ops)
joined (some earlier) ops = some (earlier ++ ops)

joined-add :
    (o : Option (List DataOperation)) (op : DataOperation) (ops : List DataOperation)
    → joined (some (elim o [ none ↦ op ∷ [] | some earlier ↦ earlier ++ op ∷ [] ])) ops
      ≡ joined o (op ∷ ops)
joined-add none op ops = refl
joined-add (some earlier) op ops = ap some (append_assoc earlier (op ∷ []) ops)

joined-nil : (o : Option (List DataOperation)) → joined o [] ≡ o
joined-nil none = refl
joined-nil (some ops) = ap some (append-nil ops)

lookup-add_to_group_self :
    (op : DataOperation) (groups : Dict (List DataOperation)) (k : String)
    (ops : List DataOperation)
    → str_eq op.instance_name k ≡ true
    → joined (lookup k (add_to_group op groups)) ops ≡ joined (lookup k groups) (op ∷ ops)
unfolding add_to_group
lookup-add_to_group_self op groups k ops h = rw lookup-insert (
    rw h (
      joined-add (lookup op.instance_name groups) op ops
      ∙ ap (λ n. joined (lookup n groups) (op ∷ ops)) ((eq_iff op.instance_name k).0 h)))

lookup-add_to_group_ne :
    (op : DataOperation) (groups : Dict (List DataOperation)) (k : String)
    → str_eq op.instance_name k ≡ false
    → lookup k (add_to_group op groups) ≡ lookup k groups
unfolding add_to_group
lookup-add_to_group_ne op groups k h = rw lookup-insert (rw h)

lookup-group_from :
    (ops : List DataOperation) (groups : Dict (List DataOperation)) (k : String)
    → lookup k (group_from groups ops) ≡ joined (lookup k groups) (of_service k ops)
unfolding group_from
lookup-group_from [] groups k = sym (joined-nil (lookup k groups))
lookup-group_from (op ∷ ops) groups k = elim (Bool-cases (str_eq op.instance_name k)) [
  | inl h ↦ rw h (
      lookup-group_from ops (add_to_group op groups) k
      ∙ lookup-add_to_group_self op groups k (of_service k ops) h)
  | inr h ↦ rw h (
      lookup-group_from ops (add_to_group op groups) k
      ∙ ap (λ o. joined o (of_service k ops)) (lookup-add_to_group_ne op groups k h))
]

-- No service has two groups.
abbrev Distinct {ℓ} : {V : Type ℓ} → Dict V → Type ℓ
Distinct [] = Unit
Distinct ((k, v) ∷ d) = (lookup k d ≡ none) × Distinct d

Distinct-insert {ℓ} :
    {V : Type ℓ} (k : String) (v : V) (d : Dict V) → Distinct d → Distinct (insert k v d)
unfolding lookup insert
Distinct-insert k v [] h = (refl, tt)
Distinct-insert k v ((j, w) ∷ d) h =
    ground (arith, eq_iff j k, eq_iff k j, lookup-insert k j v d, Distinct-insert k v d h.1)

Distinct-group_from :
    (ops : List DataOperation) (groups : Dict (List DataOperation))
    → Distinct groups
    → Distinct (group_from groups ops)
unfolding group_from add_to_group
Distinct-group_from [] groups h = h
Distinct-group_from (op ∷ ops) groups h =
    Distinct-group_from ops _ (Distinct-insert op.instance_name _ groups h)

lookup-head :
    (name k : String) (ops : List DataOperation) (groups : Dict (List DataOperation))
    → lookup k ((name, ops) ∷ groups) ≡ (if str_eq name k then some ops else lookup k groups)
unfolding lookup
lookup-head name k ops groups = refl

module _ {P : Type 0} (hooks : String → Hooks P) where
  -- An engine after the operations of its service, if there are any.
  abbrev pub after_operations :
      String → List DataOperation → Option (Engine.Engine P) → Option (Engine.Engine P)
  after_operations k [] e = e
  after_operations k (op ∷ ops) none = none
  after_operations k (op ∷ ops) (some e) = some (Engine.apply (hooks k) (op ∷ ops) e).1

  abbrev after_group :
      String → Option (List DataOperation) → Option (Engine.Engine P) → Option (Engine.Engine P)
  after_group k none e = e
  after_group k (some ops) none = none
  after_group k (some ops) (some e) = some (Engine.apply (hooks k) ops e).1

  after_group-joined :
      (k : String) (ops : List DataOperation) (e : Option (Engine.Engine P))
      → after_group k (joined none ops) e ≡ after_operations k ops e
  after_group-joined k [] e = refl
  after_group-joined k (op ∷ ops) none = refl
  after_group-joined k (op ∷ ops) (some e) = refl

  -- The first group applied, and the rest after it.
  apply_groups-cons :
      (name : String) (ops : List DataOperation) (groups : Dict (List DataOperation))
      (engines : Dict (Engine.Engine P))
      → (apply_groups hooks ((name, ops) ∷ groups) engines).0 ≡ ok tt
      → (e : Engine.Engine P) × (lookup name engines ≡ some e)
        × (apply_groups hooks ((name, ops) ∷ groups) engines
            ≡ apply_groups hooks groups (insert name (Engine.apply (hooks name) ops e).1 engines))
  apply_groups-cons name ops groups engines h = elim (Option-cases (lookup name engines)) [
    | inl l ↦ absurd (unfold apply_groups in ground arith)
    | inr (e, l) ↦ (e, l, unfold apply_groups in ground arith)
  ]

  after_group-head :
      (name k : String) (ops : List DataOperation) (groups : Dict (List DataOperation))
      (engines : Dict (Engine.Engine P)) (e : Engine.Engine P)
      → lookup name groups ≡ none
      → lookup name engines ≡ some e
      → after_group k
          (lookup k groups)
          (lookup k (insert name (Engine.apply (hooks name) ops e).1 engines))
        ≡ after_group k (lookup k ((name, ops) ∷ groups)) (lookup k engines)
  after_group-head name k ops groups engines e d l = elim (Bool-cases (str_eq name k)) [
    | inl h ↦
        let same : name ≡ k = (eq_iff name k).0 h in
        subst
          (λ j.
            after_group j (lookup j groups)
              (lookup j (insert name (Engine.apply (hooks name) ops e).1 engines))
            ≡ after_group j (lookup j ((name, ops) ∷ groups)) (lookup j engines))
          same (rw (lookup-head, lookup-insert_self, eq_refl, d, l))
    | inr h ↦ rw (lookup-head, lookup-insert, h)
  ]

  lookup-apply_groups :
      (groups : Dict (List DataOperation)) (engines : Dict (Engine.Engine P)) (k : String)
      → Distinct groups
      → (apply_groups hooks groups engines).0 ≡ ok tt
      → lookup k (apply_groups hooks groups engines).1
        ≡ after_group k (lookup k groups) (lookup k engines)
  lookup-apply_groups [] engines k d h = unfold apply_groups lookup in refl
  lookup-apply_groups ((name, ops) ∷ groups) engines k d h =
      let (e, l, step) = apply_groups-cons name ops groups engines h in
      let e' = (Engine.apply (hooks name) ops e).1 in
      ap (λ r. lookup k r.1) step
      ∙ lookup-apply_groups groups (insert name e' engines) k d.1 (sym (ap (λ r. r.0) step) ∙ h)
      ∙ after_group-head name k ops groups engines e d.0 l

  -- If the pending operations of a test apply, each service has executed exactly its own, as one
  -- group in accumulation order, and a service without any is untouched.
  pub apply_pending-of_service :
      (s : Session P) (k : String)
      → (apply_pending hooks s).0 ≡ ok tt
      → lookup k (apply_pending hooks s).1.engines
        ≡ after_operations k (of_service k (s.batches s.current)) (lookup k s.engines)
  unfolding apply_pending take_pending
  apply_pending-of_service s k h =
      lookup-apply_groups (group_from [] (s.batches s.current)) s.engines k
        (Distinct-group_from (s.batches s.current) [] tt) h
      ∙ ap (λ o. after_group k o (lookup k s.engines))
          (lookup-group_from (s.batches s.current) [] k)
      ∙ after_group-joined k (of_service k (s.batches s.current)) (lookup k s.engines)

  -- Whether or not the pending operations apply, the batch is empty afterwards, and applying again
  -- succeeds and does nothing to the engines.
  pub apply_pending_again :
      (s : Session P)
      → let s' = (apply_pending hooks s).1 in
        (s'.batches s'.current ≡ [])
        × ((apply_pending hooks s').0 ≡ ok tt)
        × ((apply_pending hooks s').1.engines ≡ s'.engines)
  unfolding apply_pending take_pending
  apply_pending_again s = (
    drained,
    ap
        (λ ops.
          (apply_groups hooks (group_from [] ops)
            (apply_groups hooks (group_from [] (s.batches s.current)) s.engines).1).0)
        drained,
    ap
        (λ ops.
          (apply_groups hooks (group_from [] ops)
            (apply_groups hooks (group_from [] (s.batches s.current)) s.engines).1).1)
        drained,
  )
    where
      drained : (if s.current == s.current then [] else s.batches s.current) ≡ []
      drained = rw (==_refl s.current)
