-- ===== src/Sandbox/Presets/Order.antt =====
-- The operations that enqueue_presets of sandbox/sandbox.py adds to the test's batch.
use goga_tool_pybuggy.Prelude.{
  ℕ, ◌+◌, String, ◌≡◌, refl, ap, subst, sym, ◌∙◌, false, List, [], ◌∷◌, ◌++◌, map, Result, ok, err,
  Done, traverse, traverse-cons, arith, length, length-append, append-nil, append_assoc, ==_refl,
}
use goga_tool_pybuggy.Prelude.Dict.{Dict}
use goga_tool_pybuggy.Value.{Value}
use goga_tool_pybuggy.Sandbox.Operation.{DataOperation}
use goga_tool_pybuggy.Sandbox.Engine.{Hooks}
use goga_tool_pybuggy.Sandbox.Session.{
  Session, SandboxError, test, current_batch, declare, require_service,
}
use goga_tool_pybuggy.Sandbox.Presets.{
  Presets, Counted, preset_operation, go_on, count_up, enqueue, at_target, declarations_loop,
  targets_loop, kinds_loop, enqueue_presets,
}

-- The declarations of a payload in its order, each with its kind and its service.
abbrev pub of_target : String → String → List Value → List (String × String × Value)
of_target kind name ds = map (λ d. (kind, name, d)) ds

abbrev pub of_kind : String → Dict (List Value) → List (String × String × Value)
of_kind kind [] = []
of_kind kind ((name, ds) ∷ targets) = of_target kind name ds ++ of_kind kind targets

abbrev pub of_presets : Presets → List (String × String × Value)
of_presets [] = []
of_presets ((kind, targets) ∷ presets) = of_kind kind targets ++ of_presets presets

abbrev pub operation_of : String × String × Value → Result SandboxError DataOperation
operation_of d = preset_operation d.0 d.1 d.2

traverse-step :
    (x : String × String × Value) (xs : List (String × String × Value)) {op : DataOperation}
    {ops : List DataOperation}
    → operation_of x ≡ ok op
    → traverse operation_of xs ≡ ok ops
    → traverse operation_of (x ∷ xs) ≡ ok (op ∷ ops)
unfolding traverse
traverse-step x xs p q = rw p (rw q refl)

traverse-append :
    (xs ys : List (String × String × Value)) {ops ops' : List DataOperation}
    → traverse operation_of xs ≡ ok ops
    → traverse operation_of ys ≡ ok ops'
    → traverse operation_of (xs ++ ys) ≡ ok (ops ++ ops')
unfolding traverse
traverse-append [] ys {ops} {ops'} p q = ground arith
traverse-append (x ∷ xs) ys {ops} {ops'} p q =
    let (op, others, e, es, z) = traverse-cons operation_of x xs p in
    let rest = traverse-append xs ys es q in
    traverse-step x (xs ++ ys) e rest ∙ ap (λ l. ok (l ++ ops')) (sym z)

abbrev counted {ℓ} : {S : Type ℓ} → Result SandboxError ℕ × S → ℕ → ℕ
counted (ok m, s) n = m
counted (err e, s) n = n

module _ {P : Type 0} (hooks : String → Hooks P) where
  -- Outside a boundary the declarations have become operations at the end of the current batch,
  -- in their order, and were counted; nothing else of the test has moved.
  pub record Appended (ds : List (String × String × Value)) (n : ℕ) (s : Session P) (m : ℕ)
      (s' : Session P) : Type 0 where
    pub operations : List DataOperation
    pub built : traverse operation_of ds ≡ ok operations
    pub batch : s'.batches s.current ≡ s.batches s.current ++ operations
    pub count : m ≡ n + length operations
    pub same_test : s'.current ≡ s.current
    pub outside : s'.boundary_open ≡ false
    pub same_engines : s'.engines ≡ s.engines

  Appended-nil : (n : ℕ) (s : Session P) → s.boundary_open ≡ false → Appended [] n s n s
  unfolding traverse
  Appended-nil n s o = record {
    operations = [];
    built = refl;
    batch = sym (append-nil (s.batches s.current));
    count = omega arith;
    same_test = refl;
    outside = o;
    same_engines = refl;
  }

  Appended-append :
      (xs ys : List (String × String × Value)) {n m k : ℕ} {s t u : Session P}
      → Appended xs n s m t
      → Appended ys m t k u
      → Appended (xs ++ ys) n s k u
  Appended-append xs ys {n} {m} {k} {s} {t} {u} a b = record {
    operations = a.operations ++ b.operations;
    built = traverse-append xs ys a.built b.built;
    batch =
        ap u.batches (sym a.same_test)
        ∙ b.batch
        ∙ ap (λ ops. ops ++ b.operations) (ap t.batches a.same_test ∙ a.batch)
        ∙ append_assoc (s.batches s.current) a.operations b.operations;
    count = omega (arith, a.count, b.count, length-append a.operations b.operations);
    same_test = b.same_test ∙ a.same_test;
    outside = b.outside;
    same_engines = b.same_engines ∙ a.same_engines;
  }

  enqueue-added :
      (kind name : String) (d : Value) (n : ℕ) (s t : Session P) (m : ℕ) (op : DataOperation)
      → preset_operation kind name d ≡ ok op
      → s.boundary_open ≡ false
      → count_up n (declare hooks (test s.current) op s) ≡ (ok m, t)
      → Appended ((kind, name, d) ∷ []) n s m t
  unfolding count_up declare traverse
  enqueue-added kind name d n s t m op e o h =
      let same = ap (λ r. r.1) h in
      record {
        operations = op ∷ [];
        built = rw e refl;
        batch = ap (λ u. u.batches s.current) (sym same) ∙ ground (arith, ==_refl s.current);
        count = sym (ap (λ r. counted r n) h);
        same_test = ap (λ u. u.current) (sym same);
        outside = ap (λ u. u.boundary_open) (sym same) ∙ o;
        same_engines = ap (λ u. u.engines) (sym same);
      }

  current_batch-test : (s : Session P) → s.boundary_open ≡ false → current_batch s ≡ test s.current
  unfolding current_batch
  current_batch-test s o = ground arith

  at_target-eq-ok :
      (r : Result SandboxError Done) (next : ℕ → Session P → Counted P) (n : ℕ) (s : Session P)
      {m : ℕ} {t : Session P}
      → at_target hooks r next n s ≡ (ok m, t)
      → next n s ≡ (ok m, t)
  unfolding at_target
  at_target-eq-ok (ok _) next n s h = h
  at_target-eq-ok (err e) next n s h = absurd (ground arith)

  enqueue-Appended :
      (kind name : String) (d : Value) (n : ℕ) (s t : Session P) (m : ℕ)
      (r : Result SandboxError DataOperation)
      → preset_operation kind name d ≡ r
      → s.boundary_open ≡ false
      → enqueue hooks r n s ≡ (ok m, t)
      → Appended ((kind, name, d) ∷ []) n s m t
  unfolding enqueue
  enqueue-Appended kind name d n s t m (ok op) e o h =
      enqueue-added kind name d n s t m op e o
        (ap (λ b. count_up n (declare hooks b op s)) (sym (current_batch-test s o)) ∙ h)
  enqueue-Appended kind name d n s t m (err x) e o h = absurd (ground arith)

  go_on-Appended :
      (xs ys : List (String × String × Value)) (n k : ℕ) (s u : Session P) (first : Counted P)
      (next : ℕ → Session P → Counted P)
      → ((m : ℕ) (t : Session P) → first ≡ (ok m, t) → Appended xs n s m t)
      → ((m : ℕ) (t : Session P)
          → t.boundary_open ≡ false
          → next m t ≡ (ok k, u)
          → Appended ys m t k u)
      → go_on first next ≡ (ok k, u)
      → Appended (xs ++ ys) n s k u
  go_on-Appended xs ys n k s u (ok m, t) next f g h =
      let a = f m t refl in Appended-append xs ys a (g m t a.outside h)
  go_on-Appended xs ys n k s u (err e, t) next f g h = absurd (ground arith)

  declarations_loop-Appended :
      (kind name : String) (ds : List Value) (n k : ℕ) (s u : Session P)
      → s.boundary_open ≡ false
      → declarations_loop hooks kind name ds n s ≡ (ok k, u)
      → Appended (of_target kind name ds) n s k u
  unfolding declarations_loop
  declarations_loop-Appended kind name [] n k s u o h =
      subst (λ r. Appended [] n s (counted r n) r.1) h (Appended-nil n s o)
  declarations_loop-Appended kind name (d ∷ ds) n k s u o h =
      go_on-Appended ((kind, name, d) ∷ []) (of_target kind name ds) n k s u
        (enqueue hooks (preset_operation kind name d) n s) (declarations_loop hooks kind name ds)
        (λ m t. enqueue-Appended kind name d n s t m (preset_operation kind name d) refl o)
        (λ m t. declarations_loop-Appended kind name ds m k t u) h

  targets_loop-Appended :
      (kind : String) (targets : Dict (List Value)) (n k : ℕ) (s u : Session P)
      → s.boundary_open ≡ false
      → targets_loop hooks kind targets n s ≡ (ok k, u)
      → Appended (of_kind kind targets) n s k u
  unfolding targets_loop
  targets_loop-Appended kind [] n k s u o h =
      subst (λ r. Appended [] n s (counted r n) r.1) h (Appended-nil n s o)
  targets_loop-Appended kind ((name, ds) ∷ targets) n k s u o h =
      go_on-Appended (of_target kind name ds) (of_kind kind targets) n k s u
        (at_target hooks (require_service kind name s) (declarations_loop hooks kind name ds) n s)
        (targets_loop hooks kind targets)
        (λ m t e. declarations_loop-Appended kind name ds n m s t o (
          at_target-eq-ok (require_service kind name s) (declarations_loop hooks kind name ds) n s
            e))
        (λ m t. targets_loop-Appended kind targets m k t u) h

  kinds_loop-Appended :
      (presets : Presets) (n k : ℕ) (s u : Session P)
      → s.boundary_open ≡ false
      → kinds_loop hooks presets n s ≡ (ok k, u)
      → Appended (of_presets presets) n s k u
  unfolding kinds_loop
  kinds_loop-Appended [] n k s u o h =
      subst (λ r. Appended [] n s (counted r n) r.1) h (Appended-nil n s o)
  kinds_loop-Appended ((kind, targets) ∷ presets) n k s u o h =
      go_on-Appended (of_kind kind targets) (of_presets presets) n k s u
        (targets_loop hooks kind targets n s) (kinds_loop hooks presets)
        (λ m t. targets_loop-Appended kind targets n m s t o)
        (λ m t. kinds_loop-Appended presets m k t u) h

  -- Outside a boundary, an enqueueing that returns has turned every declaration of the payload, in
  -- its order, into the operation that it declares, has added these at the end of the batch of the
  -- current test, and returns their number; no engine has moved.
  pub enqueue_presets-Appended :
      (presets : Presets) (n : ℕ) (s s' : Session P)
      → s.boundary_open ≡ false
      → enqueue_presets hooks presets s ≡ (ok n, s')
      → Appended (of_presets presets) 0 s n s'
  unfolding enqueue_presets
  enqueue_presets-Appended presets n s s' o h = kinds_loop-Appended presets 0 n s s' o h
