-- ===== src/Migrations/Apply/Atomic.antt =====
-- What an apply of sandbox/migrations/apply.py leaves behind, by how it ends.
use goga_tool_pybuggy.Prelude.{
  ◌≡◌, refl, ap, true, false, List, [], ◌∷◌, ◌++◌, Result, ok, err, arith, Done, inl, inr, ◌⊎◌,
  Result-cases, Bool-cases,
}
use goga_tool_pybuggy.Prelude.Text.{Text}
use goga_tool_pybuggy.Migrations.Parse.{MigrationFile}
use goga_tool_pybuggy.Migrations.Apply.{
  Connection, ApplyError, execute_all, apply_in_transaction, apply_in_autocommit, apply_one,
  apply_migrations,
}

module _ (c : Connection) where
  open c use {Database, execute, commit}

  -- The statements before the one that failed are executed, and no other.
  pub record Stopped (statements : List Text) (before after : Database) : Type 0 where
    pub executed : List Text
    pub failed : Text
    pub skipped : List Text
    pub order : statements ≡ executed ++ failed ∷ skipped
    pub effect : execute_all c executed before ≡ (ok tt, after)
    pub message : Text
    pub refused : execute failed after ≡ err message

  execute_all-later :
      (s : Text) (ss : List Text) (before db after : Database) (r : Result Text Done)
      → execute s before ≡ ok db
      → execute_all c (s ∷ ss) before ≡ (r, after)
      → execute_all c ss db ≡ (r, after)
  unfolding execute_all
  execute_all-later s ss before db after r e h = ground arith

  Stopped-later :
      (s : Text) (ss : List Text) {before db after : Database}
      → execute s before ≡ ok db
      → Stopped ss db after
      → Stopped (s ∷ ss) before after
  unfolding execute_all
  Stopped-later s ss e rest = record {
    executed = s ∷ rest.executed;
    failed = rest.failed;
    skipped = rest.skipped;
    order = ap (λ t. s ∷ t) rest.order;
    effect = ground (arith, e, rest.effect);
    message = rest.message;
    refused = rest.refused;
  }

  Stopped-here :
      (s : Text) (ss : List Text) {before after : Database} {m : Text} (message : Text)
      → execute s before ≡ err m
      → execute_all c (s ∷ ss) before ≡ (err message, after)
      → Stopped (s ∷ ss) before after
  unfolding execute_all
  Stopped-here s ss {before} {after} {m} message e h =
      let same : before ≡ after = ground arith in
      record {
        executed = [];
        failed = s;
        skipped = ss;
        order = refl;
        effect = ap (λ db. (ok tt, db)) same;
        message = m;
        refused = rw same at e;
      }

  execute_all-Stopped :
      (statements : List Text) (before after : Database) (message : Text)
      → execute_all c statements before ≡ (err message, after)
      → Stopped statements before after
  execute_all-Stopped [] before after message h = absurd (unfold execute_all in ground arith)
  execute_all-Stopped (s ∷ ss) before after message h = elim (Result-cases (execute s before)) [
    | inl (db, e) ↦ Stopped-later s ss e (
        execute_all-Stopped ss db after message
          (execute_all-later s ss before db after (err message) e h))
    | inr (m, e) ↦ Stopped-here s ss message e h
  ]

  -- How one file can fail: a default file leaves the database as it was, a NO TRANSACTION file
  -- leaves the effect of the statements before the failed one.
  abbrev pub FailsAt : MigrationFile → Database → Database → Type 0
  FailsAt m before after =
      ((m.no_transaction ≡ false) × (after ≡ before))
      ⊎ ((m.no_transaction ≡ true) × Stopped m.statements before after)

  autocommit_fails :
      (m : MigrationFile) (before after : Database) (e : ApplyError)
      → apply_in_autocommit c m before ≡ (err e, after)
      → Stopped m.statements before after
  autocommit_fails m before after e h = elim (Result-cases (execute_all c m.statements before).0) [
    | inl (u, o) ↦ absurd (unfold apply_in_autocommit in ground arith)
    | inr (message, o) ↦
        execute_all-Stopped m.statements before after message
          (unfold apply_in_autocommit in ground arith)
  ]

  transaction_fails :
      (m : MigrationFile) (before after : Database) (e : ApplyError)
      → apply_in_transaction c m before ≡ (err e, after)
      → after ≡ before
  unfolding apply_in_transaction
  transaction_fails m before after e h = ground arith

  apply_one-FailsAt :
      (m : MigrationFile) (before after : Database) (e : ApplyError)
      → apply_one c m before ≡ (err e, after)
      → FailsAt m before after
  unfolding apply_one
  apply_one-FailsAt m before after e h = elim (Bool-cases m.no_transaction) [
    | inl auto ↦ inr (auto, autocommit_fails m before after e (ground arith))
    | inr default ↦ inl (default, transaction_fails m before after e (ground arith))
  ]

  pub record FailedApply (ms : List MigrationFile) (before after : Database) : Type 0 where
    pub applied : List MigrationFile
    pub failed : MigrationFile
    pub unreached : List MigrationFile
    pub reached : Database
    pub order : ms ≡ applied ++ failed ∷ unreached
    pub effect : apply_migrations c applied before ≡ (ok tt, reached)
    pub failure : FailsAt failed reached after

  here :
      (m : MigrationFile) (ms : List MigrationFile) {before after : Database} {e : ApplyError}
      → apply_one c m before ≡ (err e, after)
      → FailedApply (m ∷ ms) before after
  unfolding apply_migrations
  here m ms {before} {after} {e} h = record {
    applied = [];
    failed = m;
    unreached = ms;
    reached = before;
    order = refl;
    effect = refl;
    failure = apply_one-FailsAt m before after e h;
  }

  later :
      (m : MigrationFile) (ms : List MigrationFile) {before db after : Database}
      → apply_one c m before ≡ (ok tt, db)
      → FailedApply ms db after
      → FailedApply (m ∷ ms) before after
  unfolding apply_migrations
  later m ms h rest = record {
    applied = m ∷ rest.applied;
    failed = rest.failed;
    unreached = rest.unreached;
    reached = rest.reached;
    order = ap (λ t. m ∷ t) rest.order;
    effect = ground (arith, h, rest.effect);
    failure = rest.failure;
  }

  -- One round of the loop.
  apply_migrations-cons :
      (m : MigrationFile) (ms : List MigrationFile) (before after : Database) (e : ApplyError)
      → apply_migrations c (m ∷ ms) before ≡ (err e, after)
      → ((apply_one c m before) ≡ (err e, after))
        ⊎ ((db : Database) × (apply_one c m before ≡ (ok tt, db))
            × (apply_migrations c ms db ≡ (err e, after)))
  unfolding apply_migrations
  apply_migrations-cons m ms before after e h = elim (Result-cases (apply_one c m before).0) [
    | inl (u, o) ↦ inr ((apply_one c m before).1, ground arith, ground arith)
    | inr (e', o) ↦ inl (ground arith)
  ]

  -- A failed apply has stopped at one file: the files before it, in order, are applied as a whole,
  -- no file behind it has run, and of the file itself either nothing is left, if it is a default
  -- file, or the effect of exactly its statements before the one that failed, if it declared
  -- NO TRANSACTION.
  pub apply_migrations-FailedApply :
      (ms : List MigrationFile) (before after : Database) (e : ApplyError)
      → apply_migrations c ms before ≡ (err e, after)
      → FailedApply ms before after
  apply_migrations-FailedApply [] before after e h =
      absurd (unfold apply_migrations in ground arith)
  apply_migrations-FailedApply (m ∷ ms) before after e h =
      elim (apply_migrations-cons m ms before after e h) [
        | inl failed ↦ here m ms failed
        | inr (db, o, rest) ↦ later m ms o (apply_migrations-FailedApply ms db after e rest)
      ]
