-- ===== src/Migrations/Apply.antt =====
-- sandbox/migrations/apply.py. The connection is psycopg's: a parameter.
pub mod Atomic
pub mod Run
use goga_tool_pybuggy.Prelude.{
  ℕ, ◌≡◌, refl, Bool, true, false, Option, none, some, List, [], ◌∷◌, ◌++◌, if◌then◌else◌, Result,
  ok, err, ◌>>=◌, Done, not,
}
use goga_tool_pybuggy.Prelude.Text.{Text, starts_with}
use goga_tool_pybuggy.Migrations.Sections.{MigrationError}
use goga_tool_pybuggy.Migrations.Parse.{MigrationFile}
use goga_tool_pybuggy.Migrations.Folder.{Folder, LoadError, load_migration_set}

-- The server behind an autocommit connection: what one statement does to the database, or the
-- server's message, and what the commit of an explicit transaction answers.
pub record Connection : Type 1 where
  pub Database : Type 0
  pub execute : Text → Database → Result Text Database
  pub commit : Database → Result Text Database

-- What an apply raises: the message names the step, the file of a failed statement or the source; what
-- a load raises goes through.
pub data ApplyError : Type 0 where
  statement_failed : Text → Text → ApplyError
  bad_set : LoadError → ApplyError
  clone_failed : Text → Text → ApplyError
  missing_folder escapes_clone missing_in_clone : ApplyError

module _ (c : Connection) where
  open c use {Database, execute, commit}

  -- The statements in order, up to the first that fails; the database that they leave.
  pub execute_all : List Text → Database → Result Text Done × Database
  execute_all [] db = (ok tt, db)
  execute_all (statement ∷ statements) db = elim (execute statement db) [
    | ok db' ↦ execute_all statements db'
    | err message ↦ (err message, db)
  ]

  commit_or_roll_back : Database → Database → Result Text Database → Result Text Done × Database
  commit_or_roll_back before after (ok db) = (ok tt, db)
  commit_or_roll_back before after (err message) = (err message, before)

  close_transaction : Database → Result Text Done × Database → Result Text Done × Database
  unfolding commit_or_roll_back
  close_transaction before (ok _, db) = commit_or_roll_back before db (commit db)
  close_transaction before (err message, db) = (err message, before)

  named : Text → Result Text Done × Database → Result ApplyError Done × Database
  named filename (ok _, db) = (ok tt, db)
  named filename (err message, db) = (err (ApplyError.statement_failed filename message), db)

  unfoldable pub apply_in_transaction : MigrationFile → Database → Result ApplyError Done × Database
  unfolding execute_all close_transaction named
  apply_in_transaction m db = named m.filename (close_transaction db (execute_all m.statements db))

  pub apply_in_autocommit : MigrationFile → Database → Result ApplyError Done × Database
  unfolding execute_all named
  apply_in_autocommit m db = named m.filename (execute_all m.statements db)

  -- One round of the loop of `apply_migrations`.
  pub apply_one : MigrationFile → Database → Result ApplyError Done × Database
  unfolding apply_in_transaction apply_in_autocommit
  apply_one m db = if m.no_transaction then apply_in_autocommit m db else apply_in_transaction m db

  continue :
      (Database → Result ApplyError Done × Database)
      → Result ApplyError Done × Database
      → Result ApplyError Done × Database
  continue k (ok _, db) = k db
  continue k (err e, db) = (err e, db)

  unfoldable pub apply_migrations :
      List MigrationFile → Database → Result ApplyError Done × Database
  unfolding apply_one continue
  apply_migrations [] db = (ok tt, db)
  apply_migrations (m ∷ ms) db = continue (apply_migrations ms) (apply_one m db)

-- A clone: where a location leads inside it, and whether it leads out.
pub record Checkout : Type 0 where
  pub escapes : Text → Bool
  pub folder : Text → Folder

-- Git and the file system around one apply.
pub record Sources : Type 0 where
  pub local_folder : Text → Folder
  pub clone : Text → Option Text → Result Text Checkout

module _ (c : Connection) (sources : Sources) where
  open c use {Database}

  -- The database, and the temporary folders that exist.
  pub record Session : Type 0 where
    pub database : Database
    pub temporary : List Text

  pub apply_set :
      Result LoadError (List MigrationFile) → Database → Result ApplyError Done × Database
  unfolding apply_migrations
  apply_set (ok ms) db = apply_migrations c ms db
  apply_set (err e) db = (err (ApplyError.bad_set e), db)

  pub run_local : Text → Database → Result ApplyError Done × Database
  unfolding apply_set load_migration_set
  run_local location db = elim (sources.local_folder location) [
    | none ↦ (err ApplyError.missing_folder, db)
    | some entries ↦ apply_set (load_migration_set (some entries)) db
  ]

  pub resolve_clone_location : Checkout → Text → Result ApplyError Folder
  resolve_clone_location target location =
      if target.escapes location
      then err ApplyError.escapes_clone
      else elim (target.folder location) [
        | none ↦ err ApplyError.missing_in_clone
        | some entries ↦ ok (some entries)
      ]

  pub apply_folder : Result ApplyError Folder → Database → Result ApplyError Done × Database
  unfolding apply_set load_migration_set
  apply_folder (ok folder) db = apply_set (load_migration_set folder) db
  apply_folder (err e) db = (err e, db)

  -- The body of the `with` block.
  pub run_clone : Text → Text → Option Text → Database → Result ApplyError Done × Database
  unfolding resolve_clone_location apply_folder
  run_clone location url ref db = elim (sources.clone url ref) [
    | err message ↦ (err (ApplyError.clone_failed url message), db)
    | ok target ↦ apply_folder (resolve_clone_location target location) db
  ]

  -- `with tempfile.TemporaryDirectory(...)`: the folder exists for the body only.
  enter_temporary : Text → Session → Session
  enter_temporary folder s = record s { temporary = folder ∷ s.temporary }

  leave_temporary : Session → Session
  leave_temporary s = record s { temporary = elim s.temporary [ [] ↦ [] | _ ∷ rest ↦ rest ] }

  run_remote : Text → Text → Option Text → Text → Session → Result ApplyError Done × Session
  unfolding run_clone enter_temporary leave_temporary
  run_remote location url ref folder s =
      let entered = enter_temporary folder s in
      let (r, db) = run_clone location url ref entered.database in
      (r, leave_temporary (record entered { database = db }))

  unfoldable pub run_migrations :
      Text → Option Text → Option Text → Text → Session → Result ApplyError Done × Session
  unfolding run_local run_remote
  run_migrations location none ref folder s =
      let (r, db) = run_local location s.database in (r, record s { database = db })
  run_migrations location (some url) ref folder s = run_remote location url ref folder s
