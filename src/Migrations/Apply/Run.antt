-- ===== src/Migrations/Apply/Run.antt =====
-- run_migrations of sandbox/migrations/apply.py: the source and its temporary clone.
use goga_tool_pybuggy.Prelude.{
  ◌≡◌, refl, sym, subst, true, false, Bool-cases, Option, none, some, List, Result, ok, err, arith,
  Done, inl, inr, ◌⊎◌, Result-cases, Option-cases,
}
use goga_tool_pybuggy.Prelude.Sort.{Ascends}
use goga_tool_pybuggy.Prelude.Text.{Text}
use goga_tool_pybuggy.Migrations.Parse.{MigrationFile}
use goga_tool_pybuggy.Migrations.Folder.{Folder, Entry, LoadError, load_migration_set}
use goga_tool_pybuggy.Migrations.Folder.Load.{version_of, load_migration_set-Ascends}
use goga_tool_pybuggy.Migrations.Apply.{
  Connection, Sources, Checkout, Session, ApplyError, apply_migrations, apply_set, apply_folder,
  run_local, run_clone, run_migrations, resolve_clone_location,
}

load_migration_set-sorted :
    (folder : Folder) (ms : List MigrationFile)
    → load_migration_set folder ≡ ok ms
    → Ascends version_of ms
load_migration_set-sorted none ms h = absurd (unfold load_migration_set in cc)
load_migration_set-sorted (some entries) ms h =
    let (parsed, t, p, a, n) = load_migration_set-Ascends entries ms h in a

module _ (c : Connection) (sources : Sources) where
  open c use {Database}

  -- Where a source leads: to the local folder, or to the location in the clone if it does not lead out.
  abbrev pub Located : Text → Option Text → Option Text → List Entry → Type 0
  Located location none ref entries = sources.local_folder location ≡ some entries
  Located location (some url) ref entries =
      (target : Checkout) × (sources.clone url ref ≡ ok target)
      × (target.escapes location ≡ false)
      × (target.folder location ≡ some entries)

  -- What a run raises whose source leads to no folder.
  abbrev pub Unlocated : Text → Option Text → Option Text → ApplyError → Type 0
  Unlocated location none ref e =
      (sources.local_folder location ≡ none) × (e ≡ ApplyError.missing_folder)
  Unlocated location (some url) ref e =
      ((message : Text) × (sources.clone url ref ≡ err message)
        × (e ≡ ApplyError.clone_failed url message))
      ⊎ ((target : Checkout) × (sources.clone url ref ≡ ok target)
          × (((target.escapes location ≡ true) × (e ≡ ApplyError.escapes_clone))
              ⊎ ((target.escapes location ≡ false)
                  × (target.folder location ≡ none)
                  × (e ≡ ApplyError.missing_in_clone))))

  -- A load of the folder, and what is done with what it gives.
  abbrev pub SetEnds : List Entry → Database → Result ApplyError Done × Database → Type 0
  SetEnds entries before (r, after) =
      ((migrations : List MigrationFile) × (load_migration_set (some entries) ≡ ok migrations)
        × Ascends version_of migrations
        × (apply_migrations c migrations before ≡ (r, after)))
      ⊎ ((x : LoadError) × (load_migration_set (some entries) ≡ err x)
          × (r ≡ err (ApplyError.bad_set x))
          × (after ≡ before))

  abbrev pub RunEnds :
      Text → Option Text → Option Text → Database → Result ApplyError Done × Database → Type 0
  RunEnds location url ref before (r, after) =
      ((entries : List Entry) × Located location url ref entries
        × SetEnds entries before (r, after))
      ⊎ ((e : ApplyError) × Unlocated location url ref e × (r ≡ err e) × (after ≡ before))

  apply_set-SetEnds :
      (entries : List Entry) (before : Database)
      → SetEnds entries before (apply_set c sources (load_migration_set (some entries)) before)
  unfolding apply_set
  apply_set-SetEnds entries before = go (load_migration_set (some entries)) refl
    where
      go :
          (r : Result LoadError (List MigrationFile))
          → load_migration_set (some entries) ≡ r
          → SetEnds entries before (apply_set c sources r before)
      go (ok ms) h = inl (ms, h, load_migration_set-sorted (some entries) ms h, refl)
      go (err x) h = inr (x, h, refl, refl)

  run_local-RunEnds :
      (location : Text) (ref : Option Text) (before : Database)
      → RunEnds location none ref before (run_local c sources location before)
  run_local-RunEnds location ref before = elim (Option-cases (sources.local_folder location)) [
    | inl e ↦
        let z : run_local c sources location before ≡ (err ApplyError.missing_folder, before) =
          unfold run_local in ground arith in
        subst (RunEnds location none ref before) (sym z)
          (inr (ApplyError.missing_folder, (e, refl), refl, refl))
    | inr (entries, e) ↦
        let z : run_local c sources location before
            ≡ apply_set c sources (load_migration_set (some entries)) before =
          unfold run_local in ground arith in
        subst (RunEnds location none ref before) (sym z)
          (inl (entries, e, apply_set-SetEnds entries before))
  ]

  in_clone-RunEnds :
      (location url : Text) (ref : Option Text) (target : Checkout) (before : Database)
      → sources.clone url ref ≡ ok target
      → RunEnds location
          (some url)
          ref
          before
          (apply_folder c sources (resolve_clone_location c sources target location) before)
  in_clone-RunEnds location url ref target before k = elim (Bool-cases (target.escapes location)) [
    | inl b ↦
        let z : apply_folder c sources (resolve_clone_location c sources target location) before
            ≡ (err ApplyError.escapes_clone, before) =
          unfold apply_folder in unfold resolve_clone_location in ground arith in
        subst (RunEnds location (some url) ref before) (sym z)
          (inr (ApplyError.escapes_clone, inr (target, k, inl (b, refl)), refl, refl))
    | inr b ↦ elim (Option-cases (target.folder location)) [
      | inl n ↦
          let z : apply_folder c sources (resolve_clone_location c sources target location) before
              ≡ (err ApplyError.missing_in_clone, before) =
            unfold apply_folder in unfold resolve_clone_location in ground arith in
          subst (RunEnds location (some url) ref before) (sym z)
            (inr (ApplyError.missing_in_clone, inr (target, k, inr (b, n, refl)), refl, refl))
      | inr (entries, n) ↦
          let z : apply_folder c sources (resolve_clone_location c sources target location) before
              ≡ apply_set c sources (load_migration_set (some entries)) before =
            unfold apply_folder in unfold resolve_clone_location in ground arith in
          subst (RunEnds location (some url) ref before) (sym z)
            (inl (entries, (target, k, b, n), apply_set-SetEnds entries before))
    ]
  ]

  run_clone-RunEnds :
      (location url : Text) (ref : Option Text) (before : Database)
      → RunEnds location (some url) ref before (run_clone c sources location url ref before)
  run_clone-RunEnds location url ref before = elim (Result-cases (sources.clone url ref)) [
    | inr (m, k) ↦
        let z : run_clone c sources location url ref before
            ≡ (err (ApplyError.clone_failed url m), before) =
          unfold run_clone in ground arith in
        subst (RunEnds location (some url) ref before) (sym z)
          (inr (ApplyError.clone_failed url m, inl (m, k, refl), refl, refl))
    | inl (target, k) ↦
        let z : run_clone c sources location url ref before
            ≡ apply_folder c sources (resolve_clone_location c sources target location) before =
          unfold run_clone in ground arith in
        subst (RunEnds location (some url) ref before) (sym z)
          (in_clone-RunEnds location url ref target before k)
  ]

  -- A run leaves the temporary folders that existed before it. If its source leads to a folder (the
  -- local one, or the one at the location in the clone, which does not lead out), the folder is loaded,
  -- and what the run returns and leaves is what the apply of the loaded set, in strictly ascending
  -- version order, returns and leaves; if the load raises, its exception is raised and the database is
  -- as it was. If the source leads to no folder, the run raises the reason, and the database is as it
  -- was.
  pub run_migrations-RunEnds :
      (location : Text) (url ref : Option Text) (folder : Text) (s : Session c sources)
      → let (r, s') = run_migrations c sources location url ref folder s in
        (s'.temporary ≡ s.temporary) × RunEnds location url ref s.database (r, s'.database)
  unfolding run_migrations
  run_migrations-RunEnds location none ref folder s =
      (refl, run_local-RunEnds location ref s.database)
  run_migrations-RunEnds location (some url) ref folder s =
      (refl, run_clone-RunEnds location url ref s.database)
