-- ===== src/Migration/Run/Restoring.antt =====
-- crates/yoop-core/src/migration/mod.rs: what `run` leaves when a migration fails.
use yoop.Base.{
  ℕ, suc, ◌<◌, ◌≡◌, ◌≢◌, refl, ap, ◌∙◌, subst, true, Option, none, some, List, [], ◌∷◌, ◌++◌,
  length, Result, ok, err, arith, All, Bool-cases, inl, inr, Error, internal, migration_failed,
  config_error, session_error, out_of_rounds,
}
use yoop.Storage.{Text}
use yoop.Migration.{SchemaVersion, Migration, get_pending}
use yoop.Migration.Backup.{
  BackupDisk, BackupManifest, BackupManager, Json, bind, parsed_as, load_manifest, create_backup,
}
use yoop.Migration.Backup.Steps.{bind-keeps, parsed_as-keeps}
use yoop.Migration.Backup.Restoring.{
  Named, data_of, saved_at, IsApart, Saved, Intact, CanRestore, restore_backup-Intact,
}
use yoop.Migration.Backup.Surviving.{new_id, Earlier, create_backup-Saved}
use yoop.Migration.Run.{
  MigrationState, version_text, load_state, save_state, apply_all, run_pending, run_backed_up, run,
  state_path, give_up, migration_id, add_history_entry, or_none,
}
use yoop.Migration.Run.Faults.{create_backup-Quiet, load_state-Quiet, save_state-Quiet}

-- A chain of steps that fails does so at its first one, or after it.
bind-err :
    {Disk A B : Type 0} (r : Result A × Disk) (next : A → Disk → Result B × Disk) (x : Error)
    (d : Disk)
    → bind r next ≡ (err x, d)
    → r.0 ≢ err x
    → (a : A) × (e : Disk) × (r ≡ (ok a, e)) × (next a e ≡ (err x, d))
bind-err (err y, e) next x d h quiet = absurd (quiet (ground (arith, h)))
bind-err (ok a, e) next x d h quiet = (a, e, refl, h)

-- Where the second step does not fail so, the first one has.
bind-failed :
    {Disk A B : Type 0} (P : Disk → Type 0) (r : Result A × Disk)
    (next : A → Disk → Result B × Disk) (x : Error) (e : Disk)
    → bind r next ≡ (err x, e)
    → ((a : A) (d : Disk) → (next a d).0 ≢ err x)
    → ((y : Error) (d : Disk) → r ≡ (err y, d) → P d)
    → P e
bind-failed P (err y, d) next x e h quiet failed = subst P (ap (λ r. r.1) h) (failed y d refl)
bind-failed P (ok a, d) next x e h quiet failed = absurd (quiet a d (ap (λ r. r.0) h))

module _ (fs : BackupDisk) (json : Json BackupManifest) (state_json : Json MigrationState)
    (manager : BackupManager) (config_path : Text) (date time : ℕ → Text)
    (current_version : SchemaVersion) (up : Migration → fs.Disk → Result (Unit {0}) × fs.Disk) where
  -- A migration leaves the files of a backup alone.
  abbrev pub Spares : Text → Text → Type 0
  Spares id f =
      (m : Migration) (d : fs.Disk)
      → fs.content (saved_at fs json manager config_path id f) (up m d).1
        ≡ fs.content (saved_at fs json manager config_path id f) d

  module _ (id : Text) (apart : IsApart fs json manager config_path id) (f xs : Text)
      (named : Named fs json manager config_path f)
      (works : CanRestore fs json manager config_path id) (spares : Spares id f) where
    abbrev Kept : fs.Disk → Type 0
    Kept = Saved fs json manager config_path id apart f xs named

    abbrev Whole : fs.Disk → Type 0
    Whole = Intact fs json manager config_path id apart f xs named

    abbrev applies : List Migration → List Text → fs.Disk → Result (List Text) × fs.Disk
    applies pending applied d =
        apply_all fs json state_json manager config_path date time current_version up (some id)
          pending applied d

    -- Where a migration fails, the file has its contents back.
    apply_all-Intact :
        (pending : List Migration) (applied : List Text) (x : Error) (d e : fs.Disk)
        → applies pending applied d ≡ (err x, e)
        → Kept d
        → Whole e
    unfolding apply_all give_up
    apply_all-Intact [] applied x d e h kept = absurd (ground (arith, h))
    apply_all-Intact (m ∷ pending) applied x d e h kept =
        elim (up m d).0
            as (λ r.
              elim r [
                | err y ↦
                    give_up fs json state_json manager config_path date time current_version up
                      (some id) (up m d).1
                | ok upgraded ↦ applies pending (applied ++ migration_id m ∷ []) (up m d).1
              ]
                ≡ (err x, e)
              → Whole e) [
                | err y ↦ λ h. subst Whole (ap (λ r. r.1) h) (
                    restore_backup-Intact fs json manager config_path id apart f xs named (up m d).1
                      works (spares m d ∙ kept))
                | ok upgraded ↦ λ h.
                    apply_all-Intact pending (applied ++ migration_id m ∷ []) x (up m d).1 e h
                      (spares m d ∙ kept)
              ]
          h

    load_state-Kept :
        (d : fs.Disk)
        → Kept d
        → Kept (load_state fs json state_json manager config_path date time current_version up d).1
    unfolding load_state
    load_state-Kept d kept =
        let place =
          state_path fs json state_json manager config_path date time current_version up in
        elim (Bool-cases (fs.exists place d)) [
          | inl there ↦ rw there (
              bind-keeps Kept (parsed_as config_error (fs.content place d) d) _
                (parsed_as-keeps Kept config_error (fs.content place d) d kept)
                (λ text e k. parsed_as-keeps Kept config_error (state_json.from_json text) e k))
          | inr missing ↦ rw missing kept
        ]

    run_pending-Intact :
        (from to : SchemaVersion) (pending : List Migration) (later : ℕ) (d e : fs.Disk)
        → run_pending fs json state_json manager config_path date time current_version up from to
            pending later
            (some id)
            d
          ≡ (err (internal migration_failed), e)
        → Kept d
        → Whole e
    unfolding run_pending
    run_pending-Intact from to pending later d e h kept =
        let load = load_state fs json state_json manager config_path date time current_version up in
        let save = save_state fs json state_json manager config_path date time current_version up in
        let saves : MigrationState → List Text → fs.Disk → Result (Unit {0}) × fs.Disk =
          λ state applied x.
            save
              (add_history_entry state (record {
                from_version = from;
                to_version = to;
                timestamp = later;
                backup_id = or_none (some id);
                success = true;
                migrations_applied = applied;
              }))
              x in
        let (state, d₁, loaded, rest) =
          bind-err (load d) (λ state x. bind (applies pending [] x) (saves state))
            (internal migration_failed) e h
            (load_state-Quiet fs json manager config_path state_json date time current_version up
              d) in
        let kept₁ : Kept d₁ = subst Kept (ap (λ r. r.1) loaded) (load_state-Kept d kept) in
        bind-failed Whole (applies pending [] d₁) (saves state) (internal migration_failed) e rest
          (λ applied x.
            save_state-Quiet fs json manager config_path state_json date time current_version up _
              x)
          (λ x e₁ same. apply_all-Intact pending [] x d₁ e₁ same kept₁)

  run_backed_up-Intact :
      (from to : SchemaVersion) (pending : List Migration) (now later : ℕ) (f xs : Text)
      (m : BackupManifest) (d e : fs.Disk)
      → Named fs json manager config_path f
      → CanRestore fs json manager config_path
          (new_id fs json manager config_path date time current_version (version_text from) now)
      → Spares
          (new_id fs json manager config_path date time current_version (version_text from) now)
          f
      → IsApart fs json manager config_path
          (new_id fs json manager config_path date time current_version (version_text from) now)
      → 0 < manager.max_backups
      → load_manifest fs json manager config_path d ≡ (ok m, d)
      → All
          (Earlier fs json manager config_path date time current_version (version_text from) now f)
          m.backups
      → fs.content (data_of fs json manager config_path f) d ≡ some xs
      → run_backed_up fs json state_json manager config_path date time current_version up from to
          pending true now later d
        ≡ (err (internal migration_failed), e)
      → fs.content (data_of fs json manager config_path f) e ≡ some xs
  unfolding run_backed_up
  run_backed_up-Intact from to pending now later f xs m d e named works spares apart some_kept here
        earlier intact h =
      let version = version_text from in
      let id = new_id fs json manager config_path date time current_version version now in
      let pends : Text → fs.Disk → Result (Unit {0}) × fs.Disk = λ backup_id x.
        run_pending fs json state_json manager config_path date time current_version up from to
          pending later (some backup_id) x in
      let (made, d₁, backed, rest) =
        bind-err (create_backup fs json manager config_path date time current_version version now d)
          pends (internal migration_failed) e h
          (create_backup-Quiet fs json manager config_path date time current_version version now
            d) in
      let (same, saved) =
        create_backup-Saved fs json manager config_path date time current_version version now apart
          f xs named m made d d₁ some_kept here earlier intact backed in
      run_pending-Intact id apart f xs named works spares from to pending later d₁ e
        (ap (λ i. pends i d₁) same ∙ rest) saved

  -- `run` once the migrations are chosen
  abbrev pub begins :
      SchemaVersion
      → SchemaVersion
      → (now later : ℕ) → fs.Disk
      → Option (List Migration)
      → Result (Unit {0}) × fs.Disk
  begins from to now later d none = (err (session_error out_of_rounds), d)
  begins from to now later d (some []) = (ok tt, d)
  begins from to now later d (some (n ∷ pending)) =
      run_backed_up fs json state_json manager config_path date time current_version up from to
        (n ∷ pending) true now later d

  chosen-Intact :
      (from to : SchemaVersion) (now later : ℕ) (W : fs.Disk → Type 0) (d e : fs.Disk)
      (o : Option (List Migration))
      → begins from to now later d o ≡ (err (internal migration_failed), e)
      → ((n : Migration) (pending : List Migration)
          → run_backed_up fs json state_json manager config_path date time current_version up from
              to
              (n ∷ pending)
              true
              now
              later
              d
            ≡ (err (internal migration_failed), e)
          → W e)
      → W e
  chosen-Intact from to now later W d e none h next = absurd (ground (arith, h))
  chosen-Intact from to now later W d e (some []) h next = absurd (ground (arith, h))
  chosen-Intact from to now later W d e (some (n ∷ pending)) h next = next n pending h

  -- When `run` with a backup reports that a migration failed, each file that is backed up and was there
  -- before has its contents from before, whatever the migrations did to it. The conditions are that
  -- directories can be created and what exists of the new backup copied, that a migration leaves the files of the new
  -- backup alone, that these, the files themselves and the manifest are apart from each other, that
  -- the manager keeps a backup at all, and that the manifest can be loaded and has no backup that is
  -- newer than the new one or in whose directory the new one lies.
  pub run_restores :
      (migrations : List Migration) (from to : SchemaVersion) (now later : ℕ) (f xs : Text)
      (m : BackupManifest) (d e : fs.Disk)
      → Named fs json manager config_path f
      → CanRestore fs json manager config_path
          (new_id fs json manager config_path date time current_version (version_text from) now)
      → Spares
          (new_id fs json manager config_path date time current_version (version_text from) now)
          f
      → IsApart fs json manager config_path
          (new_id fs json manager config_path date time current_version (version_text from) now)
      → 0 < manager.max_backups
      → load_manifest fs json manager config_path d ≡ (ok m, d)
      → All
          (Earlier fs json manager config_path date time current_version (version_text from) now f)
          m.backups
      → fs.content (data_of fs json manager config_path f) d ≡ some xs
      → run fs json state_json manager config_path date time current_version up migrations from to
          true now later d
        ≡ (err (internal migration_failed), e)
      → fs.content (data_of fs json manager config_path f) e ≡ some xs
  unfolding run
  run_restores migrations from to now later f xs m d e named works spares apart some_kept here
        earlier intact h =
      chosen-Intact from to now later
        (λ x. fs.content (data_of fs json manager config_path f) x ≡ some xs) d e
        (get_pending migrations (suc (length migrations)) from to) h
        (λ n pending.
          run_backed_up-Intact from to (n ∷ pending) now later f xs m d e named works spares apart
            some_kept here earlier intact)
