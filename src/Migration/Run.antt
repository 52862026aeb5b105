-- ===== src/Migration/Run.antt =====
-- crates/yoop-core/src/migration/mod.rs: `MigrationManager::run` and `rollback`;
-- crates/yoop-core/src/migration/version.rs: the recorded state. What a migration does is a parameter.
pub mod Faults
pub mod Restoring
use yoop.Base.{
  ℕ, zero, suc, ◌≡◌, Bool, true, false, Option, none, some, List, [], ◌∷◌, ◌++◌, if◌then◌else◌,
  length, Result, ok, err, Error, internal, backup_failed, migration_failed, config_error,
  session_error, out_of_rounds,
}
use yoop.Base.Decimal.{to_string}
use yoop.Storage.{Text}
use yoop.Transfer.Sender.{same_text}
use yoop.Migration.{SchemaVersion, Migration, version_le, get_pending}
use yoop.Migration.Backup.{
  BackupDisk, BackupManifest, BackupManager, Json, bind, called, parsed_as, migration_state_json,
  create_backup, restore_backup,
}

pub record MigrationHistoryEntry : Type 0 where
  pub from_version : SchemaVersion
  pub to_version : SchemaVersion
  pub timestamp : ℕ
  pub backup_id : Text
  pub success : Bool
  pub migrations_applied : List Text

pub record MigrationState : Type 0 where
  pub version : ℕ
  pub schema_version : SchemaVersion
  pub app_version : SchemaVersion
  pub last_migration : Option ℕ
  pub history : List MigrationHistoryEntry

abbrev pub new_state : SchemaVersion → SchemaVersion → MigrationState
new_state schema_version app_version = record {
  version = 1;
  schema_version = schema_version;
  app_version = app_version;
  last_migration = none;
  history = [];
}

abbrev pub add_history_entry : MigrationState → MigrationHistoryEntry → MigrationState
add_history_entry state entry = record state {
  last_migration = some entry.timestamp;
  schema_version = entry.to_version;
  history = state.history ++ entry ∷ [];
}

-- `to_string`
abbrev pub version_text : SchemaVersion → Text
version_text v = to_string v.major ++ b'.' ∷ (to_string v.minor ++ b'.' ∷ to_string v.patch)

-- `Migration::id`
abbrev pub migration_id : Migration → Text
migration_id m =
    to_string m.from_version.major
    ++ b'_'
      ∷ (to_string m.from_version.minor
          ++ b'_'
            ∷ b't'
            ∷ b'o'
            ∷ b'_'
            ∷ (to_string m.to_version.major ++ b'_' ∷ to_string m.to_version.minor))

-- "none"
abbrev pub or_none : Option Text → Text
or_none none = b'n' ∷ b'o' ∷ b'n' ∷ b'e' ∷ []
or_none (some backup_id) = backup_id

-- `find` on the history
unfoldable pub find_entry : Text → List MigrationHistoryEntry → Option MigrationHistoryEntry
find_entry backup_id [] = none
find_entry backup_id (entry ∷ history) =
    let rest = find_entry backup_id history in
    if same_text entry.backup_id backup_id then some entry else rest

-- `up` is the method of a migration; the formats of times and the version of the program are as for
-- the backups.
module _ (fs : BackupDisk) (json : Json BackupManifest) (state_json : Json MigrationState)
    (manager : BackupManager) (config_path : Text) (date time : ℕ → Text)
    (current_version : SchemaVersion) (up : Migration → fs.Disk → Result (Unit {0}) × fs.Disk) where
  abbrev pub state_path : Text
  state_path = fs.join manager.data_dir migration_state_json

  unfoldable pub load_state : fs.Disk → Result MigrationState × fs.Disk
  load_state d =
      if fs.exists state_path d
      then bind (parsed_as config_error (fs.content state_path d) d)
          (λ text d'. parsed_as config_error (state_json.from_json text) d')
      else (ok (new_state current_version current_version), d)

  abbrev pub make_state_dir : Option Text → fs.Disk → Result (Unit {0}) × fs.Disk
  make_state_dir none d = (ok tt, d)
  make_state_dir (some dir) d = called config_error (fs.create_dir_all dir d)

  unfoldable pub save_state : MigrationState → fs.Disk → Result (Unit {0}) × fs.Disk
  save_state state d = bind (make_state_dir (fs.parent state_path) d) (λ made d₁.
      bind (parsed_as (internal backup_failed) (state_json.to_json state) d₁)
        (λ text d₂. called config_error (fs.write state_path text d₂)))

  -- A migration failed: the backup is restored, if there is one, whether or not that succeeds.
  unfoldable pub give_up : Option Text → fs.Disk → Result (List Text) × fs.Disk
  unfolding restore_backup
  give_up none d = (err (internal migration_failed), d)
  give_up (some backup_id) d =
      (err (internal migration_failed), (restore_backup fs json manager config_path backup_id d).1)

  -- The loop, with the identifiers of the migrations that were applied
  unfoldable pub apply_all :
      Option Text → List Migration → List Text → fs.Disk → Result (List Text) × fs.Disk
  unfolding give_up
  apply_all backup_id [] applied d = (ok applied, d)
  apply_all backup_id (m ∷ pending) applied d = elim (up m d).0 [
    | err e ↦ give_up backup_id (up m d).1
    | ok upgraded ↦ apply_all backup_id pending (applied ++ migration_id m ∷ []) (up m d).1
  ]

  unfoldable pub run_pending :
      SchemaVersion
      → SchemaVersion
      → List Migration
      → ℕ
      → Option Text
      → fs.Disk
      → Result (Unit {0}) × fs.Disk
  unfolding load_state apply_all save_state
  run_pending from to pending now backup_id d = bind (load_state d) (λ state d₁.
      bind (apply_all backup_id pending [] d₁) (λ applied d₂.
        save_state
          (add_history_entry state (record {
            from_version = from;
            to_version = to;
            timestamp = now;
            backup_id = or_none backup_id;
            success = true;
            migrations_applied = applied;
          }))
          d₂))

  unfoldable pub run_backed_up :
      SchemaVersion
      → SchemaVersion
      → List Migration
      → Bool
      → (now later : ℕ) → fs.Disk
      → Result (Unit {0}) × fs.Disk
  unfolding run_pending create_backup
  run_backed_up from to pending false now later d = run_pending from to pending later none d
  run_backed_up from to pending true now later d =
      bind
        (create_backup fs json manager config_path date time current_version (version_text from) now
          d)
        (λ backup_id d₁. run_pending from to pending later (some backup_id) d₁)

  -- The choice of the migrations has one round more than there are migrations. The times are those of
  -- the backup and of the entry in the history.
  unfoldable pub run :
      List Migration
      → SchemaVersion
      → SchemaVersion
      → Bool
      → (now later : ℕ) → fs.Disk
      → Result (Unit {0}) × fs.Disk
  unfolding run_backed_up
  run migrations from to backup now later d =
      elim (get_pending migrations (suc (length migrations)) from to) [
        | none ↦ (err (session_error out_of_rounds), d)
        | some [] ↦ (ok tt, d)
        | some (m ∷ pending) ↦ run_backed_up from to (m ∷ pending) backup now later d
      ]

  -- With the version of the program
  unfoldable pub migrate_if_needed :
      List Migration → SchemaVersion → (now later : ℕ) → fs.Disk → Result (Unit {0}) × fs.Disk
  unfolding load_state run
  migrate_if_needed migrations app_version now later d = bind (load_state d) (λ state d₁.
      if version_le app_version state.schema_version
      then (ok tt, d₁)
      else run migrations state.schema_version app_version true now later d₁)

  unfoldable pub rollback : Text → fs.Disk → Result (Unit {0}) × fs.Disk
  unfolding restore_backup load_state find_entry save_state
  rollback backup_id d =
      bind (restore_backup fs json manager config_path backup_id d) (λ restored d₁.
        bind (load_state d₁) (λ state d₂. elim (find_entry backup_id state.history) [
          | none ↦ (ok tt, d₂)
          | some entry ↦ save_state (record state { schema_version = entry.from_version }) d₂
        ]))
