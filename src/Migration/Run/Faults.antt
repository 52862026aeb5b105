-- ===== src/Migration/Run/Faults.antt =====
-- crates/yoop-core/src/migration: only a migration that fails is reported as one.
use yoop.Base.{
  ℕ, ◌≢◌, Bool, true, false, Option, none, some, List, [], ◌∷◌, leb, if◌then◌else◌, length, Result,
  ok, err, arith, internal, backup_failed, migration_failed, config_error,
}
use yoop.Storage.{Text}
use yoop.Migration.{SchemaVersion, Migration}
use yoop.Migration.Backup.{
  BackupDisk, BackupInfo, BackupManifest, BackupManager, Json, bind, called, parsed_as,
  files_to_backup, copy_files, make_parent, manifest_path, backup_path, data_file, load_manifest,
  save_manifest, add_to_manifest, remove_backups, remove_oldest, cleanup, create_backup,
  backup_id_of,
}
use yoop.Migration.Run.{MigrationState, load_state, save_state, make_state_dir, state_path}

-- Not the error of a migration
abbrev pub Quiet : {A D : Type 0} → Result A × D → Type 0
Quiet r = r.0 ≢ err (internal migration_failed)

bind-Quiet :
    {D A B : Type 0} (r : Result A × D) (next : A → D → Result B × D)
    → Quiet r
    → ((a : A) (d : D) → Quiet (next a d))
    → Quiet (bind r next)
bind-Quiet (err x, d) next h k = λ e. h (ground (arith, e))
bind-Quiet (ok a, d) next h k = k a d

ok-Quiet : {A D : Type 0} (a : A) (d : D) → Quiet {A = A} {D = D} (ok a, d)
ok-Quiet a d e = absurd (ground (arith, e))

called-Quiet : {D : Type 0} (r : Bool × D) → Quiet (called (internal backup_failed) r)
called-Quiet (true, d) e = absurd (ground (arith, e))
called-Quiet (false, d) e = absurd (ground (arith, e))

called_config-Quiet : {D : Type 0} (r : Bool × D) → Quiet (called config_error r)
called_config-Quiet (true, d) e = absurd (ground (arith, e))
called_config-Quiet (false, d) e = absurd (ground (arith, e))

parsed_as-Quiet :
    {D A : Type 0} (o : Option A) (d : D) → Quiet (parsed_as (internal backup_failed) o d)
parsed_as-Quiet none d e = absurd (ground (arith, e))
parsed_as-Quiet (some a) d e = absurd (ground (arith, e))

parsed_config-Quiet : {D A : Type 0} (o : Option A) (d : D) → Quiet (parsed_as config_error o d)
parsed_config-Quiet none d e = absurd (ground (arith, e))
parsed_config-Quiet (some a) d e = absurd (ground (arith, e))

if-Quiet :
    {D A : Type 0} (b : Bool) (r s : Result A × D) → Quiet r → Quiet s → Quiet (if b then r else s)
if-Quiet true r s h k = h
if-Quiet false r s h k = k

module _ (fs : BackupDisk) (json : Json BackupManifest) (manager : BackupManager)
    (config_path : Text) where
  load_manifest-Quiet : (d : fs.Disk) → Quiet (load_manifest fs json manager config_path d)
  unfolding load_manifest
  load_manifest-Quiet d =
      if-Quiet (fs.exists (manifest_path fs json manager config_path) d) _ _
        (bind-Quiet
          (parsed_as (internal backup_failed)
            (fs.content (manifest_path fs json manager config_path) d) d)
          _ (parsed_as-Quiet _ d) (λ text e. parsed_as-Quiet (json.from_json text) e))
        (ok-Quiet _ d)

  make_parent-Quiet :
      (o : Option Text) (d : fs.Disk) → Quiet (make_parent fs json manager config_path o d)
  make_parent-Quiet none d = ok-Quiet tt d
  make_parent-Quiet (some dir) d = called-Quiet (fs.create_dir_all dir d)

  save_manifest-Quiet :
      (m : BackupManifest) (d : fs.Disk) → Quiet (save_manifest fs json manager config_path m d)
  unfolding save_manifest
  save_manifest-Quiet m d =
      bind-Quiet
        (make_parent fs json manager config_path
          (fs.parent (manifest_path fs json manager config_path)) d)
        _ (make_parent-Quiet _ d)
        (λ made e.
          bind-Quiet (parsed_as (internal backup_failed) (json.to_json m) e) _
            (parsed_as-Quiet (json.to_json m) e) (λ text e₁. called-Quiet (fs.write _ text e₁)))

  remove_backups-Quiet :
      (backups : List BackupInfo) (d : fs.Disk)
      → Quiet (remove_backups fs json manager config_path backups d)
  unfolding remove_backups
  remove_backups-Quiet [] d = ok-Quiet tt d
  remove_backups-Quiet (b ∷ backups) d =
      let place = backup_path fs json manager config_path b.id in
      bind-Quiet
        (if fs.exists place d
          then called (internal backup_failed) (fs.remove_dir_all place d)
          else (ok tt, d))
        _
        (if-Quiet (fs.exists place d) _ _ (called-Quiet (fs.remove_dir_all place d))
          (ok-Quiet tt d))
        (λ removed e. remove_backups-Quiet backups e)

  cleanup-Quiet : (d : fs.Disk) → Quiet (cleanup fs json manager config_path d)
  unfolding cleanup remove_oldest
  cleanup-Quiet d =
      bind-Quiet (load_manifest fs json manager config_path d) _ (load_manifest-Quiet d) (λ m e.
        if-Quiet (leb (length m.backups) manager.max_backups) _ _ (ok-Quiet 0 e) (
          bind-Quiet (remove_backups fs json manager config_path _ e) _ (remove_backups-Quiet _ e)
            (λ removed e₁.
              bind-Quiet (save_manifest fs json manager config_path _ e₁) _
                (save_manifest-Quiet _ e₁) (λ saved e₂. ok-Quiet _ e₂))))

  copy_files-Quiet :
      (place : Text) (names files : List Text) (size : ℕ) (d : fs.Disk)
      → Quiet (copy_files fs json manager config_path place names files size d)
  unfolding copy_files
  copy_files-Quiet place [] files size d = ok-Quiet _ d
  copy_files-Quiet place (g ∷ names) files size d =
      let copies = fs.copy (data_file fs json manager config_path g) (fs.join place g) d in
      if-Quiet (fs.exists (data_file fs json manager config_path g) d) _ _
        (bind-Quiet (called (internal backup_failed) copies) _ (called-Quiet copies)
          (λ copied e. copy_files-Quiet place names _ _ e))
        (copy_files-Quiet place names files size d)

  pub create_backup-Quiet :
      (date time : ℕ → Text) (current_version : SchemaVersion) (version : Text) (now : ℕ)
      (d : fs.Disk)
      → Quiet (create_backup fs json manager config_path date time current_version version now d)
  unfolding create_backup add_to_manifest
  create_backup-Quiet date time current_version version now d =
      let place =
        backup_path fs json manager config_path
          (backup_id_of fs json manager config_path date time current_version version now) in
      bind-Quiet (called (internal backup_failed) (fs.create_dir_all place d)) _
        (called-Quiet (fs.create_dir_all place d))
        (λ made d₁.
          bind-Quiet (copy_files fs json manager config_path place files_to_backup [] 0 d₁) _
            (copy_files-Quiet place files_to_backup [] 0 d₁)
            (λ copied d₂.
              bind-Quiet (bind (load_manifest fs json manager config_path d₂) _) _
                (bind-Quiet (load_manifest fs json manager config_path d₂) _
                  (load_manifest-Quiet d₂) (λ m d₃. save_manifest-Quiet _ d₃))
                (λ added d₃.
                  bind-Quiet (cleanup fs json manager config_path d₃) _ (cleanup-Quiet d₃)
                    (λ removed d₄. ok-Quiet _ d₄))))

  module _ (state_json : Json MigrationState) (date time : ℕ → Text)
      (current_version : SchemaVersion)
      (up : Migration → fs.Disk → Result (Unit {0}) × fs.Disk) where
    abbrev recorded_at : Text
    recorded_at = state_path fs json state_json manager config_path date time current_version up

    pub load_state-Quiet :
        (d : fs.Disk)
        → Quiet (load_state fs json state_json manager config_path date time current_version up d)
    unfolding load_state
    load_state-Quiet d =
        if-Quiet (fs.exists recorded_at d) _ _
          (bind-Quiet (parsed_as config_error (fs.content recorded_at d) d) _
            (parsed_config-Quiet _ d) (λ text e. parsed_config-Quiet (state_json.from_json text) e))
          (ok-Quiet _ d)

    make_state_dir-Quiet :
        (o : Option Text) (d : fs.Disk)
        → Quiet
            (make_state_dir fs json state_json manager config_path date time current_version up o d)
    make_state_dir-Quiet none d = ok-Quiet tt d
    make_state_dir-Quiet (some dir) d = called_config-Quiet (fs.create_dir_all dir d)

    pub save_state-Quiet :
        (state : MigrationState) (d : fs.Disk)
        → Quiet
            (save_state fs json state_json manager config_path date time current_version up state d)
    unfolding save_state
    save_state-Quiet state d =
        bind-Quiet
          (make_state_dir fs json state_json manager config_path date time current_version up
            (fs.parent recorded_at) d)
          _ (make_state_dir-Quiet _ d)
          (λ made e.
            bind-Quiet (parsed_as (internal backup_failed) (state_json.to_json state) e) _
              (parsed_as-Quiet (state_json.to_json state) e)
              (λ text e₁. called_config-Quiet (fs.write recorded_at text e₁)))
