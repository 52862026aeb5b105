-- ===== src/Migration/Backup.antt =====
-- crates/yoop-core/src/migration/backup.rs: the backups of the files that migrations change. The file
-- system, the JSON of the manifest and the formatting of times are parameters. A time is a number.
pub mod Steps
pub mod Sorting
pub mod Removing
pub mod Keeping
pub mod Restoring
pub mod Surviving
pub mod Succeeding
use yoop.Base.{
  ℕ, ◌+◌, ◌-◌, ◌%◌, ◌^◌, ◌≡◌, ◌≢◌, Bool, true, false, ◌&&◌, Option, none, some, List, [], ◌∷◌, ◌++◌,
  take, drop, leb, if◌then◌else◌, length, Result, ok, err, Error, internal, backup_failed,
  backup_not_found,
}
use yoop.Storage.{Text}
use yoop.Transfer.Sender.{same_text}
use yoop.Migration.{SchemaVersion}

-- The calls of `std::fs`. A call gives whether it succeeded, and the disk afterwards, which may have
-- changed although it failed. `content` is what `read_to_string` gives, `starts_with` that of paths.
-- The laws say which files a call leaves as they are, what a call that succeeds leaves in its file,
-- that nothing is left below a directory that was removed, which paths a call makes exist, and that a file that can be read exists, as the directories above
-- it do.
pub record BackupDisk : Type 1 where
  pub Disk : Type 0
  pub content : Text → Disk → Option Text
  pub exists : Text → Disk → Bool
  pub file_size : Text → Disk → ℕ
  pub join : Text → Text → Text
  pub parent : Text → Option Text
  pub starts_with : Text → Text → Bool
  pub create_dir_all : Text → Disk → Bool × Disk
  pub copy : (from to : Text) → Disk → Bool × Disk
  pub write : Text → Text → Disk → Bool × Disk
  pub remove_dir_all : Text → Disk → Bool × Disk
  pub dir_same : (p q : Text) (d : Disk) → content q (create_dir_all p d).1 ≡ content q d
  pub copy_ne : (p q r : Text) (d : Disk) → q ≢ r → content r (copy p q d).1 ≡ content r d
  pub copy_ok :
      (p q : Text) (d : Disk)
      → p ≢ q
      → (copy p q d).0 ≡ true
      → content q (copy p q d).1 ≡ content p d
  pub write_ne : (p q xs : Text) (d : Disk) → p ≢ q → content q (write p xs d).1 ≡ content q d
  pub write_ok :
      (p xs : Text) (d : Disk) → (write p xs d).0 ≡ true → content p (write p xs d).1 ≡ some xs
  pub remove_ne :
      (p q : Text) (d : Disk)
      → starts_with q p ≡ false
      → content q (remove_dir_all p d).1 ≡ content q d
  pub remove_ok :
      (p q : Text) (d : Disk)
      → (remove_dir_all p d).0 ≡ true
      → starts_with q p ≡ true
      → content q (remove_dir_all p d).1 ≡ none
  pub dir_exists :
      (p q : Text) (d : Disk)
      → starts_with p q ≡ false
      → exists q (create_dir_all p d).1 ≡ exists q d
  pub dir_keeps :
      (p q : Text) (d : Disk) → exists q d ≡ true → exists q (create_dir_all p d).1 ≡ true
  pub copy_exists : (p q r : Text) (d : Disk) → q ≢ r → exists r (copy p q d).1 ≡ exists r d
  pub exists_content : (p xs : Text) (d : Disk) → content p d ≡ some xs → exists p d ≡ true
  pub exists_above :
      (p q xs : Text) (d : Disk)
      → starts_with q p ≡ true
      → content q d ≡ some xs
      → exists p d ≡ true

pub record BackupInfo : Type 0 where
  pub id : Text
  pub app_version : SchemaVersion
  pub schema_version : SchemaVersion
  pub timestamp : ℕ
  pub files : List Text
  pub size_bytes : ℕ

pub record BackupManifest : Type 0 where
  pub version : ℕ
  pub backups : List BackupInfo
  pub max_backups : ℕ

abbrev pub default_manifest : BackupManifest
default_manifest = record { version = 1; backups = []; max_backups = 5 }

-- serde on a value: what it prints it parses again.
pub record Json (A : Type 0) : Type 0 where
  pub to_json : A → Option Text
  pub from_json : Text → Option A
  pub round_trip : (a : A) (json : Text) → to_json a ≡ some json → from_json json ≡ some a

pub record BackupManager : Type 0 where
  pub backup_dir : Text
  pub data_dir : Text
  pub max_backups : ℕ

-- "config.toml"
abbrev pub config_toml : Text
config_toml = b'c' ∷ b'o' ∷ b'n' ∷ b'f' ∷ b'i' ∷ b'g' ∷ b'.' ∷ b't' ∷ b'o' ∷ b'm' ∷ b'l' ∷ []

-- ".json"
abbrev pub json_suffix : Text
json_suffix = b'.' ∷ b'j' ∷ b's' ∷ b'o' ∷ b'n' ∷ []

-- "migration_state.json"
abbrev pub migration_state_json : Text
migration_state_json =
    b'm' ∷ b'i' ∷ b'g' ∷ b'r' ∷ b'a' ∷ b't' ∷ b'i' ∷ b'o' ∷ b'n' ∷ b'_' ∷ b's' ∷ b't' ∷ b'a' ∷ b't'
    ∷ b'e' ∷ json_suffix

-- `FILES_TO_BACKUP`
abbrev pub files_to_backup : List Text
files_to_backup =
    config_toml
    ∷ (b'h' ∷ b'i' ∷ b's' ∷ b't' ∷ b'o' ∷ b'r' ∷ b'y' ∷ json_suffix)
    ∷ (b't' ∷ b'r' ∷ b'u' ∷ b's' ∷ b't' ∷ json_suffix)
    ∷ migration_state_json
    ∷ []

-- Stable, as `sort_by` is
abbrev pub insert_by_time : BackupInfo → List BackupInfo → List BackupInfo
insert_by_time b [] = b ∷ []
insert_by_time b (c ∷ backups) =
    let rest = insert_by_time b backups in
    if leb b.timestamp c.timestamp then b ∷ c ∷ backups else c ∷ rest

abbrev pub sort_by_time : List BackupInfo → List BackupInfo
sort_by_time [] = []
sort_by_time (b ∷ backups) = insert_by_time b (sort_by_time backups)

-- What an operation gives, with the disk afterwards; `bind` is what `?` does.
module _ {Disk : Type 0} where
  abbrev pub bind :
      {A B : Type 0} → Result A × Disk → (A → Disk → Result B × Disk) → Result B × Disk
  bind (err e, d) next = (err e, d)
  bind (ok a, d) next = next a d

  abbrev pub called : Error → Bool × Disk → Result (Unit {0}) × Disk
  called e (true, d) = (ok tt, d)
  called e (false, d) = (err e, d)

  abbrev pub parsed_as : {A : Type 0} → Error → Option A → Disk → Result A × Disk
  parsed_as e none d = (err e, d)
  parsed_as e (some a) d = (ok a, d)

module _ (fs : BackupDisk) (json : Json BackupManifest) (manager : BackupManager)
    (config_path : Text) where
  abbrev pub failed : {A : Type 0} → fs.Disk → Result A × fs.Disk
  failed d = (err (internal backup_failed), d)

  -- "manifest.json"
  abbrev pub manifest_path : Text
  manifest_path =
      fs.join manager.backup_dir
        (b'm' ∷ b'a' ∷ b'n' ∷ b'i' ∷ b'f' ∷ b'e' ∷ b's' ∷ b't' ∷ json_suffix)

  abbrev pub backup_path : Text → Text
  backup_path backup_id = fs.join manager.backup_dir backup_id

  abbrev pub data_file : Text → Text
  data_file file_name =
      if same_text file_name config_toml then config_path else fs.join manager.data_dir file_name

  abbrev pub make_parent : Option Text → fs.Disk → Result (Unit {0}) × fs.Disk
  make_parent none d = (ok tt, d)
  make_parent (some dir) d = called (internal backup_failed) (fs.create_dir_all dir d)

  unfoldable pub load_manifest : fs.Disk → Result BackupManifest × fs.Disk
  load_manifest d =
      if fs.exists manifest_path d
      then bind (parsed_as (internal backup_failed) (fs.content manifest_path d) d)
          (λ text d'. parsed_as (internal backup_failed) (json.from_json text) d')
      else (ok default_manifest, d)

  unfoldable pub save_manifest : BackupManifest → fs.Disk → Result (Unit {0}) × fs.Disk
  save_manifest manifest d = bind (make_parent (fs.parent manifest_path) d) (λ made d₁.
      bind (parsed_as (internal backup_failed) (json.to_json manifest) d₁)
        (λ text d₂. called (internal backup_failed) (fs.write manifest_path text d₂)))

  unfoldable pub add_to_manifest : BackupInfo → fs.Disk → Result (Unit {0}) × fs.Disk
  unfolding load_manifest save_manifest
  add_to_manifest backup_info d = bind (load_manifest d) (λ manifest d₁.
      save_manifest (record manifest { backups = manifest.backups ++ backup_info ∷ [] }) d₁)

  unfoldable pub list_backups : fs.Disk → Result (List BackupInfo) × fs.Disk
  unfolding load_manifest
  list_backups d = bind (load_manifest d) (λ manifest d₁. (ok manifest.backups, d₁))

  unfoldable pub remove_backups : List BackupInfo → fs.Disk → Result (Unit {0}) × fs.Disk
  remove_backups [] d = (ok tt, d)
  remove_backups (b ∷ backups) d =
      bind
        (if fs.exists (backup_path b.id) d
          then called (internal backup_failed) (fs.remove_dir_all (backup_path b.id) d)
          else (ok tt, d))
        (λ removed d₁. remove_backups backups d₁)

  unfoldable pub remove_oldest : BackupManifest → fs.Disk → Result ℕ × fs.Disk
  unfolding remove_backups save_manifest
  remove_oldest manifest d =
      let sorted = sort_by_time manifest.backups in
      let to_remove = length sorted - manager.max_backups in
      bind (remove_backups (take to_remove sorted) d) (λ removed d₁.
        bind (save_manifest (record manifest { backups = drop to_remove sorted }) d₁)
          (λ saved d₂. (ok (length (take to_remove sorted)), d₂)))

  unfoldable pub cleanup : fs.Disk → Result ℕ × fs.Disk
  unfolding load_manifest remove_oldest
  cleanup d = bind (load_manifest d) (λ manifest d₁.
      if leb (length manifest.backups) manager.max_backups
      then (ok 0, d₁)
      else remove_oldest manifest d₁)

  -- The loop over the files, with the names and the size so far
  unfoldable pub copy_files :
      Text → List Text → List Text → ℕ → fs.Disk → Result (List Text × ℕ) × fs.Disk
  copy_files path [] files size d = (ok (files, size), d)
  copy_files path (name ∷ names) files size d =
      if fs.exists (data_file name) d
      then bind (called (internal backup_failed) (fs.copy (data_file name) (fs.join path name) d))
          (λ copied d₁.
            copy_files path names (files ++ name ∷ [])
              ((size + fs.file_size (fs.join path name) d₁) % 2 ^ 64) d₁)
      else copy_files path names files size d

  unfoldable pub restore_files : Text → List Text → fs.Disk → Result (Unit {0}) × fs.Disk
  restore_files path [] d = (ok tt, d)
  restore_files path (name ∷ names) d =
      if fs.exists (fs.join path name) d
      then bind (make_parent (fs.parent (data_file name)) d) (λ made d₁.
        bind (called (internal backup_failed) (fs.copy (fs.join path name) (data_file name) d₁))
          (λ copied d₂. restore_files path names d₂))
      else restore_files path names d

  unfoldable pub restore_backup : Text → fs.Disk → Result (Unit {0}) × fs.Disk
  unfolding restore_files
  restore_backup backup_id d =
      if fs.exists (backup_path backup_id) d
      then restore_files (backup_path backup_id) files_to_backup d
      else (err (internal backup_not_found), d)

  -- `date` and `time` are the formats of the identifier.
  module _ (date time : ℕ → Text) (current_version : SchemaVersion) where
    abbrev pub backup_id_of : Text → ℕ → Text
    backup_id_of version timestamp = version ++ b'_' ∷ (date timestamp ++ b'_' ∷ time timestamp)

    abbrev pub backup_info_of : Text → ℕ → List Text × ℕ → BackupInfo
    backup_info_of version timestamp copied = record {
      id = backup_id_of version timestamp;
      app_version = current_version;
      schema_version = current_version;
      timestamp = timestamp;
      files = copied.0;
      size_bytes = copied.1;
    }

    unfoldable pub create_backup : Text → ℕ → fs.Disk → Result Text × fs.Disk
    unfolding copy_files add_to_manifest cleanup
    create_backup version timestamp d =
        let backup_id = backup_id_of version timestamp in
        bind (called (internal backup_failed) (fs.create_dir_all (backup_path backup_id) d))
          (λ made d₁.
            bind (copy_files (backup_path backup_id) files_to_backup [] 0 d₁) (λ copied d₂.
              bind (add_to_manifest (backup_info_of version timestamp copied) d₂)
                (λ added d₃. bind (cleanup d₃) (λ removed d₄. (ok backup_id, d₄)))))
