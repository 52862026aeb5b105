-- ===== src/Migration/Examples.antt =====
-- Runs of the choice of migrations on concrete versions.
use yoop.Base.{
  ℕ, ◌≡◌, ◌≢◌, refl, sym, ap, ◌∙◌, true, false, ◌||◌, Option, none, some, List, [], ◌∷◌, length,
  drop, arith, Result, ok, err, inl, inr, lookup, insert, lookup-insert_ne, ℕ_discrete, internal,
  migration_failed, config_error, Option-cases,
}
use yoop.Base.Decimal.{to_string}
use yoop.Storage.{Text}
use yoop.Files.Examples.{Memory, Text-discrete}
use yoop.Transfer.Sender.{same_text}
use yoop.Migration.{SchemaVersion, Migration, get_pending, pending_loop, next, find_next}
use yoop.Migration.Pending.{Chain, Stops, last_version, get_pending_total}
use yoop.Migration.Backup.{
  BackupInfo, BackupManifest, BackupManager, Json, backup_path, default_manifest, config_toml,
  load_manifest, save_manifest, cleanup, bind, restore_backup,
}
use yoop.Migration.Backup.Keeping.{NewestKept, save_manifest-loads, cleanup_newest}
use yoop.Migration.Backup.Restoring.{Named, saved_at, data_of, IsApart, CanRestore}
use yoop.Migration.Backup.Surviving.{new_id}
use yoop.Migration.Backup.Succeeding.{EndsWell, Succeeds, cleanup-ends, create_backup-ends}
use yoop.Migration.Run.{
  MigrationState, new_state, state_path, version_text, load_state, give_up, apply_all, run_pending,
  run_backed_up, run,
}
use yoop.Migration.Run.Restoring.{Spares, begins, run_restores}
use yoop.Migration.Memory.{disk, manifest_json, below, is_dir, there, copied, holds_some, put}

abbrev version : ℕ → ℕ → ℕ → SchemaVersion
version major minor patch = record { major = major; minor = minor; patch = patch }

abbrev migration : ℕ → ℕ → Migration
migration i j = record { from_version = version 0 i 0; to_version = version 0 j 0 }

abbrev three : List Migration
three = migration 2 3 ∷ migration 1 2 ∷ migration 3 4 ∷ []

get_pending_test :
    get_pending three 4 (version 0 1 0) (version 0 3 5) ≡ some (migration 1 2 ∷ migration 2 3 ∷ [])
unfolding get_pending yoop.Migration.pending_loop yoop.Migration.next yoop.Migration.find_next
get_pending_test = refl

get_pending_total_example :
    (pending : List Migration) × (get_pending three 4 (version 0 1 0) (version 0 3 5)
      ≡ some pending)
    × Chain (version 0 3 5) (version 0 1 0) pending
    × Stops three (last_version (version 0 1 0) pending) (version 0 3 5)
get_pending_total_example =
    get_pending_total three (version 0 1 0) (version 0 3 5) (refl, (refl, (refl, tt)))

abbrev manager : BackupManager
manager = record { backup_dir = b'b' ∷ []; data_dir = b'a' ∷ []; max_backups = 1 }

abbrev config_path : Text
config_path = b'c' ∷ b'/' ∷ config_toml

-- A migration that spoils the configuration and fails
abbrev spoils : Migration → Memory → Result (Unit {0}) × Memory
spoils m d = (err config_error, insert Text-discrete config_path (0 ∷ []) d)

abbrev before_run : Memory
before_run = (config_path, 1 ∷ 2 ∷ []) ∷ []

-- Backups are named by the day 8 and the hour 9.
abbrev day : ℕ → Text
day t = b'8' ∷ []

abbrev hour : ℕ → Text
hour t = b'9' ∷ []

abbrev backup_id : Text
backup_id =
    new_id disk manifest_json manager config_path day hour (version 0 3 5)
      (version_text (version 0 1 0)) 7

none_some : (xs : Text) → none ≡ some xs → (A : Type 0) → A
none_some xs h A = absurd (ground (arith, h))

-- A state is read as one of the first version.
abbrev any_state_json : Json MigrationState
any_state_json = record {
  to_json = λ s. none;
  from_json = λ ns. some (new_state (version 0 1 0) (version 0 1 0));
  round_trip = λ s json h. none_some json h _;
}

abbrev IsNamed : Text → Type 0
IsNamed = Named disk manifest_json manager config_path

-- The name of a file behind the directory
abbrev data_name : Text → Text
data_name path = drop 2 path

abbrev saved_name : Text → Text
saved_name path = drop 12 path

data_name-back :
    (f : Text) → IsNamed f → data_name (data_of disk manifest_json manager config_path f) ≡ f
unfolding same_text
data_name-back f (inl e) = rw e refl
data_name-back f (inr (inl e)) = rw e refl
data_name-back f (inr (inr (inl e))) = rw e refl
data_name-back f (inr (inr (inr (inl e)))) = rw e refl
data_name-back f (inr (inr (inr (inr e)))) = absurd e

saved_name-back :
    (f : Text) → saved_name (saved_at disk manifest_json manager config_path backup_id f) ≡ f
unfolding to_string
saved_name-back f = refl

saved_inside :
    (f : Text)
    → below
        (saved_at disk manifest_json manager config_path backup_id f)
        (backup_path disk manifest_json manager config_path backup_id)
      ≡ true
unfolding to_string ℕ_discrete
saved_inside f = refl

first_byte : Text → ℕ
first_byte [] = 0
first_byte (b ∷ path) = b

data_apart :
    (f : Text) → IsNamed f → first_byte (data_of disk manifest_json manager config_path f) ≢ b'b'
unfolding same_text first_byte
data_apart f (inl e) = rw e (λ h. absurd (omega (arith, h)))
data_apart f (inr (inl e)) = rw e (λ h. absurd (omega (arith, h)))
data_apart f (inr (inr (inl e))) = rw e (λ h. absurd (omega (arith, h)))
data_apart f (inr (inr (inr (inl e)))) = rw e (λ h. absurd (omega (arith, h)))
data_apart f (inr (inr (inr (inr e)))) = absurd e

length_apart : (f : Text) → IsNamed f → length f ≢ 3
length_apart f (inl e) = rw e (λ h. absurd (omega (arith, h)))
length_apart f (inr (inl e)) = rw e (λ h. absurd (omega (arith, h)))
length_apart f (inr (inr (inl e))) = rw e (λ h. absurd (omega (arith, h)))
length_apart f (inr (inr (inr (inl e)))) = rw e (λ h. absurd (omega (arith, h)))
length_apart f (inr (inr (inr (inr e)))) = absurd e

backup-IsApart : IsApart disk manifest_json manager config_path backup_id
unfolding to_string first_byte ℕ_discrete
backup-IsApart = record {
  data_differ =
      λ f g nf ng ne h. ne (sym (data_name-back f nf) ∙ ap data_name h ∙ data_name-back g ng);
  saved_differ = λ f g nf ng ne h. ne (ap saved_name h);
  saved_data = λ f g nf ng h. data_apart g ng (ap first_byte (sym h));
  manifest_differs = λ f nf h. length_apart f nf (sym (ap (λ p. length (saved_name p)) h));
  inside = λ f nf. saved_inside f;
  manifest_outside = refl;
}

-- What is not a directory exists if it holds something, and is copied then.
copied-true :
    (p q : Text) (d : Memory) → is_dir p ≡ false → there p d ≡ true → (copied p q d).0 ≡ true
copied-true p q d plain h = by_content (lookup Text-discrete p d) h
  where
    by_content : (o : Option Text) → (holds_some o || is_dir p) ≡ true → (put o q d).0 ≡ true
    by_content none h = sym plain ∙ h
    by_content (some xs) h = refl

saved_plain :
    (f : Text)
    → IsNamed f
    → is_dir (saved_at disk manifest_json manager config_path backup_id f) ≡ false
unfolding to_string
saved_plain f (inl e) = rw e refl
saved_plain f (inr (inl e)) = rw e refl
saved_plain f (inr (inr (inl e))) = rw e refl
saved_plain f (inr (inr (inr (inl e)))) = rw e refl
saved_plain f (inr (inr (inr (inr e)))) = absurd e

data_plain :
    (f : Text) → IsNamed f → is_dir (data_of disk manifest_json manager config_path f) ≡ false
unfolding same_text
data_plain f (inl e) = rw e refl
data_plain f (inr (inl e)) = rw e refl
data_plain f (inr (inr (inl e))) = rw e refl
data_plain f (inr (inr (inr (inl e)))) = rw e refl
data_plain f (inr (inr (inr (inr e)))) = absurd e

disk-CanRestore : CanRestore disk manifest_json manager config_path backup_id
disk-CanRestore = record {
  creates = λ p d. refl;
  copies = λ g p d ng.
      copied-true (saved_at disk manifest_json manager config_path backup_id g) p d
        (saved_plain g ng);
}

disk-Succeeds : Succeeds disk manifest_json manager config_path
disk-Succeeds = record {
  creates = λ p d. refl;
  copies = λ g p d ng.
      copied-true (data_of disk manifest_json manager config_path g) p d (data_plain g ng);
  writes = λ p xs d. refl;
  removes = λ p d. refl;
  prints = λ m. (_, refl);
}

spoils-Spares :
    Spares disk manifest_json any_state_json manager config_path day hour
      (version 0 3 5)
      spoils
      backup_id
      config_toml
unfolding to_string first_byte
spoils-Spares m d =
    lookup-insert_ne Text-discrete config_path
      (saved_at disk manifest_json manager config_path backup_id config_toml) (0 ∷ []) d
      (λ h. absurd (omega (arith, ap first_byte h)))

no_manifest :
    load_manifest disk manifest_json manager config_path before_run
    ≡ (ok default_manifest, before_run)
unfolding load_manifest lookup ℕ_discrete
no_manifest = refl

abbrev runs : (Memory → Result (Unit {0}) × Memory)
runs =
    run disk manifest_json any_state_json manager config_path day hour (version 0 3 5) spoils three
      (version 0 1 0) (version 0 3 5) true 7 8

state_read :
    (d : Memory)
    → (s : MigrationState) × (load_state disk manifest_json any_state_json manager config_path day
          hour
          (version 0 3 5)
          spoils
          d
        ≡ (ok s, d))
unfolding load_state
state_read d =
    let place =
      state_path disk manifest_json any_state_json manager config_path day hour (version 0 3 5)
        spoils in
    elim (Option-cases (lookup Text-discrete place d)) [
      | inl missing ↦ (new_state (version 0 3 5) (version 0 3 5), rw missing refl)
      | inr (xs, found) ↦ (new_state (version 0 1 0) (version 0 1 0), rw found refl)
    ]

chosen :
    get_pending three 4 (version 0 1 0) (version 0 3 5) ≡ some (migration 1 2 ∷ migration 2 3 ∷ [])
unfolding get_pending pending_loop next find_next
chosen = refl

-- With a backup on the disk, the first migration fails.
pending_fails :
    (id : Text) (d : Memory)
    → (e : Memory) × (run_pending disk manifest_json any_state_json manager config_path day hour
          (version 0 3 5)
          spoils
          (version 0 1 0)
          (version 0 3 5)
          (migration 1 2 ∷ migration 2 3 ∷ [])
          8
          (some id)
          d
        ≡ (err (internal migration_failed), e))
unfolding run_pending apply_all give_up
pending_fails id d =
    let (s, read) = state_read d in
    (
      (restore_backup disk manifest_json manager config_path id
          (insert Text-discrete config_path (0 ∷ []) d)).1,
      rw read refl,
    )

run_fails : (e : Memory) × (runs before_run ≡ (err (internal migration_failed), e))
unfolding run run_backed_up
run_fails =
    let (id, d, made) =
      create_backup-ends disk manifest_json manager config_path disk-Succeeds day hour
        (version 0 3 5) (version_text (version 0 1 0)) 7 default_manifest before_run backup-IsApart
        no_manifest in
    let (e, failed) = pending_fails id d in
    (
      e,
      ap
            (λ o.
              begins disk manifest_json any_state_json manager config_path day hour (version 0 3 5)
                spoils (version 0 1 0) (version 0 3 5) 7 8 before_run o)
            chosen
          ∙ ap
              (λ r. bind r (λ id x.
                run_pending disk manifest_json any_state_json manager config_path day hour
                  (version 0 3 5) spoils (version 0 1 0) (version 0 3 5)
                  (migration 1 2 ∷ migration 2 3 ∷ []) 8 (some id) x))
              made
          ∙ failed,
    )

run_restores_example : lookup Text-discrete config_path run_fails.0 ≡ some (1 ∷ 2 ∷ [])
unfolding same_text lookup ℕ_discrete
run_restores_example =
    run_restores disk manifest_json any_state_json manager config_path day hour (version 0 3 5)
      spoils three (version 0 1 0) (version 0 3 5) 7 8 config_toml (1 ∷ 2 ∷ []) default_manifest
      before_run run_fails.0 (inl refl) disk-CanRestore spoils-Spares backup-IsApart (omega arith)
      no_manifest tt refl run_fails.1

abbrev backup : ℕ → BackupInfo
backup timestamp = record {
  id = timestamp ∷ [];
  app_version = version 0 1 0;
  schema_version = version 0 1 0;
  timestamp = timestamp;
  files = [];
  size_bytes = 0;
}

abbrev two_backups : BackupManifest
two_backups = record default_manifest { backups = backup 6 ∷ backup 5 ∷ [] }

abbrev listed : Memory
listed = (save_manifest disk manifest_json manager config_path two_backups []).1

two_backups_loaded :
    load_manifest disk manifest_json manager config_path listed ≡ (ok two_backups, listed)
unfolding save_manifest
two_backups_loaded =
    save_manifest-loads disk manifest_json manager config_path two_backups [] listed refl

cleaned : EndsWell (cleanup disk manifest_json manager config_path listed)
cleaned =
    cleanup-ends disk manifest_json manager config_path disk-Succeeds two_backups listed
      two_backups_loaded

cleanup_newest_example :
    NewestKept disk manifest_json manager config_path cleaned.0 listed cleaned.1
cleanup_newest_example =
    cleanup_newest disk manifest_json manager config_path cleaned.0 listed cleaned.1 cleaned.2
