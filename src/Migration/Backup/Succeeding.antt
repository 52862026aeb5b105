-- ===== src/Migration/Backup/Succeeding.antt =====
-- crates/yoop-core/src/migration/backup.rs: a backup is made, and old ones are removed, where the
-- calls of the file system succeed.
use yoop.Base.{
  ℕ, ◌-◌, ◌≡◌, refl, subst, ap, ◌∙◌, Bool, true, false, Option, none, some, List, [], ◌∷◌, take,
  drop, leb, if◌then◌else◌, length, Result, ok, All, Bool-cases, inl, inr, Error, internal,
  backup_failed,
}
use yoop.Storage.{Text}
use yoop.Migration.{SchemaVersion}
use yoop.Migration.Backup.{
  BackupDisk, BackupInfo, BackupManifest, BackupManager, Json, sort_by_time, bind, called,
  parsed_as, files_to_backup, copy_files, make_parent, manifest_path, backup_path, load_manifest,
  save_manifest, add_to_manifest, remove_backups, remove_oldest, cleanup, create_backup,
  backup_id_of, backup_info_of, config_toml,
}
use yoop.Migration.Backup.Steps.{called-ok}
use yoop.Migration.Backup.Restoring.{Named, data_of, IsApart, all_named}
use yoop.Migration.Backup.Surviving.{copy_files-Steady, load_manifest-Steady, add_to_manifest-loads}

-- A step ends well.
abbrev pub EndsWell : {A D : Type 0} → Result A × D → Type 0
EndsWell {A} {D} r = (a : A) × (d : D) × (r ≡ (ok a, d))

pub bind-ends :
    {D A B : Type 0} (r : Result A × D) (next : A → D → Result B × D)
    → EndsWell r
    → ((a : A) (d : D) → r ≡ (ok a, d) → EndsWell (next a d))
    → EndsWell (bind r next)
bind-ends r next (a, d, h) k = let (b, e, i) = k a d h in (b, e, ap (λ x. bind x next) h ∙ i)

called-ends : {D : Type 0} (e : Error) (r : Bool × D) → r.0 ≡ true → EndsWell (called e r)
called-ends e (b, d) h = rw h (tt, d, refl)

parsed_as-ends :
    {D A : Type 0} (e : Error) (o : Option A) (d : D) (a : A)
    → o ≡ some a
    → EndsWell (parsed_as e o d)
parsed_as-ends e o d a h = rw h (a, d, refl)

module _ (fs : BackupDisk) (json : Json BackupManifest) (manager : BackupManager)
    (config_path : Text) where
  -- What exists is copied, and what is asked for created, written, removed and printed.
  pub record Succeeds : Type 0 where
    pub creates : (p : Text) (d : fs.Disk) → (fs.create_dir_all p d).0 ≡ true
    pub copies :
        (g p : Text) (d : fs.Disk)
        → Named fs json manager config_path g
        → fs.exists (data_of fs json manager config_path g) d ≡ true
        → (fs.copy (data_of fs json manager config_path g) p d).0 ≡ true
    pub writes : (p xs : Text) (d : fs.Disk) → (fs.write p xs d).0 ≡ true
    pub removes : (p : Text) (d : fs.Disk) → (fs.remove_dir_all p d).0 ≡ true
    pub prints : (m : BackupManifest) → (text : Text) × (json.to_json m ≡ some text)

  module _ (good : Succeeds) where
    make_parent-ends :
        (o : Option Text) (d : fs.Disk) → EndsWell (make_parent fs json manager config_path o d)
    make_parent-ends none d = (tt, d, refl)
    make_parent-ends (some dir) d =
        called-ends (internal backup_failed) (fs.create_dir_all dir d) (good.creates dir d)

    save_manifest-ends :
        (m : BackupManifest) (d : fs.Disk)
        → EndsWell (save_manifest fs json manager config_path m d)
    unfolding save_manifest
    save_manifest-ends m d =
        let path = manifest_path fs json manager config_path in
        let (printed, prints) = good.prints m in
        bind-ends (make_parent fs json manager config_path (fs.parent path) d) _
          (make_parent-ends (fs.parent path) d)
          (λ made e h.
            bind-ends (parsed_as (internal backup_failed) (json.to_json m) e) _
              (parsed_as-ends (internal backup_failed) (json.to_json m) e printed prints)
              (λ text e₁ k.
                called-ends (internal backup_failed) (fs.write path text e₁)
                  (good.writes path text e₁)))

    remove_backups-ends :
        (backups : List BackupInfo) (d : fs.Disk)
        → EndsWell (remove_backups fs json manager config_path backups d)
    unfolding remove_backups
    remove_backups-ends [] d = (tt, d, refl)
    remove_backups-ends (b ∷ backups) d =
        let place = backup_path fs json manager config_path b.id in
        bind-ends
          (if fs.exists place d
            then called (internal backup_failed) (fs.remove_dir_all place d)
            else (ok tt, d))
          _ (removed (fs.exists place d)) (λ removed e h. remove_backups-ends backups e)
      where
        removed :
            (there : Bool)
            → EndsWell (
                if there
                then called
                    (internal backup_failed)
                    (fs.remove_dir_all (backup_path fs json manager config_path b.id) d)
                else (ok tt, d))
        removed true =
            called-ends (internal backup_failed)
              (fs.remove_dir_all (backup_path fs json manager config_path b.id) d)
              (good.removes (backup_path fs json manager config_path b.id) d)
        removed false = (tt, d, refl)

    remove_oldest-ends :
        (m : BackupManifest) (d : fs.Disk)
        → EndsWell (remove_oldest fs json manager config_path m d)
    unfolding remove_oldest
    remove_oldest-ends m d =
        let sorted = sort_by_time m.backups in
        let excess = length sorted - manager.max_backups in
        let kept : BackupManifest = record m { backups = drop excess sorted } in
        let counted : Unit {0} → fs.Disk → Result ℕ × fs.Disk =
          λ saved x. (ok (length (take excess sorted)), x) in
        bind-ends (remove_backups fs json manager config_path (take excess sorted) d)
          (λ removed x. bind (save_manifest fs json manager config_path kept x) counted)
          (remove_backups-ends (take excess sorted) d)
          (λ removed e h.
            bind-ends (save_manifest fs json manager config_path kept e) counted
              (save_manifest-ends kept e) (λ saved e₁ k. (length (take excess sorted), e₁, refl)))

    -- Cleaning up ends well where the manifest can be loaded.
    pub cleanup-ends :
        (m : BackupManifest) (d : fs.Disk)
        → load_manifest fs json manager config_path d ≡ (ok m, d)
        → EndsWell (cleanup fs json manager config_path d)
    unfolding cleanup
    cleanup-ends m d here =
        bind-ends (load_manifest fs json manager config_path d) _ (m, d, here)
          (λ m₁ e h. elim (Bool-cases (leb (length m₁.backups) manager.max_backups)) [
            | inl few ↦ rw few (0, e, refl)
            | inr over ↦ rw over (remove_oldest-ends m₁ e)
          ])

    copy_files-ends :
        (place : Text) (names files : List Text) (size : ℕ) (d : fs.Disk)
        → All (Named fs json manager config_path) names
        → EndsWell (copy_files fs json manager config_path place names files size d)
    unfolding copy_files
    copy_files-ends place [] files size d all = (_, d, refl)
    copy_files-ends place (g ∷ names) files size d all =
        let from = data_of fs json manager config_path g in
        elim (Bool-cases (fs.exists from d)) [
          | inl there ↦ rw there (
              bind-ends (called (internal backup_failed) (fs.copy from (fs.join place g) d)) _
                (called-ends (internal backup_failed) (fs.copy from (fs.join place g) d)
                  (good.copies g (fs.join place g) d all.0 there))
                (λ copied e h. copy_files-ends place names _ _ e all.1))
          | inr missing ↦ rw missing (copy_files-ends place names files size d all.1)
        ]

    add_to_manifest-ends :
        (m : BackupManifest) (info : BackupInfo) (d : fs.Disk)
        → load_manifest fs json manager config_path d ≡ (ok m, d)
        → EndsWell (add_to_manifest fs json manager config_path info d)
    unfolding add_to_manifest
    add_to_manifest-ends m info d here =
        bind-ends (load_manifest fs json manager config_path d) _ (m, d, here)
          (λ m₁ e h. save_manifest-ends _ e)

    -- A backup is made where the manifest can be loaded.
    pub create_backup-ends :
        (date time : ℕ → Text) (current_version : SchemaVersion) (version : Text) (now : ℕ)
        (m : BackupManifest) (d : fs.Disk)
        → IsApart fs json manager config_path
            (backup_id_of fs json manager config_path date time current_version version now)
        → load_manifest fs json manager config_path d ≡ (ok m, d)
        → EndsWell
            (create_backup fs json manager config_path date time current_version version now d)
    unfolding create_backup
    create_backup-ends date time current_version version now m d apart here =
        let id = backup_id_of fs json manager config_path date time current_version version now in
        let place = backup_path fs json manager config_path id in
        let path = manifest_path fs json manager config_path in
        let named = all_named fs json manager config_path id apart config_toml [] (inl refl) in
        bind-ends (called (internal backup_failed) (fs.create_dir_all place d)) _
          (called-ends (internal backup_failed) (fs.create_dir_all place d) (good.creates place d))
          (λ made d₁ one.
            let made_dir =
              called-ok (internal backup_failed) (fs.create_dir_all place d) made d₁ one in
            let steady₁ : (fs.exists path d₁ ≡ fs.exists path d)
                × (fs.content path d₁ ≡ fs.content path d) =
              subst
                (λ x.
                  (fs.exists path x ≡ fs.exists path d) × (fs.content path x ≡ fs.content path d))
                (ap (λ r. r.1) made_dir)
                (fs.dir_exists place path d apart.manifest_outside, fs.dir_same place path d) in
            bind-ends (copy_files fs json manager config_path place files_to_backup [] 0 d₁) _
              (copy_files-ends place files_to_backup [] 0 d₁ named)
              (λ copied d₂ two.
                let steady₂ =
                  subst
                    (λ x.
                      (fs.exists path x ≡ fs.exists path d)
                      × (fs.content path x ≡ fs.content path d))
                    (ap (λ x. x.1) two)
                    (copy_files-Steady fs json manager config_path id apart files_to_backup [] 0 d
                      d₁ named steady₁) in
                let here₂ = load_manifest-Steady fs json manager config_path m d d₂ steady₂ here in
                let info =
                  backup_info_of fs json manager config_path date time current_version version now
                    copied in
                bind-ends (add_to_manifest fs json manager config_path info d₂) _
                  (add_to_manifest-ends m info d₂ here₂)
                  (λ added d₃ three.
                    let (_, here₃) =
                      add_to_manifest-loads fs json manager config_path m info d₂ d₃ here₂ three in
                    bind-ends (cleanup fs json manager config_path d₃) _ (cleanup-ends _ d₃ here₃)
                      (λ removed d₄ four. (id, d₄, refl)))))
