-- ===== src/Migration/Backup/Removing.antt =====
-- crates/yoop-core/src/migration/backup.rs: which files are left when backups are removed and the
-- manifest is saved.
use yoop.Base.{
  ◌≡◌, ◌≢◌, sym, ap, ◌∙◌, subst, Bool, true, false, Option, none, some, List, [], ◌∷◌,
  if◌then◌else◌, Result, ok, arith, All, Bool-cases, inl, inr, internal, backup_failed,
  Option-cases,
}
use yoop.Storage.{Text}
use yoop.Migration.Backup.{
  BackupDisk, BackupInfo, BackupManifest, BackupManager, Json, called, parsed_as, make_parent,
  manifest_path, backup_path, save_manifest, remove_backups,
}
use yoop.Migration.Backup.Steps.{bind-ok, called-ok, bind-keeps, called-keeps, parsed_as-keeps}

module _ (fs : BackupDisk) (json : Json BackupManifest) (manager : BackupManager)
    (config_path : Text) where
  abbrev path : Text
  path = manifest_path fs json manager config_path

  -- Saving the manifest, and removing backups, keep the file at a path apart from them.
  module _ (q : Text) (o : Option Text) where
    abbrev pub Holds : fs.Disk → Type 0
    Holds d = fs.content q d ≡ o

    make_parent-Holds :
        (p : Option Text) (d : fs.Disk)
        → Holds d
        → Holds (make_parent fs json manager config_path p d).1
    make_parent-Holds none d h = h
    make_parent-Holds (some dir) d h =
        called-keeps Holds (internal backup_failed) (fs.create_dir_all dir d)
          (fs.dir_same dir q d ∙ h)

    pub save_manifest-Holds :
        (m : BackupManifest) (d : fs.Disk)
        → path ≢ q
        → Holds d
        → Holds (save_manifest fs json manager config_path m d).1
    unfolding save_manifest
    save_manifest-Holds m d ne h =
        bind-keeps Holds (make_parent fs json manager config_path (fs.parent path) d) _
          (make_parent-Holds (fs.parent path) d h)
          (λ made e k.
            bind-keeps Holds (parsed_as (internal backup_failed) (json.to_json m) e) _
              (parsed_as-keeps Holds (internal backup_failed) (json.to_json m) e k)
              (λ text e₁ k₁.
                called-keeps Holds (internal backup_failed) (fs.write path text e₁)
                  (fs.write_ne path q text e₁ ne ∙ k₁)))

    abbrev pub Away : BackupInfo → Type 0
    Away b = fs.starts_with q (backup_path fs json manager config_path b.id) ≡ false

    pub remove_backups-Holds :
        (backups : List BackupInfo) (d : fs.Disk)
        → All Away backups
        → Holds d
        → Holds (remove_backups fs json manager config_path backups d).1
    unfolding remove_backups
    remove_backups-Holds [] d away h = h
    remove_backups-Holds (b ∷ backups) d away h =
        bind-keeps Holds
          (if fs.exists (backup_path fs json manager config_path b.id) d
            then called (internal backup_failed)
                (fs.remove_dir_all (backup_path fs json manager config_path b.id) d)
            else (ok tt, d))
          _ (removed (fs.exists (backup_path fs json manager config_path b.id) d))
          (λ removed e k. remove_backups-Holds backups e away.1 k)
      where
        removed :
            (there : Bool)
            → Holds
                (if there
                  then called
                      (internal backup_failed)
                      (fs.remove_dir_all (backup_path fs json manager config_path b.id) d)
                  else (ok tt, d)).1
        removed true =
            called-keeps Holds (internal backup_failed)
              (fs.remove_dir_all (backup_path fs json manager config_path b.id) d)
              (fs.remove_ne (backup_path fs json manager config_path b.id) q d away.0 ∙ h)
        removed false = h

  -- What removing one backup leaves
  module _ (q : Text) (b : BackupInfo) (d e : fs.Disk) where
    abbrev place : Text
    place = backup_path fs json manager config_path b.id

    abbrev step : Bool → Result (Unit {0}) × fs.Disk
    step there =
        if there then called (internal backup_failed) (fs.remove_dir_all place d) else (ok tt, d)

    removed : step true ≡ (ok tt, e) → fs.remove_dir_all place d ≡ (true, e)
    removed h = called-ok (internal backup_failed) (fs.remove_dir_all place d) tt e h

    gone_below : step true ≡ (ok tt, e) → fs.starts_with q place ≡ true → fs.content q e ≡ none
    gone_below h under =
        subst (λ x. fs.content q x ≡ none) (ap (λ r. r.1) (removed h))
          (fs.remove_ok place q d (ap (λ r. r.0) (removed h)) under)

    -- A missing directory has no files.
    nothing_below :
        fs.exists place d ≡ false → fs.starts_with q place ≡ true → fs.content q d ≡ none
    nothing_below missing under = elim (Option-cases (fs.content q d)) [
      | inl n ↦ n
      | inr (xs, found) ↦ absurd (ground (arith, missing, fs.exists_above place q xs d under found))
    ]

    step-gone :
        step (fs.exists place d) ≡ (ok tt, e)
        → fs.starts_with q place ≡ true
        → fs.content q e ≡ none
    step-gone h under = elim (Bool-cases (fs.exists place d)) [
      | inl there ↦ gone_below (sym (ap step there) ∙ h) under
      | inr missing ↦
          subst (λ x. fs.content q x ≡ none) (ap (λ r. r.1) (sym (ap step missing) ∙ h))
            (nothing_below missing under)
    ]

    step-none :
        step (fs.exists place d) ≡ (ok tt, e) → fs.content q d ≡ none → fs.content q e ≡ none
    step-none h n = elim (Bool-cases (fs.starts_with q place)) [
      | inl under ↦ step-gone h under
      | inr apart ↦ elim (Bool-cases (fs.exists place d)) [
        | inl there ↦
            subst (λ x. fs.content q x ≡ none) (ap (λ r. r.1) (removed (sym (ap step there) ∙ h)))
              (fs.remove_ne place q d apart ∙ n)
        | inr missing ↦
            subst (λ x. fs.content q x ≡ none) (ap (λ r. r.1) (sym (ap step missing) ∙ h)) n
      ]
    ]

  remove_backups-none :
      (q : Text) (backups : List BackupInfo) (d e : fs.Disk)
      → remove_backups fs json manager config_path backups d ≡ (ok tt, e)
      → fs.content q d ≡ none
      → fs.content q e ≡ none
  unfolding remove_backups
  remove_backups-none q [] d e h n = subst (λ x. fs.content q x ≡ none) (ap (λ r. r.1) h) n
  remove_backups-none q (b ∷ backups) d e h n =
      let (u, d₁, first, rest) =
        bind-ok (step q b d d (fs.exists (backup_path fs json manager config_path b.id) d))
          (λ u x. remove_backups fs json manager config_path backups x) tt e h in
      remove_backups-none q backups d₁ e rest (step-none q b d d₁ first n)

  -- Of the backups that were removed, no file is left.
  pub remove_backups-gone :
      (q : Text) (backups : List BackupInfo) (d e : fs.Disk)
      → remove_backups fs json manager config_path backups d ≡ (ok tt, e)
      → All
          (λ b.
            fs.starts_with q (backup_path fs json manager config_path b.id) ≡ true
            → fs.content q e ≡ none)
          backups
  unfolding remove_backups
  remove_backups-gone q [] d e h = tt
  remove_backups-gone q (b ∷ backups) d e h =
      let (u, d₁, first, rest) =
        bind-ok (step q b d d (fs.exists (backup_path fs json manager config_path b.id) d))
          (λ u x. remove_backups fs json manager config_path backups x) tt e h in
      (
        λ under. remove_backups-none q backups d₁ e rest (step-gone q b d d₁ first under),
        remove_backups-gone q backups d₁ e rest,
      )
