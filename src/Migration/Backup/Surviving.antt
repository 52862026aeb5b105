-- ===== src/Migration/Backup/Surviving.antt =====
-- crates/yoop-core/src/migration/backup.rs: a backup that was made is there afterwards.
use yoop.Base.{
  ℕ, ◌-◌, ◌≤◌, ◌<◌, ◌≡◌, ◌≢◌, refl, sym, ap, ◌∙◌, subst, Bool, true, false, Option, none, some,
  List, [], ◌∷◌, ◌++◌, take, leb, if◌then◌else◌, length, length-append, Result, ok, err, arith, All,
  All-take, Bool-cases, inl, inr, Error, internal, backup_failed, Option-cases,
}
use yoop.Storage.{Text}
use yoop.Migration.{SchemaVersion}
use yoop.Migration.Backup.{
  BackupDisk, BackupInfo, BackupManifest, BackupManager, Json, sort_by_time, bind, called,
  parsed_as, default_manifest, files_to_backup, copy_files, manifest_path, backup_path,
  load_manifest, save_manifest, add_to_manifest, remove_backups, remove_oldest, cleanup,
  create_backup, backup_id_of, backup_info_of,
}
use yoop.Migration.Backup.Steps.{bind-ok, called-ok, bind-keeps, called-keeps}
use yoop.Migration.Backup.Sorting.{
  sort_by_time-last, take-before, length-sort_by_time, sort_by_time-All,
}
use yoop.Migration.Backup.Keeping.{save_manifest-loads}
use yoop.Migration.Backup.Removing.{save_manifest-Holds, remove_backups-Holds}
use yoop.Migration.Backup.Restoring.{
  Named, data_of, saved_at, IsApart, Saved, Intact, copy_files-Saved, all_named,
}

module _ (fs : BackupDisk) (json : Json BackupManifest) (manager : BackupManager)
    (config_path : Text) where
  abbrev path : Text
  path = manifest_path fs json manager config_path

  abbrev loads : fs.Disk → Result BackupManifest × fs.Disk
  loads = load_manifest fs json manager config_path

  loaded : Bool → Option Text → Result BackupManifest
  loaded false o = ok default_manifest
  loaded true none = err (internal backup_failed)
  loaded true (some text) = (parsed_as (internal backup_failed) (json.from_json text) tt).0

  parsed_as-value :
      {A : Type 0} (e : Error) (o : Option A) (d : fs.Disk)
      → parsed_as e o d ≡ ((parsed_as e o tt).0, d)
  parsed_as-value e none d = refl
  parsed_as-value e (some a) d = refl

  -- What is loaded depends on the file of the manifest alone.
  load_manifest-value : (d : fs.Disk) → loads d ≡ (loaded (fs.exists path d) (fs.content path d), d)
  unfolding load_manifest loaded
  load_manifest-value d = elim (Bool-cases (fs.exists path d)) [
    | inr missing ↦ rw missing refl
    | inl there ↦ elim (Option-cases (fs.content path d)) [
      | inl unread ↦ rw (there, unread) refl
      | inr (text, read) ↦
          rw (there, read) (parsed_as-value (internal backup_failed) (json.from_json text) d)
    ]
  ]

  -- The manifest as it was
  abbrev Steady : fs.Disk → fs.Disk → Type 0
  Steady d e = (fs.exists path e ≡ fs.exists path d) × (fs.content path e ≡ fs.content path d)

  pub load_manifest-Steady :
      (m : BackupManifest) (d e : fs.Disk) → Steady d e → loads d ≡ (ok m, d) → loads e ≡ (ok m, e)
  load_manifest-Steady m d e same h =
      load_manifest-value e
      ∙ ap (λ r. (r, e))
          (ap (λ b. loaded b (fs.content path e)) same.0
            ∙ ap (λ o. loaded (fs.exists path d) o) same.1
            ∙ ap (λ r. r.0) (sym (load_manifest-value d) ∙ h))

  -- Cleaning up keeps the file at a path apart from the manifest and the removed backups.
  module _ (q : Text) (o : Option Text) where
    abbrev pub Holds : fs.Disk → Type 0
    Holds d = fs.content q d ≡ o

    abbrev pub Away : BackupInfo → Type 0
    Away b = fs.starts_with q (backup_path fs json manager config_path b.id) ≡ false

    remove_oldest-Holds :
        (m : BackupManifest) (d : fs.Disk)
        → path ≢ q
        → All Away
            (take (length (sort_by_time m.backups) - manager.max_backups) (sort_by_time m.backups))
        → Holds d
        → Holds (remove_oldest fs json manager config_path m d).1
    unfolding remove_oldest
    remove_oldest-Holds m d ne away h =
        bind-keeps Holds (remove_backups fs json manager config_path _ d) _
          (remove_backups-Holds fs json manager config_path q o _ d away h)
          (λ removed e k.
            bind-keeps Holds (save_manifest fs json manager config_path _ e) _
              (save_manifest-Holds fs json manager config_path q o _ e ne k) (λ saved e₁ k₁. k₁))

    cleanup-Holds :
        (m : BackupManifest) (d : fs.Disk)
        → loads d ≡ (ok m, d)
        → path ≢ q
        → All Away
            (take (length (sort_by_time m.backups) - manager.max_backups) (sort_by_time m.backups))
        → Holds d
        → Holds (cleanup fs json manager config_path d).1
    unfolding cleanup
    cleanup-Holds m d here ne away h =
        subst (λ r. Holds r.1)
          (sym (
            ap
              (λ r. bind r (λ m x.
                if leb (length m.backups) manager.max_backups
                then (ok 0, x)
                else remove_oldest fs json manager config_path m x))
              here))
          (elim (Bool-cases (leb (length m.backups) manager.max_backups)) [
            | inl few ↦ rw few h
            | inr over ↦ rw over (remove_oldest-Holds m d ne away h)
          ])

    -- Of the backups and a new one that is no older, those that are removed are old ones.
    oldest-Away :
        (m : BackupManifest) (n : BackupInfo)
        → 0 < manager.max_backups
        → All (λ b. b.timestamp ≤ n.timestamp) m.backups
        → All Away m.backups
        → let sorted = sort_by_time (m.backups ++ n ∷ []) in
          All Away (take (length sorted - manager.max_backups) sorted)
    oldest-Away m n some_kept older away =
        let sorted = sort_by_time m.backups in
        let k = length (sort_by_time (m.backups ++ n ∷ [])) - manager.max_backups in
        let few : k ≤ length sorted = omega (
          arith,
          some_kept,
          length-sort_by_time (m.backups ++ n ∷ []),
          length-sort_by_time m.backups,
          length-append m.backups (n ∷ []),
        ) in
        subst (All Away)
          (sym
            (ap (take k) (sort_by_time-last m.backups n older) ∙ take-before k sorted (n ∷ []) few))
          (All-take Away k sorted (sort_by_time-All Away m.backups away))

  module _ (id : Text) (apart : IsApart fs json manager config_path id) where
    -- Copying into the backup leaves the manifest as it is.
    pub copy_files-Steady :
        (names files : List Text) (size : ℕ) (d₀ d : fs.Disk)
        → All (Named fs json manager config_path) names
        → Steady d₀ d
        → Steady d₀
            (copy_files fs json manager config_path
              (backup_path fs json manager config_path id)
              names
              files
              size
              d).1
    unfolding copy_files
    copy_files-Steady [] files size d₀ d all h = h
    copy_files-Steady (g ∷ names) files size d₀ d all h =
        elim (Bool-cases (fs.exists (data_of fs json manager config_path g) d)) [
          | inl there ↦
              let from = data_of fs json manager config_path g in
              let to = saved_at fs json manager config_path id g in
              let apart_from : to ≢ path = λ e. apart.manifest_differs g all.0 (sym e) in
              rw there (
                bind-keeps (Steady d₀) (called (internal backup_failed) (fs.copy from to d)) _
                  (called-keeps (Steady d₀) (internal backup_failed) (fs.copy from to d) (
                    fs.copy_exists from to path d apart_from ∙ h.0,
                    fs.copy_ne from to path d apart_from ∙ h.1,
                  ))
                  (λ copied e k. copy_files-Steady names _ _ d₀ e all.1 k))
          | inr missing ↦ rw missing (copy_files-Steady names files size d₀ d all.1 h)
        ]

  -- The new backup is added to the manifest that was there.
  pub add_to_manifest-loads :
      (m : BackupManifest) (info : BackupInfo) (d e : fs.Disk)
      → loads d ≡ (ok m, d)
      → add_to_manifest fs json manager config_path info d ≡ (ok tt, e)
      → (save_manifest fs json manager config_path (record m { backups = m.backups ++ info ∷ [] }) d
          ≡ (ok tt, e))
        × (loads e ≡ (ok (record m { backups = m.backups ++ info ∷ [] }), e))
  unfolding add_to_manifest
  add_to_manifest-loads m info d e here h =
      let saved =
        sym (
          ap
            (λ r. bind r (λ manifest x.
              save_manifest fs json manager config_path
                (record manifest { backups = manifest.backups ++ info ∷ [] }) x))
            here)
        ∙ h in
      (
        saved,
        save_manifest-loads fs json manager config_path
            (record m { backups = m.backups ++ info ∷ [] }) d e saved,
      )

  module _ (date time : ℕ → Text) (current_version : SchemaVersion) (version : Text) (now : ℕ) where
    abbrev pub new_id : Text
    new_id = backup_id_of fs json manager config_path date time current_version version now

    abbrev info_of : List Text × ℕ → BackupInfo
    info_of = backup_info_of fs json manager config_path date time current_version version now

    -- The backups that there are: none is newer than the new one, or holds a file of it.
    abbrev pub Earlier : Text → BackupInfo → Type 0
    Earlier f b =
        (b.timestamp ≤ now)
        × (fs.starts_with (saved_at fs json manager config_path new_id f)
              (backup_path fs json manager config_path b.id)
            ≡ false)

    Earlier-times :
        (f : Text) (backups : List BackupInfo)
        → All (Earlier f) backups
        → All (λ b. b.timestamp ≤ now) backups
    Earlier-times f [] h = tt
    Earlier-times f (b ∷ backups) h = (h.0.0, Earlier-times f backups h.1)

    Earlier-Away :
        (f : Text) (o : Option Text) (backups : List BackupInfo)
        → All (Earlier f) backups
        → All (Away (saved_at fs json manager config_path new_id f) o) backups
    Earlier-Away f o [] h = tt
    Earlier-Away f o (b ∷ backups) h = (h.0.1, Earlier-Away f o backups h.1)

    -- A file that was there when a backup was made is in it, also after the old ones were removed.
    pub create_backup-Saved :
        (apart : IsApart fs json manager config_path new_id) (f xs : Text)
        (named : Named fs json manager config_path f) (m : BackupManifest) (id : Text)
        (d e : fs.Disk)
        → 0 < manager.max_backups
        → loads d ≡ (ok m, d)
        → All (Earlier f) m.backups
        → Intact fs json manager config_path new_id apart f xs named d
        → create_backup fs json manager config_path date time current_version version now d
          ≡ (ok id, e)
        → (new_id ≡ id) × Saved fs json manager config_path new_id apart f xs named e
    unfolding create_backup
    create_backup-Saved apart f xs named m id d e some_kept here earlier intact h =
        let place = backup_path fs json manager config_path new_id in
        let cleans : Unit {0} → fs.Disk → Result Text × fs.Disk =
          λ added x. bind (cleanup fs json manager config_path x) (λ removed y. (ok new_id, y)) in
        let adds : List Text × ℕ → fs.Disk → Result Text × fs.Disk = λ copied x.
          bind (add_to_manifest fs json manager config_path (info_of copied) x) cleans in
        let copies : Unit {0} → fs.Disk → Result Text × fs.Disk = λ made x.
          bind (copy_files fs json manager config_path place files_to_backup [] 0 x) adds in
        let (made, d₁, one, rest₁) =
          bind-ok (called (internal backup_failed) (fs.create_dir_all place d)) copies id e h in
        let after_dir : (fs.create_dir_all place d).1 ≡ d₁ =
          ap (λ r. r.1)
            (called-ok (internal backup_failed) (fs.create_dir_all place d) made d₁ one) in
        let (r, d₂, two, rest₂) =
          bind-ok (copy_files fs json manager config_path place files_to_backup [] 0 d₁) adds id e
            rest₁ in
        let (added, d₃, three, rest₃) =
          bind-ok (add_to_manifest fs json manager config_path (info_of r) d₂) cleans id e rest₂ in
        let (removed, d₄, four, last) =
          bind-ok (cleanup fs json manager config_path d₃) (λ removed y. (ok new_id, y)) id e
            rest₃ in
        let all = all_named fs json manager config_path new_id apart f xs named in
        let saved₂ =
          copy_files-Saved fs json manager config_path new_id apart f xs named files_to_backup [] 0
            d₁ d₂ r all two
            (subst (Intact fs json manager config_path new_id apart f xs named) after_dir
              (fs.dir_same place (data_of fs json manager config_path f) d ∙ intact))
            (inl named) in
        let steady₁ : Steady d d₁ =
          subst (Steady d) after_dir
            (fs.dir_exists place path d apart.manifest_outside, fs.dir_same place path d) in
        let steady₂ : Steady d d₂ =
          subst (Steady d) (ap (λ x. x.1) two)
            (copy_files-Steady new_id apart files_to_backup [] 0 d d₁ all steady₁) in
        let (stored, here₃) =
          add_to_manifest-loads m (info_of r) d₂ d₃ (load_manifest-Steady m d d₂ steady₂ here)
            three in
        let q = saved_at fs json manager config_path new_id f in
        let differs = apart.manifest_differs f named in
        let saved₃ : Holds q (some xs) d₃ =
          subst (Holds q (some xs)) (ap (λ x. x.1) stored)
            (save_manifest-Holds fs json manager config_path q (some xs) _ d₂ differs saved₂) in
        let saved₄ : Holds q (some xs) d₄ = subst (Holds q (some xs)) (ap (λ x. x.1) four) (
          cleanup-Holds q (some xs) _ d₃ here₃ differs
            (oldest-Away q (some xs) m (info_of r) some_kept (Earlier-times f m.backups earlier)
              (Earlier-Away f (some xs) m.backups earlier))
            saved₃) in
        (ground (arith, last), subst (Holds q (some xs)) (ap (λ x. x.1) last) saved₄)
