-- ===== src/Migration/Backup/Keeping.antt =====
-- crates/yoop-core/src/migration/backup.rs: which backups are kept.
use mathlib.Core.List.{Perm}
use mathlib.Core.List.Perm
use yoop.Base.{
  ℕ, ◌-◌, ◌≡◌, ◌≢◌, refl, sym, ap, ◌∙◌, subst, true, false, none, some, List, [], ◌∷◌, ◌++◌, take,
  drop, take-append-drop, length-drop, leb, leb→le, if◌then◌else◌, length, Result, ok, min, arith,
  All, Bool-cases, inl, inr, internal, backup_failed,
}
use yoop.Storage.{Text}
use yoop.Migration.Backup.Steps.{bind-ok, called-ok, parsed_as-ok}
use yoop.Migration.Backup.Removing.{save_manifest-Holds, remove_backups-Holds, remove_backups-gone}
use yoop.Migration.Backup.Sorting.{
  NoNewer, sort_by_time-IsSorted, sort_by_time-perm, length-sort_by_time, take-older,
}
use yoop.Migration.Backup.{
  BackupDisk, BackupInfo, BackupManifest, BackupManager, Json, sort_by_time, bind, called,
  parsed_as, load_manifest, save_manifest, list_backups, remove_oldest, cleanup, make_parent,
  manifest_path, backup_path, remove_backups, default_manifest,
}

module _ (fs : BackupDisk) (json : Json BackupManifest) (manager : BackupManager)
    (config_path : Text) where
  abbrev loads : fs.Disk → Result BackupManifest × fs.Disk
  loads = load_manifest fs json manager config_path

  abbrev lists : fs.Disk → Result (List BackupInfo) × fs.Disk
  lists = list_backups fs json manager config_path

  abbrev path : Text
  path = manifest_path fs json manager config_path

  abbrev parses : Text → fs.Disk → Result BackupManifest × fs.Disk
  parses text d = parsed_as (internal backup_failed) (json.from_json text) d

  abbrev writes : Text → fs.Disk → Result (Unit {0}) × fs.Disk
  writes text d = called (internal backup_failed) (fs.write path text d)

  abbrev prints : BackupManifest → fs.Disk → Result Text × fs.Disk
  prints m d = parsed_as (internal backup_failed) (json.to_json m) d

  -- Reading the manifest changes nothing.
  pub load_manifest-same : (m : BackupManifest) (d e : fs.Disk) → loads d ≡ (ok m, e) → d ≡ e
  unfolding load_manifest
  load_manifest-same m d e h = elim (Bool-cases (fs.exists path d)) [
    | inl there ↦
        let reads : Result Text × fs.Disk =
          parsed_as (internal backup_failed) (fs.content path d) d in
        let chosen = ap (λ b. if b then bind reads parses else (ok default_manifest, d)) there in
        let (text, d₁, read, parsed) = bind-ok reads parses m e (sym chosen ∙ h) in
        (parsed_as-ok (internal backup_failed) (fs.content path d) text d d₁ read).1
        ∙ (parsed_as-ok (internal backup_failed) (json.from_json text) m d₁ e parsed).1
    | inr missing ↦ ground (arith, h, missing)
  ]

  -- A manifest that was saved is loaded.
  pub save_manifest-loads :
      (m : BackupManifest) (d e : fs.Disk)
      → save_manifest fs json manager config_path m d ≡ (ok tt, e)
      → loads e ≡ (ok m, e)
  unfolding save_manifest load_manifest
  save_manifest-loads m d e h =
      let (made, d₁, _, rest) =
        bind-ok (make_parent fs json manager config_path (fs.parent path) d)
          (λ made d₁. bind (prints m d₁) writes) tt e h in
      let (text, d₂, printed, written) = bind-ok (prints m d₁) writes tt e rest in
      let wrote = called-ok (internal backup_failed) (fs.write path text d₂) tt e written in
      let now =
        subst (λ (x : fs.Disk). fs.content path x ≡ some text) (ap (λ r. r.1) wrote)
          (fs.write_ok path text d₂ (ap (λ r. r.0) wrote)) in
      let parsed =
        json.round_trip m text
          (parsed_as-ok (internal backup_failed) (json.to_json m) text d₁ d₂ printed).0 in
      rw (fs.exists_content path text e now, now, parsed) refl

  abbrev excess : BackupManifest → ℕ
  excess m = length (sort_by_time m.backups) - manager.max_backups

  abbrev oldest : BackupManifest → List BackupInfo
  oldest m = take (excess m) (sort_by_time m.backups)

  abbrev newest : BackupManifest → BackupManifest
  newest m = record m { backups = drop (excess m) (sort_by_time m.backups) }

  -- The file at every path but the manifest's: the same as before if it is below none of the removed
  -- backups' directories, and gone if it is below one of them
  abbrev pub OnlyRemoved : List BackupInfo → fs.Disk → fs.Disk → Type 0
  OnlyRemoved removed d e =
      (q : Text)
      → path ≢ q
      → (All (λ b. fs.starts_with q (backup_path fs json manager config_path b.id) ≡ false) removed
          → fs.content q e ≡ fs.content q d)
        × All
            (λ b.
              fs.starts_with q (backup_path fs json manager config_path b.id) ≡ true
              → fs.content q e ≡ none)
            removed

  gone_later :
      (q : Text) (m : BackupManifest) (removed : List BackupInfo) (d e : fs.Disk)
      → path ≢ q
      → save_manifest fs json manager config_path m d ≡ (ok tt, e)
      → All
          (λ b.
            fs.starts_with q (backup_path fs json manager config_path b.id) ≡ true
            → fs.content q d ≡ none)
          removed
      → All
          (λ b.
            fs.starts_with q (backup_path fs json manager config_path b.id) ≡ true
            → fs.content q e ≡ none)
          removed
  gone_later q m [] d e ne h gone = tt
  gone_later q m (b ∷ removed) d e ne h gone = (
    λ under.
        subst (λ x. fs.content q x ≡ none) (ap (λ r. r.1) h)
          (save_manifest-Holds fs json manager config_path q none m d ne (gone.0 under)),
    gone_later q m removed d e ne h gone.1,
  )

  removed_saved :
      (m : BackupManifest) (removed : List BackupInfo) (d d₁ e : fs.Disk)
      → remove_backups fs json manager config_path removed d ≡ (ok tt, d₁)
      → save_manifest fs json manager config_path m d₁ ≡ (ok tt, e)
      → OnlyRemoved removed d e
  removed_saved m removed d d₁ e h saved q ne = (
    λ apart.
        let first : fs.content q d₁ ≡ fs.content q d =
          subst (λ x. fs.content q x ≡ fs.content q d) (ap (λ r. r.1) h)
            (remove_backups-Holds fs json manager config_path q (fs.content q d) removed d apart
              refl) in
        subst (λ x. fs.content q x ≡ fs.content q d) (ap (λ r. r.1) saved)
          (save_manifest-Holds fs json manager config_path q (fs.content q d) m d₁ ne first),
    gone_later q m removed d₁ e ne saved
        (remove_backups-gone fs json manager config_path q removed d d₁ h),
  )

  remove_oldest-ok :
      (n : ℕ) (m : BackupManifest) (d e : fs.Disk)
      → remove_oldest fs json manager config_path m d ≡ (ok n, e)
      → (loads e ≡ (ok (newest m), e)) × (length (oldest m) ≡ n) × OnlyRemoved (oldest m) d e
  unfolding remove_oldest
  remove_oldest-ok n m d e h =
      let counted : Unit {0} → fs.Disk → Result ℕ × fs.Disk =
        λ saved x. (ok (length (oldest m)), x) in
      let (removed, d₁, went, rest) =
        bind-ok (remove_backups fs json manager config_path (oldest m) d)
          (λ removed x. bind (save_manifest fs json manager config_path (newest m) x) counted) n e
          h in
      let (saved, d₂, stored, last) =
        bind-ok (save_manifest fs json manager config_path (newest m) d₁) counted n e rest in
      let ends : d₂ ≡ e = ap (λ r. r.1) last in
      (
        subst (λ x. loads x ≡ (ok (newest m), x)) ends
            (save_manifest-loads (newest m) d₁ d₂ stored),
        ground (arith, last),
        subst (OnlyRemoved (oldest m) d) ends
            (removed_saved (newest m) (oldest m) d d₁ d₂ went stored),
      )

  lists-loaded :
      (m : BackupManifest) (d : fs.Disk) → loads d ≡ (ok m, d) → lists d ≡ (ok m.backups, d)
  unfolding list_backups
  lists-loaded m d h = ap (λ r. bind r (λ m d. (ok m.backups, d))) h

  -- Of the backups listed before, `n` were removed; the kept ones, listed afterwards, are as many as
  -- the manager keeps, none that was removed is newer than one that was kept, and the files of the
  -- removed ones are gone, and no others.
  abbrev pub NewestKept : ℕ → fs.Disk → fs.Disk → Type 0
  NewestKept n d e =
      (backups removed kept : List BackupInfo) × (lists d ≡ (ok backups, d))
      × (lists e ≡ (ok kept, e))
      × Perm (removed ++ kept) backups
      × (length removed ≡ n)
      × (length kept ≡ min manager.max_backups (length backups))
      × All (λ b. NoNewer b kept) removed
      × OnlyRemoved removed d e

  few_kept :
      (n : ℕ) (m : BackupManifest) (d d₁ e : fs.Disk)
      → loads d ≡ (ok m, d)
      → d ≡ d₁
      → leb (length m.backups) manager.max_backups ≡ true
      → ◌≡◌ {A = Result ℕ × fs.Disk} (ok 0, d₁) (ok n, e)
      → NewestKept n d e
  few_kept n m d d₁ e loaded same few rest = (
    m.backups,
    [],
    m.backups,
    lists-loaded m d loaded,
    subst (λ x. lists x ≡ (ok m.backups, x)) (same ∙ ap (λ r. r.1) rest) (lists-loaded m d loaded),
    Perm.rfl,
    ground (arith, rest),
    omega (arith, leb→le (length m.backups) manager.max_backups few),
    tt,
    λ q ne. (λ apart. ap (fs.content q) (sym (same ∙ ap (λ r. r.1) rest)), tt),
  )

  oldest_removed :
      (n : ℕ) (m : BackupManifest) (d e : fs.Disk)
      → loads d ≡ (ok m, d)
      → leb (length m.backups) manager.max_backups ≡ false
      → (loads e ≡ (ok (newest m), e)) × (length (oldest m) ≡ n) × OnlyRemoved (oldest m) d e
      → NewestKept n d e
  oldest_removed n m d e loaded over (stored, counted, only) =
      let sorted = sort_by_time m.backups in
      (
        m.backups,
        oldest m,
        (newest m).backups,
        lists-loaded m d loaded,
        lists-loaded (newest m) e stored,
        subst (λ x. Perm x m.backups) (sym (take-append-drop (excess m) sorted))
            (sort_by_time-perm m.backups),
        counted,
        ground (arith, length-drop (excess m) sorted, length-sort_by_time m.backups, over),
        take-older (excess m) sorted (sort_by_time-IsSorted m.backups),
        only,
      )

  -- Cleaning up leaves the newest backups, at most as many as the manager keeps: with the ones that
  -- were removed they are those that were there, and none that was removed is newer than one that
  -- was kept. It returns how many were removed. Beside the manifest, the files below the directories
  -- of the removed backups are gone, and every file that is below none of them is as it was. The
  -- condition is that it ends without an error.
  pub cleanup_newest :
      (n : ℕ) (d e : fs.Disk) → cleanup fs json manager config_path d ≡ (ok n, e) → NewestKept n d e
  unfolding cleanup
  cleanup_newest n d e h =
      let (m, d₁, loaded, rest) =
        bind-ok (loads d)
          (λ m x.
            if leb (length m.backups) manager.max_backups
            then (ok 0, x)
            else remove_oldest fs json manager config_path m x)
          n e h in
      let same : d ≡ d₁ = load_manifest-same m d d₁ loaded in
      let here : loads d ≡ (ok m, d) = loaded ∙ ap (λ x. (ok m, x)) (sym same) in
      let moved =
        subst
          (λ x.
            (if leb (length m.backups) manager.max_backups
              then (ok 0, x)
              else remove_oldest fs json manager config_path m x)
            ≡ (ok n, e))
          (sym same) rest in
      elim (Bool-cases (leb (length m.backups) manager.max_backups)) [
        | inl few ↦ few_kept n m d d₁ e here same few (
            sym (
              ap (λ b. if b then (ok 0, d₁) else remove_oldest fs json manager config_path m d₁)
                few)
            ∙ rest)
        | inr over ↦ oldest_removed n m d e here over (
            remove_oldest-ok n m d e (
              sym (
                ap (λ b. if b then (ok 0, d) else remove_oldest fs json manager config_path m d)
                  over)
              ∙ moved))
      ]
