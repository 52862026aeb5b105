-- ===== src/Migration/Backup/Restoring.antt =====
-- crates/yoop-core/src/migration/backup.rs: what is saved, and restored.
use yoop.Base.{
  ℕ, ◌+◌, ◌%◌, ◌^◌, ◌≡◌, ◌≢◌, refl, sym, ap, ◌∙◌, subst, Bool, true, false, Option, none, some,
  List, [], ◌∷◌, ◌++◌, if◌then◌else◌, Result, ok, arith, All, In, Bool-cases, ◌⊎◌, inl, inr,
  internal, backup_failed, ℕ_discrete,
}
use yoop.Storage.{Text}
use yoop.Migration.Backup.{
  BackupDisk, BackupManifest, BackupManager, Json, bind, called, files_to_backup, copy_files,
  restore_files, restore_backup, make_parent, manifest_path, backup_path, data_file,
}
use yoop.Migration.Backup.Steps.{bind-ok, called-ok}

true_false : true ≡ false → (A : Type 0) → A
true_false h A = absurd (ground (arith, h))

Text-equal : Discrete Text
Text-equal = hlevel ℕ_discrete

module _ (fs : BackupDisk) (json : Json BackupManifest) (manager : BackupManager)
    (config_path : Text) where
  abbrev pub Named : Text → Type 0
  Named f = In f files_to_backup

  abbrev pub data_of : Text → Text
  data_of f = data_file fs json manager config_path f

  abbrev pub saved_at : Text → Text → Text
  saved_at id f = fs.join (backup_path fs json manager config_path id) f

  -- The files, those of a backup, and the manifest are apart from each other.
  pub record IsApart (id : Text) : Type 0 where
    pub data_differ : (f g : Text) → Named f → Named g → f ≢ g → data_of f ≢ data_of g
    pub saved_differ : (f g : Text) → Named f → Named g → f ≢ g → saved_at id f ≢ saved_at id g
    pub saved_data : (f g : Text) → Named f → Named g → saved_at id f ≢ data_of g
    pub manifest_differs :
        (f : Text) → Named f → manifest_path fs json manager config_path ≢ saved_at id f
    pub inside :
        (f : Text)
        → Named f
        → fs.starts_with (saved_at id f) (backup_path fs json manager config_path id) ≡ true
    pub manifest_outside :
        fs.starts_with
          (backup_path fs json manager config_path id)
          (manifest_path fs json manager config_path)
        ≡ false

  -- Directories are created, and what exists of a backup is copied.
  pub record CanRestore (id : Text) : Type 0 where
    pub creates : (p : Text) (d : fs.Disk) → (fs.create_dir_all p d).0 ≡ true
    pub copies :
        (g p : Text) (d : fs.Disk)
        → Named g
        → fs.exists (saved_at id g) d ≡ true
        → (fs.copy (saved_at id g) p d).0 ≡ true

  module _ (id : Text) (apart : IsApart id) (f xs : Text) (named : Named f) where
    abbrev pub Saved : fs.Disk → Type 0
    Saved d = fs.content (saved_at id f) d ≡ some xs

    abbrev pub Intact : fs.Disk → Type 0
    Intact d = fs.content (data_of f) d ≡ some xs

    called-true :
        (r : Bool × fs.Disk) → r.0 ≡ true → called (internal backup_failed) r ≡ (ok tt, r.1)
    called-true (b, d) h = rw h refl

    -- A file that is copied is saved then, the others as before.
    copied :
        (g : Text) (d : fs.Disk)
        → Named g
        → (fs.copy (data_of g) (saved_at id g) d).0 ≡ true
        → Intact d
        → (f ≡ g) ⊎ Saved d
        → Saved (fs.copy (data_of g) (saved_at id g) d).1
    copied g d named_g worked intact before = elim (Text-equal f g) [
      | yes same ↦
          let done : fs.content (saved_at id g) (fs.copy (data_of g) (saved_at id g) d).1
              ≡ fs.content (data_of g) d =
            fs.copy_ok (data_of g) (saved_at id g) d
              (λ h. apart.saved_data g g named_g named_g (sym h)) worked in
          subst
            (λ h. fs.content (saved_at id h) (fs.copy (data_of g) (saved_at id g) d).1 ≡ some xs)
            (sym same) (done ∙ ap (λ h. fs.content (data_of h) d) (sym same) ∙ intact)
      | no other ↦ elim before [
        | inl same ↦ absurd (other same)
        | inr kept ↦
            fs.copy_ne (data_of g) (saved_at id g) (saved_at id f) d
              (apart.saved_differ g f named_g named (λ h. other (sym h)))
            ∙ kept
      ]
    ]

    abbrev copies_on : List Text → List Text → ℕ → fs.Disk → Result (List Text × ℕ) × fs.Disk
    copies_on names files size d =
        copy_files fs json manager config_path (backup_path fs json manager config_path id) names
          files size d

    abbrev copy_next :
        Text → List Text → List Text → ℕ → Unit {0} → fs.Disk → Result (List Text × ℕ) × fs.Disk
    copy_next g names files size u d =
        copies_on names (files ++ g ∷ []) ((size + fs.file_size (saved_at id g) d) % 2 ^ 64) d

    copies_on-one :
        (g : Text) (names files : List Text) (size : ℕ) (d : fs.Disk) (b : Bool)
        → fs.exists (data_of g) d ≡ b
        → copies_on (g ∷ names) files size d ≡ (
            if b
            then bind
                (called (internal backup_failed) (fs.copy (data_of g) (saved_at id g) d))
                (copy_next g names files size)
            else copies_on names files size d)
    unfolding copy_files
    copies_on-one g names files size d b h =
        ap
          (λ b.
            if b
            then bind (called (internal backup_failed) (fs.copy (data_of g) (saved_at id g) d))
                (copy_next g names files size)
            else copies_on names files size d)
          h

    -- After the loop over the files, a file that was there is saved.
    pub copy_files-Saved :
        (names files : List Text) (size : ℕ) (d e : fs.Disk) (r : List Text × ℕ)
        → All Named names
        → copy_files fs json manager config_path
            (backup_path fs json manager config_path id)
            names
            files
            size
            d
          ≡ (ok r, e)
        → Intact d
        → In f names ⊎ Saved d
        → Saved e
    unfolding copy_files
    copy_files-Saved [] files size d e r all h intact (inl i) = absurd i
    copy_files-Saved [] files size d e r all h intact (inr kept) =
        subst Saved (ap (λ x. x.1) h) kept
    copy_files-Saved (g ∷ names) files size d e r all h intact before =
        elim (Bool-cases (fs.exists (data_of g) d)) [
          | inl there ↦
              let (u, d₁, one, rest) =
                bind-ok (called (internal backup_failed) (fs.copy (data_of g) (saved_at id g) d))
                  (copy_next g names files size) r e
                  (sym (copies_on-one g names files size d true there) ∙ h) in
              let did =
                called-ok (internal backup_failed) (fs.copy (data_of g) (saved_at id g) d) u d₁
                  one in
              let now : (f ≡ g) ⊎ Saved d → Saved d₁ = λ b.
                subst Saved (ap (λ x. x.1) did) (copied g d all.0 (ap (λ x. x.0) did) intact b) in
              copy_files-Saved names (files ++ g ∷ []) _ d₁ e r all.1 rest
                (subst Intact (ap (λ x. x.1) did) (
                  fs.copy_ne (data_of g) (saved_at id g) (data_of f) d
                    (apart.saved_data g f all.0 named)
                  ∙ intact))
                (elim before [
                  | inl (inl eq) ↦ inr (now (inl eq))
                  | inl (inr i) ↦ inl i
                  | inr kept ↦ inr (now (inr kept))
                ])
          | inr missing ↦
              copy_files-Saved names files size d e r all.1
                (sym (copies_on-one g names files size d false missing) ∙ h) intact
                (elim before [
                  | inl (inl eq) ↦
                      true_false
                        (sym (fs.exists_content (data_of f) xs d intact)
                          ∙ ap (λ x. fs.exists (data_of x) d) eq
                          ∙ missing)
                        _
                  | inl (inr i) ↦ inl i
                  | inr kept ↦ inr kept
                ])
        ]

    abbrev restores_on : List Text → fs.Disk → Result (Unit {0}) × fs.Disk
    restores_on names d =
        restore_files fs json manager config_path (backup_path fs json manager config_path id) names
          d

    abbrev makes : Option Text → fs.Disk → Result (Unit {0}) × fs.Disk
    makes = make_parent fs json manager config_path

    makes-ok :
        (o : Option Text) (d : fs.Disk)
        → CanRestore id
        → (d₁ : fs.Disk) × (makes o d ≡ (ok tt, d₁))
          × ((q : Text) → fs.content q d₁ ≡ fs.content q d)
          × ((q : Text) → fs.exists q d ≡ true → fs.exists q d₁ ≡ true)
    makes-ok none d works = (d, refl, λ q. refl, λ q h. h)
    makes-ok (some dir) d works = (
      (fs.create_dir_all dir d).1,
      called-true (fs.create_dir_all dir d) (works.creates dir d),
      λ q. fs.dir_same dir q d,
      λ q h. fs.dir_keeps dir q d h,
    )

    restores_on-one :
        (g : Text) (names : List Text) (d : fs.Disk)
        → CanRestore id
        → Named g
        → fs.exists (saved_at id g) d ≡ true
        → (d₁ : fs.Disk) × ((q : Text) → fs.content q d₁ ≡ fs.content q d)
          × ((fs.copy (saved_at id g) (data_of g) d₁).0 ≡ true)
          × (restores_on (g ∷ names) d
              ≡ restores_on names (fs.copy (saved_at id g) (data_of g) d₁).1)
    unfolding restore_files
    restores_on-one g names d works named_g there =
        let (d₁, made, same, still) = makes-ok (fs.parent (data_of g)) d works in
        let worked = works.copies g (data_of g) d₁ named_g (still (saved_at id g) there) in
        let copies : fs.Disk → Result (Unit {0}) × fs.Disk = λ x.
          bind (called (internal backup_failed) (fs.copy (saved_at id g) (data_of g) x))
            (λ copied y. restores_on names y) in
        (
          d₁,
          same,
          worked,
          ap
                (λ b.
                  if b
                  then bind (makes (fs.parent (data_of g)) d) (λ made x. copies x)
                  else restores_on names d)
                there
              ∙ ap (λ r. bind r (λ made x. copies x)) made
              ∙ ap (λ r. bind r (λ copied y. restores_on names y))
                  (called-true (fs.copy (saved_at id g) (data_of g) d₁) worked),
        )

    restored :
        (g : Text) (d : fs.Disk)
        → Named g
        → (fs.copy (saved_at id g) (data_of g) d).0 ≡ true
        → Saved d
        → (f ≡ g) ⊎ Intact d
        → Intact (fs.copy (saved_at id g) (data_of g) d).1
    restored g d named_g worked kept before = elim (Text-equal f g) [
      | yes same ↦
          subst (λ h. fs.content (data_of h) (fs.copy (saved_at id g) (data_of g) d).1 ≡ some xs)
            (sym same)
            (fs.copy_ok (saved_at id g) (data_of g) d (apart.saved_data g g named_g named_g) worked
              ∙ ap (λ h. fs.content (saved_at id h) d) (sym same)
              ∙ kept)
      | no other ↦ elim before [
        | inl same ↦ absurd (other same)
        | inr intact ↦
            fs.copy_ne (saved_at id g) (data_of g) (data_of f) d
              (apart.data_differ g f named_g named (λ h. other (sym h)))
            ∙ intact
      ]
    ]

    -- Restoring gives a saved file its contents back.
    pub restore_files-Intact :
        (names : List Text) (d : fs.Disk)
        → CanRestore id
        → All Named names
        → Saved d
        → In f names ⊎ Intact d
        → Intact
            (restore_files fs json manager config_path
              (backup_path fs json manager config_path id)
              names
              d).1
    unfolding restore_files
    restore_files-Intact [] d works all kept (inl i) = absurd i
    restore_files-Intact [] d works all kept (inr intact) = intact
    restore_files-Intact (g ∷ names) d works all kept before =
        elim (Bool-cases (fs.exists (saved_at id g) d)) [
          | inl there ↦
              let (d₁, same, worked, one) = restores_on-one g names d works all.0 there in
              let d₂ = (fs.copy (saved_at id g) (data_of g) d₁).1 in
              let kept₁ : Saved d₁ = same (saved_at id f) ∙ kept in
              let now : (f ≡ g) ⊎ Intact d₁ → Intact d₂ = restored g d₁ all.0 worked kept₁ in
              subst (λ r. Intact r.1) (sym one)
                (restore_files-Intact names d₂ works all.1
                  (fs.copy_ne (saved_at id g) (data_of g) (saved_at id f) d₁
                      (λ h. apart.saved_data f g named all.0 (sym h))
                    ∙ kept₁)
                  (elim before [
                    | inl (inl eq) ↦ inr (now (inl eq))
                    | inl (inr i) ↦ inl i
                    | inr intact ↦ inr (now (inr (same (data_of f) ∙ intact)))
                  ]))
          | inr missing ↦
              subst (λ r. Intact r.1)
                (sym (
                  ap
                    (λ b.
                      if b
                      then bind (makes (fs.parent (data_of g)) d) (λ made x.
                        bind
                          (called (internal backup_failed) (fs.copy (saved_at id g) (data_of g) x))
                          (λ copied y. restores_on names y))
                      else restores_on names d)
                    missing))
                (restore_files-Intact names d works all.1 kept (elim before [
                  | inl (inl eq) ↦
                      true_false
                        (sym (fs.exists_content (saved_at id f) xs d kept)
                          ∙ ap (λ x. fs.exists (saved_at id x) d) eq
                          ∙ missing)
                        _
                  | inl (inr i) ↦ inl i
                  | inr intact ↦ inr intact
                ]))
        ]

    abbrev pub all_named : All Named files_to_backup
    all_named =
        (inl refl, (inr (inl refl), (inr (inr (inl refl)), (inr (inr (inr (inl refl))), tt))))

    -- A saved file is restored, whatever was there.
    pub restore_backup-Intact :
        (d : fs.Disk)
        → CanRestore id
        → Saved d
        → Intact (restore_backup fs json manager config_path id d).1
    unfolding restore_backup
    restore_backup-Intact d works kept =
        let there =
          fs.exists_above (backup_path fs json manager config_path id) (saved_at id f) xs d
            (apart.inside f named) kept in
        rw there (restore_files-Intact files_to_backup d works all_named kept (inl named))
