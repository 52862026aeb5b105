-- ===== src/Trust/Devices.antt =====
-- crates/yoop-core/src/trust/mod.rs: one device for each identifier, and what the operations do to
-- it.
use yoop.Base.{
  ℕ, ◌≤◌, ◌<◌, ◌≡◌, refl, ap, ◌∙◌, true, false, Option, none, some, List, [], ◌∷◌, ◌++◌, ◌==◌,
  if◌then◌else◌, length, arith, ok, ◌↔◌, Option-cases, inl, inr, ==→eq, subst, sym, In, Bool-cases,
  ==-self,
}
use yoop.Storage.{Text, Storage}
use yoop.Trust.{
  TrustLevel, TrustedDevice, TrustDatabase, TrustStore, find_device, retain_others, change_device,
  find_by_id, is_trusted, same_text, verify_key, add, remove, change_and_save, set_trust_level,
  update_last_seen, update_address, with_trust_level, seen, with_address,
}

-- No identifier stands twice.
abbrev pub Unique : List TrustedDevice → Type 0
Unique [] = Unit {0}
Unique (d ∷ devices) = (find_device d.device_id devices ≡ none) × Unique devices

find-retain :
    (id removed : ℕ) (devices : List TrustedDevice)
    → find_device id (retain_others removed devices)
      ≡ (if removed == id then none else find_device id devices)
unfolding find_device retain_others
find-retain id removed [] = ground arith
find-retain id removed (d ∷ devices) = ground (arith, find-retain id removed devices)

retain-Unique :
    (removed : ℕ) (devices : List TrustedDevice)
    → Unique devices
    → Unique (retain_others removed devices)
unfolding retain_others
retain-Unique removed [] u = tt
retain-Unique removed (d ∷ devices) u =
    ground (arith, retain-Unique removed devices u.1, u.0, find-retain d.device_id removed devices)

find-push :
    (id : ℕ) (d : TrustedDevice) (devices : List TrustedDevice)
    → find_device d.device_id devices ≡ none
    → find_device id (devices ++ d ∷ [])
      ≡ (if d.device_id == id then some d else find_device id devices)
unfolding find_device
find-push id d [] h = ground arith
find-push id d (x ∷ devices) h = ground (arith, find-push id d devices)

push-Unique :
    (d : TrustedDevice) (devices : List TrustedDevice)
    → find_device d.device_id devices ≡ none
    → Unique devices
    → Unique (devices ++ d ∷ [])
unfolding find_device
push-Unique d [] h u = ground arith
push-Unique d (x ∷ devices) h u =
    ground (arith, h, push-Unique d devices, u.0, u.1, find-push x.device_id d devices)

find-change :
    (id changed : ℕ) (change : TrustedDevice → TrustedDevice) (devices : List TrustedDevice)
    → ((d : TrustedDevice) → (change d).device_id ≡ d.device_id)
    → find_device id (change_device changed change devices) ≡ (
        if changed == id
        then elim (find_device id devices) [ none ↦ none | some d ↦ some (change d) ]
        else find_device id devices)
unfolding find_device change_device
find-change id changed change [] same = ground arith
find-change id changed change (d ∷ devices) same =
    ground (arith, same d, find-change id changed change devices same)

abbrev pub IsUnique : TrustStore → Type 0
IsUnique store = Unique store.devices

change-Unique :
    (changed : ℕ) (change : TrustedDevice → TrustedDevice) (devices : List TrustedDevice)
    → ((d : TrustedDevice) → (change d).device_id ≡ d.device_id)
    → Unique devices
    → Unique (change_device changed change devices)
unfolding find_device change_device
change-Unique changed change [] same u = tt
change-Unique changed change (d ∷ devices) same u = ground (
  arith,
  same d,
  u.0,
  u.1,
  change-Unique changed change devices same,
  find-change d.device_id changed change devices same,
)

-- What `change` makes of the device with one identifier
abbrev pub changed_at : ℕ → ℕ → (TrustedDevice → TrustedDevice) → TrustStore → Option TrustedDevice
changed_at id device_id change store =
    if device_id == id
    then elim (find_by_id id store) [ none ↦ none | some d ↦ some (change d) ]
    else find_by_id id store

length-retain-le :
    (removed : ℕ) (devices : List TrustedDevice)
    → length (retain_others removed devices) ≤ length devices
unfolding retain_others
length-retain-le removed [] = omega arith
length-retain-le removed (d ∷ devices) = ground (arith, length-retain-le removed devices)

retain_absent :
    (removed : ℕ) (devices : List TrustedDevice)
    → find_device removed devices ≡ none
    → retain_others removed devices ≡ devices
unfolding find_device retain_others
retain_absent removed [] h = refl
retain_absent removed (d ∷ devices) h = ground (arith, h, retain_absent removed devices)

retain_shorter :
    (removed : ℕ) (devices : List TrustedDevice) (d : TrustedDevice)
    → find_device removed devices ≡ some d
    → length (retain_others removed devices) < length devices
unfolding find_device retain_others
retain_shorter removed [] d h = absurd (ground arith)
retain_shorter removed (x ∷ devices) d h =
    ground (arith, h, retain_shorter removed devices d, length-retain-le removed devices)

same_text→eq : (xs ys : Text) → same_text xs ys ≡ true → xs ≡ ys
unfolding same_text
same_text→eq [] [] h = refl
same_text→eq [] (y ∷ ys) h = absurd (ground arith)
same_text→eq (x ∷ xs) [] h = absurd (ground arith)
same_text→eq (x ∷ xs) (y ∷ ys) h = ground (arith, h, same_text→eq xs ys)

same_text_self : (xs : Text) → same_text xs xs ≡ true
unfolding same_text
same_text_self [] = refl
same_text_self (x ∷ xs) = ground (arith, same_text_self xs)

found :
    (id : ℕ) (d : TrustedDevice) (devices : List TrustedDevice)
    → find_device id devices ≡ some d
    → In d devices × (d.device_id ≡ id)
unfolding find_device
found id d [] h = absurd (ground (arith, h))
found id d (x ∷ devices) h = elim (Bool-cases (x.device_id == id)) [
  | inl same ↦
      let first : d ≡ x =
        ap (λ o. elim o [ none ↦ d | some y ↦ y ])
          (sym h ∙ ap (λ b. if b then some x else find_device id devices) same) in
      (inl first, ap (λ (y : TrustedDevice). y.device_id) first ∙ ==→eq x.device_id id same)
  | inr other ↦
      let (later, same) =
        found id d devices
          (sym (ap (λ b. if b then some x else find_device id devices) other) ∙ h) in
      (inr later, same)
]

finds :
    (d : TrustedDevice) (devices : List TrustedDevice)
    → Unique devices
    → In d devices
    → find_device d.device_id devices ≡ some d
unfolding find_device
finds d [] u m = absurd m
finds d (x ∷ devices) u (inl same) =
    subst
      (λ (y : TrustedDevice).
        (if x.device_id == y.device_id then some x else find_device y.device_id devices) ≡ some y)
      (sym same) (rw (==-self x.device_id) refl)
finds d (x ∷ devices) u (inr later) =
    ground (arith, finds d devices u.1 later, u.0, ==→eq x.device_id d.device_id)

key_matches :
    (key : Text) (found : Option TrustedDevice)
    → (elim found [ none ↦ false | some d ↦ same_text d.public_key key ] ≡ true)
    → (d : TrustedDevice) × (found ≡ some d) × (d.public_key ≡ key)
key_matches key none v = absurd (ground (arith, v))
key_matches key (some d) v = (d, refl, same_text→eq d.public_key key v)

-- Where no identifier stands twice, a key is verified exactly if one of the stored devices has the
-- identifier and that key.
pub verify_key_exact :
    (id : ℕ) (key : Text) (store : TrustStore)
    → IsUnique store
    → (verify_key id key store ≡ true)
      ↔ ((d : TrustedDevice) × In d store.devices × (d.device_id ≡ id) × (d.public_key ≡ key))
unfolding verify_key find_by_id
verify_key_exact id key store u = (
  λ v.
      let (d, is, same) = key_matches key (find_device id store.devices) v in
      let (there, named) = found id d store.devices is in (d, there, named, same),
  λ m.
      let (d, there, named, same) = m in
      subst (λ o. elim o [ none ↦ false | some d ↦ same_text d.public_key key ] ≡ true)
        (sym
          (subst (λ i. find_device i store.devices ≡ some d) named (finds d store.devices u there)))
        (subst (λ k. same_text d.public_key k ≡ true) same (same_text_self d.public_key)),
)

module _ (storage : Storage TrustDatabase) where
  -- A device that is added is the only one of its identifier afterwards, in place of one that was
  -- there before, and the other devices stay.
  pub add-IsUnique :
      (d : TrustedDevice) (store : TrustStore) (disk : storage.Disk)
      → IsUnique store
      → IsUnique (add storage d store disk).0
        × ((id : ℕ)
            → find_by_id id (add storage d store disk).0
              ≡ (if d.device_id == id then some d else find_by_id id store))
  unfolding add find_by_id
  add-IsUnique d store disk u =
      let gone : find_device d.device_id (retain_others d.device_id store.devices) ≡ none =
        ground (arith, find-retain d.device_id d.device_id store.devices) in
      (
        push-Unique d (retain_others d.device_id store.devices) gone
            (retain-Unique d.device_id store.devices u),
        λ id. ground (
          arith,
          find-push id d (retain_others d.device_id store.devices) gone,
          find-retain id d.device_id store.devices,
        ),
      )

  remove_store :
      (removed : ℕ) (store : TrustStore) (disk : storage.Disk)
      → (remove storage removed store disk).0
        ≡ record store { devices = retain_others removed store.devices }
  unfolding remove
  remove_store removed store disk = ground arith

  remove_absent :
      (removed : ℕ) (store : TrustStore) (disk : storage.Disk)
      → find_device removed store.devices ≡ none
      → remove storage removed store disk ≡ (store, (disk, ok false))
  unfolding remove
  remove_absent removed store disk h = rw (retain_absent removed store.devices h) (ground arith)

  -- Removing an identifier takes away its device and no other. Where there is none, nothing changes
  -- and nothing is written.
  pub remove-IsUnique :
      (removed : ℕ) (store : TrustStore) (disk : storage.Disk)
      → IsUnique store
      → let after = remove storage removed store disk in
        IsUnique after.0
        × ((id : ℕ) → find_by_id id after.0 ≡ (if removed == id then none else find_by_id id store))
        × (is_trusted removed store ≡ false → after ≡ (store, (disk, ok false)))
  unfolding remove find_by_id is_trusted
  remove-IsUnique removed store disk u = (
    rw (remove_store removed store disk) (retain-Unique removed store.devices u),
    λ id. rw (remove_store removed store disk) (find-retain id removed store.devices),
    λ h. remove_absent removed store disk (elim (Option-cases (find_device removed store.devices)) [
      | inl e ↦ e
      | inr (d, e) ↦ absurd (ground (arith, e, h))
    ]),
  )

  change_absent :
      (named : ℕ) (change : TrustedDevice → TrustedDevice) (store : TrustStore)
      (disk : storage.Disk)
      → find_device named store.devices ≡ none
      → change_and_save storage named change store disk ≡ (store, (disk, ok false))
  unfolding change_and_save is_trusted find_by_id
  change_absent named change store disk h = ground (arith, h)

  change_present :
      (named : ℕ) (change : TrustedDevice → TrustedDevice) (store : TrustStore)
      (disk : storage.Disk) (d : TrustedDevice)
      → find_device named store.devices ≡ some d
      → (change_and_save storage named change store disk).0
        ≡ record store { devices = change_device named change store.devices }
  unfolding change_and_save is_trusted find_by_id
  change_present named change store disk d h = ground (arith, h)

  change_named :
      (named : ℕ) (change : TrustedDevice → TrustedDevice) (store : TrustStore)
      (disk : storage.Disk)
      → ((d : TrustedDevice) → (change d).device_id ≡ d.device_id)
      → IsUnique store
      → let after = change_and_save storage named change store disk in
        IsUnique after.0
        × ((id : ℕ) → find_by_id id after.0 ≡ changed_at id named change store)
        × (is_trusted named store ≡ false → after ≡ (store, (disk, ok false)))
  unfolding change_and_save find_by_id is_trusted
  change_named named change store disk same u =
      elim (Option-cases (find_device named store.devices)) [
        | inl h ↦
            let kept = change_absent named change store disk h in
            rw kept (u, λ id. ground (arith, h, ==→eq named id), λ _. refl)
        | inr (d, h) ↦
            let first = change_present named change store disk d h in
            (
              rw first (change-Unique named change store.devices same u),
              λ id. rw first (find-change id named change store.devices same),
              λ e. absurd (ground (arith, e, h)),
            )
      ]

  -- Each of the three changes keeps the identifiers, changes the device that was named and no other,
  -- and is refused, with nothing changed or written, where no device has the identifier.
  pub changes_named :
      (named : ℕ) (store : TrustStore) (disk : storage.Disk) (level : TrustLevel) (now ip port : ℕ)
      → IsUnique store
      → let a = set_trust_level storage named level store disk in
        let b = update_last_seen storage now named store disk in
        let c = update_address storage now named ip port store disk in
        (IsUnique a.0 × IsUnique b.0 × IsUnique c.0)
        × ((id : ℕ)
            → (find_by_id id a.0 ≡ changed_at id named (with_trust_level level) store)
              × (find_by_id id b.0 ≡ changed_at id named (seen now) store)
              × (find_by_id id c.0 ≡ changed_at id named (with_address now ip port) store))
        × (is_trusted named store ≡ false
            → (a ≡ (store, (disk, ok false)))
              × (b ≡ (store, (disk, ok false)))
              × (c ≡ (store, (disk, ok false))))
  unfolding set_trust_level update_last_seen update_address
  changes_named named store disk level now ip port u =
      let (au, af, ar) = change_named named (with_trust_level level) store disk (λ d. refl) u in
      let (bu, bf, br) = change_named named (seen now) store disk (λ d. refl) u in
      let (cu, cf, cr) = change_named named (with_address now ip port) store disk (λ d. refl) u in
      ((au, bu, cu), λ id. (af id, bf id, cf id), λ h. (ar h, br h, cr h))
