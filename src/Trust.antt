-- ===== src/Trust.antt =====
-- crates/yoop-core/src/trust/mod.rs: the devices that the user trusts. A `Uuid`, an address and a
-- time are numbers, a string is the list of its code points.
pub mod Devices
mod Examples
use yoop.Base.{
  ℕ, ◌+◌, ◌-◌, ◌%◌, ◌^◌, Bool, true, false, ◌&&◌, Option, none, some, List, [], ◌∷◌, ◌++◌, ltb, leb,
  ◌==◌, not, if◌then◌else◌, length, Result, ok, err, config_error,
}
use yoop.Storage.{Text, Storage, Io, save}

pub data TrustLevel : Type 0 where
  full ask_each_time : TrustLevel

pub record TrustedDevice : Type 0 where
  pub device_id : ℕ
  pub device_name : Text
  pub public_key : Text
  pub first_seen : ℕ
  pub last_seen : ℕ
  pub transfer_count : ℕ
  pub trusted_at : ℕ
  pub trust_level : TrustLevel
  pub last_known_ip : Option ℕ
  pub last_known_port : Option ℕ
  pub address_updated_at : Option ℕ

-- `now` is the clock.
abbrev pub new_device : ℕ → ℕ → Text → Text → TrustedDevice
new_device now device_id device_name public_key = record {
  device_id = device_id;
  device_name = device_name;
  public_key = public_key;
  first_seen = now;
  last_seen = now;
  transfer_count = 1;
  trusted_at = now;
  trust_level = ask_each_time;
  last_known_ip = none;
  last_known_port = none;
  address_updated_at = none;
}

abbrev pub with_trust_level : TrustLevel → TrustedDevice → TrustedDevice
with_trust_level level d = record d { trust_level = level }

abbrev pub with_address : ℕ → ℕ → ℕ → TrustedDevice → TrustedDevice
with_address now ip port d = record d {
  last_known_ip = some ip;
  last_known_port = some port;
  address_updated_at = some now;
}

-- `TrustedDevice::update_last_seen`; the 32-bit count wraps in a release build.
abbrev pub seen : ℕ → TrustedDevice → TrustedDevice
seen now d = record d { last_seen = now; transfer_count = (d.transfer_count + 1) % 2 ^ 32 }

-- `TrustedDevice::address`, with `Option::zip`
abbrev pub address : TrustedDevice → Option (ℕ × ℕ)
address d = elim d.last_known_ip [
  | none ↦ none
  | some ip ↦ elim d.last_known_port [ none ↦ none | some port ↦ some (ip, port) ]
]

pub record TrustDatabase : Type 0 where
  pub version : ℕ
  pub devices : List TrustedDevice

pub record TrustStore : Type 0 where
  pub path : Text
  pub devices : List TrustedDevice

pub find_device : ℕ → List TrustedDevice → Option TrustedDevice
find_device id [] = none
find_device id (d ∷ devices) =
    let rest = find_device id devices in if d.device_id == id then some d else rest

-- `retain(|d| d.device_id != id)`
retain_others : ℕ → List TrustedDevice → List TrustedDevice
retain_others id [] = []
retain_others id (d ∷ devices) =
    let rest = retain_others id devices in if d.device_id == id then rest else d ∷ rest

-- The first device with the identifier, changed in its place
change_device : ℕ → (TrustedDevice → TrustedDevice) → List TrustedDevice → List TrustedDevice
change_device id change [] = []
change_device id change (d ∷ devices) =
    let rest = change_device id change devices in
    if d.device_id == id then change d ∷ devices else d ∷ rest

unfoldable pub find_by_id : ℕ → TrustStore → Option TrustedDevice
unfolding find_device
find_by_id device_id store = find_device device_id store.devices

unfoldable pub is_trusted : ℕ → TrustStore → Bool
unfolding find_by_id
is_trusted device_id store = elim (find_by_id device_id store) [ none ↦ false | some d ↦ true ]

same_text : Text → Text → Bool
same_text [] [] = true
same_text (x ∷ xs) (y ∷ ys) = let rest = same_text xs ys in if x == y then rest else false
same_text _ _ = false

unfoldable pub verify_key : ℕ → Text → TrustStore → Bool
unfolding same_text
verify_key device_id public_key store = elim (find_by_id device_id store) [
  | none ↦ false
  | some d ↦ same_text d.public_key public_key
]

unfoldable pub get_address : ℕ → TrustStore → Option (ℕ × ℕ)
get_address device_id store = elim (find_by_id device_id store) [ none ↦ none | some d ↦ address d ]

has_address : TrustedDevice → Bool
has_address d = elim d.last_known_ip [
  | none ↦ false
  | some ip ↦ elim d.last_known_port [ none ↦ false | some port ↦ true ]
]

with_addresses : List TrustedDevice → List TrustedDevice
with_addresses [] = []
with_addresses (d ∷ devices) =
    let rest = with_addresses devices in if has_address d then d ∷ rest else rest

-- `sort_by` is stable: a device stays before those that were seen at the same time and stood behind
-- it.
insert_by_last_seen : TrustedDevice → List TrustedDevice → List TrustedDevice
insert_by_last_seen d [] = d ∷ []
insert_by_last_seen d (x ∷ devices) =
    let rest = insert_by_last_seen d devices in
    if ltb d.last_seen x.last_seen then x ∷ rest else d ∷ x ∷ devices

sort_by_last_seen : List TrustedDevice → List TrustedDevice
sort_by_last_seen [] = []
sort_by_last_seen (d ∷ devices) = insert_by_last_seen d (sort_by_last_seen devices)

unfoldable pub get_devices_with_addresses : TrustStore → List TrustedDevice
unfolding with_addresses sort_by_last_seen insert_by_last_seen has_address
get_devices_with_addresses store = sort_by_last_seen (with_addresses store.devices)

module _ (storage : Storage TrustDatabase) where
  unfoldable pub load_from : Text → storage.Disk → Result TrustStore
  load_from path disk =
      if storage.exists path disk
      then elim (storage.read_json path disk) [
        | none ↦ err config_error
        | some db ↦ ok (record { path = path; devices = db.devices })
      ]
      else ok (record { path = path; devices = [] })

  unfoldable pub save_store : TrustStore → storage.Disk → Io storage (Unit {0})
  save_store store disk =
      save storage store.path (record { version = 1; devices = store.devices }) disk

  -- `self.save()?; Ok(true)`
  saved_true : Io storage (Unit {0}) → Io storage Bool
  saved_true (disk, ok done) = (disk, ok true)
  saved_true (disk, err fault) = (disk, err fault)

  -- The store is changed also where saving it fails.
  unfoldable pub add :
      TrustedDevice → TrustStore → storage.Disk → TrustStore × Io storage (Unit {0})
  unfolding retain_others
  add device store disk =
      let store' = record store {
        devices = retain_others device.device_id store.devices ++ device ∷ [];
      } in
      (store', save_store store' disk)

  unfoldable pub remove : ℕ → TrustStore → storage.Disk → TrustStore × Io storage Bool
  unfolding retain_others saved_true
  remove device_id store disk =
      let store' = record store { devices = retain_others device_id store.devices } in
      if ltb (length store'.devices) (length store.devices)
      then (store', saved_true (save_store store' disk))
      else (store', (disk, ok false))

  -- The three methods that look a device up, change it and save the store
  unfoldable pub change_and_save :
      ℕ → (TrustedDevice → TrustedDevice) → TrustStore → storage.Disk → TrustStore × Io storage Bool
  unfolding change_device saved_true
  change_and_save device_id change store disk =
      let store' = record store { devices = change_device device_id change store.devices } in
      if is_trusted device_id store
      then (store', saved_true (save_store store' disk))
      else (store, (disk, ok false))

  unfoldable pub set_trust_level :
      ℕ → TrustLevel → TrustStore → storage.Disk → TrustStore × Io storage Bool
  set_trust_level device_id level = change_and_save device_id (with_trust_level level)

  unfoldable pub update_last_seen : ℕ → ℕ → TrustStore → storage.Disk → TrustStore × Io storage Bool
  update_last_seen now device_id = change_and_save device_id (seen now)

  unfoldable pub update_address :
      ℕ → ℕ → ℕ → ℕ → TrustStore → storage.Disk → TrustStore × Io storage Bool
  update_address now device_id ip port = change_and_save device_id (with_address now ip port)

  unfoldable pub clear : TrustStore → storage.Disk → TrustStore × Io storage (Unit {0})
  clear store disk = let store' = record store { devices = [] } in (store', save_store store' disk)
