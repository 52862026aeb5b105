-- ===== src/Trust/Examples.antt =====
-- Runs of the trust store on concrete devices.
use yoop.Base.{
  ℕ, ◌≡◌, refl, true, false, Option, none, some, [], ◌∷◌, ◌↔◌, In, ok, ◌==◌, if◌then◌else◌,
}
use yoop.Storage.{Storage}
use yoop.Trust.{
  find_device, TrustedDevice, TrustDatabase, TrustStore, full, new_device, add, remove, find_by_id,
  is_trusted, verify_key, set_trust_level, update_last_seen, update_address, with_trust_level,
  with_address, seen, get_devices_with_addresses,
}
use yoop.Trust.Devices.{
  IsUnique, changed_at, add-IsUnique, changes_named, remove-IsUnique, verify_key_exact,
}

-- A disk with one file
abbrev one_file : Storage TrustDatabase
one_file = record {
  Disk = Option TrustDatabase;
  parent = λ path. none;
  exists = λ path disk. elim disk [ none ↦ false | some _ ↦ true ];
  read_json = λ path disk. disk;
  create_dir_all = λ path disk. (true, disk);
  create = λ path disk. (true, disk);
  to_writer_pretty = λ path db disk. (true, some db);
  drop_writer = λ path disk. (true, disk);
  read_written = λ path db disk wrote dropped. (refl, refl);
}

abbrev laptop : TrustedDevice
laptop = with_address 5 7 80 (new_device 5 1 (b'L' ∷ []) (b'k' ∷ []))

abbrev phone : TrustedDevice
phone = with_address 9 8 80 (new_device 9 2 (b'P' ∷ []) (b'p' ∷ []))

abbrev both : TrustStore
both = record { path = []; devices = laptop ∷ phone ∷ [] }

addresses_test : get_devices_with_addresses both ≡ phone ∷ laptop ∷ []
unfolding get_devices_with_addresses
addresses_test = refl

add-IsUnique_example :
    IsUnique (add one_file (with_trust_level full laptop) both none).0
    × ((id : ℕ)
        → find_by_id id (add one_file (with_trust_level full laptop) both none).0
          ≡ (if 1 == id then some (with_trust_level full laptop) else find_by_id id both))
unfolding find_device
add-IsUnique_example =
    add-IsUnique one_file (with_trust_level full laptop) both none (refl, (refl, tt))

changes_named_example :
    let a = set_trust_level one_file 1 full both none in
    let b = update_last_seen one_file 11 1 both none in
    let c = update_address one_file 11 1 6 90 both none in
    (IsUnique a.0 × IsUnique b.0 × IsUnique c.0)
    × ((id : ℕ)
        → (find_by_id id a.0 ≡ changed_at id 1 (with_trust_level full) both)
          × (find_by_id id b.0 ≡ changed_at id 1 (seen 11) both)
          × (find_by_id id c.0 ≡ changed_at id 1 (with_address 11 6 90) both))
    × (is_trusted 1 both ≡ false
        → (a ≡ (both, (none, ok false)))
          × (b ≡ (both, (none, ok false)))
          × (c ≡ (both, (none, ok false))))
unfolding find_device
changes_named_example = changes_named one_file 1 both none full 11 6 90 (refl, (refl, tt))

verify_key_exact_example :
    (verify_key 1 (b'k' ∷ []) both ≡ true)
    ↔ ((d : TrustedDevice) × In d both.devices × (d.device_id ≡ 1) × (d.public_key ≡ b'k' ∷ []))
unfolding find_device
verify_key_exact_example = verify_key_exact 1 (b'k' ∷ []) both (refl, (refl, tt))

remove-IsUnique_example :
    let after = remove one_file 1 both none in
    IsUnique after.0
    × ((id : ℕ) → find_by_id id after.0 ≡ (if 1 == id then none else find_by_id id both))
    × (is_trusted 1 both ≡ false → after ≡ (both, (none, ok false)))
unfolding find_device
remove-IsUnique_example = remove-IsUnique one_file 1 both none (refl, (refl, tt))
