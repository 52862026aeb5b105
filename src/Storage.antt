-- ===== src/Storage.antt =====
-- What crates/yoop-core/src/history/mod.rs and crates/yoop-core/src/trust/mod.rs do alike: a store
-- that is one JSON file. The file system, and serde's JSON, are parameters.
use yoop.Base.{
  ℕ, ◌≡◌, Bool, true, false, Option, none, some, List, Result, ok, err, config_error, arith,
  Bool-cases, inl, inr, sym, ap, ◌∙◌, subst,
}

-- The text of a string or of a path
abbrev pub Text : Type 0
Text = List ℕ

-- The calls of `std::fs` and `serde_json` and their effect on the disk; a step returns whether it
-- succeeded. `to_writer_pretty` stands for the writing through `BufWriter`, and `drop_writer` for its
-- drop, which writes what is still in the buffer; whether that succeeds, no caller learns. The law is
-- that a file that was written in full reads as what was written.
pub record Storage (Database : Type 0) : Type 1 where
  pub Disk : Type 0
  pub parent : Text → Option Text
  pub exists : Text → Disk → Bool
  pub read_json : Text → Disk → Option Database
  pub create_dir_all : Text → Disk → Bool × Disk
  pub create : Text → Disk → Bool × Disk
  pub to_writer_pretty : Text → Database → Disk → Bool × Disk
  pub drop_writer : Text → Disk → Bool × Disk
  pub read_written :
      (path : Text) (db : Database) (disk : Disk)
      → (to_writer_pretty path db disk).0 ≡ true
      → (drop_writer path (to_writer_pretty path db disk).1).0 ≡ true
      → let after = (drop_writer path (to_writer_pretty path db disk).1).1 in
        (exists path after ≡ true) × (read_json path after ≡ some db)

module _ {Database : Type 0} (storage : Storage Database) where
  -- What a call leaves on the disk, and what it returns
  abbrev pub Io : Type 0 → Type 0
  Io A = storage.Disk × Result A

  create_parent : Option Text → storage.Disk → Bool × storage.Disk
  create_parent none disk = (true, disk)
  create_parent (some dir) disk = storage.create_dir_all dir disk

  -- The writer is dropped at the end, after an error too.
  finish : Text → Bool × storage.Disk → Io (Unit {0})
  finish path (true, disk) = ((storage.drop_writer path disk).1, ok tt)
  finish path (false, disk) = ((storage.drop_writer path disk).1, err config_error)

  write_created : Text → Database → Bool × storage.Disk → Io (Unit {0})
  unfolding finish
  write_created path db (true, disk) = finish path (storage.to_writer_pretty path db disk)
  write_created path db (false, disk) = (disk, err config_error)

  write_file : Text → Database → Bool × storage.Disk → Io (Unit {0})
  unfolding write_created
  write_file path db (true, disk) = write_created path db (storage.create path disk)
  write_file path db (false, disk) = (disk, err config_error)

  unfoldable pub save : Text → Database → storage.Disk → Io (Unit {0})
  unfolding create_parent write_file
  save path db disk = write_file path db (create_parent (storage.parent path) disk)

  -- Whatever was written, dropping the writer of this file writes the rest of it.
  abbrev pub Drops : Text → Type 0
  Drops path = (disk : storage.Disk) → (storage.drop_writer path disk).0 ≡ true

  finish-read :
      (path : Text) (db : Database) (disk after : storage.Disk)
      → Drops path
      → finish path (storage.to_writer_pretty path db disk) ≡ (after, ok tt)
      → (storage.exists path after ≡ true) × (storage.read_json path after ≡ some db)
  unfolding finish
  finish-read path db disk after drops h =
      elim (Bool-cases (storage.to_writer_pretty path db disk).0) [
        | inl wrote ↦
            let e = storage.to_writer_pretty path db disk in
            subst (λ x. (storage.exists path x ≡ true) × (storage.read_json path x ≡ some db))
              (ap (λ r. r.0) (sym (ap (λ b. finish path (b, e.1)) wrote) ∙ h))
              (storage.read_written path db disk wrote (drops e.1))
        | inr unwritten ↦ absurd (
            ground (
              arith,
              sym (ap (λ b. finish path (b, (storage.to_writer_pretty path db disk).1)) unwritten)
                  ∙ h,
            ))
      ]

  created-read :
      (path : Text) (db : Database) (created : Bool × storage.Disk) (after : storage.Disk)
      → Drops path
      → write_created path db created ≡ (after, ok tt)
      → (storage.exists path after ≡ true) × (storage.read_json path after ≡ some db)
  unfolding write_created
  created-read path db (true, disk) after drops h = finish-read path db disk after drops h
  created-read path db (false, disk) after drops h = absurd (ground (arith, h))

  file-read :
      (path : Text) (db : Database) (ready : Bool × storage.Disk) (after : storage.Disk)
      → Drops path
      → write_file path db ready ≡ (after, ok tt)
      → (storage.exists path after ≡ true) × (storage.read_json path after ≡ some db)
  unfolding write_file
  file-read path db (true, disk) after drops h =
      created-read path db (storage.create path disk) after drops h
  file-read path db (false, disk) after drops h = absurd (ground (arith, h))

  -- What was saved without an error is read back, if the drop of the writer writes what is left.
  pub read-save :
      (path : Text) (db : Database) (disk after : storage.Disk)
      → Drops path
      → save path db disk ≡ (after, ok tt)
      → (storage.exists path after ≡ true) × (storage.read_json path after ≡ some db)
  unfolding save
  read-save path db disk after drops h =
      file-read path db (create_parent (storage.parent path) disk) after drops h
