-- ===== src/Files/Writing.antt =====
-- crates/yoop-core/src/file/mod.rs: what writing does to a disk whose calls succeed.
use yoop.Base.{
  ℕ, ◌+◌, ◌%◌, ◌^◌, ◌≡◌, ◌≢◌, refl, ◌∙◌, Option, none, some, List, [], ◌++◌, ==-self, length, ok,
}
use yoop.Storage.{Text}
use yoop.Files.{FileChunk, FileSystem, FileWriter, create_parent, new_writer, write_chunk, finalize}

-- No call fails.
pub record Reliable (fs : FileSystem) : Type 0 where
  pub creates_dir : (p : Text) (d : fs.Disk) → (e : fs.Disk) × (fs.create_dir_all p d ≡ some e)
  pub creates : (p : Text) (d : fs.Disk) → (e : fs.Disk) × (fs.create p d ≡ some e)
  pub appends : (p : Text) (xs : List ℕ) (d : fs.Disk) → (e : fs.Disk) × (fs.append p xs d ≡ some e)
  pub syncs : (p : Text) (d : fs.Disk) → (e : fs.Disk) × (fs.sync p d ≡ some e)

module _ (fs : FileSystem) where
  -- The bytes of every file are the same.
  abbrev pub Same : fs.Disk → fs.Disk → Type 0
  Same d e = (q : Text) → fs.content q e ≡ fs.content q d

  -- The bytes of every other file are the same.
  abbrev pub SameBut : Text → fs.Disk → fs.Disk → Type 0
  SameBut p d e = (q : Text) → p ≢ q → fs.content q e ≡ fs.content q d

  module _ (reliable : Reliable fs) where
    pub parent-Same :
        (o : Option Text) (d : fs.Disk) → (e : fs.Disk) × (create_parent fs o d ≡ some e) × Same d e
    parent-Same none d = (d, refl, λ q. refl)
    parent-Same (some p) d =
        let (e, h) = reliable.creates_dir p d in (e, h, λ q. fs.content_dir p q d e h)

    -- A new writer has an empty file, and leaves the other files as they were.
    pub new_writer-SameBut :
        (path : Text) (size : ℕ) (d : fs.Disk)
        → (e : fs.Disk) × (new_writer fs path size d
            ≡ ok (
              record { output_path = path; expected_size = size; bytes_written = 0; hashed = [] },
              e,
            ))
          × (fs.content path e ≡ some [])
          × SameBut path d e
    unfolding new_writer
    new_writer-SameBut path size d =
        let (d₁, h₁, same) = parent-Same (fs.parent path) d in
        let (d₂, h₂) = reliable.creates path d₁ in
        (
          d₂,
          rw (h₁, h₂) refl,
          fs.content_create path d₁ d₂ h₂,
          λ q ne. fs.content_create_ne path q d₁ d₂ h₂ ne ∙ same q,
        )

    -- A chunk whose checksum is right goes to the end of the file.
    pub write_chunk-SameBut :
        (xxhash64 : List ℕ → ℕ) (w : FileWriter) (c : FileChunk) (xs : List ℕ) (d : fs.Disk)
        → xxhash64 c.bytes ≡ c.checksum
        → fs.content w.output_path d ≡ some xs
        → (e : fs.Disk) × (write_chunk fs xxhash64 w c d
            ≡ ok (
              record w {
                hashed = w.hashed ++ c.bytes;
                bytes_written = (w.bytes_written + length c.bytes) % 2 ^ 64;
              },
              e,
            ))
          × (fs.content w.output_path e ≡ some (xs ++ c.bytes))
          × SameBut w.output_path d e
    unfolding write_chunk
    write_chunk-SameBut xxhash64 w c xs d right before =
        let (e, h) = reliable.appends w.output_path c.bytes d in
        (
          e,
          rw (right, ==-self c.checksum, h) refl,
          fs.content_append w.output_path xs c.bytes d e h before,
          λ q ne. fs.content_append_ne w.output_path q c.bytes d e h ne,
        )

    pub finalize-Same :
        (sha256 : List ℕ → List ℕ) (w : FileWriter) (d : fs.Disk)
        → (e : fs.Disk) × (finalize fs sha256 w d ≡ ok (sha256 w.hashed, e)) × Same d e
    unfolding finalize
    finalize-Same sha256 w d =
        let (e, h) = reliable.syncs w.output_path d in
        (e, rw h refl, λ q. fs.content_sync w.output_path q d e h)
