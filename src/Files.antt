-- ===== src/Files.antt =====
-- crates/yoop-core/src/file/mod.rs: what is known of a file, its chunks, and the writer that puts
-- them together again. A string or path is the list of its code points.
pub mod Chunks
pub mod Writing
pub mod Examples
use yoop.Base.{
  ℕ, zero, suc, ◌+◌, ◌-◌, ◌%◌, ◌^◌, ◌≤◌, ◌<◌, ◌≡◌, ◌≢◌, Bool, true, false, Option, none, some, List,
  [], ◌∷◌, ◌++◌, leb, ◌==◌, if◌then◌else◌, length, take, drop, min, Result, ok, err, ◌>>=◌, io,
  file_system, session_error, checksum_mismatch,
}
use yoop.Storage.{Text}

-- Without the preview
pub data PreviewType : Type 0 where
  thumbnail text_snippet archive_listing icon no_preview : PreviewType

-- The duration is the text of the floating-point number.
pub record PreviewMetadata : Type 0 where
  pub dimensions : Option (ℕ × ℕ)
  pub file_count : Option ℕ
  pub page_count : Option ℕ
  pub duration_secs : Option Text

-- crates/yoop-core/src/preview/mod.rs
pub record Preview : Type 0 where
  pub preview_type : PreviewType
  pub preview_data : Text
  pub preview_mime_type : Text
  pub original_size : ℕ
  pub preview_metadata : Option PreviewMetadata

pub record FileMetadata : Type 0 where
  pub relative_path : Text
  pub size : ℕ
  pub mime_type : Option Text
  pub created : Option ℕ
  pub modified : Option ℕ
  pub permissions : Option ℕ
  pub is_symlink : Bool
  pub symlink_target : Option Text
  pub is_directory : Bool
  pub preview : Option Preview

pub record FileChunk : Type 0 where
  pub file_index : ℕ
  pub chunk_index : ℕ
  pub bytes : List ℕ
  pub checksum : ℕ
  pub is_last : Bool

-- The call `file.read(&mut buffer)`: how many bytes it gives, of a buffer of the first size and a file
-- with the second number of bytes ahead. It may give fewer than there are, but some if it can.
pub record Reader : Type 0 where
  pub read : ℕ → ℕ → ℕ
  pub read_bound : (buffer ahead : ℕ) → read buffer ahead ≤ min buffer ahead
  pub read_some : (buffer ahead : ℕ) → 0 < buffer → 0 < ahead → 0 < read buffer ahead

module _ (xxhash64 : List ℕ → ℕ) (reader : Reader) where
  -- The loop of `read_chunks`, on the bytes ahead; `none` if it does not end in the given rounds.
  chunks_loop :
      (rounds chunk_size file_index file_size chunk_index bytes_read_total : ℕ)
      → List ℕ
      → Option (List FileChunk)
  chunks_loop zero chunk_size file_index file_size chunk_index bytes_read_total ahead = none
  chunks_loop (suc rounds) chunk_size file_index file_size chunk_index bytes_read_total ahead =
      let bytes_read = reader.read chunk_size (length ahead) in
      elim (bytes_read == 0) [
        | true ↦ some []
        | false ↦
            let total = bytes_read_total + bytes_read in
            elim (chunks_loop rounds chunk_size file_index file_size (suc chunk_index) total
              (drop bytes_read ahead)) [
                | none ↦ none
                | some chunks ↦ some (
                    record {
                      file_index = file_index;
                      chunk_index = chunk_index;
                      bytes = take bytes_read ahead;
                      checksum = xxhash64 (take bytes_read ahead);
                      is_last = leb file_size total;
                    }
                    ∷ chunks)
              ]
      ]

  -- The file's size is that of its bytes: it does not change while it is read.
  unfoldable pub read_chunks : (rounds chunk_size : ℕ) → List ℕ → ℕ → Option (List FileChunk)
  unfolding chunks_loop
  read_chunks rounds chunk_size file file_index =
      chunks_loop rounds chunk_size file_index (length file) 0 0 file

-- The calls of the file system below a writer and a receiver. `none` is a failure. A file that is
-- open for writing is known by its path; `append` is `write_all` at its end, `sync` is `flush` and
-- `sync_all`. The laws say what the calls do to the bytes of the files.
pub record FileSystem : Type 1 where
  pub Disk : Type 0
  pub join : Text → Text → Text
  pub parent : Text → Option Text
  pub create_dir_all : Text → Disk → Option Disk
  pub create : Text → Disk → Option Disk
  pub append : Text → List ℕ → Disk → Option Disk
  pub sync : Text → Disk → Option Disk
  pub set_permissions : Text → ℕ → Disk → Disk
  pub content : Text → Disk → Option (List ℕ)
  pub content_dir :
      (p q : Text) (d e : Disk) → create_dir_all p d ≡ some e → content q e ≡ content q d
  pub content_create : (p : Text) (d e : Disk) → create p d ≡ some e → content p e ≡ some []
  pub content_create_ne :
      (p q : Text) (d e : Disk) → create p d ≡ some e → p ≢ q → content q e ≡ content q d
  pub content_append :
      (p : Text) (xs ys : List ℕ) (d e : Disk)
      → append p ys d ≡ some e
      → content p d ≡ some xs
      → content p e ≡ some (xs ++ ys)
  pub content_append_ne :
      (p q : Text) (ys : List ℕ) (d e : Disk)
      → append p ys d ≡ some e
      → p ≢ q
      → content q e ≡ content q d
  pub content_sync : (p q : Text) (d e : Disk) → sync p d ≡ some e → content q e ≡ content q d
  pub content_permissions :
      (p q : Text) (mode : ℕ) (d : Disk) → content q (set_permissions p mode d) ≡ content q d

-- `hashed` is what the SHA-256 hasher was given.
pub record FileWriter : Type 0 where
  pub output_path : Text
  pub expected_size : ℕ
  pub bytes_written : ℕ
  pub hashed : List ℕ

-- A failed call of the file system is an error.
abbrev pub io_call : {A : Type 0} → Option A → Result A
io_call none = err (io file_system)
io_call (some a) = ok a

module _ (fs : FileSystem) where
  abbrev pub create_parent : Option Text → fs.Disk → Option fs.Disk
  create_parent none disk = some disk
  create_parent (some dir) disk = fs.create_dir_all dir disk

  unfoldable pub new_writer : Text → ℕ → fs.Disk → Result (FileWriter × fs.Disk)
  new_writer output_path expected_size disk = do
    disk₁ ← io_call (create_parent (fs.parent output_path) disk)
    disk₂ ← io_call (fs.create output_path disk₁)
    ok (
      record {
        output_path = output_path;
        expected_size = expected_size;
        bytes_written = 0;
        hashed = [];
      },
      disk₂,
    )

  -- `bytes_written` wraps at 64 bits in a release build.
  unfoldable pub write_chunk :
      (List ℕ → ℕ) → FileWriter → FileChunk → fs.Disk → Result (FileWriter × fs.Disk)
  write_chunk xxhash64 writer chunk disk =
      if xxhash64 chunk.bytes == chunk.checksum
      then (do
        disk' ← io_call (fs.append writer.output_path chunk.bytes disk)
        ok (
          record writer {
            hashed = writer.hashed ++ chunk.bytes;
            bytes_written = (writer.bytes_written + length chunk.bytes) % 2 ^ 64;
          },
          disk',
        ))
      else err (session_error (checksum_mismatch chunk.chunk_index))

  unfoldable pub finalize : (List ℕ → List ℕ) → FileWriter → fs.Disk → Result (List ℕ × fs.Disk)
  finalize sha256 writer disk = do
    disk' ← io_call (fs.sync writer.output_path disk)
    ok (sha256 writer.hashed, disk')

unfoldable pub is_complete : FileWriter → Bool
is_complete writer = leb writer.expected_size writer.bytes_written
