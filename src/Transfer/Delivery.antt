-- ===== src/Transfer/Delivery.antt =====
-- crates/yoop-core/src/transfer/mod.rs: what the receiver's disk holds when a transfer has ended.
use yoop.Base.{
  Bool-cases, inl, inr, ℕ, suc, ◌^◌, ◌≤◌, ◌<◌, ◌≡◌, ◌≢◌, refl, sym, ap, ◌∙◌, true, false, Option,
  none, some, List, [], ◌∷◌, length, All, Result, ok, err, arith, get_elem?,
}
use yoop.Storage.{Text}
use yoop.Files.{FileMetadata, FileChunk, FileSystem, Reader, read_chunks}
use yoop.Files.Chunks.{joined, read_chunks_total}
use yoop.Files.Writing.{Reliable}
use yoop.Compression.{CompressionAlgorithm}
use yoop.Transfer.Wire.{Codecs, Frame, Session}
use yoop.Transfer.Sender.{
  Zstd, Source, ShareSession, send_marker, send_file, send_files, find_file_path, send_read,
  read_file, file_should_compress,
}
use yoop.Transfer.Receiver.{ReceiveSession, Receiving, Phase, same_index}
use yoop.Transfer.Arrival.{
  number_bound, running, open_at, output, marked_at, directory-delivered, empty-delivered,
  chunked-delivered,
}

module _ (fs : FileSystem) (codecs : Codecs) (xxhash64 : List ℕ → ℕ) (sha256 : List ℕ → List ℕ)
    (hmac_sha256 : List ℕ → List ℕ → List ℕ) (reader : Reader) (z : Zstd) (src : Source)
    (session : ReceiveSession) (word : (xs : List ℕ) → xxhash64 xs < 2 ^ 64)
    (reliable : Reliable fs) where
  abbrev pub target : FileMetadata → Text
  target = output fs codecs xxhash64 sha256 hmac_sha256 reader z src session word reliable

  abbrev pub going :
      Session
      → List FileMetadata
      → Receiving
      → fs.Disk
      → Result (Unit {0}) × Phase fs × fs.Disk × List Frame
  going = running fs codecs xxhash64 sha256 hmac_sha256 reader z src session word reliable

  -- The bytes of a file on the sender's side
  abbrev pub source_bytes : FileMetadata → Option (List ℕ)
  source_bytes file = elim (find_file_path src file.relative_path) [
    | err e ↦ none
    | ok path ↦ src.bytes path
  ]

  source-found :
      (file : FileMetadata) (path : Text)
      → find_file_path src file.relative_path ≡ ok path
      → source_bytes file ≡ src.bytes path
  source-found file path h = rw (h, source_bytes) refl

  -- A file is found and can be read, and its size is a 64-bit number.
  abbrev pub Readable : FileMetadata → Type 0
  Readable file =
      file.is_directory ≡ false
      → (path : Text) × (bytes : List ℕ) × (find_file_path src file.relative_path ≡ ok path)
        × (src.bytes path ≡ some bytes)
        × (length bytes ≤ 2 ^ 64)

  abbrev pub Arrived : fs.Disk → FileMetadata → Type 0
  Arrived e file = file.is_directory ≡ false → fs.content (target file) e ≡ source_bytes file

  abbrev pub NotAt : Text → FileMetadata → Type 0
  NotAt q file = file.is_directory ≡ false → target file ≢ q

  module _ (s : ShareSession) (negotiated : Option CompressionAlgorithm) where
    abbrev sends : ℕ → FileMetadata → Session → Session
    sends = send_file codecs xxhash64 hmac_sha256 reader z src s negotiated

    sends-directory :
        (i : ℕ) (file : FileMetadata) (next : Session)
        → file.is_directory ≡ true
        → sends i file next ≡ send_marker codecs xxhash64 hmac_sha256 reader z src i next
    unfolding send_file
    sends-directory i file next dir = rw (dir, send_file) refl

    sends-chunks :
        (i : ℕ) (file : FileMetadata) (path : Text) (bytes : List ℕ) (chunks : List FileChunk)
        (next : Session)
        → file.is_directory ≡ false
        → find_file_path src file.relative_path ≡ ok path
        → src.bytes path ≡ some bytes
        → read_chunks xxhash64 reader (suc (length bytes)) s.chunk_size bytes i ≡ some chunks
        → sends i file next
          ≡ send_read codecs xxhash64 hmac_sha256 reader z src s negotiated i path chunks next
    unfolding send_file read_file
    sends-chunks i file path bytes chunks next dir found here cut =
        rw (dir, send_file, found, read_file, here, cut) refl

    abbrev FileDelivered :
        List FileMetadata → Receiving → ℕ → FileMetadata → fs.Disk → Session → Session → Type 0
    FileDelivered files st i file d this next =
        (st' : Receiving) × (e : fs.Disk) × (st'.current_file_index ≡ some i)
        × Arrived e file
        × ((q : Text) → NotAt q file → fs.content q e ≡ fs.content q d)
        × (going this files st d ≡ going next files st' e)

    read-delivered :
        (files : List FileMetadata) (st : Receiving) (i : ℕ) (file : FileMetadata) (path : Text)
        (chunks : List FileChunk) (d : fs.Disk) (next : Session)
        → same_index fs codecs xxhash64 sha256 hmac_sha256 z session st.current_file_index i ≡ false
        → get_elem? files i ≡ some file
        → file.is_directory ≡ false
        → All (λ c. c.chunk_index < 2 ^ 64) chunks
        → source_bytes file ≡ some (joined chunks)
        → FileDelivered files st i file d
            (send_read codecs xxhash64 hmac_sha256 reader z src s negotiated i path chunks next)
            next
    unfolding send_read
    read-delivered files st i file path [] d next new at dir h bytes =
        let (e, after, others, run) =
          empty-delivered fs codecs xxhash64 sha256 hmac_sha256 reader z src session word reliable
            files st i file d next new at dir in
        (
          (marked_at fs codecs xxhash64 sha256 hmac_sha256 reader z src session word reliable) i,
          e,
          refl,
          λ _. after ∙ sym bytes,
          λ q ne. others q (ne dir),
          run,
        )
    read-delivered files st i file path (c ∷ chunks) d next new at dir h bytes =
        let b =
          file_should_compress codecs xxhash64 hmac_sha256 reader z src s.compression negotiated
            path c.bytes in
        let (w, e, after, others, run) =
          chunked-delivered fs codecs xxhash64 sha256 hmac_sha256 reader z src session word reliable
            files st i file b s.compression_level c chunks d next new at dir h in
        (
          (open_at fs codecs xxhash64 sha256 hmac_sha256 reader z src session word reliable) w i,
          e,
          refl,
          λ _. after ∙ sym bytes,
          λ q ne. others q (ne dir),
          run,
        )

    file-delivered :
        (files : List FileMetadata) (st : Receiving) (i : ℕ) (file : FileMetadata) (d : fs.Disk)
        (next : Session)
        → 0 < s.chunk_size
        → same_index fs codecs xxhash64 sha256 hmac_sha256 z session st.current_file_index i ≡ false
        → get_elem? files i ≡ some file
        → Readable file
        → FileDelivered files st i file d (sends i file next) next
    file-delivered files st i file d next size new at readable =
        elim (Bool-cases file.is_directory) [
          | inl dir ↦
              let (e, same, run) =
                directory-delivered fs codecs xxhash64 sha256 hmac_sha256 reader z src session word
                  reliable files st i file d next new at dir in
              (
                (marked_at fs codecs xxhash64 sha256 hmac_sha256 reader z src session word reliable)
                    i,
                e,
                refl,
                λ no. absurd (ground (arith, dir, no)),
                λ q _. same q,
                ap (λ t. going t files st d) (sends-directory i file next dir) ∙ run,
              )
          | inr dir ↦
              let (path, bytes, found, here, long) = readable dir in
              let (chunks, cut, all, good) =
                read_chunks_total xxhash64 reader s.chunk_size i bytes size in
              let (st', e, current, arrived, others, run) =
                read-delivered files st i file path chunks d next new at dir
                  (number_bound xxhash64 i s.chunk_size 0 chunks good
                    (omega (arith, long, ap length all)))
                  (source-found file path found ∙ here ∙ ap some (sym all)) in
              (
                st',
                e,
                current,
                arrived,
                others,
                ap (λ t. going t files st d)
                      (sends-chunks i file path bytes chunks next dir found here cut)
                    ∙ run,
              )
        ]

    -- The files of a list from a position on
    abbrev pub At : List FileMetadata → ℕ → List FileMetadata → Type 0
    At files i [] = Unit {0}
    At files i (file ∷ rest) = (get_elem? files i ≡ some file) × At files (suc i) rest

    At-shift :
        (x : FileMetadata) (files rest : List FileMetadata) (i : ℕ)
        → At files i rest
        → At (x ∷ files) (suc i) rest
    At-shift x files [] i h = tt
    At-shift x files (file ∷ rest) i h = (h.0, At-shift x files rest (suc i) h.1)

    pub At-whole : (files : List FileMetadata) → At files 0 files
    At-whole [] = tt
    At-whole (file ∷ files) = (refl, At-shift file files files 0 (At-whole files))

    -- No two files have the same target path.
    abbrev pub Apart : List FileMetadata → Type 0
    Apart [] = Unit {0}
    Apart (file ∷ rest) =
        All (λ later. file.is_directory ≡ false → NotAt (target file) later) rest × Apart rest

    All-apply :
        (file : FileMetadata) (rest : List FileMetadata)
        → file.is_directory ≡ false
        → All (λ later. file.is_directory ≡ false → NotAt (target file) later) rest
        → All (NotAt (target file)) rest
    All-apply file [] h a = tt
    All-apply file (later ∷ rest) h a = (a.0 h, All-apply file rest h a.1)

    pub files-delivered :
        (files : List FileMetadata) (i : ℕ) (rest : List FileMetadata) (st : Receiving)
        (d : fs.Disk) (next : Session)
        → 0 < s.chunk_size
        → At files i rest
        → ((j : ℕ)
            → i ≤ j
            → same_index fs codecs xxhash64 sha256 hmac_sha256 z session st.current_file_index j
              ≡ false)
        → All Readable rest
        → Apart rest
        → (st' : Receiving) × (e : fs.Disk) × All (Arrived e) rest
          × ((q : Text) → All (NotAt q) rest → fs.content q e ≡ fs.content q d)
          × (going
                (send_files codecs xxhash64 hmac_sha256 reader z src s negotiated i rest next)
                files
                st
                d
              ≡ going next files st' e)
    unfolding send_files
    files-delivered files i [] st d next size at new readable apart = (st, d, tt, λ q _. refl, refl)
    files-delivered files i (file ∷ rest) st d next size at new readable apart =
        let after =
          send_files codecs xxhash64 hmac_sha256 reader z src s negotiated (suc i) rest next in
        let (st₁, d₁, current, arrived, others, run) =
          file-delivered files st i file d after size (new i (omega arith)) at.0 readable.0 in
        let (st₂, d₂, arrived₂, others₂, run₂) =
          files-delivered files (suc i) rest st₁ d₁ next size at.1
            (λ j le. rw current (ground (arith, le))) readable.1 apart.1 in
        (
          st₂,
          d₂,
          (
            λ regular.
                others₂ (target file) (All-apply file rest regular apart.0) ∙ arrived regular,
            arrived₂,
          ),
          λ q ne. others₂ q ne.1 ∙ others q ne.0,
          run ∙ run₂,
        )
