-- ===== src/Transfer/Arrival.antt =====
-- crates/yoop-core/src/transfer/mod.rs: what one file of a transfer leaves on the
-- receiver's disk: a directory, an empty file, or one in chunks.
use yoop.Base.{
  session_error, receiver_failed, Option-cases, inl, inr, ℕ, suc, ◌+◌, ◌^◌, ◌≤◌, ◌<◌, ◌≡◌, refl,
  sym, ap, ◌∙◌, Bool, true, false, Option, none, some, List, [], ◌∷◌, ◌++◌, ◌==◌, ==-self, length,
  length-append, All, Result, ok, err, arith, if◌then◌else◌, append_assoc, append-nil, get_elem?,
}
use yoop.Storage.{Text}
use yoop.Files.{FileMetadata, FileChunk, FileSystem, FileWriter, Reader, new_writer, create_parent}
use yoop.Files.Chunks.{joined, IsChunks}
use yoop.Files.Writing.{Reliable, Same, SameBut, parent-Same, new_writer-SameBut, finalize-Same}
use yoop.Protocol.Message as Message
use yoop.Protocol.Message.{MessageType}
use yoop.Transfer.Wire.{
  Codecs, Frame, Session, done, encoded, receive, ChunkStartPayload, ChunkAckPayload,
}
use yoop.Transfer.Sender.{Zstd, Source, send_marker, send_chunks}
use yoop.Transfer.Receiver.{
  ReceiveSession, Receiving, Phase, await_chunk, Moved, finalize_writer, start_file,
  create_empty_file, handle_chunk_start, acknowledge_marker, handle, receive_frame, same_index,
}
use yoop.Transfer.Exchange.{move, runs, run-send, run-receive, chunk-delivered}

pub number_bound :
    (xxhash64 : List ℕ → ℕ) (i size first : ℕ) (chunks : List FileChunk)
    → IsChunks xxhash64 i size first chunks
    → first + length (joined chunks) ≤ 2 ^ 64
    → All (λ c. c.chunk_index < 2 ^ 64) chunks
number_bound xxhash64 i size first [] h b = tt
number_bound xxhash64 i size first (c ∷ chunks) h b =
    let long = length-append c.bytes (joined chunks) in
    (
      omega (arith, h.1, h.2, b, long),
      number_bound xxhash64 i size (suc first) chunks h.6 (omega (arith, h.2, b, long)),
    )

module _ (fs : FileSystem) (codecs : Codecs) (xxhash64 : List ℕ → ℕ) (sha256 : List ℕ → List ℕ)
    (hmac_sha256 : List ℕ → List ℕ → List ℕ) (reader : Reader) (z : Zstd) (src : Source)
    (session : ReceiveSession) (word : (xs : List ℕ) → xxhash64 xs < 2 ^ 64)
    (reliable : Reliable fs) where
  abbrev pub running :
      Session
      → List FileMetadata
      → Receiving
      → fs.Disk
      → Result (Unit {0}) × Phase fs × fs.Disk × List Frame
  running s files st d =
      runs fs codecs xxhash64 sha256 hmac_sha256 reader z src session s (await_chunk files st) d []

  abbrev pub open_at : FileWriter → ℕ → Receiving
  open_at w i = record { current_writer = some w; current_file_index = some i }

  start-same :
      (files : List FileMetadata) (w : FileWriter) (start : ChunkStartPayload) (d : fs.Disk)
      → handle_chunk_start fs codecs xxhash64 sha256 hmac_sha256 z session files
          (open_at w start.file_index)
          start
          d
        ≡ record { phase = await_chunk files (open_at w start.file_index); disk = d; written = [] }
  unfolding handle_chunk_start
  start-same files w start d = rw (==-self start.file_index) refl

  chunks-delivered :
      (files : List FileMetadata) (w : FileWriter) (i total : ℕ) (b : Bool) (level : ℕ)
      (chunks : List FileChunk) (xs : List ℕ) (d : fs.Disk) (next : Session)
      → All (λ c. c.chunk_index < 2 ^ 64) chunks
      → fs.content w.output_path d ≡ some xs
      → (w' : FileWriter) × (e : fs.Disk) × (w'.output_path ≡ w.output_path)
        × (fs.content w.output_path e ≡ some (xs ++ joined chunks))
        × SameBut fs w.output_path d e
        × (running
              (send_chunks codecs xxhash64 hmac_sha256 reader z src b level i total chunks next)
              files
              (open_at w i)
              d
            ≡ running next files (open_at w' i) e)
  unfolding send_chunks
  chunks-delivered files w i total b level [] xs d next h before =
      (w, d, refl, before ∙ ap some (sym (append-nil xs)), λ q ne. refl, refl)
  chunks-delivered files w i total b level (c ∷ chunks) xs d next h before =
      let rest = send_chunks codecs xxhash64 hmac_sha256 reader z src b level i total chunks next in
      let (w₁, d₁, path, after, others, first) =
        chunk-delivered fs codecs xxhash64 sha256 hmac_sha256 reader z src session word reliable
          files (open_at w i) w i total b level c xs d d rest h.0 before
          (start-same files w
            (record { file_index = i; chunk_index = c.chunk_index; total_chunks = total }) d) in
      let (w₂, d₂, path₂, after₂, others₂, more) =
        chunks-delivered files w₁ i total b level chunks (xs ++ c.bytes) d₁ next h.1
          (ap (λ p. fs.content p d₁) path ∙ after) in
      (
        w₂,
        d₂,
        path₂ ∙ path,
        ap (λ p. fs.content p d₂) (sym path)
            ∙ after₂
            ∙ ap some (append_assoc xs c.bytes (joined chunks)),
        λ q ne. others₂ q (λ e. ne (sym path ∙ e)) ∙ others q ne,
        first ∙ more,
      )

  -- A file that was being written is closed, and no byte changes.
  pub finalized :
      (o : Option FileWriter) (d : fs.Disk)
      → (e : fs.Disk) × (finalize_writer fs codecs xxhash64 sha256 hmac_sha256 z session o d ≡ ok e)
        × Same fs d e
  unfolding finalize_writer
  finalized none d = (d, refl, λ q. refl)
  finalized (some w) d =
      let (e, h, same) = finalize-Same fs reliable sha256 w d in (e, rw h refl, same)

  start-new :
      (files : List FileMetadata) (st : Receiving) (start : ChunkStartPayload) (file : FileMetadata)
      (d e : fs.Disk)
      → same_index fs codecs xxhash64 sha256 hmac_sha256 z session st.current_file_index
          start.file_index
        ≡ false
      → finalize_writer fs codecs xxhash64 sha256 hmac_sha256 z session st.current_writer d ≡ ok e
      → get_elem? files start.file_index ≡ some file
      → handle_chunk_start fs codecs xxhash64 sha256 hmac_sha256 z session files st start d
        ≡ start_file fs codecs xxhash64 sha256 hmac_sha256 z session files start file e
  unfolding handle_chunk_start
  start-new files st start file d e new h k = rw (new, h, k) refl

  abbrev pub output : FileMetadata → Text
  output file = fs.join session.output_dir file.relative_path

  start-file :
      (files : List FileMetadata) (start : ChunkStartPayload) (file : FileMetadata) (d e : fs.Disk)
      (w : FileWriter)
      → file.is_directory ≡ false
      → (start.total_chunks == 0) ≡ false
      → new_writer fs (output file) file.size d ≡ ok (w, e)
      → start_file fs codecs xxhash64 sha256 hmac_sha256 z session files start file d
        ≡ record { phase = await_chunk files (open_at w start.file_index); disk = e; written = [] }
  unfolding start_file
  start-file files start file d e w h k l = rw (h, k, l) refl

  start-directory :
      (files : List FileMetadata) (start : ChunkStartPayload) (file : FileMetadata) (d e : fs.Disk)
      → file.is_directory ≡ true
      → fs.create_dir_all (output file) d ≡ some e
      → start_file fs codecs xxhash64 sha256 hmac_sha256 z session files start file d
        ≡ acknowledge_marker fs codecs xxhash64 sha256 hmac_sha256 z session files start.file_index
            file
            (output file)
            e
  unfolding start_file
  start-directory files start file d e dir made = rw (dir, made) refl

  start-empty :
      (files : List FileMetadata) (start : ChunkStartPayload) (file : FileMetadata)
      (d d₁ e : fs.Disk)
      → file.is_directory ≡ false
      → start.total_chunks ≡ 0
      → create_parent fs (fs.parent (output file)) d ≡ some d₁
      → fs.create (output file) d₁ ≡ some e
      → start_file fs codecs xxhash64 sha256 hmac_sha256 z session files start file d
        ≡ acknowledge_marker fs codecs xxhash64 sha256 hmac_sha256 z session files start.file_index
            file
            (output file)
            e
  unfolding start_file create_empty_file
  start-empty files start file d d₁ e dir none_yet parent made =
      rw (dir, none_yet, parent, made) refl

  abbrev pub marked_at : ℕ → Receiving
  marked_at i = record { current_writer = none; current_file_index = some i }

  abbrev ack_of : ℕ → ChunkAckPayload
  ack_of i = record { file_index = i; chunk_index = 0; success = true }

  -- A marker is acknowledged, and no byte changes.
  acknowledged :
      (files : List FileMetadata) (i : ℕ) (file : FileMetadata) (d : fs.Disk) (payload : List ℕ)
      → codecs.chunk_ack.encode (ack_of i) ≡ ok payload
      → (e : fs.Disk) × (acknowledge_marker fs codecs xxhash64 sha256 hmac_sha256 z session files i
            file
            (output file)
            d
          ≡ record {
            phase = await_chunk files (marked_at i);
            disk = e;
            written = (Message.chunk_ack, payload) ∷ [];
          })
        × Same fs d e
  unfolding acknowledge_marker
  acknowledged files i file d payload h = elim (Option-cases file.permissions) [
    | inl n ↦ (d, rw (n, h) refl, λ q. refl)
    | inr (mode, m) ↦ (
      fs.set_permissions (output file) mode d,
      rw (m, h) refl,
      λ q. fs.content_permissions (output file) q mode d,
    )
  ]

  abbrev marker : ℕ → ChunkStartPayload
  marker i = record { file_index = i; chunk_index = 0; total_chunks = 0 }

  marker-delivered :
      (files : List FileMetadata) (st : Receiving) (i : ℕ) (d e : fs.Disk) (payload : List ℕ)
      (next : Session)
      → codecs.chunk_ack.decode payload ≡ ok (ack_of i)
      → handle_chunk_start fs codecs xxhash64 sha256 hmac_sha256 z session files st (marker i) d
        ≡ record {
          phase = await_chunk files (marked_at i);
          disk = e;
          written = (Message.chunk_ack, payload) ∷ [];
        }
      → running (send_marker codecs xxhash64 hmac_sha256 reader z src i next) files st d
        ≡ running next files (marked_at i) e
  unfolding send_marker handle receive_frame
  marker-delivered files st i d e payload next dec started =
      let (bytes, enc, dec') = encoded codecs.chunk_start (marker i) in
      let ack_next : ChunkAckPayload → Session =
        λ ack. if ack.success then next else done (err (session_error receiver_failed)) in
      let handled : move fs codecs xxhash64 sha256 hmac_sha256 reader z src session
            (await_chunk files st) (Message.chunk_start, bytes) d
          ≡ record {
            phase = await_chunk files (marked_at i);
            disk = e;
            written = (Message.chunk_ack, payload) ∷ [];
          } =
        rw (dec', receive_frame) started in
      let rest : Session = receive codecs.chunk_ack Message.chunk_ack ack_next in
      run-send fs codecs xxhash64 sha256 hmac_sha256 reader z src session codecs.chunk_start
        Message.chunk_start (marker i) rest (await_chunk files st) d [] bytes enc
      ∙ ap
          (λ (m : Moved fs).
            runs fs codecs xxhash64 sha256 hmac_sha256 reader z src session rest m.phase m.disk
              ([] ++ m.written))
          handled
      ∙ run-receive fs codecs xxhash64 sha256 hmac_sha256 reader z src session codecs.chunk_ack
          Message.chunk_ack (ack_of i) ack_next (await_chunk files (marked_at i)) e [] payload dec

  pub directory-delivered :
      (files : List FileMetadata) (st : Receiving) (i : ℕ) (file : FileMetadata) (d : fs.Disk)
      (next : Session)
      → same_index fs codecs xxhash64 sha256 hmac_sha256 z session st.current_file_index i ≡ false
      → get_elem? files i ≡ some file
      → file.is_directory ≡ true
      → (e : fs.Disk) × Same fs d e
        × (running (send_marker codecs xxhash64 hmac_sha256 reader z src i next) files st d
            ≡ running next files (marked_at i) e)
  directory-delivered files st i file d next new at dir =
      let (payload, enc, dec) = encoded codecs.chunk_ack (ack_of i) in
      let (d₁, closed, same₁) = finalized st.current_writer d in
      let (d₂, made) = reliable.creates_dir (output file) d₁ in
      let (d₃, marked, same₃) = acknowledged files i file d₂ payload enc in
      (
        d₃,
        λ q. same₃ q ∙ fs.content_dir (output file) q d₁ d₂ made ∙ same₁ q,
        marker-delivered files st i d d₃ payload next dec (
            start-new files st (marker i) file d d₁ new closed at
            ∙ start-directory files (marker i) file d₁ d₂ dir made
            ∙ marked),
      )

  pub empty-delivered :
      (files : List FileMetadata) (st : Receiving) (i : ℕ) (file : FileMetadata) (d : fs.Disk)
      (next : Session)
      → same_index fs codecs xxhash64 sha256 hmac_sha256 z session st.current_file_index i ≡ false
      → get_elem? files i ≡ some file
      → file.is_directory ≡ false
      → (e : fs.Disk) × (fs.content (output file) e ≡ some [])
        × SameBut fs (output file) d e
        × (running (send_marker codecs xxhash64 hmac_sha256 reader z src i next) files st d
            ≡ running next files (marked_at i) e)
  empty-delivered files st i file d next new at dir =
      let (payload, enc, dec) = encoded codecs.chunk_ack (ack_of i) in
      let (d₁, closed, same₁) = finalized st.current_writer d in
      let (d₂, parent, same₂) = parent-Same fs reliable (fs.parent (output file)) d₁ in
      let (d₃, made) = reliable.creates (output file) d₂ in
      let (d₄, marked, same₄) = acknowledged files i file d₃ payload enc in
      (
        d₄,
        same₄ (output file) ∙ fs.content_create (output file) d₂ d₃ made,
        λ q ne. same₄ q ∙ fs.content_create_ne (output file) q d₂ d₃ made ne ∙ same₂ q ∙ same₁ q,
        marker-delivered files st i d d₄ payload next dec (
            start-new files st (marker i) file d d₁ new closed at
            ∙ start-empty files (marker i) file d₁ d₂ d₃ dir refl parent made
            ∙ marked),
      )

  pub chunked-delivered :
      (files : List FileMetadata) (st : Receiving) (i : ℕ) (file : FileMetadata) (b : Bool)
      (level : ℕ) (c : FileChunk) (chunks : List FileChunk) (d : fs.Disk) (next : Session)
      → same_index fs codecs xxhash64 sha256 hmac_sha256 z session st.current_file_index i ≡ false
      → get_elem? files i ≡ some file
      → file.is_directory ≡ false
      → All (λ c. c.chunk_index < 2 ^ 64) (c ∷ chunks)
      → (w : FileWriter) × (e : fs.Disk) × (fs.content (output file) e ≡ some (joined (c ∷ chunks)))
        × SameBut fs (output file) d e
        × (running
              (send_chunks codecs xxhash64 hmac_sha256 reader z src b level i
                (length (c ∷ chunks))
                (c ∷ chunks)
                next)
              files
              st
              d
            ≡ running next files (open_at w i) e)
  unfolding send_chunks
  chunked-delivered files st i file b level c chunks d next new at dir h =
      let total = length (c ∷ chunks) in
      let start : ChunkStartPayload = record {
        file_index = i;
        chunk_index = c.chunk_index;
        total_chunks = total;
      } in
      let rest = send_chunks codecs xxhash64 hmac_sha256 reader z src b level i total chunks next in
      let (d₁, closed, same₁) = finalized st.current_writer d in
      let (d₂, made, empty, others₂) = new_writer-SameBut fs reliable (output file) file.size d₁ in
      let w : FileWriter = record {
        output_path = output file;
        expected_size = file.size;
        bytes_written = 0;
        hashed = [];
      } in
      let (w₃, d₃, path₃, after₃, others₃, first) =
        chunk-delivered fs codecs xxhash64 sha256 hmac_sha256 reader z src session word reliable
          files st w i total b level c [] d d₂ rest h.0 empty
          (start-new files st start file d d₁ new closed at
            ∙ start-file files start file d₁ d₂ w dir (ground arith) made) in
      let (w₄, d₄, path₄, after₄, others₄, more) =
        chunks-delivered files w₃ i total b level chunks c.bytes d₃ next h.1
          (ap (λ p. fs.content p d₃) path₃ ∙ after₃) in
      (
        w₄,
        d₄,
        ap (λ p. fs.content p d₄) (sym path₃) ∙ after₄,
        λ q ne. others₄ q (λ e. ne (sym path₃ ∙ e)) ∙ others₃ q ne ∙ others₂ q ne ∙ same₁ q,
        first ∙ more,
      )
