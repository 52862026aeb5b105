-- ===== src/Transfer/Exchange.antt =====
-- crates/yoop-core/src/transfer/mod.rs: one chunk on its way, from the frames that the sender writes to
-- the receiver's disk and back to the sender.
use yoop.Base.{
  session_error, checksum_mismatch, ◌⊎◌, inl, inr, Option-cases, Bool-cases, ℕ, ◌+◌, ◌%◌, ◌^◌, ◌<◌,
  ◌≡◌, refl, sym, ap, ◌∙◌, subst, Bool, true, false, Option, none, some, List, [], ◌∷◌, ◌++◌,
  ==-self, length, Result, ok, err, arith, if◌then◌else◌, ltb,
}
use yoop.Files.{FileMetadata, FileChunk, FileSystem, FileWriter, Reader, write_chunk}
use yoop.Files.Writing.{Reliable, SameBut, write_chunk-SameBut}
use yoop.Compression.{uncompressed, zstd, CompressionAlgorithm}
use yoop.Protocol.{ChunkDataPayload, encode_chunk_data, decode_chunk_data}
use yoop.Protocol.Chunks.{IsChunkData, SizeFits, as_sent, decode-encode_chunk_data}
use yoop.Protocol.Message as Message
use yoop.Protocol.Message.{MessageType}
use yoop.Transfer.Wire.{
  Codec, Codecs, Frame, Session, write_frame, done, send, send-encoded, take_frame-decoded, receive,
  encoded, ChunkStartPayload, ChunkAckPayload,
}
use yoop.Transfer.Sender.{Zstd, Source, wire_data, payload_of, chunk_payload, send_chunk}
use yoop.Transfer.Receiver.{
  ReceiveSession, Receiving, Phase, await_chunk, Moved, handle, receive_frame, handle_chunk_start,
  handle_chunk_data, store_chunk, write_received, decompressed,
}
use yoop.Transfer.Network.{run}

module _ (fs : FileSystem) (codecs : Codecs) (xxhash64 : List ℕ → ℕ) (sha256 : List ℕ → List ℕ)
    (hmac_sha256 : List ℕ → List ℕ → List ℕ) (reader : Reader) (z : Zstd) (src : Source)
    (session : ReceiveSession) where
  abbrev pub move : Phase fs → Frame → fs.Disk → Moved fs
  move = handle fs codecs xxhash64 sha256 hmac_sha256 z session

  abbrev pub runs :
      Session
      → Phase fs
      → fs.Disk
      → List Frame
      → Result (Unit {0}) × Phase fs × fs.Disk × List Frame
  runs = run (Unit {0}) (Phase fs) fs.Disk move

  -- A run that goes on as another one
  pub run-send :
      {A : Type 0} (codec : Codec A) (t : MessageType) (a : A) (next : Session) (p : Phase fs)
      (d : fs.Disk) (o : List Frame) (payload : List ℕ)
      → codec.encode a ≡ ok payload
      → runs (send codec t a next) p d o
        ≡ runs next
            (move p (t, payload) d).phase
            (move p (t, payload) d).disk
            (o ++ (move p (t, payload) d).written)
  unfolding run
  run-send codec t a next p d o payload h =
      ap (λ s. runs s p d o) (send-encoded codec t a next payload h)

  pub run-receive :
      {A : Type 0} (codec : Codec A) (t : MessageType) (a : A) (next : A → Session) (p : Phase fs)
      (d : fs.Disk) (o : List Frame) (payload : List ℕ)
      → codec.decode payload ≡ ok a
      → runs (receive codec t next) p d ((t, payload) ∷ o) ≡ runs (next a) p d o
  unfolding run
  run-receive codec t a next p d o payload h =
      ap (λ s. runs s p d o) (take_frame-decoded codec t next payload a h)

  -- Either a chunk is sent as it is, or as what the library made of it.
  wire-cases :
      (b : Bool) (level : ℕ) (bytes : List ℕ)
      → (wire_data codecs xxhash64 hmac_sha256 reader z src b level bytes
          ≡ (bytes, uncompressed, none))
        ⊎ ((ys : List ℕ) × (z.compress level bytes ≡ some ys)
            × (wire_data codecs xxhash64 hmac_sha256 reader z src b level bytes
                ≡ (ys, zstd, some (length bytes % 2 ^ 32))))
  unfolding wire_data
  wire-cases false level bytes = inl refl
  wire-cases true level bytes = elim (Option-cases (z.compress level bytes)) [
    | inl h ↦ inl (rw (h, wire_data) refl)
    | inr (ys, h) ↦ elim (Bool-cases (ltb (length ys) (length bytes))) [
      | inl s ↦ inr (ys, h, rw (h, wire_data, s) refl)
      | inr s ↦ inl (rw (h, wire_data, s) refl)
    ]
  ]

  -- The bytes of a chunk come out of what is sent of it.
  decompressed-wire_data :
      (b : Bool) (level f : ℕ) (c : FileChunk)
      → decompressed fs codecs xxhash64 sha256 hmac_sha256 z session
          (as_sent (chunk_payload codecs xxhash64 hmac_sha256 reader z src b level f c))
        ≡ ok c.bytes
  unfolding decompressed chunk_payload
  decompressed-wire_data b level f c =
      let wire = wire_data codecs xxhash64 hmac_sha256 reader z src b level c.bytes in
      let unpack : List ℕ × CompressionAlgorithm × Option ℕ → Result (List ℕ) = λ w.
        decompressed fs codecs xxhash64 sha256 hmac_sha256 z session
          (as_sent (payload_of codecs xxhash64 hmac_sha256 reader z src f c.chunk_index w)) in
      elim (wire-cases b level c.bytes) [
        | inl e ↦ ap unpack e
        | inr (ys, h, e) ↦ ap unpack e ∙ rw (z.decompress_compress level c.bytes ys h) refl
      ]

  -- Chunk data that is intact is stored.
  handle-stored :
      (files : List FileMetadata) (st : Receiving) (data_payload bytes : List ℕ)
      (sent : ChunkDataPayload) (d : fs.Disk)
      → decode_chunk_data data_payload ≡ ok sent
      → xxhash64 sent.chunk ≡ sent.checksum
      → decompressed fs codecs xxhash64 sha256 hmac_sha256 z session sent ≡ ok bytes
      → move (await_chunk files st) (Message.chunk_data, data_payload) d
        ≡ store_chunk fs codecs xxhash64 sha256 hmac_sha256 z session files st sent bytes d
  unfolding handle receive_frame handle_chunk_data
  handle-stored files st data_payload bytes sent d h k l = rw (h, k, ==-self sent.checksum, l) refl

  store-acknowledged :
      (files : List FileMetadata) (st : Receiving) (sent : ChunkDataPayload) (bytes : List ℕ)
      (w : FileWriter) (d e : fs.Disk) (payload : List ℕ)
      → write_received fs codecs xxhash64 sha256 hmac_sha256 z session st.current_writer
          (record {
            file_index = sent.file_index;
            chunk_index = sent.chunk_index;
            bytes = bytes;
            checksum = xxhash64 bytes;
            is_last = false;
          })
          d
        ≡ some (w, e)
      → codecs.chunk_ack.encode
          (record { file_index = sent.file_index; chunk_index = sent.chunk_index; success = true })
        ≡ ok payload
      → store_chunk fs codecs xxhash64 sha256 hmac_sha256 z session files st sent bytes d ≡ record {
        phase = await_chunk files (record st { current_writer = some w });
        disk = e;
        written = (Message.chunk_ack, payload) ∷ [];
      }
  unfolding store_chunk
  store-acknowledged files st sent bytes w d e payload h k = rw (h, store_chunk, k) refl

  payload-checksum :
      (b : Bool) (level f : ℕ) (c : FileChunk)
      → xxhash64 (chunk_payload codecs xxhash64 hmac_sha256 reader z src b level f c).chunk
        ≡ (chunk_payload codecs xxhash64 hmac_sha256 reader z src b level f c).checksum
  unfolding chunk_payload
  payload-checksum b level f c = refl

  write_received-ok :
      (files : List FileMetadata) (w : FileWriter) (c : FileChunk) (r : FileWriter × fs.Disk)
      (d : fs.Disk)
      → write_chunk fs xxhash64 w c d ≡ ok r
      → write_received fs codecs xxhash64 sha256 hmac_sha256 z session (some w) c d ≡ some r
  unfolding write_received
  write_received-ok files w c r d h = rw (h, write_received) refl

  module _ (word : (xs : List ℕ) → xxhash64 xs < 2 ^ 64) where
    payload-IsChunkData :
        (b : Bool) (level f : ℕ) (c : FileChunk)
        → c.chunk_index < 2 ^ 64
        → IsChunkData (chunk_payload codecs xxhash64 hmac_sha256 reader z src b level f c)
    unfolding chunk_payload
    payload-IsChunkData b level f c h =
        let wire = wire_data codecs xxhash64 hmac_sha256 reader z src b level c.bytes in
        record {
          chunk_index_word = h;
          checksum_word = word wire.0;
          original_size_word = elim (wire-cases b level c.bytes) [
            | inl e ↦ subst (λ w. SizeFits w.2) (sym e) tt
            | inr (ys, _, e) ↦ subst (λ w. SizeFits w.2) (sym e) (omega arith)
          ];
        }

    module _ (reliable : Reliable fs) where
      -- The chunk frame of an open file: its bytes go to the end of the file, and the sender goes on.
      data-delivered :
          (files : List FileMetadata) (w : FileWriter) (i : ℕ) (b : Bool) (level : ℕ)
          (c : FileChunk) (xs : List ℕ) (d : fs.Disk) (ack_next : ChunkAckPayload → Session)
          → c.chunk_index < 2 ^ 64
          → fs.content w.output_path d ≡ some xs
          → let sent =
              as_sent (chunk_payload codecs xxhash64 hmac_sha256 reader z src b level i c) in
            (w' : FileWriter) × (e : fs.Disk) × (w'.output_path ≡ w.output_path)
            × (fs.content w.output_path e ≡ some (xs ++ c.bytes))
            × SameBut fs w.output_path d e
            × (runs
                  (write_frame
                    (
                      Message.chunk_data,
                      encode_chunk_data
                          (chunk_payload codecs xxhash64 hmac_sha256 reader z src b level i c),
                    )
                    (receive codecs.chunk_ack Message.chunk_ack ack_next))
                  (await_chunk files
                    (record { current_writer = some w; current_file_index = some i }))
                  d
                  []
                ≡ runs
                    (ack_next (record {
                      file_index = sent.file_index;
                      chunk_index = sent.chunk_index;
                      success = true;
                    }))
                    (await_chunk files
                      (record { current_writer = some w'; current_file_index = some i }))
                    e
                    [])
      unfolding run write_received
      data-delivered files w i b level c xs d ack_next iw before =
          let payload = chunk_payload codecs xxhash64 hmac_sha256 reader z src b level i c in
          let sent = as_sent payload in
          let st : Receiving = record { current_writer = some w; current_file_index = some i } in
          let chunk : FileChunk = record {
            file_index = sent.file_index;
            chunk_index = sent.chunk_index;
            bytes = c.bytes;
            checksum = xxhash64 c.bytes;
            is_last = false;
          } in
          let (e, same, after, others) =
            write_chunk-SameBut fs reliable xxhash64 w chunk xs d refl before in
          let w' : FileWriter = record w {
            hashed = w.hashed ++ c.bytes;
            bytes_written = (w.bytes_written + length c.bytes) % 2 ^ 64;
          } in
          let a : ChunkAckPayload = record {
            file_index = sent.file_index;
            chunk_index = sent.chunk_index;
            success = true;
          } in
          let (ack_bytes, enc, dec) = encoded codecs.chunk_ack a in
          let handled =
            handle-stored files st (encode_chunk_data payload) c.bytes sent d
              (decode-encode_chunk_data payload (payload-IsChunkData b level i c iw))
              (payload-checksum b level i c) (decompressed-wire_data b level i c)
            ∙ store-acknowledged files st sent c.bytes w' d e ack_bytes
                (write_received-ok files w chunk (w', e) d same) enc in
          (
            w',
            e,
            refl,
            after,
            others,
            ap
                  (λ (m : Moved fs).
                    runs (receive codecs.chunk_ack Message.chunk_ack ack_next) m.phase m.disk
                      ([] ++ m.written))
                  handled
                ∙ run-receive codecs.chunk_ack Message.chunk_ack a ack_next _ e [] ack_bytes dec,
          )

      -- The two frames of a chunk, when the first of them leaves its file open
      pub chunk-delivered :
          (files : List FileMetadata) (st : Receiving) (w : FileWriter) (i total : ℕ) (b : Bool)
          (level : ℕ) (c : FileChunk) (xs : List ℕ) (d d₁ : fs.Disk) (next : Session)
          → c.chunk_index < 2 ^ 64
          → fs.content w.output_path d₁ ≡ some xs
          → handle_chunk_start fs codecs xxhash64 sha256 hmac_sha256 z session files st
              (record { file_index = i; chunk_index = c.chunk_index; total_chunks = total })
              d
            ≡ record {
              phase =
                  await_chunk files
                    (record { current_writer = some w; current_file_index = some i });
              disk = d₁;
              written = [];
            }
          → (w' : FileWriter) × (e : fs.Disk) × (w'.output_path ≡ w.output_path)
            × (fs.content w.output_path e ≡ some (xs ++ c.bytes))
            × SameBut fs w.output_path d₁ e
            × (runs
                  (send_chunk codecs xxhash64 hmac_sha256 reader z src b level i total c next)
                  (await_chunk files st)
                  d
                  []
                ≡ runs next
                    (await_chunk files
                      (record { current_writer = some w'; current_file_index = some i }))
                    e
                    [])
      unfolding send_chunk run handle receive_frame
      chunk-delivered files st w i total b level c xs d d₁ next iw before started =
          let start : ChunkStartPayload = record {
            file_index = i;
            chunk_index = c.chunk_index;
            total_chunks = total;
          } in
          let (bytes, enc, dec) = encoded codecs.chunk_start start in
          let ack_next : ChunkAckPayload → Session = λ ack.
            if ack.success
            then next
            else done (err (session_error (checksum_mismatch c.chunk_index))) in
          let (w', e, path, after, others, delivered) =
            data-delivered files w i b level c xs d₁ ack_next iw before in
          let rest : Session =
            write_frame
              (
                Message.chunk_data,
                encode_chunk_data
                    (chunk_payload codecs xxhash64 hmac_sha256 reader z src b level i c),
              )
              (receive codecs.chunk_ack Message.chunk_ack ack_next) in
          let opened : move (await_chunk files st) (Message.chunk_start, bytes) d ≡ record {
            phase =
                await_chunk files (record { current_writer = some w; current_file_index = some i });
            disk = d₁;
            written = [];
          } =
            rw (dec, receive_frame) started in
          (
            w',
            e,
            path,
            after,
            others,
            run-send codecs.chunk_start Message.chunk_start start rest (await_chunk files st) d []
                  bytes enc
                ∙ ap (λ (m : Moved fs). runs rest m.phase m.disk ([] ++ m.written)) opened
                ∙ delivered,
          )
