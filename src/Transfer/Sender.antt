-- ===== src/Transfer/Sender.antt =====
-- crates/yoop-core/src/transfer/mod.rs: `ShareSession::wait` from the TLS connection on. Progress
-- reports are left out.
use yoop.Base.{
  ℕ, suc, zero, ◌≡◌, ◌%◌, ◌^◌, ◌+◌, Bool, true, false, ◌&&◌, ◌||◌, Option, none, some, List, [],
  ◌∷◌, ltb, ◌==◌, if◌then◌else◌, length, Result, ok, err, session_error, unexpected_message,
  checksum_mismatch, receiver_failed, file_not_found, out_of_rounds, code_not_found,
  transfer_rejected, io, file_system,
}
use yoop.Storage.{Text}
use yoop.Files.{FileMetadata, FileChunk, Reader, read_chunks, io_call}
use yoop.Compression.{
  CompressionAlgorithm, uncompressed, zstd, CompressionCapabilities, with_zstd, negotiate,
}
use yoop.Protocol.Message as Message
use yoop.Protocol.Message.{MessageType, as_byte}
use yoop.Protocol.{ChunkDataPayload, encode_chunk_data}
use yoop.Transfer.Wire.{
  HelloPayload, Codecs, Frame, same_type, Session, write_frame, read_frame, done, send, receive,
}

pub data CompressionMode : Type 0 where
  auto always never : CompressionMode

pub data CompressionDecision : Type 0 where
  compress_file skip_file test_first_chunk : CompressionDecision

-- The zstd library, and what the crate computes from it in floating point; `incompressible` looks
-- the extension of a path up in the list of such extensions.
pub record Zstd : Type 0 where
  pub compress : ℕ → List ℕ → Option (List ℕ)
  pub decompress : List ℕ → Option (List ℕ)
  pub should_compress : List ℕ → Bool
  pub incompressible : Text → Bool
  pub decompress_compress :
      (level : ℕ) (xs ys : List ℕ) → compress level xs ≡ some ys → decompress ys ≡ some xs

-- The sender's files: `std::path` and `std::fs` on the paths that it shares
pub record Source : Type 0 where
  pub file_paths : List Text
  pub is_file : Text → Bool
  pub is_dir : Text → Bool
  pub exists : Text → Bool
  pub file_name : Text → Option Text
  pub ends_with : Text → Text → Bool
  pub join : Text → Text → Text
  pub bytes : Text → Option (List ℕ)

pub record ShareSession : Type 0 where
  pub files : List FileMetadata
  pub device_name : Text
  pub device_id : ℕ
  pub public_key : Text
  pub session_key : List ℕ
  pub code : List ℕ
  pub chunk_size : ℕ
  pub compression : CompressionMode
  pub compression_level : ℕ

unfoldable pub should_compress_file : Zstd → Text → CompressionMode → CompressionDecision
should_compress_file z path never = skip_file
should_compress_file z path always = compress_file
should_compress_file z path auto = if z.incompressible path then skip_file else test_first_chunk

unfoldable pub compression_capabilities : ShareSession → Option CompressionCapabilities
compression_capabilities s = elim s.compression [
  | never ↦ none
  | auto ↦ some (with_zstd s.compression_level)
  | always ↦ some (with_zstd s.compression_level)
]

unfoldable pub negotiated_compression :
    ShareSession → Option CompressionCapabilities → Option CompressionAlgorithm
negotiated_compression s theirs = elim (compression_capabilities s) [
  | none ↦ none
  | some ours ↦ elim theirs [ none ↦ none | some caps ↦ negotiate ours caps ]
]

-- `result |= x ^ y` for the rest of both, where only whether `result` is 0 is kept
unfoldable pub differs : Bool → List ℕ → List ℕ → Bool
differs result (x ∷ xs) (y ∷ ys) = differs (result || (if x == y then false else true)) xs ys
differs result _ _ = result

-- `constant_time_eq` of crates/yoop-core/src/crypto/mod.rs
unfoldable pub constant_time_eq : List ℕ → List ℕ → Bool
unfolding differs
constant_time_eq a b =
    if length a == length b then (if differs false a b then false else true) else false

-- The first path with the property
find_path : (Text → Bool) → List Text → Option Text
find_path p [] = none
find_path p (x ∷ paths) = let rest = find_path p paths in if p x then some x else rest

unfoldable pub same_text : Text → Text → Bool
same_text [] [] = true
same_text (x ∷ xs) (y ∷ ys) = let rest = same_text xs ys in if x == y then rest else false
same_text _ _ = false

-- A shared file of that name, or whose path ends in it
named_file : Source → Text → Text → Bool
named_file src relative path = src.is_file path && elim (src.file_name path) [
  | none ↦ false
  | some name ↦ same_text name relative || src.ends_with path relative
]

in_directory : Source → Text → List Text → Result Text
in_directory src relative [] = err (session_error file_not_found)
in_directory src relative (base ∷ paths) =
    let rest = in_directory src relative paths in
    if src.is_dir base && src.exists (src.join base relative)
    then ok (src.join base relative)
    else rest

search_paths : Source → Text → Result Text
unfolding find_path named_file same_text in_directory
search_paths src relative = elim (find_path (named_file src relative) src.file_paths) [
  | some path ↦ ok path
  | none ↦ in_directory src relative src.file_paths
]

unfoldable pub find_file_path : Source → Text → Result Text
unfolding search_paths
find_file_path src relative = elim src.file_paths [
  | path ∷ [] ↦ if src.is_file path then ok path else search_paths src relative
  | _ ↦ search_paths src relative
]

module _ (codecs : Codecs) (xxhash64 : List ℕ → ℕ) (hmac_sha256 : List ℕ → List ℕ → List ℕ)
    (reader : Reader) (z : Zstd) (src : Source) where
  -- A `ChunkStart` with no chunks, and its acknowledgment
  unfoldable pub send_marker : ℕ → Session → Session
  send_marker file_index next =
      send codecs.chunk_start Message.chunk_start
        (record { file_index = file_index; chunk_index = 0; total_chunks = 0 })
        (receive codecs.chunk_ack Message.chunk_ack
          (λ ack. if ack.success then next else done (err (session_error receiver_failed))))

  -- What is sent of a chunk: the data, the algorithm, and the size before compression, which wraps
  -- at 32 bits
  unfoldable pub wire_data : Bool → ℕ → List ℕ → List ℕ × CompressionAlgorithm × Option ℕ
  wire_data file_should_compress level bytes =
      if file_should_compress
      then elim (z.compress level bytes) [
        | none ↦ (bytes, uncompressed, none)
        | some compressed ↦
            if ltb (length compressed) (length bytes)
            then (compressed, zstd, some (length bytes % 2 ^ 32))
            else (bytes, uncompressed, none)
      ]
      else (bytes, uncompressed, none)

  abbrev pub payload_of : ℕ → ℕ → List ℕ × CompressionAlgorithm × Option ℕ → ChunkDataPayload
  payload_of file_index chunk_index wire = record {
    file_index = file_index;
    chunk_index = chunk_index;
    chunk = wire.0;
    checksum = xxhash64 wire.0;
    compression = wire.1;
    original_size = wire.2;
  }

  unfoldable pub chunk_payload : Bool → ℕ → ℕ → FileChunk → ChunkDataPayload
  chunk_payload file_should_compress level file_index chunk =
      payload_of file_index chunk.chunk_index (wire_data file_should_compress level chunk.bytes)

  unfoldable pub send_chunk : Bool → ℕ → ℕ → ℕ → FileChunk → Session → Session
  send_chunk file_should_compress level file_index total_chunks chunk next =
      send codecs.chunk_start Message.chunk_start
        (record {
          file_index = file_index;
          chunk_index = chunk.chunk_index;
          total_chunks = total_chunks;
        })
        (write_frame
          (
            Message.chunk_data,
            encode_chunk_data (chunk_payload file_should_compress level file_index chunk),
          )
          (receive codecs.chunk_ack Message.chunk_ack (λ ack.
            if ack.success
            then next
            else done (err (session_error (checksum_mismatch chunk.chunk_index))))))

  unfoldable pub send_chunks : Bool → ℕ → ℕ → ℕ → List FileChunk → Session → Session
  send_chunks file_should_compress level file_index total_chunks [] next = next
  send_chunks file_should_compress level file_index total_chunks (c ∷ chunks) next =
      send_chunk file_should_compress level file_index total_chunks c
        (send_chunks file_should_compress level file_index total_chunks chunks next)

  unfoldable pub file_should_compress :
      CompressionMode → Option CompressionAlgorithm → Text → List ℕ → Bool
  file_should_compress mode negotiated path first_chunk = elim negotiated [
    | none ↦ false
    | some _ ↦ elim mode [
      | never ↦ false
      | auto ↦ decide (should_compress_file z path auto)
      | always ↦ decide (should_compress_file z path always)
    ]
  ]
    where
      decide : CompressionDecision → Bool
      decide compress_file = true
      decide skip_file = false
      decide test_first_chunk = z.should_compress first_chunk

  -- The chunks of a file that was found; the reading of it fails with the operating system's error,
  -- and has a round for each byte and one more.
  unfoldable pub read_file : ℕ → ℕ → Text → Result (List FileChunk)
  read_file chunk_size file_index path = elim (src.bytes path) [
    | none ↦ err (io file_system)
    | some file ↦
        io_call (read_chunks xxhash64 reader (suc (length file)) chunk_size file file_index)
  ]

  unfoldable pub send_read :
      ShareSession → Option CompressionAlgorithm → ℕ → Text → List FileChunk → Session → Session
  send_read s negotiated file_index path [] next = send_marker file_index next
  send_read s negotiated file_index path (c ∷ chunks) next =
      send_chunks (file_should_compress s.compression negotiated path c.bytes) s.compression_level
        file_index (length (c ∷ chunks)) (c ∷ chunks) next

  unfoldable pub send_file :
      ShareSession → Option CompressionAlgorithm → ℕ → FileMetadata → Session → Session
  send_file s negotiated file_index file next =
      if file.is_directory
      then send_marker file_index next
      else elim (find_file_path src file.relative_path) [
        | err e ↦ done (err e)
        | ok path ↦ elim (read_file s.chunk_size file_index path) [
          | err e ↦ done (err e)
          | ok chunks ↦ send_read s negotiated file_index path chunks next
        ]
      ]

  unfoldable pub send_files :
      ShareSession → Option CompressionAlgorithm → ℕ → List FileMetadata → Session → Session
  send_files s negotiated file_index [] next = next
  send_files s negotiated file_index (file ∷ files) next =
      send_file s negotiated file_index file (send_files s negotiated (suc file_index) files next)

  unfoldable pub do_transfer : ShareSession → Option CompressionAlgorithm → Session
  do_transfer s negotiated =
      send_files s negotiated 0 s.files (write_frame (Message.transfer_complete, []) (done (ok tt)))

  -- The body of the loop of `do_file_list_exchange`; `again` is what is done after a ping.
  unfoldable pub list_reply : Session → Session → Frame → Session
  list_reply again next frame =
      if same_type frame.0 Message.file_list_ack
      then elim (codecs.file_list_ack.decode frame.1) [
        | err e ↦ done (err e)
        | ok ack ↦ if ack.accepted then next else done (err (session_error transfer_rejected))
      ]
      else if same_type frame.0 Message.ping
      then again
      else done (err (session_error (unexpected_message (as_byte frame.0))))

  -- The loop, with a bound on its rounds
  unfoldable pub await_file_list_ack : ℕ → Session → Session
  await_file_list_ack zero next = done (err (session_error out_of_rounds))
  await_file_list_ack (suc rounds) next = read_frame (λ frame.
      list_reply (write_frame (Message.pong, []) (await_file_list_ack rounds next)) next frame)

  abbrev pub sum_sizes : List FileMetadata → ℕ
  sum_sizes [] = 0
  sum_sizes (f ∷ files) = f.size + sum_sizes files

  unfoldable pub do_file_list_exchange : ℕ → ShareSession → Session → Session
  do_file_list_exchange rounds s next =
      send codecs.file_list Message.file_list
        (record { files = s.files; total_size = sum_sizes s.files % 2 ^ 64 })
        (await_file_list_ack rounds next)

  abbrev pub invalid_code : Text
  invalid_code =
      b'I' ∷ b'n' ∷ b'v' ∷ b'a' ∷ b'l' ∷ b'i' ∷ b'd' ∷ b' ' ∷ b'c' ∷ b'o' ∷ b'd' ∷ b'e' ∷ []

  unfoldable pub do_code_verification : ShareSession → Session → Session
  do_code_verification s next = receive codecs.code_verify Message.code_verify (λ verify.
      let success = constant_time_eq verify.code_hmac (hmac_sha256 s.session_key s.code) in
      send codecs.code_verify_ack Message.code_verify_ack
        (record { success = success; error_text = if success then none else some invalid_code })
        (if success then next else done (err (session_error code_not_found))))

  unfoldable pub do_handshake : ShareSession → (HelloPayload → Session) → Session
  do_handshake s next =
      send codecs.hello Message.hello
        (record {
          device_name = s.device_name;
          protocol_version = b'1' ∷ b'.' ∷ b'0' ∷ [];
          device_id = some s.device_id;
          public_key = some s.public_key;
          compression = compression_capabilities s;
        })
        (receive codecs.hello Message.hello_ack next)

  -- From the accepted connection on; `rounds` bounds the answers to pings.
  unfoldable pub wait : ℕ → ShareSession → Session
  wait rounds s = do_handshake s (λ ack.
      do_code_verification s
        (do_file_list_exchange rounds s (do_transfer s (negotiated_compression s ack.compression))))
