-- ===== src/Protocol.antt =====
-- crates/yoop-core/src/protocol/mod.rs: frames and binary chunk payloads. A byte slice is a list of
-- numbers; a reader is the list of bytes still to come, a writer the list of bytes written so far.
pub mod Message
pub mod Bytes
pub mod Frames
pub mod Chunks
mod Examples
use yoop.Base.{
  ℕ, ◌+◌, ◌*◌, ◌%◌, ◌^◌, ◌≡◌, Bool, true, false, Option, none, some, List, [], ◌∷◌, ◌++◌, ltb, ◌==◌,
  if◌then◌else◌, length, get_or, take, drop, ℕ_discrete, ite,
}
use yoop.Base.{
  Result, ok, err, ok_or, ◌>>=◌, Error, protocol_error, invalid_magic, unknown_message_type,
  payload_too_large, chunk_too_short, unknown_compression, compressed_chunk_too_short,
  sync_chunk_too_short, io, unexpected_eof,
}
use yoop.Compression.{CompressionAlgorithm, uncompressed, zstd, algorithm_byte, algorithm_from_byte}
use Message.{MessageType, as_byte, from_byte}
use Bytes.{to_be_bytes, from_be_bytes}

abbrev pub magic : List ℕ
magic = 0x4c ∷ 0x44 ∷ 0x52 ∷ 0x50 ∷ []

abbrev pub header_size : ℕ
header_size = 11

abbrev pub max_payload_size : ℕ
max_payload_size = 16 * 1024 * 1024

pub record FrameHeader : Type 0 where
  pub version : ℕ × ℕ
  pub message_type : MessageType
  pub payload_length : ℕ

-- `buf[a..b]` for a slice that is long enough
abbrev pub slice : List ℕ → ℕ → ℕ → List ℕ
slice buf start size = take size (drop start buf)

same_bytes : List ℕ → List ℕ → Bool
same_bytes [] [] = true
same_bytes (x ∷ xs) (y ∷ ys) = if x == y then same_bytes xs ys else false
same_bytes _ _ = false

unfoldable pub encode_header : FrameHeader → List ℕ
encode_header h =
    magic ++ h.version.0 ∷ h.version.1 ∷ as_byte h.message_type ∷ to_be_bytes 4 h.payload_length

-- The argument is an array of `header_size` bytes, so that no index is out of range.
unfoldable pub decode_header : List ℕ → Result FrameHeader
unfolding same_bytes
decode_header buf =
    if same_bytes (slice buf 0 4) magic
    then (do
      message_type ←
          ok_or (from_byte (get_or buf 6 0))
            (protocol_error (unknown_message_type (get_or buf 6 0)))
      let payload_length = from_be_bytes (slice buf 7 4)
      if ltb max_payload_size payload_length
          then err (protocol_error (payload_too_large payload_length))
          else ok (record {
            version = (get_or buf 4 0, get_or buf 5 0);
            message_type = message_type;
            payload_length = payload_length;
          }))
    else err (protocol_error invalid_magic)

-- `read_exact` of `n` bytes, and the bytes behind them
unfoldable pub read_exact : ℕ → List ℕ → Result (List ℕ × List ℕ)
read_exact n input =
    if ltb (length input) n then err (io unexpected_eof) else ok (take n input, drop n input)

unfoldable pub read_frame : List ℕ → Result ((FrameHeader × List ℕ) × List ℕ)
read_frame input = do
  (header_buf, rest) ← read_exact header_size input
  header ← decode_header header_buf
  if ltb 0 header.payload_length
      then (do
        (payload, rest') ← read_exact header.payload_length rest
        ok ((header, payload), rest'))
      else ok ((header, []), rest)

-- The header that `write_frame` sends; `payload.len() as u32` wraps.
unfoldable pub frame_header : MessageType → List ℕ → FrameHeader
frame_header message_type payload = record {
  version = (1, 0);
  message_type = message_type;
  payload_length = length payload % 2 ^ 32;
}

-- Writing to an open stream; its failures are those of the operating system.
unfoldable pub write_frame : List ℕ → MessageType → List ℕ → List ℕ
unfolding frame_header
write_frame output message_type payload =
    output ++ (encode_header (frame_header message_type payload) ++ payload)

pub record ChunkDataPayload : Type 0 where
  pub file_index : ℕ
  pub chunk_index : ℕ
  pub chunk : List ℕ
  pub checksum : ℕ
  pub compression : CompressionAlgorithm
  pub original_size : Option ℕ

original_size_bytes : CompressionAlgorithm → Option ℕ → List ℕ
original_size_bytes uncompressed size = []
original_size_bytes zstd none = to_be_bytes 4 0
original_size_bytes zstd (some size) = to_be_bytes 4 size

-- `file_index as u32` wraps.
unfoldable pub encode_chunk_data : ChunkDataPayload → List ℕ
unfolding original_size_bytes
encode_chunk_data p =
    to_be_bytes 4 (p.file_index % 2 ^ 32)
    ++ (to_be_bytes 8 p.chunk_index
        ++ (to_be_bytes 8 p.checksum
            ++ (algorithm_byte p.compression
                ∷ (original_size_bytes p.compression p.original_size ++ p.chunk))))

-- `original_size` and the data behind it
decode_sized : List ℕ → CompressionAlgorithm → Result (Option ℕ × List ℕ)
decode_sized buf uncompressed = ok (none, drop 21 buf)
decode_sized buf zstd =
    if ltb (length buf) 25
    then err (protocol_error compressed_chunk_too_short)
    else ok (some (from_be_bytes (slice buf 21 4)), drop 25 buf)

unfoldable pub decode_chunk_data : List ℕ → Result ChunkDataPayload
unfolding decode_sized
decode_chunk_data buf = if ltb (length buf) 21 then err (protocol_error chunk_too_short) else (do
  compression ←
      ok_or (algorithm_from_byte (get_or buf 20 0))
        (protocol_error (unknown_compression (get_or buf 20 0)))
  (original_size, chunk) ← decode_sized buf compression
  ok (record {
    file_index = from_be_bytes (slice buf 0 4);
    chunk_index = from_be_bytes (slice buf 4 8);
    chunk = chunk;
    checksum = from_be_bytes (slice buf 12 8);
    compression = compression;
    original_size = original_size;
  }))

pub record SyncChunkPayload : Type 0 where
  pub op_id : ℕ
  pub chunk_index : ℕ
  pub chunk : List ℕ
  pub checksum : ℕ

unfoldable pub encode_sync_chunk : SyncChunkPayload → List ℕ
encode_sync_chunk p =
    to_be_bytes 8 p.op_id ++ (to_be_bytes 4 p.chunk_index ++ (to_be_bytes 8 p.checksum ++ p.chunk))

unfoldable pub decode_sync_chunk : List ℕ → Result SyncChunkPayload
decode_sync_chunk buf =
    if ltb (length buf) 20
    then err (protocol_error sync_chunk_too_short)
    else ok (record {
      op_id = from_be_bytes (slice buf 0 8);
      chunk_index = from_be_bytes (slice buf 8 4);
      chunk = drop 20 buf;
      checksum = from_be_bytes (slice buf 12 8);
    })
