-- ===== src/Protocol/Examples.antt =====
-- Tests of protocol/mod.rs, and the theorems about it at concrete inputs.
use yoop.Base.{
  ℕ, zero, suc, ap, ◌+◌, ◌≡◌, refl, some, List, [], ◌∷◌, ◌++◌, map, arith, length, drop, ok, err,
  protocol_error, invalid_magic, unknown_message_type, payload_too_large, chunk_too_short,
}
use yoop.Compression.{zstd, algorithm_from_byte}
use yoop.Protocol.{
  FrameHeader, ChunkDataPayload, SyncChunkPayload, max_payload_size, encode_header, decode_header,
  read_frame, write_frame, encode_chunk_data, decode_chunk_data, decode_sync_chunk,
}
use yoop.Protocol.Message.{MessageType, ping, hello, from_byte}
use yoop.Protocol.Bytes.{from_be_bytes}
use yoop.Protocol.Frames.{
  read_frames, write_frames, sent, read-write_frames, read_frame_too_large, encode-decode_header,
  IsAcceptable,
}
use yoop.Protocol.Chunks.{as_sent, decode-encode_chunk_data, encode-decode_chunk_data}

abbrev ping_header : FrameHeader
ping_header = record { version = (1, 0); message_type = ping; payload_length = 258 }

abbrev ping_bytes : List ℕ
ping_bytes = 0x4c ∷ 0x44 ∷ 0x52 ∷ 0x50 ∷ 1 ∷ 0 ∷ 0x30 ∷ 0 ∷ 0 ∷ 1 ∷ 2 ∷ []

test_ping : decode_header ping_bytes ≡ ok ping_header
unfolding decode_header from_byte from_be_bytes
test_ping = refl

encode-decode_header_example : (encode_header ping_header ≡ ping_bytes) × IsAcceptable ping_header
encode-decode_header_example =
    encode-decode_header ping_bytes ping_header (omega arith) refl test_ping

test_magic :
    decode_header (0 ∷ 0x44 ∷ 0x52 ∷ 0x50 ∷ 1 ∷ 0 ∷ 0x30 ∷ 0 ∷ 0 ∷ 1 ∷ 2 ∷ [])
    ≡ err (protocol_error invalid_magic)
unfolding decode_header from_byte from_be_bytes
test_magic = refl

test_unknown_type :
    decode_header (0x4c ∷ 0x44 ∷ 0x52 ∷ 0x50 ∷ 1 ∷ 0 ∷ 0x99 ∷ 0 ∷ 0 ∷ 1 ∷ 2 ∷ [])
    ≡ err (protocol_error (unknown_message_type 0x99))
unfolding decode_header from_byte from_be_bytes
test_unknown_type = refl

abbrev messages : List (MessageType × List ℕ)
messages = (hello, 123 ∷ 125 ∷ []) ∷ (ping, []) ∷ []

read-write_frames_example :
    read_frames 2 (drop 1 (write_frames (7 ∷ []) messages ++ 9 ∷ []))
    ≡ ok (map sent messages, 9 ∷ [])
read-write_frames_example =
    read-write_frames (7 ∷ []) (9 ∷ []) messages (omega arith, (omega arith, tt))

abbrev first_chunk : ChunkDataPayload
first_chunk = record {
  file_index = 3;
  chunk_index = 7;
  chunk = 1 ∷ 2 ∷ [];
  checksum = 99;
  compression = zstd;
  original_size = some 5;
}

decode-encode_chunk_data_example :
    decode_chunk_data (encode_chunk_data first_chunk) ≡ ok (as_sent first_chunk)
decode-encode_chunk_data_example = decode-encode_chunk_data first_chunk (omega arith)

abbrev chunk_bytes : List ℕ
chunk_bytes =
    0 ∷ 0 ∷ 0 ∷ 3 ∷ 0 ∷ 0 ∷ 0 ∷ 0 ∷ 0 ∷ 0 ∷ 0 ∷ 7 ∷ 0 ∷ 0 ∷ 0 ∷ 0 ∷ 0 ∷ 0 ∷ 0 ∷ 99 ∷ 1 ∷ 0 ∷ 0 ∷ 0
    ∷ 5 ∷ 1 ∷ 2 ∷ []

test_chunk : decode_chunk_data chunk_bytes ≡ ok first_chunk
unfolding decode_chunk_data algorithm_from_byte from_be_bytes
test_chunk = refl

test_chunk_short : decode_chunk_data (1 ∷ 2 ∷ []) ≡ err (protocol_error chunk_too_short)
unfolding decode_chunk_data algorithm_from_byte from_be_bytes
test_chunk_short = refl

encode-decode_chunk_data_example : encode_chunk_data first_chunk ≡ chunk_bytes
encode-decode_chunk_data_example =
    encode-decode_chunk_data chunk_bytes first_chunk (omega arith) test_chunk

abbrev sync_chunk : SyncChunkPayload
sync_chunk = record { op_id = 2; chunk_index = 1; chunk = 5 ∷ []; checksum = 77 }

abbrev sync_bytes : List ℕ
sync_bytes = 0 ∷ 0 ∷ 0 ∷ 0 ∷ 0 ∷ 0 ∷ 0 ∷ 2 ∷ 0 ∷ 0 ∷ 0 ∷ 1 ∷ 0 ∷ 0 ∷ 0 ∷ 0 ∷ 0 ∷ 0 ∷ 0 ∷ 77 ∷ 5 ∷ []

test_sync_chunk : decode_sync_chunk sync_bytes ≡ ok sync_chunk
unfolding decode_sync_chunk from_be_bytes
test_sync_chunk = refl

zeros : ℕ → List ℕ
zeros zero = []
zeros (suc n) = 0 ∷ zeros n

length-zeros : (n : ℕ) → length (zeros n) ≡ n
unfolding zeros
length-zeros zero = refl
length-zeros (suc n) = ap suc (length-zeros n)

abbrev one_too_many : ℕ
one_too_many = max_payload_size + 1

read_frame_too_large_example :
    read_frame (write_frame [] ping (zeros one_too_many) ++ [])
    ≡ err (protocol_error (payload_too_large (length (zeros one_too_many))))
read_frame_too_large_example =
    read_frame_too_large ping (zeros one_too_many) [] (omega (arith, length-zeros one_too_many))
      (omega (arith, length-zeros one_too_many))
