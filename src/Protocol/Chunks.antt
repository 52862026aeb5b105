-- ===== src/Protocol/Chunks.antt =====
-- crates/yoop-core/src/protocol/mod.rs: the binary payloads of file chunks and sync chunks are read
-- back as they were written, and only written payloads are accepted.
use yoop.Base.{
  ℕ, zero, suc, ◌+◌, ◌%◌, ◌^◌, ◌≤◌, ◌<◌, ◌≡◌, refl, ap, Option, none, some, List, [], ◌∷◌, ◌++◌,
  arith, length, get_or, drop, All, All-take, All-drop, length-append, length-take, length-drop,
  take-append-drop,
}
use yoop.Base.{ok}
use Prim.Native.Nat.add
use yoop.Compression.{
  CompressionAlgorithm, uncompressed, zstd, algorithm_byte, algorithm_from_byte,
  algorithm_byte-algorithm_from_byte,
}
use yoop.Protocol.{
  ChunkDataPayload, SyncChunkPayload, slice, encode_chunk_data, decode_chunk_data,
  encode_sync_chunk, decode_sync_chunk,
}
use yoop.Protocol.Bytes.{
  from_be_bytes-lt, IsByte, to_be_bytes, from_be_bytes, length-to_be_bytes, from-to_be_bytes,
  to-from_be_bytes,
}

-- The values that the fields of Rust's types hold.
pub record IsSyncChunk (p : SyncChunkPayload) : Type 0 where
  pub op_id_word : p.op_id < 2 ^ 64
  pub chunk_index_word : p.chunk_index < 2 ^ 32
  pub checksum_word : p.checksum < 2 ^ 64

-- Every sync chunk is read back from its encoding.
pub decode-encode_sync_chunk :
    (p : SyncChunkPayload) → IsSyncChunk p → decode_sync_chunk (encode_sync_chunk p) ≡ ok p
unfolding decode_sync_chunk encode_sync_chunk
decode-encode_sync_chunk p v = fields
  where
    rest : List ℕ
    rest = encode_sync_chunk p

    at_op_id : slice rest 0 8 ≡ to_be_bytes 8 p.op_id
    at_op_id = unfold to_be_bytes in refl

    at_chunk_index : slice rest 8 4 ≡ to_be_bytes 4 p.chunk_index
    at_chunk_index = unfold to_be_bytes in refl

    at_checksum : slice rest 12 8 ≡ to_be_bytes 8 p.checksum
    at_checksum = unfold to_be_bytes in refl

    behind : drop 20 rest ≡ p.chunk
    behind = unfold to_be_bytes in refl

    fields : decode_sync_chunk rest ≡ ok p
    fields = ground (
      arith,
      v,
      length-append (to_be_bytes 8 p.op_id)
          (to_be_bytes 4 p.chunk_index ++ (to_be_bytes 8 p.checksum ++ p.chunk)),
      length-append (to_be_bytes 4 p.chunk_index) (to_be_bytes 8 p.checksum ++ p.chunk),
      length-append (to_be_bytes 8 p.checksum) p.chunk,
      length-to_be_bytes 8 p.op_id,
      length-to_be_bytes 4 p.chunk_index,
      length-to_be_bytes 8 p.checksum,
      at_op_id,
      at_chunk_index,
      at_checksum,
      behind,
      from-to_be_bytes 8 p.op_id v.op_id_word,
      from-to_be_bytes 4 p.chunk_index v.chunk_index_word,
      from-to_be_bytes 8 p.checksum v.checksum_word,
      ap from_be_bytes at_op_id,
      ap from_be_bytes at_chunk_index,
      ap from_be_bytes at_checksum,
    )

drop-drop : (a b : ℕ) (xs : List ℕ) → drop b (drop a xs) ≡ drop (a + b) xs
drop-drop zero b xs = rw add.zero
drop-drop (suc a) b [] = rw add.suc (drop_nil b)
  where
    drop_nil : (n : ℕ) → drop {A = ℕ} n [] ≡ []
    drop_nil zero = refl
    drop_nil (suc n) = refl
drop-drop (suc a) b (x ∷ xs) = rw add.suc (drop-drop a b xs)

-- A slice in front of what follows it.
slice-append-drop :
    (start size : ℕ) (xs : List ℕ) → slice xs start size ++ drop (start + size) xs ≡ drop start xs
slice-append-drop start size xs =
    rw (← drop-drop start size xs) (take-append-drop size (drop start xs))

-- The bytes of a number that was read from a slice.
slice_bytes :
    (start size : ℕ) (xs : List ℕ)
    → All IsByte xs
    → start + size ≤ length xs
    → to_be_bytes size (from_be_bytes (slice xs start size)) ≡ slice xs start size
slice_bytes start size xs h fits =
    to-from_be_bytes size (slice xs start size)
      (All-take IsByte size (drop start xs) (All-drop IsByte start xs h))
      (omega (arith, length-take size (drop start xs), length-drop start xs, fits))

-- An accepted sync chunk is the encoding of what was read.
pub encode-decode_sync_chunk :
    (buf : List ℕ) (p : SyncChunkPayload)
    → All IsByte buf
    → decode_sync_chunk buf ≡ ok p
    → encode_sync_chunk p ≡ buf
unfolding decode_sync_chunk encode_sync_chunk
encode-decode_sync_chunk buf p h e = ground (
  arith,
  e,
  slice_bytes 0 8 buf h,
  slice_bytes 8 4 buf h,
  slice_bytes 12 8 buf h,
  slice-append-drop 0 8 buf,
  slice-append-drop 8 4 buf,
  slice-append-drop 12 8 buf,
)

abbrev pub SizeFits : Option ℕ → Type 0
SizeFits none = Unit {0}
SizeFits (some n) = n < 2 ^ 32

-- The values that the fields of Rust's types hold; `file_index` is a `usize`.
pub record IsChunkData (p : ChunkDataPayload) : Type 0 where
  pub chunk_index_word : p.chunk_index < 2 ^ 64
  pub checksum_word : p.checksum < 2 ^ 64
  pub original_size_word : SizeFits p.original_size

-- The size that goes over the wire: none beside plain data, and 0 for one that is missing.
abbrev pub sent_size : CompressionAlgorithm → Option ℕ → Option ℕ
sent_size uncompressed size = none
sent_size zstd none = some 0
sent_size zstd (some n) = some n

-- A chunk as the receiver sees it.
abbrev pub as_sent : ChunkDataPayload → ChunkDataPayload
as_sent p = record p {
  file_index = p.file_index % 2 ^ 32;
  original_size = sent_size p.compression p.original_size;
}

-- Chunk data with its fields apart: the fixed fields, the algorithm's byte, and what follows it.
module _ (f i c : ℕ) (tail : List ℕ) (b : ℕ) where
  abbrev layout : List ℕ
  layout = to_be_bytes 4 f ++ (to_be_bytes 8 i ++ (to_be_bytes 8 c ++ (b ∷ tail)))

  at_file_index : slice layout 0 4 ≡ to_be_bytes 4 f
  unfolding to_be_bytes
  at_file_index = refl

  at_chunk_index : slice layout 4 8 ≡ to_be_bytes 8 i
  unfolding to_be_bytes
  at_chunk_index = refl

  at_checksum : slice layout 12 8 ≡ to_be_bytes 8 c
  unfolding to_be_bytes
  at_checksum = refl

  at_algorithm : get_or layout 20 0 ≡ b
  unfolding to_be_bytes
  at_algorithm = refl

  behind_algorithm : drop 21 layout ≡ tail
  unfolding to_be_bytes
  behind_algorithm = refl

  length-layout : length layout ≡ 21 + length tail
  unfolding to_be_bytes
  length-layout = omega arith

-- The rest of a compressed chunk.
module _ (f i c n : ℕ) (chunk : List ℕ) where
  abbrev sized_layout : List ℕ
  sized_layout = layout f i c (to_be_bytes 4 n ++ chunk) 1

  at_size : slice sized_layout 21 4 ≡ to_be_bytes 4 n
  unfolding to_be_bytes
  at_size = refl

  behind_size : drop 25 sized_layout ≡ chunk
  unfolding to_be_bytes
  behind_size = refl

  length-sized_layout : length sized_layout ≡ 25 + length chunk
  unfolding to_be_bytes
  length-sized_layout = omega arith

module _ (f i c : ℕ) (chunk : List ℕ) (f_word : f < 2 ^ 32) (i_word : i < 2 ^ 64)
    (c_word : c < 2 ^ 64) where
  decode_plain :
      decode_chunk_data (layout f i c chunk 0)
      ≡ ok (record {
        file_index = f;
        chunk_index = i;
        chunk = chunk;
        checksum = c;
        compression = uncompressed;
        original_size = none;
      })
  unfolding decode_chunk_data algorithm_from_byte
  decode_plain = ground (
    arith,
    ap from_be_bytes (at_file_index f i c chunk 0),
    ap from_be_bytes (at_chunk_index f i c chunk 0),
    ap from_be_bytes (at_checksum f i c chunk 0),
    at_algorithm f i c chunk 0,
    behind_algorithm f i c chunk 0,
    length-layout f i c chunk 0,
    from-to_be_bytes 4 f f_word,
    from-to_be_bytes 8 i i_word,
    from-to_be_bytes 8 c c_word,
  )

  decode_compressed :
      (n : ℕ)
      → n < 2 ^ 32
      → decode_chunk_data (sized_layout f i c n chunk)
        ≡ ok (record {
          file_index = f;
          chunk_index = i;
          chunk = chunk;
          checksum = c;
          compression = zstd;
          original_size = some n;
        })
  unfolding decode_chunk_data algorithm_from_byte
  decode_compressed n n_word = ground (
    arith,
    ap from_be_bytes (at_file_index f i c (to_be_bytes 4 n ++ chunk) 1),
    ap from_be_bytes (at_chunk_index f i c (to_be_bytes 4 n ++ chunk) 1),
    ap from_be_bytes (at_checksum f i c (to_be_bytes 4 n ++ chunk) 1),
    at_algorithm f i c (to_be_bytes 4 n ++ chunk) 1,
    ap from_be_bytes (at_size f i c n chunk),
    behind_size f i c n chunk,
    length-sized_layout f i c n chunk,
    from-to_be_bytes 4 f f_word,
    from-to_be_bytes 8 i i_word,
    from-to_be_bytes 8 c c_word,
    from-to_be_bytes 4 n n_word,
  )

decode_fields :
    (f i s : ℕ) (chunk : List ℕ) (c : CompressionAlgorithm) (size : Option ℕ)
    → i < 2 ^ 64
    → s < 2 ^ 64
    → SizeFits size
    → let p : ChunkDataPayload = record {
      file_index = f;
      chunk_index = i;
      chunk = chunk;
      checksum = s;
      compression = c;
      original_size = size;
    } in
      decode_chunk_data (encode_chunk_data p) ≡ ok (as_sent p)
unfolding encode_chunk_data algorithm_byte
decode_fields f i s chunk uncompressed size i_word s_word h =
    decode_plain (f % 2 ^ 32) i s chunk (omega arith) i_word s_word
decode_fields f i s chunk zstd none i_word s_word h =
    decode_compressed (f % 2 ^ 32) i s chunk (omega arith) i_word s_word 0 (omega arith)
decode_fields f i s chunk zstd (some n) i_word s_word h =
    decode_compressed (f % 2 ^ 32) i s chunk (omega arith) i_word s_word n h

-- Every chunk is read back from its encoding as it was, but that the file's index wraps at 32 bits,
-- that a size beside plain data is dropped, and that a missing size beside compressed data is 0.
pub decode-encode_chunk_data :
    (p : ChunkDataPayload)
    → IsChunkData p
    → decode_chunk_data (encode_chunk_data p) ≡ ok (as_sent p)
decode-encode_chunk_data p v =
    decode_fields p.file_index p.chunk_index p.checksum p.chunk p.compression p.original_size
      v.chunk_index_word v.checksum_word v.original_size_word

byte_at :
    (buf : List ℕ) (n b : ℕ)
    → n < length buf
    → get_or buf n 0 ≡ b
    → drop n buf ≡ b ∷ drop (suc n) buf
byte_at [] n b h e = elim h [ ]
byte_at (x ∷ xs) zero b h e = ap (λ y. y ∷ xs) e
byte_at (x ∷ xs) (suc n) b h e = byte_at xs n b (omega (arith, h)) e

slice_word :
    (start size : ℕ) (xs : List ℕ)
    → All IsByte xs
    → start + size ≤ length xs
    → from_be_bytes (slice xs start size) < 256 ^ size
slice_word start size xs h fits =
    from_be_bytes-lt size (slice xs start size)
      (All-take IsByte size (drop start xs) (All-drop IsByte start xs h))
      (omega (arith, length-take size (drop start xs), length-drop start xs, fits))

-- Accepted chunk data is the encoding of what was read.
pub encode-decode_chunk_data :
    (buf : List ℕ) (p : ChunkDataPayload)
    → All IsByte buf
    → decode_chunk_data buf ≡ ok p
    → encode_chunk_data p ≡ buf
unfolding decode_chunk_data encode_chunk_data
encode-decode_chunk_data buf p h e = ground (
  arith,
  e,
  algorithm_byte-algorithm_from_byte (get_or buf 20 0) p.compression,
  slice_bytes 0 4 buf h,
  slice_word 0 4 buf h,
  slice_bytes 4 8 buf h,
  slice_bytes 12 8 buf h,
  slice_bytes 21 4 buf h,
  slice-append-drop 0 4 buf,
  slice-append-drop 4 8 buf,
  slice-append-drop 12 8 buf,
  slice-append-drop 21 4 buf,
  byte_at buf 20 (get_or buf 20 0),
)
