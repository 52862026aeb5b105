-- ===== src/Files/Chunks.antt =====
-- crates/yoop-core/src/file/mod.rs: `FileChunker::read_chunks` cuts a file into its chunks.
use yoop.Base.{
  ℕ, zero, suc, ◌+◌, ◌≤◌, ◌<◌, ◌≡◌, refl, sym, ap, ◌∙◌, Bool, true, false, some, List, [], ◌∷◌,
  ◌++◌, leb, ◌==◌, length, take, drop, length-take, length-drop, take-append-drop, arith,
}
use yoop.Files.{FileChunk, Reader, chunks_loop, read_chunks}

-- The bytes of the chunks, one after the other
abbrev pub joined : List FileChunk → List ℕ
joined [] = []
joined (c ∷ chunks) = c.bytes ++ joined chunks

abbrev pub is_nil {ℓ} : {A : Type ℓ} → List A → Bool
is_nil [] = true
is_nil (x ∷ xs) = false

-- Chunks of one file, numbered from a first index, none empty, none above the chunk size, each with
-- the hash of its bytes, and the last one marked.
abbrev pub IsChunks : (List ℕ → ℕ) → ℕ → ℕ → ℕ → List FileChunk → Type 0
IsChunks xxhash64 file_index chunk_size first [] = Unit {0}
IsChunks xxhash64 file_index chunk_size first (c ∷ chunks) =
    (c.file_index ≡ file_index)
    × (c.chunk_index ≡ first)
    × (0 < length c.bytes)
    × (length c.bytes ≤ chunk_size)
    × (c.checksum ≡ xxhash64 c.bytes)
    × (c.is_last ≡ is_nil chunks)
    × IsChunks xxhash64 file_index chunk_size (suc first) chunks

not_zero : (n : ℕ) → 0 < n → (n == 0) ≡ false
not_zero n h = ground (arith, h)

is_nil-length : (xs : List ℕ) → is_nil xs ≡ (length xs == 0)
is_nil-length [] = refl
is_nil-length (x ∷ xs) = ground arith

last_mark :
    (n total file_size : ℕ) (ahead : List ℕ)
    → total + length ahead ≡ file_size
    → n ≤ length ahead
    → leb file_size (total + n) ≡ is_nil (drop n ahead)
last_mark n total file_size ahead s h =
    rw (is_nil-length (drop n ahead)) (ground (arith, s, h, length-drop n ahead))

module _ (xxhash64 : List ℕ → ℕ) (reader : Reader) where
  read_none : (chunk_size : ℕ) → reader.read chunk_size 0 ≡ 0
  read_none chunk_size = omega (arith, reader.read_bound chunk_size 0)

  loop_total :
      (rounds chunk_size file_index file_size first total : ℕ) (ahead : List ℕ)
      → 0 < chunk_size
      → total + length ahead ≡ file_size
      → length ahead < rounds
      → (chunks : List FileChunk) × (chunks_loop xxhash64 reader rounds chunk_size file_index
            file_size first total ahead
          ≡ some chunks)
        × (joined chunks ≡ ahead)
        × IsChunks xxhash64 file_index chunk_size first chunks
        × (is_nil chunks ≡ is_nil ahead)
  unfolding chunks_loop
  loop_total zero chunk_size file_index file_size first total ahead h s r =
      absurd (omega (arith, r))
  loop_total (suc rounds) chunk_size file_index file_size first total [] h s r =
      ([], rw (read_none chunk_size, chunks_loop) refl, refl, tt, refl)
  loop_total (suc rounds) chunk_size file_index file_size first total (b ∷ ahead) h s r =
      let n = reader.read chunk_size (length (b ∷ ahead)) in
      let bound = reader.read_bound chunk_size (length (b ∷ ahead)) in
      let more : 0 < n = reader.read_some chunk_size (length (b ∷ ahead)) h (omega arith) in
      let rest = length-drop n (b ∷ ahead) in
      let (chunks, same, all, good, ends) =
        loop_total rounds chunk_size file_index file_size (suc first) (total + n)
          (drop n (b ∷ ahead)) h (omega (arith, s, rest, bound))
          (omega (arith, r, rest, more, bound)) in
      (
        record {
          file_index = file_index;
          chunk_index = first;
          bytes = take n (b ∷ ahead);
          checksum = xxhash64 (take n (b ∷ ahead));
          is_last = leb file_size (total + n);
        }
            ∷ chunks,
        rw (not_zero n more, chunks_loop, same) refl,
        ap (λ xs. take n (b ∷ ahead) ++ xs) all ∙ take-append-drop n (b ∷ ahead),
        (
          refl,
          refl,
          omega (arith, length-take n (b ∷ ahead), more, bound),
          omega (arith, length-take n (b ∷ ahead), bound),
          refl,
          last_mark n total file_size (b ∷ ahead) s (omega (arith, bound)) ∙ sym ends,
          good,
        ),
        refl,
      )

  -- With a chunk size above 0, the loop ends after at most one round more than the file has bytes,
  -- however few bytes each read gives, and the chunks are the file: put together they have its bytes, they are numbered from 0, none is empty
  -- or above the chunk size, each carries the hash of its bytes, and only the last is marked.
  pub read_chunks_total :
      (chunk_size file_index : ℕ) (file : List ℕ)
      → 0 < chunk_size
      → (chunks : List FileChunk) × (read_chunks xxhash64 reader
            (suc (length file))
            chunk_size
            file
            file_index
          ≡ some chunks)
        × (joined chunks ≡ file)
        × IsChunks xxhash64 file_index chunk_size 0 chunks
  unfolding read_chunks
  read_chunks_total chunk_size file_index file h =
      let (chunks, same, all, good, _) =
        loop_total (suc (length file)) chunk_size file_index (length file) 0 0 file h (omega arith)
          (omega arith) in
      (chunks, same, all, good)
