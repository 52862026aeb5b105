-- ===== src/Files/Examples.antt =====
-- A file system in memory, and runs of the chunking on a concrete file.
use yoop.Base.{
  ℕ, ◌≡◌, refl, sym, ap, ◌∙◌, true, false, Option, none, some, List, [], ◌∷◌, ◌++◌, min, arith,
  ℕ_discrete, lookup, insert, lookup-insert_self, lookup-insert_ne,
}
use yoop.Storage.{Text}
use yoop.Files.{FileChunk, FileSystem, Reader, read_chunks}
use yoop.Files.Chunks.{joined, IsChunks, read_chunks_total}
use yoop.Files.Writing.{Reliable}

-- As many bytes as there are and fit
abbrev pub full_reads : Reader
full_reads = record {
  read = min;
  read_bound = λ buffer ahead. omega arith;
  read_some = λ buffer ahead h k. omega (arith, h, k);
}

abbrev pub Text-discrete : Discrete Text
Text-discrete = hlevel ℕ_discrete

abbrev pub Memory : Type 0
Memory = List (Text × List ℕ)

abbrev pub or_empty : Option (List ℕ) → List ℕ
or_empty none = []
or_empty (some xs) = xs

pub some_eq : {A : Type 0} (a b : A) → some a ≡ some b → a ≡ b
some_eq a b h = ap (λ o. elim o [ none ↦ a | some x ↦ x ]) h

abbrev pub memory : FileSystem
memory = record {
  Disk = Memory;
  join = λ dir name. dir ++ b'/' ∷ name;
  parent = λ path. none;
  create_dir_all = λ path d. some d;
  create = λ path d. some (insert Text-discrete path [] d);
  append = λ path xs d.
      some (insert Text-discrete path (or_empty (lookup Text-discrete path d) ++ xs) d);
  sync = λ path d. some d;
  set_permissions = λ path mode d. d;
  content = lookup Text-discrete;
  content_dir = λ p q d e h. ap (lookup Text-discrete q) (sym (some_eq d e h));
  content_create = λ p d e h.
      ap (lookup Text-discrete p) (sym (some_eq _ e h)) ∙ lookup-insert_self Text-discrete p [] d;
  content_create_ne = λ p q d e h ne.
      ap (lookup Text-discrete q) (sym (some_eq _ e h))
      ∙ lookup-insert_ne Text-discrete p q [] d ne;
  content_append = λ p xs ys d e h before.
      ap (lookup Text-discrete p) (sym (some_eq _ e h))
      ∙ lookup-insert_self Text-discrete p _ d
      ∙ ap (λ o. some (or_empty o ++ ys)) before;
  content_append_ne = λ p q ys d e h ne.
      ap (lookup Text-discrete q) (sym (some_eq _ e h)) ∙ lookup-insert_ne Text-discrete p q _ d ne;
  content_sync = λ p q d e h. ap (lookup Text-discrete q) (sym (some_eq d e h));
  content_permissions = λ p q mode d. refl;
}

pub memory-Reliable : Reliable memory
memory-Reliable = record {
  creates_dir = λ p d. (d, refl);
  creates = λ p d. (_, refl);
  appends = λ p xs d. (_, refl);
  syncs = λ p d. (d, refl);
}

abbrev pub constant_hash : List ℕ → ℕ
constant_hash xs = 7

read_chunks_test :
    read_chunks constant_hash full_reads 4 2 (1 ∷ 2 ∷ 3 ∷ []) 5
    ≡ some (
        record {
          file_index = 5;
          chunk_index = 0;
          bytes = 1 ∷ 2 ∷ [];
          checksum = 7;
          is_last = false;
        }
        ∷ record { file_index = 5; chunk_index = 1; bytes = 3 ∷ []; checksum = 7; is_last = true }
        ∷ [])
unfolding read_chunks yoop.Files.chunks_loop
read_chunks_test = refl

read_chunks_total_example :
    (chunks : List FileChunk) × (read_chunks constant_hash full_reads 4 2 (1 ∷ 2 ∷ 3 ∷ []) 5
      ≡ some chunks)
    × (joined chunks ≡ 1 ∷ 2 ∷ 3 ∷ [])
    × IsChunks constant_hash 5 2 0 chunks
read_chunks_total_example =
    read_chunks_total constant_hash full_reads 2 5 (1 ∷ 2 ∷ 3 ∷ []) (omega arith)
