-- ===== src/Sync/Index.antt =====
-- crates/yoop-core/src/sync/index.rs: the index of the files in a synchronised directory. The hash
-- function `xxh64` of the crate `xxhash_rust` is a parameter.
pub mod Keyed
pub mod Upkeep
pub mod Diffing
use yoop.Base.{
  ℕ, ◌+◌, ◌%◌, ◌^◌, ◌≡◌, Bool, true, false, not, ◌&&◌, Option, none, some, List, [], ◌∷◌, ◌++◌, ltb,
  leb, ◌==◌, if◌then◌else◌, lookup, insert, erase, length,
}
use yoop.Base.Decimal.{to_string}
use yoop.Sync.Model.{
  FileKind, file, RelativePath, RelativePath-discrete, SystemTime, SyncOp, create, modify,
}

pub record FileEntry : Type 0 where
  pub path : RelativePath
  pub kind : FileKind
  pub size : ℕ
  pub mtime : SystemTime
  pub content_hash : ℕ

unfoldable pub content_changed : FileEntry → FileEntry → Bool
content_changed self other = not (self.content_hash == other.content_hash)

unfoldable pub is_newer_than : FileEntry → FileEntry → Bool
is_newer_than self other = ltb other.mtime self.mtime

abbrev pub Entries : Type 0
Entries = List (RelativePath × FileEntry)

pub record FileIndex : Type 0 where
  pub entries : Entries
  pub root_hash : ℕ

-- `a.cmp(b)` of two texts, byte by byte: not greater
bytes_leb : List ℕ → List ℕ → Bool
bytes_leb [] t = true
bytes_leb (a ∷ s) [] = false
bytes_leb (a ∷ s) (b ∷ t) =
    let rest = bytes_leb s t in if ltb a b then true else if ltb b a then false else rest

-- Sorting by `cmp`; the keys of a map differ, so that every sort gives the same order.
sorted_insert : RelativePath → List RelativePath → List RelativePath
unfolding bytes_leb
sorted_insert p [] = p ∷ []
sorted_insert p (q ∷ qs) = if bytes_leb p.text q.text then p ∷ (q ∷ qs) else q ∷ sorted_insert p qs

sort_paths : List RelativePath → List RelativePath
unfolding sorted_insert
sort_paths [] = []
sort_paths (p ∷ ps) = sorted_insert p (sort_paths ps)

abbrev keys : Entries → List RelativePath
keys [] = []
keys ((p, e) ∷ m) = p ∷ keys m

abbrev find : Entries → RelativePath → Option FileEntry
find m p = lookup RelativePath-discrete p m

-- The loop over the sorted paths.
combine : Entries → List RelativePath → List ℕ
combine m [] = []
combine m (p ∷ ps) = elim (find m p) [
  | none ↦ combine m ps
  | some e ↦ p.text ++ (to_string e.content_hash ++ combine m ps)
]

unfoldable pub combined : Entries → List ℕ
unfolding sort_paths combine
combined m = combine m (sort_paths (keys m))

unfoldable pub get : FileIndex → RelativePath → Option FileEntry
get index path = find index.entries path

module _ (xxh64 : List ℕ → ℕ) where
  unfoldable pub compute_index_hash : Entries → ℕ
  compute_index_hash m = xxh64 (combined m)

  unfoldable pub from_entries : Entries → FileIndex
  unfolding compute_index_hash
  from_entries m = record { entries = m; root_hash = compute_index_hash m }

  unfoldable pub insert_entry : FileIndex → FileEntry → FileIndex
  unfolding compute_index_hash
  insert_entry index entry =
      let m = insert RelativePath-discrete entry.path entry index.entries in
      record { entries = m; root_hash = compute_index_hash m }

  unfoldable pub remove : FileIndex → RelativePath → FileIndex × Option FileEntry
  unfolding compute_index_hash
  remove index path = elim (find index.entries path) [
    | none ↦ (index, none)
    | some entry ↦
        let m = erase RelativePath-discrete path index.entries in
        (record { entries = m; root_hash = compute_index_hash m }, some entry)
  ]

is_file : FileKind → Bool
is_file file = true
is_file _ = false

-- `sum` wraps at 64 bits in a release build.
sum_sizes : Entries → ℕ
unfolding is_file
sum_sizes [] = 0
sum_sizes ((p, e) ∷ m) =
    let rest = sum_sizes m in if is_file e.kind then (e.size + rest) % 2 ^ 64 else rest

unfoldable pub total_size : FileIndex → ℕ
unfolding sum_sizes
total_size index = sum_sizes index.entries

-- The operation that brings an entry of the remote side over.
abbrev pub create_of : FileEntry → SyncOp
create_of e = create e.path e.kind e.size e.content_hash

abbrev pub modify_of : FileEntry → SyncOp
modify_of e = modify e.path e.size e.content_hash

diff_entry : FileIndex → List SyncOp → FileEntry → List SyncOp
unfolding get content_changed is_newer_than
diff_entry local ops remote_entry = elim (get local remote_entry.path) [
  | none ↦ ops ++ create_of remote_entry ∷ []
  | some local_entry ↦
      if content_changed local_entry remote_entry
      then (if is_newer_than remote_entry local_entry
          then ops ++ modify_of remote_entry ∷ []
          else ops)
      else ops
]

diff_loop : FileIndex → List SyncOp → Entries → List SyncOp
unfolding diff_entry
diff_loop local ops [] = ops
diff_loop local ops ((p, e) ∷ m) = diff_loop local (diff_entry local ops e) m

unfoldable pub diff : FileIndex → FileIndex → List SyncOp
unfolding diff_loop
diff local remote = diff_loop local [] remote.entries
