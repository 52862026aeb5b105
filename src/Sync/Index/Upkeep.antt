-- ===== src/Sync/Index/Upkeep.antt =====
-- crates/yoop-core/src/sync/index.rs: an index stays a map with its hash, and gives back what was
-- put into it.
use yoop.Base.{
  ℕ, ◌≡◌, refl, ite, none, some, List, [], ◌∷◌, arith, Option-cases, inl, inr, lookup, insert,
  erase, insert-Distinct, erase-Distinct, lookup-insert, lookup-erase,
}
use yoop.Sync.Model.{RelativePath, RelativePath-discrete}
use yoop.Sync.Index.{FileEntry, FileIndex, Entries, get, compute_index_hash, insert_entry, remove}
use yoop.Sync.Index.Keyed.{Keyed, IsTable}

pub insert-Keyed :
    (e : FileEntry) (m : Entries) → Keyed m → Keyed (insert RelativePath-discrete e.path e m)
unfolding insert
insert-Keyed e [] k = (refl, tt)
insert-Keyed e ((q, d) ∷ m) k = ground (arith, k.0, k.1, insert-Keyed e m k.1)

erase-Keyed : (p : RelativePath) (m : Entries) → Keyed m → Keyed (erase RelativePath-discrete p m)
unfolding erase
erase-Keyed p [] k = tt
erase-Keyed p ((q, d) ∷ m) k = ground (arith, k.0, k.1, erase-Keyed p m k.1)

module _ (xxh64 : List ℕ → ℕ) where
  -- One entry for each path, under its own path, and the hash of these entries.
  pub record IsIndex (index : FileIndex) : Type 0 where
    pub table : IsTable index.entries
    pub hashed : index.root_hash ≡ compute_index_hash xxh64 index.entries

  -- A new entry leaves the index a map with its hash; it is what its path gives afterwards, and no
  -- other path changes.
  pub insert_entry-IsIndex :
      (index : FileIndex) (e : FileEntry)
      → IsIndex index
      → IsIndex (insert_entry xxh64 index e)
        × ((p : RelativePath)
            → get (insert_entry xxh64 index e) p
              ≡ ite (RelativePath-discrete e.path p) (some e) (get index p))
  unfolding insert_entry get
  insert_entry-IsIndex index e v = (
    record {
      table = (
        insert-Distinct RelativePath-discrete e.path e index.entries v.table.0,
        insert-Keyed e index.entries v.table.1,
      );
      hashed = unfold compute_index_hash in refl;
    },
    λ p. lookup-insert RelativePath-discrete e.path p e index.entries,
  )

  -- Removing a path leaves the index a map with its hash, returns what the path gave before, and
  -- takes away that path and no other.
  pub remove-IsIndex :
      (index : FileIndex) (p : RelativePath)
      → IsIndex index
      → IsIndex (remove xxh64 index p).0
        × ((remove xxh64 index p).1 ≡ get index p)
        × ((q : RelativePath)
            → get (remove xxh64 index p).0 q ≡ ite (RelativePath-discrete p q) none (get index q))
  unfolding remove get
  remove-IsIndex index p v = elim (Option-cases (lookup RelativePath-discrete p index.entries)) [
    | inl h ↦ rw (h, remove) (v, refl, λ q. absent_or_same q h)
    | inr (e, h) ↦
        rw (h, remove)
          (
            record {
              table = (
                erase-Distinct RelativePath-discrete p index.entries v.table.0,
                erase-Keyed p index.entries v.table.1,
              );
              hashed = refl;
            },
            refl,
            λ q. lookup-erase RelativePath-discrete p q index.entries v.table.0,
          )
  ]
    where
      absent_or_same :
          (q : RelativePath)
          → lookup RelativePath-discrete p index.entries ≡ none
          → lookup RelativePath-discrete q index.entries
            ≡ ite (RelativePath-discrete p q) none (lookup RelativePath-discrete q index.entries)
      absent_or_same q h = ground (arith, h)
