-- ===== src/Sync/Session/Received.antt =====
-- crates/yoop-core/src/sync/session.rs: the index that arrives, beside the one that was sent.
use yoop.Base.{
  ℕ, ◌+◌, ◌*◌, ◌^◌, ◌<◌, ◌≡◌, refl, true, Option, none, some, [], ◌∷◌, arith, All, ltb, lookup,
  insert, lookup-insert, insert-Distinct, ok,
}
use yoop.Sync.Model.{
  FileKind, file, directory, symlink, RelativePath, RelativePath-discrete, new_path, SystemTime,
  unix_epoch, nanos_per_sec,
}
use yoop.Sync.Index.{FileEntry, Entries}
use yoop.Sync.Index.Keyed.{IsTable}
use yoop.Sync.Index.Upkeep.{insert-Keyed}
use yoop.Sync.Session.{
  kind_byte, kind_of_byte, unix_seconds, index_entry, index_entries, file_entry, entries_map,
}

-- The time cut to whole seconds since 1970
abbrev pub in_seconds : SystemTime → SystemTime
in_seconds mtime = unix_epoch + unix_seconds mtime * nanos_per_sec

abbrev pub cut : FileEntry → FileEntry
cut e = record e { mtime = in_seconds e.mtime }

abbrev pub cut_at : Option FileEntry → Option FileEntry
cut_at none = none
cut_at (some e) = some (cut e)

-- The path has no backslash, and the time is one that `SystemTime` can name.
abbrev pub Sendable : FileEntry → Type 0
Sendable e = (new_path e.path.text ≡ e.path) × (e.mtime < 2 ^ 64 * nanos_per_sec)

kind_round : (k : FileKind) → kind_of_byte (kind_byte k) ≡ k
unfolding kind_of_byte kind_byte
kind_round file = refl
kind_round directory = refl
kind_round symlink = refl

seconds_bound : (t : ℕ) → t < 2 ^ 64 * nanos_per_sec → ltb (unix_seconds t) (2 ^ 63) ≡ true
unfolding unix_seconds
seconds_bound t h = ground (arith, h)

file_entry-index_entry : (e : FileEntry) → Sendable e → file_entry (index_entry e) ≡ ok (cut e)
unfolding file_entry index_entry
file_entry-index_entry e h = rw (seconds_bound e.mtime h.1, kind_round e.kind, h.0) refl

abbrev pub or_old : Option FileEntry → Option FileEntry → Option FileEntry
or_old none old = old
or_old (some e) old = some (cut e)

pub entries_map-loop :
    (m acc : Entries)
    → IsTable m
    → All (λ (x : RelativePath × FileEntry). Sendable x.1) m
    → IsTable acc
    → (r : Entries) × (entries_map (index_entries m) acc ≡ ok r)
      × IsTable r
      × ((p : RelativePath)
          → lookup RelativePath-discrete p r
            ≡ or_old (lookup RelativePath-discrete p m) (lookup RelativePath-discrete p acc))
unfolding entries_map index_entries lookup
entries_map-loop [] acc t h table = (acc, refl, table, λ p. refl)
entries_map-loop ((q, e) ∷ m) acc t h table =
    let acc' = insert RelativePath-discrete e.path (cut e) acc in
    let (r, same, good, at) =
      entries_map-loop m acc' (t.0.1, t.1.1) h.1
        (
          insert-Distinct RelativePath-discrete e.path (cut e) acc table.0,
          insert-Keyed (cut e) acc table.1,
        ) in
    (
      r,
      rw (file_entry-index_entry e h.0, entries_map) same,
      good,
      λ p.
          ground
            (arith, at p, t.0.0, t.1.0, lookup-insert RelativePath-discrete e.path p (cut e) acc),
    )

pub or_old-none : (o : Option FileEntry) → or_old o none ≡ cut_at o
or_old-none none = refl
or_old-none (some e) = refl
