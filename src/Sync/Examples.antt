-- ===== src/Sync/Examples.antt =====
-- Tests of crates/yoop-core/src/sync, and the theorems about it at concrete inputs.
use yoop.Base.{
  ℕ, ◌+◌, ◌*◌, ◌≤◌, ◌≡◌, refl, ◌≢◌, ◌⊎◌, ite, none, some, List, [], ◌∷◌, ◌++◌, map, arith, All,
  length, lookup, insert, ℕ_discrete,
}
use yoop.Base.Decimal.{to_string}
use yoop.Sync.Model.{
  RelativePath, RelativePath-discrete, new_path, file, directory, SyncOp, create, modify, delete,
  op_path, SystemTime, unix_epoch, nanos_per_sec,
}
use yoop.Sync.Index.{
  FileEntry, FileIndex, content_changed, is_newer_than, get, from_entries, insert_entry, remove,
  diff, compute_index_hash,
}
use yoop.Sync.Index.Keyed.{IsTable, select}
use yoop.Sync.Index.Upkeep.{IsIndex, insert_entry-IsIndex, remove-IsIndex}
use yoop.Sync.Index.Diffing.{diff_merges}
use yoop.Sync.Conflict.{
  Conflict, ConflictDetector, last_write_wins, keep_both, marker, detect, generate_conflict_name,
  resolve,
}
use yoop.Sync.Conflict.Detection.{Within, detect_cases}
use yoop.Sync.Conflict.Names.{IsClean, stamped, generate_conflict_name_moves}
use yoop.Sync.Engine.{
  SyncEngine, reconcile, reconcile_entry, detect_between, apply_conflict_resolutions,
}
use yoop.Sync.Engine.Passes.{conflict_path}
use yoop.Sync.Engine.Agreement.{
  apply_ops, contents, merged, reconcile_converges, reconcile_swapped, reconcile_exclusive,
}
use yoop.Sync.Engine.Resolutions.{settle_all, apply_conflict_resolutions_settles}
use yoop.Sync.Plan.{add_op, from_ops, into_ordered_ops, total_ops}
use yoop.Sync.Plan.Order.{Staged, at_stage, from_ops_ordered}

-- A stand-in for the hash function.
abbrev toy_hash : List ℕ → ℕ
toy_hash [] = 0
toy_hash (b ∷ s) = b + 2 * toy_hash s

abbrev path_a : RelativePath
path_a = record { text = b'a' ∷ b'.' ∷ b't' ∷ [] }

abbrev path_b : RelativePath
path_b = record { text = b'b' ∷ [] }

abbrev entry : RelativePath → ℕ → ℕ → FileEntry
entry p t h = record {
  path = p;
  kind = file;
  size = 10;
  mtime = t * nanos_per_sec;
  content_hash = h;
}

abbrev ours : FileIndex
ours = record { entries = (path_a, entry path_a 100 5) ∷ []; root_hash = 0 }

abbrev theirs : FileIndex
theirs = record {
  entries = (path_b, entry path_b 40 8) ∷ (path_a, entry path_a 200 6) ∷ [];
  root_hash = 0;
}

abbrev engine : SyncEngine
engine = record {
  conflict_detector = record { strategy = last_write_wins; ambiguity_window_secs = 2 };
}

ours-IsTable : IsTable ours.entries
unfolding lookup
ours-IsTable = ((refl, tt), (refl, tt))

theirs-IsTable : IsTable theirs.entries
unfolding lookup RelativePath-discrete ℕ_discrete
theirs-IsTable = ((refl, (refl, tt)), (refl, (refl, tt)))

test_reconcile : reconcile engine ours theirs ≡ record {
  local_ops = create path_b file 10 8 ∷ modify path_a 10 6 ∷ [];
  remote_ops = [];
  conflicts = [];
}
unfolding reconcile reconcile_entry get lookup insert RelativePath-discrete ℕ_discrete
    content_changed is_newer_than detect detect_between
test_reconcile = refl

test_no_conflict : select conflict_path path_a (reconcile engine ours theirs).conflicts ≡ []
test_no_conflict = rw test_reconcile refl

reconcile_converges_example :
    (apply_ops (contents ours) (reconcile engine ours theirs).local_ops path_a
      ≡ merged (get ours path_a) (get theirs path_a))
    × (apply_ops (contents theirs) (reconcile engine ours theirs).remote_ops path_a
        ≡ merged (get ours path_a) (get theirs path_a))
reconcile_converges_example =
    reconcile_converges engine ours theirs path_a ours-IsTable theirs-IsTable test_no_conflict

reconcile_swapped_example :
    (select op_path path_a (reconcile engine theirs ours).remote_ops
      ≡ select op_path path_a (reconcile engine ours theirs).local_ops)
    × (select op_path path_a (reconcile engine theirs ours).local_ops
        ≡ select op_path path_a (reconcile engine ours theirs).remote_ops)
reconcile_swapped_example =
    reconcile_swapped engine ours theirs path_a (omega arith) ours-IsTable theirs-IsTable

reconcile_exclusive_example :
    length (select op_path path_a (reconcile engine ours theirs).local_ops)
      + length (select op_path path_a (reconcile engine ours theirs).remote_ops)
      + length (select conflict_path path_a (reconcile engine ours theirs).conflicts)
    ≡ 1
unfolding get lookup RelativePath-discrete ℕ_discrete
reconcile_exclusive_example =
    reconcile_exclusive engine ours theirs path_a ours-IsTable theirs-IsTable

diff_merges_example :
    apply_ops (contents ours) (diff ours theirs) path_a
    ≡ merged (get ours path_a) (get theirs path_a)
diff_merges_example = diff_merges ours theirs path_a ours-IsTable theirs-IsTable

abbrev indexed : FileIndex
indexed = from_entries toy_hash ours.entries

indexed-IsIndex : IsIndex toy_hash indexed
unfolding from_entries compute_index_hash
indexed-IsIndex = record { table = ours-IsTable; hashed = refl }

insert_entry-IsIndex_example :
    IsIndex toy_hash (insert_entry toy_hash indexed (entry path_b 1 2))
    × ((p : RelativePath)
        → get (insert_entry toy_hash indexed (entry path_b 1 2)) p
          ≡ ite (RelativePath-discrete path_b p) (some (entry path_b 1 2)) (get indexed p))
insert_entry-IsIndex_example =
    insert_entry-IsIndex toy_hash indexed (entry path_b 1 2) indexed-IsIndex

remove-IsIndex_example :
    IsIndex toy_hash (remove toy_hash indexed path_a).0
    × ((remove toy_hash indexed path_a).1 ≡ get indexed path_a)
    × ((q : RelativePath)
        → get (remove toy_hash indexed path_a).0 q
          ≡ ite (RelativePath-discrete path_a q) none (get indexed q))
remove-IsIndex_example = remove-IsIndex toy_hash indexed path_a indexed-IsIndex

abbrev clash : Conflict
clash = record {
  path = path_a;
  local_mtime = 5 * nanos_per_sec;
  local_hash = 1;
  remote_mtime = 6 * nanos_per_sec;
  remote_hash = 2;
  kind = file;
}

abbrev detector : ConflictDetector
detector = record { strategy = keep_both; ambiguity_window_secs = 2 }

test_detect : detect detector path_a (5 * nanos_per_sec) 1 (6 * nanos_per_sec) 2 file ≡ some clash
unfolding detect
test_detect = refl

detect_cases_example :
    ((detect detector path_a (5 * nanos_per_sec) 1 (6 * nanos_per_sec) 2 file ≡ some clash)
      × (clash.local_hash ≢ clash.remote_hash)
      × Within (2 * nanos_per_sec) clash.local_mtime clash.remote_mtime)
    ⊎ ((detect detector path_a (5 * nanos_per_sec) 1 (6 * nanos_per_sec) 2 file ≡ none)
        × ((clash.local_hash ≡ clash.remote_hash)
            ⊎ ((clash.local_mtime + 2 * nanos_per_sec ≤ clash.remote_mtime)
                ⊎ (clash.remote_mtime + 2 * nanos_per_sec ≤ clash.local_mtime))))
detect_cases_example = detect_cases detector clash

abbrev second : ℕ → SystemTime
second n = unix_epoch + n * nanos_per_sec

test_conflict_name :
    generate_conflict_name path_a (second 42)
    ≡ record { text = b'a' ∷ (marker ++ b'4' ∷ b'2' ∷ b'.' ∷ b't' ∷ []) }
unfolding generate_conflict_name to_string new_path
test_conflict_name = refl

path_a-IsClean : All IsClean path_a.text
path_a-IsClean = omega arith

-- The file `d.git/b`.
generate_conflict_name_moves_example :
    (generate_conflict_name
        (record { text = (b'd' ∷ []) ++ b'.' ∷ ((b'g' ∷ []) ++ b'/' ∷ b'b' ∷ []) })
        (second 1)
      ≡ record { text = stamped (b'd' ∷ []) (second 1) (b'.' ∷ b'g' ∷ []) ++ b'/' ∷ b'b' ∷ [] })
    × (stamped (b'd' ∷ []) (second 1) (b'.' ∷ b'g' ∷ []) ≢ (b'd' ∷ []) ++ b'.' ∷ b'g' ∷ [])
generate_conflict_name_moves_example =
    generate_conflict_name_moves (b'd' ∷ []) (b'g' ∷ []) (b'b' ∷ []) (second 1) (omega arith)
      (omega arith) (omega arith)

abbrev some_ops : List SyncOp
some_ops = delete path_b file ∷ create path_a file 1 2 ∷ create path_b directory 0 0 ∷ []

test_ordered :
    into_ordered_ops (from_ops some_ops)
    ≡ create path_b directory 0 0 ∷ create path_a file 1 2 ∷ delete path_b file ∷ []
unfolding into_ordered_ops from_ops add_op
test_ordered = refl

from_ops_ordered_example :
    Staged 0 (into_ordered_ops (from_ops some_ops))
    × ((n : ℕ) → at_stage n (into_ordered_ops (from_ops some_ops)) ≡ at_stage n some_ops)
    × (total_ops (from_ops some_ops) ≡ length some_ops)
from_ops_ordered_example = from_ops_ordered some_ops

apply_conflict_resolutions_settles_example :
    (apply_ops (contents ours) (apply_conflict_resolutions engine (clash ∷ []) some_ops []).0
      ≡ settle_all engine (apply_ops (contents ours) some_ops) (clash ∷ []))
    × ((apply_conflict_resolutions engine (clash ∷ []) some_ops []).1 ≡ [])
    × ((apply_conflict_resolutions engine (clash ∷ []) some_ops []).2
        ≡ map (resolve engine.conflict_detector) (clash ∷ []))
apply_conflict_resolutions_settles_example =
    apply_conflict_resolutions_settles engine (contents ours) (clash ∷ []) some_ops []
