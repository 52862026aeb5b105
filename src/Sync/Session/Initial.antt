-- ===== src/Sync/Session/Initial.antt =====
-- crates/yoop-core/src/sync/session.rs: `run_initial_sync`, what a device does with the two indexes. The
-- events for the user interface are left out.
use yoop.Base.{
  ℕ, ◌+◌, ◌%◌, ◌^◌, Bool, Option, List, [], ◌∷◌, ◌==◌, if◌then◌else◌, length, Result, ok, ◌>>=◌,
}
use yoop.Storage.{Text}
use yoop.Files.{FileSystem, io_call, create_parent}
use yoop.Sync.Model.{
  FileKind, file, directory, symlink, RelativePath, SyncOp, create, modify, delete, rename,
}
use yoop.Sync.Index.{FileIndex}
use yoop.Sync.Conflict.{Conflict}
use yoop.Sync.Engine.{SyncEngine, reconcile, apply_conflict_resolutions}
use yoop.Sync.Plan.{from_ops, into_ordered_ops, total_ops}

-- The directory that is synchronized: the file system, the path of a relative path, and what is done
-- with a file as a whole
pub record SyncDisk : Type 1 where
  pub fs : FileSystem
  pub to_path : RelativePath → Text
  pub exists : Text → fs.Disk → Bool
  pub remove_dir_all : Text → fs.Disk → Option fs.Disk
  pub remove_file : Text → fs.Disk → Option fs.Disk
  pub rename : (from to : Text) → fs.Disk → Option fs.Disk

-- Without the duration
pub record SyncStats : Type 0 where
  pub files_sent : ℕ
  pub files_received : ℕ
  pub bytes_sent : ℕ
  pub bytes_received : ℕ
  pub conflicts : ℕ

abbrev pub new_stats : SyncStats
new_stats = record {
  files_sent = 0;
  files_received = 0;
  bytes_sent = 0;
  bytes_received = 0;
  conflicts = 0;
}

-- Counters wrap at 64 bits in a release build.
abbrev pub count_received : ℕ → SyncStats → SyncStats
count_received size stats = record stats {
  files_received = (stats.files_received + 1) % 2 ^ 64;
  bytes_received = (stats.bytes_received + size) % 2 ^ 64;
}

module _ (dir : SyncDisk) where
  abbrev pub State : Type 0
  State = SyncStats × dir.fs.Disk

  abbrev pub with_stats : SyncStats → Option dir.fs.Disk → Result State
  with_stats stats o = do disk ← io_call o; ok (stats, disk)

  abbrev pub remove_as : FileKind → Text → dir.fs.Disk → Option dir.fs.Disk
  remove_as directory path disk = dir.remove_dir_all path disk
  remove_as _ path disk = dir.remove_file path disk

  unfoldable pub apply_local_op : (sync_deletions : Bool) → SyncOp → State → Result State
  apply_local_op sync_deletions (create path directory size content_hash) (stats, disk) =
      with_stats stats (dir.fs.create_dir_all (dir.to_path path) disk)
  apply_local_op sync_deletions (create path file size content_hash) (stats, disk) =
      with_stats (count_received size stats)
        (create_parent dir.fs (dir.fs.parent (dir.to_path path)) disk)
  apply_local_op sync_deletions (create path symlink size content_hash) (stats, disk) =
      ok (stats, disk)
  apply_local_op sync_deletions (modify path size content_hash) (stats, disk) =
      ok (count_received size stats, disk)
  apply_local_op sync_deletions (delete path kind) (stats, disk) =
      if sync_deletions
      then (if dir.exists (dir.to_path path) disk
          then with_stats stats (remove_as kind (dir.to_path path) disk)
          else ok (stats, disk))
      else ok (stats, disk)
  apply_local_op sync_deletions (rename from to kind) (stats, disk) = do
    disk' ← io_call (create_parent dir.fs (dir.fs.parent (dir.to_path to)) disk)
    with_stats stats (dir.rename (dir.to_path from) (dir.to_path to) disk')

  unfoldable pub apply_local_ops : Bool → List SyncOp → State → Result State
  apply_local_ops sync_deletions [] s = ok s
  apply_local_ops sync_deletions (op ∷ ops) s = do
    s' ← apply_local_op sync_deletions op s
    apply_local_ops sync_deletions ops s'

  -- What the engine adds for the conflicts, if there are any
  unfoldable pub resolve_conflicts :
      SyncEngine → List Conflict → List SyncOp → List SyncOp → List SyncOp × List SyncOp
  resolve_conflicts engine [] local_ops remote_ops = (local_ops, remote_ops)
  resolve_conflicts engine (c ∷ conflicts) local_ops remote_ops =
      let resolved = apply_conflict_resolutions engine (c ∷ conflicts) local_ops remote_ops in
      (resolved.0, resolved.1)

  -- The operations of both sides
  unfoldable pub planned : SyncEngine → FileIndex → FileIndex → List SyncOp × List SyncOp
  unfolding resolve_conflicts
  planned engine local_index remote_index =
      let r = reconcile engine local_index remote_index in
      resolve_conflicts engine r.conflicts r.local_ops r.remote_ops

  unfoldable pub count_conflicts : ℕ → SyncStats → SyncStats
  count_conflicts n stats = record stats { conflicts = (stats.conflicts + n) % 2 ^ 64 }

  unfoldable pub run_initial_sync : SyncEngine → Bool → FileIndex → FileIndex → State → Result State
  unfolding planned count_conflicts
  run_initial_sync engine sync_deletions local_index remote_index (stats, disk) =
      let r = reconcile engine local_index remote_index in
      let stats' = count_conflicts (length r.conflicts) stats in
      let ops = planned engine local_index remote_index in
      let local_plan = from_ops ops.0 in
      if total_ops local_plan + total_ops (from_ops ops.1) == 0
      then ok (stats', disk)
      else apply_local_ops sync_deletions (into_ordered_ops local_plan) (stats', disk)
