-- ===== src/Sync/Engine.antt =====
-- crates/yoop-core/src/sync/engine.rs: the reconciliation of two indexes, and what the resolution of
-- conflicts adds to it.
pub mod Passes
pub mod Agreement
pub mod Resolutions
use yoop.Base.{
  ℕ, ◌≡◌, Bool, true, Option, none, some, List, [], ◌∷◌, ◌++◌, if◌then◌else◌, lookup, insert,
}
use yoop.Sync.Model.{RelativePath, RelativePath-discrete, SyncOp, modify, rename}
use yoop.Sync.Index.{
  FileEntry, FileIndex, Entries, content_changed, is_newer_than, get, create_of, modify_of,
}
use yoop.Sync.Conflict.{
  Conflict, ConflictDetector, ConflictResolution, accept_remote, keep_local,
  rename_then_accept_remote, ResolutionStrategy, new_detector, detect, resolve,
}

pub record SyncEngine : Type 0 where
  pub conflict_detector : ConflictDetector

unfoldable pub new_engine : ResolutionStrategy → SyncEngine
unfolding new_detector
new_engine strategy = record { conflict_detector = new_detector strategy }

-- The variables of `reconcile`.
pub record Reconciled : Type 0 where
  pub local_ops : List SyncOp
  pub remote_ops : List SyncOp
  pub conflicts : List Conflict

abbrev pub Processed : Type 0
Processed = List (RelativePath × Bool)

-- `detect` on the two entries of a path
unfoldable pub detect_between : SyncEngine → FileEntry → FileEntry → Option Conflict
detect_between engine local_entry remote_entry =
    detect engine.conflict_detector remote_entry.path local_entry.mtime local_entry.content_hash
      remote_entry.mtime remote_entry.content_hash remote_entry.kind

-- A path on both sides whose contents differ.
unfoldable pub reconcile_changed : SyncEngine → FileEntry → FileEntry → Reconciled → Reconciled
reconcile_changed engine local_entry remote_entry r =
    elim (detect_between engine local_entry remote_entry) [
      | some conflict ↦ record r { conflicts = r.conflicts ++ conflict ∷ [] }
      | none ↦
          if is_newer_than remote_entry local_entry
          then record r { local_ops = r.local_ops ++ modify_of remote_entry ∷ [] }
          else record r { remote_ops = r.remote_ops ++ modify_of local_entry ∷ [] }
    ]

unfoldable pub reconcile_entry : SyncEngine → FileIndex → FileEntry → Reconciled → Reconciled
unfolding reconcile_changed
reconcile_entry engine local remote_entry r = elim (get local remote_entry.path) [
  | none ↦ record r { local_ops = r.local_ops ++ create_of remote_entry ∷ [] }
  | some local_entry ↦
      if content_changed local_entry remote_entry
      then reconcile_changed engine local_entry remote_entry r
      else r
]

-- The loop over the remote entries.
remote_pass : SyncEngine → FileIndex → Entries → Reconciled → Reconciled
remote_pass engine local [] r = r
remote_pass engine local ((p, e) ∷ m) r =
    remote_pass engine local m (reconcile_entry engine local e r)

-- What that loop enters into `processed_paths`.
mark_processed : Entries → Processed → Processed
mark_processed [] processed = processed
mark_processed ((p, e) ∷ m) processed =
    mark_processed m (insert RelativePath-discrete e.path true processed)

-- The loop over the local entries.
local_pass : Processed → Entries → List SyncOp → List SyncOp
local_pass processed [] remote_ops = remote_ops
local_pass processed ((p, e) ∷ m) remote_ops =
    local_pass processed m (elim (lookup RelativePath-discrete e.path processed) [
      | some _ ↦ remote_ops
      | none ↦ remote_ops ++ create_of e ∷ []
    ])

unfoldable pub reconcile : SyncEngine → FileIndex → FileIndex → Reconciled
unfolding remote_pass mark_processed local_pass
reconcile engine local remote =
    let r =
      remote_pass engine local remote.entries
        (record { local_ops = []; remote_ops = []; conflicts = [] }) in
    record r {
      remote_ops = local_pass (mark_processed remote.entries []) local.entries r.remote_ops;
    }

-- The operations that one resolution adds to the local side.
resolution_ops : Conflict → ConflictResolution → List SyncOp → List SyncOp
resolution_ops c accept_remote ops = ops ++ modify c.path 0 c.remote_hash ∷ []
resolution_ops c keep_local ops = ops
resolution_ops c (rename_then_accept_remote rename_to) ops =
    (ops ++ rename c.path rename_to c.kind ∷ []) ++ modify c.path 0 c.remote_hash ∷ []

resolutions_loop :
    SyncEngine
    → List Conflict
    → List SyncOp
    → List ConflictResolution
    → List SyncOp × List ConflictResolution
unfolding resolution_ops
resolutions_loop engine [] ops resolutions = (ops, resolutions)
resolutions_loop engine (c ∷ cs) ops resolutions =
    let resolution = resolve engine.conflict_detector c in
    resolutions_loop engine cs (resolution_ops c resolution ops) (resolutions ++ resolution ∷ [])

-- The new local operations, the remote operations, which are passed on as they came, and the
-- resolutions.
unfoldable pub apply_conflict_resolutions :
    SyncEngine
    → List Conflict
    → List SyncOp
    → List SyncOp
    → List SyncOp × List SyncOp × List ConflictResolution
unfolding resolutions_loop
apply_conflict_resolutions engine conflicts local_ops remote_ops =
    let (ops, resolutions) = resolutions_loop engine conflicts local_ops [] in
    (ops, remote_ops, resolutions)
