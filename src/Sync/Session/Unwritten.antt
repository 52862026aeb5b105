-- ===== src/Sync/Session/Unwritten.antt =====
-- crates/yoop-core/src/sync/session.rs: what `run_initial_sync` leaves on the disk.
use yoop.Base.{
  ◌+◌, ◌≡◌, refl, ◌∙◌, Bool, List, [], ◌∷◌, All, ◌==◌, length, Result, ok, inl, inr, Bool-cases,
}
use yoop.Storage.{Text}
use yoop.Files.Writing.{Reliable, parent-Same}
use yoop.Sync.Model.{file, directory, symlink, SyncOp, create, modify, delete, rename}
use yoop.Sync.Index.{FileIndex}
use yoop.Sync.Index.Keyed.{IsTable}
use yoop.Sync.Conflict.{Conflict, last_write_wins}
use yoop.Sync.Engine.{SyncEngine, reconcile}
use yoop.Sync.Engine.Passes.{IsPlain, reconcile-IsPlain}
use yoop.Sync.Engine.Resolutions.{resolutions-IsPlain}
use yoop.Sync.Plan.{from_ops, into_ordered_ops, total_ops}
use yoop.Sync.Plan.Order.{from_ops-All}
use yoop.Sync.Session.Initial.{
  SyncDisk, SyncStats, State, apply_local_op, apply_local_ops, resolve_conflicts, planned,
  run_initial_sync, count_conflicts, count_received,
}

module _ (dir : SyncDisk) (reliable : Reliable dir.fs) where
  -- An operation succeeds, and no file's bytes change.
  abbrev Unwritten : Result (State dir) → dir.fs.Disk → Type 0
  Unwritten r d =
      (s : State dir) × (r ≡ ok s) × ((q : Text) → dir.fs.content q s.1 ≡ dir.fs.content q d)

  apply_local_op-plain :
      (deletions : Bool) (op : SyncOp) (stats : SyncStats) (d : dir.fs.Disk)
      → IsPlain op
      → Unwritten (apply_local_op dir deletions op (stats, d)) d
  unfolding apply_local_op
  apply_local_op-plain deletions (create path directory size h) stats d plain =
      let (e, made) = reliable.creates_dir (dir.to_path path) d in
      ((stats, e), rw made refl, λ q. dir.fs.content_dir (dir.to_path path) q d e made)
  apply_local_op-plain deletions (create path file size h) stats d plain =
      let (e, made, same) = parent-Same dir.fs reliable (dir.fs.parent (dir.to_path path)) d in
      ((count_received size stats, e), rw made refl, same)
  apply_local_op-plain deletions (create path symlink size h) stats d plain = (_, refl, λ q. refl)
  apply_local_op-plain deletions (modify path size h) stats d plain = (_, refl, λ q. refl)
  apply_local_op-plain deletions (delete path kind) stats d plain = absurd plain
  apply_local_op-plain deletions (rename from to kind) stats d plain = absurd plain

  apply_local_ops-plain :
      (deletions : Bool) (ops : List SyncOp) (stats : SyncStats) (d : dir.fs.Disk)
      → All IsPlain ops
      → Unwritten (apply_local_ops dir deletions ops (stats, d)) d
  unfolding apply_local_ops
  apply_local_ops-plain deletions [] stats d plain = (_, refl, λ q. refl)
  apply_local_ops-plain deletions (op ∷ ops) stats d plain =
      let (s, done, same) = apply_local_op-plain deletions op stats d plain.0 in
      let (t, rest, same') = apply_local_ops-plain deletions ops s.0 s.1 plain.1 in
      (t, rw done rest, λ q. same' q ∙ same q)

  resolve_conflicts-IsPlain :
      (engine : SyncEngine) (cs : List Conflict) (local_ops remote_ops : List SyncOp)
      → engine.conflict_detector.strategy ≡ last_write_wins
      → All IsPlain local_ops
      → All IsPlain (resolve_conflicts dir engine cs local_ops remote_ops).0
  unfolding resolve_conflicts
  resolve_conflicts-IsPlain engine [] local_ops remote_ops h plain = plain
  resolve_conflicts-IsPlain engine (c ∷ cs) local_ops remote_ops h plain =
      resolutions-IsPlain engine (c ∷ cs) local_ops remote_ops h plain

  -- The initial synchronization with the strategy of a session succeeds when the calls of the file
  -- system do, and leaves the bytes of every file on the disk as they were, whatever the other side
  -- has and whatever it counts as received. The condition beside these is that each index has one
  -- entry for a path.
  pub initial_sync_unwritten :
      (engine : SyncEngine) (deletions : Bool) (local_index remote_index : FileIndex)
      (stats : SyncStats) (d : dir.fs.Disk)
      → engine.conflict_detector.strategy ≡ last_write_wins
      → IsTable local_index.entries
      → IsTable remote_index.entries
      → (s : State dir) × (run_initial_sync dir engine deletions local_index remote_index (stats, d)
          ≡ ok s)
        × ((q : Text) → dir.fs.content q s.1 ≡ dir.fs.content q d)
  unfolding run_initial_sync planned
  initial_sync_unwritten engine deletions local_index remote_index stats d h lt rt =
      let r = reconcile engine local_index remote_index in
      let ops = planned dir engine local_index remote_index in
      let stats' = count_conflicts dir (length r.conflicts) stats in
      let (s, done, same) =
        apply_local_ops-plain deletions (into_ordered_ops (from_ops ops.0)) stats' d (
          from_ops-All IsPlain ops.0 (
            resolve_conflicts-IsPlain engine r.conflicts r.local_ops r.remote_ops h
              (reconcile-IsPlain engine local_index remote_index (record { text = [] }) lt
                rt).0)) in
      elim (Bool-cases (total_ops (from_ops ops.0) + total_ops (from_ops ops.1) == 0)) [
        | inl none_planned ↦ ((stats', d), rw (none_planned) refl, λ q. refl)
        | inr some_planned ↦ (s, rw (some_planned) done, same)
      ]
