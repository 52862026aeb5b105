-- ===== src/Sync/Engine/Agreement.antt =====
-- crates/yoop-core/src/sync/engine.rs: after a reconciliation the two sides agree, and both devices
-- compute the same one.
use yoop.Base.{
  ℕ, ◌+◌, length, ◌<◌, ◌≡◌, refl, sym, ap, ◌∙◌, ite, Option, none, some, List, [], ◌∷◌, arith, All,
  Bool, if◌then◌else◌, ◌==◌, false, true,
}
use yoop.Sync.Model.{
  RelativePath, RelativePath-discrete, SyncOp, create, modify, delete, rename, op_path,
}
use yoop.Sync.Index.{FileEntry, FileIndex, content_changed, is_newer_than, get}
use yoop.Sync.Index.Keyed.{IsTable, select}
use yoop.Sync.Conflict.{detect}
use yoop.Sync.Engine.{SyncEngine, detect_between, reconcile}
use yoop.Sync.Engine.Passes.{
  local_at, remote_at, conflict_at, conflict_path, reconcile_at, reconcile-IsPlain, IsPlain,
}

-- A directory, as far as its contents go: the hash of what stands at each path.
abbrev pub Contents : Type 0
Contents = RelativePath → Option ℕ

abbrev pub put : Contents → RelativePath → Option ℕ → Contents
put f p c q = ite (RelativePath-discrete p q) c (f q)

-- What an operation does to the contents of the side that it is for.
abbrev pub apply_op : Contents → SyncOp → Contents
apply_op f (create path kind size content_hash) = put f path (some content_hash)
apply_op f (modify path size content_hash) = put f path (some content_hash)
apply_op f (delete path kind) = put f path none
apply_op f (rename from to kind) = put (put f from none) to (f from)

abbrev pub apply_ops : Contents → List SyncOp → Contents
apply_ops f [] = f
apply_ops f (op ∷ ops) = apply_ops (apply_op f op) ops

abbrev pub hash_of : Option FileEntry → Option ℕ
hash_of none = none
hash_of (some e) = some e.content_hash

-- The contents that an index records.
abbrev pub contents : FileIndex → Contents
contents index p = hash_of (get index p)

-- The contents after plain operations on one path.
unfoldable pub set_by : List SyncOp → Option ℕ → Option ℕ
set_by [] c = c
set_by (create path kind size content_hash ∷ ops) c = set_by ops (some content_hash)
set_by (modify path size content_hash ∷ ops) c = set_by ops (some content_hash)
set_by (op ∷ ops) c = set_by ops c

pub apply_ops-plain :
    (f : Contents) (ops : List SyncOp) (p : RelativePath)
    → All IsPlain ops
    → apply_ops f ops p ≡ set_by (select op_path p ops) (f p)
unfolding set_by op_path
apply_ops-plain f [] p h = refl
apply_ops-plain f (create q k s c ∷ ops) p h =
    ground (arith, apply_ops-plain (put f q (some c)) ops p h.1)
apply_ops-plain f (modify q s c ∷ ops) p h =
    ground (arith, apply_ops-plain (put f q (some c)) ops p h.1)
apply_ops-plain f (delete q k ∷ ops) p h = absurd h.0
apply_ops-plain f (rename q r k ∷ ops) p h = absurd h.0

-- The contents of a path that two sides settle on: what only one of them has, and of two versions
-- the remote one if it is newer.
abbrev pub merged : Option FileEntry → Option FileEntry → Option ℕ
merged none r = hash_of r
merged (some l) none = some l.content_hash
merged (some l) (some r) = if is_newer_than r l then some r.content_hash else some l.content_hash

module _ (engine : SyncEngine) where
  merged_local :
      (l r : Option FileEntry)
      → conflict_at engine l r ≡ []
      → set_by (local_at engine l r) (hash_of l) ≡ merged l r
  unfolding set_by content_changed
  merged_local none none h = refl
  merged_local none (some r) h = refl
  merged_local (some l) none h = refl
  merged_local (some l) (some r) h = ground (arith, h)

  merged_remote :
      (l r : Option FileEntry)
      → conflict_at engine l r ≡ []
      → set_by (remote_at engine l r) (hash_of r) ≡ merged l r
  unfolding set_by content_changed
  merged_remote none none h = refl
  merged_remote none (some r) h = refl
  merged_remote (some l) none h = refl
  merged_remote (some l) (some r) h = ground (arith, h)

-- At every path that is not in conflict, the local operations on the local side and the remote ones
-- on the remote side lead to the same contents: those of the only side that has the path, or of the
-- newer version.
pub reconcile_converges :
    (engine : SyncEngine) (local remote : FileIndex) (p : RelativePath)
    → IsTable local.entries
    → IsTable remote.entries
    → select conflict_path p (reconcile engine local remote).conflicts ≡ []
    → (apply_ops (contents local) (reconcile engine local remote).local_ops p
        ≡ merged (get local p) (get remote p))
      × (apply_ops (contents remote) (reconcile engine local remote).remote_ops p
          ≡ merged (get local p) (get remote p))
reconcile_converges engine local remote p lt rt h =
    let (at_local, at_remote, at_conflict) = reconcile_at engine local remote p lt rt in
    let (plain_local, plain_remote) = reconcile-IsPlain engine local remote p lt rt in
    let clear = sym at_conflict ∙ h in
    (
      apply_ops-plain (contents local) _ p plain_local
          ∙ ap (λ ops. set_by ops (hash_of (get local p))) at_local
          ∙ merged_local engine (get local p) (get remote p) clear,
      apply_ops-plain (contents remote) _ p plain_remote
          ∙ ap (λ ops. set_by ops (hash_of (get remote p))) at_remote
          ∙ merged_remote engine (get local p) (get remote p) clear,
    )

module _ (engine : SyncEngine) (window : 0 < engine.conflict_detector.ambiguity_window_secs) where
  local_remote_at : (l r : Option FileEntry) → local_at engine l r ≡ remote_at engine r l
  unfolding detect_between detect content_changed is_newer_than
  local_remote_at none none = refl
  local_remote_at (some l) none = refl
  local_remote_at none (some r) = refl
  local_remote_at (some l) (some r) = ground (arith, window)

-- With a window above 0, the device on the other side, which has local and remote exchanged, plans
-- the same: its remote operations at a path are our local ones, and the other way round.
pub reconcile_swapped :
    (engine : SyncEngine) (local remote : FileIndex) (p : RelativePath)
    → 0 < engine.conflict_detector.ambiguity_window_secs
    → IsTable local.entries
    → IsTable remote.entries
    → let r = reconcile engine local remote in
      let s = reconcile engine remote local in
      (select op_path p s.remote_ops ≡ select op_path p r.local_ops)
      × (select op_path p s.local_ops ≡ select op_path p r.remote_ops)
reconcile_swapped engine local remote p window lt rt =
    let (ours_local, ours_remote, _) = reconcile_at engine local remote p lt rt in
    let (theirs_local, theirs_remote, _) = reconcile_at engine remote local p rt lt in
    let l = get local p in
    let r = get remote p in
    (
      theirs_remote ∙ sym (local_remote_at engine window l r) ∙ sym ours_local,
      theirs_local ∙ local_remote_at engine window r l ∙ sym ours_remote,
    )

-- Whether two sides have the same contents at a path.
abbrev pub same_contents : Option ℕ → Option ℕ → Bool
same_contents none none = true
same_contents (some c) (some d) = c == d
same_contents _ _ = false

module _ (engine : SyncEngine) where
  actions : Option FileEntry → Option FileEntry → ℕ
  actions l r =
      length (local_at engine l r) + length (remote_at engine l r) + length (conflict_at engine l r)

  actions_eq :
      (l r : Option FileEntry)
      → actions l r ≡ (if same_contents (hash_of l) (hash_of r) then 0 else 1)
  unfolding actions content_changed
  actions_eq none none = refl
  actions_eq (some l) none = refl
  actions_eq none (some r) = refl
  actions_eq (some l) (some r) = ground arith

-- At every path there is nothing to do if the two sides have the same contents, and otherwise
-- exactly one thing: an operation for one side, or a conflict.
pub reconcile_exclusive :
    (engine : SyncEngine) (local remote : FileIndex) (p : RelativePath)
    → IsTable local.entries
    → IsTable remote.entries
    → length (select op_path p (reconcile engine local remote).local_ops)
        + length (select op_path p (reconcile engine local remote).remote_ops)
        + length (select conflict_path p (reconcile engine local remote).conflicts)
      ≡ (if same_contents (contents local p) (contents remote p) then 0 else 1)
unfolding actions
reconcile_exclusive engine local remote p lt rt =
    let (at_local, at_remote, at_conflict) = reconcile_at engine local remote p lt rt in
    rw at_local (rw at_remote (rw at_conflict (actions_eq engine (get local p) (get remote p))))
