-- ===== src/Sync/Index/Diffing.antt =====
-- crates/yoop-core/src/sync/index.rs: what `diff` brings over from the remote side.
use mathlib.Core.List.{append_assoc, append-nil}
use yoop.Base.{
  lookup, ◌≡◌, refl, sym, ap, ◌∙◌, Option, none, some, List, [], ◌∷◌, ◌++◌, arith, All,
  if◌then◌else◌,
}
use yoop.Sync.Model.{RelativePath, RelativePath-discrete, SyncOp, op_path}
use yoop.Sync.Index.{
  FileEntry, FileIndex, Entries, content_changed, is_newer_than, get, create_of, modify_of,
  diff_entry, diff_loop, diff,
}
use yoop.Sync.Index.Keyed.{IsTable, select, gather, at, select-gather}
use yoop.Sync.Engine.Passes.{IsPlain, All-gather, lookup-path}
use yoop.Sync.Engine.Agreement.{apply_ops, contents, merged, set_by, hash_of, apply_ops-plain}

-- What a remote entry gives beside the local entry of its path, if there is one.
diff_of : Option FileEntry → FileEntry → List SyncOp
diff_of none r = create_of r ∷ []
diff_of (some l) r =
    if content_changed l r then (if is_newer_than r l then modify_of r ∷ [] else []) else []

module _ (local : FileIndex) where
  diffs : FileEntry → List SyncOp
  diffs r = diff_of (get local r.path) r

  diff_entry-parts : (ops : List SyncOp) (r : FileEntry) → diff_entry local ops r ≡ ops ++ diffs r
  unfolding diff_entry diffs diff_of
  diff_entry-parts ops r = ground (arith, append-nil ops)

  diff_loop-parts :
      (ops : List SyncOp) (m : Entries) → diff_loop local ops m ≡ ops ++ gather diffs m
  unfolding diff_loop
  diff_loop-parts ops [] = sym (append-nil ops)
  diff_loop-parts ops ((p, r) ∷ m) =
      diff_loop-parts (diff_entry local ops r) m
      ∙ ap (λ xs. xs ++ gather diffs m) (diff_entry-parts ops r)
      ∙ append_assoc ops (diffs r) (gather diffs m)

  diffs-own : (r : FileEntry) → All (λ a. op_path a ≡ r.path) (diffs r)
  unfolding diffs diff_of op_path
  diffs-own r = ground arith

  diffs-IsPlain : (r : FileEntry) → All IsPlain (diffs r)
  unfolding diffs diff_of
  diffs-IsPlain r = ground arith

  diffs_found :
      (p : RelativePath) (o : Option FileEntry)
      → ((r : FileEntry) → o ≡ some r → r.path ≡ p)
      → at diffs o ≡ at (diff_of (get local p)) o
  unfolding diffs
  diffs_found p none h = refl
  diffs_found p (some r) h = ap (λ q. diff_of (get local q) r) (h r refl)

  diffs-at :
      (p : RelativePath) (m : Entries)
      → IsTable m
      → select op_path p (gather diffs m)
        ≡ at (diff_of (get local p)) (lookup RelativePath-discrete p m)
  diffs-at p m t =
      select-gather diffs op_path diffs-own p m t
      ∙ diffs_found p (lookup RelativePath-discrete p m) (λ r h. lookup-path m p r t.1 h)

merged_diff : (l r : Option FileEntry) → set_by (at (diff_of l) r) (hash_of l) ≡ merged l r
unfolding set_by diff_of content_changed
merged_diff none none = refl
merged_diff none (some r) = refl
merged_diff (some l) none = refl
merged_diff (some l) (some r) = ground arith

-- The operations of `diff` leave the local side, at every path, with the contents of the only side
-- that has the path, or of the newer version; of two versions of the same time, with its own.
pub diff_merges :
    (local remote : FileIndex) (p : RelativePath)
    → IsTable local.entries
    → IsTable remote.entries
    → apply_ops (contents local) (diff local remote) p ≡ merged (get local p) (get remote p)
unfolding diff get
diff_merges local remote p lt rt =
    ap (λ ops. apply_ops (contents local) ops p) (diff_loop-parts local [] remote.entries)
    ∙ apply_ops-plain (contents local) (gather (diffs local) remote.entries) p
        (All-gather IsPlain (diffs local) (diffs-IsPlain local) remote.entries)
    ∙ ap (λ ops. set_by ops (hash_of (get local p))) (diffs-at local p remote.entries rt)
    ∙ merged_diff (get local p) (lookup RelativePath-discrete p remote.entries)
