-- ===== src/Sync/Engine/Resolutions.antt =====
-- crates/yoop-core/src/sync/engine.rs: what the resolution of the conflicts does to the local side.
use mathlib.Core.List.{append_assoc, append-nil}
use yoop.Base.{◌≡◌, refl, sym, ap, ◌∙◌, none, some, List, [], ◌∷◌, ◌++◌, map, ◌≢◌, All, All-append}
use yoop.Sync.Model.{RelativePath, SyncOp}
use yoop.Sync.Conflict.{
  Conflict, ConflictResolution, accept_remote, keep_local, rename_then_accept_remote, resolve,
  last_write_wins, resolve_with, resolve_last_write_wins, newer_version, ConflictVersion, local,
  remote,
}
use yoop.Sync.Engine.{SyncEngine, resolution_ops, resolutions_loop, apply_conflict_resolutions}
use yoop.Sync.Engine.Passes.{IsPlain}
use yoop.Sync.Engine.Agreement.{Contents, put, apply_op, apply_ops}

-- One conflict settled: the local version kept, or replaced by the remote one, or moved to another
-- name first.
abbrev pub settle : Contents → Conflict → ConflictResolution → Contents
settle f c accept_remote = put f c.path (some c.remote_hash)
settle f c keep_local = f
settle f c (rename_then_accept_remote rename_to) =
    put (put (put f c.path none) rename_to (f c.path)) c.path (some c.remote_hash)

-- The conflicts settled one after the other.
abbrev pub settle_all : SyncEngine → Contents → List Conflict → Contents
settle_all engine f [] = f
settle_all engine f (c ∷ cs) =
    settle_all engine (settle f c (resolve engine.conflict_detector c)) cs

apply_ops-append :
    (f : Contents) (xs ys : List SyncOp) → apply_ops f (xs ++ ys) ≡ apply_ops (apply_ops f xs) ys
apply_ops-append f [] ys = refl
apply_ops-append f (op ∷ xs) ys = apply_ops-append (apply_op f op) xs ys

apply-resolution_ops :
    (f : Contents) (c : Conflict) (resolution : ConflictResolution) (ops : List SyncOp)
    → apply_ops f (resolution_ops c resolution ops) ≡ settle (apply_ops f ops) c resolution
unfolding resolution_ops
apply-resolution_ops f c accept_remote ops = apply_ops-append f ops _
apply-resolution_ops f c keep_local ops = refl
apply-resolution_ops f c (rename_then_accept_remote to) ops =
    simp append_assoc (apply_ops-append f ops _)

module _ (engine : SyncEngine) (f : Contents) where
  loop_settles :
      (cs : List Conflict) (ops : List SyncOp) (resolutions : List ConflictResolution)
      → let r = resolutions_loop engine cs ops resolutions in
        (apply_ops f r.0 ≡ settle_all engine (apply_ops f ops) cs)
        × (r.1 ≡ resolutions ++ map (resolve engine.conflict_detector) cs)
  unfolding resolutions_loop
  loop_settles [] ops resolutions = (refl, sym (append-nil resolutions))
  loop_settles (c ∷ cs) ops resolutions =
      let resolution = resolve engine.conflict_detector c in
      let (same, all) =
        loop_settles cs (resolution_ops c resolution ops) (resolutions ++ resolution ∷ []) in
      (
        same ∙ ap (λ g. settle_all engine g cs) (apply-resolution_ops f c resolution ops),
        all
            ∙ append_assoc resolutions (resolution ∷ [])
                (map (resolve engine.conflict_detector) cs),
      )

-- The local operations lead, after those that were there before, to the contents with the conflicts
-- settled in order by the engine's strategy; the remote operations stay as they are; and the
-- resolutions are the strategy's, one for each conflict.
pub apply_conflict_resolutions_settles :
    (engine : SyncEngine) (f : Contents) (cs : List Conflict) (local_ops remote_ops : List SyncOp)
    → let r = apply_conflict_resolutions engine cs local_ops remote_ops in
      (apply_ops f r.0 ≡ settle_all engine (apply_ops f local_ops) cs)
      × (r.1 ≡ remote_ops)
      × (r.2 ≡ map (resolve engine.conflict_detector) cs)
unfolding apply_conflict_resolutions
apply_conflict_resolutions_settles engine f cs local_ops remote_ops =
    let (same, all) = loop_settles engine f cs local_ops [] in (same, refl, all)

resolution_ops-IsPlain :
    (c : Conflict) (resolution : ConflictResolution) (ops : List SyncOp)
    → ((to : RelativePath) → resolution ≢ rename_then_accept_remote to)
    → All IsPlain ops
    → All IsPlain (resolution_ops c resolution ops)
unfolding resolution_ops
resolution_ops-IsPlain c accept_remote ops h plain = All-append IsPlain ops _ plain (tt, tt)
resolution_ops-IsPlain c keep_local ops h plain = plain
resolution_ops-IsPlain c (rename_then_accept_remote to) ops h plain = absurd (h to refl)

last_write_wins_ne :
    (c : Conflict) (to : RelativePath)
    → resolve_with last_write_wins c ≢ rename_then_accept_remote to
unfolding resolve_with resolve_last_write_wins
last_write_wins_ne c to h = resolved (newer_version c) h
  where
    resolved :
        (v : ConflictVersion)
        → elim v [ remote ↦ accept_remote | local ↦ keep_local ] ≡ rename_then_accept_remote to
        → ⊥
    resolved remote h = cc
    resolved local h = cc

-- With the last write winning, the resolution of conflicts adds no operation but modifications.
pub resolutions-IsPlain :
    (engine : SyncEngine) (cs : List Conflict) (local_ops remote_ops : List SyncOp)
    → engine.conflict_detector.strategy ≡ last_write_wins
    → All IsPlain local_ops
    → All IsPlain (apply_conflict_resolutions engine cs local_ops remote_ops).0
unfolding apply_conflict_resolutions resolutions_loop resolve
resolutions-IsPlain engine cs local_ops remote_ops h plain = loop-IsPlain cs local_ops [] plain
  where
    loop-IsPlain :
        (cs : List Conflict) (ops : List SyncOp) (rs : List ConflictResolution)
        → All IsPlain ops
        → All IsPlain (resolutions_loop engine cs ops rs).0
    loop-IsPlain [] ops rs plain = plain
    loop-IsPlain (c ∷ cs) ops rs plain = loop-IsPlain cs _ _ (
        resolution_ops-IsPlain c (resolve engine.conflict_detector c) ops
          (λ to same. last_write_wins_ne c to (ap (λ s. resolve_with s c) (sym h) ∙ same)) plain)
