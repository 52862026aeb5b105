-- ===== src/Sync/Session/Planning.antt =====
-- crates/yoop-core/src/sync/session.rs and engine.rs: what the two devices plan after a handshake.
use yoop.Base.{ℕ, ◌<◌, ◌≡◌, refl, sym, ap, ◌∙◌, some, List, [], ◌∷◌, All, lookup, ite, ok}
use yoop.Transfer.Wire.{Program, done}
use yoop.Transfer.Network.{settle}
use yoop.Transfer.Peers.{answers}
use yoop.Sync.Model.{RelativePath, RelativePath-discrete, SyncOp, op_path}
use yoop.Sync.Index.{FileEntry, Entries, FileIndex, get}
use yoop.Sync.Index.Keyed.{IsTable, select}
use yoop.Sync.Engine.{SyncEngine, reconcile}
use yoop.Sync.Engine.Passes.{
  local_at, remote_at, reconcile_at, conflict_path, IsPlain, reconcile-IsPlain,
}
use yoop.Sync.Engine.Agreement.{
  Contents, apply_ops, contents, apply_ops-plain, merged, set_by, reconcile_converges,
  reconcile_swapped,
}
use yoop.Sync.Session.{SyncCodecs, SyncPeer, Handshake}
use yoop.Sync.Session.Received.{Sendable, in_seconds, cut, cut_at}
use yoop.Sync.Session.Handshakes.{start, Within, handshake_exchanges}

-- The time is a whole number of seconds since 1970.
abbrev pub InSeconds : FileEntry → Type 0
InSeconds e = in_seconds e.mtime ≡ e.mtime

cut_same : (e : FileEntry) → InSeconds e → cut e ≡ e
cut_same e h = ap (λ t. record e { mtime = t }) h

cut_at-same :
    (m : Entries) (p : RelativePath)
    → All (λ (x : RelativePath × FileEntry). InSeconds x.1) m
    → cut_at (lookup RelativePath-discrete p m) ≡ lookup RelativePath-discrete p m
unfolding lookup
cut_at-same [] p h = refl
cut_at-same ((q, e) ∷ m) p h =
    elim (RelativePath-discrete q p)
      as (λ d.
        cut_at (ite d (some e) (lookup RelativePath-discrete p m))
        ≡ ite d (some e) (lookup RelativePath-discrete p m)) [
          | yes same ↦ ap (λ x. some x) (cut_same e h.0)
          | no other ↦ cut_at-same m p h.1
        ]

-- The operations at a path depend on the entries of that path only.
reconcile-same :
    (engine : SyncEngine) (local remote remote' : FileIndex) (p : RelativePath)
    → IsTable local.entries
    → IsTable remote.entries
    → IsTable remote'.entries
    → get remote' p ≡ get remote p
    → let r = reconcile engine local remote in
      let s = reconcile engine local remote' in
      (select op_path p s.local_ops ≡ select op_path p r.local_ops)
      × (select op_path p s.remote_ops ≡ select op_path p r.remote_ops)
reconcile-same engine local remote remote' p lt rt rt' same =
    let (local_r, remote_r, _) = reconcile_at engine local remote p lt rt in
    let (local_s, remote_s, _) = reconcile_at engine local remote' p lt rt' in
    (
      local_s ∙ ap (λ o. local_at engine (get local p) o) same ∙ sym local_r,
      remote_s ∙ ap (λ o. remote_at engine (get local p) o) same ∙ sym remote_r,
    )

-- Plain operations that are the same at a path lead to the same contents there.
apply_ops-same :
    (f : Contents) (xs ys : List SyncOp) (p : RelativePath)
    → All IsPlain xs
    → All IsPlain ys
    → select op_path p xs ≡ select op_path p ys
    → apply_ops f xs p ≡ apply_ops f ys p
apply_ops-same f xs ys p hx hy same =
    apply_ops-plain f xs p hx ∙ ap (λ ops. set_by ops (f p)) same ∙ sym (apply_ops-plain f ys p hy)

-- The handshake and the reconciliation together: what `reconcile` plans for each device, from its index
-- and the one that came, agrees. If each device's own operations did to its contents what they say,
-- as `apply_ops` does, both would have the same contents at every path that is not in conflict, those
-- of the only side that has the path, or of the newer version. The conditions are those of the
-- handshake, the connection's included, an ambiguity window above 0, and that the times of both
-- indexes are whole seconds.
pub handshake_converges :
    (codecs : SyncCodecs) (xxh64 : List ℕ → ℕ) (engine : SyncEngine) (client host : SyncPeer)
    (p : RelativePath)
    → 0 < engine.conflict_detector.ambiguity_window_secs
    → IsTable client.local_index.entries
    → IsTable host.local_index.entries
    → All (λ (x : RelativePath × FileEntry). Sendable x.1) client.local_index.entries
    → All (λ (x : RelativePath × FileEntry). Sendable x.1) host.local_index.entries
    → All (λ (x : RelativePath × FileEntry). InSeconds x.1) client.local_index.entries
    → All (λ (x : RelativePath × FileEntry). InSeconds x.1) host.local_index.entries
    → Within codecs xxh64 client host
    → select conflict_path p (reconcile engine client.local_index host.local_index).conflicts ≡ []
    → (at_client at_host : FileIndex) × (settle Handshake
          (Program Handshake)
          (Unit {0})
          answers
          (start codecs xxh64 client host)
        ≡ (ok (host.device_name, at_client), done (ok (client.device_name, at_host)), tt, []))
      × (apply_ops
            (contents client.local_index)
            (reconcile engine client.local_index at_client).local_ops
            p
          ≡ merged (get client.local_index p) (get host.local_index p))
      × (apply_ops
            (contents host.local_index)
            (reconcile engine host.local_index at_host).local_ops
            p
          ≡ merged (get client.local_index p) (get host.local_index p))
unfolding get
handshake_converges codecs xxh64 engine client host p window ct ht cs hs cw hw within clear =
    let c = client.local_index in
    let h = host.local_index in
    let (at_client, at_host, ends, _, good_client, good_host, from_host, from_client) =
      handshake_exchanges codecs xxh64 client host ct ht cs hs within in
    let ours =
      reconcile-same engine c h at_client p ct ht good_client.table
        (from_host p ∙ cut_at-same h.entries p hw) in
    let theirs =
      reconcile-same engine h c at_host p ht ct good_host.table
        (from_client p ∙ cut_at-same c.entries p cw) in
    let (_, swapped) = reconcile_swapped engine c h p window ct ht in
    let (at_c, at_h) = reconcile_converges engine c h p ct ht clear in
    (
      at_client,
      at_host,
      ends,
      apply_ops-same (contents c) _ _ p
            (reconcile-IsPlain engine c at_client p ct good_client.table).0
            (reconcile-IsPlain engine c h p ct ht).0 ours.0
          ∙ at_c,
      apply_ops-same (contents h) _ _ p (reconcile-IsPlain engine h at_host p ht good_host.table).0
            (reconcile-IsPlain engine c h p ct ht).1 (theirs.0 ∙ swapped)
          ∙ at_h,
    )
