-- ===== src/Sync/Engine/Passes.antt =====
-- crates/yoop-core/src/sync/engine.rs: what the two loops of `reconcile` give, entry by entry and at
-- one path.
use mathlib.Core.List.{append_assoc, append-nil}
use mathlib.Core.Path.{ap₂}
use yoop.Base.{
  ◌≡◌, refl, sym, ap, ◌∙◌, true, Option, none, some, List, [], ◌∷◌, ◌++◌, arith, All, All-append,
  if◌then◌else◌, Option-cases, inl, inr, lookup, insert, lookup-insert,
}
use yoop.Sync.Model.{RelativePath, RelativePath-discrete, SyncOp, create, modify, op_path}
use yoop.Sync.Index.{
  FileEntry, FileIndex, Entries, content_changed, is_newer_than, get, create_of, modify_of,
}
use yoop.Sync.Index.Keyed.{Keyed, IsTable, select, select-append, gather, at, select-gather}
use yoop.Sync.Conflict.{Conflict, detect}
use yoop.Sync.Engine.{
  SyncEngine, Reconciled, Processed, detect_between, reconcile_entry, remote_pass, mark_processed,
  local_pass, reconcile,
}

-- What two entries of one path give, for the local side, the remote side, and the conflicts.
abbrev pub changed_local : SyncEngine → FileEntry → FileEntry → List SyncOp
changed_local engine l r = elim (detect_between engine l r) [
  | some _ ↦ []
  | none ↦ if is_newer_than r l then modify_of r ∷ [] else []
]

abbrev pub changed_remote : SyncEngine → FileEntry → FileEntry → List SyncOp
changed_remote engine l r = elim (detect_between engine l r) [
  | some _ ↦ []
  | none ↦ if is_newer_than r l then [] else modify_of l ∷ []
]

abbrev pub changed_conflict : SyncEngine → FileEntry → FileEntry → List Conflict
changed_conflict engine l r = elim (detect_between engine l r) [ some c ↦ c ∷ [] | none ↦ [] ]

-- What a remote entry gives beside the local entry of its path, if there is one.
abbrev pub local_of : SyncEngine → Option FileEntry → FileEntry → List SyncOp
local_of engine none r = create_of r ∷ []
local_of engine (some l) r = if content_changed l r then changed_local engine l r else []

abbrev pub remote_of : SyncEngine → Option FileEntry → FileEntry → List SyncOp
remote_of engine none r = []
remote_of engine (some l) r = if content_changed l r then changed_remote engine l r else []

abbrev pub conflict_of : SyncEngine → Option FileEntry → FileEntry → List Conflict
conflict_of engine none r = []
conflict_of engine (some l) r = if content_changed l r then changed_conflict engine l r else []

module _ (engine : SyncEngine) (local : FileIndex) where
  abbrev locals : FileEntry → List SyncOp
  locals r = local_of engine (get local r.path) r

  abbrev remotes : FileEntry → List SyncOp
  remotes r = remote_of engine (get local r.path) r

  abbrev conflicting : FileEntry → List Conflict
  conflicting r = conflict_of engine (get local r.path) r

  reconcile_entry-parts :
      (e : FileEntry) (r : Reconciled)
      → reconcile_entry engine local e r ≡ record {
        local_ops = r.local_ops ++ locals e;
        remote_ops = r.remote_ops ++ remotes e;
        conflicts = r.conflicts ++ conflicting e;
      }
  unfolding reconcile_entry
  reconcile_entry-parts e r =
      ground (arith, append-nil r.local_ops, append-nil r.remote_ops, append-nil r.conflicts)

  remote_pass-parts :
      (m : Entries) (r : Reconciled)
      → remote_pass engine local m r ≡ record {
        local_ops = r.local_ops ++ gather locals m;
        remote_ops = r.remote_ops ++ gather remotes m;
        conflicts = r.conflicts ++ gather conflicting m;
      }
  unfolding remote_pass
  remote_pass-parts [] r =
      ground (arith, append-nil r.local_ops, append-nil r.remote_ops, append-nil r.conflicts)
  remote_pass-parts ((p, e) ∷ m) r =
      rw (reconcile_entry-parts e r) (remote_pass-parts m _ ∙ simp append_assoc)

-- Whether a path has been met by the loop over the remote entries.
lookup-mark_processed :
    (m : Entries) (processed : Processed) (p : RelativePath)
    → Keyed m
    → lookup RelativePath-discrete p (mark_processed m processed)
      ≡ elim (lookup RelativePath-discrete p m) [
        | some _ ↦ some true
        | none ↦ lookup RelativePath-discrete p processed
      ]
unfolding mark_processed lookup
lookup-mark_processed [] processed p k = refl
lookup-mark_processed ((q, e) ∷ m) processed p k = ground (
  arith,
  k.0,
  lookup-mark_processed m (insert RelativePath-discrete e.path true processed) p k.1,
  lookup-insert RelativePath-discrete e.path p true processed,
)

-- What the second loop gives for a local entry.
abbrev pub local_only : Processed → FileEntry → List SyncOp
local_only processed e = elim (lookup RelativePath-discrete e.path processed) [
  | some _ ↦ []
  | none ↦ create_of e ∷ []
]

local_only-own :
    (processed : Processed) (e : FileEntry) → All (λ a. op_path a ≡ e.path) (local_only processed e)
unfolding op_path
local_only-own processed e = elim (Option-cases (lookup RelativePath-discrete e.path processed)) [
  | inl h ↦ ground (arith, h)
  | inr (_, h) ↦ ground (arith, h)
]

local_pass-parts :
    (processed : Processed) (m : Entries) (ops : List SyncOp)
    → local_pass processed m ops ≡ ops ++ gather (local_only processed) m
unfolding local_pass
local_pass-parts processed [] ops = sym (append-nil ops)
local_pass-parts processed ((p, e) ∷ m) ops =
    local_pass-parts processed m _
    ∙ ground (arith, append_assoc ops (create_of e ∷ []) (gather (local_only processed) m))

-- What stands at a path, by the entries that the two sides have there.
abbrev pub local_at : SyncEngine → Option FileEntry → Option FileEntry → List SyncOp
local_at engine l none = []
local_at engine l (some r) = local_of engine l r

abbrev pub remote_at : SyncEngine → Option FileEntry → Option FileEntry → List SyncOp
remote_at engine none none = []
remote_at engine (some l) none = create_of l ∷ []
remote_at engine l (some r) = remote_of engine l r

abbrev pub conflict_at : SyncEngine → Option FileEntry → Option FileEntry → List Conflict
conflict_at engine l none = []
conflict_at engine l (some r) = conflict_of engine l r

abbrev pub conflict_path : Conflict → RelativePath
conflict_path c = c.path

-- What stands at a path, in an index, is an entry of that path.
pub lookup-path :
    (m : Entries) (p : RelativePath) (e : FileEntry)
    → Keyed m
    → lookup RelativePath-discrete p m ≡ some e
    → e.path ≡ p
unfolding lookup
lookup-path [] p e k h = cc
lookup-path ((q, d) ∷ m) p e k h = ground (arith, k.0, h, lookup-path m p e k.1)

-- The items that two entries of the path `p` give are about `p`.
module _ (engine : SyncEngine) (p : RelativePath) (r : FileEntry) (at_p : r.path ≡ p) where
  locals-own : (o : Option FileEntry) → All (λ a. op_path a ≡ p) (local_of engine o r)
  unfolding op_path
  locals-own none = ground (arith, at_p)
  locals-own (some l) = ground (arith, at_p)

  remotes-own :
      (o : Option FileEntry)
      → ((l : FileEntry) → o ≡ some l → l.path ≡ p)
      → All (λ a. op_path a ≡ p) (remote_of engine o r)
  unfolding op_path
  remotes-own none h = tt
  remotes-own (some l) h = ground (arith, h l refl)

  detect_between-path :
      (l : FileEntry) (c : Conflict) → detect_between engine l r ≡ some c → c.path ≡ p
  unfolding detect_between detect
  detect_between-path l c h = ground (arith, at_p, h)

  conflicts-own : (o : Option FileEntry) → All (λ c. conflict_path c ≡ p) (conflict_of engine o r)
  conflicts-own none = tt
  conflicts-own (some l) = elim (Option-cases (detect_between engine l r)) [
    | inl h ↦ ground (arith, h)
    | inr (c, h) ↦ ground (arith, h, detect_between-path l c h)
  ]

-- `reconcile` makes only these.
abbrev pub IsPlain : SyncOp → Type 0
IsPlain (create _ _ _ _) = Unit {0}
IsPlain (modify _ _ _) = Unit {0}
IsPlain _ = ⊥

pub All-gather :
    {A : Type 0} (P : A → Type 0) (f : FileEntry → List A)
    → ((e : FileEntry) → All P (f e))
    → (m : Entries) → All P (gather f m)
All-gather P f h [] = tt
All-gather P f h ((p, e) ∷ m) = All-append P (f e) (gather f m) (h e) (All-gather P f h m)

module _ (engine : SyncEngine) where
  local_of-IsPlain : (o : Option FileEntry) (r : FileEntry) → All IsPlain (local_of engine o r)
  local_of-IsPlain none r = (tt, tt)
  local_of-IsPlain (some l) r = ground arith

  remote_of-IsPlain : (o : Option FileEntry) (r : FileEntry) → All IsPlain (remote_of engine o r)
  remote_of-IsPlain none r = tt
  remote_of-IsPlain (some l) r = ground arith

local_only-IsPlain : (processed : Processed) (e : FileEntry) → All IsPlain (local_only processed e)
local_only-IsPlain processed e = ground arith

module _ (engine : SyncEngine) (local remote : FileIndex) (p : RelativePath) where
  module _ (lt : IsTable local.entries) (rt : IsTable remote.entries) where
    get-path : (l : FileEntry) (q : RelativePath) → get local q ≡ some l → l.path ≡ q
    unfolding get
    get-path l q h = lookup-path local.entries q l lt.1 h

    -- An entry that is found at `p` is one of `p`, so that the local entry is the one at `p`.
    of_found :
        {A : Type 0} (f : Option FileEntry → FileEntry → List A) (o : Option FileEntry)
        → ((r : FileEntry) → o ≡ some r → r.path ≡ p)
        → at (λ r. f (get local r.path) r) o ≡ at (f (get local p)) o
    of_found f none h = refl
    of_found f (some r) h = ap (λ q. f (get local q) r) (h r refl)

    remote_found : (r : FileEntry) → get remote p ≡ some r → r.path ≡ p
    unfolding get
    remote_found r h = lookup-path remote.entries p r rt.1 h

    at_path :
        {A : Type 0} (path_of : A → RelativePath) (f : Option FileEntry → FileEntry → List A)
        → ((r : FileEntry) → All (λ a. path_of a ≡ r.path) (f (get local r.path) r))
        → select path_of p (gather (λ r. f (get local r.path) r) remote.entries)
          ≡ at (f (get local p)) (get remote p)
    unfolding get
    at_path path_of f own =
        select-gather (λ r. f (get local r.path) r) path_of own p remote.entries rt
        ∙ of_found f (get remote p) remote_found

    processed : Processed
    processed = mark_processed remote.entries []

    lookup-processed :
        lookup RelativePath-discrete p processed
        ≡ elim (get remote p) [ some _ ↦ some true | none ↦ none ]
    unfolding processed get
    lookup-processed = lookup-mark_processed remote.entries [] p rt.1 ∙ empty
      where
        empty :
            elim (lookup RelativePath-discrete p remote.entries) [
              | some _ ↦ some true
              | none ↦ lookup RelativePath-discrete p []
            ]
            ≡ elim (lookup RelativePath-discrete p remote.entries) [
              | some _ ↦ some true
              | none ↦ none
            ]
        empty = unfold lookup in refl

    reconcile-parts : reconcile engine local remote ≡ record {
      local_ops = gather (locals engine local) remote.entries;
      remote_ops =
          gather (remotes engine local) remote.entries
          ++ gather (local_only processed) local.entries;
      conflicts = gather (conflicting engine local) remote.entries;
    }
    unfolding reconcile processed
    reconcile-parts = ground (
      arith,
      remote_pass-parts engine local remote.entries
          (record { local_ops = []; remote_ops = []; conflicts = [] }),
      local_pass-parts (mark_processed remote.entries []) local.entries
          (gather (remotes engine local) remote.entries),
    )

    -- The operation for a local entry that the other side lacks.
    missing : Option FileEntry → Option FileEntry → List SyncOp
    missing l (some r) = []
    missing none none = []
    missing (some l) none = create_of l ∷ []

    local_only_at :
        select op_path p (gather (local_only processed) local.entries)
        ≡ missing (get local p) (get remote p)
    unfolding get missing
    local_only_at =
        select-gather (local_only processed) op_path (local_only-own processed) p local.entries lt
        ∙ found (get local p) (λ l h. get-path l p h)
      where
        found :
            (o : Option FileEntry)
            → ((l : FileEntry) → o ≡ some l → l.path ≡ p)
            → at (local_only processed) o ≡ missing o (get remote p)
        found none h = ground arith
        found (some l) h = ground (arith, h l refl, lookup-processed)

    remote_parts :
        (l r : Option FileEntry) → at (remote_of engine l) r ++ missing l r ≡ remote_at engine l r
    unfolding missing
    remote_parts none none = refl
    remote_parts (some l) none = refl
    remote_parts l (some r) = append-nil _

    local_parts : (l r : Option FileEntry) → at (local_of engine l) r ≡ local_at engine l r
    local_parts l none = refl
    local_parts l (some r) = refl

    conflict_parts : (l r : Option FileEntry) → at (conflict_of engine l) r ≡ conflict_at engine l r
    conflict_parts l none = refl
    conflict_parts l (some r) = refl

    -- The operations and conflicts of `reconcile` at a path depend on the two entries of that path
    -- alone, and not on the order in which the maps are iterated.
    pub reconcile_at :
        let r = reconcile engine local remote in
        (select op_path p r.local_ops ≡ local_at engine (get local p) (get remote p))
        × (select op_path p r.remote_ops ≡ remote_at engine (get local p) (get remote p))
        × (select conflict_path p r.conflicts ≡ conflict_at engine (get local p) (get remote p))
    reconcile_at = (
      ap (λ (r : Reconciled). select op_path p r.local_ops) reconcile-parts
          ∙ at_path op_path (local_of engine)
              (λ r. locals-own engine r.path r refl (get local r.path))
          ∙ local_parts (get local p) (get remote p),
      ap (λ (r : Reconciled). select op_path p r.remote_ops) reconcile-parts
          ∙ select-append op_path p (gather (remotes engine local) remote.entries)
              (gather (local_only processed) local.entries)
          ∙ ap₂ ◌++◌
              (at_path op_path (remote_of engine) (λ r.
                remotes-own engine r.path r refl (get local r.path) (λ l h. get-path l r.path h)))
              local_only_at
          ∙ remote_parts (get local p) (get remote p),
      ap (λ (r : Reconciled). select conflict_path p r.conflicts) reconcile-parts
          ∙ at_path conflict_path (conflict_of engine)
              (λ r. conflicts-own engine r.path r refl (get local r.path))
          ∙ conflict_parts (get local p) (get remote p),
    )

    -- `reconcile` neither deletes nor renames.
    pub reconcile-IsPlain :
        let r = reconcile engine local remote in All IsPlain r.local_ops × All IsPlain r.remote_ops
    reconcile-IsPlain = rw reconcile-parts (
      All-gather IsPlain (locals engine local) (λ r. local_of-IsPlain engine (get local r.path) r)
          remote.entries,
      All-append IsPlain (gather (remotes engine local) remote.entries) _
          (All-gather IsPlain (remotes engine local)
            (λ r. remote_of-IsPlain engine (get local r.path) r) remote.entries)
          (All-gather IsPlain (local_only processed) (local_only-IsPlain processed) local.entries),
    )
