-- ===== src/Sync/Plan/Order.antt =====
-- crates/yoop-core/src/sync/engine.rs: `SyncPlan` puts operations in stages, and keeps their order
-- within a stage.
use mathlib.Core.List.{append_assoc, append-nil}
use yoop.Base.{
  ℕ, zero, suc, ◌+◌, ◌≤◌, ◌≡◌, refl, sym, ap, ◌∙◌, ◌≢◌, ite, if_pos, if_neg, ℕ_discrete, List, [],
  ◌∷◌, ◌++◌, arith, length, length-append, All, All-append,
}
use yoop.Sync.Model.{file, directory, symlink, SyncOp, create, modify, delete, rename}
use yoop.Sync.Plan.{SyncPlan, empty_plan, add_op, add_ops, from_ops, into_ordered_ops, total_ops}

-- The stage in which an operation is carried out.
abbrev pub stage : SyncOp → ℕ
stage (create path directory size content_hash) = 0
stage (rename from to kind) = 1
stage (create path file size content_hash) = 2
stage (create path symlink size content_hash) = 2
stage (modify path size content_hash) = 2
stage (delete path kind) = 3

-- The stages do not fall along the list.
abbrev pub Staged : ℕ → List SyncOp → Type 0
Staged n [] = Unit {0}
Staged n (op ∷ ops) = (n ≤ stage op) × Staged (stage op) ops

-- Each list of a plan holds the operations of one stage.
abbrev AtStage : ℕ → SyncOp → Type 0
AtStage n op = stage op ≡ n

record IsSorted (plan : SyncPlan) : Type 0 where
  dirs : All (AtStage 0) plan.dir_creates
  moves : All (AtStage 1) plan.renames
  files : All (AtStage 2) plan.file_ops
  removals : All (AtStage 3) plan.deletes

snoc_stage :
    (n : ℕ) (ops : List SyncOp) (op : SyncOp)
    → All (AtStage n) ops
    → stage op ≡ n
    → All (AtStage n) (ops ++ op ∷ [])
snoc_stage n ops op h e = All-append (AtStage n) ops (op ∷ []) h (e, tt)

add_op-IsSorted : (plan : SyncPlan) (op : SyncOp) → IsSorted plan → IsSorted (add_op plan op)
unfolding add_op
add_op-IsSorted plan (create p directory s c) v = record {
  dirs = snoc_stage 0 plan.dir_creates _ v.dirs refl;
  moves = v.moves;
  files = v.files;
  removals = v.removals;
}
add_op-IsSorted plan (create p file s c) v = record {
  dirs = v.dirs;
  moves = v.moves;
  files = snoc_stage 2 plan.file_ops _ v.files refl;
  removals = v.removals;
}
add_op-IsSorted plan (create p symlink s c) v = record {
  dirs = v.dirs;
  moves = v.moves;
  files = snoc_stage 2 plan.file_ops _ v.files refl;
  removals = v.removals;
}
add_op-IsSorted plan (modify p s c) v = record {
  dirs = v.dirs;
  moves = v.moves;
  files = snoc_stage 2 plan.file_ops _ v.files refl;
  removals = v.removals;
}
add_op-IsSorted plan (rename p q k) v = record {
  dirs = v.dirs;
  moves = snoc_stage 1 plan.renames _ v.moves refl;
  files = v.files;
  removals = v.removals;
}
add_op-IsSorted plan (delete p k) v = record {
  dirs = v.dirs;
  moves = v.moves;
  files = v.files;
  removals = snoc_stage 3 plan.deletes _ v.removals refl;
}

add_ops-IsSorted :
    (plan : SyncPlan) (ops : List SyncOp) → IsSorted plan → IsSorted (add_ops plan ops)
unfolding add_ops
add_ops-IsSorted plan [] v = v
add_ops-IsSorted plan (op ∷ ops) v =
    add_ops-IsSorted (add_op plan op) ops (add_op-IsSorted plan op v)

Staged-append :
    (m n : ℕ) (xs ys : List SyncOp)
    → m ≤ n
    → All (AtStage n) xs
    → ((k : ℕ) → k ≤ n → Staged k ys)
    → Staged m (xs ++ ys)
Staged-append m n [] ys h all rest = rest m h
Staged-append m n (op ∷ xs) ys h all rest =
    (omega (arith, all.0, h), Staged-append (stage op) n xs ys (omega (arith, all.0)) all.1 rest)

Staged-All : (m n : ℕ) (xs : List SyncOp) → m ≤ n → All (AtStage n) xs → Staged m xs
Staged-All m n [] h all = tt
Staged-All m n (op ∷ xs) h all =
    (omega (arith, all.0, h), Staged-All (stage op) n xs (omega (arith, all.0)) all.1)

ordered-Staged : (plan : SyncPlan) → IsSorted plan → Staged 0 (into_ordered_ops plan)
unfolding into_ordered_ops
ordered-Staged plan v = Staged-append 0 0 plan.dir_creates _ (omega arith) v.dirs λ i hi.
    Staged-append i 1 plan.renames _ (omega arith) v.moves λ j hj.
      Staged-append j 2 plan.file_ops _ (omega arith) v.files
        λ k hk. Staged-All k 3 plan.deletes (omega (arith, hk)) v.removals

module _ (n : ℕ) where
  -- The operations of one stage, in their order.
  abbrev pub at_stage : List SyncOp → List SyncOp
  at_stage [] = []
  at_stage (op ∷ ops) = ite (ℕ_discrete (stage op) n) (op ∷ at_stage ops) (at_stage ops)

  at_stage-append : (xs ys : List SyncOp) → at_stage (xs ++ ys) ≡ at_stage xs ++ at_stage ys
  at_stage-append [] ys = refl
  at_stage-append (op ∷ xs) ys = ground (arith, at_stage-append xs ys)

  at_stage-same : (xs : List SyncOp) → All (AtStage n) xs → at_stage xs ≡ xs
  at_stage-same [] h = refl
  at_stage-same (op ∷ xs) h = ground (arith, h.0, at_stage-same xs h.1)

  at_stage-other : (m : ℕ) (xs : List SyncOp) → m ≢ n → All (AtStage m) xs → at_stage xs ≡ []
  at_stage-other m [] e h = refl
  at_stage-other m (op ∷ xs) e h = ground (arith, e, h.0, at_stage-other m xs e h.1)

at_list :
    (m n : ℕ) (xs : List SyncOp) → All (AtStage m) xs → at_stage n xs ≡ ite (ℕ_discrete m n) xs []
at_list m n xs h = elim (ℕ_discrete m n) [
  | yes e ↦ rw (if_pos _ e) (rw (← e) (at_stage-same m xs h))
  | no e ↦ rw (if_neg _ e) (at_stage-other n m xs e h)
]

-- The list of a plan that holds a stage.
slot : ℕ → SyncPlan → List SyncOp
slot zero plan = plan.dir_creates
slot (suc zero) plan = plan.renames
slot (suc (suc zero)) plan = plan.file_ops
slot (suc (suc (suc zero))) plan = plan.deletes
slot (suc (suc (suc (suc n)))) plan = []

four_parts :
    (n : ℕ) (plan : SyncPlan)
    → at_stage n (into_ordered_ops plan)
      ≡ at_stage n plan.dir_creates
        ++ (at_stage n plan.renames ++ (at_stage n plan.file_ops ++ at_stage n plan.deletes))
unfolding into_ordered_ops
four_parts n plan =
    rw (at_stage-append n plan.dir_creates (plan.renames ++ (plan.file_ops ++ plan.deletes))) (
      rw (at_stage-append n plan.renames (plan.file_ops ++ plan.deletes))
        (rw (at_stage-append n plan.file_ops plan.deletes)))

at_stage-slot :
    (n : ℕ) (plan : SyncPlan) → IsSorted plan → at_stage n (into_ordered_ops plan) ≡ slot n plan
unfolding slot
at_stage-slot n plan v = four_parts n plan ∙ slots n
  where
    slots :
        (k : ℕ)
        → at_stage k plan.dir_creates
            ++ (at_stage k plan.renames ++ (at_stage k plan.file_ops ++ at_stage k plan.deletes))
          ≡ slot k plan
    slots k = rw (at_list 0 k plan.dir_creates v.dirs) (
        rw (at_list 1 k plan.renames v.moves) (
          rw (at_list 2 k plan.file_ops v.files)
            (rw (at_list 3 k plan.deletes v.removals) (chosen k))))
      where
        chosen :
            (j : ℕ)
            → ite (ℕ_discrete 0 j) plan.dir_creates []
                ++ (ite (ℕ_discrete 1 j) plan.renames []
                    ++ (ite (ℕ_discrete 2 j) plan.file_ops []
                        ++ ite (ℕ_discrete 3 j) plan.deletes []))
              ≡ slot j plan
        chosen zero = ground (arith, append-nil plan.dir_creates)
        chosen (suc zero) = ground (arith, append-nil plan.renames)
        chosen (suc (suc zero)) = ground (arith, append-nil plan.file_ops)
        chosen (suc (suc (suc zero))) = ground arith
        chosen (suc (suc (suc (suc j)))) = ground arith

slot-add_op :
    (n : ℕ) (plan : SyncPlan) (op : SyncOp)
    → slot n (add_op plan op) ≡ slot n plan ++ at_stage n (op ∷ [])
unfolding slot add_op
slot-add_op (suc (suc (suc zero))) plan (create p directory s c) = ground (
  arith,
  append-nil plan.dir_creates,
  append-nil plan.renames,
  append-nil plan.file_ops,
  append-nil plan.deletes,
)
slot-add_op n plan op = ground (
  arith,
  append-nil plan.dir_creates,
  append-nil plan.renames,
  append-nil plan.file_ops,
  append-nil plan.deletes,
)

slot-empty : (n : ℕ) → slot n empty_plan ≡ []
unfolding slot
slot-empty zero = refl
slot-empty (suc zero) = refl
slot-empty (suc (suc zero)) = refl
slot-empty (suc (suc (suc zero))) = refl
slot-empty (suc (suc (suc (suc n)))) = refl

total_ops-add_op : (plan : SyncPlan) (op : SyncOp) → total_ops (add_op plan op) ≡ total_ops plan + 1
unfolding total_ops add_op
total_ops-add_op plan (create p directory s c) =
    omega (arith, length-append plan.dir_creates (create p directory s c ∷ []))
total_ops-add_op plan (create p file s c) =
    omega (arith, length-append plan.file_ops (create p file s c ∷ []))
total_ops-add_op plan (create p symlink s c) =
    omega (arith, length-append plan.file_ops (create p symlink s c ∷ []))
total_ops-add_op plan (modify p s c) =
    omega (arith, length-append plan.file_ops (modify p s c ∷ []))
total_ops-add_op plan (rename p q k) = omega (arith, length-append plan.renames (rename p q k ∷ []))
total_ops-add_op plan (delete p k) = omega (arith, length-append plan.deletes (delete p k ∷ []))

slot-add_ops :
    (n : ℕ) (plan : SyncPlan) (ops : List SyncOp)
    → slot n (add_ops plan ops) ≡ slot n plan ++ at_stage n ops
unfolding add_ops
slot-add_ops n plan [] = sym (append-nil (slot n plan))
slot-add_ops n plan (op ∷ ops) =
    slot-add_ops n (add_op plan op) ops
    ∙ ap (λ xs. xs ++ at_stage n ops) (slot-add_op n plan op)
    ∙ append_assoc (slot n plan) (at_stage n (op ∷ [])) (at_stage n ops)
    ∙ ap (λ xs. slot n plan ++ xs) (sym (at_stage-append n (op ∷ []) ops))

total_ops-add_ops :
    (plan : SyncPlan) (ops : List SyncOp)
    → total_ops (add_ops plan ops) ≡ total_ops plan + length ops
unfolding add_ops
total_ops-add_ops plan [] = omega arith
total_ops-add_ops plan (op ∷ ops) =
    omega (arith, total_ops-add_ops (add_op plan op) ops, total_ops-add_op plan op)

empty-IsSorted : IsSorted empty_plan
empty-IsSorted = record { dirs = tt; moves = tt; files = tt; removals = tt }

-- The ordered operations of a plan go through the stages: directories created, renames, other
-- creations and modifications, deletions. Within each stage they are the given ones of that stage,
-- all of them, in the given order; and `total_ops` counts the given operations.
pub from_ops_ordered :
    (ops : List SyncOp)
    → Staged 0 (into_ordered_ops (from_ops ops))
      × ((n : ℕ) → at_stage n (into_ordered_ops (from_ops ops)) ≡ at_stage n ops)
      × (total_ops (from_ops ops) ≡ length ops)
unfolding from_ops
from_ops_ordered ops =
    let v = add_ops-IsSorted empty_plan ops empty-IsSorted in
    (
      ordered-Staged (add_ops empty_plan ops) v,
      λ n.
          at_stage-slot n (add_ops empty_plan ops) v
          ∙ slot-add_ops n empty_plan ops
          ∙ ap (λ xs. xs ++ at_stage n ops) (slot-empty n),
      total_ops-add_ops empty_plan ops ∙ unfold total_ops in omega arith,
    )

abbrev AllParts : (SyncOp → Type 0) → SyncPlan → Type 0
AllParts P plan =
    All P plan.dir_creates × All P plan.file_ops × All P plan.renames × All P plan.deletes

add_op-All :
    (P : SyncOp → Type 0) (plan : SyncPlan) (op : SyncOp)
    → AllParts P plan
    → P op
    → AllParts P (add_op plan op)
unfolding add_op
add_op-All P plan (create path directory size h) a p =
    (All-append P plan.dir_creates _ a.0 (p, tt), a.1, a.2, a.3)
add_op-All P plan (create path file size h) a p =
    (a.0, All-append P plan.file_ops _ a.1 (p, tt), a.2, a.3)
add_op-All P plan (create path symlink size h) a p =
    (a.0, All-append P plan.file_ops _ a.1 (p, tt), a.2, a.3)
add_op-All P plan (modify path size h) a p =
    (a.0, All-append P plan.file_ops _ a.1 (p, tt), a.2, a.3)
add_op-All P plan (rename from to kind) a p =
    (a.0, a.1, All-append P plan.renames _ a.2 (p, tt), a.3)
add_op-All P plan (delete path kind) a p = (a.0, a.1, a.2, All-append P plan.deletes _ a.3 (p, tt))

add_ops-All :
    (P : SyncOp → Type 0) (plan : SyncPlan) (ops : List SyncOp)
    → AllParts P plan
    → All P ops
    → AllParts P (add_ops plan ops)
unfolding add_ops
add_ops-All P plan [] a p = a
add_ops-All P plan (op ∷ ops) a p =
    add_ops-All P (add_op plan op) ops (add_op-All P plan op a p.0) p.1

-- A plan has no operations but those that were given.
pub from_ops-All :
    (P : SyncOp → Type 0) (ops : List SyncOp) → All P ops → All P (into_ordered_ops (from_ops ops))
unfolding from_ops into_ordered_ops
from_ops-All P ops p =
    let plan = add_ops empty_plan ops in
    let a = add_ops-All P empty_plan ops (tt, tt, tt, tt) p in
    All-append P plan.dir_creates _ a.0
      (All-append P plan.renames _ a.2 (All-append P plan.file_ops plan.deletes a.1 a.3))
