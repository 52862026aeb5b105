-- ===== src/Sync/Plan.antt =====
-- crates/yoop-core/src/sync/engine.rs: the order in which the operations of a plan are carried out.
pub mod Order
use yoop.Base.{ℕ, ◌+◌, Bool, List, [], ◌∷◌, ◌++◌, ◌==◌, length}
use yoop.Sync.Model.{directory, SyncOp, create, modify, delete, rename}

pub record SyncPlan : Type 0 where
  pub dir_creates : List SyncOp
  pub file_ops : List SyncOp
  pub renames : List SyncOp
  pub deletes : List SyncOp

abbrev pub empty_plan : SyncPlan
empty_plan = record { dir_creates = []; file_ops = []; renames = []; deletes = [] }

unfoldable pub add_op : SyncPlan → SyncOp → SyncPlan
add_op plan (create path directory size content_hash) = record plan {
  dir_creates = plan.dir_creates ++ create path directory size content_hash ∷ [];
}
add_op plan (create path kind size content_hash) = record plan {
  file_ops = plan.file_ops ++ create path kind size content_hash ∷ [];
}
add_op plan (modify path size content_hash) = record plan {
  file_ops = plan.file_ops ++ modify path size content_hash ∷ [];
}
add_op plan (rename from to kind) = record plan {
  renames = plan.renames ++ rename from to kind ∷ [];
}
add_op plan (delete path kind) = record plan { deletes = plan.deletes ++ delete path kind ∷ [] }

add_ops : SyncPlan → List SyncOp → SyncPlan
add_ops plan [] = plan
add_ops plan (op ∷ ops) = add_ops (add_op plan op) ops

unfoldable pub from_ops : List SyncOp → SyncPlan
unfolding add_ops
from_ops = add_ops empty_plan

unfoldable pub into_ordered_ops : SyncPlan → List SyncOp
into_ordered_ops plan = plan.dir_creates ++ (plan.renames ++ (plan.file_ops ++ plan.deletes))

unfoldable pub total_ops : SyncPlan → ℕ
total_ops plan =
    length plan.dir_creates + length plan.file_ops + length plan.renames + length plan.deletes

unfoldable pub is_empty : SyncPlan → Bool
unfolding total_ops
is_empty plan = total_ops plan == 0
