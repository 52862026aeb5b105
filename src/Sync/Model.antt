-- ===== src/Sync/Model.antt =====
-- crates/yoop-core/src/sync/mod.rs: paths, kinds of files, and operations.
use yoop.Base.{ℕ, ◌*◌, ◌^◌, String, List, map, ◌==◌, if◌then◌else◌, ℕ_discrete}

pub data FileKind : Type 0 where
  file directory symlink : FileKind

-- The text of a path is the list of its UTF-8 bytes.
pub record RelativePath : Type 0 where
  pub text : List ℕ

unfoldable pub RelativePath-discrete : Discrete RelativePath
RelativePath-discrete = hlevel ℕ_discrete

abbrev pub forward_slash : ℕ → ℕ
forward_slash b = if b == b'\\' then b'/' else b

-- `RelativePath::new`
unfoldable pub new_path : List ℕ → RelativePath
new_path path = record { text = map forward_slash path }

-- Nanoseconds since the earliest time that a 64-bit count of seconds can name.
abbrev pub SystemTime : Type 0
SystemTime = ℕ

abbrev pub nanos_per_sec : ℕ
nanos_per_sec = 1000000000

abbrev pub unix_epoch : SystemTime
unix_epoch = 2 ^ 63 * nanos_per_sec

pub data SyncOp : Type 0 where
  create : RelativePath → FileKind → (size content_hash : ℕ) → SyncOp
  modify : RelativePath → (size content_hash : ℕ) → SyncOp
  delete : RelativePath → FileKind → SyncOp
  rename : (from to : RelativePath) → FileKind → SyncOp

-- `SyncOp::path`
unfoldable pub op_path : SyncOp → RelativePath
op_path (create path kind size content_hash) = path
op_path (modify path size content_hash) = path
op_path (delete path kind) = path
op_path (rename from to kind) = to

unfoldable pub operation_type : SyncOp → String
operation_type (create path kind size content_hash) = "create"
operation_type (modify path size content_hash) = "modify"
operation_type (delete path kind) = "delete"
operation_type (rename from to kind) = "rename"
