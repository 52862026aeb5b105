-- ===== src/Sync/Conflict.antt =====
-- crates/yoop-core/src/sync/conflict.rs: conflicts, their detection and their resolution.
pub mod Names
pub mod Detection
use yoop.Base.{
  ℕ, zero, suc, ◌-◌, ◌*◌, ◌/◌, Bool, true, false, not, ◌&&◌, Option, none, some, List, [], ◌∷◌,
  ◌++◌, ltb, leb, ◌==◌, if◌then◌else◌, take, drop,
}
use yoop.Base.Decimal.{to_string}
use yoop.Sync.Model.{FileKind, RelativePath, new_path, SystemTime, nanos_per_sec, unix_epoch}

pub record Conflict : Type 0 where
  pub path : RelativePath
  pub local_mtime : SystemTime
  pub local_hash : ℕ
  pub remote_mtime : SystemTime
  pub remote_hash : ℕ
  pub kind : FileKind

-- `SystemTime::duration_since`, in nanoseconds; an error if `earlier` is later.
unfoldable pub duration_since : SystemTime → SystemTime → Option ℕ
duration_since t earlier = if leb earlier t then some (t - earlier) else none

or_else : Option ℕ → Option ℕ → Option ℕ
or_else none b = b
or_else (some a) b = some a

unwrap_or_default : Option ℕ → ℕ
unwrap_or_default none = 0
unwrap_or_default (some a) = a

unfoldable pub time_diff : Conflict → ℕ
unfolding duration_since or_else unwrap_or_default
time_diff c = unwrap_or_default (
    or_else (duration_since c.local_mtime c.remote_mtime)
      (duration_since c.remote_mtime c.local_mtime))

unfoldable pub is_ambiguous : Conflict → ℕ → Bool
unfolding time_diff
is_ambiguous c window_secs =
    if c.local_hash == c.remote_hash then false else ltb (time_diff c) (window_secs * nanos_per_sec)

pub data ConflictVersion : Type 0 where
  local remote : ConflictVersion

unfoldable pub newer_version : Conflict → ConflictVersion
newer_version c = if ltb c.local_mtime c.remote_mtime then remote else local

unfoldable pub time_diff_secs : Conflict → ℕ
unfolding time_diff
time_diff_secs c = time_diff c / nanos_per_sec

pub data ConflictResolution : Type 0 where
  accept_remote keep_local : ConflictResolution
  rename_then_accept_remote : (rename_to : RelativePath) → ConflictResolution

-- `str::rfind`: where the last `p` stands
rfind : ℕ → List ℕ → Option ℕ
rfind p [] = none
rfind p (b ∷ s) = elim (rfind p s) [
  | some i ↦ some (suc i)
  | none ↦ if b == p then some 0 else none
]

-- The text `.conflict.`.
abbrev pub marker : List ℕ
marker = b'.' ∷ b'c' ∷ b'o' ∷ b'n' ∷ b'f' ∷ b'l' ∷ b'i' ∷ b'c' ∷ b't' ∷ b'.' ∷ []

unfoldable pub timestamp : SystemTime → ℕ
unfolding duration_since unwrap_or_default
timestamp mtime = unwrap_or_default (duration_since mtime unix_epoch) / nanos_per_sec

unfoldable pub generate_conflict_name : RelativePath → SystemTime → RelativePath
unfolding rfind timestamp
generate_conflict_name path mtime = elim (rfind b'.' path.text) [
  | none ↦ new_path (path.text ++ (marker ++ to_string (timestamp mtime)))
  | some dot ↦
      new_path
        (take dot path.text ++ (marker ++ (to_string (timestamp mtime) ++ drop dot path.text)))
]

pub data ResolutionStrategy : Type 0 where
  last_write_wins keep_both prefer_local prefer_remote : ResolutionStrategy

unfoldable pub resolve_last_write_wins : Conflict → ConflictResolution
unfolding newer_version
resolve_last_write_wins c = elim (newer_version c) [ remote ↦ accept_remote | local ↦ keep_local ]

unfoldable pub resolve_keep_both : Conflict → ConflictResolution
resolve_keep_both c = rename_then_accept_remote (generate_conflict_name c.path c.local_mtime)

-- `ResolutionStrategy::resolve`
unfoldable pub resolve_with : ResolutionStrategy → Conflict → ConflictResolution
unfolding resolve_last_write_wins resolve_keep_both
resolve_with last_write_wins c = resolve_last_write_wins c
resolve_with keep_both c = resolve_keep_both c
resolve_with prefer_local c = keep_local
resolve_with prefer_remote c = accept_remote

pub record ConflictDetector : Type 0 where
  pub strategy : ResolutionStrategy
  pub ambiguity_window_secs : ℕ

unfoldable pub new_detector : ResolutionStrategy → ConflictDetector
new_detector strategy = record { strategy = strategy; ambiguity_window_secs = 2 }

unfoldable pub with_ambiguity_window : ConflictDetector → ℕ → ConflictDetector
with_ambiguity_window d secs = record d { ambiguity_window_secs = secs }

unfoldable pub detect :
    ConflictDetector
    → RelativePath
    → (local_mtime : SystemTime) → (local_hash : ℕ) → (remote_mtime : SystemTime)
    → (remote_hash : ℕ) → FileKind
    → Option Conflict
unfolding is_ambiguous
detect d path local_mtime local_hash remote_mtime remote_hash kind =
    let conflict : Conflict = record {
      path = path;
      local_mtime = local_mtime;
      local_hash = local_hash;
      remote_mtime = remote_mtime;
      remote_hash = remote_hash;
      kind = kind;
    } in
    if local_hash == remote_hash
    then none
    else if is_ambiguous conflict d.ambiguity_window_secs
    then some conflict
    else none

-- `ConflictDetector::resolve`
unfoldable pub resolve : ConflictDetector → Conflict → ConflictResolution
unfolding resolve_with
resolve d c = resolve_with d.strategy c
