-- ===== src/Migration.antt =====
-- crates/yoop-core/src/update/mod.rs: versions and their order; crates/yoop-core/src/migration/mod.rs
-- and version.rs: the choice of the migrations to run, and the recorded state. A time is a number, a
-- string the list of its code points.
pub mod Pending
pub mod Backup
pub mod Run
mod Memory
mod Examples
use Prim.Native.Nat.{compare, Ordering}
use yoop.Base.{
  ℕ, zero, suc, ◌+◌, ◌≡◌, Bool, true, false, ◌&&◌, Option, none, some, List, [], ◌∷◌, ◌++◌,
  if◌then◌else◌, length, map, ltb, leb,
}
use yoop.Storage.{Text}

pub record SchemaVersion : Type 0 where
  pub major : ℕ
  pub minor : ℕ
  pub patch : ℕ

-- `Ord::cmp`
abbrev pub cmp : SchemaVersion → SchemaVersion → Ordering
cmp a b = elim (compare a.major b.major) [
  | Ordering.eq ↦ elim (compare a.minor b.minor) [
    | Ordering.eq ↦ compare a.patch b.patch
    | other ↦ other
  ]
  | other ↦ other
]

-- `<`, `<=` and `==`
abbrev pub version_lt : SchemaVersion → SchemaVersion → Bool
version_lt a b = elim (cmp a b) [ Ordering.lt ↦ true | _ ↦ false ]

abbrev pub version_le : SchemaVersion → SchemaVersion → Bool
version_le a b = elim (cmp a b) [ Ordering.gt ↦ false | _ ↦ true ]

abbrev pub version_eq : SchemaVersion → SchemaVersion → Bool
version_eq a b = elim (cmp a b) [ Ordering.eq ↦ true | _ ↦ false ]

-- What the choice of migrations reads of the trait `Migration`
pub record Migration : Type 0 where
  pub from_version : SchemaVersion
  pub to_version : SchemaVersion

find_next : List Migration → SchemaVersion → SchemaVersion → Option Migration
find_next [] current to = none
find_next (m ∷ migrations) current to =
    let rest = find_next migrations current to in
    if version_eq m.from_version current && version_le m.to_version to then some m else rest

pub next : List Migration → SchemaVersion → SchemaVersion → Option Migration
unfolding find_next
next migrations current to = elim (version_lt current to) [
  | true ↦ find_next migrations current to
  | false ↦ none
]

-- The loop; `none` if it does not end within the given number of rounds.
pending_loop : List Migration → SchemaVersion → ℕ → SchemaVersion → Option (List Migration)
unfolding next
pending_loop migrations to zero current = none
pending_loop migrations to (suc rounds) current = elim (next migrations current to) [
  | none ↦ some []
  | some m ↦ elim (pending_loop migrations to rounds m.to_version) [
    | none ↦ none
    | some pending ↦ some (m ∷ pending)
  ]
]

unfoldable pub get_pending :
    List Migration → ℕ → SchemaVersion → SchemaVersion → Option (List Migration)
unfolding pending_loop
get_pending migrations rounds from to =
    if version_le to from then some [] else pending_loop migrations to rounds from
