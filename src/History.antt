-- ===== src/History.antt =====
-- crates/yoop-core/src/history/mod.rs: the record of past transfers. A `Uuid` is a number, and a
-- string the list of its code points.
pub mod Recent
mod Examples
use yoop.Base.{
  ℕ, ◌+◌, ◌-◌, ◌*◌, ◌/◌, ◌%◌, ◌^◌, Bool, true, false, Option, none, some, List, [], ◌∷◌, ltb, leb,
  ◌==◌, if◌then◌else◌, length, get_elem?, take, min, Result, ok, err, config_error,
}
use yoop.Storage.{Text, Storage, Io, save}

pub data TransferDirection : Type 0 where
  sent received : TransferDirection

pub data TransferState : Type 0 where
  completed failed cancelled : TransferState

pub record HistoryFileEntry : Type 0 where
  pub name : Text
  pub size : ℕ
  pub success : Bool

pub record TransferHistoryEntry : Type 0 where
  pub id : ℕ
  pub timestamp : ℕ
  pub direction : TransferDirection
  pub device_name : Text
  pub device_id : Option ℕ
  pub share_code : Text
  pub files : List HistoryFileEntry
  pub total_bytes : ℕ
  pub bytes_transferred : ℕ
  pub state : TransferState
  pub duration_secs : ℕ
  pub speed_bps : Option ℕ
  pub output_dir : Option Text
  pub error_message : Option Text

-- `id` is the new random identifier, `now` the clock in seconds.
abbrev pub new_entry : ℕ → ℕ → TransferDirection → Text → Text → TransferHistoryEntry
new_entry id now direction device_name share_code = record {
  id = id;
  timestamp = now;
  direction = direction;
  device_name = device_name;
  device_id = none;
  share_code = share_code;
  files = [];
  total_bytes = 0;
  bytes_transferred = 0;
  state = completed;
  duration_secs = 0;
  speed_bps = none;
  output_dir = none;
  error_message = none;
}

abbrev pub with_device_id : ℕ → TransferHistoryEntry → TransferHistoryEntry
with_device_id device_id entry = record entry { device_id = some device_id }

abbrev pub sum_files : List HistoryFileEntry → ℕ
sum_files [] = 0
sum_files (f ∷ files) = f.size + sum_files files

-- The sum of 64-bit sizes wraps in a release build.
abbrev pub with_files : List HistoryFileEntry → TransferHistoryEntry → TransferHistoryEntry
with_files files entry = record entry { total_bytes = sum_files files % 2 ^ 64; files = files }

abbrev pub with_state : TransferState → TransferHistoryEntry → TransferHistoryEntry
with_state state entry = record entry { state = state }

unfoldable pub with_stats : ℕ → ℕ → TransferHistoryEntry → TransferHistoryEntry
with_stats bytes_transferred duration_secs entry =
    let entry' = record entry {
      bytes_transferred = bytes_transferred;
      duration_secs = duration_secs;
    } in
    if ltb 0 duration_secs
    then record entry' { speed_bps = some (bytes_transferred / duration_secs) }
    else entry'

abbrev pub with_output_dir : Text → TransferHistoryEntry → TransferHistoryEntry
with_output_dir path entry = record entry { output_dir = some path }

abbrev pub with_error : Text → TransferHistoryEntry → TransferHistoryEntry
with_error message entry = record entry { error_message = some message; state = failed }

pub record HistoryDatabase : Type 0 where
  pub version : ℕ
  pub entries : List TransferHistoryEntry

-- The fields of the configuration that the store reads
pub record HistoryConfig : Type 0 where
  pub max_entries : ℕ
  pub auto_clear_days : Option ℕ

pub record HistoryStore : Type 0 where
  pub path : Text
  pub entries : List TransferHistoryEntry
  pub config : HistoryConfig

retain_since : ℕ → List TransferHistoryEntry → List TransferHistoryEntry
retain_since cutoff [] = []
retain_since cutoff (e ∷ entries) =
    let rest = retain_since cutoff entries in if leb cutoff e.timestamp then e ∷ rest else rest

-- `now` is the clock in seconds; the subtraction saturates, as that of ℕ does.
unfoldable pub apply_auto_clear : ℕ → HistoryStore → HistoryStore
unfolding retain_since
apply_auto_clear now store = elim store.config.auto_clear_days [
  | none ↦ store
  | some days ↦ record store { entries = retain_since (now - days * 24 * 60 * 60) store.entries }
]

unfoldable pub list : Option ℕ → HistoryStore → List TransferHistoryEntry
list none store = store.entries
list (some n) store = take (min n (length store.entries)) store.entries

unfoldable pub get : ℕ → HistoryStore → Option TransferHistoryEntry
get index store = get_elem? store.entries index

find_entry : ℕ → List TransferHistoryEntry → Option TransferHistoryEntry
find_entry id [] = none
find_entry id (e ∷ entries) =
    let rest = find_entry id entries in if e.id == id then some e else rest

unfoldable pub find_by_id : ℕ → HistoryStore → Option TransferHistoryEntry
unfolding find_entry
find_by_id id store = find_entry id store.entries

-- The new entry in front, and what then is beyond the limit cut off
unfoldable pub insert_newest : TransferHistoryEntry → HistoryStore → HistoryStore
insert_newest entry store =
    let entries = entry ∷ store.entries in
    if ltb store.config.max_entries (length entries)
    then record store { entries = take store.config.max_entries entries }
    else record store { entries = entries }

module _ (storage : Storage HistoryDatabase) where
  unfoldable pub load_from : ℕ → Text → HistoryConfig → storage.Disk → Result HistoryStore
  load_from now path config disk =
      if storage.exists path disk
      then elim (storage.read_json path disk) [
        | none ↦ err config_error
        | some db ↦
            ok
              (apply_auto_clear now (record { path = path; entries = db.entries; config = config }))
      ]
      else ok (record { path = path; entries = []; config = config })

  unfoldable pub save_history : HistoryStore → storage.Disk → Io storage (Unit {0})
  save_history store disk =
      save storage store.path (record { version = 1; entries = store.entries }) disk

  -- The store is changed also where saving it fails.
  unfoldable pub add :
      TransferHistoryEntry → HistoryStore → storage.Disk → HistoryStore × Io storage (Unit {0})
  unfolding insert_newest save_history
  add entry store disk =
      let store' = insert_newest entry store in (store', save_history store' disk)

  unfoldable pub clear : HistoryStore → storage.Disk → HistoryStore × Io storage (Unit {0})
  unfolding save_history
  clear store disk =
      let store' = record store { entries = [] } in (store', save_history store' disk)
