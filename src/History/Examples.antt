-- ===== src/History/Examples.antt =====
-- Runs of the history store on concrete records.
use yoop.Base.{ℕ, ◌≡◌, refl, true, false, Option, none, some, [], ◌∷◌, ok, arith}
use yoop.Storage.{Storage, save}
use yoop.History.{
  TransferHistoryEntry, HistoryDatabase, HistoryConfig, HistoryStore, sent, new_entry, add,
  with_stats, apply_auto_clear, load_from, find_by_id, list, get, save_history,
}
use yoop.History.Recent.{add_all, add_recent, load_from-add}

-- A disk with one file
abbrev one_file : Storage HistoryDatabase
one_file = record {
  Disk = Option HistoryDatabase;
  parent = λ path. none;
  exists = λ path disk. elim disk [ none ↦ false | some _ ↦ true ];
  read_json = λ path disk. disk;
  create_dir_all = λ path disk. (true, disk);
  create = λ path disk. (true, disk);
  to_writer_pretty = λ path db disk. (true, some db);
  drop_writer = λ path disk. (true, disk);
  read_written = λ path db disk wrote dropped. (refl, refl);
}

abbrev entry : ℕ → ℕ → TransferHistoryEntry
entry id now = new_entry id now sent [] []

abbrev two_records : HistoryStore
two_records = record {
  path = [];
  entries = entry 2 20 ∷ entry 1 10 ∷ [];
  config = record { max_entries = 2; auto_clear_days = some 1 };
}

abbrev three_added : HistoryStore
three_added = record two_records { entries = entry 3 30 ∷ entry 2 20 ∷ [] }

speed_test : (with_stats 10 4 (entry 1 10)).speed_bps ≡ some 2
unfolding with_stats
speed_test = refl

clear_test : (apply_auto_clear 86415 two_records).entries ≡ entry 2 20 ∷ []
unfolding apply_auto_clear yoop.History.retain_since
clear_test = refl

add_recent_example : (add_all one_file (entry 3 30 ∷ []) two_records none).0 ≡ three_added
unfolding add
add_recent_example = add_recent one_file (entry 3 30 ∷ []) two_records none (omega arith)

load_from-add_example :
    load_from one_file 40 [] two_records.config
      (some (record { version = 1; entries = three_added.entries }))
    ≡ ok (apply_auto_clear 40 three_added)
unfolding add save
load_from-add_example =
    load_from-add one_file (entry 3 30) two_records three_added none
      (some (record { version = 1; entries = three_added.entries })) 40 (λ disk. refl) refl
