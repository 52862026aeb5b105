-- ===== src/Sync/Session/Examples.antt =====
-- Runs of a synchronization session, and the theorems about it at concrete inputs.
use yoop.Base.{
  ℕ, ◌+◌, ◌*◌, ◌<◌, ◌^◌, ◌≡◌, refl, true, false, Option, none, some, List, [], ◌∷◌, arith, lookup,
  insert, erase, ℕ_discrete, Bool, ok, All, Result,
}
use yoop.Storage.{Text}
use yoop.Files.Examples.{full_reads, memory, memory-Reliable, constant_hash, Memory, Text-discrete}
use yoop.Files.Writing.{SameBut}
use yoop.Transfer.Wire.{Frame, Program, done}
use yoop.Transfer.Network.{Net, net, Reach, run, settle}
use yoop.Transfer.Limit.{limited, all_within}
use yoop.Transfer.Peers.{answers}
use yoop.Sync.Model.{RelativePath, RelativePath-discrete, new_path, file, unix_epoch, nanos_per_sec}
use yoop.Sync.Index.{FileEntry, FileIndex, from_entries, get, content_changed, is_newer_than}
use yoop.Sync.Index.Keyed.{IsTable, select}
use yoop.Sync.Index.Upkeep.{IsIndex}
use yoop.Sync.Conflict.{last_write_wins, detect}
use yoop.Sync.Engine.{SyncEngine, reconcile, reconcile_entry, detect_between}
use yoop.Sync.Engine.Passes.{conflict_path}
use yoop.Sync.Engine.Agreement.{apply_ops, contents, merged}
use yoop.Sync.Session.{
  SyncPeer, Handshake, unix_seconds, handshake_client, handshake_host, exchange_index,
}
use yoop.Sync.Session.Initial.{SyncDisk, SyncStats, new_stats, count_received, run_initial_sync}
use yoop.Sync.Session.Received.{Sendable, cut_at}
use yoop.Sync.Session.Handshakes.{start, Within, handshake_exchanges}
use yoop.Sync.Session.Planning.{InSeconds, handshake_converges}
use yoop.Sync.Session.Unwritten.{initial_sync_unwritten}
use yoop.Sync.Session.Live.{send_sync_op, Inbound, idle, inbound}
use yoop.Sync.Session.Live.Delivery.{live_delivers, sends, takes}
use yoop.Sync.Session.Packing.{packed_sync, packed_live}

abbrev path_a : RelativePath
path_a = record { text = b'a' ∷ [] }

abbrev entry : ℕ → ℕ → FileEntry
entry t h = record {
  path = path_a;
  kind = file;
  size = 10;
  mtime = unix_epoch + t * nanos_per_sec;
  content_hash = h;
}

abbrev index : FileEntry → FileIndex
index e = from_entries constant_hash ((path_a, e) ∷ [])

abbrev client : SyncPeer
client = record {
  device_name = b'c' ∷ [];
  sync_root_name = b'r' ∷ [];
  local_index = index (entry 100 5);
}

abbrev host : SyncPeer
host = record {
  device_name = b'h' ∷ [];
  sync_root_name = b'r' ∷ [];
  local_index = index (entry 200 6);
}

client-IsTable : IsTable client.local_index.entries
unfolding lookup from_entries
client-IsTable = ((refl, tt), (refl, tt))

host-IsTable : IsTable host.local_index.entries
unfolding lookup from_entries
host-IsTable = ((refl, tt), (refl, tt))

below : (t : ℕ) → t < 1000 → unix_epoch + t * nanos_per_sec < 2 ^ 64 * nanos_per_sec
below t h = omega (arith, h)

client-Sendable : All (λ (x : RelativePath × FileEntry). Sendable x.1) client.local_index.entries
unfolding from_entries new_path
client-Sendable = ((refl, below 100 (omega arith)), tt)

host-Sendable : All (λ (x : RelativePath × FileEntry). Sendable x.1) host.local_index.entries
unfolding from_entries new_path
host-Sendable = ((refl, below 200 (omega arith)), tt)

client-InSeconds : All (λ (x : RelativePath × FileEntry). InSeconds x.1) client.local_index.entries
unfolding from_entries unix_seconds
client-InSeconds = (refl, tt)

host-InSeconds : All (λ (x : RelativePath × FileEntry). InSeconds x.1) host.local_index.entries
unfolding from_entries unix_seconds
host-InSeconds = (refl, tt)

abbrev greeted : Net Handshake (Program Handshake) (Unit {0})
greeted = start packed_sync constant_hash client host

client-Within : Within packed_sync constant_hash client host
unfolding yoop.Transfer.Limit.all_within handshake_client handshake_host answers
    yoop.Transfer.Peers.advance exchange_index yoop.Sync.Session.take_index_ack packed_sync
    yoop.Transfer.Wire.same_type yoop.Protocol.Message.as_byte yoop.Transfer.Coding.decode_packed
    yoop.Transfer.Coding.unpack_as yoop.Transfer.Coding.and_then yoop.Transfer.Coding.unpack_pair
    yoop.Transfer.Coding.unpack_option yoop.Transfer.Coding.unpack_list
    yoop.Transfer.Coding.unpack_all
client-Within = refl

handshake_exchanges_example :
    (at_client at_host : FileIndex) × (settle Handshake
        (Program Handshake)
        (Unit {0})
        answers
        greeted
      ≡ (ok (host.device_name, at_client), done (ok (client.device_name, at_host)), tt, []))
    × ((r : Result Handshake) (q : Program Handshake) (o : List Frame)
        → Reach Handshake (Program Handshake) (Unit {0}) answers greeted (net (done r) q tt [] o)
        → (r ≡ ok (host.device_name, at_client)) × (q ≡ done (ok (client.device_name, at_host))))
    × IsIndex constant_hash at_client
    × IsIndex constant_hash at_host
    × ((p : RelativePath) → get at_client p ≡ cut_at (get host.local_index p))
    × ((p : RelativePath) → get at_host p ≡ cut_at (get client.local_index p))
handshake_exchanges_example =
    handshake_exchanges packed_sync constant_hash client host client-IsTable host-IsTable
      client-Sendable host-Sendable client-Within

abbrev engine : SyncEngine
engine = record {
  conflict_detector = record { strategy = last_write_wins; ambiguity_window_secs = 2 };
}

no_conflict :
    select conflict_path path_a (reconcile engine client.local_index host.local_index).conflicts
    ≡ []
unfolding reconcile reconcile_entry get lookup insert RelativePath-discrete ℕ_discrete
    content_changed is_newer_than detect detect_between from_entries
no_conflict = refl

handshake_converges_example :
    (at_client at_host : FileIndex) × (settle Handshake
        (Program Handshake)
        (Unit {0})
        answers
        greeted
      ≡ (ok (host.device_name, at_client), done (ok (client.device_name, at_host)), tt, []))
    × (apply_ops
          (contents client.local_index)
          (reconcile engine client.local_index at_client).local_ops
          path_a
        ≡ merged (get client.local_index path_a) (get host.local_index path_a))
    × (apply_ops
          (contents host.local_index)
          (reconcile engine host.local_index at_host).local_ops
          path_a
        ≡ merged (get client.local_index path_a) (get host.local_index path_a))
handshake_converges_example =
    handshake_converges packed_sync constant_hash engine client host path_a (omega arith)
      client-IsTable host-IsTable client-Sendable host-Sendable client-InSeconds host-InSeconds
      client-Within no_conflict

-- A directory in memory whose paths are as they are named
abbrev directory : SyncDisk
directory = record {
  fs = memory;
  to_path = λ p. p.text;
  exists = λ path d. elim (lookup Text-discrete path d) [ none ↦ false | some xs ↦ true ];
  remove_dir_all = λ path d. some (erase Text-discrete path d);
  remove_file = λ path d. some (erase Text-discrete path d);
  rename = λ from to d. some d;
}

initial_sync_unwritten_example :
    (s : SyncStats × Memory) × (run_initial_sync directory engine true client.local_index
        host.local_index
        (new_stats, (b'a' ∷ [], 1 ∷ []) ∷ [])
      ≡ ok s)
    × ((q : Text) → lookup Text-discrete q s.1 ≡ lookup Text-discrete q ((b'a' ∷ [], 1 ∷ []) ∷ []))
initial_sync_unwritten_example =
    initial_sync_unwritten directory memory-Reliable engine true client.local_index host.local_index
      new_stats ((b'a' ∷ [], 1 ∷ []) ∷ []) refl client-IsTable host-IsTable

abbrev contents_of_a : RelativePath → Option (List ℕ)
contents_of_a p = some (1 ∷ 2 ∷ 3 ∷ [])

abbrev no_dir : Text → Memory → Bool
no_dir path d = false

live-Within :
    all_within
      (inbound directory no_dir packed_live constant_hash (λ xs. xs) true)
      (sends directory no_dir packed_live constant_hash
        (λ xs. xs)
        true
        full_reads
        contents_of_a
        4
        (some file)
        path_a
        3
        9)
      (idle new_stats)
      []
      []
    ≡ true
unfolding yoop.Transfer.Limit.all_within inbound send_sync_op yoop.Sync.Session.Live.send_contents
    yoop.Sync.Session.Live.send_file_chunks_simple yoop.Sync.Session.Live.send_sync_chunks
    yoop.Sync.Session.Live.send_sync_chunk yoop.Sync.Session.Live.read_path
    yoop.Sync.Session.Live.await_op_ack yoop.Sync.Session.Live.op_payload
    yoop.Sync.Session.Live.chunk_count_of yoop.Sync.Session.Live.receive_sync_op
    yoop.Sync.Session.Live.receive_contents yoop.Sync.Session.Live.acknowledge_op
    yoop.Sync.Session.Live.receive_sync_chunk yoop.Sync.Session.Live.store_sync_chunk
    yoop.Sync.Session.Live.complete_contents yoop.Files.read_chunks yoop.Files.new_writer
    yoop.Files.write_chunk yoop.Files.finalize yoop.Protocol.encode_sync_chunk
    yoop.Protocol.decode_sync_chunk yoop.Protocol.Bytes.to_be_bytes
    yoop.Protocol.Bytes.from_be_bytes yoop.Sync.Session.kind_byte lookup insert packed_live
    yoop.Transfer.Wire.same_type yoop.Protocol.Message.as_byte new_path
    yoop.Transfer.Coding.decode_packed yoop.Transfer.Coding.unpack_as yoop.Transfer.Coding.and_then
    yoop.Transfer.Coding.unpack_pair yoop.Transfer.Coding.unpack_option
    yoop.Transfer.Coding.unpack_list yoop.Transfer.Coding.unpack_all
live-Within = refl

live_delivers_example :
    (e : Memory) × (lookup Text-discrete path_a.text e ≡ some (1 ∷ 2 ∷ 3 ∷ []))
    × SameBut memory path_a.text [] e
    × (run
          (Unit {0})
          Inbound
          Memory
          (takes directory no_dir packed_live constant_hash
            (λ xs. xs)
            true
            full_reads
            contents_of_a)
          (limited (
            sends directory no_dir packed_live constant_hash
              (λ xs. xs)
              true
              full_reads
              contents_of_a
              4
              (some file)
              path_a
              3
              9))
          (idle new_stats)
          []
          []
        ≡ (ok tt, idle (count_received 3 new_stats), e, []))
unfolding new_path
live_delivers_example =
    live_delivers directory no_dir packed_live constant_hash (λ xs. xs) true full_reads
      contents_of_a (λ xs. omega arith) memory-Reliable new_stats 4 (some file) path_a 9
      (1 ∷ 2 ∷ 3 ∷ []) [] (omega arith) refl (omega arith) (λ h. refl) live-Within
