-- ===== src/Sync/Session/Live.antt =====
-- crates/yoop-core/src/sync/session.rs: one operation of a live session on its way, from
-- `send_sync_op`, a program that writes and reads frames, to the loop of `spawn_inbound_task` with
-- `receive_sync_op`, a state machine. The payloads are those of crates/yoop-core/src/protocol/mod.rs.
pub mod Delivery
use yoop.Base.{
  ℕ, zero, suc, ◌+◌, ◌-◌, ◌*◌, ◌/◌, ◌%◌, ◌^◌, ◌≡◌, Bool, true, false, ◌&&◌, Option, none, some,
  List, [], ◌∷◌, ltb, ◌==◌, if◌then◌else◌, length, Result, ok, err, ◌>>=◌, Error, io, file_system,
  session_error, sync_operation_failed,
}
use yoop.Storage.{Text}
use yoop.Files.{
  FileSystem, FileChunk, FileWriter, Reader, read_chunks, io_call, create_parent, new_writer,
  write_chunk, finalize,
}
use yoop.Protocol.Message as Message
use yoop.Protocol.Message.{MessageType}
use yoop.Protocol.{SyncChunkPayload, encode_sync_chunk, decode_sync_chunk}
use yoop.Transfer.Wire.{
  Codec, Frame, same_type, Program, Session, write_frame, done, send, Transition,
}
use yoop.Transfer.Limit.{too_large}
use yoop.Sync.Model.{FileKind, file, RelativePath, new_path, SyncOp, create, modify, delete, rename}
use yoop.Sync.Session.{kind_byte, expect}
use yoop.Sync.Session.Initial.{SyncDisk, SyncStats, count_received}

pub data SyncOpType : Type 0 where
  op_create op_modify op_delete op_rename : SyncOpType

pub record SyncOpPayload : Type 0 where
  pub op_id : ℕ
  pub op_type : SyncOpType
  pub path : List ℕ
  pub from_path : Option (List ℕ)
  pub kind : ℕ
  pub size : Option ℕ
  pub content_hash : Option ℕ
  pub chunk_count : Option ℕ

pub record SyncOpAckPayload : Type 0 where
  pub op_id : ℕ
  pub success : Bool
  pub error_text : Option Text
  pub content_hash : Option ℕ

pub record SyncChunkAckPayload : Type 0 where
  pub op_id : ℕ
  pub chunk_index : ℕ
  pub success : Bool

pub record SyncCompletePayload : Type 0 where
  pub op_id : ℕ
  pub content_hash : ℕ

pub record LiveCodecs : Type 0 where
  pub sync_op : Codec SyncOpPayload
  pub sync_op_ack : Codec SyncOpAckPayload
  pub sync_chunk_ack : Codec SyncChunkAckPayload
  pub sync_complete : Codec SyncCompletePayload

abbrev pub default_chunk_size : ℕ
default_chunk_size = 1024 * 1024

-- `div_ceil` by the chunk size, as a `u32`
unfoldable pub chunk_count_of : ℕ → ℕ
chunk_count_of size = ((size + default_chunk_size - 1) / default_chunk_size) % 2 ^ 32

abbrev pub map_size : Option ℕ → Option ℕ
map_size none = none
map_size (some size) = some (chunk_count_of size)

abbrev pub payload_with :
    ℕ → SyncOpType → RelativePath → Option (List ℕ) → ℕ → Option ℕ → Option ℕ → SyncOpPayload
payload_with op_id op_type path from_path kind size content_hash = record {
  op_id = op_id;
  op_type = op_type;
  path = path.text;
  from_path = from_path;
  kind = kind;
  size = size;
  content_hash = content_hash;
  chunk_count = map_size size;
}

-- The payload of `send_sync_op`
unfoldable pub op_payload : ℕ → SyncOp → SyncOpPayload
unfolding chunk_count_of kind_byte
op_payload op_id (create path kind size content_hash) =
    payload_with op_id op_create path none (kind_byte kind) (some size) (some content_hash)
op_payload op_id (modify path size content_hash) =
    payload_with op_id op_modify path none (kind_byte file) (some size) (some content_hash)
op_payload op_id (delete path kind) =
    payload_with op_id op_delete path none (kind_byte kind) none none
op_payload op_id (rename from to kind) =
    payload_with op_id op_rename to (some from.text) (kind_byte kind) none none

module _ (codecs : LiveCodecs) (xxhash64 : List ℕ → ℕ) (reader : Reader)
    (bytes : RelativePath → Option (List ℕ)) where
  abbrev pub sync_chunk_of : ℕ → FileChunk → SyncChunkPayload
  sync_chunk_of op_id chunk = record {
    op_id = op_id;
    chunk_index = chunk.chunk_index % 2 ^ 32;
    chunk = chunk.bytes;
    checksum = chunk.checksum;
  }

  unfoldable pub send_sync_chunk : ℕ → FileChunk → Session → Session
  send_sync_chunk op_id chunk next =
      write_frame (Message.sync_chunk, encode_sync_chunk (sync_chunk_of op_id chunk))
        (expect codecs.sync_chunk_ack Message.sync_chunk_ack
          (λ ack. if ack.success then next else done (err (session_error sync_operation_failed))))

  unfoldable pub send_sync_chunks : ℕ → List FileChunk → Session → Session
  send_sync_chunks op_id [] next =
      send codecs.sync_complete Message.sync_complete (record { op_id = op_id; content_hash = 0 })
        next
  send_sync_chunks op_id (c ∷ chunks) next =
      send_sync_chunk op_id c (send_sync_chunks op_id chunks next)

  -- The file of a path, read in chunks; the reading has a round for each byte and one more.
  unfoldable pub read_path : RelativePath → Result (List FileChunk)
  read_path path = elim (bytes path) [
    | none ↦ err (io file_system)
    | some contents ↦
        io_call (read_chunks xxhash64 reader (suc (length contents)) default_chunk_size contents 0)
  ]

  unfoldable pub send_file_chunks_simple : ℕ → RelativePath → Session → Session
  send_file_chunks_simple op_id path next = elim (read_path path) [
    | err e ↦ done (err e)
    | ok chunks ↦ send_sync_chunks op_id chunks next
  ]

  unfoldable pub send_contents : ℕ → SyncOp → Session → Session
  send_contents op_id (create path kind size content_hash) next =
      if ltb 0 size then send_file_chunks_simple op_id path next else next
  send_contents op_id (modify path size content_hash) next =
      if ltb 0 size then send_file_chunks_simple op_id path next else next
  send_contents op_id op next = next

  unfoldable pub await_op_ack : Session
  await_op_ack = expect codecs.sync_op_ack Message.sync_op_ack (λ ack.
      if ack.success then done (ok tt) else done (err (session_error sync_operation_failed)))

  unfoldable pub send_sync_op : SyncOp → ℕ → Session
  send_sync_op op op_id =
      send codecs.sync_op Message.sync_op (op_payload op_id op)
        (send_contents op_id op await_op_ack)

-- The inbound task: between operations, or in the loop of `receive_file_chunks_simple` with the size
-- of the operation and the writer. It ends where it fails.
pub data Inbound : Type 0 where
  idle : SyncStats → Inbound
  receiving : SyncStats → (op_id size : ℕ) → FileWriter → Inbound
  ended : Error → Inbound

module _ (dir : SyncDisk) (is_dir : Text → dir.fs.Disk → Bool) (codecs : LiveCodecs)
    (xxhash64 : List ℕ → ℕ) (sha256 : List ℕ → List ℕ) (sync_deletions : Bool) where
  abbrev pub Received : Type 0
  Received = Transition Inbound dir.fs.Disk

  abbrev pub go : Inbound → dir.fs.Disk → List Frame → Received
  go phase disk written = record { phase = phase; disk = disk; written = written }

  -- An error of `receive_sync_op` is logged; the task reads on.
  abbrev pub or_log : {A : Type 0} → SyncStats → dir.fs.Disk → Result A → (A → Received) → Received
  or_log stats disk (err e) next = go (idle stats) disk []
  or_log stats disk (ok a) next = next a

  unfoldable pub acknowledge_op : ℕ → SyncStats → dir.fs.Disk → Received
  acknowledge_op op_id stats disk =
      or_log stats disk
        (codecs.sync_op_ack.encode
          (record { op_id = op_id; success = true; error_text = none; content_hash = none }))
        (λ payload. go (idle stats) disk ((Message.sync_op_ack, payload) ∷ []))

  abbrev pub or_zero : Option ℕ → ℕ
  or_zero none = 0
  or_zero (some n) = n

  -- `Create` and `Modify`: the file is opened for its chunks, or is empty.
  unfoldable pub receive_contents : SyncStats → SyncOpPayload → ℕ → Text → dir.fs.Disk → Received
  receive_contents stats payload size path disk =
      or_log stats disk (io_call (create_parent dir.fs (dir.fs.parent path) disk)) (λ disk₁.
        if ltb 0 size && ltb 0 (or_zero payload.chunk_count)
        then or_log stats disk₁ (new_writer dir.fs path size disk₁)
            (λ opened. go (receiving stats payload.op_id size opened.0) opened.1 [])
        else or_log stats disk₁ (io_call (dir.fs.create path disk₁))
            (λ disk₂. acknowledge_op payload.op_id (count_received size stats) disk₂))

  unfoldable pub receive_delete : SyncStats → SyncOpPayload → Text → dir.fs.Disk → Received
  receive_delete stats payload path disk =
      if sync_deletions && dir.exists path disk
      then or_log stats disk
          (io_call
            (if is_dir path disk then dir.remove_dir_all path disk else dir.remove_file path disk))
          (λ disk'. acknowledge_op payload.op_id stats disk')
      else acknowledge_op payload.op_id stats disk

  unfoldable pub receive_rename :
      SyncStats → SyncOpPayload → Option (List ℕ) → dir.fs.Disk → Received
  receive_rename stats payload none disk = acknowledge_op payload.op_id stats disk
  receive_rename stats payload (some from_path) disk =
      let to = dir.to_path (new_path payload.path) in
      or_log stats disk (io_call (create_parent dir.fs (dir.fs.parent to) disk)) (λ disk₁.
        or_log stats disk₁ (io_call (dir.rename (dir.to_path (new_path from_path)) to disk₁))
          (λ disk₂. acknowledge_op payload.op_id stats disk₂))

  abbrev pub receive_sized : SyncStats → SyncOpPayload → Option ℕ → dir.fs.Disk → Received
  receive_sized stats payload none disk = acknowledge_op payload.op_id stats disk
  receive_sized stats payload (some size) disk =
      receive_contents stats payload size (dir.to_path (new_path payload.path)) disk

  unfoldable pub receive_sync_op : SyncStats → SyncOpPayload → dir.fs.Disk → Received
  receive_sync_op stats payload disk = elim payload.op_type [
    | op_create ↦ receive_sized stats payload payload.size disk
    | op_modify ↦ receive_sized stats payload payload.size disk
    | op_delete ↦ receive_delete stats payload (dir.to_path (new_path payload.path)) disk
    | op_rename ↦ receive_rename stats payload payload.from_path disk
  ]

  abbrev pub acknowledge_chunk : ℕ → ℕ → Bool → SyncStats → dir.fs.Disk → Inbound → Received
  acknowledge_chunk op_id chunk_index success stats disk phase =
      or_log stats disk
        (codecs.sync_chunk_ack.encode
          (record { op_id = op_id; chunk_index = chunk_index; success = success }))
        (λ payload. go phase disk ((Message.sync_chunk_ack, payload) ∷ []))

  -- A chunk whose checksum was right
  unfoldable pub store_sync_chunk :
      SyncStats → ℕ → ℕ → FileWriter → SyncChunkPayload → dir.fs.Disk → Received
  store_sync_chunk stats op_id size writer sent disk =
      let chunk : FileChunk = record {
        file_index = 0;
        chunk_index = sent.chunk_index;
        bytes = sent.chunk;
        checksum = sent.checksum;
        is_last = false;
      } in
      or_log stats disk (write_chunk dir.fs xxhash64 writer chunk disk) (λ written.
        acknowledge_chunk op_id sent.chunk_index true stats written.1
          (receiving stats op_id size written.0))

  unfoldable pub receive_sync_chunk :
      SyncStats → ℕ → ℕ → FileWriter → List ℕ → dir.fs.Disk → Received
  receive_sync_chunk stats op_id size writer payload disk =
      or_log stats disk (decode_sync_chunk payload) (λ sent.
        if sent.op_id == op_id
        then (if xxhash64 sent.chunk == sent.checksum
            then store_sync_chunk stats op_id size writer sent disk
            else acknowledge_chunk op_id sent.chunk_index false stats disk (idle stats))
        else go (idle stats) disk [])

  unfoldable pub complete_contents :
      SyncStats → ℕ → ℕ → FileWriter → List ℕ → dir.fs.Disk → Received
  complete_contents stats op_id size writer payload disk =
      or_log stats disk (codecs.sync_complete.decode payload) (λ complete.
        or_log stats disk (finalize dir.fs sha256 writer disk)
          (λ closed. acknowledge_op op_id (count_received size stats) closed.1))

  -- What a frame does
  unfoldable pub inbound : Inbound → Frame → dir.fs.Disk → Received
  inbound (idle stats) (Message.sync_op, payload) disk = elim (codecs.sync_op.decode payload) [
    | err e ↦ go (ended e) disk []
    | ok op ↦ receive_sync_op stats op disk
  ]
  inbound (idle stats) (Message.ping, payload) disk = go (idle stats) disk ((Message.pong, []) ∷ [])
  inbound (idle stats) (t, payload) disk = go (idle stats) disk []
  inbound (receiving stats op_id size writer) (Message.sync_chunk, payload) disk =
      receive_sync_chunk stats op_id size writer payload disk
  inbound (receiving stats op_id size writer) (Message.sync_complete, payload) disk =
      complete_contents stats op_id size writer payload disk
  inbound (receiving stats op_id size writer) (t, payload) disk = go (idle stats) disk []
  inbound (ended e) frame disk = go (ended e) disk []

  -- What a frame leaves that `read_frame` refuses
  unfoldable pub refuse : Inbound → Frame → Inbound
  refuse (idle stats) frame = ended (too_large frame)
  refuse (receiving stats op_id size writer) frame = idle stats
  refuse (ended e) frame = ended e
