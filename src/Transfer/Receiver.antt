-- ===== src/Transfer/Receiver.antt =====
-- crates/yoop-core/src/transfer/mod.rs: `ReceiveSession::connect`, the keep-alive task, and `accept` or
-- `decline`. The receiver writes only after it has read a frame, so that it is a state machine: a phase
-- is a place where the code waits for a frame, `handle` is the code up to the next such place, with
-- the frames that it writes. Progress reports are left out.
use yoop.Base.{
  ℕ, zero, suc, Bool, true, false, Option, none, some, List, [], ◌∷◌, ◌==◌, if◌then◌else◌,
  get_elem?, Result, ok, err, ◌>>=◌, Error, session_error, unexpected_message, checksum_mismatch,
  code_not_found, compression_failed, keep_alive_failed, transfer_cancelled, panicked,
}
use yoop.Storage.{Text}
use yoop.Files.{
  FileMetadata, FileChunk, FileSystem, FileWriter, new_writer, write_chunk, finalize, create_parent,
  io_call,
}
use yoop.Compression.{uncompressed, zstd, with_zstd}
use yoop.Protocol.Message as Message
use yoop.Protocol.Message.{MessageType, as_byte}
use yoop.Protocol.{ChunkDataPayload, decode_chunk_data}
use yoop.Transfer.Wire.{
  HelloPayload, ChunkStartPayload, ChunkAckPayload, Codec, Codecs, Frame, same_type, Transition,
}
use yoop.Transfer.Sender.{Zstd}
use yoop.Transfer.Limit.{too_large}

pub record ReceiveSession : Type 0 where
  pub device_name : Text
  pub device_id : ℕ
  pub public_key : Text
  pub session_key : List ℕ
  pub code : List ℕ
  pub output_dir : Text
  -- how many pings are sent while the user decides; whether the answer to a ping comes before the
  -- timeout, by the number of the pings after it; and what the user decides
  pub pings : ℕ
  pub pong_in_time : ℕ → Bool
  pub accepts : List FileMetadata → Bool

-- The variables of `do_receive`
pub record Receiving : Type 0 where
  pub current_writer : Option FileWriter
  pub current_file_index : Option ℕ

abbrev pub nothing_received : Receiving
nothing_received = record { current_writer = none; current_file_index = none }

module _ (fs : FileSystem) where
  pub data Phase : Type 0 where
    await_hello : Phase
    await_code_ack : Phase
    await_file_list : Phase
    -- the pings still to send, and the files offered
    await_pong : ℕ → List FileMetadata → Phase
    await_chunk : List FileMetadata → Receiving → Phase
    -- ended: by `break`, by declining, or by an error
    complete : Phase
    declined : Phase
    failed : Error → Phase

  -- The phase, the disk, and the frames that were written
  abbrev pub Moved : Type 0
  Moved = Transition Phase fs.Disk

  abbrev pub moved : Phase → fs.Disk → List Frame → Moved
  moved phase disk written = record { phase = phase; disk = disk; written = written }

  abbrev pub fail : Error → fs.Disk → Moved
  fail e disk = moved (failed e) disk []

  -- A value, or the error with which the session ends
  abbrev pub or_fail : {A : Type 0} → fs.Disk → Result A → (A → Moved) → Moved
  or_fail disk (ok a) next = next a
  or_fail disk (err e) next = fail e disk

  -- `write_frame(stream, t, &encode_payload(&a)?)?` in front of what follows
  abbrev pub reply : {A : Type 0} → Codec A → MessageType → A → fs.Disk → Moved → Moved
  reply codec t a disk next =
      or_fail disk (codec.encode a)
        (λ payload. record next { written = (t, payload) ∷ next.written })

  module _ (codecs : Codecs) (xxhash64 : List ℕ → ℕ) (sha256 : List ℕ → List ℕ)
      (hmac_sha256 : List ℕ → List ℕ → List ℕ) (z : Zstd) (session : ReceiveSession) where
    abbrev ack : ℕ → ℕ → Bool → ChunkAckPayload
    ack file_index chunk_index success = record {
      file_index = file_index;
      chunk_index = chunk_index;
      success = success;
    }

    -- `current_writer.take()` and its `finalize`
    unfoldable pub finalize_writer : Option FileWriter → fs.Disk → Result fs.Disk
    finalize_writer none disk = ok disk
    finalize_writer (some writer) disk = do (_, disk') ← finalize fs sha256 writer disk; ok disk'

    -- Errors of `set_permissions` are only logged.
    abbrev pub apply_mode : Option ℕ → Text → fs.Disk → fs.Disk
    apply_mode none path disk = disk
    apply_mode (some mode) path disk = fs.set_permissions path mode disk

    -- A directory, or a file without chunks, and the acknowledgment
    unfoldable pub acknowledge_marker :
        List FileMetadata → ℕ → FileMetadata → Text → fs.Disk → Moved
    acknowledge_marker files file_index file path disk =
        let disk' = apply_mode file.permissions path disk in
        reply codecs.chunk_ack Message.chunk_ack (ack file_index 0 true) disk' (
          moved
            (await_chunk files
              (record { current_writer = none; current_file_index = some file_index }))
            disk' [])

    unfoldable pub create_empty_file : Text → fs.Disk → Result fs.Disk
    create_empty_file path disk = do
      disk' ← io_call (create_parent fs (fs.parent path) disk)
      io_call (fs.create path disk')

    -- What a `ChunkStart` of another file does, when the writer before it is finalized
    unfoldable pub start_file :
        List FileMetadata → ChunkStartPayload → FileMetadata → fs.Disk → Moved
    start_file files start file disk =
        let path = fs.join session.output_dir file.relative_path in
        if file.is_directory
        then or_fail disk (io_call (fs.create_dir_all path disk))
            (acknowledge_marker files start.file_index file path)
        else if start.total_chunks == 0
        then or_fail disk (create_empty_file path disk)
            (acknowledge_marker files start.file_index file path)
        else or_fail disk (new_writer fs path file.size disk) (λ opened.
          moved
            (await_chunk files (record {
              current_writer = some opened.0;
              current_file_index = some start.file_index;
            }))
            opened.1 [])

    abbrev pub same_index : Option ℕ → ℕ → Bool
    same_index none file_index = false
    same_index (some i) file_index = i == file_index

    unfoldable pub handle_chunk_start :
        List FileMetadata → Receiving → ChunkStartPayload → fs.Disk → Moved
    handle_chunk_start files st start disk =
        if same_index st.current_file_index start.file_index
        then moved (await_chunk files st) disk []
        else or_fail disk (finalize_writer st.current_writer disk) (λ disk'.
          elim (get_elem? files start.file_index) [
            | none ↦ fail (session_error panicked) disk'
            | some file ↦ start_file files start file disk'
          ])

    -- `Error::ChecksumMismatch`, which names the file
    abbrev pub mismatch : List FileMetadata → ChunkDataPayload → Error
    mismatch files sent = elim (get_elem? files sent.file_index) [
      | none ↦ session_error panicked
      | some file ↦ session_error (checksum_mismatch sent.chunk_index)
    ]

    -- An acknowledgment that the chunk failed, and the error
    unfoldable pub refuse_chunk : ChunkDataPayload → Error → fs.Disk → Moved
    refuse_chunk sent e disk =
        reply codecs.chunk_ack Message.chunk_ack (ack sent.file_index sent.chunk_index false) disk
          (fail e disk)

    -- The bytes as they were before compression
    unfoldable pub decompressed : ChunkDataPayload → Result (List ℕ)
    decompressed sent = elim sent.compression [
      | uncompressed ↦ ok sent.chunk
      | zstd ↦ elim (z.decompress sent.chunk) [
        | none ↦ err (session_error compression_failed)
        | some bytes ↦ ok bytes
      ]
    ]

    -- `write_chunk(&chunk).await.is_ok()`, with the writer if there is one
    unfoldable pub write_received :
        Option FileWriter → FileChunk → fs.Disk → Option (FileWriter × fs.Disk)
    write_received none chunk disk = none
    write_received (some writer) chunk disk = elim (write_chunk fs xxhash64 writer chunk disk) [
      | ok written ↦ some written
      | err e ↦ none
    ]

    unfoldable pub store_chunk :
        List FileMetadata → Receiving → ChunkDataPayload → List ℕ → fs.Disk → Moved
    store_chunk files st sent bytes disk =
        let chunk : FileChunk = record {
          file_index = sent.file_index;
          chunk_index = sent.chunk_index;
          bytes = bytes;
          checksum = xxhash64 bytes;
          is_last = false;
        } in
        elim (write_received st.current_writer chunk disk) [
          | none ↦ refuse_chunk sent (mismatch files sent) disk
          | some written ↦
              reply codecs.chunk_ack Message.chunk_ack (ack sent.file_index sent.chunk_index true)
                written.1
                (moved (await_chunk files (record st { current_writer = some written.0 })) written.1
                  [])
        ]

    unfoldable pub handle_chunk_data : List FileMetadata → Receiving → List ℕ → fs.Disk → Moved
    handle_chunk_data files st payload disk = or_fail disk (decode_chunk_data payload) (λ sent.
        if xxhash64 sent.chunk == sent.checksum
        then elim (decompressed sent) [
          | err e ↦ refuse_chunk sent e disk
          | ok bytes ↦ store_chunk files st sent bytes disk
        ]
        else refuse_chunk sent (mismatch files sent) disk)

    abbrev pub unexpected : MessageType → fs.Disk → Moved
    unexpected t disk = fail (session_error (unexpected_message (as_byte t))) disk

    -- The body of the loop of `do_receive`
    unfoldable pub receive_frame : List FileMetadata → Receiving → Frame → fs.Disk → Moved
    receive_frame files st (Message.chunk_start, payload) disk =
        or_fail disk (codecs.chunk_start.decode payload)
          (λ start. handle_chunk_start files st start disk)
    receive_frame files st (Message.chunk_data, payload) disk =
        handle_chunk_data files st payload disk
    receive_frame files st (Message.transfer_complete, payload) disk =
        or_fail disk (finalize_writer st.current_writer disk) (λ disk'. moved complete disk' [])
    receive_frame files st (Message.transfer_cancel, payload) disk =
        fail (session_error transfer_cancelled) disk
    receive_frame files st (t, payload) disk = unexpected t disk

    abbrev pub accept : List FileMetadata → fs.Disk → Moved
    accept files disk =
        reply codecs.file_list_ack Message.file_list_ack
          (record { accepted = true; accepted_files = none }) disk
          (moved (await_chunk files nothing_received) disk [])

    -- Errors are ignored.
    abbrev pub decline : fs.Disk → Moved
    decline disk =
        elim (codecs.file_list_ack.encode (record { accepted = false; accepted_files = none })) [
          | err e ↦ moved declined disk []
          | ok payload ↦ moved declined disk ((Message.file_list_ack, payload) ∷ [])
        ]

    -- The user's decision
    unfoldable pub decide : List FileMetadata → fs.Disk → Moved
    decide files disk = if session.accepts files then accept files disk else decline disk

    -- `stop_keep_alive` when the task has failed: accepting gives its error, and declining finds no
    -- stream.
    unfoldable pub keep_alive_ends : List FileMetadata → Error → Phase
    keep_alive_ends files e = if session.accepts files then failed e else declined

    -- The pings of the keep-alive task, then the decision
    unfoldable pub keep_alive : ℕ → List FileMetadata → fs.Disk → Moved
    keep_alive zero files disk = decide files disk
    keep_alive (suc n) files disk = moved (await_pong n files) disk ((Message.ping, []) ∷ [])

    abbrev pub hello_ack : HelloPayload
    hello_ack = record {
      device_name = session.device_name;
      protocol_version = b'1' ∷ b'.' ∷ b'0' ∷ [];
      device_id = some session.device_id;
      public_key = some session.public_key;
      compression = some (with_zstd 1);
    }

    -- `do_handshake`, and the first half of `do_code_verification`
    unfoldable pub greet : Frame → fs.Disk → Moved
    greet frame disk =
        if same_type frame.0 Message.hello
        then or_fail disk (codecs.hello.decode frame.1) (λ hello.
          reply codecs.hello Message.hello_ack hello_ack disk (
            reply codecs.code_verify Message.code_verify
              (record { code_hmac = hmac_sha256 session.session_key session.code }) disk
              (moved await_code_ack disk [])))
        else unexpected frame.0 disk

    -- The second half of `do_code_verification`
    unfoldable pub code_answer : Frame → fs.Disk → Moved
    code_answer frame disk =
        if same_type frame.0 Message.code_verify_ack
        then or_fail disk (codecs.code_verify_ack.decode frame.1) (λ answer.
          if answer.success
          then moved await_file_list disk []
          else fail (session_error code_not_found) disk)
        else unexpected frame.0 disk

    unfoldable pub receive_file_list : Frame → fs.Disk → Moved
    receive_file_list frame disk =
        if same_type frame.0 Message.file_list
        then or_fail disk (codecs.file_list.decode frame.1)
            (λ offered. keep_alive session.pings offered.files disk)
        else unexpected frame.0 disk

    -- What a frame does in each phase; one that has ended reads no more. The keep-alive task only logs
    -- a frame that is no pong, and fails if none comes in time.
    unfoldable pub handle : Phase → Frame → fs.Disk → Moved
    handle await_hello frame disk = greet frame disk
    handle await_code_ack frame disk = code_answer frame disk
    handle await_file_list frame disk = receive_file_list frame disk
    handle (await_pong n files) frame disk =
        if session.pong_in_time n
        then keep_alive n files disk
        else moved (keep_alive_ends files (session_error keep_alive_failed)) disk []
    handle (await_chunk files st) frame disk = receive_frame files st frame disk
    handle complete frame disk = moved complete disk []
    handle declined frame disk = moved declined disk []
    handle (failed e) frame disk = moved (failed e) disk []

    -- What a frame leaves that `read_frame` refuses
    unfoldable pub refuse : Phase → Frame → Phase
    refuse complete frame = complete
    refuse declined frame = declined
    refuse (failed e) frame = failed e
    refuse (await_pong n files) frame = keep_alive_ends files (too_large frame)
    refuse p frame = failed (too_large frame)
