-- ===== src/Lib.antt =====
-- Yoop shares files, folders and clipboards between devices of a local network. This library models
-- the core of it, the crate crates/yoop-core, and proves what makes its parts correct.
--
-- The parts, and the files that model them:
--   Base         what the parts share: lists, lookup tables, decimal numerals, and the errors of
--                crates/yoop-core/src/error.rs
--   Protocol     crates/yoop-core/src/protocol/mod.rs: `FrameHeader::encode` and `decode`,
--                `read_frame` and `write_frame`, and the binary payloads of chunks
--   Compression  crates/yoop-core/src/compression/mod.rs: algorithms and their negotiation
--   Code         crates/yoop-core/src/code/mod.rs: share codes, `ShareCode::parse` and
--                `CodeGenerator::generate`
--   Sync         crates/yoop-core/src/sync: Sync.Model is the data of mod.rs, Sync.Index is index.rs
--                (`FileIndex`), Sync.Conflict is conflict.rs, Sync.Engine and Sync.Plan are engine.rs,
--                and Sync.Session is session.rs: the handshake, with Handshakes and Received for what
--                each device has then and Planning for what both plan; Initial is `run_initial_sync`
--                with `apply_local_op`; Live is `send_sync_op` as a program and the inbound task as a
--                state machine, with Delivery from one to the other
--   Files        crates/yoop-core/src/file/mod.rs: reading a file in chunks (Files.Chunks) and
--                writing the chunks to a file (Files.Writing)
--   Storage      what crates/yoop-core/src/history/mod.rs and crates/yoop-core/src/trust/mod.rs do
--                alike: a store that is one JSON file
--   History      crates/yoop-core/src/history/mod.rs: the record of past transfers, `HistoryStore`
--   Trust        crates/yoop-core/src/trust/mod.rs: the trusted devices, `TrustStore`
--   Transfer     crates/yoop-core/src/transfer/mod.rs: `ResumeState`, from which an interrupted
--                transfer is resumed, and the two sides of a transfer: Transfer.Wire is what they say,
--                Transfer.Sender is `ShareSession::wait`, a program that writes and reads frames,
--                Transfer.Receiver is `ReceiveSession`, a state machine, and Transfer.Network the
--                steps of both, in any interleaving. Transfer.Outcomes says how a transfer ends;
--                Exchange, Arrival, Delivery and Dialogue follow it chunk by chunk, file by file
--                and message by message, and Speaking what the sender says; Limit is the limit of
--                a payload for the two sides; Peers is two such programs against each other;
--                Transfer.Manager is crates/yoop-core/src/transfer/resume.rs, the
--                files of resume states; Packing, made with Coding, has the payloads of the concrete
--                runs, and Trial a concrete transfer
--   Migration    crates/yoop-core/src/update/mod.rs and crates/yoop-core/src/migration/mod.rs:
--                versions, and the choice of the migrations to run, `MigrationManager::get_pending`.
--                Migration.Backup is backup.rs, with Keeping, Removing and Sorting for what is kept,
--                Restoring and Surviving for what is saved and restored, Succeeding for when a backup
--                is made, all over the chains of steps of Steps. Migration.Run is
--                `MigrationManager::run` and `rollback`, with the state of version.rs; Run.Restoring is what it leaves on the
--                disk, Run.Faults which errors it reports. Memory has the disk of the concrete runs
--
-- How they interact: two devices send frames to each other (Protocol) in which chunks travel,
-- compressed by the algorithm that both know (Compression). A receiver finds a sender by a share
-- code (Code). To keep two folders the same, each device takes an index of its folder; `reconcile`
-- compares the two indexes with the conflict detector, and gives operations for both sides, which a
-- plan puts into order; a session exchanges the indexes, and sends what changes later one operation
-- at a time (Sync). Files go from device to device in a transfer (Transfer), read and written in
-- chunks (Files). An update of the program may change the stored files; they are backed up first
-- (Migration).
--
-- The correspondence. Numbers are natural numbers; a cast to 32 bits is written as a remainder.
-- Bytes are numbers, with the hypothesis that they are below 256 where it matters. A hash map is an
-- association list in the order of its iteration, and every statement holds for every order. A
-- `HashSet` of paths is such a map to `true`. In Sync, times are nanoseconds since the earliest
-- time that the type can name. An asynchronous reader is the list of the bytes still to come, and a
-- writer that of the bytes written; a connection is a queue of frames in each direction, which
-- holds what is written until it is read; each reader refuses a frame above the limit of 16 MB, and
-- the theorems on two sides ask that no frame is (Transfer.Limit). A `Result` is
-- `Base.Outcome.Result`, with the errors by their causes. Loops are recursion over the list that
-- they go through, but for three that have a bound on their rounds: that of `get_pending`, one more
-- than there are migrations, and that of `read_chunks`, one more than the file has bytes, which are
-- proved to be enough; and the sender's answers to pings, for which the theorems ask for more
-- rounds than the receiver sends pings. A panic is an error. The timeouts are those of the
-- keep-alive pings: whether an answer comes in time is a field of the session. The writer of a
-- store's file is dropped without a flush, so that what it had left may be lost without an error;
-- the theorem that a store is read back asks that it is not.
--
-- Parameters: the hashes xxh64, SHA-256 and HMAC; Unicode's tables of blanks and of upper case,
-- known for ASCII; the draws of the random number generator; the clock; the file system below a
-- store, with the law that a file written and flushed in full reads as what was written; that of a
-- receiver, with the laws of what creating and appending do to the bytes of files; that of the
-- resume files, whose calls may fail; that of a sender; how many bytes a read gives, some if there
-- are any; zstd, with the law that what it compresses it decompresses again; the directory of a
-- synchronization, which adds to a receiver's file system what is done with whole files; the file
-- system below the backups, with laws on which files and paths a call leaves as they are; what a
-- migration does; and serde's JSON of the messages, with the law that what it prints it parses
-- again.
--
-- Not modelled: sockets, TLS and the clipboard; progress reports; the resumed reception of a
-- transfer; the trusted handshake, the tasks of a live synchronization beside the inbound one, with
-- the lock of the stream that they share, and its events for the user; the registered migration,
-- which edits TOML; the web server, the terminal interface and the command line.
pub mod Base
pub mod Protocol
pub mod Compression
pub mod Code
pub mod Sync
pub mod Files
pub mod Storage
pub mod History
pub mod Trust
pub mod Transfer
pub mod Migration
