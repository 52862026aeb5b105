-- ===== src/Sync/Session.antt =====
-- crates/yoop-core/src/sync/session.rs: the handshake of two devices that synchronize a directory, from
-- the TLS connection on, with the payloads of crates/yoop-core/src/protocol/mod.rs that it exchanges.
-- Paths are the lists of their UTF-8 bytes.
pub mod Received
pub mod Handshakes
pub mod Initial
pub mod Unwritten
pub mod Live
pub mod Planning
pub mod Packing
mod Examples
use yoop.Base.{
  ℕ, ◌+◌, ◌-◌, ◌*◌, ◌/◌, ◌^◌, ◌≡◌, refl, Bool, true, false, none, some, List, [], ◌∷◌, ltb, ◌==◌,
  if◌then◌else◌, length, insert, Result, ok, err, ◌>>=◌, session_error, panicked, protocol_error,
  expected_message,
}
use yoop.Storage.{Text}
use yoop.Protocol.Message as Message
use yoop.Protocol.Message.{MessageType, as_byte}
use yoop.Transfer.Wire.{
  HelloPayload, Codec, Frame, same_type, same_type_self, Program, write_frame, read_frame, done,
  send, receive,
}
use yoop.Sync.Model.{
  FileKind, file, directory, symlink, new_path, RelativePath-discrete, SystemTime, unix_epoch,
  nanos_per_sec,
}
use yoop.Sync.Index.{FileEntry, Entries, FileIndex, from_entries, total_size}

pub record SyncCapabilities : Type 0 where
  pub supports_rename : Bool
  pub supports_compression : Bool
  pub supports_partial : Bool
  pub max_file_size : ℕ

abbrev pub default_capabilities : SyncCapabilities
default_capabilities = record {
  supports_rename = true;
  supports_compression = false;
  supports_partial = false;
  max_file_size = 0;
}

pub record SyncInitPayload : Type 0 where
  pub sync_root_name : Text
  pub file_count : ℕ
  pub total_size : ℕ
  pub index_hash : ℕ
  pub protocol_version : ℕ
  pub capabilities : SyncCapabilities

-- The time is that of the 64 bits of an `i64`.
pub record SyncIndexEntry : Type 0 where
  pub path : List ℕ
  pub kind : ℕ
  pub size : ℕ
  pub mtime : ℕ
  pub content_hash : ℕ

pub record SyncIndexPayload : Type 0 where
  pub entries : List SyncIndexEntry

pub record SyncCodecs : Type 0 where
  pub hello : Codec HelloPayload
  pub sync_init : Codec SyncInitPayload
  pub sync_index : Codec SyncIndexPayload

-- `kind as u8`
unfoldable pub kind_byte : FileKind → ℕ
kind_byte file = 0
kind_byte directory = 1
kind_byte symlink = 2

unfoldable pub kind_of_byte : ℕ → FileKind
kind_of_byte kind = if kind == 1 then directory else if kind == 2 then symlink else file

-- The whole seconds since 1970, or 0 before
unfoldable pub unix_seconds : SystemTime → ℕ
unix_seconds mtime = (mtime - unix_epoch) / nanos_per_sec

unfoldable pub index_entry : FileEntry → SyncIndexEntry
unfolding kind_byte unix_seconds
index_entry e = record {
  path = e.path.text;
  kind = kind_byte e.kind;
  size = e.size;
  mtime = unix_seconds e.mtime;
  content_hash = e.content_hash;
}

unfoldable pub index_entries : Entries → List SyncIndexEntry
unfolding index_entry
index_entries [] = []
index_entries ((p, e) ∷ m) = index_entry e ∷ index_entries m

-- A time that `SystemTime` cannot name panics.
unfoldable pub file_entry : SyncIndexEntry → Result FileEntry
unfolding kind_of_byte
file_entry entry =
    if ltb entry.mtime (2 ^ 63)
    then ok (record {
      path = new_path entry.path;
      kind = kind_of_byte entry.kind;
      size = entry.size;
      mtime = unix_epoch + entry.mtime * nanos_per_sec;
      content_hash = entry.content_hash;
    })
    else err (session_error panicked)

-- The loop over the entries that came
unfoldable pub entries_map : List SyncIndexEntry → Entries → Result Entries
unfolding file_entry
entries_map [] m = ok m
entries_map (entry ∷ entries) m = elim (file_entry entry) [
  | err e ↦ err e
  | ok f ↦ entries_map entries (insert RelativePath-discrete f.path f m)
]

module _ {R : Type 0} where
  abbrev pub take_expected :
      {A : Type 0} → Codec A → MessageType → (A → Program R) → Frame → Program R
  take_expected codec t next frame =
      if same_type frame.0 t
      then elim (codec.decode frame.1) [ err e ↦ done (err e) | ok a ↦ next a ]
      else done (err (protocol_error (expected_message (as_byte t))))

  -- A frame of one type, any other being a `ProtocolError`
  abbrev pub expect : {A : Type 0} → Codec A → MessageType → (A → Program R) → Program R
  expect codec t next = read_frame (take_expected codec t next)

  pub take_expected-decoded :
      {A : Type 0} (codec : Codec A) (t : MessageType) (next : A → Program R) (payload : List ℕ)
      (a : A)
      → codec.decode payload ≡ ok a
      → take_expected codec t next (t, payload) ≡ next a
  take_expected-decoded codec t next payload a h = rw (same_type_self t, h) refl

  module _ (codecs : SyncCodecs) (xxh64 : List ℕ → ℕ) where
    unfoldable pub take_index_ack :
        List SyncIndexEntry → (FileIndex → Program R) → Frame → Program R
    unfolding entries_map from_entries
    take_index_ack entries next frame =
        if same_type frame.0 Message.sync_index_ack
        then elim (entries_map entries []) [
          | err e ↦ done (err e)
          | ok m ↦ next (from_entries xxh64 m)
        ]
        else done (err (protocol_error (expected_message (as_byte Message.sync_index_ack))))

    unfoldable pub exchange_index : FileIndex → (FileIndex → Program R) → Program R
    unfolding take_index_ack index_entries
    exchange_index local_index next =
        send codecs.sync_index Message.sync_index
          (record { entries = index_entries local_index.entries })
          (expect codecs.sync_index Message.sync_index (λ theirs.
            write_frame (Message.sync_index_ack, [])
              (read_frame (take_index_ack theirs.entries next))))

-- What a device brings to a session: its name, the name of its directory, and its index
pub record SyncPeer : Type 0 where
  pub device_name : Text
  pub sync_root_name : Text
  pub local_index : FileIndex

abbrev pub greeting : SyncPeer → HelloPayload
greeting peer = record {
  device_name = peer.device_name;
  protocol_version = b'1' ∷ b'.' ∷ b'0' ∷ [];
  device_id = none;
  public_key = none;
  compression = none;
}

abbrev pub sync_init_of : SyncPeer → SyncInitPayload
sync_init_of peer = record {
  sync_root_name = peer.sync_root_name;
  file_count = length peer.local_index.entries;
  total_size = total_size peer.local_index;
  index_hash = peer.local_index.root_hash;
  protocol_version = 1;
  capabilities = default_capabilities;
}

-- The name of the other device, and its index
abbrev pub Handshake : Type 0
Handshake = Text × FileIndex

module _ (codecs : SyncCodecs) (xxh64 : List ℕ → ℕ) where
  unfoldable pub handshake_host : SyncPeer → Program Handshake
  unfolding exchange_index
  handshake_host peer = receive codecs.hello Message.hello (λ hello.
      send codecs.hello Message.hello_ack (greeting peer) (
        send codecs.sync_init Message.sync_init (sync_init_of peer) (
          expect codecs.sync_init Message.sync_init_ack (λ theirs.
            exchange_index codecs xxh64 peer.local_index
              (λ remote_index. done (ok (hello.device_name, remote_index)))))))

  unfoldable pub handshake_client : SyncPeer → Program Handshake
  unfolding exchange_index
  handshake_client peer = send codecs.hello Message.hello (greeting peer) (
      receive codecs.hello Message.hello_ack (λ hello_ack.
        expect codecs.sync_init Message.sync_init (λ theirs.
          send codecs.sync_init Message.sync_init_ack (sync_init_of peer) (
            exchange_index codecs xxh64 peer.local_index
              (λ remote_index. done (ok (hello_ack.device_name, remote_index)))))))
