-- ===== src/Transfer/Trial.antt =====
-- A transfer of a file and a directory, and that its frames are within the limit of a payload.
use yoop.Base.{ℕ, ◌≢◌, refl, sym, ap, Bool, true, false, some, none, List, [], ◌∷◌, ◌++◌, arith}
use yoop.Files.{FileMetadata}
use yoop.Files.Examples.{full_reads, memory, constant_hash}
use yoop.Transfer.Sender.{Zstd, Source, ShareSession, auto}
use yoop.Transfer.Receiver.{ReceiveSession}
use yoop.Transfer.Packing.{packed}
use yoop.Transfer.Outcomes.{Within}

abbrev pub photo : FileMetadata
photo = record {
  relative_path = [];
  size = 20;
  mime_type = none;
  created = none;
  modified = none;
  permissions = none;
  is_symlink = false;
  symlink_target = none;
  is_directory = false;
  preview = none;
}

-- A library that leaves all data as it is
abbrev pub plain : Zstd
plain = record {
  compress = λ level xs. some xs;
  decompress = λ ys. some ys;
  should_compress = λ xs. true;
  incompressible = λ path. false;
  decompress_compress = λ level xs ys h. sym h;
}

-- One shared file, of five bytes
abbrev pub shared : Source
shared = record {
  file_paths = (b'a' ∷ []) ∷ [];
  is_file = λ path. true;
  is_dir = λ path. false;
  exists = λ path. false;
  file_name = λ path. some path;
  ends_with = λ path suffix. false;
  join = λ dir name. dir ++ name;
  bytes = λ path. some (1 ∷ 2 ∷ 3 ∷ 4 ∷ 5 ∷ []);
}

abbrev pub note : FileMetadata
note = record photo { relative_path = b'a' ∷ []; size = 5 }

abbrev pub folder : FileMetadata
folder = record photo { relative_path = b'd' ∷ []; size = 0; is_directory = true }

abbrev pub sharing : ShareSession
sharing = record {
  files = note ∷ folder ∷ [];
  device_name = b's' ∷ [];
  device_id = 1;
  public_key = b'k' ∷ [];
  session_key = 7 ∷ [];
  code = 1 ∷ 2 ∷ 3 ∷ [];
  chunk_size = 2;
  compression = auto;
  compression_level = 1;
}

-- A receiver that has the code it is given, and answers as it is told after one ping
abbrev pub receiving : List ℕ → Bool → ReceiveSession
receiving code answer = record {
  device_name = b'r' ∷ [];
  device_id = 2;
  public_key = b'k' ∷ [];
  session_key = 7 ∷ [];
  code = code;
  output_dir = b'o' ∷ [];
  pings = 1;
  pong_in_time = λ n. true;
  accepts = λ files. answer;
}

abbrev pub keyed : List ℕ → List ℕ → List ℕ
keyed key message = key ++ message

abbrev pub digest : List ℕ → List ℕ
digest xs = xs

abbrev pub willing : ReceiveSession
willing = receiving (1 ∷ 2 ∷ 3 ∷ []) true

abbrev pub second : List ℕ → ℕ
second (x ∷ y ∷ xs) = y
second _ = 0

pub other_code : keyed (7 ∷ []) (9 ∷ 2 ∷ 3 ∷ []) ≢ keyed (7 ∷ []) (1 ∷ 2 ∷ 3 ∷ [])
other_code h = omega (arith, ap second h)

abbrev pub with_other_code : ReceiveSession
with_other_code = receiving (9 ∷ 2 ∷ 3 ∷ []) true

abbrev pub unwilling : ReceiveSession
unwilling = receiving (1 ∷ 2 ∷ 3 ∷ []) false

pub other-Within :
    Within memory packed constant_hash digest keyed full_reads plain shared with_other_code 5
      sharing []
unfolding yoop.Transfer.Limit.all_within yoop.Transfer.Sender.wait yoop.Transfer.Sender.do_handshake
    yoop.Transfer.Sender.do_code_verification yoop.Transfer.Sender.constant_time_eq
    yoop.Transfer.Sender.differs yoop.Transfer.Sender.compression_capabilities
    yoop.Transfer.Receiver.handle yoop.Transfer.Receiver.greet yoop.Transfer.Receiver.code_answer
    yoop.Transfer.Coding.decode_packed yoop.Transfer.Coding.unpack_as yoop.Transfer.Coding.and_then
    yoop.Transfer.Coding.unpack_pair yoop.Transfer.Coding.unpack_option
    yoop.Transfer.Coding.unpack_list yoop.Transfer.Coding.unpack_all yoop.Transfer.Packing.packed
    yoop.Transfer.Wire.same_type yoop.Protocol.Message.as_byte yoop.Compression.with_zstd
other-Within = refl

pub unwilling-Within :
    Within memory packed constant_hash digest keyed full_reads plain shared unwilling 5 sharing []
unfolding yoop.Transfer.Limit.all_within yoop.Transfer.Sender.wait yoop.Transfer.Sender.do_handshake
    yoop.Transfer.Sender.do_code_verification yoop.Transfer.Sender.constant_time_eq
    yoop.Transfer.Sender.differs yoop.Transfer.Sender.compression_capabilities
    yoop.Transfer.Receiver.handle yoop.Transfer.Receiver.greet yoop.Transfer.Receiver.code_answer
    yoop.Transfer.Coding.decode_packed yoop.Transfer.Coding.unpack_as yoop.Transfer.Coding.and_then
    yoop.Transfer.Coding.unpack_pair yoop.Transfer.Coding.unpack_option
    yoop.Transfer.Coding.unpack_list yoop.Transfer.Coding.unpack_all yoop.Transfer.Packing.packed
    yoop.Transfer.Wire.same_type yoop.Protocol.Message.as_byte yoop.Compression.with_zstd
    yoop.Transfer.Sender.do_file_list_exchange yoop.Transfer.Sender.await_file_list_ack
    yoop.Transfer.Sender.list_reply yoop.Transfer.Receiver.receive_file_list
    yoop.Transfer.Receiver.keep_alive yoop.Transfer.Receiver.decide
unwilling-Within = refl

pub willing-Within :
    Within memory packed constant_hash digest keyed full_reads plain shared willing 5 sharing []
unfolding yoop.Transfer.Limit.all_within yoop.Transfer.Sender.wait yoop.Transfer.Sender.do_handshake
    yoop.Transfer.Sender.do_code_verification yoop.Transfer.Sender.constant_time_eq
    yoop.Transfer.Sender.differs yoop.Transfer.Sender.compression_capabilities
    yoop.Transfer.Receiver.handle yoop.Transfer.Receiver.greet yoop.Transfer.Receiver.code_answer
    yoop.Transfer.Coding.decode_packed yoop.Transfer.Coding.unpack_as yoop.Transfer.Coding.and_then
    yoop.Transfer.Coding.unpack_pair yoop.Transfer.Coding.unpack_option
    yoop.Transfer.Coding.unpack_list yoop.Transfer.Coding.unpack_all yoop.Transfer.Packing.packed
    yoop.Transfer.Wire.same_type yoop.Protocol.Message.as_byte yoop.Compression.with_zstd
    yoop.Transfer.Sender.do_file_list_exchange yoop.Transfer.Sender.await_file_list_ack
    yoop.Transfer.Sender.list_reply yoop.Transfer.Receiver.receive_file_list
    yoop.Transfer.Receiver.keep_alive yoop.Transfer.Receiver.decide yoop.Transfer.Sender.do_transfer
    yoop.Transfer.Sender.send_files yoop.Transfer.Sender.send_file yoop.Transfer.Sender.send_read
    yoop.Transfer.Sender.read_file yoop.Transfer.Sender.file_should_compress
    yoop.Transfer.Sender.send_chunks yoop.Transfer.Sender.send_chunk
    yoop.Transfer.Sender.chunk_payload yoop.Transfer.Sender.wire_data
    yoop.Transfer.Sender.send_marker yoop.Transfer.Sender.find_file_path
    yoop.Transfer.Sender.should_compress_file yoop.Transfer.Sender.negotiated_compression
    yoop.Transfer.Sender.same_text yoop.Transfer.Receiver.receive_frame
    yoop.Transfer.Receiver.handle_chunk_start yoop.Transfer.Receiver.handle_chunk_data
    yoop.Transfer.Receiver.store_chunk yoop.Transfer.Receiver.write_received
    yoop.Transfer.Receiver.decompressed yoop.Transfer.Receiver.refuse_chunk
    yoop.Transfer.Receiver.start_file yoop.Transfer.Receiver.acknowledge_marker
    yoop.Transfer.Receiver.create_empty_file yoop.Transfer.Receiver.finalize_writer
    yoop.Protocol.encode_chunk_data yoop.Protocol.decode_chunk_data yoop.Files.read_chunks
    yoop.Files.new_writer yoop.Files.write_chunk yoop.Files.finalize yoop.Protocol.Bytes.to_be_bytes
    yoop.Protocol.Bytes.from_be_bytes yoop.Compression.negotiate
    yoop.Compression.algorithm_from_byte yoop.Compression.algorithm_byte
willing-Within = refl
