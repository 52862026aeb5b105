-- ===== src/Protocol/Message.antt =====
-- crates/yoop-core/src/protocol/mod.rs: the type of a message and its byte on the wire.
use yoop.Base.{ℕ, ◌≡◌, refl, Option, none, some, arith, ◌==◌, if◌then◌else◌}

pub data MessageType : Type 0 where
  hello hello_ack code_verify code_verify_ack file_list : MessageType
  file_list_ack preview_request preview_data chunk_start chunk_data : MessageType
  chunk_ack transfer_complete transfer_cancel ping pong : MessageType
  resume_request resume_ack clipboard_meta clipboard_data clipboard_ack : MessageType
  clipboard_changed clipboard_request trusted_hello trusted_hello_ack trusted_verify : MessageType
  trusted_verify_ack sync_init sync_init_ack sync_index sync_index_ack : MessageType
  sync_op sync_op_ack sync_chunk sync_chunk_ack sync_complete : MessageType
  sync_status error : MessageType

-- `message_type as u8`
unfoldable pub as_byte : MessageType → ℕ
as_byte hello = 0x01
as_byte hello_ack = 0x02
as_byte code_verify = 0x03
as_byte code_verify_ack = 0x04
as_byte file_list = 0x05
as_byte file_list_ack = 0x06
as_byte preview_request = 0x07
as_byte preview_data = 0x08
as_byte chunk_start = 0x10
as_byte chunk_data = 0x11
as_byte chunk_ack = 0x12
as_byte transfer_complete = 0x20
as_byte transfer_cancel = 0x21
as_byte ping = 0x30
as_byte pong = 0x31
as_byte resume_request = 0x40
as_byte resume_ack = 0x41
as_byte clipboard_meta = 0x50
as_byte clipboard_data = 0x51
as_byte clipboard_ack = 0x52
as_byte clipboard_changed = 0x53
as_byte clipboard_request = 0x54
as_byte trusted_hello = 0x60
as_byte trusted_hello_ack = 0x61
as_byte trusted_verify = 0x62
as_byte trusted_verify_ack = 0x63
as_byte sync_init = 0x70
as_byte sync_init_ack = 0x71
as_byte sync_index = 0x72
as_byte sync_index_ack = 0x73
as_byte sync_op = 0x74
as_byte sync_op_ack = 0x75
as_byte sync_chunk = 0x76
as_byte sync_chunk_ack = 0x77
as_byte sync_complete = 0x78
as_byte sync_status = 0x79
as_byte error = 0xff

unfoldable pub from_byte : ℕ → Option MessageType
from_byte byte =
    if byte == 0x01
    then some hello
    else if byte == 0x02
    then some hello_ack
    else if byte == 0x03
    then some code_verify
    else if byte == 0x04
    then some code_verify_ack
    else if byte == 0x05
    then some file_list
    else if byte == 0x06
    then some file_list_ack
    else if byte == 0x07
    then some preview_request
    else if byte == 0x08
    then some preview_data
    else if byte == 0x10
    then some chunk_start
    else if byte == 0x11
    then some chunk_data
    else if byte == 0x12
    then some chunk_ack
    else if byte == 0x20
    then some transfer_complete
    else if byte == 0x21
    then some transfer_cancel
    else if byte == 0x30
    then some ping
    else if byte == 0x31
    then some pong
    else if byte == 0x40
    then some resume_request
    else if byte == 0x41
    then some resume_ack
    else if byte == 0x50
    then some clipboard_meta
    else if byte == 0x51
    then some clipboard_data
    else if byte == 0x52
    then some clipboard_ack
    else if byte == 0x53
    then some clipboard_changed
    else if byte == 0x54
    then some clipboard_request
    else if byte == 0x60
    then some trusted_hello
    else if byte == 0x61
    then some trusted_hello_ack
    else if byte == 0x62
    then some trusted_verify
    else if byte == 0x63
    then some trusted_verify_ack
    else if byte == 0x70
    then some sync_init
    else if byte == 0x71
    then some sync_init_ack
    else if byte == 0x72
    then some sync_index
    else if byte == 0x73
    then some sync_index_ack
    else if byte == 0x74
    then some sync_op
    else if byte == 0x75
    then some sync_op_ack
    else if byte == 0x76
    then some sync_chunk
    else if byte == 0x77
    then some sync_chunk_ack
    else if byte == 0x78
    then some sync_complete
    else if byte == 0x79
    then some sync_status
    else if byte == 0xff
    then some error
    else none

-- Every message type is read back from its byte.
pub from_byte-as_byte : (m : MessageType) → from_byte (as_byte m) ≡ some m
unfolding from_byte as_byte
from_byte-as_byte hello = refl
from_byte-as_byte _ = refl

-- No other byte is read as a message type.
pub as_byte-from_byte : (b : ℕ) (m : MessageType) → from_byte b ≡ some m → as_byte m ≡ b
unfolding from_byte as_byte
as_byte-from_byte b m h = ground arith
