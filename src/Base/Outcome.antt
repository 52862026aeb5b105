-- ===== src/Base/Outcome.antt =====
-- crates/yoop-core/src/error.rs: the errors that the modelled code returns. The text of a message
-- is not kept; where a message shows a value, or names one of several causes, that is kept.
use Prim.Native.Nat.{ℕ}
use mathlib.Core.Option.{Option, none, some}

pub data ProtocolFault : Type 0 where
  invalid_magic : ProtocolFault
  unknown_message_type : ℕ → ProtocolFault
  payload_too_large : ℕ → ProtocolFault
  chunk_too_short : ProtocolFault
  unknown_compression : ℕ → ProtocolFault
  compressed_chunk_too_short : ProtocolFault
  sync_chunk_too_short : ProtocolFault
  -- the byte of the type that was expected
  expected_message : ℕ → ProtocolFault

pub data CodeFault : Type 0 where
  wrong_length : ℕ → CodeFault
  invalid_character : ℕ → CodeFault

pub data IoFault : Type 0 where
  unexpected_eof : IoFault
  file_system : IoFault

-- What a session refuses or gives up for
pub data SessionFault : Type 0 where
  -- the byte of the type that came instead
  unexpected_message : ℕ → SessionFault
  checksum_mismatch : (chunk : ℕ) → SessionFault
  code_not_found : SessionFault
  transfer_rejected : SessionFault
  transfer_cancelled : SessionFault
  keep_alive_failed : SessionFault
  receiver_failed : SessionFault
  compression_failed : SessionFault
  file_not_found : SessionFault
  -- an index out of range
  panicked : SessionFault
  -- the bound that a loop is given here was reached
  out_of_rounds : SessionFault
  sync_operation_failed : SessionFault

-- What migrations and their backups fail for
pub data InternalFault : Type 0 where
  backup_failed : InternalFault
  backup_not_found : InternalFault
  migration_failed : InternalFault

pub data Error : Type 0 where
  internal : InternalFault → Error
  session_error : SessionFault → Error
  protocol_error : ProtocolFault → Error
  invalid_code_format : CodeFault → Error
  io : IoFault → Error
  config_error : Error

-- `Result` of the crate; `>>=` is what `?` does.
pub data Result {ℓ} (T : Type ℓ) : Type ℓ where
  err : Error → Result T
  ok : T → Result T

infixl 5 ◌>>=◌
abbrev pub ◌>>=◌ {κ ℓ} :
    {T : Type κ} {U : Type ℓ} (result : Result T) (next : T → Result U) → Result U
err fault >>= next = err fault
ok value >>= next = next value

infixl 5 ◌>>◌
abbrev pub ◌>>◌ {ℓ} : {T : Type ℓ} (checked : Result (Unit {0})) (result : Result T) → Result T
err fault >> result = err fault
ok done >> result = result

-- `ok_or_else`
abbrev pub ok_or {ℓ} : {T : Type ℓ} → Option T → Error → Result T
ok_or none fault = err fault
ok_or (some value) fault = ok value
