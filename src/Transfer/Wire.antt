-- ===== src/Transfer/Wire.antt =====
-- crates/yoop-core/src/protocol/mod.rs: the payloads of a transfer, which serde prints and parses, and
-- what one side of a connection does: it writes frames and reads frames. A frame is its type and its
-- payload, as `read_frame` and `write_frame` carry them.
use yoop.Base.{
  ℕ, ◌≡◌, refl, sym, ap, ◌∙◌, Error, Bool, true, Option, List, ◌==◌, if◌then◌else◌, Result, ok, err,
  ◌>>=◌, session_error, unexpected_message, arith,
}
use yoop.Storage.{Text}
use yoop.Compression.{CompressionCapabilities}
use yoop.Files.{FileMetadata}
use yoop.Protocol.Message.{MessageType, as_byte}

pub record HelloPayload : Type 0 where
  pub device_name : Text
  pub protocol_version : Text
  pub device_id : Option ℕ
  pub public_key : Option Text
  pub compression : Option CompressionCapabilities

pub record CodeVerifyPayload : Type 0 where
  pub code_hmac : List ℕ

pub record CodeVerifyAckPayload : Type 0 where
  pub success : Bool
  pub error_text : Option Text

pub record FileListPayload : Type 0 where
  pub files : List FileMetadata
  pub total_size : ℕ

pub record FileListAckPayload : Type 0 where
  pub accepted : Bool
  pub accepted_files : Option (List ℕ)

pub record ChunkStartPayload : Type 0 where
  pub file_index : ℕ
  pub chunk_index : ℕ
  pub total_chunks : ℕ

pub record ChunkAckPayload : Type 0 where
  pub file_index : ℕ
  pub chunk_index : ℕ
  pub success : Bool

-- `encode_payload` and `decode_payload` at one type: what serde prints it parses again.
pub record Codec (A : Type 0) : Type 0 where
  pub encode : A → Result (List ℕ)
  pub decode : List ℕ → Result A
  pub round_trip : (a : A) → (encode a >>= decode) ≡ ok a

pub record Codecs : Type 0 where
  pub hello : Codec HelloPayload
  pub code_verify : Codec CodeVerifyPayload
  pub code_verify_ack : Codec CodeVerifyAckPayload
  pub file_list : Codec FileListPayload
  pub file_list_ack : Codec FileListAckPayload
  pub chunk_start : Codec ChunkStartPayload
  pub chunk_ack : Codec ChunkAckPayload

abbrev pub Frame : Type 0
Frame = MessageType × List ℕ

-- The comparison of message types, which have no fields
unfoldable pub same_type : MessageType → MessageType → Bool
same_type a b = as_byte a == as_byte b

pub same_type_self : (a : MessageType) → same_type a a ≡ true
unfolding same_type
same_type_self a = ground arith

-- Code that writes and reads frames, up to its result.
pub data Program (A : Type 0) : Type 0 where
  write_frame : Frame → Program A → Program A
  read_frame : (Frame → Program A) → Program A
  done : Result A → Program A

abbrev pub Session : Type 0
Session = Program (Unit {0})

-- What a side does that waits for a frame: its phase and its disk afterwards, and what it wrote
pub record Transition (Phase Disk : Type 0) : Type 0 where
  pub phase : Phase
  pub disk : Disk
  pub written : List Frame

-- `write_frame(stream, t, &encode_payload(&a)?)?`
abbrev pub send : {A R : Type 0} → Codec A → MessageType → A → Program R → Program R
send codec t a next = elim (codec.encode a) [
  | err e ↦ done (err e)
  | ok payload ↦ write_frame (t, payload) next
]

-- What follows a frame that was read: the check of its type, and `decode_payload(&payload)?`
abbrev pub take_frame : {A R : Type 0} → Codec A → MessageType → (A → Program R) → Frame → Program R
take_frame codec t next frame =
    if same_type frame.0 t
    then elim (codec.decode frame.1) [ err e ↦ done (err e) | ok a ↦ next a ]
    else done (err (session_error (unexpected_message (as_byte frame.0))))

abbrev pub receive : {A R : Type 0} → Codec A → MessageType → (A → Program R) → Program R
receive codec t next = read_frame (take_frame codec t next)

pub send-encoded :
    {A R : Type 0} (codec : Codec A) (t : MessageType) (a : A) (next : Program R) (payload : List ℕ)
    → codec.encode a ≡ ok payload
    → send codec t a next ≡ write_frame (t, payload) next
send-encoded codec t a next payload h = rw (h, send) refl

pub take_frame-decoded :
    {A R : Type 0} (codec : Codec A) (t : MessageType) (next : A → Program R) (payload : List ℕ)
    (a : A)
    → codec.decode payload ≡ ok a
    → take_frame codec t next (t, payload) ≡ next a
take_frame-decoded codec t next payload a h = rw (same_type_self t, h) refl

ok_ne : {A : Type 0} (a : A) (e : Error) → ok a ≡ err e → ⊥
ok_ne a e h = cc

-- A value has an encoding, from which it is decoded.
pub encoded :
    {A : Type 0} (codec : Codec A) (a : A)
    → (payload : List ℕ) × (codec.encode a ≡ ok payload) × (codec.decode payload ≡ ok a)
encoded {A = A} codec a = bound (codec.encode a) refl (codec.round_trip a)
  where
    bound :
        (r : Result (List ℕ))
        → codec.encode a ≡ r
        → (codec.encode a >>= codec.decode) ≡ ok a
        → (payload : List ℕ) × (codec.encode a ≡ ok payload) × (codec.decode payload ≡ ok a)
    bound (ok payload) h k = (payload, h, ap (λ r. r >>= codec.decode) (sym h) ∙ k)
    bound (err e) h k = absurd (ok_ne a e (sym k ∙ ap (λ r. r >>= codec.decode) h))
