-- ===== src/Transfer/Speaking.antt =====
-- crates/yoop-core/src/transfer/mod.rs: what the sender says to a receiver that has another code.
use yoop.Base.{
  ℕ, ◌≡◌, refl, ap, ◌∙◌, Bool, true, false, none, some, List, [], ◌∷◌, ◌++◌, ok, err, if◌then◌else◌,
  session_error, code_not_found,
}
use yoop.Files.{FileSystem, Reader}
use yoop.Protocol.Message as Message
use yoop.Protocol.Message.{MessageType}
use yoop.Transfer.Wire.{
  HelloPayload, CodeVerifyPayload, CodeVerifyAckPayload, Codec, Codecs, Frame, Program, Session,
  write_frame, read_frame, done, Transition, send, receive, send-encoded, take_frame-decoded,
  encoded,
}
use yoop.Transfer.Limit.{
  is_within, limited, limited_move, limited_move-within, all_within, both, too_large,
}
use yoop.Transfer.Sender.{
  Zstd, Source, ShareSession, constant_time_eq, invalid_code, do_handshake, do_code_verification,
  do_file_list_exchange, do_transfer, wait, negotiated_compression, compression_capabilities,
}
use yoop.Transfer.Receiver.{
  ReceiveSession, Phase, await_hello, await_code_ack, Moved, hello_ack, handle,
}
use yoop.Transfer.Exchange.{move}
use yoop.Transfer.Dialogue.{greeting}

module _ {A Phase Disk : Type 0} (move : Phase → Frame → Disk → Transition Phase Disk) where
  -- The types of the frames that the first side writes, when the second handles each frame at once
  unfoldable pub said : Program A → Phase → Disk → List Frame → List MessageType
  said (done r) p d o = []
  said (write_frame f s) p d o =
      f.0 ∷ said s (move p f d).phase (move p f d).disk (o ++ (move p f d).written)
  said (read_frame k) p d [] = []
  said (read_frame k) p d (f ∷ o) = said (k f) p d o

module _ {A Phase Disk : Type 0} (move : Phase → Frame → Disk → Transition Phase Disk)
    (stop : Phase → Frame → Phase) where
  pub said-limited :
      (s : Program A) (p : Phase) (d : Disk) (o : List Frame)
      → all_within move s p d o ≡ true
      → said (limited_move move stop) (limited s) p d o ≡ said move s p d o
  unfolding all_within limited said
  said-limited (done r) p d o h = refl
  said-limited (write_frame f s) p d o h =
      let (within, rest) = both (is_within f) _ h in
      ap
        (λ (m : Transition Phase Disk).
          f.0 ∷ said (limited_move move stop) (limited s) m.phase m.disk (o ++ m.written))
        (limited_move-within move stop p f d within)
      ∙ ap (λ ts. f.0 ∷ ts)
          (said-limited s (move p f d).phase (move p f d).disk (o ++ (move p f d).written) rest)
  said-limited (read_frame k) p d [] h = refl
  said-limited (read_frame k) p d (f ∷ o) h =
      let (within, rest) = both (is_within f) _ h in
      ap
        (λ b.
          said (limited_move move stop)
            (elim b [ true ↦ limited (k f) | false ↦ done (err (too_large f)) ]) p d o)
        within
      ∙ said-limited (k f) p d o rest

module _ (fs : FileSystem) (codecs : Codecs) (xxhash64 : List ℕ → ℕ) (sha256 : List ℕ → List ℕ)
    (hmac_sha256 : List ℕ → List ℕ → List ℕ) (reader : Reader) (z : Zstd) (src : Source)
    (session : ReceiveSession) where
  abbrev pub says : Session → Phase fs → fs.Disk → List Frame → List MessageType
  says = said (move fs codecs xxhash64 sha256 hmac_sha256 reader z src session)

  says-send :
      {A : Type 0} (codec : Codec A) (t : MessageType) (a : A) (next : Session) (p : Phase fs)
      (d : fs.Disk) (o : List Frame) (payload : List ℕ)
      → codec.encode a ≡ ok payload
      → let m = move fs codecs xxhash64 sha256 hmac_sha256 reader z src session p (t, payload) d in
        says (send codec t a next) p d o ≡ t ∷ says next m.phase m.disk (o ++ m.written)
  unfolding said
  says-send codec t a next p d o payload h =
      ap (λ s. says s p d o) (send-encoded codec t a next payload h)

  says-receive :
      {A : Type 0} (codec : Codec A) (t : MessageType) (a : A) (next : A → Session) (p : Phase fs)
      (d : fs.Disk) (o : List Frame) (payload : List ℕ)
      → codec.decode payload ≡ ok a
      → says (receive codec t next) p d ((t, payload) ∷ o) ≡ says (next a) p d o
  unfolding said
  says-receive codec t a next p d o payload h =
      ap (λ s. says s p d o) (take_frame-decoded codec t next payload a h)

  abbrev verification : CodeVerifyPayload
  verification = record { code_hmac = hmac_sha256 session.session_key session.code }

  refused :
      (s : ShareSession) (d : fs.Disk) (payload : List ℕ) (next : Session)
      → codecs.code_verify.decode payload ≡ ok verification
      → constant_time_eq verification.code_hmac (hmac_sha256 s.session_key s.code) ≡ false
      → says
          (do_code_verification codecs xxhash64 hmac_sha256 reader z src s next)
          await_code_ack
          d
          ((Message.code_verify, payload) ∷ [])
        ≡ Message.code_verify_ack ∷ []
  unfolding do_code_verification said
  refused s d payload next dec other =
      let answer : Bool → CodeVerifyAckPayload = λ success. record {
        success = success;
        error_text =
            if success then none else some (invalid_code codecs xxhash64 hmac_sha256 reader z src);
      } in
      let rest : Bool → Session =
        λ success. if success then next else done (err (session_error code_not_found)) in
      let (bytes, enc, _) = encoded codecs.code_verify_ack (answer false) in
      says-receive codecs.code_verify Message.code_verify verification
        (λ verify.
          let success = constant_time_eq verify.code_hmac (hmac_sha256 s.session_key s.code) in
          send codecs.code_verify_ack Message.code_verify_ack (answer success) (rest success))
        await_code_ack d [] payload dec
      ∙ ap
          (λ success.
            says
              (send codecs.code_verify_ack Message.code_verify_ack (answer success) (rest success))
              await_code_ack d [])
          other
      ∙ says-send codecs.code_verify_ack Message.code_verify_ack (answer false) (rest false)
          await_code_ack d [] bytes enc

  -- The sender greets and refuses the code, and says nothing else.
  pub says-refused :
      (s : ShareSession) (rounds : ℕ) (d : fs.Disk)
      → constant_time_eq verification.code_hmac (hmac_sha256 s.session_key s.code) ≡ false
      → says (wait codecs xxhash64 hmac_sha256 reader z src rounds s) await_hello d []
        ≡ Message.hello ∷ Message.code_verify_ack ∷ []
  unfolding wait do_handshake handle
  says-refused s rounds d other =
      let after : HelloPayload → Session = λ ack.
        do_code_verification codecs xxhash64 hmac_sha256 reader z src s (
          do_file_list_exchange codecs xxhash64 hmac_sha256 reader z src rounds s (
            do_transfer codecs xxhash64 hmac_sha256 reader z src s
              (negotiated_compression s ack.compression))) in
      let ours = hello_ack fs codecs xxhash64 sha256 hmac_sha256 z session in
      let theirs : HelloPayload = record {
        device_name = s.device_name;
        protocol_version = b'1' ∷ b'.' ∷ b'0' ∷ [];
        device_id = some s.device_id;
        public_key = some s.public_key;
        compression = compression_capabilities s;
      } in
      let (hello_bytes, enc, dec) = encoded codecs.hello theirs in
      let (ack_bytes, ack_enc, ack_dec) = encoded codecs.hello ours in
      let (payload, code_enc, code_dec) = encoded codecs.code_verify verification in
      says-send codecs.hello Message.hello theirs (receive codecs.hello Message.hello_ack after)
        await_hello d [] hello_bytes enc
      ∙ ap
          (λ (m : Moved fs).
            Message.hello
            ∷ says (receive codecs.hello Message.hello_ack after) m.phase m.disk m.written)
          (greeting fs codecs xxhash64 sha256 hmac_sha256 reader z src session d hello_bytes
            ack_bytes payload theirs dec ack_enc code_enc)
      ∙ ap (λ ts. Message.hello ∷ ts)
          (says-receive codecs.hello Message.hello_ack ours after await_code_ack d
              ((Message.code_verify, payload) ∷ []) ack_bytes ack_dec
            ∙ refused s d payload _ code_dec other)
