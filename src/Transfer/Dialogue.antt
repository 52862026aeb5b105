-- ===== src/Transfer/Dialogue.antt =====
-- crates/yoop-core/src/transfer/mod.rs: the two sides of a whole transfer, from the handshake to the
-- end: with the right code, with a wrong one, and declined.
use yoop.Base.{
  ℕ, zero, suc, ◌^◌, ◌%◌, ◌<◌, ◌≡◌, ◌≢◌, refl, ap, ◌∙◌, Bool, true, false, none, some, List, [],
  ◌∷◌, ==-self, length, Result, ok, err, arith, if◌then◌else◌, session_error, code_not_found,
  transfer_rejected,
}
use yoop.Files.{FileMetadata, FileSystem, Reader}
use yoop.Protocol.Message as Message
use yoop.Protocol.Message.{MessageType}
use yoop.Transfer.Wire.{
  HelloPayload, CodeVerifyAckPayload, FileListPayload, Codecs, Frame, Session, done, encoded,
  receive, send, same_type, same_type_self,
}
use yoop.Transfer.Sender.{
  Zstd, Source, ShareSession, differs, constant_time_eq, list_reply, await_file_list_ack,
  do_file_list_exchange, do_code_verification, sum_sizes, invalid_code, do_handshake,
  compression_capabilities,
}
use yoop.Transfer.Receiver.{
  decline, ReceiveSession, nothing_received, Phase, await_hello, await_code_ack, await_file_list,
  await_pong, await_chunk, declined, failed, Moved, hello_ack, handle, keep_alive, decide, greet,
  code_answer, receive_file_list,
}
use yoop.Transfer.Network.{run}
use yoop.Transfer.Exchange.{runs, run-send, run-receive}

differs-true : (a b : List ℕ) → differs true a b ≡ true
unfolding differs
differs-true [] b = refl
differs-true (x ∷ a) [] = refl
differs-true (x ∷ a) (y ∷ b) = differs-true a b

differs_self : (a : List ℕ) → differs false a a ≡ false
unfolding differs
differs_self [] = refl
differs_self (x ∷ a) = rw (==-self x) (differs_self a)

same-differs : (a b : List ℕ) → length a ≡ length b → differs false a b ≡ false → a ≡ b
unfolding differs
same-differs [] [] l h = refl
same-differs [] (y ∷ b) l h = absurd (omega (arith, l))
same-differs (x ∷ a) [] l h = absurd (omega (arith, l))
same-differs (x ∷ a) (y ∷ b) l h = ground (arith, h, l, differs-true a b, same-differs a b)

-- The comparison in constant time is that of the lists.
pub constant_time_eq_self : (a : List ℕ) → constant_time_eq a a ≡ true
unfolding constant_time_eq
constant_time_eq_self a = rw (==-self (length a), differs_self a) refl

pub constant_time_eq-ne : (a b : List ℕ) → a ≢ b → constant_time_eq a b ≡ false
unfolding constant_time_eq
constant_time_eq-ne a b ne = ground (arith, ne, same-differs a b)

module _ (fs : FileSystem) (codecs : Codecs) (xxhash64 : List ℕ → ℕ) (sha256 : List ℕ → List ℕ)
    (hmac_sha256 : List ℕ → List ℕ → List ℕ) (reader : Reader) (z : Zstd) (src : Source)
    (session : ReceiveSession) where
  abbrev pub steps :
      Session
      → Phase fs
      → fs.Disk
      → List Frame
      → Result (Unit {0}) × Phase fs × fs.Disk × List Frame
  steps = runs fs codecs xxhash64 sha256 hmac_sha256 reader z src session

  decide-accepts :
      (files : List FileMetadata) (d : fs.Disk) (payload : List ℕ)
      → session.accepts files ≡ true
      → codecs.file_list_ack.encode (record { accepted = true; accepted_files = none }) ≡ ok payload
      → decide fs codecs xxhash64 sha256 hmac_sha256 z session files d ≡ record {
        phase = await_chunk files nothing_received;
        disk = d;
        written = (Message.file_list_ack, payload) ∷ [];
      }
  unfolding decide
  decide-accepts files d payload agrees enc = rw (agrees, enc) refl

  decide-declines :
      (files : List FileMetadata) (d : fs.Disk) (payload : List ℕ)
      → session.accepts files ≡ false
      → codecs.file_list_ack.encode (record { accepted = false; accepted_files = none })
        ≡ ok payload
      → decide fs codecs xxhash64 sha256 hmac_sha256 z session files d
        ≡ record { phase = declined; disk = d; written = (Message.file_list_ack, payload) ∷ [] }
  unfolding decide
  decide-declines files d payload refuses enc = rw (refuses, enc, decline) refl

  list_reply-ack :
      (again next : Session) (payload : List ℕ) (b : Bool)
      → codecs.file_list_ack.decode payload ≡ ok (record { accepted = b; accepted_files = none })
      → list_reply codecs xxhash64 hmac_sha256 reader z src again next
          (Message.file_list_ack, payload)
        ≡ (if b then next else done (err (session_error transfer_rejected)))
  unfolding list_reply
  list_reply-ack again next payload b dec = rw (same_type_self Message.file_list_ack, dec) refl

  list_reply-ping :
      (again next : Session)
      → list_reply codecs xxhash64 hmac_sha256 reader z src again next (Message.ping, []) ≡ again
  unfolding list_reply same_type Message.as_byte
  list_reply-ping again next = refl

  -- How the exchange of the file list goes on after the user's decision
  abbrev pub decided :
      Bool
      → Session
      → List FileMetadata
      → fs.Disk
      → Result (Unit {0}) × Phase fs × fs.Disk × List Frame
  decided true next files d = steps next (await_chunk files nothing_received) d []
  decided false next files d = (err (session_error transfer_rejected), declined, d, [])

  -- The answers to the pings come before their timeouts.
  abbrev pub InTime : ℕ → Type 0
  InTime pings = (n : ℕ) → n < pings → session.pong_in_time n ≡ true

  pong_taken :
      (n : ℕ) (files : List FileMetadata) (d : fs.Disk)
      → session.pong_in_time n ≡ true
      → handle fs codecs xxhash64 sha256 hmac_sha256 z session
          (await_pong n files)
          (Message.pong, [])
          d
        ≡ keep_alive fs codecs xxhash64 sha256 hmac_sha256 z session n files d
  unfolding handle
  pong_taken n files d h = rw h refl

  -- The sender answers the pings, and goes on if the user accepts.
  decision-reached :
      (files : List FileMetadata) (pings rounds : ℕ) (d : fs.Disk) (next : Session) (b : Bool)
      → session.accepts files ≡ b
      → pings < rounds
      → InTime pings
      → let m = keep_alive fs codecs xxhash64 sha256 hmac_sha256 z session pings files d in
        steps
          (await_file_list_ack codecs xxhash64 hmac_sha256 reader z src rounds next)
          m.phase
          m.disk
          m.written
        ≡ decided b next files d
  unfolding keep_alive await_file_list_ack handle run
  decision-reached files pings zero d next b says h timely = absurd (omega (arith, h))
  decision-reached files zero (suc rounds) d next true says h timely =
      let (payload, enc, dec) =
        encoded codecs.file_list_ack (record { accepted = true; accepted_files = none }) in
      ap
        (λ (m : Moved fs).
          steps (await_file_list_ack codecs xxhash64 hmac_sha256 reader z src (suc rounds) next)
            m.phase m.disk m.written)
        (decide-accepts files d payload says enc)
      ∙ ap (λ s. steps s (await_chunk files nothing_received) d [])
          (list_reply-ack _ next payload true dec)
  decision-reached files zero (suc rounds) d next false says h timely =
      let (payload, enc, dec) =
        encoded codecs.file_list_ack (record { accepted = false; accepted_files = none }) in
      ap
        (λ (m : Moved fs).
          steps (await_file_list_ack codecs xxhash64 hmac_sha256 reader z src (suc rounds) next)
            m.phase m.disk m.written)
        (decide-declines files d payload says enc)
      ∙ ap (λ s. steps s declined d []) (list_reply-ack _ next payload false dec)
  decision-reached files (suc n) (suc rounds) d next b says h timely =
      ap (λ s. steps s (await_pong n files) d []) (list_reply-ping _ next)
      ∙ ap
          (λ (m : Moved fs).
            steps (await_file_list_ack codecs xxhash64 hmac_sha256 reader z src rounds next) m.phase
              m.disk m.written)
          (pong_taken n files d (timely n (omega arith)))
      ∙ decision-reached files n rounds d next b says (omega (arith, h))
          (λ k below. timely k (omega (arith, below)))

  list-received :
      (s : ShareSession) (d : fs.Disk) (payload : List ℕ) (list : FileListPayload)
      → codecs.file_list.decode payload ≡ ok list
      → receive_file_list fs codecs xxhash64 sha256 hmac_sha256 z session
          (Message.file_list, payload)
          d
        ≡ keep_alive fs codecs xxhash64 sha256 hmac_sha256 z session session.pings list.files d
  unfolding receive_file_list
  list-received s d payload list dec = rw (same_type_self Message.file_list, dec) refl

  pub list-exchanged :
      (s : ShareSession) (rounds : ℕ) (d : fs.Disk) (next : Session) (b : Bool)
      → session.accepts s.files ≡ b
      → session.pings < rounds
      → InTime session.pings
      → steps
          (do_file_list_exchange codecs xxhash64 hmac_sha256 reader z src rounds s next)
          await_file_list
          d
          []
        ≡ decided b next s.files d
  unfolding do_file_list_exchange handle
  list-exchanged s rounds d next b says h timely =
      let list : FileListPayload = record {
        files = s.files;
        total_size = sum_sizes codecs xxhash64 hmac_sha256 reader z src s.files % 2 ^ 64;
      } in
      let (payload, enc, dec) = encoded codecs.file_list list in
      let rest = await_file_list_ack codecs xxhash64 hmac_sha256 reader z src rounds next in
      run-send fs codecs xxhash64 sha256 hmac_sha256 reader z src session codecs.file_list
        Message.file_list list rest await_file_list d [] payload enc
      ∙ ap (λ (m : Moved fs). steps rest m.phase m.disk m.written)
          (list-received s d payload list dec)
      ∙ decision-reached s.files session.pings rounds d next b says h timely

  -- The receiver's answer to the sender's word on the code
  abbrev told : Bool → fs.Disk → Moved fs
  told true d = record { phase = await_file_list; disk = d; written = [] }
  told false d = record { phase = failed (session_error code_not_found); disk = d; written = [] }

  code-answered :
      (d : fs.Disk) (payload : List ℕ) (answer : CodeVerifyAckPayload)
      → codecs.code_verify_ack.decode payload ≡ ok answer
      → code_answer fs codecs xxhash64 sha256 hmac_sha256 z session
          (Message.code_verify_ack, payload)
          d
        ≡ told answer.success d
  unfolding code_answer
  code-answered d payload answer dec =
      rw (same_type_self Message.code_verify_ack, dec) (by_answer answer.success)
    where
      by_answer :
          (b : Bool)
          → Path
              (Moved fs)
              (if b then record { phase = await_file_list; disk = d; written = [] } else record {
                phase = failed (session_error code_not_found);
                disk = d;
                written = [];
              })
              (told b d)
      by_answer true = refl
      by_answer false = refl

  -- How the check of the code goes on
  abbrev pub verified :
      Bool → Session → fs.Disk → Result (Unit {0}) × Phase fs × fs.Disk × List Frame
  verified true next d = steps next await_file_list d []
  verified false next d =
      (err (session_error code_not_found), failed (session_error code_not_found), d, [])

  told-verified :
      (b : Bool) (next : Session) (d : fs.Disk)
      → steps
          (if b then next else done (err (session_error code_not_found)))
          (told b d).phase
          (told b d).disk
          (told b d).written
        ≡ verified b next d
  unfolding run
  told-verified true next d = refl
  told-verified false next d = refl

  pub code-checked :
      (s : ShareSession) (d : fs.Disk) (payload : List ℕ) (next : Session) (b : Bool)
      → codecs.code_verify.decode payload
        ≡ ok (record { code_hmac = hmac_sha256 session.session_key session.code })
      → constant_time_eq
          (hmac_sha256 session.session_key session.code)
          (hmac_sha256 s.session_key s.code)
        ≡ b
      → steps
          (do_code_verification codecs xxhash64 hmac_sha256 reader z src s next)
          await_code_ack
          d
          ((Message.code_verify, payload) ∷ [])
        ≡ verified b next d
  unfolding do_code_verification handle run
  code-checked s d payload next b dec same =
      let answer : Bool → CodeVerifyAckPayload = λ success. record {
        success = success;
        error_text =
            if success then none else some (invalid_code codecs xxhash64 hmac_sha256 reader z src);
      } in
      let rest : Bool → Session =
        λ success. if success then next else done (err (session_error code_not_found)) in
      let (bytes, enc, dec') = encoded codecs.code_verify_ack (answer b) in
      run-receive fs codecs xxhash64 sha256 hmac_sha256 reader z src session codecs.code_verify
        Message.code_verify (record { code_hmac = hmac_sha256 session.session_key session.code })
        (λ verify.
          let success = constant_time_eq verify.code_hmac (hmac_sha256 s.session_key s.code) in
          send codecs.code_verify_ack Message.code_verify_ack (answer success) (rest success))
        await_code_ack d [] payload dec
      ∙ ap
          (λ success.
            steps
              (send codecs.code_verify_ack Message.code_verify_ack (answer success) (rest success))
              await_code_ack d [])
          same
      ∙ run-send fs codecs xxhash64 sha256 hmac_sha256 reader z src session codecs.code_verify_ack
          Message.code_verify_ack (answer b) (rest b) await_code_ack d [] bytes enc
      ∙ ap (λ (m : Moved fs). steps (rest b) m.phase m.disk m.written)
          (code-answered d bytes (answer b) dec')
      ∙ told-verified b next d

  pub greeting :
      (d : fs.Disk) (payload ack_bytes code_bytes : List ℕ) (hello : HelloPayload)
      → codecs.hello.decode payload ≡ ok hello
      → codecs.hello.encode (hello_ack fs codecs xxhash64 sha256 hmac_sha256 z session)
        ≡ ok ack_bytes
      → codecs.code_verify.encode
          (record { code_hmac = hmac_sha256 session.session_key session.code })
        ≡ ok code_bytes
      → greet fs codecs xxhash64 sha256 hmac_sha256 z session (Message.hello, payload) d ≡ record {
        phase = await_code_ack;
        disk = d;
        written = (Message.hello_ack, ack_bytes) ∷ (Message.code_verify, code_bytes) ∷ [];
      }
  unfolding greet
  greeting d payload ack_bytes code_bytes hello dec enc enc' =
      rw (same_type_self Message.hello, dec, enc, enc') refl

  -- The greeting leaves the check of the code to do.
  pub greeted :
      (s : ShareSession) (d : fs.Disk) (next : HelloPayload → Session)
      → (payload : List ℕ) × (codecs.code_verify.decode payload
          ≡ ok (record { code_hmac = hmac_sha256 session.session_key session.code }))
        × (steps (do_handshake codecs xxhash64 hmac_sha256 reader z src s next) await_hello d []
            ≡ steps
                (next (hello_ack fs codecs xxhash64 sha256 hmac_sha256 z session))
                await_code_ack
                d
                ((Message.code_verify, payload) ∷ []))
  unfolding do_handshake handle
  greeted s d next =
      let ours = hello_ack fs codecs xxhash64 sha256 hmac_sha256 z session in
      let theirs : HelloPayload = record {
        device_name = s.device_name;
        protocol_version = b'1' ∷ b'.' ∷ b'0' ∷ [];
        device_id = some s.device_id;
        public_key = some s.public_key;
        compression = compression_capabilities s;
      } in
      let (hello_bytes, enc, dec) = encoded codecs.hello theirs in
      let (ack_bytes, ack_enc, ack_dec) = encoded codecs.hello ours in
      let (payload, code_enc, code_dec) =
        encoded codecs.code_verify
          (record { code_hmac = hmac_sha256 session.session_key session.code }) in
      (
        payload,
        code_dec,
        run-send fs codecs xxhash64 sha256 hmac_sha256 reader z src session codecs.hello
              Message.hello theirs (receive codecs.hello Message.hello_ack next) await_hello d []
              hello_bytes enc
            ∙ ap
                (λ (m : Moved fs).
                  steps (receive codecs.hello Message.hello_ack next) m.phase m.disk m.written)
                (greeting d hello_bytes ack_bytes payload theirs dec ack_enc code_enc)
            ∙ run-receive fs codecs xxhash64 sha256 hmac_sha256 reader z src session codecs.hello
                Message.hello_ack ours next await_code_ack d ((Message.code_verify, payload) ∷ [])
                ack_bytes ack_dec,
      )
