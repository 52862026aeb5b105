-- ===== src/Transfer/Outcomes.antt =====
-- crates/yoop-core/src/transfer/mod.rs: `ShareSession::wait` against `ReceiveSession::connect` and what
-- follows it: what becomes of a whole transfer, however the two sides are interleaved.
use yoop.Base.{
  ℕ, ◌^◌, ◌<◌, ◌≡◌, ◌≢◌, refl, sym, ap, ◌∙◌, ◌⊎◌, Bool, true, false, List, [], ◌∷◌, All, ok, err,
  session_error, code_not_found, transfer_rejected,
}
use yoop.Storage.{Text}
use yoop.Files.{FileMetadata, FileSystem, Reader}
use yoop.Files.Writing.{Reliable}
use yoop.Protocol.Message as Message
use yoop.Transfer.Wire.{HelloPayload, Codecs, Frame, Session, write_frame, done}
use yoop.Transfer.Sender.{
  Zstd, Source, ShareSession, constant_time_eq, do_transfer, do_file_list_exchange,
  do_code_verification, wait, negotiated_compression,
}
use yoop.Transfer.Receiver.{
  Phase, ReceiveSession, Receiving, nothing_received, await_hello, await_chunk, complete, declined,
  failed, handle, receive_frame, hello_ack, refuse, Moved,
}
use yoop.Transfer.Network.{
  Net, net, Outcome, PromptStep, Reach, run, settle, Reach-settle, settle-progress,
}
use yoop.Transfer.Exchange.{move}
use yoop.Transfer.Limit.{limited, limited_move, all_within, run-limited, limited_move-within}
use yoop.Transfer.Speaking.{said, said-limited, says-refused}
use yoop.Transfer.Arrival.{finalized}
use yoop.Transfer.Delivery.{Readable, Arrived, NotAt, At-whole, Apart, files-delivered}
use yoop.Transfer.Dialogue.{
  constant_time_eq_self, constant_time_eq-ne, steps, decided, verified, InTime, greeted,
  code-checked, list-exchanged,
}

module _ (fs : FileSystem) (codecs : Codecs) (xxhash64 : List ℕ → ℕ) (sha256 : List ℕ → List ℕ)
    (hmac_sha256 : List ℕ → List ℕ → List ℕ) (reader : Reader) (z : Zstd) (src : Source)
    (session : ReceiveSession) where
  -- The two sides, which refuse what is above the limit of a payload
  abbrev pub receives : Phase fs → Frame → fs.Disk → Moved fs
  receives =
      limited_move (move fs codecs xxhash64 sha256 hmac_sha256 reader z src session)
        (refuse fs codecs xxhash64 sha256 hmac_sha256 z session)

  abbrev pub shares : ℕ → ShareSession → Session
  shares rounds s = wait codecs xxhash64 hmac_sha256 reader z src rounds s

  -- The sender with nothing said yet, the receiver waiting for the greeting
  abbrev pub start : ℕ → ShareSession → fs.Disk → Net (Unit {0}) (Phase fs) fs.Disk
  start rounds s d = net (limited (shares rounds s)) await_hello d [] []

  abbrev pub ends : Net (Unit {0}) (Phase fs) fs.Disk → Outcome (Unit {0}) (Phase fs) fs.Disk
  ends = settle (Unit {0}) (Phase fs) fs.Disk receives

  -- No frame of the transfer has a payload above the limit.
  abbrev pub Within : ℕ → ShareSession → fs.Disk → Type 0
  Within rounds s d =
      all_within (move fs codecs xxhash64 sha256 hmac_sha256 reader z src session) (shares rounds s)
        await_hello d []
      ≡ true

  -- The same without the limit
  abbrev unlimited : ℕ → ShareSession → fs.Disk → Outcome (Unit {0}) (Phase fs) fs.Disk
  unlimited rounds s d =
      settle (Unit {0}) (Phase fs) fs.Disk
        (move fs codecs xxhash64 sha256 hmac_sha256 reader z src session)
        (net (shares rounds s) await_hello d [] [])

  kept-Within :
      (s : ShareSession) (rounds : ℕ) (d : fs.Disk)
      → Within rounds s d
      → ends (start rounds s d) ≡ unlimited rounds s d
  unfolding settle
  kept-Within s rounds d within =
      let moves = move fs codecs xxhash64 sha256 hmac_sha256 reader z src session in
      run-limited moves receives (λ p. p)
        (limited_move-within moves (refuse fs codecs xxhash64 sha256 hmac_sha256 z session))
        (shares rounds s) await_hello d [] within

  abbrev transfers : ShareSession → Session
  transfers s = do_transfer codecs xxhash64 hmac_sha256 reader z src s (
      negotiated_compression s
        (hello_ack fs codecs xxhash64 sha256 hmac_sha256 z session).compression)

  -- The greeting and the check of the code
  checked :
      (s : ShareSession) (rounds : ℕ) (d : fs.Disk) (b : Bool)
      → constant_time_eq
          (hmac_sha256 session.session_key session.code)
          (hmac_sha256 s.session_key s.code)
        ≡ b
      → unlimited rounds s d
        ≡ verified fs codecs xxhash64 sha256 hmac_sha256 reader z src session b
            (do_file_list_exchange codecs xxhash64 hmac_sha256 reader z src rounds s (transfers s))
            d
  unfolding wait settle
  checked s rounds d b same =
      let after : HelloPayload → Session = λ ack.
        do_code_verification codecs xxhash64 hmac_sha256 reader z src s (
          do_file_list_exchange codecs xxhash64 hmac_sha256 reader z src rounds s (
            do_transfer codecs xxhash64 hmac_sha256 reader z src s
              (negotiated_compression s ack.compression))) in
      let (payload, dec, greeting) =
        greeted fs codecs xxhash64 sha256 hmac_sha256 reader z src session s d after in
      greeting
      ∙ code-checked fs codecs xxhash64 sha256 hmac_sha256 reader z src session s d payload
          (do_file_list_exchange codecs xxhash64 hmac_sha256 reader z src rounds s (transfers s)) b
          dec same

  -- Another code, whose HMAC differs, ends both sides with `CodeNotFound`, when no frame is above the
  -- limit of a payload. The sender has written its greeting and its refusal, and no other frame: it
  -- has not named the files. The receiver's disk is left as it was.
  pub code_refused :
      (s : ShareSession) (rounds : ℕ) (d : fs.Disk)
      → hmac_sha256 session.session_key session.code ≢ hmac_sha256 s.session_key s.code
      → Within rounds s d
      → (ends (start rounds s d)
          ≡ (err (session_error code_not_found), failed (session_error code_not_found), d, []))
        × (said receives (limited (shares rounds s)) await_hello d []
            ≡ Message.hello ∷ Message.code_verify_ack ∷ [])
  code_refused s rounds d ne within =
      let other = constant_time_eq-ne _ _ ne in
      (
        kept-Within s rounds d within ∙ checked s rounds d false other,
        said-limited (move fs codecs xxhash64 sha256 hmac_sha256 reader z src session)
              (refuse fs codecs xxhash64 sha256 hmac_sha256 z session) (shares rounds s) await_hello
              d [] within
            ∙ says-refused fs codecs xxhash64 sha256 hmac_sha256 reader z src session s rounds d
                other,
      )

  decided_at :
      (s : ShareSession) (rounds : ℕ) (d : fs.Disk) (b : Bool)
      → session.accepts s.files ≡ b
      → session.pings < rounds
      → InTime fs codecs xxhash64 sha256 hmac_sha256 reader z src session session.pings
      → hmac_sha256 session.session_key session.code ≡ hmac_sha256 s.session_key s.code
      → unlimited rounds s d
        ≡ decided fs codecs xxhash64 sha256 hmac_sha256 reader z src session b
            (transfers s)
            s.files
            d
  decided_at s rounds d b says h timely same =
      checked s rounds d true (
        ap (constant_time_eq (hmac_sha256 session.session_key session.code)) (sym same)
        ∙ constant_time_eq_self (hmac_sha256 session.session_key session.code))
      ∙ list-exchanged fs codecs xxhash64 sha256 hmac_sha256 reader z src session s rounds d
          (transfers s) b says h timely

  -- With the right code, a receiver that declines ends the sender with `TransferRejected`, however many
  -- pings it sent before, when they are answered in time and no frame is above the limit of a
  -- payload; its disk is left as it was.
  pub transfer_declined :
      (s : ShareSession) (rounds : ℕ) (d : fs.Disk)
      → session.accepts s.files ≡ false
      → session.pings < rounds
      → InTime fs codecs xxhash64 sha256 hmac_sha256 reader z src session session.pings
      → hmac_sha256 session.session_key session.code ≡ hmac_sha256 s.session_key s.code
      → Within rounds s d
      → ends (start rounds s d) ≡ (err (session_error transfer_rejected), declined, d, [])
  transfer_declined s rounds d says h timely same within =
      kept-Within s rounds d within ∙ decided_at s rounds d false says h timely same

  module _ (word : (xs : List ℕ) → xxhash64 xs < 2 ^ 64) (reliable : Reliable fs) where
    -- Every regular file has arrived at its path with the sender's bytes, and no other file changed.
    abbrev pub Delivered : ShareSession → fs.Disk → fs.Disk → Type 0
    Delivered s d e =
        All (Arrived fs codecs xxhash64 sha256 hmac_sha256 reader z src session word reliable e)
          s.files
        × ((q : Text)
            → All (NotAt fs codecs xxhash64 sha256 hmac_sha256 reader z src session word reliable q)
                s.files
            → fs.content q e ≡ fs.content q d)

    -- The frame that ends the transfer closes the last file.
    closed :
        (files : List FileMetadata) (st : Receiving) (d : fs.Disk)
        → (e : fs.Disk) × (steps fs codecs xxhash64 sha256 hmac_sha256 reader z src session
              (write_frame (Message.transfer_complete, []) (done (ok tt)))
              (await_chunk files st)
              d
              []
            ≡ (ok tt, complete, e, []))
          × ((q : Text) → fs.content q e ≡ fs.content q d)
    unfolding run handle receive_frame
    closed files st d =
        let (e, h, same) =
          finalized fs codecs xxhash64 sha256 hmac_sha256 reader z src session word reliable
            st.current_writer d in
        (e, rw h refl, same)

    kept :
        (files : List FileMetadata) (d e : fs.Disk)
        → ((q : Text) → fs.content q e ≡ fs.content q d)
        → All
            (Arrived fs codecs xxhash64 sha256 hmac_sha256 reader z src session word reliable d)
            files
        → All
            (Arrived fs codecs xxhash64 sha256 hmac_sha256 reader z src session word reliable e)
            files
    kept [] d e same h = tt
    kept (file ∷ files) d e same h = (λ regular. same _ ∙ h.0 regular, kept files d e same h.1)

    -- With the right code and an accepting receiver, both sides end well, every regular file is at
    -- its path on the receiver's disk with the sender's bytes, and no other file has changed: when
    -- the calls of the file system succeed, the sender can read its files, whose sizes are 64-bit
    -- numbers as hashes are, the chunk size is above 0, no two files go to the same path, the pings
    -- are answered in time and their number is below the bound on answers, and no frame that the two
    -- sides exchange is above the limit of a payload.
    pub transfer_completes :
        (s : ShareSession) (rounds : ℕ) (d : fs.Disk)
        → session.accepts s.files ≡ true
        → session.pings < rounds
        → InTime fs codecs xxhash64 sha256 hmac_sha256 reader z src session session.pings
        → hmac_sha256 session.session_key session.code ≡ hmac_sha256 s.session_key s.code
        → 0 < s.chunk_size
        → All
            (Readable fs codecs xxhash64 sha256 hmac_sha256 reader z src session word reliable)
            s.files
        → Apart fs codecs xxhash64 sha256 hmac_sha256 reader z src session word reliable s
            (negotiated_compression s
              (hello_ack fs codecs xxhash64 sha256 hmac_sha256 z session).compression)
            s.files
        → Within rounds s d
        → (e : fs.Disk) × (ends (start rounds s d) ≡ (ok tt, complete, e, [])) × Delivered s d e
    unfolding do_transfer
    transfer_completes s rounds d says h timely same size readable apart within =
        let negotiated =
          negotiated_compression s
            (hello_ack fs codecs xxhash64 sha256 hmac_sha256 z session).compression in
        let last = write_frame (Message.transfer_complete, []) (done (ok tt)) in
        let (st, d₁, arrived, others, run₁) =
          files-delivered fs codecs xxhash64 sha256 hmac_sha256 reader z src session word reliable s
            negotiated s.files 0 s.files nothing_received d last size
            (At-whole fs codecs xxhash64 sha256 hmac_sha256 reader z src session word reliable s
              negotiated s.files)
            (λ j _. refl) readable apart in
        let (d₂, run₂, unchanged) = closed s.files st d₁ in
        (
          d₂,
          kept-Within s rounds d within
              ∙ decided_at s rounds d true says h timely same
              ∙ run₁
              ∙ run₂,
          (kept s.files d₁ d₂ unchanged arrived, λ q ne. unchanged q ∙ others q ne),
        )

    -- However the two sides are interleaved, under the conditions of `transfer_completes`, neither
    -- is stuck: every state that is reached has a next step, or is the one in which both have
    -- ended well and the files have arrived. In that next step a side reads a frame, or the sender
    -- writes one when no other is under way to the receiver: the connection need not hold more than
    -- one frame to the receiver. It holds the receiver's answers until they are read.
    pub interleaved_completes :
        (s : ShareSession) (rounds : ℕ) (d : fs.Disk) (b : Net (Unit {0}) (Phase fs) fs.Disk)
        → session.accepts s.files ≡ true
        → session.pings < rounds
        → InTime fs codecs xxhash64 sha256 hmac_sha256 reader z src session session.pings
        → hmac_sha256 session.session_key session.code ≡ hmac_sha256 s.session_key s.code
        → 0 < s.chunk_size
        → All
            (Readable fs codecs xxhash64 sha256 hmac_sha256 reader z src session word reliable)
            s.files
        → Apart fs codecs xxhash64 sha256 hmac_sha256 reader z src session word reliable s
            (negotiated_compression s
              (hello_ack fs codecs xxhash64 sha256 hmac_sha256 z session).compression)
            s.files
        → Within rounds s d
        → Reach (Unit {0}) (Phase fs) fs.Disk receives (start rounds s d) b
        → (e : fs.Disk) × Delivered s d e
          × (((c : Net (Unit {0}) (Phase fs) fs.Disk) × PromptStep
                  (Unit {0})
                  (Phase fs)
                  fs.Disk
                  receives
                  b
                  c)
              ⊎ (b ≡ net (done (ok tt)) complete e [] []))
    interleaved_completes s rounds d b says h timely same size readable apart within reach =
        let (e, run, delivered) =
          transfer_completes s rounds d says h timely same size readable apart within in
        (
          e,
          delivered,
          settle-progress (Unit {0}) (Phase fs) fs.Disk receives b tt complete e []
              (sym (Reach-settle (Unit {0}) (Phase fs) fs.Disk receives reach) ∙ run),
        )
