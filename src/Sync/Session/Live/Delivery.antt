-- ===== src/Sync/Session/Live/Delivery.antt =====
-- crates/yoop-core/src/sync/session.rs: an operation that creates or modifies a file, from the sender
-- to the receiver's disk.
use yoop.Base.{
  ℕ, suc, ◌+◌, ◌%◌, ◌^◌, ◌<◌, ◌≡◌, refl, sym, ap, ◌∙◌, Bool, true, false, Option, none, some, List,
  [], ◌∷◌, ◌++◌, ltb, ==-self, if◌then◌else◌, length, append_assoc, append-nil, arith, Result, ok,
}
use yoop.Storage.{Text}
use yoop.Files.{
  FileChunk, FileWriter, Reader, create_parent, new_writer, write_chunk, finalize, read_chunks,
}
use yoop.Files.Chunks.{joined, IsChunks, read_chunks_total}
use yoop.Files.Writing.{
  Reliable, SameBut, parent-Same, new_writer-SameBut, write_chunk-SameBut, finalize-Same,
}
use yoop.Protocol.Message as Message
use yoop.Protocol.{SyncChunkPayload, encode_sync_chunk}
use yoop.Protocol.Chunks.{IsSyncChunk, decode-encode_sync_chunk}
use yoop.Transfer.Wire.{Codec, Frame, Session, write_frame, send-encoded, encoded}
use yoop.Transfer.Network.{run}
use yoop.Transfer.Limit.{limited, limited_move, all_within, run-limited, limited_move-within}
use yoop.Sync.Model.{FileKind, RelativePath, new_path, SyncOp, create, modify}
use yoop.Sync.Session.{expect, take_expected-decoded}
use yoop.Sync.Session.Initial.{SyncDisk, SyncStats, count_received}
use yoop.Sync.Session.Live.{
  SyncOpPayload, SyncOpAckPayload, SyncChunkAckPayload, LiveCodecs, chunk_count_of,
  default_chunk_size, op_payload, sync_chunk_of, send_sync_chunk, send_sync_chunks, read_path,
  send_file_chunks_simple, send_contents, await_op_ack, send_sync_op, Inbound, idle, receiving,
  Received, go, acknowledge_op, receive_contents, receive_sync_op, store_sync_chunk,
  receive_sync_chunk, complete_contents, inbound, refuse,
}

-- `Create` with a kind, or `Modify`
abbrev pub write_op : Option FileKind → RelativePath → ℕ → ℕ → SyncOp
write_op none path size content_hash = modify path size content_hash
write_op (some kind) path size content_hash = create path kind size content_hash

module _ (dir : SyncDisk) (is_dir : Text → dir.fs.Disk → Bool) (codecs : LiveCodecs)
    (xxhash64 : List ℕ → ℕ) (sha256 : List ℕ → List ℕ) (sync_deletions : Bool) (reader : Reader)
    (bytes : RelativePath → Option (List ℕ)) where
  abbrev pub handles :
      Inbound → Frame → dir.fs.Disk → Received dir is_dir codecs xxhash64 sha256 sync_deletions
  handles = inbound dir is_dir codecs xxhash64 sha256 sync_deletions

  abbrev pub sends : ℕ → Option FileKind → RelativePath → ℕ → ℕ → Session
  sends op_id o path size hash =
      send_sync_op codecs xxhash64 reader bytes (write_op o path size hash) op_id

  -- The inbound task as it refuses what is above the limit of a payload
  abbrev pub takes :
      Inbound → Frame → dir.fs.Disk → Received dir is_dir codecs xxhash64 sha256 sync_deletions
  takes = limited_move handles (refuse dir is_dir codecs xxhash64 sha256 sync_deletions)

  abbrev pub runs :
      Session
      → Inbound
      → dir.fs.Disk
      → List Frame
      → Result (Unit {0}) × Inbound × dir.fs.Disk × List Frame
  runs = run (Unit {0}) Inbound dir.fs.Disk handles

  abbrev went :
      Inbound → dir.fs.Disk → List Frame → Received dir is_dir codecs xxhash64 sha256 sync_deletions
  went = go dir is_dir codecs xxhash64 sha256 sync_deletions

  -- After a frame that is handled so, the sender goes on.
  runs-write :
      (f : Frame) (s : Session) (p q : Inbound) (d e : dir.fs.Disk) (o : List Frame)
      → handles p f d ≡ went q e o
      → runs (write_frame f s) p d [] ≡ runs s q e o
  unfolding run
  runs-write f s p q d e o h =
      ap
        (λ (m : Received dir is_dir codecs xxhash64 sha256 sync_deletions).
          runs s m.phase m.disk ([] ++ m.written))
        h

  runs-expect :
      {A : Type 0} (codec : Codec A) (t : Message.MessageType) (next : A → Session) (p : Inbound)
      (d : dir.fs.Disk) (payload : List ℕ) (a : A)
      → codec.decode payload ≡ ok a
      → runs (expect codec t next) p d ((t, payload) ∷ []) ≡ runs (next a) p d []
  unfolding run
  runs-expect codec t next p d payload a h =
      ap (λ s. runs s p d []) (take_expected-decoded codec t next payload a h)

  abbrev Moves : Type 0
  Moves = Received dir is_dir codecs xxhash64 sha256 sync_deletions

  chunk-handled :
      (stats : SyncStats) (size : ℕ) (w w' : FileWriter) (sent : SyncChunkPayload)
      (d e : dir.fs.Disk) (ack : List ℕ)
      → IsSyncChunk sent
      → xxhash64 sent.chunk ≡ sent.checksum
      → write_chunk dir.fs xxhash64 w
          (record {
            file_index = 0;
            chunk_index = sent.chunk_index;
            bytes = sent.chunk;
            checksum = sent.checksum;
            is_last = false;
          })
          d
        ≡ ok (w', e)
      → codecs.sync_chunk_ack.encode
          (record { op_id = sent.op_id; chunk_index = sent.chunk_index; success = true })
        ≡ ok ack
      → handles (receiving stats sent.op_id size w) (Message.sync_chunk, encode_sync_chunk sent) d
        ≡ went (receiving stats sent.op_id size w') e ((Message.sync_chunk_ack, ack) ∷ [])
  unfolding inbound receive_sync_chunk store_sync_chunk
  chunk-handled stats size w w' sent d e ack good right written enc =
      rw
        (
          decode-encode_sync_chunk sent good,
          ==-self sent.op_id,
          right,
          ==-self sent.checksum,
          written,
          enc,
        )
        refl

  acknowledged :
      (op_id : ℕ) (stats : SyncStats) (d : dir.fs.Disk) (ack : List ℕ)
      → codecs.sync_op_ack.encode
          (record { op_id = op_id; success = true; error_text = none; content_hash = none })
        ≡ ok ack
      → acknowledge_op dir is_dir codecs xxhash64 sha256 sync_deletions op_id stats d
        ≡ went (idle stats) d ((Message.sync_op_ack, ack) ∷ [])
  unfolding acknowledge_op
  acknowledged op_id stats d ack enc = rw enc refl

  -- The sender ends well once the operation is acknowledged.
  runs-acknowledged :
      (s : Session) (f : Frame) (op_id : ℕ) (stats : SyncStats) (p : Inbound) (d e : dir.fs.Disk)
      → s ≡ write_frame f (await_op_ack codecs xxhash64 reader bytes)
      → handles p f d
        ≡ acknowledge_op dir is_dir codecs xxhash64 sha256 sync_deletions op_id stats e
      → runs s p d [] ≡ (ok tt, idle stats, e, [])
  unfolding await_op_ack run
  runs-acknowledged s f op_id stats p d e same handled =
      let a : SyncOpAckPayload = record {
        op_id = op_id;
        success = true;
        error_text = none;
        content_hash = none;
      } in
      let (ack, enc, dec) = encoded codecs.sync_op_ack a in
      ap (λ t. runs t p d []) same
      ∙ runs-write f (await_op_ack codecs xxhash64 reader bytes) p (idle stats) d e
          ((Message.sync_op_ack, ack) ∷ []) (handled ∙ acknowledged op_id stats e ack enc)
      ∙ runs-expect codecs.sync_op_ack Message.sync_op_ack _ (idle stats) e ack a dec

  module _ (word : (xs : List ℕ) → xxhash64 xs < 2 ^ 64) (reliable : Reliable dir.fs) where
    chunk-stored :
        (stats : SyncStats) (op_id size : ℕ) (w : FileWriter) (c : FileChunk) (xs : List ℕ)
        (d : dir.fs.Disk) (next : Session)
        → op_id < 2 ^ 64
        → c.checksum ≡ xxhash64 c.bytes
        → dir.fs.content w.output_path d ≡ some xs
        → (w' : FileWriter) × (e : dir.fs.Disk) × (w'.output_path ≡ w.output_path)
          × (dir.fs.content w.output_path e ≡ some (xs ++ c.bytes))
          × SameBut dir.fs w.output_path d e
          × (runs
                (send_sync_chunk codecs xxhash64 reader bytes op_id c next)
                (receiving stats op_id size w)
                d
                []
              ≡ runs next (receiving stats op_id size w') e [])
    unfolding send_sync_chunk
    chunk-stored stats op_id size w c xs d next id_word right before =
        let sent = sync_chunk_of codecs xxhash64 reader bytes op_id c in
        let chunk : FileChunk = record {
          file_index = 0;
          chunk_index = sent.chunk_index;
          bytes = c.bytes;
          checksum = c.checksum;
          is_last = false;
        } in
        let w' : FileWriter = record w {
          hashed = w.hashed ++ c.bytes;
          bytes_written = (w.bytes_written + length c.bytes) % 2 ^ 64;
        } in
        let (e, same, after, others) =
          write_chunk-SameBut dir.fs reliable xxhash64 w chunk xs d (sym right) before in
        let a : SyncChunkAckPayload = record {
          op_id = op_id;
          chunk_index = sent.chunk_index;
          success = true;
        } in
        let (ack, enc, dec) = encoded codecs.sync_chunk_ack a in
        let good : IsSyncChunk sent = record {
          op_id_word = id_word;
          chunk_index_word = omega arith;
          checksum_word = omega (arith, word c.bytes, right);
        } in
        (
          w',
          e,
          refl,
          after,
          others,
          runs-write (Message.sync_chunk, encode_sync_chunk sent) _ (receiving stats op_id size w)
                (receiving stats op_id size w') d e ((Message.sync_chunk_ack, ack) ∷ [])
                (chunk-handled stats size w w' sent d e ack good (sym right) same enc)
              ∙ runs-expect codecs.sync_chunk_ack Message.sync_chunk_ack _ _ e ack a dec,
        )

    complete-handled :
        (stats : SyncStats) (op_id size : ℕ) (w : FileWriter) (payload : List ℕ) (d e : dir.fs.Disk)
        → codecs.sync_complete.decode payload ≡ ok (record { op_id = op_id; content_hash = 0 })
        → finalize dir.fs sha256 w d ≡ ok (sha256 w.hashed, e)
        → handles (receiving stats op_id size w) (Message.sync_complete, payload) d
          ≡ acknowledge_op dir is_dir codecs xxhash64 sha256 sync_deletions op_id
              (count_received size stats)
              e
    unfolding inbound complete_contents
    complete-handled stats op_id size w payload d e dec closed = rw (dec, closed) refl

    chunks-stored :
        (stats : SyncStats) (op_id size first : ℕ) (w : FileWriter) (chunks : List FileChunk)
        (xs : List ℕ) (d : dir.fs.Disk)
        → op_id < 2 ^ 64
        → IsChunks xxhash64 0 default_chunk_size first chunks
        → dir.fs.content w.output_path d ≡ some xs
        → (e : dir.fs.Disk) × (dir.fs.content w.output_path e ≡ some (xs ++ joined chunks))
          × SameBut dir.fs w.output_path d e
          × (runs
                (send_sync_chunks codecs xxhash64 reader bytes op_id chunks
                  (await_op_ack codecs xxhash64 reader bytes))
                (receiving stats op_id size w)
                d
                []
              ≡ (ok tt, idle (count_received size stats), e, []))
    unfolding send_sync_chunks
    chunks-stored stats op_id size first w [] xs d id_word good before =
        let (e, closed, same) = finalize-Same dir.fs reliable sha256 w d in
        let (payload, enc, dec) =
          encoded codecs.sync_complete (record { op_id = op_id; content_hash = 0 }) in
        (
          e,
          same w.output_path ∙ before ∙ ap some (sym (append-nil xs)),
          λ q ne. same q,
          runs-acknowledged _ (Message.sync_complete, payload) op_id (count_received size stats)
              (receiving stats op_id size w) d e
              (send-encoded codecs.sync_complete Message.sync_complete _ _ payload enc)
              (complete-handled stats op_id size w payload d e dec closed),
        )
    chunks-stored stats op_id size first w (c ∷ chunks) xs d id_word good before =
        let rest =
          send_sync_chunks codecs xxhash64 reader bytes op_id chunks
            (await_op_ack codecs xxhash64 reader bytes) in
        let (w₁, d₁, path, after, others, one) =
          chunk-stored stats op_id size w c xs d rest id_word good.4 before in
        let (e, after₂, others₂, more) =
          chunks-stored stats op_id size (suc first) w₁ chunks (xs ++ c.bytes) d₁ id_word good.6
            (ap (λ p. dir.fs.content p d₁) path ∙ after) in
        (
          e,
          ap (λ p. dir.fs.content p e) (sym path)
              ∙ after₂
              ∙ ap some (append_assoc xs c.bytes (joined chunks)),
          λ q ne. others₂ q (λ h. ne (sym path ∙ h)) ∙ others q ne,
          one ∙ more,
        )

    path-read :
        (path : RelativePath) (contents : List ℕ) (chunks : List FileChunk)
        → bytes path ≡ some contents
        → read_chunks xxhash64 reader (suc (length contents)) default_chunk_size contents 0
          ≡ some chunks
        → read_path codecs xxhash64 reader bytes path ≡ ok chunks
    unfolding read_path
    path-read path contents chunks found read = rw (found, read_path, read) refl

    contents-read :
        (op_id : ℕ) (path : RelativePath) (chunks : List FileChunk) (next : Session)
        → read_path codecs xxhash64 reader bytes path ≡ ok chunks
        → send_file_chunks_simple codecs xxhash64 reader bytes op_id path next
          ≡ send_sync_chunks codecs xxhash64 reader bytes op_id chunks next
    unfolding send_file_chunks_simple
    contents-read op_id path chunks next read = rw (read, send_file_chunks_simple) refl

    -- The file of a writer that was just opened gets the bytes of the path.
    contents-stored :
        (stats : SyncStats) (op_id : ℕ) (path : RelativePath) (contents : List ℕ) (w : FileWriter)
        (d : dir.fs.Disk)
        → op_id < 2 ^ 64
        → bytes path ≡ some contents
        → dir.fs.content w.output_path d ≡ some []
        → (e : dir.fs.Disk) × (dir.fs.content w.output_path e ≡ some contents)
          × SameBut dir.fs w.output_path d e
          × (runs
                (send_file_chunks_simple codecs xxhash64 reader bytes op_id path
                  (await_op_ack codecs xxhash64 reader bytes))
                (receiving stats op_id (length contents) w)
                d
                []
              ≡ (ok tt, idle (count_received (length contents) stats), e, []))
    contents-stored stats op_id path contents w d id_word found before =
        let (chunks, read, all, good) =
          read_chunks_total xxhash64 reader default_chunk_size 0 contents (omega arith) in
        let (e, after, others, ends) =
          chunks-stored stats op_id (length contents) 0 w chunks [] d id_word good before in
        (
          e,
          after ∙ ap some all,
          others,
          ap (λ t. runs t (receiving stats op_id (length contents) w) d [])
                (contents-read op_id path chunks (await_op_ack codecs xxhash64 reader bytes)
                  (path-read path contents chunks found read))
              ∙ ends,
        )

    abbrev starts : SyncStats → SyncOpPayload → ℕ → Text → dir.fs.Disk → Moves
    starts = receive_contents dir is_dir codecs xxhash64 sha256 sync_deletions

    -- A file of one byte or more has chunks, as a `u32` too.
    counted : (size : ℕ) → 0 < size → size < 2 ^ 50 → ltb 0 (chunk_count_of size) ≡ true
    unfolding chunk_count_of
    counted size h bound = ground (arith, h, bound)

    empty-started :
        (stats : SyncStats) (payload : SyncOpPayload) (path : Text) (d d₁ e : dir.fs.Disk)
        → create_parent dir.fs (dir.fs.parent path) d ≡ some d₁
        → dir.fs.create path d₁ ≡ some e
        → starts stats payload 0 path d
          ≡ acknowledge_op dir is_dir codecs xxhash64 sha256 sync_deletions payload.op_id
              (count_received 0 stats)
              e
    unfolding receive_contents
    empty-started stats payload path d d₁ e made created = rw (made, created) refl

    opened-started :
        (stats : SyncStats) (payload : SyncOpPayload) (size : ℕ) (path : Text) (w : FileWriter)
        (d d₁ e : dir.fs.Disk)
        → create_parent dir.fs (dir.fs.parent path) d ≡ some d₁
        → ltb 0 size ≡ true
        → payload.chunk_count ≡ some (chunk_count_of size)
        → ltb 0 (chunk_count_of size) ≡ true
        → new_writer dir.fs path size d₁ ≡ ok (w, e)
        → starts stats payload size path d ≡ went (receiving stats payload.op_id size w) e []
    unfolding receive_contents
    opened-started stats payload size path w d d₁ e made positive count counts opened =
        rw (made, positive, count, counts, opened) refl

    -- The sender goes on as one that has just sent its operation, against a receiver that has just
    -- read it: with no bytes, or with chunks.
    op-delivered :
        (stats : SyncStats) (op_id : ℕ) (payload : SyncOpPayload) (path : RelativePath)
        (contents sent : List ℕ) (next : Session) (d : dir.fs.Disk)
        → op_id < 2 ^ 64
        → length contents < 2 ^ 50
        → (0 < length contents → bytes path ≡ some contents)
        → payload.op_id ≡ op_id
        → payload.chunk_count ≡ some (chunk_count_of (length contents))
        → handles (idle stats) (Message.sync_op, sent) d
          ≡ starts stats payload (length contents) (dir.to_path path) d
        → (e : dir.fs.Disk) × (dir.fs.content (dir.to_path path) e ≡ some contents)
          × SameBut dir.fs (dir.to_path path) d e
          × (runs
                (write_frame
                  (Message.sync_op, sent)
                  (if ltb 0 (length contents)
                    then send_file_chunks_simple codecs xxhash64 reader bytes op_id path
                        (await_op_ack codecs xxhash64 reader bytes)
                    else await_op_ack codecs xxhash64 reader bytes))
                (idle stats)
                d
                []
              ≡ (ok tt, idle (count_received (length contents) stats), e, []))
    op-delivered stats op_id payload path [] sent next d id_word bound found same_id count handled =
        let (d₁, made, same) = parent-Same dir.fs reliable (dir.fs.parent (dir.to_path path)) d in
        let (e, created) = reliable.creates (dir.to_path path) d₁ in
        (
          e,
          dir.fs.content_create (dir.to_path path) d₁ e created,
          λ q ne. dir.fs.content_create_ne (dir.to_path path) q d₁ e created ne ∙ same q,
          runs-acknowledged _ (Message.sync_op, sent) op_id (count_received 0 stats) (idle stats) d
              e refl
              (handled
                ∙ empty-started stats payload (dir.to_path path) d d₁ e made created
                ∙ ap
                    (λ i.
                      acknowledge_op dir is_dir codecs xxhash64 sha256 sync_deletions i
                        (count_received 0 stats) e)
                    same_id),
        )
    op-delivered stats op_id payload path (b ∷ bs) sent next d id_word bound found same_id count
          handled =
        let contents = b ∷ bs in
        let positive : ltb 0 (length contents) ≡ true = ground arith in
        let (d₁, made, same) = parent-Same dir.fs reliable (dir.fs.parent (dir.to_path path)) d in
        let (d₂, opened, blank, others) =
          new_writer-SameBut dir.fs reliable (dir.to_path path) (length contents) d₁ in
        let w : FileWriter = record {
          output_path = dir.to_path path;
          expected_size = length contents;
          bytes_written = 0;
          hashed = [];
        } in
        let (e, after, others₂, ends) =
          contents-stored stats op_id path contents w d₂ id_word (found (omega arith)) blank in
        (
          e,
          after,
          λ q ne. others₂ q ne ∙ others q ne ∙ same q,
          ap
                (λ b.
                  runs
                    (write_frame (Message.sync_op, sent)
                      (if b
                        then send_file_chunks_simple codecs xxhash64 reader bytes op_id path
                            (await_op_ack codecs xxhash64 reader bytes)
                        else await_op_ack codecs xxhash64 reader bytes))
                    (idle stats) d [])
                positive
              ∙ runs-write (Message.sync_op, sent) _ (idle stats)
                  (receiving stats op_id (length contents) w) d d₂ []
                  (handled
                    ∙ opened-started stats payload (length contents) (dir.to_path path) w d d₁ d₂
                        made positive count (counted (length contents) (omega arith) bound) opened
                    ∙ ap (λ i. went (receiving stats i (length contents) w) d₂ []) same_id)
              ∙ ends,
        )

    op-decoded :
        (stats : SyncStats) (payload : SyncOpPayload) (sent : List ℕ) (d : dir.fs.Disk)
        → codecs.sync_op.decode sent ≡ ok payload
        → handles (idle stats) (Message.sync_op, sent) d
          ≡ receive_sync_op dir is_dir codecs xxhash64 sha256 sync_deletions stats payload d
    unfolding inbound
    op-decoded stats payload sent d dec = rw (dec, inbound) refl

    handled_op :
        (stats : SyncStats) (op_id : ℕ) (o : Option FileKind) (path : RelativePath) (size hash : ℕ)
        (sent : List ℕ) (d : dir.fs.Disk)
        → new_path path.text ≡ path
        → codecs.sync_op.decode sent ≡ ok (op_payload op_id (write_op o path size hash))
        → handles (idle stats) (Message.sync_op, sent) d
          ≡ starts stats (op_payload op_id (write_op o path size hash)) size (dir.to_path path) d
    unfolding receive_sync_op op_payload
    handled_op stats op_id none path size hash sent d plain dec =
        op-decoded stats (op_payload op_id (modify path size hash)) sent d dec
        ∙ ap (λ p. starts stats (op_payload op_id (modify path size hash)) size (dir.to_path p) d)
            plain
    handled_op stats op_id (some kind) path size hash sent d plain dec =
        op-decoded stats (op_payload op_id (create path kind size hash)) sent d dec
        ∙ ap
            (λ p.
              starts stats (op_payload op_id (create path kind size hash)) size (dir.to_path p) d)
            plain

    payload_facts :
        (op_id : ℕ) (o : Option FileKind) (path : RelativePath) (size hash : ℕ)
        → let p = op_payload op_id (write_op o path size hash) in
          (p.op_id ≡ op_id) × (p.chunk_count ≡ some (chunk_count_of size))
    unfolding op_payload
    payload_facts op_id none path size hash = (refl, refl)
    payload_facts op_id (some kind) path size hash = (refl, refl)

    sends_contents :
        (op_id : ℕ) (o : Option FileKind) (path : RelativePath) (size hash : ℕ) (next : Session)
        → send_contents codecs xxhash64 reader bytes op_id (write_op o path size hash) next ≡ (
            if ltb 0 size
            then send_file_chunks_simple codecs xxhash64 reader bytes op_id path next
            else next)
    unfolding send_contents
    sends_contents op_id none path size hash next = refl
    sends_contents op_id (some kind) path size hash next = refl

    delivered :
        (stats : SyncStats) (op_id : ℕ) (o : Option FileKind) (path : RelativePath) (hash : ℕ)
        (contents : List ℕ) (d : dir.fs.Disk)
        → op_id < 2 ^ 64
        → new_path path.text ≡ path
        → length contents < 2 ^ 50
        → (0 < length contents → bytes path ≡ some contents)
        → (e : dir.fs.Disk) × (dir.fs.content (dir.to_path path) e ≡ some contents)
          × SameBut dir.fs (dir.to_path path) d e
          × (runs (sends op_id o path (length contents) hash) (idle stats) d []
              ≡ (ok tt, idle (count_received (length contents) stats), e, []))
    unfolding send_sync_op
    delivered stats op_id o path hash contents d id_word plain bound found =
        let op = write_op o path (length contents) hash in
        let payload = op_payload op_id op in
        let (sent, enc, dec) = encoded codecs.sync_op payload in
        let (same_id, count) = payload_facts op_id o path (length contents) hash in
        let (e, after, others, ends) =
          op-delivered stats op_id payload path contents sent
            (await_op_ack codecs xxhash64 reader bytes) d id_word bound found same_id count
            (handled_op stats op_id o path (length contents) hash sent d plain dec) in
        (
          e,
          after,
          others,
          ap (λ s. runs s (idle stats) d [])
                (send-encoded codecs.sync_op Message.sync_op payload _ sent enc
                  ∙ ap (λ s. write_frame (Message.sync_op, sent) s)
                      (sends_contents op_id o path (length contents) hash
                        (await_op_ack codecs xxhash64 reader bytes)))
              ∙ ends,
        )

    -- An operation that creates or modifies a path reaches the other device: the sender ends well, the
    -- receiver waits for the next operation and has counted this one, the file at the path has the
    -- sender's bytes, and no other file has changed. The conditions are that the calls of the
    -- receiver's file system succeed, that the path has no backslashes, that hashes and the number of
    -- the operation are 64-bit numbers, that the operation names the size of the bytes, which is below
    -- 2^50, that the sender can read them where there are any, that no frame is above the limit of a
    -- payload, and that each device's stream is free for this operation: `send_sync_op` has got the
    -- lock of its device's stream, and until it has the acknowledgment no other task of the receiving
    -- device takes the lock that the inbound task gives up between `read_frame` and
    -- `receive_sync_op`. For the kind of a directory, which has size 0, an empty file is created.
    pub live_delivers :
        (stats : SyncStats) (op_id : ℕ) (o : Option FileKind) (path : RelativePath) (hash : ℕ)
        (contents : List ℕ) (d : dir.fs.Disk)
        → op_id < 2 ^ 64
        → new_path path.text ≡ path
        → length contents < 2 ^ 50
        → (0 < length contents → bytes path ≡ some contents)
        → all_within handles (sends op_id o path (length contents) hash) (idle stats) d [] ≡ true
        → (e : dir.fs.Disk) × (dir.fs.content (dir.to_path path) e ≡ some contents)
          × SameBut dir.fs (dir.to_path path) d e
          × (run
                (Unit {0})
                Inbound
                dir.fs.Disk
                takes
                (limited (sends op_id o path (length contents) hash))
                (idle stats)
                d
                []
              ≡ (ok tt, idle (count_received (length contents) stats), e, []))
    live_delivers stats op_id o path hash contents d id_word plain bound found within =
        let (e, after, others, ends) =
          delivered stats op_id o path hash contents d id_word plain bound found in
        (
          e,
          after,
          others,
          run-limited handles takes (λ p. p)
                (limited_move-within handles
                  (refuse dir is_dir codecs xxhash64 sha256 sync_deletions))
                (sends op_id o path (length contents) hash) (idle stats) d [] within
              ∙ ends,
        )
