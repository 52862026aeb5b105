-- ===== src/Sync/Session/Handshakes.antt =====
-- crates/yoop-core/src/sync/session.rs: the two sides of a handshake against each other.
use yoop.Base.{true, Result, ℕ, ◌≡◌, refl, sym, ap, ◌∙◌, List, [], ◌∷◌, All, lookup, ok}
use yoop.Protocol.Message as Message
use yoop.Protocol.Message.{MessageType, as_byte}
use yoop.Transfer.Wire.{
  HelloPayload, Frame, same_type_self, Program, write_frame, read_frame, done, send, receive,
  encoded, take_frame-decoded,
}
use yoop.Transfer.Network.{Net, net, Reach, run, settle, Reach-ended}
use yoop.Transfer.Limit.{limited, all_within, run-limited, answers-limited}
use yoop.Transfer.Peers.{advance, advance-send, answers, talk, talk-send, talk-receive}
use yoop.Sync.Model.{RelativePath, RelativePath-discrete}
use yoop.Sync.Index.{FileEntry, Entries, FileIndex, from_entries, get}
use yoop.Sync.Index.Keyed.{IsTable}
use yoop.Sync.Index.Upkeep.{IsIndex}
use yoop.Sync.Session.{
  SyncIndexEntry, SyncIndexPayload, expect, take_expected, take_expected-decoded, SyncCodecs,
  SyncInitPayload, SyncPeer, Handshake, greeting, sync_init_of, index_entries, entries_map,
  exchange_index, take_index_ack, handshake_host, handshake_client,
}
use yoop.Sync.Session.Received.{Sendable, cut_at, or_old-none, entries_map-loop}

module _ {R : Type 0} where
  take_index_ack-ok :
      (codecs : SyncCodecs) (xxh64 : List ℕ → ℕ) (entries : List SyncIndexEntry) (m : Entries)
      (next : FileIndex → Program R)
      → entries_map entries [] ≡ ok m
      → take_index_ack codecs xxh64 entries next (Message.sync_index_ack, [])
        ≡ next (from_entries xxh64 m)
  unfolding take_index_ack
  take_index_ack-ok codecs xxh64 entries m next h =
      rw (same_type_self Message.sync_index_ack, h) refl

module _ (codecs : SyncCodecs) (xxh64 : List ℕ → ℕ) where
  abbrev Peers : Type 0
  Peers = Net Handshake (Program Handshake) (Unit {0})

  -- The client with nothing said yet, the host waiting for the greeting, both of which refuse what is
  -- above the limit of a payload
  abbrev pub start : (client host : SyncPeer) → Peers
  start client host =
      net (limited (handshake_client codecs xxh64 client))
        (limited (handshake_host codecs xxh64 host)) tt [] []

  -- No frame of the handshake has a payload above the limit.
  abbrev pub Within : (client host : SyncPeer) → Type 0
  Within client host =
      all_within answers (handshake_client codecs xxh64 client) (handshake_host codecs xxh64 host)
        tt []
      ≡ true

  -- The same without the limit
  abbrev unlimited : (client host : SyncPeer) → Peers
  unlimited client host =
      net (handshake_client codecs xxh64 client) (handshake_host codecs xxh64 host) tt [] []

  abbrev index_of : SyncPeer → SyncIndexPayload
  index_of peer = record { entries = index_entries peer.local_index.entries }

  abbrev answer_index : (FileIndex → Program Handshake) → SyncIndexPayload → Program Handshake
  answer_index next theirs =
      write_frame (Message.sync_index_ack, [])
        (read_frame (take_index_ack codecs xxh64 theirs.entries next))

  abbrev exchange : SyncPeer → (FileIndex → Program Handshake) → Program Handshake
  exchange peer next = exchange_index codecs xxh64 peer.local_index next

  -- Both send their index and then read that of the other side.
  indexes-exchanged :
      (client host : SyncPeer) (m n : Entries) (next next' : FileIndex → Program Handshake)
      → entries_map (index_entries host.local_index.entries) [] ≡ ok m
      → entries_map (index_entries client.local_index.entries) [] ≡ ok n
      → talk
          (exchange client next)
          (advance (exchange host next')).0
          (advance (exchange host next')).1
        ≡ talk
            (next (from_entries xxh64 m))
            (advance (next' (from_entries xxh64 n))).0
            ((advance (next' (from_entries xxh64 n))).1)
  unfolding exchange_index run answers advance
  indexes-exchanged client host m n next next' theirs ours =
      let (list, e₁, d₁) = encoded codecs.sync_index (index_of client) in
      let (list', e₂, d₂) = encoded codecs.sync_index (index_of host) in
      let waits : Program Handshake =
        read_frame (take_expected codecs.sync_index Message.sync_index (answer_index next')) in
      ap (λ (a : Program Handshake × List Frame). talk (exchange client next) a.0 a.1)
        (advance-send codecs.sync_index Message.sync_index (index_of host) waits list' e₂)
      ∙ talk-send codecs.sync_index Message.sync_index (index_of client)
          (expect codecs.sync_index Message.sync_index (answer_index next)) list _
          (answer_index next' (index_of client)) ((Message.sync_index, list') ∷ []) e₁
          (take_expected-decoded codecs.sync_index Message.sync_index (answer_index next') list
            (index_of client) d₁)
      ∙ ap
          (λ p.
            talk p (read_frame (take_index_ack codecs xxh64 (index_of client).entries next'))
              ((Message.sync_index_ack, []) ∷ []))
          (take_expected-decoded codecs.sync_index Message.sync_index (answer_index next) list'
            (index_of host) d₂)
      ∙ ap
          (λ q.
            talk
              (take_index_ack codecs xxh64 (index_of host).entries next
                (Message.sync_index_ack, []))
              (advance q).0 (advance q).1)
          (take_index_ack-ok codecs xxh64 (index_of client).entries n next' ours)
      ∙ ap
          (λ p.
            talk p (advance (next' (from_entries xxh64 n))).0
              (advance (next' (from_entries xxh64 n))).1)
          (take_index_ack-ok codecs xxh64 (index_of host).entries m next theirs)

  finish : List ℕ → FileIndex → Program Handshake
  finish name index = done (ok (name, index))

  handshakes :
      (client host : SyncPeer) (m n : Entries)
      → entries_map (index_entries host.local_index.entries) [] ≡ ok m
      → entries_map (index_entries client.local_index.entries) [] ≡ ok n
      → settle Handshake (Program Handshake) (Unit {0}) answers (unlimited client host) ≡ (
        ok (host.device_name, from_entries xxh64 m),
        done (ok (client.device_name, from_entries xxh64 n)),
        tt,
        [],
      )
  unfolding settle handshake_client handshake_host run answers advance finish
  handshakes client host m n theirs ours =
      let (hello, e₁, d₁) = encoded codecs.hello (greeting client) in
      let (hello_ack, e₂, d₂) = encoded codecs.hello (greeting host) in
      let (init, e₃, d₃) = encoded codecs.sync_init (sync_init_of host) in
      let (init_ack, e₄, d₄) = encoded codecs.sync_init (sync_init_of client) in
      let client_ends = exchange client (finish host.device_name) in
      let host_ends = exchange host (finish client.device_name) in
      let client_answers : SyncInitPayload → Program Handshake =
        λ theirs. send codecs.sync_init Message.sync_init_ack (sync_init_of client) client_ends in
      let host_waits = expect codecs.sync_init Message.sync_init_ack (λ theirs. host_ends) in
      let host_inits = send codecs.sync_init Message.sync_init (sync_init_of host) host_waits in
      let host_greets = send codecs.hello Message.hello_ack (greeting host) host_inits in
      let client_waits = expect codecs.sync_init Message.sync_init client_answers in
      let client_greeted : HelloPayload → Program Handshake = λ ack.
        expect codecs.sync_init Message.sync_init (λ theirs.
          send codecs.sync_init Message.sync_init_ack (sync_init_of client)
            (exchange client (finish ack.device_name))) in
      let client_reads = receive codecs.hello Message.hello_ack client_greeted in
      talk-send codecs.hello Message.hello (greeting client) client_reads hello _ host_greets [] e₁
        (take_frame-decoded codecs.hello Message.hello _ hello (greeting client) d₁)
      ∙ ap (λ (a : Program Handshake × List Frame). talk client_reads a.0 a.1)
          (advance-send codecs.hello Message.hello_ack (greeting host) host_inits hello_ack e₂)
      ∙ ap
          (λ (a : Program Handshake × List Frame).
            talk client_reads a.0 ((Message.hello_ack, hello_ack) ∷ a.1))
          (advance-send codecs.sync_init Message.sync_init (sync_init_of host) host_waits init e₃)
      ∙ talk-receive codecs.hello Message.hello_ack (greeting host) client_greeted hello_ack
          host_waits ((Message.sync_init, init) ∷ []) d₂
      ∙ ap (λ p. talk p host_waits [])
          (take_expected-decoded codecs.sync_init Message.sync_init client_answers init
            (sync_init_of host) d₃)
      ∙ talk-send codecs.sync_init Message.sync_init_ack (sync_init_of client) client_ends init_ack
          _ host_ends [] e₄
          (take_expected-decoded codecs.sync_init Message.sync_init_ack (λ theirs. host_ends)
            init_ack (sync_init_of client) d₄)
      ∙ indexes-exchanged client host m n (finish host.device_name) (finish client.device_name)
          theirs ours

  handshakes-Within :
      (client host : SyncPeer) (m n : Entries)
      → entries_map (index_entries host.local_index.entries) [] ≡ ok m
      → entries_map (index_entries client.local_index.entries) [] ≡ ok n
      → Within client host
      → settle Handshake (Program Handshake) (Unit {0}) answers (start client host) ≡ (
        ok (host.device_name, from_entries xxh64 m),
        done (ok (client.device_name, from_entries xxh64 n)),
        tt,
        [],
      )
  unfolding settle limited
  handshakes-Within client host m n theirs ours within =
      run-limited answers answers limited answers-limited (handshake_client codecs xxh64 client)
        (handshake_host codecs xxh64 host) tt [] within
      ∙ ap
          (λ (r : Result Handshake × Program Handshake × Unit {0} × List Frame).
            (r.0, limited r.1, r.2, r.3))
          (handshakes client host m n theirs ours)

  -- The table that arrives, and what it gives at each path
  arrived :
      (peer : SyncPeer) (p : IsTable peer.local_index.entries)
      → All (λ (x : RelativePath × FileEntry). Sendable x.1) peer.local_index.entries
      → (m : Entries) × (entries_map (index_entries peer.local_index.entries) [] ≡ ok m)
        × IsIndex xxh64 (from_entries xxh64 m)
        × ((q : RelativePath) → get (from_entries xxh64 m) q ≡ cut_at (get peer.local_index q))
  unfolding get from_entries lookup
  arrived peer table h =
      let (m, same, good, at) = entries_map-loop peer.local_index.entries [] table h (tt, tt) in
      (
        m,
        same,
        record { table = good; hashed = refl },
        λ q. at q ∙ or_old-none (lookup RelativePath-discrete q peer.local_index.entries),
      )

  -- The handshake gives each device the other's name and index: the entry of the other device at
  -- every path, with its time cut to whole seconds since 1970. It ends so when each side's frames are
  -- handled as they come, and however the two sides are interleaved, it ends in no other way: when the
  -- client has ended and no frame is under way to the host. The conditions are that an index has one
  -- entry for a path, without backslashes in it, that its times are ones that `SystemTime` can name,
  -- that no frame is above the limit of a payload, and for the first part that the connection holds
  -- what is written until it is read: both sides write their whole index before they read.
  pub handshake_exchanges :
      (client host : SyncPeer)
      → IsTable client.local_index.entries
      → IsTable host.local_index.entries
      → All (λ (x : RelativePath × FileEntry). Sendable x.1) client.local_index.entries
      → All (λ (x : RelativePath × FileEntry). Sendable x.1) host.local_index.entries
      → Within client host
      → (at_client at_host : FileIndex) × (settle Handshake
            (Program Handshake)
            (Unit {0})
            answers
            (start client host)
          ≡ (ok (host.device_name, at_client), done (ok (client.device_name, at_host)), tt, []))
        × ((r : Result Handshake) (q : Program Handshake) (o : List Frame)
            → Reach Handshake
                (Program Handshake)
                (Unit {0})
                answers
                (start client host)
                (net (done r) q tt [] o)
            → (r ≡ ok (host.device_name, at_client))
              × (q ≡ done (ok (client.device_name, at_host))))
        × IsIndex xxh64 at_client
        × IsIndex xxh64 at_host
        × ((p : RelativePath) → get at_client p ≡ cut_at (get host.local_index p))
        × ((p : RelativePath) → get at_host p ≡ cut_at (get client.local_index p))
  handshake_exchanges client host ct ht cs hs within =
      let (m, theirs, good_m, at_m) = arrived host ht hs in
      let (n, ours, good_n, at_n) = arrived client ct cs in
      let ends = handshakes-Within client host m n theirs ours within in
      (
        from_entries xxh64 m,
        from_entries xxh64 n,
        ends,
        λ r q o reach.
            let same =
              sym (Reach-ended Handshake (Program Handshake) (Unit {0}) answers reach) ∙ ends in
            (ap (λ x. x.0) same, ap (λ x. x.1) same),
        good_m,
        good_n,
        at_m,
        at_n,
      )
