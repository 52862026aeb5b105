-- ===== src/Sync/Session/Packing.antt =====
-- The payloads of a synchronization as lists of numbers, for its runs: what stands in for the JSON of
-- the source.
use yoop.Base.{ℕ, zero, suc, ◌≡◌, refl}
use yoop.Transfer.Coding.{Packing, number, pair, same_as, flag, optional, many, text, codec_of}
use yoop.Transfer.Packing.{hello}
use yoop.Sync.Session.{SyncCapabilities, SyncIndexEntry, SyncCodecs}
use yoop.Sync.Session.Live.{SyncOpType, op_create, op_modify, op_delete, op_rename, LiveCodecs}

abbrev capabilities : Packing SyncCapabilities
capabilities =
    same_as (pair (pair flag flag) (pair flag number))
      (λ a. record {
        supports_rename = a.0.0;
        supports_compression = a.0.1;
        supports_partial = a.1.0;
        max_file_size = a.1.1;
      })
      (λ c. ((c.supports_rename, c.supports_compression), (c.supports_partial, c.max_file_size)))
      (λ c. refl)

abbrev sent_entry : Packing SyncIndexEntry
sent_entry =
    same_as (pair (pair text number) (pair number (pair number number)))
      (λ a. record {
        path = a.0.0;
        kind = a.0.1;
        size = a.1.0;
        mtime = a.1.1.0;
        content_hash = a.1.1.1;
      })
      (λ e. ((e.path, e.kind), (e.size, (e.mtime, e.content_hash)))) (λ e. refl)

unfoldable pub packed_sync : SyncCodecs
packed_sync = record {
  hello = codec_of hello;
  sync_init = codec_of (
      same_as (pair (pair text (pair number number)) (pair (pair number number) capabilities))
        (λ a. record {
          sync_root_name = a.0.0;
          file_count = a.0.1.0;
          total_size = a.0.1.1;
          index_hash = a.1.0.0;
          protocol_version = a.1.0.1;
          capabilities = a.1.1;
        })
        (λ i. (
          (i.sync_root_name, (i.file_count, i.total_size)),
          ((i.index_hash, i.protocol_version), i.capabilities),
        ))
        (λ i. refl));
  sync_index =
      codec_of
        (same_as (many sent_entry) (λ a. record { entries = a }) (λ l. l.entries) (λ l. refl));
}

abbrev to_op_type : ℕ → SyncOpType
to_op_type zero = op_create
to_op_type (suc zero) = op_modify
to_op_type (suc (suc zero)) = op_delete
to_op_type (suc (suc (suc n))) = op_rename

abbrev from_op_type : SyncOpType → ℕ
from_op_type op_create = 0
from_op_type op_modify = 1
from_op_type op_delete = 2
from_op_type op_rename = 3

op_type_back : (t : SyncOpType) → to_op_type (from_op_type t) ≡ t
op_type_back op_create = refl
op_type_back op_modify = refl
op_type_back op_delete = refl
op_type_back op_rename = refl

abbrev op_type : Packing SyncOpType
op_type = same_as number to_op_type from_op_type op_type_back

unfoldable pub packed_live : LiveCodecs
unfolding op_type_back
packed_live = record {
  sync_op = codec_of (
      same_as
        (pair (pair (pair number op_type) (pair text (optional text)))
          (pair (pair number (optional number)) (pair (optional number) (optional number))))
        (λ a. record {
          op_id = a.0.0.0;
          op_type = a.0.0.1;
          path = a.0.1.0;
          from_path = a.0.1.1;
          kind = a.1.0.0;
          size = a.1.0.1;
          content_hash = a.1.1.0;
          chunk_count = a.1.1.1;
        })
        (λ o. (
          ((o.op_id, o.op_type), (o.path, o.from_path)),
          ((o.kind, o.size), (o.content_hash, o.chunk_count)),
        ))
        (λ o. refl));
  sync_op_ack = codec_of (
      same_as (pair (pair number flag) (pair (optional text) (optional number)))
        (λ a. record { op_id = a.0.0; success = a.0.1; error_text = a.1.0; content_hash = a.1.1 })
        (λ k. ((k.op_id, k.success), (k.error_text, k.content_hash))) (λ k. refl));
  sync_chunk_ack = codec_of (
      same_as (pair number (pair number flag))
        (λ a. record { op_id = a.0; chunk_index = a.1.0; success = a.1.1 })
        (λ k. (k.op_id, (k.chunk_index, k.success))) (λ k. refl));
  sync_complete = codec_of (
      same_as (pair number number) (λ a. record { op_id = a.0; content_hash = a.1 })
        (λ c. (c.op_id, c.content_hash)) (λ c. refl));
}
