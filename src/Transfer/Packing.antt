-- ===== src/Transfer/Packing.antt =====
-- Payloads as lists of numbers, for the runs of a transfer: what stands in for the JSON of the source.
use yoop.Base.{
  ℕ, ◌==◌, if◌then◌else◌, ◌≡◌, refl, sym, ap, ◌∙◌, Bool, true, false, Option, none, some, List, [],
  append-nil,
}
use yoop.Compression.{CompressionAlgorithm, uncompressed, zstd, CompressionCapabilities}
use yoop.Files.{
  FileMetadata, PreviewType, thumbnail, text_snippet, archive_listing, icon, no_preview,
  PreviewMetadata, Preview,
}
use yoop.Transfer.{ResumeState}
use yoop.Transfer.Manager.{StateJson}
use yoop.Transfer.Wire.{HelloPayload, Codecs}
use yoop.Transfer.Coding.{Packing, number, pair, same_as, flag, optional, many, text, codec_of}

abbrev pub to_algorithm : Bool → CompressionAlgorithm
to_algorithm true = zstd
to_algorithm false = uncompressed

abbrev from_algorithm : CompressionAlgorithm → Bool
from_algorithm zstd = true
from_algorithm uncompressed = false

pub algorithm_back : (a : CompressionAlgorithm) → to_algorithm (from_algorithm a) ≡ a
algorithm_back zstd = refl
algorithm_back uncompressed = refl

abbrev algorithm : Packing CompressionAlgorithm
algorithm = same_as flag to_algorithm from_algorithm algorithm_back

abbrev capabilities : Packing CompressionCapabilities
capabilities =
    same_as (pair (many algorithm) number) (λ a. record { algorithms = a.0; level = a.1 })
      (λ c. (c.algorithms, c.level)) (λ c. refl)

abbrev to_preview_type : ℕ → PreviewType
to_preview_type n =
    if n == 0
    then thumbnail
    else if n == 1
    then text_snippet
    else if n == 2
    then archive_listing
    else if n == 3
    then icon
    else no_preview

abbrev from_preview_type : PreviewType → ℕ
from_preview_type thumbnail = 0
from_preview_type text_snippet = 1
from_preview_type archive_listing = 2
from_preview_type icon = 3
from_preview_type no_preview = 4

preview_type_back : (t : PreviewType) → to_preview_type (from_preview_type t) ≡ t
preview_type_back thumbnail = refl
preview_type_back text_snippet = refl
preview_type_back archive_listing = refl
preview_type_back icon = refl
preview_type_back no_preview = refl

abbrev preview_metadata : Packing PreviewMetadata
preview_metadata =
    same_as
      (pair (optional (pair number number))
        (pair (optional number) (pair (optional number) (optional text))))
      (λ a. record {
        dimensions = a.0;
        file_count = a.1.0;
        page_count = a.1.1.0;
        duration_secs = a.1.1.1;
      })
      (λ m. (m.dimensions, (m.file_count, (m.page_count, m.duration_secs)))) (λ m. refl)

abbrev preview : Packing Preview
preview =
    same_as
      (pair (same_as number to_preview_type from_preview_type preview_type_back)
        (pair text (pair text (pair number (optional preview_metadata)))))
      (λ a. record {
        preview_type = a.0;
        preview_data = a.1.0;
        preview_mime_type = a.1.1.0;
        original_size = a.1.1.1.0;
        preview_metadata = a.1.1.1.1;
      })
      (λ p. (
        p.preview_type,
        (p.preview_data, (p.preview_mime_type, (p.original_size, p.preview_metadata))),
      ))
      (λ p. refl)

abbrev metadata : Packing FileMetadata
metadata =
    same_as
      (pair (pair (pair text number) (pair (optional text) (optional number))) (
        pair (pair (optional number) (optional number))
          (pair flag (pair (optional text) (pair flag (optional preview))))))
      (λ a. record {
        relative_path = a.0.0.0;
        size = a.0.0.1;
        mime_type = a.0.1.0;
        created = a.0.1.1;
        modified = a.1.0.0;
        permissions = a.1.0.1;
        is_symlink = a.1.1.0;
        symlink_target = a.1.1.1.0;
        is_directory = a.1.1.1.1.0;
        preview = a.1.1.1.1.1;
      })
      (λ f. (
        ((f.relative_path, f.size), (f.mime_type, f.created)),
        (
          (f.modified, f.permissions),
          (f.is_symlink, (f.symlink_target, (f.is_directory, f.preview))),
        ),
      ))
      (λ f. refl)

abbrev pub hello : Packing HelloPayload
hello =
    same_as
      (pair (pair text text)
        (pair (optional number) (pair (optional text) (optional capabilities))))
      (λ a. record {
        device_name = a.0.0;
        protocol_version = a.0.1;
        device_id = a.1.0;
        public_key = a.1.1.0;
        compression = a.1.1.1;
      })
      (λ h. ((h.device_name, h.protocol_version), (h.device_id, (h.public_key, h.compression))))
      (λ h. refl)

unfoldable pub packed : Codecs
unfolding preview_type_back
packed = record {
  hello = codec_of hello;
  code_verify =
      codec_of (same_as text (λ a. record { code_hmac = a }) (λ c. c.code_hmac) (λ c. refl));
  code_verify_ack = codec_of (
      same_as (pair flag (optional text)) (λ a. record { success = a.0; error_text = a.1 })
        (λ c. (c.success, c.error_text)) (λ c. refl));
  file_list = codec_of (
      same_as (pair (many metadata) number) (λ a. record { files = a.0; total_size = a.1 })
        (λ l. (l.files, l.total_size)) (λ l. refl));
  file_list_ack = codec_of (
      same_as (pair flag (optional (many number)))
        (λ a. record { accepted = a.0; accepted_files = a.1 }) (λ l. (l.accepted, l.accepted_files))
        (λ l. refl));
  chunk_start = codec_of (
      same_as (pair number (pair number number))
        (λ a. record { file_index = a.0; chunk_index = a.1.0; total_chunks = a.1.1 })
        (λ c. (c.file_index, (c.chunk_index, c.total_chunks))) (λ c. refl));
  chunk_ack = codec_of (
      same_as (pair number (pair number flag))
        (λ a. record { file_index = a.0; chunk_index = a.1.0; success = a.1.1 })
        (λ c. (c.file_index, (c.chunk_index, c.success))) (λ c. refl));
}

abbrev state : Packing ResumeState
state =
    same_as
      (pair (pair (pair number text) (pair (many metadata) (many (pair number (many number))))) (
        pair (pair (many (pair number text)) (pair text number))
          (pair (pair text (pair number number)) (pair number (pair number text)))))
      (λ a. record {
        transfer_id = a.0.0.0;
        code = a.0.0.1;
        files = a.0.1.0;
        completed_chunks = a.0.1.1;
        completed_file_hashes = a.1.0.0;
        sender_device = a.1.0.1.0;
        sender_device_id = a.1.0.1.1;
        output_dir = a.1.1.0.0;
        started_at = a.1.1.0.1.0;
        updated_at = a.1.1.0.1.1;
        bytes_received = a.1.1.1.0;
        total_bytes = a.1.1.1.1.0;
        protocol_version = a.1.1.1.1.1;
      })
      (λ s. (
        ((s.transfer_id, s.code), (s.files, s.completed_chunks)),
        (
          (s.completed_file_hashes, (s.sender_device, s.sender_device_id)),
          (
            (s.output_dir, (s.started_at, s.updated_at)),
            (s.bytes_received, (s.total_bytes, s.protocol_version)),
          ),
        ),
      ))
      (λ s. refl)

abbrev first : Option (ResumeState × List ℕ) → Option ResumeState
first none = none
first (some a) = some a.0

state_parsed :
    (s : ResumeState) (json : List ℕ)
    → some (state.pack s) ≡ some json
    → first (state.unpack json) ≡ some s
state_parsed s json h =
    ap (λ o. parsed_text o) (sym h)
    ∙ ap (λ ns. first (state.unpack ns)) (sym (append-nil (state.pack s)))
    ∙ ap first (state.unpack-pack s [])
  where
    parsed_text : Option (List ℕ) → Option ResumeState
    parsed_text none = none
    parsed_text (some ns) = first (state.unpack ns)

pub packed_state : StateJson
packed_state = record {
  to_json = λ s. some (state.pack s);
  from_json = λ ns. first (state.unpack ns);
  round_trip = state_parsed;
}

pub state_text : (s : ResumeState) → (text : List ℕ) × (packed_state.from_json text ≡ some s)
unfolding packed_state
state_text s = (state.pack s, state_parsed s (state.pack s) refl)
