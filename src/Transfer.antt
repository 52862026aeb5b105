-- ===== src/Transfer.antt =====
-- crates/yoop-core/src/transfer/mod.rs: the state from which an interrupted transfer is resumed. A
-- `Uuid` and a time are numbers, a string is the list of its code points.
pub mod Resumption
pub mod Wire
pub mod Sender
pub mod Receiver
pub mod Network
pub mod Peers
pub mod Limit
pub mod Speaking
pub mod Trial
pub mod Exchange
pub mod Arrival
pub mod Delivery
pub mod Dialogue
pub mod Outcomes
pub mod Manager
pub mod Coding
pub mod Packing
mod Examples
use yoop.Base.{
  ℕ, ◌+◌, ◌*◌, ◌/◌, ◌%◌, ◌^◌, ◌≡◌, Bool, true, false, ◌||◌, Option, none, some, List, [], ◌∷◌, ◌++◌,
  ltb, ◌==◌, if◌then◌else◌, length, ℕ_discrete, lookup, insert,
}
use yoop.Base.Decimal.{to_string}
use yoop.Storage.{Text}
use yoop.Files.{FileMetadata}

pub record ResumeState : Type 0 where
  pub transfer_id : ℕ
  pub code : Text
  pub files : List FileMetadata
  pub completed_chunks : List (ℕ × List ℕ)
  pub completed_file_hashes : List (ℕ × Text)
  pub sender_device : Text
  pub sender_device_id : ℕ
  pub output_dir : Text
  pub started_at : ℕ
  pub updated_at : ℕ
  pub bytes_received : ℕ
  pub total_bytes : ℕ
  pub protocol_version : Text

sum_sizes : List FileMetadata → ℕ
sum_sizes [] = 0
sum_sizes (f ∷ files) = f.size + sum_sizes files

-- `now` is the clock; the version of the protocol is 1.0; sums of 64-bit numbers wrap in a release
-- build.
unfoldable pub new_state : ℕ → ℕ → Text → List FileMetadata → Text → ℕ → Text → ResumeState
unfolding sum_sizes
new_state now transfer_id code files sender_device sender_device_id output_dir = record {
  transfer_id = transfer_id;
  code = code;
  files = files;
  completed_chunks = [];
  completed_file_hashes = [];
  sender_device = sender_device;
  sender_device_id = sender_device_id;
  output_dir = output_dir;
  started_at = now;
  updated_at = now;
  bytes_received = 0;
  total_bytes = sum_sizes files % 2 ^ 64;
  protocol_version = b'1' ∷ b'.' ∷ b'0' ∷ [];
}

pub contains : List ℕ → ℕ → Bool
contains [] n = false
contains (x ∷ xs) n = x == n || contains xs n

-- `get_completed_chunks`, and what `entry(file_index).or_default()` gives
unfoldable pub get_completed_chunks : ℕ → ResumeState → List ℕ
get_completed_chunks file_index state = elim (lookup ℕ_discrete file_index state.completed_chunks) [
  | none ↦ []
  | some chunks ↦ chunks
]

unfoldable pub mark_chunk_completed : ℕ → ℕ → ℕ → ℕ → ResumeState → ResumeState
unfolding contains
mark_chunk_completed now file_index chunk_index chunk_size state =
    let chunks = get_completed_chunks file_index state in
    if contains chunks chunk_index
    then record state {
      completed_chunks = insert ℕ_discrete file_index chunks state.completed_chunks;
      updated_at = now;
    }
    else record state {
      completed_chunks =
          insert ℕ_discrete file_index (chunks ++ chunk_index ∷ []) state.completed_chunks;
      bytes_received = (state.bytes_received + chunk_size) % 2 ^ 64;
      updated_at = now;
    }

-- `{:02x}` of each byte
hex_digit : ℕ → ℕ
hex_digit d = if ltb d 10 then b'0' + d else 87 + d

hex : List ℕ → Text
hex [] = []
hex (b ∷ bytes) = hex_digit (b / 16) ∷ hex_digit (b % 16) ∷ hex bytes

unfoldable pub mark_file_completed : ℕ → ℕ → List ℕ → ResumeState → ResumeState
unfolding hex hex_digit
mark_file_completed now file_index sha256_hash state = record state {
  completed_file_hashes =
      insert ℕ_discrete file_index (hex sha256_hash) state.completed_file_hashes;
  updated_at = now;
}

unfoldable pub is_file_completed : ℕ → ResumeState → Bool
is_file_completed file_index state =
    elim (lookup ℕ_discrete file_index state.completed_file_hashes) [ none ↦ false | some _ ↦ true ]

unfoldable pub is_transfer_completed : ResumeState → Bool
is_transfer_completed state = length state.completed_file_hashes == length state.files
