-- ===== src/Transfer/Examples.antt =====
-- Runs of a resume state, and of a whole transfer of a file and a directory.
use yoop.Base.{
  io, file_system, List, some, ok, err, ◌≢◌, ◌<◌, ◌^◌, ◌⊎◌, arith, session_error, code_not_found,
  transfer_rejected, lookup, insert, ℕ_discrete, ℕ, ◌≡◌, refl, true, false, ◌&&◌, ◌||◌, [], ◌∷◌,
  ◌==◌,
}
use yoop.Files.Examples.{full_reads, memory, memory-Reliable, constant_hash}
use yoop.Storage.{Text}
use yoop.Transfer.Wire.{done}
use yoop.Transfer.Sender.{find_file_path}
use yoop.Transfer.Receiver.{Phase, complete, declined, failed, await_hello}
use yoop.Transfer.Network.{Net, net, PromptStep, here}
use yoop.Transfer.Limit.{limited}
use yoop.Transfer.Speaking.{said}
use yoop.Protocol.Message as Message
use yoop.Transfer.Trial.{
  photo, note, plain, shared, sharing, willing, unwilling, with_other_code, keyed, digest,
  other_code, other-Within, unwilling-Within, willing-Within,
}
use yoop.Transfer.Packing.{packed, packed_state, state_text}
use yoop.Transfer.Manager.{save, load, cleanup_older_than}
use yoop.Transfer.Manager.Saving.{save_atomic}
use yoop.Transfer.Manager.Cleaning.{cleanup_keeps}
use yoop.Transfer.Manager.Memory.{resume_memory, no_files, all_hold, all_hold-load}
use yoop.Transfer.Outcomes.{
  start, ends, receives, shares, Delivered, code_refused, transfer_declined, transfer_completes,
  interleaved_completes,
}
use yoop.Transfer.{
  ResumeState, new_state, contains, get_completed_chunks, mark_chunk_completed, mark_file_completed,
  is_transfer_completed,
}
use yoop.Transfer.Resumption.{
  IsConsistent, mark_chunk_completed-IsConsistent, new_state-IsConsistent,
}

abbrev chunk_size : ℕ → ℕ → ℕ
chunk_size i c = 10

abbrev fresh : ResumeState
fresh = new_state 1 7 [] (photo ∷ []) [] 8 []

abbrev half : ResumeState
half = mark_chunk_completed 3 0 1 10 (mark_chunk_completed 2 0 1 10 fresh)

half_test : half.bytes_received ≡ 10
unfolding mark_chunk_completed new_state get_completed_chunks lookup insert ℕ_discrete
half_test = refl

complete_test : is_transfer_completed (mark_file_completed 4 0 (255 ∷ 10 ∷ []) half) ≡ true
unfolding is_transfer_completed mark_file_completed mark_chunk_completed new_state
    get_completed_chunks lookup insert ℕ_discrete
complete_test = refl

mark_chunk_completed-IsConsistent_example :
    let after = mark_chunk_completed 2 0 1 10 fresh in
    IsConsistent chunk_size after
    × ((j d : ℕ)
        → contains (get_completed_chunks j after) d
          ≡ ((0 == j && 1 == d) || contains (get_completed_chunks j fresh) d))
mark_chunk_completed-IsConsistent_example =
    mark_chunk_completed-IsConsistent chunk_size 2 0 1 fresh
      (new_state-IsConsistent chunk_size 1 7 [] (photo ∷ []) [] 8 [])

code_refused_example :
    let receives_other =
      receives memory packed constant_hash digest keyed full_reads plain shared with_other_code in
    (ends memory packed constant_hash digest keyed full_reads plain shared with_other_code (
        start memory packed constant_hash digest keyed full_reads plain shared with_other_code 5
          sharing [])
      ≡ (err (session_error code_not_found), failed (session_error code_not_found), [], []))
    × (said receives_other
          (limited (
            shares memory packed constant_hash digest keyed full_reads plain shared with_other_code
              5 sharing))
          await_hello
          []
          []
        ≡ Message.hello ∷ Message.code_verify_ack ∷ [])
code_refused_example =
    code_refused memory packed constant_hash digest keyed full_reads plain shared with_other_code
      sharing 5 [] other_code other-Within

transfer_declined_example :
    ends memory packed constant_hash digest keyed full_reads plain shared unwilling (
      start memory packed constant_hash digest keyed full_reads plain shared unwilling 5 sharing [])
    ≡ (err (session_error transfer_rejected), declined, [], [])
transfer_declined_example =
    transfer_declined memory packed constant_hash digest keyed full_reads plain shared unwilling
      sharing 5 [] refl (omega arith) (λ n below. refl) refl unwilling-Within

hash_word : (xs : List ℕ) → constant_hash xs < 2 ^ 64
hash_word xs = omega arith

directory_ne : true ≡ false → ⊥
directory_ne h = cc

abbrev start_net : Net (Unit {0}) (Phase memory) memory.Disk
start_net =
    start memory packed constant_hash digest keyed full_reads plain shared willing 5 sharing []

note_found : find_file_path shared (b'a' ∷ []) ≡ ok (b'a' ∷ [])
unfolding find_file_path
note_found = refl

transfer_completes_example :
    (e : List (Text × List ℕ)) × (ends memory packed constant_hash digest keyed full_reads plain
        shared willing start_net
      ≡ (ok tt, complete, e, []))
    × Delivered memory packed constant_hash digest keyed full_reads plain shared willing hash_word
        memory-Reliable sharing [] e
transfer_completes_example =
    transfer_completes memory packed constant_hash digest keyed full_reads plain shared willing
      hash_word memory-Reliable sharing 5 [] refl (omega arith) (λ n below. refl) refl (omega arith)
      (
        λ h. (b'a' ∷ [], 1 ∷ 2 ∷ 3 ∷ 4 ∷ 5 ∷ [], note_found, refl, omega arith),
        (λ h. absurd (directory_ne h), tt),
      )
      ((λ h dir. absurd (directory_ne dir), tt), (tt, tt)) willing-Within

interleaved_completes_example :
    (e : List (Text × List ℕ)) × Delivered memory packed constant_hash digest keyed full_reads plain
      shared willing hash_word memory-Reliable sharing [] e
    × (((c : Net (Unit {0}) (Phase memory) memory.Disk) × PromptStep
            (Unit {0})
            (Phase memory)
            memory.Disk
            (receives memory packed constant_hash digest keyed full_reads plain shared willing)
            start_net
            c)
        ⊎ (start_net ≡ net (done (ok tt)) complete e [] []))
interleaved_completes_example =
    interleaved_completes memory packed constant_hash digest keyed full_reads plain shared willing
      hash_word memory-Reliable sharing 5 [] start_net refl (omega arith) (λ n below. refl) refl
      (omega arith)
      (
        λ h. (b'a' ∷ [], 1 ∷ 2 ∷ 3 ∷ 4 ∷ 5 ∷ [], note_found, refl, omega arith),
        (λ h. absurd (directory_ne h), tt),
      )
      ((λ h dir. absurd (directory_ne dir), tt), (tt, tt)) willing-Within here

abbrev interrupted : ResumeState
interrupted = record {
  transfer_id = 7;
  code = [];
  files = note ∷ [];
  completed_chunks = (0, 0 ∷ 1 ∷ []) ∷ [];
  completed_file_hashes = [];
  sender_device = [];
  sender_device_id = 1;
  output_dir = b'o' ∷ [];
  started_at = 10;
  updated_at = 20;
  bytes_received = 4;
  total_bytes = 5;
  protocol_version = [];
}

save_atomic_example :
    let r = save resume_memory packed_state interrupted no_files in
    (((r.0 ≡ ok tt) × (load resume_memory packed_state 7 r.1 ≡ ok (some interrupted)))
      ⊎ ((r.0 ≡ err (io file_system))
          × (load resume_memory packed_state 7 r.1 ≡ load resume_memory packed_state 7 no_files)))
    × ((other : ℕ)
        → other ≢ 7
        → load resume_memory packed_state other r.1
          ≡ load resume_memory packed_state other no_files)
save_atomic_example = save_atomic resume_memory packed_state interrupted no_files

cleanup_keeps_example :
    load resume_memory packed_state 7
      (cleanup_older_than resume_memory packed_state 30 12 (all_hold (state_text interrupted).0)).1
    ≡ ok (some interrupted)
cleanup_keeps_example =
    cleanup_keeps resume_memory packed_state 30 12 7 (all_hold (state_text interrupted).0)
      interrupted
      (all_hold-load packed_state interrupted (state_text interrupted).0 7
        (state_text interrupted).1)
      (omega arith)
