-- ===== src/Transfer/Resumption.antt =====
-- crates/yoop-core/src/transfer/mod.rs: what a resume state counts.
use yoop.Base.{
  ℕ, ◌+◌, ◌%◌, ◌^◌, ◌≡◌, refl, sym, ap, ◌∙◌, true, false, Option, none, some, List, [], ◌∷◌, ◌++◌,
  ◌==◌, if◌then◌else◌, arith, ℕ_discrete, lookup, insert, Distinct, insert-Distinct, lookup-insert,
  ite, ◌&&◌, ◌||◌, Bool-cases, Option-cases, inl, inr,
}
use yoop.Storage.{Text}
use yoop.Files.{FileMetadata}
use yoop.Transfer.{ResumeState, new_state, contains, get_completed_chunks, mark_chunk_completed}

abbrev pub NoRepeat : List ℕ → Type 0
NoRepeat [] = Unit {0}
NoRepeat (n ∷ ns) = (contains ns n ≡ false) × NoRepeat ns

contains-push :
    (ns : List ℕ) (n m : ℕ) → contains (ns ++ n ∷ []) m ≡ (if n == m then true else contains ns m)
unfolding contains
contains-push [] n m = ground arith
contains-push (x ∷ ns) n m = ground (arith, contains-push ns n m)

push-NoRepeat :
    (ns : List ℕ) (n : ℕ) → contains ns n ≡ false → NoRepeat ns → NoRepeat (ns ++ n ∷ [])
unfolding contains
push-NoRepeat [] n h r = ground arith
push-NoRepeat (x ∷ ns) n h r = ground (arith, h, r.0, r.1, push-NoRepeat ns n, contains-push ns n x)

contains-known :
    (ns : List ℕ) (n : ℕ)
    → contains ns n ≡ true
    → (m : ℕ) → contains ns m ≡ (if n == m then true else contains ns m)
contains-known ns n h m = elim (ℕ_discrete n m) [
  | yes p ↦ ground (arith, sym (ap (contains ns) p) ∙ h)
  | no p ↦ ground (arith, p)
]

module _ (size : (file_index chunk_index : ℕ) → ℕ) where
  abbrev pub size_of_chunks : ℕ → List ℕ → ℕ
  size_of_chunks i [] = 0
  size_of_chunks i (c ∷ cs) = size i c + size_of_chunks i cs

  abbrev pub size_of_all : List (ℕ × List ℕ) → ℕ
  size_of_all [] = 0
  size_of_all ((i, cs) ∷ m) = size_of_chunks i cs + size_of_all m

  size_of_chunks-push :
      (i : ℕ) (cs : List ℕ) (c : ℕ)
      → size_of_chunks i (cs ++ c ∷ []) ≡ size_of_chunks i cs + size i c
  size_of_chunks-push i [] c = omega arith
  size_of_chunks-push i (x ∷ cs) c = omega (arith, size_of_chunks-push i cs c)

  -- What a file's chunks are when the table has none
  abbrev chunks_or : Option (List ℕ) → List ℕ
  chunks_or none = []
  chunks_or (some cs) = cs

  size_of_all-insert :
      (i : ℕ) (cs : List ℕ) (m : List (ℕ × List ℕ))
      → size_of_all (insert ℕ_discrete i cs m)
          + size_of_chunks i (chunks_or (lookup ℕ_discrete i m))
        ≡ size_of_all m + size_of_chunks i cs
  unfolding insert lookup
  size_of_all-insert i cs [] = omega arith
  size_of_all-insert i cs ((j, x) ∷ m) = ground (arith, size_of_all-insert i cs m)

  -- One list of chunks for each file, with no chunk twice, and the bytes received are those of the
  -- chunks, as a 64-bit number.
  pub record IsConsistent (state : ResumeState) : Type 0 where
    pub table : Distinct ℕ_discrete state.completed_chunks
    pub no_repeat : (i : ℕ) → NoRepeat (get_completed_chunks i state)
    pub counted : state.bytes_received ≡ size_of_all state.completed_chunks % 2 ^ 64

  get-insert :
      (i j now bytes : ℕ) (cs : List ℕ) (state : ResumeState)
      → get_completed_chunks j (record state {
        completed_chunks = insert ℕ_discrete i cs state.completed_chunks;
        bytes_received = bytes;
        updated_at = now;
      })
        ≡ ite (ℕ_discrete i j) cs (get_completed_chunks j state)
  unfolding get_completed_chunks
  get-insert i j now bytes cs state =
      ground (arith, lookup-insert ℕ_discrete i j cs state.completed_chunks)

  all_insert :
      (i : ℕ) (cs : List ℕ) (state : ResumeState)
      → size_of_all (insert ℕ_discrete i cs state.completed_chunks)
          + size_of_chunks i (get_completed_chunks i state)
        ≡ size_of_all state.completed_chunks + size_of_chunks i cs
  unfolding get_completed_chunks
  all_insert i cs state = elim (Option-cases (lookup ℕ_discrete i state.completed_chunks)) [
    | inl h ↦ ground (arith, h, size_of_all-insert i cs state.completed_chunks)
    | inr (old, h) ↦ ground (arith, h, size_of_all-insert i cs state.completed_chunks)
  ]

  marked :
      (now i c : ℕ) (state : ResumeState)
      → (bytes : ℕ) × (cs : List ℕ) × (mark_chunk_completed now i c (size i c) state
          ≡ record state {
            completed_chunks = insert ℕ_discrete i cs state.completed_chunks;
            bytes_received = bytes;
            updated_at = now;
          })
        × ((d : ℕ)
            → contains cs d ≡ (if c == d then true else contains (get_completed_chunks i state) d))
        × (NoRepeat (get_completed_chunks i state) → NoRepeat cs)
        × (state.bytes_received ≡ size_of_all state.completed_chunks % 2 ^ 64
            → bytes ≡ size_of_all (insert ℕ_discrete i cs state.completed_chunks) % 2 ^ 64)
  unfolding mark_chunk_completed
  marked now i c state =
      let old = get_completed_chunks i state in
      elim (Bool-cases (contains old c)) [
        | inl h ↦ (
          state.bytes_received,
          old,
          rw h refl,
          contains-known old c h,
          λ r. r,
          λ b. omega (arith, b, all_insert i old state),
        )
        | inr h ↦ (
          (state.bytes_received + size i c) % 2 ^ 64,
          old ++ c ∷ [],
          rw h refl,
          contains-push old c,
          push-NoRepeat old c h,
          λ b. omega (arith, b, all_insert i (old ++ c ∷ []) state, size_of_chunks-push i old c),
        )
      ]

  -- A chunk that arrives is among those of its file, also if it arrives again; no other chunk is
  -- added or lost, none stands twice, and the bytes received stay those of the chunks.
  pub mark_chunk_completed-IsConsistent :
      (now i c : ℕ) (state : ResumeState)
      → IsConsistent state
      → let after = mark_chunk_completed now i c (size i c) state in
        IsConsistent after
        × ((j d : ℕ)
            → contains (get_completed_chunks j after) d
              ≡ ((i == j && c == d) || contains (get_completed_chunks j state) d))
  mark_chunk_completed-IsConsistent now i c state v =
      let (bytes, cs, e, known, once, counts) = marked now i c state in
      rw e (
        record {
          table = insert-Distinct ℕ_discrete i cs state.completed_chunks v.table;
          no_repeat = λ j.
              rw (get-insert i j now bytes cs state)
                (ground (arith, once (v.no_repeat i), v.no_repeat j));
          counted = counts v.counted;
        },
        λ j d. rw (get-insert i j now bytes cs state) (ground (arith, known d)),
      )

  -- A new state is consistent: nothing was received.
  pub new_state-IsConsistent :
      (now transfer_id : ℕ) (code : Text) (files : List FileMetadata) (sender_device : Text)
      (sender_device_id : ℕ) (output_dir : Text)
      → IsConsistent
          (new_state now transfer_id code files sender_device sender_device_id output_dir)
  unfolding new_state get_completed_chunks lookup
  new_state-IsConsistent now transfer_id code files sender_device sender_device_id output_dir =
      record { table = tt; no_repeat = λ i. tt; counted = omega arith }
