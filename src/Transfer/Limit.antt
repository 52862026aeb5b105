-- ===== src/Transfer/Limit.antt =====
-- crates/yoop-core/src/protocol/mod.rs: the limit on the payload of a frame that is read, for the two
-- sides of a connection.
use yoop.Base.{
  ◌≡◌, refl, ap, ◌∙◌, Bool, true, false, List, [], ◌∷◌, ◌++◌, leb, length, err, protocol_error,
  payload_too_large, Error, arith,
}
use yoop.Protocol.{max_payload_size}
use yoop.Transfer.Wire.{Frame, Program, write_frame, read_frame, done, Transition}
use yoop.Transfer.Network.{run}
use yoop.Transfer.Peers.{advance, answers}

abbrev pub is_within : Frame → Bool
is_within frame = leb (length frame.1) max_payload_size

abbrev pub too_large : Frame → Error
too_large frame = protocol_error (payload_too_large (length frame.1))

-- The error of `read_frame` ends the program.
unfoldable pub limited : {A : Type 0} → Program A → Program A
limited (done r) = done r
limited (write_frame f s) = write_frame f (limited s)
limited (read_frame k) =
    read_frame (λ f. elim (is_within f) [ true ↦ limited (k f) | false ↦ done (err (too_large f)) ])

-- A state machine that reads: `stop` is what a frame that is refused makes of it.
unfoldable pub limited_move :
    {Phase Disk : Type 0}
    → (Phase → Frame → Disk → Transition Phase Disk)
    → (Phase → Frame → Phase)
    → Phase
    → Frame
    → Disk
    → Transition Phase Disk
limited_move move stop p f d = elim (is_within f) [
  | true ↦ move p f d
  | false ↦ record { phase = stop p f; disk = d; written = [] }
]

pub both : (b c : Bool) → (elim b [ true ↦ c | false ↦ false ]) ≡ true → (b ≡ true) × (c ≡ true)
both true c h = (refl, h)
both false c h = absurd (ground (arith, h))

module _ {A Phase Disk : Type 0} (move : Phase → Frame → Disk → Transition Phase Disk) where
  -- Whether every frame that the two sides exchange is within the limit
  unfoldable pub all_within : Program A → Phase → Disk → List Frame → Bool
  all_within (done r) p d o = true
  all_within (write_frame f s) p d o = elim (is_within f) [
    | true ↦ all_within s (move p f d).phase (move p f d).disk (o ++ (move p f d).written)
    | false ↦ false
  ]
  all_within (read_frame k) p d [] = true
  all_within (read_frame k) p d (f ∷ o) = elim (is_within f) [
    | true ↦ all_within (k f) p d o
    | false ↦ false
  ]

  -- Then the limit changes nothing.
  module _ (checked : Phase → Frame → Disk → Transition Phase Disk) (g : Phase → Phase)
      (same : (p : Phase) (f : Frame) (d : Disk)
        → is_within f ≡ true
        → checked (g p) f d ≡ record {
          phase = g (move p f d).phase;
          disk = (move p f d).disk;
          written = (move p f d).written;
        }) where
    pub run-limited :
        (s : Program A) (p : Phase) (d : Disk) (o : List Frame)
        → all_within s p d o ≡ true
        → run A Phase Disk checked (limited s) (g p) d o
          ≡ (let r = run A Phase Disk move s p d o in (r.0, g r.1, r.2, r.3))
    unfolding all_within limited run
    run-limited (done r) p d o h = refl
    run-limited (write_frame f s) p d o h =
        let (within, rest) = both (is_within f) _ h in
        ap
          (λ (m : Transition Phase Disk).
            run A Phase Disk checked (limited s) m.phase m.disk (o ++ m.written))
          (same p f d within)
        ∙ run-limited s (move p f d).phase (move p f d).disk (o ++ (move p f d).written) rest
    run-limited (read_frame k) p d [] h = refl
    run-limited (read_frame k) p d (f ∷ o) h =
        let (within, rest) = both (is_within f) _ h in
        ap
          (λ b.
            run A Phase Disk checked
              (elim b [ true ↦ limited (k f) | false ↦ done (err (too_large f)) ]) (g p) d o)
          within
        ∙ run-limited (k f) p d o rest

-- The side that reads first, when it is a program
pub advance-limited :
    {A : Type 0} (s : Program A) → advance (limited s) ≡ (limited (advance s).0, (advance s).1)
unfolding advance limited
advance-limited (done r) = refl
advance-limited (write_frame f s) =
    ap (λ (a : Program _ × List Frame). (a.0, f ∷ a.1)) (advance-limited s)
advance-limited (read_frame k) = refl

abbrev shown : {A : Type 0} → Program A × List Frame → Unit {0} → Transition (Program A) (Unit {0})
shown a d = record { phase = a.0; disk = d; written = a.1 }

pub answers-limited :
    {A : Type 0} (s : Program A) (f : Frame) (d : Unit {0})
    → is_within f ≡ true
    → answers (limited s) f d ≡ record {
      phase = limited (answers s f d).phase;
      disk = (answers s f d).disk;
      written = (answers s f d).written;
    }
unfolding answers limited
answers-limited (done r) f d h = refl
answers-limited (write_frame g s) f d h = refl
answers-limited (read_frame k) f d h =
    ap (λ b. shown (advance (elim b [ true ↦ limited (k f) | false ↦ done (err (too_large f)) ])) d)
      h
    ∙ ap (λ a. shown a d) (advance-limited (k f))

pub limited_move-within :
    {Phase Disk : Type 0} (move : Phase → Frame → Disk → Transition Phase Disk)
    (stop : Phase → Frame → Phase) (p : Phase) (f : Frame) (d : Disk)
    → is_within f ≡ true
    → limited_move move stop p f d ≡ move p f d
unfolding limited_move
limited_move-within move stop p f d h =
    ap
      (λ b. elim b [
        | true ↦ move p f d
        | false ↦ record { phase = stop p f; disk = d; written = [] }
      ])
      h
