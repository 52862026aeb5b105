-- ===== src/Transfer/Network.antt =====
-- The two sides of a transfer, crates/yoop-core/src/transfer/mod.rs, and the connection between them:
-- frames arrive in the order in which they were written, and each side runs on its own.
use yoop.Base.{
  ◌≡◌, refl, sym, ap, ◌∙◌, List, [], ◌∷◌, ◌++◌, Result, ok, err, io, unexpected_eof, ◌⊎◌, inl, inr,
}
use yoop.Transfer.Wire.{Frame, Program, Transition, write_frame, read_frame, done}

eof_ne : {A : Type 0} (r : Result A) (a : A) → r ≡ err (io unexpected_eof) → r ≡ ok a → ⊥
eof_ne r a h e = cc

-- `A` is what the first side gives, `Phase` and `Disk` the state of the second.
module _ (A Phase Disk : Type 0) where
  -- The sender, the phase and the disk of the receiver, and the frames under way to either side
  pub data Net : Type 0 where
    net : Program A → Phase → Disk → (to_receiver to_sender : List Frame) → Net

  -- How a transfer ends: the sender's result, the receiver's phase and disk, and frames not read
  abbrev pub Outcome : Type 0
  Outcome = Result A × Phase × Disk × List Frame

  module _ (move : Phase → Frame → Disk → Transition Phase Disk) where
    pub data Step : Net → Net → Type 0 where
      writes :
          (f : Frame) (s : Program A) (p : Phase) (d : Disk) (i o : List Frame)
          → Step (net (write_frame f s) p d i o) (net s p d (i ++ f ∷ []) o)
      handles :
          (s : Program A) (p : Phase) (d : Disk) (f : Frame) (i o : List Frame)
          → Step
              (net s p d (f ∷ i) o)
              (net s (move p f d).phase (move p f d).disk i (o ++ (move p f d).written))
      reads :
          (k : Frame → Program A) (p : Phase) (d : Disk) (i : List Frame) (f : Frame)
          (o : List Frame)
          → Step (net (read_frame k) p d i (f ∷ o)) (net (k f) p d i o)

    pub data Reach (a : Net) : Net → Type 0 where
      here : Reach a a
      next : {b c : Net} → Reach a b → Step b c → Reach a c

    -- The steps of a connection that need not hold more than one frame to the receiver
    pub data PromptStep : Net → Net → Type 0 where
      writes_alone :
          (f : Frame) (s : Program A) (p : Phase) (d : Disk) (o : List Frame)
          → PromptStep (net (write_frame f s) p d [] o) (net s p d (f ∷ []) o)
      handles_next :
          (s : Program A) (p : Phase) (d : Disk) (f : Frame) (i o : List Frame)
          → PromptStep
              (net s p d (f ∷ i) o)
              (net s (move p f d).phase (move p f d).disk i (o ++ (move p f d).written))
      reads_next :
          (k : Frame → Program A) (p : Phase) (d : Disk) (f : Frame) (o : List Frame)
          → PromptStep (net (read_frame k) p d [] (f ∷ o)) (net (k f) p d [] o)

    -- They are steps.
    PromptStep-Step : {a b : Net} → PromptStep a b → Step a b
    PromptStep-Step (writes_alone f s p d o) = writes f s p d [] o
    PromptStep-Step (handles_next s p d f i o) = handles s p d f i o
    PromptStep-Step (reads_next k p d f o) = reads k p d [] f o

    -- The schedule in which the receiver handles each frame at once; a sender that waits for a frame
    -- that will not come meets the end of the stream.
    unfoldable pub run : Program A → Phase → Disk → List Frame → Outcome
    run (done r) p d o = (r, p, d, o)
    run (write_frame f s) p d o =
        run s (move p f d).phase (move p f d).disk (o ++ (move p f d).written)
    run (read_frame k) p d [] = (err (io unexpected_eof), p, d, [])
    run (read_frame k) p d (f ∷ o) = run (k f) p d o

    -- The receiver after it has handled all that is under way to it
    absorb : Phase → Disk → List Frame → List Frame → Phase × Disk × List Frame
    absorb p d [] o = (p, d, o)
    absorb p d (f ∷ i) o = absorb (move p f d).phase (move p f d).disk i (o ++ (move p f d).written)

    abbrev run_absorbed : Program A → Phase × Disk × List Frame → Outcome
    run_absorbed s a = run s a.0 a.1 a.2

    -- How a state ends in that schedule
    unfoldable pub settle : Net → Outcome
    unfolding absorb
    settle (net s p d i o) = run_absorbed s (absorb p d i o)

    absorb-push :
        (p : Phase) (d : Disk) (i : List Frame) (f : Frame) (o : List Frame)
        → let a = absorb p d i o in
          let m = move a.0 f a.1 in absorb p d (i ++ f ∷ []) o ≡ (m.phase, m.disk, a.2 ++ m.written)
    unfolding absorb
    absorb-push p d [] f o = refl
    absorb-push p d (g ∷ i) f o =
        absorb-push (move p g d).phase (move p g d).disk i f (o ++ (move p g d).written)

    absorb-front :
        (p : Phase) (d : Disk) (i : List Frame) (f : Frame) (o : List Frame)
        → let a = absorb p d i o in absorb p d i (f ∷ o) ≡ (a.0, a.1, f ∷ a.2)
    unfolding absorb
    absorb-front p d [] f o = refl
    absorb-front p d (g ∷ i) f o =
        absorb-front (move p g d).phase (move p g d).disk i f (o ++ (move p g d).written)

    Step-settle : {a b : Net} → Step a b → settle a ≡ settle b
    unfolding settle run
    Step-settle (writes f s p d i o) = sym (ap (run_absorbed s) (absorb-push p d i f o))
    Step-settle (handles s p d f i o) = refl
    Step-settle (reads k p d i f o) = ap (run_absorbed (read_frame k)) (absorb-front p d i f o)

    -- However the two sides are interleaved, the transfer ends the same way, if it ends.
    pub Reach-settle : {a b : Net} → Reach a b → settle a ≡ settle b
    Reach-settle here = refl
    Reach-settle (next r st) = Reach-settle r ∙ Step-settle st

    -- Any interleaving in which the sender has ended and nothing is under way to the receiver has ended
    -- as the receiver that handles each frame at once.
    pub Reach-ended :
        {a : Net} {r : Result A} {p : Phase} {d : Disk} {o : List Frame}
        → Reach a (net (done r) p d [] o)
        → settle a ≡ (r, p, d, o)
    unfolding settle absorb run
    Reach-ended h = Reach-settle h

    -- A state that ends well in that schedule has ended, or can go on.
    pub settle-progress :
        (a : Net) (result : A) (p : Phase) (d : Disk) (o : List Frame)
        → settle a ≡ (ok result, p, d, o)
        → ((b : Net) × PromptStep a b) ⊎ (a ≡ net (done (ok result)) p d [] o)
    unfolding settle absorb run
    settle-progress (net s q e (f ∷ i) o') result p d o h = inl (_, handles_next s q e f i o')
    settle-progress (net (write_frame f s) q e [] o') result p d o h =
        inl (_, writes_alone f s q e o')
    settle-progress (net (read_frame k) q e [] (f ∷ o')) result p d o h =
        inl (_, reads_next k q e f o')
    settle-progress (net (read_frame k) q e [] []) result p d o h =
        absurd (eof_ne (err (io unexpected_eof)) result refl (ap (λ x. x.0) h))
    settle-progress (net (done r) q e [] o') result p d o h =
        inr (ap (λ x. net (done x.0) x.1 x.2 [] x.3) h)
