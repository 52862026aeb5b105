-- ===== src/Transfer/Peers.antt =====
-- The side of a connection that reads first, as a state machine: its phase is the program up to the
-- next frame that it reads.
use yoop.Base.{ℕ, ◌≡◌, ap, ◌∙◌, List, [], ◌∷◌, ◌++◌, Result, ok}
use yoop.Protocol.Message.{MessageType}
use yoop.Transfer.Wire.{
  Frame, Program, write_frame, read_frame, Transition, Codec, send, receive, send-encoded,
  take_frame-decoded,
}
use yoop.Transfer.Network.{run}

module _ {A : Type 0} where
  -- What a program writes before it reads
  unfoldable pub advance : Program A → Program A × List Frame
  advance (write_frame f p) = let rest = advance p in (rest.0, f ∷ rest.1)
  advance p = (p, [])

  unfoldable pub answers : Program A → Frame → Unit {0} → Transition (Program A) (Unit {0})
  unfolding advance
  answers (read_frame k) f d =
      let a = advance (k f) in record { phase = a.0; disk = d; written = a.1 }
  answers p f d = record { phase = p; disk = d; written = [] }

  pub advance-send :
      {B : Type 0} (codec : Codec B) (t : MessageType) (b : B) (next : Program A) (payload : List ℕ)
      → codec.encode b ≡ ok payload
      → advance (send codec t b next) ≡ ((advance next).0, (t, payload) ∷ (advance next).1)
  unfolding advance
  advance-send codec t b next payload h =
      ap (λ p. advance p) (send-encoded codec t b next payload h)

  pub answers-receive :
      {B : Type 0} (codec : Codec B) (t : MessageType) (next : B → Program A) (payload : List ℕ)
      (b : B)
      → codec.decode payload ≡ ok b
      → answers (receive codec t next) (t, payload) tt
        ≡ record { phase = (advance (next b)).0; disk = tt; written = (advance (next b)).1 }
  unfolding answers
  answers-receive codec t next payload b h =
      ap (λ (p : Program A). record { phase = (advance p).0; disk = tt; written = (advance p).1 })
        (take_frame-decoded codec t next payload b h)

-- One program against another that reads first
module _ {A B : Type 0} where
  abbrev pub talk :
      Program A → Program B → List Frame → Result A × Program B × Unit {0} × List Frame
  talk p q o = run A (Program B) (Unit {0}) answers p q tt o

  pub talk-receive :
      {C : Type 0} (codec : Codec C) (t : MessageType) (c : C) (next : C → Program A)
      (payload : List ℕ) (q : Program B) (o : List Frame)
      → codec.decode payload ≡ ok c
      → talk (receive codec t next) q ((t, payload) ∷ o) ≡ talk (next c) q o
  unfolding run
  talk-receive codec t c next payload q o h =
      ap (λ p. talk p q o) (take_frame-decoded codec t next payload c h)

  -- What one side sends is handled by the other side, and its answers are under way.
  pub talk-send :
      {C : Type 0} (codec : Codec C) (t : MessageType) (c : C) (next : Program A) (payload : List ℕ)
      (handler : Frame → Program B) (after : Program B) (o : List Frame)
      → codec.encode c ≡ ok payload
      → handler (t, payload) ≡ after
      → talk (send codec t c next) (read_frame handler) o
        ≡ talk next (advance after).0 (o ++ (advance after).1)
  unfolding run answers
  talk-send codec t c next payload handler after o h k =
      ap (λ p. talk p (read_frame handler) o) (send-encoded codec t c next payload h)
      ∙ ap (λ q. talk next (advance q).0 (o ++ (advance q).1)) k
