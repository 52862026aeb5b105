-- ===== src/Protocol/Frames.antt =====
-- crates/yoop-core/src/protocol/mod.rs: frame headers and streams of frames are read back as they
-- were written.
use yoop.Base.{
  ℕ, zero, suc, ◌^◌, ◌≤◌, ◌<◌, ◌≡◌, refl, sym, ap, ◌∙◌, true, List, [], ◌∷◌, ◌++◌, map, arith,
  length, take, drop, All, length-append, take-append, drop-append,
}
use yoop.Base.{Result, ok, err, ◌>>=◌, protocol_error, payload_too_large}
use mathlib.Core.List.{append_assoc, append-nil}
use yoop.Protocol.{
  FrameHeader, header_size, max_payload_size, slice, same_bytes, encode_header, decode_header,
  read_exact, read_frame, frame_header, write_frame,
}
use yoop.Protocol.Message.{MessageType, from_byte-as_byte, as_byte-from_byte}
use yoop.Protocol.Bytes.{
  IsByte, to_be_bytes, from_be_bytes, length-to_be_bytes, from-to_be_bytes, to-from_be_bytes,
}

-- What a header must satisfy to be accepted: a payload within the limit.
abbrev pub IsAcceptable : FrameHeader → Type 0
IsAcceptable h = h.payload_length ≤ max_payload_size

length_field : (h : FrameHeader) → slice (encode_header h) 7 4 ≡ to_be_bytes 4 h.payload_length
unfolding encode_header to_be_bytes
length_field h = refl

-- A header within the payload limit is read back from its encoding.
pub decode-encode_header :
    (h : FrameHeader) → IsAcceptable h → decode_header (encode_header h) ≡ ok h
unfolding decode_header encode_header
decode-encode_header h fits = rw (from_byte-as_byte h.message_type) (
    rw (length_field h)
      (rw (from-to_be_bytes 4 h.payload_length (omega (arith, fits))) (ground arith)))

same_bytes→eq : (xs ys : List ℕ) → same_bytes xs ys ≡ true → xs ≡ ys
unfolding same_bytes
same_bytes→eq [] [] h = refl
same_bytes→eq [] (y ∷ ys) h = cc
same_bytes→eq (x ∷ xs) [] h = cc
same_bytes→eq (x ∷ xs) (y ∷ ys) h = ground (arith, same_bytes→eq xs ys)

length-zero : (xs : List ℕ) → length xs ≡ 0 → xs ≡ []
length-zero [] e = refl
length-zero (x ∷ xs) e = absurd (omega (arith, e))

take-length : (n : ℕ) (xs : List ℕ) → length xs ≡ n → take n xs ≡ xs
take-length zero [] e = refl
take-length zero (x ∷ xs) e = absurd (omega (arith, e))
take-length (suc n) [] e = refl
take-length (suc n) (x ∷ xs) e = ap (λ ys. x ∷ ys) (take-length n xs (omega (arith, e)))

-- A buffer of the header's size, byte by byte.
encode-decode_bytes :
    (m0 m1 m2 m3 v0 v1 t : ℕ) (len : List ℕ) (h : FrameHeader)
    → All IsByte len
    → length len ≡ 4
    → decode_header (m0 ∷ m1 ∷ m2 ∷ m3 ∷ v0 ∷ v1 ∷ t ∷ len) ≡ ok h
    → encode_header h ≡ m0 ∷ m1 ∷ m2 ∷ m3 ∷ v0 ∷ v1 ∷ t ∷ len
unfolding decode_header encode_header same_bytes
encode-decode_bytes m0 m1 m2 m3 v0 v1 t len h bytes four e =
    let whole : take 4 len ≡ len = take-length 4 len four in
    ground (
      arith,
      whole,
      e,
      as_byte-from_byte t h.message_type,
      ap from_be_bytes whole,
      to-from_be_bytes 4 len bytes four,
    )

accepted-IsAcceptable : (buf : List ℕ) (h : FrameHeader) → decode_header buf ≡ ok h → IsAcceptable h
unfolding decode_header
accepted-IsAcceptable buf h e = ground arith

-- A header that is read from eleven bytes is within the payload limit, and its encoding is these
-- bytes.
pub encode-decode_header :
    (buf : List ℕ) (h : FrameHeader)
    → All IsByte buf
    → length buf ≡ header_size
    → decode_header buf ≡ ok h
    → (encode_header h ≡ buf) × IsAcceptable h
encode-decode_header [] h bytes e d = absurd (omega (arith, e))
encode-decode_header (x0 ∷ []) h bytes e d = absurd (omega (arith, e))
encode-decode_header (x0 ∷ x1 ∷ []) h bytes e d = absurd (omega (arith, e))
encode-decode_header (x0 ∷ x1 ∷ x2 ∷ []) h bytes e d = absurd (omega (arith, e))
encode-decode_header (x0 ∷ x1 ∷ x2 ∷ x3 ∷ []) h bytes e d = absurd (omega (arith, e))
encode-decode_header (x0 ∷ x1 ∷ x2 ∷ x3 ∷ x4 ∷ []) h bytes e d = absurd (omega (arith, e))
encode-decode_header (x0 ∷ x1 ∷ x2 ∷ x3 ∷ x4 ∷ x5 ∷ []) h bytes e d = absurd (omega (arith, e))
encode-decode_header (m0 ∷ m1 ∷ m2 ∷ m3 ∷ v0 ∷ v1 ∷ t ∷ len) h bytes e d = (
  encode-decode_bytes m0 m1 m2 m3 v0 v1 t len h bytes.1.1.1.1.1.1.1 (omega (arith, e)) d,
  accepted-IsAcceptable _ h d,
)

read_exact-append : (n : ℕ) (xs ys : List ℕ) → length xs ≡ n → read_exact n (xs ++ ys) ≡ ok (xs, ys)
unfolding read_exact
read_exact-append n xs ys e =
    rw (← e) (ground (arith, length-append xs ys, take-append xs ys, drop-append xs ys))

length-encode_header : (h : FrameHeader) → length (encode_header h) ≡ header_size
unfolding encode_header
length-encode_header h = omega (arith, length-to_be_bytes 4 h.payload_length)

-- The stream that begins with a frame.
framed : FrameHeader → List ℕ → List ℕ → List ℕ
framed h payload rest = encode_header h ++ (payload ++ rest)

frame_header-IsAcceptable :
    (m : MessageType) (payload : List ℕ)
    → length payload ≤ max_payload_size
    → (frame_header m payload).payload_length ≡ length payload
unfolding frame_header
frame_header-IsAcceptable m payload h = omega (arith, h)

read_frame-framed :
    (h : FrameHeader) (payload rest : List ℕ)
    → IsAcceptable h
    → h.payload_length ≡ length payload
    → read_frame (framed h payload rest) ≡ ok ((h, payload), rest)
unfolding read_frame framed
read_frame-framed h payload rest fits e =
    rw (read_exact-append header_size (encode_header h) (payload ++ rest) (length-encode_header h))
      (rw (decode-encode_header h fits) (
        rw (read_exact-append h.payload_length payload rest (sym e))
          (ground (arith, length-zero payload))))

-- `n` reads, one after the other
abbrev pub read_frames : ℕ → List ℕ → Result (List (FrameHeader × List ℕ) × List ℕ)
read_frames zero input = ok ([], input)
read_frames (suc n) input = do
  (frame, rest) ← read_frame input
  (frames, rest') ← read_frames n rest
  ok (frame ∷ frames, rest')

-- one write for each message
abbrev pub write_frames : List ℕ → List (MessageType × List ℕ) → List ℕ
write_frames output [] = output
write_frames output ((m, payload) ∷ messages) = write_frames (write_frame output m payload) messages

abbrev pub sent : MessageType × List ℕ → FrameHeader × List ℕ
sent (m, payload) = (frame_header m payload, payload)

abbrev pub Fits : MessageType × List ℕ → Type 0
Fits (m, payload) = length payload ≤ max_payload_size

-- The bytes that the messages add to a stream.
stream : List (MessageType × List ℕ) → List ℕ
stream [] = []
stream ((m, payload) ∷ messages) = framed (frame_header m payload) payload (stream messages)

write_frames-stream :
    (output : List ℕ) (messages : List (MessageType × List ℕ))
    → write_frames output messages ≡ output ++ stream messages
unfolding stream framed write_frame
write_frames-stream output [] = rw append-nil
write_frames-stream output ((m, payload) ∷ messages) =
    write_frames-stream (write_frame output m payload) messages ∙ simp append_assoc

framed-append :
    (h : FrameHeader) (payload rest more : List ℕ)
    → framed h payload rest ++ more ≡ framed h payload (rest ++ more)
unfolding framed
framed-append h payload rest more = simp append_assoc

read_frames-stream :
    (messages : List (MessageType × List ℕ)) (rest : List ℕ)
    → All Fits messages
    → read_frames (length messages) (stream messages ++ rest) ≡ ok (map sent messages, rest)
unfolding stream
read_frames-stream [] rest h = refl
read_frames-stream ((m, payload) ∷ messages) rest h =
    let same = frame_header-IsAcceptable m payload h.0 in
    rw (framed-append (frame_header m payload) payload (stream messages) rest) (
      rw
        (read_frame-framed (frame_header m payload) payload (stream messages ++ rest)
          (omega (arith, same, h.0)) same)
        (rw (read_frames-stream messages rest h.1) refl))

-- Messages within the payload limit, written one after the other to a stream, are read back from
-- the place where the first one begins, in order, each with its type and payload; what follows
-- them is left for later reads.
pub read-write_frames :
    (output later : List ℕ) (messages : List (MessageType × List ℕ))
    → All Fits messages
    → read_frames (length messages) (drop (length output) (write_frames output messages ++ later))
      ≡ ok (map sent messages, later)
read-write_frames output later messages h = rw (write_frames-stream output messages) (
    rw (append_assoc output (stream messages) later)
      (rw (drop-append output (stream messages ++ later)) (read_frames-stream messages later h)))

header_too_large :
    (h : FrameHeader)
    → h.payload_length < 2 ^ 32
    → max_payload_size < h.payload_length
    → decode_header (encode_header h) ≡ err (protocol_error (payload_too_large h.payload_length))
unfolding decode_header encode_header
header_too_large h word large = rw (from_byte-as_byte h.message_type) (
    rw (length_field h)
      (rw (from-to_be_bytes 4 h.payload_length (omega (arith, word))) (ground arith)))

-- A writer does not check the limit that a reader enforces: a payload above it, of a length that
-- fits in 32 bits, is written, and every read of that frame is refused.
pub read_frame_too_large :
    (m : MessageType) (payload rest : List ℕ)
    → max_payload_size < length payload
    → length payload < 2 ^ 32
    → read_frame (write_frame [] m payload ++ rest)
      ≡ err (protocol_error (payload_too_large (length payload)))
unfolding read_frame write_frame frame_header
read_frame_too_large m payload rest large word =
    let h = frame_header m payload in
    rw (append_assoc (encode_header h) payload rest) (
      rw
        (read_exact-append header_size (encode_header h) (payload ++ rest) (length-encode_header h))
        (rw (header_too_large h (omega arith) (omega (arith, large, word)))
          (ground (arith, large, word))))
