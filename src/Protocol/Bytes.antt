-- ===== src/Protocol/Bytes.antt =====
-- Integers as big-endian bytes: `to_be_bytes` and `from_be_bytes` of Rust's unsigned types, for
-- every width in bytes.
use Prim.Native.Nat.add
use Prim.Native.Nat.{◌*◌, ◌/◌, ◌%◌, ◌^◌}
use mathlib.Core.List.{foldl, foldl-append, append-nil, append_assoc}
use native.Mathlib.Nat.{pow-suc}
use yoop.Base.{
  ℕ, zero, suc, ◌+◌, ◌≤◌, ◌<◌, ◌≡◌, refl, ◌∙◌, List, [], ◌∷◌, ◌++◌, arith, length, length-append,
  All, All-append,
}

abbrev pub IsByte : ℕ → Type 0
IsByte b = b < 256

unfoldable pub to_be_bytes : ℕ → ℕ → List ℕ
to_be_bytes zero n = []
to_be_bytes (suc w) n = to_be_bytes w (n / 256) ++ (n % 256 ∷ [])

abbrev push_byte : ℕ → ℕ → ℕ
push_byte acc b = acc * 256 + b

unfoldable pub from_be_bytes : List ℕ → ℕ
from_be_bytes = foldl push_byte 0

pub length-to_be_bytes : (w n : ℕ) → length (to_be_bytes w n) ≡ w
unfolding to_be_bytes
length-to_be_bytes zero n = refl
length-to_be_bytes (suc w) n =
    omega (
      arith,
      length-append (to_be_bytes w (n / 256)) (n % 256 ∷ []),
      length-to_be_bytes w (n / 256),
    )

pub to_be_bytes-IsByte : (w n : ℕ) → All IsByte (to_be_bytes w n)
unfolding to_be_bytes
to_be_bytes-IsByte zero n = tt
to_be_bytes-IsByte (suc w) n =
    All-append IsByte (to_be_bytes w (n / 256)) (n % 256 ∷ []) (to_be_bytes-IsByte w (n / 256))
      (omega arith, tt)

from_be_bytes-snoc :
    (xs : List ℕ) (b : ℕ) → from_be_bytes (xs ++ b ∷ []) ≡ from_be_bytes xs * 256 + b
unfolding from_be_bytes
from_be_bytes-snoc xs b = rw foldl-append

-- A number that fits in `w` bytes is read back.
pub from-to_be_bytes : (w n : ℕ) → n < 256 ^ w → from_be_bytes (to_be_bytes w n) ≡ n
unfolding to_be_bytes
from-to_be_bytes zero n h = unfold from_be_bytes in omega arith
from-to_be_bytes (suc w) n h = omega (
  arith,
  from_be_bytes-snoc (to_be_bytes w (n / 256)) (n % 256),
  from-to_be_bytes w (n / 256) (omega (arith, pow-suc 256 w)),
)

-- What the bytes of `xs` add to the bytes of an accumulator.
to_be_bytes-push :
    (xs : List ℕ) (w acc n : ℕ)
    → All IsByte xs
    → n ≡ length xs + w
    → to_be_bytes n (foldl push_byte acc xs) ≡ to_be_bytes w acc ++ xs
to_be_bytes-push [] w acc n h e = rw (append-nil, e, add.zero w)
to_be_bytes-push (x ∷ xs) w acc n h e =
    to_be_bytes-push xs (suc w) (acc * 256 + x) n h.1 (omega arith) ∙ split
  where
    high : (acc * 256 + x) / 256 ≡ acc
    high = omega (arith, h.0)

    low : (acc * 256 + x) % 256 ≡ x
    low = omega (arith, h.0)

    split : to_be_bytes (suc w) (acc * 256 + x) ++ xs ≡ to_be_bytes w acc ++ (x ∷ xs)
    split = unfold to_be_bytes in rw (high, low, append_assoc)

-- Bytes are written again as they were read.
pub to-from_be_bytes :
    (w : ℕ) (xs : List ℕ) → All IsByte xs → length xs ≡ w → to_be_bytes w (from_be_bytes xs) ≡ xs
unfolding from_be_bytes
to-from_be_bytes w xs h e = to_be_bytes-push xs 0 0 w h (omega (arith, e)) ∙ empty
  where
    empty : to_be_bytes 0 0 ++ xs ≡ xs
    empty = unfold to_be_bytes in refl

byte_room : (a b q : ℕ) → a ≤ b → a * q ≤ b * q
byte_room a b q h = grind arith

push_byte-lt :
    (xs : List ℕ) (w acc : ℕ)
    → All IsByte xs
    → length xs ≡ w
    → foldl push_byte acc xs < (acc + 1) * 256 ^ w
push_byte-lt [] w acc h e = rw (← e) (omega arith)
push_byte-lt (x ∷ xs) zero acc h e = absurd (omega (arith, e))
push_byte-lt (x ∷ xs) (suc w) acc h e = rw (pow-suc 256 w) (
    omega (
      arith,
      push_byte-lt xs w (acc * 256 + x) h.1 (omega (arith, e)),
      byte_room (acc * 256 + x + 1) (acc * 256 + 256) (256 ^ w) (omega (arith, h.0)),
    ))

-- A number that is read from `w` bytes fits in them.
pub from_be_bytes-lt :
    (w : ℕ) (xs : List ℕ) → All IsByte xs → length xs ≡ w → from_be_bytes xs < 256 ^ w
unfolding from_be_bytes
from_be_bytes-lt w xs h e = omega (arith, push_byte-lt xs w 0 h e)
