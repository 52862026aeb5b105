-- ===== src/Code.antt =====
-- crates/yoop-core/src/code/mod.rs: share codes. A text is the list of its code points.
pub mod Parsing
pub mod Generating
mod Examples
use mathlib.Core.List.{reverse, flat_map}
use yoop.Base.{
  ℕ, ◌+◌, ◌-◌, ◌%◌, ◌<◌, ◌≤◌, ◌≡◌, Bool, true, false, ◌&&◌, ◌||◌, List, [], ◌∷◌, ◌++◌, map, ltb,
  leb, ◌==◌, if◌then◌else◌, get_or, get_elem?, Result, ok, err, ◌>>=◌, ◌>>◌, invalid_code_format,
  wrong_length, invalid_character,
}

-- What `str::trim` and `str::to_uppercase` look up in Unicode's tables, which are known here only
-- for ASCII.
abbrev pub ascii_whitespace : ℕ → Bool
ascii_whitespace c = (leb 9 c && leb c 13) || c == 32

abbrev pub ascii_uppercase : ℕ → ℕ
ascii_uppercase c = if leb b'a' c && leb c b'z' then c - 32 else c

pub record Unicode : Type 0 where
  pub is_whitespace : ℕ → Bool
  pub uppercase : ℕ → List ℕ
  pub whitespace_of_ascii : (c : ℕ) → c < 128 → is_whitespace c ≡ ascii_whitespace c
  pub uppercase_of_ascii : (c : ℕ) → c < 128 → uppercase c ≡ ascii_uppercase c ∷ []

abbrev pub code_charset : List ℕ
code_charset =
    b'2' ∷ b'3' ∷ b'4' ∷ b'5' ∷ b'6' ∷ b'7' ∷ b'8' ∷ b'9' ∷ b'A' ∷ b'B' ∷ b'C' ∷ b'D' ∷ b'E' ∷ b'F'
    ∷ b'G' ∷ b'H' ∷ b'J' ∷ b'K' ∷ b'M' ∷ b'N' ∷ b'P' ∷ b'Q' ∷ b'R' ∷ b'S' ∷ b'T' ∷ b'U' ∷ b'V'
    ∷ b'W' ∷ b'X' ∷ b'Y' ∷ b'Z' ∷ []

abbrev pub code_length : ℕ
code_length = 4

-- `char::len_utf8`
len_utf8 : ℕ → ℕ
len_utf8 c = if ltb c 0x80 then 1 else if ltb c 0x800 then 2 else if ltb c 0x10000 then 3 else 4

-- `str::len`, in bytes
unfoldable pub byte_len : List ℕ → ℕ
unfolding len_utf8
byte_len [] = 0
byte_len (c ∷ s) = len_utf8 c + byte_len s

contains : List ℕ → ℕ → Bool
contains [] b = false
contains (x ∷ xs) b = x == b || contains xs b

unfoldable pub in_charset : ℕ → Bool
unfolding contains
in_charset = contains code_charset

module _ (u : Unicode) where
  trim_start : List ℕ → List ℕ
  trim_start [] = []
  trim_start (c ∷ s) = let rest = trim_start s in if u.is_whitespace c then rest else c ∷ s

  unfoldable pub trim : List ℕ → List ℕ
  unfolding trim_start
  trim s = reverse (trim_start (reverse (trim_start s)))

  unfoldable pub to_uppercase : List ℕ → List ℕ
  unfolding flat_map
  to_uppercase = flat_map u.uppercase

-- The loop over the characters; `c as u8` keeps the low byte.
check_characters : List ℕ → Result (Unit {0})
check_characters [] = ok tt
check_characters (c ∷ s) =
    if in_charset (c % 256)
    then check_characters s
    else err (invalid_code_format (invalid_character c))

pub record ShareCode : Type 0 where
  pub code : List ℕ

unfoldable pub parse : Unicode → List ℕ → Result ShareCode
unfolding trim to_uppercase check_characters
parse u input =
    let normalized = to_uppercase u (trim u input) in
    if byte_len normalized == code_length
    then (do check_characters normalized; ok (record { code = normalized }))
    else err (invalid_code_format (wrong_length (byte_len normalized)))

-- The indices are the draws `rng.gen_range(0..CODE_CHARSET.len())`, one for each character.
unfoldable pub generate : Unicode → List ℕ → Result ShareCode
generate u draws = parse u (map (λ i. get_or code_charset i 0) draws)
