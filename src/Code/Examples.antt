-- ===== src/Code/Examples.antt =====
-- Tests of code/mod.rs, and the theorems about it at concrete inputs.
use yoop.Base.{
  ℕ, ◌≡◌, refl, false, List, [], ◌∷◌, ◌++◌, map, arith, length, All, ok, err, invalid_code_format,
  wrong_length, invalid_character,
}
use yoop.Code.{
  Unicode, ascii_whitespace, ascii_uppercase, in_charset, ShareCode, parse, generate, code_length,
  byte_len,
}
use yoop.Code.Parsing.{InCharset, parse_typed, parse_sound, parse_low_bytes}
use yoop.Code.Generating.{generate_valid}

-- Unicode's tables for ASCII, and every other character its own upper case.
abbrev ascii_tables : Unicode
ascii_tables = record {
  is_whitespace = ascii_whitespace;
  uppercase = λ c. ascii_uppercase c ∷ [];
  whitespace_of_ascii = λ c h. refl;
  uppercase_of_ascii = λ c h. refl;
}

abbrev a7k9 : List ℕ
a7k9 = b'A' ∷ b'7' ∷ b'K' ∷ b'9' ∷ []

abbrev typed : List ℕ
typed = b'a' ∷ b'7' ∷ b'k' ∷ b'9' ∷ []

test_lower_case :
    parse ascii_tables (b' ' ∷ b'a' ∷ b'7' ∷ b'k' ∷ b'9' ∷ []) ≡ ok (record { code = a7k9 })
unfolding parse byte_len in_charset
test_lower_case = refl

test_too_short : parse ascii_tables (b'A' ∷ b'7' ∷ []) ≡ err (invalid_code_format (wrong_length 2))
unfolding parse byte_len in_charset
test_too_short = refl

test_ambiguous :
    parse ascii_tables (b'A' ∷ b'0' ∷ b'K' ∷ b'9' ∷ [])
    ≡ err (invalid_code_format (invalid_character b'0'))
unfolding parse byte_len in_charset
test_ambiguous = refl

parse_typed_example :
    parse ascii_tables ((b' ' ∷ []) ++ (typed ++ 10 ∷ []))
    ≡ ok (record { code = map ascii_uppercase typed })
unfolding in_charset
parse_typed_example =
    parse_typed ascii_tables (b' ' ∷ []) typed (10 ∷ []) ((omega arith, refl), tt)
      ((omega arith, refl), tt) (omega arith) (refl, (refl, (refl, (refl, tt)))) refl

parse_sound_example :
    (length a7k9 ≡ code_length)
    × All InCharset a7k9
    × (parse ascii_tables a7k9 ≡ ok (record { code = a7k9 }))
unfolding parse byte_len in_charset
parse_sound_example = parse_sound ascii_tables typed (record { code = a7k9 }) (omega arith) refl

-- U+0132 and U+0141, both upper-case letters
parse_low_bytes_example :
    (parse ascii_tables (0x132 ∷ 0x141 ∷ []) ≡ ok (record { code = 0x132 ∷ 0x141 ∷ [] }))
    × (in_charset 0x132 ≡ false)
    × (in_charset 0x141 ≡ false)
unfolding in_charset
parse_low_bytes_example =
    parse_low_bytes ascii_tables 0x132 0x141 (omega arith, omega arith) (omega arith, omega arith)
      (refl, refl) (refl, refl) refl refl

abbrev draws : List ℕ
draws = 8 ∷ 5 ∷ 16 ∷ 7 ∷ []

generate_valid_example :
    (c : ShareCode) × (generate ascii_tables draws ≡ ok c)
    × (length c.code ≡ code_length)
    × All InCharset c.code
generate_valid_example = generate_valid ascii_tables draws (omega arith) refl
