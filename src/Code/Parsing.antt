-- ===== src/Code/Parsing.antt =====
-- crates/yoop-core/src/code/mod.rs: which texts `parse` accepts, and as which code.
use mathlib.Core.List.{reverse, reverse-append, reverse-reverse, reverse-cons, flat_map, append-nil}
use yoop.Base.{
  ℕ, suc, ◌%◌, ◌<◌, ◌≤◌, ◌≡◌, refl, ap, ◌∙◌, true, false, List, [], ◌∷◌, ◌++◌, map, arith,
  Bool-cases, inl, inr, length, All, All-append, ok,
}
use yoop.Code.{
  Unicode, ascii_whitespace, ascii_uppercase, code_length, byte_len, in_charset, trim_start, trim,
  to_uppercase, check_characters, ShareCode, parse,
}

abbrev pub IsAscii : ℕ → Type 0
IsAscii c = c < 128

abbrev pub InCharset : ℕ → Type 0
InCharset c = in_charset c ≡ true

abbrev pub IsBlank : ℕ → Type 0
IsBlank c = (c < 128) × (ascii_whitespace c ≡ true)

InCharset-bounds : (c : ℕ) → InCharset c → (b'2' ≤ c) × (c ≤ b'Z')
unfolding in_charset
InCharset-bounds c h = ground arith

low_byte : (c : ℕ) → c < 256 → c % 256 ≡ c
low_byte c h = omega arith

module _ {P Q : ℕ → Type 0} (f : (c : ℕ) → P c → Q c) where
  All-imp : (s : List ℕ) → All P s → All Q s
  All-imp [] h = tt
  All-imp (c ∷ s) h = (f c h.0, All-imp s h.1)

All-reverse : (P : ℕ → Type 0) (s : List ℕ) → All P s → All P (reverse s)
All-reverse P [] h = tt
All-reverse P (c ∷ s) h =
    rw (reverse-cons c s) (All-append P (reverse s) (c ∷ []) (All-reverse P s h.1) (h.0, tt))

module _ (u : Unicode) where
  abbrev NotSpace : ℕ → Type 0
  NotSpace c = u.is_whitespace c ≡ false

  abbrev Space : ℕ → Type 0
  Space c = u.is_whitespace c ≡ true

  trim_start-NotSpace : (s : List ℕ) → All NotSpace s → trim_start u s ≡ s
  unfolding trim_start
  trim_start-NotSpace [] h = refl
  trim_start-NotSpace (c ∷ s) h = ground (arith, h.0)

  trim_start-blank : (pre s : List ℕ) → All Space pre → trim_start u (pre ++ s) ≡ trim_start u s
  unfolding trim_start
  trim_start-blank [] s h = refl
  trim_start-blank (c ∷ pre) s h = ground (arith, h.0, trim_start-blank pre s h.1)

  trim_start-stops :
      (t post : List ℕ) → All NotSpace t → 0 < length t → trim_start u (t ++ post) ≡ t ++ post
  unfolding trim_start
  trim_start-stops [] post h n = absurd (omega arith)
  trim_start-stops (c ∷ t) post h n = ground (arith, h.0)

  trim_padded :
      (pre t post : List ℕ)
      → All Space pre
      → All NotSpace t
      → All Space post
      → 0 < length t
      → trim u (pre ++ (t ++ post)) ≡ t
  unfolding trim
  trim_padded pre t post hp ht hq n = rw (trim_start-blank pre (t ++ post) hp) (
      rw (trim_start-stops t post ht n) (
        rw (reverse-append t post) (
          rw (trim_start-blank (reverse post) (reverse t) (All-reverse Space post hq)) (
            rw (trim_start-NotSpace (reverse t) (All-reverse NotSpace t ht)) (reverse-reverse t)))))

  to_uppercase-ascii : (s : List ℕ) → All IsAscii s → to_uppercase u s ≡ map ascii_uppercase s
  unfolding to_uppercase flat_map
  to_uppercase-ascii [] h = refl
  to_uppercase-ascii (c ∷ s) h =
      rw (u.uppercase_of_ascii c h.0) (ap (λ t. ascii_uppercase c ∷ t) (to_uppercase-ascii s h.1))

byte_len-ascii : (s : List ℕ) → All IsAscii s → byte_len s ≡ length s
unfolding byte_len
byte_len-ascii [] h = refl
byte_len-ascii (c ∷ s) h = ground (arith, h.0, byte_len-ascii s h.1)

check-InCharset : (s : List ℕ) → All InCharset s → check_characters s ≡ ok tt
unfolding check_characters
check-InCharset [] h = refl
check-InCharset (c ∷ s) h = ground (
  arith,
  h.0,
  InCharset-bounds c h.0,
  low_byte c,
  ap in_charset (low_byte c (omega (arith, InCharset-bounds c h.0))),
  check-InCharset s h.1,
)

-- A character whose upper case is in the charset is no blank.
upper_not_blank : (c : ℕ) → InCharset (ascii_uppercase c) → ascii_whitespace c ≡ false
upper_not_blank c h = ground (arith, InCharset-bounds (ascii_uppercase c) h)

ascii_uppercase-IsAscii : (c : ℕ) → IsAscii c → IsAscii (ascii_uppercase c)
ascii_uppercase-IsAscii c h = ground (arith, h)

All-map : (P : ℕ → Type 0) (f : ℕ → ℕ) (s : List ℕ) → All (λ c. P (f c)) s → All P (map f s)
All-map P f [] h = tt
All-map P f (c ∷ s) h = (h.0, All-map P f s h.1)

length-map : (f : ℕ → ℕ) (s : List ℕ) → length (map f s) ≡ length s
length-map f [] = refl
length-map f (c ∷ s) = ap suc (length-map f s)

All-both : (P Q : ℕ → Type 0) (s : List ℕ) → All P s → All Q s → All (λ c. P c × Q c) s
All-both P Q [] h k = tt
All-both P Q (c ∷ s) h k = ((h.0, k.0), All-both P Q s h.1 k.1)

-- A text that is cleaned to `s`, when `s` is a code.
parse_clean :
    (u : Unicode) (input s : List ℕ)
    → to_uppercase u (trim u input) ≡ s
    → byte_len s ≡ code_length
    → check_characters s ≡ ok tt
    → parse u input ≡ ok (record { code = s })
unfolding parse
parse_clean u input s e four checked = rw e (rw checked (ground (arith, four)))

-- The letters of a code may be typed in either case, and with ASCII blanks on both sides: the code
-- is that of the letters in upper case.
pub parse_typed :
    (u : Unicode) (pre t post : List ℕ)
    → All IsBlank pre
    → All IsBlank post
    → All IsAscii t
    → All (λ c. InCharset (ascii_uppercase c)) t
    → length t ≡ code_length
    → parse u (pre ++ (t ++ post)) ≡ ok (record { code = map ascii_uppercase t })
parse_typed u pre t post hp hq ascii valid four =
    parse_clean u (pre ++ (t ++ post)) (map ascii_uppercase t) cleaned
      (omega (
        arith,
        byte_len-ascii (map ascii_uppercase t)
            (All-map IsAscii ascii_uppercase t (All-imp ascii_uppercase-IsAscii t ascii)),
        length-map ascii_uppercase t,
        four,
      ))
      (check-InCharset (map ascii_uppercase t) (All-map InCharset ascii_uppercase t valid))
  where
    space : (c : ℕ) → IsBlank c → Space u c
    space c h = u.whitespace_of_ascii c h.0 ∙ h.1

    not_space : (c : ℕ) → IsAscii c × InCharset (ascii_uppercase c) → NotSpace u c
    not_space c h = u.whitespace_of_ascii c h.0 ∙ upper_not_blank c h.1

    trimmed : trim u (pre ++ (t ++ post)) ≡ t
    trimmed =
        trim_padded u pre t post (All-imp space pre hp)
          (All-imp not_space t
            (All-both IsAscii (λ c. InCharset (ascii_uppercase c)) t ascii valid))
          (All-imp space post hq) (omega (arith, four))

    cleaned : to_uppercase u (trim u (pre ++ (t ++ post))) ≡ map ascii_uppercase t
    cleaned = rw trimmed (to_uppercase-ascii u t ascii)

upper_of_InCharset : (c : ℕ) → InCharset c → ascii_uppercase c ≡ c
upper_of_InCharset c h = ground (arith, InCharset-bounds c h)

map-upper_InCharset : (s : List ℕ) → All InCharset s → map ascii_uppercase s ≡ s
map-upper_InCharset [] h = refl
map-upper_InCharset (c ∷ s) h = cc (upper_of_InCharset c h.0, map-upper_InCharset s h.1)

-- Every code is parsed as itself.
pub parse_code :
    (u : Unicode) (s : List ℕ)
    → All InCharset s
    → length s ≡ code_length
    → parse u s ≡ ok (record { code = s })
parse_code u s valid four =
    let upper = map-upper_InCharset s valid in
    let typed = parse_typed u [] s [] tt tt (All-imp ascii s valid) (All-imp same s valid) four in
    rw append-nil at (rw upper at typed)
  where
    ascii : (c : ℕ) → InCharset c → IsAscii c
    ascii c h = omega (arith, InCharset-bounds c h)

    same : (c : ℕ) → InCharset c → InCharset (ascii_uppercase c)
    same c h = rw (upper_of_InCharset c h) h

-- What the loop over the characters has seen to.
checked-InCharset : (s : List ℕ) → All IsAscii s → check_characters s ≡ ok tt → All InCharset s
unfolding check_characters
checked-InCharset [] h e = tt
checked-InCharset (c ∷ s) h e = (
  ground (arith, ap in_charset (low_byte c (omega (arith, h.0)))),
  checked-InCharset s h.1 (ground (arith, e)),
)

All-trim_start : (u : Unicode) (P : ℕ → Type 0) (s : List ℕ) → All P s → All P (trim_start u s)
unfolding trim_start
All-trim_start u P [] h = tt
All-trim_start u P (c ∷ s) h = elim (Bool-cases (u.is_whitespace c)) [
  | inl e ↦ rw e (All-trim_start u P s h.1)
  | inr e ↦ rw e h
]

All-trim : (u : Unicode) (P : ℕ → Type 0) (s : List ℕ) → All P s → All P (trim u s)
unfolding trim
All-trim u P s h = All-reverse P (trim_start u (reverse (trim_start u s))) (
    All-trim_start u P (reverse (trim_start u s))
      (All-reverse P (trim_start u s) (All-trim_start u P s h)))

parse-ok :
    (u : Unicode) (input : List ℕ) (c : ShareCode)
    → parse u input ≡ ok c
    → (c.code ≡ to_uppercase u (trim u input))
      × (byte_len c.code ≡ code_length)
      × (check_characters c.code ≡ ok tt)
unfolding parse
parse-ok u input c e = ground (arith, e)

-- A code that is read from an ASCII text has four characters of the charset, and is read again as
-- itself.
pub parse_sound :
    (u : Unicode) (input : List ℕ) (c : ShareCode)
    → All IsAscii input
    → parse u input ≡ ok c
    → (length c.code ≡ code_length) × All InCharset c.code × (parse u c.code ≡ ok c)
parse_sound u input c ascii e = (four, valid, parse_code u c.code valid four)
  where
    facts :
        (c.code ≡ to_uppercase u (trim u input))
        × (byte_len c.code ≡ code_length)
        × (check_characters c.code ≡ ok tt)
    facts = parse-ok u input c e

    code_ascii : All IsAscii c.code
    code_ascii =
        rw (facts.0, to_uppercase-ascii u (trim u input) (All-trim u IsAscii input ascii))
          (All-map IsAscii ascii_uppercase (trim u input)
            (All-imp ascii_uppercase-IsAscii (trim u input) (All-trim u IsAscii input ascii)))

    four : length c.code ≡ code_length
    four = omega (arith, byte_len-ascii c.code code_ascii, facts.1)

    valid : All InCharset c.code
    valid = checked-InCharset c.code code_ascii facts.2

outside_charset : (c : ℕ) → 128 ≤ c → in_charset c ≡ false
outside_charset c h = elim (Bool-cases (in_charset c)) [
  | inl e ↦ absurd (omega (arith, InCharset-bounds c e))
  | inr e ↦ e
]

-- The loop looks at the low byte of a character, and the length counts bytes: two characters of two
-- bytes each, their own upper case and no blanks, are taken for a code whenever their low bytes are
-- in the charset, though neither character is.
pub parse_low_bytes :
    (u : Unicode) (c d : ℕ)
    → (0x80 ≤ c) × (c < 0x800)
    → (0x80 ≤ d) × (d < 0x800)
    → (u.is_whitespace c ≡ false) × (u.is_whitespace d ≡ false)
    → (u.uppercase c ≡ c ∷ []) × (u.uppercase d ≡ d ∷ [])
    → InCharset (c % 256)
    → InCharset (d % 256)
    → (parse u (c ∷ d ∷ []) ≡ ok (record { code = c ∷ d ∷ [] }))
      × (in_charset c ≡ false)
      × (in_charset d ≡ false)
parse_low_bytes u c d hc hd space upper ic id = (
  parse_clean u (c ∷ d ∷ []) (c ∷ d ∷ []) cleaned (unfold byte_len in ground arith)
      (unfold check_characters in ground (arith, ic, id)),
  outside_charset c hc.0,
  outside_charset d hd.0,
)
  where
    trimmed : trim u (c ∷ d ∷ []) ≡ c ∷ d ∷ []
    trimmed = trim_padded u [] (c ∷ d ∷ []) [] tt (space.0, (space.1, tt)) tt (omega arith)

    cleaned : to_uppercase u (trim u (c ∷ d ∷ [])) ≡ c ∷ d ∷ []
    cleaned = rw trimmed (unfold to_uppercase flat_map in rw upper.0 (rw upper.1))
