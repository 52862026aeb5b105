-- ===== src/Code/Generating.antt =====
-- crates/yoop-core/src/code/mod.rs: `CodeGenerator::generate`, whatever the random draws.
use yoop.Base.{
  ℕ, zero, suc, ◌<◌, ◌≡◌, refl, sym, ap, ◌∙◌, true, List, [], ◌∷◌, map, arith, ◌==◌, Bool-cases,
  inl, inr, length, get_or, All, ok,
}
use yoop.Code.{Unicode, code_charset, code_length, contains, in_charset, ShareCode, generate}
use yoop.Code.Parsing.{InCharset, parse_code}

abbrev pub IsDraw : ℕ → Type 0
IsDraw i = i < length code_charset

abbrev symbol : ℕ → ℕ
symbol i = get_or code_charset i 0

contains-get_or : (xs : List ℕ) (i : ℕ) → i < length xs → contains xs (get_or xs i 0) ≡ true
unfolding contains
contains-get_or [] i h = elim h [ ]
contains-get_or (x ∷ xs) zero h = ground arith
contains-get_or (x ∷ xs) (suc i) h = ground (arith, contains-get_or xs i (omega (arith, h)))

get_or_of_contains :
    (xs : List ℕ) (b : ℕ) → contains xs b ≡ true → (i : ℕ) × (i < length xs) × (get_or xs i 0 ≡ b)
unfolding contains
get_or_of_contains [] b h = cc
get_or_of_contains (x ∷ xs) b h = elim (Bool-cases (x == b)) [
  | inl e ↦ (zero, omega arith, ground (arith, e))
  | inr e ↦ later (get_or_of_contains xs b (ground (arith, e, h)))
]
  where
    later :
        (i : ℕ) × (i < length xs) × (get_or xs i 0 ≡ b)
        → (i : ℕ) × (i < length (x ∷ xs)) × (get_or (x ∷ xs) i 0 ≡ b)
    later (i, lt, e) = (suc i, omega (arith, lt), e)

symbols-InCharset : (draws : List ℕ) → All IsDraw draws → All InCharset (map symbol draws)
unfolding in_charset
symbols-InCharset [] h = tt
symbols-InCharset (i ∷ draws) h = (contains-get_or code_charset i h.0, symbols-InCharset draws h.1)

length-symbols : (draws : List ℕ) → length (map symbol draws) ≡ length draws
length-symbols [] = refl
length-symbols (i ∷ draws) = ap suc (length-symbols draws)

-- Four draws give a code of the charset: `generate` never fails.
pub generate_valid :
    (u : Unicode) (draws : List ℕ)
    → All IsDraw draws
    → length draws ≡ code_length
    → (c : ShareCode) × (generate u draws ≡ ok c)
      × (length c.code ≡ code_length)
      × All InCharset c.code
unfolding generate
generate_valid u draws h four = (
  record { code = map symbol draws },
  parse_code u (map symbol draws) (symbols-InCharset draws h) (length-symbols draws ∙ four),
  length-symbols draws ∙ four,
  symbols-InCharset draws h,
)

draws_of :
    (s : List ℕ) → All InCharset s → (draws : List ℕ) × All IsDraw draws × (map symbol draws ≡ s)
unfolding in_charset
draws_of [] h = ([], tt, refl)
draws_of (c ∷ s) h =
    let (i, lt, e) = get_or_of_contains code_charset c h.0 in
    let (draws, all, es) = draws_of s h.1 in (i ∷ draws, (lt, all), cc (e, es))

-- Every code of the charset is given by some draws.
pub generate_onto :
    (u : Unicode) (s : List ℕ)
    → All InCharset s
    → length s ≡ code_length
    → (draws : List ℕ) × All IsDraw draws
      × (length draws ≡ code_length)
      × (generate u draws ≡ ok (record { code = s }))
unfolding generate
generate_onto u s h four =
    let (draws, all, es) = draws_of s h in
    (draws, all, sym (length-symbols draws) ∙ ap length es ∙ four, rw es (parse_code u s h four))
