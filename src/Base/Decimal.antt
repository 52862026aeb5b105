-- ===== src/Base/Decimal.antt =====
-- `to_string` of an unsigned 64-bit integer, as ASCII bytes.
use Prim.Native.Nat.{ℕ, zero, suc, ◌+◌, ◌-◌, ◌*◌, ◌/◌, ◌%◌, ◌^◌, ◌<◌, ◌≤◌}
use mathlib.Core.Path.{◌≡◌, sym, ap, ◌∙◌}
use mathlib.Core.List.{List, [], ◌∷◌, ◌++◌, foldl, foldl-append}
use mathlib.Core.Logic.{inl, inr}
use native.Mathlib.Omega.{arith}
use native.Mathlib.Nat.{pow-suc}
use yoop.Base.Tests.{ltb, if◌then◌else◌, Bool-cases, ltb→lt}
use yoop.Base.Lists.{All, All-append}

digits_fuel : ℕ → ℕ → List ℕ
digits_fuel zero n = []
digits_fuel (suc f) n =
    let high = digits_fuel f (n / 10) in (if ltb n 10 then [] else high) ++ ((b'0' + n % 10) ∷ [])

-- 2 ^ 64 has twenty digits.
unfoldable pub to_string : ℕ → List ℕ
unfolding digits_fuel
to_string = digits_fuel 20

abbrev push_digit : ℕ → ℕ → ℕ
push_digit acc d = acc * 10 + (d - b'0')

pub number : List ℕ → ℕ
number = foldl push_digit 0

number-snoc : (s : List ℕ) (d : ℕ) → number (s ++ d ∷ []) ≡ number s * 10 + (d - b'0')
unfolding number
number-snoc s d = rw foldl-append

number-digits_fuel : (f n : ℕ) → n < 10 ^ f → number (digits_fuel f n) ≡ n
unfolding digits_fuel
number-digits_fuel zero n h = unfold number in omega arith
number-digits_fuel (suc f) n h = elim (Bool-cases (ltb n 10)) [
  | inl e ↦ rw e (unfold number in omega (arith, ltb→lt n 10 e))
  | inr e ↦ rw e (
      omega (
        arith,
        number-snoc (digits_fuel f (n / 10)) (b'0' + n % 10),
        number-digits_fuel f (n / 10) (omega (arith, pow-suc 10 f)),
      ))
]

-- The digits of a number tell its value.
pub number-to_string : (n : ℕ) → n < 2 ^ 64 → number (to_string n) ≡ n
unfolding to_string
number-to_string n h = number-digits_fuel 20 n (omega arith)

pub to_string-injective : (m n : ℕ) → m < 2 ^ 64 → n < 2 ^ 64 → to_string m ≡ to_string n → m ≡ n
to_string-injective m n hm hn e = sym (number-to_string m hm) ∙ ap number e ∙ number-to_string n hn

abbrev pub IsDigit : ℕ → Type 0
IsDigit d = (b'0' ≤ d) × (d ≤ b'9')

digits_fuel-IsDigit : (f n : ℕ) → All IsDigit (digits_fuel f n)
unfolding digits_fuel
digits_fuel-IsDigit zero n = tt
digits_fuel-IsDigit (suc f) n = elim (Bool-cases (ltb n 10)) [
  | inl e ↦ rw e (omega arith)
  | inr e ↦ rw e (
      All-append IsDigit (digits_fuel f (n / 10)) ((b'0' + n % 10) ∷ [])
        (digits_fuel-IsDigit f (n / 10)) (omega arith))
]

pub to_string-IsDigit : (n : ℕ) → All IsDigit (to_string n)
unfolding to_string
to_string-IsDigit = digits_fuel-IsDigit 20
