-- ===== src/Transfer/Coding.antt =====
-- Values as lists of numbers, which stand in for the JSON of the source in the concrete runs.
use yoop.Base.{
  ℕ, zero, suc, ◌≡◌, refl, sym, ap, ◌∙◌, Bool, true, false, Option, none, some, List, [], ◌∷◌, ◌++◌,
  length, append_assoc, append-nil, Result, ok, err, io, file_system,
}
use yoop.Storage.{Text}
use yoop.Transfer.Wire.{Codec}

-- A value in front of other numbers
pub record Packing (A : Type 0) : Type 0 where
  pub pack : A → List ℕ
  pub unpack : List ℕ → Option (A × List ℕ)
  pub unpack-pack : (a : A) (rest : List ℕ) → unpack (pack a ++ rest) ≡ some (a, rest)

unfoldable pub and_then : {A B : Type 0} → Option A → (A → Option B) → Option B
and_then none f = none
and_then (some a) f = f a

abbrev pub number : Packing ℕ
number = record {
  pack = λ n. n ∷ [];
  unpack = λ ns. elim ns [ [] ↦ none | n ∷ rest ↦ some (n, rest) ];
  unpack-pack = λ n rest. refl;
}

module _ {A B : Type 0} (p : Packing A) (q : Packing B) where
  unfoldable pub unpack_pair : List ℕ → Option ((A × B) × List ℕ)
  unfolding and_then
  unpack_pair ns =
      and_then (p.unpack ns) (λ a. and_then (q.unpack a.1) (λ b. some ((a.0, b.0), b.1)))

  pub unpack_pair-pack :
      (a : A × B) (rest : List ℕ)
      → unpack_pair ((p.pack a.0 ++ q.pack a.1) ++ rest) ≡ some (a, rest)
  unfolding unpack_pair and_then
  unpack_pair-pack a rest =
      rw
        (
          append_assoc (p.pack a.0) (q.pack a.1) rest,
          p.unpack-pack a.0 (q.pack a.1 ++ rest),
          q.unpack-pack a.1 rest,
        )
        refl

  abbrev pub pair : Packing (A × B)
  pair = record {
    pack = λ a. p.pack a.0 ++ q.pack a.1;
    unpack = unpack_pair;
    unpack-pack = unpack_pair-pack;
  }

-- The same numbers for a type that is the same
module _ {A B : Type 0} (p : Packing A) (to : A → B) (from : B → A)
    (back : (b : B) → to (from b) ≡ b) where
  unfoldable pub unpack_as : List ℕ → Option (B × List ℕ)
  unfolding and_then
  unpack_as ns = and_then (p.unpack ns) (λ a. some (to a.0, a.1))

  pub unpack_as-pack :
      (b : B) (rest : List ℕ) → unpack_as (p.pack (from b) ++ rest) ≡ some (b, rest)
  unfolding unpack_as and_then
  unpack_as-pack b rest = rw (p.unpack-pack (from b) rest) (ap (λ c. some (c, rest)) (back b))

  abbrev pub same_as : Packing B
  same_as = record { pack = λ b. p.pack (from b); unpack = unpack_as; unpack-pack = unpack_as-pack }

abbrev pub pack_bool : Bool → ℕ
pack_bool true = 1
pack_bool false = 0

abbrev pub is_one : ℕ → Bool
is_one zero = false
is_one (suc n) = true

pub is_one-pack_bool : (b : Bool) → is_one (pack_bool b) ≡ b
is_one-pack_bool true = refl
is_one-pack_bool false = refl

abbrev pub flag : Packing Bool
flag = same_as number is_one pack_bool is_one-pack_bool

module _ {A : Type 0} (p : Packing A) where
  abbrev pub pack_option : Option A → List ℕ
  pack_option none = 0 ∷ []
  pack_option (some a) = 1 ∷ p.pack a

  unfoldable pub unpack_option : List ℕ → Option (Option A × List ℕ)
  unfolding and_then
  unpack_option [] = none
  unpack_option (zero ∷ ns) = some (none, ns)
  unpack_option (suc k ∷ ns) = and_then (p.unpack ns) (λ a. some (some a.0, a.1))

  pub unpack_option-pack :
      (o : Option A) (rest : List ℕ) → unpack_option (pack_option o ++ rest) ≡ some (o, rest)
  unfolding unpack_option and_then
  unpack_option-pack none rest = refl
  unpack_option-pack (some a) rest = rw (p.unpack-pack a rest) refl

  abbrev pub optional : Packing (Option A)
  optional = record { pack = pack_option; unpack = unpack_option; unpack-pack = unpack_option-pack }

  abbrev pub pack_all : List A → List ℕ
  pack_all [] = []
  pack_all (a ∷ items) = p.pack a ++ pack_all items

  unfoldable pub unpack_all : ℕ → List ℕ → Option (List A × List ℕ)
  unfolding and_then
  unpack_all zero ns = some ([], ns)
  unpack_all (suc n) ns =
      and_then (p.unpack ns) (λ a. and_then (unpack_all n a.1) (λ b. some (a.0 ∷ b.0, b.1)))

  pub unpack_all-pack :
      (items : List A) (rest : List ℕ)
      → unpack_all (length items) (pack_all items ++ rest) ≡ some (items, rest)
  unfolding unpack_all and_then
  unpack_all-pack [] rest = refl
  unpack_all-pack (a ∷ items) rest =
      rw
        (
          append_assoc (p.pack a) (pack_all items) rest,
          p.unpack-pack a (pack_all items ++ rest),
          unpack_all-pack items rest,
        )
        refl

  unfoldable pub unpack_list : List ℕ → Option (List A × List ℕ)
  unfolding unpack_all
  unpack_list [] = none
  unpack_list (n ∷ ns) = unpack_all n ns

  pub unpack_list-pack :
      (items : List A) (rest : List ℕ)
      → unpack_list ((length items ∷ pack_all items) ++ rest) ≡ some (items, rest)
  unfolding unpack_list
  unpack_list-pack items rest = unpack_all-pack items rest

  abbrev pub many : Packing (List A)
  many = record {
    pack = λ items. length items ∷ pack_all items;
    unpack = unpack_list;
    unpack-pack = unpack_list-pack;
  }

  abbrev pub value_or_fail : Option (A × List ℕ) → Result A
  value_or_fail none = err (io file_system)
  value_or_fail (some a) = ok a.0

  unfoldable pub decode_packed : List ℕ → Result A
  decode_packed ns = value_or_fail (p.unpack ns)

  pub decode_packed-pack : (a : A) → decode_packed (p.pack a) ≡ ok a
  unfolding decode_packed
  decode_packed-pack a =
      ap (λ ns. value_or_fail (p.unpack ns)) (sym (append-nil (p.pack a)))
      ∙ ap value_or_fail (p.unpack-pack a [])

  abbrev pub codec_of : Codec A
  codec_of = record {
    encode = λ a. ok (p.pack a);
    decode = decode_packed;
    round_trip = decode_packed-pack;
  }

abbrev pub text : Packing Text
text = many number
