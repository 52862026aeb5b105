-- ===== src/Base/Tables.antt =====
-- `HashMap` as an association list. Its order is the order in which the map is iterated, which the
-- program may not rely on: statements hold for every list.
use mathlib.Core.Path.{◌≡◌}
use mathlib.Core.Logic.{◌≢◌, ite}
use mathlib.Core.Option.{Option, none, some}
use mathlib.Core.List.{List, [], ◌∷◌}
use native.Mathlib.Omega.{arith}

module _ {ℓ} {K V : Type ℓ} (eq : Discrete K) where
  -- `get`
  unfoldable pub lookup : K → List (K × V) → Option V
  lookup k [] = none
  lookup k ((j, v) ∷ m) = ite (eq j k) (some v) (lookup k m)

  -- `insert`: the value of a key that is there is replaced in its place.
  unfoldable pub insert : K → V → List (K × V) → List (K × V)
  insert k v [] = (k, v) ∷ []
  insert k v ((j, w) ∷ m) = ite (eq j k) ((k, v) ∷ m) ((j, w) ∷ insert k v m)

  -- `remove`
  unfoldable pub erase : K → List (K × V) → List (K × V)
  erase k [] = []
  erase k ((j, w) ∷ m) = ite (eq j k) m ((j, w) ∷ erase k m)

  -- No key stands twice.
  abbrev pub Distinct : List (K × V) → Type ℓ
  Distinct [] = Unit {ℓ}
  Distinct ((k, v) ∷ m) = (lookup k m ≡ none) × Distinct m

  pub lookup-insert :
      (k j : K) (v : V) (m : List (K × V))
      → lookup j (insert k v m) ≡ ite (eq k j) (some v) (lookup j m)
  unfolding lookup insert
  lookup-insert k j v [] = ground arith
  lookup-insert k j v ((i, w) ∷ m) = ground (arith, lookup-insert k j v m)

  pub lookup-insert_self : (k : K) (v : V) (m : List (K × V)) → lookup k (insert k v m) ≡ some v
  lookup-insert_self k v m = ground (arith, lookup-insert k k v m)

  pub lookup-insert_ne :
      (k j : K) (v : V) (m : List (K × V)) → k ≢ j → lookup j (insert k v m) ≡ lookup j m
  lookup-insert_ne k j v m h = ground (arith, lookup-insert k j v m)

  pub lookup-erase_ne : (k j : K) (m : List (K × V)) → k ≢ j → lookup j (erase k m) ≡ lookup j m
  unfolding lookup erase
  lookup-erase_ne k j [] h = ground arith
  lookup-erase_ne k j ((i, w) ∷ m) h = ground (arith, lookup-erase_ne k j m h)

  pub insert-Distinct : (k : K) (v : V) (m : List (K × V)) → Distinct m → Distinct (insert k v m)
  unfolding lookup insert
  insert-Distinct k v [] h = ground arith
  insert-Distinct k v ((i, w) ∷ m) h =
      ground (arith, insert-Distinct k v m h.1, lookup-insert k i v m)

  lookup-erase-none : (k j : K) (m : List (K × V)) → lookup j m ≡ none → lookup j (erase k m) ≡ none
  unfolding lookup erase
  lookup-erase-none k j [] h = ground arith
  lookup-erase-none k j ((i, w) ∷ m) h = ground (arith, lookup-erase-none k j m)

  pub erase-Distinct : (k : K) (m : List (K × V)) → Distinct m → Distinct (erase k m)
  unfolding erase
  erase-Distinct k [] h = ground arith
  erase-Distinct k ((i, w) ∷ m) h =
      ground (arith, erase-Distinct k m h.1, lookup-erase-none k i m h.0)

  pub lookup-erase_self : (k : K) (m : List (K × V)) → Distinct m → lookup k (erase k m) ≡ none
  unfolding lookup erase
  lookup-erase_self k [] h = ground arith
  lookup-erase_self k ((i, w) ∷ m) h = ground (arith, lookup-erase_self k m h.1)

  pub lookup-erase :
      (k j : K) (m : List (K × V))
      → Distinct m
      → lookup j (erase k m) ≡ ite (eq k j) none (lookup j m)
  lookup-erase k j m h = ground (arith, lookup-erase_self k m h, lookup-erase_ne k j m)
