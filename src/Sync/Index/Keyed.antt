-- ===== src/Sync/Index/Keyed.antt =====
-- What is gathered from the entries of an index, seen at one path. The order of the entries, which
-- the program does not fix, does not show there.
use mathlib.Core.List.{append-nil}
use mathlib.Core.Path.{subst}
use yoop.Base.{
  ◌≡◌, refl, sym, ◌∙◌, ◌≢◌, ite, if_pos, if_neg, Option, none, some, List, [], ◌∷◌, ◌++◌, arith,
  All, Distinct, lookup,
}
use yoop.Sync.Model.{RelativePath, RelativePath-discrete}
use yoop.Sync.Index.{FileEntry, Entries}

-- Every entry stands under its own path.
abbrev pub Keyed : Entries → Type 0
Keyed [] = Unit {0}
Keyed ((p, e) ∷ m) = (e.path ≡ p) × Keyed m

-- The entries are those of a map: one for each path, under its own path.
abbrev pub IsTable : Entries → Type 0
IsTable m = Distinct RelativePath-discrete m × Keyed m

module _ {A : Type 0} (path_of : A → RelativePath) (p : RelativePath) where
  -- The items of a list that are about `p`.
  abbrev pub select : List A → List A
  select [] = []
  select (a ∷ xs) = ite (RelativePath-discrete (path_of a) p) (a ∷ select xs) (select xs)

  pub select-append : (xs ys : List A) → select (xs ++ ys) ≡ select xs ++ select ys
  select-append [] ys = refl
  select-append (a ∷ xs) ys = ground (arith, select-append xs ys)

  select-same : (xs : List A) → All (λ a. path_of a ≡ p) xs → select xs ≡ xs
  select-same [] h = refl
  select-same (a ∷ xs) h = ground (arith, h.0, select-same xs h.1)

  select-other :
      (q : RelativePath) (xs : List A) → q ≢ p → All (λ a. path_of a ≡ q) xs → select xs ≡ []
  select-other q [] n h = refl
  select-other q (a ∷ xs) n h = ground (arith, h.0, select-other q xs n h.1)

module _ {A : Type 0} (f : FileEntry → List A) where
  -- What each entry gives, in order.
  abbrev pub gather : Entries → List A
  gather [] = []
  gather ((p, e) ∷ m) = f e ++ gather m

  abbrev pub at : Option FileEntry → List A
  at none = []
  at (some e) = f e

  module _ (path_of : A → RelativePath)
      (own : (e : FileEntry) → All (λ a. path_of a ≡ e.path) (f e)) (p : RelativePath) where
    select-own : (e : FileEntry) → e.path ≡ p → select path_of p (f e) ≡ f e
    select-own e same =
        select-same path_of p (f e) (subst (λ q. All (λ a. path_of a ≡ q) (f e)) same (own e))

    select-foreign : (e : FileEntry) → e.path ≢ p → select path_of p (f e) ≡ []
    select-foreign e other = select-other path_of p e.path (f e) other (own e)

    gather-absent :
        (m : Entries)
        → Keyed m
        → lookup RelativePath-discrete p m ≡ none
        → select path_of p (gather m) ≡ []
    unfolding lookup
    gather-absent [] k h = refl
    gather-absent ((q, e) ∷ m) k h =
        rw (select-append path_of p (f e) (gather m))
          (ground (arith, k.0, h, select-foreign e, gather-absent m k.1))

    -- At one path stands what the entry of that path gives.
    pub select-gather :
        (m : Entries)
        → IsTable m
        → select path_of p (gather m) ≡ at (lookup RelativePath-discrete p m)
    unfolding lookup
    select-gather [] t = refl
    select-gather ((q, e) ∷ m) t = elim (RelativePath-discrete q p) [
      | yes same ↦ rw (if_pos _ same) (
          rw (select-append path_of p (f e) (gather m)) (
            rw (select-own e (t.1.0 ∙ same))
              (rw (gather-absent m t.1.1 (rw same at t.0.0)) (append-nil (f e)))))
      | no other ↦ rw (if_neg _ other) (
          rw (select-append path_of p (f e) (gather m))
            (rw (select-foreign e (λ h. other (sym t.1.0 ∙ h))) (select-gather m (t.0.1, t.1.1))))
    ]
