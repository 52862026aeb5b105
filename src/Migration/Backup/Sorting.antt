-- ===== src/Migration/Backup/Sorting.antt =====
-- crates/yoop-core/src/migration/backup.rs: backups in the order of their times.
use mathlib.Core.List.{Perm}
use mathlib.Core.List.Perm
use yoop.Base.{
  ℕ, zero, suc, ◌≤◌, ◌≡◌, refl, ap, ◌∙◌, List, [], ◌∷◌, ◌++◌, take, drop, leb, leb→le, length,
  arith, All, Bool-cases, inl, inr,
}
use yoop.Migration.Backup.{BackupInfo, insert_by_time, sort_by_time}

-- A backup is no newer than any of the others.
abbrev pub NoNewer : BackupInfo → List BackupInfo → Type 0
NoNewer b backups = All (λ c. b.timestamp ≤ c.timestamp) backups

abbrev pub IsSorted : List BackupInfo → Type 0
IsSorted [] = Unit {0}
IsSorted (b ∷ backups) = NoNewer b backups × IsSorted backups

NoNewer-insert :
    (a b : BackupInfo) (backups : List BackupInfo)
    → a.timestamp ≤ b.timestamp
    → NoNewer a backups
    → NoNewer a (insert_by_time b backups)
NoNewer-insert a b [] h k = (h, tt)
NoNewer-insert a b (c ∷ backups) h k = elim (Bool-cases (leb b.timestamp c.timestamp)) [
  | inl e ↦ rw e (h, k)
  | inr e ↦ rw e (k.0, NoNewer-insert a b backups h k.1)
]

NoNewer-trans :
    (a b : BackupInfo) (backups : List BackupInfo)
    → a.timestamp ≤ b.timestamp
    → NoNewer b backups
    → NoNewer a backups
NoNewer-trans a b [] h k = tt
NoNewer-trans a b (c ∷ backups) h k = (omega (arith, h, k.0), NoNewer-trans a b backups h k.1)

insert_by_time-IsSorted :
    (b : BackupInfo) (backups : List BackupInfo)
    → IsSorted backups
    → IsSorted (insert_by_time b backups)
insert_by_time-IsSorted b [] h = (tt, tt)
insert_by_time-IsSorted b (c ∷ backups) h = elim (Bool-cases (leb b.timestamp c.timestamp)) [
  | inl e ↦
      let le = leb→le b.timestamp c.timestamp e in rw e ((le, NoNewer-trans b c backups le h.0), h)
  | inr e ↦
      rw e
        (NoNewer-insert c b backups (ground (arith, e)) h.0, insert_by_time-IsSorted b backups h.1)
]

pub sort_by_time-IsSorted : (backups : List BackupInfo) → IsSorted (sort_by_time backups)
sort_by_time-IsSorted [] = tt
sort_by_time-IsSorted (b ∷ backups) =
    insert_by_time-IsSorted b (sort_by_time backups) (sort_by_time-IsSorted backups)

insert_by_time-perm :
    (b : BackupInfo) (backups : List BackupInfo) → Perm (insert_by_time b backups) (b ∷ backups)
insert_by_time-perm b [] = Perm.rfl
insert_by_time-perm b (c ∷ backups) = elim (Bool-cases (leb b.timestamp c.timestamp)) [
  | inl e ↦ rw e Perm.rfl
  | inr e ↦ rw e (Perm.trans (Perm.cons c (insert_by_time-perm b backups)) (Perm.swap b c backups))
]

pub sort_by_time-perm : (backups : List BackupInfo) → Perm (sort_by_time backups) backups
sort_by_time-perm [] = Perm.rfl
sort_by_time-perm (b ∷ backups) =
    Perm.trans (insert_by_time-perm b (sort_by_time backups))
      (Perm.cons b (sort_by_time-perm backups))

insert_by_time-All :
    (P : BackupInfo → Type 0) (b : BackupInfo) (backups : List BackupInfo)
    → P b
    → All P backups
    → All P (insert_by_time b backups)
insert_by_time-All P b [] h k = (h, tt)
insert_by_time-All P b (c ∷ backups) h k = elim (Bool-cases (leb b.timestamp c.timestamp)) [
  | inl e ↦ rw e (h, k)
  | inr e ↦ rw e (k.0, insert_by_time-All P b backups h k.1)
]

pub sort_by_time-All :
    (P : BackupInfo → Type 0) (backups : List BackupInfo)
    → All P backups
    → All P (sort_by_time backups)
sort_by_time-All P [] h = tt
sort_by_time-All P (b ∷ backups) h =
    insert_by_time-All P b (sort_by_time backups) h.0 (sort_by_time-All P backups h.1)

length-insert_by_time :
    (b : BackupInfo) (backups : List BackupInfo)
    → length (insert_by_time b backups) ≡ suc (length backups)
length-insert_by_time b [] = refl
length-insert_by_time b (c ∷ backups) = elim (Bool-cases (leb b.timestamp c.timestamp)) [
  | inl e ↦ rw e refl
  | inr e ↦ rw e (ap suc (length-insert_by_time b backups))
]

pub length-sort_by_time :
    (backups : List BackupInfo) → length (sort_by_time backups) ≡ length backups
length-sort_by_time [] = refl
length-sort_by_time (b ∷ backups) =
    length-insert_by_time b (sort_by_time backups) ∙ ap suc (length-sort_by_time backups)

NoNewer-drop :
    (b : BackupInfo) (n : ℕ) (backups : List BackupInfo)
    → NoNewer b backups
    → NoNewer b (drop n backups)
NoNewer-drop b zero backups h = h
NoNewer-drop b (suc n) [] h = tt
NoNewer-drop b (suc n) (c ∷ backups) h = NoNewer-drop b n backups h.1

pub take-older :
    (n : ℕ) (backups : List BackupInfo)
    → IsSorted backups
    → All (λ b. NoNewer b (drop n backups)) (take n backups)
take-older zero backups h = tt
take-older (suc n) [] h = tt
take-older (suc n) (b ∷ backups) h = (NoNewer-drop b n backups h.0, take-older n backups h.1)

-- The newest goes to the end.
insert_by_time-last :
    (b n : BackupInfo) (backups : List BackupInfo)
    → b.timestamp ≤ n.timestamp
    → insert_by_time b (backups ++ n ∷ []) ≡ insert_by_time b backups ++ n ∷ []
insert_by_time-last b n [] h = ground (arith, h)
insert_by_time-last b n (c ∷ backups) h = elim (Bool-cases (leb b.timestamp c.timestamp)) [
  | inl e ↦ rw e refl
  | inr e ↦ rw e (ap (λ xs. c ∷ xs) (insert_by_time-last b n backups h))
]

pub sort_by_time-last :
    (backups : List BackupInfo) (n : BackupInfo)
    → All (λ b. b.timestamp ≤ n.timestamp) backups
    → sort_by_time (backups ++ n ∷ []) ≡ sort_by_time backups ++ n ∷ []
sort_by_time-last [] n h = refl
sort_by_time-last (b ∷ backups) n h =
    ap (insert_by_time b) (sort_by_time-last backups n h.1)
    ∙ insert_by_time-last b n (sort_by_time backups) h.0

pub take-before : (k : ℕ) (xs ys : List BackupInfo) → k ≤ length xs → take k (xs ++ ys) ≡ take k xs
take-before zero xs ys h = refl
take-before (suc k) [] ys h = absurd (omega (arith, h))
take-before (suc k) (x ∷ xs) ys h = ap (λ zs. x ∷ zs) (take-before k xs ys (omega (arith, h)))
