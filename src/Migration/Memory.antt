-- ===== src/Migration/Memory.antt =====
-- A file system in memory for the runs of migrations: a table of files, in which a path is that of a
-- directory unless it ends like the name of a file.
use yoop.Base.{
  ℕ, ◌≡◌, ◌≢◌, refl, sym, ap, ◌∙◌, Bool, true, false, ◌&&◌, ◌||◌, Option, none, some, List, [], ◌∷◌,
  ◌++◌, ◌==◌, if◌then◌else◌, append-nil, arith, lookup, insert, lookup-insert_self,
  lookup-insert_ne, Bool-cases, inl, inr, ite, if_neg,
}
use yoop.Storage.{Text}
use yoop.Files.Examples.{Memory, Text-discrete, some_eq}
use yoop.Transfer.Coding.{Packing, number, pair, same_as, many, text}
use yoop.Migration.{SchemaVersion}
use yoop.Migration.Backup.{BackupDisk, BackupInfo, BackupManifest, Json}

abbrev pub last_or : ℕ → Text → ℕ
last_or b [] = b
last_or b (c ∷ path) = last_or c path

-- Not ending in "n" or "l"
abbrev pub is_dir : Text → Bool
is_dir path =
    if last_or 0 path == b'n' then false else if last_or 0 path == b'l' then false else true

abbrev pub is_prefix : Text → Text → Bool
is_prefix [] q = true
is_prefix (b ∷ p) [] = false
is_prefix (b ∷ p) (c ∷ q) = let rest = is_prefix p q in if b == c then rest else false

abbrev pub holds_some : Option Text → Bool
holds_some none = false
holds_some (some xs) = true

abbrev pub is_yes : {A : Type 0} → Dec A → Bool
is_yes (yes a) = true
is_yes (no n) = false

abbrev pub same_path : Text → Text → Bool
same_path p q = is_yes (Text-discrete p q)

abbrev pub below : Text → Text → Bool
below q p = same_path p q || (is_dir p && is_prefix p q)

abbrev pub there : Text → Memory → Bool
there p d = holds_some (lookup Text-discrete p d) || is_dir p

abbrev pub put : Option Text → Text → Memory → Bool × Memory
put none q d = (false, d)
put (some xs) q d = (true, insert Text-discrete q xs d)

abbrev pub copied : Text → Text → Memory → Bool × Memory
copied p q d = put (lookup Text-discrete p d) q d

abbrev pub without : Text → Memory → Memory
without p [] = []
without p ((q, xs) ∷ d) = let rest = without p d in if below q p then rest else (q, xs) ∷ rest

pub lookup-without :
    (p q : Text) (d : Memory)
    → below q p ≡ false
    → lookup Text-discrete q (without p d) ≡ lookup Text-discrete q d
unfolding lookup
lookup-without p q [] h = refl
lookup-without p q ((r, xs) ∷ d) h = elim (Bool-cases (below r p)) [
  | inr kept ↦ rw kept (ap (λ o. ite (Text-discrete r q) (some xs) o) (lookup-without p q d h))
  | inl gone ↦
      let differs : r ≢ q = λ e. ground (arith, gone, ap (λ x. below x p) e, h) in
      rw gone (lookup-without p q d h ∙ sym (if_neg (Text-discrete r q) differs _ _))
]

pub lookup-without-below :
    (p q : Text) (d : Memory) → below q p ≡ true → lookup Text-discrete q (without p d) ≡ none
unfolding lookup
lookup-without-below p q [] h = refl
lookup-without-below p q ((r, xs) ∷ d) h = elim (Bool-cases (below r p)) [
  | inl gone ↦ rw gone (lookup-without-below p q d h)
  | inr kept ↦
      let differs : r ≢ q = λ e. ground (arith, kept, ap (λ x. below x p) e, h) in
      rw kept (if_neg (Text-discrete r q) differs _ _ ∙ lookup-without-below p q d h)
]

pub put-ne :
    (o : Option Text) (q r : Text) (d : Memory)
    → q ≢ r
    → lookup Text-discrete r (put o q d).1 ≡ lookup Text-discrete r d
put-ne none q r d ne = refl
put-ne (some xs) q r d ne = lookup-insert_ne Text-discrete q r xs d ne

pub put-ok :
    (o : Option Text) (q : Text) (d : Memory)
    → (put o q d).0 ≡ true
    → lookup Text-discrete q (put o q d).1 ≡ o
put-ok none q d h = absurd (ground (arith, h))
put-ok (some xs) q d h = lookup-insert_self Text-discrete q xs d

or_true : (a b : Bool) → b ≡ true → (a || b) ≡ true
or_true true b h = refl
or_true false b h = h

and_left : (a b : Bool) → (a && b) ≡ true → a ≡ true
and_left true b h = refl
and_left false b h = h

pub above :
    (p q xs : Text) (d : Memory)
    → below q p ≡ true
    → lookup Text-discrete q d ≡ some xs
    → there p d ≡ true
above p q xs d h found = by_path (Text-discrete p q) h
  where
    by_path :
        (e : Dec (p ≡ q)) → (is_yes e || (is_dir p && is_prefix p q)) ≡ true → there p d ≡ true
    by_path (yes e) h =
        ap (λ o. holds_some o || is_dir p) (ap (λ x. lookup Text-discrete x d) e ∙ found)
    by_path (no n) h =
        or_true (holds_some (lookup Text-discrete p d)) (is_dir p)
          (and_left (is_dir p) (is_prefix p q) h)

abbrev pub disk : BackupDisk
disk = record {
  Disk = Memory;
  content = lookup Text-discrete;
  exists = there;
  file_size = λ p d. 0;
  join = λ dir name. dir ++ b'/' ∷ name;
  parent = λ p. none;
  starts_with = below;
  create_dir_all = λ p d. (true, d);
  copy = copied;
  write = λ p xs d. (true, insert Text-discrete p xs d);
  remove_dir_all = λ p d. (true, without p d);
  dir_same = λ p q d. refl;
  copy_ne = λ p q r d ne. put-ne (lookup Text-discrete p d) q r d ne;
  copy_ok = λ p q d ne h. put-ok (lookup Text-discrete p d) q d h;
  write_ne = λ p q xs d ne. lookup-insert_ne Text-discrete p q xs d ne;
  write_ok = λ p xs d h. lookup-insert_self Text-discrete p xs d;
  remove_ne = lookup-without;
  remove_ok = λ p q d removed. lookup-without-below p q d;
  dir_exists = λ p q d h. refl;
  dir_keeps = λ p q d h. h;
  copy_exists =
      λ p q r d ne. ap (λ o. holds_some o || is_dir r) (put-ne (lookup Text-discrete p d) q r d ne);
  exists_content = λ p xs d h. ap (λ o. holds_some o || is_dir p) h;
  exists_above = above;
}

-- A value as the numbers it is packed into
abbrev pub first : {A : Type 0} → Option (A × List ℕ) → Option A
first none = none
first (some a) = some a.0

abbrev pub packed_json : {A : Type 0} → Packing A → Json A
packed_json p = record {
  to_json = λ a. some (p.pack a);
  from_json = λ ns. first (p.unpack ns);
  round_trip = λ a json h.
      ap (λ ns. first (p.unpack ns)) (sym (some_eq (p.pack a) json h) ∙ sym (append-nil (p.pack a)))
      ∙ ap first (p.unpack-pack a []);
}

abbrev pub version : Packing SchemaVersion
version =
    same_as (pair number (pair number number))
      (λ a. record { major = a.0; minor = a.1.0; patch = a.1.1 })
      (λ v. (v.major, (v.minor, v.patch))) (λ v. refl)

abbrev pub backup_info : Packing BackupInfo
backup_info =
    same_as (pair (pair text (pair version version)) (pair number (pair (many text) number)))
      (λ a. record {
        id = a.0.0;
        app_version = a.0.1.0;
        schema_version = a.0.1.1;
        timestamp = a.1.0;
        files = a.1.1.0;
        size_bytes = a.1.1.1;
      })
      (λ b. ((b.id, (b.app_version, b.schema_version)), (b.timestamp, (b.files, b.size_bytes))))
      (λ b. refl)

abbrev pub manifest_json : Json BackupManifest
manifest_json = packed_json (
    same_as (pair number (pair (many backup_info) number))
      (λ a. record { version = a.0; backups = a.1.0; max_backups = a.1.1 })
      (λ m. (m.version, (m.backups, m.max_backups))) (λ m. refl))
