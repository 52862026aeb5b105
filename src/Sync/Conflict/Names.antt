-- ===== src/Sync/Conflict/Names.antt =====
-- crates/yoop-core/src/sync/conflict.rs: the name that a local file is given beside the remote one.
use mathlib.Core.List.{append_assoc, append-nil, append_cancel_left, append_cancel_right}
use yoop.Base.{
  ℕ, ◌^◌, ◌<◌, ◌≡◌, refl, sym, ap, ◌∙◌, ◌≢◌, ◌⊎◌, inl, inr, none, some, arith, ◌==◌, Bool-cases,
  List, [], ◌∷◌, ◌++◌, map, length, All, All-append, length-append, take-append, drop-append,
}
use yoop.Base.Decimal.{to_string, IsDigit, to_string-IsDigit, to_string-injective}
use yoop.Sync.Model.{RelativePath, new_path, forward_slash, SystemTime}
use yoop.Sync.Conflict.{rfind, marker, timestamp, generate_conflict_name}

-- `RelativePath::new` leaves no backslash.
abbrev pub IsClean : ℕ → Type 0
IsClean b = b ≢ b'\\'

abbrev pub NotDot : ℕ → Type 0
NotDot b = b ≢ b'.'

new_path-clean : (s : List ℕ) → All IsClean s → new_path s ≡ record { text = s }
unfolding new_path
new_path-clean s h = ap (λ t. record { text = t }) (same s h)
  where
    same : (t : List ℕ) → All IsClean t → map forward_slash t ≡ t
    same [] h = refl
    same (b ∷ t) h = ground (arith, h.0, same t h.1)

rfind-none : (s : List ℕ) → All NotDot s → rfind b'.' s ≡ none
unfolding rfind
rfind-none [] h = refl
rfind-none (b ∷ s) h = ground (arith, h.0, rfind-none s h.1)

rfind-last :
    (stem ext : List ℕ) → All NotDot ext → rfind b'.' (stem ++ b'.' ∷ ext) ≡ some (length stem)
unfolding rfind
rfind-last [] ext h = rw (rfind-none ext h, rfind)
rfind-last (b ∷ stem) ext h = rw (rfind-last stem ext h, rfind)

-- A text has no dot, or splits at its last one.
split_last :
    (s : List ℕ)
    → All NotDot s ⊎ ((stem : List ℕ) × (ext : List ℕ) × (s ≡ stem ++ b'.' ∷ ext) × All NotDot ext)
split_last [] = inl tt
split_last (b ∷ s) = elim (split_last s) [
  | inr (stem, ext, e, h) ↦ inr (b ∷ stem, ext, ap (λ t. b ∷ t) e, h)
  | inl h ↦ elim (Bool-cases (b == b'.')) [
    | inl e ↦ inr ([], s, ground (arith, e), h)
    | inr e ↦ inl (ground (arith, e), h)
  ]
]

-- What stands behind the time stamp: nothing, for a name with no dot, or the last dot and its
-- extension.
abbrev pub IsExtension : List ℕ → List ℕ → Type 0
IsExtension stem rest =
    ((rest ≡ []) × All NotDot stem) ⊎ ((ext : List ℕ) × (rest ≡ b'.' ∷ ext) × All NotDot ext)

abbrev pub stamped : List ℕ → SystemTime → List ℕ → List ℕ
stamped stem mtime rest = stem ++ (marker ++ (to_string (timestamp mtime) ++ rest))

All-left : (P : ℕ → Type 0) (s t : List ℕ) → All P (s ++ t) → All P s
All-left P [] t h = tt
All-left P (b ∷ s) t h = (h.0, All-left P s t h.1)

All-right : (P : ℕ → Type 0) (s t : List ℕ) → All P (s ++ t) → All P t
All-right P [] t h = h
All-right P (b ∷ s) t h = All-right P s t h.1

digits-IsClean : (s : List ℕ) → All IsDigit s → All IsClean s
digits-IsClean [] h = tt
digits-IsClean (d ∷ s) h = (omega (arith, h.0), digits-IsClean s h.1)

stamped-IsClean :
    (stem : List ℕ) (mtime : SystemTime) (rest : List ℕ)
    → All IsClean (stem ++ rest)
    → All IsClean (stamped stem mtime rest)
stamped-IsClean stem mtime rest h = All-append IsClean stem _ (All-left IsClean stem rest h) (
    All-append IsClean marker _ (omega arith) (
      All-append IsClean (to_string (timestamp mtime)) rest
        (digits-IsClean _ (to_string-IsDigit (timestamp mtime))) (All-right IsClean stem rest h)))

name_undotted :
    (s : List ℕ) (mtime : SystemTime)
    → All IsClean s
    → All NotDot s
    → generate_conflict_name (record { text = s }) mtime ≡ record { text = stamped s mtime [] }
unfolding generate_conflict_name
name_undotted s mtime clean h =
    rw (rfind-none s h, generate_conflict_name)
      (rw append-nil
        (new_path-clean _ (rw append-nil at (stamped-IsClean s mtime [] (rw append-nil clean)))))

name_dotted :
    (stem ext : List ℕ) (mtime : SystemTime)
    → All IsClean (stem ++ b'.' ∷ ext)
    → All NotDot ext
    → generate_conflict_name (record { text = stem ++ b'.' ∷ ext }) mtime
      ≡ record { text = stamped stem mtime (b'.' ∷ ext) }
unfolding generate_conflict_name
name_dotted stem ext mtime clean h =
    rw (rfind-last stem ext h, generate_conflict_name)
      (rw (take-append stem (b'.' ∷ ext)) (
        rw (drop-append stem (b'.' ∷ ext))
          (new_path-clean _ (stamped-IsClean stem mtime (b'.' ∷ ext) clean))))

-- For a path without backslashes, the name is the path with the marker and the seconds of the time
-- put in front of its last dot, or at its end if it has no dot.
pub generate_conflict_name_parts :
    (path : RelativePath)
    → All IsClean path.text
    → (stem : List ℕ) × (rest : List ℕ) × (path.text ≡ stem ++ rest)
      × IsExtension stem rest
      × ((mtime : SystemTime)
          → generate_conflict_name path mtime ≡ record { text = stamped stem mtime rest })
generate_conflict_name_parts path clean = elim (split_last path.text) [
  | inl h ↦ (
    path.text,
    [],
    sym (append-nil path.text),
    inl (refl, h),
    λ mtime. name_undotted path.text mtime clean h,
  )
  | inr (stem, ext, e, h) ↦ (
    stem,
    b'.' ∷ ext,
    e,
    inr (ext, refl, h),
    λ mtime.
        ap (λ t. generate_conflict_name (record { text = t }) mtime) e
        ∙ name_dotted stem ext mtime (rw e at clean) h,
  )
]

stamped-longer :
    (stem : List ℕ) (mtime : SystemTime) (rest : List ℕ)
    → length (stem ++ rest) < length (stamped stem mtime rest)
stamped-longer stem mtime rest = omega (
  arith,
  length-append stem rest,
  length-append stem (marker ++ (to_string (timestamp mtime) ++ rest)),
  length-append (to_string (timestamp mtime)) rest,
)

stamped-ne :
    (stem : List ℕ) (mtime : SystemTime) (rest : List ℕ) → stamped stem mtime rest ≢ stem ++ rest
stamped-ne stem mtime rest e = absurd (omega (arith, stamped-longer stem mtime rest, ap length e))

stamped-injective :
    (stem : List ℕ) (s t : SystemTime) (rest : List ℕ)
    → timestamp s < 2 ^ 64
    → timestamp t < 2 ^ 64
    → stamped stem s rest ≡ stamped stem t rest
    → timestamp s ≡ timestamp t
stamped-injective stem s t rest hs ht e = to_string-injective (timestamp s) (timestamp t) hs ht (
    append_cancel_right (to_string (timestamp s)) (to_string (timestamp t)) rest
      (append_cancel_left marker _ _ (append_cancel_left stem _ _ e)))

-- Of one path without backslashes, the names at two times are equal only if the times have the same
-- second.
pub generate_conflict_name-injective :
    (path : RelativePath) (s t : SystemTime)
    → All IsClean path.text
    → timestamp s < 2 ^ 64
    → timestamp t < 2 ^ 64
    → generate_conflict_name path s ≡ generate_conflict_name path t
    → timestamp s ≡ timestamp t
generate_conflict_name-injective path s t clean hs ht same =
    let (stem, rest, e, _, name) = generate_conflict_name_parts path clean in
    stamped-injective stem s t rest hs ht
      (ap (λ (p : RelativePath). p.text) (sym (name s) ∙ same ∙ name t))

-- No name is that of the path itself, for a path without backslashes.
pub generate_conflict_name_fresh :
    (path : RelativePath) (mtime : SystemTime)
    → All IsClean path.text
    → generate_conflict_name path mtime ≢ path
generate_conflict_name_fresh path mtime clean same =
    let (stem, rest, e, _, name) = generate_conflict_name_parts path clean in
    stamped-ne stem mtime rest (ap (λ (p : RelativePath). p.text) (sym (name mtime) ∙ same) ∙ e)

-- The last dot is looked for in the whole path: where it stands in the name of a directory, the
-- time stamp goes there, and the name that the local file is renamed to lies in another directory.
pub generate_conflict_name_moves :
    (dir inner name : List ℕ) (mtime : SystemTime)
    → All NotDot inner
    → All NotDot name
    → All IsClean (dir ++ b'.' ∷ (inner ++ b'/' ∷ name))
    → (generate_conflict_name (record { text = dir ++ b'.' ∷ (inner ++ b'/' ∷ name) }) mtime
        ≡ record { text = stamped dir mtime (b'.' ∷ inner) ++ b'/' ∷ name })
      × (stamped dir mtime (b'.' ∷ inner) ≢ dir ++ b'.' ∷ inner)
generate_conflict_name_moves dir inner name mtime hi hn clean = (
  name_dotted dir (inner ++ b'/' ∷ name) mtime clean
        (All-append NotDot inner (b'/' ∷ name) hi (omega arith, hn))
      ∙ ap (λ t. record { text = t }) (simp append_assoc),
  stamped-ne dir mtime (b'.' ∷ inner),
)
