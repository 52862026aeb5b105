-- ===== src/Migration/Pending.antt =====
-- crates/yoop-core/src/migration/mod.rs: `get_pending` ends, and gives a chain.
use yoop.Base.{
  ◌&&◌, subst, In, ℕ, zero, suc, ◌+◌, ◌≤◌, ◌<◌, ◌≡◌, refl, sym, ap, ◌∙◌, Bool, true, false, Option,
  none, some, List, [], ◌∷◌, if◌then◌else◌, length, arith, All, ◌⊎◌, inl, inr, Option-cases,
  Bool-cases,
}
use yoop.Migration.{
  SchemaVersion, Migration, version_lt, version_le, version_eq, find_next, next, pending_loop,
  get_pending,
}

-- A migration leads to a later version.
abbrev pub IsForward : Migration → Type 0
IsForward m = version_lt m.from_version m.to_version ≡ true

lt_trans :
    (a b c : SchemaVersion) → version_lt a b ≡ true → version_lt b c ≡ true → version_lt a c ≡ true
lt_trans a b c h k = ground (arith, h, k)

eq→eq : (a b : SchemaVersion) → version_eq a b ≡ true → a ≡ b
eq→eq a b h = ground (arith, h)

lt_irrefl : (a : SchemaVersion) → version_lt a a ≡ false
lt_irrefl a = ground arith

-- Whether a migration does not start before a version
abbrev counts : SchemaVersion → Migration → ℕ
counts v m = if version_lt m.from_version v then 0 else 1

-- The number of migrations that do not start before a version
ahead : List Migration → SchemaVersion → ℕ
ahead [] v = 0
ahead (m ∷ ms) v = counts v m + ahead ms v

counts-le : (m : Migration) (v w : SchemaVersion) → version_lt v w ≡ true → counts w m ≤ counts v m
counts-le m v w h = elim (Bool-cases (version_lt m.from_version v)) [
  | inl e ↦ rw (e, lt_trans m.from_version v w e h) (omega arith)
  | inr e ↦ elim (Bool-cases (version_lt m.from_version w)) [
    | inl f ↦ rw (e, f) (omega arith)
    | inr f ↦ rw (e, f) (omega arith)
  ]
]

ahead-le :
    (ms : List Migration) (v w : SchemaVersion) → version_lt v w ≡ true → ahead ms w ≤ ahead ms v
unfolding ahead
ahead-le [] v w h = omega arith
ahead-le (m ∷ ms) v w h = omega (arith, counts-le m v w h, ahead-le ms v w h)

pick :
    (b c : Bool) (x m : Migration) (rest : Option Migration)
    → (if b && c then some x else rest) ≡ some m
    → ((x ≡ m) × (b ≡ true) × (c ≡ true)) ⊎ (rest ≡ some m)
pick true true x m rest h = inl (ap (λ o. elim o [ none ↦ x | some y ↦ y ]) h, refl, refl)
pick true false x m rest h = inr h
pick false c x m rest h = inr h

found_cons :
    (x : Migration) (ms : List Migration) (v to : SchemaVersion) (m : Migration)
    → find_next (x ∷ ms) v to ≡ some m
    → ((x ≡ m) × (x.from_version ≡ v) × (version_le x.to_version to ≡ true))
      ⊎ (find_next ms v to ≡ some m)
unfolding find_next
found_cons x ms v to m h =
    elim (pick (version_eq x.from_version v) (version_le x.to_version to) x m (find_next ms v to)
      h) [ inl e ↦ inl (e.0, eq→eq x.from_version v e.1, e.2) | inr e ↦ inr e ]

-- What is found starts at the current version and does not lead beyond the last.
found :
    (ms : List Migration) (v to : SchemaVersion) (m : Migration)
    → find_next ms v to ≡ some m
    → (m.from_version ≡ v) × (version_le m.to_version to ≡ true)
unfolding find_next
found [] v to m h = absurd (ground (arith, h))
found (x ∷ ms) v to m h = elim (found_cons x ms v to m h) [
  | inl e ↦
      subst (λ (y : Migration). (y.from_version ≡ v) × (version_le y.to_version to ≡ true)) e.0
        (e.1, e.2)
  | inr e ↦ found ms v to m e
]

ahead-lt :
    (ms : List Migration) (v to : SchemaVersion) (m : Migration)
    → find_next ms v to ≡ some m
    → version_lt v m.to_version ≡ true
    → ahead ms m.to_version < ahead ms v
unfolding find_next ahead
ahead-lt [] v to m h k = absurd (ground (arith, h))
ahead-lt (x ∷ ms) v to m h k = elim (found_cons x ms v to m h) [
  | inl e ↦
      let starts : version_lt x.from_version v ≡ false =
        subst (λ w. version_lt w v ≡ false) (sym e.1) (lt_irrefl v) in
      let passed : version_lt x.from_version m.to_version ≡ true =
        subst (λ w. version_lt w m.to_version ≡ true) (sym e.1) k in
      rw (starts, passed) (omega (arith, ahead-le ms v m.to_version k))
  | inr e ↦ omega (arith, counts-le x v m.to_version k, ahead-lt ms v to m e k)
]

found-IsForward :
    (ms : List Migration) (v to : SchemaVersion) (m : Migration)
    → All IsForward ms
    → find_next ms v to ≡ some m
    → IsForward m
unfolding find_next
found-IsForward [] v to m a h = absurd (ground (arith, h))
found-IsForward (x ∷ ms) v to m a h = ground (arith, h, a.0, found-IsForward ms v to m a.1)

eq_self : (a : SchemaVersion) → version_eq a a ≡ true
eq_self a = ground arith

passed_over :
    (b c : Bool) (x : Migration) (rest : Option Migration)
    → (if b && c then some x else rest) ≡ none
    → (rest ≡ none) × (b ≡ true → c ≡ false)
passed_over true true x rest h = absurd (ground (arith, h))
passed_over true false x rest h = (h, λ _. refl)
passed_over false c x rest h = (h, λ e. absurd (ground (arith, e)))

not_found :
    (ms : List Migration) (v to : SchemaVersion) (m : Migration)
    → find_next ms v to ≡ none
    → In m ms
    → m.from_version ≡ v
    → version_le m.to_version to ≡ false
unfolding find_next
not_found [] v to m h i e = absurd i
not_found (x ∷ ms) v to m h i e =
    let (rest, over) =
      passed_over (version_eq x.from_version v) (version_le x.to_version to) x (find_next ms v to)
        h in
    elim i [
      | inl same ↦
          let starts : x.from_version ≡ v = ap (λ (y : Migration). y.from_version) (sym same) ∙ e in
          ap (λ (y : Migration). version_le y.to_version to) same
          ∙ over (subst (λ w. version_eq w v ≡ true) (sym starts) (eq_self v))
      | inr later ↦ not_found ms v to m rest later e
    ]

next_open :
    (ms : List Migration) (v to : SchemaVersion)
    → version_lt v to ≡ true
    → next ms v to ≡ find_next ms v to
unfolding next
next_open ms v to e = rw (e, next) refl

next_closed :
    (ms : List Migration) (v to : SchemaVersion) → version_lt v to ≡ false → next ms v to ≡ none
unfolding next
next_closed ms v to e = rw (e, next) refl

next-found :
    (ms : List Migration) (v to : SchemaVersion) (m : Migration)
    → next ms v to ≡ some m
    → find_next ms v to ≡ some m
next-found ms v to m h = elim (Bool-cases (version_lt v to)) [
  | inl e ↦ sym (next_open ms v to e) ∙ h
  | inr e ↦ absurd (ground (arith, sym (next_closed ms v to e) ∙ h))
]

-- The version after the migrations
abbrev pub last_version : SchemaVersion → List Migration → SchemaVersion
last_version v [] = v
last_version v (m ∷ ms) = last_version m.to_version ms

-- Each migration starts where the one before it ended, and none leads beyond `to`.
abbrev pub Chain : SchemaVersion → SchemaVersion → List Migration → Type 0
Chain to v [] = Unit {0}
Chain to v (m ∷ ms) =
    (m.from_version ≡ v) × (version_le m.to_version to ≡ true) × Chain to m.to_version ms

-- No migration leads on from a version that is before `to`.
abbrev pub Stops : List Migration → SchemaVersion → SchemaVersion → Type 0
Stops ms v to =
    (m : Migration)
    → In m ms
    → version_lt v to ≡ true
    → m.from_version ≡ v
    → version_le m.to_version to ≡ false

next-Stops : (ms : List Migration) (v to : SchemaVersion) → next ms v to ≡ none → Stops ms v to
next-Stops ms v to h m i e s = not_found ms v to m (sym (next_open ms v to e) ∙ h) i s

loop_total :
    (ms : List Migration) (to : SchemaVersion) (rounds : ℕ) (v : SchemaVersion)
    → All IsForward ms
    → ahead ms v < rounds
    → (pending : List Migration) × (pending_loop ms to rounds v ≡ some pending)
      × Chain to v pending
      × Stops ms (last_version v pending) to
unfolding pending_loop
loop_total ms to zero v a h = absurd (omega (arith, h))
loop_total ms to (suc rounds) v a h = elim (Option-cases (next ms v to)) [
  | inl e ↦ ([], rw (e, pending_loop) refl, tt, next-Stops ms v to e)
  | inr (m, e) ↦
      let f = next-found ms v to m e in
      let (starts, within) = found ms v to m f in
      let later : version_lt v m.to_version ≡ true =
        subst (λ w. version_lt w m.to_version ≡ true) starts (found-IsForward ms v to m a f) in
      let (pending, same, chain, stops) =
        loop_total ms to rounds m.to_version a (omega (arith, h, ahead-lt ms v to m f later)) in
      (m ∷ pending, rw (e, pending_loop, same) refl, (starts, within, chain), stops)
]

ahead-le-length : (ms : List Migration) (v : SchemaVersion) → ahead ms v ≤ length ms
unfolding ahead
ahead-le-length [] v = omega arith
ahead-le-length (m ∷ ms) v = elim (Bool-cases (version_lt m.from_version v)) [
  | inl e ↦ rw e (omega (arith, ahead-le-length ms v))
  | inr e ↦ rw e (omega (arith, ahead-le-length ms v))
]

-- If each migration leads to a later version, `get_pending` ends after at most one round more than
-- there are migrations. Its result is a chain from the first version that does not lead beyond the
-- last, and where it ends before the last, no migration leads on.
pub get_pending_total :
    (ms : List Migration) (from to : SchemaVersion)
    → All IsForward ms
    → (pending : List Migration) × (get_pending ms (suc (length ms)) from to ≡ some pending)
      × Chain to from pending
      × Stops ms (last_version from pending) to
unfolding get_pending
get_pending_total ms from to a = elim (Bool-cases (version_le to from)) [
  | inl e ↦ ([], rw e refl, tt, λ m i l s. absurd (ground (arith, e, l)))
  | inr e ↦
      let (pending, same, chain, stops) =
        loop_total ms to (suc (length ms)) from a (omega (arith, ahead-le-length ms from)) in
      (pending, rw (e, same) refl, chain, stops)
]
