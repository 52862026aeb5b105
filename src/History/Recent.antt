-- ===== src/History/Recent.antt =====
-- crates/yoop-core/src/history/mod.rs: what the store keeps as records are added, reloaded and
-- cleared.
use yoop.Base.{
  ==-self, Option-cases, In, dec_le, subst, ◌↔◌, inl, inr, min, ℕ, zero, suc, sym, length-take, ◌-◌,
  ◌*◌, ◌≤◌, ◌<◌, ◌≡◌, refl, ◌∙◌, ap, List, [], ◌∷◌, Option, none, some, length, take, ok, arith,
}
use yoop.Storage.{Storage, Drops, read-save}
use yoop.History.{
  list, get, find_entry, TransferHistoryEntry, HistoryDatabase, HistoryStore, apply_auto_clear,
  find_by_id, insert_newest, load_from, save_history, add, retain_since,
}

-- The entries, the last added in front of the others
abbrev pub newest_first :
    List TransferHistoryEntry → List TransferHistoryEntry → List TransferHistoryEntry
newest_first [] old = old
newest_first (e ∷ es) old = newest_first es (e ∷ old)

abbrev pub WithinLimit : HistoryStore → Type 0
WithinLimit store = length store.entries ≤ store.config.max_entries

take-all : {A : Type 0} (n : ℕ) (xs : List A) → length xs ≤ n → take n xs ≡ xs
take-all zero [] h = refl
take-all (suc n) [] h = refl
take-all zero (x ∷ xs) h = absurd (omega (arith, h))
take-all (suc n) (x ∷ xs) h = ap (λ ys. x ∷ ys) (take-all n xs (omega (arith, h)))

take-take : {A : Type 0} (n m : ℕ) (xs : List A) → n ≤ m → take n (take m xs) ≡ take n xs
take-take zero m xs h = refl
take-take (suc n) zero xs h = absurd (omega (arith, h))
take-take (suc n) (suc m) [] h = refl
take-take (suc n) (suc m) (x ∷ xs) h = ap (λ ys. x ∷ ys) (take-take n m xs (omega (arith, h)))

take-positive :
    {A : Type 0} (n : ℕ) (x : A) (xs : List A)
    → 0 < n
    → (rest : List A) × (take n (x ∷ xs) ≡ x ∷ rest)
take-positive zero x xs h = absurd (omega (arith, h))
take-positive (suc n) x xs h = (take n xs, refl)

take_first : {A : Type 0} (x : A) (xs : List A) → take (min 1 (length (x ∷ xs))) (x ∷ xs) ≡ x ∷ []
take_first x xs = ap (λ n. take n (x ∷ xs)) one
  where
    one : min 1 (suc (length xs)) ≡ 1
    one = omega arith

take-cons :
    {A : Type 0} (n : ℕ) (x : A) (xs ys : List A)
    → take n xs ≡ take n ys
    → take n (x ∷ xs) ≡ take n (x ∷ ys)
take-cons zero x xs ys h = refl
take-cons (suc n) x xs ys h =
    ap (λ zs. x ∷ zs)
      (sym (take-take n (suc n) xs (omega arith))
        ∙ ap (take n) h
        ∙ take-take n (suc n) ys (omega arith))

-- Equal prefixes stay equal behind further entries.
take-newest_first :
    (n : ℕ) (es : List TransferHistoryEntry) (xs ys : List TransferHistoryEntry)
    → take n xs ≡ take n ys
    → take n (newest_first es xs) ≡ take n (newest_first es ys)
take-newest_first n [] xs ys h = h
take-newest_first n (e ∷ es) xs ys h =
    take-newest_first n es (e ∷ xs) (e ∷ ys) (take-cons n e xs ys h)

insert_newest-take :
    (e : TransferHistoryEntry) (store : HistoryStore)
    → insert_newest e store
      ≡ record store { entries = take store.config.max_entries (e ∷ store.entries) }
unfolding insert_newest
insert_newest-take e store = ground (arith, take-all store.config.max_entries (e ∷ store.entries))

insert_newest-WithinLimit :
    (e : TransferHistoryEntry) (store : HistoryStore) → WithinLimit (insert_newest e store)
unfolding insert_newest
insert_newest-WithinLimit e store =
    ground (arith, length-take store.config.max_entries (e ∷ store.entries))

retain-cons_kept :
    (cutoff : ℕ) (e : TransferHistoryEntry) (es : List TransferHistoryEntry)
    → cutoff ≤ e.timestamp
    → retain_since cutoff (e ∷ es) ≡ e ∷ retain_since cutoff es
unfolding retain_since
retain-cons_kept cutoff e es h = ground (arith, h)

retain-cons_dropped :
    (cutoff : ℕ) (e : TransferHistoryEntry) (es : List TransferHistoryEntry)
    → ¬ (cutoff ≤ e.timestamp)
    → retain_since cutoff (e ∷ es) ≡ retain_since cutoff es
unfolding retain_since
retain-cons_dropped cutoff e es h = ground (arith, h)

retained :
    (cutoff : ℕ) (e : TransferHistoryEntry) (es : List TransferHistoryEntry)
    → In e (retain_since cutoff es)
    → In e es × (cutoff ≤ e.timestamp)
unfolding retain_since
retained cutoff e [] h = absurd h
retained cutoff e (x ∷ es) h = elim (dec_le cutoff x.timestamp) [
  | yes p ↦ elim (subst (In e) (retain-cons_kept cutoff x es p) h) [
    | inl same ↦ (inl same, subst (λ (y : TransferHistoryEntry). cutoff ≤ y.timestamp) (sym same) p)
    | inr later ↦ let (m, q) = retained cutoff e es later in (inr m, q)
  ]
  | no p ↦
      let (m, q) = retained cutoff e es (subst (In e) (retain-cons_dropped cutoff x es p) h) in
      (inr m, q)
]

retains :
    (cutoff : ℕ) (e : TransferHistoryEntry) (es : List TransferHistoryEntry)
    → In e es
    → cutoff ≤ e.timestamp
    → In e (retain_since cutoff es)
retains cutoff e [] m q = absurd m
retains cutoff e (x ∷ es) m q = elim (dec_le cutoff x.timestamp) [
  | yes p ↦
      subst (In e) (sym (retain-cons_kept cutoff x es p))
        (elim m [ inl same ↦ inl same | inr later ↦ inr (retains cutoff e es later q) ])
  | no p ↦ subst (In e) (sym (retain-cons_dropped cutoff x es p)) (elim m [
    | inl same ↦ absurd (p (subst (λ (y : TransferHistoryEntry). cutoff ≤ y.timestamp) same q))
    | inr later ↦ retains cutoff e es later q
  ])
]

-- Without a number of days, a record stays however old it is.
abbrev pub Recent : ℕ → Option ℕ → TransferHistoryEntry → Type 0
Recent now none e = Unit {0}
Recent now (some days) e = now - days * 24 * 60 * 60 ≤ e.timestamp

-- Exactly the records are left that are not older than the configured number of days, and all of
-- them if no number is configured.
pub apply_auto_clear_exact :
    (now : ℕ) (store : HistoryStore) (e : TransferHistoryEntry)
    → In e (apply_auto_clear now store).entries
      ↔ (In e store.entries × Recent now store.config.auto_clear_days e)
unfolding apply_auto_clear
apply_auto_clear_exact now store e = elim (Option-cases store.config.auto_clear_days) [
  | inl h ↦ rw h (λ m. (m, tt), λ m. m.0)
  | inr (days, h) ↦ rw h (
    retained (now - days * 24 * 60 * 60) e store.entries,
    λ m. retains (now - days * 24 * 60 * 60) e store.entries m.0 m.1,
  )
]

module _ (storage : Storage HistoryDatabase) where
  -- One record after the other, whether or not they can be saved
  abbrev pub add_all :
      List TransferHistoryEntry → HistoryStore → storage.Disk → HistoryStore × storage.Disk
  add_all [] store disk = (store, disk)
  add_all (e ∷ es) store disk =
      let (store', (disk', r)) = add storage e store disk in add_all es store' disk'

  -- The record that was added last is found by its identifier and listed first.
  pub add_found :
      (e : TransferHistoryEntry) (store : HistoryStore) (disk : storage.Disk)
      → 0 < store.config.max_entries
      → let after = (add storage e store disk).0 in
        (find_by_id e.id after ≡ some e) × (list (some 1) after ≡ e ∷ []) × (get 0 after ≡ some e)
  unfolding add find_by_id list get find_entry
  add_found e store disk h =
      let (rest, first) = take-positive store.config.max_entries e store.entries h in
      rw (insert_newest-take e store ∙ ap (λ es. record store { entries = es }) first)
        (rw (==-self e.id) (refl, take_first e rest, refl))

  -- After any number of additions, whether or not they could be saved, the store holds the newest
  -- records, the last one first, as many as the limit allows, if it held no more than that before.
  pub add_recent :
      (es : List TransferHistoryEntry) (store : HistoryStore) (disk : storage.Disk)
      → WithinLimit store
      → (add_all es store disk).0
        ≡ record store { entries = take store.config.max_entries (newest_first es store.entries) }
  unfolding add
  add_recent [] store disk h =
      ap (λ es. record store { entries = es })
        (sym (take-all store.config.max_entries store.entries h))
  add_recent (e ∷ es) store disk h =
      let max = store.config.max_entries in
      add_recent es (insert_newest e store) (save_history storage (insert_newest e store) disk).0
        (insert_newest-WithinLimit e store)
      ∙ ap
          (λ (s : HistoryStore). record s {
            entries = take s.config.max_entries (newest_first es s.entries);
          })
          (insert_newest-take e store)
      ∙ ap (λ xs. record store { entries = xs })
          (take-newest_first max es (take max (e ∷ store.entries)) (e ∷ store.entries)
            (take-take max max (e ∷ store.entries) (omega arith)))

  load_from-saved :
      (store : HistoryStore) (disk after : storage.Disk) (now : ℕ)
      → Drops storage store.path
      → save_history storage store disk ≡ (after, ok tt)
      → load_from storage now store.path store.config after ≡ ok (apply_auto_clear now store)
  unfolding save_history load_from
  load_from-saved store disk after now drops h =
      let (found, read) =
        read-save storage store.path (record { version = 1; entries = store.entries }) disk after
          drops h in
      rw (found, read) refl

  -- A record that was added and saved without an error is there after a restart: loading gives the
  -- same store, but for the records that are older than the configuration allows by then. The
  -- condition is that the writer of the file, when it is dropped, can write what is left in its
  -- buffer, which the code does not check.
  pub load_from-add :
      (e : TransferHistoryEntry) (store after : HistoryStore) (disk disk' : storage.Disk) (now : ℕ)
      → Drops storage store.path
      → add storage e store disk ≡ (after, (disk', ok tt))
      → load_from storage now store.path store.config disk' ≡ ok (apply_auto_clear now after)
  unfolding add load_from save_history
  load_from-add e store after disk disk' now drops h =
      let s = insert_newest e store in
      ap (λ (s : HistoryStore). load_from storage now s.path s.config disk')
        (sym (insert_newest-take e store))
      ∙ load_from-saved s disk disk' now
          (subst (λ (s : HistoryStore). Drops storage s.path) (sym (insert_newest-take e store))
            drops)
          (ap (λ r. r.1) h)
      ∙ ap (λ (s : HistoryStore). ok (apply_auto_clear now s)) (ap (λ r. r.0) h)
