-- ===== src/Transfer/Manager/Cleaning.antt =====
-- crates/yoop-core/src/transfer/resume.rs: what cleaning up leaves to be loaded.
use yoop.Base.{
  ℕ, ◌≡◌, ◌-◌, ◌≤◌, refl, ap, ◌∙◌, inl, inr, Bool, true, false, Option, none, some, List, [], ◌∷◌,
  Bool-cases, Option-cases, ltb, ltb→lt, if◌then◌else◌, Result, ok, err, ℕ_discrete, arith,
}
use yoop.Storage.{Text}
use yoop.Transfer.{ResumeState}
use yoop.Transfer.Manager.{
  FileState, holds, missing, unreadable, StateJson, ResumeDisk, resume_file_path, load_from_path,
  load_state, load, is_resume_file, state_of, clean_entries, count_if, cleanup_older_than, parsed,
}

Text-discrete : Discrete Text
Text-discrete = hlevel ℕ_discrete

module _ (fs : ResumeDisk) (json : StateJson) where
  loaded :
      (file : FileState) (s : ResumeState)
      → load_state fs json file ≡ ok (some s)
      → load_from_path fs json file ≡ ok s
  unfolding load_state load_from_path
  loaded missing s h = cc
  loaded unreadable s h = cc
  loaded (holds text) s h = from_parsed (json.from_json text) h
    where
      from_parsed :
          (o : Option ResumeState)
          → elim (parsed fs json o) [ err e ↦ err e | ok state ↦ ok (some state) ] ≡ ok (some s)
          → parsed fs json o ≡ ok s
      from_parsed none h = cc
      from_parsed (some t) h = cc

  abbrev picked : Bool → Result ResumeState → Option ResumeState
  picked b r = if b then elim r [ err e ↦ none | ok state ↦ some state ] else none

  picked-same :
      (b : Bool) (r : Result ResumeState) (s t : ResumeState)
      → r ≡ ok s
      → picked b r ≡ some t
      → s ≡ t
  picked-same true (ok u) s t h k = cc
  picked-same true (err e) s t h k = cc
  picked-same false r s t h k = cc

  state_same :
      (d : fs.Disk) (name : Text) (s t : ResumeState)
      → load_from_path fs json (fs.content (fs.join name) d) ≡ ok s
      → state_of fs json d name ≡ some t
      → s ≡ t
  unfolding state_of
  state_same d name s t h k =
      picked-same (is_resume_file fs json name)
        (load_from_path fs json (fs.content (fs.join name) d)) s t h k

  module _ (cutoff : ℕ) (q : Text) (s : ResumeState) (fresh : cutoff ≤ s.updated_at) where
    too_old : (t : ResumeState) → s ≡ t → ltb t.updated_at cutoff ≡ true → ⊥
    too_old t same old =
        omega (arith, fresh, ltb→lt t.updated_at cutoff old, ap (λ x. x.updated_at) same)

    cleaned-Same :
        (names : List Text) (d : fs.Disk) (n : ℕ)
        → load_state fs json (fs.content q d) ≡ ok (some s)
        → fs.content q (clean_entries fs json cutoff names d n).1 ≡ fs.content q d
    unfolding clean_entries
    cleaned-Same [] d n h = refl
    cleaned-Same (name ∷ names) d n h = elim (Option-cases (state_of fs json d name)) [
      | inl none_there ↦ rw (none_there, clean_entries) (cleaned-Same names d n h)
      | inr (t, there) ↦ elim (Bool-cases (ltb t.updated_at cutoff)) [
        | inr kept ↦ rw (there, clean_entries, kept) (cleaned-Same names d n h)
        | inl old ↦
            let removed = fs.remove_file (fs.join name) d in
            elim (Text-discrete (fs.join name) q) [
              | yes same ↦ absurd (
                  too_old t
                    (state_same d name s t
                      (ap (λ p. load_from_path fs json (fs.content p d)) same
                        ∙ loaded (fs.content q d) s h)
                      there)
                    old)
              | no ne ↦
                  let untouched = fs.remove_ne (fs.join name) q d ne in
                  rw (there, clean_entries, old)
                    (cleaned-Same names removed.1 (count_if fs json removed.0 n)
                        (ap (load_state fs json) untouched ∙ h)
                      ∙ untouched)
            ]
      ]
    ]

  -- Cleaning up keeps what is not too old: a state that can be loaded and was updated no longer ago
  -- than the given age is loaded as before, whichever files could be removed and in whatever order the
  -- directory is read.
  pub cleanup_keeps :
      (now max_age transfer_id : ℕ) (d : fs.Disk) (s : ResumeState)
      → load fs json transfer_id d ≡ ok (some s)
      → now - max_age ≤ s.updated_at
      → load fs json transfer_id (cleanup_older_than fs json now max_age d).1 ≡ ok (some s)
  unfolding load cleanup_older_than
  cleanup_keeps now max_age transfer_id d s h fresh = elim (Option-cases (fs.read_dir d)) [
    | inl unread ↦ rw (unread, cleanup_older_than) h
    | inr (names, read) ↦
        rw (read, cleanup_older_than)
          (ap (load_state fs json) (
              cleaned-Same (now - max_age) (resume_file_path fs json transfer_id) s fresh names d 0
                h)
            ∙ h)
  ]
