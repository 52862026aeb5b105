-- ===== src/Transfer/Manager.antt =====
-- crates/yoop-core/src/transfer/resume.rs: the files in which resume states are kept.
pub mod Saving
pub mod Cleaning
pub mod Memory
use yoop.Base.{
  ℕ, ◌≡◌, ◌≢◌, Bool, true, false, Option, none, some, List, [], ◌∷◌, ◌++◌, ltb, suc, ◌==◌,
  if◌then◌else◌, Result, ok, err, io, file_system, ◌-◌,
}
use yoop.Storage.{Text}
use yoop.Transfer.{ResumeState}
use yoop.Transfer.Sender.{same_text}

pub data FileState : Type 0 where
  missing : FileState
  unreadable : FileState
  holds : List ℕ → FileState

-- ".yoop-resume"
abbrev pub resume_file_extension : Text
resume_file_extension =
    b'.' ∷ b'y' ∷ b'o' ∷ b'o' ∷ b'p' ∷ b'-' ∷ b'r' ∷ b'e' ∷ b's' ∷ b'u' ∷ b'm' ∷ b'e' ∷ []

abbrev pub tmp : Text
tmp = b't' ∷ b'm' ∷ b'p' ∷ []

-- serde on resume states: what it prints it parses again.
pub record StateJson : Type 0 where
  pub to_json : ResumeState → Option (List ℕ)
  pub from_json : List ℕ → Option ResumeState
  pub round_trip :
      (s : ResumeState) (json : List ℕ) → to_json s ≡ some json → from_json json ≡ some s

-- The file system below the manager. A call gives whether it succeeded, and the disk afterwards, which
-- may have changed although it failed; the laws say that no other file changes, what a call that
-- succeeds leaves in its file, and that a `rename` that fails changes nothing. `join` is the path in
-- the resume directory, `uuid` the printed identifier.
pub record ResumeDisk : Type 1 where
  pub Disk : Type 0
  pub content : Text → Disk → FileState
  pub join : Text → Text
  pub uuid : ℕ → Text
  pub with_extension : Text → Text → Text
  pub read_dir : Disk → Option (List Text)
  pub create : Text → Disk → Bool × Disk
  pub write_all : Text → List ℕ → Disk → Bool × Disk
  pub sync_all : Text → Disk → Bool × Disk
  pub rename : Text → Text → Disk → Bool × Disk
  pub remove_file : Text → Disk → Bool × Disk
  pub paths_differ :
      (i j : ℕ)
      → join (uuid i ++ resume_file_extension) ≡ join (uuid j ++ resume_file_extension)
      → i ≡ j
  pub temp_differs :
      (i j : ℕ)
      → with_extension (join (uuid i ++ resume_file_extension)) tmp
        ≢ join (uuid j ++ resume_file_extension)
  pub create_ne : (p q : Text) (d : Disk) → p ≢ q → content q (create p d).1 ≡ content q d
  pub create_ok :
      (p : Text) (d : Disk) → (create p d).0 ≡ true → content p (create p d).1 ≡ holds []
  pub write_ne :
      (p q : Text) (xs : List ℕ) (d : Disk) → p ≢ q → content q (write_all p xs d).1 ≡ content q d
  pub write_ok :
      (p : Text) (xs : List ℕ) (d : Disk)
      → (write_all p xs d).0 ≡ true
      → content p d ≡ holds []
      → content p (write_all p xs d).1 ≡ holds xs
  pub sync_same : (p q : Text) (d : Disk) → content q (sync_all p d).1 ≡ content q d
  pub rename_ne :
      (p q r : Text) (d : Disk) → p ≢ r → q ≢ r → content r (rename p q d).1 ≡ content r d
  pub rename_ok :
      (p q : Text) (d : Disk) → (rename p q d).0 ≡ true → content q (rename p q d).1 ≡ content p d
  pub rename_failed :
      (p q r : Text) (d : Disk)
      → (rename p q d).0 ≡ false
      → content r (rename p q d).1 ≡ content r d
  pub remove_ne : (p q : Text) (d : Disk) → p ≢ q → content q (remove_file p d).1 ≡ content q d
  pub remove_ok :
      (p : Text) (d : Disk) → (remove_file p d).0 ≡ true → content p (remove_file p d).1 ≡ missing
  pub remove_failed :
      (p q : Text) (d : Disk)
      → (remove_file p d).0 ≡ false
      → content q (remove_file p d).1 ≡ content q d

module _ (fs : ResumeDisk) (json : StateJson) where
  abbrev pub resume_file_path : ℕ → Text
  resume_file_path transfer_id = fs.join (fs.uuid transfer_id ++ resume_file_extension)

  -- `?` after a call: the error, or what comes next
  abbrev pub after :
      Bool × fs.Disk → (fs.Disk → Result (Unit {0}) × fs.Disk) → Result (Unit {0}) × fs.Disk
  after (true, d) next = next d
  after (false, d) next = (err (io file_system), d)

  unfoldable pub save_as : Text → Text → List ℕ → fs.Disk → Result (Unit {0}) × fs.Disk
  save_as path temp_path text d = after (fs.create temp_path d) (λ d₁.
      after (fs.write_all temp_path text d₁) (λ d₂.
        after (fs.sync_all temp_path d₂)
          (λ d₃. after (fs.rename temp_path path d₃) (λ d₄. (ok tt, d₄)))))

  unfoldable pub save : ResumeState → fs.Disk → Result (Unit {0}) × fs.Disk
  unfolding save_as
  save state d =
      let path = resume_file_path state.transfer_id in
      elim (json.to_json state) [
        | none ↦ (err (io file_system), d)
        | some text ↦ save_as path (fs.with_extension path tmp) text d
      ]

  abbrev pub parsed : Option ResumeState → Result ResumeState
  parsed none = err (io file_system)
  parsed (some state) = ok state

  -- Of a file that is as given
  unfoldable pub load_from_path : FileState → Result ResumeState
  load_from_path missing = err (io file_system)
  load_from_path unreadable = err (io file_system)
  load_from_path (holds text) = parsed (json.from_json text)

  unfoldable pub load_state : FileState → Result (Option ResumeState)
  unfolding load_from_path
  load_state missing = ok none
  load_state file = elim (load_from_path file) [ err e ↦ err e | ok state ↦ ok (some state) ]

  unfoldable pub load : ℕ → fs.Disk → Result (Option ResumeState)
  unfolding load_state
  load transfer_id d = load_state (fs.content (resume_file_path transfer_id) d)

  abbrev pub exists : FileState → Bool
  exists missing = false
  exists unreadable = true
  exists (holds text) = true

  unfoldable pub delete : ℕ → fs.Disk → Result (Unit {0}) × fs.Disk
  delete transfer_id d =
      let path = resume_file_path transfer_id in
      if exists (fs.content path d)
      then after (fs.remove_file path d) (λ d'. (ok tt, d'))
      else (ok tt, d)

  ends_with : Text → Text → Bool
  ends_with [] suffix = same_text [] suffix
  ends_with (x ∷ name) suffix =
      let rest = ends_with name suffix in if same_text (x ∷ name) suffix then true else rest

  -- Of a name without directories; `file_name` of a path in the resume directory
  unfoldable pub is_resume_file : Text → Bool
  unfolding ends_with
  is_resume_file name = ends_with name resume_file_extension

  -- What `find_by_code`, `cleanup_older_than` and `list` see of an entry: its state, if it can be loaded
  unfoldable pub state_of : fs.Disk → Text → Option ResumeState
  unfolding is_resume_file
  state_of d name =
      if is_resume_file name
      then elim (load_from_path (fs.content (fs.join name) d)) [
        | err e ↦ none
        | ok state ↦ some state
      ]
      else none

  unfoldable pub find_in : Text → fs.Disk → List Text → Option ResumeState
  find_in code d [] = none
  find_in code d (name ∷ names) =
      let rest = find_in code d names in
      elim (state_of d name) [
        | none ↦ rest
        | some state ↦ if same_text state.code code then some state else rest
      ]

  unfoldable pub find_by_code : Text → fs.Disk → Result (Option ResumeState)
  find_by_code code d = elim (fs.read_dir d) [
    | none ↦ err (io file_system)
    | some names ↦ ok (find_in code d names)
  ]

  abbrev pub count_if : Bool → ℕ → ℕ
  count_if true n = suc n
  count_if false n = n

  -- The loop of `cleanup_older_than`, over the entries that are there when it begins
  unfoldable pub clean_entries : ℕ → List Text → fs.Disk → ℕ → ℕ × fs.Disk
  clean_entries cutoff [] d cleaned = (cleaned, d)
  clean_entries cutoff (name ∷ names) d cleaned = elim (state_of d name) [
    | none ↦ clean_entries cutoff names d cleaned
    | some state ↦ elim (ltb state.updated_at cutoff) [
      | false ↦ clean_entries cutoff names d cleaned
      | true ↦
          clean_entries cutoff names (fs.remove_file (fs.join name) d).1
            (count_if (fs.remove_file (fs.join name) d).0 cleaned)
    ]
  ]

  -- Times count from a start before all of them; `now - max_age` stops there.
  unfoldable pub cleanup_older_than : ℕ → ℕ → fs.Disk → Result ℕ × fs.Disk
  cleanup_older_than now max_age d = elim (fs.read_dir d) [
    | none ↦ (err (io file_system), d)
    | some names ↦ let r = clean_entries (now - max_age) names d 0 in (ok r.0, r.1)
  ]
