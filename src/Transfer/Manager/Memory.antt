-- ===== src/Transfer/Manager/Memory.antt =====
-- A disk in memory for the resume files, and states as lists of numbers, for the concrete runs.
use yoop.Base.{
  ℕ, suc, ◌≡◌, ◌≢◌, refl, ap, ◌∙◌, true, false, some, List, [], ◌∷◌, ℕ_discrete, arith, ok,
}
use yoop.Storage.{Text}
use yoop.Transfer.{ResumeState}
use yoop.Transfer.Manager.{
  FileState, missing, holds, StateJson, ResumeDisk, resume_file_extension, load,
}
use yoop.Transfer.Manager.Saving.{load-saved}

abbrev pub Files : Type 0
Files = Text → FileState

abbrev Text-discrete : Discrete Text
Text-discrete = hlevel ℕ_discrete

pub stored : Text → FileState → Files → Files
stored p v d = λ q. elim (Text-discrete p q) [ yes same ↦ v | no ne ↦ d q ]

pub stored_self : (p : Text) (v : FileState) (d : Files) → stored p v d p ≡ v
unfolding stored
stored_self p v d = at (Text-discrete p p)
  where
    at : (decision : Dec (p ≡ p)) → Path FileState (elim decision [ yes same ↦ v | no ne ↦ d p ]) v
    at (yes same) = refl
    at (no ne) = absurd (ne refl)

pub stored_ne : (p q : Text) (v : FileState) (d : Files) → p ≢ q → stored p v d q ≡ d q
unfolding stored
stored_ne p q v d other = at (Text-discrete p q)
  where
    at :
        (decision : Dec (p ≡ q))
        → Path FileState (elim decision [ yes same ↦ v | no ne ↦ d q ]) (d q)
    at (yes same) = absurd (other same)
    at (no ne) = refl

abbrev head_or : ℕ → List ℕ → ℕ
head_or n [] = n
head_or n (x ∷ xs) = x

pub paths_differ :
    (i j : ℕ) → (suc i ∷ resume_file_extension) ≡ (suc j ∷ resume_file_extension) → i ≡ j
paths_differ i j h = omega (arith, ap (head_or 0) h)

pub temp_differs : (i j : ℕ) (rest : Text) → (0 ∷ rest) ≡ (suc j ∷ resume_file_extension) → ⊥
temp_differs i j rest h = omega (arith, ap (head_or 0) h)

pub true_ne : true ≡ false → ⊥
true_ne h = cc

-- Only one identifier has a name of its first character; a temporary file's name begins with 0.
abbrev pub resume_memory : ResumeDisk
resume_memory = record {
  Disk = Files;
  content = λ p d. d p;
  join = λ name. name;
  uuid = λ i. suc i ∷ [];
  with_extension = λ path extension. 0 ∷ path;
  read_dir = λ d. some ((2 ∷ resume_file_extension) ∷ (8 ∷ resume_file_extension) ∷ []);
  create = λ p d. (true, stored p (holds []) d);
  write_all = λ p xs d. (true, stored p (holds xs) d);
  sync_all = λ p d. (true, d);
  rename = λ p q d. (true, stored q (d p) (stored p missing d));
  remove_file = λ p d. (true, stored p missing d);
  paths_differ = paths_differ;
  temp_differs = λ i j. temp_differs i j _;
  create_ne = λ p q d ne. stored_ne p q (holds []) d ne;
  create_ok = λ p d h. stored_self p (holds []) d;
  write_ne = λ p q xs d ne. stored_ne p q (holds xs) d ne;
  write_ok = λ p xs d h before. stored_self p (holds xs) d;
  sync_same = λ p q d. refl;
  rename_ne = λ p q r d ne ne'. stored_ne q r (d p) _ ne' ∙ stored_ne p r missing d ne;
  rename_ok = λ p q d h. stored_self q (d p) _;
  rename_failed = λ p q r d h. absurd (true_ne h);
  remove_ne = λ p q d ne. stored_ne p q missing d ne;
  remove_ok = λ p d h. stored_self p missing d;
  remove_failed = λ p q d h. absurd (true_ne h);
}

abbrev pub no_files : Files
no_files p = missing

-- Every file holds the same
abbrev pub all_hold : List ℕ → Files
all_hold text p = holds text

pub all_hold-load :
    (json : StateJson) (s : ResumeState) (text : List ℕ) (i : ℕ)
    → json.from_json text ≡ some s
    → load resume_memory json i (all_hold text) ≡ ok (some s)
unfolding load
all_hold-load json s text i h = load-saved resume_memory json s text h
