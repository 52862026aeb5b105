-- ===== src/Transfer/Manager/Saving.antt =====
-- crates/yoop-core/src/transfer/resume.rs: what saving and deleting leave to be loaded.
use yoop.Base.{
  ℕ, ◌≡◌, ◌≢◌, refl, sym, ap, ◌∙◌, ◌⊎◌, inl, inr, Bool, true, false, some, List, subst, Bool-cases,
  Option-cases, Result, ok, err, io, file_system,
}
use yoop.Storage.{Text}
use yoop.Transfer.{ResumeState}
use yoop.Transfer.Manager.{
  holds, tmp, StateJson, ResumeDisk, resume_file_path, after, save_as, save, load_from_path,
  load_state, load,
}

module _ (fs : ResumeDisk) (json : StateJson) where
  abbrev Saved : Type 0
  Saved = Result (Unit {0}) × fs.Disk

  abbrev failed : Result (Unit {0})
  failed = err (io file_system)

  after-true :
      (r : Bool × fs.Disk) (next : fs.Disk → Saved) → r.0 ≡ true → after fs json r next ≡ next r.1
  after-true (true, d) next h = refl
  after-true (false, d) next h = cc

  after-false :
      (r : Bool × fs.Disk) (next : fs.Disk → Saved)
      → r.0 ≡ false
      → after fs json r next ≡ (failed, r.1)
  after-false (false, d) next h = refl
  after-false (true, d) next h = cc

  -- The file at the path has the new text, or the call failed and the file is as it was.
  abbrev Atomic : Text → List ℕ → fs.Disk → Saved → Type 0
  Atomic path text d r =
      ((r.0 ≡ ok tt) × (fs.content path r.1 ≡ holds text))
      ⊎ ((r.0 ≡ failed) × (fs.content path r.1 ≡ fs.content path d))

  module _ (path temp : Text) (apart : temp ≢ path) (text : List ℕ) (d₀ : fs.Disk) where
    -- A step that leaves the path as it was, and what follows it
    step-Atomic :
        (r : Bool × fs.Disk) (next : fs.Disk → Saved)
        → fs.content path r.1 ≡ fs.content path d₀
        → (r.0 ≡ true → Atomic path text d₀ (next r.1))
        → Atomic path text d₀ (after fs json r next)
    step-Atomic (true, d) next same h = h refl
    step-Atomic (false, d) next same h = inr (refl, same)

    rename-Atomic :
        (d : fs.Disk)
        → fs.content temp d ≡ holds text
        → fs.content path d ≡ fs.content path d₀
        → Atomic path text d₀ (after fs json (fs.rename temp path d) (λ d'. (ok tt, d')))
    rename-Atomic d new same = elim (Bool-cases (fs.rename temp path d).0) [
      | inl h ↦
          subst (Atomic path text d₀) (sym (after-true (fs.rename temp path d) _ h))
            (inl (refl, fs.rename_ok temp path d h ∙ new))
      | inr h ↦
          subst (Atomic path text d₀) (sym (after-false (fs.rename temp path d) _ h))
            (inr (refl, fs.rename_failed temp path path d h ∙ same))
    ]

    save_as-Atomic : Atomic path text d₀ (save_as fs json path temp text d₀)
    unfolding save_as
    save_as-Atomic =
        let d₁ = (fs.create temp d₀).1 in
        let d₂ = (fs.write_all temp text d₁).1 in
        let d₃ = (fs.sync_all temp d₂).1 in
        let same₁ = fs.create_ne temp path d₀ apart in
        let same₂ = fs.write_ne temp path text d₁ apart ∙ same₁ in
        let same₃ = fs.sync_same temp path d₂ ∙ same₂ in
        step-Atomic (fs.create temp d₀) _ same₁ (λ created.
          step-Atomic (fs.write_all temp text d₁) _ same₂ (λ written.
            step-Atomic (fs.sync_all temp d₂) _ same₃ (λ synced.
              rename-Atomic d₃
                (fs.sync_same temp temp d₂
                  ∙ fs.write_ok temp text d₁ written (fs.create_ok temp d₀ created))
                same₃)))

    after-Same :
        (q : Text) (r : Bool × fs.Disk) (next : fs.Disk → Saved)
        → fs.content q r.1 ≡ fs.content q d₀
        → fs.content q (next r.1).1 ≡ fs.content q d₀
        → fs.content q (after fs json r next).1 ≡ fs.content q d₀
    after-Same q (true, d) next same h = h
    after-Same q (false, d) next same h = same

    save_as-others :
        (q : Text)
        → temp ≢ q
        → path ≢ q
        → fs.content q (save_as fs json path temp text d₀).1 ≡ fs.content q d₀
    unfolding save_as
    save_as-others q temp_ne path_ne =
        let d₁ = (fs.create temp d₀).1 in
        let d₂ = (fs.write_all temp text d₁).1 in
        let d₃ = (fs.sync_all temp d₂).1 in
        let same₁ = fs.create_ne temp q d₀ temp_ne in
        let same₂ = fs.write_ne temp q text d₁ temp_ne ∙ same₁ in
        let same₃ = fs.sync_same temp q d₂ ∙ same₂ in
        let same₄ = fs.rename_ne temp path q d₃ temp_ne path_ne ∙ same₃ in
        after-Same q (fs.create temp d₀) _ same₁ (
          after-Same q (fs.write_all temp text d₁) _ same₂ (
            after-Same q (fs.sync_all temp d₂) _ same₃
              (after-Same q (fs.rename temp path d₃) _ same₄ same₄)))

  pub load-saved :
      (state : ResumeState) (text : List ℕ)
      → json.from_json text ≡ some state
      → load_state fs json (holds text) ≡ ok (some state)
  unfolding load_state load_from_path
  load-saved state text h = rw (h, load_state, load_from_path) refl

  -- Saving is atomic, whichever call of the file system fails: the state is loaded afterwards, or the
  -- save reports an error and what was stored before is still loaded. What is loaded for other
  -- transfers is the same in both cases.
  pub save_atomic :
      (state : ResumeState) (d : fs.Disk)
      → let r = save fs json state d in
        (((r.0 ≡ ok tt) × (load fs json state.transfer_id r.1 ≡ ok (some state)))
          ⊎ ((r.0 ≡ err (io file_system))
              × (load fs json state.transfer_id r.1 ≡ load fs json state.transfer_id d)))
        × ((other : ℕ) → other ≢ state.transfer_id → load fs json other r.1 ≡ load fs json other d)
  unfolding save load
  save_atomic state d =
      let path = resume_file_path fs json state.transfer_id in
      let temp = fs.with_extension path tmp in
      let apart = fs.temp_differs state.transfer_id state.transfer_id in
      elim (Option-cases (json.to_json state)) [
        | inl h ↦ rw (h, save) (inr (refl, refl), λ other ne. refl)
        | inr (text, h) ↦
            rw (h, save)
              (
                elim (save_as-Atomic path temp apart text d) [
                  | inl (good, content) ↦ inl (
                    good,
                    ap (load_state fs json) content
                        ∙ load-saved state text (json.round_trip state text h),
                  )
                  | inr (bad, content) ↦ inr (bad, ap (load_state fs json) content)
                ],
                λ other ne. ap (load_state fs json) (
                    save_as-others path temp apart text d (resume_file_path fs json other)
                      (fs.temp_differs state.transfer_id other)
                      (λ same. ne (sym (fs.paths_differ state.transfer_id other same)))),
              )
      ]
