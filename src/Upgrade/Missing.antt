-- ===== src/Upgrade/Missing.antt =====
-- Which updates are missing before and after a step.
use apollo_controller.Prelude.{
  ℕ, ◌≤◌, ◌<◌, ◌≡◌, refl, sym, ap, subst, ◌∙◌, Bool, true, false, List, [], ◌∷◌, ◌++◌, append_assoc,
  append-nil, arith, leb, if◌then◌else◌, max, All,
}
use apollo_controller.Upgrade.{Db, newest}

-- The updates above a version.
unfoldable pub missing : ℕ → List ℕ → List ℕ
missing current [] = []
missing current (v ∷ updates) =
    let rest = missing current updates in if leb v current then rest else v ∷ rest

-- Versions only go up.
abbrev pub IsIncreasing : List ℕ → Type 0
IsIncreasing [] = Unit
IsIncreasing (v ∷ updates) = All (λ x. v < x) updates × IsIncreasing updates

missing-same :
    (low high : ℕ) (updates : List ℕ)
    → low ≤ high
    → All (λ x. high < x) updates
    → missing low updates ≡ missing high updates
unfolding missing
missing-same low high [] h a = refl
missing-same low high (v ∷ updates) h a = ground (arith, a.0, missing-same low high updates h a.1)

pub newest-append :
    (versions : List ℕ) (v : ℕ) → newest (versions ++ (v ∷ [])) ≡ max (newest versions) v
unfolding newest
newest-append [] v = ground arith
newest-append (x ∷ versions) v = ground (arith, newest-append versions v)

-- The rows that a run has added to the table, and what is missing before and after it.
abbrev pub Resumes : {W : Type 0} → List ℕ → ℕ → Db W → Bool × Db W → Type 0
Resumes updates current db (fine, after) =
    (added : List ℕ) × (after.versions ≡ db.versions ++ added)
    × (missing current updates ≡ added ++ missing (newest after.versions) updates)
    × (current ≤ newest after.versions)
    × (fine ≡ true → missing (newest after.versions) updates ≡ [])

missing-above :
    (low v : ℕ) (updates : List ℕ) → low < v → missing low (v ∷ updates) ≡ v ∷ missing low updates
unfolding missing
missing-above low v updates h = ground arith

missing-below :
    (high v : ℕ) (updates : List ℕ) → v ≤ high → missing high (v ∷ updates) ≡ missing high updates
unfolding missing
missing-below high v updates h = ground arith

pub Resumes-stopped :
    {W : Type 0} (updates : List ℕ) (current : ℕ) (db : Db W) (r : Bool × Db W)
    → newest db.versions ≡ current
    → r.0 ≡ false
    → r.1.versions ≡ db.versions
    → Resumes updates current db r
Resumes-stopped updates current db (fine, after) e f same = (
  [],
  same ∙ sym (append-nil db.versions),
  ap (λ n. missing n updates) (sym (ap newest same ∙ e)),
  subst (λ n. n ≤ newest after.versions) (ap newest same ∙ e) (omega arith),
  λ t. ground arith,
)

pub Resumes-skipped :
    {W : Type 0} (v : ℕ) (updates : List ℕ) (current : ℕ) (db : Db W) (r : Bool × Db W)
    → v ≤ current
    → Resumes updates current db r
    → Resumes (v ∷ updates) current db r
Resumes-skipped v updates current db (fine, after) h (added, rows, left, grown, all_done) =
    let below = missing-below (newest after.versions) v updates (omega (arith, h, grown)) in
    (
      added,
      rows,
      missing-below current v updates h ∙ left ∙ ap (λ m. added ++ m) (sym below),
      grown,
      λ f. below ∙ all_done f,
    )

pub Resumes-applied :
    {W : Type 0} (v : ℕ) (updates : List ℕ) (current : ℕ) (db next : Db W) (r : Bool × Db W)
    → current < v
    → All (λ x. v < x) updates
    → next.versions ≡ db.versions ++ (v ∷ [])
    → Resumes updates v next r
    → Resumes (v ∷ updates) current db r
Resumes-applied v updates current db next (fine, after) h above e
      (added, rows, left, grown, all_done) =
    let below = missing-below (newest after.versions) v updates grown in
    (
      v ∷ added,
      rows ∙ ap (λ m. m ++ added) e ∙ append_assoc db.versions (v ∷ []) added,
      missing-above current v updates h
          ∙ ap (λ m. v ∷ m) (missing-same current v updates (omega arith) above ∙ left)
          ∙ ap (λ m. v ∷ (added ++ m)) (sym below),
      omega arith,
      λ f. below ∙ all_done f,
    )
