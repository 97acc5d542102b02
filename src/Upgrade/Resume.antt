-- ===== src/Upgrade/Resume.antt =====
-- What a run of the updates leaves to be done.
use apollo_controller.Prelude.{
  subst, ℕ, ◌<◌, ◌≡◌, refl, sym, ap, ◌∙◌, Bool, true, false, not, ◌&&◌, List, [], ◌∷◌, ◌++◌,
  append_assoc, append-nil, arith, leb, if◌then◌else◌, All,
}
use apollo_controller.Upgrade.{
  Db, Actions, get_schema, newest, apply, post, then_loop, updates_loop, updates_apply_all,
}
use apollo_controller.Upgrade.Missing.{
  missing, IsIncreasing, newest-append, Resumes, Resumes-stopped, Resumes-skipped, Resumes-applied,
}

-- What `apply` and `postApply` leave: no row and an error, or the row of the version.
data Left {W : Type 0} (v : ℕ) (db : Db W) (r : Bool × Db W) : Type 0 where
  unchanged : r.0 ≡ false → r.1.versions ≡ db.versions → Left v db r
  written : r.1.versions ≡ db.versions ++ (v ∷ []) → Left v db r

if-Left :
    {W : Type 0} {v : ℕ} {db : Db W} (b : Bool) {r₁ r₂ : Bool × Db W}
    → Left v db r₁
    → Left v db r₂
    → Left v db (if b then r₁ else r₂)
if-Left true l₁ l₂ = l₁
if-Left false l₁ l₂ = l₂

written-version :
    {W : Type 0} (v current : ℕ) (db after : Db W)
    → current < v
    → newest db.versions ≡ current
    → after.versions ≡ db.versions ++ (v ∷ [])
    → newest after.versions ≡ v
written-version v current db after h e w =
    let q = ap newest w ∙ newest-append db.versions v in ground (arith, q, e, h)

if-holds :
    {A : Type 0} (P : A → Type 0) (b : Bool) (x y : A)
    → (b ≡ true → P x)
    → (b ≡ false → P y)
    → P (if b then x else y)
if-holds P true x y f g = f refl
if-holds P false x y f g = g refl

module _ {W : Type 0} (a : Actions W) where
  apply-Left : (v current : ℕ) (db : Db W) → Left v db (apply a v current db)
  unfolding apply
  apply-Left v current db =
      if-Left (a.run current v db.rest).0
        (if-Left (a.insert_row v (a.run current v db.rest).1) (written refl) (unchanged refl refl))
        (unchanged refl refl)

  post-Left :
      (has_post : Bool) (v : ℕ) (db : Db W) (r : Bool × Db W)
      → Left v db r
      → Left v db (post a has_post v r)
  post-Left has_post v db (false, after) l = l
  post-Left false v db (true, after) l = l
  post-Left true v db (true, after) (unchanged f e) = ground arith
  post-Left true v db (true, after) (written e) = written e

  -- The rest of the loop, where it comes to it.
  then-Resumes :
      (loop : Db W → Bool × Db W) (v : ℕ) (updates : List ℕ) (current : ℕ) (db : Db W)
      (r : Bool × Db W)
      → current < v
      → All (λ x. v < x) updates
      → newest db.versions ≡ current
      → ((next : Db W) → newest next.versions ≡ v → Resumes updates v next (loop next))
      → Left v db r
      → Resumes (v ∷ updates) current db (then_loop a loop r)
  then-Resumes loop v updates current db (false, after) h above e ih (unchanged f same) =
      Resumes-stopped (v ∷ updates) current db (false, after) e refl same
  then-Resumes loop v updates current db (true, after) h above e ih (unchanged f same) =
      ground arith
  then-Resumes loop v updates current db (false, after) h above e ih (written w) =
      Resumes-applied v updates current db after (false, after) h above w
        (Resumes-stopped updates v after (false, after) (written-version v current db after h e w)
          refl refl)
  then-Resumes loop v updates current db (true, after) h above e ih (written w) =
      Resumes-applied v updates current db after (loop after) h above w
        (ih after (written-version v current db after h e w))

  updates_loop-Resumes :
      (has_post : Bool) (updates : List ℕ) (current : ℕ) (to_backup : Bool) (db : Db W)
      → IsIncreasing updates
      → newest db.versions ≡ current
      → Resumes updates current db (updates_loop a has_post updates current to_backup db)
  unfolding updates_loop missing
  updates_loop-Resumes has_post [] current to_backup db inc e =
      ([], sym (append-nil db.versions), refl, omega arith, λ f. refl)
  updates_loop-Resumes has_post (v ∷ updates) current to_backup db inc e =
      let applied =
        then_loop a (updates_loop a has_post updates v false)
          (post a has_post v (apply a v current db)) in
      if-holds (Resumes (v ∷ updates) current db) (leb v current)
        (updates_loop a has_post updates current to_backup db)
        (if to_backup && not (a.backup db.rest) then (false, db) else applied)
        (λ b.
          Resumes-skipped v updates current db
            (updates_loop a has_post updates current to_backup db) (ground (arith, b))
            (updates_loop-Resumes has_post updates current to_backup db inc.1 e))
        (λ b.
          if-holds (Resumes (v ∷ updates) current db) (to_backup && not (a.backup db.rest))
            (false, db) applied
            (λ _. Resumes-stopped (v ∷ updates) current db (false, db) e refl refl)
            (λ _.
              then-Resumes (updates_loop a has_post updates v false) v updates current db
                (post a has_post v (apply a v current db)) (ground (arith, b)) inc.0 e
                (λ next q. updates_loop-Resumes has_post updates v false next inc.1 q)
                (post-Left has_post v db (apply a v current db) (apply-Left v current db))))

-- Start-ups that apply the updates, one behind the other, each with what its calls do.
unfoldable pub start_ups : {W : Type 0} → List ℕ → Bool → Bool → List (Actions W) → Db W → Db W
start_ups updates do_backup has_post [] db = db
start_ups updates do_backup has_post (a ∷ runs) db =
    start_ups updates do_backup has_post runs (updates_apply_all a updates do_backup has_post db).1

-- The query for the version succeeds.
abbrev pub Reads : {W : Type 0} → Actions W → Type 0
Reads {W} a = (w : W) → a.read_schema w ≡ true

apply_all-loop :
    {W : Type 0} (a : Actions W) (updates : List ℕ) (do_backup has_post : Bool) (db : Db W)
    → Reads a
    → updates_apply_all a updates do_backup has_post db
      ≡ updates_loop a has_post updates (newest db.versions) do_backup db
unfolding updates_apply_all get_schema
apply_all-loop a updates do_backup has_post db k = rw (k db.rest) refl

start_ups-rows :
    {W : Type 0} (updates : List ℕ) (do_backup has_post : Bool) (runs : List (Actions W))
    (db : Db W)
    → IsIncreasing updates
    → All Reads runs
    → (added : List ℕ) × ((start_ups updates do_backup has_post runs db).versions
        ≡ db.versions ++ added)
      × (missing (newest db.versions) updates
          ≡ added
            ++ missing (newest (start_ups updates do_backup has_post runs db).versions) updates)
unfolding start_ups
start_ups-rows updates do_backup has_post [] db inc k = ([], sym (append-nil db.versions), refl)
start_ups-rows updates do_backup has_post (a ∷ runs) db inc k =
    let (first, r1, m1, _, _) =
      subst (Resumes updates (newest db.versions) db)
        (sym (apply_all-loop a updates do_backup has_post db k.0))
        (updates_loop-Resumes a has_post updates (newest db.versions) do_backup db inc refl) in
    let (more, r2, m2) =
      start_ups-rows updates do_backup has_post runs
        (updates_apply_all a updates do_backup has_post db).1 inc k.1 in
    (
      first ++ more,
      r2 ∙ ap (λ m. m ++ more) r1 ∙ append_assoc db.versions first more,
      m1 ∙ ap (λ m. first ++ m) m2 ∙ sym (append_assoc first more _),
    )

-- No call fails.
pub record IsWorking {W : Type 0} (a : Actions W) : Type 0 where
  pub reads : Reads a
  pub runs : (current v : ℕ) (w : W) → (a.run current v w).0 ≡ true
  pub inserts : (v : ℕ) (w : W) → a.insert_row v w ≡ true
  pub backs_up : (w : W) → a.backup w ≡ true
  pub posts : (v : ℕ) (w : W) → (a.post_apply v w).0 ≡ true

module _ {W : Type 0} (a : Actions W) (k : IsWorking a) where
  then_loop-works :
      (loop : Db W → Bool × Db W) (has_post : Bool) (v current : ℕ) (db : Db W)
      → ((next : Db W) → (loop next).0 ≡ true)
      → (then_loop a loop (post a has_post v (apply a v current db))).0 ≡ true
  unfolding apply
  then_loop-works loop false v current db h =
      rw (k.runs current v db.rest, k.inserts v (a.run current v db.rest).1) (h _)
  then_loop-works loop true v current db h =
      rw
        (
          k.runs current v db.rest,
          k.inserts v (a.run current v db.rest).1,
          k.posts v (a.run current v db.rest).1,
        )
        (h _)

  updates_loop-works :
      (has_post : Bool) (updates : List ℕ) (current : ℕ) (to_backup : Bool) (db : Db W)
      → (updates_loop a has_post updates current to_backup db).0 ≡ true
  unfolding updates_loop
  updates_loop-works has_post [] current to_backup db = refl
  updates_loop-works has_post (v ∷ updates) current to_backup db =
      if-holds (λ (r : Bool × Db W). r.0 ≡ true) (leb v current)
        (updates_loop a has_post updates current to_backup db) _
        (λ _. updates_loop-works has_post updates current to_backup db)
        (λ _.
          if-holds (λ (r : Bool × Db W). r.0 ≡ true) (to_backup && not (a.backup db.rest))
            (false, db) _ (λ b. ground (arith, b, k.backs_up db.rest))
            (λ _.
              then_loop-works (updates_loop a has_post updates v false) has_post v current db
                (λ next. updates_loop-works has_post updates v false next)))

-- However many start-ups fail, and wherever they fail but in the query for the version: the first one
-- where no call fails succeeds, and then the table of versions has grown by exactly the updates above
-- its old version, each once and in their order. The updates are listed by increasing version.
pub start_ups-exact :
    {W : Type 0} (updates : List ℕ) (do_backup has_post : Bool) (runs : List (Actions W))
    (last : Actions W) (db : Db W)
    → IsIncreasing updates
    → All Reads runs
    → IsWorking last
    → ((updates_apply_all last updates do_backup has_post
          (start_ups updates do_backup has_post runs db)).0
        ≡ true)
      × ((updates_apply_all last updates do_backup has_post
            (start_ups updates do_backup has_post runs db)).1.versions
          ≡ db.versions ++ missing (newest db.versions) updates)
start_ups-exact updates do_backup has_post runs last db inc reads k =
    let before = start_ups updates do_backup has_post runs db in
    let run = apply_all-loop last updates do_backup has_post before k.reads in
    let (more, r1, m1) = start_ups-rows updates do_backup has_post runs db inc reads in
    let (added, r2, m2, _, done) =
      updates_loop-Resumes last has_post updates (newest before.versions) do_backup before inc
        refl in
    let h = updates_loop-works last k has_post updates (newest before.versions) do_backup before in
    let left = m2 ∙ ap (λ m. added ++ m) (done h) ∙ append-nil added in
    (
      ap (λ r. r.0) run ∙ h,
      ap (λ r. r.1.versions) run
          ∙ r2
          ∙ ap (λ m. m ++ added) r1
          ∙ append_assoc db.versions more added
          ∙ ap (λ m. db.versions ++ m) (sym (m1 ∙ ap (λ m. more ++ m) left)),
    )
