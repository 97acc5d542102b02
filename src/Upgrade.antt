-- ===== src/Upgrade.antt =====
-- The upgrades at start-up: UpdatesApplyAll and apply of apollo/db/update.go, with GetSchema of
-- apollo/db/db.go; patchesApplyAll of apollo/patches.go. What one update does is a parameter, and so
-- is what a statement of the database answers.
pub mod Missing
pub mod Resume
use apollo_controller.Prelude.{
  ℕ, zero, suc, ◌+◌, ◌-◌, ◌*◌, ◌/◌, ◌%◌, ◌^◌, ◌≤◌, ◌<◌, ◌≡◌, ◌≢◌, ◌↔◌, ◌⊎◌, inl, inr, refl, sym, ap,
  ap₂, subst, ◌∙◌, Bool, true, false, not, ◌&&◌, ◌||◌, Option, none, some, List, [], ◌∷◌, ◌++◌, map,
  append_assoc, append-nil, arith, ltb, leb, ◌==◌, if◌then◌else◌, bool_eq, Bool-cases, Option-cases,
  ==_iff, length, max, take, drop, length-append, take-length-append, drop-length-append, All,
  All-append, All-imp, Result, ok, err, ◌>>=◌, ◌>>◌, guard, or_fail, >>=-eq-ok, ok-injective,
}
use apollo_controller.Prelude.Text.{Bytes, string_in_slice}

-- The database: the rows of the table `schema`, in the order of their insertion, those of `patches`,
-- and all else.
pub record Db (W : Type 0) : Type 0 where
  pub versions : List ℕ
  pub patches : List Bytes
  pub rest : W

-- `max(version)` of the rows.
unfoldable pub newest : List ℕ → ℕ
newest [] = 0
newest (v ∷ versions) = max v (newest versions)

-- `SELECT max(version) FROM schema`: 0 where there is no row, and where the query fails.
unfoldable pub get_schema : Bool → List ℕ → ℕ
get_schema answered versions = if answered then newest versions else 0

-- What the upgrades call: whether it succeeds, and what it leaves.
pub record Actions (W : Type 0) : Type 0 where
  pub run : ℕ → ℕ → W → Bool × W
  pub insert_row : ℕ → W → Bool
  pub backup : W → Bool
  pub post_apply : ℕ → W → Bool × W
  pub run_patch : Bytes → W → Bool × W
  pub insert_patch : Bytes → W → Bool
  pub read_patches : W → Bool
  pub read_schema : W → Bool

module _ {W : Type 0} (a : Actions W) where
  unfoldable pub apply : ℕ → ℕ → Db W → Bool × Db W
  apply version current db =
      let (fine, w) = a.run current version db.rest in
      if fine
      then if a.insert_row version w
        then (true, record db { versions = db.versions ++ (version ∷ []); rest = w })
        else (false, record db { rest = w })
      else (false, record db { rest = w })

  -- `postApply` is nil, or a call.
  abbrev pub post : Bool → ℕ → Bool × Db W → Bool × Db W
  post has_post version (false, db) = (false, db)
  post false version (true, db) = (true, db)
  post true version (true, db) =
      let (fine, w) = a.post_apply version db.rest in (fine, record db { rest = w })

  -- The loop over the updates, with the version so far and whether a backup is still to be made.
  abbrev pub then_loop : (Db W → Bool × Db W) → Bool × Db W → Bool × Db W
  then_loop loop (false, db) = (false, db)
  then_loop loop (true, db) = loop db

  unfoldable pub updates_loop : Bool → List ℕ → ℕ → Bool → Db W → Bool × Db W
  updates_loop has_post [] current to_backup db = (true, db)
  updates_loop has_post (version ∷ updates) current to_backup db =
      let skipped = updates_loop has_post updates current to_backup db in
      let applied =
        then_loop (updates_loop has_post updates version false)
          (post has_post version (apply version current db)) in
      if leb version current
      then skipped
      else if to_backup && not (a.backup db.rest)
      then (false, db)
      else applied

  unfoldable pub updates_apply_all : List ℕ → Bool → Bool → Db W → Bool × Db W
  updates_apply_all updates do_backup has_post db =
      updates_loop has_post updates (get_schema (a.read_schema db.rest) db.versions) do_backup db

  unfoldable pub apply_patch : Bytes → Db W → Bool × Db W
  apply_patch name db =
      let (fine, w) = a.run_patch name db.rest in
      if fine
      then if a.insert_patch name w
        then (true, record db { patches = db.patches ++ (name ∷ []); rest = w })
        else (false, record db { rest = w })
      else (false, record db { rest = w })

  unfoldable pub patches_loop : List Bytes → List Bytes → Db W → Bool × Db W
  patches_loop [] applied db = (true, db)
  patches_loop (name ∷ patches) applied db =
      let skipped = patches_loop patches applied db in
      let next = then_loop (patches_loop patches applied) (apply_patch name db) in
      if string_in_slice name applied then skipped else next

  unfoldable pub patches_apply_all : List Bytes → Db W → Bool × Db W
  patches_apply_all patches db =
      if a.read_patches db.rest then patches_loop patches db.patches db else (false, db)
