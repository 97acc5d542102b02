-- ===== src/Ceph/Delete/Results.antt =====
-- What the results of the two deletions do not tell.
use apollo_controller.Prelude.{
  ℕ, zero, suc, ◌≡◌, ◌≢◌, inl, inr, ◌⊎◌, ◌∷◌, Bool-cases, refl, sym, subst, ◌∙◌, Bool, true, false,
  List, if◌then◌else◌, All, All-imp, Result, ok, err,
}
use apollo_controller.Prelude.Text.{Bytes}
use apollo_controller.Ceph.Command.{
  Volume, Command, snap_ls, rm, Tool, Stop, World, Act, return, continue, ◌>>=◌, image_name,
  ceph_rbd_volume_list_snapshots, ceph_rbd_snapshot_list_clones,
}
use apollo_controller.Ceph.Delete.Keeps.{Keeps, bind-Keeps, run_command-Keeps}
use apollo_controller.Ceph.Delete.{
  Outcome, deleted, marked, is_zombie, Target, volume, delete_clones, delete_listed,
  container_delete, remove_snapshot, mark_snapshot, delete_cloned, container_snapshot_delete,
  ceph_delete, ceph_container_delete, ceph_container_snapshot_delete,
}
use apollo_controller.Ceph.Delete.Permitted.{Permitted, has_prefix-extend}
use apollo_controller.Ceph.Path.{zombie_prefix}
use apollo_controller.Ceph.Delete.Zombies.{delete_snapshots_of-Keeps, ceph_delete-Keeps}
use apollo_controller.Ceph.Delete.Safe.{started, Unmarked, OwnOrMarked, Marked, own_marked}

module _ {W : Type 0} (tool : Tool W) where
  listing-Keeps :
      (P : Command → Type 0) (v : Volume)
      → P (snap_ls v.pool (image_name v))
      → Keeps P (ceph_rbd_volume_list_snapshots tool v)
  unfolding ceph_rbd_volume_list_snapshots
  listing-Keeps P v p =
      bind-Keeps P _ _ (run_command-Keeps P tool (snap_ls v.pool (image_name v)) p) (λ r w a. a)

  spares :
      (v : Volume)
      → is_zombie (image_name v) ≡ false
      → (c : Command) → Permitted Marked (Unmarked v) (OwnOrMarked v) c
      → c ≢ rm v.pool (image_name v)
  spares v n c p e =
      let z = subst (Permitted Marked (Unmarked v) (OwnOrMarked v)) e p in let t = sym n ∙ z in cc

  -- A volume that has snapshots and no mark is never removed, whatever the result is: also when all of
  -- its snapshots are deleted and the result is 0.
  pub container_delete-leaks :
      (fuel : ℕ) (v : Volume) (cluster : W) (snaps : List Bytes)
      → (ceph_rbd_volume_list_snapshots tool v (started cluster)).0 ≡ ok (ok snaps)
      → is_zombie (image_name v) ≡ false
      → All
          (λ c. c ≢ rm v.pool (image_name v))
          (ceph_container_delete tool fuel v (started cluster)).1.log
  unfolding ceph_delete container_delete ◌>>=◌
  container_delete-leaks zero v cluster snaps e n = tt
  container_delete-leaks (suc fuel) v cluster snaps e n =
      let P = Permitted Marked (Unmarked v) (OwnOrMarked v) in
      let (r, w) = ceph_rbd_volume_list_snapshots tool v (started cluster) in
      let delete = ceph_delete tool fuel in
      let deletes =
        ceph_delete-Keeps tool Marked (Unmarked v) (OwnOrMarked v) (λ pool image z. z)
          (own_marked v) fuel in
      let touch : Marked v.pool (image_name v) ⊎ Unmarked v v.pool (image_name v) =
        elim (Bool-cases (is_zombie v.volume_type)) [
          | inl z ↦ inl (has_prefix-extend v.volume_type (b'_' ∷ v.name) zombie_prefix z)
          | inr z ↦ inr (refl, refl, z)
        ] in
      subst
        (λ r.
          All (λ c. c ≢ rm v.pool (image_name v))
            (continue r w (delete_listed tool fuel delete v)).1.log)
        (sym e)
        (All-imp P (λ c. c ≢ rm v.pool (image_name v)) (spares v n) _
          (delete_snapshots_of-Keeps tool Marked (Unmarked v) (OwnOrMarked v) (λ pool image z. z)
            (own_marked v) delete deletes fuel v snaps touch (λ z. (refl, refl, z))
            (λ snap. inl (inl (refl, refl))) w (listing-Keeps P v tt (started cluster) tt)))

  abbrev NotDeleted : Act W Outcome → Type 0
  NotDeleted m = (w : World W) → (m w).0 ≢ ok deleted

  continue-NotDeleted :
      {A : Type 0} (r : Result Stop A) (w : World W) (f : A → Act W Outcome)
      → ((a : A) → NotDeleted (f a))
      → (continue r w f).0 ≢ ok deleted
  continue-NotDeleted (err s) w f k = λ e. cc
  continue-NotDeleted (ok x) w f k = k x w

  bind-NotDeleted :
      {A : Type 0} (m : Act W A) (f : A → Act W Outcome)
      → ((a : A) → NotDeleted (f a))
      → NotDeleted (m >>= f)
  unfolding ◌>>=◌
  bind-NotDeleted m f k w = continue-NotDeleted (m w).0 (m w).1 f k

  marked-NotDeleted : NotDeleted (return marked)
  marked-NotDeleted w e = cc

  if-NotDeleted :
      (b : Bool) (m n : Act W Outcome)
      → NotDeleted m
      → NotDeleted n
      → NotDeleted (if b then m else n)
  if-NotDeleted true m n k l = k
  if-NotDeleted false m n k l = l

  remove_snapshot-NotDeleted :
      (fuel : ℕ) (delete : Target → Act W Outcome) (v : Volume) (snap : Bytes)
      → NotDeleted (remove_snapshot tool fuel delete v snap marked)
  unfolding remove_snapshot
  remove_snapshot-NotDeleted fuel delete v snap = bind-NotDeleted _ _ (λ a.
      bind-NotDeleted _ _ (λ b. bind-NotDeleted _ _ (λ c.
        if-NotDeleted (is_zombie v.volume_type) _ _ (bind-NotDeleted _ _ (λ d. marked-NotDeleted))
          marked-NotDeleted)))

  mark_snapshot-NotDeleted :
      (fuel : ℕ) (v : Volume) (snap : Bytes) → NotDeleted (mark_snapshot tool fuel v snap)
  unfolding mark_snapshot
  mark_snapshot-NotDeleted fuel v snap =
      if-NotDeleted (is_zombie snap) _ _ marked-NotDeleted
        (bind-NotDeleted _ _ (λ a. bind-NotDeleted _ _ (λ b. marked-NotDeleted)))

  -- The deletion of a snapshot that has clones does not return 0: not even when all clones are deleted
  -- and the snapshot is removed.
  pub snapshot_delete-counted :
      (fuel : ℕ) (v : Volume) (snap : Bytes) (cluster : W) (clones : List Bytes)
      → (ceph_rbd_snapshot_list_clones tool v snap (started cluster)).0 ≡ ok (ok clones)
      → (ceph_container_snapshot_delete tool fuel v snap (started cluster)).0 ≢ ok deleted
  unfolding ceph_delete container_snapshot_delete delete_cloned ◌>>=◌
  snapshot_delete-counted zero v snap cluster clones e = λ h. cc
  snapshot_delete-counted (suc fuel) v snap cluster clones e =
      let (r, w) = ceph_rbd_snapshot_list_clones tool v snap (started cluster) in
      let delete = ceph_delete tool fuel in
      subst (λ r. (continue r w (delete_cloned tool fuel delete v snap)).0 ≢ ok deleted) (sym e)
        (bind-NotDeleted (delete_clones (λ clone. delete (volume clone)) clones) _
          (λ can.
            if-NotDeleted can _ _ (remove_snapshot-NotDeleted fuel delete v snap)
              (mark_snapshot-NotDeleted fuel v snap))
          w)
