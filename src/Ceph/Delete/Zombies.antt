-- ===== src/Ceph/Delete/Zombies.antt =====
-- What a deletion removes.
use apollo_controller.Prelude.{
  ℕ, zero, suc, ◌≡◌, ◌⊎◌, inl, inr, true, false, ◌||◌, List, ◌∷◌, ◌++◌, ltb, Bool-cases, Result, ok,
  err,
}
use apollo_controller.Prelude.Text.{Bytes}
use apollo_controller.Ceph.Path.{zombie_prefix, parse_parent}
use apollo_controller.Ceph.Command.{
  Volume, Command, snap_ls, info, children, Failure, exited, not_started, no_such_object,
  unexpected_answer, Tool, Act, image_name, ceph_rbd_volume_list_snapshots,
  ceph_rbd_snapshot_list_clones, ceph_rbd_volume_get_parent,
}
use apollo_controller.Ceph.Delete.Keeps.{
  Keeps, bind-Keeps, parsed-Keeps, if-Keeps, delete_snapshots-Keeps, delete_clones-Keeps,
  run_command-Keeps,
}
use apollo_controller.Ceph.Delete.{
  Outcome, deleted, marked, is_zombie, Target, volume, snapshot, delete_with_parent,
  delete_without_snapshots, delete_listed, container_delete, remove_snapshot, delete_cloned,
  container_snapshot_delete, ceph_delete,
}
use apollo_controller.Ceph.Delete.Permitted.{
  has_prefix-extend, Permitted, unmap_and_delete-Keeps, mark_volume-Keeps, remove_snapshot-Keeps,
  mark_snapshot-Keeps, Good,
}

module _ {W : Type 0} (tool : Tool W) (removable markable : Bytes → Bytes → Type 0)
    (alterable : Bytes → Bytes → Bytes → Type 0) where
  abbrev Held : Command → Type 0
  Held = Permitted removable markable alterable

  abbrev Fit : Target → Type 0
  Fit = Good tool removable markable alterable

  module _ (zombie_volumes : (pool image : Bytes) → is_zombie image ≡ true → removable pool image)
      (zombie_snapshots : (pool image snap : Bytes)
        → (is_zombie image ≡ true) ⊎ (is_zombie snap ≡ true)
        → alterable pool image snap)
      (delete : Target → Act W Outcome) (deletes : (t : Target) → Fit t → Keeps Held (delete t))
      (fuel : ℕ) where
    zombie-Keeps : (v : Volume) → is_zombie v.volume_type ≡ true → Keeps Held (delete (volume v))
    zombie-Keeps v z =
        let n = has_prefix-extend v.volume_type (b'_' ∷ v.name) zombie_prefix z in
        deletes (volume v) (
          zombie_volumes v.pool (image_name v) n,
          λ z'. cc,
          λ snap. zombie_snapshots v.pool (image_name v) snap (inl n),
        )

    container_snapshot_delete-Keeps :
        (v : Volume) (snap : Bytes)
        → Fit (snapshot v snap)
        → Keeps Held (container_snapshot_delete tool fuel delete v snap)
    unfolding container_snapshot_delete ceph_rbd_snapshot_list_clones delete_cloned
    container_snapshot_delete-Keeps v snap alter =
        bind-Keeps Held _ _
          (bind-Keeps Held _ _
            (run_command-Keeps Held tool (children v.pool (image_name v) snap) tt) (λ r w a. a))
          listed
      where
        removed : (ret : Outcome) → Keeps Held (remove_snapshot tool fuel delete v snap ret)
        removed ret =
            remove_snapshot-Keeps tool removable markable alterable delete fuel v snap ret alter
              (zombie-Keeps v)

        listed :
            (r : Result Failure (List Bytes)) → Keeps Held (delete_cloned tool fuel delete v snap r)
        listed (err no_such_object) = removed deleted
        listed (err (exited n)) = λ w a. a
        listed (err not_started) = λ w a. a
        listed (err unexpected_answer) = λ w a. a
        listed (ok clones) =
            bind-Keeps Held _ _ (delete_clones-Keeps Held _ clones zombie-Keeps) (λ can.
              if-Keeps Held can _ _ (λ e. removed marked)
                (λ e.
                  mark_snapshot-Keeps tool removable markable alterable delete fuel v snap alter))

    delete_with_parent-Keeps :
        (v : Volume) (parent : Bytes)
        → Fit (volume v)
        → Keeps Held (delete_with_parent tool fuel delete v parent)
    unfolding delete_with_parent
    delete_with_parent-Keeps v parent g =
        bind-Keeps Held _ _ (parsed-Keeps Held (parse_parent parent)) (λ p.
          bind-Keeps Held _ _ (unmap_and_delete-Keeps tool removable markable alterable fuel v g.0)
            (λ gone.
              if-Keeps Held (is_zombie p.1 || is_zombie p.3) _ _
                (λ z.
                  bind-Keeps Held _ _
                    (deletes
                      (snapshot (record { pool = v.pool; volume_type = p.1; name = p.2 }) p.3)
                      (zombie_snapshots v.pool (p.1 ++ b'_' ∷ p.2) p.3 (either p.1 p.2 p.3 z)))
                    (λ ret w a. a))
                (λ z w a. a)))
      where
        either :
            (t n s : Bytes)
            → is_zombie t || is_zombie s ≡ true
            → (is_zombie (t ++ b'_' ∷ n) ≡ true) ⊎ (is_zombie s ≡ true)
        either t n s z = elim (Bool-cases (is_zombie t)) [
          | inl e ↦ inl (has_prefix-extend t (b'_' ∷ n) zombie_prefix e)
          | inr e ↦ inr (rw e at z)
        ]

    -- With snapshots, the volume itself is not removed.
    pub delete_snapshots_of-Keeps :
        (v : Volume) (snaps : List Bytes)
        → removable v.pool (image_name v) ⊎ markable v.pool (image_name v)
        → (is_zombie v.volume_type ≡ false → markable v.pool (image_name v))
        → ((snap : Bytes) → alterable v.pool (image_name v) snap)
        → Keeps Held (delete_listed tool fuel delete v (ok snaps))
    unfolding delete_listed
    delete_snapshots_of-Keeps v snaps own mark alter =
        bind-Keeps Held _ _
          (delete_snapshots-Keeps Held _ snaps (λ snap. deletes (snapshot v snap) (alter snap)))
          (λ zombies.
            if-Keeps Held (ltb 0 zombies) _ _
              (λ e. mark_volume-Keeps tool removable markable alterable fuel v own mark)
              (λ e w a. a))

    container_delete-Keeps :
        (v : Volume) → Fit (volume v) → Keeps Held (container_delete tool fuel delete v)
    unfolding container_delete delete_listed delete_without_snapshots ceph_rbd_volume_list_snapshots
        ceph_rbd_volume_get_parent
    container_delete-Keeps v g =
        bind-Keeps Held _ _
          (bind-Keeps Held _ _ (run_command-Keeps Held tool (snap_ls v.pool (image_name v)) tt)
            (λ r w a. a))
          listed
      where
        alone :
            (r : Result Failure Bytes) → Keeps Held (delete_without_snapshots tool fuel delete v r)
        alone (ok parent) = delete_with_parent-Keeps v parent g
        alone (err no_such_object) =
            bind-Keeps Held _ _
              (unmap_and_delete-Keeps tool removable markable alterable fuel v g.0) (λ gone w a. a)
        alone (err (exited n)) = λ w a. a
        alone (err not_started) = λ w a. a
        alone (err unexpected_answer) = λ w a. a

        listed : (r : Result Failure (List Bytes)) → Keeps Held (delete_listed tool fuel delete v r)
        listed (ok snaps) = delete_snapshots_of-Keeps v snaps (inl g.0) g.1 g.2
        listed (err no_such_object) =
            bind-Keeps Held _ _
              (bind-Keeps Held _ _ (run_command-Keeps Held tool (info v.pool (image_name v)) tt)
                (λ r w a. a))
              alone
        listed (err (exited n)) = λ w a. a
        listed (err not_started) = λ w a. a
        listed (err unexpected_answer) = λ w a. a

  pub ceph_delete-Keeps :
      ((pool image : Bytes) → is_zombie image ≡ true → removable pool image)
      → ((pool image snap : Bytes)
          → (is_zombie image ≡ true) ⊎ (is_zombie snap ≡ true)
          → alterable pool image snap)
      → (fuel : ℕ) (target : Target) → Fit target
      → Keeps Held (ceph_delete tool fuel target)
  unfolding ceph_delete
  ceph_delete-Keeps zv zs zero target g = λ w a. a
  ceph_delete-Keeps zv zs (suc fuel) (volume v) g =
      container_delete-Keeps zv zs (ceph_delete tool fuel) (ceph_delete-Keeps zv zs fuel) fuel v g
  ceph_delete-Keeps zv zs (suc fuel) (snapshot v snap) g =
      container_snapshot_delete-Keeps zv zs (ceph_delete tool fuel) (ceph_delete-Keeps zv zs fuel)
        fuel v snap g
