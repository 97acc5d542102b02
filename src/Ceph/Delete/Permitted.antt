-- ===== src/Ceph/Delete/Permitted.antt =====
-- Commands that change the cluster, and the steps that only run permitted ones.
use apollo_controller.Prelude.{ℕ, inl, inr, ◌⊎◌, ◌≡◌, refl, Bool, true, false, [], ◌∷◌, ◌++◌, arith}
use apollo_controller.Prelude.Text.{Bytes, has_prefix, bytes_eq}
use apollo_controller.Ceph.Path.{zombie_prefix}
use apollo_controller.Ceph.Command.{
  Volume, Command, rm, snap_rm, unmap, unprotect, mv, snap_rename, Tool, Act, image_name,
  snapshot_path, pool_path, ceph_rbd_volume_unmap, ceph_rbd_volume_snapshot_unmap,
  ceph_rbd_volume_delete, ceph_rbd_volume_mark_deleted, ceph_rbd_snapshot_unprotect,
  ceph_rbd_snapshot_delete, ceph_rbd_volume_snapshot_rename,
}
use apollo_controller.Ceph.Delete.Keeps.{
  Keeps, bind-Keeps, checked-Keeps, if-Keeps, run_command-Keeps, unmap_loop-Keeps,
}
use apollo_controller.Ceph.Delete.{
  Outcome, is_zombie, Target, volume, snapshot, unmap_and_delete, mark_volume, remove_snapshot,
  mark_snapshot,
}

pub has_prefix-extend : (s t p : Bytes) → has_prefix s p ≡ true → has_prefix (s ++ t) p ≡ true
unfolding has_prefix bytes_eq
has_prefix-extend s t [] h = ground (arith, h)
has_prefix-extend [] t (c ∷ p) h = ground (arith, h)
has_prefix-extend (a ∷ s) t (c ∷ p) h = ground (arith, h, has_prefix-extend s t p)

-- Commands that change something: which volumes may be removed, which may be renamed to a zombie, and
-- which snapshots may be unprotected, removed or renamed to a zombie. What may be removed or renamed
-- may be unmapped, and nothing else.
abbrev pub Permitted :
    (Bytes → Bytes → Type 0)
    → (Bytes → Bytes → Type 0)
    → (Bytes → Bytes → Bytes → Type 0)
    → Command
    → Type 0
Permitted removable markable alterable (rm pool image) = removable pool image
Permitted removable markable alterable (mv source target) =
    (pool : Bytes) × (image : Bytes) × (source ≡ pool_path pool image)
    × (target ≡ pool_path pool (zombie_prefix ++ image))
    × markable pool image
Permitted removable markable alterable (snap_rm pool path) =
    (image : Bytes) × (snap : Bytes) × (path ≡ snapshot_path image snap) × alterable pool image snap
Permitted removable markable alterable (snap_rename source target) =
    (pool : Bytes) × (image : Bytes) × (snap : Bytes) × (source
      ≡ pool_path pool (snapshot_path image snap))
    × (target ≡ pool_path pool (snapshot_path image (zombie_prefix ++ snap)))
    × alterable pool image snap
Permitted removable markable alterable (unprotect pool image snap) = alterable pool image snap
Permitted removable markable alterable (unmap pool name) =
    (removable pool name ⊎ markable pool name)
    ⊎ ((image : Bytes) × (snap : Bytes) × (name ≡ snapshot_path image snap)
        × alterable pool image snap)
Permitted removable markable alterable _ = Unit

module _ {W : Type 0} (tool : Tool W) (removable markable : Bytes → Bytes → Type 0)
    (alterable : Bytes → Bytes → Bytes → Type 0) where
  abbrev pub Holds : Command → Type 0
  Holds = Permitted removable markable alterable

  pub unmap-Keeps :
      (fuel : ℕ) (v : Volume) (until : Bool)
      → removable v.pool (image_name v) ⊎ markable v.pool (image_name v)
      → Keeps Holds (ceph_rbd_volume_unmap tool fuel v until)
  unfolding ceph_rbd_volume_unmap
  unmap-Keeps fuel v until own =
      unmap_loop-Keeps Holds tool v.pool (image_name v) (inl own) fuel until

  pub snapshot_unmap-Keeps :
      (fuel : ℕ) (v : Volume) (snap : Bytes) (until : Bool)
      → alterable v.pool (image_name v) snap
      → Keeps Holds (ceph_rbd_volume_snapshot_unmap tool fuel v snap until)
  unfolding ceph_rbd_volume_snapshot_unmap
  snapshot_unmap-Keeps fuel v snap until alter =
      unmap_loop-Keeps Holds tool v.pool (snapshot_path (image_name v) snap)
        (inr (image_name v, snap, refl, alter)) fuel until

  pub unmap_and_delete-Keeps :
      (fuel : ℕ) (v : Volume)
      → removable v.pool (image_name v)
      → Keeps Holds (unmap_and_delete tool fuel v)
  unfolding unmap_and_delete ceph_rbd_volume_delete
  unmap_and_delete-Keeps fuel v r =
      bind-Keeps Holds _ _
        (bind-Keeps Holds _ _ (unmap-Keeps fuel v true (inl r)) (checked-Keeps Holds))
        (λ unmapped.
          bind-Keeps Holds _ _ (run_command-Keeps Holds tool (rm v.pool (image_name v)) r)
            (checked-Keeps Holds))

  pub mark_volume-Keeps :
      (fuel : ℕ) (v : Volume)
      → removable v.pool (image_name v) ⊎ markable v.pool (image_name v)
      → (is_zombie v.volume_type ≡ false → markable v.pool (image_name v))
      → Keeps Holds (mark_volume tool fuel v)
  unfolding mark_volume ceph_rbd_volume_mark_deleted
  mark_volume-Keeps fuel v own r =
      bind-Keeps Holds _ _
        (bind-Keeps Holds _ _ (unmap-Keeps fuel v true own) (checked-Keeps Holds))
        (λ unmapped.
          if-Keeps Holds (is_zombie v.volume_type) _ _ (λ z w a. a)
            (λ z.
              bind-Keeps Holds _ _
                (bind-Keeps Holds _ _
                  (run_command-Keeps Holds tool
                    (mv (pool_path v.pool (image_name v))
                      (pool_path v.pool (zombie_prefix ++ image_name v)))
                    (v.pool, image_name v, refl, refl, r z))
                  (checked-Keeps Holds))
                (λ renamed w a. a)))

  module _ (delete : Target → Act W Outcome) (fuel : ℕ) (v : Volume) where
    pub remove_snapshot-Keeps :
        (snap : Bytes) (ret : Outcome)
        → alterable v.pool (image_name v) snap
        → (is_zombie v.volume_type ≡ true → Keeps Holds (delete (volume v)))
        → Keeps Holds (remove_snapshot tool fuel delete v snap ret)
    unfolding remove_snapshot ceph_rbd_snapshot_unprotect ceph_rbd_snapshot_delete
    remove_snapshot-Keeps snap ret alter k =
        bind-Keeps Holds _ _
          (bind-Keeps Holds _ _
            (bind-Keeps Holds _ _
              (run_command-Keeps Holds tool (unprotect v.pool (image_name v) snap) alter)
              (λ r w a. a))
            (checked-Keeps Holds))
          (λ unprotected.
            bind-Keeps Holds _ _
              (bind-Keeps Holds _ _ (snapshot_unmap-Keeps fuel v snap true alter)
                (checked-Keeps Holds))
              (λ unmapped.
                bind-Keeps Holds _ _
                  (bind-Keeps Holds _ _
                    (run_command-Keeps Holds tool
                      (snap_rm v.pool (snapshot_path (image_name v) snap))
                      (image_name v, snap, refl, alter))
                    (checked-Keeps Holds))
                  (λ gone.
                    if-Keeps Holds (is_zombie v.volume_type) _ _
                      (λ z. bind-Keeps Holds _ _ (k z) (λ done w a. a)) (λ z w a. a))))

    pub mark_snapshot-Keeps :
        (snap : Bytes)
        → alterable v.pool (image_name v) snap
        → Keeps Holds (mark_snapshot tool fuel v snap)
    unfolding mark_snapshot ceph_rbd_volume_snapshot_rename
    mark_snapshot-Keeps snap alter =
        if-Keeps Holds (is_zombie snap) _ _ (λ z w a. a)
          (λ z.
            bind-Keeps Holds _ _
              (bind-Keeps Holds _ _ (snapshot_unmap-Keeps fuel v snap true alter)
                (checked-Keeps Holds))
              (λ unmapped.
                bind-Keeps Holds _ _
                  (bind-Keeps Holds _ _
                    (run_command-Keeps Holds tool
                      (snap_rename (pool_path v.pool (snapshot_path (image_name v) snap))
                        (pool_path v.pool (snapshot_path (image_name v) (zombie_prefix ++ snap))))
                      (v.pool, image_name v, snap, refl, refl, alter))
                    (checked-Keeps Holds))
                  (λ renamed w a. a)))

  -- What a target must bring along.
  abbrev pub Good : Target → Type 0
  Good (volume v) =
      removable v.pool (image_name v)
      × (is_zombie v.volume_type ≡ false → markable v.pool (image_name v))
      × ((snap : Bytes) → alterable v.pool (image_name v) snap)
  Good (snapshot v snap) = alterable v.pool (image_name v) snap
