-- ===== src/Ceph/Delete.antt =====
-- cephContainerDelete and cephContainerSnapshotDelete of apollo/storage_ceph_utils.go.
pub mod Keeps
pub mod Permitted
pub mod Zombies
pub mod Safe
pub mod Results
pub mod Unmapped
use apollo_controller.Prelude.{
  ℕ, zero, suc, ◌+◌, ◌-◌, ◌*◌, ◌/◌, ◌%◌, ◌^◌, ◌≤◌, ◌<◌, ◌≡◌, ◌≢◌, ◌↔◌, ◌⊎◌, inl, inr, refl, sym, ap,
  ap₂, subst, ◌∙◌, Bool, true, false, not, ◌&&◌, ◌||◌, Option, none, some, List, [], ◌∷◌, ◌++◌, map,
  append_assoc, append-nil, arith, ltb, leb, ◌==◌, if◌then◌else◌, bool_eq, Bool-cases, Option-cases,
  ==_iff, length, take, drop, length-append, take-length-append, drop-length-append, All,
  All-append, All-imp, Result, ok, err, guard, or_fail, >>=-eq-ok, ok-injective,
}
use apollo_controller.Prelude.Text.{Bytes, has_prefix}
use apollo_controller.Ceph.Path.{
  zombie_prefix, ParseError, unexpected, out_of_range, parse_clone, parse_parent,
}
use apollo_controller.Ceph.Command.{
  Volume, Failure, no_such_object, Tool, Stop, failed, panic, out_of_fuel, Act, return, stop, ◌>>=◌,
  ◌>>◌, checked, ceph_rbd_volume_list_snapshots, ceph_rbd_snapshot_list_clones,
  ceph_rbd_volume_get_parent, ceph_rbd_volume_unmap, ceph_rbd_volume_snapshot_unmap,
  ceph_rbd_volume_delete, ceph_rbd_volume_mark_deleted, ceph_rbd_snapshot_unprotect,
  ceph_rbd_snapshot_delete, ceph_rbd_volume_snapshot_rename,
}

-- The results 0 and 1.
pub data Outcome : Type 0 where
  deleted marked : Outcome

abbrev pub is_zombie : Bytes → Bool
is_zombie s = has_prefix s zombie_prefix

abbrev pub zombies_of : Outcome → ℕ
zombies_of deleted = 0
zombies_of marked = 1

abbrev pub can_delete : Outcome → Bool
can_delete deleted = true
can_delete marked = false

-- The two functions call each other.
pub data Target : Type 0 where
  volume : Volume → Target
  snapshot : Volume → Bytes → Target

module _ {W : Type 0} where
  abbrev pub parsed : {A : Type 0} → Result ParseError A → Act W A
  parsed (ok a) = return a
  parsed (err unexpected) = stop failed
  parsed (err out_of_range) = stop panic

  -- The loop over the snapshots of a volume: how many of them are zombies now.
  unfoldable pub delete_snapshots : (Bytes → Act W Outcome) → List Bytes → Act W ℕ
  delete_snapshots snapshot_delete [] = return 0
  delete_snapshots snapshot_delete (snap ∷ snaps) = snapshot_delete snap >>= λ ret.
      delete_snapshots snapshot_delete snaps >>= λ zombies. return (zombies_of ret + zombies)

  -- The loop over the clones of a snapshot: whether all of them are deleted.
  unfoldable pub delete_clones : (Volume → Act W Outcome) → List Bytes → Act W Bool
  delete_clones container_delete [] = return true
  delete_clones container_delete (clone ∷ clones) =
      let rest = delete_clones container_delete clones in
      parsed (parse_clone clone) >>= λ c.
      if is_zombie c.1
      then (container_delete (record { pool = c.0; volume_type = c.1; name = c.2 }) >>= λ ret.
          rest >>= λ can. return (can_delete ret && can))
      else rest >>= λ can. return false

module _ {W : Type 0} (tool : Tool W) (fuel : ℕ) where
  unfoldable pub unmap_and_delete : Volume → Act W Bytes
  unmap_and_delete v = ceph_rbd_volume_unmap tool fuel v true >>= checked >>= λ unmapped.
      ceph_rbd_volume_delete tool v >>= checked

  unfoldable pub mark_volume : Volume → Act W Outcome
  mark_volume v = ceph_rbd_volume_unmap tool fuel v true >>= checked >>= λ unmapped.
      if is_zombie v.volume_type
      then return marked
      else ceph_rbd_volume_mark_deleted tool v >>= checked >>= λ renamed. return marked

  -- A volume that is a clone, with the snapshot that it comes from.
  unfoldable pub delete_with_parent : (Target → Act W Outcome) → Volume → Bytes → Act W Outcome
  delete_with_parent delete v parent = parsed (parse_parent parent) >>= λ p.
      unmap_and_delete v >>= λ gone.
      if is_zombie p.1 || is_zombie p.3
      then (delete (snapshot (record { pool = v.pool; volume_type = p.1; name = p.2 }) p.3)
          >>= λ ret. return deleted)
      else return deleted

  unfoldable pub delete_without_snapshots :
      (Target → Act W Outcome) → Volume → Result Failure Bytes → Act W Outcome
  delete_without_snapshots delete v (ok parent) = delete_with_parent delete v parent
  delete_without_snapshots delete v (err no_such_object) =
      unmap_and_delete v >>= λ gone. return deleted
  delete_without_snapshots delete v (err e) = stop failed

  unfoldable pub delete_listed :
      (Target → Act W Outcome) → Volume → Result Failure (List Bytes) → Act W Outcome
  delete_listed delete v (ok snaps) =
      delete_snapshots (λ snap. delete (snapshot v snap)) snaps >>= λ zombies.
      if ltb 0 zombies then mark_volume v else return deleted
  delete_listed delete v (err no_such_object) =
      ceph_rbd_volume_get_parent tool v >>= λ parent. delete_without_snapshots delete v parent
  delete_listed delete v (err e) = stop failed

  unfoldable pub container_delete : (Target → Act W Outcome) → Volume → Act W Outcome
  container_delete delete v =
      ceph_rbd_volume_list_snapshots tool v >>= λ snaps. delete_listed delete v snaps

  -- What is done once nothing depends on the snapshot.
  unfoldable pub remove_snapshot :
      (Target → Act W Outcome) → Volume → Bytes → Outcome → Act W Outcome
  remove_snapshot delete v snap ret =
      ceph_rbd_snapshot_unprotect tool v snap >>= checked >>= λ unprotected.
      ceph_rbd_volume_snapshot_unmap tool fuel v snap true >>= checked >>= λ unmapped.
      ceph_rbd_snapshot_delete tool v snap >>= checked >>= λ gone.
      if is_zombie v.volume_type then (delete (volume v) >>= λ done. return ret) else return ret

  unfoldable pub mark_snapshot : Volume → Bytes → Act W Outcome
  mark_snapshot v snap =
      if is_zombie snap
      then return marked
      else ceph_rbd_volume_snapshot_unmap tool fuel v snap true >>= checked >>= λ unmapped.
          ceph_rbd_volume_snapshot_rename tool v snap (zombie_prefix ++ snap)
          >>= checked
          >>= λ renamed. return marked

  unfoldable pub delete_cloned :
      (Target → Act W Outcome) → Volume → Bytes → Result Failure (List Bytes) → Act W Outcome
  delete_cloned delete v snap (err no_such_object) = remove_snapshot delete v snap deleted
  delete_cloned delete v snap (err e) = stop failed
  delete_cloned delete v snap (ok clones) =
      delete_clones (λ clone. delete (volume clone)) clones >>= λ can.
      if can then remove_snapshot delete v snap marked else mark_snapshot v snap

  unfoldable pub container_snapshot_delete :
      (Target → Act W Outcome) → Volume → Bytes → Act W Outcome
  container_snapshot_delete delete v snap =
      ceph_rbd_snapshot_list_clones tool v snap >>= λ clones. delete_cloned delete v snap clones

-- The fuel bounds the depth of the calls, and the rounds of each loop `again`.
unfoldable pub ceph_delete : {W : Type 0} → Tool W → ℕ → Target → Act W Outcome
ceph_delete tool zero target = stop out_of_fuel
ceph_delete tool (suc fuel) (volume v) = container_delete tool fuel (ceph_delete tool fuel) v
ceph_delete tool (suc fuel) (snapshot v snap) =
    container_snapshot_delete tool fuel (ceph_delete tool fuel) v snap

abbrev pub ceph_container_delete : {W : Type 0} → Tool W → ℕ → Volume → Act W Outcome
ceph_container_delete tool fuel v = ceph_delete tool fuel (volume v)

abbrev pub ceph_container_snapshot_delete :
    {W : Type 0} → Tool W → ℕ → Volume → Bytes → Act W Outcome
ceph_container_snapshot_delete tool fuel v snap = ceph_delete tool fuel (snapshot v snap)
