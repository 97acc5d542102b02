-- ===== src/Tests/CephRuns.antt =====
-- Deletions in a pool with a container, its snapshot, and a clone that is marked.
use apollo_controller.Prelude.{
  ℕ, zero, suc, ◌<◌, true, length, ◌≡◌, ◌≢◌, inr, refl, sym, ◌∙◌, false, Option, none, some, List,
  [], ◌∷◌, arith, if◌then◌else◌, All, Result, ok, err,
}
use apollo_controller.Prelude.Text.{Bytes, codes, bytes_eq, contains_byte, fields, has_prefix}
use apollo_controller.Ceph.Path.{zombie_prefix, index, parse_clone, parse_parent, cut, parse_type}
use apollo_controller.Ceph.Path.RoundTrip.{parse_names_lem}
use apollo_controller.Ceph.Command.{
  Volume, Command, snap_ls, info, unmap, rm, snap_rm, children, unprotect, mv, Failure, exited,
  Tool, ceph_rbd_volume_list_snapshots, ceph_rbd_snapshot_list_clones, ◌>>=◌,
  ceph_rbd_snapshot_delete, ceph_rbd_snapshot_unprotect, ceph_rbd_volume_delete,
  ceph_rbd_volume_get_parent, ceph_rbd_volume_mark_deleted, ceph_rbd_volume_snapshot_unmap,
  ceph_rbd_volume_unmap, unmap_loop,
}
use apollo_controller.Ceph.Delete.{
  deleted, marked, ceph_container_delete, ceph_container_snapshot_delete, ceph_delete,
  container_delete, container_snapshot_delete, delete_cloned, delete_clones, delete_listed,
  delete_snapshots, delete_with_parent, delete_without_snapshots, mark_volume, remove_snapshot,
  unmap_and_delete,
}
use apollo_controller.Ceph.Delete.Permitted.{Permitted}
use apollo_controller.Ceph.Delete.Safe.{
  started, Own, Unmarked, OwnOrMarked, Marked, OwnSnapshot, container_delete-safe,
  snapshot_delete-safe,
}
use apollo_controller.Ceph.Delete.Results.{container_delete-leaks, snapshot_delete-counted}
use apollo_controller.Ceph.Delete.Unmapped.{IsUnmapping, unmap_loop_ends}
use apollo_controller.Ceph.Command.{World}

abbrev container_of : Bytes → Volume
container_of name = record { pool = codes "ceph"; volume_type = codes "container"; name = name }

abbrev answer_of : Command → Result Failure Bytes
answer_of (snap_ls pool image) =
    if bytes_eq image (codes "container_c1") then ok (codes "s") else ok []
answer_of (children pool image snap) = ok (codes "ceph/zombie_container_c2")
answer_of (info pool image) = ok (codes "size 1\nparent: ceph/container_c1@snapshot_s\noverlap 1\n")
answer_of (unmap pool image) = err (exited 22)
answer_of _ = ok []

abbrev snapshots_of : Bytes → Option (List (Option Bytes))
snapshots_of [] = some []
snapshots_of (c ∷ s) = some (some (codes "snapshot_s") ∷ [])

abbrev pool_tool : Tool (Unit {0})
pool_tool = record {
  rbd = λ command cluster. (answer_of command, cluster);
  unmarshal = snapshots_of;
}

abbrev c1 : Volume
c1 = container_of (codes "c1")

-- The clone goes, the snapshot goes, and the volume is marked although nothing depends on it.
delete_c1 : (ceph_container_delete pool_tool 5 c1 (started tt)).0 ≡ ok marked
unfolding ceph_delete container_delete ◌>>=◌ ceph_rbd_volume_list_snapshots delete_listed bytes_eq
    delete_snapshots container_snapshot_delete ceph_rbd_snapshot_list_clones delete_cloned fields
    delete_clones parse_clone cut index has_prefix parse_type ceph_rbd_volume_get_parent
    delete_without_snapshots delete_with_parent parse_parent unmap_and_delete ceph_rbd_volume_unmap
    unmap_loop ceph_rbd_volume_delete remove_snapshot ceph_rbd_snapshot_unprotect
    ceph_rbd_volume_snapshot_unmap ceph_rbd_snapshot_delete mark_volume ceph_rbd_volume_mark_deleted
delete_c1 = refl

delete_c1_log :
    (ceph_container_delete pool_tool 5 c1 (started tt)).1.log
    ≡ mv (codes "ceph/container_c1") (codes "ceph/zombie_container_c1")
      ∷ unmap (codes "ceph") (codes "container_c1")
      ∷ snap_rm (codes "ceph") (codes "container_c1@snapshot_s")
      ∷ unmap (codes "ceph") (codes "container_c1@snapshot_s")
      ∷ unprotect (codes "ceph") (codes "container_c1") (codes "snapshot_s")
      ∷ rm (codes "ceph") (codes "zombie_container_c2")
      ∷ unmap (codes "ceph") (codes "zombie_container_c2")
      ∷ info (codes "ceph") (codes "zombie_container_c2")
      ∷ snap_ls (codes "ceph") (codes "zombie_container_c2")
      ∷ children (codes "ceph") (codes "container_c1") (codes "snapshot_s")
      ∷ snap_ls (codes "ceph") (codes "container_c1")
      ∷ []
unfolding ceph_delete container_delete ◌>>=◌ ceph_rbd_volume_list_snapshots delete_listed bytes_eq
    delete_snapshots container_snapshot_delete ceph_rbd_snapshot_list_clones delete_cloned fields
    delete_clones parse_clone cut index has_prefix parse_type ceph_rbd_volume_get_parent
    delete_without_snapshots delete_with_parent parse_parent unmap_and_delete ceph_rbd_volume_unmap
    unmap_loop ceph_rbd_volume_delete remove_snapshot ceph_rbd_snapshot_unprotect
    ceph_rbd_volume_snapshot_unmap ceph_rbd_snapshot_delete mark_volume ceph_rbd_volume_mark_deleted
delete_c1_log = refl

container_delete-safe_example :
    All
      (Permitted (Own c1) (Unmarked c1) (OwnOrMarked c1))
      (ceph_container_delete pool_tool 5 c1 (started tt)).1.log
container_delete-safe_example = container_delete-safe pool_tool 5 c1 tt

snapshot_delete-safe_example :
    All
      (Permitted Marked (λ pool image. ⊥) (OwnSnapshot c1 (codes "snapshot_s")))
      (ceph_container_snapshot_delete pool_tool 5 c1 (codes "snapshot_s") (started tt)).1.log
snapshot_delete-safe_example = snapshot_delete-safe pool_tool 5 c1 (codes "snapshot_s") tt

-- No clones: `rbd children` prints nothing.
abbrev free_answer : Command → Result Failure Bytes
free_answer (snap_ls pool image) = ok (codes "s")
free_answer (unmap pool image) = err (exited 22)
free_answer _ = ok []

abbrev free_tool : Tool (Unit {0})
free_tool = record {
  rbd = λ command cluster. (free_answer command, cluster);
  unmarshal = snapshots_of;
}

-- The snapshot goes and the result is 0; the volume stays.
delete_free_c1 : (ceph_container_delete free_tool 5 c1 (started tt)).0 ≡ ok deleted
unfolding ceph_delete container_delete ◌>>=◌ ceph_rbd_volume_list_snapshots delete_listed
    delete_snapshots container_snapshot_delete ceph_rbd_snapshot_list_clones delete_cloned fields
    remove_snapshot ceph_rbd_snapshot_unprotect ceph_rbd_volume_snapshot_unmap unmap_loop
    ceph_rbd_snapshot_delete has_prefix bytes_eq
delete_free_c1 = refl

container_delete-leaks_example :
    All
      (λ c. c ≢ rm (codes "ceph") (codes "container_c1"))
      (ceph_container_delete free_tool 5 c1 (started tt)).1.log
unfolding ceph_rbd_volume_list_snapshots ◌>>=◌ has_prefix bytes_eq
container_delete-leaks_example =
    container_delete-leaks free_tool 5 c1 tt (codes "snapshot_s" ∷ []) refl refl

snapshot_delete-counted_example :
    (ceph_container_snapshot_delete pool_tool 5 c1 (codes "snapshot_s") (started tt)).0 ≢ ok deleted
unfolding ceph_rbd_snapshot_list_clones ◌>>=◌ fields
snapshot_delete-counted_example =
    snapshot_delete-counted pool_tool 5 c1 (codes "snapshot_s") tt
      (codes "ceph/zombie_container_c2" ∷ []) refl

-- A cluster where an image is mapped some number of times.
abbrev count_down : ℕ → Result Failure Bytes × ℕ
count_down zero = (err (exited 22), zero)
count_down (suc n) = (ok [], n)

abbrev mapped_tool : Tool ℕ
mapped_tool = record { rbd = λ command mapped. count_down mapped; unmarshal = snapshots_of }

mapped_tool-IsUnmapping : IsUnmapping mapped_tool (codes "ceph") (codes "container_c1") (λ n. n)
mapped_tool-IsUnmapping = record { takes = λ n h. taken n h; refuses = λ n h. refused n h }
  where
    taken :
        (n : ℕ) → 0 < n → (text : Bytes) × ((count_down n).0 ≡ ok text) × (suc (count_down n).1 ≡ n)
    taken zero h = ground (arith, h)
    taken (suc n) h = ([], refl, refl)

    refused : (n : ℕ) → n ≡ 0 → ((count_down n).0 ≡ err (exited 22)) × ((count_down n).1 ≡ 0)
    refused zero h = (refl, refl)
    refused (suc n) h = ground (arith, h)

abbrev mapped_twice : World ℕ
mapped_twice = record { cluster = 2; log = [] }

unmap_loop_ends_example :
    let (r, after) =
      unmap_loop mapped_tool 3 (codes "ceph") (codes "container_c1") true mapped_twice in
    (r ≡ ok (ok tt)) × (after.cluster ≡ 0) × (length after.log ≡ 3)
unmap_loop_ends_example =
    unmap_loop_ends mapped_tool (codes "ceph") (codes "container_c1") (λ n. n)
      mapped_tool-IsUnmapping 3 mapped_twice (omega arith)

clone_index : index (codes "container_c2") zombie_prefix ≡ none
unfolding index has_prefix bytes_eq
clone_index = refl

parent_index : index (codes "container_c2@zombie_snapshot_1") zombie_prefix ≡ some 13
unfolding index has_prefix bytes_eq
parent_index = refl

parse_names_lem_example :
    (parse_clone (codes "ceph/container_c2") ≡ ok (codes "ceph", codes "container", codes "c2"))
    × (parse_parent (codes "ceph/container_c2@zombie_snapshot_1")
        ≡ ok (codes "ceph", codes "container", codes "c2", codes "zombie_snapshot_1"))
unfolding contains_byte
parse_names_lem_example =
    parse_names_lem false (codes "ceph") (codes "container") (codes "c2")
      (codes "zombie_snapshot_1") refl refl refl
      (inr (
        (λ e. let h = sym clone_index ∙ e in cc, λ e. let h = sym clone_index ∙ e in cc),
        (
          λ e. let h = sym parent_index ∙ e in ground arith,
          λ e. let h = sym parent_index ∙ e in ground arith,
        ),
      ))

mistaken :
    parse_clone (codes "ceph/custom_zombie_v")
    ≡ ok (codes "ceph", codes "custom_zombie", codes "zombie_v")
unfolding parse_clone cut index has_prefix bytes_eq parse_type
mistaken = refl
