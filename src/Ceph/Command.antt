-- ===== src/Ceph/Command.antt =====
-- The command lines of `rbd` that a deletion needs, and what the code makes of the answers.
use apollo_controller.Prelude.{
  ℕ, zero, suc, ◌+◌, Bool, Option, none, some, List, [], ◌∷◌, ◌++◌, ◌==◌, if◌then◌else◌, length,
  take, drop, Result, ok, err,
}
use apollo_controller.Prelude.Text.{Bytes, codes, fields, trim_space}
use apollo_controller.Ceph.Path.{zombie_prefix, index}

pub record Volume : Type 0 where
  pub pool : Bytes
  pub volume_type : Bytes
  pub name : Bytes

abbrev pub image_name : Volume → Bytes
image_name v = v.volume_type ++ b'_' ∷ v.name

abbrev pub snapshot_path : Bytes → Bytes → Bytes
snapshot_path image snapshot = image ++ b'@' ∷ snapshot

abbrev pub pool_path : Bytes → Bytes → Bytes
pool_path pool image = pool ++ b'/' ∷ image

-- The arguments behind --id, --cluster and --pool.
pub data Command : Type 0 where
  snap_ls info unmap rm snap_rm : (pool image : Bytes) → Command
  children unprotect : (pool image snapshot : Bytes) → Command
  mv snap_rename : (source target : Bytes) → Command

-- Errors of `RunCommand`, with the exit status if there is one, and those of the package.
pub data Failure : Type 0 where
  exited : ℕ → Failure
  not_started no_such_object unexpected_answer : Failure

-- `rbd` with the cluster as its state, and `json.Unmarshal` of a list of snapshots: for each entry the
-- name if it has one that is a string.
pub record Tool (W : Type 0) : Type 0 where
  pub rbd : Command → W → Result Failure Bytes × W
  pub unmarshal : Bytes → Option (List (Option Bytes))

-- A return of -1, a panic of Go; `out_of_fuel` is none of the code's.
pub data Stop : Type 0 where
  failed panic out_of_fuel : Stop

-- The cluster, and the commands run so far, the last one first.
pub record World (W : Type 0) : Type 0 where
  pub cluster : W
  pub log : List Command

abbrev pub Act : Type 0 → Type 0 → Type 0
Act W A = World W → Result Stop A × World W

abbrev pub continue :
    {W A B : Type 0} → Result Stop A → World W → (A → Act W B) → Result Stop B × World W
continue (err s) w f = (err s, w)
continue (ok a) w f = f a w

module _ {W : Type 0} where
  abbrev pub return : {A : Type 0} → A → Act W A
  return a w = (ok a, w)

  abbrev pub stop : {A : Type 0} → Stop → Act W A
  stop s w = (err s, w)

  infixl 5 ◌>>=◌ ◌>>◌
  unfoldable pub ◌>>=◌ : {A B : Type 0} → Act W A → (A → Act W B) → Act W B
  ◌>>=◌ m f w = continue (m w).0 (m w).1 f

  abbrev pub ◌>>◌ : {A B : Type 0} → Act W A → Act W B → Act W B
  first >> second = first >>= λ done. second

  -- `if err != nil { return -1 }`.
  abbrev pub checked : {A : Type 0} → Result Failure A → Act W A
  checked (ok a) = return a
  checked (err e) = stop failed

abbrev pub named : Option (List (Option Bytes)) → Result Failure (List Bytes)
named none = err unexpected_answer
named (some []) = ok []
named (some (none ∷ entries)) = err unexpected_answer
named (some (some name ∷ entries)) = elim (named (some entries)) [
  | err e ↦ err e
  | ok names ↦ ok (trim_space name ∷ names)
]

abbrev pub some_names : Result Failure (List Bytes) → Result Failure (List Bytes)
some_names (err e) = err e
some_names (ok []) = err no_such_object
some_names (ok (name ∷ names)) = ok (name ∷ names)

-- EINVAL: already unprotected.
abbrev pub unless_invalid : Result Failure Bytes → Result Failure (Unit {0})
unless_invalid (err (exited n)) = if n == 22 then ok tt else err (exited n)
unless_invalid (err e) = err e
unless_invalid (ok msg) = ok tt

abbrev pub cut_line : Bytes → Result Failure Bytes
cut_line msg = elim (index msg (codes "\n")) [
  | none ↦ err unexpected_answer
  | some idx ↦ ok (trim_space (take idx msg))
]

abbrev pub parent_at : Bytes → Option ℕ → Result Failure Bytes
parent_at msg none = err no_such_object
parent_at msg (some idx) = cut_line (trim_space (drop (idx + length (codes "parent: ")) msg))

abbrev pub parent_line : Bytes → Result Failure Bytes
parent_line msg = parent_at msg (index msg (codes "parent: "))

module _ {W : Type 0} (tool : Tool W) where
  abbrev pub run_command : Command → Act W (Result Failure Bytes)
  run_command command w =
      let (answer, cluster) = tool.rbd command w.cluster in
      (ok answer, record { cluster = cluster; log = command ∷ w.log })

  unfoldable pub ceph_rbd_volume_list_snapshots : Volume → Act W (Result Failure (List Bytes))
  ceph_rbd_volume_list_snapshots v = run_command (snap_ls v.pool (image_name v)) >>= λ r.
      return (elim r [ err e ↦ err e | ok msg ↦ some_names (named (tool.unmarshal msg)) ])

  unfoldable pub ceph_rbd_snapshot_list_clones :
      Volume → Bytes → Act W (Result Failure (List Bytes))
  ceph_rbd_snapshot_list_clones v snapshot =
      run_command (children v.pool (image_name v) snapshot) >>= λ r.
      return (elim r [ err e ↦ err e | ok msg ↦ some_names (ok (fields (trim_space msg))) ])

  unfoldable pub ceph_rbd_volume_get_parent : Volume → Act W (Result Failure Bytes)
  ceph_rbd_volume_get_parent v = run_command (info v.pool (image_name v)) >>= λ r.
      return (elim r [ err e ↦ err e | ok msg ↦ parent_line msg ])

  abbrev pub after_unmap :
      Act W (Result Failure (Unit {0}))
      → Bool
      → Result Failure Bytes
      → Act W (Result Failure (Unit {0}))
  after_unmap again unmap_until_einval (err e) = return (unless_invalid (err e))
  after_unmap again unmap_until_einval (ok msg) =
      if unmap_until_einval then again else return (ok tt)

  -- The loop `again` on `name`, an image or a snapshot of it; it ends when that is no longer mapped.
  unfoldable pub unmap_loop : ℕ → Bytes → Bytes → Bool → Act W (Result Failure (Unit {0}))
  unmap_loop zero pool name unmap_until_einval = stop out_of_fuel
  unmap_loop (suc fuel) pool name unmap_until_einval =
      run_command (unmap pool name)
      >>= after_unmap (unmap_loop fuel pool name unmap_until_einval) unmap_until_einval

  unfoldable pub ceph_rbd_volume_unmap : ℕ → Volume → Bool → Act W (Result Failure (Unit {0}))
  ceph_rbd_volume_unmap fuel v unmap_until_einval =
      unmap_loop fuel v.pool (image_name v) unmap_until_einval

  unfoldable pub ceph_rbd_volume_snapshot_unmap :
      ℕ → Volume → Bytes → Bool → Act W (Result Failure (Unit {0}))
  ceph_rbd_volume_snapshot_unmap fuel v snapshot unmap_until_einval =
      unmap_loop fuel v.pool (snapshot_path (image_name v) snapshot) unmap_until_einval

  unfoldable pub ceph_rbd_volume_delete : Volume → Act W (Result Failure Bytes)
  ceph_rbd_volume_delete v = run_command (rm v.pool (image_name v))

  unfoldable pub ceph_rbd_volume_mark_deleted : Volume → Act W (Result Failure Bytes)
  ceph_rbd_volume_mark_deleted v =
      run_command
        (mv (pool_path v.pool (image_name v)) (pool_path v.pool (zombie_prefix ++ image_name v)))

  unfoldable pub ceph_rbd_snapshot_unprotect : Volume → Bytes → Act W (Result Failure (Unit {0}))
  ceph_rbd_snapshot_unprotect v snapshot =
      run_command (unprotect v.pool (image_name v) snapshot) >>= λ r. return (unless_invalid r)

  unfoldable pub ceph_rbd_snapshot_delete : Volume → Bytes → Act W (Result Failure Bytes)
  ceph_rbd_snapshot_delete v snapshot =
      run_command (snap_rm v.pool (snapshot_path (image_name v) snapshot))

  unfoldable pub ceph_rbd_volume_snapshot_rename :
      Volume → Bytes → Bytes → Act W (Result Failure Bytes)
  ceph_rbd_volume_snapshot_rename v old_snapshot_name new_snapshot_name = run_command (
      snap_rename (pool_path v.pool (snapshot_path (image_name v) old_snapshot_name))
        (pool_path v.pool (snapshot_path (image_name v) new_snapshot_name)))
