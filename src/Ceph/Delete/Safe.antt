-- ===== src/Ceph/Delete/Safe.antt =====
-- What the deletion of a volume or of a snapshot can destroy.
use apollo_controller.Prelude.{ℕ, ◌≡◌, ◌⊎◌, inl, inr, refl, true, false, [], All}
use apollo_controller.Prelude.Text.{Bytes}
use apollo_controller.Ceph.Command.{Volume, Tool, World, image_name}
use apollo_controller.Ceph.Delete.{
  is_zombie, volume, snapshot, ceph_container_delete, ceph_container_snapshot_delete,
}
use apollo_controller.Ceph.Delete.Permitted.{Permitted}
use apollo_controller.Ceph.Delete.Zombies.{ceph_delete-Keeps}

abbrev pub started : {W : Type 0} → W → World W
started cluster = record { cluster = cluster; log = [] }

-- The volume, or one that is marked.
abbrev pub Own : Volume → Bytes → Bytes → Type 0
Own v pool image = ((pool ≡ v.pool) × (image ≡ image_name v)) ⊎ (is_zombie image ≡ true)

abbrev pub Unmarked : Volume → Bytes → Bytes → Type 0
Unmarked v pool image = (pool ≡ v.pool) × (image ≡ image_name v) × (is_zombie v.volume_type ≡ false)

abbrev pub OwnOrMarked : Volume → Bytes → Bytes → Bytes → Type 0
OwnOrMarked v pool image snap = Own v pool image ⊎ (is_zombie snap ≡ true)

pub own_marked :
    (v : Volume) (pool image snap : Bytes)
    → (is_zombie image ≡ true) ⊎ (is_zombie snap ≡ true)
    → OwnOrMarked v pool image snap
own_marked v pool image snap (inl z) = inl (inr z)
own_marked v pool image snap (inr z) = inr z

-- Whatever the commands of `rbd` answer, and however long it runs, the deletion of a volume removes no
-- volume but it and those with the prefix zombie_, renames no volume but it, and that to a zombie
-- and only when its type is not one already, and unprotects, removes or renames no snapshot but those
-- of these volumes and those with the prefix zombie_. It unmaps nothing but these volumes and snapshots.
pub container_delete-safe :
    {W : Type 0} (tool : Tool W) (fuel : ℕ) (v : Volume) (cluster : W)
    → All
        (Permitted (Own v) (Unmarked v) (OwnOrMarked v))
        (ceph_container_delete tool fuel v (started cluster)).1.log
container_delete-safe tool fuel v cluster =
    ceph_delete-Keeps tool (Own v) (Unmarked v) (OwnOrMarked v) (λ pool image z. inr z)
      (own_marked v) fuel (volume v)
      (inl (refl, refl), λ z. (refl, refl, z), λ snap. inl (inl (refl, refl))) (started cluster) tt

-- A volume that is marked.
abbrev pub Marked : Bytes → Bytes → Type 0
Marked pool image = is_zombie image ≡ true

-- The snapshot, or one that is marked or belongs to a volume that is.
abbrev pub OwnSnapshot : Volume → Bytes → Bytes → Bytes → Bytes → Type 0
OwnSnapshot v own pool image snap =
    ((pool ≡ v.pool) × (image ≡ image_name v) × (snap ≡ own))
    ⊎ ((is_zombie image ≡ true) ⊎ (is_zombie snap ≡ true))

-- Whatever the commands of `rbd` answer, and however long it runs, the deletion of a snapshot removes
-- only volumes with the prefix zombie_, renames no volume, and unprotects, removes or renames no
-- snapshot but it, those with the prefix zombie_ and those of volumes with that prefix. It unmaps
-- nothing but these volumes and snapshots.
pub snapshot_delete-safe :
    {W : Type 0} (tool : Tool W) (fuel : ℕ) (v : Volume) (snap : Bytes) (cluster : W)
    → All
        (Permitted Marked (λ pool image. ⊥) (OwnSnapshot v snap))
        (ceph_container_snapshot_delete tool fuel v snap (started cluster)).1.log
snapshot_delete-safe tool fuel v snap cluster =
    ceph_delete-Keeps tool Marked (λ pool image. ⊥) (OwnSnapshot v snap) (λ pool image z. z)
      (λ pool image s z. inr z) fuel (snapshot v snap) (inl (refl, refl, refl)) (started cluster) tt
