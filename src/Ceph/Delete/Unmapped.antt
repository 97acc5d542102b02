-- ===== src/Ceph/Delete/Unmapped.antt =====
-- The end of the loop that unmaps an image until `rbd` says that it is not mapped.
use apollo_controller.Prelude.{
  ℕ, zero, suc, ◌+◌, ◌<◌, ◌≡◌, inl, inr, refl, ◌∙◌, true, ◌∷◌, arith, ◌==◌, Bool-cases, ==_iff,
  length, ok, err,
}
use apollo_controller.Prelude.Text.{Bytes}
use apollo_controller.Ceph.Command.{unmap, exited, Tool, World, ◌>>=◌, unmap_loop}

-- What `rbd unmap` does: `mapped` counts how often the image is mapped, and it exits with 22, which is
-- EINVAL, where that is 0.
pub record IsUnmapping {W : Type 0} (tool : Tool W) (pool name : Bytes) (mapped : W → ℕ)
    : Type 0 where
  pub takes :
      (cluster : W)
      → 0 < mapped cluster
      → (text : Bytes) × ((tool.rbd (unmap pool name) cluster).0 ≡ ok text)
        × (suc (mapped (tool.rbd (unmap pool name) cluster).1) ≡ mapped cluster)
  pub refuses :
      (cluster : W)
      → mapped cluster ≡ 0
      → ((tool.rbd (unmap pool name) cluster).0 ≡ err (exited 22))
        × (mapped (tool.rbd (unmap pool name) cluster).1 ≡ 0)

module _ {W : Type 0} (tool : Tool W) (pool name : Bytes) (mapped : W → ℕ)
    (unmaps : IsUnmapping tool pool name mapped) where
  -- With more fuel than the image is mapped, the loop returns no error; the image is then not mapped,
  -- and `rbd unmap` was run once for each time that it was, and once more.
  pub unmap_loop_ends :
      (fuel : ℕ) (w : World W)
      → mapped w.cluster < fuel
      → let (r, after) = unmap_loop tool fuel pool name true w in
        (r ≡ ok (ok tt))
        × (mapped after.cluster ≡ 0)
        × (length after.log ≡ suc (mapped w.cluster) + length w.log)
  unfolding unmap_loop ◌>>=◌
  unmap_loop_ends zero w h = ground (arith, h)
  unmap_loop_ends (suc fuel) w h =
      let after = (tool.rbd (unmap pool name) w.cluster).1 in
      elim (Bool-cases (mapped w.cluster == 0)) [
        | inl e ↦
            let none_left = (==_iff (mapped w.cluster) 0).0 e in
            let (answer, left) = unmaps.refuses w.cluster none_left in
            rw answer (refl, left, ground (arith, none_left))
        | inr e ↦
            let (text, answer, fewer) =
              unmaps.takes w.cluster (ground (arith, ==_iff (mapped w.cluster) 0, e)) in
            let (result, left, count) =
              unmap_loop_ends fuel (record { cluster = after; log = unmap pool name ∷ w.log })
                (omega (arith, h, fewer)) in
            rw answer (result, left, (count ∙ omega (arith, fewer)))
      ]
