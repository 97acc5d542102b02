-- ===== src/Ceph/Delete/Keeps.antt =====
-- Steps that run only commands with some property, in the words of the operations.
use apollo_controller.Prelude.{
  ℕ, zero, suc, ◌≡◌, refl, Bool, true, false, List, [], ◌∷◌, if◌then◌else◌, All, Result, ok, err,
}
use apollo_controller.Prelude.Text.{Bytes}
use apollo_controller.Ceph.Path.{ParseError, unexpected, out_of_range, parse_clone}
use apollo_controller.Ceph.Command.{
  Volume, Command, unmap, Failure, Tool, Stop, World, Act, continue, ◌>>=◌, run_command, unmap_loop,
  after_unmap, checked,
}
use apollo_controller.Ceph.Delete.{
  Outcome, is_zombie, parsed, delete_snapshots, delete_clones, container_delete,
}

module _ {W : Type 0} (P : Command → Type 0) where
  -- A step that runs only commands with `P`.
  abbrev pub Keeps : {A : Type 0} → Act W A → Type 0
  Keeps m = (w : World W) → All P w.log → All P (m w).1.log

  pub continue-Keeps :
      {A B : Type 0} (r : Result Stop A) (w : World W) (f : A → Act W B)
      → ((a : A) → Keeps (f a))
      → All P w.log
      → All P (continue r w f).1.log
  continue-Keeps (err s) w f g a = a
  continue-Keeps (ok x) w f g a = g x w a

  pub bind-Keeps :
      {A B : Type 0} (m : Act W A) (f : A → Act W B)
      → Keeps m
      → ((a : A) → Keeps (f a))
      → Keeps (m >>= f)
  unfolding ◌>>=◌
  bind-Keeps m f k g w a = continue-Keeps (m w).0 (m w).1 f g (k w a)

  pub checked-Keeps : {A : Type 0} (r : Result Failure A) → Keeps (checked r)
  checked-Keeps (err e) w a = a
  checked-Keeps (ok x) w a = a

  pub parsed-Keeps : {A : Type 0} (r : Result ParseError A) → Keeps (parsed r)
  parsed-Keeps (ok x) w a = a
  parsed-Keeps (err unexpected) w a = a
  parsed-Keeps (err out_of_range) w a = a

  pub if-Keeps :
      {A : Type 0} (b : Bool) (m n : Act W A)
      → (b ≡ true → Keeps m)
      → (b ≡ false → Keeps n)
      → Keeps (if b then m else n)
  if-Keeps true m n k l = k refl
  if-Keeps false m n k l = l refl

  pub delete_snapshots-Keeps :
      (snapshot_delete : Bytes → Act W Outcome) (snaps : List Bytes)
      → ((snap : Bytes) → Keeps (snapshot_delete snap))
      → Keeps (delete_snapshots snapshot_delete snaps)
  unfolding delete_snapshots
  delete_snapshots-Keeps snapshot_delete [] k = λ w a. a
  delete_snapshots-Keeps snapshot_delete (snap ∷ snaps) k =
      bind-Keeps _ _ (k snap)
        (λ ret. bind-Keeps _ _ (delete_snapshots-Keeps snapshot_delete snaps k) (λ z w a. a))

  pub delete_clones-Keeps :
      (container_delete : Volume → Act W Outcome) (clones : List Bytes)
      → ((v : Volume) → is_zombie v.volume_type ≡ true → Keeps (container_delete v))
      → Keeps (delete_clones container_delete clones)
  unfolding delete_clones
  delete_clones-Keeps container_delete [] k = λ w a. a
  delete_clones-Keeps container_delete (clone ∷ clones) k =
      let rest = delete_clones-Keeps container_delete clones k in
      bind-Keeps _ _ (parsed-Keeps (parse_clone clone)) (λ c.
        if-Keeps (is_zombie c.1) _ _
          (λ z.
            bind-Keeps _ _ (k (record { pool = c.0; volume_type = c.1; name = c.2 }) z)
              (λ ret. bind-Keeps _ _ rest (λ can w a. a)))
          (λ z. bind-Keeps _ _ rest (λ can w a. a)))

  module _ (tool : Tool W) where
    pub run_command-Keeps : (c : Command) → P c → Keeps (run_command tool c)
    run_command-Keeps c p w a = (p, a)

    pub after_unmap-Keeps :
        (again : Act W (Result Failure (Unit {0}))) (until : Bool) (r : Result Failure Bytes)
        → Keeps again
        → Keeps (after_unmap tool again until r)
    after_unmap-Keeps again until (err e) k = λ w a. a
    after_unmap-Keeps again until (ok msg) k = if-Keeps until _ _ (λ e. k) (λ e w a. a)

    module _ (pool name : Bytes) (unmaps : P (unmap pool name)) where
      pub unmap_loop-Keeps :
          (fuel : ℕ) (until : Bool) → Keeps (unmap_loop tool fuel pool name until)
      unfolding unmap_loop
      unmap_loop-Keeps zero until = λ w a. a
      unmap_loop-Keeps (suc fuel) until =
          bind-Keeps _ _ (run_command-Keeps (unmap pool name) unmaps)
            (λ r. after_unmap-Keeps _ until r (unmap_loop-Keeps fuel until))
