-- ===== src/StorageLock/Hidden.antt =====
-- What a thread that waited learns of the one that it waited for.
use apollo_controller.Prelude.{
  ℕ, ◌≡◌, ◌≢◌, refl, true, false, Option, none, some, [], ◌∷◌, arith, ◌==◌, ==_iff,
}
use apollo_controller.Prelude.Text.{Bytes}
use apollo_controller.StorageLock.{entering, returned, State, step_from, step, run}

-- Every thread is before the lock, and the pool is mounted.
abbrev pub mounted_pool : State
mounted_pool = record {
  is_mounted = true;
  ongoing = none;
  made = 0;
  closes = λ channel. 0;
  threads = λ t. entering;
}

-- Where the system call of one thread fails while another waits for it, the first one returns the
-- error and the other returns no error, as if the pool had been unmounted, while it still is mounted.
pub failure-hidden :
    (t u : ℕ) (text : Bytes) (e : Option Bytes)
    → t ≢ u
    → let s = run mounted_pool ((t, e) ∷ (u, e) ∷ (t, e) ∷ (t, some text) ∷ (t, e) ∷ (u, e) ∷ []) in
      (s.threads t ≡ returned (false, some text))
      × (s.threads u ≡ returned (false, none))
      × (s.is_mounted ≡ true)
unfolding run step step_from
failure-hidden t u text e d = (
  simp (other, back, (==_iff t t).1 refl, (==_iff u u).1 refl) refl,
  simp (other, back, (==_iff t t).1 refl, (==_iff u u).1 refl) refl,
  simp (other, back, (==_iff t t).1 refl, (==_iff u u).1 refl) refl,
)
  where
    other : t == u ≡ false
    other = ground (arith, d)

    back : u == t ≡ false
    back = ground (arith, d)
