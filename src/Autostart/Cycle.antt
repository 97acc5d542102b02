-- ===== src/Autostart/Cycle.antt =====
-- From a shutdown of the host to the next start of the daemon.
use apollo_controller.Prelude.{
  ◌≡◌, inl, inr, refl, sym, ap, subst, ◌∙◌, Bool, true, false, ◌&&◌, ◌||◌, Option, none, some, List,
  [], ◌∷◌, ◌++◌, map, arith, if◌then◌else◌, Bool-cases, All, All-append,
}
use mathlib.Core.List
use mathlib.Core.List.Perm
use mathlib.Core.List.{Perm}
use apollo_controller.Prelude.Text.{Bytes, codes, bytes_eq, bytes_eq→eq, string_in_slice}
use apollo_controller.Container.{Map, get, has}
use apollo_controller.Config.{is_true}
use apollo_controller.Autostart.{
  Container, state, is_running, is_wanted, restart_loop, containers_restart, Recorded,
  record_stopped, loaded, shutdown_loop, containers_shutdown,
}

module _ (load : Bytes → Option Container) where
  -- The container under a name.
  abbrev pub Loads : Bytes → Type 0
  Loads name = (c : Container) × (load name ≡ some c) × (c.name ≡ name)

  abbrev Tells : Bytes × Bytes → Type 0
  Tells p = (c : Container) × (load p.0 ≡ some c) × (p.1 ≡ state c)

  pub has-append : (m n : Map) (k : Bytes) → has (m ++ n) k ≡ has m k || has n k
  unfolding has
  has-append [] n k = refl
  has-append ((j, v) ∷ m) n k = ground (arith, has-append m n k)

  get-Tells :
      (m : Map) (k : Bytes) {c : Container}
      → All Tells m
      → has m k ≡ true
      → load k ≡ some c
      → get m k ≡ state c
  unfolding get has
  get-Tells [] k a h l = cc
  get-Tells ((j, v) ∷ m) k {c} a h l = elim (Bool-cases (bytes_eq j k)) [
    | inl e ↦ rw e (told (bytes_eq→eq j k e) a.0)
    | inr e ↦ rw e (get-Tells m k a.1 (rw e at h) l)
  ]
    where
      same : (d : Container) → some d ≡ some c → d ≡ c
      same d q = cc

      told : j ≡ k → Tells (j, v) → v ≡ state c
      told q (d, f, g) = g ∙ ap (λ (x : Container). state x) (same d (sym f ∙ ap load q ∙ l))

  record Complete (names : List Bytes) (r : Recorded) : Type 0 where
    fine : r.all_loaded ≡ true
    tells : All Tells r.written
    tells_later : All Tells r.pending
    holds : (k : Bytes) → string_in_slice k names ≡ true → has r.written k || has r.pending k ≡ true

  record_stopped-Complete :
      (c : Container) (names : List Bytes) (r : Recorded)
      → load c.name ≡ some c
      → Complete names r
      → Complete (c.name ∷ names) (record_stopped c r)
  unfolding has string_in_slice
  record_stopped-Complete c names r l v = elim (Bool-cases (is_running c)) [
    | inl e ↦ rw e (record {
      fine = v.fine;
      tells = v.tells;
      tells_later = ((c, l, refl), v.tells_later);
      holds = λ k h. ground (arith, v.holds k, h);
    })
    | inr e ↦ rw e (record {
      fine = v.fine;
      tells = ((c, l, refl), v.tells);
      tells_later = v.tells_later;
      holds = λ k h. ground (arith, v.holds k, h);
    })
  ]

  shutdown_loop-Complete :
      (names : List Bytes) → All Loads names → Complete names (shutdown_loop load names)
  unfolding shutdown_loop
  shutdown_loop-Complete [] a = record {
    fine = refl;
    tells = tt;
    tells_later = tt;
    holds = λ k h. unfold string_in_slice in cc;
  }
  shutdown_loop-Complete (name ∷ names) a =
      let (c, l, n) = a.0 in
      subst (λ m. Complete (m ∷ names) (loaded (load m) (shutdown_loop load names))) n
        (rw (ap load n ∙ l) (
          record_stopped-Complete c names (shutdown_loop load names) (ap load n ∙ l)
            (shutdown_loop-Complete names a.1)))

  -- What is written down of a container.
  containers_shutdown-state :
      (finished : Bytes → Bool) (names : List Bytes) (c : Container)
      → All Loads names
      → string_in_slice c.name names ≡ true
      → load c.name ≡ some c
      → get (containers_shutdown finished load names).1 c.name ≡ state c
  unfolding containers_shutdown
  containers_shutdown-state finished names c a h l =
      let r = shutdown_loop load names in
      let v = shutdown_loop-Complete names a in
      rw v.fine (
        get-Tells (r.written ++ r.pending) c.name
          (All-append Tells r.written r.pending v.tells v.tells_later)
          (has-append r.written r.pending c.name ∙ v.holds c.name h) l)

-- A container when the host is up again.
abbrev pub halted : Container → Container
halted c = record c { library_state = some (some (codes "STOPPED")) }

abbrev pub is_unset : Bytes → Bool
is_unset [] = true
is_unset (c ∷ s) = false

-- A container that starts by itself, or that ran and does not say whether it does.
abbrev pub runs_again : Container → Bool
runs_again c =
    is_true (get c.config (codes "boot.autostart"))
    || (is_unset (get c.config (codes "boot.autostart")) && bytes_eq (state c) (codes "RUNNING"))

-- The names of the containers that are to run.
abbrev pub to_run : List Container → List Bytes
to_run [] = []
to_run (c ∷ containers) = if runs_again c then c.name ∷ to_run containers else to_run containers

wanted-runs_again : (c : Container) → is_wanted (halted c) (state c) ≡ runs_again c
unfolding is_wanted
wanted-runs_again c = rw (unset (get c.config (codes "boot.autostart"))) refl
  where
    unset : (s : Bytes) → bytes_eq s [] ≡ is_unset s
    unset [] = unfold bytes_eq in refl
    unset (c ∷ s) = unfold bytes_eq in refl

abbrev picked : (Bytes → Bytes) → Container → Option Bytes
picked last_state c =
    if is_wanted c (last_state c.name) then if is_running c then none else some c.name else none

restart_loop-filter_map :
    (last_state : Bytes → Bytes) (containers : List Container)
    → restart_loop last_state containers ≡ List.filter_map (picked last_state) containers
unfolding restart_loop List.filter_map
restart_loop-filter_map last_state [] = refl
restart_loop-filter_map last_state (c ∷ containers) =
    rw (restart_loop-filter_map last_state containers)
      (elim (Bool-cases (is_wanted c (last_state c.name))) [
        | inr e ↦ rw e refl
        | inl e ↦ rw e (elim (Bool-cases (is_running c)) [ inl r ↦ rw r refl | inr r ↦ rw r refl ])
      ])

module _ (finished : Bytes → Bool) (load : Bytes → Option Container) (names : List Bytes)
    (loads : All (Loads load) names) where
  abbrev pub IsListed : Container → Type 0
  IsListed c = (string_in_slice c.name names ≡ true) × (load c.name ≡ some c)

  restart_loop-to_run :
      (containers : List Container)
      → All IsListed containers
      → restart_loop (get (containers_shutdown finished load names).1) (map halted containers)
        ≡ to_run containers
  unfolding restart_loop is_running bytes_eq
  restart_loop-to_run [] a = refl
  restart_loop-to_run (c ∷ containers) a =
      rw (containers_shutdown-state load finished names c loads a.0.0 a.0.1) (
        rw (wanted-runs_again c) (
          ap (λ rest. if runs_again c then c.name ∷ rest else rest)
            (restart_loop-to_run containers a.1)))

  -- Containers that all load are recorded, the host goes down, and all of them are stopped when the
  -- daemon starts again: then it starts, whatever permutation the sort makes of them, each of those
  -- with boot.autostart true, each of those with the key unset that the shutdown found in state
  -- RUNNING, and no other.
  pub restart-shutdown :
      (sort : List Container → List Container) (containers : List Container)
      → Perm (sort (map halted containers)) (map halted containers)
      → All IsListed containers
      → Perm
          (containers_restart sort
            (get (containers_shutdown finished load names).1)
            (map halted containers))
          (to_run containers)
  unfolding containers_restart
  restart-shutdown sort containers p a =
      let last_state = get (containers_shutdown finished load names).1 in
      subst (λ l. Perm l (to_run containers))
        (sym (restart_loop-filter_map last_state (sort (map halted containers))))
        (subst (Perm (List.filter_map (picked last_state) (sort (map halted containers))))
          (sym (restart_loop-filter_map last_state (map halted containers))
            ∙ restart_loop-to_run containers a)
          (Perm.filter_map (picked last_state) p))
