-- ===== src/Balance/Even.antt =====
-- How evenly containers without a fixed set of CPUs are spread.
use apollo_controller.Prelude.{
  ℕ, ◌+◌, ◌≤◌, ◌≡◌, ◌⊎◌, inl, inr, false, List, [], ◌∷◌, ◌++◌, arith, ltb, ◌==◌, Bool-cases, All,
  All-imp,
}
use apollo_controller.Prelude.Int.{ℤ, pos, eq_ℤ, ◌-ℤ◌}
use apollo_controller.Prelude.Text.{Bytes}
use apollo_controller.Balance.{Cpu, Usage, insert, sort, take_cpus, balance}

-- Every load is one of two neighbours.
abbrev pub IsNear : ℕ → Cpu → Type 0
IsNear m cpu = (m ≤ cpu.count) × (cpu.count ≤ m + 1)

abbrev pub IsEven : List Cpu → Type 0
IsEven cpus = (m : ℕ) × All (IsNear m) cpus

abbrev IsSorted : List Cpu → Type 0
IsSorted [] = Unit
IsSorted (c ∷ cpus) = All (λ x. c.count ≤ x.count) cpus × IsSorted cpus

pub All-insert :
    (P : Cpu → Type 0) (c : Cpu) (cpus : List Cpu) → P c → All P cpus → All P (insert c cpus)
unfolding insert
All-insert P c [] p a = (p, tt)
All-insert P c (x ∷ cpus) p a = elim (Bool-cases (ltb x.count c.count)) [
  | inl h ↦ rw h (a.0, All-insert P c cpus p a.1)
  | inr h ↦ rw h (p, a)
]

pub All-sort : (P : Cpu → Type 0) (cpus : List Cpu) → All P cpus → All P (sort cpus)
unfolding sort
All-sort P [] a = tt
All-sort P (c ∷ cpus) a = All-insert P c (sort cpus) a.0 (All-sort P cpus a.1)

insert-IsSorted : (c : Cpu) (cpus : List Cpu) → IsSorted cpus → IsSorted (insert c cpus)
unfolding insert
insert-IsSorted c [] s = (tt, tt)
insert-IsSorted c (x ∷ cpus) s = elim (Bool-cases (ltb x.count c.count)) [
  | inl h ↦ rw h (All-insert _ c cpus (ground arith) s.0, insert-IsSorted c cpus s.1)
  | inr h ↦
      rw h ((ground arith, All-imp _ _ (λ y (le : x.count ≤ y.count). further y h le) cpus s.0), s)
]
  where
    further : (y : Cpu) → ltb x.count c.count ≡ false → x.count ≤ y.count → c.count ≤ y.count
    further y h le = ground arith

sort-IsSorted : (cpus : List Cpu) → IsSorted (sort cpus)
unfolding sort
sort-IsSorted [] = tt
sort-IsSorted (c ∷ cpus) = insert-IsSorted c (sort cpus) (sort-IsSorted cpus)

-- CPUs of one load: some go up by one.
take_cpus-level :
    (m : ℕ) (count : ℤ) (name : Bytes) (cpus : List Cpu) (pins : List (Bytes × ℤ))
    → All (λ c. c.count ≡ m) cpus
    → All (IsNear m) (take_cpus count name cpus pins).cpus
unfolding take_cpus
take_cpus-level m count name [] pins a = tt
take_cpus-level m count name (c ∷ cpus) pins a = elim (Bool-cases (eq_ℤ count (pos 0))) [
  | inl h ↦
      rw h (
        omega (arith, a.0),
        All-imp _ _ (λ x (e : x.count ≡ m). (omega arith, omega arith)) cpus a.1,
      )
  | inr h ↦
      rw h (
        (omega (arith, a.0), omega (arith, a.0)),
        take_cpus-level m (count -ℤ pos 1) name cpus _ a.1,
      )
]

level :
    (m : ℕ) (c : Cpu) (cpus : List Cpu)
    → All (λ x. c.count ≤ x.count) cpus
    → All (IsNear m) cpus
    → c.count ≡ m + 1
    → All (λ x. x.count ≡ m + 1) cpus
level m c [] s a e = tt
level m c (x ∷ cpus) s a e = (omega (arith, s.0, a.0), level m c cpus s.1 a.1 e)

take_cpus-IsEven :
    (m : ℕ) (count : ℤ) (name : Bytes) (cpus : List Cpu) (pins : List (Bytes × ℤ))
    → IsSorted cpus
    → All (IsNear m) cpus
    → All (IsNear m) (take_cpus count name cpus pins).cpus
      ⊎ All (IsNear (m + 1)) (take_cpus count name cpus pins).cpus
unfolding take_cpus
take_cpus-IsEven m count name [] pins s a = inl tt
take_cpus-IsEven m count name (c ∷ cpus) pins s a = elim (Bool-cases (eq_ℤ count (pos 0))) [
  | inl h ↦ inl (rw h a)
  | inr h ↦ rw h (elim (Bool-cases (c.count == m)) [
    | inl e ↦
        elim (take_cpus-IsEven m (count -ℤ pos 1) name cpus (pins ++ ((name, c.id) ∷ [])) s.1 a.1) [
          | inl r ↦ inl (ground arith, r)
          | inr r ↦ inr (ground arith, r)
        ]
    | inr e ↦ inr (
      ground (arith, a.0),
      take_cpus-level (m + 1) (count -ℤ pos 1) name cpus _
          (level m c cpus s.0 a.1 (ground (arith, a.0))),
    )
  ])
]

-- Containers that leave the choice of their CPUs to the daemon are spread evenly: where the loads of
-- two CPUs differ by at most one, they do so after any number of such containers are placed, however
-- many CPUs each of them is to have.
pub balance-IsEven :
    (balanced : List (Bytes × ℤ)) (u : Usage) → IsEven u.cpus → IsEven (balance balanced u).cpus
unfolding balance
balance-IsEven [] u e = e
balance-IsEven ((name, count) ∷ balanced) u (m, a) =
    balance-IsEven balanced (take_cpus count name (sort u.cpus) u.pinning) (
      either (
        take_cpus-IsEven m count name (sort u.cpus) u.pinning (sort-IsSorted u.cpus)
          (All-sort (IsNear m) u.cpus a)))
  where
    either :
        All (IsNear m) (take_cpus count name (sort u.cpus) u.pinning).cpus
          ⊎ All (IsNear (m + 1)) (take_cpus count name (sort u.cpus) u.pinning).cpus
        → IsEven (take_cpus count name (sort u.cpus) u.pinning).cpus
    either (inl r) = (m, r)
    either (inr r) = (m + 1, r)
