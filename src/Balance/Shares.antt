-- ===== src/Balance/Shares.antt =====
-- How many CPUs a container gets.
use apollo_controller.Prelude.{
  ℕ, zero, suc, ◌+◌, ◌^◌, ◌≤◌, ◌<◌, ◌≡◌, refl, sym, ap, subst, ◌∙◌, List, [], ◌∷◌, ◌++◌, arith,
  if◌then◌else◌, length, All,
}
use apollo_controller.Prelude.Int.{ℤ, pos, pos_part, ◌-ℤ◌, -ℤ_pos}
use apollo_controller.Prelude.Text.{Bytes, bytes_eq}
use apollo_controller.Balance.{Cpu, Usage, insert, sort, take_cpus, balance}

-- How many pins a container has.
abbrev pub pins_of : Bytes → List (Bytes × ℤ) → ℕ
pins_of name [] = 0
pins_of name ((n, j) ∷ pins) = (if bytes_eq n name then 1 else 0) + pins_of name pins

pins_of-append :
    (name : Bytes) (pins more : List (Bytes × ℤ))
    → pins_of name (pins ++ more) ≡ pins_of name pins + pins_of name more
pins_of-append name [] more = omega arith
pins_of-append name ((n, j) ∷ pins) more = omega (arith, pins_of-append name pins more)

take_cpus-pins_of :
    (k : ℕ) (name other : Bytes) (cpus : List Cpu) (pins : List (Bytes × ℤ))
    → k ≤ length cpus
    → length cpus < 2 ^ 62
    → pins_of other (take_cpus (pos k) name cpus pins).pinning
      ≡ pins_of other pins + (if bytes_eq name other then k else 0)
unfolding take_cpus
take_cpus-pins_of zero name other [] pins h l = ground arith
take_cpus-pins_of (suc k) name other [] pins h l = absurd (omega arith)
take_cpus-pins_of zero name other (c ∷ cpus) pins h l = ground arith
take_cpus-pins_of (suc k) name other (c ∷ cpus) pins h l =
    let e : pos (suc k) -ℤ pos 1 ≡ pos k =
      -ℤ_pos (suc k) 1 (omega arith) (omega arith) ∙ ap pos (omega arith) in
    rw e (
      ground (
        arith,
        take_cpus-pins_of k name other cpus (pins ++ ((name, c.id) ∷ [])),
        pins_of-append other pins ((name, c.id) ∷ []),
      ))

length-insert : (c : Cpu) (cpus : List Cpu) → length (insert c cpus) ≡ suc (length cpus)
unfolding insert
length-insert c [] = refl
length-insert c (x ∷ cpus) = ground (arith, length-insert c cpus)

length-sort : (cpus : List Cpu) → length (sort cpus) ≡ length cpus
unfolding sort
length-sort [] = refl
length-sort (c ∷ cpus) = length-insert c (sort cpus) ∙ ap suc (length-sort cpus)

length-take_cpus :
    (count : ℤ) (name : Bytes) (cpus : List Cpu) (pins : List (Bytes × ℤ))
    → length (take_cpus count name cpus pins).cpus ≡ length cpus
unfolding take_cpus
length-take_cpus count name [] pins = refl
length-take_cpus count name (c ∷ cpus) pins =
    ground (arith, length-take_cpus (count -ℤ pos 1) name cpus (pins ++ ((name, c.id) ∷ [])))

-- How many CPUs the plan asks for, of a number of them.
abbrev pub Asks : ℕ → Bytes × ℤ → Type 0
Asks n entry = (k : ℕ) × (entry.1 ≡ pos k) × (k ≤ n)

abbrev pub asked_for : Bytes → List (Bytes × ℤ) → ℕ
asked_for name [] = 0
asked_for name ((n, count) ∷ balanced) =
    (if bytes_eq n name then pos_part count else 0) + asked_for name balanced

-- Each balanced container is put on as many CPUs as the plan asks for, and placing the others takes
-- none of them away, where the plan asks for no more CPUs than there are, and for no negative number
-- of them.
pub balance-pins_of :
    (name : Bytes) (balanced : List (Bytes × ℤ)) (u : Usage)
    → All (Asks (length u.cpus)) balanced
    → length u.cpus < 2 ^ 62
    → pins_of name (balance balanced u).pinning ≡ pins_of name u.pinning + asked_for name balanced
unfolding balance
balance-pins_of name [] u a l = omega arith
balance-pins_of name ((n, count) ∷ balanced) u a l =
    let (k, e, b) = a.0 in
    let w = take_cpus count n (sort u.cpus) u.pinning in
    let same : length w.cpus ≡ length u.cpus =
      length-take_cpus count n (sort u.cpus) u.pinning ∙ length-sort u.cpus in
    let ih =
      balance-pins_of name balanced w (subst (λ m. All (Asks m) balanced) (sym same) a.1)
        (rw same l) in
    ih ∙ ap (λ m. m + asked_for name balanced) (asked k e b) ∙ omega arith
  where
    asked :
        (k : ℕ)
        → count ≡ pos k
        → k ≤ length u.cpus
        → pins_of name (take_cpus count n (sort u.cpus) u.pinning).pinning
          ≡ pins_of name u.pinning + (if bytes_eq n name then pos_part count else 0)
    asked k e b = rw e (
        take_cpus-pins_of k n name (sort u.cpus) u.pinning (rw (length-sort u.cpus) b)
          (rw (length-sort u.cpus) l))
