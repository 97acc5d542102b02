-- ===== src/Balance.antt =====
-- The balancing of containers over CPUs, of apollo/devices.go: parseCpuset, and deviceTaskBalance
-- from the list of containers on. The CPUs that may be used are arguments, as numbers and as the
-- text they were joined to; what the host says of them, and the writes to the cgroups, are not
-- modelled. A map is visited in the order of the list that stands for it.
pub mod Range
pub mod Even
pub mod Pins
pub mod Shares
use apollo_controller.Prelude.{
  ℕ, zero, suc, ◌+◌, ◌-◌, ◌*◌, ◌/◌, ◌%◌, ◌^◌, ◌≤◌, ◌<◌, ◌≡◌, ◌≢◌, ◌↔◌, ◌⊎◌, inl, inr, refl, sym, ap,
  ap₂, subst, ◌∙◌, Bool, true, false, not, ◌&&◌, ◌||◌, Option, none, some, List, [], ◌∷◌, ◌++◌, map,
  append_assoc, append-nil, arith, ltb, leb, ◌==◌, if◌then◌else◌, bool_eq, Bool-cases, Option-cases,
  ==_iff, length, take, drop, length-append, take-length-append, drop-length-append, All,
  All-append, All-imp, Result, ok, err, ◌>>=◌, ◌>>◌, guard, or_fail, >>=-eq-ok, ok-injective,
}
use apollo_controller.Prelude.Int.{ℤ, pos, negsuc, ltb_ℤ, eq_ℤ, ◌+ℤ◌, ◌-ℤ◌}
use apollo_controller.Prelude.Text.{Bytes, split, split_two, contains_byte}
use apollo_controller.Prelude.Number.{parse_int}

-- `unfinished` is a loop that has run out of fuel.
pub data Error : Type 0 where
  invalid_cpuset unfinished : Error

-- `for i := low; i <= high; i++`.
unfoldable pub range_loop : ℕ → ℤ → ℤ → List ℤ → Result Error (List ℤ)
range_loop zero i high cpus = err unfinished
range_loop (suc fuel) i high cpus =
    let rest = range_loop fuel (i +ℤ pos 1) high (cpus ++ (i ∷ [])) in
    if ltb_ℤ high i then ok cpus else rest

abbrev pub range_fields : ℕ → List Bytes → List ℤ → Result Error (List ℤ)
range_fields fuel (first ∷ last ∷ []) cpus = or_fail (parse_int first) invalid_cpuset >>= λ low.
    or_fail (parse_int last) invalid_cpuset >>= λ high. range_loop fuel low high cpus
range_fields fuel _ cpus = err invalid_cpuset

unfoldable pub chunk : ℕ → Bytes → List ℤ → Result Error (List ℤ)
chunk fuel s cpus =
    if contains_byte b'-' s
    then range_fields fuel (split_two b'-' s) cpus
    else (or_fail (parse_int s) invalid_cpuset >>= λ nr. ok (cpus ++ (nr ∷ [])))

unfoldable pub chunks : ℕ → List Bytes → List ℤ → Result Error (List ℤ)
chunks fuel [] cpus = ok cpus
chunks fuel (s ∷ rest) cpus = chunk fuel s cpus >>= λ read. chunks fuel rest read

unfoldable pub parse_cpuset : ℕ → Bytes → Result Error (List ℤ)
parse_cpuset fuel cpu = chunks fuel (split b',' cpu) []

unfoldable pub int_in_slice : ℤ → List ℤ → Bool
int_in_slice key [] = false
int_in_slice key (entry ∷ list) = eq_ℤ entry key || int_in_slice key list

-- A container that could be loaded: its name, `limits.cpu`, and whether it runs.
pub record Container : Type 0 where
  pub name : Bytes
  pub limit : Option Bytes
  pub is_running : Bool

abbrev pub cpu_limit : Option Bytes → Bytes → Bytes
cpu_limit none effective = effective
cpu_limit (some []) effective = effective
cpu_limit (some (c ∷ s)) effective = c ∷ s

abbrev pub min_ℤ : ℤ → ℤ → ℤ
min_ℤ x y = if ltb_ℤ x y then x else y

-- A container and a CPU; a container and how many CPUs it is to have.
pub record Plan : Type 0 where
  pub fixed : List (ℤ × Bytes)
  pub balanced : List (Bytes × ℤ)

unfoldable pub available : List ℤ → List ℤ → Bytes → List (ℤ × Bytes)
available cpus [] name = []
available cpus (nr ∷ rest) name =
    let others = available cpus rest name in
    if int_in_slice nr cpus then (nr, name) ∷ others else others

abbrev pub planned : ℕ → List ℤ → Bytes → Bytes → Option ℤ → Plan → Result Error Plan
planned fuel cpus name limit (some count) p =
    ok (record p { balanced = p.balanced ++ ((name, min_ℤ count (pos (length cpus))) ∷ []) })
planned fuel cpus name limit none p = parse_cpuset fuel limit >>= λ pinned.
    ok (record p { fixed = p.fixed ++ available cpus pinned name })

unfoldable pub plan : ℕ → List ℤ → Bytes → List Container → Plan → Result Error Plan
plan fuel cpus effective [] p = ok p
plan fuel cpus effective (c ∷ containers) p =
    let skipped = plan fuel cpus effective containers p in
    let limit = cpu_limit c.limit effective in
    let counted = planned fuel cpus c.name limit (parse_int limit) p >>= λ q.
    plan fuel cpus effective containers q in
    if c.is_running then counted else skipped

pub record Cpu : Type 0 where
  pub id : ℤ
  pub count : ℕ

abbrev pub bump : Cpu → Cpu
bump cpu = record cpu { count = cpu.count + 1 }

-- Which CPUs have which load, and which container is put on which CPU.
pub record Usage : Type 0 where
  pub cpus : List Cpu
  pub pinning : List (Bytes × ℤ)

unfoldable pub bump_id : ℤ → List Cpu → List Cpu
bump_id id [] = []
bump_id id (cpu ∷ cpus) = if eq_ℤ cpu.id id then bump cpu ∷ cpus else cpu ∷ bump_id id cpus

unfoldable pub has_id : ℤ → List Cpu → Bool
has_id id [] = false
has_id id (cpu ∷ cpus) = eq_ℤ cpu.id id || has_id id cpus

unfoldable pub pin_one : ℤ → Bytes → Usage → Usage
pin_one nr name u =
    if has_id nr u.cpus
    then record { cpus = bump_id nr u.cpus; pinning = u.pinning ++ ((name, nr) ∷ []) }
    else u

unfoldable pub pin_fixed : List (ℤ × Bytes) → Usage → Usage
pin_fixed [] u = u
pin_fixed ((nr, name) ∷ fixed) u = pin_fixed fixed (pin_one nr name u)

-- `sort.Sort` by the load.
unfoldable pub insert : Cpu → List Cpu → List Cpu
insert c [] = c ∷ []
insert c (x ∷ cpus) = if ltb x.count c.count then x ∷ insert c cpus else c ∷ x ∷ cpus

unfoldable pub sort : List Cpu → List Cpu
sort [] = []
sort (c ∷ cpus) = insert c (sort cpus)

abbrev pub behind : Cpu → Usage → Usage
behind cpu u = record u { cpus = cpu ∷ u.cpus }

-- The loop over the sorted CPUs, which stops once the container has as many as it is to have.
unfoldable pub take_cpus : ℤ → Bytes → List Cpu → List (Bytes × ℤ) → Usage
take_cpus count name [] pinning = record { cpus = []; pinning = pinning }
take_cpus count name (cpu ∷ cpus) pinning =
    let rest = take_cpus (count -ℤ pos 1) name cpus (pinning ++ ((name, cpu.id) ∷ [])) in
    if eq_ℤ count (pos 0)
    then record { cpus = cpu ∷ cpus; pinning = pinning }
    else behind (bump cpu) rest

unfoldable pub balance : List (Bytes × ℤ) → Usage → Usage
balance [] u = u
balance ((name, count) ∷ balanced) u =
    balance balanced (take_cpus count name (sort u.cpus) u.pinning)

abbrev pub idle : ℤ → Cpu
idle id = record { id = id; count = 0 }

abbrev pub pinned_by : List ℤ → Plan → Usage
pinned_by cpus p =
    balance p.balanced (pin_fixed p.fixed (record { cpus = map idle cpus; pinning = [] }))

-- The new pinning of the containers; `cpus` has each CPU of the host once, in the order of the map.
unfoldable pub task_balance : ℕ → List ℤ → Bytes → List Container → Result Error Usage
task_balance fuel cpus effective containers =
    plan fuel cpus effective containers (record { fixed = []; balanced = [] }) >>= λ p.
    ok (pinned_by cpus p)
