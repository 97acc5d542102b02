-- ===== src/DeviceLimits/Shares.antt =====
-- How many shares a container has.
use apollo_controller.Prelude.{
  ℕ, ◌+◌, ◌-◌, ◌*◌, ◌^◌, ◌≤◌, ◌<◌, ◌≡◌, refl, true, some, [], ◌∷◌, ◌++◌, arith, length,
  length-append, take-length-append, drop-length-append, ok,
}
use apollo_controller.Prelude.Int.{
  pos, negsuc, ◌+ℤ◌, ◌-ℤ◌, -ℤ_pos, -ℤ_pos_pos, sub_ℕ_+ℤ, +ℤ_pos, wrap64,
}
use apollo_controller.Prelude.Text.{Bytes, codes, bytes_eq, has_suffix, trim_suffix}
use apollo_controller.Prelude.Number.{parse_int}
use apollo_controller.DeviceLimits.{priority_of, not_negative, allowed, device_parse_cpu, scale}

scale_pos : (n : ℕ) → n < 2 ^ 50 → scale 10 (pos n) ≡ pos (10 * n)
unfolding scale wrap64
scale_pos n h = ground arith

weigh :
    (p w : ℕ)
    → p ≤ 10
    → w < 2 ^ 55
    → not_negative ((pos 0 -ℤ (pos 10 -ℤ pos p)) +ℤ pos (w + 24)) ≡ pos (w + 14 + p)
weigh p w h k =
    rw
      (
        -ℤ_pos 10 p h (omega arith),
        -ℤ_pos_pos 0 (10 - p) (omega arith) (omega arith),
        sub_ℕ_+ℤ 0 (10 - p) (w + 24) (omega arith) (omega arith) (omega arith),
      )
      (ground arith)

has_suffix-percent : (s : Bytes) → has_suffix (s ++ codes "%") (codes "%") ≡ true
unfolding has_suffix bytes_eq
has_suffix-percent s =
    let e : length (s ++ codes "%") - 1 ≡ length s = omega (arith, length-append s (codes "%")) in
    rw (e, drop-length-append s (codes "%")) (ground (arith, length-append s (codes "%")))

trim_suffix-percent : (s : Bytes) → trim_suffix (s ++ codes "%") (codes "%") ≡ s
unfolding trim_suffix
trim_suffix-percent s =
    let e : length (s ++ codes "%") - 1 ≡ length s = omega (arith, length-append s (codes "%")) in
    rw (has_suffix-percent s, e) (take-length-append s (codes "%"))

-- With a percentage a container has ten shares for each percent, and 14 and its priority on top, for
-- percentages below 2 ^ 50. Without an allowance it has as many as with one of 100%. The quota is
-- unlimited in both cases.
pub device_parse_cpu-shares :
    (c : ℕ) (s cpu_priority : Bytes) (n p : ℕ)
    → priority_of cpu_priority ≡ ok (pos p)
    → p ≤ 10
    → parse_int (c ∷ s) ≡ some (pos n)
    → n < 2 ^ 50
    → (device_parse_cpu ((c ∷ s) ++ codes "%") cpu_priority
        ≡ ok (record { shares = pos (10 * n + 14 + p); quota = negsuc 0; period = pos 100000 }))
      × (device_parse_cpu [] cpu_priority
          ≡ ok (record { shares = pos (1000 + 14 + p); quota = negsuc 0; period = pos 100000 }))
unfolding device_parse_cpu allowed
device_parse_cpu-shares c s cpu_priority n p e h f k = (
  rw
      (
        e,
        has_suffix-percent (c ∷ s),
        trim_suffix-percent (c ∷ s),
        f,
        scale_pos n k,
        +ℤ_pos (10 * n) 24 (omega arith),
        weigh p (10 * n) h (omega arith),
      )
      refl,
  rw (e, weigh p 1000 h (omega arith)) refl,
)
