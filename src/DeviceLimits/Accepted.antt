-- ===== src/DeviceLimits/Accepted.antt =====
-- What the check of a configuration lets through can be turned into limits.
use apollo_controller.Prelude.{
  ◌≡◌, inl, inr, refl, false, Option, none, some, List, [], ◌∷◌, arith, Bool-cases, Result, ok,
  ◌>>=◌, or_fail,
}
use apollo_controller.Prelude.Int.{ℤ, pos, negsuc, ltb_ℤ, ◌+ℤ◌, ◌-ℤ◌}
use apollo_controller.Prelude.Text.{Bytes, codes, has_suffix, trim_suffix, split_two}
use apollo_controller.Prelude.Number.{parse_int}
use apollo_controller.Config.{is_priority, is_allowance, time_based, some_or, bad_allowance}
use apollo_controller.DeviceLimits.{
  Error, not_a_number, CpuLimits, limits, priority_of, not_negative, timed, allowed,
  device_parse_cpu, scale,
}

not_negative_lem : (z : ℤ) → ltb_ℤ (not_negative z) (pos 0) ≡ false
not_negative_lem (pos n) = ground arith
not_negative_lem (negsuc n) = ground arith

abbrev IsUsable : Result Error CpuLimits → Type 0
IsUsable r = (l : CpuLimits) × (r ≡ ok l) × (ltb_ℤ l.shares (pos 0) ≡ false)

priority-accepted :
    (priority : Bytes) → is_priority priority ≡ ok tt → (z : ℤ) × (priority_of priority ≡ ok z)
unfolding is_priority
priority-accepted [] h = (pos 10, refl)
priority-accepted (c ∷ s) h = by (parse_int (c ∷ s)) refl
  where
    by : (o : Option ℤ) → parse_int (c ∷ s) ≡ o → (z : ℤ) × (priority_of (c ∷ s) ≡ ok z)
    by none e = ground arith
    by (some z) e = (z, rw e refl)

limits-IsUsable :
    (shares weight quota period : ℤ) → IsUsable (ok (limits shares weight quota period))
limits-IsUsable shares weight quota period =
    (limits shares weight quota period, refl, not_negative_lem (shares +ℤ weight))

timed-accepted :
    (shares : ℤ) (pieces : List Bytes) → time_based pieces ≡ ok tt → IsUsable (timed shares pieces)
timed-accepted shares [] h = ground arith
timed-accepted shares (a ∷ []) h = ground arith
timed-accepted shares (a ∷ b ∷ []) h =
    by (parse_int (trim_suffix a (codes "ms"))) (parse_int (trim_suffix b (codes "ms"))) refl refl
  where
    by :
        (o p : Option ℤ)
        → parse_int (trim_suffix a (codes "ms")) ≡ o
        → parse_int (trim_suffix b (codes "ms")) ≡ p
        → IsUsable (timed shares (a ∷ b ∷ []))
    by none p e f = ground arith
    by (some q) none e f = ground arith
    by (some q) (some r) e f =
        rw (e, f) (limits-IsUsable shares (pos 1024) (scale 1000 q) (scale 1000 r))
timed-accepted shares (a ∷ b ∷ c ∷ r) h = ground arith

allowed-accepted :
    (shares : ℤ) (allowance : Bytes)
    → is_allowance allowance ≡ ok tt
    → IsUsable (allowed shares allowance)
unfolding is_allowance allowed
allowed-accepted shares [] h = limits-IsUsable shares (pos 1024) (negsuc 0) (pos 100000)
allowed-accepted shares (c ∷ s) h = elim (Bool-cases (has_suffix (c ∷ s) (codes "%"))) [
  | inl t ↦ rw t (percent (parse_int (trim_suffix (c ∷ s) (codes "%"))) refl (rw t at h))
  | inr f ↦ rw f (timed-accepted shares (split_two b'/' (c ∷ s)) (rw f at h))
]
  where
    percent :
        (o : Option ℤ)
        → parse_int (trim_suffix (c ∷ s) (codes "%")) ≡ o
        → some_or (parse_int (trim_suffix (c ∷ s) (codes "%"))) bad_allowance ≡ ok tt
        → IsUsable (
            or_fail (parse_int (trim_suffix (c ∷ s) (codes "%"))) not_a_number >>= λ percent.
            ok (limits shares (scale 10 percent +ℤ pos 24) (negsuc 0) (pos 100000)))
    percent none e k = ground arith
    percent (some z) e k =
        rw e (limits-IsUsable shares (scale 10 z +ℤ pos 24) (negsuc 0) (pos 100000))

-- A priority and an allowance that the check of the configuration accepts are turned into limits
-- without an error, and the shares are not negative.
pub device_parse_cpu-accepted :
    (cpu_allowance cpu_priority : Bytes)
    → is_allowance cpu_allowance ≡ ok tt
    → is_priority cpu_priority ≡ ok tt
    → (l : CpuLimits) × (device_parse_cpu cpu_allowance cpu_priority ≡ ok l)
      × (ltb_ℤ l.shares (pos 0) ≡ false)
unfolding device_parse_cpu
device_parse_cpu-accepted cpu_allowance cpu_priority a p =
    let (z, e) = priority-accepted cpu_priority p in
    rw e (allowed-accepted (pos 0 -ℤ (pos 10 -ℤ z)) cpu_allowance a)
