-- ===== src/DeviceLimits.antt =====
-- Limits out of configuration keys, apollo/devices.go: deviceParseCPU and deviceParseDiskLimit. What
-- the code prints as decimal numbers stays a number.
pub mod Accepted
pub mod Shares
pub mod Disk
use apollo_controller.Prelude.{
  ℕ, zero, suc, ◌+◌, ◌-◌, ◌*◌, ◌/◌, ◌%◌, ◌^◌, ◌≤◌, ◌<◌, ◌≡◌, ◌≢◌, ◌↔◌, ◌⊎◌, inl, inr, refl, sym, ap,
  ap₂, subst, ◌∙◌, Bool, true, false, not, ◌&&◌, ◌||◌, Option, none, some, List, [], ◌∷◌, ◌++◌, map,
  append_assoc, append-nil, arith, ltb, leb, ◌==◌, if◌then◌else◌, bool_eq, Bool-cases, Option-cases,
  ==_iff, length, take, drop, length-append, take-length-append, drop-length-append, All,
  All-append, All-imp, Result, ok, err, ◌>>=◌, ◌>>◌, guard, or_fail, >>=-eq-ok, ok-injective,
}
use apollo_controller.Prelude.Int.{
  ℤ, pos, negsuc, pos_part, neg_part, sub_ℕ, ltb_ℤ, ◌+ℤ◌, ◌-ℤ◌, wrap64,
}
use apollo_controller.Prelude.Text.{Bytes, codes, has_suffix, trim_suffix, split_two}
use apollo_controller.Prelude.Number.{parse_int}
use apollo_controller.Size.{parse_byte_size_string}

pub data Error : Type 0 where
  not_a_number bad_allowance bad_size : Error

pub record CpuLimits : Type 0 where
  pub shares : ℤ
  pub quota : ℤ
  pub period : ℤ

-- A product of int64, the one factor small.
unfoldable pub scale : ℕ → ℤ → ℤ
scale k z = wrap64 (sub_ℕ (k * pos_part z) (k * neg_part z))

abbrev pub priority_of : Bytes → Result Error ℤ
priority_of [] = ok (pos 10)
priority_of (c ∷ s) = or_fail (parse_int (c ∷ s)) not_a_number

abbrev pub not_negative : ℤ → ℤ
not_negative z = if ltb_ℤ z (pos 0) then pos 0 else z

-- The shares so far and a share for the allowance.
abbrev pub limits : ℤ → ℤ → ℤ → ℤ → CpuLimits
limits shares weight quota period = record {
  shares = not_negative (shares +ℤ weight);
  quota = quota;
  period = period;
}

abbrev pub timed : ℤ → List Bytes → Result Error CpuLimits
timed shares (first ∷ second ∷ []) = do
  quota ← or_fail (parse_int (trim_suffix first (codes "ms"))) not_a_number
  period ← or_fail (parse_int (trim_suffix second (codes "ms"))) not_a_number
  ok (limits shares (pos 1024) (scale 1000 quota) (scale 1000 period))
timed shares _ = err bad_allowance

unfoldable pub allowed : ℤ → Bytes → Result Error CpuLimits
allowed shares [] = ok (limits shares (pos 1024) (negsuc 0) (pos 100000))
allowed shares (c ∷ s) =
    if has_suffix (c ∷ s) (codes "%")
    then (or_fail (parse_int (trim_suffix (c ∷ s) (codes "%"))) not_a_number >>= λ percent.
        ok (limits shares (scale 10 percent +ℤ pos 24) (negsuc 0) (pos 100000)))
    else timed shares (split_two b'/' (c ∷ s))

unfoldable pub device_parse_cpu : Bytes → Bytes → Result Error CpuLimits
device_parse_cpu cpu_allowance cpu_priority =
    priority_of cpu_priority >>= λ priority. allowed (pos 0 -ℤ (pos 10 -ℤ priority)) cpu_allowance

abbrev pub speed : Bytes → Result Error (ℤ × ℤ)
speed value =
    if has_suffix value (codes "iops")
    then (or_fail (parse_int (trim_suffix value (codes "iops"))) not_a_number >>= λ iops.
        ok (pos 0, iops))
    else elim (parse_byte_size_string value) [ ok bps ↦ ok (bps, pos 0) | err e ↦ err bad_size ]

-- `parseValue`, which looks whether `readSpeed` is empty, whatever its argument.
unfoldable pub parse_value : Bytes → Bytes → Result Error (ℤ × ℤ)
parse_value [] value = ok (pos 0, pos 0)
parse_value (c ∷ s) value = speed value

-- Bytes and operations to read, and to write.
unfoldable pub device_parse_disk_limit : Bytes → Bytes → Result Error (ℤ × ℤ × ℤ × ℤ)
device_parse_disk_limit read_speed write_speed = parse_value read_speed read_speed >>= λ read.
    parse_value read_speed write_speed >>= λ write. ok (read.0, read.1, write.0, write.1)
