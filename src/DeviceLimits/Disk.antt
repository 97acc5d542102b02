-- ===== src/DeviceLimits/Disk.antt =====
-- Limits of disks that are lost.
use apollo_controller.Prelude.{ℕ, ◌≡◌, refl, [], ◌∷◌, ok}
use apollo_controller.Prelude.Int.{ℤ, pos}
use apollo_controller.Prelude.Text.{Bytes}
use apollo_controller.DeviceLimits.{speed, parse_value, device_parse_disk_limit}

-- A disk with a limit for writing alone is not limited, and not even a limit that cannot be read is
-- refused; with any limit for reading, both are read as they should be.
pub device_parse_disk_limit-lost :
    (write_speed : Bytes) (c : ℕ) (s : Bytes) {read write : ℤ × ℤ}
    → speed (c ∷ s) ≡ ok read
    → speed write_speed ≡ ok write
    → (device_parse_disk_limit [] write_speed ≡ ok (pos 0, pos 0, pos 0, pos 0))
      × (device_parse_disk_limit (c ∷ s) write_speed ≡ ok (read.0, read.1, write.0, write.1))
unfolding device_parse_disk_limit parse_value
device_parse_disk_limit-lost write_speed c s e f = (refl, rw (e, f) refl)
