-- ===== src/Lvm/Versions.antt =====
-- What lvmVersionIsAtLeast answers, against the order of versions.
use apollo_controller.Prelude.{ℕ, ◌≡◌, Bool, not, ◌&&◌, ◌||◌, arith, ltb, leb, ◌==◌, ok}
use apollo_controller.Prelude.Int.{ℤ, pos}
use apollo_controller.Prelude.Text.{Bytes, split}
use apollo_controller.Lvm.{head_of, version_split, lvm_version_is_at_least}

pub record Version : Type 0 where
  pub major : ℕ
  pub minor : ℕ
  pub micro : ℕ

abbrev pub numbers : Version → ℤ × ℤ × ℤ
numbers v = (pos v.major, pos v.minor, pos v.micro)

-- A version is not older than another.
abbrev pub newer : Version → Version → Bool
newer v w =
    ltb w.major v.major
    || (w.major == v.major && (ltb w.minor v.minor || (w.minor == v.minor && leb w.micro v.micro)))

-- A later part of the newer version is smaller.
abbrev pub misjudged : Version → Version → Bool
misjudged v w =
    (ltb w.major v.major && (ltb v.minor w.minor || ltb v.micro w.micro))
    || (w.major == v.major && (ltb w.minor v.minor && ltb v.micro w.micro))

-- For versions that can be read, the answer is that of the order of versions, except where a later
-- part of the newer version is the smaller one: there a newer version is taken for an older one.
pub lvm_version_is_at_least_lem :
    (s_type_version version_string : Bytes) (v w : Version)
    → version_split (head_of (split b'/' s_type_version)) ≡ ok (numbers v)
    → version_split version_string ≡ ok (numbers w)
    → lvm_version_is_at_least s_type_version version_string ≡ ok (newer v w && not (misjudged v w))
unfolding lvm_version_is_at_least
lvm_version_is_at_least_lem s_type_version version_string v w p q = rw (p, q) (ground arith)
