-- ===== src/Idmap/Overlap.antt =====
-- What `Intersects` and `HostidsIntersect` of shared/idmapset_linux.go decide.
use apollo_controller.Prelude.{ℕ, ◌+◌, ◌-◌, ◌≤◌, ◌<◌, ◌^◌, ◌≡◌, ◌↔◌, ◌⊎◌, true, arith}
use apollo_controller.Prelude.Int.{pos, ◌+ℤ◌, ◌-ℤ◌, +ℤ_pos, -ℤ_pos}
use apollo_controller.Idmap.{hostids_intersect, intersects, meets}
use apollo_controller.Idmap.Block.{Block, to_entry, IsSmall, SameKind, Overlap}

-- The test sees an overlap unless one run is the last id of the other alone.
abbrev pub Noticed : ℕ → ℕ → ℕ → ℕ → Type 0
Noticed a r b s = Overlap a r b s × ¬ ((s ≡ 1) × (b + 1 ≡ a + r)) × ¬ ((r ≡ 1) × (a + 1 ≡ b + s))

module _ (a r b s : ℕ) (ha : a < 2 ^ 32) (hr : r < 2 ^ 32) (hb : b < 2 ^ 32) (hs : s < 2 ^ 32)
    (pr : 0 < r) (ps : 0 < s) where
  last_left : pos a +ℤ pos r -ℤ pos 1 ≡ pos (a + r - 1)
  last_left = rw (+ℤ_pos a r (omega arith)) (-ℤ_pos (a + r) 1 (omega arith) (omega arith))

  last_right : pos b +ℤ pos s -ℤ pos 1 ≡ pos (b + s - 1)
  last_right = rw (+ℤ_pos b s (omega arith)) (-ℤ_pos (b + s) 1 (omega arith) (omega arith))

  meets→Noticed : meets (pos a) (pos r) (pos b) (pos s) ≡ true → Noticed a r b s
  unfolding meets
  meets→Noticed = rw (last_left, last_right) (λ h. ground arith)

  Noticed→meets : Noticed a r b s → meets (pos a) (pos r) (pos b) (pos s) ≡ true
  unfolding meets
  Noticed→meets n = rw (last_left, last_right) (ground arith)

  pub meets_iff : (meets (pos a) (pos r) (pos b) (pos s) ≡ true) ↔ Noticed a r b s
  meets_iff = (meets→Noticed, Noticed→meets)

-- `Intersects` answers exactly when the two entries are of one kind and their host ids or their
-- namespace ids overlap, but for an overlap in which one entry is a single id and the last of the
-- other. The entries hold 32-bit numbers and at least one id each.
pub intersects_iff :
    (e i : Block)
    → IsSmall e
    → IsSmall i
    → 0 < e.size
    → 0 < i.size
    → (intersects (to_entry e) (to_entry i) ≡ true)
      ↔ (SameKind e i × (Noticed e.host e.size i.host i.size ⊎ Noticed e.ns e.size i.ns i.size))
unfolding intersects
intersects_iff e i he hi pe pi =
    (λ h. ground (arith, host.0, ns.0), λ h. ground (arith, host.1, ns.1))
  where
    host :
        (meets (pos e.host) (pos e.size) (pos i.host) (pos i.size) ≡ true)
        ↔ Noticed e.host e.size i.host i.size
    host =
        meets_iff e.host e.size i.host i.size he.host_small he.size_small hi.host_small
          hi.size_small pe pi

    ns :
        (meets (pos e.ns) (pos e.size) (pos i.ns) (pos i.size) ≡ true)
        ↔ Noticed e.ns e.size i.ns i.size
    ns = meets_iff e.ns e.size i.ns i.size he.ns_small he.size_small hi.ns_small hi.size_small pe pi

-- `HostidsIntersect` answers exactly when the two entries are of one kind and their host ids
-- overlap or are adjacent. The entries hold 32-bit numbers and at least one id each.
pub hostids_intersect_iff :
    (e i : Block)
    → IsSmall e
    → IsSmall i
    → 0 < e.size
    → 0 < i.size
    → (hostids_intersect (to_entry e) (to_entry i) ≡ true)
      ↔ (SameKind e i × (e.host ≤ i.host + i.size) × (i.host ≤ e.host + e.size))
unfolding hostids_intersect
hostids_intersect_iff e i he hi pe pi =
    rw (+ℤ_pos e.host e.size (omega arith), +ℤ_pos i.host i.size (omega arith))
      (λ h. ground arith, λ h. ground arith)
