-- ===== src/Allocation/FreeIds.antt =====
-- The search of findIdmap ends at ids that no range has.
use apollo_controller.Prelude.{
  ℕ, ◌+◌, ◌^◌, ◌≤◌, ◌<◌, ◌≡◌, ◌⊎◌, inl, inr, refl, sym, ap, ◌∙◌, true, false, List, [], ◌∷◌, map,
  arith, ltb, if◌then◌else◌, Bool-cases, All, All-imp, ok, err, ok-injective,
}
use apollo_controller.Prelude.Int.{ℤ, pos, +ℤ_pos}
use apollo_controller.Allocation.{
  not_enough, Search, found, past, end_of, next_gap, first_gap, settled,
}
use apollo_controller.Allocation.Gap.{Range, to_entry, IsWithin, IsOrdered}

-- The ids from `n` on are not of the range.
abbrev pub IsFree : ℕ → ℕ → Range → Type 0
IsFree n s r = (n + s ≤ r.host) ⊎ (r.host + r.size ≤ n)

abbrev pub ends : Range → ℕ
ends r = r.host + r.size

-- A search that begins at `low`: where it ends, and that what it found is free.
abbrev IsGood : ℕ → ℕ → ℕ → List Range → Search → Type 0
IsGood low s high rs (found z) =
    (n : ℕ) × (z ≡ pos n) × (low ≤ n) × (n + s ≤ high) × All (IsFree n s) rs
IsGood low s high rs (past z) = (n : ℕ) × (z ≡ pos n) × (low ≤ n) × (n ≤ high) × All (IsFree n s) rs

IsGood-cons :
    (low low' s high : ℕ) (e : Range) (rs : List Range) (found_it : Search)
    → low ≤ low'
    → ends e ≤ low'
    → IsGood low' s high rs found_it
    → IsGood low s high (e ∷ rs) found_it
IsGood-cons low low' s high e rs (found z) h k (n, q, l, b, a) =
    (n, q, omega arith, b, (inr (omega arith), a))
IsGood-cons low low' s high e rs (past z) h k (n, q, l, b, a) =
    (n, q, omega arith, b, (inr (omega arith), a))

pub end_of-to_entry : (r : Range) → ends r < 2 ^ 34 → end_of (to_entry r) ≡ pos (ends r)
end_of-to_entry r h = +ℤ_pos r.host r.size (omega arith)

next_gap-cons :
    (low high s : ℕ)
    → high < 2 ^ 33
    → s < 2 ^ 33
    → (prev e : Range) (rs : List Range) → ends prev ≤ high
    → IsWithin low high e
    → next_gap (pos (ends prev)) (pos s) (to_entry prev) (map to_entry (e ∷ rs)) ≡ (
        if ltb (ends prev + s) e.host
        then found (pos (ends prev))
        else next_gap (pos (ends e)) (pos s) (to_entry e) (map to_entry rs))
unfolding next_gap
next_gap-cons low high s small small_size prev e rs h w =
    rw
      (
        end_of-to_entry prev (omega arith),
        end_of-to_entry e (omega (arith, w.ends)),
        +ℤ_pos (ends prev) s (omega arith),
      )
      (ground arith)

module _ (low high s : ℕ) (small : high < 2 ^ 33) (small_size : s < 2 ^ 33) where
  next_gap-IsGood :
      (prev : Range) (rs : List Range)
      → IsOrdered (prev ∷ rs)
      → All (IsWithin low high) rs
      → ends prev ≤ high
      → IsGood
          (ends prev)
          s
          high
          rs
          (next_gap (pos (ends prev)) (pos s) (to_entry prev) (map to_entry rs))
  unfolding next_gap
  next_gap-IsGood prev [] o w h = (ends prev, refl, omega arith, h, tt)
  next_gap-IsGood prev (e ∷ rs) o w h = elim (Bool-cases (ltb (ends prev + s) e.host)) [
    | inl t ↦
        rw (next_gap-cons low high s small small_size prev e rs h w.0, t)
          (
            ends prev,
            refl,
            omega arith,
            ground (arith, w.0.ends),
            (inl (ground arith), All-imp _ _ (λ y (le : ends e ≤ y.host). after y t le) rs o.1.0),
          )
    | inr t ↦
        rw (next_gap-cons low high s small small_size prev e rs h w.0, t)
          (IsGood-cons (ends prev) (ends e) s high e rs _ (omega (arith, o.0.0)) (omega arith)
            (next_gap-IsGood e rs o.1 w.1 w.0.ends))
  ]
    where
      after :
          (y : Range) → ltb (ends prev + s) e.host ≡ true → ends e ≤ y.host → IsFree (ends prev) s y
      after y t le = inl (ground arith)

  pub first_gap-IsGood :
      (rs : List Range)
      → IsOrdered rs
      → All (IsWithin low high) rs
      → low ≤ high
      → IsGood low s high rs (first_gap (pos low) (pos s) (map to_entry rs))
  unfolding first_gap
  first_gap-IsGood [] o w h = (low, refl, omega arith, h, tt)
  first_gap-IsGood (e ∷ rs) o w h = elim (Bool-cases (ltb e.host (low + s))) [
    | inl t ↦
        rw (+ℤ_pos low s (omega arith), t, end_of-to_entry e (omega (arith, w.0.ends)))
          (IsGood-cons low (ends e) s high e rs _ (omega (arith, w.0.starts)) (omega arith)
            (next_gap-IsGood e rs o w.1 w.0.ends))
    | inr t ↦
        rw (+ℤ_pos low s (omega arith), t)
          (
            low,
            refl,
            omega arith,
            ground (arith, w.0.ends),
            (inl (ground arith), All-imp _ _ (λ y (le : ends e ≤ y.host). after y t le) rs o.0),
          )
  ]
    where
      after : (y : Range) → ltb e.host (low + s) ≡ false → ends e ≤ y.host → IsFree low s y
      after y t le = inl (ground arith)

  settled-past :
      (n : ℕ) (first : Range)
      → (n ≤ high) × (ends first ≡ high)
      → settled (to_entry first) (pos s) (past (pos n))
        ≡ (if ltb (n + s) (ends first) then ok (pos n) else err not_enough)
  unfolding settled
  settled-past n first (h, k) =
      rw (+ℤ_pos n s (omega arith), end_of-to_entry first (omega arith)) refl

  -- The last test, against the end of the daemon's first entry.
  pub settled-IsFree :
      (first : Range) (rs : List Range) (search : Search) {z : ℤ}
      → ends first ≡ high
      → IsGood low s high rs search
      → settled (to_entry first) (pos s) search ≡ ok z
      → (n : ℕ) × (z ≡ pos n) × (low ≤ n) × (n + s ≤ high) × All (IsFree n s) rs
  unfolding settled
  settled-IsFree first rs (found x) e (n, q, l, b, a) h = (n, sym (ok-injective h) ∙ q, l, b, a)
  settled-IsFree first rs (past x) {z} e (n, q, l, b, a) h =
      let h' : (if ltb (n + s) high then ok (pos n) else err not_enough) ≡ ok z =
        sym (
          ap (λ y. settled (to_entry first) (pos s) (past y)) q
          ∙ settled-past n first (b, e)
          ∙ ap (λ t. if ltb (n + s) t then ok (pos n) else err not_enough) e)
        ∙ h in
      (n, ground arith, l, ground arith, a)
