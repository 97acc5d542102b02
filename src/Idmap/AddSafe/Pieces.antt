-- ===== src/Idmap/AddSafe/Pieces.antt =====
-- The pieces into which `AddSafe` of shared/idmapset_linux.go breaks an entry, in 32-bit numbers.
use apollo_controller.Prelude.{◌+◌, ◌-◌, ◌≡◌, arith, List, [], ◌∷◌, ◌++◌, ltb, if◌then◌else◌}
use apollo_controller.Prelude.Int.{
  pos, sub_ℕ, +ℤ_sub_ℕ, sub_ℕ_+ℤ, sub_ℕ_-ℤ, -ℤ_pos_pos, ◌+ℤ◌, ◌-ℤ◌, +ℤ_pos,
}
use apollo_controller.Idmap.Block.{Block, to_entry, entries, IsSmall, Overlap}
use apollo_controller.Idmap.AddSafe.{pieces}

-- The pieces, as blocks.
abbrev pub block_pieces : Block → Block → List Block
block_pieces b i =
    (if ltb b.ns i.ns then record b { size = i.ns - b.ns } ∷ [] else [])
    ++ (i
        ∷ (if ltb (i.ns + i.size) (b.ns + b.size)
            then record b {
              host = b.host + (i.ns + i.size - b.ns);
              ns = i.ns + i.size;
              size = b.ns + b.size - (i.ns + i.size);
            }
              ∷ []
            else []))

module _ (b i : Block) (hb : IsSmall b) (hi : IsSmall i) (o : Overlap b.ns b.size i.ns i.size) where
  lower_range : pos i.ns -ℤ pos b.ns ≡ sub_ℕ i.ns b.ns
  lower_range = -ℤ_pos_pos i.ns b.ns (omega arith) (omega arith)

  upper_range :
      pos b.size -ℤ pos i.size -ℤ (pos i.ns -ℤ pos b.ns) ≡ sub_ℕ (b.size + b.ns) (i.size + i.ns)
  upper_range =
      rw (lower_range, -ℤ_pos_pos b.size i.size (omega arith) (omega arith))
        (sub_ℕ_-ℤ b.size i.size i.ns b.ns (omega arith) (omega arith) (omega arith) (omega arith))

  upper_host :
      pos b.host +ℤ (pos i.ns -ℤ pos b.ns) +ℤ pos i.size ≡ sub_ℕ (b.host + i.ns + i.size) b.ns
  upper_host =
      rw (lower_range, +ℤ_sub_ℕ b.host i.ns b.ns (omega arith) (omega arith) (omega arith))
        (sub_ℕ_+ℤ (b.host + i.ns) b.ns i.size (omega arith) (omega arith) (omega arith))

  pub pieces-block_pieces : pieces (to_entry b) (to_entry i) ≡ entries (block_pieces b i)
  unfolding pieces
  pieces-block_pieces =
      rw (upper_range, upper_host, lower_range, +ℤ_pos i.ns i.size (omega arith)) (ground arith)
