-- ===== src/Idmap/Parse/Sound.antt =====
-- Which texts `parse` of shared/idmapset_linux.go accepts, and as which entries.
use apollo_controller.Prelude.{
  ℕ, ◌^◌, ◌<◌, ◌≡◌, ◌↔◌, sym, subst, Bool, false, some, List, [], ◌∷◌, arith, ok,
}
use apollo_controller.Prelude.Int.{pos, pos_part, +ℤ_pos}
use apollo_controller.Prelude.Text.{Bytes, split}
use apollo_controller.Prelude.Number.{parse_uint, parse_uint-lt}
use apollo_controller.Idmap.{IdmapEntry}
use apollo_controller.Idmap.Block.{Block, to_entry, IsSmall}
use apollo_controller.Idmap.Parse.{wraps, parse_fields, parse, empty_entry, kind_flags}

wraps_small :
    (u g : Bool) (n h r : ℕ)
    → n < 2 ^ 32
    → h < 2 ^ 32
    → r < 2 ^ 32
    → wraps (record { isuid = u; isgid = g; hostid = pos h; nsid = pos n; maprange = pos r })
      ≡ false
unfolding wraps
wraps_small u g n h r hn hh hr =
    rw (+ℤ_pos h r (omega arith), +ℤ_pos n r (omega arith)) (ground arith)

abbrev pub Accepted : List Bytes → Block → Type 0
Accepted (kind ∷ ns ∷ host ∷ range ∷ []) b =
    (kind_flags kind ≡ some (b.uid, b.gid))
    × (parse_uint ns 32 ≡ some b.ns)
    × (parse_uint host 32 ≡ some b.host)
    × (parse_uint range 32 ≡ some b.size)
Accepted _ b = ⊥

parse_fields-Accepted :
    (fields : List Bytes) {e : IdmapEntry}
    → parse_fields empty_entry fields ≡ ok e
    → (b : Block) × (e ≡ to_entry b) × Accepted fields b
unfolding parse_fields
parse_fields-Accepted [] h = ground arith
parse_fields-Accepted (kind ∷ []) h = ground arith
parse_fields-Accepted (kind ∷ ns ∷ []) h = ground arith
parse_fields-Accepted (kind ∷ ns ∷ host ∷ []) h = ground arith
parse_fields-Accepted (kind ∷ ns ∷ host ∷ range ∷ []) {e} h = (
  record {
    uid = e.isuid;
    gid = e.isgid;
    host = pos_part e.hostid;
    ns = pos_part e.nsid;
    size = pos_part e.maprange;
  },
  ground arith,
  (ground arith, ground arith, ground arith, ground arith),
)
parse_fields-Accepted (kind ∷ ns ∷ host ∷ range ∷ more ∷ rest) h = ground arith

Accepted-parse_fields :
    (fields : List Bytes) (b : Block)
    → Accepted fields b
    → parse_fields empty_entry fields ≡ ok (to_entry b)
unfolding parse_fields
Accepted-parse_fields [] b h = absurd h
Accepted-parse_fields (kind ∷ []) b h = absurd h
Accepted-parse_fields (kind ∷ ns ∷ []) b h = absurd h
Accepted-parse_fields (kind ∷ ns ∷ host ∷ []) b h = absurd h
Accepted-parse_fields (kind ∷ ns ∷ host ∷ range ∷ []) b h = ground (
  arith,
  wraps_small b.uid b.gid b.ns b.host b.size,
  parse_uint-lt ns 32 h.1,
  parse_uint-lt host 32 h.2,
  parse_uint-lt range 32 h.3,
)
Accepted-parse_fields (kind ∷ ns ∷ host ∷ range ∷ more ∷ rest) b h = absurd h

pub parse_sound :
    (s : Bytes) {e : IdmapEntry}
    → parse empty_entry s ≡ ok e
    → (b : Block) × (e ≡ to_entry b) × Accepted (split b':' s) b
unfolding parse
parse_sound s h = parse_fields-Accepted (split b':' s) h

pub Accepted-IsSmall : (fields : List Bytes) (b : Block) → Accepted fields b → IsSmall b
Accepted-IsSmall [] b h = absurd h
Accepted-IsSmall (kind ∷ []) b h = absurd h
Accepted-IsSmall (kind ∷ ns ∷ []) b h = absurd h
Accepted-IsSmall (kind ∷ ns ∷ host ∷ []) b h = absurd h
Accepted-IsSmall (kind ∷ ns ∷ host ∷ range ∷ []) b h = record {
  host_small = parse_uint-lt host 32 h.2;
  ns_small = parse_uint-lt ns 32 h.1;
  size_small = parse_uint-lt range 32 h.3;
}
Accepted-IsSmall (kind ∷ ns ∷ host ∷ range ∷ more ∷ rest) b h = absurd h

to_entry-injective : (b c : Block) → to_entry b ≡ to_entry c → b ≡ c
to_entry-injective b c e = λ i. record {
  uid = (e i).isuid;
  gid = (e i).isgid;
  host = pos_part (e i).hostid;
  ns = pos_part (e i).nsid;
  size = pos_part (e i).maprange;
}

-- A text parses to an entry exactly when it has four fields between colons, a kind and three
-- decimal numbers of 32 bits, and the entry holds their values: the test for a wrap-around refuses
-- none of them.
pub parse_iff :
    (s : Bytes) (b : Block) → (parse empty_entry s ≡ ok (to_entry b)) ↔ Accepted (split b':' s) b
unfolding parse
parse_iff s b = (accepted, Accepted-parse_fields (split b':' s) b)
  where
    accepted : parse_fields empty_entry (split b':' s) ≡ ok (to_entry b) → Accepted (split b':' s) b
    accepted h =
        let (c, e, a) = parse_fields-Accepted (split b':' s) h in
        subst (Accepted (split b':' s)) (sym (to_entry-injective b c e)) a
