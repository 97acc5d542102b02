-- ===== src/Idmap/Ranges/SetUsable.antt =====
-- `Usable` of a whole map, shared/idmapset_linux.go.
use apollo_controller.Prelude.{ℕ, ◌+◌, ◌≤◌, ◌<◌, ◌≡◌, true, List, [], ◌∷◌, ◌++◌, All, ok, >>=-eq-ok}
use apollo_controller.Idmap.Block.{Block, to_entry, entries, Kind, of_kind}
use apollo_controller.Idmap.Ranges.{usable, set_usable}
use apollo_controller.Idmap.Ranges.Cover.{mapped}
use apollo_controller.Idmap.Ranges.Usable.{IsFilled, flag, usable_sound}

set_usable-each :
    (before after : List Block) (b : Block) (kernel : List Block)
    → set_usable (ok (entries kernel)) (entries (before ++ b ∷ after)) ≡ ok tt
    → usable (ok (entries kernel)) (to_entry b) ≡ ok tt
unfolding set_usable
set_usable-each [] after b kernel h = (>>=-eq-ok (usable (ok (entries kernel)) (to_entry b)) _ h).1
set_usable-each (x ∷ before) after b kernel h =
    set_usable-each before after b kernel
      (>>=-eq-ok (usable (ok (entries kernel)) (to_entry x)) _ h).2

-- Where `Usable` accepts a map, every host id of each of its entries is one that the kernel's map of
-- the current namespace holds, for uids if the entry maps uids and for gids if it maps gids. The
-- entries hold 32-bit numbers and at least one id each.
pub set_usable_sound :
    (k : Kind) (before after : List Block) (b : Block) (kernel : List Block) (id : ℕ)
    → IsFilled b
    → All IsFilled kernel
    → set_usable (ok (entries kernel)) (entries (before ++ b ∷ after)) ≡ ok tt
    → of_kind k b ≡ true
    → b.host ≤ id
    → id < b.host + b.size
    → mapped (flag k) kernel id ≡ true
set_usable_sound k before after b kernel id f fs h sel lo hi =
    usable_sound k b kernel id f fs (set_usable-each before after b kernel h) sel lo hi
