-- ===== src/Tests/DevicesRuns.antt =====
-- apollo/types/devices.go on concrete devices.
use apollo_controller.Prelude.{◌≡◌, refl, none, some, [], ◌∷◌}
use apollo_controller.Prelude.Text.{codes, bytes_eq, string_in_slice}
use apollo_controller.Container.{Map, Devices, get}
use apollo_controller.Devices.{lookup, update, agrees, device_equals, is_live_change, without_live}
use apollo_controller.Devices.Changes.{at}
use apollo_controller.Devices.Update.{update-change}

abbrev slow : Map
slow = (codes "type", codes "nic") ∷ (codes "limits.max", codes "1Mbit") ∷ []

abbrev fast : Map
fast = (codes "type", codes "nic") ∷ (codes "limits.max", codes "9Mbit") ∷ []

abbrev disk : Map
disk = (codes "type", codes "disk") ∷ (codes "path", codes "/srv") ∷ []

abbrev before : Devices
before = (codes "eth0", slow) ∷ (codes "data", disk) ∷ []

abbrev after : Devices
after = (codes "eth0", fast) ∷ []

update-change_example : at (update before after) (codes "eth0") ≡ (none, none, some fast)
unfolding lookup bytes_eq device_equals agrees get is_live_change without_live string_in_slice
update-change_example = update-change before after (codes "eth0") (refl, (refl, tt)) (refl, tt)

update-change_removed : at (update before after) (codes "data") ≡ (some disk, none, none)
unfolding lookup bytes_eq
update-change_removed = update-change before after (codes "data") (refl, (refl, tt)) (refl, tt)
