-- ===== src/Tests/AutostartRuns.antt =====
-- Three containers over a shutdown of the host.
use mathlib.Core.List.Perm
use mathlib.Core.List.{Perm}
use apollo_controller.Prelude.{
  Bool-cases, inl, inr, ◌≡◌, ◌≢◌, ◌↔◌, ◌⊎◌, refl, true, false, not, ◌&&◌, ◌||◌, Option, none, some,
  List, [], ◌∷◌, map, if◌then◌else◌,
}
use apollo_controller.Prelude.Text.{Bytes, codes, bytes_eq, string_in_slice, to_lower}
use apollo_controller.Container.{Map, get}
use apollo_controller.Config.{is_true}
use apollo_controller.Autostart.{
  Container, order_of, atoi, less, containers_restart, containers_shutdown,
}
use apollo_controller.Autostart.Order.{Tied, less_order}
use apollo_controller.Autostart.Cycle.{halted, restart-shutdown}

abbrev container_at : Bytes → Map → Bytes → Container
container_at name config state = record {
  name = name;
  config = config;
  library_state = some (some state);
}

abbrev web : Container
web = container_at (codes "web") [] (codes "RUNNING")

abbrev old : Container
old = container_at (codes "old") [] (codes "STOPPED")

abbrev db : Container
db =
    container_at (codes "db")
      ((codes "boot.autostart", codes "true") ∷ (codes "boot.autostart.priority", codes "2") ∷ [])
      (codes "STOPPED")

abbrev load : Bytes → Option Container
load name =
    if bytes_eq name (codes "web")
    then some web
    else if bytes_eq name (codes "old")
    then some old
    else if bytes_eq name (codes "db")
    then some db
    else none

abbrev insert : Container → List Container → List Container
insert c [] = c ∷ []
insert c (d ∷ containers) = if less c d then c ∷ d ∷ containers else d ∷ insert c containers

abbrev sort : List Container → List Container
sort [] = []
sort (c ∷ containers) = insert c (sort containers)

abbrev names : List Bytes
names = codes "web" ∷ codes "old" ∷ codes "db" ∷ []

insert-Perm :
    (c : Container) (containers : List Container) → Perm (insert c containers) (c ∷ containers)
insert-Perm c [] = Perm.rfl
insert-Perm c (d ∷ containers) = elim (Bool-cases (less c d)) [
  | inl e ↦ rw e Perm.rfl
  | inr e ↦ rw e (Perm.trans (Perm.cons d (insert-Perm c containers)) (Perm.swap c d containers))
]

sort-Perm : (containers : List Container) → Perm (sort containers) containers
sort-Perm [] = Perm.rfl
sort-Perm (c ∷ containers) =
    Perm.trans (insert-Perm c (sort containers)) (Perm.cons c (sort-Perm containers))

restart-shutdown_example :
    Perm
      (containers_restart sort
        (get (containers_shutdown (λ name. false) load names).1)
        (map halted (web ∷ old ∷ db ∷ [])))
      (codes "web" ∷ codes "db" ∷ [])
unfolding bytes_eq string_in_slice is_true to_lower get
restart-shutdown_example =
    restart-shutdown (λ name. false) load names
      ((web, refl, refl), ((old, refl, refl), ((db, refl, refl), tt))) sort (web ∷ old ∷ db ∷ [])
      (sort-Perm (map halted (web ∷ old ∷ db ∷ [])))
      ((refl, refl), ((refl, refl), ((refl, refl), tt)))

less_order_example :
    (less web web ≡ false)
    × (not (less web db && less db old) || less web old ≡ true)
    × (Tied (less web db) (less db web) ↔ (
        ((codes "web" ≡ codes "db") × (order_of web ≡ order_of db))
        ⊎ ((order_of web ≢ order_of db) × (atoi (order_of web) ≡ atoi (order_of db)))))
less_order_example = less_order web db old
