-- ===== src/Tests/UpgradeRuns.antt =====
-- The upgrades of apollo/db/update.go with calls that fail.
use apollo_controller.Prelude.{ℕ, ◌+◌, ◌≡◌, refl, true, not, List, [], ◌∷◌, arith, ◌==◌}
use apollo_controller.Upgrade.{
  Db, Actions, get_schema, newest, apply, updates_loop, updates_apply_all,
}
use apollo_controller.Upgrade.Missing.{missing}
use apollo_controller.Upgrade.Resume.{IsWorking, start_ups, start_ups-exact}

-- The state counts the statements that ran.
abbrev at_hand : Actions ℕ
at_hand = record {
  run = λ current version w. (true, w + 1);
  insert_row = λ version w. true;
  backup = λ w. true;
  post_apply = λ version w. (true, w);
  run_patch = λ name w. (true, w + 1);
  insert_patch = λ name w. true;
  read_patches = λ w. true;
  read_schema = λ w. true;
}

-- The update to version 12 fails.
abbrev broken : Actions ℕ
broken = record at_hand { run = λ current version w. (not (version == 12), w) }

abbrev old : Db ℕ
old = record { versions = 9 ∷ 10 ∷ []; patches = []; rest = 0 }

abbrev updates : List ℕ
updates = 10 ∷ 11 ∷ 12 ∷ 13 ∷ []

broken_run : (updates_apply_all broken updates true true old).1.versions ≡ 9 ∷ 10 ∷ 11 ∷ []
unfolding updates_apply_all updates_loop get_schema newest apply
broken_run = refl

at_hand-IsWorking : IsWorking at_hand
at_hand-IsWorking = record {
  reads = λ w. refl;
  runs = λ current v w. refl;
  inserts = λ v w. refl;
  backs_up = λ w. refl;
  posts = λ v w. refl;
}

start_ups-exact_example :
    ((updates_apply_all at_hand updates true true
        (start_ups updates true true (broken ∷ broken ∷ []) old)).0
      ≡ true)
    × ((updates_apply_all at_hand updates true true
          (start_ups updates true true (broken ∷ broken ∷ []) old)).1.versions
        ≡ 9 ∷ 10 ∷ 11 ∷ 12 ∷ 13 ∷ [])
unfolding missing newest
start_ups-exact_example =
    start_ups-exact updates true true (broken ∷ broken ∷ []) at_hand old
      (
        (omega arith, (omega arith, (omega arith, tt))),
        ((omega arith, (omega arith, tt)), ((omega arith, tt), (tt, tt))),
      )
      ((λ w. refl), ((λ w. refl), tt)) at_hand-IsWorking
