-- ===== src/Accounts/Tests.antt =====
-- accounts.go on a pool of three accounts, and the theorems at it.
use codex_auth_broker.Accounts.{
  Account, Pool, availability, available, cool, cool_at, holds_at, is_due, pick, probe_due,
}
use codex_auth_broker.Accounts.Pick.{AllCooling, Picks, pick-Picks}
use codex_auth_broker.Accounts.Probe.{Call, cools, picks, probe_spacing, run, second_probe, step}
use codex_auth_broker.Prelude.{
  List, [], arith, get_elem?, inl, none, refl, some, true, ◌*◌, ◌∷◌, ◌≡◌, ◌≢◌,
}
use codex_auth_broker.Prelude.Clock.{second}
use codex_auth_broker.Prelude.Text.{codes}

abbrev idle : Account
idle = record { label = codes "a"; cooldown_until = 0; next_probe = 0 }

abbrev benched : Account
benched = record { label = codes "b"; cooldown_until = 900 * second; next_probe = 300 * second }

abbrev benched_longer : Account
benched_longer = record {
  label = codes "c";
  cooldown_until = 950 * second;
  next_probe = 300 * second;
}

-- The active account cools and the others are free.
abbrev mixed : Pool
mixed = record { accounts = idle ∷ benched ∷ idle ∷ []; active = 1 }

abbrev all_benched : Pool
all_benched = record { accounts = benched ∷ benched_longer ∷ []; active = 1 }

abbrev probed : Account
probed = record { label = codes "c"; cooldown_until = 950 * second; next_probe = 600 * second }

abbrev once_probed : Pool
once_probed = record { accounts = benched ∷ probed ∷ []; active = 1 }

pick-mixed : pick mixed (10 * second) ≡ (record mixed { active = 2 }, some 2)
unfolding pick available
pick-mixed = refl

pick_probe : pick all_benched (300 * second) ≡ (once_probed, some 1)
unfolding pick available probe_due
pick_probe = refl

pick_early : pick all_benched (10 * second) ≡ (all_benched, none)
unfolding pick available probe_due
pick_early = refl

availability-mixed : availability mixed (10 * second) ≡ (3, 2)
unfolding availability available
availability-mixed = refl

pick-Picks_example : Picks mixed 10 (pick mixed 10)
pick-Picks_example = pick-Picks mixed 10 (inl (omega arith))

all_benched-AllCooling : AllCooling (300 * second) all_benched
unfolding available
all_benched-AllCooling = (refl, (refl, tt))

-- A request fails on the other account in between.
abbrev between : List Call
between = picks (310 * second) ∷ cools 0 (320 * second) (900 * second) ∷ []

still_benched : AllCooling (400 * second) (run once_probed between)
unfolding run step pick cool_at cool available probe_due
still_benched = (refl, (refl, tt))

probe_spacing_example : (pick (run once_probed between) (400 * second)).1 ≢ some 1
probe_spacing_example =
    probe_spacing all_benched (300 * second) (400 * second) once_probed 1 between
      (inl (omega arith)) all_benched-AllCooling pick_probe tt still_benched (omega arith)

other_due : holds_at (is_due (300 * second)) (get_elem? all_benched.accounts 0) ≡ true
unfolding probe_due
other_due = refl

second_probe_example :
    ((pick once_probed (300 * second)).1 ≢ none) × ((pick once_probed (300 * second)).1 ≢ some 1)
second_probe_example =
    second_probe all_benched (300 * second) once_probed 1 0 (inl (omega arith))
      all_benched-AllCooling pick_probe (omega arith) other_due
