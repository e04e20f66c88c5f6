-- ===== src/Tests/Fleet.antt =====
-- Heartbeats of two drones, and a drone on its way: core/heartbeat.py and roles/drone.py.
use entropyhunt.Base.{
  ltb, if◌then◌else◌, is_some, ◌==◌, string_discrete, text_ne, contains, ok, pos, Coordinate, ◌+◌,
  ◌≤◌, ◌⊎◌, String, ◌≡◌, refl, true, not, ◌&&◌, none, some, [], ◌∷◌, string_eq, nat_eq, pair_eq,
  int_eq,
}
use entropyhunt.Base.Dict.{lookup}
use entropyhunt.Heartbeat.{HeartbeatRegistry, beat, is_stale, detect_stale}
use entropyhunt.Heartbeat.Laws
use entropyhunt.Drone.Assignment
use entropyhunt.Heartbeat.Laws.{
  registers, detects, detect_stale-partition, stale_latched, is_stale-beat,
}
use entropyhunt.Drone.{DroneState, new_drone, set_assignment}
use entropyhunt.Drone.Motion.{steps, Arrives, steps_arrive}
use entropyhunt.Drone.Assignment.{
  assigns, dies, moves, IsConsistent, run-IsConsistent, new_drone-IsConsistent,
}
use entropyhunt.Drone.Spread.{spread_starting_position, OnBorder, spread-OnBorder}

abbrev registry : HeartbeatRegistry
registry = record { last_seen_ms = ("a", 10) ∷ ("b", 4000) ∷ []; stale = "a" ∷ [] }

registry-IsValid : Laws.IsValid registry
unfolding lookup string_discrete
registry-IsValid = (refl, (refl, tt))

detect_stale-partition_example :
    (contains (detect_stale 5000 3000 registry).1.stale "b" ≡ is_stale "b" 5000 3000 registry)
    × (contains (detect_stale 5000 3000 registry).1.active "b"
        ≡ (is_some (lookup "b" registry.last_seen_ms) && not (is_stale "b" 5000 3000 registry)))
detect_stale-partition_example = detect_stale-partition 5000 3000 registry "b" registry-IsValid

a_last_seen : lookup "a" registry.last_seen_ms ≡ some 10
unfolding lookup string_discrete
a_last_seen = refl

a_stale : contains registry.stale "a" ≡ true
unfolding string_discrete
a_stale = refl

stale_latched_example :
    is_stale "a" 20 3000 (Laws.run registry (registers "b" 4100 ∷ detects 20 3000 ∷ [])) ≡ true
stale_latched_example =
    stale_latched (registers "b" 4100 ∷ detects 20 3000 ∷ []) registry "a" 10 20 3000
      registry-IsValid (text_ne "b" "a" refl, (tt, tt)) a_last_seen a_stale

abbrev first_id : String
first_id = "a"

is_stale-beat_example :
    is_stale "a" 9000 3000 (beat "a" 5000 registry)
    ≡ (if first_id == first_id then ltb (5000 + 3000) 9000 else is_stale "a" 9000 3000 registry)
is_stale-beat_example = is_stale-beat registry "a" "a" 5000 9000 3000

abbrev scout : DroneState
scout = set_assignment (pos 3, pos 0) none (new_drone "a" (pos 0, pos 0))

scout_lives : scout.alive ≡ true
unfolding set_assignment
scout_lives = refl

scout_heads : scout.target_cell ≡ some (pos 3, pos 0)
unfolding set_assignment
scout_heads = refl

steps_arrive_example : Arrives 2 (pos 3, pos 0) scout (steps 2 scout)
steps_arrive_example = steps_arrive 2 scout (pos 3, pos 0) scout_lives scout_heads

run-IsConsistent_example : IsConsistent (
    Assignment.run
      (new_drone "a" (pos 0, pos 0))
      (assigns (pos 3, pos 0) (some "left") ∷ moves ∷ dies ∷ []))
run-IsConsistent_example =
    run-IsConsistent (assigns (pos 3, pos 0) (some "left") ∷ moves ∷ dies ∷ [])
      (new_drone "a" (pos 0, pos 0)) (new_drone-IsConsistent "a" (pos 0, pos 0))

spread-OnBorder_example :
    (c : Coordinate) × (spread_starting_position "b" ("c" ∷ "b" ∷ "a" ∷ []) 5 ≡ ok c)
    × (((2 ≤ 5) × OnBorder 5 c) ⊎ ((5 ≤ 1) × (c ≡ (pos 0, pos 0))))
spread-OnBorder_example = spread-OnBorder "b" ("c" ∷ "b" ∷ "a" ∷ []) 5
