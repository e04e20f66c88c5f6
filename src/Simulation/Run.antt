-- ===== src/Simulation/Run.antt =====
-- The simulation's clock: `initialise`, `tick` and `run` of simulation/stub.py, without what is written to files.
-- The role of the i-th drone.
use entropyhunt.Base.{
  if◌then◌else◌, get_or_else, ◌==◌, zero_division_error, Result, ok, raise, ◌>>=◌, each, pos,
  negsuc, Coordinate, ℕ, zero, suc, ◌+◌, ◌-◌, ◌*◌, ◌/◌, ◌%◌, min, String, Bool, true, false, ◌&&◌,
  some, List, [], ◌∷◌, string_eq, nat_eq, pair_eq, int_eq,
}
use entropyhunt.Base.Numeric.{Floats}
use entropyhunt.Certainty.{CellScore, score, ranked_cells}
use entropyhunt.Drone.{DroneState}
use entropyhunt.Simulation.{hello_message, Simulation, drone_ids, find_drone}
use entropyhunt.Simulation.Traffic.{send, consume_mesh}
use entropyhunt.Simulation.Contention.{assign_idle_drones}
use entropyhunt.Simulation.Liveness.{inject_failure, check_recovery, heartbeat_tick}
use entropyhunt.Simulation.Search.{decay_maps, move_and_search}

abbrev pub role_of : ℕ → String
role_of i = if i == 0 then "carrier" else if i % 3 == 0 then "relay" else "scout"

unfoldable pub with_roles : ℕ → List DroneState → List DroneState
with_roles i [] = []
with_roles i (drone ∷ drones) = record drone { role = role_of i } ∷ with_roles (suc i) drones

module _ ⦃fl : Floats⦄ where
  open fl use {Float}

  -- The cell of the first contest: the highest ranked one.
  abbrev pub first_cell : ℕ → List (CellScore Float) → Coordinate
  first_cell grid [] =
      let corner = if grid == 0 then negsuc 0 else pos (min 5 (grid - 1)) in (corner, corner)
  first_cell grid (score ∷ scores) = score.coordinate

  abbrev pub contention_cell_of : Simulation Float → Coordinate
  contention_cell_of sim =
      get_or_else sim.scheduler.contention_cell
        (first_cell sim.config.grid (ranked_cells [] sim.certainty_map))

  unfoldable pub say_hello : String → Simulation Float → Result (Simulation Float)
  say_hello drone_id sim = find_drone drone_id sim >>= λ drone.
      ok (send "swarm/hello" (hello_message drone_id drone.position) drone_id sim)

  -- The roles are given out, and the cell of the first contest is known.
  abbrev pub ready_for : Simulation Float → Simulation Float
  ready_for sim = record sim {
    scheduler = record sim.scheduler { contention_cell = some (contention_cell_of sim) };
    drones = with_roles 0 sim.drones;
  }

  unfoldable pub initialise : Simulation Float → Result (Simulation Float)
  initialise sim = heartbeat_tick (ready_for sim) >>= λ heard.
      each say_hello (drone_ids heard.drones) heard >>= consume_mesh >>= assign_idle_drones

  abbrev pub is_over : Simulation Float → Bool
  is_over sim = sim.survivor_found && sim.config.stop_on_survivor

  unfoldable pub advance : Simulation Float → Simulation Float
  advance sim = record sim { now_ms = sim.now_ms + sim.config.tick_seconds * 1000 }

  unfoldable pub tick : Simulation Float → Result (Simulation Float)
  unfolding advance
  tick sim =
      check_recovery (inject_failure (advance sim))
      >>= heartbeat_tick
      >>= decay_maps
      >>= move_and_search
      >>= λ searched. if is_over searched then ok searched else assign_idle_drones searched

  -- `for _ in range(total_ticks)`
  unfoldable pub ticks : ℕ → Simulation Float → Result (Simulation Float)
  ticks zero sim = ok sim
  ticks (suc n) sim =
      tick sim >>= λ ticked. elim (is_over ticked) [ true ↦ ok ticked | false ↦ ticks n ticked ]

  unfoldable pub run : Simulation Float → Result (Simulation Float)
  run sim = initialise sim >>= λ ready.
      (if ready.config.tick_seconds == 0
        then raise zero_division_error
        else ticks (ready.config.duration / ready.config.tick_seconds) ready)
      >>= consume_mesh
