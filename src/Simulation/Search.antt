-- ===== src/Simulation/Search.antt =====
-- Moving and searching: `_decay_maps`, `_update_split_cell` and `_move_and_search` of simulation/stub.py.
use entropyhunt.Base.{
  leb, if◌then◌else◌, get_or_else, ◌==◌, contains, add, key_error, Result, ok, or_raise, ◌>>=◌,
  each, Coordinate, ◌+◌, String, Bool, true, false, not, ◌&&◌, ◌||◌, Option, none, some, List, [],
  ◌∷◌, map, string_eq, nat_eq, pair_eq, int_eq,
}
use entropyhunt.Base.Text.{f_string}
use entropyhunt.Base.Dict.{lookup, insert, keys}
use entropyhunt.Base.Numeric.{Floats, max_f, min_f, le_f}
use entropyhunt.Certainty.{CertaintyMap, cell, set_certainty, update_cell, decay_all}
use entropyhunt.Drone.{
  idle, claim_won, claim_lost, transiting, searching, DroneState, clear_assignment,
  step_towards_target,
}
use entropyhunt.Simulation.{
  SimulationConfig, certainty_message, state_message, survivor_message, survivor_ack_message,
  Simulation, drone_ids, is_online, seconds, find_drone, change_drone, find_replica, put_replica,
}
use entropyhunt.Simulation.Traffic.{send, consume_mesh}
use entropyhunt.Simulation.Assignment.{with_status}

abbrev pub SplitKey : Type 0
SplitKey = Coordinate × String

-- The half of a cell that a drone searches.
abbrev pub split_key : DroneState → Option SplitKey
split_key drone = elim drone.target_cell [
  | none ↦ none
  | some cell ↦ elim drone.subzone [ none ↦ none | some subzone ↦ some (cell, subzone) ]
]

-- The set of keys of the online drones, as a list.
abbrev pub add_key : Option SplitKey → List SplitKey → List SplitKey
add_key none keys = keys
add_key (some key) keys = add key keys

unfoldable pub split_keys : List DroneState → List SplitKey → List SplitKey
split_keys [] keys = keys
split_keys (drone ∷ drones) keys =
    split_keys drones (if is_online drone then add_key (split_key drone) keys else keys)

abbrev pub settle_status : DroneState → DroneState
settle_status drone =
    let moving =
      not (elim drone.target_cell [ none ↦ false | some cell ↦ drone.position == cell ]) in
    elim drone.status [
      | claim_won ↦ record drone { status = if moving then transiting else searching }
      | claim_lost ↦ record drone { status = if moving then transiting else searching }
      | _ ↦ drone
    ]

abbrev pub count_search : DroneState → DroneState
count_search drone = record drone { searched_cells = drone.searched_cells + 1 }

module _ ⦃fl : Floats⦄ where
  open fl use {Float, zero_f, half, one, of_nat, add_f, sub_f, mul_f, div_f}

  abbrev pub certainty_at : Coordinate → CertaintyMap Float → Result Float
  certainty_at p m = cell p m >>= λ c. ok c.certainty

  -- The cell of the shared map has the mean certainty of its halves.
  unfoldable pub update_split_cell :
      String → Coordinate → Simulation Float → Result (Simulation Float)
  update_split_cell updated_by p sim = certainty_at p sim.certainty_map >>= λ certainty.
      let left = get_or_else (lookup (p, "left") sim.split_progress) certainty in
      let right = get_or_else (lookup (p, "right") sim.split_progress) certainty in
      set_certainty p (div_f (add_f left right) (of_nat 2)) updated_by sim.now_ms sim.certainty_map
      >>= λ updated. ok (record sim { certainty_map = updated })

  -- A half that nobody searches drifts towards one half.
  unfoldable pub drift : SimulationConfig Float → Float → Float
  drift config progress =
      let rate = mul_f config.decay_rate (of_nat config.tick_seconds) in
      max_f zero_f (min_f one (add_f progress (mul_f rate (sub_f half progress))))

  abbrev pub decay_entry :
      SimulationConfig Float → List SplitKey → SplitKey × Float → SplitKey × Float
  decay_entry config active entry =
      if contains active entry.0 then entry else (entry.0, drift config entry.1)

  -- The cells of the halves that drift, each once.
  abbrev pub touched_cells : List SplitKey → List SplitKey → List Coordinate
  touched_cells active [] = []
  touched_cells active (key ∷ keys) =
      let rest = touched_cells active keys in
      if contains active key || contains rest key.0 then rest else key.0 ∷ rest

  unfoldable pub decay_split_progress : Simulation Float → Result (Simulation Float)
  decay_split_progress sim =
      let active = split_keys sim.drones [] in
      let decayed = record sim {
        split_progress = map (decay_entry sim.config active) sim.split_progress;
      } in
      each (update_split_cell "decay") (touched_cells active (keys sim.split_progress)) decayed

  unfoldable pub decay_replica : String → Simulation Float → Result (Simulation Float)
  decay_replica drone_id sim = find_replica drone_id sim >>= λ replica.
      decay_all (of_nat sim.config.tick_seconds) sim.now_ms [] replica.certainty_map >>= λ decayed.
      ok (put_replica drone_id (record replica { certainty_map = decayed }) sim)

  unfoldable pub decay_maps : Simulation Float → Result (Simulation Float)
  decay_maps sim =
      decay_all (of_nat sim.config.tick_seconds) sim.now_ms [] sim.certainty_map >>= λ decayed.
      each decay_replica (keys sim.replicas) (record sim { certainty_map = decayed })
      >>= decay_split_progress

  -- Each other drone that is online acknowledges the survivor.
  unfoldable pub broadcast_receipt :
      String → Coordinate → String → Simulation Float → Result (Simulation Float)
  broadcast_receipt source_drone_id p drone_id sim = find_drone drone_id sim >>= λ drone. ok (
      if not (is_online drone) || drone_id == source_drone_id
      then sim
      else send (f_string ("swarm/survivor_found_ack/" ∷ drone_id ∷ []))
          (survivor_ack_message drone_id source_drone_id p) drone_id sim)

  unfoldable pub broadcast_survivor_receipts :
      String → Coordinate → Simulation Float → Result (Simulation Float)
  broadcast_survivor_receipts source_drone_id p sim =
      each (broadcast_receipt source_drone_id p) (drone_ids sim.drones) sim

  -- One search of a whole cell, in the drone's replica; and the certainty after it.
  unfoldable pub search_whole :
      String → Coordinate → Simulation Float → Result (Simulation Float × Float)
  search_whole drone_id p sim = find_replica drone_id sim >>= λ replica.
      update_cell p drone_id sim.config.search_increment sim.now_ms replica.certainty_map
      >>= λ updated. certainty_at p updated >>= λ certainty.
          ok (put_replica drone_id (record replica { certainty_map = updated }) sim, certainty)

  -- One search of a half: its progress, then the shared cell, then the drone's replica.
  unfoldable pub search_half :
      String → Coordinate → String → Simulation Float → Result (Simulation Float × Float)
  search_half drone_id p subzone sim = certainty_at p sim.certainty_map >>= λ known.
      let progress = get_or_else (lookup (p, subzone) sim.split_progress) known in
      let searched = min_f one (add_f progress sim.config.search_increment) in
      update_split_cell drone_id p
        (record sim { split_progress = insert (p, subzone) searched sim.split_progress })
      >>= λ updated. certainty_at p updated.certainty_map >>= λ certainty.
          find_replica drone_id updated >>= λ replica.
          set_certainty p certainty drone_id sim.now_ms replica.certainty_map >>= λ seen.
          ok (put_replica drone_id (record replica { certainty_map = seen }) updated, certainty)

  unfoldable pub search_cell :
      String → Coordinate → Option String → Simulation Float → Result (Simulation Float × Float)
  search_cell drone_id p none sim = search_whole drone_id p sim
  search_cell drone_id p (some subzone) sim = search_half drone_id p subzone sim

  -- The survivor is found at the target, once it is unlocked and searched well enough.
  unfoldable pub finds_survivor : Coordinate → Float → Simulation Float → Bool
  unfolding seconds
  finds_survivor p certainty sim =
      p == sim.config.target
      && leb sim.scheduler.target_unlock_at_s (seconds sim)
      && le_f sim.config.completion_certainty certainty

  unfoldable pub report_survivor :
      String → Coordinate → Float → Simulation Float → Result (Simulation Float)
  report_survivor drone_id p certainty sim =
      let found =
        send "swarm/survivor_found" (survivor_message p (fl.round3 certainty) drone_id) drone_id
          (record sim { survivor_found = true }) in
      if finds_survivor p certainty sim
      then broadcast_survivor_receipts drone_id p found
      else ok sim

  unfoldable pub is_complete : Coordinate → Option String → Float → Simulation Float → Result Bool
  is_complete p none certainty sim = ok (le_f sim.config.completion_certainty certainty)
  is_complete p (some subzone) certainty sim =
      or_raise (lookup (p, subzone) sim.split_progress) key_error >>= λ progress.
      ok (le_f sim.config.completion_certainty progress)

  unfoldable pub complete_cell :
      String → Coordinate → Option String → Float → Simulation Float → Result (Simulation Float)
  complete_cell drone_id p subzone certainty sim = is_complete p subzone certainty sim >>= λ done.
      let completed = record sim {
        completed_cells =
            if le_f sim.config.completion_certainty certainty
            then add p sim.completed_cells
            else sim.completed_cells;
      } in
      ok (if done then change_drone drone_id clear_assignment completed else sim)

  -- A drone at its target.
  unfoldable pub search_target :
      DroneState → Coordinate → Simulation Float → Result (Simulation Float)
  search_target drone p sim =
      let drone_id = drone.drone_id in
      search_cell drone_id p drone.subzone (change_drone drone_id (with_status searching) sim)
      >>= λ searched.
          report_survivor drone_id p searched.1 (
            send "swarm/certainty_map" (certainty_message drone_id p searched.1) drone_id
              (change_drone drone_id count_search searched.0))
          >>= complete_cell drone_id p drone.subzone searched.1

  -- A drone on its way.
  unfoldable pub move_drone : DroneState → Coordinate → Simulation Float → Simulation Float
  move_drone drone p sim =
      let moved = step_towards_target drone in
      send (f_string ("swarm/drone_state/" ∷ drone.drone_id ∷ []))
        (state_message drone.drone_id moved.position p moved.status) drone.drone_id
        (change_drone drone.drone_id step_towards_target sim)

  unfoldable pub act : DroneState → Option Coordinate → Simulation Float → Result (Simulation Float)
  act drone none sim = ok (change_drone drone.drone_id (with_status idle) sim)
  act drone (some p) sim =
      if drone.position == p then search_target drone p sim else ok (move_drone drone p sim)

  unfoldable pub take_turn : String → Simulation Float → Result (Simulation Float)
  take_turn drone_id sim = find_drone drone_id sim >>= λ drone.
      let settled = settle_status drone in
      if is_online drone
      then act settled settled.target_cell (change_drone drone_id settle_status sim)
      else ok sim

  unfoldable pub move_and_search : Simulation Float → Result (Simulation Float)
  move_and_search sim = each take_turn (drone_ids sim.drones) sim >>= consume_mesh
