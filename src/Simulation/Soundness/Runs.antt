-- ===== src/Simulation/Soundness/Runs.antt =====
-- Whole runs of the simulation: what `run` of simulation/stub.py keeps from the start to the end, and how long
-- it takes.
use entropyhunt.Base.{
  if◌then◌else◌, Bool-cases, first, All, All-append, ◌==◌, key_error, zero_division_error, raise,
  ◌>>=◌, each, Answers, Answers-after, Answers-or_raise, Answers-bind, each-Answers, Answers-mono,
  ℕ, ◌*◌, ◌/◌, ◌≤◌, String, ◌≡◌, refl, sym, subst, ◌∙◌, ◌⊎◌, inl, inr, true, false, [], ◌∷◌, arith,
  string_eq, nat_eq, pair_eq, int_eq,
}
use entropyhunt.Base.Numeric.{Floats}
use entropyhunt.Drone.{new_drone}
use entropyhunt.Drone.Spread.{spread_starting_position}
use entropyhunt.Consensus.{new_resolver}
use entropyhunt.Simulation.{
  SimulationConfig, World, Simulation, drone_ids, seconds, build_drones, new_scheduler,
  new_simulation,
}
use entropyhunt.Simulation.Traffic.{consume_mesh}
use entropyhunt.Simulation.Contention.{assign_idle_drones}
use entropyhunt.Simulation.Liveness.{heartbeat_tick}
use entropyhunt.Simulation.Run.{with_roles, say_hello, ready_for, initialise, ticks, run}
use entropyhunt.Drone.Assignment.{IsConsistent, new_drone-IsConsistent}
use entropyhunt.Simulation.Soundness.{IsFleet, OnlyPlanned, Instant, IsSound, send-IsSound}
use entropyhunt.Simulation.Soundness.Messages.{consume_mesh-IsSound}
use entropyhunt.Simulation.Soundness.Contests.{assign_idle_drones-IsSound}
use entropyhunt.Simulation.Soundness.Losses.{heartbeat_tick-IsSound}
use entropyhunt.Simulation.Soundness.Ticks.{
  with_roles-All, drone_ids-with_roles, later, Ends, remembers, unseen, ticks-Ends, Ran,
}

module _ ⦃fl : Floats⦄ where
  open fl use {Float, lt, one}

  -- Reading the last messages changes neither the time nor what was found.
  consumed-Ends :
      (n : ℕ) (k : Instant Float) (sim : Simulation Float)
      → Ends n k sim
      → Answers (Ends n k) (consume_mesh sim)
  consumed-Ends n k sim (m, bound, sound, inl full) =
      Answers-mono (IsSound (later m k)) (Ends n k) (consume_mesh sim)
        (λ s w. (m, bound, w, inl full)) (consume_mesh-IsSound sim sound)
  consumed-Ends n k sim (m, bound, sound, inr (found, stop)) =
      let seen = record (later m k) { found = true } in
      Answers-mono (IsSound seen) (Ends n k) (consume_mesh sim)
        (λ s w. (m, bound, unseen (later m k) s w, inr (w.books.persistent refl, stop)))
        (consume_mesh-IsSound sim (remembers (later m k) sim found sound))

  -- The state with the drones' roles and the cell of the first contest.
  ready_for-IsSound :
      {k : Instant Float} (sim : Simulation Float) → IsSound k sim → IsSound k (ready_for sim)
  ready_for-IsSound {k} sim v =
      let fleet : IsFleet sim.peer_ids (with_roles 0 sim.drones) =
        (with_roles-All 0 sim.drones v.fleet.0, drone_ids-with_roles 0 sim.drones ∙ v.fleet.1) in
      let books = v.books in record { fleet = fleet; books = ground arith }

  say_hello-IsSound :
      {k : Instant Float} (drone_id : String) (sim : Simulation Float)
      → IsSound k sim
      → Answers (IsSound k) (say_hello drone_id sim)
  unfolding say_hello
  say_hello-IsSound {k} drone_id sim v =
      Answers-or_raise (IsSound k) (first (λ d. d.drone_id == drone_id) sim.drones) key_error _
        (λ drone _. send-IsSound "swarm/hello" _ drone_id sim v)

  initialise-IsSound :
      {k : Instant Float} (sim : Simulation Float)
      → IsSound k sim
      → Answers (IsSound k) (initialise sim)
  unfolding initialise
  initialise-IsSound {k} sim v =
      Answers-bind (IsSound k) (IsSound k) (heartbeat_tick (ready_for sim)) _
        (heartbeat_tick-IsSound (ready_for sim) (ready_for-IsSound sim v))
        (λ heard w.
          Answers-bind (IsSound k) (IsSound k) _ assign_idle_drones
            (Answers-bind (IsSound k) (IsSound k) (each say_hello (drone_ids heard.drones) heard)
              consume_mesh
              (each-Answers (IsSound k) say_hello (drone_ids heard.drones) heard say_hello-IsSound
                w)
              consume_mesh-IsSound)
            assign_idle_drones-IsSound)

  run-Ran :
      (config : SimulationConfig Float) (sim : Simulation Float)
      → IsSound (record { config = config; now_ms = 0; found = false }) sim
      → Answers (Ran config) (run sim)
  unfolding run
  run-Ran config sim v =
      let k : Instant Float = record { config = config; now_ms = 0; found = false } in
      Answers-bind (IsSound k) (Ran config) (initialise sim) _ (initialise-IsSound sim v)
        (λ ready w.
          Answers-bind (Ran config) (Ran config) _ consume_mesh (within_time ready w)
            (λ s. consumed-Ends (config.duration / config.tick_seconds) k s))
    where
      within_time :
          (ready : Simulation Float)
          → IsSound (record { config = config; now_ms = 0; found = false }) ready
          → Answers (Ran config) (
              if ready.config.tick_seconds == 0
              then raise zero_division_error
              else ticks (ready.config.duration / ready.config.tick_seconds) ready)
      within_time ready w = elim (Bool-cases (ready.config.tick_seconds == 0)) [
        | inl e ↦ rw e tt
        | inr e ↦ rw e (
            subst (λ c. Answers (Ran config) (ticks (c.duration / c.tick_seconds) ready))
              (sym w.books.configured)
              (ticks-Ends (config.duration / config.tick_seconds)
                (record { config = config; now_ms = 0; found = false }) ready w))
      ]

  build_drones-All : (n grid : ℕ) → Answers (All IsConsistent) (build_drones n grid)
  unfolding build_drones
  build_drones-All n grid =
      each-Answers (All IsConsistent) _ _ []
        (λ drone_id drones h.
          Answers-after (All IsConsistent) (spread_starting_position drone_id _ grid) _
            (λ position _.
              All-append IsConsistent drones (new_drone drone_id position ∷ []) h
                (new_drone-IsConsistent drone_id position, tt)))
        tt

  new_simulation-IsSound :
      (config : SimulationConfig Float) (world : World Float)
      → Answers
          (IsSound (record { config = config; now_ms = 0; found = false }))
          (new_simulation config world)
  unfolding new_simulation new_resolver new_scheduler
  new_simulation-IsSound config world =
      Answers-bind (All IsConsistent)
        (IsSound (record { config = config; now_ms = 0; found = false }))
        (build_drones config.drones config.grid) _ (build_drones-All config.drones config.grid)
        (λ drones h. record { fleet = (h, refl); books = ground arith })

  -- The simulation from its construction to the end of its run.
  simulated-Ran :
      (config : SimulationConfig Float) (world : World Float)
      → Answers (Ran config) (new_simulation config world >>= run)
  simulated-Ran config world =
      let start : Instant Float = record { config = config; now_ms = 0; found = false } in
      Answers-bind (IsSound start) (Ran config) (new_simulation config world) run
        (new_simulation-IsSound config world) (run-Ran config)

  -- At the end of a run that does not raise, whatever is drawn and however the voting threads
  -- finish, each drone is consistent and the ids of the drones are those of the peers, the unlock
  -- time has been reached where the survivor was found, there are no more auctions than rounds, no
  -- drone but the one that was planned to fail is noted as having come back, at most one failure
  -- was injected, and no progress on half a cell is above one.
  pub run-IsSound :
      (config : SimulationConfig Float) (world : World Float)
      → Answers
          (λ s.
            All IsConsistent s.drones
            × (drone_ids s.drones ≡ s.peer_ids)
            × ((s.survivor_found ≡ false) ⊎ (s.scheduler.target_unlock_at_s ≤ seconds s))
            × (s.auctions ≤ s.resolver.round_id)
            × OnlyPlanned config.fail_drone s.recovered_drones
            × (s.dropouts ≤ 1)
            × All (λ p. lt one p.1 ≡ false) s.split_progress)
          (new_simulation config world >>= run)
  run-IsSound config world =
      Answers-mono (Ran config) _ (new_simulation config world >>= run)
        (λ s (m, bound, v, ended).
          let planned : OnlyPlanned config.fail_drone s.recovered_drones =
            subst (λ c. OnlyPlanned c.fail_drone s.recovered_drones) v.books.configured
              v.books.recovered in
          (
            v.fleet.0,
            v.fleet.1,
            elim (Bool-cases s.survivor_found) [
              | inl found ↦ inr (unfold seconds in v.books.unlocked found)
              | inr not_found ↦ inl not_found
            ],
            v.books.audited,
            planned,
            v.books.failed_once,
            v.books.partial,
          ))
        (simulated-Ran config world)

  -- A run that does not raise has made all the ticks that its duration holds, each of which
  -- advances the clock by one tick, or it has stopped earlier with the survivor found, which it
  -- does only where it is configured to.
  pub run_ends :
      (config : SimulationConfig Float) (world : World Float)
      → Answers
          (λ s.
            (m : ℕ) × (m ≤ config.duration / config.tick_seconds)
            × (s.now_ms ≡ m * (config.tick_seconds * 1000))
            × ((m ≡ config.duration / config.tick_seconds)
                ⊎ ((s.survivor_found ≡ true) × (config.stop_on_survivor ≡ true))))
          (new_simulation config world >>= run)
  run_ends config world =
      Answers-mono (Ran config) _ (new_simulation config world >>= run)
        (λ s (m, bound, v, ended). (m, bound, omega (arith, v.books.timed), ended))
        (simulated-Ran config world)
