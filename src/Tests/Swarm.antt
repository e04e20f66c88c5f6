-- ===== src/Tests/Swarm.antt =====
-- A run of the simulation with three drones, one of which is lost: simulation/stub.py.
use entropyhunt.Base.{
  ok, Answers, All, ◌≤◌, ◌⊎◌, ◌*◌, true, ◌>>=◌, map_ok, ℤ, pos, ℕ, ◌≡◌, refl, false, some, List, [],
  ◌∷◌, map, string_eq, nat_eq, pair_eq, int_eq,
}
use entropyhunt.Drone.{DroneStatus, claim_lost, searching}
use entropyhunt.Simulation.{SimulationConfig, World, new_simulation}
use entropyhunt.Simulation.Run.{initialise, tick, ticks, run}
use entropyhunt.Tests.Numbers.{thousandths}
use entropyhunt.Base.Dict.{lookup, insert}
use entropyhunt.Base.Text.{show_ℤ}
use entropyhunt.Base.Sort.{insert_sorted, sorted, least_from, least}
use entropyhunt.Base.Int.{◌+ℤ◌, ltb_ℤ, ℤ_discrete}
use entropyhunt.Certainty.{
  clamp_certainty, shannon_entropy, new_map, cell, assign, set_certainty, update_cell, entropy_at,
}
use entropyhunt.Certainty.{
  decay_cell, decay_place, decay_all, ranked_cells, average_entropy, merge_newer,
  merge_timestamped_cell,
}
use entropyhunt.Selector.{selections, select_next_zone, top_candidates}
use entropyhunt.Auction.{
  place_loser, fallback_assignments, split_decision, winner_decision, is_tie, settle,
  resolve_conflict,
}
use entropyhunt.Heartbeat.{register, beat, detect_stale}
use entropyhunt.Drone.{set_assignment}
use entropyhunt.Drone.Spread.{index_or_zero, spread_starting_position}
use entropyhunt.Mesh.{
  wildcard_prefix, matches_topic, subscribe, next_envelope, deliver, remember, publish, poll,
}
use entropyhunt.Consensus.{
  new_resolver, subscriber_id_of, subscribe_peers, contest_id_of, apply_round, lead_choice,
  fallback_votes, count_choices, majority_choice, vote_of, remember_key, see_vote, receive_vote,
  receive_all, collect_votes, collect_quorum_votes,
}
use entropyhunt.Consensus.Rounds.{
  settle_alone, conclude, judge, after_votes, peer_votes, collect_peer_votes, contest, hold,
  resolve_claims,
}
use entropyhunt.Consensus.Ballots.{promote, cast_votes, publish_votes, confirm_release}
use entropyhunt.Failure.{enabled, should_trigger, cut_off, trigger_on, trigger_if, inject}
use entropyhunt.Failure.Network.{new_injector, lossy_publish, survivors, lossy_poll}
use entropyhunt.Peer.{zones_of}
use entropyhunt.Claims.{group_by_cell, shrink_tracked, drop_resolved}
use entropyhunt.Drone.Assignment.{IsConsistent}
use entropyhunt.Simulation.Soundness.{OnlyPlanned}
use entropyhunt.Simulation.Soundness.Runs.{run-IsSound, run_ends}
use entropyhunt.Simulation.{
  drone_ids, new_simulation, new_scheduler, update_drone, seconds, build_drones, new_scheduler,
}
use entropyhunt.Simulation.Traffic.{
  send, receive, hear_simulation, hear_replica, consume_drone, consume_mesh,
}
use entropyhunt.Simulation.Assignment.{
  blocked_zones, log_round, apply_assignment, nearest_helper, recruit, force_reclaim, force_target,
  create_claim, serve, serve_releases, process_priority_release_queue, serve_targets,
  process_priority_target_queue,
}
use entropyhunt.Simulation.Contention.{
  choose, claim_zones, contend, contend_all, contend_idle, assign_idle_drones,
}
use entropyhunt.Simulation.Liveness.{
  vote_stale, online_observers, inject_failure, recover, check_recovery, release_claim, inherit_map,
  announce_reclaim, lose_drone, mark_drone_stale, send_heartbeat, judge_drone, heartbeat_tick,
}
use entropyhunt.Simulation.Search.{
  split_keys, update_split_cell, drift, decay_split_progress, decay_replica, decay_maps,
  broadcast_receipt, broadcast_survivor_receipts, search_whole, search_half, search_cell,
  finds_survivor, report_survivor, is_complete, complete_cell, search_target, move_drone, act,
  take_turn, move_and_search,
}
use entropyhunt.Simulation.Run.{with_roles, say_hello, advance}
use entropyhunt.Tests.Numbers.{opposite, scaled, total, quotient, per, whole, paces}
use entropyhunt.Base.{flatten, each, string_discrete, pair_discrete, ℕ_discrete}

abbrev pub swarm : SimulationConfig ℤ
swarm = record {
  grid = 3;
  duration = 2;
  tick_seconds = 1;
  search_increment = pos 50;
  completion_certainty = pos 950;
  decay_rate = pos 1;
  stale_after_seconds = 3;
  target = (pos 1, pos 2);
  stop_on_survivor = false;
  proofs_path = "proofs.jsonl";
  drones = 3;
  fail_drone = some "drone_2";
  fail_at = some 1;
  seed = 7;
  final_map_path = "final_map.json";
  packet_loss = pos 0;
  jitter_ms = pos 0;
  transport = "in-process";
}

-- The voting threads finish in the order of the drones.
abbrev pub calm : World ℤ
calm = record {
  draw = λ i. pos 0;
  schedule =
      λ i. record { nonce = "n"; voters = "drone_1" ∷ "drone_2" ∷ "drone_3" ∷ []; polls = 3 };
}

-- The time, the auctions, the rounds and the dropouts of the run, and what the drones do at its end.
ends_well :
    map_ok {B = ℕ × ℕ × ℕ × ℕ × List DroneStatus}
      (λ s. (s.now_ms, s.auctions, s.resolver.round_id, s.dropouts, map (λ d. d.status) s.drones))
      (new_simulation swarm calm >>= run)
    ≡ ok (2000, 1, 1, 1, searching ∷ claim_lost ∷ searching ∷ [])
unfolding new_simulation new_scheduler lookup insert show_ℤ insert_sorted sorted least_from least
    ◌+ℤ◌ ℤ_discrete clamp_certainty shannon_entropy new_map cell assign set_certainty update_cell
    entropy_at decay_cell decay_place decay_all ranked_cells average_entropy merge_newer
    merge_timestamped_cell selections select_next_zone top_candidates place_loser
    fallback_assignments split_decision winner_decision is_tie settle resolve_conflict register beat
    detect_stale set_assignment index_or_zero spread_starting_position wildcard_prefix matches_topic
    subscribe next_envelope deliver remember publish poll new_resolver subscriber_id_of
    subscribe_peers contest_id_of apply_round lead_choice fallback_votes count_choices
    majority_choice vote_of remember_key see_vote receive_vote receive_all collect_votes
    collect_quorum_votes promote cast_votes publish_votes confirm_release settle_alone conclude
    judge after_votes peer_votes collect_peer_votes contest hold resolve_claims enabled
    should_trigger cut_off trigger_on trigger_if inject new_injector lossy_publish survivors
    lossy_poll zones_of group_by_cell shrink_tracked drop_resolved update_drone seconds build_drones
    send receive hear_simulation hear_replica consume_drone consume_mesh blocked_zones log_round
    apply_assignment nearest_helper recruit force_reclaim force_target create_claim serve
    serve_releases process_priority_release_queue serve_targets process_priority_target_queue choose
    claim_zones contend contend_all contend_idle assign_idle_drones vote_stale online_observers
    inject_failure recover check_recovery release_claim inherit_map announce_reclaim lose_drone
    mark_drone_stale send_heartbeat judge_drone heartbeat_tick split_keys update_split_cell drift
    decay_split_progress decay_replica decay_maps broadcast_receipt broadcast_survivor_receipts
    search_whole search_half search_cell finds_survivor report_survivor is_complete complete_cell
    search_target move_drone act take_turn move_and_search with_roles say_hello initialise advance
    tick ticks run opposite scaled total quotient per whole paces flatten each string_discrete
    pair_discrete ℕ_discrete
ends_well = refl

run-IsSound_example :
    Answers
      (λ s.
        All IsConsistent s.drones
        × (drone_ids s.drones ≡ s.peer_ids)
        × ((s.survivor_found ≡ false) ⊎ (s.scheduler.target_unlock_at_s ≤ seconds s))
        × (s.auctions ≤ s.resolver.round_id)
        × OnlyPlanned (some "drone_2") s.recovered_drones
        × (s.dropouts ≤ 1)
        × All (λ p. ltb_ℤ (pos 1000) p.1 ≡ false) s.split_progress)
      (new_simulation swarm calm >>= run)
run-IsSound_example = run-IsSound swarm calm

run_ends_example :
    Answers
      (λ s.
        (m : ℕ) × (m ≤ 2)
        × (s.now_ms ≡ m * 1000)
        × ((m ≡ 2) ⊎ ((s.survivor_found ≡ true) × (swarm.stop_on_survivor ≡ true))))
      (new_simulation swarm calm >>= run)
run_ends_example = run_ends swarm calm
