-- ===== src/Claims/Lost.antt =====
-- Peers whose heartbeats have run out: `detect_stale_peers` of simulation/claim_manager.py.
use entropyhunt.Base.{
  if◌then◌else◌, contains, Bool-cases, ◌==◌, Coordinate, ℕ, String, ◌≡◌, refl, sym, ap, subst, ◌∙◌,
  inl, inr, true, false, Option, none, some, List, [], ◌∷◌, arith, string_eq, nat_eq, pair_eq,
  int_eq, ◌≢◌,
}
use entropyhunt.Base.Dict.{lookup, lookup-insert_self}
use entropyhunt.Drone.{DroneState, mark_stale}
use entropyhunt.Heartbeat.{detect_stale, is_stale}
use entropyhunt.Wire.{ConsensusRoundPayload}
use entropyhunt.Heartbeat.Laws.{IsValid, detect_stale-partition}
use entropyhunt.Consensus.Ballots.{confirm_release}
use entropyhunt.Peer.{ensured, ensure_peer, change_peer, mark_stale_since}
use entropyhunt.Peer.Messages.{Peer}
use entropyhunt.Claims.{PeerClaimManager}
use entropyhunt.Claims.Rounds.{
  with_handler, apply_assignments, process_round, apply_round_payload, announce_round, release_cell,
  lose_peer, lose_peers, detect_stale_peers,
}
use entropyhunt.Claims.Others.{
  is_alive, is_known, alive_of, stale_timeout, Stays, Stays-trans, About, About-refl, About-trans,
  ensure_peer-About, ensure_peer-known, change_peer-About, change_peer-dead,
}

module _ {F : Type 0} where
  -- A round that releases a cell without assigning it.
  round-About :
      (round : ConsensusRoundPayload) (i j : String) (now : ℕ) (peer : Peer F PeerClaimManager)
      → round.assignments ≡ []
      → round.released_by ≡ some i
      → About i j peer.handler (apply_round_payload round now peer).handler
  unfolding apply_round_payload process_round apply_assignments mark_stale_since
  round-About round i j now peer none_won by =
      elim (Bool-cases (contains peer.claims.processed_rounds round.round_id)) [
        | inl e ↦ rw e (About-refl i j peer.handler)
        | inr e ↦
            rw (e, none_won, by)
              (About-trans i j peer.handler (ensure_peer i none peer.handler)
                (change_peer i mark_stale (ensure_peer i none peer.handler))
                (ensure_peer-About i j peer.handler)
                (change_peer-About i j (ensure_peer i none peer.handler)))
      ]

  release_cell-About :
      (i j : String) (now : ℕ) (o : Option Coordinate) (peer : Peer F PeerClaimManager)
      → About i j peer.handler (release_cell i now o peer).handler
  unfolding release_cell announce_round confirm_release
  release_cell-About i j now none peer = (About-refl i j peer.handler)
  release_cell-About i j now (some zone) peer = round-About _ i j now _ refl refl

  lose_peer-About :
      (i j : String) (now : ℕ) (drone : DroneState) (peer : Peer F PeerClaimManager)
      → About i j peer.handler (lose_peer i now drone peer).handler
        × (is_known i peer.handler ≡ true
            → alive_of i (lose_peer i now drone peer).handler ≡ some false)
  unfolding lose_peer mark_stale_since
  lose_peer-About i j now drone peer =
      let released =
        if contains peer.claims.released_stale i
        then peer
        else release_cell i now drone.claimed_cell peer in
      let once : (k : String) → About i k peer.handler released.handler = λ k.
        elim (Bool-cases (contains peer.claims.released_stale i)) [
          | inl e ↦ rw e (About-refl i k peer.handler)
          | inr e ↦ rw e (release_cell-About i k now drone.claimed_cell peer)
        ] in
      (
        About-trans i j peer.handler released.handler (change_peer i mark_stale released.handler)
            (once j) (change_peer-About i j released.handler),
        (λ known. change_peer-dead i released.handler ((once i).0.1 known)),
      )

  -- What `lose_peers` does about one drone.
  abbrev lose : ℕ → String → Peer F PeerClaimManager → Peer F PeerClaimManager
  lose now i peer =
      let known = with_handler (ensure_peer i none peer.handler) peer in
      let drone = ensured i none (lookup i peer.handler.peer_drones) in
      if i == peer.handler.config.peer_id
      then peer
      else if drone.alive
      then lose_peer i now drone known
      else known

  lose-About :
      (i j : String) (now : ℕ) (peer : Peer F PeerClaimManager)
      → About i j peer.handler (lose now i peer).handler
        × (i ≢ peer.handler.config.peer_id → alive_of i (lose now i peer).handler ≡ some false)
  lose-About i j now peer =
      let known = with_handler (ensure_peer i none peer.handler) peer in
      let drone = ensured i none (lookup i peer.handler.peer_drones) in
      elim (Bool-cases (i == peer.handler.config.peer_id)) [
        | inl e ↦ rw e (About-refl i j peer.handler, (λ n. ground arith))
        | inr e ↦ elim (Bool-cases drone.alive) [
          | inl a ↦
              rw (e, a)
                (
                  About-trans i j peer.handler known.handler (lose_peer i now drone known).handler
                      (ensure_peer-About i j peer.handler) (lose_peer-About i j now drone known).0,
                  (λ n. (lose_peer-About i j now drone known).1 (ensure_peer-known i peer.handler)),
                )
          | inr a ↦
              rw (e, a)
                (
                  ensure_peer-About i j peer.handler,
                  (λ n.
                      unfold ensure_peer in
                      ap is_alive (lookup-insert_self i drone peer.handler.peer_drones)
                      ∙ ap some a),
                )
        ]
      ]

  lose_peers-lem :
      (now : ℕ) (ids : List String) (j : String) (peer : Peer F PeerClaimManager)
      → let h = peer.handler in
        let h' = (lose_peers now ids peer).handler in
        Stays j h h'
        × (contains ids j ≡ true → j ≢ h.config.peer_id → alive_of j h' ≡ some false)
        × (contains ids j ≡ false → lookup j h'.peer_drones ≡ lookup j h.peer_drones)
  unfolding lose_peers
  lose_peers-lem now [] j peer = ((refl, (λ k. k), (λ k. k)), (λ c n. ground arith), (λ c. refl))
  lose_peers-lem now (i ∷ ids) j peer =
      let next = lose now i peer in
      let (kept, dead) = lose-About i j now peer in
      let (kept', dead', same') = lose_peers-lem now ids j next in
      (
        Stays-trans j peer.handler next.handler (lose_peers now ids next).handler kept.0 kept',
        (λ c n. elim (string_eq.dec i j) [
          | yes p ↦
              kept'.2
                (subst (λ k. alive_of k next.handler ≡ some false) p (dead (λ q. n (sym p ∙ q))))
          | no m ↦ dead' (ground arith) (λ q. n (q ∙ ap (λ c. c.peer_id) kept.0.0))
        ]),
        (λ c. same' (ground arith) ∙ kept.1 (ground arith)),
      )

  -- After `detect_stale_peers` a drone other than the peer's own is known and not alive where
  -- `is_stale` reports it, and otherwise as alive as it was.
  pub detect_stale_peers_lem :
      (now tick : ℕ) (peer : Peer F PeerClaimManager) (j : String)
      → IsValid peer.handler.heartbeat
      → j ≢ peer.handler.config.peer_id
      → alive_of j (detect_stale_peers now tick peer).handler ≡ (
          if is_stale j now (stale_timeout tick peer.handler) peer.handler.heartbeat
          then some false
          else alive_of j peer.handler)
  unfolding detect_stale_peers
  detect_stale_peers_lem now tick peer j valid n =
      let registry = peer.handler.heartbeat in
      let timeout = stale_timeout tick peer.handler in
      let (heartbeat, status) = detect_stale now timeout registry in
      let started = with_handler (record peer.handler { heartbeat = heartbeat }) peer in
      let same = (detect_stale-partition now timeout registry j valid).0 in
      let (kept, dead, others) = lose_peers-lem now status.stale j started in
      elim (Bool-cases (is_stale j now timeout registry)) [
        | inl s ↦ rw s (dead (same ∙ s) n)
        | inr s ↦ rw s (ap is_alive (others (same ∙ s)))
      ]
