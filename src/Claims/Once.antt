-- ===== src/Claims/Once.antt =====
-- A round is applied once: `apply_round` of simulation/claim_manager.py.
use entropyhunt.Base.{
  length, ltb, ◌≤◌, false, List, [], ◌∷◌, if◌then◌else◌, contains, contains-add, ℕ, ◌≡◌, ap, true,
  arith, string_eq, nat_eq, pair_eq, int_eq,
}
use entropyhunt.Wire.{ConsensusRoundPayload}
use entropyhunt.Peer.Messages.{Peer}
use entropyhunt.Claims.{
  max_tracked_set_size, shrink_tracked, PeerClaimManager, evict_pending_claims_for_cell,
}
use entropyhunt.Claims.Rounds.{process_round, apply_round_payload}

-- What becomes of the processed rounds: rounds are applied, and the tracked sets are cut back.
pub data Event : Type 0 where
  applies : ConsensusRoundPayload → ℕ → Event
  cuts : Event

module _ {F : Type 0} where
  processed :
      (round : ConsensusRoundPayload) (t : ℕ) (peer : Peer F PeerClaimManager)
      → contains (apply_round_payload round t peer).claims.processed_rounds round.round_id ≡ true
  unfolding apply_round_payload process_round evict_pending_claims_for_cell
  processed round t peer =
      ground (arith, contains-add round.round_id round.round_id peer.claims.processed_rounds)

  known :
      (round : ConsensusRoundPayload) (t : ℕ) (peer : Peer F PeerClaimManager)
      → contains peer.claims.processed_rounds round.round_id ≡ true
      → apply_round_payload round t peer ≡ peer
  unfolding apply_round_payload
  known round t peer h = ap (λ b. if b then peer else process_round round t peer) h

  unfoldable pub step : Event → Peer F PeerClaimManager → Peer F PeerClaimManager
  step (applies round t) peer = apply_round_payload round t peer
  step cuts peer = record peer { claims = shrink_tracked peer.claims }

  unfoldable pub after : List Event → Peer F PeerClaimManager → Peer F PeerClaimManager
  after [] peer = peer
  after (event ∷ events) peer = after events (step event peer)

  -- Where the sets are cut back there are no more processed rounds than are tracked.
  abbrev pub HasRoom : Event → Peer F PeerClaimManager → Type 0
  HasRoom (applies round t) peer = Unit
  HasRoom cuts peer = length peer.claims.processed_rounds ≤ max_tracked_set_size

  abbrev pub HaveRoom : List Event → Peer F PeerClaimManager → Type 0
  HaveRoom [] peer = Unit
  HaveRoom (event ∷ events) peer = HasRoom event peer × HaveRoom events (step event peer)

  apply-keeps :
      (i : ℕ) (round : ConsensusRoundPayload) (t : ℕ) (peer : Peer F PeerClaimManager)
      → contains peer.claims.processed_rounds i ≡ true
      → contains (apply_round_payload round t peer).claims.processed_rounds i ≡ true
  unfolding apply_round_payload process_round evict_pending_claims_for_cell
  apply-keeps i round t peer h =
      ground (arith, contains-add round.round_id i peer.claims.processed_rounds)

  step-keeps :
      (i : ℕ) (event : Event) (peer : Peer F PeerClaimManager)
      → HasRoom event peer
      → contains peer.claims.processed_rounds i ≡ true
      → contains (step event peer).claims.processed_rounds i ≡ true
  unfolding step shrink_tracked
  step-keeps i (applies round t) peer room h = apply-keeps i round t peer h
  step-keeps i cuts peer room h =
      let few : ltb max_tracked_set_size (length peer.claims.processed_rounds) ≡ false =
        ground arith in
      rw few h

  after-keeps :
      (i : ℕ) (events : List Event) (peer : Peer F PeerClaimManager)
      → HaveRoom events peer
      → contains peer.claims.processed_rounds i ≡ true
      → contains (after events peer).claims.processed_rounds i ≡ true
  unfolding after
  after-keeps i [] peer room h = h
  after-keeps i (event ∷ events) peer room h =
      after-keeps i events (step event peer) room.1 (step-keeps i event peer room.0 h)

  -- A round that was applied changes nothing when one of its number comes again, also with another
  -- content or at another time, and also after other rounds have been applied and the tracked sets
  -- have been cut back, as long as at each cut there were no more processed rounds than are
  -- tracked.
  pub apply_round_twice :
      (round again : ConsensusRoundPayload) (t t' : ℕ) (events : List Event)
      (peer : Peer F PeerClaimManager)
      → again.round_id ≡ round.round_id
      → HaveRoom events (apply_round_payload round t peer)
      → apply_round_payload again t' (after events (apply_round_payload round t peer))
        ≡ after events (apply_round_payload round t peer)
  apply_round_twice round again t t' events peer same room =
      let applied = apply_round_payload round t peer in
      known again t' (after events applied)
        (rw same (after-keeps round.round_id events applied room (processed round t peer)))
