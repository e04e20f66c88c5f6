-- ===== src/Claims.antt =====
-- simulation/claim_manager.py: how a peer handles claims, applies the rounds of other peers, releases the cells
-- of stale peers and resolves the claims that have waited. Its resolver has no bus, as in
-- simulation/runtime.py; logging and the proof log are left out.
pub mod Pending
pub mod Rounds
pub mod Others
pub mod Lost
pub mod Once
use entropyhunt.Base.{
  ltb, leb, if◌then◌else◌, get_or_else, length, take, keep, Eq, ◌==◌, contains, remove, difference,
  Coordinate, ℕ, ◌+◌, ◌-◌, ◌*◌, String, Bool, not, ◌&&◌, List, [], ◌∷◌, ◌++◌, map, string_eq,
  nat_eq, pair_eq, int_eq,
}
use entropyhunt.Base.Dict.{Dict, lookup, insert, erase, values}
use entropyhunt.Base.Sort.{sorted}
use entropyhunt.Base.Order.{lex, by_key}
use entropyhunt.Base.Text.{text_lt}
use entropyhunt.Base.Int.{ltb_ℤ}
use entropyhunt.Auction.{ClaimRequest}
use entropyhunt.Consensus.{DeterministicResolver}
use entropyhunt.Peer.{PeerConfig}

pub record PeerClaimManager : Type 0 where
  pub resolver : DeterministicResolver
  pub auctions : ℕ
  pub pending_claims : Dict String ClaimRequest
  pub resolved_claim_ids : List String
  pub processed_rounds : List ℕ
  pub released_stale : List String
  pub pending_claims_by_cell : Dict Coordinate (List String)
  pub pending_claim_timestamps : Dict String ℕ

abbrev pub max_tracked_set_size : ℕ
max_tracked_set_size = 500

unfoldable pub track_claim : ClaimRequest → ℕ → PeerClaimManager → PeerClaimManager
track_claim claim timestamp_ms m = record m {
  pending_claims = insert claim.claim_id claim m.pending_claims;
  pending_claims_by_cell =
      insert claim.cell
        (get_or_else (lookup claim.cell m.pending_claims_by_cell) [] ++ (claim.claim_id ∷ []))
        m.pending_claims_by_cell;
  pending_claim_timestamps = insert claim.claim_id timestamp_ms m.pending_claim_timestamps;
}

abbrev pub erase_all {ℓ} : {V : Type ℓ} → List String → Dict String V → Dict String V
erase_all [] d = d
erase_all (k ∷ ks) d = erase_all ks (erase k d)

unfoldable pub evict_pending_claims_for_cell : Coordinate → PeerClaimManager → PeerClaimManager
evict_pending_claims_for_cell zone m =
    let claim_ids = get_or_else (lookup zone m.pending_claims_by_cell) [] in
    record m {
      pending_claims_by_cell = erase zone m.pending_claims_by_cell;
      pending_claims = erase_all claim_ids m.pending_claims;
      pending_claim_timestamps = erase_all claim_ids m.pending_claim_timestamps;
    }

-- `if claim_id in ids: ids.remove(claim_id)` for the ids of every cell.
abbrev pub remove_everywhere :
    String → Dict Coordinate (List String) → Dict Coordinate (List String)
remove_everywhere claim_id by_cell = map (λ p. (p.0, remove claim_id p.1)) by_cell

-- The claim is no longer pending.
unfoldable pub forget_claim : PeerClaimManager → String → PeerClaimManager
forget_claim m claim_id = record m {
  pending_claims = erase claim_id m.pending_claims;
  pending_claim_timestamps = erase claim_id m.pending_claim_timestamps;
  pending_claims_by_cell = remove_everywhere claim_id m.pending_claims_by_cell;
}

unfoldable pub claim_resolution_delay_ms : {F : Type 0} → PeerConfig F → ℕ → ℕ
claim_resolution_delay_ms config tick_ms = tick_ms * (if config.transport == "foxmq" then 2 else 1)

-- The ids whose time stamp is more than `ttl_ms` ago.
unfoldable pub expired_ids : ℕ → ℕ → Dict String ℕ → List String
expired_ids now_ms ttl_ms [] = []
expired_ids now_ms ttl_ms ((claim_id, t) ∷ d) =
    if ltb (t + ttl_ms) now_ms
    then claim_id ∷ expired_ids now_ms ttl_ms d
    else expired_ids now_ms ttl_ms d

unfoldable pub mature_claims : ℕ → ℕ → PeerClaimManager → List ClaimRequest
mature_claims now_ms delay_ms m =
    keep
      (λ c.
        leb (c.timestamp_ms + delay_ms) now_ms && not (contains m.resolved_claim_ids c.claim_id))
      (values m.pending_claims)

-- `grouped.setdefault(claim.cell, []).append(claim)`
unfoldable pub group_by_cell :
    List ClaimRequest → Dict Coordinate (List ClaimRequest) → Dict Coordinate (List ClaimRequest)
group_by_cell [] grouped = grouped
group_by_cell (claim ∷ claims) grouped =
    group_by_cell claims
      (insert claim.cell (get_or_else (lookup claim.cell grouped) [] ++ (claim ∷ [])) grouped)

abbrev pub coordinate_lt : Coordinate → Coordinate → Bool
coordinate_lt = lex (by_key ltb_ℤ λ p. p.0) (by_key ltb_ℤ λ p. p.1)

-- The set without its least elements, where it has more than `max_tracked_set_size`.
abbrev pub shrink {ℓ} : {A : Type ℓ} → ⦃e : Eq A⦄ → (A → A → Bool) → List A → List A
shrink lt s =
    if ltb max_tracked_set_size (length s)
    then difference s (take (length s - max_tracked_set_size) (sorted lt s))
    else s

unfoldable pub shrink_tracked : PeerClaimManager → PeerClaimManager
shrink_tracked m = record m {
  processed_rounds = shrink ltb m.processed_rounds;
  resolved_claim_ids = shrink text_lt m.resolved_claim_ids;
}

-- The pending claims that have been resolved go.
unfoldable pub drop_resolved : List String → PeerClaimManager → PeerClaimManager
drop_resolved [] m = m
drop_resolved (claim_id ∷ claim_ids) m =
    drop_resolved claim_ids
      (if contains m.resolved_claim_ids claim_id then forget_claim m claim_id else m)
