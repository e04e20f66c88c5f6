-- ===== src/Tests/Peers.antt =====
-- A search by three drones: what they choose, who gets a contested cell, and where they move.
use mathlib.Core.List.{Permᴰ}
use entropyhunt.Base.{
  All, Among, text_ne, pair_discrete, contains, ok, ℤ, pos, Coordinate, ℕ, String, ◌≡◌, refl, ◌↔◌,
  true, false, none, some, List, [], ◌∷◌, flatten, ℕ_discrete, string_eq, nat_eq, pair_eq, int_eq,
}
use entropyhunt.Base.Sort.{insert_sorted, sorted, least_from, least}
use entropyhunt.Certainty.{coordinate, cells, clamp_certainty, shannon_entropy, score, ranked_cells}
use entropyhunt.Selector.{ZoneSelection, selection_of, selections, select_next_zone}
use entropyhunt.Selector.Choice.{
  IsFree, select_next_zone-IsFree, select_next_zone_best, select_next_zone-eq-none,
}
use entropyhunt.Auction.{
  ClaimRequest, AuctionDecision, claim_lt, winner_decision, is_tie, settle, resolve_conflict,
}
use entropyhunt.Auction.Exclusion.{Decides, resolve_conflict-Decides}
use entropyhunt.Auction.Order.{AreDistinct, resolve_conflict-perm, Yields, lead, lead-Yields}
use entropyhunt.Tests.Numbers.{opposite, scaled, paces, thousandths}
use entropyhunt.Tests.Maps.{left_map}
use entropyhunt.Base.Int.{◌+ℤ◌, ltb_ℤ, ℤ_discrete}

abbrev here : Coordinate
here = (pos 1, pos 1)

abbrev claimed : List Coordinate
claimed = (pos 0, pos 0) ∷ []

abbrev chosen : ZoneSelection ℤ
chosen = selection_of here (
    score (record {
      x = 1;
      y = 0;
      certainty = pos 500;
      last_updated_ms = 1;
      updated_by = "a";
      decay_rate = pos 10;
    }))

-- Of the free cells the one with the middle certainty is chosen.
chooses : select_next_zone left_map claimed here [] false ≡ some chosen
unfolding select_next_zone selections ranked_cells sorted insert_sorted least least_from
    shannon_entropy clamp_certainty opposite scaled paces ◌+ℤ◌ ℤ_discrete pair_discrete flatten
    ℕ_discrete
chooses = refl

select_next_zone-IsFree_example :
    (contains claimed chosen.coordinate ≡ false) × (contains [] chosen.coordinate ≡ false)
select_next_zone-IsFree_example =
    select_next_zone-IsFree left_map claimed here [] false chosen chooses

select_next_zone_best_example :
    All
      (λ c.
        IsFree left_map claimed here [] c
        → (ltb_ℤ chosen.entropy (shannon_entropy c.certainty) ≡ false)
          × ((false ≡ false)
              → ltb_ℤ (shannon_entropy c.certainty) chosen.entropy ≡ false
              → ltb_ℤ (paces here (coordinate c)) chosen.distance ≡ false))
      (cells left_map)
select_next_zone_best_example = select_next_zone_best left_map claimed here [] false chosen chooses

select_next_zone-eq-none_example :
    (select_next_zone left_map claimed here [] true ≡ none)
    ↔ All (λ c. ¬ IsFree left_map claimed here [] c) (cells left_map)
select_next_zone-eq-none_example = select_next_zone-eq-none left_map claimed here [] true

abbrev claim_of : String → ℕ → Coordinate → ClaimRequest
claim_of drone time position = record {
  claim_id = drone;
  drone_id = drone;
  cell = (pos 0, pos 0);
  position = position;
  timestamp_ms = time;
}

abbrev near : ClaimRequest
near = claim_of "near" 5 (pos 0, pos 1)

abbrev far : ClaimRequest
far = claim_of "far" 5 (pos 1, pos 1)

abbrev late : ClaimRequest
late = claim_of "late" 6 (pos 0, pos 0)

resolve_conflict-Decides_example :
    (d : AuctionDecision) × (resolve_conflict (late ∷ far ∷ near ∷ []) left_map [] ≡ ok d)
    × Decides (pos 0, pos 0) (sorted claim_lt (late ∷ far ∷ near ∷ [])) left_map [] d
resolve_conflict-Decides_example = resolve_conflict-Decides late (far ∷ near ∷ []) left_map []

three-AreDistinct : AreDistinct (late ∷ far ∷ near ∷ [])
three-AreDistinct = (
  (text_ne "late" "far" refl, (text_ne "late" "near" refl, tt)),
  ((text_ne "far" "near" refl, tt), (tt, tt)),
)

resolve_conflict-perm_example :
    resolve_conflict (late ∷ far ∷ near ∷ []) left_map []
    ≡ resolve_conflict (far ∷ late ∷ near ∷ []) left_map []
resolve_conflict-perm_example =
    resolve_conflict-perm (Permᴰ.swap refl refl) (pos 0, pos 0) left_map []
      (refl, (refl, (refl, tt))) three-AreDistinct

abbrev decision : AuctionDecision
decision = winner_decision (pos 0, pos 0) left_map ((pos 0, pos 0) ∷ []) near (far ∷ late ∷ [])

decides : resolve_conflict (late ∷ far ∷ near ∷ []) left_map [] ≡ ok decision
unfolding resolve_conflict settle sorted insert_sorted is_tie paces ℤ_discrete pair_discrete
    ℕ_discrete
decides = refl

lead-Yields_example :
    (winner : ClaimRequest) × (lead decision ≡ some winner.drone_id)
    × Among winner (late ∷ far ∷ near ∷ [])
    × All (Yields winner) (late ∷ far ∷ near ∷ [])
lead-Yields_example = lead-Yields late (far ∷ near ∷ []) left_map [] decision decides
