-- ===== src/Drone/Assignment.antt =====
-- The fields of roles/drone.py that have to agree, over every method of `DroneState`.
use entropyhunt.Base.{
  Coordinate, String, ◌≡◌, false, Option, none, some, List, [], ◌∷◌, arith, string_eq, nat_eq,
  pair_eq, int_eq,
}
use entropyhunt.Drone.{
  searching, DroneState, new_drone, set_assignment, clear_assignment, mark_stale, revive,
  step_towards_target,
}

pub data Call : Type 0 where
  assigns : Coordinate → Option String → Call
  clears : Call
  dies : Call
  revives : Coordinate → Call
  moves : Call

unfoldable pub apply : DroneState → Call → DroneState
unfolding set_assignment clear_assignment mark_stale revive step_towards_target
apply d (assigns c z) = set_assignment c z d
apply d clears = clear_assignment d
apply d dies = mark_stale d
apply d (revives c) = revive c d
apply d moves = step_towards_target d

unfoldable pub run : DroneState → List Call → DroneState
unfolding apply
run d [] = d
run d (c ∷ cs) = run (apply d c) cs

-- A drone heads for the cell that it claims and has a sub-zone only of a claimed cell; it searches
-- only where it heads for; a dead drone is not reachable.
pub record IsConsistent (d : DroneState) : Type 0 where
  pub heading : d.target_cell ≡ d.claimed_cell
  pub zoned : d.claimed_cell ≡ none → d.subzone ≡ none
  pub on_site : d.status ≡ searching → d.target_cell ≡ some d.position
  pub dead : d.alive ≡ false → d.reachable ≡ false

apply-IsConsistent : (d : DroneState) (c : Call) → IsConsistent d → IsConsistent (apply d c)
unfolding apply
apply-IsConsistent d (assigns c z) v = ground arith
apply-IsConsistent d clears v = ground arith
apply-IsConsistent d dies v = ground arith
apply-IsConsistent d (revives c) v = ground arith
apply-IsConsistent d moves v = ground arith

-- A consistent drone stays consistent over any calls of its methods, in any order: it heads for the
-- cell that it claims, has a sub-zone only of a claimed cell, searches only where it heads for, and
-- is not reachable when dead.
pub run-IsConsistent : (cs : List Call) (d : DroneState) → IsConsistent d → IsConsistent (run d cs)
unfolding run
run-IsConsistent [] d v = v
run-IsConsistent (c ∷ cs) d v = run-IsConsistent cs (apply d c) (apply-IsConsistent d c v)

-- The same from the start: no calls make a new drone inconsistent.
pub new_drone-IsConsistent : (i : String) (p : Coordinate) → IsConsistent (new_drone i p)
new_drone-IsConsistent i p = ground arith
