-- ===== src/Drone.antt =====
-- roles/drone.py: the state of one drone and its moves. `None` is `none`; a sub-zone is "left" or
-- "right". The lock makes each method one step.
pub mod Motion
pub mod Assignment
pub mod Spread
use entropyhunt.Base.{
  if◌then◌else◌, ◌==◌, ℤ, pos, negsuc, Coordinate, ℕ, String, Bool, true, false, not, Option, none,
  some, string_eq, nat_eq, pair_eq, int_eq,
}
use entropyhunt.Base.Int.{◌+ℤ◌, ltb_ℤ}

pub data DroneStatus : Type 0 where
  idle computing claiming claim_won claim_lost transiting searching stale : DroneStatus

pub record DroneState : Type 0 where
  pub drone_id : String
  pub position : Coordinate
  pub status : DroneStatus
  pub role : String
  pub target_cell : Option Coordinate
  pub claimed_cell : Option Coordinate
  pub subzone : Option String
  pub alive : Bool
  pub reachable : Bool
  pub searched_cells : ℕ

-- The dataclass's defaults.
abbrev pub new_drone : String → Coordinate → DroneState
new_drone drone_id position = record {
  drone_id = drone_id;
  position = position;
  status = idle;
  role = "scout";
  target_cell = none;
  claimed_cell = none;
  subzone = none;
  alive = true;
  reachable = true;
  searched_cells = 0;
}

unfoldable pub set_assignment : Coordinate → Option String → DroneState → DroneState
set_assignment coordinate subzone d = record d {
  target_cell = some coordinate;
  claimed_cell = some coordinate;
  subzone = subzone;
  status = if d.position == coordinate then searching else transiting;
}

unfoldable pub clear_assignment : DroneState → DroneState
clear_assignment d = record d {
  target_cell = none;
  claimed_cell = none;
  subzone = none;
  status = if d.alive then idle else stale;
}

unfoldable pub mark_stale : DroneState → DroneState
mark_stale d = record d {
  alive = false;
  reachable = false;
  status = stale;
  target_cell = none;
  claimed_cell = none;
  subzone = none;
}

unfoldable pub revive : Coordinate → DroneState → DroneState
revive coordinate d = record d {
  alive = true;
  reachable = true;
  position = coordinate;
  status = idle;
  target_cell = none;
  claimed_cell = none;
  subzone = none;
}

-- One unit from `a` towards `b`, which differs from it.
unfoldable pub nudge : ℤ → ℤ → ℤ
unfolding ◌+ℤ◌
nudge a b = a +ℤ (if ltb_ℤ a b then pos 1 else negsuc 0)

-- Along the first axis until it agrees, then along the second.
unfoldable pub move_towards : Coordinate → Coordinate → Coordinate
unfolding nudge
move_towards (x, y) (tx, ty) =
    if not (x == tx) then (nudge x tx, y) else if not (y == ty) then (x, nudge y ty) else (x, y)

abbrev pub step_to : DroneState → Option Coordinate → DroneState
step_to d none = d
step_to d (some target) =
    let position = move_towards d.position target in
    record d { position = position; status = if position == target then searching else transiting }

unfoldable pub step_towards_target : DroneState → DroneState
step_towards_target d = if not d.alive then d else step_to d d.target_cell
