-- ===== src/Failure.antt =====
-- failure/injector.py: a drone is made unreachable once, at a planned time. Times are non-negative.
pub mod Once
pub mod Network
use entropyhunt.Base.{
  leb, if◌then◌else◌, is_some, first, ◌==◌, ℕ, String, Bool, true, false, not, ◌&&◌, Option, none,
  some, List, [], ◌∷◌, string_eq, nat_eq, pair_eq, int_eq,
}
use entropyhunt.Drone.{DroneState}

pub record FailurePlan : Type 0 where
  pub drone_id : Option String
  pub fail_at_seconds : Option ℕ
  pub mode : String

pub record FailureEvent : Type 0 where
  pub drone_id : String
  pub now_seconds : ℕ
  pub mode : String

pub record FailureInjector : Type 0 where
  pub plan : FailurePlan
  pub triggered : Bool

unfoldable pub enabled : FailurePlan → Bool
enabled plan = is_some plan.drone_id && is_some plan.fail_at_seconds

unfoldable pub should_trigger : ℕ → FailureInjector → Bool
unfolding enabled
should_trigger now_seconds injector =
    enabled injector.plan && not injector.triggered && (elim injector.plan.fail_at_seconds [
      | none ↦ false
      | some fail_at ↦ leb fail_at now_seconds
    ])

-- The loop over the drones: the first that is meant, alive and reachable loses its link.
unfoldable pub cut_off : String → List DroneState → List DroneState × Bool
cut_off drone_id [] = ([], false)
cut_off drone_id (drone ∷ drones) =
    let (rest, hit) = cut_off drone_id drones in
    if drone.drone_id == drone_id && drone.alive && drone.reachable
    then (record drone { reachable = false } ∷ drones, true)
    else (drone ∷ rest, hit)

unfoldable pub trigger_on :
    String
    → ℕ
    → FailureInjector
    → List DroneState
    → FailureInjector × List DroneState × Option FailureEvent
trigger_on drone_id now_seconds injector drones =
    let (drones', hit) = cut_off drone_id drones in
    let event : FailureEvent = record {
      drone_id = drone_id;
      now_seconds = now_seconds;
      mode = injector.plan.mode;
    } in
    (record injector { triggered = true }, drones', if hit then some event else none)

-- What an injector does about the planned drone, if there is one, and if it is due.
unfoldable pub trigger_if :
    Option String
    → Bool
    → ℕ
    → FailureInjector
    → List DroneState
    → FailureInjector × List DroneState × Option FailureEvent
trigger_if none is_due now_seconds injector drones = (injector, drones, none)
trigger_if (some drone_id) false now_seconds injector drones = (injector, drones, none)
trigger_if (some drone_id) true now_seconds injector drones =
    trigger_on drone_id now_seconds injector drones

unfoldable pub maybe_trigger :
    ℕ → FailureInjector → List DroneState → FailureInjector × List DroneState × Option FailureEvent
maybe_trigger now_seconds injector drones =
    trigger_if injector.plan.drone_id (should_trigger now_seconds injector) now_seconds injector
      drones

-- `next((drone for drone in drones if drone.drone_id == event.drone_id), None)`
unfoldable pub failed_drone : Option FailureEvent → List DroneState → Option DroneState
failed_drone none drones = none
failed_drone (some event) drones = first (λ drone. drone.drone_id == event.drone_id) drones

unfoldable pub inject :
    ℕ → FailureInjector → List DroneState → FailureInjector × List DroneState × Option DroneState
unfolding maybe_trigger failed_drone
inject now_second injector drones =
    let (injector', drones', event) = maybe_trigger now_second injector drones in
    (injector', drones', failed_drone event drones')
