-- ===== src/Failure/Once.antt =====
-- The failure of failure/injector.py happens at most once, and not before its time.
use entropyhunt.Base.{
  Bool-cases, Option-cases, length, All, ℕ, ◌≤◌, String, ◌≡◌, refl, sym, ap, subst, ◌∙◌, ◌⊎◌, inl,
  inr, Bool, true, false, Option, none, some, List, [], ◌∷◌, arith, string_eq, nat_eq, pair_eq,
  int_eq,
}
use entropyhunt.Drone.{DroneState}
use entropyhunt.Failure.{
  FailurePlan, FailureEvent, FailureInjector, should_trigger, cut_off, trigger_on, trigger_if,
  maybe_trigger,
}

abbrev pub with_event : Option FailureEvent → List FailureEvent → List FailureEvent
with_event none es = es
with_event (some e) es = e ∷ es

-- The seconds at which an injector is asked, one after the other, and the events that it answers.
unfoldable pub events : List ℕ → FailureInjector → List DroneState → List FailureEvent
events [] injector drones = []
events (now ∷ times) injector drones =
    let (injector', drones', event) = maybe_trigger now injector drones in
    with_event event (events times injector' drones')

abbrev continue :
    List ℕ → FailureInjector × List DroneState × Option FailureEvent → List FailureEvent
continue times o = with_event o.2 (events times o.0 o.1)

trigger_if-false :
    (o : Option String) (now : ℕ) (injector : FailureInjector) (drones : List DroneState)
    → trigger_if o false now injector drones ≡ (injector, drones, none)
unfolding trigger_if
trigger_if-false none now injector drones = refl
trigger_if-false (some d) now injector drones = refl

idle_once :
    (now : ℕ) (injector : FailureInjector) (drones : List DroneState)
    → injector.triggered ≡ true
    → maybe_trigger now injector drones ≡ (injector, drones, none)
unfolding maybe_trigger should_trigger
idle_once now injector drones h =
    ap (λ b. trigger_if injector.plan.drone_id b now injector drones) (ground arith)
    ∙ trigger_if-false injector.plan.drone_id now injector drones

no_more :
    (times : List ℕ) (injector : FailureInjector) (drones : List DroneState)
    → injector.triggered ≡ true
    → events times injector drones ≡ []
unfolding events
no_more [] injector drones h = refl
no_more (now ∷ times) injector drones h =
    ap (continue times) (idle_once now injector drones h) ∙ no_more times injector drones h

-- The event is about the planned drone, at the planned time or later.
abbrev pub IsPlanned : FailurePlan → FailureEvent → Type 0
IsPlanned plan e =
    (plan.drone_id ≡ some e.drone_id)
    × ((f : ℕ) × (plan.fail_at_seconds ≡ some f) × (f ≤ e.now_seconds))

due :
    (now : ℕ) (injector : FailureInjector)
    → should_trigger now injector ≡ true
    → (f : ℕ) × (injector.plan.fail_at_seconds ≡ some f) × (f ≤ now)
unfolding should_trigger
due now injector h = elim (Option-cases injector.plan.fail_at_seconds) [
  | inl e ↦ absurd (ground arith)
  | inr (f, e) ↦ (f, e, ground arith)
]

-- Asking either changes nothing, or it is due and the injector fires.
pub asked :
    (now : ℕ) (injector : FailureInjector) (drones : List DroneState)
    → (maybe_trigger now injector drones ≡ (injector, drones, none))
      ⊎ ((d : String) × (injector.plan.drone_id ≡ some d)
          × (should_trigger now injector ≡ true)
          × (maybe_trigger now injector drones ≡ trigger_on d now injector drones))
unfolding maybe_trigger
asked now injector drones =
    let ask = λ (o : Option String) (b : Bool). trigger_if o b now injector drones in
    let is_due = should_trigger now injector in
    elim (Option-cases injector.plan.drone_id) [
      | inl e ↦ inl (ap (λ o. ask o is_due) e ∙ unfold trigger_if in refl)
      | inr (d, e) ↦ elim (Bool-cases is_due) [
        | inr early ↦ inl (
            ap (ask injector.plan.drone_id) early
            ∙ trigger_if-false injector.plan.drone_id now injector drones)
        | inl fires ↦ inr (
          d,
          e,
          fires,
          ap (λ o. ask o is_due) e ∙ ap (ask (some d)) fires ∙ unfold trigger_if in refl,
        )
      ]
    ]

abbrev AtMostOnce : FailurePlan → List FailureEvent → Type 0
AtMostOnce plan es = (length es ≤ 1) × All (IsPlanned plan) es

fired :
    (times : List ℕ) (d : String) (now : ℕ) (injector : FailureInjector) (drones : List DroneState)
    → injector.plan.drone_id ≡ some d
    → should_trigger now injector ≡ true
    → AtMostOnce injector.plan (continue times (trigger_on d now injector drones))
unfolding trigger_on
fired times d now injector drones e fires =
    let drones' = (cut_off d drones).0 in
    let quiet = no_more times (record injector { triggered = true }) drones' refl in
    elim (Bool-cases (cut_off d drones).1) [
      | inl hit ↦ rw (hit, quiet) (omega arith, ((e, due now injector fires), tt))
      | inr miss ↦ rw (miss, quiet) (omega arith, tt)
    ]

-- However often the injector is asked, and whatever the drones are, it answers one event at most,
-- on the planned drone and not before the planned second.
pub events-IsPlanned :
    (times : List ℕ) (injector : FailureInjector) (drones : List DroneState)
    → (length (events times injector drones) ≤ 1)
      × All (IsPlanned injector.plan) (events times injector drones)
unfolding events
events-IsPlanned [] injector drones = (omega arith, tt)
events-IsPlanned (now ∷ times) injector drones = elim (asked now injector drones) [
  | inl waits ↦
      subst (λ o. AtMostOnce injector.plan (continue times o)) (sym waits)
        (events-IsPlanned times injector drones)
  | inr (d, e, fires, o) ↦
      subst (λ o. AtMostOnce injector.plan (continue times o)) (sym o)
        (fired times d now injector drones e fires)
]
