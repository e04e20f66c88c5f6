-- ===== src/Simulation/Soundness/Ticks.antt =====
-- The ticks of simulation/stub.py: what each keeps, and how many a run makes.
use entropyhunt.Base.{
  if◌then◌else◌, Bool-cases, All, ok, Answers, Answers-bind, Answers-mono, ℕ, zero, suc, ◌+◌, ◌*◌,
  ◌/◌, ◌≤◌, ◌≡◌, refl, ap, subst, ◌∙◌, ◌⊎◌, inl, inr, true, false, List, [], ◌∷◌, arith, string_eq,
  nat_eq, pair_eq, int_eq,
}
use entropyhunt.Base.Numeric.{Floats}
use entropyhunt.Drone.{DroneState}
use entropyhunt.Simulation.{SimulationConfig, Simulation, drone_ids}
use entropyhunt.Simulation.Contention.{assign_idle_drones}
use entropyhunt.Simulation.Liveness.{inject_failure, check_recovery, heartbeat_tick}
use entropyhunt.Simulation.Search.{decay_maps, move_and_search}
use entropyhunt.Simulation.Run.{with_roles, is_over, advance, tick, ticks}
use entropyhunt.Drone.Assignment.{IsConsistent}
use entropyhunt.Simulation.Soundness.{Instant, IsSound}
use entropyhunt.Simulation.Soundness.Contests.{assign_idle_drones-IsSound}
use entropyhunt.Simulation.Soundness.Losses.{heartbeat_tick-IsSound}
use entropyhunt.Simulation.Soundness.Failures.{inject_failure-IsSound, check_recovery-IsSound}
use entropyhunt.Simulation.Soundness.Searches.{move_and_search-IsSound}
use entropyhunt.Simulation.Soundness.Decay.{decay_maps-IsSound}

pub with_roles-All :
    (i : ℕ) (drones : List DroneState)
    → All IsConsistent drones
    → All IsConsistent (with_roles i drones)
unfolding with_roles
with_roles-All i [] h = tt
with_roles-All i (d ∷ ds) h = (ground (arith, h.0), with_roles-All (suc i) ds h.1)

pub drone_ids-with_roles :
    (i : ℕ) (drones : List DroneState) → drone_ids (with_roles i drones) ≡ drone_ids drones
unfolding with_roles
drone_ids-with_roles i [] = refl
drone_ids-with_roles i (d ∷ ds) = ap (λ ids. d.drone_id ∷ ids) (drone_ids-with_roles (suc i) ds)

module _ ⦃fl : Floats⦄ where
  open fl use {Float, lt, one}

  -- The next instant.
  abbrev pub after : Instant Float → Instant Float
  after k = record k { now_ms = k.now_ms + k.config.tick_seconds * 1000 }

  advance-IsSound :
      {k : Instant Float} (sim : Simulation Float) → IsSound k sim → IsSound (after k) (advance sim)
  unfolding advance
  advance-IsSound sim v = ground arith

  tick-IsSound :
      {k : Instant Float} (sim : Simulation Float)
      → IsSound k sim
      → Answers (IsSound (after k)) (tick sim)
  unfolding tick
  tick-IsSound {k} sim v =
      let S = IsSound (after k) in
      Answers-bind S S _ _
        (Answers-bind S S _ move_and_search
          (Answers-bind S S _ decay_maps
            (Answers-bind S S (check_recovery (inject_failure (advance sim))) heartbeat_tick
              (check_recovery-IsSound (inject_failure (advance sim))
                (inject_failure-IsSound (advance sim) (advance-IsSound sim v)))
              heartbeat_tick-IsSound)
            decay_maps-IsSound)
          move_and_search-IsSound)
        (λ searched w. ends searched w)
    where
      ends :
          (s : Simulation Float)
          → IsSound (after k) s
          → Answers (IsSound (after k)) (if is_over s then ok s else assign_idle_drones s)
      ends s w = elim (Bool-cases (is_over s)) [
        | inl e ↦ rw e w
        | inr e ↦ rw e (assign_idle_drones-IsSound s w)
      ]

  -- `m` ticks later.
  abbrev pub later : ℕ → Instant Float → Instant Float
  later m k = record k { now_ms = k.now_ms + m * (k.config.tick_seconds * 1000) }

  -- A run of at most `n` ticks has made all of them, or has stopped with the survivor found.
  abbrev pub Ends : ℕ → Instant Float → Simulation Float → Type 0
  Ends n k s =
      (m : ℕ) × (m ≤ n)
      × IsSound (later m k) s
      × ((m ≡ n) ⊎ ((s.survivor_found ≡ true) × (k.config.stop_on_survivor ≡ true)))

  later-zero : (k : Instant Float) → k ≡ later 0 k
  later-zero k = ap (λ t. record k { now_ms = t }) (omega arith)

  later-after : (m : ℕ) (k : Instant Float) → later m (after k) ≡ later (suc m) k
  later-after m k =
      let step : ℕ = k.config.tick_seconds * 1000 in ap (λ t. record k { now_ms = t }) (grind arith)

  stops :
      {k : Instant Float} (s : Simulation Float)
      → IsSound k s
      → is_over s ≡ true
      → (s.survivor_found ≡ true) × (k.config.stop_on_survivor ≡ true)
  stops s v e = ground arith

  one_more :
      (n : ℕ) (k : Instant Float) (s : Simulation Float) → Ends n (after k) s → Ends (suc n) k s
  one_more n k s (m, bound, sound, ended) = (
    suc m,
    omega arith,
    subst (λ j. IsSound j s) (later-after m k) sound,
    elim ended [ inl full ↦ inl (ap suc full) | inr stopped ↦ inr stopped ],
  )

  pub remembers :
      (k : Instant Float) (s : Simulation Float)
      → s.survivor_found ≡ true
      → IsSound k s
      → IsSound (record k { found = true }) s
  remembers k s found v = ground arith

  pub unseen :
      (k : Instant Float) (s : Simulation Float)
      → IsSound (record k { found = true }) s
      → IsSound k s
  unseen k s v =
      let found = v.books.persistent refl in record { fleet = v.fleet; books = ground arith }

  pub ticks-Ends :
      (n : ℕ) (k : Instant Float) (sim : Simulation Float)
      → IsSound k sim
      → Answers (Ends n k) (ticks n sim)
  unfolding ticks
  ticks-Ends zero k sim v = (0, omega arith, subst (λ j. IsSound j sim) (later-zero k) v, inl refl)
  ticks-Ends (suc n) k sim v =
      Answers-bind (IsSound (after k)) (Ends (suc n) k) (tick sim) _ (tick-IsSound sim v)
        (λ ticked w. elim (Bool-cases (is_over ticked)) [
          | inl e ↦
              rw (e, Answers)
                (
                  1,
                  omega arith,
                  subst (λ j. IsSound j ticked) (later-zero (after k) ∙ later-after 0 k) w,
                  inr (stops ticked w e),
                )
          | inr e ↦
              rw (e, Answers)
                (Answers-mono (Ends n (after k)) (Ends (suc n) k) (ticks n ticked) (one_more n k)
                  (ticks-Ends n (after k) ticked w))
        ])

  -- What `run` ends with: a sound state, some ticks later.
  abbrev pub Ran : SimulationConfig Float → Simulation Float → Type 0
  Ran config s =
      let start : Instant Float = record { config = config; now_ms = 0; found = false } in
      Ends (config.duration / config.tick_seconds) start s
