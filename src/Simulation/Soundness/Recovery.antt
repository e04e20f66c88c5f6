-- ===== src/Simulation/Soundness/Recovery.antt =====
-- Who comes back, and when: `_check_recovery` of simulation/stub.py.
use entropyhunt.Base.{
  Bool-cases, first, All, Among, All-Among, All-self, ◌==◌, contains, contains-add, add, ok, each,
  ℕ, ◌+◌, ◌≤◌, String, ◌≡◌, refl, sym, ap, subst, ◌∙◌, ◌⊎◌, inl, inr, true, false, Option, none,
  some, List, [], ◌∷◌, if◌then◌else◌, arith, string_eq, nat_eq, pair_eq, int_eq,
}
use entropyhunt.Drone.{DroneState, idle, revive}
use entropyhunt.Simulation.{Simulation, drone_ids, update_drone, change_drone, seconds}
use entropyhunt.Simulation.Liveness.{is_back, recover, check_recovery}
use entropyhunt.Simulation.Soundness.{first-holds, first-update_drone}

-- The drone with an id.
abbrev pub drone_at : String → List DroneState → Option DroneState
drone_at drone_id drones = first (λ d. d.drone_id == drone_id) drones

drone_at-Among :
    (i : String) (drones : List DroneState) (d : DroneState)
    → drone_at i drones ≡ some d
    → Among i (drone_ids drones)
drone_at-Among i [] d e = cc
drone_at-Among i (x ∷ xs) d e = elim (Bool-cases (x.drone_id == i)) [
  | inl hit ↦ inl (ground arith)
  | inr miss ↦ inr (drone_at-Among i xs d (ground arith))
]

Among-drone_at :
    (i : String) (drones : List DroneState)
    → Among i (drone_ids drones)
    → (d : DroneState) × (drone_at i drones ≡ some d)
Among-drone_at i [] h = elim h [ ]
Among-drone_at i (x ∷ xs) h = elim (Bool-cases (x.drone_id == i)) [
  | inl hit ↦ (x, ground arith)
  | inr miss ↦ elim h [
    | inl e ↦ absurd (ground arith)
    | inr k ↦ let (d, e) = Among-drone_at i xs k in (d, ground arith)
  ]
]

drone_ids-revive :
    (i : String) (p : DroneState) (drones : List DroneState)
    → drone_ids (update_drone i (revive p.position) drones) ≡ drone_ids drones
unfolding update_drone revive
drone_ids-revive i p [] = refl
drone_ids-revive i p (d ∷ ds) = ground (arith, drone_ids-revive i p ds)

other_drone :
    (i j : String) (p : DroneState) (drones : List DroneState)
    → (i == j) ≡ false
    → drone_at j (update_drone i (revive p.position) drones) ≡ drone_at j drones
unfolding update_drone revive
other_drone i j p [] other = refl
other_drone i j p (d ∷ ds) other = ground (arith, other_drone i j p ds other)

module _ {F : Type 0} where
  -- The drone `i` comes back: it is the one planned to fail, it is lost, 20 seconds have passed since
  -- the planned time, and it has not come back before.
  pub record IsDue (sim : Simulation F) (i : String) (d : DroneState) : Type 0 where
    pub there : drone_at i sim.drones ≡ some d
    pub planned : sim.config.fail_drone ≡ some i
    pub lost : (d.reachable ≡ false) ⊎ (d.alive ≡ false)
    pub fail_at : ℕ
    pub at_time : sim.config.fail_at ≡ some fail_at
    pub passed : fail_at + 20 ≤ seconds sim
    pub first_time : contains sim.recovered_drones i ≡ false

  -- The drone `i` of `s` has come back, and of the others none has changed.
  pub record IsBack (sim s : Simulation F) (i : String) (d : DroneState) : Type 0 where
    pub drones :
        (j : String)
        → drone_at j s.drones ≡ (
            if i == j
            then some (record d {
              alive = true;
              reachable = true;
              status = idle;
              target_cell = none;
              claimed_cell = none;
              subzone = none;
            })
            else drone_at j sim.drones)
    pub noted :
        (j : String)
        → contains s.recovered_drones j ≡ (if i == j then true else contains sim.recovered_drones j)

  is_back-IsDue :
      (fail_drone : Option String) (fail_at : Option ℕ) (sim : Simulation F) (d : DroneState)
      → sim.config.fail_drone ≡ fail_drone
      → sim.config.fail_at ≡ fail_at
      → drone_at d.drone_id sim.drones ≡ some d
      → is_back fail_drone fail_at d sim ≡ true
      → IsDue sim d.drone_id d
  is_back-IsDue (some f) (some t) sim d p q e h = record {
    there = e;
    planned = ground arith;
    lost = elim (Bool-cases d.reachable) [ inl r ↦ inr (ground arith) | inr r ↦ inl r ];
    fail_at = t;
    at_time = q;
    passed = ground arith;
    first_time = ground arith;
  }
  is_back-IsDue none (some t) sim d p q e h = absurd (ground arith)
  is_back-IsDue none none sim d p q e h = absurd (ground arith)
  is_back-IsDue (some f) none sim d p q e h = absurd (ground arith)

  IsDue-is_back :
      (sim : Simulation F) (i : String) (d : DroneState)
      → IsDue sim i d
      → is_back sim.config.fail_drone sim.config.fail_at d sim ≡ true
  IsDue-is_back sim i d due =
      let same = first-holds i sim.drones d due.there in
      rw (due.planned, due.at_time) (ground (arith, due.lost, due.passed, due.first_time, same))

  returned : String → DroneState → Simulation F → Simulation F
  returned i d sim = record (change_drone i (revive d.position) sim) {
    recovered_drones = add i sim.recovered_drones;
  }

  returned-IsBack :
      (sim : Simulation F) (i : String) (d : DroneState)
      → drone_at i sim.drones ≡ some d
      → IsBack sim (returned i d sim) i d
  unfolding returned revive
  returned-IsBack sim i d e = record {
    drones = λ j. elim (Bool-cases (i == j)) [
      | inl here ↦
          let same : j ≡ i = ground arith in
          rw here (
            ap (λ k. drone_at k (update_drone i (revive d.position) sim.drones)) same
            ∙ first-update_drone i (revive d.position) sim.drones d (λ d. refl) e)
      | inr other ↦ rw other (other_drone i j d sim.drones other)
    ];
    noted = λ j. ground (arith, contains-add i j sim.recovered_drones);
  }

  recover-none :
      (sim : Simulation F) (x : String) (d : DroneState)
      → drone_at x sim.drones ≡ some d
      → is_back sim.config.fail_drone sim.config.fail_at d sim ≡ false
      → recover x sim ≡ ok sim
  unfolding recover seconds
  recover-none sim x d e h = rw (e, h) refl

  recover-one :
      (sim : Simulation F) (x : String) (d : DroneState)
      → drone_at x sim.drones ≡ some d
      → is_back sim.config.fail_drone sim.config.fail_at d sim ≡ true
      → recover x sim ≡ ok (returned x d sim)
  unfolding recover seconds returned
  recover-one sim x d e h = rw (e, h) refl

  found-IsDue :
      (sim : Simulation F) (x : String) (d : DroneState)
      → drone_at x sim.drones ≡ some d
      → is_back sim.config.fail_drone sim.config.fail_at d sim ≡ true
      → IsDue sim x d
  found-IsDue sim x d e back =
      let same = first-holds x sim.drones d e in
      subst (λ k. IsDue sim k d) same
        (is_back-IsDue sim.config.fail_drone sim.config.fail_at sim d refl refl
          (ap (λ k. drone_at k sim.drones) same ∙ e) back)

  not-IsDue :
      (sim : Simulation F) (x : String) (d : DroneState)
      → drone_at x sim.drones ≡ some d
      → is_back sim.config.fail_drone sim.config.fail_at d sim ≡ false
      → (d' : DroneState) → ¬ IsDue sim x d'
  not-IsDue sim x d e stays d' due =
      let same : d' ≡ d = cc (due.there, e) in
      let back = IsDue-is_back sim x d' due in
      let stays' = ap (λ k. is_back sim.config.fail_drone sim.config.fail_at k sim) same ∙ stays in
      cc (back, stays')

  not_again :
      (sim : Simulation F) (i x : String) (d : DroneState)
      → sim.config.fail_drone ≡ some i
      → contains sim.recovered_drones i ≡ true
      → drone_at x sim.drones ≡ some d
      → is_back sim.config.fail_drone sim.config.fail_at d sim ≡ false
  not_again sim i x d planned noted e =
      elim (Bool-cases (is_back sim.config.fail_drone sim.config.fail_at d sim)) [
        | inr stays ↦ stays
        | inl back ↦
            let due = found-IsDue sim x d e back in
            absurd (ground (arith, due.planned, due.first_time, planned, noted))
      ]

  -- Where the planned drone is noted as having come back, nothing changes.
  none_again :
      (sim : Simulation F) (i : String) (ids : List String)
      → sim.config.fail_drone ≡ some i
      → contains sim.recovered_drones i ≡ true
      → All (λ x. Among x (drone_ids sim.drones)) ids
      → each recover ids sim ≡ ok sim
  unfolding each
  none_again sim i [] planned noted h = refl
  none_again sim i (x ∷ ids) planned noted h =
      let (d, e) = Among-drone_at x sim.drones h.0 in
      let stays = recover-none sim x d e (not_again sim i x d planned noted e) in
      rw stays (none_again sim i ids planned noted h.1)

  -- What the loop over the drones does.
  Outcome : Simulation F → List String → Type 0
  Outcome sim ids =
      ((each recover ids sim ≡ ok sim) × All (λ x. (d : DroneState) → ¬ IsDue sim x d) ids)
      ⊎ ((i : String) × (d : DroneState) × IsDue sim i d
          × (each recover ids sim ≡ ok (returned i d sim)))

  recover-Outcome :
      (sim : Simulation F) (ids : List String)
      → All (λ x. Among x (drone_ids sim.drones)) ids
      → Outcome sim ids
  unfolding each Outcome returned
  recover-Outcome sim [] h = inl (refl, tt)
  recover-Outcome sim (x ∷ ids) h =
      let (d, e) = Among-drone_at x sim.drones h.0 in
      elim (Bool-cases (is_back sim.config.fail_drone sim.config.fail_at d sim)) [
        | inr stays ↦
            let step = recover-none sim x d e stays in
            let nobody = not-IsDue sim x d e stays in
            elim (recover-Outcome sim ids h.1) [
              | inl (rest, nobody_else) ↦ inl (rw step rest, (nobody, nobody_else))
              | inr (i, d', due, rest) ↦ inr (i, d', due, rw step rest)
            ]
        | inl back ↦
            let due = found-IsDue sim x d e back in
            let rest =
              none_again (returned x d sim) x ids due.planned
                (ground (arith, contains-add x x sim.recovered_drones))
                (subst (λ l. All (λ k. Among k l) ids) (sym (drone_ids-revive x d sim.drones))
                  h.1) in
            inr (x, d, due, rw (recover-one sim x d e back) rest)
      ]

  -- `check_recovery` does not raise. Where some drone is due it makes one such drone alive,
  -- reachable and idle, at its place and without an assignment, and notes that it has come back,
  -- while no other drone and no other note changes; where none is due it changes nothing. A drone
  -- is due where it is the one planned to fail, it is not reachable or not alive, 20 seconds have
  -- passed since the planned time, and it is not noted as having come back.
  pub check_recovery_lem :
      (sim : Simulation F)
      → (s : Simulation F) × (check_recovery sim ≡ ok s)
        × (((s ≡ sim) × ((i : String) (d : DroneState) → ¬ IsDue sim i d))
            ⊎ ((i : String) × (d : DroneState) × IsDue sim i d × IsBack sim s i d))
  unfolding check_recovery Outcome
  check_recovery_lem sim =
      let ids = drone_ids sim.drones in
      elim (recover-Outcome sim ids (All-self ids)) [
        | inl (done, nobody) ↦ (
          sim,
          done,
          inl (
            refl,
            λ i d due.
                All-Among (λ x. (d : DroneState) → ¬ IsDue sim x d) ids i nobody
                  (drone_at-Among i sim.drones d due.there) d due,
          ),
        )
        | inr (i, d, due, done) ↦
            (returned i d sim, done, inr (i, d, due, returned-IsBack sim i d due.there))
      ]
