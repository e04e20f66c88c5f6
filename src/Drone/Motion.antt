-- ===== src/Drone/Motion.antt =====
-- Where a drone's steps take it: roles/drone.py, `step_towards_target`.
use entropyhunt.Base.{
  leb, if◌then◌else◌, ◌==◌, pair_discrete, ℤ, Coordinate, ℕ, zero, suc, ◌+◌, ◌-◌, ◌<◌, ◌≡◌, refl,
  ap, subst, ◌≢◌, true, some, arith, string_eq, nat_eq, pair_eq, int_eq,
}
use entropyhunt.Base.Int.{gap, ℤ_discrete, eq_of_parts}
use entropyhunt.Drone.{transiting, searching, DroneState, nudge, move_towards, step_towards_target}

-- Steps along the axes from one cell to another.
abbrev pub distance : Coordinate → Coordinate → ℕ
distance p q = gap p.0 q.0 + gap p.1 q.1

unfoldable pub steps : ℕ → DroneState → DroneState
unfolding step_towards_target
steps zero d = d
steps (suc n) d = steps n (step_towards_target d)

gap-eq-zero : (a b : ℤ) → gap a b ≡ 0 → a ≡ b
gap-eq-zero a b h = eq_of_parts a b (omega arith)

gap-nudge : (a b : ℤ) → a ≢ b → gap (nudge a b) b + 1 ≡ gap a b
unfolding nudge
gap-nudge a b h = ground (arith, eq_of_parts a b)

pub move_towards_home : (p : Coordinate) → move_towards p p ≡ p
unfolding move_towards
move_towards_home p = ground arith

-- A step towards another cell brings it nearer by one.
distance-move_towards :
    (p q : Coordinate) → p ≢ q → distance (move_towards p q) q + 1 ≡ distance p q
unfolding move_towards
distance-move_towards (x, y) (tx, ty) h = ground (arith, gap-nudge x tx, gap-nudge y ty)

distance-eq-zero : (p q : Coordinate) → distance p q ≡ 0 → p ≡ q
distance-eq-zero (x, y) (tx, ty) h = ground (arith, gap-eq-zero x tx, gap-eq-zero y ty)

abbrev AtNext : Coordinate → Coordinate → Type 0
AtNext p q =
    (distance (move_towards p q) q ≡ distance p q - 1)
    × ((move_towards p q == q) ≡ leb (distance p q) 1)

distance-step : (p q : Coordinate) → AtNext p q
distance-step p q = elim (pair_discrete ℤ_discrete ℤ_discrete p q) [
  | yes here ↦ subst (λ r. AtNext p r) here (ground (arith, move_towards_home p))
  | no away ↦ ground (arith, distance-move_towards p q away, distance-eq-zero (move_towards p q) q)
]

abbrev pub Arrives : ℕ → Coordinate → DroneState → DroneState → Type 0
Arrives n t d d' =
    (distance d'.position t ≡ distance d.position t - n)
    × (0 < n → d'.status ≡ (if leb (distance d.position t) n then searching else transiting))
    × (d' ≡ record d { position = d'.position; status = d'.status })

step_to_lem :
    (d : DroneState) (t : Coordinate)
    → d.alive ≡ true
    → d.target_cell ≡ some t
    → step_towards_target d ≡ record d {
      position = move_towards d.position t;
      status = if move_towards d.position t == t then searching else transiting;
    }
unfolding step_towards_target
step_to_lem d t live target = rw (live, target) refl

step-Arrives :
    (d : DroneState) (t : Coordinate)
    → d.alive ≡ true
    → d.target_cell ≡ some t
    → Arrives 1 t d (step_towards_target d)
step-Arrives d t live target = rw (step_to_lem d t live target) (
  (distance-step d.position t).0,
  (λ h. ap (λ b. if b then searching else transiting) (distance-step d.position t).1),
  refl,
)

Arrives-trans :
    (n : ℕ) (t : Coordinate) (d e f : DroneState)
    → Arrives 1 t d e
    → Arrives (suc n) t e f
    → Arrives (suc (suc n)) t d f
Arrives-trans n t d e f p q =
    (omega (arith, p.0, q.0), (λ h. ground (arith, q.1, p.0)), ground (arith, p.2, q.2))

-- Steps of a living drone with a target bring it nearer by one each until it is there; after the
-- first step it is "searching" if it has arrived and "transiting" if not, and nothing but the
-- position and the status changes.
pub steps_arrive :
    (n : ℕ) (d : DroneState) (t : Coordinate)
    → d.alive ≡ true
    → d.target_cell ≡ some t
    → Arrives n t d (steps n d)
unfolding steps
steps_arrive zero d t live target = (omega arith, (λ h. elim h [ ]), refl)
steps_arrive (suc zero) d t live target = step-Arrives d t live target
steps_arrive (suc (suc n)) d t live target =
    let next = step_towards_target d in
    let first = step-Arrives d t live target in
    Arrives-trans n t d next (steps (suc n) next) first
      (steps_arrive (suc n) next t (ground (arith, first.2)) (ground (arith, first.2)))
