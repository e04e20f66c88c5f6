-- ===== src/Partition/Reach.antt =====
-- How far a key of the flood of auction/voronoi.py reaches once the queue is drained.
use entropyhunt.Base.{
  Among, Option-cases, pos, negsuc, Coordinate, ℕ, zero, suc, ◌+◌, ◌-◌, ◌<◌, ◌≡◌, sym, subst, inl,
  inr, false, Option, none, some, List, [], arith, nat_eq, dec_lt,
}
use entropyhunt.Base.Int.{◌+ℤ◌}
use entropyhunt.Partition.{
  PartitionSeed, Label, Entry, Flooding, inside, label_at, improves, moves, shifted,
}
use entropyhunt.Partition.Flood.{away}
use entropyhunt.Partition.Claiming.{entry_of, Met}
use entropyhunt.Partition.Turns.{Spread, IsRelaxed}

-- What lets the key `(k, t)` pass from a neighbour.
passes :
    (k t : ℕ) (from : Label) (here : Option Label)
    → improves k t (some from) ≡ false
    → improves (from.dist + 1) from.tie here ≡ false
    → improves (suc k) t here ≡ false
passes k t from none h j = cc
passes k t from (some label) h j = ground arith

arrive_right :
    (size x y : ℕ)
    → suc x < size
    → y < size
    → inside size (pos x +ℤ pos 1, pos y +ℤ pos 0) ≡ some (suc x, y)
unfolding inside ◌+ℤ◌
arrive_right size x y h k = ground arith

arrive_left :
    (size x y : ℕ)
    → x < size
    → y < size
    → inside size (pos (suc x) +ℤ negsuc 0, pos y +ℤ pos 0) ≡ some (x, y)
unfolding inside ◌+ℤ◌
arrive_left size x y h k = ground arith

arrive_down :
    (size x y : ℕ)
    → x < size
    → suc y < size
    → inside size (pos x +ℤ pos 0, pos y +ℤ pos 1) ≡ some (x, suc y)
unfolding inside ◌+ℤ◌
arrive_down size x y h k = ground arith

arrive_up :
    (size x y : ℕ)
    → x < size
    → y < size
    → inside size (pos x +ℤ pos 0, pos (suc y) +ℤ negsuc 0) ≡ some (x, y)
unfolding inside ◌+ℤ◌
arrive_up size x y h k = ground arith

module _ (size : ℕ) (ranked : List PartitionSeed) (s : Flooding) (relaxed : IsRelaxed size ranked s)
    (drained : s.queue ≡ []) where
  -- A key passes over a move.
  pass :
      (k t x y x' y' : ℕ) (move : Coordinate)
      → ((e : Entry)
          → Spread size ranked e s.grid moves
          → Met size ranked (e.dist + 1) e.tie (inside size (shifted e move)) s.grid)
      → inside size (pos x +ℤ move.0, pos y +ℤ move.1) ≡ some (x', y')
      → improves k t (label_at s.grid x y) ≡ false
      → improves (suc k) t (label_at s.grid x' y') ≡ false
  pass k t x y x' y' move pick arrives h = elim (Option-cases (label_at s.grid x y)) [
    | inl missing ↦ absurd (cc (h, missing))
    | inr (from, e) ↦ elim (relaxed x y from e) [
      | inl queued ↦ absurd (subst (Among (entry_of x y from)) drained queued)
      | inr spread ↦
          passes k t from (label_at s.grid x' y') (subst (λ l. improves k t l ≡ false) e h)
            (pick (entry_of x y from) spread x' y' arrives)
    ]
  ]

  module _ (t a b : ℕ) (in_a : a < size) (in_b : b < size)
      (planted : improves 0 t (label_at s.grid a b) ≡ false) where
    -- A step towards the start, along the rows first.
    pub reach :
        (k x y : ℕ)
        → x < size
        → y < size
        → away a x + away b y ≡ k
        → improves k t (label_at s.grid x y) ≡ false
    reach zero x y in_x in_y d =
        let same_x : a ≡ x = omega (arith, d) in
        let same_y : b ≡ y = omega (arith, d) in rw (sym same_x, sym same_y) planted
    reach (suc k) x y in_x in_y d = elim (dec_lt x a) [
      | yes less ↦
          pass k t (suc x) y x y (negsuc 0, pos 0) (λ e spread. spread.1.1.1.0)
            (arrive_left size x y in_x in_y)
            (reach k (suc x) y (omega (arith, less, in_a)) in_y (omega (arith, less, d)))
      | no same_or_more ↦ elim (dec_lt a x) [
        | yes more ↦
            pass k t (x - 1) y x y (pos 1, pos 0) (λ e spread. spread.1.1.0)
              (subst (λ i. inside size (pos (x - 1) +ℤ pos 1, pos y +ℤ pos 0) ≡ some (i, y))
                (omega (arith, more)) (arrive_right size (x - 1) y (omega (arith, more)) in_y))
              (reach k (x - 1) y (omega (arith, in_x)) in_y (omega (arith, more, d)))
        | no same ↦ elim (dec_lt y b) [
          | yes less ↦
              pass k t x (suc y) x y (pos 0, negsuc 0) (λ e spread. spread.1.0)
                (arrive_up size x y in_x in_y)
                (reach k x (suc y) in_x (omega (arith, less, in_b)) (omega (arith, less, d)))
          | no not_less ↦
              let more : b < y = omega arith in
              pass k t x (y - 1) x y (pos 0, pos 1) (λ e spread. spread.0)
                (subst (λ i. inside size (pos x +ℤ pos 0, pos (y - 1) +ℤ pos 1) ≡ some (x, i))
                  (omega (arith, more)) (arrive_down size x (y - 1) in_x (omega (arith, more))))
                (reach k x (y - 1) in_x (omega (arith, in_y)) (omega (arith, more, d)))
        ]
      ]
    ]
