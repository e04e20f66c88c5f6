-- ===== src/Selector/Choice.antt =====
-- What core/selector.py chooses: a free cell, of the highest entropy, whenever there is one.
use entropyhunt.Base.{
  if◌then◌else◌, All, All-map, All-mono, All-of_map, All-of_keep, All-keep_of, All-true, All-none,
  contains, union, contains-union, Coordinate, ◌≡◌, sym, ap, subst, ◌↔◌, Bool, true, false, not,
  none, some, List, arith, string_eq, nat_eq, pair_eq, int_eq,
}
use entropyhunt.Base.Order.{IsOrder, ltb_ℤ-IsOrder, by_key-IsOrder, lex-IsOrder}
use entropyhunt.Base.Arrangement.{All-least, least-eq-none, All-of_sorted}
use entropyhunt.Base.Sort.{least, All-sorted, least-IsBelow}
use entropyhunt.Base.Numeric.{Floats}
use entropyhunt.Certainty.{
  CellState, coordinate, CertaintyMap, cells, shannon_entropy, score, score_lt, ranked_cells,
}
use entropyhunt.Selector.{
  ZoneSelection, selection_of, selections, by_row, by_entropy, nearest_lt, entropy_lt,
  select_next_zone,
}

module _ ⦃fl : Floats⦄ where
  open fl use {Float, lt, neg, dist}

  selection_lt : Bool → ZoneSelection Float → ZoneSelection Float → Bool
  selection_lt ignore_distance = if ignore_distance then entropy_lt else nearest_lt

  by_row-IsOrder : IsOrder by_row
  by_row-IsOrder =
      lex-IsOrder (by_key-IsOrder (λ s. s.coordinate.1) ltb_ℤ-IsOrder)
        (by_key-IsOrder (λ s. s.coordinate.0) ltb_ℤ-IsOrder)

  by_entropy-IsOrder : IsOrder by_entropy
  by_entropy-IsOrder = by_key-IsOrder (λ s. neg s.entropy) fl.order

  pub nearest_lt-IsOrder : IsOrder nearest_lt
  nearest_lt-IsOrder =
      lex-IsOrder by_entropy-IsOrder
        (lex-IsOrder (by_key-IsOrder (λ s. s.distance) fl.order) by_row-IsOrder)

  selection_lt-IsOrder : (ignore_distance : Bool) → IsOrder (selection_lt ignore_distance)
  unfolding selection_lt
  selection_lt-IsOrder true = lex-IsOrder by_entropy-IsOrder by_row-IsOrder
  selection_lt-IsOrder false = nearest_lt-IsOrder

  best_of :
      (ignore_distance : Bool) (z s : ZoneSelection Float)
      → selection_lt ignore_distance z s ≡ false
      → (lt s.entropy z.entropy ≡ false)
        × ((ignore_distance ≡ false)
            → lt z.entropy s.entropy ≡ false
            → lt z.distance s.distance ≡ false)
  unfolding selection_lt
  best_of true z s h =
      (ground (arith, fl.lt-neg z.entropy s.entropy, fl.lt-neg s.entropy z.entropy), λ e k. cc)
  best_of false z s h = (
    ground (arith, fl.lt-neg z.entropy s.entropy, fl.lt-neg s.entropy z.entropy),
    λ e k. ground (arith, fl.lt-neg z.entropy s.entropy, fl.lt-neg s.entropy z.entropy),
  )

  module _ (m : CertaintyMap Float) (claimed : List Coordinate) (here : Coordinate)
      (blocked : List Coordinate) where
    -- The cell is neither claimed nor blocked.
    abbrev pub IsFree : CellState Float → Type 0
    IsFree c = (contains claimed (coordinate c) ≡ false) × (contains blocked (coordinate c) ≡ false)

    free : CellState Float → Bool
    free c = not (contains (union claimed blocked) (coordinate c))

    IsFree-free : (c : CellState Float) → IsFree c → free c ≡ true
    unfolding free
    IsFree-free c h = ground (arith, contains-union claimed blocked (coordinate c))

    free-IsFree : (c : CellState Float) → free c ≡ true → IsFree c
    unfolding free
    free-IsFree c h = ground (arith, contains-union claimed blocked (coordinate c))

    -- The selections stand for the free cells, whatever their order.
    All-selections :
        (P : ZoneSelection Float → Type 0)
        → All (λ c. free c ≡ true → P (selection_of here (score c))) (cells m)
        → All P (selections m claimed here blocked)
    unfolding selections ranked_cells free
    All-selections P h =
        All-map P (selection_of here) _
          (All-sorted score_lt _ _ (All-map _ score _ (All-keep_of _ free (cells m) h)))

    All-of_selections :
        (P : ZoneSelection Float → Type 0)
        → All P (selections m claimed here blocked)
        → All (λ c. free c ≡ true → P (selection_of here (score c))) (cells m)
    unfolding selections ranked_cells free
    All-of_selections P h =
        All-of_keep _ free (cells m)
          (All-of_map _ score _ (All-of_sorted score_lt _ _ (All-of_map P (selection_of here) _ h)))

    -- The chosen zone is neither claimed nor blocked.
    pub select_next_zone-IsFree :
        (ignore_distance : Bool) (s : ZoneSelection Float)
        → select_next_zone m claimed here blocked ignore_distance ≡ some s
        → (contains claimed s.coordinate ≡ false) × (contains blocked s.coordinate ≡ false)
    unfolding select_next_zone free
    select_next_zone-IsFree ignore_distance s h =
        All-least _
          (λ z. (contains claimed z.coordinate ≡ false) × (contains blocked z.coordinate ≡ false))
          (selections m claimed here blocked) s
          (All-selections _ (
            All-true (cells m)
              (λ c f. ground (arith, contains-union claimed blocked (coordinate c)))))
          h

    -- No free cell has a higher entropy than the chosen one, and unless distance is ignored none of
    -- the same entropy is nearer.
    pub select_next_zone_best :
        (ignore_distance : Bool) (s : ZoneSelection Float)
        → select_next_zone m claimed here blocked ignore_distance ≡ some s
        → All
            (λ c.
              IsFree c
              → (lt s.entropy (shannon_entropy c.certainty) ≡ false)
                × ((ignore_distance ≡ false)
                    → lt (shannon_entropy c.certainty) s.entropy ≡ false
                    → lt (dist here (coordinate c)) s.distance ≡ false))
            (cells m)
    unfolding select_next_zone selection_lt
    select_next_zone_best ignore_distance s h =
        All-mono _ _ (cells m)
          (λ c f k. best_of ignore_distance (selection_of here (score c)) s (f (IsFree-free c k)))
          (All-of_selections (λ z. selection_lt ignore_distance z s ≡ false)
            (least-IsBelow (selection_lt ignore_distance) (selection_lt-IsOrder ignore_distance) _ s
              h))

    -- There is no choice exactly when no cell is free.
    pub select_next_zone-eq-none :
        (ignore_distance : Bool)
        → (select_next_zone m claimed here blocked ignore_distance ≡ none)
          ↔ All (λ c. ¬ IsFree c) (cells m)
    unfolding select_next_zone least
    select_next_zone-eq-none ignore_distance = (
      λ h.
          All-mono _ _ (cells m) (λ c f k. f (IsFree-free c k))
            (All-of_selections (λ _. ⊥) (subst (All (λ _. ⊥)) (sym (least-eq-none _ _ h)) tt)),
      λ h. ap (least _) (
          All-none _
            (All-selections (λ _. ⊥) (All-mono _ _ (cells m) (λ c f k. f (free-IsFree c k)) h))),
    )
