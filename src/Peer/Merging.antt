-- ===== src/Peer/Merging.antt =====
-- The merged map of a peer, in simulation/mesh_handler.py: which maps came first does not matter.
use mathlib.Core.List.{Permᴰ}
use entropyhunt.Base.{
  first, All, All-mono, ok, Coordinate, ◌≡◌, refl, sym, ap, ◌∙◌, true, false, some, List, arith,
  string_eq, nat_eq, pair_eq, int_eq,
}
use entropyhunt.Base.Dict.{values}
use entropyhunt.Base.Numeric.{Floats}
use entropyhunt.Certainty.{CellState, CertaintyMap, cell, reset_from}
use entropyhunt.Certainty.Square.{IsSquare, InRange, InRange-cell}
use entropyhunt.Certainty.Copy.{reset, reset_from-Pointwise}
use entropyhunt.Certainty.Convergence.{
  observation, seen-Perm, IsPeerOf, Merged, merge_all, merge_all-Merged,
}
use entropyhunt.Peer.{PeerMeshHandler, recompute_merged_map}

module _ ⦃fl : Floats⦄ where
  open fl use {Float}

  recompute_lem :
      (merged own m : CertaintyMap Float) (h : PeerMeshHandler Float)
      → reset_from h.local_map merged ≡ ok own
      → merge_all (values h.peer_maps) own ≡ ok m
      → recompute_merged_map merged true h ≡ ok (record h { peer_maps_dirty = false }, some m)
  unfolding recompute_merged_map
  recompute_lem merged own m h first rest = rw (first, rest) refl

  IsPeerOf-resize :
      (l own o : CertaintyMap Float) → own.size ≡ l.size → IsPeerOf l o → IsPeerOf own o
  IsPeerOf-resize l own o e (so, size, h) = (so, size ∙ sym e, h)

  -- The maps of others are merged into the peer's own one.
  Merged-own :
      (l own : CertaintyMap Float) (os : List (CertaintyMap Float))
      → IsSquare own
      → own.size ≡ l.size
      → All (IsPeerOf l) os
      → (m : CertaintyMap Float) × (merge_all os own ≡ ok m) × Merged os own m
  Merged-own l own os square size v =
      merge_all-Merged os own
        (All-mono (IsPeerOf l) (IsPeerOf own) os (λ o. IsPeerOf-resize l own o size) v) square

  InRange-resize :
      (q : Coordinate) (l m : CertaintyMap Float) → l.size ≡ m.size → InRange q l → InRange q m
  InRange-resize q l m e (x, y, at, x_lt, y_lt) =
      (x, y, at, omega (arith, x_lt, e), omega (arith, y_lt, e))

  -- Two peers with the same map of their own and the same maps of others, which came in any order,
  -- and all well-formed, of one size and with certainties between 0 and 1, agree after a forced
  -- recomputation, whatever well-formed merged map of that size each of them had before: neither
  -- raises, and the merged maps have, at each coordinate of the grid, cells of one time and one
  -- certainty.
  pub recompute-perm :
      (merged merged' : CertaintyMap Float) (h h' : PeerMeshHandler Float)
      → Permᴰ (values h.peer_maps) (values h'.peer_maps)
      → h'.local_map ≡ h.local_map
      → IsSquare h.local_map
      → IsSquare merged × (h.local_map.size ≡ merged.size)
      → IsSquare merged' × (h.local_map.size ≡ merged'.size)
      → All (IsPeerOf h.local_map) (values h.peer_maps)
      → All (IsPeerOf h.local_map) (values h'.peer_maps)
      → (m : CertaintyMap Float) × (m' : CertaintyMap Float) × (recompute_merged_map merged true h
          ≡ ok (record h { peer_maps_dirty = false }, some m))
        × (recompute_merged_map merged' true h'
            ≡ ok (record h' { peer_maps_dirty = false }, some m'))
        × ((q : Coordinate)
            → InRange q h.local_map
            → (c : CellState Float) × (d : CellState Float) × (cell q m ≡ ok c)
              × (cell q m' ≡ ok d)
              × (observation c ≡ observation d))
  recompute-perm merged merged' h h' p same sl start start' v v' =
      let (own, first, a) = reset_from-Pointwise h.local_map merged sl start.0 start.1 in
      let (own', first', a') = reset_from-Pointwise h.local_map merged' sl start'.0 start'.1 in
      let (m, done, b) =
        Merged-own h.local_map own (values h.peer_maps) a.square (a.same_size ∙ sym start.1) v in
      let (m', done', b') =
        Merged-own h.local_map own' (values h'.peer_maps) a'.square (a'.same_size ∙ sym start'.1)
          v' in
      let reset' : reset_from h'.local_map merged' ≡ ok own' =
        ap (λ l. reset_from l merged') same ∙ first' in
      (
        m,
        m',
        recompute_lem merged own m h first done,
        recompute_lem merged' own' m' h' reset' done',
        λ q r.
            let (c, at_own) = InRange-cell q h.local_map sl r in
            let (s, at_merged) =
              InRange-cell q merged start.0 (InRange-resize q h.local_map merged start.1 r) in
            let (s', at_merged') =
              InRange-cell q merged' start'.0 (InRange-resize q h.local_map merged' start'.1 r) in
            let (d, got, e) = b.reads q (reset c s) (a.reads q c s at_own at_merged) in
            let (d', got', e') = b'.reads q (reset c s') (a'.reads q c s' at_own at_merged') in
            (d, d', got, got', e ∙ seen-Perm q p (observation (reset c s)) ∙ sym e'),
      )
