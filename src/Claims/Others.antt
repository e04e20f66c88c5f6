-- ===== src/Claims/Others.antt =====
-- A change of one drone in simulation/claim_manager.py and simulation/mesh_handler.py leaves the others as they are.
use entropyhunt.Base.{
  Option-cases, is_some, ℕ, ◌*◌, max, String, ◌≡◌, refl, sym, ap, subst, ◌∙◌, inl, inr, Bool, true,
  false, Option, none, some, arith, string_eq, nat_eq, pair_eq, int_eq, ◌≢◌,
}
use entropyhunt.Base.Dict.{Dict, lookup, insert, lookup-insert_ne, lookup-insert_self}
use entropyhunt.Drone.{DroneState, mark_stale}
use entropyhunt.Peer.{PeerMeshHandler, ensured, ensure_peer, change_peer}
use entropyhunt.Claims.Rounds.{}

-- What a peer knows of the life of a drone.
abbrev pub is_alive : Option DroneState → Option Bool
is_alive none = none
is_alive (some drone) = some drone.alive

insert-holds :
    (Q : Option DroneState → Type 0) (i j : String) (x : DroneState) (d : Dict String DroneState)
    → (i ≡ j → Q (some x))
    → Q (lookup j d)
    → Q (lookup j (insert i x d))
insert-holds Q i j x d new old = elim (string_eq.dec i j) [
  | no n ↦ subst Q (sym (lookup-insert_ne i j x d n)) old
  | yes p ↦
      subst (λ k. Q (lookup k (insert i x d))) p (subst Q (sym (lookup-insert_self i x d)) (new p))
]

ensured-dead :
    (i : String) (o : Option DroneState)
    → is_alive o ≡ some false
    → is_alive (some (ensured i none o)) ≡ some false
ensured-dead i none e = ground arith
ensured-dead i (some drone) e = e

module _ {F : Type 0} where
  abbrev pub is_known : String → PeerMeshHandler F → Bool
  is_known j h = is_some (lookup j h.peer_drones)

  abbrev pub alive_of : String → PeerMeshHandler F → Option Bool
  alive_of j h = is_alive (lookup j h.peer_drones)

  abbrev pub stale_timeout : ℕ → PeerMeshHandler F → ℕ
  stale_timeout tick_ms h =
      max (h.config.stale_after_seconds * 1000) (tick_ms * h.config.stale_timeout_tick_multiplier)

  -- The configuration stays, a known drone stays known, and a dead one dead.
  abbrev pub Stays : String → PeerMeshHandler F → PeerMeshHandler F → Type 0
  Stays j h h' =
      (h'.config ≡ h.config)
      × (is_known j h ≡ true → is_known j h' ≡ true)
      × (alive_of j h ≡ some false → alive_of j h' ≡ some false)

  pub Stays-trans :
      (j : String) (h h' h'' : PeerMeshHandler F) → Stays j h h' → Stays j h' h'' → Stays j h h''
  Stays-trans j h h' h'' a b = (b.0 ∙ a.0, (λ e. b.1 (a.1 e)), (λ e. b.2 (a.2 e)))

  -- A change that has to do with `i`: other drones are as before.
  abbrev pub About : String → String → PeerMeshHandler F → PeerMeshHandler F → Type 0
  About i j h h' = Stays j h h' × (i ≢ j → lookup j h'.peer_drones ≡ lookup j h.peer_drones)

  pub About-refl : (i j : String) (h : PeerMeshHandler F) → About i j h h
  About-refl i j h = ((refl, (λ k. k), (λ k. k)), (λ n. refl))

  pub About-trans :
      (i j : String) (h h' h'' : PeerMeshHandler F)
      → About i j h h'
      → About i j h' h''
      → About i j h h''
  About-trans i j h h' h'' a b = (Stays-trans j h h' h'' a.0 b.0, (λ n. b.1 n ∙ a.1 n))

  pub ensure_peer-About :
      (i j : String) (h : PeerMeshHandler F) → About i j h (ensure_peer i none h)
  unfolding ensure_peer
  ensure_peer-About i j h =
      let drones = h.peer_drones in
      let drone = ensured i none (lookup i drones) in
      (
        (
          refl,
          insert-holds (λ o. is_some o ≡ true) i j drone drones (λ p. refl),
          (λ e.
              insert-holds (λ o. is_alive o ≡ some false) i j drone drones
                (λ p.
                  ensured-dead i (lookup i drones)
                    (subst (λ k. is_alive (lookup k drones) ≡ some false) (sym p) e))
                e),
        ),
        lookup-insert_ne i j drone drones,
      )

  pub ensure_peer-known :
      (i : String) (h : PeerMeshHandler F) → is_known i (ensure_peer i none h) ≡ true
  unfolding ensure_peer
  ensure_peer-known i h =
      ap is_some (lookup-insert_self i (ensured i none (lookup i h.peer_drones)) h.peer_drones)

  pub change_peer-About :
      (i j : String) (h : PeerMeshHandler F) → About i j h (change_peer i mark_stale h)
  unfolding change_peer mark_stale
  change_peer-About i j h = elim (Option-cases (lookup i h.peer_drones)) [
    | inl e ↦ rw (e, change_peer) (About-refl i j h)
    | inr (d, e) ↦
        rw (e, change_peer)
          (
            (
              refl,
              insert-holds (λ o. is_some o ≡ true) i j (mark_stale d) h.peer_drones (λ p. refl),
              insert-holds (λ o. is_alive o ≡ some false) i j (mark_stale d) h.peer_drones
                  (λ p. refl),
            ),
            lookup-insert_ne i j (mark_stale d) h.peer_drones,
          )
  ]

  pub change_peer-dead :
      (i : String) (h : PeerMeshHandler F)
      → is_known i h ≡ true
      → alive_of i (change_peer i mark_stale h) ≡ some false
  unfolding change_peer mark_stale
  change_peer-dead i h known = elim (Option-cases (lookup i h.peer_drones)) [
    | inl e ↦ ground arith
    | inr (d, e) ↦
        rw (e, change_peer) (ap is_alive (lookup-insert_self i (mark_stale d) h.peer_drones))
  ]
