-- ===== src/Mesh/Bounds.antt =====
-- No list of a bus outgrows its cap: core/mesh.py.
use entropyhunt.Base.{
  if◌then◌else◌, length, length-drop, length-keep-le, ◌==◌, ℕ, ◌-◌, ◌≤◌, String, Bool, true, false,
  Option, none, some, List, [], ◌∷◌, ◌++◌, arith, string_eq, nat_eq, pair_eq, int_eq,
}
use entropyhunt.Mesh.{
  MeshEnvelope, InMemoryMeshBus, trim, subscribe, publish, left_over, poll, history,
}
use entropyhunt.Mesh.Delivery.{inbox, IsWired, listens, publish_lem}
use entropyhunt.Mesh.Calls.{
  Call, subscribes, publishes, polls, step, run, step-IsWired, step_cap, poll-inbox,
}

length-trim : {V : Type 0} (k : ℕ) (l : List V) → length (trim k l) ≤ k
length-trim k l = omega (arith, length-drop (length l - k) l)

module _ {P : Type 0} where
  length-left_over :
      (topic_pattern : Option String) (l : List (MeshEnvelope P))
      → length (left_over topic_pattern l) ≤ length l
  length-left_over none l = omega arith
  length-left_over (some topic_pattern) l = length-keep-le _ l

  -- No inbox and no topic holds more than `message_cap` envelopes.
  abbrev pub IsBounded : InMemoryMeshBus P → Type 0
  IsBounded bus =
      (s : String)
      → (length (inbox s bus) ≤ bus.message_cap) × (length (history s bus) ≤ bus.message_cap)

  bounded_if :
      (b : Bool) (k : ℕ) (old new : List (MeshEnvelope P))
      → length old ≤ k
      → length new ≤ k
      → length (if b then new else old) ≤ k
  bounded_if true k old new h h' = h'
  bounded_if false k old new h h' = h

  step-IsBounded :
      (bus : InMemoryMeshBus P) (c : Call P) → IsWired bus → IsBounded bus → IsBounded (step bus c)
  unfolding step
  step-IsBounded bus (subscribes s topic_pattern) w h = unfold subscribe history in h
  step-IsBounded bus (publishes topic payload t sender message) w h =
      let e = (publish topic payload t sender message bus).1 in
      let cap_same = step_cap bus (publishes topic payload t sender message) in
      λ s.
        let (box, past) = publish_lem topic payload t sender message bus s w in
        rw (cap_same, box, past)
          (
            bounded_if (listens s topic bus) bus.message_cap (inbox s bus)
                (trim bus.message_cap (inbox s bus ++ (e ∷ []))) (h s).0
                (length-trim bus.message_cap (inbox s bus ++ (e ∷ []))),
            bounded_if (topic == s) bus.message_cap (history s bus)
                (trim bus.message_cap (history s bus ++ (e ∷ []))) (h s).1
                (length-trim bus.message_cap (history s bus ++ (e ∷ []))),
          )
  step-IsBounded bus (polls none topic_pattern) w h = unfold poll in h
  step-IsBounded bus (polls (some s) topic_pattern) w h = λ j.
      let fewer = length-left_over topic_pattern (inbox j bus) in
      rw (step_cap bus (polls (some s) topic_pattern), poll-inbox bus s j topic_pattern)
        (
          bounded_if (s == j) bus.message_cap (inbox j bus) (left_over topic_pattern (inbox j bus))
              (h j).0 (omega (arith, fewer, (h j).0)),
          unfold poll history in (h j).1,
        )

  -- Over any sequence of calls the subscriptions stay one entry a subscriber, and no inbox and no
  -- topic's history passes the cap.
  pub run-IsBounded :
      (cs : List (Call P)) (bus : InMemoryMeshBus P)
      → IsWired bus
      → IsBounded bus
      → IsWired (run bus cs) × IsBounded (run bus cs)
  unfolding run
  run-IsBounded [] bus w h = (w, h)
  run-IsBounded (c ∷ cs) bus w h =
      run-IsBounded cs (step bus c) (step-IsWired bus c w) (step-IsBounded bus c w h)
