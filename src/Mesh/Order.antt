-- ===== src/Mesh/Order.antt =====
-- Exactly-once delivery, in order, by core/mesh.py's in-process bus: what a subscriber polls is what
-- was published for it.
use mathlib.Core.List.{append_assoc, append-nil}
use entropyhunt.Base.{
  if◌then◌else◌, Bool-cases, length, drop, length-append, ◌==◌, ℕ, ◌+◌, ◌-◌, ◌≤◌, String, ◌≡◌, sym,
  ap, ◌∙◌, inl, inr, Bool, true, false, none, some, List, [], ◌∷◌, ◌++◌, arith, string_eq, nat_eq,
  pair_eq, int_eq,
}
use entropyhunt.Mesh.{MeshEnvelope, InMemoryMeshBus, trim, subscribe, publish, poll}
use entropyhunt.Mesh.Delivery.{inbox, IsWired, listens, publish_lem}
use entropyhunt.Mesh.Calls.{
  Call, subscribes, publishes, polls, step, run, step-IsWired, step_cap, poll-inbox,
}

module _ {P : Type 0} where
  -- The envelopes that a call publishes for `s`.
  unfoldable pub heard : String → InMemoryMeshBus P → Call P → List (MeshEnvelope P)
  heard s bus (publishes topic payload t sender message) =
      let e = (publish topic payload t sender message bus).1 in
      if listens s topic bus then e ∷ [] else []
  heard s bus _ = []

  -- The envelopes that a call hands to `s`.
  unfoldable pub answer : String → InMemoryMeshBus P → Call P → List (MeshEnvelope P)
  answer s bus (polls (some j) topic_pattern) =
      let messages = (poll (some j) topic_pattern bus).1 in if j == s then messages else []
  answer s bus _ = []

  unfoldable pub all_heard : String → InMemoryMeshBus P → List (Call P) → List (MeshEnvelope P)
  all_heard s bus [] = []
  all_heard s bus (c ∷ cs) = heard s bus c ++ all_heard s (step bus c) cs

  unfoldable pub all_answers : String → InMemoryMeshBus P → List (Call P) → List (MeshEnvelope P)
  all_answers s bus [] = []
  all_answers s bus (c ∷ cs) = answer s bus c ++ all_answers s (step bus c) cs

  -- A subscriber that polls takes everything.
  abbrev pub TakesAll : String → Call P → Type 0
  TakesAll s (polls (some j) topic_pattern) = j ≡ s → topic_pattern ≡ none
  TakesAll s _ = Unit

  trim_room : (k : ℕ) (l : List (MeshEnvelope P)) → length l ≤ k → trim k l ≡ l
  trim_room k l h = let none_over : length l - k ≡ 0 = omega arith in ap (λ n. drop n l) none_over

  room :
      (b : Bool) (k : ℕ) (e : MeshEnvelope P) (box : List (MeshEnvelope P))
      → length box + length (if b then e ∷ [] else []) ≤ k
      → (if b then trim k (box ++ (e ∷ [])) else box) ≡ box ++ (if b then e ∷ [] else [])
  room true k e box h = trim_room k (box ++ (e ∷ [])) (omega (arith, length-append box (e ∷ [])))
  room false k e box h = sym (append-nil box)

  step_once :
      (s : String) (bus : InMemoryMeshBus P) (c : Call P)
      → IsWired bus
      → TakesAll s c
      → length (inbox s bus) + length (heard s bus c) ≤ bus.message_cap
      → answer s bus c ++ inbox s (step bus c) ≡ inbox s bus ++ heard s bus c
  unfolding step heard answer
  step_once s bus (subscribes j topic_pattern) w a h =
      unfold subscribe in sym (append-nil (inbox s bus))
  step_once s bus (publishes topic payload t sender message) w a h =
      (publish_lem topic payload t sender message bus s w).0
      ∙ room (listens s topic bus) bus.message_cap (publish topic payload t sender message bus).1
          (inbox s bus) h
  step_once s bus (polls none topic_pattern) w a h = unfold poll in sym (append-nil (inbox s bus))
  step_once s bus (polls (some j) topic_pattern) w a h = elim (Bool-cases (j == s)) [
    | inl hit ↦
        let same : j ≡ s = ground arith in
        rw (poll-inbox bus j s topic_pattern, hit, a same)
          (unfold poll in ap (λ i. inbox i bus ++ []) same)
    | inr miss ↦ rw (poll-inbox bus j s topic_pattern, miss) (sym (append-nil (inbox s bus)))
  ]

  abbrev pub AllTaken : String → List (Call P) → Type 0
  AllTaken s [] = Unit
  AllTaken s (c ∷ cs) = TakesAll s c × AllTaken s cs

  -- As long as there is room for all that is published for it, and it polls without a pattern, a
  -- subscriber gets each envelope that it listened for when it was published, once and in the order
  -- of publication: what it has polled and what is left in its inbox are together what was there
  -- before and what was published for it.
  pub delivered_once :
      (cs : List (Call P)) (s : String) (bus : InMemoryMeshBus P)
      → IsWired bus
      → AllTaken s cs
      → length (inbox s bus) + length (all_heard s bus cs) ≤ bus.message_cap
      → all_answers s bus cs ++ inbox s (run bus cs) ≡ inbox s bus ++ all_heard s bus cs
  unfolding run all_heard all_answers
  delivered_once [] s bus w a h = sym (append-nil (inbox s bus))
  delivered_once (c ∷ cs) s bus w a h =
      let bus' = step bus c in
      let later = all_heard s bus' cs in
      let once = step_once s bus c w a.0 (omega (arith, length-append (heard s bus c) later, h)) in
      let same_size = ap (λ l. length l) once in
      let room_left : length (inbox s bus') + length later ≤ bus'.message_cap = omega (
        arith,
        length-append (heard s bus c) later,
        length-append (inbox s bus) (heard s bus c),
        length-append (answer s bus c) (inbox s bus'),
        same_size,
        step_cap bus c,
        h,
      ) in
      let rest = delivered_once cs s bus' (step-IsWired bus c w) a.1 room_left in
      append_assoc (answer s bus c) (all_answers s bus' cs) (inbox s (run bus' cs))
      ∙ ap (λ l. answer s bus c ++ l) rest
      ∙ sym (append_assoc (answer s bus c) (inbox s bus') later)
      ∙ ap (λ l. l ++ later) once
      ∙ append_assoc (inbox s bus) (heard s bus c) later
