-- ===== src/Mesh/Calls.antt =====
-- The calls of a bus, in any order, and what they keep: core/mesh.py.
use entropyhunt.Base.{
  if◌then◌else◌, holds, ◌==◌, string_discrete, ℕ, String, ◌≡◌, refl, ap, ◌∙◌, Option, none, some,
  List, [], ◌∷◌, string_eq, nat_eq, pair_eq, int_eq,
}
use entropyhunt.Base.Dict.{insert-IsDict}
use entropyhunt.Mesh.{InMemoryMeshBus, subscribe, next_envelope, remember, publish, left_over, poll}
use entropyhunt.Mesh.Delivery.{inbox, IsWired, items-insert}

pub data Call (P : Type 0) : Type 0 where
  subscribes : String → String → Call P
  publishes : String → P → ℕ → Option String → Option String → Call P
  polls : Option String → Option String → Call P

module _ {P : Type 0} where
  unfoldable pub step : InMemoryMeshBus P → Call P → InMemoryMeshBus P
  step bus (subscribes s topic_pattern) = subscribe s topic_pattern bus
  step bus (publishes topic payload t sender message) =
      (publish topic payload t sender message bus).0
  step bus (polls s topic_pattern) = (poll s topic_pattern bus).0

  unfoldable pub run : InMemoryMeshBus P → List (Call P) → InMemoryMeshBus P
  run bus [] = bus
  run bus (c ∷ cs) = run (step bus c) cs

  pub step-IsWired : (bus : InMemoryMeshBus P) (c : Call P) → IsWired bus → IsWired (step bus c)
  unfolding step subscribe publish remember next_envelope poll
  step-IsWired bus (subscribes s topic_pattern) h = insert-IsDict s _ bus.subscriptions h
  step-IsWired bus (publishes topic payload t sender message) h = h
  step-IsWired bus (polls none topic_pattern) h = h
  step-IsWired bus (polls (some s) topic_pattern) h = h

  pub step_cap : (bus : InMemoryMeshBus P) (c : Call P) → (step bus c).message_cap ≡ bus.message_cap
  unfolding step subscribe publish remember next_envelope poll
  step_cap bus (subscribes s topic_pattern) = refl
  step_cap bus (publishes topic payload t sender message) = refl
  step_cap bus (polls none topic_pattern) = refl
  step_cap bus (polls (some s) topic_pattern) = refl

  -- A poll takes from the inbox of its subscriber only.
  pub poll-inbox :
      (bus : InMemoryMeshBus P) (s j : String) (topic_pattern : Option String)
      → inbox j (poll (some s) topic_pattern bus).0
        ≡ (if s == j then left_over topic_pattern (inbox j bus) else inbox j bus)
  unfolding poll
  poll-inbox bus s j topic_pattern =
      items-insert s j (left_over topic_pattern (inbox s bus)) bus.inboxes
      ∙ elim (string_discrete s j)
          as (λ d.
            (if holds d then left_over topic_pattern (inbox s bus) else inbox j bus)
            ≡ (if holds d then left_over topic_pattern (inbox j bus) else inbox j bus)) [
              | yes same ↦ ap (λ i. left_over topic_pattern (inbox i bus)) same
              | no other ↦ refl
            ]
