-- ===== src/Tests/Network.antt =====
-- A bus with two subscribers, some of whose messages get lost, and a planned failure: core/mesh.py and failure/.
use entropyhunt.Base.{
  length, All, ◌==◌, string_discrete, text_ne, ℤ, pos, ℕ, ◌+◌, ◌≤◌, String, ◌≡◌, refl, true, false,
  ◌⊎◌, none, some, List, [], ◌∷◌, ◌++◌, arith, ℕ_discrete, string_eq, nat_eq, pair_eq, int_eq,
}
use entropyhunt.Base.Dict.{lookup, insert}
use entropyhunt.Mesh.{
  MeshEnvelope, wildcard_prefix, matches_topic, InMemoryMeshBus, new_bus, subscribe, next_envelope,
  deliver, remember, publish, poll, history,
}
use entropyhunt.Mesh.Delivery.{inbox, IsWired, listens, Received, publish-inbox}
use entropyhunt.Mesh.Calls.{Call, publishes, polls, step, run}
use entropyhunt.Mesh.Bounds.{IsBounded, run-IsBounded}
use entropyhunt.Mesh.Order.{heard, all_heard, all_answers, delivered_once}
use entropyhunt.Drone.{new_drone}
use entropyhunt.Failure.{FailureInjector}
use entropyhunt.Failure.Once.{events, IsPlanned, events-IsPlanned}
use entropyhunt.Failure.Network.{NetworkInjector, AreDraws, lossy_poll, lossy_poll-Sublist}
use mathlib.Core.List.{Sublistᴰ}
use entropyhunt.Tests.Numbers.{thousandths}

abbrev wired : InMemoryMeshBus ℕ
wired = record (new_bus ℕ "a" 3) {
  subscriptions =
      ("b", record { subscriber_id = "b"; topic_pattern = "swarm/#" } ∷ [])
      ∷ ("c", record { subscriber_id = "c"; topic_pattern = "other" } ∷ [])
      ∷ [];
}

wired-IsWired : IsWired wired
unfolding lookup string_discrete
wired-IsWired = (refl, (refl, tt))

wired-IsBounded : IsBounded wired
unfolding lookup history
wired-IsBounded s = (omega arith, omega arith)

abbrev sent_topic : String
sent_topic = "swarm/heartbeat"

abbrev asked_topic : String
asked_topic = "b"

publish-inbox_example :
    let (bus', e) = publish "swarm/heartbeat" 7 100 none none wired in
    (e.topic ≡ "swarm/heartbeat")
    × (e.payload ≡ 7)
    × (e.timestamp_ms ≡ 100)
    × (((listens "b" "swarm/heartbeat" wired ≡ true)
          × Received 3 e (inbox "b" wired) (inbox "b" bus'))
        ⊎ ((listens "b" "swarm/heartbeat" wired ≡ false) × (inbox "b" bus' ≡ inbox "b" wired)))
    × ((((sent_topic == asked_topic) ≡ true) × Received 3 e (history "b" wired) (history "b" bus'))
        ⊎ (((sent_topic == asked_topic) ≡ false) × (history "b" bus' ≡ history "b" wired)))
publish-inbox_example = publish-inbox "swarm/heartbeat" 7 100 none none wired "b" wired-IsWired

abbrev calls : List (Call ℕ)
calls =
    publishes "swarm/heartbeat" 7 100 none none
    ∷ polls (some "c") (some "other")
    ∷ publishes "other" 8 101 none none
    ∷ polls (some "b") none
    ∷ publishes "swarm/heartbeat" 9 102 none none
    ∷ []

run-IsBounded_example : IsWired (run wired calls) × IsBounded (run wired calls)
run-IsBounded_example = run-IsBounded calls wired wired-IsWired wired-IsBounded

b_hears : length (inbox "b" wired) + length (all_heard "b" wired calls) ≡ 2
unfolding all_heard heard step subscribe publish remember next_envelope deliver poll lookup insert
    matches_topic wildcard_prefix string_discrete ℕ_discrete
b_hears = refl

b_has_room : length (inbox "b" wired) + length (all_heard "b" wired calls) ≤ 3
b_has_room = omega (arith, b_hears)

delivered_once_example :
    all_answers "b" wired calls ++ inbox "b" (run wired calls)
    ≡ inbox "b" wired ++ all_heard "b" wired calls
delivered_once_example =
    delivered_once calls "b" wired wired-IsWired
      (tt, ((λ c_is_b. absurd (text_ne "c" "b" refl c_is_b)), (tt, ((λ _. refl), (tt, tt)))))
      b_has_room

abbrev letter : String → MeshEnvelope ℕ
letter id = record {
  topic = "swarm/heartbeat";
  payload = 7;
  timestamp_ms = 1;
  sender_id = "a";
  message_id = id;
  hmac_sig = "";
}

abbrev lossy : NetworkInjector ℤ ℕ
lossy = record {
  bus = record wired { inboxes = ("b", letter "1" ∷ letter "2" ∷ letter "3" ∷ []) ∷ [] };
  packet_loss = pos 300;
  jitter_ms = pos 0;
  peer_id = "a";
}

lossy_poll-Sublist_example :
    let (injector', kept) = lossy_poll (pos 100 ∷ pos 400 ∷ pos 200 ∷ []) (some "b") none lossy in
    let (bus', messages) = poll (some "b") none lossy.bus in
    (injector'.bus ≡ bus')
    × Sublistᴰ kept messages
    × (pos 300 ≡ pos 0 → kept ≡ messages)
    × (pos 300 ≡ pos 1000
        → AreDraws (length messages) (pos 100 ∷ pos 400 ∷ pos 200 ∷ [])
        → kept ≡ [])
lossy_poll-Sublist_example =
    lossy_poll-Sublist (pos 100 ∷ pos 400 ∷ pos 200 ∷ []) (some "b") none lossy

abbrev plan : FailureInjector
plan = record {
  plan = record { drone_id = some "b"; fail_at_seconds = some 5; mode = "scheduled" };
  triggered = false;
}

events-IsPlanned_example :
    (length (
        events
          (3 ∷ 6 ∷ 9 ∷ [])
          plan
          (new_drone "a" (pos 0, pos 0) ∷ new_drone "b" (pos 1, pos 0) ∷ []))
      ≤ 1)
    × All (IsPlanned plan.plan) (
        events
          (3 ∷ 6 ∷ 9 ∷ [])
          plan
          (new_drone "a" (pos 0, pos 0) ∷ new_drone "b" (pos 1, pos 0) ∷ []))
events-IsPlanned_example =
    events-IsPlanned (3 ∷ 6 ∷ 9 ∷ []) plan
      (new_drone "a" (pos 0, pos 0) ∷ new_drone "b" (pos 1, pos 0) ∷ [])
