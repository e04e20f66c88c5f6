-- ===== src/Mesh.antt =====
-- core/mesh.py: envelopes, topics and the in-process bus `InMemoryMeshBus`. A payload is of any type;
-- the locks make each method one step, and logging and the wake-up event are left out.
pub mod Delivery
pub mod Bounds
pub mod Calls
pub mod Order
use Prim.Native.Char.{code}
use text.Mathlib.Text.{starts_with}
use Prim.Native.String.{String}
use entropyhunt.Base.{
  if◌then◌else◌, get_or_else, length, drop, last?, keep, any, ◌==◌, ℕ, suc, ◌+◌, ◌-◌, Bool, not,
  ◌&&◌, Option, none, some, List, [], ◌∷◌, ◌++◌, string_eq, nat_eq, pair_eq, int_eq,
}
use entropyhunt.Base.Dict.{Dict, lookup, insert}
use entropyhunt.Base.Text.{show_ℕ, f_string}

pub record MeshEnvelope (P : Type 0) : Type 0 where
  pub topic : String
  pub payload : P
  pub timestamp_ms : ℕ
  pub sender_id : String
  pub message_id : String
  pub hmac_sig : String

pub record MeshSubscription : Type 0 where
  pub subscriber_id : String
  pub topic_pattern : String

-- `topic_pattern[:-1]` where the pattern ends with "#".
unfoldable pub wildcard_prefix : String → Option String
wildcard_prefix String.[] = none
wildcard_prefix (String.◌∷◌ c String.[]) = if code c == 35 then some "" else none
wildcard_prefix (String.◌∷◌ c (String.◌∷◌ d s)) = elim (wildcard_prefix (String.◌∷◌ d s)) [
  | none ↦ none
  | some p ↦ some (String.◌∷◌ c p)
]

unfoldable pub matches_topic : String → String → Bool
matches_topic topic_pattern topic = elim (wildcard_prefix topic_pattern) [
  | none ↦ topic == topic_pattern
  | some p ↦ starts_with topic p
]

-- The bus; `messages`, `subscriptions` and `inboxes` are `defaultdict`s.
pub record InMemoryMeshBus (P : Type 0) : Type 0 where
  pub peer_id : String
  pub messages : Dict String (List (MeshEnvelope P))
  pub sequence : ℕ
  pub subscriptions : Dict String (List MeshSubscription)
  pub inboxes : Dict String (List (MeshEnvelope P))
  pub message_cap : ℕ

abbrev pub default_message_cap : ℕ
default_message_cap = 10000

abbrev pub new_bus : (P : Type 0) → String → ℕ → InMemoryMeshBus P
new_bus P peer_id message_cap = record {
  peer_id = peer_id;
  messages = [];
  sequence = 0;
  subscriptions = [];
  inboxes = [];
  message_cap = message_cap;
}

-- `d[k]` of a `defaultdict` of lists.
abbrev pub items : {V : Type 0} → String → Dict String (List V) → List V
items k d = get_or_else (lookup k d) []

-- `sender_id or self.peer_id`
abbrev pub or_default : Option String → String → String
or_default none default = default
or_default (some s) default = if s == "" then default else s

-- A list whose oldest elements are dropped until at most `cap` are left.
abbrev pub trim : {V : Type 0} → ℕ → List V → List V
trim cap l = drop (length l - cap) l

abbrev pub same_subscription : MeshSubscription → MeshSubscription → Bool
same_subscription s t = s.subscriber_id == t.subscriber_id && s.topic_pattern == t.topic_pattern

abbrev pub wants : String → List MeshSubscription → Bool
wants topic subscriptions = any (λ s. matches_topic s.topic_pattern topic) subscriptions

module _ {P : Type 0} where
  unfoldable pub subscribe : String → String → InMemoryMeshBus P → InMemoryMeshBus P
  subscribe subscriber_id topic_pattern bus =
      let subscription : MeshSubscription = record {
        subscriber_id = subscriber_id;
        topic_pattern = topic_pattern;
      } in
      let known = items subscriber_id bus.subscriptions in
      let grown =
        if any (same_subscription subscription) known
        then known
        else known ++ (subscription ∷ []) in
      record bus { subscriptions = insert subscriber_id grown bus.subscriptions }

  unfoldable pub next_envelope :
      String
      → P
      → ℕ
      → Option String
      → Option String
      → InMemoryMeshBus P
      → InMemoryMeshBus P × MeshEnvelope P
  next_envelope topic payload timestamp_ms sender_id message_id bus =
      let sequence = suc bus.sequence in
      let resolved_sender = or_default sender_id bus.peer_id in
      let numbered =
        f_string (resolved_sender ∷ ":" ∷ show_ℕ timestamp_ms ∷ ":" ∷ show_ℕ sequence ∷ []) in
      (
        record bus { sequence = sequence },
        record {
          topic = topic;
          payload = payload;
          timestamp_ms = timestamp_ms;
          sender_id = resolved_sender;
          message_id = or_default message_id numbered;
          hmac_sig = "";
        },
      )

  -- The loop over `_subscriptions.items()`.
  unfoldable pub deliver :
      ℕ
      → MeshEnvelope P
      → Dict String (List MeshSubscription)
      → Dict String (List (MeshEnvelope P))
      → Dict String (List (MeshEnvelope P))
  deliver message_cap envelope [] inboxes = inboxes
  deliver message_cap envelope ((subscriber_id, subscriptions) ∷ rest) inboxes =
      let inbox = trim message_cap (items subscriber_id inboxes ++ (envelope ∷ [])) in
      let put = insert subscriber_id inbox inboxes in
      deliver message_cap envelope rest
        (if wants envelope.topic subscriptions then put else inboxes)

  unfoldable pub remember : MeshEnvelope P → InMemoryMeshBus P → InMemoryMeshBus P
  remember envelope bus =
      let kept = trim bus.message_cap (items envelope.topic bus.messages ++ (envelope ∷ [])) in
      record bus {
        messages = insert envelope.topic kept bus.messages;
        inboxes = deliver bus.message_cap envelope bus.subscriptions bus.inboxes;
      }

  unfoldable pub publish :
      String
      → P
      → ℕ
      → Option String
      → Option String
      → InMemoryMeshBus P
      → InMemoryMeshBus P × MeshEnvelope P
  publish topic payload timestamp_ms sender_id message_id bus =
      let (bus', envelope) = next_envelope topic payload timestamp_ms sender_id message_id bus in
      (remember envelope bus', envelope)

  -- The messages that `poll` takes out of an inbox, and those that it leaves there.
  abbrev pub polled : Option String → List (MeshEnvelope P) → List (MeshEnvelope P)
  polled none inbox = inbox
  polled (some topic_pattern) inbox = keep (λ e. matches_topic topic_pattern e.topic) inbox

  abbrev pub left_over : Option String → List (MeshEnvelope P) → List (MeshEnvelope P)
  left_over none inbox = []
  left_over (some topic_pattern) inbox = keep (λ e. not (matches_topic topic_pattern e.topic)) inbox

  unfoldable pub poll :
      Option String → Option String → InMemoryMeshBus P → InMemoryMeshBus P × List (MeshEnvelope P)
  poll none topic_pattern bus = (bus, [])
  poll (some subscriber_id) topic_pattern bus =
      let inbox = items subscriber_id bus.inboxes in
      (
        record bus { inboxes = insert subscriber_id (left_over topic_pattern inbox) bus.inboxes },
        polled topic_pattern inbox,
      )

  unfoldable pub history : String → InMemoryMeshBus P → List (MeshEnvelope P)
  history topic bus = items topic bus.messages

  unfoldable pub latest : String → InMemoryMeshBus P → Option (MeshEnvelope P)
  latest topic bus = last? (items topic bus.messages)

  abbrev pub count_messages : Dict String (List (MeshEnvelope P)) → ℕ
  count_messages [] = 0
  count_messages ((topic, messages) ∷ d) = length messages + count_messages d

  unfoldable pub count : InMemoryMeshBus P → ℕ
  count bus = count_messages bus.messages

  -- `NullBus` numbers its envelopes and delivers none.
  unfoldable pub null_publish :
      String
      → P
      → ℕ
      → Option String
      → Option String
      → InMemoryMeshBus P
      → InMemoryMeshBus P × MeshEnvelope P
  null_publish topic payload timestamp_ms sender_id message_id bus =
      next_envelope topic payload timestamp_ms sender_id message_id bus
