-- ===== src/Failure/Network.antt =====
-- failure/network_injector.py: a bus whose messages get lost. The random draws are given, in the order in
-- which they are made; sleeping for the jitter and the proof log are left out.
use mathlib.Core.List.Sublistᴰ
use mathlib.Core.List.{Sublistᴰ}
use entropyhunt.Base.{
  if◌then◌else◌, Bool-cases, length, All, ℕ, ◌≤◌, String, ◌≡◌, refl, ap, ◌∙◌, inl, inr, true, false,
  ◌&&◌, Option, List, [], ◌∷◌, arith, string_eq, nat_eq, pair_eq, int_eq,
}
use entropyhunt.Base.Numeric.{Floats, max_f, min_f, le_f, lt_irrefl}
use entropyhunt.Mesh.{MeshEnvelope, InMemoryMeshBus, or_default, publish, poll}

pub record NetworkInjector (F P : Type 0) : Type 0 where
  pub bus : InMemoryMeshBus P
  pub packet_loss : F
  pub jitter_ms : F
  pub peer_id : String

module _ ⦃fl : Floats⦄ where
  open fl use {Float, lt, one}

  -- All draws are below one, as `random()` draws.
  abbrev pub AreDraws : ℕ → List Float → Type 0
  AreDraws n draws = (n ≤ length draws) × All (λ d. lt d one ≡ true) draws

module _ {P : Type 0} ⦃fl : Floats⦄ where
  open fl use {Float, lt, zero_f, one}

  unfoldable pub new_injector : InMemoryMeshBus P → Float → Float → NetworkInjector Float P
  new_injector bus packet_loss jitter_ms = record {
    bus = bus;
    packet_loss = max_f zero_f (min_f one packet_loss);
    jitter_ms = max_f zero_f jitter_ms;
    peer_id = bus.peer_id;
  }

  -- The envelope of a publish that is dropped.
  abbrev pub dropped_envelope :
      String → P → ℕ → Option String → Option String → String → MeshEnvelope P
  dropped_envelope topic payload timestamp_ms sender_id message_id peer_id = record {
    topic = topic;
    payload = payload;
    timestamp_ms = timestamp_ms;
    sender_id = or_default sender_id peer_id;
    message_id = or_default message_id "";
    hmac_sig = "";
  }

  unfoldable pub lossy_publish :
      Float
      → String
      → P
      → ℕ
      → Option String
      → Option String
      → NetworkInjector Float P
      → NetworkInjector Float P × MeshEnvelope P
  lossy_publish draw topic payload timestamp_ms sender_id message_id injector =
      let (bus, envelope) = publish topic payload timestamp_ms sender_id message_id injector.bus in
      if lt zero_f injector.packet_loss && lt draw injector.packet_loss
      then (
        injector,
        dropped_envelope topic payload timestamp_ms sender_id message_id injector.peer_id,
      )
      else (record injector { bus = bus }, envelope)

  -- Each message makes one draw; where the list of draws ends, the message is kept.
  unfoldable pub survivors : Float → List Float → List (MeshEnvelope P) → List (MeshEnvelope P)
  survivors packet_loss draws [] = []
  survivors packet_loss [] (msg ∷ messages) = msg ∷ messages
  survivors packet_loss (draw ∷ draws) (msg ∷ messages) =
      let rest = survivors packet_loss draws messages in
      if lt draw packet_loss then rest else msg ∷ rest

  unfoldable pub lossy_poll :
      List Float
      → Option String
      → Option String
      → NetworkInjector Float P
      → NetworkInjector Float P × List (MeshEnvelope P)
  unfolding survivors
  lossy_poll draws subscriber_id topic_pattern injector =
      let (bus, messages) = poll subscriber_id topic_pattern injector.bus in
      (
        record injector { bus = bus },
        if le_f injector.packet_loss zero_f
            then messages
            else survivors injector.packet_loss draws messages,
      )

  survivors-Sublist :
      (packet_loss : Float) (draws : List Float) (messages : List (MeshEnvelope P))
      → Sublistᴰ (survivors packet_loss draws messages) messages
  unfolding survivors
  survivors-Sublist packet_loss draws [] = Sublistᴰ.slnil
  survivors-Sublist packet_loss [] (msg ∷ messages) = Sublistᴰ.refl (msg ∷ messages)
  survivors-Sublist packet_loss (draw ∷ draws) (msg ∷ messages) =
      elim (Bool-cases (lt draw packet_loss)) [
        | inl lost ↦ rw lost (Sublistᴰ.cons (survivors-Sublist packet_loss draws messages))
        | inr kept ↦
            rw kept (Sublistᴰ.cons-cons refl (survivors-Sublist packet_loss draws messages))
      ]

  all_lost :
      (draws : List Float) (messages : List (MeshEnvelope P))
      → AreDraws (length messages) draws
      → survivors one draws messages ≡ []
  unfolding survivors
  all_lost draws [] h = refl
  all_lost [] (msg ∷ messages) h = absurd (omega (arith, h.0))
  all_lost (draw ∷ draws) (msg ∷ messages) h =
      rw h.1.0 (all_lost draws messages (omega (arith, h.0), h.1.1))

  -- Whatever is drawn, a lossy poll takes the same messages from the bus as the bus's own poll, and
  -- hands on some of them, in order and none twice; all of them where the loss is zero, and none
  -- where it is one and there is a draw below one for each.
  pub lossy_poll-Sublist :
      (draws : List Float) (subscriber_id topic_pattern : Option String)
      (injector : NetworkInjector Float P)
      → let (injector', kept) = lossy_poll draws subscriber_id topic_pattern injector in
        let (bus', messages) = poll subscriber_id topic_pattern injector.bus in
        (injector'.bus ≡ bus')
        × Sublistᴰ kept messages
        × (injector.packet_loss ≡ zero_f → kept ≡ messages)
        × (injector.packet_loss ≡ one → AreDraws (length messages) draws → kept ≡ [])
  unfolding lossy_poll
  lossy_poll-Sublist draws subscriber_id topic_pattern injector =
      let (bus', messages) = poll subscriber_id topic_pattern injector.bus in
      let loss = injector.packet_loss in
      let kept = survivors loss draws messages in
      (
        refl,
        elim (Bool-cases (le_f loss zero_f)) [
          | inl lossless ↦ rw lossless (Sublistᴰ.refl messages)
          | inr lossy ↦ rw lossy (survivors-Sublist loss draws messages)
        ],
        λ none_lost.
            let stops : le_f loss zero_f ≡ true = ground (arith, none_lost, lt_irrefl zero_f) in
            ap (λ b. if b then messages else kept) stops,
        λ all h.
            let goes_on : le_f loss zero_f ≡ false = ground (arith, all, fl.zero_lt_one) in
            ap (λ b. if b then messages else kept) goes_on
            ∙ ap (λ l. survivors l draws messages) all
            ∙ all_lost draws messages h,
      )
