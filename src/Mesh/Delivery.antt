-- ===== src/Mesh/Delivery.antt =====
-- Who gets a published envelope, and when: `publish` and `poll` of core/mesh.py.
use entropyhunt.Base.{
  length, take, drop, zero, suc, length-append, length-drop, min, ◌+◌, ◌-◌, ◌⊎◌, if◌then◌else◌,
  Bool-cases, holds, ◌==◌, string_discrete, ℕ, String, ◌≡◌, refl, sym, ap, subst, ◌∙◌, inl, inr,
  Bool, true, false, ◌&&◌, Option, none, List, [], ◌∷◌, ◌++◌, arith, string_eq, nat_eq, pair_eq,
  int_eq,
}
use entropyhunt.Base.Dict.{Dict, lookup, insert, lookup-insert, IsDict}
use entropyhunt.Mesh.{
  MeshEnvelope, MeshSubscription, InMemoryMeshBus, items, trim, wants, next_envelope, deliver,
  remember, publish, history,
}

take-drop : {A : Type 0} (n : ℕ) (xs : List A) → take n xs ++ drop n xs ≡ xs
take-drop zero xs = refl
take-drop (suc n) [] = refl
take-drop (suc n) (x ∷ xs) = ap (◌∷◌ x) (take-drop n xs)

wants-none :
    (topic s : String) (subs : Dict String (List MeshSubscription))
    → lookup s subs ≡ none
    → wants topic (items s subs) ≡ false
wants-none topic s subs h = rw h refl

wants-cons :
    (topic j s : String) (mine : List MeshSubscription) (subs : Dict String (List MeshSubscription))
    → wants topic (items s ((j, mine) ∷ subs))
      ≡ (if j == s then wants topic mine else wants topic (items s subs))
unfolding lookup
wants-cons topic j s mine subs = elim (Bool-cases (j == s)) [
  | inl same ↦ rw same refl
  | inr other ↦ rw other refl
]

module _ {P : Type 0} where
  abbrev pub inbox : String → InMemoryMeshBus P → List (MeshEnvelope P)
  inbox s bus = items s bus.inboxes

  -- Each subscriber has one entry among the subscriptions.
  abbrev pub IsWired : InMemoryMeshBus P → Type 0
  IsWired bus = IsDict bus.subscriptions

  -- One of the subscriber's patterns matches the topic.
  abbrev pub listens : String → String → InMemoryMeshBus P → Bool
  listens s topic bus = wants topic (items s bus.subscriptions)

  pub items-insert :
      (k j : String) (v : List (MeshEnvelope P)) (d : Dict String (List (MeshEnvelope P)))
      → items j (insert k v d) ≡ (if k == j then v else items j d)
  items-insert k j v d = ground (arith, lookup-insert k j v d)

  abbrev appended : ℕ → MeshEnvelope P → List (MeshEnvelope P) → List (MeshEnvelope P)
  appended cap e box = trim cap (box ++ (e ∷ []))

  -- One subscriber's turn changes the inbox of that subscriber only.
  deliver_one :
      (b : Bool) (k : ℕ) (e : MeshEnvelope P) (boxes : Dict String (List (MeshEnvelope P)))
      (j s : String)
      → items s (if b then insert j (appended k e (items j boxes)) boxes else boxes)
        ≡ (if b && j == s then appended k e (items s boxes) else items s boxes)
  deliver_one true k e boxes j s =
      items-insert j s (appended k e (items j boxes)) boxes
      ∙ elim (string_discrete j s)
          as (λ d.
            (if holds d then appended k e (items j boxes) else items s boxes)
            ≡ (if holds d then appended k e (items s boxes) else items s boxes)) [
              | yes same ↦ ap (λ i. appended k e (items i boxes)) same
              | no other ↦ refl
            ]
  deliver_one false k e boxes j s = refl

  once :
      (w m q : Bool) (f : List (MeshEnvelope P) → List (MeshEnvelope P)) (x : List (MeshEnvelope P))
      → (q ≡ true → w ≡ false)
      → (if w then f (if m && q then f x else x) else (if m && q then f x else x))
        ≡ (if (if q then m else w) then f x else x)
  once true true true f x h = absurd (ground (arith, h refl))
  once true false true f x h = absurd (ground (arith, h refl))
  once true true false f x h = refl
  once true false false f x h = refl
  once false true true f x h = refl
  once false false true f x h = refl
  once false true false f x h = refl
  once false false false f x h = refl

  deliver_lem :
      (k : ℕ) (e : MeshEnvelope P) (subs : Dict String (List MeshSubscription))
      (boxes : Dict String (List (MeshEnvelope P))) (s : String)
      → IsDict subs
      → items s (deliver k e subs boxes)
        ≡ (if wants e.topic (items s subs) then appended k e (items s boxes) else items s boxes)
  unfolding deliver
  deliver_lem k e [] boxes s h = unfold lookup in refl
  deliver_lem k e ((j, mine) ∷ subs) boxes s h =
      let put = insert j (appended k e (items j boxes)) boxes in
      deliver_lem k e subs (if wants e.topic mine then put else boxes) s h.1
      ∙ ap (λ box. if wants e.topic (items s subs) then appended k e box else box)
          (deliver_one (wants e.topic mine) k e boxes j s)
      ∙ once (wants e.topic (items s subs)) (wants e.topic mine) (j == s) (appended k e)
          (items s boxes)
          (λ same. wants-none e.topic s subs (subst (λ i. lookup i subs ≡ none) (ground arith) h.0))
      ∙ ap (λ b. if b then appended k e (items s boxes) else items s boxes)
          (sym (wants-cons e.topic j s mine subs))

  pub publish_lem :
      (topic : String) (payload : P) (t : ℕ) (sender message : Option String)
      (bus : InMemoryMeshBus P) (s : String)
      → IsWired bus
      → let (bus', e) = publish topic payload t sender message bus in
        (inbox s bus' ≡ (
          if listens s topic bus
          then trim bus.message_cap (inbox s bus ++ (e ∷ []))
          else inbox s bus))
        × (history s bus' ≡ (
            if topic == s then trim bus.message_cap (history s bus ++ (e ∷ [])) else history s bus))
  unfolding publish remember next_envelope history
  publish_lem topic payload t sender message bus s h =
      let e = (publish topic payload t sender message bus).1 in
      (
        deliver_lem bus.message_cap e bus.subscriptions bus.inboxes s h,
        deliver_one true bus.message_cap e bus.messages topic s,
      )

  -- The envelope `e` is put at the end, and the oldest go where there are more than `cap`.
  abbrev pub Received : ℕ → MeshEnvelope P → List (MeshEnvelope P) → List (MeshEnvelope P) → Type 0
  Received cap e before after =
      (gone : List (MeshEnvelope P)) × (gone ++ after ≡ before ++ (e ∷ []))
      × (length after ≡ min cap (length before + 1))

  trim-Received :
      (cap : ℕ) (e : MeshEnvelope P) (before : List (MeshEnvelope P))
      → Received cap e before (trim cap (before ++ (e ∷ [])))
  trim-Received cap e before =
      let all = before ++ (e ∷ []) in
      (
        take (length all - cap) all,
        take-drop (length all - cap) all,
        omega (arith, length-drop (length all - cap) all, length-append before (e ∷ [])),
      )

  either :
      (b : Bool) (x y z : List (MeshEnvelope P)) (Q : List (MeshEnvelope P) → Type 0)
      → x ≡ (if b then y else z)
      → Q y
      → ((b ≡ true) × Q x) ⊎ ((b ≡ false) × (x ≡ z))
  either true x y z Q h q = inl (refl, subst Q (sym h) q)
  either false x y z Q h q = inr (refl, h)

  -- On a bus where each subscriber has one entry, a published envelope carries the topic, the
  -- payload and the time it was published with. The inbox of each subscriber that listens to its
  -- topic is what was there before with the envelope at the end, less just as many of the oldest as
  -- are needed to keep to the cap; all other inboxes are as before. So it is for the history of its
  -- topic, and the history of other topics is as before.
  pub publish-inbox :
      (topic : String) (payload : P) (t : ℕ) (sender message : Option String)
      (bus : InMemoryMeshBus P) (s : String)
      → IsWired bus
      → let (bus', e) = publish topic payload t sender message bus in
        (e.topic ≡ topic)
        × (e.payload ≡ payload)
        × (e.timestamp_ms ≡ t)
        × (((listens s topic bus ≡ true) × Received bus.message_cap e (inbox s bus) (inbox s bus'))
            ⊎ ((listens s topic bus ≡ false) × (inbox s bus' ≡ inbox s bus)))
        × ((((topic == s) ≡ true) × Received bus.message_cap e (history s bus) (history s bus'))
            ⊎ (((topic == s) ≡ false) × (history s bus' ≡ history s bus)))
  unfolding next_envelope
  publish-inbox topic payload t sender message bus s h =
      let (bus', e) = publish topic payload t sender message bus in
      let (box, past) = publish_lem topic payload t sender message bus s h in
      (
        unfold publish in refl,
        unfold publish in refl,
        unfold publish in refl,
        either (listens s topic bus) (inbox s bus') (trim bus.message_cap (inbox s bus ++ (e ∷ [])))
            (inbox s bus) (Received bus.message_cap e (inbox s bus)) box
            (trim-Received bus.message_cap e (inbox s bus)),
        either (topic == s) (history s bus') (trim bus.message_cap (history s bus ++ (e ∷ [])))
            (history s bus) (Received bus.message_cap e (history s bus)) past
            (trim-Received bus.message_cap e (history s bus)),
      )
