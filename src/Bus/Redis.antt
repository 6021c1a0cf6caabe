-- ===== src/Bus/Redis.antt =====
-- realtime/bus.py: `RedisBus`, and the instances that it connects. Redis hands a published message to
-- every instance that has subscribed to the channel; whether its calls succeed is part of an action.
use beacn.Base.{
  ℕ, ◌≡◌, refl, ap, ◌∙◌, Bool, true, false, ◌||◌, not, String, List, [], ◌∷◌, ◌++◌, Option, none,
  some, arith, elem, eqb, All, Bool-cases, inl, inr, if◌then◌else◌,
}
use beacn.Events.Wire.{Wire}
use beacn.Bus.{default_capacity, add}

pub record Message : Type 0 where
  pub environment : String
  pub topic : String
  pub wire : Wire

-- An instance: what it handed to local delivery, the ids that it has seen, the environments whose
-- channels it has subscribed to, and the messages that wait for its listener.
pub record Instance : Type 0 where
  pub delivered : List (String × Wire)
  pub seen : List String
  pub channels : List String
  pub degraded : Bool
  pub is_connected : Bool
  pub waiting : List Message

-- `_ensure_subscribed(environment)`; a subscription that fails is given up.
unfoldable pub ensure_subscribed : Bool → String → Instance → Instance
ensure_subscribed subscribes environment n =
    if elem environment n.channels
    then n
    else if subscribes
    then record n { channels = environment ∷ n.channels }
    else n

-- Local first: `publish` before it turns to Redis.
abbrev pub delivered_locally : String → Wire → Instance → Instance
delivered_locally topic wire n = record n {
  seen = (add default_capacity wire.id n.seen).1;
  delivered = n.delivered ++ (topic, wire) ∷ [];
}

abbrev pub message_of : String → String → Wire → Message
message_of environment topic wire = record { environment = environment; topic = topic; wire = wire }

-- `publish(environment, topic, wire)`: what becomes of the instance, and the message that Redis takes.
unfoldable pub publish : Bool → Bool → String → String → Wire → Instance → Instance × Option Message
publish subscribes publishes environment topic wire n =
    let local = delivered_locally topic wire n in
    if n.degraded || not n.is_connected
    then (local, none)
    else if publishes
    then (ensure_subscribed subscribes environment local, some (message_of environment topic wire))
    else (record (ensure_subscribed subscribes environment local) { degraded = true }, none)

abbrev taken : Message → Instance → Bool × List String → Instance
taken m n (true, seen) = record n {
  seen = seen;
  degraded = false;
  delivered = n.delivered ++ (m.topic, m.wire) ∷ [];
}
taken m n (false, seen) = n

-- One round of `_listen` that meets no error.
unfoldable pub listen : Instance → Instance
listen n = elim n.channels [
  | [] ↦ n
  | c ∷ channels ↦ elim n.waiting [
    | [] ↦ n
    | m ∷ rest ↦ taken m (record n { waiting = rest }) (add default_capacity m.wire.id n.seen)
  ]
]

-- What Redis does with a message.
unfoldable pub hand_over : Option Message → Instance → Instance
hand_over none n = n
hand_over (some m) n =
    if elem m.environment n.channels then record n { waiting = n.waiting ++ m ∷ [] } else n

abbrev pub Network : Type 0
Network = ℕ → Instance

pub data Action : Type 0 where
  publishes : (subscribed accepted : Bool) (environment topic : String) → Wire → Action
  listens : Action

abbrev pub at : ℕ → Instance → Network → Network
at i n net j = if eqb i j then n else net j

-- One instance acts.
unfoldable pub act : ℕ × Action → Network → Network
act (i, publishes subscribed accepted environment topic wire) net j =
    hand_over (publish subscribed accepted environment topic wire (net i)).1
      (at i (publish subscribed accepted environment topic wire (net i)).0 net j)
act (i, listens) net j = at i (listen (net i)) net j

unfoldable pub run : List (ℕ × Action) → Network → Network
run [] net = net
run (a ∷ actions) net = run actions (act a net)

hand_over-unsubscribed : (m : Option Message) (n : Instance) → n.channels ≡ [] → hand_over m n ≡ n
unfolding hand_over
hand_over-unsubscribed none n h = refl
hand_over-unsubscribed (some m) n h = rw (ap (elem m.environment) h) refl

-- The action is no publication by the instance `j`.
abbrev pub is_quiet : ℕ → ℕ × Action → Bool
is_quiet j (i, publishes subscribed accepted environment topic wire) = not (eqb i j)
is_quiet j (i, listens) = true

listen-unsubscribed : (n : Instance) → n.channels ≡ [] → listen n ≡ n
unfolding listen
listen-unsubscribed n quiet = simp (quiet, listen)

act-unsubscribed :
    (a : ℕ × Action) (net : Network) (j : ℕ)
    → (net j).channels ≡ []
    → is_quiet j a ≡ true
    → act a net j ≡ net j
unfolding act
act-unsubscribed (i, publishes subscribed accepted environment topic wire) net j quiet other =
    let m = (publish subscribed accepted environment topic wire (net i)).1 in
    let apart : eqb i j ≡ false = ground (arith, other) in
    rw apart (hand_over-unsubscribed m (net j) quiet)
act-unsubscribed (i, listens) net j quiet other = elim (Bool-cases (eqb i j)) [
  | inl same ↦
      let i_is_j : i ≡ j = ground (arith, same) in
      rw same (ap (λ k. listen (net k)) i_is_j ∙ listen-unsubscribed (net j) quiet)
  | inr apart ↦ rw apart refl
]

-- An instance that does not publish itself subscribes to no channel, and so it hears of nothing
-- that the other instances publish, in any environment, however long they run and however often it
-- listens: it stays as it is, and its own connections are offered none of it.
pub run-unsubscribed :
    (actions : List (ℕ × Action)) (net : Network) (j : ℕ)
    → (net j).channels ≡ []
    → All (λ a. is_quiet j a ≡ true) actions
    → run actions net j ≡ net j
unfolding run
run-unsubscribed [] net j quiet others = refl
run-unsubscribed (a ∷ actions) net j quiet others =
    let same = act-unsubscribed a net j quiet others.0 in
    run-unsubscribed actions (act a net) j (ap (λ n. n.channels) same ∙ quiet) others.1 ∙ same

-- An event whose own message comes back is not delivered a second time, while its id is remembered.
listen-own :
    (m : Message) (rest : List Message) (c : String) (channels : List String) (n : Instance)
    → n.channels ≡ c ∷ channels
    → n.waiting ≡ m ∷ rest
    → elem m.wire.id n.seen ≡ true
    → (listen n).delivered ≡ n.delivered
unfolding listen add
listen-own m rest c channels n h w known = rw (h, w, listen, known) refl
