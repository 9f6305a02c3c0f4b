-- ===== src/Broker/Once.antt =====
-- `publish` of src/broker.cpp against the abstract subscriptions: who gets a message, and how often.
use tinymq_broker.Base.{
  ℕ, ◌≤◌, ◌≡◌, refl, ◌∙◌, Bytes, true, some, List, [], ◌∷◌, ◌++◌, nat_beq, if◌then◌else◌, length,
  select, All, Bool-cases, inl, inr, arith,
}
use tinymq_broker.Packet.Types.{PacketType}
use tinymq_broker.Packet.{Packet, make_packet}
use tinymq_broker.Broker.World.{Handle, World, Json}
use tinymq_broker.Broker.Subscriptions.{has_handle, subscribers_of}
use tinymq_broker.Broker.Notify.{wrapper}
use tinymq_broker.Broker.Publish.{publish}
use tinymq_broker.Broker.Subscribed.{is_subscribed}
use tinymq_broker.Broker.Distinct.{IsDistinct, OnlyOnce, missing}
use tinymq_broker.Broker.Delivery.{to_each, IsOrdinary, publish-Sent}

-- How many of the packets go to one session.
abbrev pub sent_to : Handle → List (Handle × Packet) → ℕ
sent_to h wire = length (select (λ (e : Handle × Packet). nat_beq e.0 h) wire)

sent_to-to_each :
    (h : Handle) (hs : List Handle) (p : Packet)
    → sent_to h (to_each hs p) ≡ length (select (λ s. nat_beq s h) hs)
unfolding select
sent_to-to_each h [] p = refl
sent_to-to_each h (x ∷ hs) p = ground (arith, sent_to-to_each h hs p)

at_least_once :
    (h : Handle) (hs : List Handle)
    → has_handle h hs ≡ true
    → 1 ≤ length (select (λ s. nat_beq s h) hs)
unfolding has_handle select
at_least_once h [] e = ground arith
at_least_once h (x ∷ hs) e = ground (arith, at_least_once h hs)

once :
    (h : Handle) (hs : List Handle)
    → OnlyOnce hs
    → length (select (λ s. nat_beq s h) hs) ≡ (if has_handle h hs then 1 else 0)
once h hs d = elim (Bool-cases (has_handle h hs)) [
  | inl e ↦ rw e (omega (arith, d h, at_least_once h hs e))
  | inr e ↦ rw (e, missing h hs e) refl
]

to_each-All :
    (hs : List Handle) (p : Packet) → All (λ (e : Handle × Packet). e.1 ≡ p) (to_each hs p)
to_each-All [] p = tt
to_each-All (h ∷ hs) p = (refl, to_each-All hs p)

module _ (json : Json) where
  -- Where no session is listed twice, an ordinary message (`IsOrdinary`) that can be dumped once it is
  -- wrapped goes to each session that is subscribed to its topic exactly once, and to no other
  -- session: the packets that are added to those sent before are all that one PUB packet.
  pub publish_once :
      (h : Handle) (topic message payload : Bytes) (w : World)
      → IsDistinct w.topic_subscribers
      → IsOrdinary json message
      → json.dump (wrapper topic message) ≡ some payload
      → (sent : List (Handle × Packet)) × ((publish json topic message w).1.wire ≡ w.wire ++ sent)
        × (sent_to h sent ≡ (if is_subscribed w topic h then 1 else 0))
        × All (λ (e : Handle × Packet). e.1 ≡ make_packet PacketType.pub_ 0 payload) sent
  publish_once h topic message payload w d ordinary e =
      let subs = subscribers_of topic w.topic_subscribers in
      let p = make_packet PacketType.pub_ 0 payload in
      let done = publish-Sent json topic message payload w ordinary e in
      (to_each subs p, done.1, sent_to-to_each h subs p ∙ once h subs (d topic), to_each-All subs p)
