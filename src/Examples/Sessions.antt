-- ===== src/Examples/Sessions.antt =====
-- Sessions and subscriptions, for src/session.cpp and src/broker.cpp.
use tinymq_broker.Base.{
  ◌≡◌, refl, true, false, some, none, ◌==◌, nat_equality, bytes_equality, nat_beq, if◌then◌else◌,
  codes, lookup, ◌&&◌,
}
use tinymq_broker.Broker.World.{ok}
use tinymq_broker.Broker.Sessions.{register_session, remove_session}
use tinymq_broker.Broker.Subscriptions.{subscribe, unsubscribe}
use tinymq_broker.Broker.Subscribed.{
  is_subscribed, predecessor, is_subscribed-subscribe, is_subscribed-unsubscribe,
  is_subscribed-remove_session, is_subscribed-register_session,
}
use tinymq_broker.Broker.Registry.{client_of, old_connection_evicts_new}
use tinymq_broker.Broker.Stale.{stale_subscription}
use tinymq_broker.Session.Handlers.{process_packet}
use tinymq_broker.Session.Guards.{unauthenticated_ignored}
use tinymq_broker.Base.{[], ◌∷◌, ◌++◌, bytes_beq}
use tinymq_broker.Packet.Types.{PacketType}
use tinymq_broker.Packet.{make_packet}
use tinymq_broker.Session.Handlers.{handle_connect}
use tinymq_broker.Session.Connect.{handle_connect-registers, second_connect_keeps_entry}
use tinymq_broker.Examples.Samples.{sample_world, sample_json, sample_rendering, sub_request}

unauthenticated_ignored_example :
    process_packet sample_json sample_rendering 9 sub_request sample_world ≡ (ok tt, sample_world)
unauthenticated_ignored_example =
    unauthenticated_ignored sample_json sample_rendering 9 sub_request sample_world refl (λ e. cc)

is_subscribed-subscribe_example :
    is_subscribed (subscribe 3 (codes "a/u") sample_world).1 (codes "a/u") 3 ≡ (
      if codes "a/u" == codes "a/u" && nat_beq 3 3
      then true
      else is_subscribed sample_world (codes "a/u") 3)
is_subscribed-subscribe_example =
    is_subscribed-subscribe 3 3 (codes "a/u") (codes "a/u") sample_world

is_subscribed-unsubscribe_example :
    is_subscribed (unsubscribe 2 (codes "a/t") sample_world).1 (codes "a/t") 3 ≡ (
      if codes "a/t" == codes "a/t" && nat_beq 2 3
      then false
      else is_subscribed sample_world (codes "a/t") 3)
is_subscribed-unsubscribe_example =
    is_subscribed-unsubscribe 2 3 (codes "a/t") (codes "a/t") sample_world

is_subscribed-remove_session_example :
    is_subscribed (remove_session 2 sample_world).1 (codes "a/t") 2
    ≡ (if nat_beq 2 2 then false else is_subscribed sample_world (codes "a/t") 2)
is_subscribed-remove_session_example =
    is_subscribed-remove_session 2 2 (codes "a/t") sample_world refl

is_subscribed-register_session_example :
    is_subscribed (register_session 4 sample_world).1 (codes "a/t") 2
    ≡ (elim (predecessor sample_world 4) [
      | none ↦ is_subscribed sample_world (codes "a/t") 2
      | some old ↦ if nat_beq old 2 then false else is_subscribed sample_world (codes "a/t") 2
    ])
is_subscribed-register_session_example =
    is_subscribed-register_session 4 2 (codes "a/t") sample_world

old_connection_evicts_new_example :
    lookup (codes "b") (remove_session 2 (register_session 4 sample_world).1).1.sessions ≡ none
old_connection_evicts_new_example = old_connection_evicts_new 2 4 sample_world refl refl

handle_connect-registers_example :
    let v = (handle_connect 9 (codes "d") sample_world).1 in
    ((handle_connect 9 (codes "d") sample_world).0 ≡ ok tt)
    × (client_of v 9 ≡ codes "d")
    × ((v.objects 9).is_authenticated ≡ true)
    × (v.wire ≡ sample_world.wire ++ (9, make_packet PacketType.connack 0 []) ∷ [])
    × (lookup (codes "b") v.sessions
        ≡ (if codes "d" == codes "b" then some 9 else lookup (codes "b") sample_world.sessions))
handle_connect-registers_example =
    handle_connect-registers 9 (codes "d") (codes "b") sample_world refl

second_connect_keeps_entry_example :
    let v = (handle_connect 2 (codes "d") sample_world).1 in
    (lookup (codes "b") v.sessions ≡ some 2)
    × (lookup (codes "d") v.sessions ≡ some 2)
    × (client_of v 2 ≡ codes "d")
unfolding bytes_beq lookup
second_connect_keeps_entry_example =
    second_connect_keeps_entry 2 (codes "b") (codes "d") sample_world refl refl refl

stale_subscription_example :
    let v = (subscribe 2 (codes "a/u") (remove_session 2 sample_world).1).1 in
    (lookup (codes "b") v.sessions ≡ none) × (is_subscribed v (codes "a/u") 2 ≡ true)
stale_subscription_example = stale_subscription 2 (codes "a/u") sample_world refl
