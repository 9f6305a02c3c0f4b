-- ===== src/Broker/Stale.antt =====
-- A subscription of src/broker.cpp that is entered for a session which another thread has removed.
use tinymq_broker.Base.{
  ◌≡◌, ◌∙◌, refl, Bytes, true, false, none, nat_equality, bytes_equality, beq_self, nat_beq_iff,
  is_empty, lookup, arith, ap,
}
use tinymq_broker.Broker.World.{Handle, World, ◌>>=◌, ◌>>◌, gets, database, modify}
use tinymq_broker.Broker.Sessions.{remove_session}
use tinymq_broker.Broker.Subscriptions.{subscribe, subscribe_in_database, topic_id_or_register}
use tinymq_broker.Broker.Subscribed.{is_subscribed, is_subscribed-subscribe}
use tinymq_broker.Broker.Registry.{client_of, sessions-remove_session}

sessions-subscribe :
    (h : Handle) (t : Bytes) (w : World) → (subscribe h t w).1.sessions ≡ w.sessions
unfolding subscribe subscribe_in_database topic_id_or_register ◌>>=◌ ◌>>◌ gets database modify
sessions-subscribe h t w = ground arith

-- After `remove_session` of a session with a client id, as when the activity timer disconnects it, a
-- `subscribe` for it that another thread has begun subscribes it all the same: it stands in the topic's
-- list of subscribers, though no session stands under its client id.
pub stale_subscription :
    (h : Handle) (t : Bytes) (w : World)
    → is_empty (client_of w h) ≡ false
    → let v = (subscribe h t (remove_session h w).1).1 in
      (lookup (client_of w h) v.sessions ≡ none) × (is_subscribed v t h ≡ true)
stale_subscription h t w e =
    let u = (remove_session h w).1 in
    (
      ap (lookup (client_of w h)) (sessions-subscribe h t u)
          ∙ sessions-remove_session h (client_of w h) w e
          ∙ rw (beq_self (client_of w h)) refl,
      is_subscribed-subscribe h h t t u ∙ ground (arith, beq_self t, nat_beq_iff h h),
    )
