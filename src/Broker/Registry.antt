-- ===== src/Broker/Registry.antt =====
-- The map of sessions: who is registered under a client id after each operation.
use tinymq_broker.Base.{
  ◌≡◌, refl, ap, ◌∙◌, Bytes, false, none, some, ◌==◌, nat_equality, bytes_equality, beq_self,
  if◌then◌else◌, is_empty, arith,
}
use tinymq_broker.Base.{lookup, lookup-assign, lookup-erase}
use tinymq_broker.Broker.World.{Handle, World, ok, ◌>>=◌, ◌>>◌, gets, database, modify}
use tinymq_broker.Broker.Sessions.{
  register_session, register_in_database, enter_session, remove_session, log_disconnect,
  forget_session,
}

abbrev pub client_of : World → Handle → Bytes
client_of w h = (w.objects h).client_id

-- `register_session` enters the session under its client id, in place of any other, and touches no
-- other id; it returns normally, even if the database call or the endpoint fails.
pub sessions-register_session :
    (h : Handle) (id : Bytes) (w : World)
    → ((register_session h w).0 ≡ ok tt)
      × (lookup id (register_session h w).1.sessions
          ≡ (if client_of w h == id then some h else lookup id w.sessions))
unfolding register_session register_in_database enter_session ◌>>=◌ ◌>>◌ gets database modify
sessions-register_session h id w =
    (ground arith, ground (arith, lookup-assign (client_of w h) id h w.sessions))

-- The predecessor of a registered session is not disconnected: every session object, its socket
-- included, is as before.
pub objects-register_session :
    (h : Handle) (w : World) → (register_session h w).1.objects ≡ w.objects
unfolding register_session register_in_database enter_session ◌>>=◌ ◌>>◌ gets database modify
objects-register_session h w = ground arith

-- `remove_session` of a session with a client id erases that id from the map, whichever session it
-- stands for there, and no other id.
pub sessions-remove_session :
    (h : Handle) (id : Bytes) (w : World)
    → is_empty (client_of w h) ≡ false
    → lookup id (remove_session h w).1.sessions
      ≡ (if client_of w h == id then none else lookup id w.sessions)
unfolding remove_session log_disconnect forget_session ◌>>=◌ ◌>>◌ gets database modify
sessions-remove_session h id w e = ground (arith, lookup-erase (client_of w h) id w.sessions)

-- A client that connects again is lost from the map when its old connection ends: after
-- `register_session` of the new session and `remove_session` of the old one, both with that client
-- id, no session stands under it.
pub old_connection_evicts_new :
    (old new : Handle) (w : World)
    → is_empty (client_of w new) ≡ false
    → client_of w old ≡ client_of w new
    → lookup (client_of w new) (remove_session old (register_session new w).1).1.sessions ≡ none
old_connection_evicts_new old new w e same =
    let w' = (register_session new w).1 in
    let kept : w'.objects ≡ w.objects = objects-register_session new w in
    let id_old : client_of w' old ≡ client_of w new = ap (λ o. (o old).client_id) kept ∙ same in
    sessions-remove_session old (client_of w new) w' (rw id_old e)
    ∙ rw (id_old, beq_self (client_of w new)) refl
