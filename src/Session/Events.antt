-- ===== src/Session/Events.antt =====
-- The broker as a state machine: packets on any connections, ends of connections and of writes, new connections,
-- the activity timer, and time.
use tinymq_broker.Base.{
  ℕ, ◌≡◌, Bytes, List, [], ◌∷◌, Option, Bool, true, false, refl, select, nat_beq_iff, All, arith,
  lookup, some, nat_equality, bytes_equality,
}
use tinymq_broker.Broker.Known.{authenticated, IsKnown, IsKnown-objects, Stays}
use tinymq_broker.Broker.Subscriptions.{has_handle, subscribers_of}
use tinymq_broker.Packet.{Packet}
use tinymq_broker.Db.Listings.{Rendering}
use tinymq_broker.Db.Invariant.{IsUnique}
use tinymq_broker.Db.Steps.{initially, later, outside, Reach-IsUnique, empty_tables}
use tinymq_broker.Broker.World.{Handle, World, Json, set_object}
use tinymq_broker.Broker.Sessions.{remove_session, check_client_activity}
use tinymq_broker.Broker.Reaches.{Follows, Follows-self, Follows-trans}
use tinymq_broker.Broker.Distinct.{IsDistinct, IsDistinct-empty}
use tinymq_broker.Broker.Once.{sent_to}
use tinymq_broker.Broker.Lifecycle.{new_session}
use tinymq_broker.Session.Handlers.{process_packet, on_written}
use tinymq_broker.Locks.Whole.{
  remove_session-Reaches, on_written-Reaches, check_client_activity-Reaches, process_packet-Reaches,
}

pub Stays-accepted :
    (h : Handle) (e : Option (Bytes × ℕ)) (w : World)
    → authenticated w h ≡ false
    → Stays w (record w { objects = set_object h (new_session e) w.objects })
unfolding set_object
Stays-accepted h e w fresh g a = ground (arith, nat_beq_iff h g)

-- A broker that has not served anyone yet.
pub record IsBlank (w : World) : Type 0 where
  pub no_sessions : w.sessions ≡ []
  pub no_topics : w.topic_subscribers ≡ []
  pub no_packets : w.wire ≡ []

pub no_session :
    (id : Bytes) (h : Handle) {b : Bool} (ss : List (Bytes × Handle))
    → ss ≡ []
    → lookup id ss ≡ some h
    → b ≡ true
unfolding lookup
no_session id h [] e found = ground arith
no_session id h (x ∷ xs) e found = ground arith

pub no_subscriber :
    (t : Bytes) (h : Handle) {b : Bool} (ts : List (Bytes × List Handle))
    → ts ≡ []
    → has_handle h (subscribers_of t ts) ≡ true
    → b ≡ true
unfolding has_handle lookup
no_subscriber t h [] e found = ground arith
no_subscriber t h (x ∷ xs) e found = ground arith

pub IsBlank-IsKnown : (w : World) → IsBlank w → IsKnown w
unfolding has_handle
IsBlank-IsKnown w b = record {
  sessions = λ id h e. no_session id h w.sessions b.no_sessions e;
  subscribers = λ t h e. no_subscriber t h w.topic_subscribers b.no_topics e;
  receivers = rw b.no_packets tt;
}

none_sent :
    (h : Handle) (w : World) (wire : List (Handle × Packet))
    → authenticated w h ≡ false
    → All (λ (e : Handle × Packet). authenticated w e.0 ≡ true) wire
    → sent_to h wire ≡ 0
unfolding select
none_sent h w [] u a = refl
none_sent h w ((g, p) ∷ es) u a = ground (arith, nat_beq_iff g h, none_sent h w es u a.1)

module _ (json : Json) (r : Rendering) where
  pub data Event (w : World) : World → Type 0 where
    -- The object is new: it is not one that has identified itself.
    accepts :
        (h : Handle) (e : Option (Bytes × ℕ))
        → authenticated w h ≡ false
        → Event w (record w { objects = set_object h (new_session e) w.objects })
    receives : (h : Handle) (p : Packet) → Event w (process_packet json r h p w).1
    loses : (h : Handle) → Event w (remove_session h w).1
    written : (failed : Bool) (h : Handle) → Event w (on_written failed h w).1
    checks_activity : Event w (check_client_activity w).1
    time_passes :
        (t clock : ℕ) (faults : List Bool)
        → Event w
            (record w { time = t; server = record w.server { clock = clock; faults = faults } })

  pub data Run (w : World) : World → Type 0 where
    begins : Run w w
    goes_on : {u v : World} → Run w u → Event u v → Run w v

  Event-Follows : {w v : World} → Event w v → Follows w v
  Event-Follows {w} (accepts h e fresh) = record {
    database = initially;
    distinct = λ d. d;
    stays = Stays-accepted h e w fresh;
  }
  Event-Follows {w} (receives h p) = (process_packet-Reaches json r h p).run w
  Event-Follows {w} (loses h) = (remove_session-Reaches h).run w
  Event-Follows {w} (written failed h) = (on_written-Reaches failed h).run w
  Event-Follows {w} checks_activity = check_client_activity-Reaches.run w
  Event-Follows (time_passes t clock faults) = record {
    database = later initially (outside clock faults);
    distinct = λ d. d;
    stays = λ h a. a;
  }

  Event-IsKnown : {w v : World} → Event w v → IsKnown w → IsKnown v
  Event-IsKnown {w} (accepts h e fresh) k = IsKnown-objects w _ (Stays-accepted h e w fresh) k
  Event-IsKnown {w} (receives h p) k = (process_packet-Reaches json r h p).keeps w tt k
  Event-IsKnown {w} (loses h) k = (remove_session-Reaches h).keeps w tt k
  Event-IsKnown {w} (written failed h) k = (on_written-Reaches failed h).keeps w tt k
  Event-IsKnown {w} checks_activity k = check_client_activity-Reaches.keeps w tt k
  Event-IsKnown (time_passes t clock faults) k = record {
    sessions = k.sessions;
    subscribers = k.subscribers;
    receivers = k.receivers;
  }

  Run-Follows : {w v : World} → Run w v → Follows w v
  Run-Follows begins = Follows-self _
  Run-Follows (goes_on q e) = Follows-trans (Run-Follows q) (Event-Follows e)

  -- Whatever packets arrive on whatever connections, in any order, with connections that come and go
  -- and transactions that fail: a database that began empty holds no two clients of one id, no two
  -- topics of one name or id, no two requests or subscriptions of one client for one topic, and no
  -- two administrators of one topic.
  pub Run-IsUnique :
      {w v : World} → w.server.tables ≡ empty_tables → Run w v → IsUnique v.server.tables
  Run-IsUnique e q = Reach-IsUnique e (Run-Follows q).database

  -- In any such run that began without subscribers, no session stands twice in the list of a topic's
  -- subscribers.
  pub Run-IsDistinct :
      {w v : World} → w.topic_subscribers ≡ [] → Run w v → IsDistinct v.topic_subscribers
  Run-IsDistinct {w} e q = (Run-Follows q).distinct (rw e IsDistinct-empty)

  Run-keeps : {w v : World} → IsKnown w → Run w v → IsKnown v
  Run-keeps k begins = k
  Run-keeps k (goes_on q e) = Event-IsKnown e (Run-keeps k q)

  -- In any such run of a broker that had not served anyone, only connections that have identified
  -- themselves stand in the map of sessions and in the lists of subscribers, and only they have been
  -- sent a packet.
  pub Run-IsKnown : {w v : World} → IsBlank w → Run w v → IsKnown v
  Run-IsKnown {w} b q = Run-keeps (IsBlank-IsKnown w b) q

  -- So a connection that has not identified itself is never sent anything, whatever it sent and
  -- whatever the others published.
  pub Run-Silent :
      {w v : World} (h : Handle)
      → IsBlank w
      → Run w v
      → authenticated v h ≡ false
      → sent_to h v.wire ≡ 0
  Run-Silent {v = v} h b q u = none_sent h v v.wire u (Run-IsKnown b q).receivers
