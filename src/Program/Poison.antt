-- ===== src/Program/Poison.antt =====
-- Messages that end the threads of src/broker.cpp: the exception of `dump` in `Broker::publish` passes
-- through `io_context_.run()` to the `catch` that stands around it in `start`.
use tinymq_broker.Base.{
  ◌≡◌, ◌<◌, ◌-◌, refl, ap, ◌∙◌, Bytes, List, [], ◌∷◌, ◌++◌, Option, true, false, none, arith,
  length, is_empty, All, All-weaken,
}
use tinymq_broker.Packet.{Packet}
use tinymq_broker.Db.Schema.{Postgres}
use tinymq_broker.Db.Listings.{Rendering}
use tinymq_broker.Broker.World.{Handle, Json, M, thrown}
use tinymq_broker.Broker.Known.{authenticated}
use tinymq_broker.Broker.Subscriptions.{subscribers_of}
use tinymq_broker.Broker.Notify.{wrapper}
use tinymq_broker.Broker.Delivery.{IsOrdinary}
use tinymq_broker.Broker.Lifecycle.{
  Pool, Machine, start_client_activity_check, open_database, launch, start, stop, work,
}
use tinymq_broker.Session.Handlers.{handle_publish}
use tinymq_broker.Session.Acks.{handle_publish-thrown}
use tinymq_broker.Program.Life.{
  Step, Life, starts, stops, accepts, accept_fails, receives, loses, written, timer_ends,
  time_passes, begins, goes_on,
}

-- A broker that no thread serves, and that `start` will not help: it counts as running, or its event
-- loop is stopped.
record IsDeaf (wire : List (Handle × Packet)) (m : Machine) : Type 0 where
  pub no_workers : m.workers ≡ 0
  pub no_help : m.running ≡ false → m.io_stopped ≡ true
  pub same_wire : m.world.wire ≡ wire

IsDeaf-start :
    {S : Type 0} (pg : Postgres S) (schema_file : Option Bytes) (n : Pool)
    (wire : List (Handle × Packet)) (m : Machine)
    → IsDeaf wire m
    → IsDeaf wire (start pg schema_file n m).1
unfolding start launch open_database start_client_activity_check
IsDeaf-start pg schema_file n wire m i = record {
  no_workers = ground (arith, i.no_help, i.no_workers);
  no_help = λ e. ground (arith, i.no_help, e);
  same_wire = ground (arith, i.same_wire);
}

IsDeaf-stop : (wire : List (Handle × Packet)) (m : Machine) → IsDeaf wire m → IsDeaf wire (stop m)
unfolding stop
IsDeaf-stop wire m i = record {
  no_workers = ground (arith, i.no_workers);
  no_help = λ e. ground (arith, i.no_help);
  same_wire = ground (arith, i.same_wire);
}

work-thrown :
    (f : M (Unit {0})) (m : Machine)
    → (f m.world).0 ≡ thrown
    → work f m ≡ record m { world = (f m.world).1; workers = m.workers - 1 }
unfolding work
work-thrown f m e = rw (e, work) refl

module _ {S : Type 0} (json : Json) (r : Rendering) (pg : Postgres S) (schema_file : Option Bytes)
    (pool : Pool) where
  Step-IsDeaf :
      {m n : Machine} (wire : List (Handle × Packet))
      → Step json r pg schema_file pool m n
      → IsDeaf wire m
      → IsDeaf wire n
  Step-IsDeaf {m} wire starts i = IsDeaf-start pg schema_file pool wire m i
  Step-IsDeaf {m} wire stops i = IsDeaf-stop wire m i
  Step-IsDeaf {m} wire (accepts h e w a fresh) i = ground (arith, i.no_workers)
  Step-IsDeaf {m} wire (accept_fails w a) i = ground (arith, i.no_workers)
  Step-IsDeaf {m} wire (receives h p w d) i = ground (arith, i.no_workers)
  Step-IsDeaf {m} wire (loses h w) i = ground (arith, i.no_workers)
  Step-IsDeaf {m} wire (written failed h w) i = ground (arith, i.no_workers)
  Step-IsDeaf {m} wire (timer_ends c w t) i = ground (arith, i.no_workers)
  Step-IsDeaf {m} wire (time_passes t clock faults) i = record {
    no_workers = i.no_workers;
    no_help = i.no_help;
    same_wire = i.same_wire;
  }

  Life-IsDeaf :
      {m n : Machine} (wire : List (Handle × Packet))
      → Life json r pg schema_file pool m n
      → IsDeaf wire m
      → IsDeaf wire n
  Life-IsDeaf wire begins i = i
  Life-IsDeaf wire (goes_on q e) i = Step-IsDeaf wire e (Life-IsDeaf wire q i)

module _ (json : Json) (r : Rendering) (topic message : Bytes) where
  -- Each of these sessions publishes the message, one after the other, each on some thread.
  abbrev pub published_by : List Handle → Machine → Machine
  published_by [] m = m
  published_by (h ∷ hs) m =
      published_by hs (work (handle_publish json r h (length topic ∷ topic ++ message)) m)

  module _ (nonempty : 0 < length message) (ordinary : IsOrdinary json message)
      (undumped : json.dump (wrapper topic message) ≡ none) where
    published_by-thrown :
        (hs : List Handle) (m : Machine)
        → is_empty (subscribers_of topic m.world.topic_subscribers) ≡ false
        → All (λ h. authenticated m.world h ≡ true) hs
        → let n = published_by hs m in
          (n.workers ≡ m.workers - length hs)
          × (n.world.wire ≡ m.world.wire)
          × (n.running ≡ m.running)
    published_by-thrown [] m s a = (omega arith, refl, refl)
    published_by-thrown (h ∷ hs) m s a =
        let publishing = handle_publish json r h (length topic ∷ topic ++ message) in
        let t =
          handle_publish-thrown json r h topic message m.world a.0 nonempty ordinary undumped s in
        let rest =
          published_by-thrown hs
            (record m { world = (publishing m.world).1; workers = m.workers - 1 }) (rw t.1.2 s)
            (All-weaken _ _ hs (λ g b. ap (λ objects. (objects g).is_authenticated) t.1.0 ∙ b)
              a.1) in
        rw (work-thrown publishing m t.0, published_by)
          (rest.0 ∙ omega arith, rest.1 ∙ t.1.3, rest.2)

    -- If a running broker has as many threads as these sessions, all of which have identified
    -- themselves, if the topic has a subscriber, and if the message is an ordinary one (`IsOrdinary`)
    -- that cannot be dumped once it is wrapped, as when its bytes are no UTF-8, then after they have
    -- published it no thread is left, and whatever follows, stops and starts included, nothing is ever
    -- sent again.
    pub poison_is_final :
        {S : Type 0} {n : Machine} (pg : Postgres S) (schema_file : Option Bytes) (pool : Pool)
        (hs : List Handle) (m : Machine)
        → m.running ≡ true
        → length hs ≡ m.workers
        → is_empty (subscribers_of topic m.world.topic_subscribers) ≡ false
        → All (λ h. authenticated m.world h ≡ true) hs
        → Life json r pg schema_file pool (published_by hs m) n
        → (n.workers ≡ 0) × (n.world.wire ≡ m.world.wire)
    poison_is_final pg schema_file pool hs m running enough s a q =
        let t = published_by-thrown hs m s a in
        let d = Life-IsDeaf json r pg schema_file pool m.world.wire q (record {
          no_workers = t.0 ∙ omega (arith, enough);
          no_help = λ e. ground (arith, t.2, running);
          same_wire = t.1;
        }) in
        (d.no_workers, d.same_wire)
