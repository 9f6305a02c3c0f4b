-- ===== src/Broker/Reaches.antt =====
-- Rules that an action of src/broker.cpp follows: the database goes along steps of its methods,
-- and lists of subscribers stay distinct.
use tinymq_broker.Base.{ℕ, List, [], ◌∷◌, inl, inr, Bool-cases, ◌≡◌}
use tinymq_broker.Packet.{Packet}
use tinymq_broker.Db.Tables.{Server, Tables, rollback, transaction, next_fault, later_faults}
use tinymq_broker.Db.Steps.{outside, Reach, initially, later, Reach-trans}
use tinymq_broker.Broker.Distinct.{IsDistinct}
use tinymq_broker.Broker.Known.{IsKnown, Knows, Stays, IsKnown-send}
use tinymq_broker.Broker.World.{Handle, World, M, database, modify, send_packet}

-- Every call of the database method is a sequence of steps.
pub record Calls {ℓ} {A : Type ℓ} (f : Server → A × Server) : Type 0 where
  pub calls : (s : Server) → Reach s (f s).1

-- From one world to another the database goes along steps, no session comes to stand twice in a
-- list of subscribers, and authenticated sessions stay so.
pub record Follows (w v : World) : Type 0 where
  pub database : Reach w.server v.server
  pub distinct : IsDistinct w.topic_subscribers → IsDistinct v.topic_subscribers
  pub stays : Stays w v

pub Follows-self : (w : World) → Follows w w
Follows-self w = record { database = initially; distinct = λ d. d; stays = λ h a. a }

pub Follows-trans : {u v w : World} → Follows u v → Follows v w → Follows u w
Follows-trans f g = record {
  database = Reach-trans f.database g.database;
  distinct = λ d. g.distinct (f.distinct d);
  stays = λ h a. g.stays h (f.stays h a);
}

-- Every run of the action, whichever way it ends, follows these rules; and with the given sessions
-- authenticated it keeps the registered, subscribed and served ones known.
pub record Reaches {ℓ} (o : List Handle) {A : Type ℓ} (m : M A) : Type 0 where
  pub run : (w : World) → Follows w (m w).1
  pub keeps : (w : World) → Knows o w → IsKnown w → IsKnown (m w).1

-- A method that only reads, and so ends without a commit.
pub reads-Calls {ℓ} :
    {A : Type ℓ} (failed : A) (q : ℕ → Tables → A)
    → Calls (transaction failed (λ now db. rollback (q now db)))
unfolding transaction
reads-Calls failed q = record {
  calls = λ s. elim (Bool-cases (next_fault s.faults)) [
    | inl e ↦ rw (e, transaction) (later initially (outside s.clock (later_faults s.faults)))
    | inr e ↦ rw (e, transaction) (later initially (outside s.clock (later_faults s.faults)))
  ];
}

module _ {ℓ} {A : Type ℓ} (o : List Handle) where
  pub database-Reaches : (f : Server → A × Server) → Calls f → Reaches o (database f)
  unfolding database
  database-Reaches f c = record {
    run = λ w. record { database = c.calls w.server; distinct = λ d. d; stays = λ h a. a };
    keeps = λ w n k. record {
      sessions = k.sessions;
      subscribers = k.subscribers;
      receivers = k.receivers;
    };
  }

-- A change of the world that leaves the database alone.
pub modify-Reaches :
    (o : List Handle) (f : World → World)
    → ((w : World) → (f w).server ≡ w.server)
    → ((w : World) → IsDistinct w.topic_subscribers → IsDistinct (f w).topic_subscribers)
    → ((w : World) → Stays w (f w))
    → ((w : World) → Knows o w → IsKnown w → IsKnown (f w))
    → Reaches o (modify f)
unfolding modify
modify-Reaches o f e d s k = record {
  run = λ w. record { database = rw (e w) initially; distinct = d w; stays = s w };
  keeps = k;
}

pub send_packet-Reaches : (h : Handle) (p : Packet) → Reaches (h ∷ []) (send_packet h p)
unfolding send_packet
send_packet-Reaches h p = record {
  run = λ w. record { database = initially; distinct = λ d. d; stays = λ h a. a };
  keeps = λ w n k. IsKnown-send h p w n.0 k;
}
