-- ===== src/Program/Sound.antt =====
-- What the broker of src/broker.cpp keeps while it is started, accepts, works and is stopped.
use tinymq_broker.Base.{
  ℕ, ◌≡◌, refl, Bytes, [], Option, Bool, true, false, none, some, arith, not, ◌&&◌, if◌then◌else◌,
  inl, inr, Bool-cases,
}
use tinymq_broker.Db.Tables.{Server}
use tinymq_broker.Db.Schema.{Postgres, initialize}
use tinymq_broker.Db.Steps.{Reach, Reach-trans}
use tinymq_broker.Broker.World.{Handle, World, M, set_object}
use tinymq_broker.Broker.Sessions.{check_client_activity}
use tinymq_broker.Broker.Known.{authenticated, IsKnown, IsKnown-objects}
use tinymq_broker.Broker.Distinct.{IsDistinct, IsDistinct-empty}
use tinymq_broker.Broker.Lifecycle.{
  Pool, Machine, new_session, start_client_activity_check, open_database, launch, start, stop, work,
  on_timer, on_accept,
}
use tinymq_broker.Broker.Reaches.{Reaches}
use tinymq_broker.Locks.Whole.{check_client_activity-Reaches}
use tinymq_broker.Session.Events.{Stays-accepted, no_session, no_subscriber}

-- A world that the broker can come to from a database server.
pub record IsSound (s : Server) (w : World) : Type 0 where
  pub database : Reach s w.server
  pub distinct : IsDistinct w.topic_subscribers
  pub known : IsKnown w

IsSound-action :
    (s : Server) {A : Type 0} (f : M A) (w : World) → Reaches [] f → IsSound s w → IsSound s (f w).1
IsSound-action s f w q i = record {
  database = Reach-trans i.database (q.run w).database;
  distinct = (q.run w).distinct i.distinct;
  known = q.keeps w tt i.known;
}

IsSound-has_database :
    (s : Server) (b : Bool) (w : World) → IsSound s w → IsSound s (record w { has_database = b })
IsSound-has_database s b w i = record {
  database = i.database;
  distinct = i.distinct;
  known = record {
    sessions = i.known.sessions;
    subscribers = i.known.subscribers;
    receivers = i.known.receivers;
  };
}

world-work : (f : M (Unit {0})) (m : Machine) → (work f m).world ≡ (f m.world).1
unfolding work
world-work f m = ground arith

world-on_timer :
    (c : Bool) (m : Machine)
    → (on_timer c m).world
      ≡ (if (not c) && m.running then (check_client_activity m.world).1 else m.world)
unfolding on_timer start_client_activity_check work
world-on_timer c m = ground arith

IsSound-open_database :
    (s : Server) (b : Bool) (m : Machine) → IsSound s m.world → IsSound s (open_database b m).world
unfolding open_database start_client_activity_check
IsSound-open_database s b m i = elim (Bool-cases m.world.has_database) [
  | inr e ↦ rw e (IsSound-has_database s false m.world i)
  | inl e ↦ elim (Bool-cases b) [
    | inr f ↦ rw (e, f) (IsSound-has_database s false m.world i)
    | inl f ↦ elim (Bool-cases m.running) [
      | inl g ↦ rw (e, f, g) (IsSound-has_database s true m.world i)
      | inr g ↦ rw (e, f, g) (IsSound-has_database s true m.world i)
    ]
  ]
]

pub IsSound-start :
    {S : Type 0} (s : Server) (pg : Postgres S) (schema_file : Option Bytes) (n : Pool)
    (m : Machine)
    → IsSound s m.world
    → IsSound s (start pg schema_file n m).1.world
unfolding start launch
IsSound-start s pg schema_file n m i = elim (Bool-cases m.running) [
  | inl e ↦ rw e i
  | inr e ↦
      rw e (IsSound-open_database s (initialize pg schema_file) (record m { running = true }) i)
]

pub IsSound-stop : (s : Server) (m : Machine) → IsSound s m.world → IsSound s (stop m).world
unfolding stop
IsSound-stop s m i = elim (Bool-cases m.running) [
  | inr e ↦ rw e i
  | inl e ↦ rw e (record {
    database = i.database;
    distinct = IsDistinct-empty;
    known = record {
      sessions = λ id h f. no_session id h [] refl f;
      subscribers = λ t h f. no_subscriber t h [] refl f;
      receivers = i.known.receivers;
    };
  })
]

pub IsSound-work :
    (s : Server) (f : M (Unit {0})) (m : Machine)
    → Reaches [] f
    → IsSound s m.world
    → IsSound s (work f m).world
IsSound-work s f m q i = rw (world-work f m) (IsSound-action s f m.world q i)

pub IsSound-on_timer :
    (s : Server) (c : Bool) (m : Machine) → IsSound s m.world → IsSound s (on_timer c m).world
IsSound-on_timer s c m i = rw (world-on_timer c m) (elim (Bool-cases (not c && m.running)) [
  | inl e ↦ rw e (IsSound-action s check_client_activity m.world check_client_activity-Reaches i)
  | inr e ↦ rw e i
])

pub IsSound-on_accept :
    (s : Server) (h : Handle) (e : Option (Bytes × ℕ)) (m : Machine)
    → authenticated m.world h ≡ false
    → IsSound s m.world
    → IsSound s (on_accept (some (h, e)) m).world
unfolding on_accept
IsSound-on_accept s h e m fresh i = elim (Bool-cases m.running) [
  | inl f ↦ rw f accepted
  | inr f ↦ rw f accepted
]
  where
    accepted : IsSound s (record m.world { objects = set_object h (new_session e) m.world.objects })
    accepted = record {
      database = i.database;
      distinct = i.distinct;
      known = IsKnown-objects m.world _ (Stays-accepted h e m.world fresh) i.known;
    }

pub IsSound-accept_fails :
    (s : Server) (m : Machine) → IsSound s m.world → IsSound s (on_accept none m).world
unfolding on_accept
IsSound-accept_fails s m i = elim (Bool-cases m.running) [ inl f ↦ rw f i | inr f ↦ rw f i ]
