-- ===== src/Examples/Locks.antt =====
-- A subscription and a publication that take turns, for src/broker.cpp.
use tinymq_broker.Base.{
  ◌≡◌, ◌⊎◌, refl, Bytes, true, false, List, [], ◌∷◌, codes, bytes_equality, starts_with, split_at,
  assign, lookup, All,
}
use tinymq_broker.Db.Steps.{Reach}
use tinymq_broker.Broker.World.{World}
use tinymq_broker.Broker.Names.{extract_client_id}
use tinymq_broker.Broker.Known.{IsKnown}
use tinymq_broker.Broker.Distinct.{IsDistinct, IsDistinct-empty}
use tinymq_broker.Broker.Subscriptions.{add_subscriber}
use tinymq_broker.Session.Events.{IsBlank-IsKnown}
use tinymq_broker.Locks.Prog.{◌>>=◌, ◌>>◌, released, holding}
use tinymq_broker.Locks.Methods.{
  registering_session, entering_session, dropping_predecessor, subscribing, distributing,
}
use tinymq_broker.Locks.Handlers.{serving}
use tinymq_broker.Locks.Schedule.{
  Thread, Call, serves, registers, begins, goes_on, mine, locks, others, subscribes, distributes,
  Schedule-IsKnown,
}
use tinymq_broker.Locks.Progress.{IsEnded, CanTurn, Finite, no_deadlock}
use tinymq_broker.Locks.Atomic.{registration_atomic}
use tinymq_broker.Examples.Samples.{sample_world, sample_json, sample_rendering}

abbrev connecting : Bytes
connecting = 1 ∷ 0 ∷ 0 ∷ 1 ∷ codes "c"

-- No database, and no subscriber yet.
abbrev quiet_world : World
quiet_world = record sample_world { sessions = []; topic_subscribers = []; has_database = false }

abbrev after_turns : World
after_turns = record quiet_world {
  topic_subscribers = add_subscriber (codes "a/t") 2 quiet_world.topic_subscribers;
}

-- The publication copies the subscribers just before the subscription is entered.
Schedule-IsKnown_example :
    IsKnown after_turns
    × IsDistinct after_turns.topic_subscribers
    × Reach quiet_world.server after_turns.server
unfolding subscribing distributing ◌>>=◌ ◌>>◌ extract_client_id split_at starts_with
Schedule-IsKnown_example =
    Schedule-IsKnown sample_json sample_rendering {b = false}
      (subscribes 2 (codes "a/t") ∷ distributes (codes "a/t") (codes "m") ∷ [])
      (IsBlank-IsKnown quiet_world
        (record { no_sessions = refl; no_topics = refl; no_packets = refl }))
      IsDistinct-empty (refl, (tt, tt))
      (goes_on (goes_on (goes_on (goes_on begins (mine tt)) (mine tt)) (others (mine tt)))
        (mine tt))

abbrev calls_made : List Call
calls_made = registers 2 ∷ serves 3 connecting ∷ []

abbrev threads_left : List Thread
threads_left =
    released (entering_session 2) ∷ serving sample_json sample_rendering 6 3 connecting ∷ []

-- One thread has taken sessions_mutex_, and the other has a session to register as well.
no_deadlock_example :
    (All IsEnded threads_left ⊎ CanTurn quiet_world true threads_left) × Finite threads_left
unfolding registering_session holding
no_deadlock_example =
    no_deadlock sample_json sample_rendering {w = quiet_world} calls_made
      (goes_on begins (locks refl))

abbrev registered_world : World
registered_world = record quiet_world { sessions = assign (codes "b") 2 quiet_world.sessions }

-- The other thread reads its session in between.
registration_atomic_example :
    (id : Bytes) × (registered_world.sessions ≡ assign id 2 quiet_world.sessions)
unfolding subscribing entering_session dropping_predecessor released ◌>>=◌ ◌>>◌ lookup
registration_atomic_example =
    registration_atomic sample_json sample_rendering {w = quiet_world} {v = registered_world}
      (subscribes 2 (codes "a/t") ∷ []) 2 begins
      (goes_on
        (goes_on (goes_on (goes_on (goes_on begins (mine tt)) (others (mine tt))) (mine tt))
          (mine tt))
        (mine tt))
