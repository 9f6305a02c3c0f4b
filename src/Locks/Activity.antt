-- ===== src/Locks/Activity.antt =====
-- The check of src/broker.cpp for clients that are no longer active, cut at its locks.
use tinymq_broker.Base.{Bytes, not, none, some, List, [], ◌∷◌, if◌then◌else◌, is_empty}
use tinymq_broker.Db.Clients.{get_inactive_clients}
use tinymq_broker.Broker.Sessions.{disconnect, connected_clients}
use tinymq_broker.Locks.Prog.{
  Prog, ret, sessions_mutex, reads_under, ◌>>=◌, ◌>>◌, reads, calls, changes, finds_session,
}
use tinymq_broker.Locks.Methods.{removing_session}

unfoldable pub disconnecting_client : Bytes → Prog (Unit {0})
disconnecting_client client_id = do
  found ← finds_session client_id
  elim found [ none ↦ ret tt | some h ↦ do changes (disconnect h); removing_session h ]

unfoldable pub disconnecting_all : List Bytes → Prog (Unit {0})
disconnecting_all [] = ret tt
disconnecting_all (c ∷ cs) = do disconnecting_client c; disconnecting_all cs

unfoldable pub checking_client_activity : Prog (Unit {0})
checking_client_activity = do
  db ← reads (λ w. w.has_database)
  if not db then ret tt else do
    ids ← reads_under sessions_mutex connected_clients
    if is_empty ids
        then ret tt
        else do inactive ← calls (get_inactive_clients ids); disconnecting_all inactive
