-- ===== src/Locks/Whole.antt =====
-- The handlers of src/session.cpp and the checks of src/broker.cpp in one piece keep what their pieces
-- keep.
use tinymq_broker.Base.{Bool, true, false, List, [], ◌++◌, All-append}
use tinymq_broker.Packet.{Packet}
use tinymq_broker.Db.Listings.{Rendering}
use tinymq_broker.Broker.World.{Handle, World, M, Json}
use tinymq_broker.Broker.Known.{IsKnown, Knows, Knows-Stays}
use tinymq_broker.Broker.Sessions.{remove_session, check_client_activity}
use tinymq_broker.Broker.Reaches.{Follows, Follows-self, Follows-trans, Reaches}
use tinymq_broker.Session.Handlers.{process_packet, on_written}
use tinymq_broker.Locks.Prog.{Prog, ret, throws, crashes, act, takes, gives, alone}
use tinymq_broker.Locks.Runs.{Runs}
use tinymq_broker.Locks.Pieces.{Steady, Safe}
use tinymq_broker.Locks.Safe.{IsSafe}
use tinymq_broker.Locks.Alone.{removing_session-Runs}
use tinymq_broker.Locks.AloneSession.{processing_packet-Runs, checking_client_activity-Runs}
use tinymq_broker.Locks.Keep.{removing_session-IsSafe}
use tinymq_broker.Locks.KeepSession.{processing_packet-IsSafe, checking_client_activity-IsSafe}

alone-Follows : {A : Type 0} (p : Prog A) (w : World) → Steady p → Follows w (alone p w).1
unfolding alone
alone-Follows (ret a) w s = Follows-self w
alone-Follows throws w s = Follows-self w
alone-Follows crashes w s = Follows-self w
alone-Follows (takes p) w s = alone-Follows p w s
alone-Follows (gives p) w s = alone-Follows p w s
alone-Follows (act l f k) w s = Follows-trans (s.0 w) (alone-Follows (k w) (f w) (s.1 w))

alone-IsKnown :
    {A : Type 0} (hs : List Handle) (p : Prog A) (w : World)
    → Steady p
    → Safe hs p
    → Knows hs w
    → IsKnown w
    → IsKnown (alone p w).1
unfolding alone
alone-IsKnown hs (ret a) w t s n i = i
alone-IsKnown hs throws w t s n i = i
alone-IsKnown hs crashes w t s n i = i
alone-IsKnown hs (takes p) w t s n i = alone-IsKnown hs p w t s n i
alone-IsKnown hs (gives p) w t s n i = alone-IsKnown hs p w t s n i
alone-IsKnown hs (act l f k) w t s n i =
    let r = s w n i in
    alone-IsKnown (r.1 ++ hs) (k w) (f w) (t.1 w) r.3
      (All-append _ r.1 hs r.2 (Knows-Stays hs w (f w) (t.0 w).stays n)) r.0

-- What is proved of the pieces holds of the method.
whole-Reaches :
    {A : Type 0} (hs : List Handle) (p : Prog A) (m : M A) → IsSafe hs p → Runs p m → Reaches hs m
whole-Reaches hs p m s r = record {
  run = λ w. rw (← r.same w) (alone-Follows p w s.steady);
  keeps = λ w n i. rw (← r.same w) (alone-IsKnown hs p w s.steady s.safe n i);
}

pub remove_session-Reaches : (h : Handle) → Reaches [] (remove_session h)
remove_session-Reaches h =
    whole-Reaches [] _ _ (removing_session-IsSafe [] h) (removing_session-Runs h)

pub on_written-Reaches : (failed : Bool) (h : Handle) → Reaches [] (on_written failed h)
unfolding on_written
on_written-Reaches true h = remove_session-Reaches h
on_written-Reaches false h = record { run = λ w. Follows-self w; keeps = λ w n i. i }

pub check_client_activity-Reaches : Reaches [] check_client_activity
check_client_activity-Reaches =
    whole-Reaches [] _ _ (checking_client_activity-IsSafe []) checking_client_activity-Runs

module _ (json : Json) (r : Rendering) where
  pub process_packet-Reaches : (h : Handle) (p : Packet) → Reaches [] (process_packet json r h p)
  process_packet-Reaches h p =
      whole-Reaches [] _ _ (processing_packet-IsSafe json r [] h p)
        (processing_packet-Runs json r h p)
