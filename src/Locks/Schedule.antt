-- ===== src/Locks/Schedule.antt =====
-- Threads of src/broker.cpp and the connections of src/session.cpp that take turns at the locks.
use tinymq_broker.Base.{
  ◌≡◌, Bytes, Bool, true, false, Option, suc, length, List, [], ◌∷◌, ◌++◌, map, All, All-append,
  All-weaken,
}
use tinymq_broker.Db.Steps.{Reach}
use tinymq_broker.Broker.World.{Handle, World, Json}
use tinymq_broker.Broker.Known.{authenticated, IsKnown, Knows, Knows-Stays, Stays}
use tinymq_broker.Broker.Distinct.{IsDistinct}
use tinymq_broker.Broker.Reaches.{Follows, Follows-self, Follows-trans}
use tinymq_broker.Locks.Prog.{Lock, Prog, act, takes, gives}
use tinymq_broker.Db.Listings.{Rendering}
use tinymq_broker.Locks.Order.{Free, Orderly}
use tinymq_broker.Locks.Pieces.{Safe, Steady}
use tinymq_broker.Locks.Activity.{checking_client_activity}
use tinymq_broker.Locks.Handlers.{serving}
use tinymq_broker.Locks.KeepSession.{serving-IsSafe, checking_client_activity-IsSafe}
use tinymq_broker.Locks.Methods.{
  registering_session, removing_session, subscribing, unsubscribing, distributing,
}
use tinymq_broker.Locks.Safe.{IsSafe}
use tinymq_broker.Locks.Keep.{registering_session-IsSafe, removing_session-IsSafe}
use tinymq_broker.Locks.KeepTopics.{subscribing-IsSafe, unsubscribing-IsSafe, distributing-IsSafe}

-- What a thread is at, and a call of a method that it makes.
abbrev pub Thread : Type 0
Thread = Prog (Unit {0})

pub data Call : Type 0 where
  serves : Handle → Bytes → Call
  checks_activity : Call
  -- `removes` is also the end of a write that failed (`on_written`).
  registers removes : Handle → Call
  subscribes unsubscribes : Handle → Bytes → Call
  distributes : Bytes → Bytes → Call

-- One thread runs its next piece; `b` and `c` say whether a thread keeps sessions_mutex_, before and
-- after.
pub data Turn (w : World) (b : Bool) : List Thread → World → Bool → List Thread → Type 0 where
  mine :
      {l : Option Lock} {f : World → World} {k : World → Thread} {ps : List Thread}
      → Free l b
      → Turn w b (act l f k ∷ ps) (f w) b (k w ∷ ps)
  locks : {p : Thread} {ps : List Thread} → b ≡ false → Turn w b (takes p ∷ ps) w true (p ∷ ps)
  unlocks : {p : Thread} {ps : List Thread} → Turn w b (gives p ∷ ps) w false (p ∷ ps)
  others :
      {p : Thread} {ps qs : List Thread} {v : World} {c : Bool}
      → Turn w b ps v c qs
      → Turn w b (p ∷ ps) v c (p ∷ qs)

pub data Schedule (w : World) (b : Bool) (ps : List Thread)
    : World → Bool → List Thread → Type 0 where
  begins : Schedule w b ps w b ps
  goes_on :
      {u v : World} {c d : Bool} {qs rs : List Thread}
      → Schedule w b ps u c qs
      → Turn u c qs v d rs
      → Schedule w b ps v d rs

-- A thread that is safe with sessions that are authenticated.
abbrev Ready : World → Thread → Type 0
Ready w p = (hs : List Handle) × Knows hs w × Safe hs p × Steady p

Ready-Stays : (w v : World) → Stays w v → (p : Thread) → Ready w p → Ready v p
Ready-Stays w v s p r = (r.0, Knows-Stays r.0 w v s r.1, r.2, r.3)

abbrev Kept : World → World → List Thread → Type 0
Kept w v ps = Follows w v × IsKnown v × All (Ready v) ps

Turn-keeps :
    {w : World} {b : Bool} {ps : List Thread} {v : World} {c : Bool} {qs : List Thread}
    → Turn w b ps v c qs
    → IsKnown w
    → All (Ready w) ps
    → Kept w v qs
Turn-keeps {w} (mine {l} {f} {k} {ps} o) i a =
    let (hs, n, s, t) = a.0 in
    let r = s w n i in
    let kept = Knows-Stays hs w (f w) (t.0 w).stays n in
    (
      t.0 w,
      r.0,
      (
        (r.1 ++ hs, All-append _ r.1 hs r.2 kept, r.3, t.1 w),
        All-weaken _ _ ps (Ready-Stays w (f w) (t.0 w).stays) a.1,
      ),
    )
Turn-keeps {w} (locks o) i a = (Follows-self w, i, a)
Turn-keeps {w} unlocks i a = (Follows-self w, i, a)
Turn-keeps {w} {v} (others {p} t) i a =
    let r = Turn-keeps t i a.1 in (r.0, r.1, (Ready-Stays w v r.0.stays p a.0, r.2))

Schedule-keeps :
    {w : World} {b : Bool} {ps : List Thread} {v : World} {c : Bool} {qs : List Thread}
    → Schedule w b ps v c qs
    → IsKnown w
    → All (Ready w) ps
    → Kept w v qs
Schedule-keeps begins i a = (Follows-self _, i, a)
Schedule-keeps (goes_on q t) i a =
    let r = Schedule-keeps q i a in
    let n = Turn-keeps t r.1 r.2 in (Follows-trans r.0 n.0, n.1, n.2)

module _ (json : Json) (r : Rendering) where
  -- A connection has fuel for each byte of its stream and one more.
  abbrev pub thread_of : Call → Thread
  thread_of (serves h stream) = serving json r (suc (length stream)) h stream
  thread_of checks_activity = checking_client_activity
  thread_of (registers h) = registering_session h
  thread_of (removes h) = removing_session h
  thread_of (subscribes h topic) = subscribing h topic
  thread_of (unsubscribes h topic) = unsubscribing h topic
  thread_of (distributes topic message) = distributing json topic message

  -- What the handlers have seen before they call register_session and subscribe. A connection needs
  -- nothing.
  abbrev pub IsAllowed : World → Call → Type 0
  IsAllowed w (registers h) = authenticated w h ≡ true
  IsAllowed w (subscribes h topic) = authenticated w h ≡ true
  IsAllowed w _ = Unit

  allowed_sessions :
      (w : World) (c : Call)
      → IsAllowed w c
      → (hs : List Handle) × Knows hs w × IsSafe hs (thread_of c)
  allowed_sessions w (serves h stream) a = ([], tt, serving-IsSafe json r [] _ h stream)
  allowed_sessions w checks_activity a = ([], tt, checking_client_activity-IsSafe [])
  allowed_sessions w (registers h) a = (h ∷ [], (a, tt), registering_session-IsSafe h)
  allowed_sessions w (removes h) a = ([], tt, removing_session-IsSafe [] h)
  allowed_sessions w (subscribes h topic) a = (h ∷ [], (a, tt), subscribing-IsSafe h topic)
  allowed_sessions w (unsubscribes h topic) a = ([], tt, unsubscribing-IsSafe [] h topic)
  allowed_sessions w (distributes topic message) a =
      ([], tt, distributing-IsSafe json [] topic message)

  pub thread-IsOrderly : (c : Call) → Orderly false false (thread_of c)
  thread-IsOrderly (serves h stream) = (serving-IsSafe json r [] _ h stream).orderly
  thread-IsOrderly checks_activity = (checking_client_activity-IsSafe []).orderly
  thread-IsOrderly (registers h) = (registering_session-IsSafe h).orderly
  thread-IsOrderly (removes h) = (removing_session-IsSafe [] h).orderly
  thread-IsOrderly (subscribes h topic) = (subscribing-IsSafe h topic).orderly
  thread-IsOrderly (unsubscribes h topic) = (unsubscribing-IsSafe [] h topic).orderly
  thread-IsOrderly (distributes topic message) = (distributing-IsSafe json [] topic message).orderly

  calls-Ready :
      (w : World) (cs : List Call) → All (IsAllowed w) cs → All (Ready w) (map thread_of cs)
  calls-Ready w [] a = tt
  calls-Ready w (c ∷ cs) a =
      let (hs, n, s) = allowed_sessions w c a.0 in ((hs, n, s.safe, s.steady), calls-Ready w cs a.1)

  -- Any number of connections with whatever they send, of checks for inactive clients, and of calls
  -- of register_session, remove_session, subscribe, unsubscribe and the distribution, on as many
  -- threads, each allowed (`IsAllowed`) where it begins, that take turns at the locks of the broker in
  -- any order and as far as they please: if before them no session stood twice in a list of
  -- subscribers, and the map of sessions, the lists of subscribers and the packets sent named
  -- authenticated sessions only, then so it is after every turn; and the database has gone along
  -- steps of its methods.
  pub Schedule-IsKnown :
      {w v : World} {b c : Bool} {qs : List Thread} (cs : List Call)
      → IsKnown w
      → IsDistinct w.topic_subscribers
      → All (IsAllowed w) cs
      → Schedule w b (map thread_of cs) v c qs
      → IsKnown v × IsDistinct v.topic_subscribers × Reach w.server v.server
  Schedule-IsKnown {w} cs i d a q =
      let k = Schedule-keeps q i (calls-Ready w cs a) in (k.1, k.0.distinct d, k.0.database)
