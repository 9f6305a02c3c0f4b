-- ===== src/Locks/Atomic.antt =====
-- `Broker::register_session` of src/broker.cpp between the two ends of its `lock_guard`, while other
-- threads run.
use tinymq_broker.Base.{
  ◌≡◌, ◌⊎◌, inl, inr, refl, ap, ◌∙◌, Bytes, Bool, true, false, ◌&&◌, Option, none, some, List, [],
  ◌∷◌, lookup, assign, map, bytes_equality, if◌then◌else◌,
}
use tinymq_broker.Broker.World.{Session, Handle, World, Json}
use tinymq_broker.Db.Listings.{Rendering}
use tinymq_broker.Locks.Prog.{
  Prog, Lock, sessions_mutex, topics_mutex, topic_cache_mutex, db_mutex, ret, throws, crashes, act,
  takes, gives, released, changes, ◌>>=◌, ◌>>◌,
}
use tinymq_broker.Locks.Keep.{entering_session-IsSafe}
use tinymq_broker.Locks.Order.{Orderly-released, Orderly, Free, owns}
use tinymq_broker.Locks.Methods.{
  registering_client, dropping_predecessor, assign_session, entering_session,
}
use tinymq_broker.Locks.Schedule.{
  Thread, Call, thread_of, Turn, mine, locks, unlocks, others, Schedule, begins, goes_on,
}
use tinymq_broker.Locks.Progress.{Schedule-Fits, threads-Fits, Fits, IsEnded, Turn-outside}

abbrev SessionMap : Type 0
SessionMap = List (Bytes × Handle)

-- With the map of sessions `m` where it begins and changed by itself alone, the program ends with a
-- value and a map for which `q` holds.
abbrev Sets : {A : Type 0} → (A → SessionMap → Type 0) → SessionMap → Prog A → Type 0
Sets q m (ret a) = q a m
Sets q m throws = ⊥
Sets q m crashes = ⊥
Sets q m (act l f k) = (w : World) → w.sessions ≡ m → Sets q (f w).sessions (k w)
Sets q m (takes p) = ⊥
Sets q m (gives p) = ⊥

Sets-bind :
    {A B : Type 0} (q : A → SessionMap → Type 0) (t : B → SessionMap → Type 0) (m : SessionMap)
    (p : Prog A) (f : A → Prog B)
    → Sets q m p
    → ((a : A) (n : SessionMap) → q a n → Sets t n (f a))
    → Sets t m (p >>= f)
unfolding ◌>>=◌
Sets-bind q t m (ret a) f s g = g a m s
Sets-bind q t m throws f s g = elim s [ ]
Sets-bind q t m crashes f s g = elim s [ ]
Sets-bind q t m (act l h k) f s g = λ w e. Sets-bind q t _ (k w) f (s w e) g
Sets-bind q t m (takes p) f s g = elim s [ ]
Sets-bind q t m (gives p) f s g = elim s [ ]

abbrev Leaves : SessionMap → Unit {0} → SessionMap → Type 0
Leaves m _ n = n ≡ m

abbrev Enters : SessionMap → Handle → Unit {0} → SessionMap → Type 0
Enters m h _ n = (id : Bytes) × (n ≡ assign id h m)

module _ {A B : Type 0} (q : B → SessionMap → Type 0) (m : SessionMap) where
  option-Sets :
      (c : Option A) (p : Prog B) (f : A → Prog B)
      → Sets q m p
      → ((a : A) → Sets q m (f a))
      → Sets q m (elim c [ none ↦ p | some a ↦ f a ])
  option-Sets none p f s t = s
  option-Sets (some a) p f s t = t a

if-Sets :
    {B : Type 0} (q : B → SessionMap → Type 0) (m : SessionMap) (b : Bool) (p r : Prog B)
    → Sets q m p
    → Sets q m r
    → Sets q m (if b then p else r)
if-Sets q m true p r s t = s
if-Sets q m false p r s t = t

registering_client-Sets :
    (m n : SessionMap) (s : Session) → n ≡ m → Sets (Leaves m) n (registering_client s)
unfolding registering_client ◌>>=◌
registering_client-Sets m n s e = option-Sets (Leaves m) n s.endpoint _ _ e (λ a w d. d ∙ e)

dropping_predecessor-Sets :
    (m n : SessionMap) (id : Bytes) → n ≡ m → Sets (Leaves m) n (dropping_predecessor id)
unfolding dropping_predecessor ◌>>=◌
dropping_predecessor-Sets m n id e = λ w d.
    option-Sets (Leaves m) w.sessions (lookup id w.sessions) _ _ (d ∙ e) (λ old v c. c ∙ d ∙ e)

assigning-Sets :
    (m n : SessionMap) (id : Bytes) (h : Handle)
    → n ≡ m
    → Sets (Enters m h) n (do dropping_predecessor id; changes (assign_session id h))
unfolding ◌>>◌
assigning-Sets m n id h e =
    Sets-bind (Leaves m) (Enters m h) n (dropping_predecessor id)
      (λ _. changes (assign_session id h)) (dropping_predecessor-Sets m n id e)
      (λ _ k l w d. (id, ap (assign id h) (d ∙ l)))

entering_session-Sets : (m : SessionMap) (h : Handle) → Sets (Enters m h) m (entering_session h)
unfolding entering_session ◌>>=◌ ◌>>◌
entering_session-Sets m h = λ w d u c.
    let s = w.objects h in
    Sets-bind (Leaves m) (Enters m h) u.sessions
      (if u.has_database && s.is_authenticated then registering_client s else ret tt)
      (λ _. do dropping_predecessor s.client_id; changes (assign_session s.client_id h))
      (if-Sets (Leaves m) _ (u.has_database && s.is_authenticated) (registering_client s) (ret tt)
        (registering_client-Sets m _ s (c ∙ d)) (c ∙ d))
      (λ _ k l. assigning-Sets m k s.client_id h l)

-- What is left of a block that keeps sessions_mutex_: it ends by giving it back, and `q` holds of the
-- map then.
abbrev Leads : (SessionMap → Type 0) → SessionMap → Thread → Type 0
Leads q m (gives (ret a)) = q m
Leads q m (act l f k) = (w : World) → w.sessions ≡ m → Leads q (f w).sessions (k w)
Leads q m _ = ⊥

Sets-released :
    (q : Unit {0} → SessionMap → Type 0) (m : SessionMap) (p : Thread)
    → Sets q m p
    → Leads (q tt) m (released p)
unfolding released
Sets-released q m (ret a) s = s
Sets-released q m throws s = elim s [ ]
Sets-released q m crashes s = elim s [ ]
Sets-released q m (act l f k) s = λ w e. Sets-released q _ (k w) (s w e)
Sets-released q m (takes p) s = elim s [ ]
Sets-released q m (gives p) s = elim s [ ]

not_owned : (l : Option Lock) (b : Bool) → Free l b → b ≡ true → owns l false sessions_mutex ≡ false
not_owned none b o e = refl
not_owned (some sessions_mutex) b o e = absurd (cc)
not_owned (some topics_mutex) b o e = refl
not_owned (some topic_cache_mutex) b o e = refl
not_owned (some db_mutex) b o e = refl

-- While another thread keeps sessions_mutex_, a turn leaves the map as it is.
outside_leaves :
    {w : World} {b : Bool} {ps : List Thread} {v : World} {c : Bool} {qs : List Thread}
    → Turn w b ps v c qs
    → b ≡ true
    → Fits false ps
    → v.sessions ≡ w.sessions
outside_leaves {b} (mine {l} o) e (inl (p, n)) = p.1 _ sessions_mutex (not_owned l b o e)
outside_leaves {b} (mine {l} o) e (inr (p, n)) = p.1 _ sessions_mutex (not_owned l b o e)
outside_leaves (locks o) e f = refl
outside_leaves unlocks e f = refl
outside_leaves (others t) e (inl (p, n)) = outside_leaves t e n
outside_leaves (others t) e (inr (p, n)) = outside_leaves t e n

-- The holder is on its way, or it has given sessions_mutex_ back.
abbrev Holds : (SessionMap → Type 0) → World → Bool → List Thread → Type 0
Holds q w b [] = ⊥
Holds q w b (p ∷ ps) =
    (Leads q w.sessions p × Orderly false true p × (b ≡ true) × Fits false ps) ⊎ IsEnded p

Holds-given :
    (q : SessionMap → Type 0) (w v : World) (p : Thread) (ps : List Thread)
    → Leads q w.sessions (gives p)
    → Holds q v false (p ∷ ps)
Holds-given q w v (ret a) ps l = inr tt
Holds-given q w v throws ps l = elim l [ ]
Holds-given q w v crashes ps l = elim l [ ]
Holds-given q w v (act m f k) ps l = elim l [ ]
Holds-given q w v (takes p) ps l = elim l [ ]
Holds-given q w v (gives p) ps l = elim l [ ]

Turn-Holds :
    (q : SessionMap → Type 0) {w : World} {b : Bool} {ps : List Thread} {v : World} {c : Bool}
    {qs : List Thread}
    → Turn w b ps v c qs
    → Holds q w b ps
    → Holds q v c qs
Turn-Holds q {w} (mine o) (inl (l, p, e, f)) = inl (l w refl, p.2 w, e, f)
Turn-Holds q (mine o) (inr d) = elim d [ ]
Turn-Holds q (locks o) (inl (l, p, e, f)) = elim l [ ]
Turn-Holds q (locks o) (inr d) = elim d [ ]
Turn-Holds q {w} (unlocks {p} {ps}) (inl (l, o, e, f)) = Holds-given q w w p ps l
Turn-Holds q unlocks (inr d) = elim d [ ]
Turn-Holds q (others {p} t) (inl (l, o, e, f)) =
    let n = Turn-outside t e f in inl (rw (outside_leaves t e f) l, o, n.0, n.1)
Turn-Holds q (others t) (inr d) = inr d

Schedule-Holds :
    (q : SessionMap → Type 0) {w : World} {b : Bool} {ps : List Thread} {v : World} {c : Bool}
    {qs : List Thread}
    → Schedule w b ps v c qs
    → Holds q w b ps
    → Holds q v c qs
Schedule-Holds q begins h = h
Schedule-Holds q (goes_on s t) h = Turn-Holds q t (Schedule-Holds q s h)

module _ (json : Json) (r : Rendering) where
  -- Some threads that run calls have come to the world `w`, and none of them keeps sessions_mutex_.
  -- A thread that calls register_session then takes it, and is about to give it back in the world `v`,
  -- after any turns of its own and of the others: from `w` to `v` the map of sessions has changed by
  -- one assignment, of this session to a client id, and by nothing else.
  pub registration_atomic :
      {w₀ w v : World} {b : Bool} {ps qs : List Thread} (cs : List Call) (h : Handle)
      → Schedule w₀ false (map (thread_of json r) cs) w false ps
      → Schedule w true (released (entering_session h) ∷ ps) v b (gives (ret tt) ∷ qs)
      → (id : Bytes) × (v.sessions ≡ assign id h w.sessions)
  registration_atomic {w} {v} {b} {qs} cs h before during = given (
      Schedule-Holds q during (
        inl (
          Sets-released (Enters w.sessions h) w.sessions (entering_session h)
              (entering_session-Sets w.sessions h),
          Orderly-released true (entering_session h) (entering_session-IsSafe h).orderly,
          refl,
          Schedule-Fits before (threads-Fits json r cs),
        )))
    where
      q : SessionMap → Type 0
      q = Enters w.sessions h tt

      given : Holds q v b (gives (ret tt) ∷ qs) → q v.sessions
      given (inl (l, o, e, f)) = l
      given (inr d) = elim d [ ]
