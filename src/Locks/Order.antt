-- ===== src/Locks/Order.antt =====
-- The order in which the threads of src/broker.cpp take its mutexes, and what they may write under
-- which.
use tinymq_broker.Base.{
  ℕ, ◌≡◌, refl, Bytes, Bool, true, false, ◌&&◌, ◌||◌, Option, none, some, List,
}
use tinymq_broker.Packet.{Packet}
use tinymq_broker.Db.Tables.{Server}
use tinymq_broker.Broker.World.{Session, Handle, World}
use tinymq_broker.Locks.Prog.{
  Lock, sessions_mutex, topics_mutex, topic_cache_mutex, db_mutex, Prog, ret, throws, crashes, act,
  takes, gives, ◌>>=◌, catches, released,
}

-- Where sessions_mutex_ is kept, a piece cannot take it again: `std::mutex` is not recursive.
abbrev pub Free : Option Lock → Bool → Type 0
Free (some sessions_mutex) b = b ≡ false
Free _ b = Unit {0}

abbrev pub same_lock : Lock → Lock → Bool
same_lock sessions_mutex sessions_mutex = true
same_lock topics_mutex topics_mutex = true
same_lock topic_cache_mutex topic_cache_mutex = true
same_lock db_mutex db_mutex = true
same_lock _ _ = false

-- A piece under the mutex `l`, with sessions_mutex_ kept or not, may write what `m` protects.
abbrev pub owns : Option Lock → Bool → Lock → Bool
owns none b m = b && same_lock sessions_mutex m
owns (some l) b m = same_lock l m || (b && same_lock sessions_mutex m)

-- What each mutex protects.
abbrev pub Untouched : Lock → World → World → Type 0
Untouched sessions_mutex w v = v.sessions ≡ w.sessions
Untouched topics_mutex w v = v.topic_subscribers ≡ w.topic_subscribers
Untouched topic_cache_mutex w v = v.topic_id_cache ≡ w.topic_id_cache
Untouched db_mutex w v = v.server ≡ w.server

abbrev pub Guards : Option Lock → Bool → (World → World) → Type 0
Guards l b f = (w : World) (m : Lock) → owns l b m ≡ false → Untouched m w (f w)

-- With sessions_mutex_ kept (`b`) or not, the program takes no mutex that it has, writes what it may,
-- and ends with sessions_mutex_ kept (`e`) or not. It never stops for good while it keeps it.
abbrev pub Orderly : {A : Type 0} → Bool → Bool → Prog A → Type 0
Orderly e b (ret a) = b ≡ e
Orderly e b throws = b ≡ e
Orderly e b crashes = b ≡ false
Orderly e b (act l f k) = Free l b × Guards l b f × ((w : World) → Orderly e b (k w))
Orderly e b (takes p) = (b ≡ false) × Orderly e true p
Orderly e b (gives p) = (b ≡ true) × Orderly e false p

pub Free-false : (l : Option Lock) → Free l false
Free-false none = tt
Free-false (some sessions_mutex) = refl
Free-false (some topics_mutex) = tt
Free-false (some topic_cache_mutex) = tt
Free-false (some db_mutex) = tt

pub reading-Guards : (l : Option Lock) (b : Bool) → Guards l b (λ w. w)
reading-Guards l b w sessions_mutex o = refl
reading-Guards l b w topics_mutex o = refl
reading-Guards l b w topic_cache_mutex o = refl
reading-Guards l b w db_mutex o = refl

module _ (b : Bool) where
  pub server-Guards :
      (g : World → Server) → Guards (some db_mutex) b (λ w. record w { server = g w })
  server-Guards g w sessions_mutex o = refl
  server-Guards g w topics_mutex o = refl
  server-Guards g w topic_cache_mutex o = refl
  server-Guards g w db_mutex o = cc

  pub topics-Guards :
      (g : World → List (Bytes × List Handle))
      → Guards (some topics_mutex) b (λ w. record w { topic_subscribers = g w })
  topics-Guards g w sessions_mutex o = refl
  topics-Guards g w topics_mutex o = cc
  topics-Guards g w topic_cache_mutex o = refl
  topics-Guards g w db_mutex o = refl

  pub cache-Guards :
      (g : World → List (Bytes × ℕ))
      → Guards (some topic_cache_mutex) b (λ w. record w { topic_id_cache = g w })
  cache-Guards g w sessions_mutex o = refl
  cache-Guards g w topics_mutex o = refl
  cache-Guards g w topic_cache_mutex o = cc
  cache-Guards g w db_mutex o = refl

  pub sessions-Guards :
      (g : World → List (Bytes × Handle))
      → Guards (some sessions_mutex) b (λ w. record w { sessions = g w })
  sessions-Guards g w sessions_mutex o = cc
  sessions-Guards g w topics_mutex o = refl
  sessions-Guards g w topic_cache_mutex o = refl
  sessions-Guards g w db_mutex o = refl

  pub objects-Guards :
      (g : World → Handle → Session) → Guards none b (λ w. record w { objects = g w })
  objects-Guards g w sessions_mutex o = refl
  objects-Guards g w topics_mutex o = refl
  objects-Guards g w topic_cache_mutex o = refl
  objects-Guards g w db_mutex o = refl

  pub wire-Guards :
      (g : World → List (Handle × Packet)) → Guards none b (λ w. record w { wire = g w })
  wire-Guards g w sessions_mutex o = refl
  wire-Guards g w topics_mutex o = refl
  wire-Guards g w topic_cache_mutex o = refl
  wire-Guards g w db_mutex o = refl

-- With sessions_mutex_ kept, the map may be written under no mutex more.
pub kept-Guards :
    (g : World → List (Bytes × Handle)) → Guards none true (λ w. record w { sessions = g w })
kept-Guards g w sessions_mutex o = cc
kept-Guards g w topics_mutex o = refl
kept-Guards g w topic_cache_mutex o = refl
kept-Guards g w db_mutex o = refl

pub Orderly-bind :
    {A B : Type 0} (e b : Bool) (p : Prog A) (f : A → Prog B)
    → Orderly e b p
    → ((a : A) → Orderly e e (f a))
    → Orderly e b (p >>= f)
unfolding ◌>>=◌
Orderly-bind e b (ret a) f o n = rw o (n a)
Orderly-bind e b throws f o n = o
Orderly-bind e b crashes f o n = o
Orderly-bind e b (act l g k) f o n = (o.0, o.1, λ w. Orderly-bind e b (k w) f (o.2 w) n)
Orderly-bind e b (takes p) f o n = (o.0, Orderly-bind e true p f o.1 n)
Orderly-bind e b (gives p) f o n = (o.0, Orderly-bind e false p f o.1 n)

pub Orderly-catches :
    {A : Type 0} (e b : Bool) (a : A) (p : Prog A) → Orderly e b p → Orderly e b (catches a p)
unfolding catches
Orderly-catches e b a (ret c) o = o
Orderly-catches e b a throws o = o
Orderly-catches e b a crashes o = o
Orderly-catches e b a (act l g k) o = (o.0, o.1, λ w. Orderly-catches e b a (k w) (o.2 w))
Orderly-catches e b a (takes p) o = (o.0, Orderly-catches e true a p o.1)
Orderly-catches e b a (gives p) o = (o.0, Orderly-catches e false a p o.1)

-- A block that keeps sessions_mutex_ gives it back.
pub Orderly-released :
    {A : Type 0} (b : Bool) (p : Prog A) → Orderly true b p → Orderly false b (released p)
unfolding released
Orderly-released b (ret a) o = (o, refl)
Orderly-released b throws o = (o, refl)
Orderly-released b crashes o = o
Orderly-released b (act l f k) o = (o.0, o.1, λ w. Orderly-released b (k w) (o.2 w))
Orderly-released b (takes p) o = (o.0, Orderly-released true p o.1)
Orderly-released b (gives p) o = (o.0, Orderly-released false p o.1)
