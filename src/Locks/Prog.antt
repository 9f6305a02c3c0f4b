-- ===== src/Locks/Prog.antt =====
-- A method as the pieces that it runs under one lock each (sessions_mutex_, topics_mutex_,
-- topic_cache_mutex_ of src/broker.h, db_mutex_ of src/db_manager.h), with the world that a piece
-- sees as the only source of what the next one knows.
use tinymq_broker.Base.{
  ◌≡◌, refl, Bytes, Option, none, some, List, [], ◌∷◌, ◌++◌, lookup, bytes_equality,
}
use tinymq_broker.Packet.{Packet}
use tinymq_broker.Db.Tables.{Server}
use tinymq_broker.Broker.World.{Handle, World, ok, thrown, undefined, M, continue}

-- The mutexes of `Broker` and `DbManager`.
pub data Lock : Type 0 where
  sessions_mutex topics_mutex topic_cache_mutex db_mutex : Lock

-- `act l f k` runs `f` under the mutex `l`, if there is one, and gives it back. Only sessions_mutex_ is
-- kept over several pieces: `takes` and `gives` are the two ends of such a `lock_guard`.
pub data Prog (A : Type 0) : Type 0 where
  ret : A → Prog A
  throws : Prog A
  crashes : Prog A
  act : Option Lock → (World → World) → (World → Prog A) → Prog A
  takes : Prog A → Prog A
  gives : Prog A → Prog A

module _ {A B : Type 0} where
  infixl 5 ◌>>=◌
  unfoldable pub ◌>>=◌ : Prog A → (A → Prog B) → Prog B
  ◌>>=◌ (ret a) f = f a
  ◌>>=◌ throws f = throws
  ◌>>=◌ crashes f = crashes
  ◌>>=◌ (act l g k) f = act l g (λ w. k w >>= f)
  ◌>>=◌ (takes p) f = takes (p >>= f)
  ◌>>=◌ (gives p) f = gives (p >>= f)

infixl 5 ◌>>◌
unfoldable pub ◌>>◌ : {B : Type 0} → Prog (Unit {0}) → Prog B → Prog B
p >> q = p >>= λ _. q

-- A value that a throwing expression may fail to give.
abbrev pub returns : {A : Type 0} → Option A → Prog A
returns none = throws
returns (some a) = ret a

-- `try { p } catch (const std::exception &) { return a; }`.
unfoldable pub catches : {A : Type 0} → A → Prog A → Prog A
catches a (ret b) = ret b
catches a throws = ret a
catches a crashes = crashes
catches a (act l f k) = act l f (λ w. catches a (k w))
catches a (takes p) = takes (catches a p)
catches a (gives p) = gives (catches a p)

-- The end of a `lock_guard`, by an exception too.
unfoldable pub released : {A : Type 0} → Prog A → Prog A
released (ret a) = gives (ret a)
released throws = gives throws
released crashes = crashes
released (act l f k) = act l f (λ w. released (k w))
released (takes p) = takes (released p)
released (gives p) = gives (released p)

-- A block under sessions_mutex_.
unfoldable pub holding : {A : Type 0} → Prog A → Prog A
unfolding released
holding p = takes (released p)

-- The pieces that methods are made of.
abbrev pub reads_under : {A : Type 0} → Lock → (World → A) → Prog A
reads_under l f = act (some l) (λ w. w) (λ w. ret (f w))

abbrev pub reads : {A : Type 0} → (World → A) → Prog A
reads f = act none (λ w. w) (λ w. ret (f w))

abbrev pub calls : {A : Type 0} → (Server → A × Server) → Prog A
calls f = act (some db_mutex) (λ w. record w { server = (f w.server).1 }) (λ w. ret (f w.server).0)

-- `sessions_.find(id)` under its lock.
abbrev pub finds_session : Bytes → Prog (Option Handle)
finds_session id = reads_under sessions_mutex (λ w. lookup id w.sessions)

abbrev pub changes_under : Lock → (World → World) → Prog (Unit {0})
changes_under l f = act (some l) f (λ w. ret tt)

abbrev pub changes : (World → World) → Prog (Unit {0})
changes f = act none f (λ w. ret tt)

abbrev pub sends : Handle → Packet → Prog (Unit {0})
sends h p = changes (λ w. record w { wire = w.wire ++ ((h, p) ∷ []) })

unfoldable pub sends_each : List Handle → Packet → Prog (Unit {0})
sends_each [] p = ret tt
sends_each (h ∷ hs) p = do sends h p; sends_each hs p

-- A method that no other thread interrupts.
unfoldable pub alone : {A : Type 0} → Prog A → M A
alone (ret a) w = (ok a, w)
alone throws w = (thrown, w)
alone crashes w = (undefined, w)
alone (act l f k) w = alone (k w) (f w)
alone (takes p) w = alone p w
alone (gives p) w = alone p w

pub alone-bind :
    {A B : Type 0} (p : Prog A) (f : A → Prog B) (w : World)
    → alone (p >>= f) w ≡ continue (alone p w).0 (λ a. alone (f a)) (alone p w).1
unfolding alone ◌>>=◌
alone-bind (ret a) f w = refl
alone-bind throws f w = refl
alone-bind crashes f w = refl
alone-bind (act l g k) f w = alone-bind (k w) f (g w)
alone-bind (takes p) f w = alone-bind p f w
alone-bind (gives p) f w = alone-bind p f w
