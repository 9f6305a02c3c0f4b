-- ===== src/Locks/Runs.antt =====
-- A program of Locks/Prog that no other thread interrupts, against the action of src/broker.cpp,
-- src/session.cpp or src/db_manager.cpp in one piece that it is cut from.
use tinymq_broker.Base.{
  ◌≡◌, refl, ◌∙◌, ap, Bytes, Bool, true, false, Option, none, some, List, [], ◌∷◌, if◌then◌else◌,
  lookup, bytes_equality,
}
use tinymq_broker.Packet.{Packet}
use tinymq_broker.Db.Tables.{Server}
use tinymq_broker.Broker.World.{
  Handle, World, Result, ok, thrown, undefined, M, continue, pure, crash, gets, database, modify,
  or_throw, catch_with, find_session, send_packet, send_each,
}
use tinymq_broker.Broker.World
use tinymq_broker.Locks.Prog.{
  Prog, Lock, ret, throws, crashes, act, takes, gives, alone, alone-bind, calls, catches, changes,
  changes_under, finds_session, holding, reads, reads_under, released, returns, sends, sends_each,
  ◌>>=◌, ◌>>◌,
}

alone-released : {A : Type 0} (p : Prog A) (w : World) → alone (released p) w ≡ alone p w
unfolding alone released
alone-released (ret a) w = refl
alone-released throws w = refl
alone-released crashes w = refl
alone-released (act l f k) w = alone-released (k w) (f w)
alone-released (takes p) w = alone-released p w
alone-released (gives p) w = alone-released p w

-- The method, uninterrupted, is the action.
pub record Runs {A : Type 0} (p : Prog A) (m : M A) : Type 0 where
  pub same : (w : World) → alone p w ≡ m w

module _ {A : Type 0} where
  pub ret-Runs : (a : A) → Runs (ret a) (pure a)
  unfolding alone
  ret-Runs a = record { same = λ w. refl }

  pub reads-Runs : (f : World → A) → Runs (reads f) (gets f)
  unfolding alone gets
  reads-Runs f = record { same = λ w. refl }

  pub reads_under-Runs : (l : Lock) (f : World → A) → Runs (reads_under l f) (gets f)
  unfolding alone gets
  reads_under-Runs l f = record { same = λ w. refl }

  pub holding-Runs : (p : Prog A) (m : M A) → Runs p m → Runs (holding p) m
  unfolding alone holding
  holding-Runs p m r = record { same = λ w. alone-released p w ∙ r.same w }

  pub calls-Runs : (f : Server → A × Server) → Runs (calls f) (database f)
  unfolding alone database
  calls-Runs f = record { same = λ w. refl }

  pub returns-Runs : (c : Option A) → Runs (returns c) (or_throw c)
  unfolding alone
  returns-Runs none = record { same = λ w. refl }
  returns-Runs (some a) = record { same = λ w. refl }

  pub crashes-Runs : Runs crashes (crash {A = A})
  unfolding alone
  crashes-Runs = record { same = λ w. refl }

  alone-catches :
      (a : A) (p : Prog A) (w : World) → alone (catches a p) w ≡ catch_with a (alone p) w
  unfolding alone catches
  alone-catches a (ret b) w = refl
  alone-catches a throws w = refl
  alone-catches a crashes w = refl
  alone-catches a (act l f k) w = alone-catches a (k w) (f w)
  alone-catches a (takes p) w = alone-catches a p w
  alone-catches a (gives p) w = alone-catches a p w

  pub catches-Runs : (a : A) (p : Prog A) (m : M A) → Runs p m → Runs (catches a p) (catch_with a m)
  catches-Runs a p m r = record {
    same = λ w.
        alone-catches a p w ∙ ap (λ (y : Result A × World). catch_with a (λ _. y) w) (r.same w);
  }

  pub if-Runs :
      (b : Bool) (p q : Prog A) (m n : M A)
      → Runs p m
      → Runs q n
      → Runs (if b then p else q) (if b then m else n)
  if-Runs true p q m n r s = r
  if-Runs false p q m n r s = s

module _ {A B : Type 0} where
  pub bind-Runs :
      (p : Prog A) (f : A → Prog B) (m : M A) (g : A → M B)
      → Runs p m
      → ((a : A) → Runs (f a) (g a))
      → Runs (p >>= f) (World.◌>>=◌ m g)
  unfolding World.◌>>=◌
  bind-Runs p f m g r s = record {
    same = λ w.
        alone-bind p f w
        ∙ ap (λ (z : Result A × World). continue z.0 (λ a. alone (f a)) z.1) (r.same w)
        ∙ continues (m w);
  }
    where
      continues : (y : Result A × World) → continue y.0 (λ a. alone (f a)) y.1 ≡ continue y.0 g y.1
      continues (ok a, v) = (s a).same v
      continues (thrown, v) = refl
      continues (undefined, v) = refl

  pub option-Runs :
      (c : Option A) (p : Prog B) (f : A → Prog B) (m : M B) (g : A → M B)
      → Runs p m
      → ((a : A) → Runs (f a) (g a))
      → Runs (elim c [ none ↦ p | some a ↦ f a ]) (elim c [ none ↦ m | some a ↦ g a ])
  option-Runs none p f m g r s = r
  option-Runs (some a) p f m g r s = s a

pub find-Runs :
    {B : Type 0} (id : Bytes) (f : Option Handle → Prog B) (g : Option Handle → M B)
    → Runs (f none) (g none)
    → ((h : Handle) → Runs (f (some h)) (g (some h)))
    → Runs (finds_session id >>= f) (World.◌>>=◌ (find_session id) g)
unfolding ◌>>=◌ World.◌>>=◌ alone gets
find-Runs id f g r s = record { same = λ w. found (lookup id w.sessions) w }
  where
    found : (c : Option Handle) (w : World) → alone (f c) w ≡ g c w
    found none w = r.same w
    found (some h) w = (s h).same w

pub changes-Runs : (f : World → World) → Runs (changes f) (modify f)
unfolding alone modify
changes-Runs f = record { same = λ w. refl }

pub changes_under-Runs : (l : Lock) (f : World → World) → Runs (changes_under l f) (modify f)
unfolding alone modify
changes_under-Runs l f = record { same = λ w. refl }

pub then-Runs :
    {B : Type 0} (p : Prog (Unit {0})) (q : Prog B) (m : M (Unit {0})) (k : M B)
    → Runs p m
    → Runs q k
    → Runs (p >> q) (World.◌>>◌ m k)
unfolding ◌>>◌ World.◌>>◌
then-Runs p q m k r s = bind-Runs p (λ _. q) m (λ _. k) r (λ _. s)

pub sends-Runs : (h : Handle) (p : Packet) → Runs (sends h p) (send_packet h p)
unfolding alone send_packet
sends-Runs h p = record { same = λ w. refl }

pub sends_each-Runs : (hs : List Handle) (p : Packet) → Runs (sends_each hs p) (send_each hs p)
unfolding sends_each send_each
sends_each-Runs [] p = ret-Runs tt
sends_each-Runs (h ∷ hs) p = then-Runs _ _ _ _ (sends-Runs h p) (sends_each-Runs hs p)

pub ruleset running = (
  ret-Runs, reads-Runs, reads_under-Runs, holding-Runs, changes_under-Runs, calls-Runs,
  returns-Runs, if-Runs, bind-Runs, option-Runs, changes-Runs, then-Runs, sends-Runs,
  sends_each-Runs, catches-Runs, crashes-Runs,
)
