-- ===== src/Locks/Safe.antt =====
-- Methods in pieces that keep what a broker keeps, whatever runs between the pieces, and that take its
-- mutexes in order.
use tinymq_broker.Base.{
  ◌≡◌, refl, lookup, bytes_equality, Bytes, Bool, true, false, Option, none, some, List, [], ◌∷◌,
  ◌++◌, if◌then◌else◌,
}
use tinymq_broker.Packet.{Packet}
use tinymq_broker.Db.Tables.{Server}
use tinymq_broker.Broker.World.{Handle, World, modify, database, send_packet}
use tinymq_broker.Broker.Known.{authenticated, IsKnown, Knows, Knows-subscribers}
use tinymq_broker.Broker.Subscriptions.{subscribers_of}
use tinymq_broker.Broker.Reaches.{
  Calls, Follows-self, Reaches, database-Reaches, send_packet-Reaches,
}
use tinymq_broker.Locks.Prog.{
  Lock, topics_mutex, sessions_mutex, sends, Prog, ret, crashes, catches, holding, finds_session,
  ◌>>=◌, ◌>>◌, reads, returns, calls, changes, changes_under, reads_under, sends_each,
}
use tinymq_broker.Locks.Order.{
  Free, Guards, Orderly, Free-false, reading-Guards, server-Guards, wire-Guards, Orderly-bind,
  Orderly-catches, Orderly-released,
}
use tinymq_broker.Locks.Pieces.{
  Steady, Steady-bind, Steady-catches, Steady-released, Safe, Knows-split, Safe-weaken, Safe-bind,
  Safe-catches, Safe-released,
}

pub record IsWithin {A : Type 0} (b : Bool) (hs : List Handle) (p : Prog A) : Type 0 where
  pub steady : Steady p
  pub safe : Safe hs p
  pub orderly : Orderly b b p

-- From outside of sessions_mutex_.
abbrev pub IsSafe : {A : Type 0} → List Handle → Prog A → Type 0
IsSafe hs p = IsWithin false hs p

module _ {A B : Type 0} {b : Bool} (hs : List Handle) where
  pub bind-IsSafe :
      (p : Prog A) (f : A → Prog B)
      → IsWithin b hs p
      → ((a : A) → IsWithin b hs (f a))
      → IsWithin b hs (p >>= f)
  bind-IsSafe p f s t = record {
    steady = Steady-bind p f s.steady (λ a. (t a).steady);
    safe = Safe-bind hs p f s.safe (λ a. (t a).safe);
    orderly = Orderly-bind b b p f s.orderly (λ a. (t a).orderly);
  }

  pub option-IsSafe :
      (c : Option A) (p : Prog B) (f : A → Prog B)
      → IsWithin b hs p
      → ((a : A) → IsWithin b hs (f a))
      → IsWithin b hs (elim c [ none ↦ p | some a ↦ f a ])
  option-IsSafe none p f s t = s
  option-IsSafe (some a) p f s t = t a

pub then-IsSafe :
    {B : Type 0} {b : Bool} (hs : List Handle) (p : Prog (Unit {0})) (q : Prog B)
    → IsWithin b hs p
    → IsWithin b hs q
    → IsWithin b hs (p >> q)
unfolding ◌>>◌
then-IsSafe hs p q s t = bind-IsSafe hs p (λ _. q) s (λ _. t)

module _ {A : Type 0} {b : Bool} (hs : List Handle) where
  pub ret-IsSafe : (a : A) → IsWithin b hs (ret a)
  ret-IsSafe a = record { steady = tt; safe = tt; orderly = refl }

  pub returns-IsSafe : (c : Option A) → IsWithin b hs (returns c)
  returns-IsSafe none = record { steady = tt; safe = tt; orderly = refl }
  returns-IsSafe (some a) = record { steady = tt; safe = tt; orderly = refl }

  pub if-IsSafe :
      (c : Bool) (p q : Prog A)
      → IsWithin b hs p
      → IsWithin b hs q
      → IsWithin b hs (if c then p else q)
  if-IsSafe true p q s t = s
  if-IsSafe false p q s t = t

  pub reads-IsSafe : (f : World → A) → IsWithin b hs (reads f)
  reads-IsSafe f = record {
    steady = ((λ w. Follows-self w), λ w. tt);
    safe = λ w n i. (i, [], tt, tt);
    orderly = (tt, reading-Guards none b, λ w. refl);
  }

  pub calls-IsSafe : (f : Server → A × Server) → Calls f → IsWithin b hs (calls f)
  unfolding database
  calls-IsSafe f c =
      let r = database-Reaches hs f c in
      record {
        steady = (r.run, λ w. tt);
        safe = λ w n i. (r.keeps w n i, [], tt, tt);
        orderly = (tt, server-Guards b (λ w. (f w.server).1), λ w. refl);
      }

  pub catches-IsSafe : (a : A) (p : Prog A) → IsWithin b hs p → IsWithin b hs (catches a p)
  catches-IsSafe a p s = record {
    steady = Steady-catches a p s.steady;
    safe = Safe-catches hs a p s.safe;
    orderly = Orderly-catches b b a p s.orderly;
  }

module _ {A : Type 0} (hs : List Handle) where
  pub crashes-IsSafe : IsSafe {A = A} hs crashes
  crashes-IsSafe = record { steady = tt; safe = tt; orderly = refl }

  pub reads_under-IsSafe : (l : Lock) (f : World → A) → IsSafe hs (reads_under l f)
  reads_under-IsSafe l f = record {
    steady = ((λ w. Follows-self w), λ w. tt);
    safe = λ w n i. (i, [], tt, tt);
    orderly = (Free-false (some l), reading-Guards (some l) false, λ w. refl);
  }

  pub holding-IsSafe : (p : Prog A) → IsWithin true hs p → IsSafe hs (holding p)
  unfolding holding
  holding-IsSafe p s = record {
    steady = Steady-released p s.steady;
    safe = Safe-released hs p s.safe;
    orderly = (refl, Orderly-released true p s.orderly);
  }

module _ {B : Type 0} (hs : List Handle) where
  -- A session that is found in the map is authenticated.
  pub find-IsSafe :
      (id : Bytes) (f : Option Handle → Prog B)
      → IsSafe hs (f none)
      → ((h : Handle) → IsSafe (h ∷ []) (f (some h)))
      → IsSafe hs (finds_session id >>= f)
  unfolding ◌>>=◌
  find-IsSafe id f r s = record {
    steady = ((λ w. Follows-self w), λ w. steady_found (lookup id w.sessions));
    safe = λ w n i. found w i (lookup id w.sessions) (λ h e. i.sessions id h e);
    orderly = (
      refl,
      reading-Guards (some sessions_mutex) false,
      λ w. orderly_found (lookup id w.sessions),
    );
  }
    where
      steady_found : (c : Option Handle) → Steady (f c)
      steady_found none = r.steady
      steady_found (some h) = (s h).steady

      orderly_found : (c : Option Handle) → Orderly false false (f c)
      orderly_found none = r.orderly
      orderly_found (some h) = (s h).orderly

      found :
          (w : World)
          → IsKnown w
          → (c : Option Handle) → ((h : Handle) → c ≡ some h → authenticated w h ≡ true)
          → IsKnown w × (more : List Handle) × Knows more w × Safe (more ++ hs) (f c)
      found w i none a = (i, [], tt, r.safe)
      found w i (some h) a = (
        i,
        h ∷ [],
        (a h refl, tt),
        Safe-weaken (h ∷ []) (h ∷ hs) (f (some h)) (λ v m. (m.0, tt)) (s h).safe,
      )

  -- What is copied from the map of subscribers is authenticated.
  pub subscribers-IsSafe :
      (topic : Bytes) (f : List Handle → Prog B)
      → ((gs : List Handle) → IsSafe gs (f gs))
      → IsSafe hs (reads_under topics_mutex (λ w. subscribers_of topic w.topic_subscribers) >>= f)
  unfolding ◌>>=◌
  subscribers-IsSafe topic f s = record {
    steady = ((λ w. Follows-self w), λ w. (s (subscribers_of topic w.topic_subscribers)).steady);
    safe = λ w n i.
        let gs = subscribers_of topic w.topic_subscribers in
        (
          i,
          gs,
          Knows-subscribers topic w i,
          Safe-weaken gs (gs ++ hs) (f gs) (λ v m. (Knows-split gs hs v m).0) (s gs).safe,
        );
    orderly = (
      tt,
      reading-Guards (some topics_mutex) false,
      λ w. (s (subscribers_of topic w.topic_subscribers)).orderly,
    );
  }

module _ {b : Bool} (hs : List Handle) where
  pub changes-IsSafe :
      (f : World → World) → Reaches hs (modify f) → Guards none b f → IsWithin b hs (changes f)
  unfolding modify
  changes-IsSafe f r g = record {
    steady = (r.run, λ w. tt);
    safe = λ w n i. (r.keeps w n i, [], tt, tt);
    orderly = (tt, g, λ w. refl);
  }

  pub changes_under-IsSafe :
      (l : Lock) (f : World → World)
      → Reaches hs (modify f)
      → Free (some l) b
      → Guards (some l) b f
      → IsWithin b hs (changes_under l f)
  unfolding modify
  changes_under-IsSafe l f r o g = record {
    steady = (r.run, λ w. tt);
    safe = λ w n i. (r.keeps w n i, [], tt, tt);
    orderly = (o, g, λ w. refl);
  }

fewer-IsSafe :
    {A : Type 0} (hs gs : List Handle) (p : Prog A)
    → ((w : World) → Knows gs w → Knows hs w)
    → IsSafe hs p
    → IsSafe gs p
fewer-IsSafe hs gs p c s = record {
  steady = s.steady;
  safe = Safe-weaken hs gs p c s.safe;
  orderly = s.orderly;
}

pub sends-IsSafe : (h : Handle) (p : Packet) → IsSafe (h ∷ []) (sends h p)
unfolding send_packet modify
sends-IsSafe h p =
    changes-IsSafe (h ∷ []) _ (send_packet-Reaches h p)
      (wire-Guards false (λ w. w.wire ++ ((h, p) ∷ [])))

pub sends_each-IsSafe : (hs : List Handle) (p : Packet) → IsSafe hs (sends_each hs p)
unfolding sends_each
sends_each-IsSafe [] p = ret-IsSafe _ tt
sends_each-IsSafe (h ∷ hs) p =
    then-IsSafe _ _ _ (fewer-IsSafe (h ∷ []) (h ∷ hs) _ (λ w n. (n.0, tt)) (sends-IsSafe h p))
      (fewer-IsSafe hs (h ∷ hs) _ (λ w n. n.1) (sends_each-IsSafe hs p))

pub ruleset keeping = (
  bind-IsSafe, then-IsSafe, option-IsSafe, ret-IsSafe, returns-IsSafe, if-IsSafe, reads-IsSafe,
  reads_under-IsSafe, calls-IsSafe, sends-IsSafe, sends_each-IsSafe, crashes-IsSafe, catches-IsSafe,
)
