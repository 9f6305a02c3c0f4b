-- ===== src/Locks/Progress.antt =====
-- No schedule of the threads of src/broker.cpp comes to a standstill, and none goes on for ever.
use tinymq_broker.Base.{
  ◌≡◌, ◌⊎◌, inl, inr, refl, sym, ◌∙◌, Bool, true, false, Bool-cases, List, [], ◌∷◌, map, All,
}
use tinymq_broker.Db.Listings.{Rendering}
use tinymq_broker.Broker.World.{World, Json}
use tinymq_broker.Locks.Prog.{ret, throws, crashes, act, takes, gives}
use tinymq_broker.Locks.Order.{Orderly}
use tinymq_broker.Locks.Schedule.{
  Thread, Call, Turn, mine, locks, unlocks, others, Schedule, begins, goes_on, thread_of,
  thread-IsOrderly,
}

-- The threads are orderly, and exactly one of them keeps sessions_mutex_ if `b` says that it is kept.
abbrev pub Fits : Bool → List Thread → Type 0
Fits b [] = b ≡ false
Fits b (p ∷ ps) = (Orderly false b p × Fits false ps) ⊎ (Orderly false false p × Fits b ps)

abbrev pub IsEnded : Thread → Type 0
IsEnded (ret a) = Unit
IsEnded throws = Unit
IsEnded crashes = Unit
IsEnded _ = ⊥

-- While another thread keeps sessions_mutex_, a turn does not change who keeps it.
pub Turn-outside :
    {w : World} {b : Bool} {ps : List Thread} {v : World} {c : Bool} {qs : List Thread}
    → Turn w b ps v c qs
    → b ≡ true
    → Fits false ps
    → (c ≡ true) × Fits false qs
Turn-outside {w} (mine o) e (inl (p, n)) = (e, inl (p.2 w, n))
Turn-outside {w} (mine o) e (inr (p, n)) = (e, inr (p.2 w, n))
Turn-outside (locks o) e f = absurd (cc)
Turn-outside unlocks e (inl (p, n)) = absurd (cc (p.0))
Turn-outside unlocks e (inr (p, n)) = absurd (cc (p.0))
Turn-outside (others t) e (inl (p, n)) = let r = Turn-outside t e n in (r.0, inl (p, r.1))
Turn-outside (others t) e (inr (p, n)) = let r = Turn-outside t e n in (r.0, inr (p, r.1))

Orderly-at : (p : Thread) (b c : Bool) → b ≡ c → Orderly false b p → Orderly false c p
Orderly-at p b c e o = rw (← e) o

Fits-unkept : (b : Bool) (ps : List Thread) → b ≡ false → Fits false ps → Fits b ps
Fits-unkept b ps e f = rw e f

Turn-Fits :
    {w : World} {b : Bool} {ps : List Thread} {v : World} {c : Bool} {qs : List Thread}
    → Turn w b ps v c qs
    → Fits b ps
    → Fits c qs
Turn-Fits {w} (mine o) (inl (p, n)) = inl (p.2 w, n)
Turn-Fits {w} (mine o) (inr (p, n)) = inr (p.2 w, n)
Turn-Fits (locks o) (inl (p, n)) = inl (p.1, n)
Turn-Fits (locks {ps} o) (inr (p, n)) = inl (p.1, rw (← o) n)
Turn-Fits unlocks (inl (p, n)) = inl (p.1, n)
Turn-Fits unlocks (inr (p, n)) = absurd (cc (p.0))
Turn-Fits {b} {c} (others {p} {ps} t) (inl (o, n)) = elim (Bool-cases b) [
  | inl e ↦ let r = Turn-outside t e n in inl (Orderly-at p b c (e ∙ sym r.0) o, r.1)
  | inr e ↦ inr (Orderly-at p b false e o, Turn-Fits t (Fits-unkept b ps e n))
]
Turn-Fits (others t) (inr (o, n)) = inr (o, Turn-Fits t n)

ended-Orderly : (b : Bool) (p : Thread) → IsEnded p → Orderly false b p → b ≡ false
ended-Orderly b (ret a) e o = o
ended-Orderly b throws e o = o
ended-Orderly b crashes e o = o
ended-Orderly b (act l f k) e o = elim e [ ]
ended-Orderly b (takes p) e o = elim e [ ]
ended-Orderly b (gives p) e o = elim e [ ]

-- With all threads ended nobody keeps sessions_mutex_.
ended-unkept : (b : Bool) (ps : List Thread) → All IsEnded ps → Fits b ps → b ≡ false
ended-unkept b [] e f = f
ended-unkept b (p ∷ ps) e (inl (o, n)) = ended-Orderly b p e.0 o
ended-unkept b (p ∷ ps) e (inr (o, n)) = ended-unkept b ps e.1 n

-- A thread that has not ended can run if it keeps sessions_mutex_, or nobody does.
abbrev pub CanTurn : World → Bool → List Thread → Type 0
CanTurn w b ps = (v : World) × (c : Bool) × (qs : List Thread) × Turn w b ps v c qs

run_thread :
    (w : World) (b : Bool) (p : Thread) (ps : List Thread)
    → Orderly false b p
    → IsEnded p ⊎ CanTurn w b (p ∷ ps)
run_thread w b (ret a) ps o = inl tt
run_thread w b throws ps o = inl tt
run_thread w b crashes ps o = inl tt
run_thread w b (act l f k) ps o = inr (f w, b, k w ∷ ps, mine o.0)
run_thread w b (takes p) ps o = inr (w, true, p ∷ ps, locks o.0)
run_thread w b (gives p) ps o = inr (w, false, p ∷ ps, unlocks)

-- A holder of sessions_mutex_ has not ended, and can run.
progress : (w : World) (b : Bool) (ps : List Thread) → Fits b ps → All IsEnded ps ⊎ CanTurn w b ps
progress w b [] f = inl tt
progress w b (p ∷ ps) (inl (o, n)) = elim (run_thread w b p ps o) [
  | inr t ↦ inr t
  | inl e ↦ elim (progress w b ps (Fits-unkept b ps (ended-Orderly b p e o) n)) [
    | inl es ↦ inl (e, es)
    | inr t ↦ inr (t.0, t.1, p ∷ t.2, others t.3)
  ]
]
progress w b (p ∷ ps) (inr (o, n)) = elim (progress w b ps n) [
  | inr t ↦ inr (t.0, t.1, p ∷ t.2, others t.3)
  | inl es ↦ elim (run_thread w b p ps (Orderly-at p false b (sym (ended-unkept b ps es n)) o)) [
    | inl e ↦ inl (e, es)
    | inr t ↦ inr t
  ]
]

-- Whatever the world and the locks, the threads can only make so many turns.
pub data Finite : List Thread → Type 0 where
  finite :
      {ps : List Thread}
      → ((w : World) (b : Bool) (v : World) (c : Bool) (qs : List Thread)
          → Turn w b ps v c qs
          → Finite qs)
      → Finite ps

Finite-after :
    (p : Thread) {ps : List Thread}
    → Finite ps
    → (w : World) (b : Bool) (v : World) (c : Bool) (qs : List Thread) → Turn w b (p ∷ ps) v c qs
    → Finite qs
Finite-after (act l f k) g w b v c qs (mine o) = finite (Finite-after (k w) g)
Finite-after (takes p) g w b v c qs (locks e) = finite (Finite-after p g)
Finite-after (gives p) g w b v c qs unlocks = finite (Finite-after p g)
Finite-after p (finite g) w b v c qs (others {qs = rs} t) = finite (Finite-after p (g w b v c rs t))

Finite-all : (ps : List Thread) → Finite ps
Finite-all [] = finite (λ w b v c qs t. elim t [ ])
Finite-all (p ∷ ps) = finite (Finite-after p (Finite-all ps))

pub Schedule-Fits :
    {w : World} {b : Bool} {ps : List Thread} {v : World} {c : Bool} {qs : List Thread}
    → Schedule w b ps v c qs
    → Fits b ps
    → Fits c qs
Schedule-Fits begins f = f
Schedule-Fits (goes_on q t) f = Turn-Fits t (Schedule-Fits q f)

module _ (json : Json) (r : Rendering) where
  pub threads-Fits : (cs : List Call) → Fits false (map (thread_of json r) cs)
  threads-Fits [] = refl
  threads-Fits (c ∷ cs) = inl (thread-IsOrderly json r c, threads-Fits cs)

  -- Any number of connections, checks and calls of the methods that are cut at their locks, begun while
  -- no thread keeps sessions_mutex_: wherever a schedule of them has come, all threads have ended, or
  -- one of them can run its next piece, so that no two wait for each other; and from there on every
  -- schedule makes finitely many turns.
  pub no_deadlock :
      {w v : World} {b : Bool} {qs : List Thread} (cs : List Call)
      → Schedule w false (map (thread_of json r) cs) v b qs
      → (All IsEnded qs ⊎ CanTurn v b qs) × Finite qs
  no_deadlock {v} {b} {qs} cs q =
      (progress v b qs (Schedule-Fits q (threads-Fits cs)), Finite-all qs)
