-- ===== src/Locks/Pieces.antt =====
-- Pieces that keep what a broker keeps, whatever runs between them.
use tinymq_broker.Base.{List, [], ◌∷◌, ◌++◌, All-append}
use tinymq_broker.Broker.World.{Handle, World}
use tinymq_broker.Broker.Known.{IsKnown, Knows}
use tinymq_broker.Broker.Reaches.{Follows}
use tinymq_broker.Locks.Prog.{
  Prog, ret, throws, crashes, act, takes, gives, ◌>>=◌, catches, released,
}

-- Each piece follows the rules from any world.
abbrev pub Steady : {A : Type 0} → Prog A → Type 0
Steady (takes p) = Steady p
Steady (gives p) = Steady p
Steady (act l f k) = ((w : World) → Follows w (f w)) × ((w : World) → Steady (k w))
Steady _ = Unit

-- With the given sessions authenticated, each piece keeps the registered, subscribed and served ones
-- known; what comes next may rely on those sessions and
-- on more that the piece has found to be authenticated.
abbrev pub Safe : {A : Type 0} → List Handle → Prog A → Type 0
Safe hs (ret a) = Unit
Safe hs throws = Unit
Safe hs crashes = Unit
Safe hs (takes p) = Safe hs p
Safe hs (gives p) = Safe hs p
Safe hs (act l f k) =
    (w : World)
    → Knows hs w
    → IsKnown w
    → IsKnown (f w) × (more : List Handle) × Knows more (f w) × Safe (more ++ hs) (k w)

pub Knows-split : (xs ys : List Handle) (w : World) → Knows (xs ++ ys) w → Knows xs w × Knows ys w
Knows-split [] ys w n = (tt, n)
Knows-split (x ∷ xs) ys w n = let s = Knows-split xs ys w n.1 in ((n.0, s.0), s.1)

pub Safe-weaken :
    {A : Type 0} (hs gs : List Handle) (p : Prog A)
    → ((w : World) → Knows gs w → Knows hs w)
    → Safe hs p
    → Safe gs p
Safe-weaken hs gs (ret a) c s = tt
Safe-weaken hs gs throws c s = tt
Safe-weaken hs gs crashes c s = tt
Safe-weaken hs gs (takes p) c s = Safe-weaken hs gs p c s
Safe-weaken hs gs (gives p) c s = Safe-weaken hs gs p c s
Safe-weaken hs gs (act l f k) c s = λ w n i.
    let r = s w (c w n) i in
    (
      r.0,
      r.1,
      r.2,
      Safe-weaken (r.1 ++ hs) (r.1 ++ gs) (k w)
          (λ v m. let b = Knows-split r.1 gs v m in All-append _ r.1 hs b.0 (c v b.1)) r.3,
    )

pub Safe-bind :
    {A B : Type 0} (hs : List Handle) (p : Prog A) (f : A → Prog B)
    → Safe hs p
    → ((a : A) → Safe hs (f a))
    → Safe hs (p >>= f)
unfolding ◌>>=◌
Safe-bind hs (ret a) f s t = t a
Safe-bind hs throws f s t = tt
Safe-bind hs crashes f s t = tt
Safe-bind hs (takes p) f s t = Safe-bind hs p f s t
Safe-bind hs (gives p) f s t = Safe-bind hs p f s t
Safe-bind hs (act l g k) f s t = λ w n i.
    let r = s w n i in
    (
      r.0,
      r.1,
      r.2,
      Safe-bind (r.1 ++ hs) (k w) f r.3
          (λ a. Safe-weaken hs (r.1 ++ hs) (f a) (λ v m. (Knows-split r.1 hs v m).1) (t a)),
    )

pub Safe-catches :
    {A : Type 0} (hs : List Handle) (a : A) (p : Prog A) → Safe hs p → Safe hs (catches a p)
unfolding catches
Safe-catches hs a (ret b) s = tt
Safe-catches hs a throws s = tt
Safe-catches hs a crashes s = tt
Safe-catches hs a (takes p) s = Safe-catches hs a p s
Safe-catches hs a (gives p) s = Safe-catches hs a p s
Safe-catches hs a (act l f k) s =
    λ w n i. let r = s w n i in (r.0, r.1, r.2, Safe-catches (r.1 ++ hs) a (k w) r.3)

pub Safe-released : {A : Type 0} (hs : List Handle) (p : Prog A) → Safe hs p → Safe hs (released p)
unfolding released
Safe-released hs (ret a) s = tt
Safe-released hs throws s = tt
Safe-released hs crashes s = tt
Safe-released hs (takes p) s = Safe-released hs p s
Safe-released hs (gives p) s = Safe-released hs p s
Safe-released hs (act l f k) s =
    λ w n i. let r = s w n i in (r.0, r.1, r.2, Safe-released (r.1 ++ hs) (k w) r.3)

pub Steady-bind :
    {A B : Type 0} (p : Prog A) (f : A → Prog B)
    → Steady p
    → ((a : A) → Steady (f a))
    → Steady (p >>= f)
unfolding ◌>>=◌
Steady-bind (ret a) f s t = t a
Steady-bind throws f s t = tt
Steady-bind crashes f s t = tt
Steady-bind (takes p) f s t = Steady-bind p f s t
Steady-bind (gives p) f s t = Steady-bind p f s t
Steady-bind (act l g k) f s t = (s.0, λ w. Steady-bind (k w) f (s.1 w) t)

pub Steady-catches : {A : Type 0} (a : A) (p : Prog A) → Steady p → Steady (catches a p)
unfolding catches
Steady-catches a (ret b) s = tt
Steady-catches a throws s = tt
Steady-catches a crashes s = tt
Steady-catches a (takes p) s = Steady-catches a p s
Steady-catches a (gives p) s = Steady-catches a p s
Steady-catches a (act l f k) s = (s.0, λ w. Steady-catches a (k w) (s.1 w))

pub Steady-released : {A : Type 0} (p : Prog A) → Steady p → Steady (released p)
unfolding released
Steady-released (ret a) s = tt
Steady-released throws s = tt
Steady-released crashes s = tt
Steady-released (takes p) s = Steady-released p s
Steady-released (gives p) s = Steady-released p s
Steady-released (act l f k) s = (s.0, λ w. Steady-released (k w) (s.1 w))
