-- ===== src/Broker/Distinct.antt =====
-- Lists of subscribers in which no session stands twice, for the changes of topic_subscribers_ in
-- src/broker.cpp.
use tinymq_broker.Base.{
  ◌≤◌, ◌≡◌, inl, inr, refl, sym, Bytes, Bool, true, false, Option, none, some, List, [], ◌∷◌, ◌++◌,
  nat_beq, if◌then◌else◌, is_empty, length, select, length-select-delete-le,
  length-select-insert_le, Bool-cases, arith,
}
use mathlib.Core.Option
use mathlib.Core.Path.{subst}
use tinymq_broker.Base.{
  assign, erase, ◌==◌, nat_equality, bytes_equality, lookup, lookup-assign, lookup-erase,
  lookup-map_values,
}
use tinymq_broker.Broker.World.{Handle, World}
use tinymq_broker.Broker.Sessions.{drop_subscriber, drop_everywhere, enter_session}
use tinymq_broker.Broker.Subscriptions.{
  has_handle, subscribers_of, add_subscriber, remove_subscriber,
}

abbrev pub OnlyOnce : List Handle → Type 0
OnlyOnce subs = (h : Handle) → length (select (λ s. nat_beq s h) subs) ≤ 1

abbrev pub IsDistinct : List (Bytes × List Handle) → Type 0
IsDistinct topics = (topic : Bytes) → OnlyOnce (subscribers_of topic topics)

OnlyOnce-empty : OnlyOnce []
unfolding select
OnlyOnce-empty h = omega arith

pub IsDistinct-empty : IsDistinct []
unfolding lookup
IsDistinct-empty topic = OnlyOnce-empty

OnlyOnce-drop :
    (g : Handle) (subs : List Handle) → OnlyOnce subs → OnlyOnce (drop_subscriber g subs)
unfolding drop_subscriber
OnlyOnce-drop g subs d h =
    omega (arith, d h, length-select-delete-le (λ s. nat_beq s h) (λ s. nat_beq s g) subs)

pub missing :
    (h : Handle) (subs : List Handle)
    → has_handle h subs ≡ false
    → select (λ s. nat_beq s h) subs ≡ []
unfolding has_handle select
missing h [] e = refl
missing h (x ∷ subs) e = ground (arith, missing h subs)

OnlyOnce-add :
    (g : Handle) (subs : List Handle)
    → has_handle g subs ≡ false
    → OnlyOnce subs
    → OnlyOnce (subs ++ g ∷ [])
OnlyOnce-add g subs e d h =
    length-select-insert_le (λ s. nat_beq s h) subs g (d h)
      (λ same. ground (arith, missing g subs e))

-- The list of an entry, none where there is no entry.
abbrev entry_list : Option (List Handle) → List Handle
entry_list o = elim o [ none ↦ [] | some subs ↦ subs ]

OnlyOnce-map :
    (h : Handle) (o : Option (List Handle))
    → OnlyOnce (entry_list o)
    → OnlyOnce (entry_list (Option.map (drop_subscriber h) o))
OnlyOnce-map h none d = OnlyOnce-empty
OnlyOnce-map h (some subs) d = OnlyOnce-drop h subs d

OnlyOnce-if :
    (b : Bool) (o p : Option (List Handle))
    → OnlyOnce (entry_list o)
    → OnlyOnce (entry_list p)
    → OnlyOnce (entry_list (if b then o else p))
OnlyOnce-if true o p d e = d
OnlyOnce-if false o p d e = e

pub IsDistinct-drop_everywhere :
    (h : Handle) (topics : List (Bytes × List Handle))
    → IsDistinct topics
    → IsDistinct (drop_everywhere h topics)
unfolding drop_everywhere
IsDistinct-drop_everywhere h topics d topic =
    subst (λ o. OnlyOnce (entry_list o)) (sym (lookup-map_values (drop_subscriber h) topic topics))
      (OnlyOnce-map h (lookup topic topics) (d topic))

IsDistinct-assign :
    (t : Bytes) (subs : List Handle) (topics : List (Bytes × List Handle))
    → OnlyOnce subs
    → IsDistinct topics
    → IsDistinct (assign t subs topics)
IsDistinct-assign t subs topics e d u =
    subst (λ o. OnlyOnce (entry_list o)) (sym (lookup-assign t u subs topics))
      (OnlyOnce-if (t == u) (some subs) (lookup u topics) e (d u))

IsDistinct-erase :
    (t : Bytes) (topics : List (Bytes × List Handle))
    → IsDistinct topics
    → IsDistinct (erase t topics)
IsDistinct-erase t topics d u =
    subst (λ o. OnlyOnce (entry_list o)) (sym (lookup-erase t u topics))
      (OnlyOnce-if (t == u) none (lookup u topics) OnlyOnce-empty (d u))

pub IsDistinct-add_subscriber :
    (t : Bytes) (h : Handle) (topics : List (Bytes × List Handle))
    → IsDistinct topics
    → IsDistinct (add_subscriber t h topics)
unfolding add_subscriber
IsDistinct-add_subscriber t h topics d =
    let subs = subscribers_of t topics in
    elim (Bool-cases (has_handle h subs)) [
      | inl e ↦ rw (e, add_subscriber) (IsDistinct-assign t subs topics (d t) d)
      | inr e ↦
          rw (e, add_subscriber)
            (IsDistinct-assign t (subs ++ h ∷ []) topics (OnlyOnce-add h subs e (d t)) d)
    ]

IsDistinct-left :
    (b : Bool) (t : Bytes) (left : List Handle) (topics : List (Bytes × List Handle))
    → OnlyOnce left
    → IsDistinct topics
    → IsDistinct (if b then erase t topics else assign t left topics)
IsDistinct-left true t left topics e d = IsDistinct-erase t topics d
IsDistinct-left false t left topics e d = IsDistinct-assign t left topics e d

IsDistinct-entry :
    (o : Option (List Handle)) (t : Bytes) (h : Handle) (topics : List (Bytes × List Handle))
    → OnlyOnce (entry_list o)
    → IsDistinct topics
    → IsDistinct (elim o [
      | none ↦ topics
      | some subs ↦
          let left = drop_subscriber h subs in
          if is_empty left then erase t topics else assign t left topics
    ])
IsDistinct-entry none t h topics e d = d
IsDistinct-entry (some subs) t h topics e d =
    IsDistinct-left (is_empty (drop_subscriber h subs)) t (drop_subscriber h subs) topics
      (OnlyOnce-drop h subs e) d

pub IsDistinct-remove_subscriber :
    (t : Bytes) (h : Handle) (topics : List (Bytes × List Handle))
    → IsDistinct topics
    → IsDistinct (remove_subscriber t h topics)
unfolding remove_subscriber
IsDistinct-remove_subscriber t h topics d = IsDistinct-entry (lookup t topics) t h topics (d t) d

pub entered :
    (o : Option Handle) (topics : List (Bytes × List Handle))
    → IsDistinct topics
    → IsDistinct (elim o [ none ↦ topics | some old ↦ drop_everywhere old topics ])
entered none topics d = d
entered (some old) topics d = IsDistinct-drop_everywhere old topics d

pub IsDistinct-enter_session :
    (id : Bytes) (h : Handle) (w : World)
    → IsDistinct w.topic_subscribers
    → IsDistinct (enter_session id h w).topic_subscribers
unfolding enter_session
IsDistinct-enter_session id h w d = entered (lookup id w.sessions) w.topic_subscribers d
