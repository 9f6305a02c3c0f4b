-- ===== src/Broker/Forged.antt =====
-- The list of topics that src/session.cpp writes by hand.
use mathlib.Core.List.{append_assoc}
use tinymq_broker.Base.{◌≡◌, Bytes, [], ◌∷◌, ◌++◌, codes}
use tinymq_broker.Broker.World.{Handle, World}
use tinymq_broker.Broker.Listings.{topic_entry, topic_entries, send_topic_list}

-- A topic's name that holds the end of one entry and the start of another.
abbrev pub forged : Bytes → Bytes → Bytes → Bytes
forged name owner other =
    name ++ (codes "\",\"owner\":\"" ++ (owner ++ (codes "\"},{\"name\":\"" ++ other)))

forged-entries :
    (name owner other last : Bytes)
    → topic_entries ((forged name owner other, last) ∷ [])
      ≡ topic_entries ((name, owner) ∷ (other, last) ∷ [])
unfolding topic_entries topic_entry
forged-entries name owner other last = simp (append_assoc)

-- A topic may carry any name. Of one topic with a certain name, the client is sent the very packet that it
-- is sent of two topics, for any two names and owners of those: it cannot tell the forged entry from a
-- real one.
pub topic_list_forged :
    (h : Handle) (name owner other last : Bytes) (w : World)
    → send_topic_list h ((forged name owner other, last) ∷ []) w
      ≡ send_topic_list h ((name, owner) ∷ (other, last) ∷ []) w
unfolding send_topic_list
topic_list_forged h name owner other last w = rw (forged-entries name owner other last)
