-- ===== src/Db/Invariant.antt =====
-- The uniqueness that the tables have: what db/schema.sql declares, and one administrator for a topic.
use tinymq_broker.Base.{
  ℕ, suc, ◌≤◌, ◌<◌, ◌≡◌, refl, ap, Bytes, Bool, List, [], ◌∷◌, ◌++◌, ◌==◌, nat_equality,
  bytes_equality, nat_beq_iff, bytes_beq_iff, select, update_where, delete_where, length, All,
  All-append, All-update, All-weaken, length-select-delete-le, length-select-update,
  length-select-insert_le, arith,
}
use tinymq_broker.Db.Tables.{Client, Topic, AdminRequest, Subscription, TopicAdmin, Tables}
use tinymq_broker.Db.Subscriptions.{subscription_of}
use tinymq_broker.Db.Admins.{admin_of, request_of, topic_named}

abbrev pub AtMostOne {ℓ} : {A : Type ℓ} → (A → Bool) → List A → Type 0
AtMostOne p xs = length (select p xs) ≤ 1

abbrev pub client_named : Bytes → Client → Bool
client_named id c = c.client_id == id

abbrev pub topic_at : ℕ → Topic → Bool
topic_at i t = t.id == i

abbrev pub UniqueClients : List Client → Type 0
UniqueClients rows = (id : Bytes) → AtMostOne (client_named id) rows

-- The names, and the ids, which lie below the sequence.
pub record UniqueTopics (rows : List Topic) (next : ℕ) : Type 0 where
  pub names : (name : Bytes) → AtMostOne (topic_named name) rows
  pub below : All (λ (t : Topic). t.id < next) rows
  pub ids : (i : ℕ) → AtMostOne (topic_at i) rows

abbrev pub UniqueRequests : List AdminRequest → Type 0
UniqueRequests rows = (i : ℕ) (id : Bytes) → AtMostOne (request_of i id) rows

abbrev pub UniqueSubscriptions : List Subscription → Type 0
UniqueSubscriptions rows = (id : Bytes) (i : ℕ) → AtMostOne (subscription_of id i) rows

abbrev pub OneAdmin : List TopicAdmin → Type 0
OneAdmin rows = (i : ℕ) → AtMostOne (admin_of i) rows

-- `UNIQUE (client_id)`; `UNIQUE (name)` and the primary key of topics; `UNIQUE (topic_id,
-- requester_client_id)`; `UNIQUE (client_id, topic_id)`; and, which no constraint declares, at most
-- one administrator for each topic.
pub record IsUnique (db : Tables) : Type 0 where
  pub clients : UniqueClients db.clients
  pub topics : UniqueTopics db.topics db.next_topic
  pub requests : UniqueRequests db.admin_requests
  pub subscriptions : UniqueSubscriptions db.subscriptions
  pub admins : OneAdmin db.topic_admins

unique-update :
    {A : Type 0} (p q : A → Bool) (f : A → A) (xs : List A)
    → ((x : A) → p (f x) ≡ p x)
    → AtMostOne p xs
    → AtMostOne p (update_where q f xs)
unique-update p q f xs h u = omega (arith, length-select-update p q f xs h)

unique-delete :
    {A : Type 0} (p q : A → Bool) (xs : List A) → AtMostOne p xs → AtMostOne p (delete_where q xs)
unique-delete p q xs u = omega (arith, length-select-delete-le p q xs)

none_at_next :
    (n : ℕ) (ts : List Topic) → All (λ (t : Topic). t.id < n) ts → select (topic_at n) ts ≡ []
unfolding select
none_at_next n [] h = refl
none_at_next n (t ∷ ts) h = ground (arith, none_at_next n ts h.1)

-- A new topic under a name that no row has, with the id of the sequence.
pub UniqueTopics-insert :
    (rows : List Topic) (t : Topic)
    → select (topic_named t.name) rows ≡ []
    → UniqueTopics rows t.id
    → UniqueTopics (rows ++ t ∷ []) (suc t.id)
unfolding topic_named
UniqueTopics-insert rows t new u = record {
  names = λ name.
      length-select-insert_le _ rows t (u.names name)
        (λ h. ground (arith, bytes_beq_iff t.name name));
  below =
      All-append _ rows (t ∷ []) (All-weaken _ _ rows (λ x h. omega arith) u.below)
        (omega arith, tt);
  ids = λ i.
      length-select-insert_le _ rows t (u.ids i)
        (λ h. ground (arith, none_at_next t.id rows u.below));
}

pub UniqueTopics-publish :
    (q : Topic → Bool) (b : Bool) (rows : List Topic) (n : ℕ)
    → UniqueTopics rows n
    → UniqueTopics (update_where q (λ t. record t { publish = b }) rows) n
unfolding topic_named
UniqueTopics-publish q b rows n u = record {
  names = λ name. unique-update _ q _ rows (λ x. refl) (u.names name);
  below = All-update _ q _ rows (λ x h. h) u.below;
  ids = λ i. unique-update _ q _ rows (λ x. refl) (u.ids i);
}

pub UniqueClients-insert :
    (rows : List Client) (c : Client)
    → select (client_named c.client_id) rows ≡ []
    → UniqueClients rows
    → UniqueClients (rows ++ c ∷ [])
UniqueClients-insert rows c new u id =
    length-select-insert_le _ rows c (u id) (λ h. ground (arith, bytes_beq_iff c.client_id id))

pub UniqueClients-update :
    (q : Client → Bool) (f : Client → Client) (rows : List Client)
    → ((c : Client) → (f c).client_id ≡ c.client_id)
    → UniqueClients rows
    → UniqueClients (update_where q f rows)
UniqueClients-update q f rows h u id =
    unique-update (client_named id) q f rows (λ x. ap (λ i. i == id) (h x)) (u id)

pub UniqueSubscriptions-insert :
    (rows : List Subscription) (r : Subscription)
    → select (subscription_of r.client_id r.topic_id) rows ≡ []
    → UniqueSubscriptions rows
    → UniqueSubscriptions (rows ++ r ∷ [])
unfolding subscription_of
UniqueSubscriptions-insert rows r new u id i =
    length-select-insert_le _ rows r (u id i) (λ h. ground (arith, bytes_beq_iff r.client_id id))

pub UniqueSubscriptions-update :
    (q : Subscription → Bool) (f : Subscription → Subscription) (rows : List Subscription)
    → ((r : Subscription) → (f r).client_id ≡ r.client_id)
    → ((r : Subscription) → (f r).topic_id ≡ r.topic_id)
    → UniqueSubscriptions rows
    → UniqueSubscriptions (update_where q f rows)
unfolding subscription_of
UniqueSubscriptions-update q f rows h k u id i =
    unique-update (subscription_of id i) q f rows (λ x. cc (h x, k x)) (u id i)

pub UniqueRequests-insert :
    (rows : List AdminRequest) (r : AdminRequest)
    → select (request_of r.topic_id r.requester_client_id) rows ≡ []
    → UniqueRequests rows
    → UniqueRequests (rows ++ r ∷ [])
unfolding request_of
UniqueRequests-insert rows r new u i id =
    length-select-insert_le _ rows r (u i id)
      (λ h. ground (arith, bytes_beq_iff r.requester_client_id id))

pub UniqueRequests-update :
    (q : AdminRequest → Bool) (f : AdminRequest → AdminRequest) (rows : List AdminRequest)
    → ((r : AdminRequest) → (f r).topic_id ≡ r.topic_id)
    → ((r : AdminRequest) → (f r).requester_client_id ≡ r.requester_client_id)
    → UniqueRequests rows
    → UniqueRequests (update_where q f rows)
unfolding request_of
UniqueRequests-update q f rows h k u i id =
    unique-update (request_of i id) q f rows (λ x. cc (h x, k x)) (u i id)

pub OneAdmin-delete :
    (q : TopicAdmin → Bool) (rows : List TopicAdmin)
    → OneAdmin rows
    → OneAdmin (delete_where q rows)
OneAdmin-delete q rows u i = unique-delete (admin_of i) q rows (u i)

-- A grant for a topic that has none.
pub OneAdmin-insert :
    (rows : List TopicAdmin) (a : TopicAdmin)
    → select (admin_of a.topic_id) rows ≡ []
    → OneAdmin rows
    → OneAdmin (rows ++ a ∷ [])
unfolding admin_of
OneAdmin-insert rows a new u i =
    length-select-insert_le _ rows a (u i) (λ h. ground (arith, nat_beq_iff a.topic_id i))
