-- ===== src/Db/Tables.antt =====
-- The tables of db/schema.sql, and the transactions in which src/db_manager.cpp reads and writes
-- them. A table is its list of rows, oldest first; a time is a number.
use tinymq_broker.Base.{
  ℕ, ◌≡◌, refl, Bytes, Bool, false, Option, List, [], ◌∷◌, nat_equality, bytes_equality,
  if◌then◌else◌, Bool-cases, inl, inr,
}

-- `public.clients`; the serial `id` is never read.
pub record Client : Type 0 where
  pub client_id : Bytes
  pub last_connected : ℕ
  pub last_ip : Bytes
  pub last_port : ℕ
  pub connection_count : ℕ
  pub active : Bool

pub data EventType : Type 0 where
  connected disconnected : EventType

pub record ConnectionEvent : Type 0 where
  pub client_id : Bytes
  pub event_type : EventType
  pub ip_address : Bytes
  pub port : ℕ
  pub timestamp : ℕ

pub record Topic : Type 0 where
  pub id : ℕ
  pub name : Bytes
  pub owner_client_id : Bytes
  pub created_at : ℕ
  pub publish : Bool

-- The check constraint on `admin_requests.status`.
pub data Status : Type 0 where
  pending approved rejected revoked : Status

pub record AdminRequest : Type 0 where
  pub id : ℕ
  pub topic_id : ℕ
  pub requester_client_id : Bytes
  pub status : Status
  pub request_timestamp : ℕ
  pub response_timestamp : Option ℕ

pub record SensorConfig : Type 0 where
  pub topic_id : ℕ
  pub sensor_name : Bytes
  pub active : Bool
  pub set_by : Bytes
  pub updated_at : ℕ
  pub activable : Bool

pub record MessageLog : Type 0 where
  pub publisher_client_id : Bytes
  pub topic_id : ℕ
  pub payload_size : ℕ
  pub payload_preview : Bytes
  pub published_at : ℕ

pub record Subscription : Type 0 where
  pub id : ℕ
  pub client_id : Bytes
  pub topic_id : ℕ
  pub subscribed_at : ℕ
  pub active : Bool

pub record TopicAdmin : Type 0 where
  pub topic_id : ℕ
  pub admin_client_id : Bytes
  pub granted_at : ℕ

-- The tables, and the sequences of the `serial4` columns that the code reads.
pub record Tables : Type 0 where
  pub clients : List Client
  pub connection_events : List ConnectionEvent
  pub topics : List Topic
  pub admin_requests : List AdminRequest
  pub admin_sensor_config : List SensorConfig
  pub message_logs : List MessageLog
  pub subscriptions : List Subscription
  pub topic_admins : List TopicAdmin
  pub next_topic : ℕ
  pub next_request : ℕ
  pub next_subscription : ℕ

-- The database server: its tables, its clock, and, for each transaction to come, whether it fails
-- for a reason outside the tables (no connection, a refused text, a lost commit).
pub record Server : Type 0 where
  pub tables : Tables
  pub clock : ℕ
  pub faults : List Bool

-- How the body of a method's `try` block ends: with `commit`, by a `return` without it (the
-- destructor of `pqxx::work` then rolls back), or by an exception.
pub data Outcome {ℓ} (A : Type ℓ) : Type ℓ where
  commit : A → Tables → Outcome A
  rollback : A → Outcome A
  raise : Outcome A

abbrev pub next_fault : List Bool → Bool
next_fault [] = false
next_fault (f ∷ fs) = f

abbrev pub later_faults : List Bool → List Bool
later_faults [] = []
later_faults (f ∷ fs) = fs

module _ {ℓ} {A : Type ℓ} where
  abbrev settle : A → Server → Outcome A → A × Server
  settle failed s (commit a t) = (a, record s { tables = t })
  settle failed s (rollback a) = (a, s)
  settle failed s raise = (failed, s)

  -- One method: lock, connect, run the body in a transaction; `catch` returns `failed`.
  unfoldable pub transaction : A → (ℕ → Tables → Outcome A) → Server → A × Server
  transaction failed body s =
      let s' = record s { faults = later_faults s.faults } in
      if next_fault s.faults then (failed, s') else settle failed s' (body s.clock s.tables)

  -- `if (result.empty()) ...`, and otherwise its first row.
  abbrev pub first_row {κ} : {R : Type κ} → List R → A → (R → A) → A
  first_row [] missing found = missing
  first_row (r ∷ rs) missing found = found r

  settle-keeps {κ} :
      (P : Tables → Type κ) (failed : A) (s : Server) (o : Outcome A)
      → P s.tables
      → ((a : A) (t : Tables) → o ≡ commit a t → P t)
      → P (settle failed s o).1.tables
  settle-keeps P failed s (commit a t) h k = k a t refl
  settle-keeps P failed s (rollback a) h k = h
  settle-keeps P failed s raise h k = h

  -- A property of the tables that the committed bodies keep is kept by the method.
  pub transaction-keeps {κ} :
      (P : Tables → Type κ) (failed : A) (body : ℕ → Tables → Outcome A) (s : Server)
      → P s.tables
      → ((a : A) (t : Tables) → body s.clock s.tables ≡ commit a t → P t)
      → P (transaction failed body s).1.tables
  unfolding transaction
  transaction-keeps P failed body s h k = elim (Bool-cases (next_fault s.faults)) [
    | inl e ↦ rw (e, transaction) h
    | inr e ↦ rw (e, transaction) (settle-keeps P failed _ (body s.clock s.tables) h k)
  ]
