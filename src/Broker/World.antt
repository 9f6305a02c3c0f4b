-- ===== src/Broker/World.antt =====
-- The state that the broker and its sessions share, and the actions on it.
use tinymq_broker.Base.{
  ℕ, Bytes, String, Bool, Option, none, some, List, [], ◌∷◌, ◌++◌, nat_beq, if◌then◌else◌, lookup,
}
use tinymq_broker.Packet.{Packet}
use tinymq_broker.Db.Tables.{Server}

-- A `Session` object of src/session.h. `endpoint` is the address and the port of its socket, `none`
-- where asking for them throws.
pub record Session : Type 0 where
  pub client_id : Bytes
  pub is_authenticated : Bool
  pub is_open : Bool
  pub endpoint : Option (Bytes × ℕ)

-- A `std::shared_ptr<Session>` is a handle; two are equal if they point to one object.
abbrev pub Handle : Type 0
Handle = ℕ

-- The fields of `Broker` (src/broker.h), the session objects, the database server, the seconds of
-- `std::time`, and the packets handed to `async_write`, oldest first.
pub record World : Type 0 where
  pub objects : Handle → Session
  pub sessions : List (Bytes × Handle)
  pub topic_subscribers : List (Bytes × List Handle)
  pub topic_id_cache : List (Bytes × ℕ)
  pub has_database : Bool
  pub server : Server
  pub time : ℕ
  pub wire : List (Handle × Packet)

-- How a call ends: with a value, with a `std::exception`, or in undefined behaviour.
pub data Result {ℓ} (A : Type ℓ) : Type ℓ where
  ok : A → Result A
  thrown : Result A
  undefined : Result A

abbrev pub M {ℓ} : Type ℓ → Type ℓ
M A = World → Result A × World

module _ {ℓ κ} {A : Type ℓ} {B : Type κ} where
  abbrev pub continue : Result A → (A → M B) → M B
  continue (ok a) f w = f a w
  continue thrown f w = (thrown, w)
  continue undefined f w = (undefined, w)

  infixl 5 ◌>>=◌
  unfoldable pub ◌>>=◌ : M A → (A → M B) → M B
  ◌>>=◌ m f w = continue (m w).0 f (m w).1

infixl 5 ◌>>◌
unfoldable pub ◌>>◌ {ℓ} : {B : Type ℓ} → M (Unit {0}) → M B → M B
m >> k = m >>= λ _. k

module _ {ℓ} {A : Type ℓ} where
  abbrev pub pure : A → M A
  pure a w = (ok a, w)

  abbrev pub raise : M A
  raise w = (thrown, w)

  abbrev pub crash : M A
  crash w = (undefined, w)

  -- A value that a throwing expression may fail to give.
  abbrev pub or_throw : Option A → M A
  or_throw none = raise
  or_throw (some a) = pure a

  -- `try { m } catch (const std::exception &) { return a; }`.
  abbrev pub catch_with : A → M A → M A
  catch_with a m w = elim (m w).0 [
    | ok b ↦ (ok b, (m w).1)
    | thrown ↦ (ok a, (m w).1)
    | undefined ↦ (undefined, (m w).1)
  ]

  -- One call of the database manager.
  unfoldable pub database : (Server → A × Server) → M A
  database f w = (ok (f w.server).0, record w { server = (f w.server).1 })

  unfoldable pub gets : (World → A) → M A
  gets f w = (ok (f w), w)

unfoldable pub modify : (World → World) → M (Unit {0})
modify f w = (ok tt, f w)

-- `async_write` of the packet; how the write ends is an event of its own.
unfoldable pub send_packet : Handle → Packet → M (Unit {0})
send_packet h p w = (ok tt, record w { wire = w.wire ++ ((h, p) ∷ []) })

-- The same packet to each session, in order.
unfoldable pub send_each : List Handle → Packet → M (Unit {0})
send_each [] p = pure tt
send_each (h ∷ hs) p = do send_packet h p; send_each hs p

-- `sessions_.find(id)` under its lock.
abbrev pub find_session : Bytes → M (Option Handle)
find_session id = gets (λ w. lookup id w.sessions)

-- Writes to one session object.
unfoldable pub set_object : Handle → Session → (Handle → Session) → Handle → Session
set_object h o objects i = if nat_beq i h then o else objects i

-- A member of a JSON object that the broker writes.
pub data Field : Type 0 where
  text : Bytes → Field
  literal : String → Field
  flag : Bool → Field
  number : ℕ → Field
  rows : List (List (String × Bytes)) → Field

abbrev pub Document : Type 0
Document = List (String × Field)

-- A parsed JSON text, as the answers that it gives to the calls the broker makes; `none` where the
-- call throws.
pub record Value : Type 0 where
  pub contains : String → Bool
  pub get_bool : String → Option Bool
  pub get_string : String → Option Bytes

-- nlohmann::json: `parse` and `dump` throw on a text that is no JSON or no UTF-8.
pub record Json : Type 0 where
  pub parse : Bytes → Option Value
  pub dump : Document → Option Bytes
  pub dump_array : List Document → Option Bytes
