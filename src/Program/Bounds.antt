-- ===== src/Program/Bounds.antt =====
-- What the options of src/main.cpp can be, and the broker that they start.
use tinymq_broker.Base.{
  ℕ, ◌^◌, ◌<◌, ◌≡◌, Bytes, true, ◌&&◌, not, Option, List, [], ◌∷◌, ◌==◌, nat_equality,
  bytes_equality, is_empty, codes, arith, inl, inr, Bool-cases, Option-cases,
}
use mathlib.Core.Path.{subst}
use tinymq_broker.Db.Tables.{Server}
use tinymq_broker.Db.Schema.{Postgres, initialize}
use tinymq_broker.Broker.World.{Session, Handle}
use tinymq_broker.Broker.Lifecycle.{
  Limits, threads_made, construct, start_client_activity_check, open_database, launch, start,
}
use tinymq_broker.Program.Options.{
  pos, negsuc, ℤ, to_unsigned, Options, default_options, stoi, Parsed, runs, help, throws,
  parse_arguments, pool_of, boot,
}

to_unsigned_16 : (n : ℤ) → to_unsigned 16 n < 2 ^ 16
unfolding to_unsigned
to_unsigned_16 (pos n) = ground arith
to_unsigned_16 (negsuc n) = omega arith

to_unsigned_64 : (n : ℤ) → to_unsigned 64 n < 2 ^ 64
unfolding to_unsigned
to_unsigned_64 (pos n) = ground arith
to_unsigned_64 (negsuc n) = omega arith

abbrev IsBounded : Options → Type 0
IsBounded o = (o.port < 2 ^ 16) × (o.thread_pool_size < 2 ^ 64)

abbrev AreBounded : Parsed → Type 0
AreBounded (runs o) = IsBounded o
AreBounded help = Unit
AreBounded throws = Unit

parse_arguments-keeps :
    (o : Options) (args : List Bytes) → IsBounded o → AreBounded (parse_arguments o args)
unfolding parse_arguments
parse_arguments-keeps o [] b = b
parse_arguments-keeps o (arg ∷ []) b = elim (Bool-cases (arg == codes "--help")) [
  | inl e ↦ rw e tt
  | inr e ↦ rw e b
]
parse_arguments-keeps o (arg ∷ value ∷ args) b = elim (Bool-cases (arg == codes "--port")) [
  | inl e ↦ elim (Option-cases (stoi value)) [
    | inl f ↦ rw (e, f, parse_arguments) tt
    | inr (n, f) ↦
        rw (e, f, parse_arguments)
          (parse_arguments-keeps (record o { port = to_unsigned 16 n }) args
            (to_unsigned_16 n, b.1))
  ]
  | inr e ↦ elim (Bool-cases (arg == codes "--threads")) [
    | inl g ↦ elim (Option-cases (stoi value)) [
      | inl f ↦ rw (e, g, f, parse_arguments) tt
      | inr (n, f) ↦
          rw (e, g, f, parse_arguments)
            (parse_arguments-keeps (record o { thread_pool_size = to_unsigned 64 n }) args
              (b.0, to_unsigned_64 n))
    ]
    | inr g ↦ elim (Bool-cases (arg == codes "--db")) [
      | inl h ↦
          rw (e, g, h, parse_arguments)
            (parse_arguments-keeps (record o { db_connection_str = value }) args b)
      | inr h ↦ elim (Bool-cases (arg == codes "--help")) [
        | inl i ↦ rw (e, g, h, i, parse_arguments) tt
        | inr i ↦ rw (e, g, h, i, parse_arguments) (parse_arguments-keeps o (value ∷ args) b)
      ]
    ]
  ]
]

-- Whatever the arguments, the options with which the broker is run have a port of 16 bits and a number
-- of threads of 64 bits.
pub parse_arguments-IsBounded :
    (args : List Bytes) (o : Options)
    → parse_arguments default_options args ≡ runs o
    → (o.port < 2 ^ 16) × (o.thread_pool_size < 2 ^ 64)
parse_arguments-IsBounded args o e =
    subst AreBounded e (parse_arguments-keeps default_options args (omega arith, omega arith))

-- The broker that `main` makes and starts runs, accepts connections, and has as many threads as could
-- be started; it uses the database, and checks the activity of clients, just if there is a connection
-- string and the database could be opened with its tables.
pub boot_lem :
    {S : Type 0} (pg : Postgres S) (schema_file : Option Bytes) (limits : Limits) (o : Options)
    (objects : Handle → Session) (server : Server) (time : ℕ)
    → let m = boot pg schema_file limits o objects server time in
      let db = not (is_empty o.db_connection_str) && initialize pg schema_file in
      (m.running ≡ true)
      × (m.accepting ≡ true)
      × (m.workers ≡ threads_made (pool_of limits o))
      × (m.world.has_database ≡ db)
      × (m.timer ≡ db)
unfolding construct start launch open_database start_client_activity_check
boot_lem pg schema_file limits o objects server time = ground arith
