-- ===== src/Program/Options.antt =====
-- src/main.cpp: the options of the command line, and what they make of the broker.
use tinymq_broker.Base.{
  not, zero, suc, ℕ, ◌-◌, ◌%◌, ◌^◌, Bytes, Bool, true, false, ◌&&◌, ◌||◌, Option, none, some, List,
  [], ◌∷◌, ◌==◌, nat_equality, bytes_equality, if◌then◌else◌, codes, nat_beq, ltb, is_digit,
}
use tinymq_broker.Db.Tables.{Server}
use tinymq_broker.Db.Schema.{Postgres}
use tinymq_broker.Broker.World.{Session, Handle}
use tinymq_broker.Broker.Listings.{leading_number}
use tinymq_broker.Broker.Lifecycle.{Limits, Pool, Machine, construct, start}

-- `std::isspace` in the C locale.
abbrev is_blank : ℕ → Bool
is_blank c = nat_beq c 32 || (ltb 8 c && ltb c 14)

-- An `int`: n, or -(n + 1).
pub data ℤ : Type 0 where
  pos : ℕ → ℤ
  negsuc : ℕ → ℤ

abbrev negated : ℕ → ℤ
negated zero = pos zero
negated (suc n) = negsuc n

-- The digits behind a sign, within the range of `int`.
unfoldable pub signed : Bool → Bytes → Option ℤ
signed negative [] = none
signed negative (c ∷ s) =
    let n = leading_number 0 (c ∷ s) in
    if not (is_digit c)
    then none
    else if negative
    then (if ltb (2 ^ 31) n then none else some (negated n))
    else (if ltb (2 ^ 31 - 1) n then none else some (pos n))

-- `std::stoi`, which throws where no number stands in front or where it is out of range.
unfoldable pub stoi : Bytes → Option ℤ
stoi [] = none
stoi (c ∷ s) = elim (is_blank c) [
  | true ↦ stoi s
  | false ↦
      if nat_beq c 45
      then signed true s
      else if nat_beq c 43
      then signed false s
      else signed false (c ∷ s)
]

-- `static_cast` to an unsigned type of w bits.
unfoldable pub to_unsigned : ℕ → ℤ → ℕ
to_unsigned w (pos n) = n % 2 ^ w
to_unsigned w (negsuc n) = 2 ^ w - 1 - n % 2 ^ w

pub record Options : Type 0 where
  pub port : ℕ
  pub thread_pool_size : ℕ
  pub db_connection_str : Bytes

abbrev pub default_options : Options
default_options = record { port = 1505; thread_pool_size = 4; db_connection_str = [] }

-- The loop over the arguments goes on to its end, is left with the help text, or by an exception of
-- `stoi`, which no `try` surrounds.
pub data Parsed : Type 0 where
  runs : Options → Parsed
  help throws : Parsed

-- An option without its value is ignored, and so is every other word.
unfoldable pub parse_arguments : Options → List Bytes → Parsed
parse_arguments o [] = runs o
parse_arguments o (arg ∷ []) = if arg == codes "--help" then help else runs o
parse_arguments o (arg ∷ value ∷ args) = elim (arg == codes "--port") [
  | true ↦ elim (stoi value) [
    | none ↦ throws
    | some n ↦ parse_arguments (record o { port = to_unsigned 16 n }) args
  ]
  | false ↦ elim (arg == codes "--threads") [
    | true ↦ elim (stoi value) [
      | none ↦ throws
      | some n ↦ parse_arguments (record o { thread_pool_size = to_unsigned 64 n }) args
    ]
    | false ↦ elim (arg == codes "--db") [
      | true ↦ parse_arguments (record o { db_connection_str = value }) args
      | false ↦ elim (arg == codes "--help") [
        | true ↦ help
        | false ↦ parse_arguments o (value ∷ args)
      ]
    ]
  ]
]

-- The pool that the constructor is given.
abbrev pub pool_of : Limits → Options → Pool
pool_of limits o = record { size = o.thread_pool_size; limits = limits }

-- The broker that `main` makes and starts.
abbrev pub boot :
    {S : Type 0}
    → Postgres S
    → Option Bytes
    → Limits
    → Options
    → (Handle → Session)
    → Server
    → ℕ
    → Machine
boot pg schema_file limits o objects server time =
    (start pg schema_file (pool_of limits o) (construct o.db_connection_str objects server time)).1
