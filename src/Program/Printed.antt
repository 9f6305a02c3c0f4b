-- ===== src/Program/Printed.antt =====
-- The numbers that src/main.cpp writes with std::to_string, read again as options of the command line.
use tinymq_broker.Base.{
  zero, suc, ℕ, ◌+◌, ◌*◌, ◌-◌, ◌/◌, ◌%◌, ◌^◌, ◌<◌, ◌≡◌, refl, Bytes, true, some, List, [], ◌∷◌,
  bytes_equality, bytes_beq, nat_equality, codes, ltb, is_digit, arith, inl, inr, Bool-cases,
}
use mathlib.Core.Path.{subst}
use tinymq_broker.Broker.Listings.{leading_number}
use tinymq_broker.Program.Terminal.{digits_onto, to_string}
use tinymq_broker.Program.Options.{pos, signed, stoi, to_unsigned, Options, parse_arguments, runs}

zero_plus : (n : ℕ) → 0 * 10 + n ≡ n
zero_plus n = omega arith

quotient_remainder : (n : ℕ) → n / 10 * 10 + n % 10 ≡ n
quotient_remainder n = omega arith

digit-IsDigit : (d : ℕ) → d < 10 → is_digit (48 + d) ≡ true
digit-IsDigit d l = ground arith

leading_number-digit :
    (a d : ℕ) (s : Bytes) → d < 10 → leading_number a ((48 + d) ∷ s) ≡ leading_number (a * 10 + d) s
unfolding leading_number
leading_number-digit a d s l = rw (digit-IsDigit d l, plus_digit) refl
  where
    plus_digit : a * 10 + (48 + d - 48) ≡ a * 10 + d
    plus_digit = omega arith

-- The digits of a number n below the fuel, in front of s, begin with a digit, and are read as n.
leading_number-digits_onto :
    (fuel n : ℕ) (s : Bytes)
    → n < fuel
    → leading_number 0 (digits_onto fuel n s) ≡ leading_number n s
unfolding digits_onto
leading_number-digits_onto zero n s l = absurd (omega arith)
leading_number-digits_onto (suc fuel) n s l = elim (Bool-cases (ltb n 10)) [
  | inl e ↦ rw (digits_onto, e, leading_number-digit 0 n s (ground arith), zero_plus n) refl
  | inr e ↦
      let f = leading_number-digits_onto fuel (n / 10) ((48 + n % 10) ∷ s) (ground arith) in
      let g = leading_number-digit (n / 10) (n % 10) s (omega arith) in
      rw (digits_onto, e, f, g, quotient_remainder n) refl
]

digits_onto-digit :
    (fuel n : ℕ) (s : Bytes)
    → n < fuel
    → (d : ℕ) × (t : Bytes) × (d < 10) × (digits_onto fuel n s ≡ (48 + d) ∷ t)
unfolding digits_onto
digits_onto-digit zero n s l = absurd (omega arith)
digits_onto-digit (suc fuel) n s l = elim (Bool-cases (ltb n 10)) [
  | inl e ↦ (n, s, ground arith, rw (digits_onto, e) refl)
  | inr e ↦
      let (d, t, k, f) = digits_onto-digit fuel (n / 10) ((48 + n % 10) ∷ s) (ground arith) in
      (d, t, k, rw (digits_onto, e) f)
]

stoi-digit :
    (d : ℕ) (s : Bytes)
    → d < 10
    → leading_number 0 ((48 + d) ∷ s) < 2 ^ 31
    → stoi ((48 + d) ∷ s) ≡ some (pos (leading_number 0 ((48 + d) ∷ s)))
unfolding stoi signed
stoi-digit d s l k = ground (arith, digit-IsDigit d l)

stoi-to_string : (n : ℕ) → n < 2 ^ 31 → stoi (to_string n) ≡ some (pos n)
unfolding leading_number
stoi-to_string n l =
    let (d, t, k, e) = digits_onto-digit (suc n) n [] (omega arith) in
    let f =
      subst (λ s. leading_number 0 s ≡ n) e
        (leading_number-digits_onto (suc n) n [] (omega arith)) in
    rw (e, stoi-digit d t k (rw f l), f) refl

to_unsigned-port : (n : ℕ) → n < 2 ^ 16 → to_unsigned 16 (pos n) ≡ n
unfolding to_unsigned
to_unsigned-port n l = omega arith

to_unsigned-threads : (n : ℕ) → n < 2 ^ 31 → to_unsigned 64 (pos n) ≡ n
unfolding to_unsigned
to_unsigned-threads n l = omega arith

parse_arguments-port :
    (o : Options) (n : ℕ) (s : Bytes) (args : List Bytes)
    → stoi s ≡ some (pos n)
    → parse_arguments o (codes "--port" ∷ s ∷ args)
      ≡ parse_arguments (record o { port = to_unsigned 16 (pos n) }) args
unfolding parse_arguments bytes_beq
parse_arguments-port o n s args e = rw (parse_arguments, e) refl

parse_arguments-threads :
    (o : Options) (n : ℕ) (s : Bytes) (args : List Bytes)
    → stoi s ≡ some (pos n)
    → parse_arguments o (codes "--threads" ∷ s ∷ args)
      ≡ parse_arguments (record o { thread_pool_size = to_unsigned 64 (pos n) }) args
unfolding parse_arguments bytes_beq
parse_arguments-threads o n s args e = rw (parse_arguments, e) refl

parse_arguments-db :
    (o : Options) (s : Bytes)
    → parse_arguments o (codes "--db" ∷ s ∷ []) ≡ runs (record o { db_connection_str = s })
unfolding parse_arguments bytes_beq
parse_arguments-db o s = refl

-- The command line that sets all three options.
abbrev pub arguments_of : Options → List Bytes
arguments_of o =
    codes "--port"
    ∷ to_string o.port
    ∷ codes "--threads"
    ∷ to_string o.thread_pool_size
    ∷ codes "--db"
    ∷ o.db_connection_str
    ∷ []

-- A command line of --port and --threads with the numbers as `std::to_string` writes them, and of --db
-- with the connection string, sets just these options, whatever they were before; the port fits 16
-- bits, and the number of threads is below 2 ^ 31.
pub parse_arguments-arguments_of :
    (before o : Options)
    → o.port < 2 ^ 16
    → o.thread_pool_size < 2 ^ 31
    → parse_arguments before (arguments_of o) ≡ runs o
parse_arguments-arguments_of before o l k =
    rw
      (
        parse_arguments-port before o.port _ _ (stoi-to_string o.port (omega arith)),
        parse_arguments-threads (record before { port = to_unsigned 16 (pos o.port) })
            o.thread_pool_size _ _ (stoi-to_string o.thread_pool_size k),
        parse_arguments-db _ o.db_connection_str,
        to_unsigned-port o.port l,
        to_unsigned-threads o.thread_pool_size k,
      )
      refl
