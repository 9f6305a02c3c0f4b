-- ===== src/Db/Schema.antt =====
-- `initialize` and `setup_schema` of src/db_manager.cpp: the first connection to the database, and the
-- attempt to create its tables. The state of a transaction is PostgreSQL's, and a parameter.
use tinymq_broker.Base.{
  ◌≡◌, refl, sym, ◌∙◌, inl, inr, Bool-cases, Option-cases, arith, Bytes, Bool, true, false, Option,
  none, some, ◌==◌, nat_equality, bytes_equality, if◌then◌else◌, is_empty, codes, [], ◌∷◌, ◌&&◌,
  ◌||◌, not, ltb, nat_beq, starts_with,
}

-- How a statement or a `commit` ends: with a new state of the transaction, by `pqxx::sql_error` with a
-- SQLSTATE, or by another exception.
pub data Executed (S : Type 0) : Type 0 where
  done : S → Executed S
  failed : Bytes → S → Executed S
  broken : Executed S

-- PostgreSQL behind pqxx: a connection (`none` where it throws, else `is_open`), a second one with its
-- transaction, and what that one answers.
pub record Postgres (S : Type 0) : Type 0 where
  pub connect : Option Bool
  pub open_transaction : Option S
  pub exec : Bytes → S → Executed S
  pub commit : S → Executed S

-- SQLSTATE of a missing table.
abbrev undefined_table : Bytes
undefined_table = codes "42P01"

abbrev pub probe : Bytes
probe = codes "SELECT 1 FROM public.clients LIMIT 1"

-- Whether the first command of a text, behind blanks and comments from `--` to the end of their line, is
-- CREATE, as that of db/schema.sql is; `commented` inside such a comment.
unfoldable pub begins_with_create : Bool → Bytes → Bool
begins_with_create commented [] = false
begins_with_create true (c ∷ s) = begins_with_create (not (nat_beq c 10)) s
begins_with_create false (c ∷ s) = elim (nat_beq c 32 || (ltb 8 c && ltb c 14)) [
  | true ↦ begins_with_create false s
  | false ↦ elim (starts_with (codes "--") (c ∷ s)) [
    | true ↦ begins_with_create true s
    | false ↦ starts_with (codes "CREATE") (c ∷ s)
  ]
]

abbrev pub IsCreating : Option Bytes → Type 0
IsCreating none = Unit
IsCreating (some sql) = begins_with_create false sql ≡ true

module _ {S : Type 0} (pg : Postgres S) where
  abbrev and_commit : Executed S → Executed S
  and_commit (done s) = pg.commit s
  and_commit (failed code s) = failed code s
  and_commit broken = broken

  -- The answer, and the state that was committed, if any.
  abbrev committed : Executed S → Bool × Option S
  committed (done s) = (true, some s)
  committed (failed code s) = (false, none)
  committed broken = (false, none)

  -- From the text of db/schema.sql, if the file can be opened.
  unfoldable pub create_schema : Option Bytes → S → Bool × Option S
  create_schema none s = (false, none)
  create_schema (some schema_sql) s =
      if is_empty schema_sql then (false, none) else committed (and_commit (pg.exec schema_sql s))

  -- The inner `try` and its `catch`, which stands for the commit of the probe too.
  abbrev after_probe : Option Bytes → Executed S → Bool × Option S
  after_probe schema_file (done s) = (true, some s)
  after_probe schema_file (failed sqlstate s) =
      if sqlstate == undefined_table then create_schema schema_file s else (false, none)
  after_probe schema_file broken = (false, none)

  unfoldable pub setup_schema : Option Bytes → Bool × Option S
  setup_schema schema_file = elim pg.open_transaction [
    | none ↦ (false, none)
    | some s ↦ after_probe schema_file (and_commit (pg.exec probe s))
  ]

  unfoldable pub initialize : Option Bytes → Bool
  initialize schema_file = elim pg.connect [
    | none ↦ false
    | some is_open ↦ if is_open then (setup_schema schema_file).0 else false
  ]

  abbrev pub is_refused : Executed S → Bool
  is_refused (done s) = false
  is_refused (failed code s) = true
  is_refused broken = true

  -- In a transaction in which a statement has failed, PostgreSQL refuses commands until it ends (only
  -- the commands that end it are accepted, which CREATE is not), and pqxx does after a `commit` that
  -- failed.
  pub record IsAborting : Type 0 where
    pub after_exec :
        (sql later code : Bytes) (s t : S)
        → pg.exec sql s ≡ failed code t
        → begins_with_create false later ≡ true
        → is_refused (pg.exec later t) ≡ true
    pub after_commit :
        (later code : Bytes) (s t : S)
        → pg.commit s ≡ failed code t
        → begins_with_create false later ≡ true
        → is_refused (pg.exec later t) ≡ true

  -- Refuses what creates.
  abbrev Refuses : S → Type 0
  Refuses t =
      (later : Bytes) → begins_with_create false later ≡ true → is_refused (pg.exec later t) ≡ true

  refused-committed :
      (e : Executed S) → is_refused e ≡ true → committed (and_commit e) ≡ (false, none)
  refused-committed (done s) r = ground arith
  refused-committed (failed code s) r = refl
  refused-committed broken r = refl

  create_schema-refused :
      (schema_file : Option Bytes) (t : S)
      → IsCreating schema_file
      → Refuses t
      → create_schema schema_file t ≡ (false, none)
  unfolding create_schema
  create_schema-refused none t c f = refl
  create_schema-refused (some sql) t c f = elim (Bool-cases (is_empty sql)) [
    | inl e ↦ rw e refl
    | inr e ↦ rw e (refused-committed (pg.exec sql t) (f sql c))
  ]

  after_probe-unread :
      (schema_file : Option Bytes) (e : Executed S)
      → IsCreating schema_file
      → ((code : Bytes) (t : S) → e ≡ failed code t → Refuses t)
      → after_probe schema_file e ≡ after_probe none e
  unfolding create_schema
  after_probe-unread schema_file (done s) c f = refl
  after_probe-unread schema_file (failed code t) c f =
      rw (create_schema-refused schema_file t c (f code t refl)) refl
  after_probe-unread schema_file broken c f = refl

  probed-refused :
      IsAborting
      → (e : Executed S) (s : S) → e ≡ pg.exec probe s
      → (code : Bytes) (t : S) → and_commit e ≡ failed code t
      → Refuses t
  probed-refused a (done u) s e code t f later c = a.after_commit later code u t f c
  probed-refused a (failed d u) s e code t f later c =
      a.after_exec probe later code s t (sym e ∙ f) c
  probed-refused a broken s e code t f later c = cc

  -- Where PostgreSQL refuses to create anything in a transaction in which a statement has failed
  -- (`IsAborting`), a schema file whose first command is CREATE is of no use: `setup_schema` answers and
  -- commits exactly what it does when there is no such file.
  pub setup_schema_never_creates :
      IsAborting
      → (schema_file : Option Bytes) → IsCreating schema_file
      → setup_schema schema_file ≡ setup_schema none
  unfolding setup_schema create_schema
  setup_schema_never_creates a schema_file c = elim (Option-cases pg.open_transaction) [
    | inl e ↦ rw e refl
    | inr (s, e) ↦ rw e (
        after_probe-unread schema_file (and_commit (pg.exec probe s)) c
          (probed-refused a (pg.exec probe s) s refl))
  ]
