-- ===== src/Db/Committed.antt =====
-- Rules for what a transaction's body may commit, one for each way to write a body.
use mathlib.Core.Path.{subst}
use tinymq_broker.Base.{ℕ, ◌≡◌, refl, ap, Bool, true, false, List, [], ◌∷◌, if◌then◌else◌}
use tinymq_broker.Db.Tables.{
  Tables, Server, Outcome, commit, rollback, raise, transaction, transaction-keeps, first_row,
}

-- Whatever is committed satisfies `P`.
pub record Committed {ℓ} {A : Type ℓ} (P : Tables → Type 0) (o : Outcome A) : Type ℓ where
  pub at : (a : A) (t : Tables) → o ≡ commit a t → P t

committed_tables {ℓ} : {A : Type ℓ} → Tables → Outcome A → Tables
committed_tables d (commit a t) = t
committed_tables d (rollback a) = d
committed_tables d raise = d

module _ {ℓ} {A : Type ℓ} {P : Tables → Type 0} where
  pub Committed-commit : (a : A) (t : Tables) → P t → Committed P (commit a t)
  unfolding committed_tables
  Committed-commit a t h = record { at = λ b u e. subst P (ap (committed_tables t) e) h }

  pub Committed-rollback : (a : A) → Committed P (rollback a)
  Committed-rollback a = record { at = λ b u e. cc }

  pub Committed-raise : Committed {A = A} P raise
  Committed-raise = record { at = λ b u e. cc }

  pub Committed-if :
      (b : Bool) (m n : Outcome A)
      → (b ≡ true → Committed P m)
      → (b ≡ false → Committed P n)
      → Committed P (if b then m else n)
  Committed-if true m n km kn = km refl
  Committed-if false m n km kn = kn refl

  pub Committed-first_row :
      {R : Type 0} (rows : List R) (missing : Outcome A) (found : R → Outcome A)
      → (rows ≡ [] → Committed P missing)
      → ((r : R) (rs : List R) → rows ≡ r ∷ rs → Committed P (found r))
      → Committed P (first_row rows missing found)
  Committed-first_row [] missing found km kf = km refl
  Committed-first_row (r ∷ rs) missing found km kf = kf r rs refl

module _ {ℓ} {A : Type ℓ} where
  pub transaction-Committed :
      (P : Tables → Type 0) (failed : A) (body : ℕ → Tables → Outcome A) (s : Server)
      → P s.tables
      → Committed P (body s.clock s.tables)
      → P (transaction failed body s).1.tables
  transaction-Committed P failed body s h c = transaction-keeps P failed body s h c.at
