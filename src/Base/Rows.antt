-- ===== src/Base/Rows.antt =====
-- The effect of SQL clauses on a table: a list of rows, oldest first.
use Prim.Native.Nat.{◌≤◌}
use mathlib.Core.Bool.{Bool, true, false, not}
use mathlib.Core.List.{List, [], ◌∷◌, ◌++◌, map}
use mathlib.Core.Option.{Option, none, some}
use mathlib.Core.Path.{◌≡◌, refl}
use mathlib.Core.Logic.{inl, inr}
use native.Mathlib.Omega.{arith}
use tinymq_broker.Base.Text.{is_empty}
use tinymq_broker.Base.Lists.{All, length, length-append}
use tinymq_broker.Base.Tests.{if◌then◌else◌, Bool-cases}

module _ {ℓ} {A : Type ℓ} where
  -- `SELECT ... WHERE p`.
  unfoldable pub select : (A → Bool) → List A → List A
  select p [] = []
  select p (x ∷ xs) = if p x then x ∷ select p xs else select p xs

  -- `UPDATE ... SET f WHERE p`.
  unfoldable pub update_where : (A → Bool) → (A → A) → List A → List A
  update_where p f [] = []
  update_where p f (x ∷ xs) = (if p x then f x else x) ∷ update_where p f xs

  -- `DELETE ... WHERE p`.
  unfoldable pub delete_where : (A → Bool) → List A → List A
  delete_where p [] = []
  delete_where p (x ∷ xs) = if p x then delete_where p xs else x ∷ delete_where p xs

  -- Whether `SELECT 1 ... WHERE p` returns a row.
  abbrev pub has_row : (A → Bool) → List A → Bool
  has_row p xs = not (is_empty (select p xs))

  pub select-append :
      (p : A → Bool) (xs ys : List A) → select p (xs ++ ys) ≡ select p xs ++ select p ys
  unfolding select
  select-append p [] ys = refl
  select-append p (x ∷ xs) ys = ground (arith, select-append p xs ys)

  -- What was deleted is not found.
  pub select-delete_self : (p : A → Bool) (xs : List A) → select p (delete_where p xs) ≡ []
  unfolding select delete_where
  select-delete_self p [] = refl
  select-delete_self p (x ∷ xs) = ground (arith, select-delete_self p xs)

  pub length-select-delete-le :
      (p q : A → Bool) (xs : List A) → length (select p (delete_where q xs)) ≤ length (select p xs)
  unfolding select delete_where
  length-select-delete-le p q [] = omega arith
  length-select-delete-le p q (x ∷ xs) = ground (arith, length-select-delete-le p q xs)

  -- A deletion leaves the rows of a disjoint condition.
  pub select-delete_disjoint :
      (p q : A → Bool) (xs : List A)
      → ((x : A) → p x ≡ true → q x ≡ false)
      → select p (delete_where q xs) ≡ select p xs
  unfolding select delete_where
  select-delete_disjoint p q [] h = refl
  select-delete_disjoint p q (x ∷ xs) h = ground (arith, h x, select-delete_disjoint p q xs h)

  -- Every selected row satisfies the condition.
  pub All-select : (p : A → Bool) (xs : List A) → All (λ x. p x ≡ true) (select p xs)
  unfolding select
  All-select p [] = tt
  All-select p (x ∷ xs) = ground (arith, All-select p xs)

module _ {ℓ} {A : Type ℓ} where
  unfoldable pub insert_by : (A → A → Bool) → A → List A → List A
  insert_by before x [] = x ∷ []
  insert_by before x (y ∷ ys) = if before x y then x ∷ y ∷ ys else y ∷ insert_by before x ys

  -- `ORDER BY`; rows that compare equal stay in the order of the table.
  unfoldable pub order_by : (A → A → Bool) → List A → List A
  unfolding insert_by
  order_by before [] = []
  order_by before (x ∷ xs) = insert_by before x (order_by before xs)

module _ {ℓ κ} {A : Type ℓ} {B : Type κ} where
  abbrev pair_with : A → List B → List (A × B)
  pair_with a [] = []
  pair_with a (b ∷ bs) = (a, b) ∷ pair_with a bs

  -- `FROM xs JOIN ys ON on`.
  unfoldable pub join : (A → B → Bool) → List A → List B → List (A × B)
  join on [] ys = []
  join on (x ∷ xs) ys = pair_with x (select (on x) ys) ++ join on xs ys

  abbrev pair_left : A → List B → List (A × Option B)
  pair_left a [] = (a, none) ∷ []
  pair_left a (b ∷ bs) = map (λ (c : B). (a, some c)) (b ∷ bs)

  -- `FROM xs LEFT JOIN ys ON on`.
  unfoldable pub left_join : (A → B → Bool) → List A → List B → List (A × Option B)
  left_join on [] ys = []
  left_join on (x ∷ xs) ys = pair_left x (select (on x) ys) ++ left_join on xs ys

module _ {ℓ} {A : Type ℓ} where
  -- An update that does not touch what a condition reads leaves the number of rows that meet it.
  pub length-select-update :
      (p q : A → Bool) (f : A → A) (xs : List A)
      → ((x : A) → p (f x) ≡ p x)
      → length (select p (update_where q f xs)) ≡ length (select p xs)
  unfolding select update_where
  length-select-update p q f [] h = refl
  length-select-update p q f (x ∷ xs) h = ground (arith, h x, length-select-update p q f xs h)

  -- A new row that alone meets the condition, or that does not meet it, keeps it unique.
  pub length-select-insert_le :
      (p : A → Bool) (xs : List A) (r : A)
      → length (select p xs) ≤ 1
      → (p r ≡ true → select p xs ≡ [])
      → length (select p (xs ++ r ∷ [])) ≤ 1
  unfolding select
  length-select-insert_le p xs r h new = elim (Bool-cases (p r)) [
    | inl e ↦ rw (select-append p xs (r ∷ []), new e, select, e) (omega arith)
    | inr e ↦
        rw (select-append p xs (r ∷ []))
          (rw (e, select) (omega (arith, length-append (select p xs) [])))
  ]

  pub has_row-false : (p : A → Bool) (xs : List A) → has_row p xs ≡ false → select p xs ≡ []
  has_row-false p xs h = ground arith

  pub has_row-append :
      (p : A → Bool) (xs : List A) (r : A) → p r ≡ true → has_row p (xs ++ r ∷ []) ≡ true
  unfolding select
  has_row-append p [] r h = ground arith
  has_row-append p (x ∷ xs) r h = ground (arith, has_row-append p xs r h)

  -- Two conditions that agree select the same rows.
  pub select_congr :
      (p q : A → Bool) (xs : List A) → ((x : A) → p x ≡ q x) → select p xs ≡ select q xs
  unfolding select
  select_congr p q [] h = refl
  select_congr p q (x ∷ xs) h = ground (arith, h x, select_congr p q xs h)

  -- No row meets a stronger condition where none meets the weaker one.
  pub select_none :
      (p q : A → Bool) (xs : List A)
      → ((x : A) → p x ≡ true → q x ≡ true)
      → select q xs ≡ []
      → select p xs ≡ []
  unfolding select
  select_none p q [] h e = refl
  select_none p q (x ∷ xs) h e = ground (arith, h x, select_none p q xs h)

  pub All-update {κ} :
      (P : A → Type κ) (q : A → Bool) (f : A → A) (xs : List A)
      → ((x : A) → P x → P (f x))
      → All P xs
      → All P (update_where q f xs)
  unfolding update_where
  All-update P q f [] h a = tt
  All-update P q f (x ∷ xs) h a = elim (Bool-cases (q x)) [
    | inl e ↦ rw e (h x a.0, All-update P q f xs h a.1)
    | inr e ↦ rw e (a.0, All-update P q f xs h a.1)
  ]

  pub All-weaken {κ μ} :
      (P : A → Type κ) (Q : A → Type μ) (xs : List A) → ((x : A) → P x → Q x) → All P xs → All Q xs
  All-weaken P Q [] h a = tt
  All-weaken P Q (x ∷ xs) h a = (h x a.0, All-weaken P Q xs h a.1)

  -- Where one row at most meets the weaker condition, a row that meets the stronger one is it.
  pub select_stronger :
      (p q : A → Bool) (xs : List A) (r : A) (rs : List A)
      → ((x : A) → p x ≡ true → q x ≡ true)
      → length (select q xs) ≤ 1
      → select p xs ≡ r ∷ rs
      → select q xs ≡ r ∷ []
  unfolding select
  select_stronger p q [] r rs h u e = cc
  select_stronger p q (x ∷ xs) r rs h u e =
      grind (arith, h x, select_none p q xs h, select_stronger p q xs r rs h)

  pub selected-holds :
      (p : A → Bool) (xs : List A) (r : A) (rs : List A) → select p xs ≡ r ∷ rs → p r ≡ true
  unfolding select
  selected-holds p [] r rs e = cc
  selected-holds p (x ∷ xs) r rs e = elim (Bool-cases (p x)) [
    | inl f ↦ grind (arith, select)
    | inr f ↦ selected-holds p xs r rs (ground arith)
  ]

  -- A row that is selected is found under any condition that it meets.
  pub has_row-selected :
      (p q : A → Bool) (xs : List A) (r : A) (rs : List A)
      → select p xs ≡ r ∷ rs
      → q r ≡ true
      → has_row q xs ≡ true
  unfolding select
  has_row-selected p q [] r rs e h = cc
  has_row-selected p q (x ∷ xs) r rs e h = grind (arith, has_row-selected p q xs r rs)

  -- A row that is updated is found under any condition that the update makes it meet.
  pub has_row-update :
      (p q : A → Bool) (f : A → A) (xs : List A)
      → ((x : A) → p x ≡ true → q (f x) ≡ true)
      → has_row p xs ≡ true
      → has_row q (update_where p f xs) ≡ true
  unfolding select update_where
  has_row-update p q f [] h e = ground arith
  has_row-update p q f (x ∷ xs) h e = ground (arith, h x, has_row-update p q f xs h)
