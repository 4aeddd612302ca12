-- ===== src/Db/Rows.antt =====
-- What a query of internal/db answers, and the clauses that the statements share. A row order that
-- a statement leaves open is the order of insertion.
use cyandie_backend.Common.{
  ◌⊎◌, inl, inr, ℕ, String, Bool, true, false, Option, none, some, List, [], ◌∷◌, if◌then◌else◌,
  leb, str_eq, ◌≡◌, refl, ◌||◌, any, arith,
}
use cyandie_backend.Core.Errors.{Result, ok}

-- The (row, error) pair of a `:one` or `:many` query: a value with a nil error, `sql.ErrNoRows`, or
-- any other error.
pub data DbResult {ℓ} (A : Type ℓ) : Type ℓ where
  row : A → DbResult A
  no_rows : DbResult A
  failed : DbResult A

module _ {ℓ} {A : Type ℓ} where
  -- `QueryRowContext` and `Scan`.
  abbrev pub first_row : Option A → DbResult A
  first_row none = no_rows
  first_row (some a) = row a

  -- `err == nil`
  abbrev pub is_row : DbResult A → Bool
  is_row (row a) = true
  is_row no_rows = false
  is_row failed = false

  unfoldable pub insert_desc : (A → ℕ) → A → List A → List A
  insert_desc key x [] = x ∷ []
  insert_desc key x (y ∷ ys) = if leb (key y) (key x) then x ∷ y ∷ ys else y ∷ insert_desc key x ys

  -- `ORDER BY key DESC`
  unfoldable pub order_desc : (A → ℕ) → List A → List A
  unfolding insert_desc
  order_desc key [] = []
  order_desc key (x ∷ xs) = insert_desc key x (order_desc key xs)

pub DbResult-cases {ℓ} :
    {A : Type ℓ} (r : DbResult A) → ((a : A) × (r ≡ row a)) ⊎ ((r ≡ no_rows) ⊎ (r ≡ failed))
DbResult-cases (row a) = inl (a, refl)
DbResult-cases no_rows = inr (inl refl)
DbResult-cases failed = inr (inr refl)

-- The test of `any` does not see the order of rows.
pub any-insert_desc :
    {A : Type 0} (p : A → Bool) (key : A → ℕ) (x : A) (ys : List A)
    → any p (insert_desc key x ys) ≡ (p x || any p ys)
unfolding insert_desc
any-insert_desc p key x [] = refl
any-insert_desc p key x (y ∷ ys) = ground (arith, any-insert_desc p key x ys)

pub any-order_desc :
    {A : Type 0} (p : A → Bool) (key : A → ℕ) (xs : List A) → any p (order_desc key xs) ≡ any p xs
unfolding order_desc
any-order_desc p key [] = refl
any-order_desc p key (x ∷ xs) =
    ground (arith, any-insert_desc p key x (order_desc key xs), any-order_desc p key xs)

-- A query's value, or what the caller makes of its error.
abbrev pub row_or {ℓ} : {A : Type ℓ} → Result A → DbResult A → Result A
row_or e (row a) = ok a
row_or e no_rows = e
row_or e failed = e

-- The same where the caller asks for `sql.ErrNoRows` first.
abbrev pub row_or_missing {ℓ} : {A : Type ℓ} → Result A → Result A → DbResult A → Result A
row_or_missing missing e (row a) = ok a
row_or_missing missing e no_rows = missing
row_or_missing missing e failed = e

abbrev pub value_or {ℓ} : {A : Type ℓ} → Result A → Option A → Result A
value_or e none = e
value_or e (some a) = ok a

-- `sql.NullString{String: s, Valid: s != ""}`
abbrev pub null_string : String → Option String
null_string s = if str_eq s "" then none else some s

-- A UUID is its sixteen bytes, read as one number; this is `uuid.Nil`.
abbrev pub nil_uuid : ℕ
nil_uuid = 0
