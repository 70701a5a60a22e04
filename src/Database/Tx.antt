-- ===== src/Database/Tx.antt =====
-- Statements run on a connection: the value of `app.org_id` that the policies read, and the tables.
-- An error is thrown by the program, or by the database for a policy or a constraint.
use frontdesk_intake.Prelude.{ℕ, String, Option, none, some, ◌≡◌, refl, ap}
use frontdesk_intake.Database.Rows.{Database}

pub data Error : Type 0 where
  thrown : String → Error
  row_security : String → Error
  constraint : String → Error

pub data Outcome {ℓ} (A : Type ℓ) : Type ℓ where
  ok : A → Outcome A
  err : Error → Outcome A

-- What one transaction does, with `app.org_id` set for the whole of it.
abbrev pub Tx : Type 0 → Type 0
Tx A = Option String → Database → Outcome A × Database

module _ {A : Type 0} where
  unfoldable pub pure : A → Tx A
  pure a guc s = (ok a, s)

  -- `throw new Error(message)`
  unfoldable pub throw : String → Tx A
  throw message guc s = (err (thrown message), s)

  -- `if (!found) throw new Error(message)`
  unfoldable pub or_throw : Option A → String → Tx A
  or_throw none message = throw message
  or_throw (some a) message = pure a

  -- db.transaction: an error rolls every table back.
  abbrev pub settle : Database → Outcome A × Database → Outcome A × Database
  settle s (ok a, s') = (ok a, s')
  settle s (err e, s') = (err e, s)

module _ {A B : Type 0} where
  abbrev pub continue : Outcome A → (A → Tx B) → Tx B
  continue (ok a) f guc s = f a guc s
  continue (err e) f guc s = (err e, s)

  infixl 10 ◌>>=◌ ◌>>◌
  unfoldable pub ◌>>=◌ : Tx A → (A → Tx B) → Tx B
  unfolding pure throw or_throw
  ◌>>=◌ m f guc s = let (r, s') = m guc s in continue r f guc s'

  abbrev pub ◌>>◌ : Tx A → Tx B → Tx B
  m >> n = m >>= λ _. n

  -- a statement that succeeds hands its value and its tables to the rest
  pub bind_of_ok :
      (m : Tx A) (f : A → Tx B) (guc : Option String) (s t : Database) (a : A)
      → m guc s ≡ (ok a, t)
      → (m >>= f) guc s ≡ f a guc t
  unfolding ◌>>=◌
  bind_of_ok m f guc s t a h = ap (λ (r : Outcome A × Database). continue r.0 f guc r.1) h

  continue-ok :
      (f : A → Tx B) (guc : Option String) (r : Outcome A × Database) (t : Database) (b : B)
      → continue r.0 f guc r.1 ≡ (ok b, t)
      → (a : A) × (u : Database) × (r ≡ (ok a, u)) × (f a guc u ≡ (ok b, t))
  continue-ok f guc (ok a, u) t b h = (a, u, refl, h)
  continue-ok f guc (err e, u) t b h = cc

  -- what succeeds as a whole succeeded in each part
  pub bind-ok :
      (m : Tx A) (f : A → Tx B) (guc : Option String) (s t : Database) (b : B)
      → (m >>= f) guc s ≡ (ok b, t)
      → (a : A) × (u : Database) × (m guc s ≡ (ok a, u)) × (f a guc u ≡ (ok b, t))
  unfolding ◌>>=◌
  bind-ok m f guc s t b h = continue-ok f guc (m guc s) t b h

-- `await`: the rest runs unless an error was thrown.
abbrev pub and_then : {A B S : Type 0} → Outcome A × S → (A → S → Outcome B × S) → Outcome B × S
and_then (err e, s) f = (err e, s)
and_then (ok a, s) f = f a s

pub and_then_assoc :
    {A B C S : Type 0} (r : Outcome A × S) (f : A → S → Outcome B × S) (g : B → S → Outcome C × S)
    → and_then (and_then r f) g ≡ and_then r (λ a s. and_then (f a s) g)
and_then_assoc (err e, s) f g = refl
and_then_assoc (ok a, s) f g = refl

-- What the surroundings hand to one run of an operation: the process's clock, the database's
-- `now()`, and the identifiers that it draws, in the order of the draws.
pub record Supply : Type 0 where
  pub new_date : ℕ
  pub now : ℕ
  pub uuid : ℕ → String
