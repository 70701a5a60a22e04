-- ===== src/Database/Keeps.antt =====
-- Relations between the tables before and after a transaction's statements, one rule for each way
-- to join statements. The relation is reflexive and transitive; `guc` is the value of `app.org_id`.
use frontdesk_intake.Prelude.{String, Bool, true, false, Option, none, some, if◌then◌else◌}
use frontdesk_intake.Database.Rows.{Database}
use frontdesk_intake.Database.Tx.{Tx, Outcome, ok, err, pure, throw, or_throw, ◌>>=◌, continue}

-- `m` relates the tables before it to those after it, whether it returns or throws.
pub record Keeps (guc : Option String) (R : Database → Database → Type 0) {A : Type 0} (m : Tx A)
    : Type 0 where
  pub at : (s : Database) → R s (m guc s).1

module _ {guc : Option String} {R : Database → Database → Type 0}
    (R-refl : (s : Database) → R s s) where
  pub Keeps-pure : {A : Type 0} (a : A) → Keeps guc R (pure a)
  unfolding pure
  Keeps-pure a = record { at = R-refl }

  pub Keeps-throw : {A : Type 0} (message : String) → Keeps guc R (throw {A = A} message)
  unfolding throw
  Keeps-throw message = record { at = R-refl }

  pub Keeps-or_throw :
      {A : Type 0} (found : Option A) (message : String) → Keeps guc R (or_throw found message)
  unfolding or_throw
  Keeps-or_throw none message = Keeps-throw message
  Keeps-or_throw (some a) message = Keeps-pure a

module _ {guc : Option String} {R : Database → Database → Type 0}
    (R-trans : (s t u : Database) → R s t → R t u → R s u) where
  pub Keeps-bind :
      {A B : Type 0} (m : Tx A) (f : A → Tx B)
      → Keeps guc R m
      → ((a : A) → Keeps guc R (f a))
      → Keeps guc R (m >>= f)
  unfolding ◌>>=◌
  Keeps-bind m f hm hf = record { at = λ s. go (m guc s).0 (hm.at s) }
    where
      go : {s t : Database} (r : Outcome _) → R s t → R s (continue r f guc t).1
      go {s} {t} (ok a) h = R-trans s t _ h ((hf a).at t)
      go (err e) h = h

module _ {guc : Option String} {R : Database → Database → Type 0} where
  pub Keeps-if :
      {A : Type 0} (b : Bool) (m n : Tx A)
      → Keeps guc R m
      → Keeps guc R n
      → Keeps guc R (if b then m else n)
  Keeps-if true m n h k = h
  Keeps-if false m n h k = k
