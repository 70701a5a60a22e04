-- ===== src/Database/Migrate.antt =====
-- db/src/migrate.ts: waitForDatabase, which tries to connect a bounded number of times. Whether an
-- attempt reaches the database is a parameter.
use frontdesk_intake.Prelude.{
  ℕ, zero, suc, ◌+◌, ◌≤◌, ◌<◌, Bool, false, ◌≡◌, refl, leb, nat_beq, if◌then◌else◌, arith,
  Bool-cases, Option, none, some, inl, inr, ◌⊎◌, ◌≢◌, subst, le→leb,
}
use frontdesk_intake.Database.Tx.{Outcome, ok, err, Error}

abbrev pub default_attempts : ℕ
default_attempts = 30

-- one round: the attempt's own outcome, else the last error, else what the later rounds give
abbrev next_attempt :
    Bool → Outcome (Unit {0}) → Option (Outcome (Unit {0})) → Option (Outcome (Unit {0}))
next_attempt last (ok done) later = some (ok done)
next_attempt last (err e) later = if last then some (err e) else later

module _ (connect : ℕ → Outcome (Unit {0})) where
  -- The `for` loop from an attempt on, on fuel; `none` when the fuel runs out.
  unfoldable pub attempt_from : ℕ → ℕ → ℕ → Option (Outcome (Unit {0}))
  attempt_from zero attempt attempts = none
  attempt_from (suc fuel) attempt attempts =
      let later = attempt_from fuel (attempt + 1) attempts in
      if leb attempt attempts
      then next_attempt (nat_beq attempt attempts) (connect attempt) later
      else some (ok tt)

  unfoldable pub wait_for_database : ℕ → Option (Outcome (Unit {0}))
  unfolding attempt_from
  wait_for_database attempts = attempt_from (attempts + 1) 1 attempts

  cases : (r : Outcome (Unit {0})) → (r ≡ ok tt) ⊎ ((e : Error) × (r ≡ err e))
  cases (ok done) = inl refl
  cases (err e) = inr (e, refl)

  attempt_from-reached :
      (fuel attempt attempts n : ℕ)
      → attempts < attempt + fuel
      → attempt ≤ n
      → n ≤ attempts
      → connect n ≡ ok tt
      → attempt_from fuel attempt attempts ≡ some (ok tt)
  unfolding attempt_from
  attempt_from-reached zero attempt attempts n enough low high here =
      absurd (omega (arith, enough, low, high))
  attempt_from-reached (suc fuel) attempt attempts n enough low high here =
      rw (le→leb attempt attempts (omega (arith, low, high))) (elim (cases (connect attempt)) [
        | inl now ↦ rw now refl
        | inr (e, refused) ↦
            let differs : attempt ≢ n =
              (λ same. cc (subst (λ x. connect x ≡ err e) same refused, here)) in
            let not_last : nat_beq attempt attempts ≡ false = ground (arith, differs, low, high) in
            rw refused (
              rw not_last (
                attempt_from-reached fuel (attempt + 1) attempts n (omega (arith, enough))
                  (omega (arith, low, differs)) high here))
      ])

  attempt_from-refused :
      (fuel attempt attempts : ℕ) (e : Error)
      → attempts < attempt + fuel
      → 1 ≤ attempt
      → attempt ≤ attempts
      → ((n : ℕ) → 1 ≤ n → n < attempts → (f : Error) × (connect n ≡ err f))
      → connect attempts ≡ err e
      → attempt_from fuel attempt attempts ≡ some (err e)
  unfolding attempt_from
  attempt_from-refused zero attempt attempts e enough first low all_refused last =
      absurd (omega (arith, enough, low))
  attempt_from-refused (suc fuel) attempt attempts e enough first low all_refused last =
      rw (le→leb attempt attempts low) (elim (Bool-cases (nat_beq attempt attempts)) [
        | inl same ↦
            let is_last : attempts ≡ attempt = ground (arith, same) in
            rw same (rw (subst (λ x. connect x ≡ err e) is_last last) refl)
        | inr more ↦
            let earlier : attempt < attempts = ground (arith, more, low) in
            let (f, refused) = all_refused attempt first earlier in
            rw more (
              rw refused (
                attempt_from-refused fuel (attempt + 1) attempts e (omega (arith, enough))
                  (omega arith) (omega (arith, earlier)) all_refused last))
      ])

  -- If one of the attempts reaches the database, the wait ends without an error.
  pub wait_for_database-reached :
      (attempts n : ℕ)
      → 1 ≤ n
      → n ≤ attempts
      → connect n ≡ ok tt
      → wait_for_database attempts ≡ some (ok tt)
  unfolding wait_for_database
  wait_for_database-reached attempts n low high here =
      attempt_from-reached (attempts + 1) 1 attempts n (omega arith) low high here

  -- If each attempt, of at least one, is refused, the wait ends with the error of the last one.
  pub wait_for_database-refused :
      (attempts : ℕ) (e : Error)
      → 1 ≤ attempts
      → ((n : ℕ) → 1 ≤ n → n < attempts → (f : Error) × (connect n ≡ err f))
      → connect attempts ≡ err e
      → wait_for_database attempts ≡ some (err e)
  unfolding wait_for_database
  wait_for_database-refused attempts e low all_refused last =
      attempt_from-refused (attempts + 1) 1 attempts e (omega arith) (omega arith) low all_refused
        last
