-- ===== src/Admission/Retry.antt =====
-- `runAdmissionTransactionWithRetry` of lib/jobs/crawl-admission.ts. The operation acts on a state
-- that holds whatever other requests change between two attempts.
use growth_sent.Prelude.{
  ℕ, zero, suc, ◌+◌, ◌≤◌, ◌≡◌, ◌⊎◌, Bool, true, false, not, ◌||◌, ◌==◌, arith, Result, ok, err,
}
use growth_sent.Admission.{Failure, contention, duplicate_key, other, transaction_max_attempts}

abbrev pub can_retry_admission_transaction : Failure → Bool
can_retry_admission_transaction contention = true
can_retry_admission_transaction duplicate_key = true
can_retry_admission_transaction _ = false

module _ {S A : Type 0} (operation : S → Result Failure A × S) where
  -- The loop with the attempts that are left. It never reaches the end: its last attempt throws.
  attempt : ℕ → S → Result Failure A × S
  attempt zero s = (err other, s)
  attempt (suc left) s = elim (operation s).0 [
    | ok a ↦ (ok a, (operation s).1)
    | err e ↦ elim (not (can_retry_admission_transaction e) || left == 0) [
      | true ↦ (err e, (operation s).1)
      | false ↦ attempt left (operation s).1
    ]
  ]

  unfoldable pub run_admission_transaction_with_retry : S → Result Failure A × S
  unfolding attempt
  run_admission_transaction_with_retry s = attempt transaction_max_attempts s

  -- What a run that began after `before` calls may say: a success or a definite error after one to
  -- `left` calls, an error that can be retried only after all of them.
  abbrev pub Outcome : ℕ → ℕ → ℕ → Result Failure A → Type 0
  Outcome left before after (ok a) = (before + 1 ≤ after) × (after ≤ before + left)
  Outcome left before after (err e) =
      (before + 1 ≤ after)
      × (after ≤ before + left)
      × ((can_retry_admission_transaction e ≡ false) ⊎ (after ≡ before + left))

  module _ (calls : S → ℕ) (counted : (s : S) → calls (operation s).1 ≡ calls s + 1) where
    attempt-Outcome :
        (left : ℕ) (s : S)
        → Outcome (suc left) (calls s) (calls (attempt (suc left) s).1) (attempt (suc left) s).0
    unfolding attempt
    attempt-Outcome zero s = ground (arith, counted s)
    attempt-Outcome (suc left) s = ground (arith, counted s, attempt-Outcome left (operation s).1)

    -- If the state counts the calls of the operation, then the operation is called at least once and
    -- at most three times; a success or an error that is no race is returned as it is, and a race is
    -- reported only after the third call.
    pub retry_bounded :
        (s : S)
        → Outcome 3
            (calls s)
            (calls (run_admission_transaction_with_retry s).1)
            (run_admission_transaction_with_retry s).0
    unfolding run_admission_transaction_with_retry
    retry_bounded s = attempt-Outcome 2 s

-- A transaction that throws leaves the database as it was.
abbrev pub transaction : {S A : Type 0} → (S → Result Failure (A × S)) → S → Result Failure A × S
transaction body s = elim (body s) [ ok (a, s') ↦ (ok a, s') | err e ↦ (err e, s) ]

module _ {S A : Type 0} (body : S → Result Failure (A × S)) where
  attempt-transaction :
      (left : ℕ) (s : S) → attempt (transaction body) (suc left) s ≡ transaction body s
  unfolding attempt
  attempt-transaction zero s = ground arith
  attempt-transaction (suc left) s = ground (arith, attempt-transaction left s)

  -- A transaction that no other request disturbs is decided by its first try.
  pub retry-transaction :
      (s : S) → run_admission_transaction_with_retry (transaction body) s ≡ transaction body s
  unfolding run_admission_transaction_with_retry
  retry-transaction s = attempt-transaction 2 s
