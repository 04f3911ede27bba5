-- ===== src/Transaction/Follows.antt =====
-- What one step makes of the error with which its attempt fails.
use foundationdb_effect.Prelude.{
  ℕ, ◌+◌, ◌≡◌, inl, inr, refl, subst, Bool, true, false, ◌||◌, ◌&&◌, Option, none, some, List,
  Bool-cases,
}
use foundationdb_effect.Prelude.Result.{Result, ok, err}
use foundationdb_effect.Transaction.{
  Step, finished, again, step, after_attempt, after_failure, after_ranges, after_on_error,
  next_ranges,
}
use foundationdb_effect.Transaction.Values.{
  FoundationDbError, Cause, ConflictRange, TransactionAttempt, TransactionOptions, is_some_false,
  Driver, single_failure,
}
use foundationdb_effect.Transaction.History.{failure_of, says_maybe, attempt_failure}

-- What a step makes of the error of its attempt.
abbrev pub Follows :
    {W A E : Type 0}
    → TransactionOptions
    → TransactionAttempt
    → Option FoundationDbError
    → Step W A E
    → Type 0
Follows options this f (finished _ m _) = m ≡ (this.maybe_committed || says_maybe f)
Follows options this f (again next _) =
    (next.attempt ≡ this.attempt + 1)
    × (next.maybe_committed ≡ (this.maybe_committed || says_maybe f))
    × (e : FoundationDbError) × (f ≡ some e)
    × ((e.maybe_committed && is_some_false options.retry_on_maybe_committed) ≡ false)

or_false : (b : Bool) → b ≡ (b || false)
or_false true = refl
or_false false = refl

module _ {W A E : Type 0} (driver : Driver W) (cancel : W → W)
    (program : ℕ → TransactionAttempt → W → Result (Cause E) A × W) (options : TransactionOptions)
    (handle : ℕ) where
  after_on_error-Follows :
      (this : TransactionAttempt) (failure : FoundationDbError) (ranges : List ConflictRange)
      (answer : Result {0} FoundationDbError Unit × W)
      → (failure.maybe_committed && is_some_false options.retry_on_maybe_committed) ≡ false
      → Follows options this (some failure) (
          after_on_error driver cancel program options handle this
            (this.maybe_committed || failure.maybe_committed)
            ranges
            answer)
  after_on_error-Follows this failure ranges (ok _, w) go = (refl, refl, failure, refl, go)
  after_on_error-Follows this failure ranges (err _, w) go = refl

  after_ranges-Follows :
      (this : TransactionAttempt) (failure : FoundationDbError)
      (ranges : Result FoundationDbError (List ConflictRange) × W)
      → (failure.maybe_committed && is_some_false options.retry_on_maybe_committed) ≡ false
      → Follows options this (some failure) (
          after_ranges driver cancel program options handle this failure
            (this.maybe_committed || failure.maybe_committed)
            ranges)
  after_ranges-Follows this failure (err _, w) go = refl
  after_ranges-Follows this failure (ok ranges, w) go =
      after_on_error-Follows this failure ranges (driver.on_error handle failure w) go

  after_failure-Follows :
      (this : TransactionAttempt) (cause : Cause E) (commit_failed : Bool) (w : W)
      (failure : Option FoundationDbError)
      → Follows options this failure
          (after_failure driver cancel program options handle this cause commit_failed w failure)
  after_failure-Follows this cause commit_failed w none = or_false this.maybe_committed
  after_failure-Follows this cause commit_failed w (some failure) =
      elim (Bool-cases
        (failure.maybe_committed && is_some_false options.retry_on_maybe_committed)) [
          | inl stop ↦ rw stop refl
          | inr go ↦ rw go (
              after_ranges-Follows this failure
                (next_ranges driver cancel program options handle commit_failed w) go)
        ]

  after_attempt-Follows :
      (this : TransactionAttempt) (exit : Result (Cause E) (A × ℕ) × Bool × W)
      → Follows options this
          (failure_of exit.0)
          (after_attempt driver cancel program options handle this exit)
  after_attempt-Follows this (ok _, _, _) = or_false this.maybe_committed
  after_attempt-Follows this (err cause, commit_failed, w) =
      after_failure-Follows this cause commit_failed w (single_failure cause)

  pub step-Follows :
      (this : TransactionAttempt) (w : W) (s : Step W A E)
      → step driver cancel program options handle this w ≡ s
      → Follows options this (attempt_failure driver cancel program options handle this w) s
  unfolding step
  step-Follows this w s e =
      subst
        (λ s. Follows options this (attempt_failure driver cancel program options handle this w) s)
        e (after_attempt-Follows this _)
