-- ===== src/Transaction/Budget.antt =====
-- How many attempts there are where the client limits the retries.
use foundationdb_effect.Prelude.{
  ℕ, zero, suc, ◌≤◌, ◌<◌, ◌≡◌, ◌≢◌, inl, inr, refl, sym, subst, Bool, true, false, ◌&&◌, Option,
  none, some, List, arith, Bool-cases, if_true, if_false, length, none≢some,
}
use foundationdb_effect.Prelude.Result.{Result, ok, err}
use foundationdb_effect.Transaction.{
  Step, again, step, attempts, after_attempt, after_failure, after_ranges, after_on_error,
  next_ranges, run_program, commit_value,
}
use foundationdb_effect.Transaction.Values.{
  FoundationDbError, Cause, ConflictRange, TransactionAttempt, TransactionOptions, is_some_true,
  is_some_false, Driver, single_failure,
}
use foundationdb_effect.Transaction.Attempts.{
  Step-cases, attempts_finished, attempts_again, finished≢again,
}

-- Each answer of `onError` that lets the transaction try again spends some of its budget, of which
-- nothing else adds more, as `retryLimit` has it.
pub record Limited {W A E : Type 0} (driver : Driver W) (cancel : W → W)
    (program : ℕ → TransactionAttempt → W → Result (Cause E) A × W) (budget : W → ℕ) : Type 0 where
  pub spends :
      (handle : ℕ) (e : FoundationDbError) (w w' : W)
      → driver.on_error handle e w ≡ (ok tt, w')
      → budget w' < budget w
  pub commit_keeps : (handle : ℕ) (w : W) → budget (driver.commit handle w).1 ≤ budget w
  pub ranges_keep :
      (handle : ℕ) (w : W) → budget (driver.get_conflicting_key_ranges handle w).1 ≤ budget w
  pub cancel_keeps : (w : W) → budget (cancel w) ≤ budget w
  pub program_keeps :
      (handle : ℕ) (context : TransactionAttempt) (w : W)
      → budget (program handle context w).1 ≤ budget w

again-world :
    {W A E : Type 0} {this next : TransactionAttempt} {w w' : W}
    → ◌≡◌ {A = Step W A E} (again this w) (again next w')
    → w ≡ w'
again-world e = cc

module _ {W A E : Type 0} {driver : Driver W} {cancel : W → W}
    {program : ℕ → TransactionAttempt → W → Result (Cause E) A × W} {budget : W → ℕ}
    (limited : Limited driver cancel program budget) (options : TransactionOptions)
    (handle : ℕ) where
  on_error_spends :
      (this : TransactionAttempt) (m : Bool) (ranges : List ConflictRange) (e : FoundationDbError)
      (w : W) (answer : Result {0} FoundationDbError Unit × W) {next : TransactionAttempt} {w' : W}
      → driver.on_error handle e w ≡ answer
      → after_on_error driver cancel program options handle this m ranges answer ≡ again next w'
      → budget w' < budget w
  on_error_spends this m ranges e w (ok _, after) answered go =
      subst (λ w'. budget w' < budget w) (again-world go) (limited.spends handle e w after answered)
  on_error_spends this m ranges e w (err _, after) answered go = absurd (finished≢again go)

  ranges_spend :
      (this : TransactionAttempt) (failure : FoundationDbError) (m : Bool) (w : W)
      (ranges : Result FoundationDbError (List ConflictRange) × W) {next : TransactionAttempt}
      {w' : W}
      → budget ranges.1 ≤ budget w
      → after_ranges driver cancel program options handle this failure m ranges ≡ again next w'
      → budget w' < budget w
  ranges_spend this failure m w (ok ranges, after) less go = omega (
    arith,
    less,
    on_error_spends this m ranges failure after (driver.on_error handle failure after) refl go,
  )
  ranges_spend this failure m w (err _, after) less go = absurd (finished≢again go)

  next_ranges-kept :
      (commit_failed : Bool) (w : W)
      → budget (next_ranges driver cancel program options handle commit_failed w).1 ≤ budget w
  next_ranges-kept commit_failed w =
      elim (Bool-cases (commit_failed && is_some_true options.report_conflicting_keys)) [
        | inl asked ↦ rw asked (limited.ranges_keep handle w)
        | inr silent ↦ rw silent (omega arith)
      ]

  failure_spends :
      (this : TransactionAttempt) (cause : Cause E) (commit_failed : Bool) (w : W)
      (failure : Option FoundationDbError) {next : TransactionAttempt} {w' : W}
      → after_failure driver cancel program options handle this cause commit_failed w failure
        ≡ again next w'
      → budget w' < budget w
  failure_spends this cause commit_failed w none go = absurd (finished≢again go)
  failure_spends this cause commit_failed w (some failure) go =
      elim (Bool-cases
        (failure.maybe_committed && is_some_false options.retry_on_maybe_committed)) [
          | inl stop ↦ absurd (finished≢again (if_true _ _ stop go))
          | inr on ↦
              ranges_spend this failure _ w _ (next_ranges-kept commit_failed w)
                (if_false _ _ on go)
        ]

  commit_spends :
      (this : TransactionAttempt) (value : A) (w : W) (answer : Result FoundationDbError ℕ × W)
      {next : TransactionAttempt} {w' : W}
      → budget answer.1 ≤ budget w
      → after_attempt driver cancel program options handle this
          (commit_value driver cancel program options handle value answer)
        ≡ again next w'
      → budget w' < budget w
  commit_spends this value w (ok version, after) less go = absurd (finished≢again go)
  commit_spends this value w (err failure, after) less go =
      let less' = limited.cancel_keeps after in
      let spent = failure_spends this _ true (cancel after) (some failure) go in
      omega (arith, less, less', spent)

  program_spends :
      (this : TransactionAttempt) (w : W) (exit : Result (Cause E) A × W)
      {next : TransactionAttempt} {w' : W}
      → budget exit.1 ≤ budget w
      → after_attempt driver cancel program options handle this
          (run_program driver cancel program options handle exit)
        ≡ again next w'
      → budget w' < budget w
  program_spends this w (ok value, after) less go =
      let less' = limited.commit_keeps handle after in
      omega (arith, less, commit_spends this value after (driver.commit handle after) less' go)
  program_spends this w (err cause, after) less go =
      let less' = limited.cancel_keeps after in
      omega (
        arith,
        less,
        less',
        failure_spends this cause false (cancel after) (single_failure cause) go,
      )

  -- With more fuel than budget, the attempts come to an end, and they are no more than the budget and
  -- one.
  pub attempts_end :
      (fuel : ℕ) (this : TransactionAttempt) (w : W)
      → budget w < fuel
      → let run = attempts driver cancel program options handle fuel this w in
        (run.result ≢ none) × (length run.contexts ≤ suc (budget w))
  unfolding attempts step
  attempts_end zero this w l = absurd (omega (arith, l))
  attempts_end (suc fuel) this w l =
      elim (Step-cases (step driver cancel program options handle this w)) [
        | inl (r, m, w', e) ↦
            rw (attempts_finished driver cancel program options handle fuel this w e)
              (λ none_some. none≢some (sym none_some), omega arith)
        | inr (next, w', e) ↦
            let spent =
              program_spends this w (program handle this w) (limited.program_keeps handle this w)
                e in
            let (ended, few) = attempts_end fuel next w' (omega (arith, l, spent)) in
            rw (attempts_again driver cancel program options handle fuel this w e)
              (ended, omega (arith, few, spent))
      ]
