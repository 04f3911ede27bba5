-- ===== src/Transaction.antt =====
-- src/FoundationDb.ts: `withTransactionResult`, the attempts of a transaction and their retries.
pub mod Values
pub mod Attempts
pub mod History
pub mod Follows
pub mod Contexts
pub mod Ends
pub mod Commits
pub mod Budget
mod Tests
use foundationdb_effect.Prelude.{
  ℕ, zero, suc, ◌+◌, Bool, true, false, ◌||◌, ◌&&◌, Option, none, some, List, [], ◌∷◌,
  if◌then◌else◌,
}
use foundationdb_effect.Prelude.Result.{Result, ok, err}
use foundationdb_effect.Transaction.Values.{
  FoundationDbError, Cause, client_failure, single_failure, preserve_maybe_committed, ConflictRange,
  TransactionAttempt, TransactionOptions, is_some_true, is_some_false, with_defaults, Driver,
  OptionName, timeout, retry_limit_option, max_retry_delay, report_conflicting_keys_option,
}

-- What one attempt comes to: an end, with the flag of the telemetry, or the next attempt.
pub data Step (W A E : Type 0) : Type 0 where
  finished : Result (Cause E) (A × ℕ) → Bool → W → Step W A E
  again : TransactionAttempt → W → Step W A E

-- A run of attempts: its end, unless there was too little fuel, and the contexts in which the program
-- ran, in order.
pub record Run (W A E : Type 0) : Type 0 where
  pub result : Option (Result (Cause E) (A × ℕ))
  pub maybe_committed : Bool
  pub contexts : List TransactionAttempt
  pub world : W

-- `driver.setTransactionOption`, where the option is given.
module _ {W : Type 0} (driver : Driver W) (handle : ℕ) where
  abbrev pub set_option :
      OptionName
      → Option ℕ
      → Result {0} FoundationDbError Unit × W
      → Result {0} FoundationDbError Unit × W
  set_option name none before = before
  set_option name (some value) (err e, w) = (err e, w)
  set_option name (some value) (ok _, w) = driver.set_transaction_option handle name value w

  -- `setOptions`
  unfoldable pub set_options : TransactionOptions → W → Result {0} FoundationDbError Unit × W
  set_options options w =
      set_option report_conflicting_keys_option
        (if is_some_true options.report_conflicting_keys then some 1 else none)
        (set_option max_retry_delay options.max_retry_delay_ms (
          set_option retry_limit_option options.retry_limit
            (set_option timeout options.timeout_ms (ok tt, w))))

abbrev pub add_context : {W A E : Type 0} → TransactionAttempt → Run W A E → Run W A E
add_context this run = record run { contexts = this ∷ run.contexts }

-- The program is a function of the handle, of the context and of the world; `cancel` cancels the
-- futures that it left to its commit.
module _ {W A E : Type 0} (driver : Driver W) (cancel : W → W)
    (program : ℕ → TransactionAttempt → W → Result (Cause E) A × W) (options : TransactionOptions)
    (handle : ℕ) where
  -- The commit of an attempt, and `commitFailed`.
  abbrev pub commit_value : A → Result FoundationDbError ℕ × W → Result (Cause E) (A × ℕ) × Bool × W
  commit_value value (ok version, w) = (ok (value, version), false, w)
  commit_value value (err e, w) = (err (client_failure e ∷ []), true, cancel w)

  -- `runAttempt`
  abbrev pub run_program : Result (Cause E) A × W → Result (Cause E) (A × ℕ) × Bool × W
  run_program (ok value, w) = commit_value value (driver.commit handle w)
  run_program (err cause, w) = (err cause, false, cancel w)

  -- `driver.onError`
  abbrev pub after_on_error :
      TransactionAttempt
      → Bool
      → List ConflictRange
      → Result {0} FoundationDbError Unit × W
      → Step W A E
  after_on_error this next_maybe_committed ranges (ok _, w) =
      again
        (record {
          attempt = this.attempt + 1;
          maybe_committed = next_maybe_committed;
          conflicting_key_ranges = ranges;
        })
        w
  after_on_error this next_maybe_committed ranges (err e, w) =
      finished (err (client_failure (preserve_maybe_committed e next_maybe_committed) ∷ []))
        next_maybe_committed w

  -- `nextConflictingKeyRanges`
  abbrev pub next_ranges : Bool → W → Result FoundationDbError (List ConflictRange) × W
  next_ranges commit_failed w =
      if commit_failed && is_some_true options.report_conflicting_keys
      then driver.get_conflicting_key_ranges handle w
      else (ok [], w)

  abbrev pub after_ranges :
      TransactionAttempt
      → FoundationDbError
      → Bool
      → Result FoundationDbError (List ConflictRange) × W
      → Step W A E
  after_ranges this failure next_maybe_committed (err e, w) =
      finished (err (client_failure e ∷ [])) next_maybe_committed w
  after_ranges this failure next_maybe_committed (ok ranges, w) =
      after_on_error this next_maybe_committed ranges (driver.on_error handle failure w)

  -- `onFailure`
  abbrev pub after_failure :
      TransactionAttempt → Cause E → Bool → W → Option FoundationDbError → Step W A E
  after_failure this cause commit_failed w none = finished (err cause) this.maybe_committed w
  after_failure this cause commit_failed w (some failure) =
      let next_maybe_committed = this.maybe_committed || failure.maybe_committed in
      if failure.maybe_committed && is_some_false options.retry_on_maybe_committed
      then finished (err cause) next_maybe_committed w
      else after_ranges this failure next_maybe_committed (next_ranges commit_failed w)

  abbrev pub after_attempt : TransactionAttempt → Result (Cause E) (A × ℕ) × Bool × W → Step W A E
  after_attempt this (ok result, _, w) = finished (ok result) this.maybe_committed w
  after_attempt this (err cause, commit_failed, w) =
      after_failure this cause commit_failed w (single_failure cause)

  unfoldable pub step : TransactionAttempt → W → Step W A E
  step this w = after_attempt this (run_program (program handle this w))

  -- `attempt`
  unfoldable pub attempts : ℕ → TransactionAttempt → W → Run W A E
  attempts zero this w = record {
    result = none;
    maybe_committed = this.maybe_committed;
    contexts = [];
    world = w;
  }
  attempts (suc fuel) this w = elim (step this w) [
    | finished result maybe_committed w' ↦ record {
      result = some result;
      maybe_committed = maybe_committed;
      contexts = this ∷ [];
      world = w';
    }
    | again next w' ↦ add_context this (attempts fuel next w')
  ]

abbrev pub first_attempt : TransactionAttempt
first_attempt = record { attempt = 1; maybe_committed = false; conflicting_key_ranges = [] }

abbrev pub failed_run : {W A E : Type 0} → FoundationDbError → W → Run W A E
failed_run e w = record {
  result = some (err (client_failure e ∷ []));
  maybe_committed = false;
  contexts = [];
  world = w;
}

module _ {W A E : Type 0} (driver : Driver W) (cancel : W → W)
    (program : ℕ → TransactionAttempt → W → Result (Cause E) A × W) where
  -- The run, then the release of the handle.
  abbrev pub close_after : ℕ → Run W A E → Run W A E
  close_after handle run = record run { world = driver.close_transaction handle run.world }

  abbrev pub use_handle :
      ℕ → TransactionOptions → ℕ → Result {0} FoundationDbError Unit × W → Run W A E
  use_handle fuel options handle (err e, w) = failed_run e w
  use_handle fuel options handle (ok _, w) =
      attempts driver cancel program options handle fuel first_attempt w

  abbrev pub use_transaction : ℕ → TransactionOptions → Result FoundationDbError ℕ × W → Run W A E
  use_transaction fuel options (err e, w) = failed_run e w
  use_transaction fuel options (ok handle, w) =
      close_after handle (use_handle fuel options handle (set_options driver handle options w))

  -- `withTransactionResult`
  unfoldable pub with_transaction_result :
      ℕ → TransactionOptions → TransactionOptions → W → Run W A E
  with_transaction_result fuel transaction_defaults options w =
      use_transaction fuel (with_defaults options transaction_defaults) (driver.open_transaction w)
