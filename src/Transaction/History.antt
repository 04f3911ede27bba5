-- ===== src/Transaction/History.antt =====
-- The errors of the client with which the attempts of a run fail, as the program and the commit give
-- them, whatever `withTransactionResult` makes of them.
use foundationdb_effect.Prelude.{
  ℕ, zero, suc, ◌≡◌, refl, Bool, false, ◌||◌, Option, none, some, List, [], ◌∷◌,
}
use foundationdb_effect.Prelude.Result.{Result, ok, err}
use foundationdb_effect.Transaction.{
  finished, again, step, attempts, run_program, with_transaction_result, first_attempt, set_options,
  use_handle, use_transaction,
}
use foundationdb_effect.Transaction.Values.{
  FoundationDbError, Cause, TransactionAttempt, TransactionOptions, Driver, with_defaults,
  single_failure, client_failure,
}

-- The error of the client that a result fails with, where that is its only reason.
abbrev pub failure_of : {A E : Type 0} → Result (Cause E) A → Option FoundationDbError
failure_of (ok a) = none
failure_of (err cause) = single_failure cause

-- The error of the client says that its commit may have happened.
abbrev pub says_maybe : Option FoundationDbError → Bool
says_maybe none = false
says_maybe (some e) = e.maybe_committed

abbrev pub any_says_maybe : List (Option FoundationDbError) → Bool
any_says_maybe [] = false
any_says_maybe (f ∷ fs) = says_maybe f || any_says_maybe fs

module _ {W A E : Type 0} (driver : Driver W) (cancel : W → W)
    (program : ℕ → TransactionAttempt → W → Result (Cause E) A × W) (options : TransactionOptions)
    (handle : ℕ) where
  -- The error of the client with which one attempt fails.
  abbrev pub attempt_failure : TransactionAttempt → W → Option FoundationDbError
  attempt_failure this w =
      failure_of (run_program driver cancel program options handle (program handle this w)).0

  -- Those of the attempts from one on, in order.
  unfoldable pub history : ℕ → TransactionAttempt → W → List (Option FoundationDbError)
  history zero this w = []
  history (suc fuel) this w = elim (step driver cancel program options handle this w) [
    | finished _ _ _ ↦ attempt_failure this w ∷ []
    | again next w' ↦ attempt_failure this w ∷ history fuel next w'
  ]

  pub history_finished :
      (fuel : ℕ) (this : TransactionAttempt) (w : W) {result : Result (Cause E) (A × ℕ)} {m : Bool}
      {w' : W}
      → step driver cancel program options handle this w ≡ finished result m w'
      → history (suc fuel) this w ≡ attempt_failure this w ∷ []
  unfolding history
  history_finished fuel this w e = rw (e, history) refl

  pub history_again :
      (fuel : ℕ) (this : TransactionAttempt) (w : W) {next : TransactionAttempt} {w' : W}
      → step driver cancel program options handle this w ≡ again next w'
      → history (suc fuel) this w ≡ attempt_failure this w ∷ history fuel next w'
  unfolding history
  history_again fuel this w e = rw (e, history) refl

module _ {W A E : Type 0} (driver : Driver W) (cancel : W → W)
    (program : ℕ → TransactionAttempt → W → Result (Cause E) A × W) where
  abbrev handle_failures :
      ℕ
      → TransactionOptions
      → ℕ
      → Result {0} FoundationDbError Unit × W
      → List (Option FoundationDbError)
  handle_failures fuel options handle (err e, w) = []
  handle_failures fuel options handle (ok _, w) =
      history driver cancel program options handle fuel first_attempt w

  abbrev opened_failures :
      ℕ → TransactionOptions → Result FoundationDbError ℕ × W → List (Option FoundationDbError)
  opened_failures fuel options (err e, w) = []
  opened_failures fuel options (ok handle, w) =
      handle_failures fuel options handle (set_options driver handle options w)

  -- The errors of the client with which the attempts of a transaction fail, in order.
  unfoldable pub attempt_failures :
      ℕ → TransactionOptions → TransactionOptions → W → List (Option FoundationDbError)
  attempt_failures fuel transaction_defaults options w =
      opened_failures fuel (with_defaults options transaction_defaults) (driver.open_transaction w)

module _ {W A E : Type 0} (driver : Driver W) (cancel : W → W)
    (program : ℕ → TransactionAttempt → W → Result (Cause E) A × W) (fuel : ℕ)
    (transaction_defaults options : TransactionOptions) (w : W) where
  -- What holds of a run that could not begin, and of every run of attempts with its errors, holds of
  -- the whole.
  pub attempt_failures_of :
      (P : Option (Result (Cause E) (A × ℕ))
        → Bool
        → List TransactionAttempt
        → List (Option FoundationDbError)
        → Type 0)
      → ((e : FoundationDbError) → P (some (err (client_failure e ∷ []))) false [] [])
      → ((handle : ℕ) (w : W)
          → let chosen = with_defaults options transaction_defaults in
            let run = attempts driver cancel program chosen handle fuel first_attempt w in
            P run.result run.maybe_committed run.contexts
              (history driver cancel program chosen handle fuel first_attempt w))
      → let run =
          with_transaction_result driver cancel program fuel transaction_defaults options w in
        P run.result run.maybe_committed run.contexts
          (attempt_failures driver cancel program fuel transaction_defaults options w)
  unfolding with_transaction_result attempt_failures
  attempt_failures_of P failed ran = used (driver.open_transaction w)
    where
      chosen : TransactionOptions
      chosen = with_defaults options transaction_defaults

      handled :
          (handle : ℕ) (ready : Result {0} FoundationDbError Unit × W)
          → let run = use_handle driver cancel program fuel chosen handle ready in
            P run.result run.maybe_committed run.contexts
              (handle_failures driver cancel program fuel chosen handle ready)
      handled handle (ok _, w) = ran handle w
      handled handle (err e, w) = failed e

      used :
          (opened : Result FoundationDbError ℕ × W)
          → let run = use_transaction driver cancel program fuel chosen opened in
            P run.result run.maybe_committed run.contexts
              (opened_failures driver cancel program fuel chosen opened)
      used (ok handle, w) = handled handle (set_options driver handle chosen w)
      used (err e, w) = failed e
