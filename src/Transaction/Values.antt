-- ===== src/Transaction/Values.antt =====
-- The values of transactions: errors, causes, options and the native driver.
use Prim.Native.String.{String}
use foundationdb_effect.Prelude.{
  ℕ, Bool, true, false, ◌||◌, not, Option, none, some, List, [], ◌∷◌, if◌then◌else◌,
}
use foundationdb_effect.Prelude.Int.{ℤ}
use foundationdb_effect.Prelude.Result.{Result}
use foundationdb_effect.Bytes.{Bytes}

pub record FoundationDbError : Type 0 where
  pub operation : String
  pub code : ℤ
  pub message : String
  pub retryable : Bool
  pub maybe_committed : Bool
  pub retryable_not_committed : Bool

-- The reasons of a `Cause` of the effect library: an error of the client, another error of the
-- program, a defect or an interruption.
pub data Reason (E : Type 0) : Type 0 where
  client_failure : FoundationDbError → Reason E
  program_failure : E → Reason E
  defect : Reason E
  interruption : Reason E

abbrev pub Cause : Type 0 → Type 0
Cause E = List (Reason E)

-- `singleFoundationDbFailure`
abbrev pub single_failure : {E : Type 0} → Cause E → Option FoundationDbError
single_failure (client_failure e ∷ []) = some e
single_failure _ = none

-- `preserveMaybeCommitted`
abbrev pub preserve_maybe_committed : FoundationDbError → Bool → FoundationDbError
preserve_maybe_committed error maybe_committed =
    if not maybe_committed || error.maybe_committed
    then error
    else record error { maybe_committed = true; retryable_not_committed = false }

pub record ConflictRange : Type 0 where
  pub begin : Bytes
  pub end : Bytes

pub record TransactionAttempt : Type 0 where
  pub attempt : ℕ
  pub maybe_committed : Bool
  pub conflicting_key_ranges : List ConflictRange

pub record TransactionOptions : Type 0 where
  pub timeout_ms : Option ℕ
  pub retry_limit : Option ℕ
  pub max_retry_delay_ms : Option ℕ
  pub report_conflicting_keys : Option Bool
  pub retry_on_maybe_committed : Option Bool

-- `=== true` and `=== false` on an option that may not be given.
abbrev pub is_some_true : Option Bool → Bool
is_some_true (some true) = true
is_some_true _ = false

abbrev pub is_some_false : Option Bool → Bool
is_some_false (some false) = true
is_some_false _ = false

abbrev pub or_default {ℓ} : {A : Type ℓ} → Option A → Option A → Option A
or_default (some a) default = some a
or_default none default = default

-- `{ ...transactionDefaults, ...options }`
abbrev pub with_defaults : TransactionOptions → TransactionOptions → TransactionOptions
with_defaults options defaults = record {
  timeout_ms = or_default options.timeout_ms defaults.timeout_ms;
  retry_limit = or_default options.retry_limit defaults.retry_limit;
  max_retry_delay_ms = or_default options.max_retry_delay_ms defaults.max_retry_delay_ms;
  report_conflicting_keys =
      or_default options.report_conflicting_keys defaults.report_conflicting_keys;
  retry_on_maybe_committed =
      or_default options.retry_on_maybe_committed defaults.retry_on_maybe_committed;
}

pub data OptionName : Type 0 where
  timeout retry_limit_option max_retry_delay report_conflicting_keys_option : OptionName

-- The native driver on one database, whose state is a `W`; a handle is a number.
pub record Driver (W : Type 0) : Type 0 where
  pub open_transaction : W → Result FoundationDbError ℕ × W
  pub set_transaction_option : ℕ → OptionName → ℕ → W → Result {0} FoundationDbError Unit × W
  pub commit : ℕ → W → Result FoundationDbError ℕ × W
  pub get_conflicting_key_ranges : ℕ → W → Result FoundationDbError (List ConflictRange) × W
  pub on_error : ℕ → FoundationDbError → W → Result {0} FoundationDbError Unit × W
  pub close_transaction : ℕ → W → W
