-- ===== src/Transaction/Tests.antt =====
-- Transactions on a client whose commits fail as a list says, and which retries so many times.
use foundationdb_effect.Prelude.{
  ℕ, zero, suc, ◌≤◌, ◌<◌, ◌≡◌, ◌≢◌, refl, sym, ap, true, false, none, some, List, [], ◌∷◌, arith,
  length,
}
use foundationdb_effect.Prelude.Int.{pos}
use foundationdb_effect.Prelude.Result.{Result, ok, err}
use foundationdb_effect.Transaction.{
  step, attempts, with_transaction_result, first_attempt, set_options,
}
use foundationdb_effect.Transaction.Values.{
  FoundationDbError, Cause, TransactionAttempt, TransactionOptions, Driver,
}
use foundationdb_effect.Transaction.History.{attempt_failures, history}
use foundationdb_effect.Transaction.Contexts.{
  Numbered, Excluded, with_transaction_result_certain, with_transaction_result-Numbered,
}
use foundationdb_effect.Transaction.Ends.{with_transaction_result_tells}
use foundationdb_effect.Transaction.Commits.{
  last_context, Committed, with_transaction_result-Committed,
}
use foundationdb_effect.Transaction.Budget.{Limited, attempts_end}

abbrev World : Type 0
World = ℕ × List FoundationDbError

abbrev commit_unknown : FoundationDbError
commit_unknown = record {
  operation = "commit";
  code = pos 1021;
  message = "";
  retryable = true;
  maybe_committed = true;
  retryable_not_committed = false;
}

abbrev conflict : FoundationDbError
conflict = record {
  operation = "commit";
  code = pos 1020;
  message = "";
  retryable = true;
  maybe_committed = false;
  retryable_not_committed = true;
}

abbrev commit_next : ℕ → World → Result FoundationDbError ℕ × World
commit_next handle (left, []) = (ok 9, (left, []))
commit_next handle (left, e ∷ es) = (err e, (left, es))

abbrev retry_once : ℕ → FoundationDbError → World → Result {0} FoundationDbError Unit × World
retry_once handle e (zero, es) = (err conflict, (0, es))
retry_once handle e (suc left, es) = (ok tt, (left, es))

abbrev client : Driver World
client = record {
  open_transaction = λ w. (ok 1, w);
  set_transaction_option = λ handle name value w. (ok tt, w);
  commit = commit_next;
  get_conflicting_key_ranges = λ handle w. (ok [], w);
  on_error = retry_once;
  close_transaction = λ handle w. w;
}

abbrev same_world : World → World
same_world w = w

abbrev return_attempt : ℕ → TransactionAttempt → World → Result (Cause ⊥) ℕ × World
return_attempt handle context w = (ok context.attempt, w)

abbrev no_options : TransactionOptions
no_options = record {
  timeout_ms = none;
  retry_limit = none;
  max_retry_delay_ms = none;
  report_conflicting_keys = none;
  retry_on_maybe_committed = none;
}

abbrev retry_certain : TransactionOptions
retry_certain = record no_options { retry_on_maybe_committed = some false }

abbrev two_failures : World
two_failures = (5, conflict ∷ commit_unknown ∷ [])

with_transaction_result_certain_example :
    Excluded
      (with_transaction_result client same_world return_attempt 9 no_options retry_certain
        two_failures).contexts
      (attempt_failures client same_world return_attempt 9 no_options retry_certain two_failures)
with_transaction_result_certain_example =
    with_transaction_result_certain client same_world return_attempt 9 no_options retry_certain
      two_failures refl

with_transaction_result-Numbered_example :
    let run =
      with_transaction_result client same_world return_attempt 9 no_options no_options
        two_failures in
    Numbered 1 false run.contexts
      (attempt_failures client same_world return_attempt 9 no_options no_options two_failures)
      run.maybe_committed
with_transaction_result-Numbered_example =
    with_transaction_result-Numbered client same_world return_attempt 9 no_options no_options
      two_failures

-- The errors of that run, of which the second stops it where a commit must be excluded.
two_failures_seen :
    attempt_failures client same_world return_attempt 9 no_options retry_certain two_failures
    ≡ some conflict ∷ some commit_unknown ∷ []
unfolding attempt_failures history step set_options
two_failures_seen = refl

with_transaction_result-Committed_example :
    (context : TransactionAttempt) × (last_context
        (with_transaction_result client same_world return_attempt 9 no_options no_options
          two_failures).contexts
      ≡ some context)
    × Committed client return_attempt context 3 9
unfolding with_transaction_result attempts step set_options
with_transaction_result-Committed_example =
    with_transaction_result-Committed client same_world return_attempt 9 no_options no_options
      two_failures 3 9 refl

abbrev conflict_after_unknown : FoundationDbError
conflict_after_unknown = record conflict { maybe_committed = true; retryable_not_committed = false }

with_transaction_result_tells_example : conflict_after_unknown.maybe_committed ≡ true
unfolding with_transaction_result attempts attempt_failures history step set_options
with_transaction_result_tells_example =
    with_transaction_result_tells client same_world return_attempt 9 no_options no_options
      (1, commit_unknown ∷ conflict ∷ []) refl conflict_after_unknown refl refl

err≢ok : ◌≡◌ {A = Result {0} FoundationDbError Unit} (err conflict) (ok tt) → ⊥
err≢ok e = cc

retry_once-Limited : Limited client same_world return_attempt (λ w. w.0)
retry_once-Limited = record {
  spends = spends;
  commit_keeps = commit_keeps;
  ranges_keep = λ handle w. omega arith;
  cancel_keeps = λ w. omega arith;
  program_keeps = λ handle context w. omega arith;
}
  where
    spends :
        (handle : ℕ) (e : FoundationDbError) (w w' : World)
        → retry_once handle e w ≡ (ok tt, w')
        → w'.0 < w.0
    spends handle e (zero, es) w' same = absurd (err≢ok (ap (λ p. p.0) same))
    spends handle e (suc left, es) w' same = omega (arith, sym (ap (λ p. p.1.0) same))

    commit_keeps : (handle : ℕ) (w : World) → (commit_next handle w).1.0 ≤ w.0
    commit_keeps handle (left, []) = omega arith
    commit_keeps handle (left, e ∷ es) = omega arith

attempts_end_example :
    let run = attempts client same_world return_attempt no_options 1 6 first_attempt two_failures in
    (run.result ≢ none) × (length run.contexts ≤ 6)
attempts_end_example =
    attempts_end retry_once-Limited no_options 1 6 first_attempt two_failures (omega arith)
