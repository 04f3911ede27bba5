-- ===== src/Transaction/Commits.antt =====
-- Where the value of a transaction comes from.
use foundationdb_effect.Prelude.{
  ℕ, zero, suc, ◌≡◌, inl, inr, refl, ap, ◌∙◌, subst, Bool, true, false, ◌&&◌, Option, none, some,
  List, [], ◌∷◌, Bool-cases, none≢some, some-injective,
}
use foundationdb_effect.Prelude.Result.{Result, ok, err, ok-injective}
use foundationdb_effect.Transaction.{
  Step, finished, again, step, attempts, after_attempt, after_failure, after_ranges, after_on_error,
  next_ranges, run_program, commit_value, with_transaction_result, first_attempt,
}
use foundationdb_effect.Transaction.Values.{
  FoundationDbError, Cause, ConflictRange, TransactionAttempt, TransactionOptions, is_some_false,
  Driver, single_failure,
}
use foundationdb_effect.Transaction.History.{attempt_failures_of}
use foundationdb_effect.Transaction.Attempts.{Step-cases, attempts_finished, attempts_again}

finished-injective :
    {W A E : Type 0} {r r' : Result (Cause E) (A × ℕ)} {m m' : Bool} {w w' : W}
    → ◌≡◌ {A = Step W A E} (finished r m w) (finished r' m' w')
    → (r ≡ r') × (m ≡ m')
finished-injective e = (cc, cc)

-- The last of the contexts.
pub last_context : List TransactionAttempt → Option TransactionAttempt
last_context [] = none
last_context (c ∷ []) = some c
last_context (_ ∷ c ∷ cs) = last_context (c ∷ cs)

last_context_cons :
    (this : TransactionAttempt) (cs : List TransactionAttempt) {c : TransactionAttempt}
    → last_context cs ≡ some c
    → last_context (this ∷ cs) ≡ some c
unfolding last_context
last_context_cons this [] e = absurd (none≢some e)
last_context_cons this (_ ∷ _) e = e

-- The program returned a value in a context, and its commit a version.
pub record Committed {W A E : Type 0} (driver : Driver W)
    (program : ℕ → TransactionAttempt → W → Result (Cause E) A × W) (context : TransactionAttempt)
    (value : A) (version : ℕ) : Type 0 where
  pub handle : ℕ
  pub before : W
  pub after : W
  pub committed : W
  pub returned : program handle context before ≡ (ok value, after)
  pub accepted : driver.commit handle after ≡ (ok version, committed)

-- A step that does not end well.
abbrev Fails : {W A E : Type 0} → Step W A E → Type 0
Fails (finished (ok _) _ _) = ⊥
Fails (finished (err _) _ _) = Unit
Fails (again _ _) = Unit

module _ {W A E : Type 0} (driver : Driver W) (cancel : W → W)
    (program : ℕ → TransactionAttempt → W → Result (Cause E) A × W) (options : TransactionOptions)
    (handle : ℕ) where
  after_on_error-Fails :
      (this : TransactionAttempt) (m : Bool) (ranges : List ConflictRange)
      (answer : Result {0} FoundationDbError Unit × W)
      → Fails (after_on_error driver cancel program options handle this m ranges answer)
  after_on_error-Fails this m ranges (ok _, w) = tt
  after_on_error-Fails this m ranges (err e, w) = tt

  after_ranges-Fails :
      (this : TransactionAttempt) (failure : FoundationDbError) (m : Bool)
      (ranges : Result FoundationDbError (List ConflictRange) × W)
      → Fails (after_ranges driver cancel program options handle this failure m ranges)
  after_ranges-Fails this failure m (ok ranges, w) =
      after_on_error-Fails this m ranges (driver.on_error handle failure w)
  after_ranges-Fails this failure m (err e, w) = tt

  after_failure-Fails :
      (this : TransactionAttempt) (cause : Cause E) (commit_failed : Bool) (w : W)
      (failure : Option FoundationDbError)
      → Fails
          (after_failure driver cancel program options handle this cause commit_failed w failure)
  after_failure-Fails this cause commit_failed w none = tt
  after_failure-Fails this cause commit_failed w (some failure) =
      elim (Bool-cases
        (failure.maybe_committed && is_some_false options.retry_on_maybe_committed)) [
          | inl stop ↦ rw stop tt
          | inr go ↦ rw go (
              after_ranges-Fails this failure _
                (next_ranges driver cancel program options handle commit_failed w))
        ]

  commit_step :
      (this : TransactionAttempt) (value : A) (w : W) (answer : Result FoundationDbError ℕ × W)
      {value' : A} {version : ℕ} {m : Bool} {w' : W}
      → after_attempt driver cancel program options handle this
          (commit_value driver cancel program options handle value answer)
        ≡ finished (ok (value', version)) m w'
      → (value ≡ value') × (committed : W) × (answer ≡ (ok version, committed))
  commit_step this value w (ok version, committed) e =
      let same = ok-injective (finished-injective e).0 in
      (ap (λ p. p.0) same, committed, ap (λ p. (ok p.1, committed)) same)
  commit_step this value w (err failure, w') e =
      absurd (subst (λ s. Fails s) e (after_failure-Fails this _ true _ (some failure)))

  program_step :
      (this : TransactionAttempt) (before : W) (exit : Result (Cause E) A × W) {value : A}
      {version : ℕ} {m : Bool} {w' : W}
      → program handle this before ≡ exit
      → after_attempt driver cancel program options handle this
          (run_program driver cancel program options handle exit)
        ≡ finished (ok (value, version)) m w'
      → Committed driver program this value version
  program_step this before (ok value, after) returned e =
      let (same, committed, accepted) =
        commit_step this value after (driver.commit handle after) e in
      record {
        handle = handle;
        before = before;
        after = after;
        committed = committed;
        returned = returned ∙ ap (λ v. (ok v, after)) same;
        accepted = accepted;
      }
  program_step this before (err cause, w) returned e =
      absurd
        (subst (λ s. Fails s) e (after_failure-Fails this cause false _ (single_failure cause)))

  attempts-Committed :
      (fuel : ℕ) (this : TransactionAttempt) (w : W) (value : A) (version : ℕ)
      → let run = attempts driver cancel program options handle fuel this w in
        run.result ≡ some (ok (value, version))
        → (context : TransactionAttempt) × (last_context run.contexts ≡ some context)
          × Committed driver program context value version
  unfolding attempts step last_context
  attempts-Committed zero this w value version = λ e. absurd (none≢some e)
  attempts-Committed (suc fuel) this w value version =
      elim (Step-cases (step driver cancel program options handle this w)) [
        | inl (r, m, w', e) ↦
            rw (attempts_finished driver cancel program options handle fuel this w e) (λ same. (
              this,
              refl,
              program_step this w (program handle this w) refl
                  (e ∙ ap (λ r. finished r m w') (some-injective same)),
            ))
        | inr (next, w', e) ↦
            rw (attempts_again driver cancel program options handle fuel this w e) (λ same.
              let (context, last, committed) = attempts-Committed fuel next w' value version same in
              (
                context,
                last_context_cons this
                    (attempts driver cancel program options handle fuel next w').contexts last,
                committed,
              ))
      ]

module _ {W A E : Type 0} (driver : Driver W) (cancel : W → W)
    (program : ℕ → TransactionAttempt → W → Result (Cause E) A × W) (fuel : ℕ)
    (transaction_defaults options : TransactionOptions) (w : W) where
  -- Where a transaction returns a value and a version, the program returned that value in the last of
  -- the contexts, and the commit right behind it that version.
  pub with_transaction_result-Committed :
      (value : A) (version : ℕ)
      → (with_transaction_result driver cancel program fuel transaction_defaults options w).result
        ≡ some (ok (value, version))
      → (context : TransactionAttempt) × (last_context
            (with_transaction_result driver cancel program fuel transaction_defaults options
              w).contexts
          ≡ some context)
        × Committed driver program context value version
  with_transaction_result-Committed value version =
      attempt_failures_of driver cancel program fuel transaction_defaults options w
        (λ result _ contexts _.
          result ≡ some (ok (value, version))
          → (context : TransactionAttempt) × (last_context contexts ≡ some context)
            × Committed driver program context value version)
        (λ e same. cc)
        (λ handle w.
          attempts-Committed driver cancel program _ handle fuel first_attempt w value version)
