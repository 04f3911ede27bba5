-- ===== src/Transaction/Contexts.antt =====
-- The contexts in which a program runs, against the errors with which its attempts fail.
use foundationdb_effect.Prelude.{
  ℕ, zero, suc, ◌≡◌, inl, inr, refl, ap, ◌∙◌, subst, Bool, true, false, ◌||◌, Option, some, List,
  [], ◌∷◌, arith,
}
use foundationdb_effect.Prelude.Result.{Result}
use foundationdb_effect.Transaction.{step, attempts, with_transaction_result, first_attempt}
use foundationdb_effect.Transaction.Values.{
  FoundationDbError, Cause, TransactionAttempt, TransactionOptions, is_some_false, Driver,
  with_defaults,
}
use foundationdb_effect.Transaction.Attempts.{Step-cases, attempts_finished, attempts_again}
use foundationdb_effect.Transaction.Follows.{step-Follows}
use foundationdb_effect.Transaction.History.{
  says_maybe, attempt_failure, history, history_finished, history_again, attempt_failures,
  attempt_failures_of,
}

-- Contexts numbered from a number on, one for each attempt's error. Each is told whether a commit may
-- have happened by then, which is what was known before or an error since has said; so is the end.
unfoldable pub Numbered :
    ℕ → Bool → List TransactionAttempt → List (Option FoundationDbError) → Bool → Type 0
Numbered n known [] [] last = last ≡ known
Numbered n known [] (f ∷ fs) last = ⊥
Numbered n known (c ∷ cs) [] last = ⊥
Numbered n known (c ∷ cs) (f ∷ fs) last =
    (c.attempt ≡ n)
    × (c.maybe_committed ≡ known)
    × Numbered (suc n) (known || says_maybe f) cs fs last

-- An attempt is followed by another one only where it failed with an error of the client that excludes
-- a commit; each context says so.
pub Excluded : List TransactionAttempt → List (Option FoundationDbError) → Type 0
Excluded [] fs = Unit
Excluded (c ∷ cs) [] = ⊥
Excluded (c ∷ []) (f ∷ fs) = c.maybe_committed ≡ false
Excluded (c ∷ c' ∷ cs) (f ∷ fs) =
    (c.maybe_committed ≡ false)
    × (e : FoundationDbError) × (f ≡ some e)
    × (e.maybe_committed ≡ false)
    × Excluded (c' ∷ cs) fs

Excluded-cons :
    (c : TransactionAttempt) (f : Option FoundationDbError) (cs : List TransactionAttempt)
    (fs : List (Option FoundationDbError))
    → c.maybe_committed ≡ false
    → (e : FoundationDbError) → f ≡ some e
    → e.maybe_committed ≡ false
    → Excluded cs fs
    → Excluded (c ∷ cs) (f ∷ fs)
unfolding Excluded
Excluded-cons c f [] fs clear e is excluded rest = clear
Excluded-cons c f (c' ∷ cs) fs clear e is excluded rest = (clear, e, is, excluded, rest)

module _ {W A E : Type 0} (driver : Driver W) (cancel : W → W)
    (program : ℕ → TransactionAttempt → W → Result (Cause E) A × W) (options : TransactionOptions)
    (handle : ℕ) where
  pub attempts-Numbered :
      (fuel : ℕ) (n : ℕ) (this : TransactionAttempt) (w : W)
      → this.attempt ≡ n
      → Numbered n this.maybe_committed
          (attempts driver cancel program options handle fuel this w).contexts
          (history driver cancel program options handle fuel this w)
          (attempts driver cancel program options handle fuel this w).maybe_committed
  unfolding attempts history Numbered
  attempts-Numbered zero n this w number = refl
  attempts-Numbered (suc fuel) n this w number =
      elim (Step-cases (step driver cancel program options handle this w)) [
        | inl (result, m, w', e) ↦
            rw
              (
                attempts_finished driver cancel program options handle fuel this w e,
                history_finished driver cancel program options handle fuel this w e,
              )
              (number, refl, step-Follows driver cancel program options handle this w _ e)
        | inr (next, w', e) ↦
            let (next_number, same, failure, is, go) =
              step-Follows driver cancel program options handle this w _ e in
            let rest = attempts driver cancel program options handle fuel next w' in
            let later = history driver cancel program options handle fuel next w' in
            rw
              (
                attempts_again driver cancel program options handle fuel this w e,
                history_again driver cancel program options handle fuel this w e,
              )
              (
                number,
                refl,
                subst (λ known. Numbered (suc n) known rest.contexts later rest.maybe_committed)
                    same
                    (attempts-Numbered fuel (suc n) next w' (next_number ∙ omega (arith, number))),
              )
      ]

  attempts-Excluded :
      is_some_false options.retry_on_maybe_committed ≡ true
      → (fuel : ℕ) (this : TransactionAttempt) (w : W) → this.maybe_committed ≡ false
      → Excluded
          (attempts driver cancel program options handle fuel this w).contexts
          (history driver cancel program options handle fuel this w)
  unfolding attempts history Excluded
  attempts-Excluded off zero this w clear = tt
  attempts-Excluded off (suc fuel) this w clear =
      elim (Step-cases (step driver cancel program options handle this w)) [
        | inl (result, m, w', e) ↦
            rw
              (
                attempts_finished driver cancel program options handle fuel this w e,
                history_finished driver cancel program options handle fuel this w e,
              )
              clear
        | inr (next, w', e) ↦
            let (next_number, same, failure, is, go) =
              step-Follows driver cancel program options handle this w _ e in
            let failed = attempt_failure driver cancel program options handle this w in
            let excluded : failure.maybe_committed ≡ false = grind arith in
            let next_clear : next.maybe_committed ≡ false =
              same ∙ ap (λ b. b || says_maybe failed) clear ∙ ap says_maybe is ∙ excluded in
            rw
              (
                attempts_again driver cancel program options handle fuel this w e,
                history_again driver cancel program options handle fuel this w e,
              )
              (Excluded-cons this _ _ _ clear failure is excluded
                (attempts-Excluded off fuel next w' next_clear))
      ]

module _ {W A E : Type 0} (driver : Driver W) (cancel : W → W)
    (program : ℕ → TransactionAttempt → W → Result (Cause E) A × W) (fuel : ℕ)
    (transaction_defaults options : TransactionOptions) (w : W) where
  -- Where `retryOnMaybeCommitted` is false, an attempt is followed by another one only where it failed,
  -- in the program or in the commit, with an error of the client by which the commit has not happened;
  -- and every context says so.
  pub with_transaction_result_certain :
      is_some_false (with_defaults options transaction_defaults).retry_on_maybe_committed ≡ true
      → Excluded
          (with_transaction_result driver cancel program fuel transaction_defaults options
            w).contexts
          (attempt_failures driver cancel program fuel transaction_defaults options w)
  unfolding Excluded
  with_transaction_result_certain off =
      attempt_failures_of driver cancel program fuel transaction_defaults options w
        (λ _ _ contexts failures. Excluded contexts failures) (λ e. tt)
        (λ handle w. attempts-Excluded driver cancel program _ handle off fuel first_attempt w refl)

  -- The contexts of a run are numbered from 1 on, one for each attempt. A context says that a commit
  -- may have happened exactly where an error with which the client failed an attempt before it says so,
  -- and the telemetry at the end does where the error of any attempt does.
  pub with_transaction_result-Numbered :
      let run = with_transaction_result driver cancel program fuel transaction_defaults options w in
      Numbered 1 false run.contexts
        (attempt_failures driver cancel program fuel transaction_defaults options w)
        run.maybe_committed
  unfolding Numbered
  with_transaction_result-Numbered =
      attempt_failures_of driver cancel program fuel transaction_defaults options w
        (λ _ last contexts failures. Numbered 1 false contexts failures last) (λ e. refl)
        (λ handle w. attempts-Numbered driver cancel program _ handle fuel 1 first_attempt w refl)
