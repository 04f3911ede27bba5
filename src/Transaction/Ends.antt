-- ===== src/Transaction/Ends.antt =====
-- What the error with which a transaction ends says of its commits.
use foundationdb_effect.Prelude.{
  ℕ, zero, suc, ◌≡◌, inl, inr, refl, sym, ap, ◌∙◌, subst, Bool, true, false, ◌&&◌, ◌||◌, Option,
  none, some, List, [], ◌∷◌, arith, Bool-cases, true≢false, none≢some, some-injective,
}
use foundationdb_effect.Prelude.Result.{Result, ok, err}
use foundationdb_effect.Transaction.{
  Step, finished, again, step, attempts, after_attempt, after_failure, after_on_error,
  with_transaction_result, first_attempt,
}
use foundationdb_effect.Transaction.History.{
  failure_of, says_maybe, any_says_maybe, attempt_failures, attempt_failures_of,
}
use foundationdb_effect.Transaction.Contexts.{Numbered, attempts-Numbered}
use foundationdb_effect.Transaction.Values.{
  FoundationDbError, Cause, ConflictRange, TransactionAttempt, TransactionOptions, is_some_true,
  is_some_false, Driver, with_defaults, single_failure, client_failure, preserve_maybe_committed,
}
use foundationdb_effect.Transaction.Attempts.{Step-cases, attempts_finished, attempts_again}

-- A single client error that the result is says what is known.
abbrev Tells : {A E : Type 0} → Result (Cause E) A → Bool → Type 0
Tells result known =
    (e : FoundationDbError) → failure_of result ≡ some e → known ≡ true → e.maybe_committed ≡ true

preserve_maybe_committed_lem :
    (e : FoundationDbError) (known : Bool)
    → known ≡ true
    → (preserve_maybe_committed e known).maybe_committed ≡ true
preserve_maybe_committed_lem e true k = elim (Bool-cases e.maybe_committed) [
  | inl there ↦ rw there refl
  | inr missing ↦ rw missing refl
]
preserve_maybe_committed_lem e false k = absurd (true≢false (sym k))

-- What a step that ends tells.
abbrev StepTells : {W A E : Type 0} → Step W A E → Type 0
StepTells (finished result m _) = Tells result m
StepTells (again _ _) = Unit

known_before :
    (n : ℕ) (cs : List TransactionAttempt) (fs : List (Option FoundationDbError)) (last : Bool)
    → Numbered n true cs fs last
    → last ≡ true
unfolding Numbered
known_before n [] [] last h = h
known_before n [] (f ∷ fs) last h = absurd h
known_before n (c ∷ cs) [] last h = absurd h
known_before n (c ∷ cs) (f ∷ fs) last h = known_before (suc n) cs fs last h.2

known_at_end :
    (n : ℕ) (known : Bool) (cs : List TransactionAttempt) (fs : List (Option FoundationDbError))
    (last : Bool)
    → Numbered n known cs fs last
    → any_says_maybe fs ≡ true
    → last ≡ true
unfolding Numbered
known_at_end n known [] [] last h said = absurd (true≢false (sym said))
known_at_end n known [] (f ∷ fs) last h said = absurd h
known_at_end n known (c ∷ cs) [] last h said = absurd h
known_at_end n true (c ∷ cs) (f ∷ fs) last h said = known_before (suc n) cs fs last h.2
known_at_end n false (c ∷ cs) (f ∷ fs) last h said = elim (Bool-cases (says_maybe f)) [
  | inl now ↦ known_before (suc n) cs fs last (subst (λ k. Numbered (suc n) k cs fs last) now h.2)
  | inr later ↦
      known_at_end (suc n) (says_maybe f) cs fs last h.2
        (ap (λ b. b || any_says_maybe fs) (sym later) ∙ said)
]

module _ {W A E : Type 0} (driver : Driver W) (cancel : W → W)
    (program : ℕ → TransactionAttempt → W → Result (Cause E) A × W) (options : TransactionOptions)
    (handle : ℕ) where
  on_error_tells :
      (this : TransactionAttempt) (m : Bool) (ranges : List ConflictRange)
      (answer : Result {0} FoundationDbError Unit × W)
      → StepTells (after_on_error driver cancel program options handle this m ranges answer)
  on_error_tells this m ranges (ok _, w) = tt
  on_error_tells this m ranges (err e, w) = λ f same known.
      ap (λ e. e.maybe_committed) (sym (some-injective same))
      ∙ preserve_maybe_committed_lem e m known

  failure_tells :
      is_some_true options.report_conflicting_keys ≡ false
      → (this : TransactionAttempt) (cause : Cause E) (commit_failed : Bool) (w : W)
        (failure : Option FoundationDbError)
      → single_failure cause ≡ failure
      → StepTells
          (after_failure driver cancel program options handle this cause commit_failed w failure)
  failure_tells silent this cause commit_failed w none single =
      λ f same known. absurd (none≢some (sym single ∙ same))
  failure_tells silent this cause commit_failed w (some failure) single =
      let unreported : (commit_failed && is_some_true options.report_conflicting_keys) ≡ false =
        grind arith in
      elim (Bool-cases
        (failure.maybe_committed && is_some_false options.retry_on_maybe_committed)) [
          | inl stop ↦ rw stop (λ f same known.
              ap (λ e. e.maybe_committed) (some-injective (sym same ∙ single)) ∙ grind arith)
          | inr go ↦
              rw (go, unreported) (on_error_tells this _ [] (driver.on_error handle failure w))
        ]

  attempt_tells :
      is_some_true options.report_conflicting_keys ≡ false
      → (this : TransactionAttempt) (exit : Result (Cause E) (A × ℕ) × Bool × W)
      → StepTells (after_attempt driver cancel program options handle this exit)
  attempt_tells silent this (ok _, _, _) = λ f same known. absurd (none≢some same)
  attempt_tells silent this (err cause, commit_failed, w) =
      failure_tells silent this cause commit_failed w (single_failure cause) refl

  attempts_tell :
      is_some_true options.report_conflicting_keys ≡ false
      → (fuel : ℕ) (this : TransactionAttempt) (w : W) (result : Result (Cause E) (A × ℕ))
      → let run = attempts driver cancel program options handle fuel this w in
        run.result ≡ some result → Tells result run.maybe_committed
  unfolding attempts step
  attempts_tell silent zero this w result = λ e. absurd (none≢some e)
  attempts_tell silent (suc fuel) this w result =
      elim (Step-cases (step driver cancel program options handle this w)) [
        | inl (r, m, w', e) ↦
            rw (attempts_finished driver cancel program options handle fuel this w e) (λ same.
              subst (λ r. Tells r m) (some-injective same)
                (subst (λ s. StepTells s) e (attempt_tells silent this _)))
        | inr (next, w', e) ↦
            rw (attempts_again driver cancel program options handle fuel this w e)
              (attempts_tell silent fuel next w' result)
      ]

module _ {W A E : Type 0} (driver : Driver W) (cancel : W → W)
    (program : ℕ → TransactionAttempt → W → Result (Cause E) A × W) (fuel : ℕ)
    (transaction_defaults options : TransactionOptions) (w : W) where
  -- Without reports of conflicting keys, a client's error with which a transaction fails says that a
  -- commit may have happened where the error of any of its attempts says so.
  pub with_transaction_result_tells :
      is_some_true (with_defaults options transaction_defaults).report_conflicting_keys ≡ false
      → (e : FoundationDbError)
      → (with_transaction_result driver cancel program fuel transaction_defaults options w).result
        ≡ some (err (client_failure e ∷ []))
      → any_says_maybe (attempt_failures driver cancel program fuel transaction_defaults options w)
        ≡ true
      → e.maybe_committed ≡ true
  with_transaction_result_tells silent e =
      attempt_failures_of driver cancel program fuel transaction_defaults options w
        (λ result _ _ failures.
          result ≡ some (err (client_failure e ∷ []))
          → any_says_maybe failures ≡ true
          → e.maybe_committed ≡ true)
        (λ e same said. absurd (true≢false (sym said)))
        (λ handle w same said.
          attempts_tell driver cancel program _ handle silent fuel first_attempt w _ same e refl (
            known_at_end 1 false _ _ _
              (attempts-Numbered driver cancel program _ handle fuel 1 first_attempt w refl) said))
