-- ===== src/Transaction/Attempts.antt =====
-- The steps of a run of attempts.
use foundationdb_effect.Prelude.{ℕ, suc, ◌≡◌, ◌⊎◌, inl, inr, refl, Bool, some, [], ◌∷◌}
use foundationdb_effect.Prelude.Result.{Result}
use foundationdb_effect.Transaction.{Step, finished, again, step, attempts, add_context}
use foundationdb_effect.Transaction.Values.{Cause, TransactionAttempt, TransactionOptions, Driver}

pub Step-cases :
    {W A E : Type 0} (s : Step W A E)
    → ((result : Result (Cause E) (A × ℕ)) × (m : Bool) × (w : W) × (s ≡ finished result m w))
      ⊎ ((next : TransactionAttempt) × (w : W) × (s ≡ again next w))
Step-cases (finished result m w) = inl (result, m, w, refl)
Step-cases (again next w) = inr (next, w, refl)

pub again-injective :
    {W A E : Type 0} {this next : TransactionAttempt} {w w' : W}
    → ◌≡◌ {A = Step W A E} (again this w) (again next w')
    → this ≡ next
again-injective e = cc

pub finished≢again :
    {W A E : Type 0} {result : Result (Cause E) (A × ℕ)} {m : Bool} {w : W}
    {next : TransactionAttempt} {w' : W}
    → ◌≡◌ {A = Step W A E} (finished result m w) (again next w')
    → ⊥
finished≢again e = cc

module _ {W A E : Type 0} (driver : Driver W) (cancel : W → W)
    (program : ℕ → TransactionAttempt → W → Result (Cause E) A × W) (options : TransactionOptions)
    (handle : ℕ) where
  -- The run from an attempt on, by what the attempt comes to.
  pub attempts_finished :
      (fuel : ℕ) (this : TransactionAttempt) (w : W) {result : Result (Cause E) (A × ℕ)} {m : Bool}
      {w' : W}
      → step driver cancel program options handle this w ≡ finished result m w'
      → attempts driver cancel program options handle (suc fuel) this w
        ≡ record { result = some result; maybe_committed = m; contexts = this ∷ []; world = w' }
  unfolding attempts
  attempts_finished fuel this w e = rw (e, attempts) refl

  pub attempts_again :
      (fuel : ℕ) (this : TransactionAttempt) (w : W) {next : TransactionAttempt} {w' : W}
      → step driver cancel program options handle this w ≡ again next w'
      → attempts driver cancel program options handle (suc fuel) this w
        ≡ add_context this (attempts driver cancel program options handle fuel next w')
  unfolding attempts
  attempts_again fuel this w e = rw (e, attempts) refl
