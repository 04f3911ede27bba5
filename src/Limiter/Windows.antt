-- ===== src/Limiter/Windows.antt =====
-- `fixedWindow`: what it stores stays within the limit, and lasts as long as its tokens take to
-- refill.
use foundationdb_effect.Prelude.{
  ℕ, ◌+◌, ◌-◌, ◌*◌, ◌≤◌, ◌≡◌, ap, ◌∙◌, refl, true, false, max, ltb, if◌then◌else◌, Bool-cases, inl,
  inr, Option, none, some, arith, leb,
}
use foundationdb_effect.Limiter.State.{FixedCounter}
use foundationdb_effect.Limiter.Fixed.{FixedOptions, current_counter, exceeds, fixed_window}

-- A counter of a window that began at `start`: its tokens are within the limit, and it expires when
-- they are refilled.
pub record Window (options : FixedOptions) (now : ℕ) (counter : FixedCounter) : Type 0 where
  pub start : ℕ
  pub begun : start ≤ now
  pub within : exceeds options.limit counter.count ≡ false
  pub lasts : counter.expires_at ≡ start + options.refill_rate * counter.count

abbrev pub Windowed : FixedOptions → ℕ → Option FixedCounter → Type 0
Windowed options now none = Unit
Windowed options now (some counter) = Window options now counter

distrib : (a b c : ℕ) → a * (b + c) ≡ a * b + a * c
distrib a b c = omega arith

exceeds_zero : (limit : Option ℕ) → exceeds limit 0 ≡ false
exceeds_zero none = refl
exceeds_zero (some limit) = ground arith

current_counter-Window :
    (now : ℕ) (options : FixedOptions) (stored : Option FixedCounter)
    → Windowed options now stored
    → Window options now (current_counter now stored)
current_counter-Window now options none w = record {
  start = now;
  begun = omega arith;
  within = exceeds_zero options.limit;
  lasts = omega arith;
}
current_counter-Window now options (some counter) w =
    elim (Bool-cases (leb counter.expires_at now)) [
      | inl old ↦ rw old (record {
        start = now;
        begun = omega arith;
        within = exceeds_zero options.limit;
        lasts = omega arith;
      })
      | inr live ↦ rw live w
    ]

-- The tokens of the window that is open at a time, and when it closes.
abbrev pub used_tokens : ℕ → Option FixedCounter → ℕ
used_tokens now none = 0
used_tokens now (some counter) = if ltb now counter.expires_at then counter.count else 0

abbrev pub open_until : ℕ → Option FixedCounter → ℕ
open_until now none = now
open_until now (some counter) = max now counter.expires_at

-- The answer and the stored counter of a request, by the tokens of the open window.
pub data Answers (now : ℕ) (options : FixedOptions) (stored : Option FixedCounter)
    : (ℕ × ℕ) × Option FixedCounter → Type 0 where
  refuses :
      exceeds options.limit (used_tokens now stored + options.tokens) ≡ true
      → Answers now options stored
          ((used_tokens now stored + options.tokens, open_until now stored - now), stored)
  accepts :
      exceeds options.limit (used_tokens now stored + options.tokens) ≡ false
      → Answers now options stored (
        (
          used_tokens now stored + options.tokens,
          open_until now stored + options.refill_rate * options.tokens - now,
        ),
        some (record {
          count = used_tokens now stored + options.tokens;
          expires_at = open_until now stored + options.refill_rate * options.tokens;
        }),
      )

current_counter_lem :
    (now : ℕ) (stored : Option FixedCounter)
    → current_counter now stored
      ≡ record { count = used_tokens now stored; expires_at = open_until now stored }
current_counter_lem now none = refl
current_counter_lem now (some counter) = elim (Bool-cases (leb counter.expires_at now)) [
  | inl old ↦
      let closed : ltb now counter.expires_at ≡ false = grind arith in
      let ends : max now counter.expires_at ≡ now = ground arith in rw (old, closed, ends) refl
  | inr live ↦
      let still : ltb now counter.expires_at ≡ true = grind arith in
      let ends : max now counter.expires_at ≡ counter.expires_at = ground arith in
      rw (live, still, ends) refl
]

fixed_window-Answers :
    (now : ℕ) (options : FixedOptions) (stored : Option FixedCounter)
    → Answers now options stored (fixed_window now options stored)
unfolding fixed_window
fixed_window-Answers now options stored =
    elim (Bool-cases (exceeds options.limit (used_tokens now stored + options.tokens))) [
      | inl over ↦ rw (current_counter_lem now stored, over, fixed_window) (refuses over)
      | inr fits ↦ rw (current_counter_lem now stored, fits, fixed_window) (accepts fits)
    ]

fixed_window-Window :
    (now : ℕ) (options : FixedOptions) (stored : Option FixedCounter)
    → Windowed options now stored
    → Windowed options now (fixed_window now options stored).1
unfolding fixed_window
fixed_window-Window now options stored w =
    let counter = current_counter now stored in
    let c = current_counter-Window now options stored w in
    elim (Bool-cases (exceeds options.limit (counter.count + options.tokens))) [
      | inl over ↦ rw (over, fixed_window) w
      | inr fits ↦
          rw (fits, fixed_window)
            (record {
              start = c.start;
              begun = c.begun;
              within = fits;
              lasts =
                  ap (λ x. x + options.refill_rate * options.tokens) c.lasts
                  ∙ omega (arith, distrib options.refill_rate counter.count options.tokens);
            })
    ]

-- Where the stored counter, if any, is a window's of the same limit and refill rate, so is the one
-- after `fixedWindow`. A request adds its tokens to those of the open window, which are 0 once the
-- stored counter has expired: a sum above the limit is refused and leaves the store as it is, any other
-- is stored and returned with an expiry that its own tokens put off from the end of that window, or
-- from now.
pub fixed_window-Windowed :
    (now : ℕ) (options : FixedOptions) (stored : Option FixedCounter)
    → Windowed options now stored
    → Windowed options now (fixed_window now options stored).1
      × Answers now options stored (fixed_window now options stored)
fixed_window-Windowed now options stored w =
    (fixed_window-Window now options stored w, fixed_window-Answers now options stored)
