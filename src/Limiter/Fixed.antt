-- ===== src/Limiter/Fixed.antt =====
-- `fixedWindow`.
use foundationdb_effect.Prelude.{
  ℕ, ◌+◌, ◌-◌, ◌*◌, Option, none, some, Bool, false, leb, ltb, if◌then◌else◌,
}
use foundationdb_effect.Limiter.State.{FixedCounter}

-- The options of `fixedWindow`, with the refill rate in milliseconds.
pub record FixedOptions : Type 0 where
  pub tokens : ℕ
  pub refill_rate : ℕ
  pub limit : Option ℕ

-- The counter that the operation starts from.
abbrev pub current_counter : ℕ → Option FixedCounter → FixedCounter
current_counter now none = record { count = 0; expires_at = now }
current_counter now (some counter) =
    if leb counter.expires_at now then record { count = 0; expires_at = now } else counter

-- `rateOptions.limit !== undefined && nextCount > rateOptions.limit`
abbrev pub exceeds : Option ℕ → ℕ → Bool
exceeds none count = false
exceeds (some limit) count = ltb limit count

-- `fixedWindow`: the count and the time to the expiry, and the stored counter.
unfoldable pub fixed_window : ℕ → FixedOptions → Option FixedCounter → (ℕ × ℕ) × Option FixedCounter
fixed_window now options stored =
    let counter = current_counter now stored in
    let next_count = counter.count + options.tokens in
    let expires_at = counter.expires_at + options.refill_rate * options.tokens in
    if exceeds options.limit next_count then ((next_count, counter.expires_at - now), stored) else (
      (next_count, expires_at - now),
      some (record { count = next_count; expires_at = expires_at }),
    )
