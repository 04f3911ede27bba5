-- ===== src/Limiter/State.antt =====
-- The states that the rate limiter keeps, and the times at which they expire.
use foundationdb_effect.Prelude.{ℕ, ◌+◌, min, ◌==◌, if◌then◌else◌}
use foundationdb_effect.Prelude.Int.{ℤ, pos, negsuc}

-- `FixedCounter`
pub record FixedCounter : Type 0 where
  pub count : ℕ
  pub expires_at : ℕ

-- `RateLimiter.AdaptivePhase`
pub data AdaptivePhase : Type 0 where
  inactive cooldown learning learned : AdaptivePhase

-- `AdaptiveState`
pub record AdaptiveState : Type 0 where
  pub phase : AdaptivePhase
  pub epoch : ℕ
  pub cooldown_until : ℕ
  pub learning_started_at : ℕ
  pub observed_tokens : ℕ
  pub learned_limit : ℕ
  pub learned_window_millis : ℕ
  pub expires_at : ℕ

abbrev pub adaptive_state_ttl_grace_millis : ℕ
adaptive_state_ttl_grace_millis = 60000

abbrev pub adaptive_state_max_window_millis : ℕ
adaptive_state_max_window_millis = 3600000

-- `clampAdaptiveDurationMillis`, of a whole number
abbrev pub clamp_adaptive_duration_millis : ℤ → ℕ
clamp_adaptive_duration_millis (pos milliseconds) =
    if milliseconds == 0 then 1 else min milliseconds adaptive_state_max_window_millis
clamp_adaptive_duration_millis (negsuc _) = 1

-- `cooldownExpiresAt`
abbrev pub cooldown_expires_at : ℕ → ℕ
cooldown_expires_at cooldown_until = cooldown_until + adaptive_state_ttl_grace_millis

-- `learningExpiresAt`
abbrev pub learning_expires_at : ℕ → ℕ → ℕ
learning_expires_at now fallback_window = now + fallback_window + adaptive_state_ttl_grace_millis

-- `learnedExpiresAt`
abbrev pub learned_expires_at : ℕ → ℕ → ℕ
learned_expires_at now learned_window_millis =
    now + learned_window_millis + adaptive_state_ttl_grace_millis
