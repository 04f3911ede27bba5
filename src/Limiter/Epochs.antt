-- ===== src/Limiter/Epochs.antt =====
-- The epochs of `adaptiveFeedback`: which requests learn a limit.
use foundationdb_effect.Prelude.{ℕ, ◌+◌, ◌<◌, ◌≡◌, ◌⊎◌}
use foundationdb_effect.Limiter.State.{learning, learned, AdaptiveState}
use foundationdb_effect.Limiter.Adaptive.{FeedbackOptions}

-- The state after a feedback has learned the tokens that the state before observed, but for those
-- refused, and has begun an epoch that lasts longer than the grace.
pub record Learns (now : ℕ) (options : FeedbackOptions) (before after : AdaptiveState)
    : Type 0 where
  pub was : before.phase ≡ learning
  pub current : before.epoch ≡ options.epoch
  pub becomes : after.phase ≡ learned
  pub next_epoch : after.epoch ≡ before.epoch + 1
  pub counts : after.learned_limit + options.tokens ≡ before.observed_tokens
  pub lasts : now + 60000 < after.expires_at

abbrev pub Stays : ℕ → FeedbackOptions → AdaptiveState → AdaptiveState → Type 0
Stays now options before after = (after.epoch ≡ before.epoch) ⊎ Learns now options before after
