-- ===== src/Limiter/Tests.antt =====
-- The rate limiter on concrete states.
use foundationdb_effect.Prelude.{refl, false, some, arith}
use foundationdb_effect.Prelude.Int.{pos}
use foundationdb_effect.Limiter.State.{FixedCounter, learning, AdaptiveState}
use foundationdb_effect.Limiter.Fixed.{FixedOptions, fixed_window}
use foundationdb_effect.Limiter.Bucket.{TokenBucket, BucketOptions, token_bucket}
use foundationdb_effect.Limiter.Adaptive.{FeedbackOptions, adaptive_feedback}
use foundationdb_effect.Limiter.Windows.{Windowed, Answers, fixed_window-Windowed}
use foundationdb_effect.Limiter.Tokens.{StoredBounded, token_bucket-Bounded}
use foundationdb_effect.Limiter.Phases.{Learned, adaptive_feedback-Learned}

abbrev two_of_three : FixedOptions
two_of_three = record { tokens = 2; refill_rate = 10; limit = some 3 }

abbrev one_used : FixedCounter
one_used = record { count = 1; expires_at = 110 }

fixed_window-Windowed_example :
    Windowed two_of_three 115 (fixed_window 115 two_of_three (some one_used)).1
    × Answers 115 two_of_three (some one_used) (fixed_window 115 two_of_three (some one_used))
fixed_window-Windowed_example =
    fixed_window-Windowed 115 two_of_three (some one_used)
      (record { start = 100; begun = omega arith; within = refl; lasts = refl })

abbrev five_tokens : BucketOptions
five_tokens = record { tokens = 2; limit = 5; refill_rate = 10; allow_overflow = false }

abbrev one_left : TokenBucket
one_left = record { tokens = pos 1; last_refill = 100 }

token_bucket-Bounded_example :
    StoredBounded five_tokens 125 (token_bucket 125 five_tokens (some one_left)).1
token_bucket-Bounded_example =
    token_bucket-Bounded 125 five_tokens (some one_left) (omega arith)
      (omega arith, omega arith, λ e. refl)

abbrev refused_request : FeedbackOptions
refused_request = record { epoch = 1; tokens = 2; status = 429; retry_after = some 500 }

abbrev learning_state : AdaptiveState
learning_state = record {
  phase = learning;
  epoch = 1;
  cooldown_until = 100;
  learning_started_at = 100;
  observed_tokens = 7;
  learned_limit = 0;
  learned_window_millis = 0;
  expires_at = 70000;
}

adaptive_feedback-Learned_example :
    Learned (adaptive_feedback 900 refused_request (some learning_state))
adaptive_feedback-Learned_example =
    adaptive_feedback-Learned 900 refused_request (some learning_state) (omega arith) tt
