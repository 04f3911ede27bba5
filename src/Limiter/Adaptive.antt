-- ===== src/Limiter/Adaptive.antt =====
-- `adaptiveConsume` and `adaptiveFeedback`.
use foundationdb_effect.Prelude.{
  ℕ, ◌+◌, ◌-◌, max, Option, none, some, ◌==◌, leb, ltb, if◌then◌else◌,
}
use foundationdb_effect.Prelude.Int.{pos, sub_ℕ}
use foundationdb_effect.Limiter.State.{
  AdaptivePhase, inactive, cooldown, learning, learned, AdaptiveState,
  clamp_adaptive_duration_millis, cooldown_expires_at, learning_expires_at, learned_expires_at,
}

-- `AdaptiveConsumeResult`
pub record AdaptiveConsumeResult : Type 0 where
  pub delay : ℕ
  pub epoch : ℕ
  pub phase : AdaptivePhase

-- A state that has expired is cleared.
abbrev pub unexpired : ℕ → Option AdaptiveState → Option AdaptiveState
unexpired now none = none
unexpired now (some state) = if leb state.expires_at now then none else some state

-- The step in the phase of the state; `none` is the branch of a learned limit, whose arithmetic is
-- on numbers that are not whole, and which is not modelled.
abbrev pub consume_phase :
    AdaptivePhase → ℕ → ℕ → ℕ → AdaptiveState → Option (AdaptiveConsumeResult × AdaptiveState)
consume_phase inactive now tokens fallback_window state =
    some (record { delay = 0; epoch = state.epoch; phase = state.phase }, state)
consume_phase cooldown now tokens fallback_window state =
    if ltb now state.cooldown_until
    then some (
      record { delay = state.cooldown_until - now; epoch = state.epoch; phase = cooldown },
      state,
    )
    else some (
      record { delay = 0; epoch = state.epoch + 1; phase = learning },
      record state {
        phase = learning;
        epoch = state.epoch + 1;
        learning_started_at = now;
        observed_tokens = tokens;
        expires_at = learning_expires_at now fallback_window;
      },
    )
consume_phase learning now tokens fallback_window state = some (
  record { delay = 0; epoch = state.epoch; phase = state.phase },
  record state { observed_tokens = state.observed_tokens + tokens },
)
consume_phase learned now tokens fallback_window state = none

-- `adaptiveConsume`: the result and the stored state.
unfoldable pub adaptive_consume :
    ℕ → ℕ → ℕ → Option AdaptiveState → Option (AdaptiveConsumeResult × Option AdaptiveState)
adaptive_consume now tokens fallback_window stored = elim (unexpired now stored) [
  | none ↦ some (record { delay = 0; epoch = 0; phase = inactive }, none)
  | some state ↦ elim (consume_phase state.phase now tokens fallback_window state) [
    | none ↦ none
    | some (result, state') ↦ some (result, some state')
  ]
]

-- The state of a new cooldown.
abbrev pub new_cooldown : ℕ → ℕ → AdaptiveState
new_cooldown epoch cooldown_until = record {
  phase = cooldown;
  epoch = epoch;
  cooldown_until = cooldown_until;
  learning_started_at = 0;
  observed_tokens = 0;
  learned_limit = 0;
  learned_window_millis = 0;
  expires_at = cooldown_expires_at cooldown_until;
}

-- The state of a limit that is learned from the tokens accepted since the learning started, which by
-- this clock may lie ahead.
abbrev pub new_learned : ℕ → ℕ → ℕ → AdaptiveState → AdaptiveState
new_learned now retry_after accepted_tokens state =
    let window =
      clamp_adaptive_duration_millis (sub_ℕ (now + retry_after) state.learning_started_at) in
    record {
      phase = learned;
      epoch = state.epoch + 1;
      cooldown_until = state.learning_started_at + window;
      learning_started_at = state.learning_started_at;
      observed_tokens = accepted_tokens;
      learned_limit = accepted_tokens;
      learned_window_millis = window;
      expires_at = learned_expires_at now window;
    }

-- The state after a refused request, in the phase of the state before.
abbrev pub feedback_phase : AdaptivePhase → ℕ → ℕ → ℕ → AdaptiveState → AdaptiveState
feedback_phase inactive now tokens retry_after state = state
feedback_phase cooldown now tokens retry_after state =
    let next_cooldown = max state.cooldown_until (now + retry_after) in
    record state { cooldown_until = next_cooldown; expires_at = cooldown_expires_at next_cooldown }
feedback_phase learning now tokens retry_after state =
    if leb state.observed_tokens tokens
    then new_cooldown state.epoch (now + retry_after)
    else new_learned now retry_after (state.observed_tokens - tokens) state
feedback_phase learned now tokens retry_after state = new_cooldown state.epoch (now + retry_after)

-- The options of `adaptiveFeedback`, with the durations in milliseconds.
pub record FeedbackOptions : Type 0 where
  pub epoch : ℕ
  pub tokens : ℕ
  pub status : ℕ
  pub retry_after : Option ℕ

-- The transaction of `adaptiveFeedback`.
unfoldable pub write_feedback :
    ℕ → FeedbackOptions → ℕ → Option AdaptiveState → Option AdaptiveState
write_feedback now options retry_after stored =
    let retry_after_millis = clamp_adaptive_duration_millis (pos retry_after) in
    elim (unexpired now stored) [
      | none ↦ if options.epoch == 0 then some (new_cooldown 0 (now + retry_after_millis)) else none
      | some state ↦
          if state.epoch == options.epoch
          then some (feedback_phase state.phase now options.tokens retry_after_millis state)
          else some state
    ]

-- `adaptiveFeedback`
unfoldable pub adaptive_feedback : ℕ → FeedbackOptions → Option AdaptiveState → Option AdaptiveState
adaptive_feedback now options stored =
    if options.status == 429
    then elim options.retry_after [
      | none ↦ stored
      | some retry_after ↦ write_feedback now options retry_after stored
    ]
    else stored
