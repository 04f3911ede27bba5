-- ===== src/Limiter/Phases.antt =====
-- `adaptiveFeedback`: what it learns is well formed.
use foundationdb_effect.Prelude.{
  ℕ, ◌+◌, ◌-◌, ◌≤◌, ◌≡◌, ◌⊎◌, subst, sym, refl, max, false, Bool-cases, inl, inr, Option, none,
  some, arith, ◌==◌, leb, if◌then◌else◌, Option-cases,
}
use foundationdb_effect.Prelude.Int.{ℤ, pos, negsuc, sub_ℕ}
use foundationdb_effect.Limiter.State.{
  AdaptivePhase, inactive, cooldown, learning, learned, AdaptiveState,
  clamp_adaptive_duration_millis, cooldown_expires_at,
}
use foundationdb_effect.Limiter.Adaptive.{
  unexpired, new_cooldown, feedback_phase, FeedbackOptions, write_feedback, adaptive_feedback,
}

abbrev pub InPhase : AdaptivePhase → AdaptiveState → Type 0
InPhase inactive state = Unit
InPhase cooldown state = state.expires_at ≡ state.cooldown_until + 60000
InPhase learning state = Unit
InPhase learned state =
    (1 ≤ state.learned_limit)
    × (1 ≤ state.learned_window_millis)
    × (state.learned_window_millis ≤ 3600000)
    × (state.cooldown_until ≤ state.expires_at)

-- A state whose cooldown outlives it by the grace, or whose limit is positive and whose window is
-- at most an hour.
abbrev pub Learned : Option AdaptiveState → Type 0
Learned none = Unit
Learned (some state) = InPhase state.phase state

pub clamp_bounds :
    (n : ℤ) → (1 ≤ clamp_adaptive_duration_millis n) × (clamp_adaptive_duration_millis n ≤ 3600000)
clamp_bounds (pos n) = ground arith
clamp_bounds (negsuc n) = (omega arith, omega arith)

accepted : (observed tokens : ℕ) → leb observed tokens ≡ false → 1 ≤ observed - tokens
accepted observed tokens e = ground arith

feedback_phase-Learned :
    (phase : AdaptivePhase) (now tokens retry_after : ℕ) (state : AdaptiveState)
    → state.phase ≡ phase
    → state.learning_started_at ≤ now
    → InPhase phase state
    → Learned (some (feedback_phase phase now tokens retry_after state))
feedback_phase-Learned inactive now tokens retry_after state p b h =
    subst (λ x. InPhase x state) (sym p) tt
feedback_phase-Learned cooldown now tokens retry_after state p b h =
    let next = max state.cooldown_until (now + retry_after) in
    subst
      (λ x.
        InPhase x (record state { cooldown_until = next; expires_at = cooldown_expires_at next }))
      (sym p) refl
feedback_phase-Learned learning now tokens retry_after state p b h =
    let window = sub_ℕ (now + retry_after) state.learning_started_at in
    elim (Bool-cases (leb state.observed_tokens tokens)) [
      | inl few ↦ rw few refl
      | inr many ↦
          let (low, high) = clamp_bounds window in
          rw many (accepted state.observed_tokens tokens many, low, high, omega arith)
    ]
feedback_phase-Learned learned now tokens retry_after state p b h = refl

-- The learning of a stored state started in the past.
abbrev pub Started : ℕ → Option AdaptiveState → Type 0
Started now none = Unit
Started now (some state) = state.learning_started_at ≤ now

unexpired-cases :
    (now : ℕ) (stored : Option AdaptiveState)
    → (unexpired now stored ≡ none)
      ⊎ (state : AdaptiveState) × (stored ≡ some state) × (unexpired now stored ≡ some state)
unexpired-cases now none = inl refl
unexpired-cases now (some state) = elim (Bool-cases (leb state.expires_at now)) [
  | inl old ↦ inl (rw old refl)
  | inr live ↦ inr (state, refl, rw live refl)
]

feedback_none :
    (now : ℕ) (options : FeedbackOptions) (cooldown_until : ℕ)
    → Learned (if options.epoch == 0 then some (new_cooldown 0 cooldown_until) else none)
feedback_none now options cooldown_until = elim (Bool-cases (options.epoch == 0)) [
  | inl first ↦ rw first refl
  | inr later ↦ rw later tt
]

write_feedback-Learned :
    (now : ℕ) (options : FeedbackOptions) (retry_after : ℕ) (stored : Option AdaptiveState)
    → Started now stored
    → Learned stored
    → Learned (write_feedback now options retry_after stored)
unfolding write_feedback
write_feedback-Learned now options retry_after stored b h =
    let millis = clamp_adaptive_duration_millis (pos retry_after) in
    elim (unexpired-cases now stored) [
      | inl gone ↦ rw (gone, write_feedback) (feedback_none now options (now + millis))
      | inr (state, is, live) ↦ elim (Bool-cases (state.epoch == options.epoch)) [
        | inl same ↦
            rw (live, same, write_feedback)
              (feedback_phase-Learned state.phase now options.tokens millis state refl
                (subst (Started now) is b) (subst Learned is h))
        | inr other ↦ rw (live, other, write_feedback) (subst Learned is h)
      ]
    ]

-- Where the stored state is well formed and its learning started no later than now, the state after
-- `adaptiveFeedback` is well formed: a cooldown outlives its end by the grace, and a learned state has
-- a positive limit and a window from a millisecond to an hour that ends before the state expires.
pub adaptive_feedback-Learned :
    (now : ℕ) (options : FeedbackOptions) (stored : Option AdaptiveState)
    → Started now stored
    → Learned stored
    → Learned (adaptive_feedback now options stored)
unfolding adaptive_feedback
adaptive_feedback-Learned now options stored b h = elim (Bool-cases (options.status == 429)) [
  | inl refused ↦ elim (Option-cases options.retry_after) [
    | inl silent ↦ rw (refused, silent, adaptive_feedback) h
    | inr (retry_after, given) ↦
        rw (refused, given, adaptive_feedback)
          (write_feedback-Learned now options retry_after stored b h)
  ]
  | inr passed ↦ rw (passed, adaptive_feedback) h
]
