-- ===== src/Queue/Finalize.antt =====
-- `refreshClaim` and `finalizeClaim`: what the holder of a claim does to its entry.
use Prim.Native.String.{String}
use foundationdb_effect.Prelude.{
  ℕ, ◌+◌, ◌-◌, Bool, true, false, ◌&&◌, Option, none, some, leb, if◌then◌else◌, min,
}
use foundationdb_effect.Queue.Index.{Index}
use foundationdb_effect.Queue.State.{
  EntryState, pending, completed, failed, Metadata, Queue, max_safe_integer, timestamp,
  write_metadata, raise_signal, clear_claim, put_pending, put_lock, put_completed, put_failed,
  remove_lock,
}
use foundationdb_effect.Queue.Claim.{is_processing, held_by, ClaimedEntry}

-- `exit`, as far as `finalizeClaim` looks at it.
pub data Exit : Type 0 where
  success dead_letter interrupted other_failure : Exit

-- `addDelay`, of a whole number of milliseconds; `none` is a duration that is not finite.
unfoldable pub add_delay : ℕ → Option ℕ → ℕ
add_delay now none = max_safe_integer
add_delay now (some milliseconds) = min max_safe_integer (now + milliseconds)

-- What `finalizeClaim` decides before its transaction: the state, the time at which the entry is
-- visible again, and whether the attempt does not count.
pub record Decision : Type 0 where
  pub state : EntryState
  pub visible_at : ℕ
  pub decrement_attempt : Bool

unfoldable pub decide_exit : ℕ → ℕ → ℕ → (ℕ → Option ℕ) → Exit → Decision
decide_exit now attempts max_attempts retry_delay success = record {
  state = completed;
  visible_at = now;
  decrement_attempt = false;
}
decide_exit now attempts max_attempts retry_delay dead_letter = record {
  state = failed;
  visible_at = now;
  decrement_attempt = false;
}
decide_exit now attempts max_attempts retry_delay interrupted = record {
  state = pending;
  visible_at = now;
  decrement_attempt = true;
}
decide_exit now attempts max_attempts retry_delay other_failure =
    if leb max_attempts attempts
    then record { state = failed; visible_at = now; decrement_attempt = false }
    else record {
      state = pending;
      visible_at = add_delay now (retry_delay attempts);
      decrement_attempt = false;
    }

-- The test that both transactions make: the entry is processing, held under the claim, and has the
-- time of its lock, which is returned.
unfoldable pub lock_time : String → Option Metadata → Option (Metadata × ℕ)
lock_time claim_id none = none
lock_time claim_id (some entry) =
    if is_processing entry.state && held_by entry.acquired_by claim_id
    then elim entry.acquired_at [ none ↦ none | some time ↦ some (entry, time) ]
    else none

-- The metadata that `finalizeClaim` writes.
abbrev pub finalized : ℕ → Decision → Metadata → Metadata
finalized now decision entry = record entry {
  attempts = if decision.decrement_attempt then entry.attempts - 1 else entry.attempts;
  state = decision.state;
  visible_at = decision.visible_at;
  acquired_at = none;
  acquired_by = none;
  updated_at = now;
}

module _ {Rows : Type 0} (index : Index Rows) where
  -- `refreshClaim`
  unfoldable pub refresh_claim : ℕ → String → ℕ → Queue Rows → Queue Rows
  refresh_claim now claim_id sequence q = elim (lock_time claim_id (q.metadata sequence)) [
    | none ↦ q
    | some (entry, time) ↦ put_lock index now sequence (
        write_metadata sequence (record entry { acquired_at = some now })
          (remove_lock index (timestamp time) sequence q))
  ]

  -- The index of the state that the entry is given, and the signal.
  abbrev pub place : EntryState → ℕ → ℕ → ℕ → Queue Rows → Queue Rows
  place pending now visible_at sequence q = raise_signal (put_pending index visible_at sequence q)
  place completed now visible_at sequence q = put_completed index now sequence q
  place _ now visible_at sequence q = put_failed index now sequence q

  -- The transaction of `finalizeClaim`.
  unfoldable pub write_decision : ℕ → String → ℕ → Decision → Queue Rows → Queue Rows
  write_decision now claim_id sequence decision q =
      elim (lock_time claim_id (q.metadata sequence)) [
        | none ↦ q
        | some (entry, time) ↦ place decision.state now decision.visible_at sequence (
            write_metadata sequence (finalized now decision entry)
              (clear_claim claim_id (remove_lock index (timestamp time) sequence q)))
      ]

  -- `finalizeClaim`
  unfoldable pub finalize_claim :
      ℕ → String → ClaimedEntry → ℕ → (ℕ → Option ℕ) → Exit → Queue Rows → EntryState × Queue Rows
  finalize_claim now claim_id entry max_attempts retry_delay exit q =
      let decision = decide_exit now entry.entry.attempts max_attempts retry_delay exit in
      (decision.state, write_decision now claim_id entry.sequence decision q)
