-- ===== src/Queue/Holder.antt =====
-- What the holder of a claim does to its entry keeps the invariant: `refreshClaim` and
-- `finalizeClaim`.
use Prim.Native.String.{String}
use foundationdb_effect.Prelude.Maps.{update_self}
use foundationdb_effect.Prelude.{
  some-injective, ℕ, ◌≡◌, ◌≢◌, refl, sym, ap, ◌∙◌, Option, none, some, arith, Option-cases, inl,
  inr,
}
use foundationdb_effect.Queue.Index.{Index}
use foundationdb_effect.Queue.State.{
  EntryState, pending, processing, completed, failed, Metadata, Queue, timestamp, clear_claim,
  put_pending, put_lock, put_completed, put_failed, remove_lock, write_metadata,
}
use foundationdb_effect.Queue.Claim.{ClaimedEntry}
use foundationdb_effect.Queue.Finalize.{
  success, dead_letter, interrupted, other_failure, lock_time, refresh_claim, write_decision,
  Decision, place, finalized, finalize_claim, Exit, decide_exit,
}
use foundationdb_effect.Queue.Consistent.{Consistent, find-put_self}
use foundationdb_effect.Queue.Updates.{
  Edits, Edits-Consistent, write_metadata-Edits, put_pending-Edits, put_lock-Edits,
  put_completed-Edits, put_failed-Edits, remove_lock-Edits, clear_claim-Edits, Placed-at,
  lock_time-eq-some, raise_signal-Consistent, Placed-Locked,
}

module _ {Rows : Type 0} (index : Index Rows) where
  -- The claim of a locked entry leads to no other entry.
  pub claims_elsewhere :
      (q : Queue Rows) (c : String) (s : ℕ) (m : Metadata)
      → Consistent index q
      → q.metadata s ≡ some m
      → m.state ≡ processing
      → m.acquired_by ≡ some c
      → q.claims c ≡ some s
  claims_elsewhere q c s m h e p a =
      let l = Placed-Locked index q s m p (h.placed s m e) in
      ap q.claims (some-injective (sym a ∙ l.held)) ∙ l.claimed

  refresh_claim-Edits :
      (now : ℕ) (c : String) (s t : ℕ) (m : Metadata) (q : Queue Rows)
      → Consistent index q
      → q.metadata s ≡ some m
      → m.state ≡ processing
      → m.acquired_by ≡ some c
      → Consistent index (
          put_lock index now s (
            write_metadata s
              (record m { acquired_at = some now })
              (remove_lock index (timestamp t) s q)))
  refresh_claim-Edits now c s t m q h e p a =
      let new = record m { acquired_at = some now } in
      let q₁ = remove_lock index (timestamp t) s (write_metadata s new q) in
      let edits = put_lock-Edits index s m new q q₁ now (
        remove_lock-Edits index s m new q (write_metadata s new q) (timestamp t) s refl
          (write_metadata-Edits index s m new q e refl)) in
      Edits-Consistent index s m new q (put_lock index now s q₁) h edits (
        Placed-at index processing (put_lock index now s q₁) s new p (record {
          time = now;
          holder = c;
          acquired = refl;
          held = a;
          locked = find-put_self index (timestamp now) s s q₁.lock_index;
          claimed = claims_elsewhere q c s m h e p a;
        }))

  -- `refreshClaim` leaves a consistent queue consistent.
  pub refresh_claim-Consistent :
      (now : ℕ) (c : String) (s : ℕ) (q : Queue Rows)
      → Consistent index q
      → Consistent index (refresh_claim index now c s q)
  unfolding refresh_claim
  refresh_claim-Consistent now c s q h = elim (Option-cases (lock_time c (q.metadata s))) [
    | inl free ↦ rw (free, refresh_claim) h
    | inr ((m, t), held) ↦
        let (e, p, a, _) = lock_time-eq-some c (q.metadata s) m t held in
        rw (held, refresh_claim) (refresh_claim-Edits now c s t m q h e p a)
  ]

  -- An entry that is released is pending, or failed.
  pub pending-Consistent :
      (s t : ℕ) (old new : Metadata) (q q₁ : Queue Rows)
      → Consistent index q
      → Edits index s old new q q₁
      → new.state ≡ pending
      → new.visible_at ≡ t
      → Consistent index (put_pending index t s q₁)
  pending-Consistent s t old new q q₁ h r p v =
      Edits-Consistent index s old new q (put_pending index t s q₁) h
        (put_pending-Edits index s old new q q₁ t r)
        (Placed-at index pending (put_pending index t s q₁) s new p (
          ap (λ x. index.find (timestamp x) s (put_pending index t s q₁).pending_index) v
          ∙ find-put_self index (timestamp t) s s q₁.pending_index))

  pub completed-Consistent :
      (s t : ℕ) (old new : Metadata) (q q₁ : Queue Rows)
      → Consistent index q
      → Edits index s old new q q₁
      → new.state ≡ completed
      → new.updated_at ≡ t
      → Consistent index (put_completed index t s q₁)
  completed-Consistent s t old new q q₁ h r p v =
      Edits-Consistent index s old new q (put_completed index t s q₁) h
        (put_completed-Edits index s old new q q₁ t r)
        (Placed-at index completed (put_completed index t s q₁) s new p (
          ap (λ x. index.find (timestamp x) s (put_completed index t s q₁).completed_index) v
          ∙ find-put_self index (timestamp t) s s q₁.completed_index))

  pub failed-Consistent :
      (s t : ℕ) (old new : Metadata) (q q₁ : Queue Rows)
      → Consistent index q
      → Edits index s old new q q₁
      → new.state ≡ failed
      → new.updated_at ≡ t
      → Consistent index (put_failed index t s q₁)
  failed-Consistent s t old new q q₁ h r p v =
      Edits-Consistent index s old new q (put_failed index t s q₁) h
        (put_failed-Edits index s old new q q₁ t r)
        (Placed-at index failed (put_failed index t s q₁) s new p (
          ap (λ x. index.find (timestamp x) s (put_failed index t s q₁).failed_index) v
          ∙ find-put_self index (timestamp t) s s q₁.failed_index))

  place-Consistent :
      (state : EntryState) (now t s : ℕ) (old new : Metadata) (q q₁ : Queue Rows)
      → state ≢ processing
      → Consistent index q
      → Edits index s old new q q₁
      → new.state ≡ state
      → new.visible_at ≡ t
      → new.updated_at ≡ now
      → Consistent index (place index state now t s q₁)
  place-Consistent pending now t s old new q q₁ n h r p v u =
      raise_signal-Consistent index (put_pending index t s q₁)
        (pending-Consistent s t old new q q₁ h r p v)
  place-Consistent processing now t s old new q q₁ n h r p v u = absurd (n refl)
  place-Consistent completed now t s old new q q₁ n h r p v u =
      completed-Consistent s now old new q q₁ h r p u
  place-Consistent failed now t s old new q q₁ n h r p v u =
      failed-Consistent s now old new q q₁ h r p u

  pub write_decision-Consistent :
      (now : ℕ) (c : String) (s : ℕ) (d : Decision) (q : Queue Rows)
      → d.state ≢ processing
      → Consistent index q
      → Consistent index (write_decision index now c s d q)
  unfolding write_decision
  write_decision-Consistent now c s d q n h = elim (Option-cases (lock_time c (q.metadata s))) [
    | inl free ↦ rw (free, write_decision) h
    | inr ((m, t), held) ↦
        let (e, p, a, _) = lock_time-eq-some c (q.metadata s) m t held in
        let new = finalized now d m in
        let q₁ = write_metadata s new q in
        let q₂ = remove_lock index (timestamp t) s q₁ in
        let edits = clear_claim-Edits index s m new q q₂ c (claims_elsewhere q c s m h e p a) (
          remove_lock-Edits index s m new q q₁ (timestamp t) s refl
            (write_metadata-Edits index s m new q e refl)) in
        rw (held, write_decision)
          (place-Consistent d.state now d.visible_at s m new q (clear_claim c q₂) n h edits refl
            refl refl)
  ]

  decide_exit_final :
      (now attempts max_attempts : ℕ) (retry_delay : ℕ → Option ℕ) (exit : Exit)
      → (decide_exit now attempts max_attempts retry_delay exit).state ≢ processing
  unfolding decide_exit
  decide_exit_final now attempts max_attempts retry_delay success e = cc
  decide_exit_final now attempts max_attempts retry_delay dead_letter e = cc
  decide_exit_final now attempts max_attempts retry_delay interrupted e = cc
  decide_exit_final now attempts max_attempts retry_delay other_failure e = ground arith

  -- `finalizeClaim` leaves a consistent queue consistent, whatever the exit.
  pub finalize_claim-Consistent :
      (now : ℕ) (c : String) (entry : ClaimedEntry) (max_attempts : ℕ)
      → (retry_delay : ℕ → Option ℕ) (exit : Exit) (q : Queue Rows) → Consistent index q
      → Consistent index (finalize_claim index now c entry max_attempts retry_delay exit q).1
  unfolding finalize_claim
  finalize_claim-Consistent now c entry max_attempts retry_delay exit q h =
      write_decision-Consistent now c entry.sequence
        (decide_exit now entry.entry.attempts max_attempts retry_delay exit) q
        (decide_exit_final now entry.entry.attempts max_attempts retry_delay exit) h

  -- Where an entry is not held under a claim, `refreshClaim` and `finalizeClaim` under that claim
  -- leave the queue as it is.
  pub fenced :
      (now : ℕ) (c : String) (entry : ClaimedEntry) (max_attempts : ℕ)
      → (retry_delay : ℕ → Option ℕ) (exit : Exit) (q : Queue Rows)
      → ((m : Metadata)
          → q.metadata entry.sequence ≡ some m
          → m.state ≡ processing
          → m.acquired_by ≢ some c)
      → (refresh_claim index now c entry.sequence q ≡ q)
        × ((finalize_claim index now c entry max_attempts retry_delay exit q).1 ≡ q)
  unfolding finalize_claim write_decision refresh_claim
  fenced now c entry max_attempts retry_delay exit q n =
      elim (Option-cases (lock_time c (q.metadata entry.sequence))) [
        | inl free ↦ (rw (free, refresh_claim) refl, rw (free, finalize_claim, write_decision) refl)
        | inr ((m, t), held) ↦
            let (e, p, a, _) = lock_time-eq-some c (q.metadata entry.sequence) m t held in
            absurd (n m e p a)
      ]

  lock_time_released :
      (now : ℕ) (c : String) (d : Decision) (m : Metadata)
      → lock_time c (some (finalized now d m)) ≡ none
  unfolding lock_time
  lock_time_released now c d m = grind arith

  place-metadata :
      (state : EntryState) (now t s : ℕ) (q : Queue Rows)
      → (place index state now t s q).metadata ≡ q.metadata
  place-metadata pending now t s q = refl
  place-metadata processing now t s q = refl
  place-metadata completed now t s q = refl
  place-metadata failed now t s q = refl

  write_decision_locked :
      (now : ℕ) (c : String) (s : ℕ) (d : Decision) (q : Queue Rows) (m : Metadata) (t : ℕ)
      → lock_time c (q.metadata s) ≡ some (m, t)
      → (write_decision index now c s d q).metadata s ≡ some (finalized now d m)
  unfolding write_decision
  write_decision_locked now c s d q m t held =
      let q₁ =
        write_metadata s (finalized now d m)
          (clear_claim c (remove_lock index (timestamp t) s q)) in
      rw (held, write_decision)
        (ap (λ f. f s) (place-metadata d.state now d.visible_at s q₁)
          ∙ update_self q.metadata s (some (finalized now d m)))

  write_decision_free :
      (now : ℕ) (c : String) (s : ℕ) (d : Decision) (q : Queue Rows)
      → lock_time c (q.metadata s) ≡ none
      → write_decision index now c s d q ≡ q
  unfolding write_decision
  write_decision_free now c s d q free = rw (free, write_decision) refl

  -- After a claim's transaction in `finalizeClaim` on a locked entry, a second one on that entry,
  -- under any claim and with any decision, changes nothing.
  pub write_decision_once :
      (now now' : ℕ) (c c' : String) (s : ℕ) (d d' : Decision) (q : Queue Rows) (m : Metadata)
      (t : ℕ)
      → lock_time c (q.metadata s) ≡ some (m, t)
      → write_decision index now' c' s d' (write_decision index now c s d q)
        ≡ write_decision index now c s d q
  write_decision_once now now' c c' s d d' q m t held =
      write_decision_free now' c' s d' (write_decision index now c s d q) (
        ap (lock_time c') (write_decision_locked now c s d q m t held)
        ∙ lock_time_released now c' d m)
