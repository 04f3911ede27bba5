-- ===== src/Queue/Tests.antt =====
-- A queue on a small index, with an entry that is offered, taken and finalized.
use foundationdb_effect.Prelude.{
  some-injective, ℕ, ◌≤◌, ◌≡◌, ◌≢◌, refl, ap, ◌∙◌, Bool, true, false, Option, none, some, List, [],
  ◌∷◌, arith, leb, if◌then◌else◌, All, leb→le,
}
use Prim.Native.String.{String}
use text.Mathlib.TextEquality.{eq_iff}
use foundationdb_effect.Prelude.Result.{ok}
use foundationdb_effect.Bytes.{Bytes}
use foundationdb_effect.Queue.Index.{Row, Index, same_key}
use foundationdb_effect.Queue.State.{Metadata, Queue}
use foundationdb_effect.Queue.Offer.{offer, offered, insert_entry}
use foundationdb_effect.Queue.Claim.{claim, ClaimResult, taken, take_pending, ClaimedEntry}
use foundationdb_effect.Queue.Finalize.{
  finalize_claim, refresh_claim, write_decision, lock_time, decide_exit, success, other_failure,
}
use foundationdb_effect.Prelude.Int.{pos}
use foundationdb_effect.Queue.Cleanup.{is_completed, cleanup_batch}
use foundationdb_effect.Queue.Cleaned.{cleanup_batch-Consistent}
use foundationdb_effect.Queue.Consistent.{Consistent}
use foundationdb_effect.Queue.Holder.{
  refresh_claim-Consistent, finalize_claim-Consistent, fenced, write_decision_once,
}
use foundationdb_effect.Queue.Offered.{offer-Consistent, offer_once}
use foundationdb_effect.Queue.Taking.{take_pending-steps}
use foundationdb_effect.Queue.Claiming.{claim-Consistent, Claimed}
use foundationdb_effect.Queue.Live.{claim_live}

-- Rows by their keys, of which a scan reads some.
abbrev SmallRows : Type 0
SmallRows = ℕ → ℕ → Option ℕ

abbrev within : Option ℕ → ℕ → Bool
within none t = true
within (some bound) t = leb t bound

abbrev add_row : ℕ → ℕ → Option ℕ → Bool → List Row → List Row
add_row t s none keep more = more
add_row t s (some v) true more = record { time = t; sequence = s; value = v } ∷ more
add_row t s (some v) false more = more

abbrev collect : Option ℕ → SmallRows → List (ℕ × ℕ) → List Row
collect bound rows [] = []
collect bound rows ((t, s) ∷ keys) =
    add_row t s (rows t s) (within bound t) (collect bound rows keys)

abbrev small_keys : List (ℕ × ℕ)
small_keys = (1, 0) ∷ (1, 1) ∷ (2, 0) ∷ (2, 1) ∷ []

add_row-All :
    (P : Row → Type 0) (t s : ℕ) (o : Option ℕ) (keep : Bool) (more : List Row)
    → ((v : ℕ) → o ≡ some v → keep ≡ true → P (record { time = t; sequence = s; value = v }))
    → All P more
    → All P (add_row t s o keep more)
add_row-All P t s none keep more f h = h
add_row-All P t s (some v) true more f h = (f v refl refl, h)
add_row-All P t s (some v) false more f h = h

collect_sound :
    (bound : Option ℕ) (rows : SmallRows) (keys : List (ℕ × ℕ))
    → All (λ row. rows row.time row.sequence ≡ some row.value) (collect bound rows keys)
collect_sound bound rows [] = tt
collect_sound bound rows ((t, s) ∷ keys) =
    add_row-All _ t s (rows t s) (within bound t) (collect bound rows keys) (λ v e _. e)
      (collect_sound bound rows keys)

collect_until :
    (bound : ℕ) (rows : SmallRows) (keys : List (ℕ × ℕ))
    → All (λ row. row.time ≤ bound) (collect (some bound) rows keys)
collect_until bound rows [] = tt
collect_until bound rows ((t, s) ∷ keys) =
    add_row-All (λ row. row.time ≤ bound) t s (rows t s) (leb t bound)
      (collect (some bound) rows keys) (λ v _ near. leb→le t bound near)
      (collect_until bound rows keys)

abbrev small_index : Index SmallRows
small_index = record {
  find = λ t s rows. rows t s;
  put = λ time sequence value rows t s. if same_key time sequence t s then some value else rows t s;
  remove = λ time sequence rows t s. if same_key time sequence t s then none else rows t s;
  scan = λ bound rows. collect bound rows small_keys;
  find-put = λ time sequence value t s rows. refl;
  find-remove = λ time sequence t s rows. refl;
  scan_sound = λ bound rows. collect_sound bound rows small_keys;
  scan_until = λ bound rows. collect_until bound rows small_keys;
}

abbrev no_rows : SmallRows
no_rows = λ t s. none

abbrev empty_queue : Queue SmallRows
empty_queue = record {
  counter = none;
  signal = 0;
  metadata = λ s. none;
  elements = λ s. none;
  ids = λ id. none;
  claims = λ c. none;
  pending_index = no_rows;
  lock_index = no_rows;
  completed_index = no_rows;
  failed_index = no_rows;
}

none≢some' : {m : Metadata} → none ≢ some m
none≢some' e = cc

no_row : {v : ℕ} → none ≢ some v
no_row e = cc

empty-Consistent : Consistent small_index empty_queue
empty-Consistent = record {
  placed = λ s m e. absurd (none≢some' e);
  pending_rows = λ t s v e. absurd (no_row e);
  lock_rows = λ t s v e. absurd (no_row e);
  completed_rows = λ t s v e. absurd (no_row e);
  failed_rows = λ t s v e. absurd (no_row e);
  whole = λ s. refl;
  fresh = λ s m e. absurd (none≢some' e);
  known = λ s m e. absurd (none≢some' e);
}

abbrev element : Bytes
element = 7 ∷ []

abbrev waiting_queue : Queue SmallRows
waiting_queue = insert_entry small_index 1 "job" element 0 empty_queue

waiting-Consistent : Consistent small_index waiting_queue
unfolding offer
waiting-Consistent = offer-Consistent small_index 1 "job" element empty_queue empty-Consistent

abbrev first_row : Row
first_row = record { time = 1; sequence = 0; value = 0 }

abbrev locked_queue : Queue SmallRows
locked_queue =
    (take_pending small_index 2 "worker" 3 first_row (offered "job" 1) element waiting_queue).1

locked-Consistent : Consistent small_index locked_queue
locked-Consistent =
    (take_pending-steps small_index 2 "worker" 3 first_row (offered "job" 1) element waiting_queue
      refl refl refl refl refl waiting-Consistent).0

abbrev held_entry : Metadata
held_entry = taken 2 "worker" (offered "job" 1)

abbrev held_claim : ClaimedEntry
held_claim = record { sequence = 0; entry = held_entry; element = element }

offer-Consistent_example :
    Consistent small_index (offer small_index 2 "other" element waiting_queue)
offer-Consistent_example =
    offer-Consistent small_index 2 "other" element waiting_queue waiting-Consistent

offer_once_example :
    offer small_index 9 "job" [] (offer small_index 2 "job" element waiting_queue)
    ≡ offer small_index 2 "job" element waiting_queue
offer_once_example = offer_once small_index 2 9 "job" element [] waiting_queue

claim-Consistent_example :
    (result : ClaimResult) × (q' : Queue SmallRows) × (claim small_index 2 1 "worker" 3
        waiting_queue
      ≡ ok (result, q'))
    × Consistent small_index q'
    × Claimed small_index "worker" result q'
claim-Consistent_example =
    claim-Consistent small_index 2 1 "worker" 3 waiting_queue (omega arith) waiting-Consistent

claim_live_example :
    (result : ClaimResult) × (q' : Queue SmallRows) × (claim small_index 3 5 "thief" 3 locked_queue
      ≡ ok (result, q'))
    × (q'.metadata 0 ≡ some held_entry)
unfolding take_pending
claim_live_example =
    claim_live small_index 3 5 "thief" 3 locked_queue (omega arith) locked-Consistent 0 held_entry 2
      refl (omega arith) refl refl

refresh_claim-Consistent_example :
    Consistent small_index (refresh_claim small_index 3 "worker" 0 locked_queue)
refresh_claim-Consistent_example =
    refresh_claim-Consistent small_index 3 "worker" 0 locked_queue locked-Consistent

finalize_claim-Consistent_example :
    Consistent small_index
      (finalize_claim small_index 3 "worker" held_claim 3
        (λ n. some n)
        other_failure
        locked_queue).1
finalize_claim-Consistent_example =
    finalize_claim-Consistent small_index 3 "worker" held_claim 3 (λ n. some n) other_failure
      locked_queue locked-Consistent

false≢true : false ≢ true
false≢true e = cc

other_worker : ◌≢◌ {A = Option String} (some "worker") (some "thief")
other_worker e = false≢true ((eq_iff "worker" "thief").1 (some-injective e))

fenced_example :
    (refresh_claim small_index 3 "thief" 0 locked_queue ≡ locked_queue)
    × ((finalize_claim small_index 3 "thief" held_claim 3 (λ n. some n) success locked_queue).1
        ≡ locked_queue)
unfolding take_pending
fenced_example =
    fenced small_index 3 "thief" held_claim 3 (λ n. some n) success locked_queue
      (λ m e p a. other_worker (ap (λ x. x.acquired_by) (some-injective e) ∙ a))

write_decision_once_example :
    write_decision small_index 9 "worker" 0 (decide_exit 9 1 3 (λ n. some n) success) (
      write_decision small_index 3 "worker" 0
        (decide_exit 3 1 3 (λ n. some n) success)
        locked_queue)
    ≡ write_decision small_index 3 "worker" 0 (decide_exit 3 1 3 (λ n. some n) success) locked_queue
unfolding take_pending lock_time
write_decision_once_example =
    write_decision_once small_index 3 9 "worker" "worker" 0
      (decide_exit 3 1 3 (λ n. some n) success) (decide_exit 9 1 3 (λ n. some n) success)
      locked_queue held_entry 2 refl

abbrev done_queue : Queue SmallRows
done_queue =
    (finalize_claim small_index 3 "worker" held_claim 3 (λ n. some n) success locked_queue).1

cleanup_batch-Consistent_example :
    Consistent small_index (cleanup_batch small_index is_completed (pos 5) done_queue).1
cleanup_batch-Consistent_example =
    cleanup_batch-Consistent small_index is_completed (pos 5) done_queue (omega arith) (
      finalize_claim-Consistent small_index 3 "worker" held_claim 3 (λ n. some n) success
        locked_queue locked-Consistent)
