-- ===== src/Queue/Claim.antt =====
-- `claim`: an earlier claim is resumed, expired locks are recovered, and the first entry that may
-- be taken is taken.
use Prim.Native.String.{String}
use text.Mathlib.Text.{◌==◌ as str_eq}
use foundationdb_effect.Prelude.{
  ℕ, ◌+◌, Bool, true, false, ◌||◌, Option, none, some, List, [], ◌∷◌, leb, ltb, if◌then◌else◌,
}
use foundationdb_effect.Prelude.Int.{ℤ, pos, sub_ℕ, ltb_ℤ}
use foundationdb_effect.Prelude.Result.{Result, ok, ◌>>=◌}
use foundationdb_effect.Bytes.{Bytes}
use foundationdb_effect.Queue.Index.{Row, Index}
use foundationdb_effect.Queue.State.{
  EntryState, pending, processing, failed, Metadata, QueueStoreFailure, Queue, read_entry,
  write_metadata, raise_signal, clear_claim, set_claim, index_before, put_pending, put_lock,
  put_failed, remove_pending, remove_lock,
}

abbrev pub is_processing : EntryState → Bool
is_processing processing = true
is_processing _ = false

abbrev pub is_pending : EntryState → Bool
is_pending pending = true
is_pending _ = false

-- `entry.acquiredBy === claimId`
abbrev pub held_by : Option String → String → Bool
held_by none claim_id = false
held_by (some holder) claim_id = str_eq holder claim_id

-- `ClaimedEntry`
pub record ClaimedEntry : Type 0 where
  pub sequence : ℕ
  pub entry : Metadata
  pub element : Bytes

-- What `claim` returns: an entry, `true` where some row was handled, or a `ClaimWait`.
pub data ClaimResult : Type 0 where
  claimed : ClaimedEntry → ClaimResult
  progressed : ClaimResult
  claim_wait : ClaimResult

-- The test on a locked entry: it is processing, and was acquired at `expired_at` or before.
abbrev pub is_expired : ℤ → Metadata → Bool
is_expired expired_at entry = elim entry.acquired_at [
  | none ↦ false
  | some time ↦
      if is_processing entry.state
      then (if ltb_ℤ expired_at (pos time) then false else true)
      else false
]

-- The metadata that an expired entry is given.
abbrev pub recovered : ℕ → ℕ → Metadata → Metadata
recovered now max_attempts entry =
    if leb max_attempts entry.attempts
    then record entry { state = failed; acquired_at = none; acquired_by = none; updated_at = now }
    else record entry {
      state = pending;
      visible_at = now;
      acquired_at = none;
      acquired_by = none;
      updated_at = now;
    }

-- The metadata of an entry that is taken.
abbrev pub taken : ℕ → String → Metadata → Metadata
taken now claim_id entry = record entry {
  attempts = entry.attempts + 1;
  state = processing;
  acquired_at = some now;
  acquired_by = some claim_id;
  updated_at = now;
}

abbrev pub not_empty : List Row → Bool
not_empty [] = false
not_empty (_ ∷ _) = true

-- What `claim` returns after the loop, given whether there were rows.
abbrev pub claim_result : Bool → Option ClaimedEntry → ClaimResult
claim_result handled (some entry) = claimed entry
claim_result handled none = if handled then progressed else claim_wait

-- The test on the entry of an earlier claim.
abbrev pub is_held : String → Metadata → Bool
is_held claim_id entry =
    if is_processing entry.state then held_by entry.acquired_by claim_id else false

module _ {Rows : Type 0} where
  -- The claim of an expired entry is cleared.
  abbrev pub release_holder : Option String → Queue Rows → Queue Rows
  release_holder none q = q
  release_holder (some holder) q = clear_claim holder q

module _ {Rows : Type 0} (index : Index Rows) where
  -- The recovery of one expired entry, and whether it is pending again.
  unfoldable pub recover_entry : ℕ → ℕ → Row → Metadata → Queue Rows → Queue Rows × Bool
  recover_entry now max_attempts row entry q =
      let freed =
        write_metadata row.value (recovered now max_attempts entry)
          (release_holder entry.acquired_by (remove_lock index row.time row.sequence q)) in
      if leb max_attempts entry.attempts
      then (put_failed index now row.value freed, false)
      else (put_pending index now row.value freed, true)

  -- One round of the loop over the expired locks.
  unfoldable pub recover_row : ℕ → ℤ → ℕ → Row → Queue Rows → Queue Rows × Bool
  recover_row now expired_at max_attempts row q = elim (q.metadata row.value) [
    | none ↦ (remove_lock index row.time row.sequence q, false)
    | some entry ↦
        if is_expired expired_at entry
        then recover_entry now max_attempts row entry q
        else (remove_lock index row.time row.sequence q, false)
  ]

  -- The loop, with `recoveredPending`.
  unfoldable pub recover_rows : ℕ → ℤ → ℕ → List Row → Queue Rows → Bool → Queue Rows × Bool
  recover_rows now expired_at max_attempts [] q recovered_pending = (q, recovered_pending)
  recover_rows now expired_at max_attempts (row ∷ rows) q recovered_pending =
      let (q', again) = recover_row now expired_at max_attempts row q in
      recover_rows now expired_at max_attempts rows q' (recovered_pending || again)

  -- The part of `claim` that recovers, with the signal.
  unfoldable pub recover : ℕ → ℕ → ℕ → Queue Rows → Queue Rows
  recover now lock_expiration max_attempts q =
      let expired_at = sub_ℕ now lock_expiration in
      let (q', again) =
        recover_rows now expired_at max_attempts (index_before index q.lock_index expired_at) q
          false in
      if again then raise_signal q' else q'

  -- One round of the loop over the pending rows, on an entry that is pending.
  unfoldable pub take_pending :
      ℕ → String → ℕ → Row → Metadata → Bytes → Queue Rows → Option ClaimedEntry × Queue Rows
  take_pending now claim_id max_attempts row entry element q =
      let cleared = remove_pending index row q in
      if ltb now entry.visible_at
      then (none, put_pending index entry.visible_at row.value cleared)
      else if leb max_attempts entry.attempts
      then (
        none,
        put_failed index now row.value
            (write_metadata row.value (record entry { state = failed; updated_at = now }) cleared),
      )
      else (
        some (record { sequence = row.value; entry = taken now claim_id entry; element = element }),
        set_claim claim_id row.value (
            put_lock index now row.value
              (write_metadata row.value (taken now claim_id entry) cleared)),
      )

  -- The same round for what `readEntry` returned.
  unfoldable pub take_entry :
      ℕ
      → String
      → ℕ
      → Row
      → Option (Metadata × Bytes)
      → Queue Rows
      → Option ClaimedEntry × Queue Rows
  take_entry now claim_id max_attempts row none q = (none, remove_pending index row q)
  take_entry now claim_id max_attempts row (some (entry, element)) q =
      if is_pending entry.state
      then take_pending now claim_id max_attempts row entry element q
      else (none, remove_pending index row q)

  -- The loop over the pending rows.
  unfoldable pub take_rows :
      ℕ
      → String
      → ℕ
      → List Row
      → Queue Rows
      → Result QueueStoreFailure (Option ClaimedEntry × Queue Rows)
  take_rows now claim_id max_attempts [] q = ok (none, q)
  take_rows now claim_id max_attempts (row ∷ rows) q = do
    found ← read_entry q row.value
    let (result, q') = take_entry now claim_id max_attempts row found q
    elim result [
      | some entry ↦ ok (some entry, q')
      | none ↦ take_rows now claim_id max_attempts rows q'
    ]

  -- `claim` where there is no claim to resume.
  unfoldable pub claim_next :
      ℕ → ℕ → String → ℕ → Queue Rows → Result QueueStoreFailure (ClaimResult × Queue Rows)
  claim_next now lock_expiration claim_id max_attempts q =
      let expired = index_before index q.lock_index (sub_ℕ now lock_expiration) in
      let q₁ = recover now lock_expiration max_attempts q in
      let rows = index_before index q₁.pending_index (pos now) in
      do
        (result, q₂) ← take_rows now claim_id max_attempts rows q₁
        ok (claim_result (not_empty expired || not_empty rows) result, q₂)

  unfoldable pub resume :
      ℕ
      → ℕ
      → String
      → ℕ
      → ℕ
      → Option (Metadata × Bytes)
      → Queue Rows
      → Result QueueStoreFailure (ClaimResult × Queue Rows)
  resume now lock_expiration claim_id max_attempts sequence none q =
      claim_next now lock_expiration claim_id max_attempts (clear_claim claim_id q)
  resume now lock_expiration claim_id max_attempts sequence (some (entry, element)) q =
      if is_held claim_id entry
      then ok (claimed (record { sequence = sequence; entry = entry; element = element }), q)
      else claim_next now lock_expiration claim_id max_attempts (clear_claim claim_id q)

  -- `claim`
  unfoldable pub claim :
      ℕ → ℕ → String → ℕ → Queue Rows → Result QueueStoreFailure (ClaimResult × Queue Rows)
  claim now lock_expiration claim_id max_attempts q = elim (q.claims claim_id) [
    | none ↦ claim_next now lock_expiration claim_id max_attempts q
    | some sequence ↦ read_entry q sequence >>= λ found.
        resume now lock_expiration claim_id max_attempts sequence found q
  ]
