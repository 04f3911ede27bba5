-- ===== src/Queue/Live.antt =====
-- What a claim leaves alone: the entries that are locked by others.
use Prim.Native.String.{String}
use foundationdb_effect.Prelude.Maps.{update_other, update_text_self}
use foundationdb_effect.Prelude.{
  true≢false, some-injective, none≢some, ℕ, ◌<◌, ◌≡◌, ◌≢◌, refl, sym, ap, ◌∙◌, Bool, true, false,
  ◌||◌, Option, none, some, List, [], ◌∷◌, arith, leb, subst, Option-cases, Bool-cases, inl, inr,
  All, ltb, ◌+◌, if◌then◌else◌,
}
use foundationdb_effect.Prelude.Int.{ℤ, sub_ℕ}
use foundationdb_effect.Queue.Index.{Row, Index}
use foundationdb_effect.Queue.State.{
  processing, Metadata, Queue, max_safe_integer, clear_claim, remove_lock, write_metadata,
  raise_signal, index_before,
}
use foundationdb_effect.Queue.Claim.{
  is_expired, release_holder, recover_entry, recover_row, recover_rows, ClaimedEntry, take_pending,
  take_entry, take_rows, is_pending, ClaimResult, claimed, claim, claim_result, claim_next, resume,
  recover, is_held, not_empty,
}
use foundationdb_effect.Queue.Consistent.{Consistent}
use foundationdb_effect.Prelude.Result.{ok, ◌>>=◌}
use foundationdb_effect.Bytes.{Bytes}
use foundationdb_effect.Queue.Taking.{
  Taken, Found, read_entry-total, pending≢processing, is_pending-eq, take_entry-steps,
  take_rows_next, take_rows_found,
}
use foundationdb_effect.Queue.Claiming.{
  pending_rows, pending_rows-keys, recover-Consistent, recover-claims, stale-Consistent,
}

module _ {Rows : Type 0} (index : Index Rows) where
  release_holder-metadata :
      (o : Option String) (q : Queue Rows) → (release_holder o q).metadata ≡ q.metadata
  release_holder-metadata none q = refl
  release_holder-metadata (some holder) q = refl

  freed-metadata :
      (row : Row) (o : Option String) (new : Metadata) (q : Queue Rows) (s : ℕ)
      → s ≢ row.value
      → (write_metadata row.value new
            (release_holder o (remove_lock index row.time row.sequence q))).metadata
          s
        ≡ q.metadata s
  freed-metadata row o new q s n =
      let q₁ = remove_lock index row.time row.sequence q in
      update_other (release_holder o q₁).metadata row.value s (some new) n
      ∙ ap (λ f. f s) (release_holder-metadata o q₁)

  recover_entry-metadata :
      (now max_attempts : ℕ) (row : Row) (entry : Metadata) (q : Queue Rows) (s : ℕ)
      → s ≢ row.value
      → (recover_entry index now max_attempts row entry q).0.metadata s ≡ q.metadata s
  unfolding recover_entry
  recover_entry-metadata now max_attempts row entry q s n =
      elim (Bool-cases (leb max_attempts entry.attempts)) [
        | inl tired ↦ rw (tired, recover_entry) (freed-metadata row entry.acquired_by _ q s n)
        | inr fit ↦ rw (fit, recover_entry) (freed-metadata row entry.acquired_by _ q s n)
      ]

  -- An entry whose lock has not expired is left as it is.
  recover_row_live :
      (now max_attempts : ℕ) (b : ℤ) (row : Row) (q : Queue Rows) (s : ℕ) (m : Metadata)
      → is_expired b m ≡ false
      → q.metadata s ≡ some m
      → (recover_row index now b max_attempts row q).0.metadata s ≡ some m
  unfolding recover_row
  recover_row_live now max_attempts b row q s m live e =
      elim (Option-cases (q.metadata row.value)) [
        | inl gone ↦ rw (gone, recover_row) e
        | inr (m', e') ↦ elim (Bool-cases (is_expired b m')) [
          | inl old ↦
              let n = λ (same : s ≡ row.value). true≢false (
                sym old
                ∙ ap (is_expired b) (some-injective (sym e' ∙ ap q.metadata (sym same) ∙ e))
                ∙ live) in
              rw (e', old, recover_row) (recover_entry-metadata now max_attempts row m' q s n ∙ e)
          | inr other ↦ rw (e', other, recover_row) e
        ]
      ]

  pub recover_rows_live :
      (now max_attempts : ℕ) (b : ℤ) (rows : List Row) (q : Queue Rows) (again : Bool)
      → (s : ℕ) (m : Metadata) → is_expired b m ≡ false
      → q.metadata s ≡ some m
      → (recover_rows index now b max_attempts rows q again).0.metadata s ≡ some m
  unfolding recover_rows
  recover_rows_live now max_attempts b [] q again s m live e = e
  recover_rows_live now max_attempts b (row ∷ rows) q again s m live e =
      recover_rows_live now max_attempts b rows (recover_row index now b max_attempts row q).0
        (again || (recover_row index now b max_attempts row q).1) s m live
        (recover_row_live now max_attempts b row q s m live e)

  signalled-metadata :
      (again : Bool) (q : Queue Rows) → (if again then raise_signal q else q).metadata ≡ q.metadata
  signalled-metadata true q = refl
  signalled-metadata false q = refl

  recover_live :
      (now lock_expiration max_attempts : ℕ) (q : Queue Rows) (s : ℕ) (m : Metadata)
      → is_expired (sub_ℕ now lock_expiration) m ≡ false
      → q.metadata s ≡ some m
      → (recover index now lock_expiration max_attempts q).metadata s ≡ some m
  unfolding recover
  recover_live now lock_expiration max_attempts q s m live e =
      let z = sub_ℕ now lock_expiration in
      let r = recover_rows index now z max_attempts (index_before index q.lock_index z) q false in
      ap (λ f. f s) (signalled-metadata r.1 r.0)
      ∙ recover_rows_live now max_attempts z (index_before index q.lock_index z) q false s m live e

  take_pending_live :
      (now : ℕ) (c : String) (max_attempts : ℕ) (row : Row) (entry : Metadata) (element : Bytes)
      → (q : Queue Rows) (s : ℕ) → s ≢ row.value
      → (take_pending index now c max_attempts row entry element q).1.metadata s ≡ q.metadata s
  unfolding take_pending
  take_pending_live now c max_attempts row entry element q s n =
      elim (Bool-cases (ltb now entry.visible_at)) [
        | inl later ↦ rw (later, take_pending) refl
        | inr due ↦ elim (Bool-cases (leb max_attempts entry.attempts)) [
          | inl tired ↦ rw (due, tired, take_pending) (update_other q.metadata row.value s _ n)
          | inr fit ↦ rw (due, fit, take_pending) (update_other q.metadata row.value s _ n)
        ]
      ]

  take_entry_live :
      (now : ℕ) (c : String) (max_attempts : ℕ) (row : Row) (found : Option (Metadata × Bytes))
      → (q : Queue Rows) (s : ℕ) (m : Metadata) → Found q row.value found
      → m.state ≡ processing
      → q.metadata s ≡ some m
      → (take_entry index now c max_attempts row found q).1.metadata s ≡ some m
  unfolding take_entry
  take_entry_live now c max_attempts row none q s m gone p e = e
  take_entry_live now c max_attempts row (some (m', element)) q s m (e', el) p e =
      elim (Bool-cases (is_pending m'.state)) [
        | inl waits ↦
            let n = λ (same : s ≡ row.value). pending≢processing index (
              sym (is_pending-eq index m'.state waits)
              ∙ ap (λ x. x.state) (some-injective (sym e' ∙ ap q.metadata (sym same) ∙ e))
              ∙ p) in
            rw (waits, take_entry) (take_pending_live now c max_attempts row m' element q s n ∙ e)
        | inr other ↦ rw (other, take_entry) e
      ]

  -- An entry that is processing is left as it is.
  pub take_rows_live :
      (now : ℕ) (c : String) (max_attempts : ℕ) (rows : List Row) (q : Queue Rows)
      → All (λ row. row.sequence ≡ row.value) rows
      → q.claims c ≡ none
      → Consistent index q
      → (s : ℕ) (m : Metadata) → m.state ≡ processing
      → q.metadata s ≡ some m
      → (result : Option ClaimedEntry) × (q' : Queue Rows) × (take_rows index now c max_attempts
            rows q
          ≡ ok (result, q'))
        × (q'.metadata s ≡ some m)
  unfolding take_rows
  take_rows_live now c max_attempts [] q _ free h s m p e = (none, q, refl, e)
  take_rows_live now c max_attempts (row ∷ rows) q (same, rest) free h s m p e =
      let (found, r, f) = read_entry-total index q row.value h in
      let (h', t) = take_entry-steps index now c max_attempts row found q same f free h in
      let kept = take_entry_live now c max_attempts row found q s m f p e in
      let q₁ = (take_entry index now c max_attempts row found q).1 in
      elim (Option-cases (take_entry index now c max_attempts row found q).0) [
        | inl left ↦
            let (result, q', done, kept') =
              take_rows_live now c max_attempts rows q₁ rest (subst (λ x. Taken c x q₁) left t) h' s
                m p kept in
            (
              result,
              q',
              take_rows_next index now c max_attempts row rows q found r left ∙ done,
              kept',
            )
        | inr (entry, found_one) ↦ (
          some entry,
          q₁,
          take_rows_found index now c max_attempts row rows q found entry r found_one,
          kept,
        )
      ]

  claim_next_live :
      (now lock_expiration : ℕ) (c : String) (max_attempts : ℕ) (q : Queue Rows)
      → now < max_safe_integer
      → q.claims c ≡ none
      → Consistent index q
      → (s : ℕ) (m : Metadata) → is_expired (sub_ℕ now lock_expiration) m ≡ false
      → m.state ≡ processing
      → q.metadata s ≡ some m
      → (result : ClaimResult) × (q' : Queue Rows) × (claim_next index now lock_expiration c
            max_attempts q
          ≡ ok (result, q'))
        × (q'.metadata s ≡ some m)
  unfolding claim_next pending_rows
  claim_next_live now lock_expiration c max_attempts q l free h s m live p e =
      let q₁ = recover index now lock_expiration max_attempts q in
      let h₁ = recover-Consistent index now lock_expiration max_attempts q l h in
      let (result, q', done, kept) =
        take_rows_live now c max_attempts (pending_rows index now q₁) q₁
          (pending_rows-keys index now q₁ l h₁)
          (recover-claims index now lock_expiration max_attempts q c free) h₁ s m p
          (recover_live now lock_expiration max_attempts q s m live e) in
      let expired = index_before index q.lock_index (sub_ℕ now lock_expiration) in
      let handled = not_empty expired || not_empty (pending_rows index now q₁) in
      (
        claim_result handled result,
        q',
        ap (λ x. x >>= λ r. ok (claim_result handled r.0, r.1)) done,
        kept,
      )

  resume_live :
      (now lock_expiration : ℕ) (c : String) (max_attempts s₀ : ℕ)
      → (found : Option (Metadata × Bytes)) (q : Queue Rows) → now < max_safe_integer
      → q.claims c ≡ some s₀
      → Found q s₀ found
      → Consistent index q
      → (s : ℕ) (m : Metadata) → is_expired (sub_ℕ now lock_expiration) m ≡ false
      → m.state ≡ processing
      → q.metadata s ≡ some m
      → (result : ClaimResult) × (q' : Queue Rows) × (resume index now lock_expiration c
            max_attempts s₀ found q
          ≡ ok (result, q'))
        × (q'.metadata s ≡ some m)
  unfolding resume
  resume_live now lock_expiration c max_attempts s₀ none q l leads gone h s m live p e =
      claim_next_live now lock_expiration c max_attempts (clear_claim c q) l
        (update_text_self q.claims c none)
        (stale-Consistent index c s₀ none q leads (λ m' e'. absurd (none≢some (sym gone ∙ e'))) h) s
        m live p e
  resume_live now lock_expiration c max_attempts s₀ (some (m₀, element)) q l leads (e₀, el) h s m
        live p e =
      elim (Bool-cases (is_held c m₀)) [
        | inl held ↦ (
          claimed (record { sequence = s₀; entry = m₀; element = element }),
          q,
          rw (held, resume) refl,
          e,
        )
        | inr stale ↦
            rw (stale, resume)
              (claim_next_live now lock_expiration c max_attempts (clear_claim c q) l
                (update_text_self q.claims c none)
                (stale-Consistent index c s₀ (some (m₀, element)) q leads
                  (λ m' e'. ap (is_held c) (some-injective (sym e' ∙ e₀)) ∙ stale) h)
                s m live p e)
      ]

  claim_unexpired :
      (now lock_expiration : ℕ) (c : String) (max_attempts : ℕ) (q : Queue Rows)
      → now < max_safe_integer
      → Consistent index q
      → (s : ℕ) (m : Metadata) → is_expired (sub_ℕ now lock_expiration) m ≡ false
      → m.state ≡ processing
      → q.metadata s ≡ some m
      → (result : ClaimResult) × (q' : Queue Rows) × (claim index now lock_expiration c max_attempts
            q
          ≡ ok (result, q'))
        × (q'.metadata s ≡ some m)
  unfolding claim
  claim_unexpired now lock_expiration c max_attempts q l h s m live p e =
      elim (Option-cases (q.claims c)) [
        | inl free ↦
            rw (free, claim)
              (claim_next_live now lock_expiration c max_attempts q l free h s m live p e)
        | inr (s₀, leads) ↦
            let (found, r, f) = read_entry-total index q s₀ h in
            rw (leads, r, claim)
              (resume_live now lock_expiration c max_attempts s₀ found q l leads f h s m live p e)
      ]

  unexpired :
      (now lock_expiration time : ℕ) (m : Metadata)
      → m.acquired_at ≡ some time
      → now < time + lock_expiration
      → is_expired (sub_ℕ now lock_expiration) m ≡ false
  unexpired now lock_expiration time m a l = grind arith

  -- On a consistent queue, before the largest safe time, a claim leaves an entry that is processing
  -- and whose lock is younger than the expiration as it is.
  pub claim_live :
      (now lock_expiration : ℕ) (c : String) (max_attempts : ℕ) (q : Queue Rows)
      → now < max_safe_integer
      → Consistent index q
      → (s : ℕ) (m : Metadata) (time : ℕ) → m.acquired_at ≡ some time
      → now < time + lock_expiration
      → m.state ≡ processing
      → q.metadata s ≡ some m
      → (result : ClaimResult) × (q' : Queue Rows) × (claim index now lock_expiration c max_attempts
            q
          ≡ ok (result, q'))
        × (q'.metadata s ≡ some m)
  claim_live now lock_expiration c max_attempts q l h s m time a live p e =
      claim_unexpired now lock_expiration c max_attempts q l h s m
        (unexpired now lock_expiration time m a live) p e
