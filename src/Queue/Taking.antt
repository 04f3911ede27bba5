-- ===== src/Queue/Taking.antt =====
-- The loop over the pending rows: it takes the first entry that may be taken, and keeps the
-- invariant.
use Prim.Native.String.{String}
use std.Path.{fun_ext}
use foundationdb_effect.Prelude.Maps.{update, update_self, update_text_self}
use foundationdb_effect.Prelude.{
  some-injective, none≢some, ℕ, ◌≡◌, ◌≢◌, ◌⊎◌, refl, sym, ap, ◌∙◌, true, false, Option, none, some,
  List, [], ◌∷◌, arith, leb, ltb, subst, Option-cases, Bool-cases, inl, inr, All,
}
use foundationdb_effect.Prelude.Result.{Result, ok, ◌>>=◌}
use foundationdb_effect.Bytes.{Bytes}
use foundationdb_effect.Queue.Index.{Row, Index}
use foundationdb_effect.Queue.State.{
  EntryState, pending, processing, completed, failed, Metadata, Queue, timestamp, set_claim,
  put_lock, remove_pending, write_metadata, read_entry, whole_entry, QueueStoreFailure,
}
use foundationdb_effect.Queue.Claim.{
  ClaimedEntry, take_pending, take_entry, take_rows, taken, is_pending,
}
use foundationdb_effect.Queue.Consistent.{Consistent, defined, find-put_self}
use foundationdb_effect.Queue.Updates.{
  Edits, Edits-Consistent, Touches-refl, write_metadata-Edits, put_lock-Edits, set_claim-Edits,
  remove_pending-Edits,
}
use foundationdb_effect.Queue.Holder.{pending-Consistent, failed-Consistent}
use foundationdb_effect.Queue.Recovery.{remove_pending-Consistent}

module _ {Rows : Type 0} where
  -- `readEntry` gives an entry whole, or nothing for an entry that is not there.
  abbrev pub Found : Queue Rows → ℕ → Option (Metadata × Bytes) → Type 0
  Found q s none = q.metadata s ≡ none
  Found q s (some (m, element)) = (q.metadata s ≡ some m) × (q.elements s ≡ some element)

  -- What is known after a round or a claim: the claim holds the entry that was taken, or is free.
  abbrev pub Taken : String → Option ClaimedEntry → Queue Rows → Type 0
  Taken c none q = q.claims c ≡ none
  Taken c (some e) q =
      (q.metadata e.sequence ≡ some e.entry)
      × (q.elements e.sequence ≡ some e.element)
      × (e.entry.state ≡ processing)
      × (e.entry.acquired_by ≡ some c)
      × (q.claims c ≡ some e.sequence)

whole_entry-total :
    (m : Option Metadata) (element : Option Bytes)
    → defined m ≡ defined element
    → (whole_entry m element ≡ ok none) × (m ≡ none)
      ⊎ (m' : Metadata) × (e' : Bytes) × (whole_entry m element ≡ ok (some (m', e')))
        × (m ≡ some m')
        × (element ≡ some e')
whole_entry-total none none e = inl (refl, refl)
whole_entry-total none (some element) e = cc
whole_entry-total (some m) none e = cc
whole_entry-total (some m) (some element) e = inr (m, element, refl, refl, refl)

update_known : (f : ℕ → Option Metadata) (k : ℕ) (v : Option Metadata) → f k ≡ v → f ≡ update f k v
update_known f k v e = fun_ext (λ j. ground (arith, e))

module _ {Rows : Type 0} (index : Index Rows) where
  pub read_entry-total :
      (q : Queue Rows) (s : ℕ)
      → Consistent index q
      → (found : Option (Metadata × Bytes)) × (read_entry q s ≡ ok found) × Found q s found
  unfolding read_entry
  read_entry-total q s h = elim (whole_entry-total (q.metadata s) (q.elements s) (h.whole s)) [
    | inl (r, m) ↦ (none, r, m)
    | inr (m', e', r, m, e) ↦ (some (m', e'), r, (m, e))
  ]

  unchanged-Edits :
      (s : ℕ) (m : Metadata) (q : Queue Rows) → q.metadata s ≡ some m → Edits index s m m q q
  unchanged-Edits s m q e = (
    (e, refl, update_known q.metadata s (some m) e, refl, refl, refl),
    Touches-refl index s q.pending_index,
    Touches-refl index s q.lock_index,
    Touches-refl index s q.completed_index,
    Touches-refl index s q.failed_index,
    λ c s' n e'. e',
  )

  pub take_pending-steps :
      (now : ℕ) (c : String) (max_attempts : ℕ) (row : Row) (entry : Metadata) (element : Bytes)
      → (q : Queue Rows) → row.sequence ≡ row.value
      → q.metadata row.value ≡ some entry
      → q.elements row.value ≡ some element
      → entry.state ≡ pending
      → q.claims c ≡ none
      → Consistent index q
      → let r = take_pending index now c max_attempts row entry element q in
        Consistent index r.1 × Taken c r.0 r.1
  unfolding take_pending
  take_pending-steps now c max_attempts row entry element q same e el p free h =
      elim (Bool-cases (ltb now entry.visible_at)) [
        | inl later ↦
            rw (later, take_pending)
              (
                pending-Consistent index row.value entry.visible_at entry entry q
                    (remove_pending index row q) h
                    (remove_pending-Edits index row.value entry entry q q row same
                      (unchanged-Edits row.value entry q e))
                    p refl,
                free,
              )
        | inr due ↦ elim (Bool-cases (leb max_attempts entry.attempts)) [
          | inl tired ↦
              let new = record entry { state = failed; updated_at = now } in
              rw (due, tired, take_pending)
                (
                  failed-Consistent index row.value now entry new q _ h
                      (remove_pending-Edits index row.value entry new q
                        (write_metadata row.value new q) row same
                        (write_metadata-Edits index row.value entry new q e refl))
                      refl refl,
                  free,
                )
          | inr fit ↦
              let new = taken now c entry in
              let q₁ = write_metadata row.value new q in
              let q₂ = remove_pending index row q₁ in
              let q₃ = put_lock index now row.value q₂ in
              let held = update_text_self q₃.claims c (some row.value) in
              rw (due, fit, take_pending)
                (
                  Edits-Consistent index row.value entry new q (set_claim c row.value q₃) h
                      (set_claim-Edits index row.value entry new q q₃ c free (
                        put_lock-Edits index row.value entry new q q₂ now (
                          remove_pending-Edits index row.value entry new q q₁ row same
                            (write_metadata-Edits index row.value entry new q e refl))))
                      (record {
                        time = now;
                        holder = c;
                        acquired = refl;
                        held = refl;
                        locked =
                            find-put_self index (timestamp now) row.value row.value q₂.lock_index;
                        claimed = held;
                      }),
                  (update_self q.metadata row.value (some new), el, refl, refl, held),
                )
        ]
      ]

  pub pending≢processing : pending ≢ processing
  pending≢processing e = cc

  pub is_pending-eq : (state : EntryState) → is_pending state ≡ true → state ≡ pending
  is_pending-eq pending e = refl
  is_pending-eq processing e = cc
  is_pending-eq completed e = cc
  is_pending-eq failed e = cc

  is_pending-ne : (state : EntryState) → is_pending state ≡ false → state ≢ pending
  is_pending-ne pending e p = cc
  is_pending-ne processing e p = cc
  is_pending-ne completed e p = cc
  is_pending-ne failed e p = cc

  pub take_entry-steps :
      (now : ℕ) (c : String) (max_attempts : ℕ) (row : Row) (found : Option (Metadata × Bytes))
      → (q : Queue Rows) → row.sequence ≡ row.value
      → Found q row.value found
      → q.claims c ≡ none
      → Consistent index q
      → let r = take_entry index now c max_attempts row found q in
        Consistent index r.1 × Taken c r.0 r.1
  unfolding take_entry
  take_entry-steps now c max_attempts row none q same gone free h = (
    remove_pending-Consistent index row q
        (λ m e _. none≢some (sym gone ∙ ap q.metadata (sym same) ∙ e)) h,
    free,
  )
  take_entry-steps now c max_attempts row (some (m, element)) q same (e, el) free h =
      elim (Bool-cases (is_pending m.state)) [
        | inl p ↦
            rw (p, take_entry)
              (take_pending-steps now c max_attempts row m element q same e el
                (is_pending-eq m.state p) free h)
        | inr n ↦
            rw (n, take_entry)
              (
                remove_pending-Consistent index row q
                    (λ m' e'.
                      subst (λ x. x.state ≢ pending)
                        (some-injective (sym e ∙ ap q.metadata (sym same) ∙ e'))
                        (is_pending-ne m.state n))
                    h,
                free,
              )
      ]

  -- A round of the loop, after the row's entry is read.
  after_read :
      ℕ
      → String
      → ℕ
      → Row
      → List Row
      → Queue Rows
      → Option (Metadata × Bytes)
      → Result QueueStoreFailure (Option ClaimedEntry × Queue Rows)
  after_read now c max_attempts row rows q found =
      let (result, q') = take_entry index now c max_attempts row found q in
      elim result [
        | some entry ↦ ok (some entry, q')
        | none ↦ take_rows index now c max_attempts rows q'
      ]

  pub take_rows_next :
      (now : ℕ) (c : String) (max_attempts : ℕ) (row : Row) (rows : List Row) (q : Queue Rows)
      → (found : Option (Metadata × Bytes)) → read_entry q row.value ≡ ok found
      → (take_entry index now c max_attempts row found q).0 ≡ none
      → take_rows index now c max_attempts (row ∷ rows) q
        ≡ take_rows index now c max_attempts rows
            (take_entry index now c max_attempts row found q).1
  unfolding take_rows after_read
  take_rows_next now c max_attempts row rows q found r left =
      ap (λ x. x >>= after_read now c max_attempts row rows q) r
      ∙ ap
          (λ x. elim x [
            | some entry ↦ ok (some entry, (take_entry index now c max_attempts row found q).1)
            | none ↦
                take_rows index now c max_attempts rows
                  (take_entry index now c max_attempts row found q).1
          ])
          left

  pub take_rows_found :
      (now : ℕ) (c : String) (max_attempts : ℕ) (row : Row) (rows : List Row) (q : Queue Rows)
      → (found : Option (Metadata × Bytes)) (entry : ClaimedEntry)
      → read_entry q row.value ≡ ok found
      → (take_entry index now c max_attempts row found q).0 ≡ some entry
      → take_rows index now c max_attempts (row ∷ rows) q
        ≡ ok (some entry, (take_entry index now c max_attempts row found q).1)
  unfolding take_rows after_read
  take_rows_found now c max_attempts row rows q found entry r found_one =
      ap (λ x. x >>= after_read now c max_attempts row rows q) r
      ∙ ap
          (λ x. elim x [
            | some entry' ↦ ok (some entry', (take_entry index now c max_attempts row found q).1)
            | none ↦
                take_rows index now c max_attempts rows
                  (take_entry index now c max_attempts row found q).1
          ])
          found_one

  -- The loop ends without a failure, whatever the rows.
  pub take_rows-steps :
      (now : ℕ) (c : String) (max_attempts : ℕ) (rows : List Row) (q : Queue Rows)
      → All (λ row. row.sequence ≡ row.value) rows
      → q.claims c ≡ none
      → Consistent index q
      → (result : Option ClaimedEntry) × (q' : Queue Rows) × (take_rows index now c max_attempts
            rows q
          ≡ ok (result, q'))
        × Consistent index q'
        × Taken c result q'
  unfolding take_rows
  take_rows-steps now c max_attempts [] q _ free h = (none, q, refl, h, free)
  take_rows-steps now c max_attempts (row ∷ rows) q (same, rest) free h =
      let (found, r, f) = read_entry-total q row.value h in
      let (h', t) = take_entry-steps now c max_attempts row found q same f free h in
      elim (Option-cases (take_entry index now c max_attempts row found q).0) [
        | inl left ↦
            let q₁ = (take_entry index now c max_attempts row found q).1 in
            let (result, q', done, h'', t') =
              take_rows-steps now c max_attempts rows q₁ rest (subst (λ x. Taken c x q₁) left t)
                h' in
            (result, q', take_rows_next now c max_attempts row rows q found r left ∙ done, h'', t')
        | inr (entry, found_one) ↦
            let q₁ = (take_entry index now c max_attempts row found q).1 in
            (
              some entry,
              q₁,
              take_rows_found now c max_attempts row rows q found entry r found_one,
              h',
              subst (λ x. Taken c x q₁) found_one t,
            )
      ]
