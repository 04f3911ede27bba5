-- ===== src/Queue/Cleaned.antt =====
-- A batch of `cleanupState` keeps the invariant.
use native.Mathlib.Decide.{ℕ_discrete}
use foundationdb_effect.Prelude.Maps.{update, update_self, update_other, update_text_other}
use foundationdb_effect.Prelude.{
  some-injective, none≢some, ℕ, ◌≤◌, ◌<◌, ◌≡◌, ◌≢◌, refl, sym, ap, ◌∙◌, true, false, none, some,
  List, [], ◌∷◌, arith, Option-cases, Bool-cases, inl, inr,
}
use foundationdb_effect.Prelude.Int.{ℤ, pos, negsuc, pos_part}
use foundationdb_effect.Queue.Index.{Row, Index}
use foundationdb_effect.Queue.State.{
  EntryState, pending, processing, completed, failed, Metadata, Queue, timestamp, max_safe_integer,
  index_before,
}
use foundationdb_effect.Queue.Cleanup.{
  FinalState, is_completed, is_failed, has_state, is_old, rows_of, remove_row, clear_entry,
  cleanup_row, cleanup_rows, cleanup_batch,
}
use foundationdb_effect.Queue.Consistent.{
  Consistent, PlacedAs, PlacedAs-elsewhere, ChangesOnly, remove-Agrees, Agrees,
}
use foundationdb_effect.Queue.Recovery.{Scanned, find-remove_other}
use foundationdb_effect.Queue.Claiming.{index_before-Scanned}

module _ {Rows : Type 0} (index : Index Rows) where
  PlacedAs-remove_row :
      (final : FinalState) (state : EntryState) (row : Row) (s : ℕ) (q : Queue Rows) (m : Metadata)
      → (has_state final state ≡ true → s ≡ row.sequence → timestamp m.updated_at ≢ row.time)
      → PlacedAs index state q s m
      → PlacedAs index state (remove_row index final row q) s m
  PlacedAs-remove_row is_completed pending row s q m n h = h
  PlacedAs-remove_row is_failed pending row s q m n h = h
  PlacedAs-remove_row is_completed processing row s q m n h = record {
    time = h.time;
    holder = h.holder;
    acquired = h.acquired;
    held = h.held;
    locked = h.locked;
    claimed = h.claimed;
  }
  PlacedAs-remove_row is_failed processing row s q m n h = record {
    time = h.time;
    holder = h.holder;
    acquired = h.acquired;
    held = h.held;
    locked = h.locked;
    claimed = h.claimed;
  }
  PlacedAs-remove_row is_completed completed row s q m n h =
      find-remove_other index row.time row.sequence (timestamp m.updated_at) s q.completed_index
        (n refl)
      ∙ h
  PlacedAs-remove_row is_failed completed row s q m n h = h
  PlacedAs-remove_row is_completed failed row s q m n h = h
  PlacedAs-remove_row is_failed failed row s q m n h =
      find-remove_other index row.time row.sequence (timestamp m.updated_at) s q.failed_index
        (n refl)
      ∙ h

  -- The rest of the invariant does not depend on which of the two indexes it is.
  remove_row-Consistent :
      (final : FinalState) (row : Row) (q : Queue Rows)
      → ((m : Metadata)
          → q.metadata row.sequence ≡ some m
          → has_state final m.state ≡ true
          → timestamp m.updated_at ≢ row.time)
      → Consistent index q
      → Consistent index (remove_row index final row q)
  remove_row-Consistent is_completed row q n h = record {
    placed = λ s m e.
        PlacedAs-remove_row is_completed m.state row s q m
          (λ has same. n m (ap q.metadata (sym same) ∙ e) has) (h.placed s m e);
    pending_rows = h.pending_rows;
    lock_rows = h.lock_rows;
    completed_rows = remove-Agrees index row.time row.sequence q.completed_index h.completed_rows;
    failed_rows = h.failed_rows;
    whole = h.whole;
    fresh = h.fresh;
    known = h.known;
  }
  remove_row-Consistent is_failed row q n h = record {
    placed = λ s m e.
        PlacedAs-remove_row is_failed m.state row s q m
          (λ has same. n m (ap q.metadata (sym same) ∙ e) has) (h.placed s m e);
    pending_rows = h.pending_rows;
    lock_rows = h.lock_rows;
    completed_rows = h.completed_rows;
    failed_rows = remove-Agrees index row.time row.sequence q.failed_index h.failed_rows;
    whole = h.whole;
    fresh = h.fresh;
    known = h.known;
  }

  clear_entry-ChangesOnly :
      (s : ℕ) (entry : Metadata) (q : Queue Rows)
      → ChangesOnly index s q (clear_entry index s entry q)
  clear_entry-ChangesOnly s entry q = record {
    metadata = λ s' n. update_other q.metadata s s' none n;
    pending_same = λ t s' n. refl;
    lock_same = λ t s' n. refl;
    completed_same = λ t s' n. refl;
    failed_same = λ t s' n. refl;
    claims = λ c s' n e. e;
  }

  -- What is left was there, at another sequence.
  clear_entry-left :
      (s : ℕ) (entry : Metadata) (q : Queue Rows) (s' : ℕ) (m : Metadata)
      → (clear_entry index s entry q).metadata s' ≡ some m
      → (s' ≢ s) × (q.metadata s' ≡ some m)
  clear_entry-left s entry q s' m e = elim (ℕ_discrete s' s) [
    | yes same ↦ absurd (
        none≢some
          (sym (update_self q.metadata s none) ∙ ap (update q.metadata s none) (sym same) ∙ e))
    | no n ↦ (n, sym (update_other q.metadata s s' none n) ∙ e)
  ]

  clear_entry-Consistent :
      (s : ℕ) (entry : Metadata) (q : Queue Rows)
      → q.metadata s ≡ some entry
      → Consistent index q
      → Consistent index (clear_entry index s entry q)
  clear_entry-Consistent s entry q there h = record {
    placed = λ s' m e.
        let (n, was) = clear_entry-left s entry q s' m e in
        PlacedAs-elsewhere index m.state s s' q (clear_entry index s entry q) m
          (clear_entry-ChangesOnly s entry q) n (h.placed s' m was);
    pending_rows = h.pending_rows;
    lock_rows = h.lock_rows;
    completed_rows = h.completed_rows;
    failed_rows = h.failed_rows;
    whole = λ s'. ground (arith, h.whole s');
    fresh = λ s' m e. h.fresh s' m (clear_entry-left s entry q s' m e).1;
    known = λ s' m e.
        let (n, was) = clear_entry-left s entry q s' m e in
        update_text_other q.ids entry.id m.id none (λ same.
          n (some-injective (sym (h.known s' m was) ∙ ap q.ids (sym same) ∙ h.known s entry there)))
        ∙ h.known s' m was;
  }

  young :
      (final : FinalState) (b t : ℕ) (m : Metadata)
      → b < max_safe_integer
      → t ≤ b
      → is_old final (pos b) m ≡ false
      → has_state final m.state ≡ true
      → timestamp m.updated_at ≢ t
  unfolding timestamp
  young final b t m l u e has = grind arith

  cleanup_row-Consistent :
      (final : FinalState) (b : ℕ) (row : Row) (q : Queue Rows)
      → b < max_safe_integer
      → row.sequence ≡ row.value
      → row.time ≤ b
      → Consistent index q
      → Consistent index (cleanup_row index final (pos b) row q)
  unfolding cleanup_row
  cleanup_row-Consistent final b row q l same u h = elim (Option-cases (q.metadata row.value)) [
    | inl gone ↦
        rw (gone, cleanup_row)
          (remove_row-Consistent final row q
            (λ m e _ _. none≢some (sym gone ∙ ap q.metadata (sym same) ∙ e)) h)
    | inr (m, e) ↦ elim (Bool-cases (is_old final (pos b) m)) [
      | inl old ↦
          let q₁ = clear_entry index row.value m q in
          rw (e, old, cleanup_row)
            (remove_row-Consistent final row q₁
              (λ m' e' _ _. (clear_entry-left row.value m q row.sequence m' e').0 same)
              (clear_entry-Consistent row.value m q e h))
      | inr kept ↦
          rw (e, kept, cleanup_row)
            (remove_row-Consistent final row q
              (λ m' e'. young final b row.time m' l u (
                ap (is_old final (pos b)) (some-injective (sym e' ∙ ap q.metadata same ∙ e))
                ∙ kept))
              h)
    ]
  ]

  cleanup_rows-Consistent :
      (final : FinalState) (b : ℕ) (rows : List Row) (q : Queue Rows)
      → b < max_safe_integer
      → Scanned index b rows
      → Consistent index q
      → Consistent index (cleanup_rows index final (pos b) rows q)
  unfolding cleanup_rows
  cleanup_rows-Consistent final b [] q l _ h = h
  cleanup_rows-Consistent final b (row ∷ rows) q l ((same, u), rest) h =
      cleanup_rows-Consistent final b rows (cleanup_row index final (pos b) row q) l rest
        (cleanup_row-Consistent final b row q l same u h)

  rows_of-Agrees :
      (final : FinalState) (q : Queue Rows)
      → Consistent index q
      → Agrees index (rows_of index final q)
  rows_of-Agrees is_completed q h = h.completed_rows
  rows_of-Agrees is_failed q h = h.failed_rows

  -- With a cutoff before the largest safe time, a batch of `cleanupState` leaves a consistent queue
  -- consistent.
  pub cleanup_batch-Consistent :
      (final : FinalState) (cutoff : ℤ) (q : Queue Rows)
      → pos_part cutoff < max_safe_integer
      → Consistent index q
      → Consistent index (cleanup_batch index final cutoff q).1
  unfolding cleanup_batch cleanup_rows index_before
  cleanup_batch-Consistent final (pos b) q l h =
      cleanup_rows-Consistent final b (index_before index (rows_of index final q) (pos b)) q l
        (index_before-Scanned index (rows_of index final q) b l (rows_of-Agrees final q h)) h
  cleanup_batch-Consistent final (negsuc n) q l h = h
