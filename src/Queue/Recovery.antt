-- ===== src/Queue/Recovery.antt =====
-- The recovery of expired locks, and the consistency of the queue.
use Prim.Native.String.{String}
use foundationdb_effect.Prelude.{
  some-injective, none≢some, ℕ, ◌<◌, ◌≤◌, ◌≡◌, ◌≢◌, refl, sym, ap, ◌∙◌, Bool, true, false, ◌||◌,
  none, some, List, [], ◌∷◌, arith, leb, subst, Option-cases, Bool-cases, inl, inr, All,
}
use foundationdb_effect.Prelude.Int.{ℤ, pos}
use foundationdb_effect.Queue.Index.{Row, Index}
use foundationdb_effect.Queue.State.{
  EntryState, pending, processing, completed, failed, Metadata, Queue, timestamp, max_safe_integer,
  clear_claim, remove_lock, remove_pending, write_metadata,
}
use foundationdb_effect.Queue.Claim.{is_expired, recover_entry, recover_row, recover_rows}
use foundationdb_effect.Queue.Consistent.{Consistent, PlacedAs, remove-Agrees}
use foundationdb_effect.Queue.Updates.{
  Edits, write_metadata-Edits, remove_lock-Edits, clear_claim-Edits, Placed-Locked,
}
use foundationdb_effect.Queue.Holder.{pending-Consistent, failed-Consistent}

module _ {Rows : Type 0} (index : Index Rows) where
  pub find-remove_other :
      (t s t' s' : ℕ) (rows : Rows)
      → (s' ≡ s → t' ≢ t)
      → index.find t' s' (index.remove t s rows) ≡ index.find t' s' rows
  find-remove_other t s t' s' rows n = ground (arith, index.find-remove t s t' s' rows)

  PlacedAs-remove_lock :
      (state : EntryState) (t s s' : ℕ) (q : Queue Rows) (m : Metadata)
      → ((time : ℕ) → state ≡ processing → m.acquired_at ≡ some time → s' ≡ s → timestamp time ≢ t)
      → PlacedAs index state q s' m
      → PlacedAs index state (remove_lock index t s q) s' m
  PlacedAs-remove_lock pending t s s' q m n h = h
  PlacedAs-remove_lock processing t s s' q m n h = record {
    time = h.time;
    holder = h.holder;
    acquired = h.acquired;
    held = h.held;
    locked =
        find-remove_other t s (timestamp h.time) s' q.lock_index (n h.time refl h.acquired)
        ∙ h.locked;
    claimed = h.claimed;
  }
  PlacedAs-remove_lock completed t s s' q m n h = h
  PlacedAs-remove_lock failed t s s' q m n h = h

  -- A row that is not an entry's lock may be removed.
  pub remove_lock-Consistent :
      (t s : ℕ) (q : Queue Rows)
      → ((m : Metadata) (time : ℕ)
          → q.metadata s ≡ some m
          → m.state ≡ processing
          → m.acquired_at ≡ some time
          → timestamp time ≢ t)
      → Consistent index q
      → Consistent index (remove_lock index t s q)
  remove_lock-Consistent t s q n h = record {
    placed = λ s' m e.
        PlacedAs-remove_lock m.state t s s' q m
          (λ time p a same. n m time (ap q.metadata (sym same) ∙ e) p a) (h.placed s' m e);
    pending_rows = h.pending_rows;
    lock_rows = remove-Agrees index t s q.lock_index h.lock_rows;
    completed_rows = h.completed_rows;
    failed_rows = h.failed_rows;
    whole = h.whole;
    fresh = h.fresh;
    known = h.known;
  }

  PlacedAs-remove_pending :
      (state : EntryState) (row : Row) (s' : ℕ) (q : Queue Rows) (m : Metadata)
      → (state ≡ pending → s' ≢ row.sequence)
      → PlacedAs index state q s' m
      → PlacedAs index state (remove_pending index row q) s' m
  PlacedAs-remove_pending pending row s' q m n h =
      find-remove_other row.time row.sequence (timestamp m.visible_at) s' q.pending_index
        (λ same _. n refl same)
      ∙ h
  PlacedAs-remove_pending processing row s' q m n h = record {
    time = h.time;
    holder = h.holder;
    acquired = h.acquired;
    held = h.held;
    locked = h.locked;
    claimed = h.claimed;
  }
  PlacedAs-remove_pending completed row s' q m n h = h
  PlacedAs-remove_pending failed row s' q m n h = h

  -- A pending row of an entry that is not pending may be removed.
  pub remove_pending-Consistent :
      (row : Row) (q : Queue Rows)
      → ((m : Metadata) → q.metadata row.sequence ≡ some m → m.state ≢ pending)
      → Consistent index q
      → Consistent index (remove_pending index row q)
  remove_pending-Consistent row q n h = record {
    placed = λ s' m e.
        PlacedAs-remove_pending m.state row s' q m (λ p same. n m (ap q.metadata (sym same) ∙ e) p)
          (h.placed s' m e);
    pending_rows = remove-Agrees index row.time row.sequence q.pending_index h.pending_rows;
    lock_rows = h.lock_rows;
    completed_rows = h.completed_rows;
    failed_rows = h.failed_rows;
    whole = h.whole;
    fresh = h.fresh;
    known = h.known;
  }

  freed-Edits :
      (row : Row) (old new : Metadata) (q : Queue Rows) (holder : String)
      → row.sequence ≡ row.value
      → q.metadata row.value ≡ some old
      → old.id ≡ new.id
      → q.claims holder ≡ some row.value
      → Edits index row.value old new q (
          clear_claim holder
            (remove_lock index row.time row.sequence (write_metadata row.value new q)))
  freed-Edits row old new q holder same e i held =
      let q₁ = write_metadata row.value new q in
      clear_claim-Edits index row.value old new q (remove_lock index row.time row.sequence q₁)
        holder held
        (remove_lock-Edits index row.value old new q q₁ row.time row.sequence same
          (write_metadata-Edits index row.value old new q e i))

  recover_entry-Consistent :
      (now max_attempts : ℕ) (row : Row) (entry : Metadata) (q : Queue Rows)
      → row.sequence ≡ row.value
      → q.metadata row.value ≡ some entry
      → entry.state ≡ processing
      → Consistent index q
      → Consistent index (recover_entry index now max_attempts row entry q).0
  unfolding recover_entry
  recover_entry-Consistent now max_attempts row entry q same e p h =
      let l = Placed-Locked index q row.value entry p (h.placed row.value entry e) in
      elim (Bool-cases (leb max_attempts entry.attempts)) [
        | inl tired ↦
            rw (tired, l.held, recover_entry)
              (failed-Consistent index row.value now entry _ q _ h
                (freed-Edits row entry
                  (record entry {
                    state = failed;
                    acquired_at = none;
                    acquired_by = none;
                    updated_at = now;
                  })
                  q l.holder same e refl l.claimed)
                refl refl)
        | inr fit ↦
            rw (fit, l.held, recover_entry)
              (pending-Consistent index row.value now entry _ q _ h
                (freed-Edits row entry
                  (record entry {
                    state = pending;
                    visible_at = now;
                    acquired_at = none;
                    acquired_by = none;
                    updated_at = now;
                  })
                  q l.holder same e refl l.claimed)
                refl refl)
      ]

  is_expired-processing : (b : ℤ) (m : Metadata) → is_expired b m ≡ true → m.state ≡ processing
  is_expired-processing b m e = grind arith

  live_lock :
      (b t time : ℕ) (m : Metadata)
      → b < max_safe_integer
      → t ≤ b
      → is_expired (pos b) m ≡ false
      → m.state ≡ processing
      → m.acquired_at ≡ some time
      → timestamp time ≢ t
  unfolding timestamp
  live_lock b t time m l u e p a = grind arith

  -- The rows of a scan of the lock index.
  abbrev pub Scanned : ℕ → List Row → Type 0
  Scanned b rows = All (λ row. (row.sequence ≡ row.value) × (row.time ≤ b)) rows

  recover_row-Consistent :
      (now b max_attempts : ℕ) (row : Row) (q : Queue Rows)
      → b < max_safe_integer
      → row.sequence ≡ row.value
      → row.time ≤ b
      → Consistent index q
      → Consistent index (recover_row index now (pos b) max_attempts row q).0
  unfolding recover_row
  recover_row-Consistent now b max_attempts row q l same u h =
      elim (Option-cases (q.metadata row.value)) [
        | inl gone ↦
            rw (gone, recover_row)
              (remove_lock-Consistent row.time row.sequence q
                (λ m time e p a _. none≢some (sym gone ∙ ap q.metadata (sym same) ∙ e)) h)
        | inr (m, e) ↦ elim (Bool-cases (is_expired (pos b) m)) [
          | inl old ↦
              rw (e, old, recover_row)
                (recover_entry-Consistent now max_attempts row m q same e
                  (is_expired-processing (pos b) m old) h)
          | inr live ↦
              rw (e, live, recover_row)
                (remove_lock-Consistent row.time row.sequence q
                  (λ m' time e' p a.
                    live_lock b row.time time m' l u
                      (subst (λ x. is_expired (pos b) x ≡ false)
                        (some-injective (sym e ∙ ap q.metadata (sym same) ∙ e')) live)
                      p a)
                  h)
        ]
      ]

  pub recover_rows-Consistent :
      (now b max_attempts : ℕ) (rows : List Row) (q : Queue Rows) (again : Bool)
      → b < max_safe_integer
      → Scanned b rows
      → Consistent index q
      → Consistent index (recover_rows index now (pos b) max_attempts rows q again).0
  unfolding recover_rows
  recover_rows-Consistent now b max_attempts [] q again l _ h = h
  recover_rows-Consistent now b max_attempts (row ∷ rows) q again l ((same, u), rest) h =
      recover_rows-Consistent now b max_attempts rows
        (recover_row index now (pos b) max_attempts row q).0
        (again || (recover_row index now (pos b) max_attempts row q).1) l rest
        (recover_row-Consistent now b max_attempts row q l same u h)
