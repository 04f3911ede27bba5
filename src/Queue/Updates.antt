-- ===== src/Queue/Updates.antt =====
-- Maps after a write, and the parts of a queue that the invariant does not read.
use Prim.Native.String.{String}
use text.Mathlib.TextEquality.{eq_iff}
use foundationdb_effect.Prelude.Maps.{update, update_self, update_other, update_text_other}
use foundationdb_effect.Prelude.{
  some-injective, none≢some, ℕ, ◌≡◌, ◌≢◌, refl, Option, none, some, sym, ap, ◌∙◌, subst, suc, arith,
}
use foundationdb_effect.Queue.Index.{Row, Index}
use foundationdb_effect.Queue.State.{
  EntryState, pending, completed, failed, Metadata, processing, timestamp, write_metadata,
  put_pending, put_lock, put_completed, put_failed, remove_lock, remove_pending, set_claim, Queue,
  raise_signal, clear_claim,
}
use foundationdb_effect.Queue.Finalize.{lock_time}
use foundationdb_effect.Queue.Consistent.{
  Consistent, Agrees, SameElsewhere, Changes-Consistent, put-Agrees, remove-Agrees,
  put-SameElsewhere, remove-SameElsewhere, defined, ChangesOnly, Placed, PlacedAs,
  PlacedAs-elsewhere, Locked,
}

-- The test of the holder's transactions passes only for the holder of a lock.
pub lock_time-eq-some :
    (c : String) (o : Option Metadata) (m : Metadata) (t : ℕ)
    → lock_time c o ≡ some (m, t)
    → (o ≡ some m) × (m.state ≡ processing) × (m.acquired_by ≡ some c) × (m.acquired_at ≡ some t)
unfolding lock_time
lock_time-eq-some c none m t e = cc
lock_time-eq-some c (some entry) m t e = grind (arith, eq_iff)

module _ {Rows : Type 0} (index : Index Rows) where
  ChangesOnly-raise_signal : (s₀ : ℕ) (q : Queue Rows) → ChangesOnly index s₀ q (raise_signal q)
  ChangesOnly-raise_signal s₀ q = record {
    metadata = λ s n. refl;
    pending_same = λ t s n. refl;
    lock_same = λ t s n. refl;
    completed_same = λ t s n. refl;
    failed_same = λ t s n. refl;
    claims = λ c s n e. e;
  }

  -- The signal is not read.
  pub raise_signal-Consistent :
      (q : Queue Rows) → Consistent index q → Consistent index (raise_signal q)
  raise_signal-Consistent q h = record {
    placed = λ s m e.
        PlacedAs-elsewhere index m.state (suc s) s q (raise_signal q) m
          (ChangesOnly-raise_signal (suc s) q) (λ same. omega arith) (h.placed s m e);
    pending_rows = h.pending_rows;
    lock_rows = h.lock_rows;
    completed_rows = h.completed_rows;
    failed_rows = h.failed_rows;
    whole = h.whole;
    fresh = h.fresh;
    known = h.known;
  }

  PlacedAs-clear_claim :
      (state : EntryState) (q : Queue Rows) (c : String) (s : ℕ) (m : Metadata)
      → (state ≡ processing → m.acquired_by ≢ some c)
      → PlacedAs index state q s m
      → PlacedAs index state (clear_claim c q) s m
  PlacedAs-clear_claim pending q c s m n h = h
  PlacedAs-clear_claim processing q c s m n h = record {
    time = h.time;
    holder = h.holder;
    acquired = h.acquired;
    held = h.held;
    locked = h.locked;
    claimed =
        update_text_other q.claims c h.holder none
          (λ same. n refl (h.held ∙ ap (λ x. some x) (sym same)))
        ∙ h.claimed;
  }
  PlacedAs-clear_claim completed q c s m n h = h
  PlacedAs-clear_claim failed q c s m n h = h

  -- A claim under which no entry is processing may be cleared.
  pub clear_claim-Consistent :
      (q : Queue Rows) (c : String)
      → Consistent index q
      → ((s : ℕ) (m : Metadata)
          → q.metadata s ≡ some m
          → m.state ≡ processing
          → m.acquired_by ≢ some c)
      → Consistent index (clear_claim c q)
  clear_claim-Consistent q c h n = record {
    placed = λ s m e. PlacedAs-clear_claim m.state q c s m (n s m e) (h.placed s m e);
    pending_rows = h.pending_rows;
    lock_rows = h.lock_rows;
    completed_rows = h.completed_rows;
    failed_rows = h.failed_rows;
    whole = h.whole;
    fresh = h.fresh;
    known = h.known;
  }

  -- The claim of an entry that is processing.
  pub Placed-Locked :
      (q : Queue Rows) (s : ℕ) (m : Metadata)
      → m.state ≡ processing
      → Placed index q s m
      → Locked index q s m
  Placed-Locked q s m p h = subst (λ state. PlacedAs index state q s m) p h

  -- An index in which at most rows of one entry change, and rows still agree with their keys.
  abbrev pub Touches : ℕ → Rows → Rows → Type 0
  Touches s rows rows' = SameElsewhere index s rows rows' × (Agrees index rows → Agrees index rows')

  pub Touches-refl : (s : ℕ) (rows : Rows) → Touches s rows rows
  Touches-refl s rows = (λ t s' n. refl, λ h. h)

  pub put-Touches : (t s : ℕ) (rows : Rows) → Touches s rows (index.put t s s rows)
  put-Touches t s rows = (put-SameElsewhere index t s s rows, put-Agrees index t s rows)

  pub remove-Touches : (t s : ℕ) (rows : Rows) → Touches s rows (index.remove t s rows)
  remove-Touches t s rows = (remove-SameElsewhere index t s rows, remove-Agrees index t s rows)

  pub put-remove-Touches :
      (t t' s : ℕ) (rows : Rows) → Touches s rows (index.put t s s (index.remove t' s rows))
  put-remove-Touches t t' s rows =
      let (elsewhere, agrees) = put-Touches t s (index.remove t' s rows) in
      let (elsewhere', agrees') = remove-Touches t' s rows in
      (λ t s' n. elsewhere t s' n ∙ elsewhere' t s' n, λ h. agrees (agrees' h))

  Touches-trans :
      (s : ℕ) {rows rows' rows'' : Rows}
      → Touches s rows rows'
      → Touches s rows' rows''
      → Touches s rows rows''
  Touches-trans s (elsewhere, agrees) (elsewhere', agrees') =
      (λ t s' n. elsewhere' t s' n ∙ elsewhere t s' n, λ h. agrees' (agrees h))

  -- The claims of the other entries are kept.
  abbrev pub Claims : ℕ → Queue Rows → Queue Rows → Type 0
  Claims s₀ q q' = (c : String) (s : ℕ) → s ≢ s₀ → q.claims c ≡ some s → q'.claims c ≡ some s

  -- The metadata of one entry is written, with the same id.
  abbrev pub Core : ℕ → Metadata → Metadata → Queue Rows → Queue Rows → Type 0
  Core s₀ old new q q' =
      (q.metadata s₀ ≡ some old)
      × (old.id ≡ new.id)
      × (q'.metadata ≡ update q.metadata s₀ (some new))
      × (q'.elements ≡ q.elements)
      × (q'.ids ≡ q.ids)
      × (q'.counter ≡ q.counter)

  -- A transaction that writes one entry.
  abbrev pub Edits : ℕ → Metadata → Metadata → Queue Rows → Queue Rows → Type 0
  Edits s₀ old new q q' =
      Core s₀ old new q q'
      × Touches s₀ q.pending_index q'.pending_index
      × Touches s₀ q.lock_index q'.lock_index
      × Touches s₀ q.completed_index q'.completed_index
      × Touches s₀ q.failed_index q'.failed_index
      × Claims s₀ q q'

  pub Edits-Consistent :
      (s₀ : ℕ) (old new : Metadata) (q q' : Queue Rows)
      → Consistent index q
      → Edits s₀ old new q q'
      → Placed index q' s₀ new
      → Consistent index q'
  Edits-Consistent s₀ old new q q' h
        ((was, same_id, metadata, elements, ids, counter), p, l, c, f, k) here =
      let written = ap (λ g. g s₀) metadata ∙ update_self q.metadata s₀ (some new) in
      Changes-Consistent index s₀ q q' h (record {
        only = record {
          metadata = λ s n. ap (λ g. g s) metadata ∙ update_other q.metadata s₀ s _ n;
          pending_same = p.0;
          lock_same = l.0;
          completed_same = c.0;
          failed_same = f.0;
          claims = k;
        };
        pending_rows = p.1 h.pending_rows;
        lock_rows = l.1 h.lock_rows;
        completed_rows = c.1 h.completed_rows;
        failed_rows = f.1 h.failed_rows;
        elements = elements;
        ids = ids;
        counter = counter;
        there = ap defined written ∙ ap defined (sym was);
        before = λ m' e. (old, was, same_id ∙ ap (λ x. x.id) (some-injective (sym written ∙ e)));
        here = λ m' e. subst (λ x. Placed index q' s₀ x) (some-injective (sym written ∙ e)) here;
      })

  pub write_metadata-Edits :
      (s : ℕ) (old new : Metadata) (q : Queue Rows)
      → q.metadata s ≡ some old
      → old.id ≡ new.id
      → Edits s old new q (write_metadata s new q)
  write_metadata-Edits s old new q e i = (
    (e, i, refl, refl, refl, refl),
    Touches-refl s q.pending_index,
    Touches-refl s q.lock_index,
    Touches-refl s q.completed_index,
    Touches-refl s q.failed_index,
    λ c s' n e'. e',
  )

  -- The further writes of such a transaction.
  module _ (s : ℕ) (old new : Metadata) (q q' : Queue Rows) where
    pub put_pending-Edits :
        (t : ℕ) → Edits s old new q q' → Edits s old new q (put_pending index t s q')
    put_pending-Edits t (core, p, l, c, f, k) =
        (core, Touches-trans s p (put-Touches (timestamp t) s q'.pending_index), l, c, f, k)

    pub put_lock-Edits : (t : ℕ) → Edits s old new q q' → Edits s old new q (put_lock index t s q')
    put_lock-Edits t (core, p, l, c, f, k) =
        (core, p, Touches-trans s l (put-Touches (timestamp t) s q'.lock_index), c, f, k)

    pub put_completed-Edits :
        (t : ℕ) → Edits s old new q q' → Edits s old new q (put_completed index t s q')
    put_completed-Edits t (core, p, l, c, f, k) =
        (core, p, l, Touches-trans s c (put-Touches (timestamp t) s q'.completed_index), f, k)

    pub put_failed-Edits :
        (t : ℕ) → Edits s old new q q' → Edits s old new q (put_failed index t s q')
    put_failed-Edits t (core, p, l, c, f, k) =
        (core, p, l, c, Touches-trans s f (put-Touches (timestamp t) s q'.failed_index), k)

    pub remove_lock-Edits :
        (t s' : ℕ) → s' ≡ s → Edits s old new q q' → Edits s old new q (remove_lock index t s' q')
    remove_lock-Edits t s' same (core, p, l, c, f, k) =
        let row_touches =
          subst (λ x. Touches x q'.lock_index (index.remove t s' q'.lock_index)) same
            (remove-Touches t s' q'.lock_index) in
        (core, p, Touches-trans s l row_touches, c, f, k)

    pub remove_pending-Edits :
        (row : Row)
        → row.sequence ≡ s
        → Edits s old new q q'
        → Edits s old new q (remove_pending index row q')
    remove_pending-Edits row same (core, p, l, c, f, k) =
        let row_touches =
          subst
            (λ x. Touches x q'.pending_index (index.remove row.time row.sequence q'.pending_index))
            same (remove-Touches row.time row.sequence q'.pending_index) in
        (core, Touches-trans s p row_touches, l, c, f, k)

    -- The claim that is cleared leads to no other entry.
    pub clear_claim-Edits :
        (c : String)
        → q.claims c ≡ some s
        → Edits s old new q q'
        → Edits s old new q (clear_claim c q')
    clear_claim-Edits claim_id held (core, p, l, c, f, k) = (
      core,
      p,
      l,
      c,
      f,
      λ c' s' n e.
          update_text_other q'.claims claim_id c' none
            (λ same. n (some-injective (sym e ∙ ap q.claims (sym same) ∙ held)))
          ∙ k c' s' n e,
    )

    -- The claim that is set leads to no entry before.
    pub set_claim-Edits :
        (c : String)
        → q.claims c ≡ none
        → Edits s old new q q'
        → Edits s old new q (set_claim c s q')
    set_claim-Edits claim_id free (core, p, l, c, f, k) = (
      core,
      p,
      l,
      c,
      f,
      λ c' s' n e.
          update_text_other q'.claims claim_id c' (some s)
            (λ same. none≢some (sym free ∙ ap q.claims same ∙ e))
          ∙ k c' s' n e,
    )

  pub Placed-at :
      (state : EntryState) (q : Queue Rows) (s : ℕ) (m : Metadata)
      → m.state ≡ state
      → PlacedAs index state q s m
      → Placed index q s m
  Placed-at state q s m e h = subst (λ x. PlacedAs index x q s m) (sym e) h
