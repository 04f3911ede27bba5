-- ===== src/Queue/Consistent.antt =====
-- The invariant of a queue: every entry is in the index of its state, under the time that its
-- metadata gives, and a claimed entry is found from its claim.
use Prim.Native.String.{String}
use native.Mathlib.Decide.{ℕ_discrete}
use foundationdb_effect.Prelude.{
  ℕ, ◌<◌, ◌≡◌, ◌≢◌, refl, sym, ap, ◌∙◌, Bool, true, false, Option, none, some, arith, subst,
}
use foundationdb_effect.Queue.Index.{Index}
use foundationdb_effect.Queue.State.{
  EntryState, pending, processing, completed, failed, Metadata, Queue, timestamp,
}
use foundationdb_effect.Queue.Offer.{next_sequence}

abbrev pub defined {ℓ} : {A : Type ℓ} → Option A → Bool
defined none = false
defined (some _) = true

module _ {Rows : Type 0} (index : Index Rows) where
  -- The lock and the claim of an entry that is processing.
  pub record Locked (q : Queue Rows) (s : ℕ) (m : Metadata) : Type 0 where
    pub time : ℕ
    pub holder : String
    pub acquired : m.acquired_at ≡ some time
    pub held : m.acquired_by ≡ some holder
    pub locked : index.find (timestamp time) s q.lock_index ≡ some s
    pub claimed : q.claims holder ≡ some s

  abbrev pub PlacedAs : EntryState → Queue Rows → ℕ → Metadata → Type 0
  PlacedAs pending q s m = index.find (timestamp m.visible_at) s q.pending_index ≡ some s
  PlacedAs processing q s m = Locked q s m
  PlacedAs completed q s m = index.find (timestamp m.updated_at) s q.completed_index ≡ some s
  PlacedAs failed q s m = index.find (timestamp m.updated_at) s q.failed_index ≡ some s

  abbrev pub Placed : Queue Rows → ℕ → Metadata → Type 0
  Placed q s m = PlacedAs m.state q s m

  -- The value of each row is the sequence of its key.
  abbrev pub Agrees : Rows → Type 0
  Agrees rows = (t s v : ℕ) → index.find t s rows ≡ some v → v ≡ s

  pub record Consistent (q : Queue Rows) : Type 0 where
    pub placed : (s : ℕ) (m : Metadata) → q.metadata s ≡ some m → Placed q s m
    pub pending_rows : Agrees q.pending_index
    pub lock_rows : Agrees q.lock_index
    pub completed_rows : Agrees q.completed_index
    pub failed_rows : Agrees q.failed_index
    pub whole : (s : ℕ) → defined (q.metadata s) ≡ defined (q.elements s)
    pub fresh : (s : ℕ) (m : Metadata) → q.metadata s ≡ some m → s < next_sequence q.counter
    pub known : (s : ℕ) (m : Metadata) → q.metadata s ≡ some m → q.ids m.id ≡ some s

  pub put-Agrees : (t s : ℕ) (rows : Rows) → Agrees rows → Agrees (index.put t s s rows)
  put-Agrees t s rows h t' s' v e = ground (arith, index.find-put t s s t' s' rows, h t' s' v)

  pub remove-Agrees : (t s : ℕ) (rows : Rows) → Agrees rows → Agrees (index.remove t s rows)
  remove-Agrees t s rows h t' s' v e = ground (arith, index.find-remove t s t' s' rows, h t' s' v)

  pub find-put_self : (t s v : ℕ) (rows : Rows) → index.find t s (index.put t s v rows) ≡ some v
  find-put_self t s v rows = ground (arith, index.find-put t s v t s rows)

  -- Two indexes that differ at most in rows of one entry.
  abbrev pub SameElsewhere : ℕ → Rows → Rows → Type 0
  SameElsewhere s₀ rows rows' = (t s : ℕ) → s ≢ s₀ → index.find t s rows' ≡ index.find t s rows

  pub put-SameElsewhere : (t s v : ℕ) (rows : Rows) → SameElsewhere s rows (index.put t s v rows)
  put-SameElsewhere t s v rows t' s' n = ground (arith, index.find-put t s v t' s' rows)

  pub remove-SameElsewhere : (t s : ℕ) (rows : Rows) → SameElsewhere s rows (index.remove t s rows)
  remove-SameElsewhere t s rows t' s' n = ground (arith, index.find-remove t s t' s' rows)

  -- What a transaction may do to the other entries' part of the queue when it changes one entry.
  pub record ChangesOnly (s₀ : ℕ) (q q' : Queue Rows) : Type 0 where
    pub metadata : (s : ℕ) → s ≢ s₀ → q'.metadata s ≡ q.metadata s
    pub pending_same : SameElsewhere s₀ q.pending_index q'.pending_index
    pub lock_same : SameElsewhere s₀ q.lock_index q'.lock_index
    pub completed_same : SameElsewhere s₀ q.completed_index q'.completed_index
    pub failed_same : SameElsewhere s₀ q.failed_index q'.failed_index
    pub claims : (c : String) (s : ℕ) → s ≢ s₀ → q.claims c ≡ some s → q'.claims c ≡ some s

  pub PlacedAs-elsewhere :
      (state : EntryState) (s₀ s : ℕ) (q q' : Queue Rows) (m : Metadata)
      → ChangesOnly s₀ q q'
      → s ≢ s₀
      → PlacedAs state q s m
      → PlacedAs state q' s m
  PlacedAs-elsewhere pending s₀ s q q' m c n h = c.pending_same _ s n ∙ h
  PlacedAs-elsewhere processing s₀ s q q' m c n h = record {
    time = h.time;
    holder = h.holder;
    acquired = h.acquired;
    held = h.held;
    locked = c.lock_same _ s n ∙ h.locked;
    claimed = c.claims h.holder s n h.claimed;
  }
  PlacedAs-elsewhere completed s₀ s q q' m c n h = c.completed_same _ s n ∙ h
  PlacedAs-elsewhere failed s₀ s q q' m c n h = c.failed_same _ s n ∙ h

  pub Placed-all :
      (s₀ : ℕ) (q q' : Queue Rows)
      → ChangesOnly s₀ q q'
      → ((s : ℕ) (m : Metadata) → q.metadata s ≡ some m → Placed q s m)
      → ((m : Metadata) → q'.metadata s₀ ≡ some m → Placed q' s₀ m)
      → (s : ℕ) (m : Metadata) → q'.metadata s ≡ some m
      → Placed q' s m
  Placed-all s₀ q q' c h here s m e = elim (ℕ_discrete s s₀) [
    | yes same ↦ subst (λ x. Placed q' x m) (sym same) (here m (ap q'.metadata (sym same) ∙ e))
    | no n ↦ PlacedAs-elsewhere m.state s₀ s q q' m c n (h s m (sym (c.metadata s n) ∙ e))
  ]

  -- A transaction that changes one entry, and keeps its id and its element.
  pub record Changes (s₀ : ℕ) (q q' : Queue Rows) : Type 0 where
    pub only : ChangesOnly s₀ q q'
    pub pending_rows : Agrees q'.pending_index
    pub lock_rows : Agrees q'.lock_index
    pub completed_rows : Agrees q'.completed_index
    pub failed_rows : Agrees q'.failed_index
    pub elements : q'.elements ≡ q.elements
    pub ids : q'.ids ≡ q.ids
    pub counter : q'.counter ≡ q.counter
    pub there : defined (q'.metadata s₀) ≡ defined (q.metadata s₀)
    pub before :
        (m' : Metadata)
        → q'.metadata s₀ ≡ some m'
        → (m : Metadata) × (q.metadata s₀ ≡ some m) × (m.id ≡ m'.id)
    pub here : (m : Metadata) → q'.metadata s₀ ≡ some m → Placed q' s₀ m

  -- An entry of the new queue was in the old one, with the same id.
  Changes-before :
      (s₀ : ℕ) (q q' : Queue Rows)
      → Changes s₀ q q'
      → (s : ℕ) (m' : Metadata) → q'.metadata s ≡ some m'
      → (m : Metadata) × (q.metadata s ≡ some m) × (m.id ≡ m'.id)
  Changes-before s₀ q q' c s m' e = elim (ℕ_discrete s s₀) [
    | yes same ↦
        subst (λ x. (m : Metadata) × (q.metadata x ≡ some m) × (m.id ≡ m'.id)) (sym same)
          (c.before m' (ap q'.metadata (sym same) ∙ e))
    | no n ↦ (m', sym (c.only.metadata s n) ∙ e, refl)
  ]

  pub Changes-Consistent :
      (s₀ : ℕ) (q q' : Queue Rows) → Consistent q → Changes s₀ q q' → Consistent q'
  Changes-Consistent s₀ q q' h c = record {
    placed = Placed-all s₀ q q' c.only h.placed c.here;
    pending_rows = c.pending_rows;
    lock_rows = c.lock_rows;
    completed_rows = c.completed_rows;
    failed_rows = c.failed_rows;
    whole = λ s. elim (ℕ_discrete s s₀) [
      | yes same ↦
          subst (λ x. defined (q'.metadata x) ≡ defined (q'.elements x)) (sym same)
            (c.there ∙ h.whole s₀ ∙ ap (λ e. defined (e s₀)) (sym c.elements))
      | no n ↦
          ap defined (c.only.metadata s n) ∙ h.whole s ∙ ap (λ e. defined (e s)) (sym c.elements)
    ];
    fresh = λ s m' e.
        let (m, was, _) = Changes-before s₀ q q' c s m' e in
        subst (λ x. s < next_sequence x) (sym c.counter) (h.fresh s m was);
    known = λ s m' e.
        let (m, was, same) = Changes-before s₀ q q' c s m' e in
        ap (λ f. f m'.id) c.ids ∙ ap q.ids (sym same) ∙ h.known s m was;
  }
