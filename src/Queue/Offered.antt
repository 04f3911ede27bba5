-- ===== src/Queue/Offered.antt =====
-- `offer` keeps the invariant, and offers an id once.
use Prim.Native.String.{String}
use native.Mathlib.Decide.{ℕ_discrete}
use foundationdb_effect.Prelude.Maps.{
  update, update_text, update_self, update_other, update_text_self, update_text_other,
}
use foundationdb_effect.Prelude.{
  some-injective, none≢some, ℕ, ◌≡◌, ◌≢◌, ◌⊎◌, refl, sym, ap, ◌∙◌, none, some, arith, subst,
  Option-cases, inl, inr,
}
use foundationdb_effect.Bytes.{Bytes}
use foundationdb_effect.Queue.Index.{Index}
use foundationdb_effect.Queue.State.{Metadata, Queue, timestamp}
use foundationdb_effect.Queue.Offer.{offered, next_sequence, insert_entry, offer}
use foundationdb_effect.Queue.Consistent.{
  Consistent, Placed, ChangesOnly, Placed-all, find-put_self, put-SameElsewhere, put-Agrees,
}

module _ {Rows : Type 0} (index : Index Rows) where
  insert_entry-ChangesOnly :
      (now : ℕ) (id : String) (element : Bytes) (s : ℕ) (q : Queue Rows)
      → ChangesOnly index s q (insert_entry index now id element s q)
  insert_entry-ChangesOnly now id element s q = record {
    metadata = λ s' n. update_other q.metadata s s' _ n;
    pending_same = put-SameElsewhere index (timestamp now) s s q.pending_index;
    lock_same = λ t s' n. refl;
    completed_same = λ t s' n. refl;
    failed_same = λ t s' n. refl;
    claims = λ c s' n e. e;
  }

  -- What the new queue holds is the new entry, or was there.
  insert_entry-cases :
      (now : ℕ) (id : String) (element : Bytes) (s : ℕ) (q : Queue Rows) (s' : ℕ) (m : Metadata)
      → (insert_entry index now id element s q).metadata s' ≡ some m
      → (s' ≡ s) × (offered id now ≡ m) ⊎ (s' ≢ s) × (q.metadata s' ≡ some m)
  insert_entry-cases now id element s q s' m e = elim (ℕ_discrete s' s) [
    | yes same ↦ inl (
      same,
      some-injective (
          sym (update_self q.metadata s (some (offered id now)))
          ∙ ap (update q.metadata s (some (offered id now))) (sym same)
          ∙ e),
    )
    | no n ↦ inr (n, sym (update_other q.metadata s s' (some (offered id now)) n) ∙ e)
  ]

  insert_entry-Consistent :
      (now : ℕ) (id : String) (element : Bytes) (q : Queue Rows)
      → q.ids id ≡ none
      → Consistent index q
      → Consistent index (insert_entry index now id element (next_sequence q.counter) q)
  insert_entry-Consistent now id element q new h =
      let s = next_sequence q.counter in
      let q' = insert_entry index now id element s q in
      record {
        placed =
            Placed-all index s q q' (insert_entry-ChangesOnly now id element s q) h.placed (λ m e.
              subst (λ x. Placed index q' s x)
                (some-injective (sym (update_self q.metadata s (some (offered id now))) ∙ e))
                (find-put_self index (timestamp now) s s q.pending_index));
        pending_rows = put-Agrees index (timestamp now) s q.pending_index h.pending_rows;
        lock_rows = h.lock_rows;
        completed_rows = h.completed_rows;
        failed_rows = h.failed_rows;
        whole = λ s'. ground (arith, h.whole s');
        fresh = λ s' m e. elim (insert_entry-cases now id element s q s' m e) [
          | inl (same, _) ↦ omega arith
          | inr (_, was) ↦ omega (arith, h.fresh s' m was)
        ];
        known = λ s' m e. elim (insert_entry-cases now id element s q s' m e) [
          | inl (same, is) ↦
              ap (update_text q.ids id (some s)) (ap (λ x. x.id) (sym is))
              ∙ update_text_self q.ids id (some s)
              ∙ ap (λ x. some x) (sym same)
          | inr (_, was) ↦
              update_text_other q.ids id m.id (some s)
                (λ same. none≢some (sym new ∙ ap q.ids same ∙ h.known s' m was))
              ∙ h.known s' m was
        ];
      }

  -- `offer` leaves a consistent queue consistent.
  pub offer-Consistent :
      (now : ℕ) (id : String) (element : Bytes) (q : Queue Rows)
      → Consistent index q
      → Consistent index (offer index now id element q)
  unfolding offer
  offer-Consistent now id element q h = elim (Option-cases (q.ids id)) [
    | inl new ↦ rw (new, offer) (insert_entry-Consistent now id element q new h)
    | inr (s, old) ↦ rw (old, offer) h
  ]

  offer_known :
      (now : ℕ) (id : String) (element : Bytes) (q : Queue Rows) (s : ℕ)
      → q.ids id ≡ some s
      → offer index now id element q ≡ q
  unfolding offer
  offer_known now id element q s old = rw (old, offer) refl

  offer_new :
      (now : ℕ) (id : String) (element : Bytes) (q : Queue Rows)
      → q.ids id ≡ none
      → offer index now id element q ≡ insert_entry index now id element (next_sequence q.counter) q
  unfolding offer
  offer_new now id element q new = rw (new, offer) refl

  -- A second offer of an id changes nothing.
  pub offer_once :
      (now now' : ℕ) (id : String) (element element' : Bytes) (q : Queue Rows)
      → offer index now' id element' (offer index now id element q) ≡ offer index now id element q
  offer_once now now' id element element' q = elim (Option-cases (q.ids id)) [
    | inl new ↦
        let s = next_sequence q.counter in
        ap (offer index now' id element') (offer_new now id element q new)
        ∙ offer_known now' id element' (insert_entry index now id element s q) s
            (update_text_self q.ids id (some s))
        ∙ sym (offer_new now id element q new)
    | inr (s, old) ↦
        ap (offer index now' id element') (offer_known now id element q s old)
        ∙ offer_known now' id element' q s old
        ∙ sym (offer_known now id element q s old)
  ]
