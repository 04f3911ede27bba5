-- ===== src/Queue/Claiming.antt =====
-- `claim` on a consistent queue.
use Prim.Native.String.{String}
use text.Mathlib.TextEquality.{eq_iff}
use foundationdb_effect.Prelude.Maps.{update_text_self}
use foundationdb_effect.Prelude.{
  some-injective, none≢some, ℕ, ◌<◌, ◌≡◌, ◌≢◌, refl, sym, ap, ◌∙◌, Bool, true, false, ◌||◌, Option,
  none, some, List, [], ◌∷◌, arith, leb, if◌then◌else◌, Option-cases, Bool-cases, inl, inr, All,
}
use foundationdb_effect.Prelude.Int.{ℤ, pos, negsuc, sub_ℕ, pos_part}
use foundationdb_effect.Prelude.Result.{ok, ◌>>=◌}
use foundationdb_effect.Bytes.{Bytes}
use foundationdb_effect.Queue.Index.{Row, Index}
use foundationdb_effect.Queue.State.{
  processing, Metadata, Queue, max_safe_integer, raise_signal, clear_claim, index_before,
}
use foundationdb_effect.Queue.Claim.{
  ClaimedEntry, ClaimResult, claimed, progressed, claim_wait, claim, claim_result, claim_next,
  resume, recover, recover_rows, is_held, not_empty,
}
use foundationdb_effect.Queue.Consistent.{Consistent, Agrees}
use foundationdb_effect.Queue.Updates.{raise_signal-Consistent, clear_claim-Consistent}
use foundationdb_effect.Queue.Recovery.{Scanned, recover_rows-Consistent}
use foundationdb_effect.Queue.Freed.{recover_rows-claims}
use foundationdb_effect.Queue.Taking.{Taken, Found, read_entry-total, take_rows-steps}
use foundationdb_effect.Queue.Holder.{claims_elsewhere}

All-map {ℓ κ κ'} :
    {A : Type ℓ} (P : A → Type κ) (Q : A → Type κ') (xs : List A)
    → ((x : A) → P x → Q x)
    → All P xs
    → All Q xs
All-map P Q [] f _ = tt
All-map P Q (x ∷ xs) f (here, there) = (f x here, All-map P Q xs f there)

All-both {ℓ κ κ'} :
    {A : Type ℓ} (P : A → Type κ) (Q : A → Type κ') (xs : List A)
    → All P xs
    → All Q xs
    → All (λ x. P x × Q x) xs
All-both P Q [] _ _ = tt
All-both P Q (x ∷ xs) (p, ps) (q, qs) = ((p, q), All-both P Q xs ps qs)

module _ {Rows : Type 0} (index : Index Rows) where
  -- Rows of a scan carry the sequence of their keys, and are not later than its bound.
  pub index_before-Scanned :
      (rows : Rows) (b : ℕ)
      → b < max_safe_integer
      → Agrees index rows
      → Scanned index b (index_before index rows (pos b))
  unfolding index_before
  index_before-Scanned rows b l agrees = elim (Bool-cases (leb max_safe_integer b)) [
    | inl far ↦ absurd (ground arith)
    | inr near ↦
        rw (near, index_before)
          (All-map _ _ (index.scan (some b) rows)
            (λ row both. (sym (agrees row.time row.sequence row.value both.0), both.1))
            (All-both _ _ (index.scan (some b) rows) (index.scan_sound (some b) rows)
              (index.scan_until b rows)))
  ]

  signalled :
      (again : Bool) (q : Queue Rows)
      → Consistent index q
      → Consistent index (if again then raise_signal q else q)
  signalled true q h = raise_signal-Consistent index q h
  signalled false q h = h

  recover_at-Consistent :
      (now max_attempts : ℕ) (z : ℤ) (q : Queue Rows)
      → pos_part z < max_safe_integer
      → Consistent index q
      → Consistent index
          (recover_rows index now z max_attempts (index_before index q.lock_index z) q false).0
  unfolding recover_rows index_before
  recover_at-Consistent now max_attempts (pos b) q l h =
      recover_rows-Consistent index now b max_attempts (index_before index q.lock_index (pos b)) q
        false l (index_before-Scanned q.lock_index b l h.lock_rows) h
  recover_at-Consistent now max_attempts (negsuc n) q l h = h

  pub recover-Consistent :
      (now lock_expiration max_attempts : ℕ) (q : Queue Rows)
      → now < max_safe_integer
      → Consistent index q
      → Consistent index (recover index now lock_expiration max_attempts q)
  unfolding recover
  recover-Consistent now lock_expiration max_attempts q l h =
      signalled _ _
        (recover_at-Consistent now max_attempts (sub_ℕ now lock_expiration) q (ground arith) h)

  signalled-claims :
      (again : Bool) (q : Queue Rows) → (if again then raise_signal q else q).claims ≡ q.claims
  signalled-claims true q = refl
  signalled-claims false q = refl

  pub recover-claims :
      (now lock_expiration max_attempts : ℕ) (q : Queue Rows) (c : String)
      → q.claims c ≡ none
      → (recover index now lock_expiration max_attempts q).claims c ≡ none
  unfolding recover
  recover-claims now lock_expiration max_attempts q c free =
      let z = sub_ℕ now lock_expiration in
      let r = recover_rows index now z max_attempts (index_before index q.lock_index z) q false in
      ap (λ f. f c) (signalled-claims r.1 r.0)
      ∙ recover_rows-claims index now max_attempts z (index_before index q.lock_index z) q false c
          free

  -- What is known after a claim.
  abbrev pub Claimed : String → ClaimResult → Queue Rows → Type 0
  Claimed c (claimed e) q = Taken c (some e) q
  Claimed c progressed q = q.claims c ≡ none
  Claimed c claim_wait q = q.claims c ≡ none

  claim_result-Claimed :
      (handled : Bool) (result : Option ClaimedEntry) (c : String) (q : Queue Rows)
      → Taken c result q
      → Claimed c (claim_result handled result) q
  claim_result-Claimed true none c q t = t
  claim_result-Claimed false none c q t = t
  claim_result-Claimed handled (some e) c q t = t

  -- The rows that `claim_next` reads from the pending index.
  unfoldable pub pending_rows : ℕ → Queue Rows → List Row
  pending_rows now q = index_before index q.pending_index (pos now)

  pub pending_rows-keys :
      (now : ℕ) (q : Queue Rows)
      → now < max_safe_integer
      → Consistent index q
      → All (λ row. row.sequence ≡ row.value) (pending_rows now q)
  unfolding pending_rows
  pending_rows-keys now q l h =
      All-map _ _ (index_before index q.pending_index (pos now)) (λ row both. both.0)
        (index_before-Scanned q.pending_index now l h.pending_rows)

  claim_next-steps :
      (now lock_expiration : ℕ) (c : String) (max_attempts : ℕ) (q : Queue Rows)
      → now < max_safe_integer
      → q.claims c ≡ none
      → Consistent index q
      → (result : ClaimResult) × (q' : Queue Rows) × (claim_next index now lock_expiration c
            max_attempts q
          ≡ ok (result, q'))
        × Consistent index q'
        × Claimed c result q'
  unfolding claim_next pending_rows
  claim_next-steps now lock_expiration c max_attempts q l free h =
      let q₁ = recover index now lock_expiration max_attempts q in
      let h₁ = recover-Consistent now lock_expiration max_attempts q l h in
      let (result, q', done, h', t) =
        take_rows-steps index now c max_attempts (pending_rows now q₁) q₁
          (pending_rows-keys now q₁ l h₁) (recover-claims now lock_expiration max_attempts q c free)
          h₁ in
      let expired = index_before index q.lock_index (sub_ℕ now lock_expiration) in
      let handled = not_empty expired || not_empty (pending_rows now q₁) in
      (
        claim_result handled result,
        q',
        ap (λ x. x >>= λ r. ok (claim_result handled r.0, r.1)) done,
        h',
        claim_result-Claimed handled result c q' t,
      )

  is_held-eq :
      (c : String) (m : Metadata)
      → is_held c m ≡ true
      → (m.state ≡ processing) × (m.acquired_by ≡ some c)
  is_held-eq c m e = grind (arith, eq_iff)

  is_held-false :
      (c : String) (m : Metadata)
      → is_held c m ≡ false
      → m.state ≡ processing
      → m.acquired_by ≢ some c
  is_held-false c m e p a = grind (arith, eq_iff)

  -- A claim that leads to an entry that it does not hold is held by none.
  pub stale-Consistent :
      (c : String) (s : ℕ) (found : Option (Metadata × Bytes)) (q : Queue Rows)
      → q.claims c ≡ some s
      → ((m : Metadata) → q.metadata s ≡ some m → is_held c m ≡ false)
      → Consistent index q
      → Consistent index (clear_claim c q)
  stale-Consistent c s found q leads n h = clear_claim-Consistent index q c h (λ s' m e p a.
      let here = some-injective (sym leads ∙ claims_elsewhere index q c s' m h e p a) in
      is_held-false c m (n m (ap q.metadata here ∙ e)) p a)

  resume-steps :
      (now lock_expiration : ℕ) (c : String) (max_attempts s : ℕ)
      → (found : Option (Metadata × Bytes)) (q : Queue Rows) → now < max_safe_integer
      → q.claims c ≡ some s
      → Found q s found
      → Consistent index q
      → (result : ClaimResult) × (q' : Queue Rows) × (resume index now lock_expiration c
            max_attempts s found q
          ≡ ok (result, q'))
        × Consistent index q'
        × Claimed c result q'
  unfolding resume
  resume-steps now lock_expiration c max_attempts s none q l leads gone h =
      claim_next-steps now lock_expiration c max_attempts (clear_claim c q) l
        (update_text_self q.claims c none)
        (stale-Consistent c s none q leads (λ m e. absurd (none≢some (sym gone ∙ e))) h)
  resume-steps now lock_expiration c max_attempts s (some (m, element)) q l leads (e, el) h =
      elim (Bool-cases (is_held c m)) [
        | inl held ↦
            let (p, a) = is_held-eq c m held in
            (
              claimed (record { sequence = s; entry = m; element = element }),
              q,
              rw (held, resume) refl,
              h,
              (e, el, p, a, leads),
            )
        | inr stale ↦
            rw (stale, resume)
              (claim_next-steps now lock_expiration c max_attempts (clear_claim c q) l
                (update_text_self q.claims c none)
                (stale-Consistent c s (some (m, element)) q leads
                  (λ m' e'. ap (is_held c) (some-injective (sym e' ∙ e)) ∙ stale) h))
      ]

  -- On a consistent queue, before the largest safe time, `claim` returns a result without a failure
  -- and leaves a consistent queue; an entry that it returns is there, is processing and is held under
  -- the claim. A claim that returns no entry is free.
  pub claim-Consistent :
      (now lock_expiration : ℕ) (c : String) (max_attempts : ℕ) (q : Queue Rows)
      → now < max_safe_integer
      → Consistent index q
      → (result : ClaimResult) × (q' : Queue Rows) × (claim index now lock_expiration c max_attempts
            q
          ≡ ok (result, q'))
        × Consistent index q'
        × Claimed c result q'
  unfolding claim
  claim-Consistent now lock_expiration c max_attempts q l h = elim (Option-cases (q.claims c)) [
    | inl free ↦ rw (free, claim) (claim_next-steps now lock_expiration c max_attempts q l free h)
    | inr (s, leads) ↦
        let (found, r, f) = read_entry-total index q s h in
        rw (leads, r, claim) (resume-steps now lock_expiration c max_attempts s found q l leads f h)
  ]
