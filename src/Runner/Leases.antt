-- ===== src/Runner/Leases.antt =====
-- `lock` respects the leases of others, and holds what it returns.
use Prim.Native.String.{String}
use text.Mathlib.Text.{◌==◌ as str_eq}
use text.Mathlib.TextEquality.{eq_iff}
use foundationdb_effect.Prelude.{
  true≢false, ℕ, ◌+◌, ◌≤◌, ◌≡◌, ◌⊎◌, sym, ap, ◌∙◌, refl, Bool, true, false, ◌&&◌, not, Bool-cases,
  inl, inr, Option, some, List, [], ◌∷◌, arith, ltb, All, All-append,
}
use foundationdb_effect.Runner.State.{Lease, LeaseMap, Runners, write_lease}
use foundationdb_effect.Runner.Lock.{may_lock, lock_shard, distinct, lock_shards, lock}

-- A lease that the operation must leave alone: another runner's, which has not expired where the
-- operation is `acquire`.
pub record Foreign (now : ℕ) (address : String) (refresh : Bool) (lease : Lease) : Type 0 where
  pub other : str_eq lease.address address ≡ false
  pub live : (now ≤ lease.expires_at) ⊎ (refresh ≡ true)

may_lock-Foreign :
    (now : ℕ) (address : String) (refresh : Bool) (lease : Lease)
    → Foreign now address refresh lease
    → may_lock now address refresh (some lease) ≡ false
may_lock-Foreign now address refresh lease f = elim f.live [
  | inl live ↦ rw f.other (expired lease.expires_at refresh live)
  | inr refreshes ↦ rw (f.other, refreshes) refl
]
  where
    expired :
        (expires_at : ℕ) (refresh : Bool)
        → now ≤ expires_at
        → (not refresh && ltb expires_at now) ≡ false
    expired expires_at true l = refl
    expired expires_at false l = ground arith

abbrev Held : ℕ → ℕ → String → List String × LeaseMap → Type 0
Held now expiration address (acquired, leases) =
    All (λ shard. leases shard ≡ some (record { address = address; expires_at = now + expiration }))
      acquired

write_lease_other :
    (shard key : String) (value : Option Lease) (leases : LeaseMap)
    → str_eq shard key ≡ false
    → write_lease shard value leases key ≡ leases key
write_lease_other shard key value leases n = rw n refl

write_lease_again :
    (shard key : String) (value : Option Lease) (leases : LeaseMap)
    → leases key ≡ value
    → write_lease shard value leases key ≡ value
write_lease_again shard key value leases e = elim (Bool-cases (str_eq shard key)) [
  | inl same ↦ rw same refl
  | inr other ↦ rw other e
]

Held-write :
    (now expiration : ℕ) (address shard : String) (acquired : List String) (leases : LeaseMap)
    → Held now expiration address (acquired, leases)
    → Held now expiration address (
      acquired,
      write_lease shard (some (record { address = address; expires_at = now + expiration })) leases,
    )
Held-write now expiration address shard [] leases _ = tt
Held-write now expiration address shard (key ∷ acquired) leases (here, rest) = (
  write_lease_again shard key _ leases here,
  Held-write now expiration address shard acquired leases rest,
)

write_lease_self :
    (shard : String) (value : Option Lease) (leases : LeaseMap)
    → write_lease shard value leases shard ≡ value
write_lease_self shard value leases = rw (eq_iff shard shard).1 refl

lock_shard-Held :
    (now expiration : ℕ) (address : String) (refresh : Bool) (shard : String)
    → (state : List String × LeaseMap) → Held now expiration address state
    → Held now expiration address (lock_shard now expiration address refresh shard state)
unfolding lock_shard
lock_shard-Held now expiration address refresh shard (acquired, leases) h =
    elim (Bool-cases (may_lock now address refresh (leases shard))) [
      | inl may ↦
          rw (may, lock_shard)
            (All-append _ acquired (shard ∷ [])
              (Held-write now expiration address shard acquired leases h)
              (write_lease_self shard _ leases, tt))
      | inr not_free ↦ rw (not_free, lock_shard) h
    ]

lock_shards-Held :
    (now expiration : ℕ) (address : String) (refresh : Bool) (shards : List String)
    → (state : List String × LeaseMap) → Held now expiration address state
    → Held now expiration address (lock_shards now expiration address refresh shards state)
unfolding lock_shards
lock_shards-Held now expiration address refresh [] state h = h
lock_shards-Held now expiration address refresh (shard ∷ rest) state h =
    lock_shards-Held now expiration address refresh rest
      (lock_shard now expiration address refresh shard state)
      (lock_shard-Held now expiration address refresh shard state h)

lock_shard-Foreign :
    (now expiration : ℕ) (address : String) (refresh : Bool) (shard key : String) (lease : Lease)
    → (state : List String × LeaseMap) → Foreign now address refresh lease
    → state.1 key ≡ some lease
    → (lock_shard now expiration address refresh shard state).1 key ≡ some lease
unfolding lock_shard
lock_shard-Foreign now expiration address refresh shard key lease (acquired, leases) f e =
    elim (Bool-cases (may_lock now address refresh (leases shard))) [
      | inl may ↦ elim (Bool-cases (str_eq shard key)) [
        | inl same ↦ absurd (
            true≢false (
              sym may
              ∙ ap (may_lock now address refresh) (ap leases ((eq_iff shard key).0 same) ∙ e)
              ∙ may_lock-Foreign now address refresh lease f))
        | inr other ↦ rw (may, lock_shard) (write_lease_other shard key _ leases other ∙ e)
      ]
      | inr not_free ↦ rw (not_free, lock_shard) e
    ]

lock_shards-Foreign :
    (now expiration : ℕ) (address : String) (refresh : Bool) (shards : List String) (key : String)
    → (lease : Lease) (state : List String × LeaseMap) → Foreign now address refresh lease
    → state.1 key ≡ some lease
    → (lock_shards now expiration address refresh shards state).1 key ≡ some lease
unfolding lock_shards
lock_shards-Foreign now expiration address refresh [] key lease state f e = e
lock_shards-Foreign now expiration address refresh (shard ∷ rest) key lease state f e =
    lock_shards-Foreign now expiration address refresh rest key lease
      (lock_shard now expiration address refresh shard state) f
      (lock_shard-Foreign now expiration address refresh shard key lease state f e)

-- `acquire` and `refresh` leave a lease of another runner as it is, unless `acquire` finds it
-- expired.
pub lock-Foreign :
    (now expiration : ℕ) (address : String) (shard_ids : List String) (refresh : Bool)
    → (runners : Runners) (leases : LeaseMap) (key : String) (lease : Lease)
    → Foreign now address refresh lease
    → leases key ≡ some lease
    → (lock now expiration address shard_ids refresh runners leases).1.1 key ≡ some lease
unfolding lock
lock-Foreign now expiration address shard_ids refresh runners leases key lease f e =
    lock_shards-Foreign now expiration address refresh (distinct [] shard_ids) key lease
      ([], leases) f e

-- Every shard that `acquire` or `refresh` returns has a lease of the runner for the whole
-- expiration.
pub lock-Held :
    (now expiration : ℕ) (address : String) (shard_ids : List String) (refresh : Bool)
    → (runners : Runners) (leases : LeaseMap)
    → let r = lock now expiration address shard_ids refresh runners leases in
      All
        (λ shard. r.1.1 shard ≡ some (record { address = address; expires_at = now + expiration }))
        r.0
unfolding lock
lock-Held now expiration address shard_ids refresh runners leases =
    lock_shards-Held now expiration address refresh (distinct [] shard_ids) ([], leases) tt
