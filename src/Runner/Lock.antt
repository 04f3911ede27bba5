-- ===== src/Runner/Lock.antt =====
-- `lock`, for `acquire` and `refresh`, `release` and `releaseAll`.
use Prim.Native.String.{String}
use text.Mathlib.Text.{◌==◌ as str_eq}
use foundationdb_effect.Prelude.{
  ℕ, ◌+◌, Bool, true, false, ◌||◌, ◌&&◌, not, Option, none, some, List, [], ◌∷◌, ◌++◌, ltb,
  if◌then◌else◌,
}
use foundationdb_effect.Runner.State.{Lease, Runners, LeaseMap, write_lease}
use foundationdb_effect.Runner.Register.{update_registration}

-- `lease?.address === address`
abbrev pub owned_by : String → Option Lease → Bool
owned_by address none = false
owned_by address (some lease) = str_eq lease.address address

-- `lease === undefined || lease.expiresAt < now`
abbrev pub is_free : ℕ → Option Lease → Bool
is_free now none = true
is_free now (some lease) = ltb lease.expires_at now

-- The test on a shard's lease.
abbrev pub may_lock : ℕ → String → Bool → Option Lease → Bool
may_lock now address refresh lease = owned_by address lease || (not refresh && is_free now lease)

-- One round of the loop over the shards, with the shards that were acquired.
unfoldable pub lock_shard :
    ℕ → ℕ → String → Bool → String → List String × LeaseMap → List String × LeaseMap
lock_shard now expiration address refresh shard (acquired, leases) =
    if may_lock now address refresh (leases shard)
    then (
      acquired ++ shard ∷ [],
      write_lease shard (some (record { address = address; expires_at = now + expiration })) leases,
    )
    else (acquired, leases)

-- The shards of `new Set(shardIds)`.
abbrev pub listed : String → List String → Bool
listed shard [] = false
listed shard (x ∷ xs) = str_eq x shard || listed shard xs

unfoldable pub distinct : List String → List String → List String
distinct seen [] = []
distinct seen (shard ∷ rest) = elim (listed shard seen) [
  | true ↦ distinct seen rest
  | false ↦ shard ∷ distinct (shard ∷ seen) rest
]

-- The loop.
unfoldable pub lock_shards :
    ℕ → ℕ → String → Bool → List String → List String × LeaseMap → List String × LeaseMap
lock_shards now expiration address refresh [] state = state
lock_shards now expiration address refresh (shard ∷ rest) state =
    lock_shards now expiration address refresh rest
      (lock_shard now expiration address refresh shard state)

-- `lock`
unfoldable pub lock :
    ℕ → ℕ → String → List String → Bool → Runners → LeaseMap → List String × (Runners × LeaseMap)
lock now expiration address shard_ids refresh runners leases =
    let runners' =
      if refresh
      then update_registration address (λ value. record value { heartbeat = now }) runners
      else runners in
    let (acquired, leases') =
      lock_shards now expiration address refresh (distinct [] shard_ids) ([], leases) in
    (acquired, (runners', leases'))

-- `release`
unfoldable pub release : String → String → LeaseMap → LeaseMap
release address shard leases =
    if owned_by address (leases shard) then write_lease shard none leases else leases

-- `releaseAll`
unfoldable pub release_all : String → LeaseMap → LeaseMap
release_all address leases shard = if owned_by address (leases shard) then none else leases shard
