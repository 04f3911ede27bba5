-- ===== src/Runner/Tests.antt =====
-- The runner storage on concrete states.
use Prim.Native.String.{String}
use foundationdb_effect.Prelude.{
  ℕ, ◌<◌, ◌≡◌, ◌⊎◌, inl, refl, true, false, none, some, List, [], ◌∷◌, arith, All,
}
use foundationdb_effect.Prelude.Result.{ok, err}
use foundationdb_effect.Runner.State.{Lease, LeaseMap, Runners, read_registration, write_lease}
use foundationdb_effect.Runner.Register.{register, machine_ids_exhausted, has, used_ids}
use foundationdb_effect.Runner.Lock.{lock}
use foundationdb_effect.Runner.Machines.{Distinct, registration, register-Distinct}
use foundationdb_effect.Runner.Leases.{lock-Foreign, lock-Held}

abbrev one_runner : Runners
one_runner = ("a", registration 1 "runner-a" true 0) ∷ []

register-Distinct_example :
    ((register 5 "b" "runner-b" true one_runner ≡ err (machine_ids_exhausted "b" 1024))
      × ((k : ℕ) → k < 1024 → has (used_ids one_runner) k ≡ true))
    ⊎ ((id : ℕ) × (runners' : Runners) × (register 5 "b" "runner-b" true one_runner
          ≡ ok (id, runners'))
        × Distinct runners'
        × (read_registration "b" runners' ≡ some (registration 5 "runner-b" true id)))
register-Distinct_example =
    register-Distinct 5 "b" "runner-b" true one_runner ((refl, tt), (omega arith, tt))

abbrev lease_of_a : Lease
lease_of_a = record { address = "a"; expires_at = 50 }

abbrev one_lease : LeaseMap
one_lease = write_lease "shard-1" (some lease_of_a) (λ key. none)

abbrev both_shards : List String
both_shards = "shard-1" ∷ "shard-2" ∷ []

lock-Foreign_example :
    (lock 20 30 "b" both_shards false one_runner one_lease).1.1 "shard-1" ≡ some lease_of_a
lock-Foreign_example =
    lock-Foreign 20 30 "b" both_shards false one_runner one_lease "shard-1" lease_of_a
      (record { other = refl; live = inl (omega arith) }) refl

lock-Held_example :
    let r = lock 20 30 "b" both_shards false one_runner one_lease in
    All (λ shard. r.1.1 shard ≡ some (record { address = "b"; expires_at = 50 })) r.0
lock-Held_example = lock-Held 20 30 "b" both_shards false one_runner one_lease
