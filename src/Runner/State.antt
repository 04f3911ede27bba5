-- ===== src/Runner/State.antt =====
-- The stored records of the runner storage, decoded.
use Prim.Native.String.{String}
use text.Mathlib.Text.{◌==◌ as str_eq}
use foundationdb_effect.Prelude.{ℕ, Bool, Option, none, some, List, [], ◌∷◌, if◌then◌else◌}

-- `Registration`
pub record Registration : Type 0 where
  pub runner : String
  pub healthy : Bool
  pub machine_id : ℕ
  pub heartbeat : ℕ

-- `Lease`
pub record Lease : Type 0 where
  pub address : String
  pub expires_at : ℕ

-- The `runners` subspace, which is read as a whole, by address.
abbrev pub Runners : Type 0
Runners = List (String × Registration)

-- The `leases` subspace, by shard.
abbrev pub LeaseMap : Type 0
LeaseMap = String → Option Lease

-- `readRegistration`
abbrev pub read_registration : String → Runners → Option Registration
read_registration address [] = none
read_registration address ((key, value) ∷ rest) =
    if str_eq key address then some value else read_registration address rest

-- `writeRegistration`
abbrev pub write_registration : String → Registration → Runners → Runners
write_registration address value [] = (address, value) ∷ []
write_registration address value ((key, old) ∷ rest) =
    let rest' = write_registration address value rest in
    if str_eq key address then (key, value) ∷ rest else (key, old) ∷ rest'

-- `writeLease`, where `none` clears.
abbrev pub write_lease : String → Option Lease → LeaseMap → LeaseMap
write_lease shard value leases key = if str_eq shard key then value else leases key
