-- ===== src/Runner.antt =====
-- src/cluster/runner-storage.ts: the registrations of the runners and the leases of the shards.
pub mod State
pub mod Register
pub mod Lock
pub mod Machines
pub mod Leases
pub mod Tests
