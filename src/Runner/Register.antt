-- ===== src/Runner/Register.antt =====
-- `register`, `unregister`, `setRunnerHealth` and `getRunners`.
use Prim.Native.String.{String}
use text.Mathlib.Text.{◌==◌ as str_eq}
use foundationdb_effect.Prelude.{
  ℕ, zero, suc, ◌+◌, Bool, false, ◌||◌, Option, none, some, List, [], ◌∷◌, ◌==◌, ltb, if◌then◌else◌,
}
use foundationdb_effect.Prelude.Result.{Result, ok, err}
use foundationdb_effect.Runner.State.{Registration, Runners, read_registration, write_registration}

abbrev pub machine_id_count : ℕ
machine_id_count = 1024

-- `RunnerMachineIdsExhaustedError`
pub data RegisterError : Type 0 where
  machine_ids_exhausted : String → ℕ → RegisterError

-- `used`
abbrev pub used_ids : Runners → List ℕ
used_ids [] = []
used_ids ((_, value) ∷ rest) = value.machine_id ∷ used_ids rest

-- `used.has(candidate)`
abbrev pub has : List ℕ → ℕ → Bool
has [] candidate = false
has (x ∷ xs) candidate = x == candidate || has xs candidate

-- The loop over the candidates, of which so many are left.
unfoldable pub first_free : List ℕ → ℕ → ℕ → Option ℕ
first_free used zero candidate = none
first_free used (suc left) candidate =
    let rest = first_free used left (candidate + 1) in
    if has used candidate then rest else some candidate

-- The machine id of an address: its own, or the first that is free.
unfoldable pub machine_id_for : String → Runners → Option ℕ
machine_id_for address runners = elim (read_registration address runners) [
  | some existing ↦ some existing.machine_id
  | none ↦ first_free (used_ids runners) machine_id_count 0
]

-- `register`
unfoldable pub register : ℕ → String → String → Bool → Runners → Result RegisterError (ℕ × Runners)
register now address runner healthy runners = elim (machine_id_for address runners) [
  | none ↦ err (machine_ids_exhausted address machine_id_count)
  | some machine_id ↦ ok (
    machine_id,
    write_registration address
        (record { runner = runner; healthy = healthy; machine_id = machine_id; heartbeat = now })
        runners,
  )
]

-- `unregister`
unfoldable pub unregister : String → Runners → Runners
unregister address [] = []
unregister address ((key, value) ∷ rest) =
    let rest' = unregister address rest in
    if str_eq key address then rest' else (key, value) ∷ rest'

-- `updateRegistration`
unfoldable pub update_registration : String → (Registration → Registration) → Runners → Runners
update_registration address update runners = elim (read_registration address runners) [
  | none ↦ runners
  | some registration ↦ write_registration address (update registration) runners
]

-- `setRunnerHealth`
unfoldable pub set_runner_health : String → Bool → Runners → Runners
set_runner_health address healthy runners =
    update_registration address (λ value. record value { healthy = healthy }) runners

-- `getRunners`
unfoldable pub get_runners : ℕ → ℕ → Runners → List (String × Bool)
get_runners now expiration [] = []
get_runners now expiration ((_, value) ∷ rest) =
    let others = get_runners now expiration rest in
    if ltb now (value.heartbeat + expiration)
    then (value.runner, value.healthy) ∷ others
    else others
