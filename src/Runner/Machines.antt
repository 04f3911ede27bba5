-- ===== src/Runner/Machines.antt =====
-- `register` gives each address a machine id of its own.
use Prim.Native.String.{String}
use text.Mathlib.Text.{◌==◌ as str_eq}
use text.Mathlib.TextEquality.{eq_iff}
use native.Mathlib.Decide.{ℕ_discrete}
use foundationdb_effect.Prelude.{
  some-injective, none≢some, ℕ, zero, suc, ◌+◌, ◌≤◌, ◌<◌, ◌≡◌, ◌⊎◌, sym, ap, ◌∙◌, refl, subst, Bool,
  true, false, ◌||◌, Bool-cases, Option-cases, inl, inr, none, some, List, [], ◌∷◌, ◌++◌, arith,
  ◌==◌, All, All-append,
}
use foundationdb_effect.Prelude.Result.{ok, err}
use foundationdb_effect.Runner.State.{Registration, Runners, read_registration, write_registration}
use foundationdb_effect.Runner.Register.{
  machine_ids_exhausted, used_ids, has, first_free, machine_id_for, register,
}

abbrev NoDup : List ℕ → Type 0
NoDup [] = Unit
NoDup (x ∷ xs) = (has xs x ≡ false) × NoDup xs

-- The machine ids of the registrations are distinct, and fit into ten bits.
abbrev pub Distinct : Runners → Type 0
Distinct runners = NoDup (used_ids runners) × All (λ id. id < 1024) (used_ids runners)

has-append : (xs : List ℕ) (y x : ℕ) → has (xs ++ y ∷ []) x ≡ (has xs x || y == x)
has-append [] y x = ground arith
has-append (z ∷ xs) y x = ground (arith, has-append xs y x)

NoDup-append : (xs : List ℕ) (y : ℕ) → NoDup xs → has xs y ≡ false → NoDup (xs ++ y ∷ [])
NoDup-append [] y _ n = (refl, tt)
NoDup-append (x ∷ xs) y (new, rest) n =
    (ground (arith, has-append xs y x), NoDup-append xs y rest (ground arith))

first_free_taken :
    (used : List ℕ) (left candidate : ℕ)
    → has used candidate ≡ true
    → first_free used (suc left) candidate ≡ first_free used left (candidate + 1)
unfolding first_free
first_free_taken used left candidate e = rw (e, first_free) refl

first_free_here :
    (used : List ℕ) (left candidate : ℕ)
    → has used candidate ≡ false
    → first_free used (suc left) candidate ≡ some candidate
unfolding first_free
first_free_here used left candidate e = rw (e, first_free) refl

-- The id that the loop finds is not used.
first_free-eq-some :
    (used : List ℕ) (left candidate k : ℕ)
    → first_free used left candidate ≡ some k
    → (has used k ≡ false) × (k < candidate + left)
unfolding first_free
first_free-eq-some used zero candidate k e = cc
first_free-eq-some used (suc left) candidate k e = elim (Bool-cases (has used candidate)) [
  | inl taken ↦
      let found : first_free used left (candidate + 1) ≡ some k =
        sym (first_free_taken used left candidate taken) ∙ e in
      let both = first_free-eq-some used left (candidate + 1) k found in
      (both.0, omega (arith, both.1))
  | inr free ↦
      let here : candidate ≡ k =
        some-injective (sym (first_free_here used left candidate free) ∙ e) in
      (subst (λ x. has used x ≡ false) here free, omega (arith, here))
]

-- Where it finds none, all are used.
first_free-eq-none :
    (used : List ℕ) (left candidate : ℕ)
    → first_free used left candidate ≡ none
    → (k : ℕ) → candidate ≤ k
    → k < candidate + left
    → has used k ≡ true
unfolding first_free
first_free-eq-none used zero candidate e k l u = absurd (omega arith)
first_free-eq-none used (suc left) candidate e k l u = elim (Bool-cases (has used candidate)) [
  | inl taken ↦ elim (ℕ_discrete k candidate) [
    | yes same ↦ subst (λ x. has used x ≡ true) (sym same) taken
    | no n ↦
        first_free-eq-none used left (candidate + 1)
          (sym (first_free_taken used left candidate taken) ∙ e) k (omega arith) (omega arith)
  ]
  | inr free ↦ absurd (none≢some (sym e ∙ first_free_here used left candidate free))
]

read_first :
    (address key : String) (value : Registration) (rest : Runners)
    → str_eq key address ≡ true
    → read_registration address ((key, value) ∷ rest) ≡ some value
read_first address key value rest e = rw e refl

read_later :
    (address key : String) (value : Registration) (rest : Runners)
    → str_eq key address ≡ false
    → read_registration address ((key, value) ∷ rest) ≡ read_registration address rest
read_later address key value rest e = rw e refl

used_ids-write_new :
    (address : String) (value : Registration) (runners : Runners)
    → read_registration address runners ≡ none
    → used_ids (write_registration address value runners)
      ≡ used_ids runners ++ value.machine_id ∷ []
used_ids-write_new address value [] e = refl
used_ids-write_new address value ((key, old) ∷ rest) e = elim (Bool-cases (str_eq key address)) [
  | inl same ↦ absurd (none≢some (sym e ∙ read_first address key old rest same))
  | inr other ↦ rw other (
      ap (λ ids. old.machine_id ∷ ids)
        (used_ids-write_new address value rest (sym (read_later address key old rest other) ∙ e)))
]

used_ids-write_known :
    (address : String) (value old : Registration) (runners : Runners)
    → read_registration address runners ≡ some old
    → value.machine_id ≡ old.machine_id
    → used_ids (write_registration address value runners) ≡ used_ids runners
used_ids-write_known address value old [] e i = cc
used_ids-write_known address value old ((key, other) ∷ rest) e i =
    elim (Bool-cases (str_eq key address)) [
      | inl same ↦ rw same (
          ap (λ id. id ∷ used_ids rest)
            (i
              ∙ ap (λ x. x.machine_id)
                  (some-injective (sym e ∙ read_first address key other rest same))))
      | inr n ↦ rw n (
          ap (λ ids. other.machine_id ∷ ids)
            (used_ids-write_known address value old rest
              (sym (read_later address key other rest n) ∙ e) i))
    ]

read-write :
    (address : String) (value : Registration) (runners : Runners)
    → read_registration address (write_registration address value runners) ≡ some value
read-write address value [] = rw (eq_iff address address).1 refl
read-write address value ((key, old) ∷ rest) = elim (Bool-cases (str_eq key address)) [
  | inl same ↦ rw same (rw same refl)
  | inr n ↦ rw n (rw n (read-write address value rest))
]

machine_id_for_new :
    (address : String) (runners : Runners)
    → read_registration address runners ≡ none
    → machine_id_for address runners ≡ first_free (used_ids runners) 1024 0
unfolding machine_id_for
machine_id_for_new address runners new = rw (new, machine_id_for) refl

machine_id_for_known :
    (address : String) (runners : Runners) (old : Registration)
    → read_registration address runners ≡ some old
    → machine_id_for address runners ≡ some old.machine_id
unfolding machine_id_for
machine_id_for_known address runners old known = rw (known, machine_id_for) refl

machine_id_for-eq-some :
    (address : String) (runners : Runners) (id : ℕ) (value : Registration)
    → value.machine_id ≡ id
    → machine_id_for address runners ≡ some id
    → Distinct runners
    → Distinct (write_registration address value runners)
unfolding machine_id_for
machine_id_for-eq-some address runners id value same e (apart, small) =
    elim (Option-cases (read_registration address runners)) [
      | inl new ↦
          let found : first_free (used_ids runners) 1024 0 ≡ some id =
            sym (machine_id_for_new address runners new) ∙ e in
          let (free, low) = first_free-eq-some (used_ids runners) 1024 0 id found in
          rw (used_ids-write_new address value runners new, same)
            (
              NoDup-append (used_ids runners) id apart free,
              All-append (λ x. x < 1024) (used_ids runners) (id ∷ []) small (low, tt),
            )
      | inr (old, known) ↦
          let own : value.machine_id ≡ old.machine_id =
            same ∙ some-injective (sym e ∙ machine_id_for_known address runners old known) in
          rw (used_ids-write_known address value old runners known own) (apart, small)
    ]

machine_id_for-eq-none :
    (address : String) (runners : Runners)
    → machine_id_for address runners ≡ none
    → (k : ℕ) → k < 1024
    → has (used_ids runners) k ≡ true
unfolding machine_id_for
machine_id_for-eq-none address runners e k l =
    elim (Option-cases (read_registration address runners)) [
      | inl new ↦
          first_free-eq-none (used_ids runners) 1024 0
            (sym (machine_id_for_new address runners new) ∙ e) k (omega arith) (omega arith)
      | inr (old, known) ↦
          absurd (none≢some (sym e ∙ machine_id_for_known address runners old known))
    ]

-- What `register` writes.
abbrev pub registration : ℕ → String → Bool → ℕ → Registration
registration now runner healthy machine_id = record {
  runner = runner;
  healthy = healthy;
  machine_id = machine_id;
  heartbeat = now;
}

-- With distinct machine ids, `register` succeeds and keeps them distinct, with the new registration
-- in place, or fails where all the 1024 ids are used.
pub register-Distinct :
    (now : ℕ) (address runner : String) (healthy : Bool) (runners : Runners)
    → Distinct runners
    → ((register now address runner healthy runners ≡ err (machine_ids_exhausted address 1024))
        × ((k : ℕ) → k < 1024 → has (used_ids runners) k ≡ true))
      ⊎ ((id : ℕ) × (runners' : Runners) × (register now address runner healthy runners
            ≡ ok (id, runners'))
          × Distinct runners'
          × (read_registration address runners' ≡ some (registration now runner healthy id)))
unfolding register
register-Distinct now address runner healthy runners h =
    elim (Option-cases (machine_id_for address runners)) [
      | inl full ↦ inl (rw (full, register) refl, machine_id_for-eq-none address runners full)
      | inr (id, e) ↦
          let value = registration now runner healthy id in
          inr (
            id,
            write_registration address value runners,
            rw (e, register) refl,
            machine_id_for-eq-some address runners id value refl e h,
            read-write address value runners,
          )
    ]
