-- ===== src/KeyValue/Refines.antt =====
-- The store as a list of its keys with their values, without the rows and the counter.
use Prim.Native.String.{String}
use text.Mathlib.Text.{◌==◌ as str_eq}
use foundationdb_effect.Prelude.Maps.{update_text}
use foundationdb_effect.Prelude.{
  ℕ, suc, ◌+◌, ◌%◌, ◌≤◌, ◌<◌, ◌≡◌, ◌⊎◌, inl, inr, subst, refl, sym, ap, ◌∙◌, true, false,
  Bool-cases, Option, none, some, List, [], ◌∷◌, arith, length, leb, if◌then◌else◌,
}
use foundationdb_effect.Prelude.Int.{pos}
use foundationdb_effect.Prelude.Result.{ok}
use foundationdb_effect.Bytes.{Bytes}
use foundationdb_effect.Chunks.{ChunkRows, read_chunked_value, has_chunked_value}
use foundationdb_effect.Chunks.Laws.{read-write_chunked_value}
use foundationdb_effect.KeyValue.{
  Value, Store, Platform, encode_value, read, write_entry, set, remove, clear, size,
}
use foundationdb_effect.KeyValue.Entries.{
  Entries, lookup, put, drop_key, NoDup, lookup-put, lookup-drop_key, put-NoDup, drop_key-NoDup,
  length-put_new, length-put_known, drop_key_absent, length-drop_key, length-put,
  length-drop_key_le,
}
use foundationdb_effect.KeyValue.Size.{
  AtomicAdd, word_bytes, increment_size, decrement_size, decode_size, max_safe_count, word_limit,
}
use foundationdb_effect.KeyValue.Word.{decode_size-counter_delta}

abbrev Counts : Option Bytes → ℕ → Type 0
Counts row n = (row ≡ some (word_bytes n)) ⊎ ((row ≡ none) × (n ≡ 0))

-- The rows hold the entries, and the counter has their number.
pub record Refines (s : Store) (es : Entries) : Type 0 where
  pub reads : (key : String) → read key s ≡ lookup key es
  pub apart : NoDup es
  pub counts : Counts s.size_row (length es)

decode_size-Counts :
    (row : Option Bytes) (n : ℕ) → n < max_safe_count → Counts row n → decode_size row ≡ ok n
unfolding decode_size
decode_size-Counts row n l (inl e) =
    let same : n % word_limit ≡ n = omega (arith, l) in
    let safe : leb n max_safe_count ≡ true = grind arith in
    rw e (
      ap (λ w. decode_size (some (word_bytes w))) (sym same)
      ∙ decode_size-counter_delta (pos n) (omega (arith, l), omega arith)
      ∙ rw safe refl)
decode_size-Counts row n l (inr (e, nothing)) = rw (e, nothing) refl

-- A transaction on a subspace that nothing was written to.
abbrev pub empty_store : Store
empty_store = record { size_row = none; entries = λ key. [] }

-- An operation of the store, and what it does to the entries.
pub data Command : Type 0 where
  set_value : String → Value → Command
  remove_key : String → Command
  clear_all : Command

has_chunked_value-read :
    (rows : ChunkRows)
    → ((has_chunked_value rows ≡ false) × (read_chunked_value rows ≡ none))
      ⊎ ((value : Bytes) × (has_chunked_value rows ≡ true) × (read_chunked_value rows ≡ some value))
unfolding has_chunked_value read_chunked_value
has_chunked_value-read [] = inl (refl, refl)
has_chunked_value-read (row ∷ rows) = inr (_, refl, refl)

pub read-write_entry :
    (key : String) (value : Bytes) (s : Store) (j : String)
    → read j (write_entry key value s) ≡ (if str_eq key j then some value else read j s)
read-write_entry key value s j = elim (Bool-cases (str_eq key j)) [
  | inl same ↦ rw same (read-write_chunked_value value (s.entries key)).0
  | inr n ↦ rw n refl
]

reads-write_entry :
    (key : String) (value : Bytes) (s : Store) (es : Entries)
    → ((j : String) → read j s ≡ lookup j es)
    → (j : String) → read j (write_entry key value s) ≡ lookup j (put key value es)
reads-write_entry key value s es same j =
    read-write_entry key value s j
    ∙ ap (λ found. if str_eq key j then some value else found) (same j)
    ∙ sym (lookup-put key value es j)

read-remove :
    (key : String) (s : Store) (row : Option Bytes) (es : Entries)
    → ((j : String) → read j s ≡ lookup j es)
    → (j : String)
    → read j (record { size_row = row; entries = update_text s.entries key [] })
      ≡ lookup j (drop_key key es)
unfolding read_chunked_value
read-remove key s row es same j =
    let absent : read_chunked_value [] ≡ none = refl in
    elim (Bool-cases (str_eq key j)) [
      | inl e ↦ rw (lookup-drop_key key es j, e, absent) refl
      | inr n ↦ rw (lookup-drop_key key es j, n) (same j)
    ]

start : Refines empty_store []
unfolding read_chunked_value
start = record { reads = λ key. refl; apart = tt; counts = inr (refl, refl) }

module _ (atomic : AtomicAdd) (platform : Platform) where
  unfoldable pub execute : Command → Store → Store
  execute (set_value key value) s = set atomic platform key value s
  execute (remove_key key) s = remove atomic platform key s
  execute clear_all s = clear s

  unfoldable pub promise : Command → Entries → Entries
  promise (set_value key value) es = put key (encode_value platform value) es
  promise (remove_key key) es = drop_key key es
  promise clear_all es = []

  increment_size-Counts :
      (row : Option Bytes) (n : ℕ)
      → n < max_safe_count
      → Counts row n
      → Counts (some (atomic.add row increment_size)) (suc n)
  increment_size-Counts row n l (inl e) =
      let next : (n + 1) % word_limit ≡ suc n = omega (arith, l) in
      rw e (
        inl (
          ap (λ w. some w)
            (atomic.add_word n 1 (omega (arith, l)) (omega arith) ∙ ap word_bytes next)))
  increment_size-Counts row n l (inr (e, nothing)) =
      rw (e, nothing) (inl (ap (λ w. some w) (atomic.add_absent 1 (omega arith))))

  decrement_size-Counts :
      (row : Option Bytes) (n : ℕ)
      → n < max_safe_count
      → Counts row (suc n)
      → Counts (some (atomic.add row decrement_size)) n
  decrement_size-Counts row n l (inl e) =
      let before : (suc n + 18446744073709551615) % word_limit ≡ n = omega (arith, l) in
      rw e (
        inl (
          ap (λ w. some w)
            (atomic.add_word (suc n) 18446744073709551615 (omega (arith, l)) (omega arith)
              ∙ ap word_bytes before)))
  decrement_size-Counts row n l (inr (e, nothing)) = absurd (omega (arith, nothing))

  set-Refines :
      (key : String) (value : Value) (s : Store) (es : Entries)
      → length es < max_safe_count
      → Refines s es
      → Refines (set atomic platform key value s) (put key (encode_value platform value) es)
  unfolding set
  set-Refines key value s es l r = elim (has_chunked_value-read (s.entries key)) [
    | inl (absent, gone) ↦
        rw (absent, set)
          (record {
            reads = reads-write_entry key _ s es r.reads;
            apart = put-NoDup key _ es r.apart;
            counts =
                subst (λ n. Counts (some (atomic.add s.size_row increment_size)) n)
                  (sym (length-put_new key _ es (sym (r.reads key) ∙ gone)))
                  (increment_size-Counts s.size_row (length es) l r.counts);
          })
    | inr (old, present, there) ↦
        rw (present, set)
          (record {
            reads = reads-write_entry key _ s es r.reads;
            apart = put-NoDup key _ es r.apart;
            counts =
                subst (λ n. Counts s.size_row n)
                  (sym (length-put_known key _ old es (sym (r.reads key) ∙ there))) r.counts;
          })
  ]

  remove-Refines :
      (key : String) (s : Store) (es : Entries)
      → length es < max_safe_count
      → Refines s es
      → Refines (remove atomic platform key s) (drop_key key es)
  unfolding remove
  remove-Refines key s es l r = elim (has_chunked_value-read (s.entries key)) [
    | inl (absent, gone) ↦ rw (absent, remove, drop_key_absent key es (sym (r.reads key) ∙ gone)) r
    | inr (old, present, there) ↦
        let fewer = length-drop_key key old es r.apart (sym (r.reads key) ∙ there) in
        rw (present, remove)
          (record {
            reads = read-remove key s (some (atomic.add s.size_row decrement_size)) es r.reads;
            apart = drop_key-NoDup key es r.apart;
            counts =
                decrement_size-Counts s.size_row (length (drop_key key es))
                  (omega (arith, l, fewer)) (subst (λ n. Counts s.size_row n) (sym fewer) r.counts);
          })
  ]

  clear-Refines : (s : Store) → Refines (clear s) []
  unfolding clear read_chunked_value
  clear-Refines s = record { reads = λ key. refl; apart = tt; counts = inl refl }

  execute-Refines :
      (c : Command) (s : Store) (es : Entries)
      → length es < max_safe_count
      → Refines s es
      → Refines (execute c s) (promise c es)
  unfolding execute promise
  execute-Refines (set_value key value) s es l r = set-Refines key value s es l r
  execute-Refines (remove_key key) s es l r = remove-Refines key s es l r
  execute-Refines clear_all s es l r = clear-Refines s

  unfoldable pub run : List Command → Store → Store
  run [] s = s
  run (c ∷ cs) s = run cs (execute c s)

  unfoldable pub promises : List Command → Entries → Entries
  promises [] es = es
  promises (c ∷ cs) es = promises cs (promise c es)

  -- A command adds one key at most.
  length-promise : (c : Command) (es : Entries) → length (promise c es) ≤ suc (length es)
  unfolding promise
  length-promise (set_value key value) es =
      omega (arith, length-put key (encode_value platform value) es)
  length-promise (remove_key key) es = omega (arith, length-drop_key_le key es)
  length-promise clear_all es = omega arith

  run-Refines :
      (cs : List Command) (s : Store) (es : Entries)
      → length cs + length es < max_safe_count
      → Refines s es
      → Refines (run cs s) (promises cs es) × (length (promises cs es) < max_safe_count)
  unfolding run promises
  run-Refines [] s es l r = (r, omega (arith, l))
  run-Refines (c ∷ cs) s es l r =
      run-Refines cs (execute c s) (promise c es) (omega (arith, l, length-promise c es))
        (execute-Refines c s es (omega (arith, l)) r)

  -- After any commands on an empty store, fewer than 2^53 - 1, each key reads as the entries that the
  -- commands leave, and the size that the counter gives is the number of those entries.
  pub run_lem :
      (cs : List Command)
      → length cs < max_safe_count
      → ((key : String) → read key (run cs empty_store) ≡ lookup key (promises cs []))
        × (size (run cs empty_store) ≡ ok (length (promises cs [])))
  unfolding size
  run_lem cs l =
      let (r, few) = run-Refines cs empty_store [] (omega (arith, l)) start in
      (r.reads, decode_size-Counts _ _ few r.counts)
