-- ===== src/KeyValue/Tests.antt =====
-- Runs of the key-value store, with an addition and encodings written out.
use Prim.Native.String.{String}
use package.text.Mathlib.Text.{◌==◌ as str_eq}
use foundationdb_effect.Prelude.{
  ℕ, ◌+◌, ◌%◌, ◌<◌, ◌≡◌, refl, arith, Option, none, some, List, [], ◌∷◌, if◌then◌else◌,
}
use foundationdb_effect.Prelude.Int.{negsuc}
use foundationdb_effect.Prelude.Result.{ok, err}
use foundationdb_effect.Bytes.{Bytes}
use foundationdb_effect.Chunks.{read_chunked_value}
use foundationdb_effect.KeyValue.{
  text, binary, Store, Platform, read, get_bytes, size, modify_bytes,
}
use foundationdb_effect.KeyValue.Size.{
  AtomicAdd, number_of, word_bytes, counter_delta, word_limit, decode_size, size_out_of_range,
}
use foundationdb_effect.KeyValue.Word.{number_of-little_endian, decode_size-counter_delta}
use foundationdb_effect.KeyValue.Entries.{lookup}
use foundationdb_effect.KeyValue.Refines.{
  Command, set_value, remove_key, run, promises, promise, empty_store, run_lem,
}
use foundationdb_effect.KeyValue.Values.{modify_bytes_lem}

abbrev add_little_endian : Option Bytes → Bytes → Bytes
add_little_endian none delta = delta
add_little_endian (some row) delta = word_bytes ((number_of row + number_of delta) % word_limit)

add_little_endian_word :
    (n m : ℕ)
    → n < word_limit
    → m < word_limit
    → add_little_endian (some (word_bytes n)) (word_bytes m) ≡ word_bytes ((n + m) % word_limit)
add_little_endian_word n m small small' =
    rw (number_of-little_endian 8 n small, number_of-little_endian 8 m small') refl

abbrev atomic : AtomicAdd
atomic = record {
  add = add_little_endian;
  add_word = add_little_endian_word;
  add_absent = λ m small. refl;
}

abbrev same_units : List ℕ → List ℕ
same_units units = units

abbrev platform : Platform
platform = record { encode_text = same_units; decode_text = same_units; base64 = same_units }

abbrev commands : List Command
commands =
    set_value "a" (binary (7 ∷ []))
    ∷ set_value "b" (text (104 ∷ []))
    ∷ set_value "a" (binary (8 ∷ []))
    ∷ remove_key "b"
    ∷ remove_key "c"
    ∷ []

run_lem_example :
    ((key : String)
      → read key (run atomic platform commands empty_store)
        ≡ lookup key (promises atomic platform commands []))
    × (size (run atomic platform commands empty_store) ≡ ok 1)
unfolding promises promise
run_lem_example = run_lem atomic platform commands (omega arith)

abbrev one_key : Store
one_key = record { size_row = some (word_bytes 1); entries = λ key. (0, 1 ∷ 7 ∷ []) ∷ [] }

modify_bytes_lem_example :
    (s' : Store) × (modify_bytes platform "a" (λ bytes. 9 ∷ bytes) one_key
      ≡ ok (some (9 ∷ 7 ∷ []), s'))
    × (get_bytes "a" s' ≡ ok (some (9 ∷ 7 ∷ [])))
    × ((j : String) → read j s' ≡ (if str_eq "a" j then some (1 ∷ 9 ∷ 7 ∷ []) else read j one_key))
    × (size s' ≡ size one_key)
unfolding get_bytes read_chunked_value
modify_bytes_lem_example = modify_bytes_lem platform "a" (λ bytes. 9 ∷ bytes) one_key (7 ∷ []) refl

decode_size-counter_delta_example :
    decode_size (some (counter_delta (negsuc 257))) ≡ err size_out_of_range
decode_size-counter_delta_example =
    decode_size-counter_delta (negsuc 257) (omega arith, omega arith)
