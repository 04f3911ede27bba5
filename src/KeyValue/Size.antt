-- ===== src/KeyValue/Size.antt =====
-- The counter of keys: a signed number of 64 bits, little-endian, that transactions add to.
use foundationdb_effect.Prelude.{
  ℕ, zero, suc, ◌+◌, ◌*◌, ◌/◌, ◌%◌, ◌-◌, ◌<◌, ◌≡◌, Option, none, some, [], ◌∷◌, ◌==◌, ltb, ◌||◌,
  if◌then◌else◌, length,
}
use foundationdb_effect.Prelude.Int.{ℤ, pos, negsuc, pos_part, ltb_ℤ}
use foundationdb_effect.Prelude.Result.{Result, ok, err}
use foundationdb_effect.Bytes.{Bytes}

-- The reasons of a `KeyValueStoreDataError`.
pub data KeyValueStoreDataError : Type 0 where
  invalid_value_type invalid_size_metadata size_out_of_range : KeyValueStoreDataError

abbrev pub word_limit : ℕ
word_limit = 18446744073709551616

abbrev pub sign_limit : ℕ
sign_limit = 9223372036854775808

abbrev pub max_safe_count : ℕ
max_safe_count = 9007199254740991

-- So many bytes of a number, the low one first, as `setBigInt64(0, value, true)` writes its word.
abbrev pub little_endian : ℕ → ℕ → Bytes
little_endian zero n = []
little_endian (suc count) n = n % 256 ∷ little_endian count (n / 256)

abbrev pub word_bytes : ℕ → Bytes
word_bytes n = little_endian 8 n

-- The word of 64 bits for a signed number, in two's complement.
abbrev pub word_of : ℤ → ℕ
word_of (pos n) = n % word_limit
word_of (negsuc n) = 18446744073709551615 - n % word_limit

abbrev pub counter_delta : ℤ → Bytes
counter_delta value = word_bytes (word_of value)

abbrev pub increment_size : Bytes
increment_size = counter_delta (pos 1)

abbrev pub decrement_size : Bytes
decrement_size = counter_delta (negsuc 0)

abbrev pub empty_size : Bytes
empty_size = counter_delta (pos 0)

-- The number that bytes give, the low one first.
abbrev pub number_of : Bytes → ℕ
number_of [] = 0
number_of (b ∷ bs) = b + 256 * number_of bs

-- `getBigInt64(0, true)`: a word from 2^63 on is negative.
abbrev pub signed_number_of : Bytes → ℤ
signed_number_of bs =
    let word = number_of bs in
    if ltb word sign_limit then pos word else negsuc (18446744073709551615 - word)

-- `decodeSize`; `Number(count)` is reached where the count is not negative.
unfoldable pub decode_size : Option Bytes → Result KeyValueStoreDataError ℕ
decode_size none = ok 0
decode_size (some value) =
    if length value == 8
    then (let count = signed_number_of value in
        if ltb_ℤ count (pos 0) || ltb_ℤ (pos max_safe_count) count
        then err size_out_of_range
        else ok (pos_part count))
    else err invalid_size_metadata

-- `MutationType.Add`, which FoundationDB applies: the sum of the two numbers of 8 bytes, where a
-- missing row counts as 0, wrapped around.
pub record AtomicAdd : Type 0 where
  pub add : Option Bytes → Bytes → Bytes
  pub add_word :
      (n m : ℕ)
      → n < word_limit
      → m < word_limit
      → add (some (word_bytes n)) (word_bytes m) ≡ word_bytes ((n + m) % word_limit)
  pub add_absent : (m : ℕ) → m < word_limit → add none (word_bytes m) ≡ word_bytes m
