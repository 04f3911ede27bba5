-- ===== src/KeyValue/Word.antt =====
-- Numbers of eight bytes.
use native.Mathlib.Nat.{pow-suc}
use foundationdb_effect.Prelude.{
  ℕ, zero, suc, ◌-◌, ◌*◌, ◌/◌, ◌%◌, ◌^◌, ◌<◌, ◌≤◌, ◌≡◌, subst, refl, ◌∙◌, some, arith, length, leb,
  ◌||◌, if◌then◌else◌,
}
use foundationdb_effect.Prelude.Int.{ℤ, pos, negsuc, pos_part, neg_part, ltb_ℤ}
use foundationdb_effect.Prelude.Result.{Result, ok, err}
use foundationdb_effect.Bytes.{Bytes}
use foundationdb_effect.KeyValue.Size.{
  KeyValueStoreDataError, size_out_of_range, little_endian, number_of, signed_number_of, word_of,
  counter_delta, decode_size, max_safe_count, word_limit, sign_limit,
}

length-little_endian : (count n : ℕ) → length (little_endian count n) ≡ count
length-little_endian zero n = refl
length-little_endian (suc count) n = omega (arith, length-little_endian count (n / 256))

pub number_of-little_endian :
    (count n : ℕ) → n < 256 ^ count → number_of (little_endian count n) ≡ n
number_of-little_endian zero n l = omega arith
number_of-little_endian (suc count) n l =
    let small : n < 256 ^ count * 256 = subst (λ x. n < x) (pow-suc 256 count) l in
    omega (arith, number_of-little_endian count (n / 256) (omega arith))

-- What the counter of keys stands for: a number of keys is not negative, and is exact.
abbrev pub counted : ℤ → Result KeyValueStoreDataError ℕ
counted (pos n) = if leb n max_safe_count then ok n else err size_out_of_range
counted (negsuc n) = err size_out_of_range

-- A signed number of 64 bits: at least -2^63 and below 2^63.
abbrev pub Signed64 : ℤ → Type 0
Signed64 value = (pos_part value < sign_limit) × (neg_part value ≤ sign_limit)

signed_number_of-counter_delta :
    (value : ℤ) → Signed64 value → signed_number_of (counter_delta value) ≡ value
signed_number_of-counter_delta (pos n) (above, below) =
    let whole = number_of-little_endian 8 (n % word_limit) (omega arith) in ground (arith, whole)
signed_number_of-counter_delta (negsuc n) (above, below) =
    let whole = number_of-little_endian 8 (18446744073709551615 - n % word_limit) (omega arith) in
    ground (arith, whole)

counted_lem :
    (value : ℤ)
    → (if ltb_ℤ value (pos 0) || ltb_ℤ (pos max_safe_count) value
        then err size_out_of_range
        else ok (pos_part value))
      ≡ counted value
counted_lem (pos n) = ground arith
counted_lem (negsuc n) = ground arith

decode_size_eight :
    (bytes : Bytes)
    → length bytes ≡ 8
    → decode_size (some bytes) ≡ (
        if ltb_ℤ (signed_number_of bytes) (pos 0)
          || ltb_ℤ (pos max_safe_count) (signed_number_of bytes)
        then err size_out_of_range
        else ok (pos_part (signed_number_of bytes)))
unfolding decode_size
decode_size_eight bytes eight = rw (eight, decode_size) refl

-- For a signed number of 64 bits, the counter that has its bytes decodes to it where it is neither
-- negative nor above the largest safe integer, and is an error otherwise.
pub decode_size-counter_delta :
    (value : ℤ) → Signed64 value → decode_size (some (counter_delta value)) ≡ counted value
decode_size-counter_delta value signed =
    decode_size_eight (counter_delta value) (length-little_endian 8 (word_of value))
    ∙ rw (signed_number_of-counter_delta value signed) (counted_lem value)
