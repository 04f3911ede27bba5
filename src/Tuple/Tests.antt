-- ===== src/Tuple/Tests.antt =====
-- Runs of the codec on the inputs of tests/unit/tuple/codec_test.ts and like ones.
use foundationdb_effect.Prelude.{
  ℕ, ◌+◌, ◌/◌, ◌%◌, ◌*◌, ◌<◌, ◌≡◌, refl, true, List, [], ◌∷◌, Option, none, some, arith, All, ap,
  ◌≢◌,
}
use foundationdb_effect.Prelude.Int.{pos, negsuc}
use foundationdb_effect.Prelude.Result.{ok, err}
use foundationdb_effect.Bytes.{Bytes}
use foundationdb_effect.Tuple.Values.{
  Tuple, null, boolean, bytes, string, bigint, number, float32, nested, nil, cons, is_complete,
  out_of_fuel,
}
use foundationdb_effect.Tuple.Encode.{
  Utf8, append_escaped, is_well_formed, append_integer, append_magnitude, magnitude_bytes,
  append_value, append_values, order_float, append_ordered_float, pack_tracked, pack,
}
use foundationdb_effect.Tuple.Decode.{
  unpack, read_tuple, read_value, read_integer, read_escaped, read, read_byte, read_ordered_float,
  restore_float, fold_magnitude, read_integer_length,
}
use foundationdb_effect.Tuple.Integer.{WritesInteger, append_integer-WritesInteger}
use foundationdb_effect.Tuple.Valid.{IsUtf8}
use foundationdb_effect.Tuple.RoundTrip.{unpack-pack}
use foundationdb_effect.Tuple.Total.{unpack_ends}

-- A code of two bytes for each unit, which stands in for the platform's UTF-8.
abbrev two_bytes : List ℕ → Bytes
two_bytes [] = []
two_bytes (u ∷ us) = (u / 256) ∷ (u % 256) ∷ two_bytes us

abbrev from_two_bytes : Bytes → Option (List ℕ)
from_two_bytes [] = some []
from_two_bytes (h ∷ []) = none
from_two_bytes (h ∷ l ∷ bs) = elim (from_two_bytes bs) [
  | none ↦ none
  | some us ↦ some ((h * 256 + l) ∷ us)
]

abbrev stand_in : Utf8
stand_in = record { encode = two_bytes; decode = from_two_bytes }

abbrev sample : Tuple
sample = cons null (
    cons (bytes (1 ∷ 0 ∷ 2 ∷ [])) (
      cons (string (104 ∷ 0 ∷ [])) (
        cons (bigint (negsuc 255)) (
          cons (bigint (pos 70000)) (
            cons (float32 0x80000001) (
              cons (number 0x4009_21fb_5444_2d18) (
                cons (boolean true) (
                  cons (nested (cons null (cons (nested nil) (cons (bigint (pos 0)) nil))))
                    nil))))))))

code_run : Unit {0}
unfolding pack pack_tracked append_values append_value append_escaped is_well_formed append_integer
    append_magnitude magnitude_bytes order_float append_ordered_float is_complete unpack read_tuple
    read_value read_integer read_escaped read read_byte read_ordered_float restore_float
    fold_magnitude read_integer_length
code_run = tt

packed_sample : Bytes
unfolding code_run
packed_sample = elim (pack stand_in sample) [ ok b ↦ b | err _ ↦ [] ]

sample_round_trip : unpack stand_in packed_sample ≡ ok sample
unfolding packed_sample
sample_round_trip = refl

decode-encode_stand_in :
    (units : List ℕ) → All (λ u. u < 65536) units → from_two_bytes (two_bytes units) ≡ some units
decode-encode_stand_in [] h = refl
decode-encode_stand_in (u ∷ us) h =
    rw (decode-encode_stand_in us h.1) (ap (λ v. some (v ∷ us)) (omega arith))

stand_in-IsUtf8 : IsUtf8 stand_in
stand_in-IsUtf8 = record { decode-encode = λ units h w. decode-encode_stand_in units h }

packed_sample_lem : pack stand_in sample ≡ ok packed_sample
unfolding packed_sample
packed_sample_lem = refl

unpack-pack_example : unpack stand_in packed_sample ≡ ok sample
unpack-pack_example =
    unpack-pack stand_in sample packed_sample stand_in-IsUtf8 (omega arith) packed_sample_lem

unpack_ends_example : unpack stand_in (0x05 ∷ 0x05 ∷ 0x00 ∷ 0xff ∷ []) ≢ err out_of_fuel
unpack_ends_example = unpack_ends stand_in (0x05 ∷ 0x05 ∷ 0x00 ∷ 0xff ∷ [])

minus_300 : append_integer [] (negsuc 299) ≡ ok (0x12 ∷ 0xfe ∷ 0xd3 ∷ [])
unfolding code_run
minus_300 = refl

append_integer-WritesInteger_example : WritesInteger (negsuc 299) [] (0x12 ∷ 0xfe ∷ 0xd3 ∷ [])
append_integer-WritesInteger_example =
    append_integer-WritesInteger (negsuc 299) [] (0x12 ∷ 0xfe ∷ 0xd3 ∷ []) (λ e. cc) minus_300
