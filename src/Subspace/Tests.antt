-- ===== src/Subspace/Tests.antt =====
-- Runs of a subspace, and the theorems at concrete inputs.
use foundationdb_effect.Prelude.{◌≡◌, ◌↔◌, refl, true, [], ◌∷◌, arith, some}
use foundationdb_effect.Prelude.Int.{pos}
use foundationdb_effect.Prelude.Result.{ok}
use foundationdb_effect.Bytes.Prefix.{InRange}
use foundationdb_effect.Tuple.Values.{Tuple, bigint, boolean, nil, cons}
use foundationdb_effect.Tuple.Encode.{
  Utf8, append_integer, append_magnitude, magnitude_bytes, append_value, append_values,
  pack_tracked,
}
use foundationdb_effect.Tuple.Encode
use foundationdb_effect.Tuple.Valid.{IsUtf8}
use foundationdb_effect.Subspace.{Subspace, from_bytes, contains, pack, unpack, range}
use foundationdb_effect.Subspace.Keys.{
  Extends, range_iff-Extends, subspace_round_trip, range_covers,
}

-- A platform whose code of a string is the string itself.
abbrev units_as_bytes : Utf8
units_as_bytes = record { encode = λ units. units; decode = λ bytes. some bytes }

units_as_bytes-IsUtf8 : IsUtf8 units_as_bytes
units_as_bytes-IsUtf8 = record { decode-encode = λ units h w. refl }

abbrev counters : Subspace
counters = from_bytes (0x15 ∷ 0x2a ∷ [])

abbrev path : Tuple
path = cons (bigint (pos 5)) nil

runs : Unit {0}
unfolding pack range Encode.pack pack_tracked append_values append_value append_integer
    append_magnitude magnitude_bytes
runs = tt

packed : pack units_as_bytes counters path ≡ ok (0x15 ∷ 0x2a ∷ 0x15 ∷ 0x05 ∷ [])
unfolding runs
packed = refl

ranged :
    range units_as_bytes counters path
    ≡ ok (0x15 ∷ 0x2a ∷ 0x15 ∷ 0x05 ∷ 0x00 ∷ [], 0x15 ∷ 0x2a ∷ 0x15 ∷ 0x05 ∷ 0xff ∷ [])
unfolding runs
ranged = refl

longer :
    pack units_as_bytes counters (cons (bigint (pos 5)) (cons (boolean true) nil))
    ≡ ok (0x15 ∷ 0x2a ∷ 0x15 ∷ 0x05 ∷ 0x27 ∷ [])
unfolding runs
longer = refl

range_iff-Extends_example :
    InRange
      (0x15 ∷ 0x2a ∷ 0x15 ∷ 0x05 ∷ 0x00 ∷ [])
      (0x15 ∷ 0x2a ∷ 0x15 ∷ 0x05 ∷ 0xff ∷ [])
      (0x15 ∷ 0x2a ∷ 0x15 ∷ 0x05 ∷ 0x26 ∷ [])
    ↔ Extends (0x15 ∷ 0x2a ∷ 0x15 ∷ 0x05 ∷ []) (0x15 ∷ 0x2a ∷ 0x15 ∷ 0x05 ∷ 0x26 ∷ [])
range_iff-Extends_example =
    range_iff-Extends units_as_bytes counters path _ _ (0x15 ∷ 0x2a ∷ 0x15 ∷ 0x05 ∷ [])
      (0x15 ∷ 0x2a ∷ 0x15 ∷ 0x05 ∷ 0x26 ∷ []) packed ranged

subspace_round_trip_example :
    (contains counters (0x15 ∷ 0x2a ∷ 0x15 ∷ 0x05 ∷ []) ≡ true)
    × (unpack units_as_bytes counters (0x15 ∷ 0x2a ∷ 0x15 ∷ 0x05 ∷ []) ≡ ok path)
subspace_round_trip_example =
    subspace_round_trip units_as_bytes counters path (0x15 ∷ 0x2a ∷ 0x15 ∷ 0x05 ∷ [])
      units_as_bytes-IsUtf8 (omega arith) packed

range_covers_example :
    InRange
      (0x15 ∷ 0x2a ∷ 0x15 ∷ 0x05 ∷ 0x00 ∷ [])
      (0x15 ∷ 0x2a ∷ 0x15 ∷ 0x05 ∷ 0xff ∷ [])
      (0x15 ∷ 0x2a ∷ 0x15 ∷ 0x05 ∷ 0x27 ∷ [])
range_covers_example =
    range_covers units_as_bytes counters path (boolean true) nil _ _
      (0x15 ∷ 0x2a ∷ 0x15 ∷ 0x05 ∷ 0x27 ∷ []) units_as_bytes-IsUtf8 (omega arith) ranged longer
