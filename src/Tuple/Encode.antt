-- ===== src/Tuple/Encode.antt =====
-- src/tuple/codec.ts: `packTrackedSync`, `appendVersionstampOffset` and what they call. The output
-- array and the array of offsets are the state `Output`, passed through in the order of the pushes.
use foundationdb_effect.Prelude.{
  ℕ, zero, suc, ◌+◌, ◌-◌, ◌/◌, ◌%◌, Bool, true, false, not, ◌&&◌, ◌||◌, List, [], ◌∷◌, ◌++◌, ltb,
  leb, ◌==◌, if◌then◌else◌, length, map, reverse, bit_and, bit_xor, Option,
}
use foundationdb_effect.Prelude.Int.{ℤ, pos, negsuc}
use foundationdb_effect.Prelude.Result.{Result, ok, err, ◌>>=◌, map_ok}
use foundationdb_effect.Bytes.{Bytes, concat_bytes}
use foundationdb_effect.Tuple.Values.{
  TupleValue, Tuple, null, boolean, bytes, string, bigint, number, float32, uuid, versionstamp,
  nested, nil, cons, TupleError, pack_error, unpaired_surrogate, integer_too_large,
  multiple_incomplete_versionstamps, offset_exceeds_32_bits, to_be, to_le, is_complete,
}

-- `TextEncoder` and the fatal `TextDecoder` of the platform, on code units and bytes.
pub record Utf8 : Type 0 where
  pub encode : List ℕ → Bytes
  pub decode : Bytes → Option (List ℕ)

-- `appendEscaped`
unfoldable pub append_escaped : Bytes → Bytes → Bytes
append_escaped output [] = output ++ 0x00 ∷ []
append_escaped output (byte ∷ value) =
    append_escaped
      (if byte == 0x00 then (output ++ byte ∷ []) ++ 0xff ∷ [] else output ++ byte ∷ []) value

-- `assertWellFormedString`: false is the throw.
unfoldable pub is_well_formed : List ℕ → Bool
is_well_formed [] = true
is_well_formed (unit ∷ []) =
    if leb 0xd800 unit && leb unit 0xdbff then false else not (leb 0xdc00 unit && leb unit 0xdfff)
is_well_formed (unit ∷ next ∷ value) =
    let after_pair = is_well_formed value in
    let after_unit = is_well_formed (next ∷ value) in
    if leb 0xd800 unit && leb unit 0xdbff
    then (if ltb next 0xdc00 || ltb 0xdfff next then false else after_pair)
    else if leb 0xdc00 unit && leb unit 0xdfff
    then false
    else after_unit

-- The loop of `magnitudeBytes`, in the order of its pushes. A magnitude is above the number of its
-- bytes, so it serves as fuel.
unfoldable pub magnitude_loop : ℕ → ℕ → Bytes
magnitude_loop zero remaining = []
magnitude_loop (suc fuel) remaining =
    let rest = magnitude_loop fuel (remaining / 256) in
    if remaining == 0 then [] else (remaining % 256) ∷ rest

unfoldable pub magnitude_bytes : ℕ → Bytes
unfolding magnitude_loop
magnitude_bytes value = reverse (magnitude_loop value value)

-- `byte ^ 0xff`
abbrev pub complement : ℕ → ℕ
complement byte = bit_xor byte 0xff

-- The part of `appendInteger` after the magnitude is known.
unfoldable pub append_magnitude : Bytes → Bool → Bytes → Result TupleError Bytes
append_magnitude output negative magnitude =
    let size = length magnitude in
    if ltb 255 size
    then err (pack_error integer_too_large)
    else let header : Bytes =
        if leb size 8
        then (if negative then 0x14 - size else 0x14 + size) ∷ []
        else (if negative then 0x0b else 0x1d)
          ∷ (if negative then complement size else size)
          ∷ [] in
      ok ((output ++ header) ++ (if negative then map complement magnitude else magnitude))

-- `appendInteger`
unfoldable pub append_integer : Bytes → ℤ → Result TupleError Bytes
append_integer output (pos zero) = ok (output ++ 0x14 ∷ [])
append_integer output (pos (suc n)) = append_magnitude output false (magnitude_bytes (suc n))
append_integer output (negsuc n) = append_magnitude output true (magnitude_bytes (suc n))

-- The byte changes of `appendOrderedFloat`.
unfoldable pub order_float : Bytes → Bytes
order_float [] = []
order_float (b ∷ bs) =
    if not (bit_and b 0x80 == 0) then map complement (b ∷ bs) else bit_xor b 0x80 ∷ bs

-- `appendOrderedFloat`
unfoldable pub append_ordered_float : Bytes → ℕ → Bytes → Bytes
append_ordered_float output type_code encoded = output ++ type_code ∷ order_float encoded

-- `PackedTuple`, and the two arrays that `appendValue` pushes to.
pub record Output : Type 0 where
  pub output : Bytes
  pub incomplete_versionstamps : List ℕ

abbrev pub push : Output → Bytes → Output
push o bs = record o { output = o.output ++ bs }

module _ (utf8 : Utf8) where
  abbrev append_string : Output → List ℕ → Result TupleError Output
  append_string o units =
      if is_well_formed units
      then ok (record o { output = append_escaped (o.output ++ 0x02 ∷ []) (utf8.encode units) })
      else err (pack_error unpaired_surrogate)

  abbrev append_versionstamp : Output → Bytes → Output
  append_versionstamp o stamp =
      let coded = push o (0x33 ∷ []) in
      let tracked : Output = if is_complete stamp then coded else record coded {
        incomplete_versionstamps = coded.incomplete_versionstamps ++ length coded.output ∷ [];
      } in
      push tracked stamp

  unfoldable mutual
    -- `appendValue`
    pub append_value : Output → TupleValue → Bool → Result TupleError Output
    append_value o null in_tuple =
        ok (if in_tuple then push (push o (0x00 ∷ [])) (0xff ∷ []) else push o (0x00 ∷ []))
    append_value o (bytes value) in_tuple =
        ok (record o { output = append_escaped (o.output ++ 0x01 ∷ []) value })
    append_value o (string units) in_tuple = append_string o units
    append_value o (bigint value) in_tuple =
        map_ok (λ out. record o { output = out }) (append_integer o.output value)
    append_value o (float32 bits) in_tuple =
        ok (record o { output = append_ordered_float o.output 0x20 (to_be 4 bits) })
    append_value o (number bits) in_tuple =
        ok (record o { output = append_ordered_float o.output 0x21 (to_be 8 bits) })
    append_value o (boolean value) in_tuple = ok (push o ((if value then 0x27 else 0x26) ∷ []))
    append_value o (uuid value) in_tuple = ok (push (push o (0x30 ∷ [])) value)
    append_value o (versionstamp stamp) in_tuple = ok (append_versionstamp o stamp)
    append_value o (nested children) in_tuple = do
      o' ← append_values (push o (0x05 ∷ [])) children true
      ok (push o' (0x00 ∷ []))

    -- The loops over the values of a tuple and over the children of a nested one.
    pub append_values : Output → Tuple → Bool → Result TupleError Output
    append_values o nil in_tuple = ok o
    append_values o (cons value values) in_tuple = do
      o' ← append_value o value in_tuple
      append_values o' values in_tuple

  -- `packTrackedSync`
  unfoldable pub pack_tracked : Tuple → Result TupleError Output
  pack_tracked tuple =
      append_values (record { output = []; incomplete_versionstamps = [] }) tuple false

  -- `pack`
  unfoldable pub pack : Tuple → Result TupleError Bytes
  pack tuple = map_ok (λ packed. packed.output) (pack_tracked tuple)

-- The three cases of `appendVersionstampOffset`, on the array of offsets.
unfoldable pub append_offsets : Bytes → List ℕ → Result TupleError Bytes
append_offsets packed [] = ok packed
append_offsets packed (offset ∷ []) =
    if ltb 0xffff_ffff offset
    then err (pack_error offset_exceeds_32_bits)
    else ok (concat_bytes (packed ∷ to_le 4 offset ∷ []))
append_offsets packed (_ ∷ _ ∷ _) = err (pack_error multiple_incomplete_versionstamps)

-- `appendVersionstampOffset`
unfoldable pub append_versionstamp_offset : Output → Result TupleError Bytes
unfolding append_offsets
append_versionstamp_offset packed = append_offsets packed.output packed.incomplete_versionstamps

-- `packWithVersionstamp`
unfoldable pub pack_with_versionstamp : Utf8 → Tuple → Result TupleError Bytes
pack_with_versionstamp utf8 tuple = pack_tracked utf8 tuple >>= append_versionstamp_offset
