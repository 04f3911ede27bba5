-- ===== src/Tuple/Decode.antt =====
-- src/tuple/codec.ts: the class `Parser` and `unpack`. The state of the parser is the list of the
-- bytes that it has not read; its `#offset` is the length of the input less theirs, so a failure
-- carries their number until `unpack` turns it into an offset.
use foundationdb_effect.Prelude.{
  ℕ, zero, suc, ◌+◌, ◌-◌, ◌*◌, Bool, true, false, not, ◌&&◌, ◌||◌, List, [], ◌∷◌, ◌++◌, ltb, leb,
  ◌==◌, if◌then◌else◌, length, take, drop, map, bit_and, bit_xor, Option, none, some,
}
use foundationdb_effect.Prelude.Int.{pos, neg_ℕ}
use foundationdb_effect.Prelude.Result.{Result, ok, err, ◌>>=◌, map_ok, map_err}
use foundationdb_effect.Bytes.{Bytes}
use foundationdb_effect.Tuple.Values.{
  TupleValue, Tuple, null, boolean, bytes, string, bigint, number, float32, uuid, versionstamp,
  nested, nil, push_value, TupleError, unpack_error, out_of_fuel, UnpackReason, truncated_tuple,
  unterminated_value, invalid_utf8, unsupported_code, unterminated_nested_tuple, from_be,
}
use foundationdb_effect.Tuple.Encode.{Utf8, complement}

abbrev pub Parsed {ℓ} : Type ℓ → Type ℓ
Parsed A = Result TupleError (A × Bytes)

-- `#fail`
abbrev fail {ℓ} : {A : Type ℓ} → UnpackReason → Bytes → Parsed A
fail reason left = err (unpack_error reason (length left))

-- `#readByte`
unfoldable pub read_byte : Bytes → Parsed ℕ
read_byte [] = fail truncated_tuple []
read_byte (byte ∷ left) = ok (byte, left)

-- `#read`
unfoldable pub read : ℕ → Bytes → Parsed Bytes
read n left =
    if ltb (length left) n then fail truncated_tuple left else ok (take n left, drop n left)

-- The loop of `#readEscaped`
unfoldable pub read_escaped : Bytes → Bytes → Parsed Bytes
read_escaped value [] = fail unterminated_value []
read_escaped value (byte ∷ []) =
    let longer = read_escaped (value ++ byte ∷ []) [] in
    if not (byte == 0x00) then longer else ok (value, [])
read_escaped value (byte ∷ next ∷ left) =
    let longer = read_escaped (value ++ byte ∷ []) (next ∷ left) in
    let escaped = read_escaped (value ++ 0x00 ∷ []) left in
    if not (byte == 0x00) then longer else if next == 0xff then escaped else ok (value, next ∷ left)

-- The loop of `#readInteger` over the magnitude.
unfoldable pub fold_magnitude : Bool → ℕ → Bytes → ℕ
fold_magnitude negative magnitude [] = magnitude
fold_magnitude negative magnitude (byte ∷ encoded) =
    fold_magnitude negative (magnitude * 256 + (if negative then complement byte else byte)) encoded

-- `Math.abs(code - INTEGER_ZERO)`
abbrev pub distance : ℕ → ℕ → ℕ
distance a b = if ltb a b then b - a else a - b

-- The length of the magnitude: in the next byte, or in the type code.
unfoldable pub read_integer_length : ℕ → Bytes → Parsed ℕ
read_integer_length type_code left =
    if type_code == 0x0b
    then map_ok (λ (byte, left'). (complement byte, left')) (read_byte left)
    else if type_code == 0x1d
    then read_byte left
    else ok (distance type_code 0x14, left)

-- `#readInteger`
unfoldable pub read_integer : ℕ → Bytes → Parsed TupleValue
read_integer type_code left =
    let negative = ltb type_code 0x14 in
    do
      (size, left₁) ← read_integer_length type_code left
      (encoded, left₂) ← read size left₁
      let magnitude = fold_magnitude negative 0 encoded
      ok (bigint (if negative then neg_ℕ magnitude else pos magnitude), left₂)

-- The byte changes of `#readOrderedFloat`.
unfoldable pub restore_float : Bytes → Bytes
restore_float [] = []
restore_float (b ∷ bs) =
    if not (bit_and b 0x80 == 0) then bit_xor b 0x80 ∷ bs else map complement (b ∷ bs)

-- `#readOrderedFloat`
unfoldable pub read_ordered_float : ℕ → Bytes → Parsed Bytes
read_ordered_float n left =
    map_ok (λ (encoded, left'). (restore_float encoded, left')) (read n left)

abbrev wrap {ℓ} : {A : Type ℓ} → (A → TupleValue) → Parsed A → Parsed TupleValue
wrap f parsed = map_ok (λ (a, left). (f a, left)) parsed

-- The outcome of `textDecoder.decode`.
abbrev pub text_of : Option (List ℕ) → Bytes → Parsed TupleValue
text_of (some units) left = ok (string units, left)
text_of none left = fail invalid_utf8 left

-- `#offset` in place of the number of bytes left.
abbrev pub locate : ℕ → TupleError → TupleError
locate total (unpack_error reason left) = unpack_error reason (total - left)
locate total e = e

module _ (utf8 : Utf8) where
  -- `#readValue`; the first argument is `#readTuple(true)`. The codes of the switch are all
  -- different, so the order of the tests does not matter.
  unfoldable pub read_value : (Bytes → Parsed Tuple) → ℕ → Bytes → Parsed TupleValue
  read_value read_nested type_code left =
      if type_code == 0x00
      then ok (null, left)
      else if type_code == 0x01
      then wrap bytes (read_escaped [] left)
      else if type_code == 0x02
      then read_escaped [] left >>= (λ (encoded, left'). text_of (utf8.decode encoded) left')
      else if type_code == 0x05
      then wrap nested (read_nested left)
      else if type_code == 0x14
      then ok (bigint (pos 0), left)
      else if type_code == 0x20
      then wrap (λ b. float32 (from_be 0 b)) (read_ordered_float 4 left)
      else if type_code == 0x21
      then wrap (λ b. number (from_be 0 b)) (read_ordered_float 8 left)
      else if type_code == 0x26
      then ok (boolean false, left)
      else if type_code == 0x27
      then ok (boolean true, left)
      else if type_code == 0x30
      then wrap uuid (read 16 left)
      else if type_code == 0x33
      then wrap versionstamp (read 12 left)
      else if leb 0x0c type_code && leb type_code 0x1c || type_code == 0x0b || type_code == 0x1d
      then read_integer type_code left
      else fail (unsupported_code type_code) left

  -- The loop of `#readTuple`. Each round reads a byte at least.
  unfoldable pub read_tuple : ℕ → Bool → Tuple → Bytes → Parsed Tuple
  read_tuple zero in_tuple values left = err out_of_fuel
  read_tuple (suc fuel) in_tuple values [] =
      if in_tuple then fail unterminated_nested_tuple [] else ok (values, [])
  read_tuple (suc fuel) in_tuple values (type_code ∷ []) =
      let finished : Parsed Tuple = ok (values, []) in
      let continued = (do
        (value, left') ← read_value (read_tuple fuel true nil) type_code []
        read_tuple fuel in_tuple (push_value values value) left') in
      if in_tuple && type_code == 0x00 then finished else continued
  read_tuple (suc fuel) in_tuple values (type_code ∷ next ∷ left) =
      let escaped_null = read_tuple fuel in_tuple (push_value values null) left in
      let finished : Parsed Tuple = ok (values, next ∷ left) in
      let continued = (do
        (value, left') ← read_value (read_tuple fuel true nil) type_code (next ∷ left)
        read_tuple fuel in_tuple (push_value values value) left') in
      if in_tuple && type_code == 0x00
      then (if next == 0xff then escaped_null else finished)
      else continued

  -- `unpack` with no schema
  unfoldable pub unpack : Bytes → Result TupleError Tuple
  unpack input =
      map_err (locate (length input))
        (map_ok (λ (values, left). values) (read_tuple (suc (length input)) false nil input))
