-- ===== src/Tuple/Steps.antt =====
-- What the parser does with the bytes that were written for one value.
use foundationdb_effect.Prelude.{
  ℕ, suc, ◌<◌, ◌≡◌, refl, Bool, true, false, ◌&&◌, List, [], ◌∷◌, ◌++◌, arith, ◌==◌, if◌then◌else◌,
  length, All,
}
use foundationdb_effect.Prelude.Result.{ok}
use foundationdb_effect.Bytes.{Bytes}
use foundationdb_effect.Tuple.Values.{
  TupleValue, Tuple, null, boolean, bytes, string, number, float32, uuid, versionstamp, nil,
  push_value, to_be,
}
use foundationdb_effect.Tuple.Encode.{Utf8, is_well_formed, order_float}
use foundationdb_effect.Tuple.Decode.{Parsed, text_of, read_integer, read_value, read_tuple}
use foundationdb_effect.Tuple.Escaped.{escaped, NoEscape, read_escaped-escaped_from}
use foundationdb_effect.Tuple.Magnitude.{read-append}
use foundationdb_effect.Tuple.Integer.{IsIntegerCode}
use foundationdb_effect.Tuple.Float.{Fits, from_be-to_be, read-order_float}
use foundationdb_effect.Tuple.Valid.{IsUtf8}

module _ (utf8 : Utf8) where
  -- One round of the loop of `#readTuple` that does not end the tuple.
  pub read_tuple_step :
      (in_tuple : Bool) (type_code : ℕ) (left rest : Bytes) (value : TupleValue) (fuel : ℕ)
      (values : Tuple)
      → (in_tuple && type_code == 0x00) ≡ false
      → read_value utf8 (read_tuple utf8 fuel true nil) type_code left ≡ ok (value, rest)
      → read_tuple utf8 (suc fuel) in_tuple values (type_code ∷ left)
        ≡ read_tuple utf8 fuel in_tuple (push_value values value) rest
  unfolding read_tuple
  read_tuple_step in_tuple type_code [] rest value fuel values h e = rw (h, e) refl
  read_tuple_step in_tuple type_code (b ∷ left) rest value fuel values h e = rw (h, e) refl

  -- A null in a nested tuple is escaped.
  pub read_tuple_null :
      (left : Bytes) (fuel : ℕ) (values : Tuple)
      → read_tuple utf8 (suc fuel) true values (0x00 ∷ 0xff ∷ left)
        ≡ read_tuple utf8 fuel true (push_value values null) left
  unfolding read_tuple
  read_tuple_null left fuel values = refl

  -- The end of a nested tuple.
  pub read_tuple_end :
      (left : Bytes) (fuel : ℕ) (values : Tuple)
      → NoEscape left
      → read_tuple utf8 (suc fuel) true values (0x00 ∷ left) ≡ ok (values, left)
  unfolding read_tuple
  read_tuple_end [] fuel values h = refl
  read_tuple_end (b ∷ left) fuel values h = ground arith

  module _ (r : Bytes → Parsed Tuple) (left : Bytes) where
    pub read_bytes :
        (value : Bytes)
        → NoEscape left
        → read_value utf8 r 0x01 (escaped value ++ left) ≡ ok (bytes value, left)
    unfolding read_value
    read_bytes value h = rw (read_escaped-escaped_from [] value left h) refl

    pub read_string :
        (units : List ℕ)
        → IsUtf8 utf8
        → All (λ u. u < 65536) units
        → is_well_formed units ≡ true
        → NoEscape left
        → read_value utf8 r 0x02 (escaped (utf8.encode units) ++ left) ≡ ok (string units, left)
    unfolding read_value
    read_string units u fits well h =
        rw
          (
            read_escaped-escaped_from [] (utf8.encode units) left h,
            u.decode-encode units fits well,
            text_of,
          )
          refl

    pub read_float32 :
        (bits : ℕ)
        → Fits 4 bits
        → read_value utf8 r 0x20 (order_float (to_be 4 bits) ++ left) ≡ ok (float32 bits, left)
    unfolding read_value
    read_float32 bits h = rw (read-order_float 4 bits left, from_be-to_be 4 bits h) refl

    pub read_number :
        (bits : ℕ)
        → Fits 8 bits
        → read_value utf8 r 0x21 (order_float (to_be 8 bits) ++ left) ≡ ok (number bits, left)
    unfolding read_value
    read_number bits h = rw (read-order_float 8 bits left, from_be-to_be 8 bits h) refl

    pub read_boolean :
        (b : Bool) → read_value utf8 r (if b then 0x27 else 0x26) left ≡ ok (boolean b, left)
    unfolding read_value
    read_boolean true = refl
    read_boolean false = refl

    pub read_uuid :
        (value : Bytes)
        → length value ≡ 16
        → read_value utf8 r 0x30 (value ++ left) ≡ ok (uuid value, left)
    unfolding read_value
    read_uuid value h = rw (read-append 16 value left h) refl

    pub read_versionstamp :
        (value : Bytes)
        → length value ≡ 12
        → read_value utf8 r 0x33 (value ++ left) ≡ ok (versionstamp value, left)
    unfolding read_value
    read_versionstamp value h = rw (read-append 12 value left h) refl

  pub read_value_integer :
      (r : Bytes → Parsed Tuple) (left : Bytes) (c : ℕ)
      → IsIntegerCode c
      → read_value utf8 r c left ≡ read_integer c left
  unfolding read_value
  read_value_integer r left c h = ground arith
