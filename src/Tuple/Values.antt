-- ===== src/Tuple/Values.antt =====
-- src/tuple/values.ts: the values of the tuple layer and their errors.
-- A string is the list of its UTF-16 code units, as JavaScript indexes it. A `number` is given by
-- its binary64 pattern and a `Float32` by its binary32 pattern, the `#bits` of the class.
use foundationdb_effect.Prelude.{
  ℕ, zero, suc, ◌+◌, ◌*◌, ◌/◌, ◌%◌, Bool, false, not, ◌||◌, List, [], ◌∷◌, ◌++◌, ltb, ◌==◌,
  if◌then◌else◌, length, take, drop,
}
use foundationdb_effect.Prelude.Int.{ℤ}
use foundationdb_effect.Prelude.Result.{Result, ok, err, ◌>>=◌}
use foundationdb_effect.Bytes.{Bytes}

mutual
  -- `TupleValue`
  pub data TupleValue : Type 0 where
    null : TupleValue
    boolean : Bool → TupleValue
    bytes : Bytes → TupleValue
    string : List ℕ → TupleValue
    bigint : ℤ → TupleValue
    number : ℕ → TupleValue
    float32 : ℕ → TupleValue
    uuid : Bytes → TupleValue
    versionstamp : Bytes → TupleValue
    nested : Tuple → TupleValue

  -- `Tuple`
  pub data Tuple : Type 0 where
    nil : Tuple
    cons : TupleValue → Tuple → Tuple

abbrev pub append_tuple : Tuple → Tuple → Tuple
append_tuple nil ys = ys
append_tuple (cons x xs) ys = cons x (append_tuple xs ys)

-- `values.push(value)`
abbrev pub push_value : Tuple → TupleValue → Tuple
push_value xs x = append_tuple xs (cons x nil)

-- The reasons of a `TupleError` whose operation is "pack".
pub data PackReason : Type 0 where
  unpaired_surrogate : PackReason
  integer_too_large : PackReason
  wrong_length : ℕ → PackReason
  bad_user_version : PackReason
  bad_float32_bits : PackReason
  multiple_incomplete_versionstamps : PackReason
  offset_exceeds_32_bits : PackReason

-- The reasons of a `TupleError` whose operation is "unpack" and which name an offset.
pub data UnpackReason : Type 0 where
  truncated_tuple : UnpackReason
  unterminated_value : UnpackReason
  invalid_utf8 : UnpackReason
  unsupported_code : ℕ → UnpackReason
  unterminated_nested_tuple : UnpackReason

-- `out_of_fuel` is no error of the program: a loop of the model ran out of rounds.
pub data TupleError : Type 0 where
  pack_error : PackReason → TupleError
  unpack_error : UnpackReason → ℕ → TupleError
  outside_subspace : TupleError
  out_of_fuel : TupleError

-- `validatedBytes`
unfoldable pub validated_bytes : Bytes → ℕ → Result TupleError Bytes
validated_bytes value n = if length value == n then ok value else err (pack_error (wrong_length n))

-- `Uuid.fromBytes`
unfoldable pub uuid_from_bytes : Bytes → Result TupleError TupleValue
uuid_from_bytes value = do v ← validated_bytes value 16; ok (uuid v)

-- `Float32.fromBits`, of a number that is an integer and not negative
unfoldable pub float32_from_bits : ℕ → Result TupleError TupleValue
float32_from_bits bits =
    if ltb 0xffff_ffff bits then err (pack_error bad_float32_bits) else ok (float32 bits)

-- `DataView.setUint16`, `setUint32` and `setFloat64` with littleEndian = false: w bytes.
abbrev pub to_be : ℕ → ℕ → Bytes
to_be zero v = []
to_be (suc w) v = to_be w (v / 256) ++ (v % 256) ∷ []

-- The same with littleEndian = true.
abbrev pub to_le : ℕ → ℕ → Bytes
to_le zero v = []
to_le (suc w) v = (v % 256) ∷ to_le w (v / 256)

-- `DataView.getUint16`, `getUint32` and `getFloat64`, big-endian: `acc` is what stands before.
abbrev pub from_be : ℕ → Bytes → ℕ
from_be acc [] = acc
from_be acc (b ∷ bs) = from_be (acc * 256 + b) bs

-- `Versionstamp.complete`, of a user version that is an integer and not negative
unfoldable pub versionstamp_complete : Bytes → ℕ → Result TupleError Bytes
versionstamp_complete transaction_version user_version = do
  transaction ← validated_bytes transaction_version 10
  if ltb 0xffff user_version
      then err (pack_error bad_user_version)
      else ok (transaction ++ to_be 2 user_version)

abbrev pub ten_ff : Bytes
ten_ff = 0xff ∷ 0xff ∷ 0xff ∷ 0xff ∷ 0xff ∷ 0xff ∷ 0xff ∷ 0xff ∷ 0xff ∷ 0xff ∷ []

-- `Versionstamp.incomplete`
unfoldable pub versionstamp_incomplete : ℕ → Result TupleError Bytes
versionstamp_incomplete user_version = versionstamp_complete ten_ff user_version

-- `some((byte) => byte !== 0xff)`
abbrev pub some_not_ff : Bytes → Bool
some_not_ff [] = false
some_not_ff (b ∷ bs) = not (b == 0xff) || some_not_ff bs

-- `Versionstamp.isComplete`
unfoldable pub is_complete : Bytes → Bool
is_complete stamp = some_not_ff (take 10 stamp)

-- `Versionstamp.userVersion`
unfoldable pub user_version_of : Bytes → ℕ
user_version_of stamp = from_be 0 (take 2 (drop 10 stamp))
