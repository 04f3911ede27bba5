-- ===== src/Tuple/Valid.antt =====
-- The tuples that the types and classes of src/tuple/values.ts admit, and what the codec relies on
-- in the platform's UTF-8.
use foundationdb_effect.Prelude.{ℕ, ◌<◌, ◌≡◌, true, List, some, length, All}
use foundationdb_effect.Tuple.Values.{
  TupleValue, Tuple, string, number, float32, uuid, versionstamp, nested, nil, cons,
}
use foundationdb_effect.Tuple.Encode.{Utf8, is_well_formed}
use foundationdb_effect.Tuple.Float.{Fits}

-- A well-formed string is read back from its encoding.
pub record IsUtf8 (utf8 : Utf8) : Type 0 where
  pub decode-encode :
      (units : List ℕ)
      → All (λ u. u < 65536) units
      → is_well_formed units ≡ true
      → utf8.decode (utf8.encode units) ≡ some units

abbrev mutual
  pub IsValid : TupleValue → Type 0
  IsValid (string units) = All (λ u. u < 65536) units
  IsValid (number bits) = Fits 8 bits
  IsValid (float32 bits) = Fits 4 bits
  IsValid (uuid value) = length value ≡ 16
  IsValid (versionstamp value) = length value ≡ 12
  IsValid (nested children) = IsValidTuple children
  IsValid _ = Unit

  pub IsValidTuple : Tuple → Type 0
  IsValidTuple nil = Unit
  IsValidTuple (cons value values) = IsValid value × IsValidTuple values
