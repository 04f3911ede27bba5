-- ===== src/Subspace.antt =====
-- src/tuple/Subspace.ts: a key namespace, the prefix with the offsets of its incomplete
-- versionstamps.
pub mod Keys
mod Tests
use foundationdb_effect.Prelude.{
  ℕ, zero, suc, ◌+◌, Bool, true, false, ◌&&◌, List, [], ◌∷◌, ◌++◌, map, ltb, ◌==◌, if◌then◌else◌,
  length, drop, set,
}
use foundationdb_effect.Prelude.Int.{ℤ, pos, negsuc}
use foundationdb_effect.Prelude.Result.{Result, ok, err, map_ok, ◌>>=◌}
use foundationdb_effect.Bytes.{Bytes, concat_bytes, starts_with, compare_bytes}
use foundationdb_effect.Tuple.Values.{Tuple, nil, TupleError, outside_subspace}
use foundationdb_effect.Tuple.Encode.{Utf8, Output, pack_tracked, append_versionstamp_offset}
use foundationdb_effect.Tuple.Encode
use foundationdb_effect.Tuple.Decode

pub record Subspace : Type 0 where
  pub prefix : Bytes
  pub incomplete_versionstamps : List ℕ

-- `Subspace.fromBytes`, and the constructor
abbrev pub from_bytes : Bytes → Subspace
from_bytes bytes = record { prefix = bytes; incomplete_versionstamps = [] }

-- `contains` and `isStartOf`
unfoldable pub contains : Subspace → Bytes → Bool
contains s key = starts_with key s.prefix

-- The offsets of a suffix, moved behind the prefix.
abbrev pub shift_offsets : ℕ → List ℕ → List ℕ
shift_offsets n [] = []
shift_offsets n (offset ∷ offsets) = (n + offset) ∷ shift_offsets n offsets

-- The prefix and a packed suffix behind it, tracked together.
abbrev pub extend : Subspace → Output → Output
extend s suffix = record {
  output = concat_bytes (s.prefix ∷ suffix.output ∷ []);
  incomplete_versionstamps =
      s.incomplete_versionstamps ++ shift_offsets (length s.prefix) suffix.incomplete_versionstamps;
}

module _ (utf8 : Utf8) where
  -- `Subspace.fromTuple`
  unfoldable pub from_tuple : Tuple → Result TupleError Subspace
  from_tuple tuple = do
    packed ← pack_tracked utf8 tuple
    ok (record {
      prefix = packed.output;
      incomplete_versionstamps = packed.incomplete_versionstamps;
    })

  -- `pack`
  unfoldable pub pack : Subspace → Tuple → Result TupleError Bytes
  pack s tuple = map_ok (λ suffix. concat_bytes (s.prefix ∷ suffix ∷ [])) (Encode.pack utf8 tuple)

  -- `packWithVersionstamp`
  unfoldable pub pack_with_versionstamp : Subspace → Tuple → Result TupleError Bytes
  pack_with_versionstamp s tuple = do
    suffix ← pack_tracked utf8 tuple
    append_versionstamp_offset (extend s suffix)

  -- `unpack` with no schema
  unfoldable pub unpack : Subspace → Bytes → Result TupleError Tuple
  unpack s key =
      if contains s key
      then Decode.unpack utf8 (drop (length s.prefix) key)
      else err outside_subspace

  -- `range`
  unfoldable pub range : Subspace → Tuple → Result TupleError (Bytes × Bytes)
  range s tuple =
      map_ok
        (λ prefix.
          (concat_bytes (prefix ∷ (0x00 ∷ []) ∷ []), concat_bytes (prefix ∷ (0xff ∷ []) ∷ [])))
        (pack s tuple)

  -- `subspace`
  unfoldable pub subspace : Subspace → Tuple → Result TupleError Subspace
  subspace s tuple = do
    suffix ← pack_tracked utf8 tuple
    let tracked = extend s suffix
    ok (record {
      prefix = tracked.output;
      incomplete_versionstamps = tracked.incomplete_versionstamps;
    })

-- The test of `every` in `equals`, on lists of the same length.
abbrev pub same_offsets : List ℕ → List ℕ → Bool
same_offsets (x ∷ xs) (y ∷ ys) = let rest = same_offsets xs ys in x == y && rest
same_offsets _ _ = true

-- `=== 0`
abbrev pub is_zero : ℤ → Bool
is_zero (pos zero) = true
is_zero _ = false

-- `equals`
unfoldable pub equals : Subspace → Subspace → Bool
equals s other =
    is_zero (compare_bytes s.prefix other.prefix)
    && (length s.incomplete_versionstamps == length other.incomplete_versionstamps
        && same_offsets s.incomplete_versionstamps other.incomplete_versionstamps)
