-- ===== src/Chunks/Tests.antt =====
-- A short value over rows that held a longer one.
use foundationdb_effect.Prelude.{◌≡◌, ◌≤◌, ◌<◌, ◌+◌, ◌*◌, ◌⊎◌, true, some, [], ◌∷◌, length, All}
use foundationdb_effect.Bytes.{Bytes}
use foundationdb_effect.Chunks.{
  ChunkRows, split_chunked_value, read_chunked_value, write_chunked_value, has_chunked_value,
}
use foundationdb_effect.Chunks.Split.{split_chunked_value_bounds}
use foundationdb_effect.Chunks.Laws.{read-write_chunked_value}

abbrev three_bytes : Bytes
three_bytes = 1 ∷ 2 ∷ 3 ∷ []

abbrev two_rows : ChunkRows
two_rows = (0, 9 ∷ []) ∷ (1, 9 ∷ []) ∷ []

read-write_chunked_value_example :
    (read_chunked_value (write_chunked_value three_bytes two_rows) ≡ some three_bytes)
    × (has_chunked_value (write_chunked_value three_bytes two_rows) ≡ true)
read-write_chunked_value_example = read-write_chunked_value three_bytes two_rows

split_chunked_value_bounds_example :
    All (λ chunk. length chunk ≤ 8192) (split_chunked_value three_bytes)
    × (1 ≤ length (split_chunked_value three_bytes))
    × ((length (split_chunked_value three_bytes) ≡ 1)
        ⊎ (length (split_chunked_value three_bytes) * 8192 < length three_bytes + 8192))
split_chunked_value_bounds_example = split_chunked_value_bounds three_bytes
