-- ===== src/Chunks.antt =====
-- src/internal/chunked-value.ts: a value over several rows, under the keys `[...path, index]`.
pub mod Split
pub mod Laws
mod Tests
use foundationdb_effect.Prelude.{
  ℕ, zero, suc, ◌+◌, ◌*◌, ◌/◌, max, Bool, true, false, Option, none, some, List, [], ◌∷◌, ltb, ◌==◌,
  if◌then◌else◌, length, take, drop,
}
use foundationdb_effect.Bytes.{Bytes, concat_bytes}

abbrev pub chunk_size : ℕ
chunk_size = 8192

-- So many chunks of a value, from an index on: `value.subarray(offset, offset + chunkSize)`.
abbrev pub chunks_from : Bytes → ℕ → ℕ → List Bytes
chunks_from value zero index = []
chunks_from value (suc count) index =
    take chunk_size (drop (index * chunk_size) value) ∷ chunks_from value count (index + 1)

-- `Math.max(1, Math.ceil(value.byteLength / chunkSize))`
abbrev pub chunk_count : Bytes → ℕ
chunk_count value = max 1 ((length value + 8191) / chunk_size)

-- `splitChunkedValue`
unfoldable pub split_chunked_value : Bytes → List Bytes
split_chunked_value value = chunks_from value (chunk_count value) 0

-- The rows under one path, in the order of a range read: by their index.
abbrev pub ChunkRows : Type 0
ChunkRows = List (ℕ × Bytes)

-- `transaction.set` at the key of an index.
abbrev pub set_chunk : ℕ → Bytes → ChunkRows → ChunkRows
set_chunk index chunk [] = (index, chunk) ∷ []
set_chunk index chunk ((i, old) ∷ rest) =
    let rest' = set_chunk index chunk rest in
    if ltb index i
    then (index, chunk) ∷ (i, old) ∷ rest
    else if index == i
    then (index, chunk) ∷ rest
    else (i, old) ∷ rest'

-- The loop of `writeChunkedValue`, from an index on.
abbrev pub write_chunks : List Bytes → ℕ → ChunkRows → ChunkRows
write_chunks [] index rows = rows
write_chunks (chunk ∷ chunks) index rows =
    write_chunks chunks (index + 1) (set_chunk index chunk rows)

-- `clearChunkedValue`
abbrev pub clear_chunked_value : ChunkRows → ChunkRows
clear_chunked_value rows = []

-- `writeChunkedValue`
unfoldable pub write_chunked_value : Bytes → ChunkRows → ChunkRows
write_chunked_value value rows =
    write_chunks (split_chunked_value value) 0 (clear_chunked_value rows)

-- The values of the rows.
abbrev pub row_values : ChunkRows → List Bytes
row_values [] = []
row_values ((_, chunk) ∷ rest) = chunk ∷ row_values rest

-- `readChunkedValue`
unfoldable pub read_chunked_value : ChunkRows → Option Bytes
read_chunked_value [] = none
read_chunked_value (row ∷ rows) = some (concat_bytes (row_values (row ∷ rows)))

-- `hasChunkedValue`
unfoldable pub has_chunked_value : ChunkRows → Bool
has_chunked_value [] = false
has_chunked_value (_ ∷ _) = true
