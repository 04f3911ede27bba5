-- ===== src/Chunks/Laws.antt =====
-- `readChunkedValue` behind `writeChunkedValue`.
use foundationdb_effect.Prelude.{
  ℕ, ◌+◌, ◌≤◌, ◌<◌, ◌≡◌, refl, sym, ap, ◌∙◌, true, some, List, [], ◌∷◌, ◌++◌, arith, length, All,
  All-append, append-nil, append_assoc,
}
use foundationdb_effect.Bytes.{Bytes, concat_bytes}
use foundationdb_effect.Chunks.{
  ChunkRows, set_chunk, write_chunks, write_chunked_value, row_values, read_chunked_value,
  has_chunked_value, split_chunked_value,
}
use foundationdb_effect.Chunks.Split.{concat_bytes-split_chunked_value, split_chunked_value_bounds}

abbrev Before : ℕ → ChunkRows → Type 0
Before index rows = All (λ row. row.0 < index) rows

set_chunk_last :
    (index : ℕ) (chunk : Bytes) (rows : ChunkRows)
    → Before index rows
    → set_chunk index chunk rows ≡ rows ++ (index, chunk) ∷ []
set_chunk_last index chunk [] _ = refl
set_chunk_last index chunk ((i, old) ∷ rest) (here, there) =
    ground (arith, set_chunk_last index chunk rest there)

row_values-append :
    (rows : ChunkRows) (index : ℕ) (chunk : Bytes)
    → row_values (rows ++ (index, chunk) ∷ []) ≡ row_values rows ++ chunk ∷ []
row_values-append [] index chunk = refl
row_values-append ((i, old) ∷ rest) index chunk =
    ap (λ ys. old ∷ ys) (row_values-append rest index chunk)

Before-suc : (index : ℕ) (rows : ChunkRows) → Before index rows → Before (index + 1) rows
Before-suc index [] _ = tt
Before-suc index (row ∷ rows) (here, there) = (omega arith, Before-suc index rows there)

row_values-write_chunks :
    (chunks : List Bytes) (index : ℕ) (rows : ChunkRows)
    → Before index rows
    → row_values (write_chunks chunks index rows) ≡ row_values rows ++ chunks
row_values-write_chunks [] index rows b = sym (append-nil _)
row_values-write_chunks (chunk ∷ chunks) index rows b = rw (set_chunk_last index chunk rows b) (
    row_values-write_chunks chunks (index + 1) (rows ++ (index, chunk) ∷ [])
      (All-append _ rows ((index, chunk) ∷ []) (Before-suc index rows b) (omega arith, tt))
    ∙ ap (λ ys. ys ++ chunks) (row_values-append rows index chunk)
    ∙ append_assoc (row_values rows) (chunk ∷ []) chunks)

pub row_values-write_chunked_value :
    (value : Bytes) (rows : ChunkRows)
    → row_values (write_chunked_value value rows) ≡ split_chunked_value value
unfolding write_chunked_value
row_values-write_chunked_value value rows =
    row_values-write_chunks (split_chunked_value value) 0 [] tt

read_of_values :
    (rows : ChunkRows)
    → 1 ≤ length (row_values rows)
    → (read_chunked_value rows ≡ some (concat_bytes (row_values rows)))
      × (has_chunked_value rows ≡ true)
unfolding read_chunked_value has_chunked_value
read_of_values [] l = absurd (omega arith)
read_of_values (row ∷ rows) l = (refl, refl)

-- `readChunkedValue` after `writeChunkedValue` returns the value, whatever rows were there, and
-- `hasChunkedValue` finds it.
pub read-write_chunked_value :
    (value : Bytes) (rows : ChunkRows)
    → (read_chunked_value (write_chunked_value value rows) ≡ some value)
      × (has_chunked_value (write_chunked_value value rows) ≡ true)
read-write_chunked_value value rows =
    let e = row_values-write_chunked_value value rows in
    let (_, some_chunk, _) = split_chunked_value_bounds value in
    let (read, has) =
      read_of_values (write_chunked_value value rows) (omega (arith, ap length e, some_chunk)) in
    (
      read
          ∙ ap (λ chunks. some (concat_bytes chunks)) e
          ∙ ap (λ v. some v) (concat_bytes-split_chunked_value value),
      has,
    )
