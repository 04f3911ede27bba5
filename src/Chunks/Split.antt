-- ===== src/Chunks/Split.antt =====
-- `splitChunkedValue`: the chunks of a value.
use native.Mathlib.Nat.{suc-add}
use foundationdb_effect.Prelude.{
  ℕ, zero, suc, ◌+◌, ◌*◌, ◌≤◌, ◌<◌, ◌⊎◌, ◌≡◌, refl, sym, ap, ◌∙◌, [], ◌∷◌, ◌++◌, arith, length,
  take, drop, length-take, All,
}
use foundationdb_effect.Bytes.{Bytes, concat_bytes}
use foundationdb_effect.Chunks.{chunk_size, chunks_from, chunk_count, split_chunked_value}

take-add : (a b : ℕ) (xs : Bytes) → take (a + b) xs ≡ take a xs ++ take b (drop a xs)
take-add zero b xs = ap (λ n. take n xs) (omega arith)
take-add (suc a) zero [] = rw suc-add refl
take-add (suc a) (suc b) [] = rw suc-add refl
take-add (suc a) b (x ∷ xs) = rw suc-add (ap (λ ys. x ∷ ys) (take-add a b xs))

drop-add : (a b : ℕ) (xs : Bytes) → drop (a + b) xs ≡ drop b (drop a xs)
drop-add zero b xs = ap (λ n. drop n xs) (omega arith)
drop-add (suc a) zero [] = rw suc-add refl
drop-add (suc a) (suc b) [] = rw suc-add refl
drop-add (suc a) b (x ∷ xs) = rw suc-add (drop-add a b xs)

take_all : (n : ℕ) (xs : Bytes) → length xs ≤ n → take n xs ≡ xs
take_all zero [] l = refl
take_all zero (x ∷ xs) l = absurd (omega arith)
take_all (suc n) [] l = refl
take_all (suc n) (x ∷ xs) l = ap (λ ys. x ∷ ys) (take_all n xs (omega arith))

concat_bytes-chunks_from :
    (value : Bytes) (count index : ℕ)
    → concat_bytes (chunks_from value count index)
      ≡ take (count * chunk_size) (drop (index * chunk_size) value)
concat_bytes-chunks_from value zero index = refl
concat_bytes-chunks_from value (suc count) index =
    let rest = drop (index * chunk_size) value in
    let next : (index + 1) * chunk_size ≡ index * chunk_size + chunk_size = omega arith in
    let all : chunk_size + count * chunk_size ≡ suc count * chunk_size = omega arith in
    ap (λ ys. take chunk_size rest ++ ys)
      (concat_bytes-chunks_from value count (index + 1)
        ∙ ap (λ n. take (count * chunk_size) (drop n value)) next
        ∙ ap (take (count * chunk_size)) (drop-add (index * chunk_size) chunk_size value))
    ∙ sym (take-add chunk_size (count * chunk_size) rest)
    ∙ ap (λ n. take n rest) all

-- The chunks of a value, one after the other, are the value.
pub concat_bytes-split_chunked_value :
    (value : Bytes) → concat_bytes (split_chunked_value value) ≡ value
unfolding split_chunked_value
concat_bytes-split_chunked_value value =
    concat_bytes-chunks_from value (chunk_count value) 0
    ∙ take_all (chunk_count value * chunk_size) value (omega arith)

chunks_from-bounded :
    (value : Bytes) (count index : ℕ)
    → All (λ chunk. length chunk ≤ 8192) (chunks_from value count index)
chunks_from-bounded value zero index = tt
chunks_from-bounded value (suc count) index = (
  omega (arith, length-take chunk_size (drop (index * chunk_size) value)),
  chunks_from-bounded value count (index + 1),
)

length-chunks_from :
    (value : Bytes) (count index : ℕ) → length (chunks_from value count index) ≡ count
length-chunks_from value zero index = refl
length-chunks_from value (suc count) index =
    omega (arith, length-chunks_from value count (index + 1))

-- A value has at least one chunk, each has at most 8192 bytes, and there are no more than needed: one,
-- or fewer than the bytes fill and one more.
pub split_chunked_value_bounds :
    (value : Bytes)
    → All (λ chunk. length chunk ≤ 8192) (split_chunked_value value)
      × (1 ≤ length (split_chunked_value value))
      × ((length (split_chunked_value value) ≡ 1)
          ⊎ (length (split_chunked_value value) * 8192 < length value + 8192))
unfolding split_chunked_value
split_chunked_value_bounds value =
    let count = length-chunks_from value (chunk_count value) 0 in
    (chunks_from-bounded value (chunk_count value) 0, omega (arith, count), ground (arith, count))
