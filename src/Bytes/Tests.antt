-- ===== src/Bytes/Tests.antt =====
-- Runs of the byte helpers, and the theorems at concrete inputs.
use foundationdb_effect.Prelude.{ℕ, ◌≡◌, ◌≢◌, ◌↔◌, refl, true, none, some, [], ◌∷◌, arith, All}
use foundationdb_effect.Bytes.{compare_bytes, starts_with, last_index, strinc, increment_prefix}
use foundationdb_effect.Bytes.Order.{Compares, compare_bytes-Compares}
use foundationdb_effect.Bytes.Prefix.{
  InRange, starts_with_iff-InRange, increment_prefix-eq-none_iff,
}

strinc_runs :
    (strinc (1 ∷ 2 ∷ 0xff ∷ []) ≡ 1 ∷ 3 ∷ [])
    × (strinc (0xff ∷ 0xff ∷ []) ≡ [])
    × (increment_prefix (0xfe ∷ []) ≡ some (0xff ∷ []))
unfolding strinc last_index increment_prefix
strinc_runs = (refl, refl, refl)

not_empty : strinc (7 ∷ 0xff ∷ []) ≢ []
unfolding strinc last_index
not_empty e = cc

starts_with_iff-InRange_example :
    (starts_with (7 ∷ 0xff ∷ 3 ∷ []) (7 ∷ 0xff ∷ []) ≡ true)
    ↔ InRange (7 ∷ 0xff ∷ []) (strinc (7 ∷ 0xff ∷ [])) (7 ∷ 0xff ∷ 3 ∷ [])
starts_with_iff-InRange_example =
    starts_with_iff-InRange (7 ∷ 0xff ∷ 3 ∷ []) (7 ∷ 0xff ∷ []) (omega arith) (omega arith)
      not_empty

compare_bytes-Compares_example :
    Compares (1 ∷ 2 ∷ []) (1 ∷ 3 ∷ []) (compare_bytes (1 ∷ 2 ∷ []) (1 ∷ 3 ∷ []))
compare_bytes-Compares_example = compare_bytes-Compares (1 ∷ 2 ∷ []) (1 ∷ 3 ∷ [])

increment_prefix-eq-none_iff_example :
    (increment_prefix (0xff ∷ 1 ∷ []) ≡ none) ↔ All (λ (b : ℕ). b ≡ 0xff) (0xff ∷ 1 ∷ [])
increment_prefix-eq-none_iff_example = increment_prefix-eq-none_iff (0xff ∷ 1 ∷ [])
