-- ===== src/Tuple/Magnitude.antt =====
-- Magnitudes as bytes: `magnitudeBytes`, its complement and how `#readInteger` folds them.
use foundationdb_effect.Prelude.{
  ℕ, zero, suc, ◌+◌, ◌-◌, ◌*◌, ◌/◌, ◌<◌, ◌≤◌, ◌≡◌, refl, ap, ◌∙◌, true, false, [], ◌∷◌, ◌++◌, arith,
  ◌==◌, Bool-cases, inl, inr, reverse, map, length, All-append, length-append, take-length_append,
  drop-length_append,
}
use mathlib.Core.List.{reverse-cons}
use foundationdb_effect.Prelude.Result.{ok}
use foundationdb_effect.Prelude.Table.{complement-eq-sub}
use foundationdb_effect.Bytes.{Bytes, IsBytes}
use foundationdb_effect.Tuple.Encode.{complement, magnitude_loop, magnitude_bytes}
use foundationdb_effect.Tuple.Decode.{read, fold_magnitude}

abbrev low_first : Bytes → ℕ
low_first [] = 0
low_first (b ∷ bs) = b + 256 * low_first bs

low_first-magnitude_loop : (fuel n : ℕ) → n ≤ fuel → low_first (magnitude_loop fuel n) ≡ n
unfolding magnitude_loop
low_first-magnitude_loop zero n h = omega arith
low_first-magnitude_loop (suc fuel) n h = elim (Bool-cases (n == 0)) [
  | inl z ↦ rw z (ground arith)
  | inr p ↦ rw p (ground (arith, low_first-magnitude_loop fuel (n / 256)))
]

magnitude_loop-IsBytes : (fuel n : ℕ) → IsBytes (magnitude_loop fuel n)
unfolding magnitude_loop
magnitude_loop-IsBytes zero n = tt
magnitude_loop-IsBytes (suc fuel) n = elim (Bool-cases (n == 0)) [
  | inl z ↦ rw z tt
  | inr p ↦ rw p (omega arith, magnitude_loop-IsBytes fuel (n / 256))
]

reverse-IsBytes : (bs : Bytes) → IsBytes bs → IsBytes (reverse bs)
reverse-IsBytes [] h = tt
reverse-IsBytes (b ∷ bs) h =
    rw reverse-cons
      (All-append (λ x. x < 256) (reverse bs) (b ∷ []) (reverse-IsBytes bs h.1) (h.0, tt))

fold_magnitude-snoc :
    (m : ℕ) (bs : Bytes) (b : ℕ)
    → fold_magnitude false m (bs ++ b ∷ []) ≡ fold_magnitude false m bs * 256 + b
unfolding fold_magnitude
fold_magnitude-snoc m [] b = refl
fold_magnitude-snoc m (c ∷ bs) b = fold_magnitude-snoc (m * 256 + c) bs b

fold_magnitude-reverse : (bs : Bytes) → fold_magnitude false 0 (reverse bs) ≡ low_first bs
fold_magnitude-reverse [] = unfold fold_magnitude in refl
fold_magnitude-reverse (b ∷ bs) =
    rw (reverse-cons, fold_magnitude-snoc 0 (reverse bs) b, fold_magnitude-reverse bs) (omega arith)

pub magnitude_bytes-IsBytes : (n : ℕ) → IsBytes (magnitude_bytes n)
unfolding magnitude_bytes
magnitude_bytes-IsBytes n = reverse-IsBytes (magnitude_loop n n) (magnitude_loop-IsBytes n n)

-- The magnitude is read back from its bytes.
pub fold-magnitude_bytes : (n : ℕ) → fold_magnitude false 0 (magnitude_bytes n) ≡ n
unfolding magnitude_bytes
fold-magnitude_bytes n =
    fold_magnitude-reverse (magnitude_loop n n) ∙ low_first-magnitude_loop n n (omega arith)

pub complement_twice : (b : ℕ) → b < 256 → complement (complement b) ≡ b
complement_twice b h =
    rw (complement-eq-sub b h, complement-eq-sub (255 - b) (omega arith)) (omega arith)

-- So it is from the complemented bytes of a negative number.
pub fold_complemented :
    (m : ℕ) (bs : Bytes)
    → IsBytes bs
    → fold_magnitude true m (map complement bs) ≡ fold_magnitude false m bs
unfolding fold_magnitude
fold_complemented m [] h = refl
fold_complemented m (b ∷ bs) h =
    ap (λ t. fold_magnitude true (m * 256 + t) (map complement bs)) (complement_twice b h.0)
    ∙ fold_complemented (m * 256 + b) bs h.1

pub length-map-complement : (bs : Bytes) → length (map complement bs) ≡ length bs
length-map-complement [] = refl
length-map-complement (b ∷ bs) = ap suc (length-map-complement bs)

pub read-append : (n : ℕ) (u left : Bytes) → length u ≡ n → read n (u ++ left) ≡ ok (u, left)
unfolding read
read-append n u left e =
    rw (← e, take-length_append u left, drop-length_append u left)
      (ground (arith, length-append u left))

-- A signed number from its sign and its magnitude.
