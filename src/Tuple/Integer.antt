-- ===== src/Tuple/Integer.antt =====
-- `appendInteger` and `#readInteger`.
use foundationdb_effect.Prelude.{
  ℕ, zero, suc, ◌+◌, ◌-◌, ◌<◌, ◌≤◌, ◌≡◌, ◌≢◌, refl, sym, ◌∙◌, Bool, true, false, [], ◌∷◌, ◌++◌,
  append_assoc, arith, ltb, if◌then◌else◌, map, length, subst,
}
use native.Mathlib.Decide.{dec_le}
use foundationdb_effect.Prelude.Int.{ℤ, pos, negsuc, neg_ℕ}
use foundationdb_effect.Prelude.Result.{ok, err, ok-injective}
use foundationdb_effect.Bytes.{Bytes, IsBytes}
use foundationdb_effect.Tuple.Values.{bigint, pack_error, integer_too_large}
use foundationdb_effect.Tuple.Encode.{complement, magnitude_bytes, append_magnitude, append_integer}
use foundationdb_effect.Tuple.Decode.{
  read_byte, fold_magnitude, distance, read_integer_length, read_integer,
}
use foundationdb_effect.Tuple.Magnitude.{
  magnitude_bytes-IsBytes, fold-magnitude_bytes, complement_twice, fold_complemented,
  length-map-complement, read-append,
}

abbrev signed : Bool → ℕ → ℤ
signed negative magnitude = if negative then neg_ℕ magnitude else pos magnitude

read_integer_of_length :
    (negative : Bool) (c size : ℕ) (left u rest : Bytes)
    → ltb c 0x14 ≡ negative
    → read_integer_length c left ≡ ok (size, u ++ rest)
    → length u ≡ size
    → read_integer c left ≡ ok (bigint (signed negative (fold_magnitude negative 0 u)), rest)
unfolding read_integer
read_integer_of_length negative c size left u rest s e l = rw (s, e, read-append size u rest l) refl

abbrev pub IsIntegerCode : ℕ → Type 0
IsIntegerCode c = (0x0b ≤ c) × (c ≤ 0x1d) × (c ≢ 0x14)

-- `#readInteger` reads what was written for the number v behind `output`.
pub record WritesInteger (v : ℤ) (output out : Bytes) : Type 0 where
  pub type_code : ℕ
  pub body : Bytes
  pub written : out ≡ output ++ type_code ∷ body
  pub is_code : IsIntegerCode type_code
  pub reads : (left : Bytes) → read_integer type_code (body ++ left) ≡ ok (bigint v, left)

append_magnitude_too_large :
    (output magnitude : Bytes) (negative : Bool)
    → 255 < length magnitude
    → append_magnitude output negative magnitude ≡ err (pack_error integer_too_large)
unfolding append_magnitude
append_magnitude_too_large output magnitude negative h = ground arith

append_magnitude_small :
    (output magnitude : Bytes) (negative : Bool)
    → length magnitude ≤ 8
    → append_magnitude output negative magnitude
      ≡ ok (
          (output ++ (if negative then 0x14 - length magnitude else 0x14 + length magnitude) ∷ [])
          ++ (if negative then map complement magnitude else magnitude))
unfolding append_magnitude
append_magnitude_small output magnitude negative h = ground arith

append_magnitude_large :
    (output magnitude : Bytes) (negative : Bool)
    → 8 < length magnitude
    → length magnitude ≤ 255
    → append_magnitude output negative magnitude
      ≡ ok (
          (output
            ++ (if negative then 0x0b else 0x1d)
              ∷ (if negative then complement (length magnitude) else length magnitude)
              ∷ [])
          ++ (if negative then map complement magnitude else magnitude))
unfolding append_magnitude
append_magnitude_large output magnitude negative h l = ground arith

length_in_code :
    (c : ℕ) (left : Bytes)
    → IsIntegerCode c
    → (c ≢ 0x0b) × (c ≢ 0x1d)
    → read_integer_length c left ≡ ok (distance c 0x14, left)
unfolding read_integer_length
length_in_code c left h n = ground arith

read_length_negative :
    (n : ℕ) (left : Bytes) → n ≤ 255 → read_integer_length 0x0b (complement n ∷ left) ≡ ok (n, left)
unfolding read_integer_length read_byte
read_length_negative n left h = rw (complement_twice n (omega arith)) refl

module _ (output magnitude out : Bytes) (h : IsBytes magnitude) (p : 0 < length magnitude) where
  small_negative :
      length magnitude ≤ 8
      → append_magnitude output true magnitude ≡ ok out
      → WritesInteger (neg_ℕ (fold_magnitude false 0 magnitude)) output out
  small_negative fits e =
      let c = 0x14 - length magnitude in
      let u = map complement magnitude in
      let code : IsIntegerCode c = omega arith in
      record {
        type_code = c;
        body = u;
        written =
            ok-injective (sym e ∙ append_magnitude_small output magnitude true fits)
            ∙ append_assoc output _ _;
        is_code = code;
        reads = λ left.
            read_integer_of_length true c (distance c 0x14) (u ++ left) u left (ground arith)
              (length_in_code c (u ++ left) code (omega arith))
              (rw (length-map-complement magnitude) (ground arith))
            ∙ rw (fold_complemented 0 magnitude h) refl;
      }

  small_positive :
      length magnitude ≤ 8
      → append_magnitude output false magnitude ≡ ok out
      → WritesInteger (pos (fold_magnitude false 0 magnitude)) output out
  small_positive fits e =
      let c = 0x14 + length magnitude in
      let code : IsIntegerCode c = omega arith in
      record {
        type_code = c;
        body = magnitude;
        written =
            ok-injective (sym e ∙ append_magnitude_small output magnitude false fits)
            ∙ append_assoc output _ _;
        is_code = code;
        reads = λ left.
            read_integer_of_length false c (distance c 0x14) (magnitude ++ left) magnitude left
              (ground arith) (length_in_code c (magnitude ++ left) code (omega arith))
              (ground arith);
      }

  large_negative :
      8 < length magnitude
      → length magnitude ≤ 255
      → append_magnitude output true magnitude ≡ ok out
      → WritesInteger (neg_ℕ (fold_magnitude false 0 magnitude)) output out
  large_negative large fits e =
      let u = map complement magnitude in
      record {
        type_code = 0x0b;
        body = complement (length magnitude) ∷ u;
        written =
            ok-injective (sym e ∙ append_magnitude_large output magnitude true large fits)
            ∙ append_assoc output _ _;
        is_code = omega arith;
        reads = λ left.
            read_integer_of_length true 0x0b (length magnitude)
              (complement (length magnitude) ∷ (u ++ left)) u left refl
              (read_length_negative (length magnitude) (u ++ left) fits)
              (length-map-complement magnitude)
            ∙ rw (fold_complemented 0 magnitude h) refl;
      }

  large_positive :
      8 < length magnitude
      → length magnitude ≤ 255
      → append_magnitude output false magnitude ≡ ok out
      → WritesInteger (pos (fold_magnitude false 0 magnitude)) output out
  large_positive large fits e = record {
    type_code = 0x1d;
    body = length magnitude ∷ magnitude;
    written =
        ok-injective (sym e ∙ append_magnitude_large output magnitude false large fits)
        ∙ append_assoc output _ _;
    is_code = omega arith;
    reads = λ left.
        read_integer_of_length false 0x1d (length magnitude)
          (length magnitude ∷ (magnitude ++ left)) magnitude left refl
          (unfold read_integer_length read_byte in refl) refl;
  }

  negative_written :
      append_magnitude output true magnitude ≡ ok out
      → WritesInteger (neg_ℕ (fold_magnitude false 0 magnitude)) output out
  negative_written e = elim (dec_le (length magnitude) 8) [
    | yes small ↦ small_negative small e
    | no large ↦ elim (dec_le (length magnitude) 255) [
      | yes fits ↦ large_negative (omega arith) fits e
      | no over ↦ cc (e, append_magnitude_too_large output magnitude true (omega arith))
    ]
  ]

  positive_written :
      append_magnitude output false magnitude ≡ ok out
      → WritesInteger (pos (fold_magnitude false 0 magnitude)) output out
  positive_written e = elim (dec_le (length magnitude) 8) [
    | yes small ↦ small_positive small e
    | no large ↦ elim (dec_le (length magnitude) 255) [
      | yes fits ↦ large_positive (omega arith) fits e
      | no over ↦ cc (e, append_magnitude_too_large output magnitude false (omega arith))
    ]
  ]

length-pos_of_fold : (n : ℕ) (bs : Bytes) → fold_magnitude false 0 bs ≡ suc n → 0 < length bs
unfolding fold_magnitude
length-pos_of_fold n [] e = absurd (omega arith)
length-pos_of_fold n (b ∷ bs) e = omega arith

-- Whatever `appendInteger` writes behind any output is a type code and a body that `#readInteger`
-- reads as the same number, with any bytes behind it; zero alone has a type code of its own.
pub append_integer-WritesInteger :
    (v : ℤ) (output out : Bytes)
    → v ≢ pos 0
    → append_integer output v ≡ ok out
    → WritesInteger v output out
unfolding append_integer
append_integer-WritesInteger (pos zero) output out nz e = absurd (nz refl)
append_integer-WritesInteger (pos (suc n)) output out nz e =
    subst (λ m. WritesInteger (pos m) output out) (fold-magnitude_bytes (suc n))
      (positive_written output (magnitude_bytes (suc n)) out (magnitude_bytes-IsBytes (suc n))
        (length-pos_of_fold n (magnitude_bytes (suc n)) (fold-magnitude_bytes (suc n))) e)
append_integer-WritesInteger (negsuc n) output out nz e =
    subst (λ m. WritesInteger (neg_ℕ m) output out) (fold-magnitude_bytes (suc n))
      (negative_written output (magnitude_bytes (suc n)) out (magnitude_bytes-IsBytes (suc n))
        (length-pos_of_fold n (magnitude_bytes (suc n)) (fold-magnitude_bytes (suc n))) e)
