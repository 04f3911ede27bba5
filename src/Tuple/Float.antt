-- ===== src/Tuple/Float.antt =====
-- `DataView`'s big-endian numbers, `appendOrderedFloat` and `#readOrderedFloat`.
use foundationdb_effect.Prelude.{
  ℕ, zero, suc, ◌+◌, ◌-◌, ◌*◌, ◌/◌, ◌%◌, ◌<◌, ◌≡◌, refl, sym, ◌∙◌, Bool, true, false, [], ◌∷◌, ◌++◌,
  arith, ◌==◌, ltb, Bool-cases, inl, inr, map, length, length-append, All-append, bit_and, bit_xor,
}
use foundationdb_effect.Prelude.Result.{ok}
use foundationdb_effect.Prelude.Table.{complement-eq-sub, sign_bit, flip-eq}
use foundationdb_effect.Bytes.{Bytes, IsBytes}
use foundationdb_effect.Tuple.Values.{to_be, from_be}
use foundationdb_effect.Tuple.Encode.{complement, order_float}
use foundationdb_effect.Tuple.Decode.{restore_float, read_ordered_float}
use foundationdb_effect.Tuple.Magnitude.{complement_twice, length-map-complement, read-append}

-- A number of at most w bytes.
abbrev pub Fits : ℕ → ℕ → Type 0
Fits zero v = v ≡ 0
Fits (suc w) v = Fits w (v / 256)

from_be-snoc :
    (acc : ℕ) (bs : Bytes) (b : ℕ) → from_be acc (bs ++ b ∷ []) ≡ from_be acc bs * 256 + b
from_be-snoc acc [] b = refl
from_be-snoc acc (c ∷ bs) b = from_be-snoc (acc * 256 + c) bs b

pub from_be-to_be : (w v : ℕ) → Fits w v → from_be 0 (to_be w v) ≡ v
from_be-to_be zero v h = sym h
from_be-to_be (suc w) v h =
    rw (from_be-snoc 0 (to_be w (v / 256)) (v % 256), from_be-to_be w (v / 256) h) (omega arith)

pub length-to_be : (w v : ℕ) → length (to_be w v) ≡ w
length-to_be zero v = refl
length-to_be (suc w) v =
    omega (arith, length-append {0} (to_be w (v / 256)) ((v % 256) ∷ []), length-to_be w (v / 256))

pub to_be-IsBytes : (w v : ℕ) → IsBytes (to_be w v)
to_be-IsBytes zero v = tt
to_be-IsBytes (suc w) v =
    All-append (λ b. b < 256) (to_be w (v / 256)) ((v % 256) ∷ []) (to_be-IsBytes w (v / 256))
      (omega arith, tt)

map-complement_twice : (bs : Bytes) → IsBytes bs → map complement (map complement bs) ≡ bs
map-complement_twice [] h = refl
map-complement_twice (b ∷ bs) h = λ i. complement_twice b h.0 i ∷ map-complement_twice bs h.1 i

abbrev top_set : ℕ → Bool
top_set b = bit_and b 0x80 == 0

flipped_set : (b : ℕ) → b < 256 → ltb b 128 ≡ true → top_set (bit_xor b 0x80) ≡ false
flipped_set b h l = rw (flip-eq b h, l, sign_bit (b + 128) (ground arith)) (ground arith)

complement_clear : (b : ℕ) → b < 256 → ltb b 128 ≡ false → top_set (complement b) ≡ true
complement_clear b h l = rw (complement-eq-sub b h, sign_bit (255 - b) (omega arith)) (ground arith)

flip_twice : (b : ℕ) → b < 256 → ltb b 128 ≡ true → bit_xor (bit_xor b 0x80) 0x80 ≡ b
flip_twice b h l = rw (flip-eq b h, l, flip-eq (b + 128) (ground arith)) (ground arith)

order_float_clear :
    (b : ℕ) (bs : Bytes) → top_set b ≡ true → order_float (b ∷ bs) ≡ bit_xor b 0x80 ∷ bs
unfolding order_float
order_float_clear b bs h = rw h

order_float_set :
    (b : ℕ) (bs : Bytes) → top_set b ≡ false → order_float (b ∷ bs) ≡ map complement (b ∷ bs)
unfolding order_float
order_float_set b bs h = rw h

restore_float_clear :
    (b : ℕ) (bs : Bytes) → top_set b ≡ true → restore_float (b ∷ bs) ≡ map complement (b ∷ bs)
unfolding restore_float
restore_float_clear b bs h = rw h

restore_float_set :
    (b : ℕ) (bs : Bytes) → top_set b ≡ false → restore_float (b ∷ bs) ≡ bit_xor b 0x80 ∷ bs
unfolding restore_float
restore_float_set b bs h = rw h

-- The changes that `#readOrderedFloat` makes undo those of `appendOrderedFloat`.
pub restore-order_float : (bs : Bytes) → IsBytes bs → restore_float (order_float bs) ≡ bs
restore-order_float [] h = unfold restore_float order_float in refl
restore-order_float (b ∷ bs) h = elim (Bool-cases (ltb b 128)) [
  | inl low ↦
      rw
        (
          order_float_clear b bs (sign_bit b h.0 ∙ low),
          restore_float_set (bit_xor b 0x80) bs (flipped_set b h.0 low),
          flip_twice b h.0 low,
        )
        refl
  | inr high ↦
      rw
        (
          order_float_set b bs (sign_bit b h.0 ∙ high),
          restore_float_clear (complement b) (map complement bs) (complement_clear b h.0 high),
        )
        (map-complement_twice (b ∷ bs) h)
]

pub length-order_float : (bs : Bytes) → length (order_float bs) ≡ length bs
unfolding order_float
length-order_float [] = refl
length-order_float (b ∷ bs) = ground (arith, length-map-complement bs)

-- A float of w bytes is read back from the bytes that were written for its pattern.
pub read-order_float :
    (w v : ℕ) (left : Bytes)
    → read_ordered_float w (order_float (to_be w v) ++ left) ≡ ok (to_be w v, left)
unfolding read_ordered_float
read-order_float w v left =
    rw
      (
        read-append w (order_float (to_be w v)) left
            (length-order_float (to_be w v) ∙ length-to_be w v),
        restore-order_float (to_be w v) (to_be-IsBytes w v),
      )
      refl
