-- ===== src/Prelude/Table.antt =====
-- Facts about the bits of a byte, by evaluation at each value.
use foundationdb_effect.Prelude.{
  ℕ, zero, suc, ◌+◌, ◌-◌, ◌<◌, ◌≡◌, refl, Bool, true, not, ◌&&◌, ◌||◌, arith, ◌==◌, leb, ltb,
  if◌then◌else◌, bit_and, bit_xor, ==_iff,
}

holds_below : (ℕ → Bool) → ℕ → Bool
holds_below test zero = true
holds_below test (suc n) = let rest = holds_below test n in test n && rest

holds_at : (test : ℕ → Bool) (n k : ℕ) → holds_below test n ≡ true → k < n → test k ≡ true
unfolding holds_below
holds_at test zero k h l = absurd (omega arith)
holds_at test (suc n) k h l = ground (arith, holds_at test n k)

complement_table : holds_below (λ b. bit_xor b 0xff == 255 - b) 256 ≡ true
unfolding holds_below
complement_table = refl

-- The complement of a byte.
pub complement-eq-sub : (b : ℕ) → b < 256 → bit_xor b 0xff ≡ 255 - b
complement-eq-sub b h = (==_iff _ _).0 (holds_at _ 256 b complement_table h)

sign_table :
    holds_below
      (λ b. (bit_and b 0x80 == 0) && ltb b 128 || not (bit_and b 0x80 == 0) && leb 128 b)
      256
    ≡ true
unfolding holds_below
sign_table = refl

-- The sign bit of a byte.
pub sign_bit : (b : ℕ) → b < 256 → (bit_and b 0x80 == 0) ≡ ltb b 128
sign_bit b h = ground (arith, holds_at _ 256 b sign_table h)

flip_table :
    holds_below (λ b. bit_xor b 0x80 == (if ltb b 128 then b + 128 else b - 128)) 256 ≡ true
unfolding holds_below
flip_table = refl

-- The sign bit flipped.
pub flip-eq : (b : ℕ) → b < 256 → bit_xor b 0x80 ≡ (if ltb b 128 then b + 128 else b - 128)
flip-eq b h = (==_iff _ _).0 (holds_at _ 256 b flip_table h)
