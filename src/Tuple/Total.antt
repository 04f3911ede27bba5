-- ===== src/Tuple/Total.antt =====
-- The parser ends on every input: the fuel that `unpack` gives is enough.
use foundationdb_effect.Prelude.{
  ℕ, zero, suc, ◌<◌, ◌≤◌, ◌≢◌, Bool, true, false, ◌&&◌, ◌||◌, List, [], ◌∷◌, ◌++◌, Option, none,
  some, arith, ◌==◌, leb, ltb, if◌then◌else◌, Bool-cases, inl, inr, length, length-drop,
}
use foundationdb_effect.Prelude.Result.{ok, err, ◌>>=◌, map_ok, map_err}
use foundationdb_effect.Bytes.{Bytes}
use foundationdb_effect.Tuple.Values.{
  TupleValue, Tuple, null, nil, push_value, pack_error, unpack_error, outside_subspace, out_of_fuel,
}
use foundationdb_effect.Tuple.Encode.{Utf8}
use foundationdb_effect.Tuple.Decode.{
  Parsed, read_byte, read_escaped, read, read_integer_length, read_integer, read_ordered_float,
  text_of, read_value, read_tuple, locate, unpack,
}

-- A result of the parser on n bytes: it leaves no more than these, or fails as the program does.
abbrev pub Ends {ℓ} : {A : Type ℓ} → ℕ → Parsed A → Type 0
Ends n (ok result) = length result.1 ≤ n
Ends n (err out_of_fuel) = ⊥
Ends n (err (pack_error _)) = Unit
Ends n (err (unpack_error _ _)) = Unit
Ends n (err outside_subspace) = Unit

module _ {ℓ} {A : Type ℓ} where
  Ends-weaken : (n m : ℕ) (p : Parsed A) → n ≤ m → Ends n p → Ends m p
  Ends-weaken n m (ok result) h e = omega arith
  Ends-weaken n m (err out_of_fuel) h e = e
  Ends-weaken n m (err (pack_error r)) h e = tt
  Ends-weaken n m (err (unpack_error r k)) h e = tt
  Ends-weaken n m (err outside_subspace) h e = tt

  Ends-bind {κ} :
      {B : Type κ} (n : ℕ) (p : Parsed A) (f : A × Bytes → Parsed B)
      → Ends n p
      → ((result : A × Bytes) → length result.1 ≤ n → Ends n (f result))
      → Ends n (p >>= f)
  Ends-bind n (ok result) f e k = k result e
  Ends-bind n (err out_of_fuel) f e k = e
  Ends-bind n (err (pack_error r)) f e k = tt
  Ends-bind n (err (unpack_error r i)) f e k = tt
  Ends-bind n (err outside_subspace) f e k = tt

  Ends-map {κ} :
      {B : Type κ} (n : ℕ) (p : Parsed A) (f : A → B)
      → Ends n p
      → Ends n (map_ok (λ (a, left). (f a, left)) p)
  Ends-map n (ok result) f e = e
  Ends-map n (err out_of_fuel) f e = e
  Ends-map n (err (pack_error r)) f e = tt
  Ends-map n (err (unpack_error r i)) f e = tt
  Ends-map n (err outside_subspace) f e = tt

  Ends-if : (n : ℕ) (b : Bool) (p q : Parsed A) → Ends n p → Ends n q → Ends n (if b then p else q)
  Ends-if n true p q h k = h
  Ends-if n false p q h k = k

Ends-read_byte : (left : Bytes) → Ends (length left) (read_byte left)
unfolding read_byte
Ends-read_byte [] = tt
Ends-read_byte (b ∷ left) = omega arith

Ends-read : (n : ℕ) (left : Bytes) → Ends (length left) (read n left)
unfolding read
Ends-read n left =
    Ends-if (length left) (ltb (length left) n) _ _ tt (omega (arith, length-drop {0} n left))

Ends-read_escaped : (value left : Bytes) → Ends (length left) (read_escaped value left)
unfolding read_escaped
Ends-read_escaped value [] = tt
Ends-read_escaped value (b ∷ []) = elim (Bool-cases (b == 0x00)) [
  | inl z ↦ rw z (omega arith)
  | inr n ↦ rw n tt
]
Ends-read_escaped value (b ∷ c ∷ left) = elim (Bool-cases (b == 0x00)) [
  | inl z ↦ rw z (
      Ends-if (suc (suc (length left))) (c == 0xff) _ _
        (Ends-weaken (length left) (suc (suc (length left))) _ (omega arith)
          (Ends-read_escaped (value ++ 0x00 ∷ []) left))
        (omega arith))
  | inr n ↦ rw n (
      Ends-weaken (suc (length left)) (suc (suc (length left))) _ (omega arith)
        (Ends-read_escaped (value ++ b ∷ []) (c ∷ left)))
]

Ends-read_integer_length : (c : ℕ) (left : Bytes) → Ends (length left) (read_integer_length c left)
unfolding read_integer_length
Ends-read_integer_length c left =
    Ends-if (length left) (c == 0x0b) _ _
      (Ends-map (length left) (read_byte left) _ (Ends-read_byte left))
      (Ends-if (length left) (c == 0x1d) _ _ (Ends-read_byte left) (omega arith))

Ends-read_integer : (c : ℕ) (left : Bytes) → Ends (length left) (read_integer c left)
unfolding read_integer
Ends-read_integer c left =
    Ends-bind (length left) (read_integer_length c left) _ (Ends-read_integer_length c left)
      λ (size, left₁) h₁.
        Ends-bind (length left) (read size left₁) _
          (Ends-weaken (length left₁) (length left) _ h₁ (Ends-read size left₁))
          λ (encoded, left₂) h₂. h₂

Ends-read_ordered_float : (n : ℕ) (left : Bytes) → Ends (length left) (read_ordered_float n left)
unfolding read_ordered_float
Ends-read_ordered_float n left = Ends-map (length left) (read n left) _ (Ends-read n left)

Ends-text_of :
    (n : ℕ) (o : Option (List ℕ)) (left : Bytes) → length left ≤ n → Ends n (text_of o left)
Ends-text_of n none left h = tt
Ends-text_of n (some units) left h = h

module _ (utf8 : Utf8) where
  Ends-read_value :
      (r : Bytes → Parsed Tuple) (c : ℕ) (left : Bytes)
      → Ends (length left) (r left)
      → Ends (length left) (read_value utf8 r c left)
  unfolding read_value
  Ends-read_value r c left h =
      let n = length left in
      Ends-if n (c == 0x00) _ _ (omega arith) (
        Ends-if n (c == 0x01) _ _ (Ends-map n _ _ (Ends-read_escaped [] left)) (
          Ends-if n (c == 0x02) _ _
            (Ends-bind n _ _ (Ends-read_escaped [] left)
              (λ (encoded, left') k. Ends-text_of n (utf8.decode encoded) left' k))
            (Ends-if n (c == 0x05) _ _ (Ends-map n _ _ h) (
              Ends-if n (c == 0x14) _ _ (omega arith) (
                Ends-if n (c == 0x20) _ _ (Ends-map n _ _ (Ends-read_ordered_float 4 left)) (
                  Ends-if n (c == 0x21) _ _ (Ends-map n _ _ (Ends-read_ordered_float 8 left)) (
                    Ends-if n (c == 0x26) _ _ (omega arith) (
                      Ends-if n (c == 0x27) _ _ (omega arith) (
                        Ends-if n (c == 0x30) _ _ (Ends-map n _ _ (Ends-read 16 left)) (
                          Ends-if n (c == 0x33) _ _ (Ends-map n _ _ (Ends-read 12 left)) (
                            Ends-if n (leb 0x0c c && leb c 0x1c || c == 0x0b || c == 0x1d) _ _
                              (Ends-read_integer c left) tt)))))))))))

  -- Reading a value and going on, with fuel for what is left.
  Ends-continue :
      (fuel n : ℕ) (c : ℕ) (left : Bytes) (f : TupleValue × Bytes → Parsed Tuple)
      → length left ≤ n
      → Ends (length left) (read_tuple utf8 fuel true nil left)
      → ((result : TupleValue × Bytes)
          → length result.1 ≤ length left
          → Ends (length left) (f result))
      → Ends n (read_value utf8 (read_tuple utf8 fuel true nil) c left >>= f)
  Ends-continue fuel n c left f h e k = Ends-weaken (length left) n _ h (
      Ends-bind (length left) (read_value utf8 (read_tuple utf8 fuel true nil) c left) f
        (Ends-read_value (read_tuple utf8 fuel true nil) c left e) k)

  Ends-read_tuple :
      (fuel : ℕ) (in_tuple : Bool) (values : Tuple) (left : Bytes)
      → length left < fuel
      → Ends (length left) (read_tuple utf8 fuel in_tuple values left)
  unfolding read_tuple
  Ends-read_tuple zero in_tuple values left h = absurd (omega arith)
  Ends-read_tuple (suc fuel) in_tuple values [] h = Ends-if 0 in_tuple _ _ tt (omega arith)
  Ends-read_tuple (suc fuel) in_tuple values (c ∷ []) h =
      Ends-if 1 (in_tuple && c == 0x00) _ _ (omega arith) (
        Ends-continue fuel 1 c [] _ (omega arith) (Ends-read_tuple fuel true nil [] (omega arith))
          (λ (value, left') k.
            Ends-weaken (length left') 0 _ k
              (Ends-read_tuple fuel in_tuple (push_value values value) left' (omega arith))))
  Ends-read_tuple (suc fuel) in_tuple values (c ∷ b ∷ left) h =
      let n = suc (suc (length left)) in
      Ends-if n (in_tuple && c == 0x00) _ _
        (Ends-if n (b == 0xff) _ _
          (Ends-weaken (length left) n _ (omega arith)
            (Ends-read_tuple fuel in_tuple (push_value values null) left (omega arith)))
          (omega arith))
        (Ends-continue fuel n c (b ∷ left) _ (omega arith)
          (Ends-read_tuple fuel true nil (b ∷ left) (omega arith))
          (λ (value, left') k.
            Ends-weaken (length left') (suc (length left)) _ k
              (Ends-read_tuple fuel in_tuple (push_value values value) left' (omega arith))))

  locate-ne-out_of_fuel :
      (total n : ℕ) (p : Parsed Tuple)
      → Ends n p
      → map_err (locate total) (map_ok (λ (values, left). values) p) ≢ err out_of_fuel
  locate-ne-out_of_fuel total n (ok result) h e = cc
  locate-ne-out_of_fuel total n (err out_of_fuel) h e = h
  locate-ne-out_of_fuel total n (err (pack_error r)) h e = cc
  locate-ne-out_of_fuel total n (err (unpack_error r k)) h e = cc
  locate-ne-out_of_fuel total n (err outside_subspace) h e = cc

-- On every input, any bytes at all, `unpack` ends with a tuple or with an error of the program: it
-- never uses up the rounds that the model gives it.
pub unpack_ends : (utf8 : Utf8) (input : Bytes) → unpack utf8 input ≢ err out_of_fuel
unfolding unpack
unpack_ends utf8 input =
    locate-ne-out_of_fuel utf8 (length input) (length input)
      (read_tuple utf8 (suc (length input)) false nil input)
      (Ends-read_tuple utf8 (suc (length input)) false nil input (omega arith))
