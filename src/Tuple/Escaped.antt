-- ===== src/Tuple/Escaped.antt =====
-- `appendEscaped` and `#readEscaped`: strings of bytes that end in an unescaped 0x00.
use foundationdb_effect.Prelude.{
  ℕ, ◌≡◌, ◌≢◌, refl, true, false, [], ◌∷◌, ◌++◌, append_assoc, arith, ◌==◌, if◌then◌else◌,
  Bool-cases, inl, inr, append-nil,
}
use foundationdb_effect.Prelude.Result.{ok}
use foundationdb_effect.Bytes.{Bytes}
use foundationdb_effect.Tuple.Encode.{append_escaped}
use foundationdb_effect.Tuple.Decode.{read_escaped}

-- The bytes that `appendEscaped` adds.
abbrev pub escaped : Bytes → Bytes
escaped [] = 0x00 ∷ []
escaped (b ∷ bs) = b ∷ (if b == 0x00 then 0xff ∷ escaped bs else escaped bs)

pub append_escaped-eq-append :
    (output value : Bytes) → append_escaped output value ≡ output ++ escaped value
unfolding append_escaped
append_escaped-eq-append output [] = refl
append_escaped-eq-append output (b ∷ bs) = elim (Bool-cases (b == 0x00)) [
  | inl z ↦
      rw (z, append_escaped-eq-append ((output ++ b ∷ []) ++ 0xff ∷ []) bs) (simp append_assoc)
  | inr n ↦ rw (n, append_escaped-eq-append (output ++ b ∷ []) bs) (simp append_assoc)
]

-- What may stand behind an escaped string, or behind a tuple's end, without being taken into it.
abbrev pub NoEscape : Bytes → Type 0
NoEscape [] = Unit
NoEscape (b ∷ bs) = b ≢ 0xff

read_escaped_push :
    (value left : Bytes) (b : ℕ)
    → (b == 0x00) ≡ false
    → read_escaped value (b ∷ left) ≡ read_escaped (value ++ b ∷ []) left
unfolding read_escaped
read_escaped_push value [] b h = rw h
read_escaped_push value (c ∷ left) b h = rw h

read_escaped_zero :
    (value left : Bytes) (b : ℕ)
    → (b == 0x00) ≡ true
    → read_escaped value (b ∷ 0xff ∷ left) ≡ read_escaped (value ++ 0x00 ∷ []) left
unfolding read_escaped
read_escaped_zero value left b h = rw h

read_escaped_end :
    (value left : Bytes) → NoEscape left → read_escaped value (0x00 ∷ left) ≡ ok (value, left)
unfolding read_escaped
read_escaped_end value [] h = refl
read_escaped_end value (b ∷ left) h = ground arith

eq_of_test : (b : ℕ) → (b == 0x00) ≡ true → b ≡ 0x00
eq_of_test b h = ground arith

pub read_escaped-escaped_from :
    (acc value left : Bytes)
    → NoEscape left
    → read_escaped acc (escaped value ++ left) ≡ ok (acc ++ value, left)
read_escaped-escaped_from acc [] left h = rw append-nil (read_escaped_end acc left h)
read_escaped-escaped_from acc (b ∷ bs) left h = elim (Bool-cases (b == 0x00)) [
  | inl z ↦
      rw (z, read_escaped_zero acc (escaped bs ++ left) b z, eq_of_test b z)
        (rw (read_escaped-escaped_from (acc ++ 0x00 ∷ []) bs left h) (simp append_assoc))
  | inr n ↦
      rw (n, read_escaped_push acc (escaped bs ++ left) b n)
        (rw (read_escaped-escaped_from (acc ++ b ∷ []) bs left h) (simp append_assoc))
]

-- `#readEscaped` reads back any byte string that `appendEscaped` has written, and stops at its end,
-- if the byte behind it is not 0xff.
pub read_escaped-append_escaped :
    (value left : Bytes)
    → NoEscape left
    → read_escaped [] (append_escaped [] value ++ left) ≡ ok (value, left)
read_escaped-append_escaped value left h =
    rw (append_escaped-eq-append [] value) (read_escaped-escaped_from [] value left h)
