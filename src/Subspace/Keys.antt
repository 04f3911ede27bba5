-- ===== src/Subspace/Keys.antt =====
-- The keys of a subspace: `pack` and `unpack`, `contains`, and what a `range` covers.
use foundationdb_effect.Prelude.{
  ℕ, ◌<◌, ◌≡◌, ◌↔◌, refl, sym, ap, ◌∙◌, subst, Bool, true, false, [], ◌∷◌, ◌++◌, arith,
  drop-length_append, append-nil, append_assoc, inl, inr,
}
use foundationdb_effect.Prelude.Result.{ok, err, map_ok-eq-ok, ok-injective, >>=-eq-ok}
use foundationdb_effect.Bytes.{Bytes, starts_with}
use foundationdb_effect.Bytes.Order.{LexLt, LexLt-append}
use foundationdb_effect.Bytes.Prefix.{HasPrefix-append, starts_with_of_HasPrefix, InRange}
use foundationdb_effect.Tuple.Values.{TupleValue, Tuple, nil, cons, append_tuple, outside_subspace}
use foundationdb_effect.Tuple.Encode.{Utf8, Output, append_value, append_values, pack_tracked}
use foundationdb_effect.Tuple.Encode
use foundationdb_effect.Tuple.Valid.{IsUtf8, IsValidTuple}
use foundationdb_effect.Tuple.RoundTrip.{unpack-pack, value_Writes, tuple_Writes}
use foundationdb_effect.Subspace.{Subspace, contains, pack, unpack, range}

starts_with-append : (p rest : Bytes) → starts_with (p ++ rest) p ≡ true
starts_with-append p rest = starts_with_of_HasPrefix (p ++ rest) p (HasPrefix-append p rest)

-- A packed key lies in the subspace, and unpacks to the tuple that was packed.
pub subspace_round_trip :
    (utf8 : Utf8) (s : Subspace) (tuple : Tuple) (key : Bytes)
    → IsUtf8 utf8
    → IsValidTuple tuple
    → pack utf8 s tuple ≡ ok key
    → (contains s key ≡ true) × (unpack utf8 s key ≡ ok tuple)
unfolding pack unpack contains
subspace_round_trip utf8 s tuple key u v e =
    let (suffix, packed, same) = map_ok-eq-ok _ (Encode.pack utf8 tuple) e in
    let same' : s.prefix ++ suffix ≡ key =
      ap (λ t. s.prefix ++ t) (sym (append-nil suffix)) ∙ same in
    let here = starts_with-append s.prefix suffix in
    (
      rw (← same') here,
      rw (← same', here, drop-length_append s.prefix suffix)
          (unpack-pack utf8 tuple suffix u v packed),
    )

-- `unpack` refuses every key that does not start with the prefix.
pub unpack_outside :
    (utf8 : Utf8) (s : Subspace) (key : Bytes)
    → contains s key ≡ false
    → unpack utf8 s key ≡ err outside_subspace
unfolding unpack
unpack_outside utf8 s key h = rw h refl

LexLt-cancel : (p xs ys : Bytes) → LexLt (p ++ xs) (p ++ ys) → LexLt xs ys
LexLt-cancel [] xs ys h = h
LexLt-cancel (b ∷ bs) xs ys (inl l) = absurd (omega arith)
LexLt-cancel (b ∷ bs) xs ys (inr h) = LexLt-cancel bs xs ys h.1

-- A prefix with at least one more byte, which is not 0xff.
abbrev pub Extends : Bytes → Bytes → Type 0
Extends p key = (b : ℕ) × (rest : Bytes) × (key ≡ p ++ b ∷ rest) × (b < 0xff)

InRange-of_Extends : (p key : Bytes) → Extends p key → InRange (p ++ 0x00 ∷ []) (p ++ 0xff ∷ []) key
InRange-of_Extends p key (b, rest, e, small) = rw e (
  λ l. before (LexLt-cancel p (b ∷ rest) (0x00 ∷ []) l),
  LexLt-append p (b ∷ rest) (0xff ∷ []) (inl small),
)
  where
    before : ¬ LexLt (b ∷ rest) (0x00 ∷ [])
    before (inl l) = omega arith
    before (inr h) = h.1

Extends-of_InRange : (p key : Bytes) → InRange (p ++ 0x00 ∷ []) (p ++ 0xff ∷ []) key → Extends p key
Extends-of_InRange [] [] (h, l) = absurd (h tt)
Extends-of_InRange [] (b ∷ rest) (h, inl l) = (b, rest, refl, l)
Extends-of_InRange [] (b ∷ rest) (h, inr l) = absurd l.1
Extends-of_InRange (x ∷ xs) [] (h, l) = absurd (h tt)
Extends-of_InRange (x ∷ xs) (b ∷ rest) (h, inl l) = absurd (h (inl l))
Extends-of_InRange (x ∷ xs) (b ∷ rest) (h, inr l) =
    let (c, more, e, small) = Extends-of_InRange xs rest (λ k. h (inr (l.0, k)), l.1) in
    (c, more, λ i. l.0 i ∷ e i, small)

range_of_pack :
    (utf8 : Utf8) (s : Subspace) (tuple : Tuple) (p : Bytes)
    → pack utf8 s tuple ≡ ok p
    → range utf8 s tuple ≡ ok (p ++ 0x00 ∷ [], p ++ 0xff ∷ [])
unfolding range
range_of_pack utf8 s tuple p e = rw e refl

-- `range` bounds exactly the keys that have the packed tuple as a proper prefix and whose next byte
-- is not 0xff.
pub range_iff-Extends :
    (utf8 : Utf8) (s : Subspace) (tuple : Tuple) (begin end p key : Bytes)
    → pack utf8 s tuple ≡ ok p
    → range utf8 s tuple ≡ ok (begin, end)
    → InRange begin end key ↔ Extends p key
range_iff-Extends utf8 s tuple begin end p key packed ranged =
    let same : (p ++ 0x00 ∷ [], p ++ 0xff ∷ []) ≡ (begin, end) =
      ok-injective (sym (range_of_pack utf8 s tuple p packed) ∙ ranged) in
    subst (λ (b : Bytes × Bytes). InRange b.0 b.1 key ↔ Extends p key) same
      (Extends-of_InRange p key, InRange-of_Extends p key)

module _ (utf8 : Utf8) where
  append_values_split :
      (o o' : Output) (t u : Tuple) (n : Bool)
      → append_values utf8 o (append_tuple t u) n ≡ ok o'
      → (mid : Output) × (append_values utf8 o t n ≡ ok mid) × (append_values utf8 mid u n ≡ ok o')
  unfolding append_values
  append_values_split o o' nil u n e = (o, refl, e)
  append_values_split o o' (cons v t) u n e =
      let (o₁, e₁, e₂) = >>=-eq-ok (append_value utf8 o v n) _ e in
      let (mid, f₁, f₂) = append_values_split o₁ o' t u n e₂ in (mid, rw e₁ f₁, f₂)

  -- A longer tuple is packed behind the bytes of the shorter one.
  packed_Extends :
      (u : IsUtf8 utf8) (t : Tuple) (v : TupleValue) (more : Tuple) (p key : Bytes)
      → IsValidTuple (cons v more)
      → Encode.pack utf8 t ≡ ok p
      → Encode.pack utf8 (append_tuple t (cons v more)) ≡ ok key
      → Extends p key
  unfolding Encode.pack pack_tracked append_values
  packed_Extends u t v more p key valid e k =
      let start : Output = record { output = []; incomplete_versionstamps = [] } in
      let (o, e₁, e₂) = map_ok-eq-ok _ (append_values utf8 start t false) e in
      let (o', k₁, k₂) =
        map_ok-eq-ok _ (append_values utf8 start (append_tuple t (cons v more)) false) k in
      let (mid, f₁, f₂) = append_values_split start o' t (cons v more) false k₁ in
      let same : o ≡ mid = ok-injective (sym e₁ ∙ f₁) in
      let (o₁, g₁, g₂) = >>=-eq-ok (append_value utf8 mid v false) _ f₂ in
      let w = value_Writes utf8 u v false mid o₁ valid.0 g₁ in
      let ws = tuple_Writes utf8 u more false o₁ o' valid.1 g₂ in
      (
        w.type_code,
        w.body ++ ws.text,
        sym k₂
            ∙ ws.written
            ∙ ap (λ t. t ++ ws.text) w.written
            ∙ append_assoc mid.output (w.type_code ∷ w.body) ws.text
            ∙ ap (λ (x : Output). x.output ++ w.type_code ∷ (w.body ++ ws.text)) (sym same)
            ∙ ap (λ t. t ++ w.type_code ∷ (w.body ++ ws.text)) e₂,
        w.no_escape,
      )

-- `range` of a tuple covers the key of every longer tuple that begins with it.
pub range_covers :
    (utf8 : Utf8) (s : Subspace) (t : Tuple) (v : TupleValue) (more : Tuple) (begin end key : Bytes)
    → IsUtf8 utf8
    → IsValidTuple (cons v more)
    → range utf8 s t ≡ ok (begin, end)
    → pack utf8 s (append_tuple t (cons v more)) ≡ ok key
    → InRange begin end key
unfolding pack range
range_covers utf8 s t v more begin end key u valid ranged k =
    let (p, packed, bounds) = map_ok-eq-ok _ (pack utf8 s t) ranged in
    let (suffix, e₁, e₂) = map_ok-eq-ok _ (Encode.pack utf8 t) packed in
    let (longer, k₁, k₂) = map_ok-eq-ok _ (Encode.pack utf8 (append_tuple t (cons v more))) k in
    let (b, rest, same, small) = packed_Extends utf8 u t v more suffix longer valid e₁ k₁ in
    (range_iff-Extends utf8 s t begin end p key packed ranged).1 (
      b,
      rest,
      sym k₂
          ∙ ap (λ x. s.prefix ++ x) (append-nil longer ∙ same)
          ∙ sym (append_assoc s.prefix suffix (b ∷ rest))
          ∙ ap (λ x. x ++ b ∷ rest) (ap (λ x. s.prefix ++ x) (sym (append-nil suffix)) ∙ e₂),
      small,
    )
