-- ===== src/Tuple/RoundTrip.antt =====
-- `unpack` reads back what `pack` has written.
use foundationdb_effect.Prelude.{
  ℕ, zero, suc, ◌<◌, ◌≡◌, refl, sym, ap, ◌∙◌, subst, Bool, true, false, [], ◌∷◌, ◌++◌, append_assoc,
  append-nil, arith, if◌then◌else◌, length, length-append,
}
use foundationdb_effect.Prelude.Result.{ok, ok-injective, map_ok-eq-ok, >>=-eq-ok}
use foundationdb_effect.Bytes.{Bytes}
use foundationdb_effect.Tuple.Values.{
  TupleValue, Tuple, null, boolean, bytes, string, bigint, number, float32, uuid, versionstamp,
  nested, nil, cons, append_tuple, push_value, to_be,
}
use foundationdb_effect.Tuple.Encode.{
  Utf8, Output, push, append_value, append_values, append_ordered_float, pack_tracked, pack,
  order_float,
}
use foundationdb_effect.Tuple.Decode.{read_tuple, unpack}
use foundationdb_effect.Tuple.Escaped.{escaped, NoEscape}
use foundationdb_effect.Tuple.Valid.{IsUtf8, IsValid, IsValidTuple}
use foundationdb_effect.Tuple.Steps.{read_bytes, read_float32, read_number, read_boolean, read_uuid}
use foundationdb_effect.Tuple.Written.{
  Writes, WritesTuple, append_tuple_push, NoEscape-append, plain, not_end, escaped_written,
  same_output, null_Writes, string_Writes, versionstamp_Writes, bigint_Writes, nested_Writes,
}

append_tuple_nil : (values : Tuple) → append_tuple values nil ≡ values
append_tuple_nil nil = refl
append_tuple_nil (cons x xs) = ap (cons x) (append_tuple_nil xs)

module _ (utf8 : Utf8) where
  nil_WritesTuple : (in_tuple : Bool) (before : Bytes) → WritesTuple utf8 in_tuple nil before before
  nil_WritesTuple in_tuple before = record {
    text = [];
    written = sym (append-nil before);
    no_escape = tt;
    steps = λ fuel values left h l.
        (fuel, l, ap (λ t. read_tuple utf8 fuel in_tuple t left) (sym (append_tuple_nil values)));
  }

  cons_WritesTuple :
      (in_tuple : Bool) (value : TupleValue) (tuple : Tuple) (before middle after : Bytes)
      → Writes utf8 in_tuple value before middle
      → WritesTuple utf8 in_tuple tuple middle after
      → WritesTuple utf8 in_tuple (cons value tuple) before after
  cons_WritesTuple in_tuple value tuple before middle after w ws = record {
    text = w.type_code ∷ (w.body ++ ws.text);
    written =
        ws.written
        ∙ ap (λ t. t ++ ws.text) w.written
        ∙ append_assoc before (w.type_code ∷ w.body) ws.text;
    no_escape = omega (arith, w.no_escape);
    steps = round;
  }
    where
      round :
          (fuel : ℕ) (values : Tuple) (left : Bytes)
          → NoEscape left
          → length ((w.type_code ∷ (w.body ++ ws.text)) ++ left) < fuel
          → (fuel' : ℕ) × (length left < fuel')
            × (read_tuple utf8 fuel in_tuple values ((w.type_code ∷ (w.body ++ ws.text)) ++ left)
                ≡ read_tuple utf8 fuel' in_tuple (append_tuple values (cons value tuple)) left)
      round zero values left h l = absurd (omega arith)
      round (suc fuel) values left h l =
          let regroup = append_assoc w.body ws.text left in
          let here : length (w.body ++ (ws.text ++ left)) < fuel =
            subst (λ (bs : Bytes). length bs < fuel) regroup (omega arith) in
          let there : length (ws.text ++ left) < fuel =
            omega (arith, length-append {0} w.body (ws.text ++ left)) in
          let (fuel', enough, e) = ws.steps fuel (push_value values value) left h there in
          (
            fuel',
            enough,
            ap (λ t. read_tuple utf8 (suc fuel) in_tuple values (w.type_code ∷ t)) regroup
                ∙ w.step fuel values (ws.text ++ left) (NoEscape-append ws.text left ws.no_escape h)
                    here
                ∙ e
                ∙ ap (λ t. read_tuple utf8 fuel' in_tuple t left)
                    (append_tuple_push values value tuple),
          )

  mutual
    unfolding append_value append_values append_ordered_float

    pub value_Writes :
        (u : IsUtf8 utf8) (value : TupleValue) (in_tuple : Bool) (o o' : Output)
        → IsValid value
        → append_value utf8 o value in_tuple ≡ ok o'
        → Writes utf8 in_tuple value o.output o'.output
    value_Writes u null in_tuple o o' v e = null_Writes utf8 in_tuple o o' e
    value_Writes u (bytes value) in_tuple o o' v e =
        plain utf8 in_tuple (bytes value) o.output o'.output 0x01 (escaped value)
          (same_output utf8 e ∙ escaped_written utf8 o.output 0x01 value)
          (not_end utf8 in_tuple 0x01 (omega arith)) (omega arith)
          (λ r left h. read_bytes utf8 r left value h)
    value_Writes u (string units) in_tuple o o' v e = string_Writes utf8 u units in_tuple o o' v e
    value_Writes u (bigint i) in_tuple o o' v e = bigint_Writes utf8 i in_tuple o o' e
    value_Writes u (float32 bits) in_tuple o o' v e =
        plain utf8 in_tuple (float32 bits) o.output o'.output 0x20 (order_float (to_be 4 bits))
          (same_output utf8 e) (not_end utf8 in_tuple 0x20 (omega arith)) (omega arith)
          (λ r left h. read_float32 utf8 r left bits v)
    value_Writes u (number bits) in_tuple o o' v e =
        plain utf8 in_tuple (number bits) o.output o'.output 0x21 (order_float (to_be 8 bits))
          (same_output utf8 e) (not_end utf8 in_tuple 0x21 (omega arith)) (omega arith)
          (λ r left h. read_number utf8 r left bits v)
    value_Writes u (boolean b) in_tuple o o' v e =
        plain utf8 in_tuple (boolean b) o.output o'.output (if b then 0x27 else 0x26) []
          (same_output utf8 e) (not_end utf8 in_tuple _ (ground arith)) (ground arith)
          (λ r left h. read_boolean utf8 r left b)
    value_Writes u (uuid value) in_tuple o o' v e =
        plain utf8 in_tuple (uuid value) o.output o'.output 0x30 value
          (same_output utf8 e ∙ append_assoc o.output (0x30 ∷ []) value)
          (not_end utf8 in_tuple 0x30 (omega arith)) (omega arith)
          (λ r left h. read_uuid utf8 r left value v)
    value_Writes u (versionstamp stamp) in_tuple o o' v e =
        versionstamp_Writes utf8 stamp in_tuple o o' v e
    value_Writes u (nested children) in_tuple o o' v e =
        let (mid, e₁, e₂) = >>=-eq-ok (append_values utf8 (push o (0x05 ∷ [])) children true) _ e in
        nested_Writes utf8 children in_tuple o mid o'
          (tuple_Writes u children true (push o (0x05 ∷ [])) mid v e₁) (ok-injective e₂)

    pub tuple_Writes :
        (u : IsUtf8 utf8) (tuple : Tuple) (in_tuple : Bool) (o o' : Output)
        → IsValidTuple tuple
        → append_values utf8 o tuple in_tuple ≡ ok o'
        → WritesTuple utf8 in_tuple tuple o.output o'.output
    tuple_Writes u nil in_tuple o o' v e =
        subst (λ (bs : Bytes). WritesTuple utf8 in_tuple nil o.output bs) (sym (same_output utf8 e))
          (nil_WritesTuple in_tuple o.output)
    tuple_Writes u (cons value values) in_tuple o o' v e =
        let (mid, e₁, e₂) = >>=-eq-ok (append_value utf8 o value in_tuple) _ e in
        cons_WritesTuple in_tuple value values o.output mid.output o'.output
          (value_Writes u value in_tuple o mid v.0 e₁)
          (tuple_Writes u values in_tuple mid o' v.1 e₂)

  top_finish :
      (fuel : ℕ) (values : Tuple)
      → 0 < fuel
      → read_tuple utf8 fuel false values [] ≡ ok (values, [])
  unfolding read_tuple
  top_finish zero values h = absurd (omega arith)
  top_finish (suc fuel) values h = refl

  text_read :
      (tuple : Tuple) (after : Bytes)
      → (w : WritesTuple utf8 false tuple [] after)
      → read_tuple utf8 (suc (length after)) false nil after ≡ ok (tuple, [])
  text_read tuple after w =
      let whole : w.text ++ [] ≡ after = append-nil w.text ∙ sym w.written in
      let enough : length (w.text ++ []) < suc (length after) =
        subst (λ (bs : Bytes). length (w.text ++ []) < suc (length bs)) whole (omega arith) in
      let (fuel', p, e) = w.steps (suc (length after)) nil [] tt enough in
      ap (λ t. read_tuple utf8 (suc (length after)) false nil t) (sym whole)
      ∙ e
      ∙ top_finish fuel' tuple p

-- Where the platform reads back its own encoding of well-formed strings, `unpack` of what `pack`
-- returns for a tuple is that tuple: nested tuples, nulls in them, escaped zero bytes, integers of
-- either sign up to 255 bytes, floats, UUIDs and versionstamps included.
pub unpack-pack :
    (utf8 : Utf8) (tuple : Tuple) (packed : Bytes)
    → IsUtf8 utf8
    → IsValidTuple tuple
    → pack utf8 tuple ≡ ok packed
    → unpack utf8 packed ≡ ok tuple
unfolding pack pack_tracked unpack
unpack-pack utf8 tuple packed u v e =
    let start : Output = record { output = []; incomplete_versionstamps = [] } in
    let (o, e₁, e₂) = map_ok-eq-ok _ (append_values utf8 start tuple false) e in
    let w = tuple_Writes utf8 u tuple false start o v e₁ in
    rw (← e₂, text_read utf8 tuple o.output w) refl
