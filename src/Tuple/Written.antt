-- ===== src/Tuple/Written.antt =====
-- What `appendValue` writes for each kind of value, and that a round of the parser reads it.
use foundationdb_effect.Prelude.{
  ℕ, zero, suc, ◌<◌, ◌≡◌, ◌≢◌, refl, sym, ap, ◌∙◌, subst, Bool, true, false, ◌&&◌, List, [], ◌∷◌,
  ◌++◌, append_assoc, arith, ◌==◌, Bool-cases, inl, inr, length, All,
}
use foundationdb_effect.Prelude.Int.{ℤ, pos, negsuc}
use foundationdb_effect.Prelude.Result.{Result, ok, ok-injective, map_ok-eq-ok}
use foundationdb_effect.Bytes.{Bytes}
use foundationdb_effect.Tuple.Values.{
  TupleValue, Tuple, null, string, bigint, versionstamp, nested, nil, cons, append_tuple,
  push_value, TupleError, is_complete,
}
use foundationdb_effect.Tuple.Encode.{
  Utf8, append_escaped, is_well_formed, append_integer, Output, push, append_value,
}
use foundationdb_effect.Tuple.Decode.{Parsed, read_value, read_tuple}
use foundationdb_effect.Tuple.Escaped.{escaped, append_escaped-eq-append, NoEscape}
use foundationdb_effect.Tuple.Integer.{append_integer-WritesInteger}
use foundationdb_effect.Tuple.Valid.{IsUtf8}
use foundationdb_effect.Tuple.Steps.{
  read_tuple_step, read_tuple_null, read_tuple_end, read_string, read_versionstamp,
  read_value_integer,
}

pub append_tuple_push :
    (values : Tuple) (value : TupleValue) (rest : Tuple)
    → append_tuple (push_value values value) rest ≡ append_tuple values (cons value rest)
append_tuple_push nil value rest = refl
append_tuple_push (cons x xs) value rest = ap (cons x) (append_tuple_push xs value rest)

pub NoEscape-append : (xs ys : Bytes) → NoEscape xs → NoEscape ys → NoEscape (xs ++ ys)
NoEscape-append [] ys h k = k
NoEscape-append (x ∷ xs) ys h k = h

module _ (utf8 : Utf8) where
  -- Behind `before` stands a type code and a body, and one round of the parser's loop reads them.
  pub record Writes (in_tuple : Bool) (value : TupleValue) (before after : Bytes) : Type 0 where
    pub type_code : ℕ
    pub body : Bytes
    pub written : after ≡ before ++ type_code ∷ body
    pub no_escape : type_code < 0xff
    pub step :
        (fuel : ℕ) (values : Tuple) (left : Bytes)
        → NoEscape left
        → length (body ++ left) < fuel
        → read_tuple utf8 (suc fuel) in_tuple values (type_code ∷ (body ++ left))
          ≡ read_tuple utf8 fuel in_tuple (push_value values value) left

  -- The same for the values of a tuple, in as many rounds.
  pub record WritesTuple (in_tuple : Bool) (tuple : Tuple) (before after : Bytes) : Type 0 where
    pub text : Bytes
    pub written : after ≡ before ++ text
    pub no_escape : NoEscape text
    pub steps :
        (fuel : ℕ) (values : Tuple) (left : Bytes)
        → NoEscape left
        → length (text ++ left) < fuel
        → (fuel' : ℕ) × (length left < fuel')
          × (read_tuple utf8 fuel in_tuple values (text ++ left)
              ≡ read_tuple utf8 fuel' in_tuple (append_tuple values tuple) left)

  pub plain :
      (in_tuple : Bool) (value : TupleValue) (before after : Bytes) (type_code : ℕ) (body : Bytes)
      → after ≡ before ++ type_code ∷ body
      → (in_tuple && type_code == 0x00) ≡ false
      → type_code < 0xff
      → ((r : Bytes → Parsed Tuple) (left : Bytes)
          → NoEscape left
          → read_value utf8 r type_code (body ++ left) ≡ ok (value, left))
      → Writes in_tuple value before after
  plain in_tuple value before after type_code body w z n reads = record {
    type_code = type_code;
    body = body;
    written = w;
    no_escape = n;
    step = λ fuel values left h l.
        read_tuple_step utf8 in_tuple type_code (body ++ left) left value fuel values z
          (reads (read_tuple utf8 fuel true nil) left h);
  }

  -- A code that is not 0x00 never ends a tuple.
  pub not_end : (in_tuple : Bool) (c : ℕ) → 0 < c → (in_tuple && c == 0x00) ≡ false
  not_end true c h = ground arith
  not_end false c h = refl

  pub escaped_written :
      (output : Bytes) (c : ℕ) (value : Bytes)
      → append_escaped (output ++ c ∷ []) value ≡ output ++ c ∷ escaped value
  escaped_written output c value =
      append_escaped-eq-append (output ++ c ∷ []) value
      ∙ append_assoc output (c ∷ []) (escaped value)

  pub same_output :
      {a b : Output} → ◌≡◌ {A = Result TupleError Output} (ok a) (ok b) → b.output ≡ a.output
  same_output e = ap (λ (o : Output). o.output) (sym (ok-injective e))

  pub null_Writes :
      (in_tuple : Bool) (o o' : Output)
      → append_value utf8 o null in_tuple ≡ ok o'
      → Writes in_tuple null o.output o'.output
  unfolding append_value
  null_Writes true o o' e = record {
    type_code = 0x00;
    body = 0xff ∷ [];
    written = same_output e ∙ append_assoc o.output (0x00 ∷ []) (0xff ∷ []);
    no_escape = omega arith;
    step = λ fuel values left h l. read_tuple_null utf8 left fuel values;
  }
  null_Writes false o o' e =
      plain false null o.output o'.output 0x00 [] (same_output e) refl (omega arith)
        (λ r left h. unfold read_value in refl)

  pub string_Writes :
      (u : IsUtf8 utf8) (units : List ℕ) (in_tuple : Bool) (o o' : Output)
      → All (λ x. x < 65536) units
      → append_value utf8 o (string units) in_tuple ≡ ok o'
      → Writes in_tuple (string units) o.output o'.output
  unfolding append_value
  string_Writes u units in_tuple o o' v e = elim (Bool-cases (is_well_formed units)) [
    | inl well ↦
        plain in_tuple (string units) o.output o'.output 0x02 (escaped (utf8.encode units))
          (same_output (rw well at e) ∙ escaped_written o.output 0x02 (utf8.encode units))
          (not_end in_tuple 0x02 (omega arith)) (omega arith)
          (λ r left h. read_string utf8 r left units u v well h)
    | inr bad ↦ cc (rw bad at e)
  ]

  versionstamp_output :
      (stamp : Bytes) (in_tuple : Bool) (o o' : Output)
      → append_value utf8 o (versionstamp stamp) in_tuple ≡ ok o'
      → o'.output ≡ o.output ++ 0x33 ∷ stamp
  unfolding append_value
  versionstamp_output stamp in_tuple o o' e = elim (Bool-cases (is_complete stamp)) [
    | inl complete ↦ same_output (rw complete at e) ∙ append_assoc o.output (0x33 ∷ []) stamp
    | inr incomplete ↦ same_output (rw incomplete at e) ∙ append_assoc o.output (0x33 ∷ []) stamp
  ]

  pub versionstamp_Writes :
      (stamp : Bytes) (in_tuple : Bool) (o o' : Output)
      → length stamp ≡ 12
      → append_value utf8 o (versionstamp stamp) in_tuple ≡ ok o'
      → Writes in_tuple (versionstamp stamp) o.output o'.output
  versionstamp_Writes stamp in_tuple o o' v e =
      plain in_tuple (versionstamp stamp) o.output o'.output 0x33 stamp
        (versionstamp_output stamp in_tuple o o' e) (not_end in_tuple 0x33 (omega arith))
        (omega arith) (λ r left h. read_versionstamp utf8 r left stamp v)

  nonzero_Writes :
      (v : ℤ) (in_tuple : Bool) (o o' : Output)
      → v ≢ pos 0
      → append_value utf8 o (bigint v) in_tuple ≡ ok o'
      → Writes in_tuple (bigint v) o.output o'.output
  unfolding append_value
  nonzero_Writes v in_tuple o o' nz e =
      let (out, appended, same) = map_ok-eq-ok _ (append_integer o.output v) e in
      let w = append_integer-WritesInteger v o.output out nz appended in
      plain in_tuple (bigint v) o.output o'.output w.type_code w.body
        (ap (λ (x : Output). x.output) (sym same) ∙ w.written)
        (not_end in_tuple w.type_code (omega (arith, w.is_code))) (omega (arith, w.is_code))
        (λ r left h.
          read_value_integer utf8 r (w.body ++ left) w.type_code w.is_code ∙ w.reads left)

  pub bigint_Writes :
      (v : ℤ) (in_tuple : Bool) (o o' : Output)
      → append_value utf8 o (bigint v) in_tuple ≡ ok o'
      → Writes in_tuple (bigint v) o.output o'.output
  unfolding append_value
  bigint_Writes (pos zero) in_tuple o o' e =
      plain in_tuple (bigint (pos 0)) o.output o'.output 0x14 [] (zero_written e)
        (not_end in_tuple 0x14 (omega arith)) (omega arith) (λ r left h. unfold read_value in refl)
    where
      zero_written :
          append_value utf8 o (bigint (pos zero)) in_tuple ≡ ok o'
          → o'.output ≡ o.output ++ 0x14 ∷ []
      zero_written q = unfold append_integer in same_output q
  bigint_Writes (pos (suc n)) in_tuple o o' e =
      nonzero_Writes (pos (suc n)) in_tuple o o' (λ q. cc) e
  bigint_Writes (negsuc n) in_tuple o o' e = nonzero_Writes (negsuc n) in_tuple o o' (λ q. cc) e

  finish :
      (fuel : ℕ) (values : Tuple) (left : Bytes)
      → NoEscape left
      → length (0x00 ∷ left) < fuel
      → read_tuple utf8 fuel true values (0x00 ∷ left) ≡ ok (values, left)
  finish zero values left h l = absurd (omega arith)
  finish (suc fuel) values left h l = read_tuple_end utf8 left fuel values h

  children_read :
      (children : Tuple) (before after : Bytes)
      → (w : WritesTuple true children before after) (fuel : ℕ) (left : Bytes) → NoEscape left
      → length (w.text ++ 0x00 ∷ left) < fuel
      → read_tuple utf8 fuel true nil (w.text ++ 0x00 ∷ left) ≡ ok (children, left)
  children_read children before after w fuel left h l =
      let (fuel', enough, e) = w.steps fuel nil (0x00 ∷ left) (omega arith) l in
      e ∙ finish fuel' children left h enough

  nested_read :
      (children : Tuple) (before after : Bytes)
      → (w : WritesTuple true children before after) (fuel : ℕ) (left : Bytes) → NoEscape left
      → length ((w.text ++ 0x00 ∷ []) ++ left) < fuel
      → read_value utf8 (read_tuple utf8 fuel true nil) 0x05 ((w.text ++ 0x00 ∷ []) ++ left)
        ≡ ok (nested children, left)
  unfolding read_value
  nested_read children before after w fuel left h l =
      let regroup = append_assoc w.text (0x00 ∷ []) left in
      let enough : length (w.text ++ 0x00 ∷ left) < fuel =
        subst (λ (bs : Bytes). length bs < fuel) regroup l in
      rw (regroup, children_read children before after w fuel left h enough) refl

  pub nested_Writes :
      (children : Tuple) (in_tuple : Bool) (o mid o' : Output)
      → WritesTuple true children (o.output ++ 0x05 ∷ []) mid.output
      → push mid (0x00 ∷ []) ≡ o'
      → Writes in_tuple (nested children) o.output o'.output
  nested_Writes children in_tuple o mid o' w e = record {
    type_code = 0x05;
    body = w.text ++ 0x00 ∷ [];
    written =
        ap (λ (x : Output). x.output) (sym e)
        ∙ ap (λ t. t ++ 0x00 ∷ []) w.written
        ∙ simp append_assoc refl;
    no_escape = omega arith;
    step = λ fuel values left h l.
        read_tuple_step utf8 in_tuple 0x05 ((w.text ++ 0x00 ∷ []) ++ left) left (nested children)
          fuel values (not_end in_tuple 0x05 (omega arith))
          (nested_read children (o.output ++ 0x05 ∷ []) mid.output w fuel left h l);
  }
