-- ===== src/KeyValue/Entries.antt =====
-- Values by key, each key once: what a key-value store promises.
use Prim.Native.String.{String}
use text.Mathlib.Text.{◌==◌ as str_eq}
use text.Mathlib.TextEquality.{eq_iff}
use foundationdb_effect.Prelude.{
  suc, ◌≤◌, ◌≡◌, inl, inr, subst, refl, sym, ap, ◌∙◌, true, false, Bool-cases, Option-cases, Option,
  none, some, List, [], ◌∷◌, arith, length, if◌then◌else◌, none≢some,
}
use foundationdb_effect.Bytes.{Bytes}

abbrev pub Entries : Type 0
Entries = List (String × Bytes)

abbrev pub lookup : String → Entries → Option Bytes
lookup key [] = none
lookup key ((k, v) ∷ rest) = let later = lookup key rest in if str_eq k key then some v else later

abbrev pub put : String → Bytes → Entries → Entries
put key value [] = (key, value) ∷ []
put key value ((k, v) ∷ rest) =
    let rest' = put key value rest in if str_eq k key then (k, value) ∷ rest else (k, v) ∷ rest'

abbrev pub drop_key : String → Entries → Entries
drop_key key [] = []
drop_key key ((k, v) ∷ rest) =
    let rest' = drop_key key rest in if str_eq k key then rest' else (k, v) ∷ rest'

-- No key stands twice.
abbrev pub NoDup : Entries → Type 0
NoDup [] = Unit
NoDup ((k, v) ∷ rest) = (lookup k rest ≡ none) × NoDup rest

pub lookup-put :
    (key : String) (value : Bytes) (es : Entries) (j : String)
    → lookup j (put key value es) ≡ (if str_eq key j then some value else lookup j es)
lookup-put key value [] j = refl
lookup-put key value ((k, v) ∷ rest) j = elim (Bool-cases (str_eq k key)) [
  | inl same ↦ rw ((eq_iff k key).0 same, (eq_iff key key).1 refl) (grind arith)
  | inr n ↦ rw (n, lookup-put key value rest j) (grind (arith, eq_iff))
]

pub lookup-drop_key :
    (key : String) (es : Entries) (j : String)
    → lookup j (drop_key key es) ≡ (if str_eq key j then none else lookup j es)
lookup-drop_key key [] j = grind arith
lookup-drop_key key ((k, v) ∷ rest) j = elim (Bool-cases (str_eq k key)) [
  | inl same ↦
      rw ((eq_iff k key).0 same, (eq_iff key key).1 refl) (lookup-drop_key key rest j ∙ grind arith)
  | inr n ↦ rw (n, lookup-drop_key key rest j) (grind (arith, eq_iff))
]

pub put-NoDup : (key : String) (value : Bytes) (es : Entries) → NoDup es → NoDup (put key value es)
put-NoDup key value [] _ = (refl, tt)
put-NoDup key value ((k, v) ∷ rest) (new, apart) = elim (Bool-cases (str_eq k key)) [
  | inl same ↦ rw same (new, apart)
  | inr n ↦
      rw n (lookup-put key value rest k ∙ grind (arith, eq_iff), put-NoDup key value rest apart)
]

pub drop_key-NoDup : (key : String) (es : Entries) → NoDup es → NoDup (drop_key key es)
drop_key-NoDup key [] _ = tt
drop_key-NoDup key ((k, v) ∷ rest) (new, apart) = elim (Bool-cases (str_eq k key)) [
  | inl same ↦ rw same (drop_key-NoDup key rest apart)
  | inr n ↦ rw n (lookup-drop_key key rest k ∙ grind (arith, eq_iff), drop_key-NoDup key rest apart)
]

lookup_first :
    (key k : String) (v : Bytes) (rest : Entries)
    → str_eq k key ≡ true
    → lookup key ((k, v) ∷ rest) ≡ some v
lookup_first key k v rest e = rw e refl

lookup_later :
    (key k : String) (v : Bytes) (rest : Entries)
    → str_eq k key ≡ false
    → lookup key ((k, v) ∷ rest) ≡ lookup key rest
lookup_later key k v rest e = rw e refl

-- A new key adds an entry, an old one does not.
pub length-put_new :
    (key : String) (value : Bytes) (es : Entries)
    → lookup key es ≡ none
    → length (put key value es) ≡ suc (length es)
length-put_new key value [] e = refl
length-put_new key value ((k, v) ∷ rest) e = elim (Bool-cases (str_eq k key)) [
  | inl same ↦ absurd (none≢some (sym e ∙ lookup_first key k v rest same))
  | inr n ↦ rw n (ap suc (length-put_new key value rest (sym (lookup_later key k v rest n) ∙ e)))
]

pub length-put_known :
    (key : String) (value old : Bytes) (es : Entries)
    → lookup key es ≡ some old
    → length (put key value es) ≡ length es
length-put_known key value old [] e = absurd (none≢some e)
length-put_known key value old ((k, v) ∷ rest) e = elim (Bool-cases (str_eq k key)) [
  | inl same ↦ rw same refl
  | inr n ↦
      rw n (ap suc (length-put_known key value old rest (sym (lookup_later key k v rest n) ∙ e)))
]

pub drop_key_absent : (key : String) (es : Entries) → lookup key es ≡ none → drop_key key es ≡ es
drop_key_absent key [] e = refl
drop_key_absent key ((k, v) ∷ rest) e = elim (Bool-cases (str_eq k key)) [
  | inl same ↦ absurd (none≢some (sym e ∙ lookup_first key k v rest same))
  | inr n ↦
      rw n
        (ap (λ es. (k, v) ∷ es) (drop_key_absent key rest (sym (lookup_later key k v rest n) ∙ e)))
]

-- A known key is one entry.
pub length-drop_key :
    (key : String) (old : Bytes) (es : Entries)
    → NoDup es
    → lookup key es ≡ some old
    → suc (length (drop_key key es)) ≡ length es
length-drop_key key old [] _ e = absurd (none≢some e)
length-drop_key key old ((k, v) ∷ rest) (new, apart) e = elim (Bool-cases (str_eq k key)) [
  | inl same ↦
      let gone = subst (λ j. lookup j rest ≡ none) ((eq_iff k key).0 same) new in
      rw same (ap (λ es. suc (length es)) (drop_key_absent key rest gone))
  | inr n ↦
      rw n (ap suc (length-drop_key key old rest apart (sym (lookup_later key k v rest n) ∙ e)))
]

pub length-put :
    (key : String) (value : Bytes) (es : Entries) → length (put key value es) ≤ suc (length es)
length-put key value es = elim (Option-cases (lookup key es)) [
  | inl e ↦ omega (arith, length-put_new key value es e)
  | inr (old, e) ↦ omega (arith, length-put_known key value old es e)
]

pub length-drop_key_le : (key : String) (es : Entries) → length (drop_key key es) ≤ length es
length-drop_key_le key [] = omega arith
length-drop_key_le key ((k, v) ∷ rest) = elim (Bool-cases (str_eq k key)) [
  | inl same ↦ rw same (omega (arith, length-drop_key_le key rest))
  | inr n ↦ rw n (omega (arith, length-drop_key_le key rest))
]
