-- ===== src/Bytes/Prefix.antt =====
-- `startsWith` and `strinc`.
use foundationdb_effect.Prelude.{
  ℕ, zero, suc, ◌+◌, ◌<◌, ◌%◌, ◌≢◌, get_or, set, take, true, false, Option, none, some, [], ◌∷◌,
  ◌++◌, ◌==◌, Bool-cases, if◌then◌else◌, length, All, ◌≡◌, refl, subst, ◌⊎◌, inl, inr, ◌↔◌, arith,
}
use foundationdb_effect.Bytes.{Bytes, IsBytes, starts_with, last_index, strinc, increment_prefix}
use foundationdb_effect.Bytes.Order.{LexLt}

-- A key that begins with a prefix.
abbrev pub HasPrefix : Bytes → Bytes → Type 0
HasPrefix key [] = Unit
HasPrefix [] (x ∷ xs) = ⊥
HasPrefix (y ∷ ys) (x ∷ xs) = (y ≡ x) × HasPrefix ys xs

pub HasPrefix-append : (p rest : Bytes) → HasPrefix (p ++ rest) p
HasPrefix-append [] rest = tt
HasPrefix-append (x ∷ xs) rest = (refl, HasPrefix-append xs rest)

starts_with-cons :
    (y x : ℕ) (ys xs : Bytes)
    → starts_with (y ∷ ys) (x ∷ xs) ≡ (if y == x then starts_with ys xs else false)
unfolding starts_with
starts_with-cons y x ys xs = ground arith

starts_with-nil : (key : Bytes) → starts_with key [] ≡ true
unfolding starts_with
starts_with-nil [] = refl
starts_with-nil (y ∷ ys) = ground arith

starts_with_short : (x : ℕ) (xs : Bytes) → starts_with [] (x ∷ xs) ≡ false
unfolding starts_with
starts_with_short x xs = ground arith

pub HasPrefix-of_starts_with : (key p : Bytes) → starts_with key p ≡ true → HasPrefix key p
HasPrefix-of_starts_with key [] h = tt
HasPrefix-of_starts_with [] (x ∷ xs) h = cc (starts_with_short x xs)
HasPrefix-of_starts_with (y ∷ ys) (x ∷ xs) h =
    ground (arith, starts_with-cons y x ys xs, HasPrefix-of_starts_with ys xs)

pub starts_with_of_HasPrefix : (key p : Bytes) → HasPrefix key p → starts_with key p ≡ true
starts_with_of_HasPrefix key [] h = starts_with-nil key
starts_with_of_HasPrefix [] (x ∷ xs) h = absurd h
starts_with_of_HasPrefix (y ∷ ys) (x ∷ xs) h =
    ground (arith, starts_with-cons y x ys xs, starts_with_of_HasPrefix ys xs h.1)

-- The scan from the end, byte by byte from the front.
abbrev shifted : ℕ → Option ℕ → Option ℕ
shifted x (some i) = some (suc i)
shifted x none = if x == 0xff then none else some 0

last_index-cons :
    (x : ℕ) (xs : Bytes) (n : ℕ) → last_index (x ∷ xs) (suc n) ≡ shifted x (last_index xs n)
unfolding last_index
last_index-cons x xs zero = ground arith
last_index-cons x xs (suc n) = ground (arith, last_index-cons x xs n)

abbrev raised : ℕ → Bytes → Bytes
raised x [] = if x == 0xff then [] else ((x + 1) % 256) ∷ []
raised x (b ∷ bs) = x ∷ b ∷ bs

strinc-nil : strinc [] ≡ []
unfolding strinc last_index
strinc-nil = refl

-- What `strinc` does with the index that it finds.
cut : Bytes → Option ℕ → Bytes
cut key none = []
cut key (some i) = take (suc i) (set key i ((get_or key i 0 + 1) % 256))

strinc-cut : (key : Bytes) → strinc key ≡ cut key (last_index key (length key))
unfolding strinc cut
strinc-cut key = ground arith

cut-shifted :
    (x y : ℕ) (ys : Bytes) (o : Option ℕ)
    → cut (x ∷ y ∷ ys) (shifted x o) ≡ raised x (cut (y ∷ ys) o)
unfolding cut
cut-shifted x y ys none = ground arith
cut-shifted x y ys (some zero) = refl
cut-shifted x y ys (some (suc i)) = refl

strinc-cons : (x : ℕ) (xs : Bytes) → strinc (x ∷ xs) ≡ raised x (strinc xs)
strinc-cons x [] = unfold strinc last_index in ground arith
strinc-cons x (y ∷ ys) =
    rw (strinc-cut (x ∷ y ∷ ys), strinc-cut (y ∷ ys), last_index-cons x (y ∷ ys) (length (y ∷ ys)))
      (cut-shifted x y ys (last_index (y ∷ ys) (length (y ∷ ys))))

-- The keys of a `getRange` or `clearRange` from `begin`, inclusive, to `end`, exclusive.
abbrev pub InRange : Bytes → Bytes → Bytes → Type 0
InRange begin end key = (¬ LexLt key begin) × LexLt key end

HasPrefix-not_before : (key p : Bytes) → HasPrefix key p → ¬ LexLt key p
HasPrefix-not_before key [] h l = l
HasPrefix-not_before [] (x ∷ xs) h l = h
HasPrefix-not_before (y ∷ ys) (x ∷ xs) h (inl l) = omega (arith, h.0)
HasPrefix-not_before (y ∷ ys) (x ∷ xs) h (inr l) = HasPrefix-not_before ys xs h.1 l.1

-- Below the successor, where there is one.
abbrev Below : Bytes → Bytes → Type 0
Below key end = (end ≡ []) ⊎ LexLt key end

Below-raised :
    (y x : ℕ) (ys zs : Bytes) → x < 256 → y ≡ x → Below ys zs → Below (y ∷ ys) (raised x zs)
Below-raised y x ys [] b e h = elim (Bool-cases (x == 0xff)) [
  | inl last ↦ rw last (inl refl)
  | inr room ↦ rw room (inr (inl (ground arith)))
]
Below-raised y x ys (z ∷ zs) b e (inl empty) = cc
Below-raised y x ys (z ∷ zs) b e (inr l) = inr (inr (e, l))

HasPrefix-Below : (key p : Bytes) → IsBytes p → HasPrefix key p → Below key (strinc p)
HasPrefix-Below key [] b h = inl strinc-nil
HasPrefix-Below [] (x ∷ xs) b h = absurd h
HasPrefix-Below (y ∷ ys) (x ∷ xs) b h =
    rw (strinc-cons x xs) (Below-raised y x ys (strinc xs) b.0 h.0 (HasPrefix-Below ys xs b.1 h.1))

Below-single : (y x : ℕ) (ys : Bytes) → x < 255 → Below (y ∷ ys) (((x + 1) % 256) ∷ []) → y < x + 1
Below-single y x ys r (inl e) = cc
Below-single y x ys r (inr (inl l)) = omega arith
Below-single y x ys r (inr (inr l)) = absurd l.1

Below-step :
    (y x : ℕ) (ys zs : Bytes)
    → x < 256
    → y < 256
    → ¬ (y < x)
    → Below (y ∷ ys) (raised x zs)
    → (y ≡ x) × Below ys zs
Below-step y x ys [] bx by l h = elim (Bool-cases (x == 0xff)) [
  | inl last ↦ (ground arith, inl refl)
  | inr room ↦
      let h' : Below (y ∷ ys) (((x + 1) % 256) ∷ []) = rw room at h in
      let above : y < x + 1 = Below-single y x ys (ground arith) h' in (omega arith, inl refl)
]
Below-step y x ys (z ∷ zs) bx by l (inl e) = cc
Below-step y x ys (z ∷ zs) bx by l (inr (inl m)) = absurd (l m)
Below-step y x ys (z ∷ zs) bx by l (inr (inr m)) = (m.0, inr m.1)

HasPrefix-of_Below :
    (key p : Bytes)
    → IsBytes p
    → IsBytes key
    → ¬ LexLt key p
    → Below key (strinc p)
    → HasPrefix key p
HasPrefix-of_Below key [] bp bk l h = tt
HasPrefix-of_Below [] (x ∷ xs) bp bk l h = l tt
HasPrefix-of_Below (y ∷ ys) (x ∷ xs) bp bk l h =
    let (same, below) =
      Below-step y x ys (strinc xs) bp.0 bk.0 (λ m. l (inl m)) (rw (strinc-cons x xs) at h) in
    (same, HasPrefix-of_Below ys xs bp.1 bk.1 (λ m. l (inr (same, m))) below)

LexLt-of_Below : (key end : Bytes) → end ≢ [] → Below key end → LexLt key end
LexLt-of_Below key end some_end (inl e) = absurd (some_end e)
LexLt-of_Below key end some_end (inr l) = l

-- Where the prefix has a successor, the keys from the prefix up to `strinc` of it are exactly the
-- keys for which `startsWith` returns true.
pub starts_with_iff-InRange :
    (key prefix : Bytes)
    → IsBytes key
    → IsBytes prefix
    → strinc prefix ≢ []
    → (starts_with key prefix ≡ true) ↔ InRange prefix (strinc prefix) key
starts_with_iff-InRange key prefix bk bp some_end = (
  λ e.
      let h = HasPrefix-of_starts_with key prefix e in
      (
        HasPrefix-not_before key prefix h,
        LexLt-of_Below key (strinc prefix) some_end (HasPrefix-Below key prefix bp h),
      ),
  λ r. starts_with_of_HasPrefix key prefix (HasPrefix-of_Below key prefix bp bk r.0 (inr r.1)),
)

strinc-eq-nil : (prefix : Bytes) → All (λ b. b ≡ 0xff) prefix → strinc prefix ≡ []
strinc-eq-nil [] h = strinc-nil
strinc-eq-nil (x ∷ xs) h = rw (strinc-cons x xs, strinc-eq-nil xs h.1) (ground arith)

raised-eq-nil : (x : ℕ) (zs : Bytes) → raised x zs ≡ [] → (x ≡ 0xff) × (zs ≡ [])
raised-eq-nil x [] e = ground arith
raised-eq-nil x (z ∷ zs) e = cc

All-of_strinc-eq-nil : (prefix : Bytes) → strinc prefix ≡ [] → All (λ b. b ≡ 0xff) prefix
All-of_strinc-eq-nil [] e = tt
All-of_strinc-eq-nil (x ∷ xs) e =
    let (last, rest) = raised-eq-nil x (strinc xs) (rw (strinc-cons x xs) at e) in
    (last, All-of_strinc-eq-nil xs rest)

increment_prefix-eq-none :
    (prefix : Bytes) → (increment_prefix prefix ≡ none) ↔ (strinc prefix ≡ [])
unfolding increment_prefix
increment_prefix-eq-none prefix = ground arith

-- `incrementPrefix` fails exactly for the strings of 0xff bytes, the empty one among them.
pub increment_prefix-eq-none_iff :
    (prefix : Bytes) → (increment_prefix prefix ≡ none) ↔ All (λ b. b ≡ 0xff) prefix
increment_prefix-eq-none_iff prefix = (
  λ e. All-of_strinc-eq-nil prefix ((increment_prefix-eq-none prefix).0 e),
  λ h. (increment_prefix-eq-none prefix).1 (strinc-eq-nil prefix h),
)

increment_prefix-eq-some :
    (prefix end : Bytes)
    → increment_prefix prefix ≡ some end
    → (strinc prefix ≡ end) × (strinc prefix ≢ [])
unfolding increment_prefix
increment_prefix-eq-some prefix end e = (ground arith, ground arith)

-- A key with a prefix lies between the prefix and what `incrementPrefix` returns.
pub increment_prefix-InRange :
    (key prefix end : Bytes)
    → IsBytes prefix
    → increment_prefix prefix ≡ some end
    → HasPrefix key prefix
    → InRange prefix end key
increment_prefix-InRange key prefix end bp e h =
    let (same, some_end) = increment_prefix-eq-some prefix end e in
    (
      HasPrefix-not_before key prefix h,
      subst (λ end. LexLt key end) same
          (LexLt-of_Below key (strinc prefix) some_end (HasPrefix-Below key prefix bp h)),
    )
