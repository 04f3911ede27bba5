-- ===== src/Bytes/Order.antt =====
-- `compareBytes` is the unsigned lexicographic order.
use foundationdb_effect.Prelude.{
  ℕ, zero, suc, ◌<◌, ◌∙◌, true, false, [], ◌∷◌, ◌++◌, ◌==◌, if◌then◌else◌, ◌≡◌, refl, ap, subst,
  ◌⊎◌, inl, inr, ◌↔◌, arith,
}
use foundationdb_effect.Prelude.Int.{ℤ, pos, negsuc}
use foundationdb_effect.Bytes.{Bytes, compare_bytes, equal_bytes}

-- The lexicographic order, stated without the loop: a proper prefix comes first.
abbrev pub LexLt : Bytes → Bytes → Type 0
LexLt xs [] = ⊥
LexLt [] (y ∷ ys) = Unit
LexLt (x ∷ xs) (y ∷ ys) = (x < y) ⊎ ((x ≡ y) × LexLt xs ys)

pub LexLt-trans : (xs ys zs : Bytes) → LexLt xs ys → LexLt ys zs → LexLt xs zs
LexLt-trans xs [] zs p q = absurd p
LexLt-trans xs (y ∷ ys) [] p q = absurd q
LexLt-trans [] (y ∷ ys) (z ∷ zs) p q = tt
LexLt-trans (x ∷ xs) (y ∷ ys) (z ∷ zs) (inl p) (inl q) = inl (omega arith)
LexLt-trans (x ∷ xs) (y ∷ ys) (z ∷ zs) (inl p) (inr q) = inl (omega (arith, q.0))
LexLt-trans (x ∷ xs) (y ∷ ys) (z ∷ zs) (inr p) (inl q) = inl (omega (arith, p.0))
LexLt-trans (x ∷ xs) (y ∷ ys) (z ∷ zs) (inr p) (inr q) =
    inr (p.0 ∙ q.0, LexLt-trans xs ys zs p.1 q.1)

pub LexLt-irrefl : (xs : Bytes) → ¬ LexLt xs xs
LexLt-irrefl [] p = p
LexLt-irrefl (x ∷ xs) (inl p) = omega arith
LexLt-irrefl (x ∷ xs) (inr p) = LexLt-irrefl xs p.1

-- A common prefix does not matter.
pub LexLt-append : (ps xs ys : Bytes) → LexLt xs ys → LexLt (ps ++ xs) (ps ++ ys)
LexLt-append [] xs ys h = h
LexLt-append (p ∷ ps) xs ys h = inr (refl, LexLt-append ps xs ys h)

-- What the comparison returns, by the order.
abbrev pub Compares : Bytes → Bytes → ℤ → Type 0
Compares l r (pos zero) = l ≡ r
Compares l r (pos (suc _)) = LexLt r l
Compares l r (negsuc _) = LexLt l r

compare_bytes-cons : (x : ℕ) (xs ys : Bytes) → compare_bytes (x ∷ xs) (x ∷ ys) ≡ compare_bytes xs ys
unfolding compare_bytes
compare_bytes-cons x xs ys = ground arith

compare_bytes_lt : (x y : ℕ) (xs ys : Bytes) → x < y → compare_bytes (x ∷ xs) (y ∷ ys) ≡ negsuc 0
unfolding compare_bytes
compare_bytes_lt x y xs ys h = ground arith

compare_bytes_gt : (x y : ℕ) (xs ys : Bytes) → y < x → compare_bytes (x ∷ xs) (y ∷ ys) ≡ pos 1
unfolding compare_bytes
compare_bytes_gt x y xs ys h = ground arith

compare_bytes-nil_cons : (y : ℕ) (ys : Bytes) → compare_bytes [] (y ∷ ys) ≡ negsuc 0
unfolding compare_bytes
compare_bytes-nil_cons y ys = ground arith

compare_bytes-cons_nil : (x : ℕ) (xs : Bytes) → compare_bytes (x ∷ xs) [] ≡ pos 1
unfolding compare_bytes
compare_bytes-cons_nil x xs = ground arith

pub lt_cases : (a b : ℕ) → (a < b) ⊎ (a ≡ b) ⊎ (b < a)
lt_cases a b = ground arith

Compares-cons : (x : ℕ) (xs ys : Bytes) (c : ℤ) → Compares xs ys c → Compares (x ∷ xs) (x ∷ ys) c
Compares-cons x xs ys (pos zero) h = ap (λ zs. x ∷ zs) h
Compares-cons x xs ys (pos (suc n)) h = inr (refl, h)
Compares-cons x xs ys (negsuc n) h = inr (refl, h)

-- `compareBytes` returns -1, 0 or 1 exactly as its arguments stand in the order: a negative number
-- when the left one is lexicographically smaller, 0 when they are equal, a positive one when the
-- right one is smaller.
pub compare_bytes-Compares : (l r : Bytes) → Compares l r (compare_bytes l r)
compare_bytes-Compares [] [] = unfold compare_bytes in refl
compare_bytes-Compares [] (y ∷ ys) = rw (compare_bytes-nil_cons y ys) tt
compare_bytes-Compares (x ∷ xs) [] = rw (compare_bytes-cons_nil x xs) tt
compare_bytes-Compares (x ∷ xs) (y ∷ ys) = elim (lt_cases x y) [
  | inl less ↦ rw (compare_bytes_lt x y xs ys less) (inl less)
  | inr (inl same) ↦
      subst (λ z. Compares (x ∷ xs) (z ∷ ys) (compare_bytes (x ∷ xs) (z ∷ ys))) same
        (rw (compare_bytes-cons x xs ys)
          (Compares-cons x xs ys (compare_bytes xs ys) (compare_bytes-Compares xs ys)))
  | inr (inr more) ↦ rw (compare_bytes_gt x y xs ys more) (inl more)
]

compare_bytes_self : (bs : Bytes) → compare_bytes bs bs ≡ pos 0
compare_bytes_self [] = unfold compare_bytes in refl
compare_bytes_self (b ∷ bs) = compare_bytes-cons b bs bs ∙ compare_bytes_self bs

-- The comparison returns 0 exactly for equal byte strings.
pub compare_bytes-eq-zero_iff : (l r : Bytes) → (compare_bytes l r ≡ pos 0) ↔ (l ≡ r)
compare_bytes-eq-zero_iff l r = (
  λ e. rw e at (compare_bytes-Compares l r),
  λ e. subst (λ z. compare_bytes l z ≡ pos 0) e (compare_bytes_self l),
)

equal_bytes-cons :
    (x y : ℕ) (xs ys : Bytes)
    → equal_bytes (x ∷ xs) (y ∷ ys) ≡ (if x == y then equal_bytes xs ys else false)
unfolding equal_bytes
equal_bytes-cons x y xs ys = ground arith

eq_of_equal_bytes : (l r : Bytes) → equal_bytes l r ≡ true → l ≡ r
eq_of_equal_bytes [] [] h = refl
eq_of_equal_bytes [] (y ∷ ys) h = unfold equal_bytes in ground arith
eq_of_equal_bytes (x ∷ xs) [] h = unfold equal_bytes in ground arith
eq_of_equal_bytes (x ∷ xs) (y ∷ ys) h =
    ground (arith, equal_bytes-cons x y xs ys, eq_of_equal_bytes xs ys)

equal_bytes_self : (bs : Bytes) → equal_bytes bs bs ≡ true
equal_bytes_self [] = unfold equal_bytes in refl
equal_bytes_self (b ∷ bs) = ground (arith, equal_bytes-cons b b bs bs, equal_bytes_self bs)

-- `equalBytes` decides equality.
pub equal_bytes_iff : (l r : Bytes) → (equal_bytes l r ≡ true) ↔ (l ≡ r)
equal_bytes_iff l r =
    (eq_of_equal_bytes l r, λ e. subst (λ z. equal_bytes l z ≡ true) e (equal_bytes_self l))
