-- ===== src/Directory/Free.antt =====
-- Prefixes of which none begins with another, and how `nodeContainingKey` and `isPrefixFree` find one.
use foundationdb_effect.Prelude.{
  zero, suc, ◌≡◌, ◌≢◌, ◌⊎◌, inl, inr, sym, ◌∙◌, subst, true, false, Option, none, some, List, [],
  ◌∷◌, arith, Bool-cases, Option-cases, if_true, if_false, All, true≢false, none≢some,
  some-injective,
}
use foundationdb_effect.Prelude.Int.{ℤ, pos, negsuc}
use foundationdb_effect.Bytes.{Bytes, compare_bytes}
use foundationdb_effect.Bytes.Order.{
  LexLt, LexLt-trans, LexLt-irrefl, Compares, compare_bytes-Compares, lt_cases,
}
use foundationdb_effect.Bytes.Prefix.{HasPrefix}
use foundationdb_effect.Directory.{at_most, greater_of, previous_node}
use foundationdb_effect.Directory.State.{Nodes}

abbrev pub keys {ℓ} : {A : Type ℓ} → List (Bytes × A) → List Bytes
keys [] = []
keys ((k, _) ∷ rest) = k ∷ keys rest

abbrev pub Member : Bytes → List Bytes → Type 0
Member p [] = ⊥
Member p (q ∷ qs) = (p ≡ q) ⊎ Member p qs

-- Neither begins with the other.
abbrev pub Apart : Bytes → Bytes → Type 0
Apart p q = (¬ HasPrefix p q) × (¬ HasPrefix q p)

abbrev pub PrefixFree : List Bytes → Type 0
PrefixFree [] = Unit
PrefixFree (p ∷ ps) = All (Apart p) ps × PrefixFree ps

at_most_of : (p q : Bytes) (c : ℤ) → Compares p q c → at_most c ≡ true → ¬ LexLt q p
at_most_of p q (pos zero) same e = subst (λ q. ¬ LexLt q p) same (LexLt-irrefl p)
at_most_of p q (pos (suc n)) greater e = λ _. true≢false (sym e ∙ grind arith)
at_most_of p q (negsuc n) less e = λ greater. LexLt-irrefl p (LexLt-trans p q p less greater)

not_at_most_of : (p q : Bytes) (c : ℤ) → Compares p q c → at_most c ≡ false → LexLt q p
not_at_most_of p q (pos zero) same e = absurd (true≢false (grind arith ∙ e))
not_at_most_of p q (pos (suc n)) greater e = greater
not_at_most_of p q (negsuc n) less e = absurd (true≢false e)

pub Le : Bytes → Bytes → Type 0
Le p q = ¬ LexLt q p

pub at_most-Le : (p q : Bytes) → at_most (compare_bytes p q) ≡ true → Le p q
unfolding Le
at_most-Le p q e = at_most_of p q (compare_bytes p q) (compare_bytes-Compares p q) e

pub above : (p q : Bytes) → at_most (compare_bytes p q) ≡ false → LexLt q p
above p q e = not_at_most_of p q (compare_bytes p q) (compare_bytes-Compares p q) e

Le-of_LexLt : (p q : Bytes) → LexLt p q → Le p q
unfolding Le
Le-of_LexLt p q l g = LexLt-irrefl p (LexLt-trans p q p l g)

order_cases : (p q : Bytes) (c : ℤ) → Compares p q c → (p ≡ q) ⊎ LexLt p q ⊎ LexLt q p
order_cases p q (pos zero) same = inl same
order_cases p q (pos (suc n)) greater = inr (inr greater)
order_cases p q (negsuc n) less = inr (inl less)

Le-trans : (p q r : Bytes) → Le p q → Le q r → Le p r
unfolding Le
Le-trans p q r a b l = elim (order_cases p q (compare_bytes p q) (compare_bytes-Compares p q)) [
  | inl same ↦ b (subst (λ x. LexLt r x) same l)
  | inr (inl less) ↦ b (LexLt-trans r p q l less)
  | inr (inr greater) ↦ a greater
]

pub Le-of_not : (p q : Bytes) → (¬ LexLt q p) → Le p q
unfolding Le
Le-of_not p q l = l

-- What lies between a prefix of a key and the key begins with that prefix.
pub between-HasPrefix : (key q b : Bytes) → HasPrefix key q → Le q b → Le b key → HasPrefix b q
unfolding Le
between-HasPrefix key [] b h low high = tt
between-HasPrefix [] (x ∷ xs) b h low high = absurd h
between-HasPrefix (k ∷ ks) (x ∷ xs) [] h low high = absurd (low tt)
between-HasPrefix (k ∷ ks) (x ∷ xs) (y ∷ ys) h low high =
    let same : y ≡ x = elim (lt_cases y x) [
      | inl less ↦ absurd (low (inl less))
      | inr (inl equal) ↦ equal
      | inr (inr greater) ↦ absurd (high (inl (omega (arith, greater, h.0))))
    ] in
    (
      same,
      between-HasPrefix ks xs ys h.1 (λ l. low (inr (same, l)))
          (λ l. high (inr (h.0 ∙ sym same, l))),
    )

pub HasPrefix-Le : (key q : Bytes) → HasPrefix key q → Le q key
unfolding Le
HasPrefix-Le key [] h l = l
HasPrefix-Le [] (x ∷ xs) h l = h
HasPrefix-Le (k ∷ ks) (x ∷ xs) h (inl l) = omega (arith, h.0)
HasPrefix-Le (k ∷ ks) (x ∷ xs) h (inr l) = HasPrefix-Le ks xs h.1 l.1

Le-refl : (p : Bytes) → Le p p
unfolding Le
Le-refl p = LexLt-irrefl p

pub Le-not : (p q : Bytes) → Le p q → ¬ LexLt q p
unfolding Le
Le-not p q l = l

pub All-Member : (P : Bytes → Type 0) (ps : List Bytes) (p : Bytes) → All P ps → Member p ps → P p
All-Member P [] p h m = absurd m
All-Member P (q ∷ qs) p h (inl e) = subst P (sym e) h.0
All-Member P (q ∷ qs) p h (inr m) = All-Member P qs p h.1 m

pub Member-HasPrefix :
    (ps : List Bytes) (p q : Bytes)
    → PrefixFree ps
    → Member p ps
    → Member q ps
    → HasPrefix p q
    → p ≡ q
Member-HasPrefix [] p q f m n h = absurd m
Member-HasPrefix (x ∷ xs) p q (apart, f) (inl e) (inl e') h = e ∙ sym e'
Member-HasPrefix (x ∷ xs) p q (apart, f) (inl e) (inr n) h =
    absurd ((All-Member (Apart x) xs q apart n).0 (subst (λ p. HasPrefix p q) e h))
Member-HasPrefix (x ∷ xs) p q (apart, f) (inr m) (inl e) h =
    absurd ((All-Member (Apart x) xs p apart m).1 (subst (λ q. HasPrefix p q) e h))
Member-HasPrefix (x ∷ xs) p q (apart, f) (inr m) (inr n) h = Member-HasPrefix xs p q f m n h

greater_of-bounds :
    (p : Bytes) (best : Option Bytes) (g : Bytes)
    → greater_of p best ≡ some g
    → Le p g × ((q : Bytes) → best ≡ some q → Le q g)
greater_of-bounds p none g e = (
  subst (λ g. Le p g) (some-injective e) (Le-refl p),
  λ q none_some. absurd (none≢some none_some),
)
greater_of-bounds p (some b) g e = elim (Bool-cases (at_most (compare_bytes p b))) [
  | inl less ↦
      let same = some-injective (if_true _ _ less e) in
      (
        subst (λ g. Le p g) same (at_most-Le p b less),
        λ q e'. subst (λ q. Le q g) (some-injective e') (subst (λ g. Le b g) same (Le-refl b)),
      )
  | inr more ↦
      let same = some-injective (if_false _ _ more e) in
      (
        subst (λ g. Le p g) same (Le-refl p),
        λ q e'.
            subst (λ q. Le q g) (some-injective e')
              (subst (λ g. Le b g) same (Le-of_LexLt b p (above p b more))),
      )
]

greater_of-Member :
    (p : Bytes) (best : Option Bytes) (g : Bytes)
    → greater_of p best ≡ some g
    → (p ≡ g) ⊎ (best ≡ some g)
greater_of-Member p none g e = inl (some-injective e)
greater_of-Member p (some b) g e = elim (Bool-cases (at_most (compare_bytes p b))) [
  | inl less ↦ inr (if_true _ _ less e)
  | inr more ↦ inl (some-injective (if_false _ _ more e))
]

-- The node found is one of the nodes up to the key, and the greatest.
pub previous_node-Member :
    (key : Bytes) (nodes : Nodes) (g : Bytes)
    → previous_node key nodes ≡ some g
    → Member g (keys nodes) × Le g key
previous_node-Member key [] g e = absurd (none≢some e)
previous_node-Member key ((p, _) ∷ rest) g e = elim (Bool-cases (at_most (compare_bytes p key))) [
  | inl less ↦ elim (greater_of-Member p (previous_node key rest) g (if_true _ _ less e)) [
    | inl here ↦ (inl (sym here), subst (λ g. Le g key) here (at_most-Le p key less))
    | inr there ↦ let (m, l) = previous_node-Member key rest g there in (inr m, l)
  ]
  | inr more ↦ let (m, l) = previous_node-Member key rest g (if_false _ _ more e) in (inr m, l)
]

greater_of-some : (p : Bytes) (best : Option Bytes) → greater_of p best ≢ none
greater_of-some p none e = none≢some (sym e)
greater_of-some p (some b) e = elim (Bool-cases (at_most (compare_bytes p b))) [
  | inl less ↦ none≢some (sym (if_true _ _ less e))
  | inr more ↦ none≢some (sym (if_false _ _ more e))
]

-- A node up to the key is at most the one found.
pub previous_node-Le :
    (key : Bytes) (nodes : Nodes) (q : Bytes)
    → Member q (keys nodes)
    → Le q key
    → (g : Bytes) × (previous_node key nodes ≡ some g) × Le q g
previous_node-Le key [] q m l = absurd m
previous_node-Le key ((p, _) ∷ rest) q (inl e) l =
    elim (Bool-cases (at_most (compare_bytes p key))) [
      | inl less ↦ elim (Option-cases (greater_of p (previous_node key rest))) [
        | inl nothing ↦ absurd (greater_of-some p (previous_node key rest) nothing)
        | inr (g, found) ↦ (
          g,
          rw less found,
          subst (λ q. Le q g) (sym e) (greater_of-bounds p (previous_node key rest) g found).0,
        )
      ]
      | inr more ↦ absurd (Le-not q key l (subst (λ q. LexLt key q) (sym e) (above p key more)))
    ]
previous_node-Le key ((p, _) ∷ rest) q (inr m) l =
    let (b, found, le) = previous_node-Le key rest q m l in
    elim (Bool-cases (at_most (compare_bytes p key))) [
      | inl less ↦ elim (Option-cases (greater_of p (previous_node key rest))) [
        | inl nothing ↦ absurd (greater_of-some p (previous_node key rest) nothing)
        | inr (g, e) ↦ (
          g,
          rw less e,
          Le-trans q b g le ((greater_of-bounds p (previous_node key rest) g e).1 b found),
        )
      ]
      | inr more ↦ (b, rw more found, le)
    ]
