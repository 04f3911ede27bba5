-- ===== src/Directory/Consistent.antt =====
-- Well-formed nodes of a layer, and the rows that are written to them.
use Prim.Native.String.{String}
use text.Mathlib.Text.{◌==◌ as str_eq}
use foundationdb_effect.Prelude.{
  ◌≡◌, ◌⊎◌, inl, inr, refl, sym, ap, ◌∙◌, subst, List, [], ◌∷◌, ◌++◌, Bool-cases, true≢false,
  if◌then◌else◌, All, All-append,
}
use foundationdb_effect.Bytes.{Bytes, IsBytes, equal_bytes}
use foundationdb_effect.Bytes.Order.{equal_bytes_iff}
use foundationdb_effect.Directory.State.{no_rows, Nodes, Database, at, put_at, rows_of, set_child}
use foundationdb_effect.Directory.Free.{keys, Member, Apart, PrefixFree}

-- The children of a node are among some prefixes.
abbrev pub ChildrenIn : List Bytes → List (String × Bytes) → Type 0
ChildrenIn ps children = All (λ c. Member c.1 ps) children

abbrev pub ClosedIn : List Bytes → Nodes → Type 0
ClosedIn ps nodes = All (λ n. ChildrenIn ps n.1.children) nodes

-- No prefix of a node begins with another, the root is among the nodes once there are any, and every
-- child is a node.
pub record WellFormed (root : Bytes) (nodes : Nodes) : Type 0 where
  pub apart : PrefixFree (keys nodes)
  pub of_bytes : All IsBytes (keys nodes)
  pub rooted : (keys nodes ≡ []) ⊎ Member root (keys nodes)
  pub closed : ClosedIn (keys nodes) nodes

abbrev pub AllWellFormed : Database → Type 0
AllWellFormed db = All (λ l. WellFormed l.0 l.1) db

module _ {ℓ} {A : Type ℓ} where
  pub at-All {κ} :
      (P : Bytes → A → Type κ) (missing : A) (key : Bytes) (l : List (Bytes × A))
      → All (λ e. P e.0 e.1) l
      → P key missing
      → P key (at missing key l)
  at-All P missing key [] h m = m
  at-All P missing key ((k, a) ∷ rest) h m = elim (Bool-cases (equal_bytes k key)) [
    | inl same ↦ rw same (subst (λ k. P k a) ((equal_bytes_iff k key).0 same) h.0)
    | inr other ↦ rw other (at-All P missing key rest h.1 m)
  ]

  pub put_at-All {κ} :
      (P : Bytes → A → Type κ) (key : Bytes) (new : A) (l : List (Bytes × A))
      → All (λ e. P e.0 e.1) l
      → P key new
      → All (λ e. P e.0 e.1) (put_at key new l)
  put_at-All P key new [] h m = (m, tt)
  put_at-All P key new ((k, a) ∷ rest) h m = elim (Bool-cases (equal_bytes k key)) [
    | inl same ↦ rw same (subst (λ k. P k new) (sym ((equal_bytes_iff k key).0 same)) m, h.1)
    | inr other ↦ rw other (h.0, put_at-All P key new rest h.1 m)
  ]

  pub keys-put_at_known :
      (key : Bytes) (new : A) (l : List (Bytes × A))
      → Member key (keys l)
      → keys (put_at key new l) ≡ keys l
  keys-put_at_known key new [] m = absurd m
  keys-put_at_known key new ((k, a) ∷ rest) m = elim (Bool-cases (equal_bytes k key)) [
    | inl same ↦ rw same refl
    | inr other ↦ elim m [
      | inl e ↦ absurd (true≢false (sym ((equal_bytes_iff k key).1 (sym e)) ∙ other))
      | inr later ↦ rw other (ap (λ ks. k ∷ ks) (keys-put_at_known key new rest later))
    ]
  ]

  pub keys-put_at_new :
      (key : Bytes) (new : A) (l : List (Bytes × A))
      → (¬ Member key (keys l))
      → keys (put_at key new l) ≡ keys l ++ key ∷ []
  keys-put_at_new key new [] m = refl
  keys-put_at_new key new ((k, a) ∷ rest) m = elim (Bool-cases (equal_bytes k key)) [
    | inl same ↦ absurd (m (inl (sym ((equal_bytes_iff k key).0 same))))
    | inr other ↦
        rw other (ap (λ ks. k ∷ ks) (keys-put_at_new key new rest (λ later. m (inr later))))
  ]

  pub at-put_at :
      (missing : A) (key : Bytes) (new : A) (l : List (Bytes × A))
      → at missing key (put_at key new l) ≡ new
  at-put_at missing key new [] = rw ((equal_bytes_iff key key).1 refl) refl
  at-put_at missing key new ((k, a) ∷ rest) = elim (Bool-cases (equal_bytes k key)) [
    | inl same ↦ rw (same, same) refl
    | inr other ↦ rw (other, other) (at-put_at missing key new rest)
  ]

  pub at-put_at_any :
      (missing : A) (key p : Bytes) (new : A) (l : List (Bytes × A))
      → at missing p (put_at key new l) ≡ (if equal_bytes key p then new else at missing p l)
  at-put_at_any missing key p new [] = refl
  at-put_at_any missing key p new ((k, a) ∷ rest) = elim (Bool-cases (equal_bytes k key)) [
    | inl same ↦
        let e = (equal_bytes_iff k key).0 same in
        rw same (elim (Bool-cases (equal_bytes key p)) [
          | inl here ↦ rw (ap (λ k. equal_bytes k p) e ∙ here, here) refl
          | inr there ↦ rw (ap (λ k. equal_bytes k p) e ∙ there, there) refl
        ])
    | inr other ↦
        rw (other, at-put_at_any missing key p new rest)
          (elim (Bool-cases (equal_bytes k p)) [
            | inl here ↦ elim (Bool-cases (equal_bytes key p)) [
              | inl both ↦ absurd (
                  true≢false (
                    sym (
                      (equal_bytes_iff k key).1
                        ((equal_bytes_iff k p).0 here ∙ sym ((equal_bytes_iff key p).0 both)))
                    ∙ other))
              | inr not_key ↦ rw (here, not_key) refl
            ]
            | inr there ↦ rw there refl
          ])
  ]

pub All-map {ℓ κ} :
    {A : Type ℓ} {P Q : A → Type κ} (xs : List A) → ((x : A) → P x → Q x) → All P xs → All Q xs
All-map [] f h = tt
All-map (x ∷ xs) f h = (f x h.0, All-map xs f h.1)

pub ClosedIn-more :
    (ps qs : List Bytes) (nodes : Nodes)
    → ((p : Bytes) → Member p ps → Member p qs)
    → ClosedIn ps nodes
    → ClosedIn qs nodes
ClosedIn-more ps qs nodes more h = All-map nodes (λ n. All-map n.1.children (λ c. more c.1)) h

pub ChildrenIn-rows_of :
    (ps : List Bytes) (prefix : Bytes) (nodes : Nodes)
    → ClosedIn ps nodes
    → ChildrenIn ps (rows_of prefix nodes).children
ChildrenIn-rows_of ps prefix nodes h =
    at-All (λ _ rows. ChildrenIn ps rows.children) no_rows prefix nodes h tt

pub set_child-ChildrenIn :
    (ps : List Bytes) (name : String) (prefix : Bytes) (children : List (String × Bytes))
    → Member prefix ps
    → ChildrenIn ps children
    → ChildrenIn ps (set_child name prefix children)
set_child-ChildrenIn ps name prefix [] m h = (m, tt)
set_child-ChildrenIn ps name prefix ((n, p) ∷ rest) m h = elim (Bool-cases (str_eq n name)) [
  | inl same ↦ rw same (m, h.1)
  | inr other ↦ rw other (h.0, set_child-ChildrenIn ps name prefix rest m h.1)
]

pub Member-append : (p : Bytes) (ps qs : List Bytes) → Member p ps → Member p (ps ++ qs)
Member-append p [] qs m = absurd m
Member-append p (x ∷ xs) qs (inl e) = inl e
Member-append p (x ∷ xs) qs (inr m) = inr (Member-append p xs qs m)

pub Member-last : (p : Bytes) (ps : List Bytes) → Member p (ps ++ p ∷ [])
Member-last p [] = inl refl
Member-last p (x ∷ xs) = inr (Member-last p xs)

pub PrefixFree-append :
    (ps : List Bytes) (p : Bytes) → PrefixFree ps → All (Apart p) ps → PrefixFree (ps ++ p ∷ [])
PrefixFree-append [] p f h = (tt, tt)
PrefixFree-append (x ∷ xs) p (apart, f) ((a, b), h) =
    (All-append (Apart x) xs (p ∷ []) apart ((b, a), tt), PrefixFree-append xs p f h)
