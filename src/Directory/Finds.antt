-- ===== src/Directory/Finds.antt =====
-- `nodeContainingKey` and `isPrefixFree` on nodes of which no prefix begins with another.
use foundationdb_effect.Prelude.{
  ◌≡◌, inl, inr, ◌↔◌, refl, sym, ◌∙◌, subst, Bool, true, false, ◌&&◌, ◌||◌, not, Option, none, some,
  List, [], ◌∷◌, ◌==◌, arith, Bool-cases, Option-cases, if_true, if_false, if◌then◌else◌, All,
  true≢false, none≢some, some-injective, length,
}
use foundationdb_effect.Prelude.Result.{ok, ok-injective}
use foundationdb_effect.Bytes.{Bytes, IsBytes, compare_bytes, starts_with, increment_prefix}
use foundationdb_effect.Bytes.Order.{LexLt}
use foundationdb_effect.Bytes.Prefix.{
  HasPrefix, HasPrefix-of_starts_with, starts_with_of_HasPrefix, increment_prefix-InRange,
}
use foundationdb_effect.Directory.{
  at_most, previous_node, node_containing_key, node_between, range_free, is_prefix_free,
}
use foundationdb_effect.Directory.State.{DirectoryLayer, Nodes}
use foundationdb_effect.Directory.Free.{
  keys, Member, Apart, PrefixFree, Le, between-HasPrefix, HasPrefix-Le, Member-HasPrefix,
  previous_node-Member, previous_node-Le, at_most-Le, above, Le-not, Le-of_not,
}

module _ (layer : DirectoryLayer) (key : Bytes) (nodes : Nodes) where
  contains_found :
      (g q : Bytes)
      → previous_node key nodes ≡ some g
      → starts_with key layer.node_prefix ≡ false
      → node_containing_key layer key nodes ≡ (if starts_with key g then some g else none)
  unfolding node_containing_key
  contains_found g q e outside = rw (outside, e, node_containing_key) refl

  contains_none :
      previous_node key nodes ≡ none
      → starts_with key layer.node_prefix ≡ false
      → node_containing_key layer key nodes ≡ none
  unfolding node_containing_key
  contains_none e outside = rw (outside, e, node_containing_key) refl

  containing_sound :
      (q : Bytes)
      → starts_with key layer.node_prefix ≡ false
      → node_containing_key layer key nodes ≡ some q
      → Member q (keys nodes) × HasPrefix key q
  containing_sound q outside found = elim (Option-cases (previous_node key nodes)) [
    | inl e ↦ absurd (none≢some (sym (contains_none e outside) ∙ found))
    | inr (g, e) ↦
        let found' = sym (contains_found g q e outside) ∙ found in
        elim (Bool-cases (starts_with key g)) [
          | inl begins ↦
              let same = some-injective (if_true _ _ begins found') in
              (
                subst (λ q. Member q (keys nodes)) same (previous_node-Member key nodes g e).0,
                subst (λ q. HasPrefix key q) same (HasPrefix-of_starts_with key g begins),
              )
          | inr other ↦ absurd (none≢some (if_false _ _ other found'))
        ]
  ]

  containing_complete :
      (q : Bytes)
      → PrefixFree (keys nodes)
      → starts_with key layer.node_prefix ≡ false
      → Member q (keys nodes)
      → HasPrefix key q
      → node_containing_key layer key nodes ≡ some q
  containing_complete q free outside member begins =
      let (g, e, le) = previous_node-Le key nodes q member (HasPrefix-Le key q begins) in
      let (member', le') = previous_node-Member key nodes g e in
      let same =
        Member-HasPrefix (keys nodes) g q free member' member
          (between-HasPrefix key q g begins le le') in
      let e' = subst (λ g. previous_node key nodes ≡ some g) same e in
      contains_found q q e' outside ∙ rw (starts_with_of_HasPrefix key q begins) refl

-- Among nodes of which no prefix begins with another, `nodeContainingKey` of a key outside the rows of
-- the nodes finds exactly the node whose prefix the key begins with, where there is one.
pub node_containing_key_iff :
    (layer : DirectoryLayer) (key : Bytes) (nodes : Nodes)
    → PrefixFree (keys nodes)
    → starts_with key layer.node_prefix ≡ false
    → (q : Bytes)
    → (node_containing_key layer key nodes ≡ some q) ↔ (Member q (keys nodes) × HasPrefix key q)
node_containing_key_iff layer key nodes free outside q = (
  containing_sound layer key nodes q outside,
  λ m. containing_complete layer key nodes q free outside m.0 m.1,
)

between_here :
    (begin end p : Bytes) (rest : Bool)
    → ((at_most (compare_bytes begin p) && not (at_most (compare_bytes end p))) || rest) ≡ false
    → Le begin p
    → LexLt p end
    → ⊥
between_here begin end p rest e low high = elim (Bool-cases (at_most (compare_bytes begin p))) [
  | inr after ↦ Le-not begin p low (above begin p after)
  | inl l ↦ elim (Bool-cases (at_most (compare_bytes end p))) [
    | inl past ↦ Le-not end p (at_most-Le end p past) high
    | inr h ↦ true≢false (grind arith)
  ]
]

node_between-Member :
    (begin end : Bytes) (nodes : Nodes) (q : Bytes)
    → node_between begin end nodes ≡ false
    → Member q (keys nodes)
    → Le begin q
    → LexLt q end
    → ⊥
node_between-Member begin end [] q e m low high = m
node_between-Member begin end ((p, _) ∷ rest) q e (inl same) low high =
    between_here begin end p (node_between begin end rest) e (subst (λ q. Le begin q) same low)
      (subst (λ q. LexLt q end) same high)
node_between-Member begin end ((p, _) ∷ rest) q e (inr m) low high =
    node_between-Member begin end rest q (grind arith) m low high

not-true : (b : Bool) → not b ≡ true → b ≡ false
not-true true e = sym e
not-true false e = refl

range_free-eq-true :
    (prefix : Bytes) (nodes : Nodes) (next : Option Bytes)
    → range_free prefix nodes next ≡ ok true
    → (end : Bytes) × (next ≡ some end) × (node_between prefix end nodes ≡ false)
range_free-eq-true prefix nodes none e = cc
range_free-eq-true prefix nodes (some end) e = (end, refl, not-true _ (ok-injective e))

is_prefix_free_parts :
    (layer : DirectoryLayer) (prefix : Bytes) (nodes : Nodes)
    → is_prefix_free layer prefix nodes ≡ ok true
    → (node_containing_key layer prefix nodes ≡ none)
      × (range_free prefix nodes (increment_prefix prefix) ≡ ok true)
unfolding is_prefix_free
is_prefix_free_parts layer prefix nodes e = elim (Bool-cases (length prefix == 0)) [
  | inl empty ↦ absurd (true≢false (sym (ok-injective (if_true _ _ empty e))))
  | inr room ↦ elim (Option-cases (node_containing_key layer prefix nodes)) [
    | inl nothing ↦ (nothing, rw nothing at (if_false _ _ room e))
    | inr (q, found) ↦ absurd (true≢false (sym (ok-injective (rw found at (if_false _ _ room e)))))
  ]
]

contains_root :
    (layer : DirectoryLayer) (key : Bytes) (nodes : Nodes)
    → starts_with key layer.node_prefix ≡ true
    → node_containing_key layer key nodes ≡ some layer.node_prefix
unfolding node_containing_key
contains_root layer key nodes inside = rw (inside, node_containing_key) refl

pub All-of_Member :
    (P : Bytes → Type 0) (ps : List Bytes) → ((p : Bytes) → Member p ps → P p) → All P ps
All-of_Member P [] h = tt
All-of_Member P (p ∷ ps) h = (h p (inl refl), All-of_Member P ps (λ q m. h q (inr m)))

-- A prefix that `isPrefixFree` accepts begins with no prefix of a node, and no prefix of a node begins
-- with it.
pub is_prefix_free-Apart :
    (layer : DirectoryLayer) (prefix : Bytes) (nodes : Nodes)
    → IsBytes prefix
    → PrefixFree (keys nodes)
    → is_prefix_free layer prefix nodes ≡ ok true
    → All (Apart prefix) (keys nodes)
is_prefix_free-Apart layer prefix nodes bytes free e =
    let (nothing, room) = is_prefix_free_parts layer prefix nodes e in
    let (end, next, between) = range_free-eq-true prefix nodes (increment_prefix prefix) room in
    let outside : starts_with prefix layer.node_prefix ≡ false =
      elim (Bool-cases (starts_with prefix layer.node_prefix)) [
        | inl inside ↦ absurd (none≢some (sym nothing ∙ contains_root layer prefix nodes inside))
        | inr out ↦ out
      ] in
    All-of_Member (Apart prefix) (keys nodes) (λ q member. (
      λ h.
          none≢some (
            sym nothing
            ∙ (node_containing_key_iff layer prefix nodes free outside q).1 (member, h)),
      λ h.
          let (low, high) = increment_prefix-InRange q prefix end bytes next h in
          node_between-Member prefix end nodes q between member (Le-of_not prefix q low) high,
    ))
