-- ===== src/Directory/Writes.antt =====
-- The writes of `checkVersion` and of `createInternal`, on nodes that are well-formed.
use Prim.Native.String.{String}
use foundationdb_effect.Prelude.{
  ◌≡◌, ◌⊎◌, inl, inr, refl, sym, ap, ◌∙◌, subst, some, List, [], ◌∷◌, ◌++◌, append-nil, All,
  All-append,
}
use foundationdb_effect.Bytes.{Bytes, IsBytes}
use foundationdb_effect.Bytes.Prefix.{HasPrefix, HasPrefix-append}
use foundationdb_effect.Directory.{set_version}
use foundationdb_effect.Directory.State.{
  NodeRows, Nodes, put_at, rows_of, set_child, directory_version,
}
use foundationdb_effect.Directory.Free.{keys, Member, Apart, PrefixFree, All-Member}
use foundationdb_effect.Directory.Consistent.{
  ChildrenIn, ClosedIn, WellFormed, put_at-All, keys-put_at_known, keys-put_at_new,
  ChildrenIn-rows_of, ClosedIn-more, set_child-ChildrenIn, Member-append, Member-last,
  PrefixFree-append,
}

-- Rows written at a node, with children among the nodes.
pub put_known-WellFormed :
    (root prefix : Bytes) (rows : NodeRows) (nodes : Nodes)
    → Member prefix (keys nodes)
    → ChildrenIn (keys nodes) rows.children
    → WellFormed root nodes
    → WellFormed root (put_at prefix rows nodes) × (keys (put_at prefix rows nodes) ≡ keys nodes)
put_known-WellFormed root prefix rows nodes member children w =
    let same = keys-put_at_known prefix rows nodes member in
    (
      record {
        apart = subst (λ ks. PrefixFree ks) (sym same) w.apart;
        of_bytes = subst (λ ks. All IsBytes ks) (sym same) w.of_bytes;
        rooted = subst (λ ks. (ks ≡ []) ⊎ Member root ks) (sym same) w.rooted;
        closed =
            subst (λ ks. ClosedIn ks (put_at prefix rows nodes)) (sym same)
              (put_at-All (λ _ rows. ChildrenIn (keys nodes) rows.children) prefix rows nodes
                w.closed children);
      },
      same,
    )

-- Rows written at the root, which becomes the first node where there is none.
put_root-WellFormed :
    (root : Bytes) (rows : NodeRows) (nodes : Nodes)
    → IsBytes root
    → ChildrenIn (keys nodes) rows.children
    → WellFormed root nodes
    → WellFormed root (put_at root rows nodes)
put_root-WellFormed root rows nodes b children w = elim w.rooted [
  | inl empty ↦ first root rows nodes b empty children w.closed
  | inr member ↦ (put_known-WellFormed root root rows nodes member children w).0
]
  where
    first :
        (root : Bytes) (rows : NodeRows) (nodes : Nodes)
        → IsBytes root
        → keys nodes ≡ []
        → ChildrenIn (keys nodes) rows.children
        → ClosedIn (keys nodes) nodes
        → WellFormed root (put_at root rows nodes)
    first root rows [] b empty children closed = record {
      apart = (tt, tt);
      of_bytes = (b, tt);
      rooted = inr (inl refl);
      closed = ClosedIn-more [] (root ∷ []) ((root, rows) ∷ []) (λ p m. absurd m) (children, tt);
    }
    first root rows ((k, a) ∷ rest) b empty children closed = cc

pub set_version-WellFormed :
    (root : Bytes) (nodes : Nodes)
    → IsBytes root
    → WellFormed root nodes
    → WellFormed root (set_version root nodes)
set_version-WellFormed root nodes b w =
    put_root-WellFormed root (record (rows_of root nodes) { version = some directory_version })
      nodes b (ChildrenIn-rows_of (keys nodes) root nodes w.closed) w

HasPrefix-refl : (p : Bytes) → HasPrefix p p
HasPrefix-refl p = subst (λ q. HasPrefix q p) (append-nil p) (HasPrefix-append p [])

root_of :
    (root parent : Bytes) (ps : List Bytes)
    → (ps ≡ []) ⊎ Member root ps
    → Member parent ps
    → Member root ps
root_of root parent ps (inl empty) m = absurd (subst (λ ps. Member parent ps) empty m)
root_of root parent ps (inr there) m = there

-- The rows of a parent with one child more.
abbrev link : Bytes → String → Bytes → Nodes → Nodes
link parent name prefix nodes =
    let rows = rows_of parent nodes in
    put_at parent (record rows { children = set_child name prefix rows.children }) nodes

link-ClosedIn :
    (parent prefix : Bytes) (name : String) (nodes : Nodes)
    → ClosedIn (keys nodes) nodes
    → ClosedIn (keys nodes ++ prefix ∷ []) (link parent name prefix nodes)
link-ClosedIn parent prefix name nodes closed =
    let ps = keys nodes ++ prefix ∷ [] in
    let closed' =
      ClosedIn-more (keys nodes) ps nodes (λ p m. Member-append p (keys nodes) (prefix ∷ []) m)
        closed in
    put_at-All (λ _ rows. ChildrenIn ps rows.children) parent _ nodes closed'
      (set_child-ChildrenIn ps name prefix (rows_of parent nodes).children
        (Member-last prefix (keys nodes)) (ChildrenIn-rows_of ps parent nodes closed'))

-- A new node below one of the nodes.
pub add_node-WellFormed :
    (root parent prefix layer : Bytes) (name : String) (nodes : Nodes)
    → IsBytes prefix
    → All (Apart prefix) (keys nodes)
    → Member parent (keys nodes)
    → WellFormed root nodes
    → let linked = link parent name prefix nodes in
      let added = put_at prefix (record (rows_of prefix linked) { layer = some layer }) linked in
      WellFormed root added × Member prefix (keys added)
add_node-WellFormed root parent prefix layer name nodes b apart member w =
    let linked = link parent name prefix nodes in
    let rows = record (rows_of prefix linked) { layer = some layer } in
    let same : keys linked ≡ keys nodes = keys-put_at_known parent _ nodes member in
    let absent : (¬ Member prefix (keys linked)) = λ m.
      (All-Member (Apart prefix) (keys nodes) prefix apart
          (subst (λ ks. Member prefix ks) same m)).0
        (HasPrefix-refl prefix) in
    let ks : keys (put_at prefix rows linked) ≡ keys nodes ++ prefix ∷ [] =
      keys-put_at_new prefix rows linked absent ∙ ap (λ ks. ks ++ prefix ∷ []) same in
    let closed = link-ClosedIn parent prefix name nodes w.closed in
    (
      record {
        apart =
            subst (λ ks. PrefixFree ks) (sym ks)
              (PrefixFree-append (keys nodes) prefix w.apart apart);
        of_bytes =
            subst (λ ks. All IsBytes ks) (sym ks)
              (All-append IsBytes (keys nodes) (prefix ∷ []) w.of_bytes (b, tt));
        rooted = inr (
            subst (λ ks. Member root ks) (sym ks)
              (Member-append root (keys nodes) (prefix ∷ [])
                (root_of root parent (keys nodes) w.rooted member)));
        closed =
            subst (λ ks. ClosedIn ks (put_at prefix rows linked)) (sym ks)
              (put_at-All (λ _ rows. ChildrenIn (keys nodes ++ prefix ∷ []) rows.children) prefix
                rows linked closed
                (ChildrenIn-rows_of (keys nodes ++ prefix ∷ []) prefix linked closed));
      },
      subst (λ ks. Member prefix ks) (sym ks) (Member-last prefix (keys nodes)),
    )
