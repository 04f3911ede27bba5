-- ===== src/Directory/MoveWrites.antt =====
-- The writes of `moveInternal`, on nodes that are well-formed.
use Prim.Native.String.{String}
use text.Mathlib.Text.{◌==◌ as str_eq}
use foundationdb_effect.Prelude.{
  ◌≡◌, inl, inr, refl, sym, ap, subst, arith, Option, none, some, List, [], ◌∷◌, Bool-cases,
  some-injective,
}
use foundationdb_effect.Bytes.{Bytes}
use foundationdb_effect.Directory.{find_node}
use foundationdb_effect.Directory.State.{DirectoryPath, DirectoryLayer, Nodes, rows_of, Node}
use foundationdb_effect.Directory.Free.{keys, Member}
use foundationdb_effect.Directory.Consistent.{
  ChildrenIn, WellFormed, ChildrenIn-rows_of, set_child-ChildrenIn,
}
use foundationdb_effect.Directory.Create.{last_component, parent_path}
use foundationdb_effect.Directory.Decisions.{find_node-Member}
use foundationdb_effect.Directory.Writes.{put_known-WellFormed}
use foundationdb_effect.Directory.Move.{clear_child, unlink, remove_from_parent, relink}

clear_child-ChildrenIn :
    (ps : List Bytes) (name : String) (children : List (String × Bytes))
    → ChildrenIn ps children
    → ChildrenIn ps (clear_child name children)
clear_child-ChildrenIn ps name [] h = tt
clear_child-ChildrenIn ps name ((n, p) ∷ rest) h = elim (Bool-cases (str_eq n name)) [
  | inl same ↦ rw same (clear_child-ChildrenIn ps name rest h.1)
  | inr other ↦ rw other (h.0, clear_child-ChildrenIn ps name rest h.1)
]

-- A node found is a node, where the root is one.
found-Member :
    (layer : DirectoryLayer) (path : DirectoryPath) (nodes : Nodes) (node : Node)
    → WellFormed layer.node_prefix nodes
    → Member layer.node_prefix (keys nodes)
    → find_node layer path nodes ≡ some node
    → Member node.prefix (keys nodes)
unfolding find_node
found-Member layer [] nodes node w root found =
    subst (λ p. Member p (keys nodes)) (ap (λ n. n.prefix) (some-injective found)) root
found-Member layer (c ∷ cs) nodes node w root found =
    (find_node-Member layer (c ∷ cs) nodes node w.closed (ground arith) found).0

unlink-WellFormed :
    (layer : DirectoryLayer) (path : DirectoryPath) (name : String) (nodes : Nodes)
    (parent : Option Node)
    → find_node layer path nodes ≡ parent
    → Member layer.node_prefix (keys nodes)
    → WellFormed layer.node_prefix nodes
    → WellFormed layer.node_prefix (unlink name parent nodes)
unlink-WellFormed layer path name nodes none found root w = w
unlink-WellFormed layer path name nodes (some parent) found root w =
    (put_known-WellFormed layer.node_prefix parent.prefix _ nodes
      (found-Member layer path nodes parent w root found)
      (clear_child-ChildrenIn (keys nodes) name (rows_of parent.prefix nodes).children
        (ChildrenIn-rows_of (keys nodes) parent.prefix nodes w.closed))
      w).0

remove_from_parent-WellFormed :
    (layer : DirectoryLayer) (path : DirectoryPath) (nodes : Nodes) (name : Option String)
    → Member layer.node_prefix (keys nodes)
    → WellFormed layer.node_prefix nodes
    → WellFormed layer.node_prefix (remove_from_parent layer path nodes name)
remove_from_parent-WellFormed layer path nodes none root w = w
remove_from_parent-WellFormed layer path nodes (some name) root w =
    unlink-WellFormed layer (parent_path path) name nodes _ refl root w

pub relink-WellFormed :
    (layer : DirectoryLayer) (old_path path : DirectoryPath) (old parent : Node) (name : String)
    (nodes : Nodes)
    → find_node layer old_path nodes ≡ some old
    → find_node layer path nodes ≡ some parent
    → Member layer.node_prefix (keys nodes)
    → WellFormed layer.node_prefix nodes
    → WellFormed layer.node_prefix (relink layer old_path old parent name nodes)
relink-WellFormed layer old_path path old parent name nodes found found' root w =
    let (linked, same) =
      put_known-WellFormed layer.node_prefix parent.prefix _ nodes
        (found-Member layer path nodes parent w root found')
        (set_child-ChildrenIn (keys nodes) name old.prefix (rows_of parent.prefix nodes).children
          (found-Member layer old_path nodes old w root found)
          (ChildrenIn-rows_of (keys nodes) parent.prefix nodes w.closed))
        w in
    remove_from_parent-WellFormed layer old_path _ (last_component old_path)
      (subst (λ ks. Member layer.node_prefix ks) (sym same) root) linked
