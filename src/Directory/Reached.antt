-- ===== src/Directory/Reached.antt =====
-- The nodes that `findNode` reaches, and their parents.
use Prim.Native.String.{String}
use foundationdb_effect.Prelude.{
  ◌+◌, ◌≤◌, ◌≡◌, ◌⊎◌, inl, inr, sym, ap, ◌∙◌, false, none, some, [], ◌∷◌, ◌==◌, length, arith,
  Bool-cases, Option-cases, if◌then◌else◌, none≢some, some-injective,
}
use foundationdb_effect.Bytes.{Bytes, equal_bytes}
use foundationdb_effect.Directory.{find_loop, find_node, make_node, load_layer}
use foundationdb_effect.Directory.State.{
  DirectoryPath, DirectoryLayer, Nodes, Node, rows_of, child_of, partition_layer, is_in_partition,
}
use foundationdb_effect.Directory.Create.{last_component, parent_path}
use foundationdb_effect.Directory.Links.{last_link, last_unlinked, Extends, find_loop-Extends}

-- The layer that `findNode` starts with.
abbrev start_layer : DirectoryLayer → DirectoryPath → Nodes → Bytes
start_layer layer path nodes = if length path == 0 then load_layer layer.node_prefix nodes else []

found_of_find_node :
    (layer : DirectoryLayer) (path : DirectoryPath) (nodes : Nodes) (node : Node)
    → find_node layer path nodes ≡ some node
    → (find_loop nodes layer.node_prefix [] (start_layer layer path nodes) path
        ≡ some (node.prefix, node.current_path, node.layer))
      × (node.target_path ≡ path)
unfolding find_node
found_of_find_node layer path nodes node e =
    elim (Option-cases (find_loop nodes layer.node_prefix [] (start_layer layer path nodes) path)) [
      | inl nothing ↦ absurd (none≢some (sym (ap (make_node path) nothing) ∙ e))
      | inr ((q, found, l), there) ↦
          let same = some-injective (sym (ap (make_node path) there) ∙ e) in
          (
            there ∙ ap (λ n. some (n.prefix, n.current_path, n.layer)) same,
            sym (ap (λ n. n.target_path) same),
          )
    ]

missing_of_find_node :
    (layer : DirectoryLayer) (path : DirectoryPath) (nodes : Nodes)
    → find_node layer path nodes ≡ none
    → find_loop nodes layer.node_prefix [] (start_layer layer path nodes) path ≡ none
unfolding find_node
missing_of_find_node layer path nodes e =
    elim (Option-cases (find_loop nodes layer.node_prefix [] (start_layer layer path nodes) path)) [
      | inl nothing ↦ nothing
      | inr (r, there) ↦ absurd (none≢some (sym e ∙ ap (make_node path) there))
    ]

-- The layer to start with does not matter for the node found.
other_start :
    (nodes : Nodes) (prefix : Bytes) (current : DirectoryPath) (layer layer' : Bytes)
    (path : DirectoryPath) (q : Bytes) (found : DirectoryPath) (l : Bytes)
    → find_loop nodes prefix current layer path ≡ some (q, found, l)
    → (l' : Bytes) × (find_loop nodes prefix current layer' path ≡ some (q, found, l'))
other_start nodes prefix current layer layer' [] q found l e =
    (layer', ap (λ x. some (x.0, x.1, layer')) (some-injective e))
other_start nodes prefix current layer layer' (c ∷ cs) q found l e = (l, e)

-- A node found outside of partitions has a parent, which has it under the last component.
pub parent_link :
    (layer : DirectoryLayer) (path : DirectoryPath) (nodes : Nodes) (node : Node) (name : String)
    → find_node layer path nodes ≡ some node
    → is_in_partition node false ≡ false
    → last_component path ≡ some name
    → (parent : Node) × (find_node layer (parent_path path) nodes ≡ some parent)
      × (child_of name (rows_of parent.prefix nodes).children ≡ some node.prefix)
unfolding find_node
parent_link layer path nodes node name e outside last =
    let (there, target) = found_of_find_node layer path nodes node e in
    let whole : (equal_bytes node.layer partition_layer ≡ false)
        ⊎ (0 + length path ≤ length node.current_path) =
      elim (Bool-cases (equal_bytes node.layer partition_layer)) [
        | inl part ↦ inr (grind (arith, ap (λ p. length p) target))
        | inr plain ↦ inl plain
      ] in
    let (p, f, k, above, link) =
      last_link nodes layer.node_prefix [] (start_layer layer path nodes) path name node.prefix
        node.current_path node.layer last there whole in
    let (k', above') =
      other_start nodes layer.node_prefix [] _ (start_layer layer (parent_path path) nodes)
        (parent_path path) p f k above in
    (
      record { prefix = p; current_path = f; target_path = parent_path path; layer = k' },
      ap (make_node (parent_path path)) above',
      link,
    )

-- A parent found has no entry for a path that is not.
pub parent_unlinked :
    (layer : DirectoryLayer) (path : DirectoryPath) (nodes : Nodes) (parent : Node) (name : String)
    → find_node layer path nodes ≡ none
    → find_node layer (parent_path path) nodes ≡ some parent
    → last_component path ≡ some name
    → child_of name (rows_of parent.prefix nodes).children ≡ none
parent_unlinked layer path nodes parent name e above last =
    let (there, _) = found_of_find_node layer (parent_path path) nodes parent above in
    let (k, there') =
      other_start nodes layer.node_prefix [] _ (start_layer layer path nodes) (parent_path path)
        parent.prefix parent.current_path parent.layer there in
    last_unlinked nodes layer.node_prefix [] (start_layer layer path nodes) path name parent.prefix
      parent.current_path k last (missing_of_find_node layer path nodes e) there'

pub find_node-Extends :
    (layer : DirectoryLayer) (path : DirectoryPath) (nodes more : Nodes) (node : Node)
    → Extends nodes more
    → find_node layer path nodes ≡ some node
    → find_node layer path more ≡ some node
unfolding find_node
find_node-Extends layer path nodes more node x e =
    let (there, target) = found_of_find_node layer path nodes node e in
    let start : start_layer layer path more ≡ start_layer layer path nodes =
      ap (λ l. if length path == 0 then l else []) (x.layers layer.node_prefix) in
    ap (λ l. make_node path (find_loop more layer.node_prefix [] l path)) start
    ∙ ap (make_node path) (
        find_loop-Extends nodes more layer.node_prefix [] (start_layer layer path nodes) path _ x
          there)
    ∙ ap (λ t. some (record node { target_path = t })) (sym target)
