-- ===== src/Directory/Parents.antt =====
-- The way to the parent of a path that is not found.
use Prim.Native.String.{String}
use foundationdb_effect.Prelude.{
  suc, ◌<◌, ◌≡◌, ◌⊎◌, inl, inr, refl, sym, ap, ◌∙◌, subst, arith, true, false, Option, none, some,
  [], ◌∷◌, ◌++◌, ◌==◌, length, length-append, Bool-cases, Option-cases, if_true, if_false,
  none≢some, some-injective, if◌then◌else◌,
}
use foundationdb_effect.Bytes.{Bytes, equal_bytes}
use foundationdb_effect.Bytes.Order.{equal_bytes_iff}
use foundationdb_effect.Directory.{
  find_loop, make_node, find_node, load_layer, or_empty, set_version,
}
use foundationdb_effect.Directory.State.{
  DirectoryPath, DirectoryLayer, no_rows, directory_version, Nodes, rows_of, child_of,
  partition_layer, Node, is_in_partition,
}
use foundationdb_effect.Directory.Consistent.{at-put_at_any}
use foundationdb_effect.Directory.Decisions.{partition_stays, find_loop_absent, find_loop_present}
use foundationdb_effect.Directory.Create.{last_component, parent_path}
use foundationdb_effect.Directory.Opens.{Outside}

-- A version that is written changes no path.
at-set_version :
    (root p : Bytes) (nodes : Nodes)
    → ((rows_of p (set_version root nodes)).children ≡ (rows_of p nodes).children)
      × ((rows_of p (set_version root nodes)).layer ≡ (rows_of p nodes).layer)
at-set_version root p nodes =
    let written =
      at-put_at_any no_rows root p
        (record (rows_of root nodes) { version = some directory_version }) nodes in
    elim (Bool-cases (equal_bytes root p)) [
      | inl same ↦
          let here = ap (λ q. rows_of q nodes) ((equal_bytes_iff root p).0 same) in
          let there = sym (if_true _ _ same (sym written)) in
          (
            ap (λ r. r.children) there ∙ ap (λ r. r.children) here,
            ap (λ r. r.layer) there ∙ ap (λ r. r.layer) here,
          )
      | inr other ↦
          let there = sym (if_false _ _ other (sym written)) in
          (ap (λ r. r.children) there, ap (λ r. r.layer) there)
    ]

find_loop-set_version :
    (root : Bytes) (nodes : Nodes) (prefix : Bytes) (current : DirectoryPath) (layer : Bytes)
    (path : DirectoryPath)
    → find_loop (set_version root nodes) prefix current layer path
      ≡ find_loop nodes prefix current layer path
find_loop-set_version root nodes prefix current layer [] = refl
find_loop-set_version root nodes prefix current layer (c ∷ cs) =
    let after = set_version root nodes in
    let children = ap (child_of c) (at-set_version root prefix nodes).0 in
    elim (Option-cases (child_of c (rows_of prefix nodes).children)) [
      | inl absent ↦
          find_loop_absent after prefix current layer c cs (children ∙ absent)
          ∙ sym (find_loop_absent nodes prefix current layer c cs absent)
      | inr (child, there) ↦
          let loaded : load_layer child after ≡ load_layer child nodes =
            ap or_empty (at-set_version root child nodes).1 in
          find_loop_present after prefix current layer c cs child (children ∙ there)
          ∙ ap
              (λ l.
                if equal_bytes l partition_layer
                then some (child, current ++ c ∷ [], l)
                else find_loop after child (current ++ c ∷ []) l cs)
              loaded
          ∙ ap
              (λ later.
                if equal_bytes (load_layer child nodes) partition_layer
                then some (child, current ++ c ∷ [], load_layer child nodes)
                else later)
              (find_loop-set_version root nodes child (current ++ c ∷ []) (load_layer child nodes)
                cs)
          ∙ sym (find_loop_present nodes prefix current layer c cs child there)
    ]

pub last_component_lem :
    (path : DirectoryPath) (name : String)
    → last_component path ≡ some name
    → path ≡ parent_path path ++ name ∷ []
last_component_lem [] name e = absurd (none≢some e)
last_component_lem (c ∷ []) name e = ap (λ n. n ∷ []) (some-injective e)
last_component_lem (p ∷ c ∷ cs) name e = ap (λ q. p ∷ q) (last_component_lem (c ∷ cs) name e)

find_node-loop :
    (layer : DirectoryLayer) (path : DirectoryPath) (nodes : Nodes)
    → (length path == 0) ≡ false
    → find_node layer path nodes ≡ make_node path (find_loop nodes layer.node_prefix [] [] path)
unfolding find_node
find_node-loop layer path nodes full = rw full refl

make_node-some :
    (path : DirectoryPath) (found : Option (Bytes × DirectoryPath × Bytes)) (node : Node)
    → make_node path found ≡ some node
    → found ≡ some (node.prefix, node.current_path, node.layer)
make_node-some path none node e = absurd (none≢some e)
make_node-some path (some (prefix, current, layer)) node e =
    ap (λ n. some (n.prefix, n.current_path, n.layer)) (some-injective e)

make_node-target :
    (path : DirectoryPath) (found : Option (Bytes × DirectoryPath × Bytes)) (node : Node)
    → make_node path found ≡ some node
    → path ≡ node.target_path
make_node-target path none node e = absurd (none≢some e)
make_node-target path (some _) node e = ap (λ n. n.target_path) (some-injective e)

-- Where a path is not found, no partition is on the way to its parent.
pub parent-Outside :
    (layer : DirectoryLayer) (path parent : DirectoryPath) (name : String) (nodes : Nodes)
    → path ≡ parent ++ name ∷ []
    → (length path == 0) ≡ false
    → (length parent == 0) ≡ false
    → find_node layer path nodes ≡ none
    → Outside layer parent nodes
parent-Outside layer path parent name nodes split full full' nothing node found =
    elim (Bool-cases (is_in_partition node false)) [
      | inr outside ↦ outside
      | inl inside ↦
          let found' = sym (find_node-loop layer parent nodes full') ∙ found in
          let loop =
            make_node-some parent (find_loop nodes layer.node_prefix [] [] parent) node found' in
          let target =
            make_node-target parent (find_loop nodes layer.node_prefix [] [] parent) node found' in
          let part : equal_bytes node.layer partition_layer ≡ true = grind arith in
          let less : length node.current_path < length node.target_path = grind arith in
          let shorter = ap (λ p. length p) target in
          let (r, there) =
            partition_stays nodes layer.node_prefix [] [] parent (name ∷ []) node.prefix
              node.current_path node.layer loop part (omega (arith, less, shorter)) in
          let nothing' = sym (find_node-loop layer path nodes full) ∙ nothing in
          let there' =
            subst (λ p. find_loop nodes layer.node_prefix [] [] p ≡ some r) (sym split) there in
          absurd (none≢some (sym nothing' ∙ ap (make_node path) there'))
    ]

pub Outside-set_version :
    (layer : DirectoryLayer) (path : DirectoryPath) (nodes nodes' : Nodes)
    → (length path == 0) ≡ false
    → (nodes' ≡ nodes) ⊎ (nodes' ≡ set_version layer.node_prefix nodes)
    → Outside layer path nodes
    → Outside layer path nodes'
Outside-set_version layer path nodes nodes' full (inl same) h =
    subst (λ ns. Outside layer path ns) (sym same) h
Outside-set_version layer path nodes nodes' full (inr same) h =
    subst (λ ns. Outside layer path ns) (sym same)
      (λ node found. h node (
        find_node-loop layer path nodes full
        ∙ ap (make_node path)
            (sym (find_loop-set_version layer.node_prefix nodes layer.node_prefix [] [] path))
        ∙ sym (find_node-loop layer path (set_version layer.node_prefix nodes) full)
        ∙ found))

pub length-parent_path :
    (path : DirectoryPath) (name : String)
    → last_component path ≡ some name
    → suc (length (parent_path path)) ≡ length path
length-parent_path path name e = omega (
  arith,
  length-append (parent_path path) (name ∷ []),
  ap (λ p. length p) (last_component_lem path name e),
)
