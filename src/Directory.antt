-- ===== src/Directory.antt =====
-- src/directory/engine.ts: versions of the directory layer, and the search for nodes and free prefixes.
pub mod State
pub mod Create
pub mod Free
pub mod Exists
pub mod Finds
pub mod Consistent
pub mod Writes
pub mod Decisions
pub mod Kept
pub mod Opens
pub mod Parents
pub mod Steps
pub mod Ends
pub mod Move
pub mod Children
pub mod Links
pub mod Reached
pub mod Relinked
pub mod MoveWrites
pub mod MoveDecisions
pub mod Moved
pub mod Answers
mod Tests
use Prim.Native.String.{String}
use foundationdb_effect.Prelude.{
  ℕ, zero, suc, ◌+◌, Bool, true, false, ◌&&◌, ◌||◌, not, Option, none, some, List, [], ◌∷◌, ◌++◌,
  ◌==◌, leb, ltb, if◌then◌else◌, length, drop, take,
}
use foundationdb_effect.Prelude.Int.{ℤ, pos, negsuc}
use foundationdb_effect.Prelude.Result.{Result, ok, err, map_ok, ◌>>=◌}
use foundationdb_effect.Bytes.{
  Bytes, concat_bytes, compare_bytes, equal_bytes, starts_with, increment_prefix,
}
use foundationdb_effect.Tuple.Encode.{append_integer}
use foundationdb_effect.KeyValue.Size.{number_of}
use foundationdb_effect.Directory.State.{
  DirectoryError, directory_prefix_in_use, directory_does_not_exist, no_path_provided,
  directory_already_exists, path_does_not_exist, incompatible_layer, version_error,
  prefix_not_allowed, cannot_prefix_in_partition, prefix_not_empty, invalid_metadata,
  invalid_prefix, DirectoryPath, DirectoryLayer, NodeRows, no_rows, Nodes, Database, at, put_at,
  rows_of, nodes_of, child_of, set_child, partition_layer, directory_version, Node, DirectoryOutput,
  directory_subspace, directory_partition, partition_subpath, is_in_partition, nested_layer,
  contents_of_node,
}

abbrev pub or_empty : Option Bytes → Bytes
or_empty none = []
or_empty (some value) = value

-- `loadLayer`
abbrev pub load_layer : Bytes → Nodes → Bytes
load_layer prefix nodes = or_empty (rows_of prefix nodes).layer

-- The loop of `findNode`: the node, the path to it and its layer.
abbrev pub find_loop :
    Nodes → Bytes → DirectoryPath → Bytes → DirectoryPath → Option (Bytes × DirectoryPath × Bytes)
find_loop nodes prefix current layer [] = some (prefix, current, layer)
find_loop nodes prefix current layer (component ∷ path) =
    elim (child_of component (rows_of prefix nodes).children) [
      | none ↦ none
      | some child ↦
          let found = load_layer child nodes in
          let rest = find_loop nodes child (current ++ component ∷ []) found path in
          if equal_bytes found partition_layer
          then some (child, current ++ component ∷ [], found)
          else rest
    ]

abbrev pub make_node : DirectoryPath → Option (Bytes × DirectoryPath × Bytes) → Option Node
make_node path none = none
make_node path (some (prefix, current, layer)) =
    some (record { prefix = prefix; current_path = current; target_path = path; layer = layer })

-- `findNode`; the layer of the root is loaded for an empty path only.
unfoldable pub find_node : DirectoryLayer → DirectoryPath → Nodes → Option Node
find_node layer path nodes = make_node path (
    find_loop nodes layer.node_prefix []
      (if length path == 0 then load_layer layer.node_prefix nodes else []) path)

-- The numbers of a version: `getUint32(offset, true)`.
abbrev pub version_part : ℕ → Bytes → ℕ
version_part offset version = number_of (take 4 (drop offset version))

-- `checkVersion` of a version that is there.
abbrev pub version_allowed : Bytes → Bool → Result {0} DirectoryError Unit
version_allowed version write =
    if not (length version == 12)
    then err version_error
    else if ltb 1 (version_part 0 version)
    then err version_error
    else if write && ltb 0 (version_part 4 version)
    then err version_error
    else ok tt

abbrev pub set_version : Bytes → Nodes → Nodes
set_version root nodes =
    put_at root (record (rows_of root nodes) { version = some directory_version }) nodes

-- `checkVersion`
abbrev pub check_version_row :
    DirectoryLayer → Bool → Option Bytes → Nodes → Result DirectoryError Nodes
check_version_row layer write none nodes =
    ok (if write then set_version layer.node_prefix nodes else nodes)
check_version_row layer write (some version) nodes =
    map_ok (λ _. nodes) (version_allowed version write)

unfoldable pub check_version : DirectoryLayer → Bool → Nodes → Result DirectoryError Nodes
check_version layer write nodes =
    check_version_row layer write (rows_of layer.node_prefix nodes).version nodes

-- The order of keys.
abbrev pub at_most : ℤ → Bool
at_most (pos n) = n == 0
at_most (negsuc n) = true

-- `firstInRange` backwards: the greatest prefix of a node up to a key.
abbrev pub greater_of : Bytes → Option Bytes → Option Bytes
greater_of p none = some p
greater_of p (some q) = if at_most (compare_bytes p q) then some q else some p

abbrev pub previous_node : Bytes → Nodes → Option Bytes
previous_node key [] = none
previous_node key ((p, _) ∷ rest) =
    let best = previous_node key rest in
    if at_most (compare_bytes p key) then greater_of p best else best

-- `nodeContainingKey`
unfoldable pub node_containing_key : DirectoryLayer → Bytes → Nodes → Option Bytes
node_containing_key layer key nodes =
    if starts_with key layer.node_prefix
    then some layer.node_prefix
    else elim (previous_node key nodes) [
      | none ↦ none
      | some p ↦ if starts_with key p then some p else none
    ]

-- Whether a node has its prefix in a range.
abbrev pub node_between : Bytes → Bytes → Nodes → Bool
node_between begin end [] = false
node_between begin end ((p, _) ∷ rest) =
    (at_most (compare_bytes begin p) && not (at_most (compare_bytes end p)))
    || node_between begin end rest

-- `isPrefixFree`
abbrev pub range_free : Bytes → Nodes → Option Bytes → Result DirectoryError Bool
range_free prefix nodes none = err invalid_prefix
range_free prefix nodes (some end) = ok (not (node_between prefix end nodes))

unfoldable pub is_prefix_free : DirectoryLayer → Bytes → Nodes → Result DirectoryError Bool
is_prefix_free layer prefix nodes =
    if length prefix == 0 then ok false else elim (node_containing_key layer prefix nodes) [
      | some _ ↦ ok false
      | none ↦ range_free prefix nodes (increment_prefix prefix)
    ]
