-- ===== src/Directory/State.antt =====
-- src/directory/internal.ts and model.ts: the rows of directory layers, and their values.
use Prim.Native.String.{String}
use text.Mathlib.Text.{◌==◌ as str_eq}
use foundationdb_effect.Prelude.{
  Bool, true, false, ◌&&◌, ◌||◌, Option, none, some, List, [], ◌∷◌, ◌++◌, ◌==◌, leb, ltb,
  if◌then◌else◌, length, drop,
}
use foundationdb_effect.Bytes.{Bytes, equal_bytes}

-- `DirectoryErrorReason`
pub data DirectoryError : Type 0 where
  cannot_modify_root_directory directory_prefix_in_use directory_does_not_exist no_path_provided :
      DirectoryError
  directory_already_exists path_does_not_exist parent_directory_does_not_exist : DirectoryError
  incompatible_layer bad_destination_directory version_error prefix_not_allowed : DirectoryError
  cannot_prefix_in_partition cannot_move_root_directory cannot_move_between_partitions :
      DirectoryError
  cannot_move_into_subdirectory prefix_not_empty invalid_metadata invalid_prefix : DirectoryError

abbrev pub DirectoryPath : Type 0
DirectoryPath = List String

-- `DirectoryLayerState`: the root node has the prefix of the node subspace.
pub record DirectoryLayer : Type 0 where
  pub node_prefix : Bytes
  pub content_prefix : Bytes
  pub allow_manual_prefixes : Bool
  pub path : DirectoryPath

-- The rows of a node: `[VERSION]` of a root, `[0n, name]` and `[LAYER]`.
pub record NodeRows : Type 0 where
  pub version : Option Bytes
  pub children : List (String × Bytes)
  pub layer : Option Bytes

abbrev pub no_rows : NodeRows
no_rows = record { version = none; children = []; layer = none }

-- The nodes of a layer by their prefix, and the layers of a database by the prefix of their nodes.
abbrev pub Nodes : Type 0
Nodes = List (Bytes × NodeRows)

abbrev pub Database : Type 0
Database = List (Bytes × Nodes)

-- The value of a key in such a list, or what stands for no rows.
abbrev pub at {ℓ} : {A : Type ℓ} → A → Bytes → List (Bytes × A) → A
at missing key [] = missing
at missing key ((k, a) ∷ rest) =
    let later = at missing key rest in if equal_bytes k key then a else later

abbrev pub put_at {ℓ} : {A : Type ℓ} → Bytes → A → List (Bytes × A) → List (Bytes × A)
put_at key new [] = (key, new) ∷ []
put_at key new ((k, a) ∷ rest) =
    let rest' = put_at key new rest in if equal_bytes k key then (k, new) ∷ rest else (k, a) ∷ rest'

abbrev pub rows_of : Bytes → Nodes → NodeRows
rows_of prefix nodes = at no_rows prefix nodes

abbrev pub nodes_of : DirectoryLayer → Database → Nodes
nodes_of layer db = at [] layer.node_prefix db

-- `transaction.get` of a child's key
abbrev pub child_of : String → List (String × Bytes) → Option Bytes
child_of name [] = none
child_of name ((n, prefix) ∷ rest) =
    let later = child_of name rest in if str_eq n name then some prefix else later

-- `transaction.set` of a child's key; the order of the keys is not kept.
abbrev pub set_child : String → Bytes → List (String × Bytes) → List (String × Bytes)
set_child name prefix [] = (name, prefix) ∷ []
set_child name prefix ((n, p) ∷ rest) =
    let rest' = set_child name prefix rest in
    if str_eq n name then (n, prefix) ∷ rest else (n, p) ∷ rest'

-- `PARTITION`, `NODE_PREFIX` and `DIRECTORY_VERSION`
abbrev pub partition_layer : Bytes
partition_layer = 112 ∷ 97 ∷ 114 ∷ 116 ∷ 105 ∷ 116 ∷ 105 ∷ 111 ∷ 110 ∷ []

abbrev pub default_node_prefix : Bytes
default_node_prefix = 0xfe ∷ []

abbrev pub directory_version : Bytes
directory_version = 1 ∷ 0 ∷ 0 ∷ 0 ∷ 0 ∷ 0 ∷ 0 ∷ 0 ∷ 0 ∷ 0 ∷ 0 ∷ 0 ∷ []

-- `pathStartsWith` and `pathsEqual`
abbrev pub every_component : DirectoryPath → DirectoryPath → Bool
every_component (c ∷ cs) (v ∷ vs) = let rest = every_component cs vs in str_eq v c && rest
every_component [] _ = true
every_component (_ ∷ _) [] = false

abbrev pub path_starts_with : DirectoryPath → DirectoryPath → Bool
path_starts_with value prefix = leb (length prefix) (length value) && every_component prefix value

abbrev pub paths_equal : DirectoryPath → DirectoryPath → Bool
paths_equal left right = (length left == length right) && every_component left right

-- `Node`, with the prefix of its subspace.
pub record Node : Type 0 where
  pub prefix : Bytes
  pub current_path : DirectoryPath
  pub target_path : DirectoryPath
  pub layer : Bytes

-- `DirectoryOutput`
pub data DirectoryOutput : Type 0 where
  directory_subspace : DirectoryPath → Bytes → Bytes → DirectoryOutput
  directory_partition : DirectoryPath → DirectoryLayer → DirectoryOutput

-- `partitionSubpath`
abbrev pub partition_subpath : Node → DirectoryPath
partition_subpath node = drop (length node.current_path) node.target_path

-- `isInPartition`
abbrev pub is_in_partition : Node → Bool → Bool
is_in_partition node include_root =
    equal_bytes node.layer partition_layer
    && (include_root || ltb (length node.current_path) (length node.target_path))

-- The layer that `contentsOfNode` makes for a partition.
abbrev pub nested_layer : DirectoryLayer → Bytes → DirectoryPath → DirectoryLayer
nested_layer layer prefix path = record {
  node_prefix = prefix ++ default_node_prefix;
  content_prefix = prefix;
  allow_manual_prefixes = false;
  path = layer.path ++ path;
}

-- `contentsOfNode`
abbrev pub contents_of_node : DirectoryLayer → Bytes → DirectoryPath → Bytes → DirectoryOutput
contents_of_node layer prefix path node_layer =
    if equal_bytes node_layer partition_layer
    then directory_partition path (nested_layer layer prefix path)
    else directory_subspace path prefix node_layer
