-- ===== src/Directory/Create.antt =====
-- src/directory/engine.ts: `createOrOpenInternal` and `createInternal`.
use Prim.Native.String.{String}
use foundationdb_effect.Prelude.{
  ℕ, zero, suc, Bool, true, false, ◌&&◌, not, Option, none, some, [], ◌∷◌, ◌==◌, ltb, if◌then◌else◌,
  length,
}
use foundationdb_effect.Prelude.Int.{pos}
use foundationdb_effect.Prelude.Result.{Result, ok, err, map_ok, map_err, ◌>>=◌}
use foundationdb_effect.Bytes.{Bytes, concat_bytes, equal_bytes, increment_prefix}
use foundationdb_effect.Tuple.Encode.{append_integer}
use foundationdb_effect.Directory.{or_empty, check_version, find_node, is_prefix_free}
use foundationdb_effect.Directory.State.{
  DirectoryError, directory_prefix_in_use, directory_does_not_exist, no_path_provided,
  directory_already_exists, incompatible_layer, prefix_not_allowed, cannot_prefix_in_partition,
  prefix_not_empty, invalid_metadata, invalid_prefix, DirectoryPath, DirectoryLayer, Nodes,
  Database, put_at, rows_of, nodes_of, set_child, Node, DirectoryOutput, directory_subspace,
  directory_partition, partition_subpath, is_in_partition, contents_of_node,
}

-- What a transaction meets beside the rows of the nodes: the number that `allocatePrefix` returns,
-- and whether a range read from a prefix to its successor finds a row.
pub record Surroundings : Type 0 where
  pub allocate_prefix : DirectoryLayer → Database → Result DirectoryError ℕ
  pub occupied : Bytes → Database → Bool

-- Where `createOrOpenInternal` goes on.
pub data CreateDecision : Type 0 where
  decided : Result DirectoryError DirectoryOutput → CreateDecision
  in_partition : DirectoryLayer → DirectoryPath → CreateDecision
  missing : CreateDecision

abbrev pub enter_partition : Node → DirectoryOutput → CreateDecision
enter_partition node (directory_partition _ nested) = in_partition nested (partition_subpath node)
enter_partition node (directory_subspace _ _ _) = decided (err invalid_metadata)

abbrev pub incompatible : Option Bytes → Bytes → Bool
incompatible none layer = false
incompatible (some expected) layer = ltb 0 (length expected) && not (equal_bytes expected layer)

-- `getContents`
abbrev pub get_contents : DirectoryLayer → Node → DirectoryOutput
get_contents layer node = contents_of_node layer node.prefix node.current_path node.layer

abbrev pub decide_found : DirectoryLayer → Option Bytes → Bool → Bool → Option Node → CreateDecision
decide_found layer expected allow_create allow_open none =
    if not allow_create then decided (err directory_does_not_exist) else missing
decide_found layer expected allow_create allow_open (some node) =
    if is_in_partition node false
    then enter_partition node (get_contents layer node)
    else if not allow_open
    then decided (err directory_already_exists)
    else if incompatible expected node.layer
    then decided (err incompatible_layer)
    else decided (ok (get_contents layer node))

abbrev pub is_given : Option Bytes → Bool
is_given none = false
is_given (some _) = true

abbrev pub decide_checked :
    DirectoryLayer
    → DirectoryPath
    → Option Bytes
    → Option Bytes
    → Bool
    → Bool
    → Result DirectoryError Nodes
    → CreateDecision
decide_checked layer path prefix expected allow_create allow_open (err e) = decided (err e)
decide_checked layer path prefix expected allow_create allow_open (ok nodes) =
    if is_given prefix && not layer.allow_manual_prefixes
    then decided
        (err (if length layer.path == 0 then prefix_not_allowed else cannot_prefix_in_partition))
    else if length path == 0
    then decided (err no_path_provided)
    else decide_found layer expected allow_create allow_open (find_node layer path nodes)

-- `createOrOpenInternal` up to the creation.
unfoldable pub decide :
    DirectoryLayer
    → DirectoryPath
    → Option Bytes
    → Option Bytes
    → Bool
    → Bool
    → Nodes
    → CreateDecision
decide layer path prefix expected allow_create allow_open nodes =
    decide_checked layer path prefix expected allow_create allow_open
      (check_version layer false nodes)

-- The last component of a path, and `slice(0, -1)`.
abbrev pub last_component : DirectoryPath → Option String
last_component [] = none
last_component (c ∷ []) = some c
last_component (_ ∷ c ∷ cs) = last_component (c ∷ cs)

abbrev pub parent_path : DirectoryPath → DirectoryPath
parent_path [] = []
parent_path (_ ∷ []) = []
parent_path (p ∷ c ∷ cs) = p ∷ parent_path (c ∷ cs)

-- A tuple of one integer under the content subspace: `pack` is `appendInteger` there.
abbrev pub packed_integer : DirectoryLayer → ℕ → Result DirectoryError Bytes
packed_integer layer n =
    map_err (λ _. invalid_metadata)
      (map_ok (λ packed. concat_bytes (layer.content_prefix ∷ packed ∷ []))
        (append_integer [] (pos n)))

abbrev pub check_empty : (Bytes → Bool) → Bytes → Option Bytes → Result DirectoryError Bytes
check_empty occupied prefix none = err invalid_prefix
check_empty occupied prefix (some end) = if occupied prefix then err prefix_not_empty else ok prefix

-- `choosePrefix`
unfoldable pub choose_prefix :
    Surroundings → DirectoryLayer → Option Bytes → Database → Result DirectoryError Bytes
choose_prefix around layer (some explicit) db = ok explicit
choose_prefix around layer none db = do
  allocated ← around.allocate_prefix layer db
  prefix ← packed_integer layer allocated
  check_empty (λ p. around.occupied p db) prefix (increment_prefix prefix)

-- The two `transaction.set` of `createInternal`.
abbrev pub add_directory : DirectoryLayer → Bytes → String → Bytes → Bytes → Database → Database
add_directory layer parent name prefix node_layer db =
    let nodes = nodes_of layer db in
    let rows = rows_of parent nodes in
    let linked =
      put_at parent (record rows { children = set_child name prefix rows.children }) nodes in
    put_at layer.node_prefix
      (put_at prefix (record (rows_of prefix linked) { layer = some node_layer }) linked) db

-- The end of `createInternal`, where the prefix is free.
abbrev pub create_at :
    DirectoryLayer
    → DirectoryPath
    → String
    → Option Bytes
    → Bytes
    → Bytes
    → Database
    → Bool
    → Result DirectoryError (DirectoryOutput × Database)
create_at layer path name node_layer parent prefix db false = err directory_prefix_in_use
create_at layer path name node_layer parent prefix db true = ok (
  contents_of_node layer prefix path (or_empty node_layer),
  add_directory layer parent name prefix (or_empty node_layer) db,
)

-- `createInternal` under a parent.
abbrev pub create_under :
    Surroundings
    → DirectoryLayer
    → DirectoryPath
    → String
    → Option Bytes
    → Option Bytes
    → Bytes
    → Database
    → Result DirectoryError (DirectoryOutput × Database)
create_under around layer path name explicit node_layer parent db = do
  prefix ← choose_prefix around layer explicit db
  free ← is_prefix_free layer prefix (nodes_of layer db)
  create_at layer path name node_layer parent prefix db free

-- `getParentNode` of what `createOrOpenInternal` returned.
abbrev pub parent_prefix : DirectoryOutput → Result DirectoryError Bytes
parent_prefix (directory_subspace _ prefix _) = ok prefix
parent_prefix (directory_partition _ _) = err invalid_metadata

abbrev pub create_below :
    Surroundings
    → DirectoryLayer
    → DirectoryPath
    → String
    → Option Bytes
    → Option Bytes
    → Option (Result DirectoryError (DirectoryOutput × Database))
    → Option (Result DirectoryError (DirectoryOutput × Database))
create_below around layer path name explicit node_layer none = none
create_below around layer path name explicit node_layer (some (err e)) = some (err e)
create_below around layer path name explicit node_layer (some (ok (output, db))) = some (
    parent_prefix output >>= λ parent.
    create_under around layer path name explicit node_layer parent db)

-- `createOrOpenInternal`; `none` is too little fuel.
unfoldable pub create_or_open :
    Surroundings
    → ℕ
    → DirectoryLayer
    → DirectoryPath
    → Option Bytes
    → Option Bytes
    → Bool
    → Bool
    → Database
    → Option (Result DirectoryError (DirectoryOutput × Database))
create_or_open around zero layer path prefix expected allow_create allow_open db = none
create_or_open around (suc fuel) layer path prefix expected allow_create allow_open db =
    elim (decide layer path prefix expected allow_create allow_open (nodes_of layer db)) [
      | decided result ↦ some (map_ok (λ output. (output, db)) result)
      | in_partition inner subpath ↦
          create_or_open around fuel inner subpath (if allow_create then prefix else none) expected
            allow_create allow_open db
      | missing ↦ elim (last_component path) [
        | none ↦ some (err no_path_provided)
        | some name ↦ elim (check_version layer true (nodes_of layer db)) [
          | err e ↦ some (err e)
          | ok nodes ↦
              let db' = put_at layer.node_prefix nodes db in
              let parent =
                create_or_open around fuel layer (parent_path path) none none true true db' in
              if length (parent_path path) == 0
              then some (create_under around layer path name prefix expected layer.node_prefix db')
              else create_below around layer path name prefix expected parent
        ]
      ]
    ]
