-- ===== src/Directory/Move.antt =====
-- src/directory/engine.ts: `moveInternal` and `removeFromParent`.
use Prim.Native.String.{String}
use text.Mathlib.Text.{◌==◌ as str_eq}
use foundationdb_effect.Prelude.{
  ℕ, zero, suc, true, false, ◌&&◌, ◌||◌, Option, none, some, List, [], ◌∷◌, ◌==◌, if◌then◌else◌,
  length,
}
use foundationdb_effect.Prelude.Result.{Result, ok, err}
use foundationdb_effect.Bytes.{Bytes}
use foundationdb_effect.Directory.{check_version, find_node}
use foundationdb_effect.Directory.State.{
  DirectoryError, cannot_move_root_directory, cannot_move_into_subdirectory, path_does_not_exist,
  cannot_move_between_partitions, directory_already_exists, bad_destination_directory,
  parent_directory_does_not_exist, invalid_metadata, DirectoryPath, DirectoryLayer, Nodes, Database,
  put_at, rows_of, nodes_of, set_child, path_starts_with, paths_equal, Node, DirectoryOutput,
  directory_subspace, directory_partition, partition_subpath, is_in_partition, contents_of_node,
}
use foundationdb_effect.Directory.Create.{get_contents, last_component, parent_path}

-- Where `moveInternal` goes on: it fails, it moves inside of a partition, or it links the node found
-- below a parent under a name.
pub data MoveDecision : Type 0 where
  move_fails : DirectoryError → MoveDecision
  move_inside : DirectoryLayer → DirectoryPath → DirectoryPath → MoveDecision
  move_here : Node → Node → String → MoveDecision

abbrev pub enter_move : Node → Node → DirectoryOutput → MoveDecision
enter_move old new (directory_partition _ nested) =
    move_inside nested (partition_subpath old) (partition_subpath new)
enter_move old new (directory_subspace _ _ _) = move_fails invalid_metadata

abbrev pub decide_parent : Node → String → Option Node → MoveDecision
decide_parent old name none = move_fails parent_directory_does_not_exist
decide_parent old name (some parent) = move_here old parent name

abbrev pub decide_name :
    DirectoryLayer → Node → DirectoryPath → Nodes → Option String → MoveDecision
decide_name layer old new_path nodes none = move_fails bad_destination_directory
decide_name layer old new_path nodes (some name) =
    decide_parent old name (find_node layer (parent_path new_path) nodes)

abbrev pub decide_new : DirectoryLayer → Node → DirectoryPath → Nodes → Option Node → MoveDecision
decide_new layer old new_path nodes none =
    if is_in_partition old false
    then move_fails cannot_move_between_partitions
    else decide_name layer old new_path nodes (last_component new_path)
decide_new layer old new_path nodes (some new) =
    let old_inside = is_in_partition old false in
    let new_inside = is_in_partition new false in
    if (old_inside && new_inside) && paths_equal old.current_path new.current_path
    then enter_move old new (get_contents layer old)
    else if old_inside || new_inside
    then move_fails cannot_move_between_partitions
    else move_fails directory_already_exists

abbrev pub decide_old : DirectoryLayer → DirectoryPath → Nodes → Option Node → MoveDecision
decide_old layer new_path nodes none = move_fails path_does_not_exist
decide_old layer new_path nodes (some old) =
    decide_new layer old new_path nodes (find_node layer new_path nodes)

-- `moveInternal` behind the check of the version, up to the writes.
unfoldable pub decide_move : DirectoryLayer → DirectoryPath → DirectoryPath → Nodes → MoveDecision
decide_move layer old_path new_path nodes =
    if length old_path == 0
    then move_fails cannot_move_root_directory
    else if path_starts_with new_path old_path
    then move_fails cannot_move_into_subdirectory
    else decide_old layer new_path nodes (find_node layer old_path nodes)

-- `transaction.clear` of a child's key
abbrev pub clear_child : String → List (String × Bytes) → List (String × Bytes)
clear_child name [] = []
clear_child name ((n, prefix) ∷ rest) =
    let rest' = clear_child name rest in if str_eq n name then rest' else (n, prefix) ∷ rest'

abbrev pub unlink : String → Option Node → Nodes → Nodes
unlink name none nodes = nodes
unlink name (some parent) nodes =
    let rows = rows_of parent.prefix nodes in
    put_at parent.prefix (record rows { children = clear_child name rows.children }) nodes

-- `removeFromParent` of a path that is not empty.
abbrev pub remove_from_parent : DirectoryLayer → DirectoryPath → Nodes → Option String → Nodes
remove_from_parent layer path nodes none = nodes
remove_from_parent layer path nodes (some name) =
    unlink name (find_node layer (parent_path path) nodes) nodes

-- The writes of `moveInternal`.
abbrev pub relink : DirectoryLayer → DirectoryPath → Node → Node → String → Nodes → Nodes
relink layer old_path old parent name nodes =
    let rows = rows_of parent.prefix nodes in
    remove_from_parent layer old_path
      (put_at parent.prefix (record rows { children = set_child name old.prefix rows.children })
        nodes)
      (last_component old_path)

-- `moveInternal`; `none` is too little fuel.
unfoldable pub move :
    ℕ
    → DirectoryLayer
    → DirectoryPath
    → DirectoryPath
    → Database
    → Option (Result DirectoryError (DirectoryOutput × Database))
move zero layer old_path new_path db = none
move (suc fuel) layer old_path new_path db = elim (check_version layer true (nodes_of layer db)) [
  | err e ↦ some (err e)
  | ok nodes ↦ elim (decide_move layer old_path new_path nodes) [
    | move_fails e ↦ some (err e)
    | move_inside inner old new ↦ move fuel inner old new (put_at layer.node_prefix nodes db)
    | move_here old parent name ↦ some (
        ok (
          contents_of_node layer old.prefix new_path old.layer,
          put_at layer.node_prefix (relink layer old_path old parent name nodes) db,
        ))
  ]
]
