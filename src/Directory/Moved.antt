-- ===== src/Directory/Moved.antt =====
-- `moveInternal` on layers that are well-formed: its entries and where it ends.
use Prim.Native.String.{String}
use foundationdb_effect.Prelude.{◌≡◌, true, false, none, some}
use foundationdb_effect.Prelude.Result.{Result, ok, err}
use foundationdb_effect.Directory.{find_node, check_version}
use foundationdb_effect.Directory.State.{
  DirectoryError, DirectoryPath, DirectoryLayer, Nodes, Database, put_at, nodes_of, Node,
  DirectoryOutput, contents_of_node, path_starts_with, nested_layer, partition_subpath,
}
use foundationdb_effect.Directory.Consistent.{AllWellFormed}
use foundationdb_effect.Directory.Create.{last_component, parent_path}
use foundationdb_effect.Directory.Relinked.{Relinked}

-- The move that the database after it and the output show: the old path was found and the new one was
-- not, nor does it lead below the old one; the entry of the new path's parent is there in place of that
-- of the old path's parent. Inside of a partition it is a move in the partition's own layer.
pub data Moved
    : DirectoryLayer
      → DirectoryPath
      → DirectoryPath
      → Database
      → DirectoryOutput × Database
      → Type 0 where
  moved_here :
      {layer : DirectoryLayer} {old_path new_path : DirectoryPath} {db : Database}
      (nodes nodes' : Nodes) (old old_parent parent : Node) (old_name name : String)
      → check_version layer true (nodes_of layer db) ≡ ok nodes
      → path_starts_with new_path old_path ≡ false
      → find_node layer old_path nodes ≡ some old
      → find_node layer new_path nodes ≡ none
      → find_node layer (parent_path old_path) nodes ≡ some old_parent
      → last_component old_path ≡ some old_name
      → find_node layer (parent_path new_path) nodes ≡ some parent
      → last_component new_path ≡ some name
      → Relinked nodes nodes' old old_parent parent old_name name
      → Moved layer old_path new_path db
          (contents_of_node layer old.prefix new_path old.layer, put_at layer.node_prefix nodes' db)
  moved_inside :
      {layer : DirectoryLayer} {old_path new_path : DirectoryPath} {db : Database}
      {r : DirectoryOutput × Database} (nodes : Nodes) (old target : Node)
      → check_version layer true (nodes_of layer db) ≡ ok nodes
      → path_starts_with new_path old_path ≡ false
      → find_node layer old_path nodes ≡ some old
      → find_node layer new_path nodes ≡ some target
      → Moved
          (nested_layer layer old.prefix old.current_path)
          (partition_subpath old)
          (partition_subpath target)
          (put_at layer.node_prefix nodes db)
          r
      → Moved layer old_path new_path db r

-- An error leaves the database as it is.
abbrev pub MoveEnds :
    DirectoryLayer
    → DirectoryPath
    → DirectoryPath
    → Database
    → Result DirectoryError (DirectoryOutput × Database)
    → Type 0
MoveEnds layer old_path new_path db (err _) = Unit
MoveEnds layer old_path new_path db (ok (output, db')) =
    AllWellFormed db' × Moved layer old_path new_path db (output, db')
