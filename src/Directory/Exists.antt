-- ===== src/Directory/Exists.antt =====
-- src/directory/engine.ts: `existsInternal`.
use foundationdb_effect.Prelude.{ℕ, zero, suc, Bool, true, false, Option, none, some, if◌then◌else◌}
use foundationdb_effect.Prelude.Result.{Result, ok, err}
use foundationdb_effect.Directory.{find_node, check_version}
use foundationdb_effect.Directory.State.{
  DirectoryError, directory_does_not_exist, invalid_metadata, DirectoryPath, DirectoryLayer, Nodes,
  Database, nodes_of, Node, DirectoryOutput, directory_subspace, directory_partition,
  partition_subpath, is_in_partition,
}
use foundationdb_effect.Directory.Create.{get_contents}

-- Where `existsInternal` goes on.
pub data ExistsDecision : Type 0 where
  known : Result DirectoryError Bool → ExistsDecision
  exists_inside : DirectoryLayer → DirectoryPath → ExistsDecision

abbrev pub exists_in : Node → DirectoryOutput → ExistsDecision
exists_in node (directory_partition _ nested) = exists_inside nested (partition_subpath node)
exists_in node (directory_subspace _ _ _) = known (err invalid_metadata)

abbrev pub exists_found : DirectoryLayer → Option Node → ExistsDecision
exists_found layer none = known (ok false)
exists_found layer (some node) =
    if is_in_partition node false then exists_in node (get_contents layer node) else known (ok true)

abbrev pub exists_checked :
    DirectoryLayer → DirectoryPath → Result DirectoryError Nodes → ExistsDecision
exists_checked layer path (err e) = known (err e)
exists_checked layer path (ok nodes) = exists_found layer (find_node layer path nodes)

abbrev pub decide_exists : DirectoryLayer → DirectoryPath → Nodes → ExistsDecision
decide_exists layer path nodes = exists_checked layer path (check_version layer false nodes)

-- `existsInternal`; `none` is too little fuel.
unfoldable pub exists :
    ℕ → DirectoryLayer → DirectoryPath → Database → Option (Result DirectoryError Bool)
exists zero layer path db = none
exists (suc fuel) layer path db = elim (decide_exists layer path (nodes_of layer db)) [
  | known result ↦ some result
  | exists_inside inner subpath ↦ exists fuel inner subpath db
]

abbrev pub is_missing : DirectoryError → Bool
is_missing directory_does_not_exist = true
is_missing _ = false

-- What opening a directory says of its existence.
abbrev pub existence :
    Option (Result DirectoryError (DirectoryOutput × Database))
    → Option (Result DirectoryError Bool)
existence none = none
existence (some (ok _)) = some (ok true)
existence (some (err e)) = some (if is_missing e then ok false else err e)
