-- ===== src/Directory/Tests.antt =====
-- A directory and its parent, created in an empty database.
use foundationdb_effect.Prelude.{
  ◌≡◌, ◌↔◌, refl, subst, some-injective, arith, true, false, none, some, [], ◌∷◌,
}
use foundationdb_effect.Prelude.Result.{Result, ok}
use foundationdb_effect.Bytes.{Bytes, IsBytes, equal_bytes, starts_with}
use foundationdb_effect.Bytes.Prefix.{HasPrefix}
use foundationdb_effect.Directory.{node_containing_key, find_node, check_version}
use foundationdb_effect.Directory.State.{
  DirectoryError, directory_version, partition_layer, DirectoryPath, DirectoryLayer, no_rows, Nodes,
  Database, DirectoryOutput,
}
use foundationdb_effect.Directory.Create.{Surroundings, create_or_open}
use foundationdb_effect.Directory.Exists.{exists, existence}
use foundationdb_effect.Directory.Answers.{exists-existence}
use foundationdb_effect.Directory.Free.{keys, Member}
use foundationdb_effect.Directory.Finds.{node_containing_key_iff}
use foundationdb_effect.Directory.Move.{move, decide_move}
use foundationdb_effect.Directory.Ends.{Leaves, create_or_open_lem}

abbrev root_layer : DirectoryLayer
root_layer = record {
  node_prefix = 0xfe ∷ [];
  content_prefix = [];
  allow_manual_prefixes = true;
  path = [];
}

abbrev seven_allocated : Surroundings
seven_allocated = record { allocate_prefix = λ layer db. ok 7; occupied = λ prefix db. false }

abbrev below_parent : DirectoryPath
below_parent = "parent" ∷ "child" ∷ []

manual_prefix-IsBytes : (p : Bytes) → some (0x20 ∷ []) ≡ some p → IsBytes p
manual_prefix-IsBytes p e = subst IsBytes (some-injective e) (omega arith, tt)

create_or_open_lem_example :
    (result : Result DirectoryError (DirectoryOutput × Database)) × (create_or_open seven_allocated
        3 root_layer below_parent
        (some (0x20 ∷ []))
        none
        true
        true
        []
      ≡ some result)
    × Leaves result
create_or_open_lem_example =
    create_or_open_lem seven_allocated 3 root_layer below_parent (some (0x20 ∷ [])) none true true
      [] (omega arith) (omega arith, tt) tt manual_prefix-IsBytes tt

abbrev two_nodes : Nodes
two_nodes = (0xfe ∷ [], no_rows) ∷ (0x15 ∷ 7 ∷ [], no_rows) ∷ []

node_containing_key_iff_example :
    (node_containing_key root_layer (0x15 ∷ 7 ∷ 3 ∷ []) two_nodes ≡ some (0x15 ∷ 7 ∷ []))
    ↔ (Member (0x15 ∷ 7 ∷ []) (keys two_nodes) × HasPrefix (0x15 ∷ 7 ∷ 3 ∷ []) (0x15 ∷ 7 ∷ []))
unfolding starts_with
node_containing_key_iff_example =
    node_containing_key_iff root_layer (0x15 ∷ 7 ∷ 3 ∷ []) two_nodes
      (((λ h. h.1, λ h. omega (arith, h.0)), tt), (tt, tt)) refl (0x15 ∷ 7 ∷ [])

-- A layer with a partition, and the directory `child` inside of it.
abbrev partition_database : Database
partition_database =
    (
      0xfe ∷ [],
      (
        0xfe ∷ [],
        record {
          version = some directory_version;
          children = ("parent", 0x15 ∷ 7 ∷ []) ∷ [];
          layer = none;
        },
      )
          ∷ (0x15 ∷ 7 ∷ [], record { version = none; children = []; layer = some partition_layer })
          ∷ [],
    )
    ∷ (
      0x15 ∷ 7 ∷ 0xfe ∷ [],
      (
        0x15 ∷ 7 ∷ 0xfe ∷ [],
        record {
          version = some directory_version;
          children = ("child", 0x15 ∷ 7 ∷ 0x14 ∷ []) ∷ [];
          layer = none;
        },
      )
          ∷ (0x15 ∷ 7 ∷ 0x14 ∷ [], record { version = none; children = []; layer = some [] })
          ∷ [],
    )
    ∷ []

exists_child : exists 3 root_layer below_parent partition_database ≡ some (ok true)
unfolding exists find_node check_version equal_bytes
exists_child = refl

exists-existence_example :
    exists 3 root_layer below_parent partition_database
    ≡ existence (
        create_or_open seven_allocated 3 root_layer below_parent none none false true
          partition_database)
exists-existence_example =
    exists-existence seven_allocated 3 root_layer below_parent partition_database refl

abbrev one_directory : Nodes
one_directory =
    (
      0xfe ∷ [],
      record {
        version = some directory_version;
        children = ("parent", 0x15 ∷ 7 ∷ []) ∷ [];
        layer = none;
      },
    )
    ∷ (0x15 ∷ 7 ∷ [], record { version = none; children = []; layer = some [] })
    ∷ []

-- The move succeeds.
moved_directory :
    existence (move 2 root_layer ("parent" ∷ []) ("renamed" ∷ []) ((0xfe ∷ [], one_directory) ∷ []))
    ≡ some (ok true)
unfolding move decide_move find_node check_version equal_bytes
moved_directory = refl
