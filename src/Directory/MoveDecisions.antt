-- ===== src/Directory/MoveDecisions.antt =====
-- Where `moveInternal` goes on, by the nodes that it finds.
use Prim.Native.String.{String}
use foundationdb_effect.Prelude.{
  ◌≡◌, inl, inr, refl, arith, false, ◌&&◌, ◌||◌, true, Option, none, some, ◌==◌, length, Bool-cases,
}
use foundationdb_effect.Bytes.{equal_bytes}
use foundationdb_effect.Directory.{find_node}
use foundationdb_effect.Directory.State.{
  DirectoryPath, DirectoryLayer, Nodes, path_starts_with, paths_equal, Node, partition_subpath,
  is_in_partition, partition_layer, nested_layer,
}
use foundationdb_effect.Directory.Create.{last_component, parent_path}
use foundationdb_effect.Directory.Move.{
  MoveDecision, move_fails, move_inside, move_here, decide_new, decide_name, decide_parent,
  decide_old, decide_move,
}

-- What a decision says of the nodes found.
unfoldable pub MoveExplains :
    DirectoryLayer → DirectoryPath → DirectoryPath → Nodes → MoveDecision → Type 0
MoveExplains layer old_path new_path nodes (move_fails _) = Unit
MoveExplains layer old_path new_path nodes (move_inside inner path new) =
    (path_starts_with new_path old_path ≡ false)
    × (old : Node) × (target : Node) × (find_node layer old_path nodes ≡ some old)
    × (find_node layer new_path nodes ≡ some target)
    × (is_in_partition old false ≡ true)
    × (inner ≡ nested_layer layer old.prefix old.current_path)
    × (path ≡ partition_subpath old)
    × (new ≡ partition_subpath target)
MoveExplains layer old_path new_path nodes (move_here old parent name) =
    (path_starts_with new_path old_path ≡ false)
    × (find_node layer old_path nodes ≡ some old)
    × (is_in_partition old false ≡ false)
    × (find_node layer new_path nodes ≡ none)
    × (find_node layer (parent_path new_path) nodes ≡ some parent)
    × (last_component new_path ≡ some name)

module _ (layer : DirectoryLayer) (old_path new_path : DirectoryPath) (nodes : Nodes)
    (beside : path_starts_with new_path old_path ≡ false) where
  parent_explained :
      (old : Node) (name : String) (parent : Option Node)
      → find_node layer old_path nodes ≡ some old
      → is_in_partition old false ≡ false
      → find_node layer new_path nodes ≡ none
      → last_component new_path ≡ some name
      → find_node layer (parent_path new_path) nodes ≡ parent
      → MoveExplains layer old_path new_path nodes (decide_parent old name parent)
  unfolding MoveExplains
  parent_explained old name none found outside free last e = tt
  parent_explained old name (some parent) found outside free last e =
      (beside, found, outside, free, e, last)

  name_explained :
      (old : Node) (name : Option String)
      → find_node layer old_path nodes ≡ some old
      → is_in_partition old false ≡ false
      → find_node layer new_path nodes ≡ none
      → last_component new_path ≡ name
      → MoveExplains layer old_path new_path nodes (decide_name layer old new_path nodes name)
  unfolding MoveExplains
  name_explained old none found outside free last = tt
  name_explained old (some name) found outside free last =
      parent_explained old name _ found outside free last refl

  new_explained :
      (old : Node) (new : Option Node)
      → find_node layer old_path nodes ≡ some old
      → find_node layer new_path nodes ≡ new
      → MoveExplains layer old_path new_path nodes (decide_new layer old new_path nodes new)
  unfolding MoveExplains
  new_explained old none found free = elim (Bool-cases (is_in_partition old false)) [
    | inl inside ↦ rw inside tt
    | inr outside ↦
        rw outside (name_explained old (last_component new_path) found outside free refl)
  ]
  new_explained old (some new) found target =
      elim (Bool-cases (
        (is_in_partition old false && is_in_partition new false)
        && paths_equal old.current_path new.current_path)) [
          | inl both ↦
              let inside : is_in_partition old false ≡ true = grind arith in
              let part : equal_bytes old.layer partition_layer ≡ true = grind arith in
              rw (both, part) (beside, old, new, found, target, inside, refl, refl, refl)
          | inr apart ↦ elim (Bool-cases (is_in_partition old false || is_in_partition new false)) [
            | inl across ↦ rw (apart, across) tt
            | inr exists ↦ rw (apart, exists) tt
          ]
        ]

  old_explained :
      (old : Option Node)
      → find_node layer old_path nodes ≡ old
      → MoveExplains layer old_path new_path nodes (decide_old layer new_path nodes old)
  unfolding MoveExplains
  old_explained none e = tt
  old_explained (some old) e = new_explained old (find_node layer new_path nodes) e refl

pub decide_move-MoveExplains :
    (layer : DirectoryLayer) (old_path new_path : DirectoryPath) (nodes : Nodes)
    → (length old_path == 0) ≡ false
    → MoveExplains layer old_path new_path nodes (decide_move layer old_path new_path nodes)
unfolding decide_move MoveExplains
decide_move-MoveExplains layer old_path new_path nodes full =
    elim (Bool-cases (path_starts_with new_path old_path)) [
      | inl below ↦ rw (full, below) tt
      | inr beside ↦
          rw (full, beside)
            (old_explained layer old_path new_path nodes beside (find_node layer old_path nodes)
              refl)
    ]
