-- ===== src/Directory/Steps.antt =====
-- The steps of `createOrOpenInternal`, and the creation below a parent.
use Prim.Native.String.{String}
use foundationdb_effect.Prelude.{
  ℕ, suc, ◌≡◌, inl, inr, refl, sym, subst, Bool, true, false, Option, none, some, [], ◌==◌, length,
  Bool-cases, if◌then◌else◌,
}
use foundationdb_effect.Prelude.Result.{Result, ok, err, map_ok}
use foundationdb_effect.Bytes.{Bytes, IsBytes}
use foundationdb_effect.Directory.{check_version}
use foundationdb_effect.Directory.State.{
  DirectoryError, DirectoryPath, DirectoryLayer, Nodes, Database, put_at, nodes_of, DirectoryOutput,
  directory_subspace, directory_partition,
}
use foundationdb_effect.Directory.Free.{keys, Member}
use foundationdb_effect.Directory.Consistent.{WellFormed, AllWellFormed, put_at-All, at-put_at}
use foundationdb_effect.Directory.Kept.{create_under-kept}
use foundationdb_effect.Directory.Create.{
  Surroundings, decided, in_partition, missing, decide, last_component, parent_path, create_under,
  create_below, create_or_open,
}
use foundationdb_effect.Directory.Opens.{Outside, Kept, Kept-of_result}

module _ (around : Surroundings) where
  pub create_or_open_decided :
      (fuel : ℕ) (layer : DirectoryLayer) (path : DirectoryPath) (prefix expected : Option Bytes)
      (ac ao : Bool) (db : Database) (r : Result DirectoryError DirectoryOutput)
      → decide layer path prefix expected ac ao (nodes_of layer db) ≡ decided r
      → create_or_open around (suc fuel) layer path prefix expected ac ao db
        ≡ some (map_ok (λ output. (output, db)) r)
  unfolding create_or_open
  create_or_open_decided fuel layer path prefix expected ac ao db r e = rw (e, create_or_open) refl

  pub create_or_open_inside :
      (fuel : ℕ) (layer : DirectoryLayer) (path : DirectoryPath) (prefix expected : Option Bytes)
      (ac ao : Bool) (db : Database) (inner : DirectoryLayer) (subpath : DirectoryPath)
      → decide layer path prefix expected ac ao (nodes_of layer db) ≡ in_partition inner subpath
      → create_or_open around (suc fuel) layer path prefix expected ac ao db
        ≡ create_or_open around fuel inner subpath (if ac then prefix else none) expected ac ao db
  unfolding create_or_open
  create_or_open_inside fuel layer path prefix expected ac ao db inner subpath e =
      rw (e, create_or_open) refl

  -- What `createOrOpenInternal` does with a path that is not found.
  abbrev pub create_missing :
      ℕ
      → DirectoryLayer
      → DirectoryPath
      → Option Bytes
      → Option Bytes
      → String
      → Nodes
      → Database
      → Option (Result DirectoryError (DirectoryOutput × Database))
  create_missing fuel layer path prefix expected name nodes db =
      let db' = put_at layer.node_prefix nodes db in
      if length (parent_path path) == 0
      then some (create_under around layer path name prefix expected layer.node_prefix db')
      else create_below around layer path name prefix expected
          (create_or_open around fuel layer (parent_path path) none none true true db')

  pub create_or_open_missing :
      (fuel : ℕ) (layer : DirectoryLayer) (path : DirectoryPath) (prefix expected : Option Bytes)
      (ac ao : Bool) (db : Database) (name : String) (nodes : Nodes)
      → decide layer path prefix expected ac ao (nodes_of layer db) ≡ missing
      → last_component path ≡ some name
      → check_version layer true (nodes_of layer db) ≡ ok nodes
      → create_or_open around (suc fuel) layer path prefix expected ac ao db
        ≡ create_missing fuel layer path prefix expected name nodes db
  unfolding create_or_open
  create_or_open_missing fuel layer path prefix expected ac ao db name nodes e last checked =
      rw (e, create_or_open, last, checked) refl

  pub Kept-create_missing :
      (fuel : ℕ) (layer : DirectoryLayer) (path : DirectoryPath) (prefix expected : Option Bytes)
      (name : String) (nodes nodes' : Nodes) (db : Database)
      → AllWellFormed db
      → IsBytes layer.content_prefix
      → ((p : Bytes) → prefix ≡ some p → IsBytes p)
      → WellFormed layer.node_prefix nodes
      → Member layer.node_prefix (keys nodes)
      → ((length (parent_path path) == 0) ≡ false
          → Kept layer (parent_path path) nodes (
              create_or_open around fuel layer
                (parent_path path)
                none
                none
                true
                true
                (put_at layer.node_prefix nodes db))
            × Outside layer (parent_path path) nodes)
      → Kept layer path nodes' (create_missing fuel layer path prefix expected name nodes db)
  Kept-create_missing fuel layer path prefix expected name nodes nodes' db w content given well
        member below =
      let db' = put_at layer.node_prefix nodes db in
      let w' = put_at-All (λ root nodes. WellFormed root nodes) layer.node_prefix nodes db w well in
      let written = at-put_at [] layer.node_prefix nodes db in
      elim (Bool-cases (length (parent_path path) == 0)) [
        | inl top ↦ rw top (
            Kept-of_result layer path nodes' _ (λ output db'' e.
              create_under-kept around layer path name prefix expected layer.node_prefix db' output
                db'' w' content given
                (subst (λ ns. Member layer.node_prefix (keys ns)) (sym written) member) e))
        | inr deep ↦
            let (kept, outside) = below deep in
            rw deep (
              Kept-create_below layer path name prefix expected nodes nodes' content given _ kept
                outside)
      ]
    where
      Kept-create_below :
          (layer : DirectoryLayer) (path : DirectoryPath) (name : String)
          (prefix expected : Option Bytes) (nodes nodes' : Nodes)
          → IsBytes layer.content_prefix
          → ((p : Bytes) → prefix ≡ some p → IsBytes p)
          → (parent : Option (Result DirectoryError (DirectoryOutput × Database)))
          → Kept layer (parent_path path) nodes parent
          → Outside layer (parent_path path) nodes
          → Kept layer path nodes' (create_below around layer path name prefix expected parent)
      Kept-create_below layer path name prefix expected nodes nodes' content given none k outside =
          k
      Kept-create_below layer path name prefix expected nodes nodes' content given (some (err _)) k
            outside =
          tt
      Kept-create_below layer path name prefix expected nodes nodes' content given
            (some (ok (directory_partition _ _, db))) k outside =
          tt
      Kept-create_below layer path name prefix expected nodes nodes' content given
            (some (ok (directory_subspace _ parent _, db))) (w, inside) outside =
          Kept-of_result layer path nodes' _ (λ output db' e.
            create_under-kept around layer path name prefix expected parent db output db' w content
              given (inside outside) e)
