-- ===== src/Directory/Ends.antt =====
-- `createOrOpenInternal` on layers that are well-formed.
use foundationdb_effect.Prelude.{
  ℕ, zero, suc, ◌<◌, ◌≡◌, ◌⊎◌, inl, inr, refl, sym, ap, subst, arith, Bool, true, false, Option,
  none, some, [], ◌∷◌, ◌++◌, ◌==◌, length, length-drop, Option-cases, none≢some, if◌then◌else◌,
  All-append,
}
use foundationdb_effect.Prelude.Result.{Result, ok, err, map_ok}
use foundationdb_effect.Bytes.{Bytes, IsBytes}
use foundationdb_effect.Directory.{find_node, check_version}
use foundationdb_effect.Directory.State.{
  DirectoryError, DirectoryPath, DirectoryLayer, Nodes, Database, put_at, nodes_of, Node,
  DirectoryOutput, partition_subpath, is_in_partition,
}
use foundationdb_effect.Directory.Free.{keys, All-Member}
use foundationdb_effect.Directory.Consistent.{WellFormed, AllWellFormed, put_at-All, at-put_at}
use foundationdb_effect.Directory.Decisions.{Explains, decide-Explains, find_node-Member}
use foundationdb_effect.Directory.Kept.{OutputIn, contents_of_node-OutputIn, WellFormed-nodes_of}
use foundationdb_effect.Directory.Create.{
  Surroundings, CreateDecision, decided, in_partition, missing, decide, last_component, parent_path,
  create_or_open,
}
use foundationdb_effect.Directory.Opens.{Kept, Kept-in_partition, check_version-write}
use foundationdb_effect.Directory.Parents.{
  last_component_lem, length-parent_path, parent-Outside, Outside-set_version,
}
use foundationdb_effect.Directory.Steps.{
  create_or_open_decided, create_or_open_inside, create_or_open_missing, Kept-create_missing,
}

CreateDecision-cases :
    (d : CreateDecision)
    → ((r : Result DirectoryError DirectoryOutput) × (d ≡ decided r))
      ⊎ ((inner : DirectoryLayer) × (subpath : DirectoryPath) × (d ≡ in_partition inner subpath))
      ⊎ (d ≡ missing)
CreateDecision-cases (decided r) = inl (r, refl)
CreateDecision-cases (in_partition inner subpath) = inr (inl (inner, subpath, refl))
CreateDecision-cases missing = inr (inr refl)

pub Result-cases :
    {A : Type 0} (r : Result DirectoryError A)
    → ((e : DirectoryError) × (r ≡ err e)) ⊎ ((a : A) × (r ≡ ok a))
Result-cases (err e) = inl (e, refl)
Result-cases (ok a) = inr (a, refl)

-- What a node found says of the layer in it.
pub nested_bounds :
    (layer : DirectoryLayer) (path : DirectoryPath) (nodes : Nodes) (node : Node)
    → WellFormed layer.node_prefix nodes
    → (length path == 0) ≡ false
    → find_node layer path nodes ≡ some node
    → is_in_partition node false ≡ true
    → IsBytes node.prefix
      × IsBytes (node.prefix ++ 0xfe ∷ [])
      × (length (partition_subpath node) < length path)
nested_bounds layer path nodes node well full found inside =
    let (member, some_component, target) =
      find_node-Member layer path nodes node well.closed full found in
    let bytes = All-Member IsBytes (keys nodes) node.prefix well.of_bytes member in
    let same = ap (λ p. length p) target in
    let some_path : 0 < length path = grind arith in
    (
      bytes,
      All-append (λ b. b < 256) node.prefix (0xfe ∷ []) bytes (omega arith, tt),
      omega (
        arith,
        length-drop (length node.current_path) node.target_path,
        some_component,
        same,
        some_path,
      ),
    )

decided-Kept :
    (layer : DirectoryLayer) (path : DirectoryPath) (db : Database)
    (r : Result DirectoryError DirectoryOutput)
    → AllWellFormed db
    → Explains layer path (nodes_of layer db) (decided r)
    → Kept layer path (nodes_of layer db) (some (map_ok (λ output. (output, db)) r))
decided-Kept layer path db (err _) w x = tt
decided-Kept layer path db (ok output) w (node, found, full, same) =
    let well = WellFormed-nodes_of layer db w in
    let (member, _, _) =
      find_node-Member layer path (nodes_of layer db) node well.closed full found in
    (
      w,
      λ _.
          subst (λ o. OutputIn (keys (nodes_of layer db)) o) (sym same)
            (contents_of_node-OutputIn (keys (nodes_of layer db)) layer node.prefix
              node.current_path node.layer member),
    )

given_if :
    (ac : Bool) (prefix : Option Bytes)
    → ((p : Bytes) → prefix ≡ some p → IsBytes p)
    → (p : Bytes) → (if ac then prefix else none) ≡ some p
    → IsBytes p
given_if true prefix given = given
given_if false prefix given = λ p e. absurd (none≢some e)

module _ (around : Surroundings) where
  create_or_open-Kept :
      (fuel : ℕ) (layer : DirectoryLayer) (path : DirectoryPath) (prefix : Option Bytes)
      (expected : Option Bytes) (ac ao : Bool) (db : Database)
      → length path < fuel
      → IsBytes layer.node_prefix
      → IsBytes layer.content_prefix
      → ((p : Bytes) → prefix ≡ some p → IsBytes p)
      → AllWellFormed db
      → Kept layer path
          (nodes_of layer db)
          (create_or_open around fuel layer path prefix expected ac ao db)
  unfolding create_or_open
  create_or_open-Kept zero layer path prefix expected ac ao db l root content given w =
      absurd (omega (arith, l))
  create_or_open-Kept (suc fuel) layer path prefix expected ac ao db l root content given w =
      let nodes = nodes_of layer db in
      let well = WellFormed-nodes_of layer db w in
      let explained = decide-Explains layer path prefix expected ac ao nodes in
      elim (CreateDecision-cases (decide layer path prefix expected ac ao nodes)) [
        | inl (r, e) ↦
            rw (create_or_open_decided around fuel layer path prefix expected ac ao db r e) (
              decided-Kept layer path db r w (subst (λ d. Explains layer path nodes d) e explained))
        | inr (inl (inner, subpath, e)) ↦
            let (node, found, full, inside, inner_is, subpath_is) =
              subst (λ d. Explains layer path nodes d) e explained in
            let (bytes, bytes', shorter) =
              nested_bounds layer path nodes node well full found inside in
            rw
              (create_or_open_inside around fuel layer path prefix expected ac ao db inner subpath
                e)
              (Kept-in_partition layer inner path subpath nodes (nodes_of inner db) node _ found
                inside
                (create_or_open-Kept fuel inner subpath (if ac then prefix else none) expected ac ao
                  db (omega (arith, l, shorter, ap (λ p. length p) subpath_is))
                  (subst (λ i. IsBytes i.node_prefix) (sym inner_is) bytes')
                  (subst (λ i. IsBytes i.content_prefix) (sym inner_is) bytes)
                  (given_if ac prefix given) w))
        | inr (inr e) ↦
            let (nothing, full) = subst (λ d. Explains layer path nodes d) e explained in
            elim (Option-cases (last_component path)) [
              | inl empty ↦ rw (e, create_or_open, empty) tt
              | inr (name, last) ↦ elim (Result-cases (check_version layer true nodes)) [
                | inl (reason, failed) ↦ rw (e, create_or_open, last, failed) tt
                | inr (nodes', checked) ↦
                    let (well', member, same) =
                      check_version-write layer nodes nodes' root well checked in
                    rw
                      (create_or_open_missing around fuel layer path prefix expected ac ao db name
                        nodes' e last checked)
                      (Kept-create_missing around fuel layer path prefix expected name nodes' nodes
                        db w content given well' member
                        (λ deep. (
                          subst
                              (λ ns. Kept layer (parent_path path) ns (
                                create_or_open around fuel layer (parent_path path) none none true
                                  true (put_at layer.node_prefix nodes' db)))
                              (at-put_at [] layer.node_prefix nodes' db)
                              (create_or_open-Kept fuel layer (parent_path path) none none true true
                                (put_at layer.node_prefix nodes' db)
                                (omega (arith, l, length-parent_path path name last)) root content
                                (λ p no_prefix. absurd (none≢some no_prefix))
                                (put_at-All (λ root nodes. WellFormed root nodes) layer.node_prefix
                                  nodes' db w well')),
                          Outside-set_version layer (parent_path path) nodes nodes' deep same (
                              parent-Outside layer path (parent_path path) name nodes
                                (last_component_lem path name last) full deep nothing),
                        )))
              ]
            ]
      ]

-- A result that leaves every layer well-formed, or an error, which leaves the database as it is.
abbrev pub Leaves : Result DirectoryError (DirectoryOutput × Database) → Type 0
Leaves (err _) = Unit
Leaves (ok (_, db)) = AllWellFormed db

Leaves-of_Kept :
    (layer : DirectoryLayer) (path : DirectoryPath) (nodes : Nodes)
    (r : Option (Result DirectoryError (DirectoryOutput × Database)))
    → Kept layer path nodes r
    → (result : Result DirectoryError (DirectoryOutput × Database)) × (r ≡ some result)
      × Leaves result
Leaves-of_Kept layer path nodes none k = absurd k
Leaves-of_Kept layer path nodes (some (err e)) k = (err e, refl, tt)
Leaves-of_Kept layer path nodes (some (ok (output, db))) k = (ok (output, db), refl, k.0)

-- With fuel above the length of the path, `createOrOpenInternal` returns; where it succeeds on layers
-- that are well-formed, they are well-formed after it: in each, no prefix of a node begins with
-- another, and every child is a node.
pub create_or_open_lem :
    (around : Surroundings) (fuel : ℕ) (layer : DirectoryLayer) (path : DirectoryPath)
    (prefix expected : Option Bytes) (allow_create allow_open : Bool) (db : Database)
    → length path < fuel
    → IsBytes layer.node_prefix
    → IsBytes layer.content_prefix
    → ((p : Bytes) → prefix ≡ some p → IsBytes p)
    → AllWellFormed db
    → (result : Result DirectoryError (DirectoryOutput × Database)) × (create_or_open around fuel
          layer path prefix expected allow_create allow_open db
        ≡ some result)
      × Leaves result
create_or_open_lem around fuel layer path prefix expected allow_create allow_open db l root content
      given w =
    Leaves-of_Kept layer path (nodes_of layer db) _ (
      create_or_open-Kept around fuel layer path prefix expected allow_create allow_open db l root
        content given w)
