-- ===== src/Directory/Opens.antt =====
-- What opening and creating a directory keeps, and the check of the version before a write.
use foundationdb_effect.Prelude.{
  ◌≡◌, ◌⊎◌, inl, inr, refl, sym, ap, ◌∙◌, subst, true, false, Option, none, some, [], ◌∷◌,
  Bool-cases, Option-cases, true≢false, none≢some,
}
use foundationdb_effect.Prelude.Result.{Result, ok, err, ok-injective, map_ok-eq-ok}
use foundationdb_effect.Bytes.{Bytes, IsBytes, equal_bytes}
use foundationdb_effect.Bytes.Order.{equal_bytes_iff}
use foundationdb_effect.Directory.{find_node, check_version, version_allowed, set_version}
use foundationdb_effect.Directory.State.{
  DirectoryError, DirectoryPath, DirectoryLayer, no_rows, Nodes, Database, rows_of, nodes_of, Node,
  DirectoryOutput, is_in_partition,
}
use foundationdb_effect.Directory.Free.{keys, Member}
use foundationdb_effect.Directory.Consistent.{WellFormed, AllWellFormed, at-put_at}
use foundationdb_effect.Directory.Writes.{set_version-WellFormed}
use foundationdb_effect.Directory.Kept.{OutputIn}

-- `findNode` meets no partition before the end of the path.
abbrev pub Outside : DirectoryLayer → DirectoryPath → Nodes → Type 0
Outside layer path nodes =
    (node : Node) → find_node layer path nodes ≡ some node → is_in_partition node false ≡ false

-- An operation that returns, and leaves well-formed layers; a directory that it returns is a node of
-- its own layer, unless a partition is on the way.
abbrev pub Kept :
    DirectoryLayer
    → DirectoryPath
    → Nodes
    → Option (Result DirectoryError (DirectoryOutput × Database))
    → Type 0
Kept layer path nodes none = ⊥
Kept layer path nodes (some (err _)) = Unit
Kept layer path nodes (some (ok (output, db))) =
    AllWellFormed db × (Outside layer path nodes → OutputIn (keys (nodes_of layer db)) output)

pub Kept-of_result :
    (layer : DirectoryLayer) (path : DirectoryPath) (nodes : Nodes)
    (r : Result DirectoryError (DirectoryOutput × Database))
    → ((output : DirectoryOutput) (db : Database)
        → r ≡ ok (output, db)
        → AllWellFormed db × OutputIn (keys (nodes_of layer db)) output)
    → Kept layer path nodes (some r)
Kept-of_result layer path nodes (err _) h = tt
Kept-of_result layer path nodes (ok (output, db)) h = let (w, i) = h output db refl in (w, λ _. i)

-- A result from inside of a partition.
pub Kept-in_partition :
    (layer inner : DirectoryLayer) (path subpath : DirectoryPath) (nodes nodes' : Nodes)
    (node : Node) (r : Option (Result DirectoryError (DirectoryOutput × Database)))
    → find_node layer path nodes ≡ some node
    → is_in_partition node false ≡ true
    → Kept inner subpath nodes' r
    → Kept layer path nodes r
Kept-in_partition layer inner path subpath nodes nodes' node none e inside k = k
Kept-in_partition layer inner path subpath nodes nodes' node (some (err _)) e inside k = tt
Kept-in_partition layer inner path subpath nodes nodes' node (some (ok _)) e inside (w, _) =
    (w, λ outside. absurd (true≢false (sym inside ∙ outside node e)))

version-Member :
    (root : Bytes) (nodes : Nodes) (version : Bytes)
    → (rows_of root nodes).version ≡ some version
    → Member root (keys nodes)
version-Member root [] version e = absurd (none≢some e)
version-Member root ((k, rows) ∷ rest) version e = elim (Bool-cases (equal_bytes k root)) [
  | inl same ↦ inl (sym ((equal_bytes_iff k root).0 same))
  | inr other ↦ inr (version-Member root rest version (rw other at e))
]

-- After `checkVersion` for a write, the root is a node.
pub check_version-write :
    (layer : DirectoryLayer) (nodes nodes' : Nodes)
    → IsBytes layer.node_prefix
    → WellFormed layer.node_prefix nodes
    → check_version layer true nodes ≡ ok nodes'
    → WellFormed layer.node_prefix nodes'
      × Member layer.node_prefix (keys nodes')
      × ((nodes' ≡ nodes) ⊎ (nodes' ≡ set_version layer.node_prefix nodes))
unfolding check_version
check_version-write layer nodes nodes' b w e =
    elim (Option-cases (rows_of layer.node_prefix nodes).version) [
      | inl absent ↦
          let same = ok-injective (rw absent at e) in
          subst
            (λ ns.
              WellFormed layer.node_prefix ns
              × Member layer.node_prefix (keys ns)
              × ((ns ≡ nodes) ⊎ (ns ≡ set_version layer.node_prefix nodes)))
            same
            (
              set_version-WellFormed layer.node_prefix nodes b w,
              version-Member layer.node_prefix (set_version layer.node_prefix nodes) _
                  (ap (λ r. r.version) (at-put_at no_rows layer.node_prefix _ nodes)),
              inr refl,
            )
      | inr (version, there) ↦
          let (_, _, same) =
            map_ok-eq-ok (λ _. nodes) (version_allowed version true) (rw there at e) in
          (
            subst (λ ns. WellFormed layer.node_prefix ns) same w,
            subst (λ ns. Member layer.node_prefix (keys ns)) same
                (version-Member layer.node_prefix nodes version there),
            inl (sym same),
          )
    ]
