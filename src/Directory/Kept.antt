-- ===== src/Directory/Kept.antt =====
-- `createInternal` under a parent, on layers that are well-formed.
use Prim.Native.String.{String}
use foundationdb_effect.Prelude.{
  ℕ, zero, suc, ◌<◌, ◌≡◌, inl, inr, refl, sym, ap, subst, arith, Bool, true, false, Option, none,
  some, List, [], ◌++◌, leb, ltb, length, Bool-cases, if_true, if_false, All-append,
}
use foundationdb_effect.Prelude.Int.{pos}
use foundationdb_effect.Prelude.Result.{
  ok, ok-injective, map_err-eq-ok, err≢ok, map_ok-eq-ok, >>=-eq-ok,
}
use foundationdb_effect.Bytes.{Bytes, IsBytes, equal_bytes, increment_prefix}
use foundationdb_effect.Tuple.Encode.{append_integer, append_magnitude, magnitude_bytes}
use foundationdb_effect.Tuple.Magnitude.{magnitude_bytes-IsBytes}
use foundationdb_effect.Directory.{is_prefix_free, or_empty}
use foundationdb_effect.Directory.State.{
  DirectoryPath, DirectoryLayer, Database, nodes_of, partition_layer, DirectoryOutput,
  directory_subspace, directory_partition, contents_of_node,
}
use foundationdb_effect.Directory.Free.{keys, Member}
use foundationdb_effect.Directory.Finds.{is_prefix_free-Apart}
use foundationdb_effect.Directory.Consistent.{
  WellFormed, AllWellFormed, at-All, put_at-All, at-put_at,
}
use foundationdb_effect.Directory.Writes.{add_node-WellFormed}
use foundationdb_effect.Directory.Create.{
  Surroundings, packed_integer, check_empty, choose_prefix, create_at, create_under,
}

-- The directory that is returned is among some nodes.
abbrev pub OutputIn : List Bytes → DirectoryOutput → Type 0
OutputIn ps (directory_subspace _ prefix _) = Member prefix ps
OutputIn ps (directory_partition _ _) = Unit

pub contents_of_node-OutputIn :
    (ps : List Bytes) (layer : DirectoryLayer) (prefix : Bytes) (path : DirectoryPath)
    (node_layer : Bytes)
    → Member prefix ps
    → OutputIn ps (contents_of_node layer prefix path node_layer)
contents_of_node-OutputIn ps layer prefix path node_layer m =
    elim (Bool-cases (equal_bytes node_layer partition_layer)) [
      | inl part ↦ rw part tt
      | inr other ↦ rw other m
    ]

append_magnitude-IsBytes :
    (bs packed : Bytes) → IsBytes bs → append_magnitude [] false bs ≡ ok packed → IsBytes packed
unfolding append_magnitude
append_magnitude-IsBytes bs packed b e = elim (Bool-cases (ltb 255 (length bs))) [
  | inl large ↦ absurd (err≢ok (if_true _ _ large e))
  | inr fits ↦ elim (Bool-cases (leb (length bs) 8)) [
    | inl short ↦
        let e' = ok-injective (rw short at (if_false _ _ fits e)) in
        subst IsBytes e' (grind arith, b)
    | inr long ↦
        let e' = ok-injective (rw long at (if_false _ _ fits e)) in
        subst IsBytes e' (omega arith, (grind arith, b))
  ]
]

append_integer-IsBytes :
    (n : ℕ) (packed : Bytes) → append_integer [] (pos n) ≡ ok packed → IsBytes packed
unfolding append_integer
append_integer-IsBytes zero packed e = subst IsBytes (ok-injective e) (omega arith, tt)
append_integer-IsBytes (suc n) packed e =
    append_magnitude-IsBytes (magnitude_bytes (suc n)) packed (magnitude_bytes-IsBytes (suc n)) e

pub WellFormed-nodes_of :
    (layer : DirectoryLayer) (db : Database)
    → AllWellFormed db
    → WellFormed layer.node_prefix (nodes_of layer db)
WellFormed-nodes_of layer db w =
    at-All (λ root nodes. WellFormed root nodes) [] layer.node_prefix db w
      (record { apart = tt; of_bytes = tt; rooted = inl refl; closed = tt })

packed_integer-IsBytes :
    (layer : DirectoryLayer) (n : ℕ) (p : Bytes)
    → IsBytes layer.content_prefix
    → packed_integer layer n ≡ ok p
    → IsBytes p
packed_integer-IsBytes layer n p content e =
    let (packed, there, same) = map_ok-eq-ok _ (append_integer [] (pos n)) (map_err-eq-ok _ _ e) in
    subst IsBytes same (
      All-append (λ b. b < 256) layer.content_prefix (packed ++ []) content
        (All-append (λ b. b < 256) packed [] (append_integer-IsBytes n packed there) tt))

check_empty-eq-ok :
    (occupied : Bytes → Bool) (prefix : Bytes) (end : Option Bytes) {p : Bytes}
    → check_empty occupied prefix end ≡ ok p
    → prefix ≡ p
check_empty-eq-ok occupied prefix none e = absurd (err≢ok e)
check_empty-eq-ok occupied prefix (some end) e = elim (Bool-cases (occupied prefix)) [
  | inl full ↦ absurd (err≢ok (if_true _ _ full e))
  | inr empty ↦ ok-injective (if_false _ _ empty e)
]

module _ (around : Surroundings) (layer : DirectoryLayer) where
  choose_prefix-IsBytes :
      (explicit : Option Bytes) (db : Database) (prefix : Bytes)
      → IsBytes layer.content_prefix
      → ((p : Bytes) → explicit ≡ some p → IsBytes p)
      → choose_prefix around layer explicit db ≡ ok prefix
      → IsBytes prefix
  unfolding choose_prefix
  choose_prefix-IsBytes (some explicit) db prefix content given e =
      given prefix (ap (λ p. some p) (ok-injective e))
  choose_prefix-IsBytes none db prefix content given e =
      let (n, _, e') = >>=-eq-ok (around.allocate_prefix layer db) _ e in
      let (p, packed, e'') = >>=-eq-ok (packed_integer layer n) _ e' in
      subst IsBytes (check_empty-eq-ok (λ p. around.occupied p db) p (increment_prefix p) e'')
        (packed_integer-IsBytes layer n p content packed)

  created-kept :
      (path : DirectoryPath) (name : String) (node_layer : Option Bytes) (parent prefix : Bytes)
      (db : Database) (free : Bool) (output : DirectoryOutput) (db' : Database)
      → AllWellFormed db
      → IsBytes prefix
      → Member parent (keys (nodes_of layer db))
      → is_prefix_free layer prefix (nodes_of layer db) ≡ ok free
      → create_at layer path name node_layer parent prefix db free ≡ ok (output, db')
      → AllWellFormed db' × OutputIn (keys (nodes_of layer db')) output
  created-kept path name node_layer parent prefix db false output db' w b member free e =
      absurd (err≢ok e)
  created-kept path name node_layer parent prefix db true output db' w b member free e =
      let nodes = nodes_of layer db in
      let well = WellFormed-nodes_of layer db w in
      let (added, new) =
        add_node-WellFormed layer.node_prefix parent prefix (or_empty node_layer) name nodes b
          (is_prefix_free-Apart layer prefix nodes b well.apart free) member well in
      subst (λ r. AllWellFormed r.1 × OutputIn (keys (nodes_of layer r.1)) r.0) (ok-injective e)
        (
          put_at-All (λ root nodes. WellFormed root nodes) layer.node_prefix _ db w added,
          contents_of_node-OutputIn _ layer prefix path (or_empty node_layer) (
              subst (λ ns. Member prefix (keys ns)) (sym (at-put_at [] layer.node_prefix _ db))
                new),
        )

  -- The new directory is a node of the layer, apart from all others.
  pub create_under-kept :
      (path : DirectoryPath) (name : String) (explicit node_layer : Option Bytes) (parent : Bytes)
      (db : Database) (output : DirectoryOutput) (db' : Database)
      → AllWellFormed db
      → IsBytes layer.content_prefix
      → ((p : Bytes) → explicit ≡ some p → IsBytes p)
      → Member parent (keys (nodes_of layer db))
      → create_under around layer path name explicit node_layer parent db ≡ ok (output, db')
      → AllWellFormed db' × OutputIn (keys (nodes_of layer db')) output
  create_under-kept path name explicit node_layer parent db output db' w content given member e =
      let (prefix, chosen, e') = >>=-eq-ok (choose_prefix around layer explicit db) _ e in
      let (free, checked, e'') = >>=-eq-ok (is_prefix_free layer prefix (nodes_of layer db)) _ e' in
      created-kept path name node_layer parent prefix db free output db' w
        (choose_prefix-IsBytes explicit db prefix content given chosen) member checked e''
