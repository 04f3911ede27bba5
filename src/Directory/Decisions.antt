-- ===== src/Directory/Decisions.antt =====
-- Where `createOrOpenInternal` goes on, and the nodes that `findNode` finds.
use Prim.Native.String.{String}
use text.Mathlib.Text.{◌==◌ as str_eq}
use foundationdb_effect.Prelude.{
  suc, ◌+◌, ◌<◌, ◌≡◌, ◌⊎◌, inl, inr, refl, sym, ap, ◌∙◌, subst, arith, Bool, true, false, ◌&&◌, not,
  Option, none, some, List, [], ◌∷◌, ◌++◌, ◌==◌, length, length-append, Bool-cases, Option-cases,
  if_true, if_false, true≢false, none≢some, some-injective, if◌then◌else◌,
}
use foundationdb_effect.Prelude.Result.{Result, ok, err, ok-injective, map_ok-eq-ok}
use foundationdb_effect.Bytes.{Bytes, equal_bytes}
use foundationdb_effect.Directory.{
  find_loop, make_node, find_node, load_layer, check_version, version_allowed,
}
use foundationdb_effect.Directory.State.{
  DirectoryError, DirectoryPath, DirectoryLayer, Nodes, rows_of, child_of, partition_layer, Node,
  partition_subpath, is_in_partition, nested_layer,
}
use foundationdb_effect.Directory.Free.{keys, Member}
use foundationdb_effect.Directory.Consistent.{ChildrenIn, ClosedIn, ChildrenIn-rows_of}
use foundationdb_effect.Directory.Create.{
  CreateDecision, decided, in_partition, missing, get_contents, decide_found, decide_checked,
  decide, is_given, incompatible,
}

child_of-Member :
    (ps : List Bytes) (name : String) (children : List (String × Bytes)) (p : Bytes)
    → ChildrenIn ps children
    → child_of name children ≡ some p
    → Member p ps
child_of-Member ps name [] p h e = absurd (none≢some e)
child_of-Member ps name ((n, q) ∷ rest) p h e = elim (Bool-cases (str_eq n name)) [
  | inl same ↦ subst (λ p. Member p ps) (some-injective (if_true _ _ same e)) h.0
  | inr other ↦ child_of-Member ps name rest p h.1 (if_false _ _ other e)
]

pub find_loop_absent :
    (nodes : Nodes) (prefix : Bytes) (current : DirectoryPath) (layer : Bytes) (c : String)
    (cs : DirectoryPath)
    → child_of c (rows_of prefix nodes).children ≡ none
    → find_loop nodes prefix current layer (c ∷ cs) ≡ none
find_loop_absent nodes prefix current layer c cs e = rw (e, find_loop) refl

pub find_loop_present :
    (nodes : Nodes) (prefix : Bytes) (current : DirectoryPath) (layer : Bytes) (c : String)
    (cs : DirectoryPath) (child : Bytes)
    → child_of c (rows_of prefix nodes).children ≡ some child
    → find_loop nodes prefix current layer (c ∷ cs) ≡ (
        if equal_bytes (load_layer child nodes) partition_layer
        then some (child, current ++ c ∷ [], load_layer child nodes)
        else find_loop nodes child (current ++ c ∷ []) (load_layer child nodes) cs)
find_loop_present nodes prefix current layer c cs child e = rw (e, find_loop) refl

-- A node found lies among the nodes, behind at least one component more of the path.
find_loop-Member :
    (nodes : Nodes) (prefix : Bytes) (current : DirectoryPath) (layer : Bytes)
    (path : DirectoryPath) (q : Bytes) (found : DirectoryPath) (l : Bytes)
    → ClosedIn (keys nodes) nodes
    → find_loop nodes prefix current layer path ≡ some (q, found, l)
    → ((path ≡ []) × (q ≡ prefix) × (found ≡ current))
      ⊎ (Member q (keys nodes) × (length current < length found))
find_loop-Member nodes prefix current layer [] q found l closed e =
    let e' = some-injective e in inl (refl, sym (ap (λ x. x.0) e'), sym (ap (λ x. x.1) e'))
find_loop-Member nodes prefix current layer (c ∷ cs) q found l closed e =
    elim (Option-cases (child_of c (rows_of prefix nodes).children)) [
      | inl nothing ↦
          absurd (none≢some (sym (find_loop_absent nodes prefix current layer c cs nothing) ∙ e))
      | inr (child, there) ↦
          let member =
            child_of-Member (keys nodes) c (rows_of prefix nodes).children child
              (ChildrenIn-rows_of (keys nodes) prefix nodes closed) there in
          let e' = sym (find_loop_present nodes prefix current layer c cs child there) ∙ e in
          let longer : length (current ++ c ∷ []) ≡ suc (length current) =
            omega (arith, length-append current (c ∷ [])) in
          elim (Bool-cases (equal_bytes (load_layer child nodes) partition_layer)) [
            | inl stop ↦
                let e'' = some-injective (if_true _ _ stop e') in
                inr (
                  subst (λ q. Member q (keys nodes)) (ap (λ x. x.0) e'') member,
                  omega (arith, longer, ap (λ x. length x.1) e''),
                )
            | inr on ↦
                elim (find_loop-Member nodes child (current ++ c ∷ []) (load_layer child nodes) cs q
                  found l closed (if_false _ _ on e')) [
                    | inl (_, here, same) ↦ inr (
                      subst (λ q. Member q (keys nodes)) (sym here) member,
                      omega (arith, longer, ap (λ x. length x) same),
                    )
                    | inr (m, less) ↦ inr (m, omega (arith, less, longer))
                  ]
          ]
    ]

pub find_node-Member :
    (layer : DirectoryLayer) (path : DirectoryPath) (nodes : Nodes) (node : Node)
    → ClosedIn (keys nodes) nodes
    → (length path == 0) ≡ false
    → find_node layer path nodes ≡ some node
    → Member node.prefix (keys nodes) × (0 < length node.current_path) × (node.target_path ≡ path)
unfolding find_node
find_node-Member layer path nodes node closed full e =
    elim (Option-cases (
      find_loop nodes layer.node_prefix []
        (if length path == 0 then load_layer layer.node_prefix nodes else []) path)) [
          | inl nothing ↦ absurd (none≢some (sym (ap (make_node path) nothing) ∙ e))
          | inr ((q, found, l), there) ↦
              let same = some-injective (sym (ap (make_node path) there) ∙ e) in
              elim (find_loop-Member nodes layer.node_prefix [] _ path q found l closed there) [
                | inl (empty, _, _) ↦
                    absurd (true≢false (sym (ap (λ p. length p == 0) empty) ∙ full))
                | inr (member, less) ↦ (
                  subst (λ q. Member q (keys nodes)) (ap (λ n. n.prefix) same) member,
                  omega (arith, less, ap (λ n. length n.current_path) same),
                  sym (ap (λ n. n.target_path) same),
                )
              ]
        ]

-- A partition on the way to a path is on the way to every longer one.
pub partition_stays :
    (nodes : Nodes) (prefix : Bytes) (current : DirectoryPath) (layer : Bytes)
    (xs ys : DirectoryPath) (q : Bytes) (found : DirectoryPath) (l : Bytes)
    → find_loop nodes prefix current layer xs ≡ some (q, found, l)
    → equal_bytes l partition_layer ≡ true
    → length found < length current + length xs
    → (r : Bytes × DirectoryPath × Bytes) × (find_loop nodes prefix current layer (xs ++ ys)
        ≡ some r)
partition_stays nodes prefix current layer [] ys q found l e part less =
    absurd (omega (arith, less, ap (λ x. length x.1) (some-injective e)))
partition_stays nodes prefix current layer (c ∷ cs) ys q found l e part less =
    elim (Option-cases (child_of c (rows_of prefix nodes).children)) [
      | inl nothing ↦
          absurd (none≢some (sym (find_loop_absent nodes prefix current layer c cs nothing) ∙ e))
      | inr (child, there) ↦
          let e' = sym (find_loop_present nodes prefix current layer c cs child there) ∙ e in
          let longer : length (current ++ c ∷ []) ≡ suc (length current) =
            omega (arith, length-append current (c ∷ [])) in
          elim (Bool-cases (equal_bytes (load_layer child nodes) partition_layer)) [
            | inl stop ↦ (
              (child, current ++ c ∷ [], load_layer child nodes),
              find_loop_present nodes prefix current layer c (cs ++ ys) child there ∙ rw stop refl,
            )
            | inr on ↦
                let (r, later) =
                  partition_stays nodes child (current ++ c ∷ []) (load_layer child nodes) cs ys q
                    found l (if_false _ _ on e') part (omega (arith, less, longer)) in
                (
                  r,
                  find_loop_present nodes prefix current layer c (cs ++ ys) child there
                      ∙ rw on later,
                )
          ]
    ]

-- What a decision says of the node found.
abbrev pub Explains : DirectoryLayer → DirectoryPath → Nodes → CreateDecision → Type 0
Explains layer path nodes (decided (err _)) = Unit
Explains layer path nodes (decided (ok output)) =
    (node : Node) × (find_node layer path nodes ≡ some node)
    × ((length path == 0) ≡ false)
    × (output ≡ get_contents layer node)
Explains layer path nodes (in_partition inner subpath) =
    (node : Node) × (find_node layer path nodes ≡ some node)
    × ((length path == 0) ≡ false)
    × (is_in_partition node false ≡ true)
    × (inner ≡ nested_layer layer node.prefix node.current_path)
    × (subpath ≡ partition_subpath node)
Explains layer path nodes missing =
    (find_node layer path nodes ≡ none) × ((length path == 0) ≡ false)

found-Explains :
    (layer : DirectoryLayer) (path : DirectoryPath) (expected : Option Bytes) (ac ao : Bool)
    (nodes : Nodes) (found : Option Node)
    → find_node layer path nodes ≡ found
    → (length path == 0) ≡ false
    → Explains layer path nodes (decide_found layer expected ac ao found)
found-Explains layer path expected ac ao nodes none e full = elim (Bool-cases ac) [
  | inl create ↦ rw create (e, full)
  | inr opens ↦ rw opens tt
]
found-Explains layer path expected ac ao nodes (some node) e full =
    elim (Bool-cases (is_in_partition node false)) [
      | inl inside ↦
          let part : equal_bytes node.layer partition_layer ≡ true = grind arith in
          rw (inside, part) (node, e, full, inside, refl, refl)
      | inr outside ↦ elim (Bool-cases (not ao)) [
        | inl exists ↦ rw (outside, exists) tt
        | inr opens ↦ elim (Bool-cases (incompatible expected node.layer)) [
          | inl wrong ↦ rw (outside, opens, wrong) tt
          | inr right ↦ rw (outside, opens, right) (node, e, full, refl)
        ]
      ]
    ]

checked-Explains :
    (layer : DirectoryLayer) (path : DirectoryPath) (prefix expected : Option Bytes) (ac ao : Bool)
    (nodes : Nodes) (checked : Result DirectoryError Nodes)
    → ((nodes' : Nodes) → checked ≡ ok nodes' → nodes' ≡ nodes)
    → Explains layer path nodes (decide_checked layer path prefix expected ac ao checked)
checked-Explains layer path prefix expected ac ao nodes (err _) same = tt
checked-Explains layer path prefix expected ac ao nodes (ok nodes') same =
    elim (Bool-cases (is_given prefix && not layer.allow_manual_prefixes)) [
      | inl refused ↦ rw refused tt
      | inr allowed ↦ elim (Bool-cases (length path == 0)) [
        | inl empty ↦ rw (allowed, empty) tt
        | inr full ↦
            rw (allowed, full)
              (found-Explains layer path expected ac ao nodes (find_node layer path nodes')
                (ap (find_node layer path) (sym (same nodes' refl))) full)
      ]
    ]

check_version-read :
    (layer : DirectoryLayer) (nodes nodes' : Nodes)
    → check_version layer false nodes ≡ ok nodes'
    → nodes' ≡ nodes
unfolding check_version
check_version-read layer nodes nodes' e =
    elim (Option-cases (rows_of layer.node_prefix nodes).version) [
      | inl absent ↦ sym (ok-injective (rw absent at e))
      | inr (version, there) ↦
          let (_, _, same) =
            map_ok-eq-ok (λ _. nodes) (version_allowed version false) (rw there at e) in
          sym same
    ]

pub decide-Explains :
    (layer : DirectoryLayer) (path : DirectoryPath) (prefix expected : Option Bytes) (ac ao : Bool)
    (nodes : Nodes)
    → Explains layer path nodes (decide layer path prefix expected ac ao nodes)
unfolding decide
decide-Explains layer path prefix expected ac ao nodes =
    checked-Explains layer path prefix expected ac ao nodes (check_version layer false nodes)
      (check_version-read layer nodes)
