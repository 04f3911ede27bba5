-- ===== src/Directory/Links.antt =====
-- The entries of directories below their parents, and the paths that run through them.
use Prim.Native.String.{String}
use text.Mathlib.Text.{◌==◌ as str_eq}
use text.Mathlib.TextEquality.{eq_iff}
use foundationdb_effect.Prelude.{
  suc, ◌+◌, ◌≤◌, ◌≡◌, ◌⊎◌, inl, inr, refl, sym, ap, ◌∙◌, false, none, some, [], ◌∷◌, ◌++◌, length,
  arith, Bool-cases, Option-cases, if_true, if_false, true≢false, none≢some, some-injective,
  length-append,
}
use foundationdb_effect.Bytes.{Bytes, equal_bytes}
use foundationdb_effect.Bytes.Order.{equal_bytes_iff}
use foundationdb_effect.Directory.{find_loop, load_layer, or_empty}
use foundationdb_effect.Directory.State.{
  DirectoryPath, Nodes, NodeRows, rows_of, put_at, child_of, set_child, partition_layer,
}
use foundationdb_effect.Directory.Create.{last_component, parent_path}
use foundationdb_effect.Directory.Decisions.{find_loop_absent, find_loop_present}
use foundationdb_effect.Directory.Children.{rows_of_here, rows_of_there, child_of-set_child}

-- The last step to a node that is reached, where no partition ends the way before: its parent has it
-- under the last component.
pub last_link :
    (nodes : Nodes) (prefix : Bytes) (current : DirectoryPath) (layer : Bytes)
    (path : DirectoryPath) (name : String) (q : Bytes) (found : DirectoryPath) (l : Bytes)
    → last_component path ≡ some name
    → find_loop nodes prefix current layer path ≡ some (q, found, l)
    → (equal_bytes l partition_layer ≡ false) ⊎ (length current + length path ≤ length found)
    → (p : Bytes) × (f : DirectoryPath) × (k : Bytes) × (find_loop nodes prefix current layer
          (parent_path path)
        ≡ some (p, f, k))
      × (child_of name (rows_of p nodes).children ≡ some q)
last_link nodes prefix current layer [] name q found l last e whole = absurd (none≢some last)
last_link nodes prefix current layer (c ∷ []) name q found l last e whole =
    elim (Option-cases (child_of c (rows_of prefix nodes).children)) [
      | inl nothing ↦
          absurd (none≢some (sym (find_loop_absent nodes prefix current layer c [] nothing) ∙ e))
      | inr (child, there) ↦
          let e' = sym (find_loop_present nodes prefix current layer c [] child there) ∙ e in
          let here : child ≡ q =
            elim (Bool-cases (equal_bytes (load_layer child nodes) partition_layer)) [
              | inl stop ↦ ap (λ x. x.0) (some-injective (if_true _ _ stop e'))
              | inr on ↦ ap (λ x. x.0) (some-injective (if_false _ _ on e'))
            ] in
          (
            prefix,
            current,
            layer,
            refl,
            ap (λ n. child_of n (rows_of prefix nodes).children) (sym (some-injective last))
                ∙ there
                ∙ ap some here,
          )
    ]
last_link nodes prefix current layer (c ∷ d ∷ ds) name q found l last e whole =
    elim (Option-cases (child_of c (rows_of prefix nodes).children)) [
      | inl nothing ↦
          absurd
            (none≢some (sym (find_loop_absent nodes prefix current layer c (d ∷ ds) nothing) ∙ e))
      | inr (child, there) ↦
          let e' = sym (find_loop_present nodes prefix current layer c (d ∷ ds) child there) ∙ e in
          let longer : length (current ++ c ∷ []) ≡ suc (length current) =
            omega (arith, length-append current (c ∷ [])) in
          elim (Bool-cases (equal_bytes (load_layer child nodes) partition_layer)) [
            | inl stop ↦
                let same = some-injective (if_true _ _ stop e') in
                elim whole [
                  | inl plain ↦ absurd (
                      true≢false
                        (sym stop ∙ ap (λ x. equal_bytes x.2 partition_layer) same ∙ plain))
                  | inr all ↦ absurd (omega (arith, all, longer, ap (λ x. length x.1) same))
                ]
            | inr on ↦
                let (p, f, k, above, link) =
                  last_link nodes child (current ++ c ∷ []) (load_layer child nodes) (d ∷ ds) name q
                    found l last (if_false _ _ on e')
                    (elim whole [
                      | inl plain ↦ inl plain
                      | inr all ↦ inr (omega (arith, all, longer))
                    ]) in
                (
                  p,
                  f,
                  k,
                  find_loop_present nodes prefix current layer c (parent_path (d ∷ ds)) child there
                      ∙ rw on above,
                  link,
                )
          ]
    ]

-- Where the parent's path is found and the path is not, the parent has no such entry.
pub last_unlinked :
    (nodes : Nodes) (prefix : Bytes) (current : DirectoryPath) (layer : Bytes)
    (path : DirectoryPath) (name : String) (p : Bytes) (found : DirectoryPath) (l : Bytes)
    → last_component path ≡ some name
    → find_loop nodes prefix current layer path ≡ none
    → find_loop nodes prefix current layer (parent_path path) ≡ some (p, found, l)
    → child_of name (rows_of p nodes).children ≡ none
last_unlinked nodes prefix current layer [] name p found l last e above = absurd (none≢some last)
last_unlinked nodes prefix current layer (c ∷ []) name p found l last e above =
    elim (Option-cases (child_of c (rows_of prefix nodes).children)) [
      | inl nothing ↦
          ap (λ n. child_of n (rows_of p nodes).children) (sym (some-injective last))
          ∙ ap (λ x. child_of c (rows_of x.0 nodes).children) (sym (some-injective above))
          ∙ nothing
      | inr (child, there) ↦
          let e' = sym (find_loop_present nodes prefix current layer c [] child there) ∙ e in
          elim (Bool-cases (equal_bytes (load_layer child nodes) partition_layer)) [
            | inl stop ↦ absurd (none≢some (sym (if_true _ _ stop e')))
            | inr on ↦ absurd (none≢some (sym (if_false _ _ on e')))
          ]
    ]
last_unlinked nodes prefix current layer (c ∷ d ∷ ds) name p found l last e above =
    elim (Option-cases (child_of c (rows_of prefix nodes).children)) [
      | inl nothing ↦ absurd (
          none≢some (
            sym (find_loop_absent nodes prefix current layer c (parent_path (d ∷ ds)) nothing)
            ∙ above))
      | inr (child, there) ↦
          let e' = sym (find_loop_present nodes prefix current layer c (d ∷ ds) child there) ∙ e in
          let above' =
            sym (find_loop_present nodes prefix current layer c (parent_path (d ∷ ds)) child there)
            ∙ above in
          elim (Bool-cases (equal_bytes (load_layer child nodes) partition_layer)) [
            | inl stop ↦ absurd (none≢some (sym (if_true _ _ stop e')))
            | inr on ↦
                last_unlinked nodes child (current ++ c ∷ []) (load_layer child nodes) (d ∷ ds) name
                  p found l last (if_false _ _ on e') (if_false _ _ on above')
          ]
    ]

-- Nodes that keep the layers of others and every entry of a directory that they have.
pub record Extends (nodes more : Nodes) : Type 0 where
  pub layers : (prefix : Bytes) → load_layer prefix more ≡ load_layer prefix nodes
  pub links :
      (prefix : Bytes) (c : String) (child : Bytes)
      → child_of c (rows_of prefix nodes).children ≡ some child
      → child_of c (rows_of prefix more).children ≡ some child

-- A path that is found is found the same after links are added.
pub find_loop-Extends :
    (nodes more : Nodes) (prefix : Bytes) (current : DirectoryPath) (layer : Bytes)
    (path : DirectoryPath) (r : Bytes × DirectoryPath × Bytes)
    → Extends nodes more
    → find_loop nodes prefix current layer path ≡ some r
    → find_loop more prefix current layer path ≡ some r
find_loop-Extends nodes more prefix current layer [] r x e = e
find_loop-Extends nodes more prefix current layer (c ∷ cs) r x e =
    elim (Option-cases (child_of c (rows_of prefix nodes).children)) [
      | inl nothing ↦
          absurd (none≢some (sym (find_loop_absent nodes prefix current layer c cs nothing) ∙ e))
      | inr (child, there) ↦
          let e' = sym (find_loop_present nodes prefix current layer c cs child there) ∙ e in
          let more' =
            find_loop_present more prefix current layer c cs child (x.links prefix c child there) in
          let same = x.layers child in
          elim (Bool-cases (equal_bytes (load_layer child nodes) partition_layer)) [
            | inl stop ↦ more' ∙ rw (same, stop) (if_true _ _ stop e')
            | inr on ↦
                more'
                ∙ rw (same, on)
                    (find_loop-Extends nodes more child (current ++ c ∷ []) (load_layer child nodes)
                      cs r x (if_false _ _ on e'))
          ]
    ]

-- A new link below a node.
pub link-Extends :
    (nodes : Nodes) (parent : Bytes) (name : String) (prefix : Bytes)
    → child_of name (rows_of parent nodes).children ≡ none
    → Extends nodes (
        put_at parent
          (record (rows_of parent nodes) {
            children = set_child name prefix (rows_of parent nodes).children;
          })
          nodes)
link-Extends nodes parent name prefix absent = record { layers = layers; links = links }
  where
    rows : NodeRows
    rows = record (rows_of parent nodes) {
      children = set_child name prefix (rows_of parent nodes).children;
    }

    layers : (k : Bytes) → load_layer k (put_at parent rows nodes) ≡ load_layer k nodes
    layers k = elim (Bool-cases (equal_bytes parent k)) [
      | inl here ↦
          ap (λ r. or_empty r.layer) (rows_of_here parent k rows nodes here)
          ∙ ap (λ k. load_layer k nodes) ((equal_bytes_iff parent k).0 here)
      | inr there ↦ ap (λ r. or_empty r.layer) (rows_of_there parent k rows nodes there)
    ]

    links :
        (k : Bytes) (c : String) (child : Bytes)
        → child_of c (rows_of k nodes).children ≡ some child
        → child_of c (rows_of k (put_at parent rows nodes)).children ≡ some child
    links k c child e = elim (Bool-cases (equal_bytes parent k)) [
      | inl here ↦
          let old =
            ap (λ k. child_of c (rows_of k nodes).children) ((equal_bytes_iff parent k).0 here)
            ∙ e in
          ap (λ r. child_of c r.children) (rows_of_here parent k rows nodes here)
          ∙ child_of-set_child name prefix (rows_of parent nodes).children c
          ∙ elim (Bool-cases (str_eq name c)) [
            | inl same ↦ absurd (
                none≢some (
                  sym absent
                  ∙ ap (λ n. child_of n (rows_of parent nodes).children) ((eq_iff name c).0 same)
                  ∙ old))
            | inr other ↦ rw other old
          ]
      | inr there ↦ ap (λ r. child_of c r.children) (rows_of_there parent k rows nodes there) ∙ e
    ]
