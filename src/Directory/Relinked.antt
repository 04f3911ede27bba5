-- ===== src/Directory/Relinked.antt =====
-- The entries after a directory was linked below a new parent and removed from the old one.
use Prim.Native.String.{String}
use text.Mathlib.Text.{◌==◌ as str_eq}
use text.Mathlib.TextEquality.{eq_iff}
use foundationdb_effect.Prelude.{
  ◌≡◌, inl, inr, refl, sym, ap, ◌∙◌, false, none, some, [], ◌∷◌, ◌==◌, ◌&&◌, length, arith,
  Bool-cases, if◌then◌else◌, true≢false, none≢some,
}
use foundationdb_effect.Bytes.{Bytes, equal_bytes}
use foundationdb_effect.Bytes.Order.{equal_bytes_iff}
use foundationdb_effect.Directory.{find_node}
use foundationdb_effect.Directory.State.{
  DirectoryPath, DirectoryLayer, Nodes, Node, rows_of, put_at, child_of, set_child, is_in_partition,
}
use foundationdb_effect.Directory.Create.{last_component, parent_path}
use foundationdb_effect.Directory.Move.{unlink, remove_from_parent, relink}
use foundationdb_effect.Directory.Reached.{parent_link, parent_unlinked, find_node-Extends}
use foundationdb_effect.Directory.Children.{
  rows_of_here, rows_of_there, child_of-set_child, child_of-clear_child,
}
use foundationdb_effect.Directory.Links.{link-Extends}

last_component_full :
    (path : DirectoryPath)
    → (length path == 0) ≡ false
    → (name : String) × (last_component path ≡ some name)
last_component_full [] full = absurd (true≢false full)
last_component_full (c ∷ []) full = (c, refl)
last_component_full (c ∷ d ∷ ds) full = last_component_full (d ∷ ds) (ground arith)

-- The entries after an entry of one parent was made an entry of another: the new one is there, the old
-- one is not, and all others are as they were.
pub record Relinked (nodes nodes' : Nodes) (old old_parent parent : Node) (old_name name : String)
    : Type 0 where
  pub linked : child_of name (rows_of parent.prefix nodes').children ≡ some old.prefix
  pub unlinked : child_of old_name (rows_of old_parent.prefix nodes').children ≡ none
  pub entries :
      (p : Bytes) (c : String)
      → child_of c (rows_of p nodes').children ≡ (
          if equal_bytes old_parent.prefix p && str_eq old_name c
          then none
          else if equal_bytes parent.prefix p && str_eq name c
          then some old.prefix
          else child_of c (rows_of p nodes).children)

-- The nodes with a new link.
abbrev with_link : Node → Node → String → Nodes → Nodes
with_link old parent name nodes =
    let rows = rows_of parent.prefix nodes in
    put_at parent.prefix (record rows { children = set_child name old.prefix rows.children }) nodes

with_link-entries :
    (old parent : Node) (name : String) (nodes : Nodes) (p : Bytes) (c : String)
    → child_of c (rows_of p (with_link old parent name nodes)).children ≡ (
        if equal_bytes parent.prefix p && str_eq name c
        then some old.prefix
        else child_of c (rows_of p nodes).children)
with_link-entries old parent name nodes p c = elim (Bool-cases (equal_bytes parent.prefix p)) [
  | inl here ↦
      ap (λ r. child_of c r.children) (rows_of_here parent.prefix p _ nodes here)
      ∙ child_of-set_child name old.prefix (rows_of parent.prefix nodes).children c
      ∙ ap (λ k. if str_eq name c then some old.prefix else child_of c (rows_of k nodes).children)
          ((equal_bytes_iff parent.prefix p).0 here)
      ∙ rw here refl
  | inr there ↦
      ap (λ r. child_of c r.children) (rows_of_there parent.prefix p _ nodes there) ∙ rw there refl
]

unlink-entries :
    (parent : Node) (name : String) (nodes : Nodes) (p : Bytes) (c : String)
    → child_of c (rows_of p (unlink name (some parent) nodes)).children ≡ (
        if equal_bytes parent.prefix p && str_eq name c
        then none
        else child_of c (rows_of p nodes).children)
unlink-entries parent name nodes p c = elim (Bool-cases (equal_bytes parent.prefix p)) [
  | inl here ↦
      ap (λ r. child_of c r.children) (rows_of_here parent.prefix p _ nodes here)
      ∙ child_of-clear_child name (rows_of parent.prefix nodes).children c
      ∙ ap (λ k. if str_eq name c then none else child_of c (rows_of k nodes).children)
          ((equal_bytes_iff parent.prefix p).0 here)
      ∙ rw here refl
  | inr there ↦
      ap (λ r. child_of c r.children) (rows_of_there parent.prefix p _ nodes there) ∙ rw there refl
]

-- The two entries are not the same one, as the new one was not there.
apart_entries :
    (nodes : Nodes) (old old_parent parent : Node) (old_name name : String)
    → child_of old_name (rows_of old_parent.prefix nodes).children ≡ some old.prefix
    → child_of name (rows_of parent.prefix nodes).children ≡ none
    → (equal_bytes old_parent.prefix parent.prefix && str_eq old_name name) ≡ false
apart_entries nodes old old_parent parent old_name name there absent =
    elim (Bool-cases (equal_bytes old_parent.prefix parent.prefix)) [
      | inr other ↦ rw other refl
      | inl here ↦ elim (Bool-cases (str_eq old_name name)) [
        | inr other ↦ rw (here, other) refl
        | inl same ↦ absurd (
            none≢some (
              sym absent
              ∙ ap (λ n. child_of n (rows_of parent.prefix nodes).children)
                  (sym ((eq_iff old_name name).0 same))
              ∙ ap (λ p. child_of old_name (rows_of p nodes).children)
                  (sym ((equal_bytes_iff old_parent.prefix parent.prefix).0 here))
              ∙ there))
      ]
    ]

-- What the writes of a move come to.
pub relink-Relinked :
    (layer : DirectoryLayer) (old_path new_path : DirectoryPath) (old parent : Node) (name : String)
    (nodes : Nodes)
    → (length old_path == 0) ≡ false
    → find_node layer old_path nodes ≡ some old
    → is_in_partition old false ≡ false
    → find_node layer new_path nodes ≡ none
    → find_node layer (parent_path new_path) nodes ≡ some parent
    → last_component new_path ≡ some name
    → (old_parent : Node) × (old_name : String) × (find_node layer (parent_path old_path) nodes
        ≡ some old_parent)
      × (last_component old_path ≡ some old_name)
      × Relinked nodes
          (relink layer old_path old parent name nodes)
          old
          old_parent
          parent
          old_name
          name
relink-Relinked layer old_path new_path old parent name nodes full found outside free above last =
    let (old_name, old_last) = last_component_full old_path full in
    let (old_parent, old_above, there) =
      parent_link layer old_path nodes old old_name found outside old_last in
    let absent = parent_unlinked layer new_path nodes parent name free above last in
    let apart = apart_entries nodes old old_parent parent old_name name there absent in
    let more = with_link old parent name nodes in
    let after : relink layer old_path old parent name nodes
        ≡ unlink old_name (some old_parent) more =
      ap (λ n. remove_from_parent layer old_path more n) old_last
      ∙ ap (λ p. unlink old_name p more)
          (find_node-Extends layer (parent_path old_path) nodes more old_parent
            (link-Extends nodes parent.prefix name old.prefix absent) old_above) in
    let entries = λ (p : Bytes) (c : String).
      ap (λ ns. child_of c (rows_of p ns).children) after
      ∙ unlink-entries old_parent old_name more p c
      ∙ ap (λ e. if equal_bytes old_parent.prefix p && str_eq old_name c then none else e)
          (with_link-entries old parent name nodes p c) in
    (
      old_parent,
      old_name,
      old_above,
      old_last,
      record {
        linked =
            entries parent.prefix name
            ∙ rw
                (
                  apart,
                  (equal_bytes_iff parent.prefix parent.prefix).1 refl,
                  (eq_iff name name).1 refl,
                )
                refl;
        unlinked =
            entries old_parent.prefix old_name
            ∙ rw
                (
                  (equal_bytes_iff old_parent.prefix old_parent.prefix).1 refl,
                  (eq_iff old_name old_name).1 refl,
                )
                refl;
        entries = entries;
      },
    )
