-- ===== src/Directory/Children.antt =====
-- The rows of nodes and the children in them after a write.
use Prim.Native.String.{String}
use text.Mathlib.Text.{◌==◌ as str_eq}
use text.Mathlib.TextEquality.{eq_iff}
use foundationdb_effect.Prelude.{
  ◌≡◌, inl, inr, refl, ◌∙◌, true, false, none, some, List, [], ◌∷◌, arith, Bool-cases,
  if◌then◌else◌,
}
use foundationdb_effect.Bytes.{Bytes, equal_bytes}
use foundationdb_effect.Directory.State.{
  Nodes, NodeRows, rows_of, put_at, child_of, set_child, no_rows,
}
use foundationdb_effect.Directory.Consistent.{at-put_at_any}
use foundationdb_effect.Directory.Move.{clear_child}

pub rows_of_here :
    (parent k : Bytes) (rows : NodeRows) (nodes : Nodes)
    → equal_bytes parent k ≡ true
    → rows_of k (put_at parent rows nodes) ≡ rows
rows_of_here parent k rows nodes here = at-put_at_any no_rows parent k rows nodes ∙ rw here refl

pub rows_of_there :
    (parent k : Bytes) (rows : NodeRows) (nodes : Nodes)
    → equal_bytes parent k ≡ false
    → rows_of k (put_at parent rows nodes) ≡ rows_of k nodes
rows_of_there parent k rows nodes there = at-put_at_any no_rows parent k rows nodes ∙ rw there refl

pub child_of-set_child :
    (name : String) (prefix : Bytes) (children : List (String × Bytes)) (c : String)
    → child_of c (set_child name prefix children)
      ≡ (if str_eq name c then some prefix else child_of c children)
child_of-set_child name prefix [] c = refl
child_of-set_child name prefix ((n, p) ∷ rest) c = elim (Bool-cases (str_eq n name)) [
  | inl same ↦ rw ((eq_iff n name).0 same, (eq_iff name name).1 refl) (grind arith)
  | inr other ↦ rw (other, child_of-set_child name prefix rest c) (grind (arith, eq_iff))
]

pub child_of-clear_child :
    (name : String) (children : List (String × Bytes)) (c : String)
    → child_of c (clear_child name children) ≡ (if str_eq name c then none else child_of c children)
child_of-clear_child name [] c = grind arith
child_of-clear_child name ((n, p) ∷ rest) c = elim (Bool-cases (str_eq n name)) [
  | inl same ↦
      rw ((eq_iff n name).0 same, (eq_iff name name).1 refl)
        (child_of-clear_child name rest c ∙ grind arith)
  | inr other ↦ rw (other, child_of-clear_child name rest c) (grind (arith, eq_iff))
]
