-- ===== src/Queue/Index.antt =====
-- One time-ordered index of a queue, as a transaction reads and writes it: rows under the keys
-- `pack([timestamp, sequence])` of a subspace. FoundationDB keeps the rows, so they are an
-- interface: a type of rows with the operations that the repository uses and the laws that
-- FoundationDB documents for them.
use foundationdb_effect.Prelude.{
  ℕ, ◌≤◌, ◌≡◌, Bool, ◌&&◌, Option, none, some, List, ◌==◌, if◌then◌else◌, All,
}

-- A row of a range read: its key, taken apart, and its value.
pub record Row : Type 0 where
  pub time : ℕ
  pub sequence : ℕ
  pub value : ℕ

-- The key of the one row against the key of the other.
abbrev pub same_key : ℕ → ℕ → ℕ → ℕ → Bool
same_key time sequence t s = time == t && sequence == s

pub record Index (Rows : Type 0) : Type 0 where
  -- `transaction.get`, `set` and `clear` at a key of the index
  pub find : ℕ → ℕ → Rows → Option ℕ
  pub put : ℕ → ℕ → ℕ → Rows → Rows
  pub remove : ℕ → ℕ → Rows → Rows
  -- `transaction.getRange` with the limit of `indexBefore`: the rows up to a time, inclusive, or
  -- the rows of the whole subspace.
  pub scan : Option ℕ → Rows → List Row
  pub find-put :
      (time sequence value t s : ℕ) (rows : Rows)
      → find t s (put time sequence value rows)
        ≡ (if same_key time sequence t s then some value else find t s rows)
  pub find-remove :
      (time sequence t s : ℕ) (rows : Rows)
      → find t s (remove time sequence rows)
        ≡ (if same_key time sequence t s then none else find t s rows)
  pub scan_sound :
      (bound : Option ℕ) (rows : Rows)
      → All (λ row. find row.time row.sequence rows ≡ some row.value) (scan bound rows)
  pub scan_until :
      (bound : ℕ) (rows : Rows) → All (λ row. row.time ≤ bound) (scan (some bound) rows)
