-- ===== src/Queue/Cleanup.antt =====
-- `cleanupState`: the entries of a final state that are old enough are deleted, a batch of rows in
-- each transaction.
use foundationdb_effect.Prelude.Maps.{update, update_text}
use foundationdb_effect.Prelude.{
  ℕ, Bool, true, false, none, some, List, [], ◌∷◌, if◌then◌else◌, length,
}
use foundationdb_effect.Prelude.Int.{ℤ, pos, ltb_ℤ}
use foundationdb_effect.Queue.Index.{Row, Index}
use foundationdb_effect.Queue.State.{EntryState, completed, failed, Metadata, Queue, index_before}

-- The argument `state` of `cleanupState`.
pub data FinalState : Type 0 where
  is_completed is_failed : FinalState

abbrev pub has_state : FinalState → EntryState → Bool
has_state is_completed completed = true
has_state is_failed failed = true
has_state _ _ = false

-- The test on an indexed entry.
abbrev pub is_old : FinalState → ℤ → Metadata → Bool
is_old state cutoff entry =
    if has_state state entry.state
    then (if ltb_ℤ cutoff (pos entry.updated_at) then false else true)
    else false

module _ {Rows : Type 0} (index : Index Rows) where
  -- The rows of the state's index.
  abbrev pub rows_of : FinalState → Queue Rows → Rows
  rows_of is_completed q = q.completed_index
  rows_of is_failed q = q.failed_index

  abbrev pub remove_row : FinalState → Row → Queue Rows → Queue Rows
  remove_row is_completed row q = record q {
    completed_index = index.remove row.time row.sequence q.completed_index;
  }
  remove_row is_failed row q = record q {
    failed_index = index.remove row.time row.sequence q.failed_index;
  }

  -- `clearEntry`, with the id
  abbrev pub clear_entry : ℕ → Metadata → Queue Rows → Queue Rows
  clear_entry sequence entry q = record q {
    metadata = update q.metadata sequence none;
    elements = update q.elements sequence none;
    ids = update_text q.ids entry.id none;
  }

  -- One round of the loop of `cleanupState`'s transaction.
  unfoldable pub cleanup_row : FinalState → ℤ → Row → Queue Rows → Queue Rows
  cleanup_row state cutoff row q = elim (q.metadata row.value) [
    | none ↦ remove_row state row q
    | some entry ↦
        remove_row state row
          (if is_old state cutoff entry then clear_entry row.value entry q else q)
  ]

  unfoldable pub cleanup_rows : FinalState → ℤ → List Row → Queue Rows → Queue Rows
  cleanup_rows state cutoff [] q = q
  cleanup_rows state cutoff (row ∷ rows) q =
      cleanup_rows state cutoff rows (cleanup_row state cutoff row q)

  -- The transaction, with the number of rows that it handled.
  unfoldable pub cleanup_batch : FinalState → ℤ → Queue Rows → ℕ × Queue Rows
  cleanup_batch state cutoff q =
      let rows = index_before index (rows_of state q) cutoff in
      (length rows, cleanup_rows state cutoff rows q)
