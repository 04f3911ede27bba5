-- ===== src/Queue/Offer.antt =====
-- `offer`: a new entry, unless its id is known.
use Prim.Native.String.{String}
use foundationdb_effect.Prelude.Maps.{update, update_text}
use foundationdb_effect.Prelude.{ℕ, ◌+◌, Option, none, some}
use foundationdb_effect.Bytes.{Bytes}
use foundationdb_effect.Queue.Index.{Index}
use foundationdb_effect.Queue.State.{pending, Metadata, Queue, put_pending, raise_signal}

-- The entry that `offer` writes.
abbrev pub offered : String → ℕ → Metadata
offered id now = record {
  id = id;
  attempts = 0;
  state = pending;
  visible_at = now;
  acquired_at = none;
  acquired_by = none;
  updated_at = now;
}

-- The counter's value, 0n where it is not set.
abbrev pub next_sequence : Option ℕ → ℕ
next_sequence none = 0
next_sequence (some sequence) = sequence

module _ {Rows : Type 0} (index : Index Rows) where
  -- `offer` of an id that is not known, at the sequence of the counter.
  abbrev pub insert_entry : ℕ → String → Bytes → ℕ → Queue Rows → Queue Rows
  insert_entry now id element sequence q = raise_signal (
      put_pending index now sequence (record q {
        metadata = update q.metadata sequence (some (offered id now));
        elements = update q.elements sequence (some element);
        ids = update_text q.ids id (some sequence);
        counter = some (sequence + 1);
      }))

  -- `offer`
  unfoldable pub offer : ℕ → String → Bytes → Queue Rows → Queue Rows
  offer now id element q = elim (q.ids id) [
    | some _ ↦ q
    | none ↦ insert_entry now id element (next_sequence q.counter) q
  ]
