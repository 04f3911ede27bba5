-- ===== src/Queue/State.antt =====
-- The entries of a queue, the indexes over them, and the helpers of the repository.
use Prim.Native.String.{String}
use foundationdb_effect.Prelude.Maps.{update, update_text}
use foundationdb_effect.Prelude.{ℕ, ◌+◌, Option, none, some, List, [], leb, if◌then◌else◌, min}
use foundationdb_effect.Prelude.Int.{ℤ, pos, negsuc}
use foundationdb_effect.Prelude.Result.{Result, ok, err}
use foundationdb_effect.Bytes.{Bytes}
use foundationdb_effect.Queue.Index.{Row, Index}

-- `state` of `QueueEntryMetadataFields`
pub data EntryState : Type 0 where
  pending processing completed failed : EntryState

-- `QueueEntryMetadata`. Times are whole milliseconds.
pub record Metadata : Type 0 where
  pub id : String
  pub attempts : ℕ
  pub state : EntryState
  pub visible_at : ℕ
  pub acquired_at : Option ℕ
  pub acquired_by : Option String
  pub updated_at : ℕ

-- The reason of a `QueueStoreFailure` that a transaction can raise on decoded rows.
pub data QueueStoreFailure : Type 0 where
  incomplete_entry : QueueStoreFailure

-- What a transaction sees under one queue's directory: a map for each subspace of `QueueKeys`, with
-- `entries` in its two parts, the metadata and the encoded element.
pub record Queue (Rows : Type 0) : Type 0 where
  pub counter : Option ℕ
  pub signal : ℕ
  pub metadata : ℕ → Option Metadata
  pub elements : ℕ → Option Bytes
  pub ids : String → Option ℕ
  pub claims : String → Option ℕ
  pub pending_index : Rows
  pub lock_index : Rows
  pub completed_index : Rows
  pub failed_index : Rows

abbrev pub max_safe_integer : ℕ
max_safe_integer = 9007199254740991

-- `timestamp`
unfoldable pub timestamp : ℕ → ℕ
timestamp value = min max_safe_integer value

abbrev pub whole_entry :
    Option Metadata → Option Bytes → Result QueueStoreFailure (Option (Metadata × Bytes))
whole_entry none none = ok none
whole_entry (some entry) (some element) = ok (some (entry, element))
whole_entry none (some element) = err incomplete_entry
whole_entry (some entry) none = err incomplete_entry

module _ {Rows : Type 0} where
  -- `readEntry`
  unfoldable pub read_entry : Queue Rows → ℕ → Result QueueStoreFailure (Option (Metadata × Bytes))
  read_entry q sequence = whole_entry (q.metadata sequence) (q.elements sequence)

  -- `writeEntryMetadata`
  abbrev pub write_metadata : ℕ → Metadata → Queue Rows → Queue Rows
  write_metadata sequence entry q = record q { metadata = update q.metadata sequence (some entry) }

  -- `atomicOp(keys.signalKey, signalIncrement, MutationType.Add)`
  abbrev pub raise_signal : Queue Rows → Queue Rows
  raise_signal q = record q { signal = q.signal + 1 }

  abbrev pub clear_claim : String → Queue Rows → Queue Rows
  clear_claim claim_id q = record q { claims = update_text q.claims claim_id none }

  abbrev pub set_claim : String → ℕ → Queue Rows → Queue Rows
  set_claim claim_id sequence q = record q {
    claims = update_text q.claims claim_id (some sequence);
  }

module _ {Rows : Type 0} (index : Index Rows) where
  -- `indexBefore`, of a whole number of milliseconds
  unfoldable pub index_before : Rows → ℤ → List Row
  index_before rows (negsuc _) = []
  index_before rows (pos time) =
      if leb max_safe_integer time then index.scan none rows else index.scan (some time) rows

  abbrev pub put_pending : ℕ → ℕ → Queue Rows → Queue Rows
  put_pending time sequence q = record q {
    pending_index = index.put (timestamp time) sequence sequence q.pending_index;
  }

  abbrev pub put_lock : ℕ → ℕ → Queue Rows → Queue Rows
  put_lock time sequence q = record q {
    lock_index = index.put (timestamp time) sequence sequence q.lock_index;
  }

  abbrev pub put_completed : ℕ → ℕ → Queue Rows → Queue Rows
  put_completed time sequence q = record q {
    completed_index = index.put (timestamp time) sequence sequence q.completed_index;
  }

  abbrev pub put_failed : ℕ → ℕ → Queue Rows → Queue Rows
  put_failed time sequence q = record q {
    failed_index = index.put (timestamp time) sequence sequence q.failed_index;
  }

  abbrev pub remove_pending : Row → Queue Rows → Queue Rows
  remove_pending row q = record q {
    pending_index = index.remove row.time row.sequence q.pending_index;
  }

  abbrev pub remove_lock : ℕ → ℕ → Queue Rows → Queue Rows
  remove_lock time sequence q = record q { lock_index = index.remove time sequence q.lock_index }
