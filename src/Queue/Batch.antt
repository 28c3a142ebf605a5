-- ===== src/Queue/Batch.antt =====
-- src/arvel/queue/batch.py: the batch row, its atomic updates, and the bookkeeping that each settled
-- job runs as a process of its own. Each `await` on the database and each callback is one step, so
-- the steps of several jobs interleave freely.
pub mod Run
pub mod Owner
pub mod Steps
pub mod Once
pub mod Catch
pub mod Count
pub mod Carry
pub mod Complete
pub mod Ends
pub mod Stuck
mod Tests
use arvel.Common.{
  ℕ, String, Bool, true, false, not, ◌&&◌, Option, none, some, List, [], ◌∷◌, ◌++◌, is_some,
  if◌then◌else◌, ◌+◌,
}
use arvel.Common.Int.{ℤ, pos, ◌-ℤ◌, leb_ℤ}

-- the callback references and the flag of `options`, set at creation and never changed
pub record Options : Type 0 where
  pub allow_failures : Bool
  pub then_refs : List String
  pub catch_refs : List String
  pub finally_refs : List String

-- the counters and timestamps of the row
pub record JobBatch : Type 0 where
  pub total_jobs : ℕ
  pub pending_jobs : ℤ
  pub failed_jobs : ℕ
  pub cancelled_at : Option ℕ
  pub finished_at : Option ℕ

unfoldable pub finished : JobBatch → Bool
finished b = is_some b.finished_at

unfoldable pub cancelled : JobBatch → Bool
cancelled b = is_some b.cancelled_at

pub record Counts : Type 0 where
  pub total : ℕ
  pub pending : ℤ
  pub failed : ℕ
  pub processed : ℤ

unfoldable pub counts : JobBatch → Counts
counts b = record {
  total = b.total_jobs;
  pending = b.pending_jobs;
  failed = b.failed_jobs;
  processed = pos b.total_jobs -ℤ b.pending_jobs;
}

-- the one UPDATE of `_record_job_outcome`
unfoldable pub record_job_outcome : Bool → JobBatch → JobBatch
record_job_outcome did_fail b = record b {
  pending_jobs = b.pending_jobs -ℤ pos 1;
  failed_jobs = b.failed_jobs + (if did_fail then 1 else 0);
}

-- `_cancel_batch_once`: the guarded UPDATE, with whether this caller flipped the column
unfoldable pub cancel_batch_once : ℕ → JobBatch → JobBatch × Bool
cancel_batch_once now b = elim b.cancelled_at [
  | none ↦ (record b { cancelled_at = some now }, true)
  | some _ ↦ (b, false)
]

-- `_finish_batch_once`
unfoldable pub finish_batch_once : ℕ → JobBatch → JobBatch × Bool
finish_batch_once now b = elim b.finished_at [
  | none ↦ (record b { finished_at = some now }, true)
  | some _ ↦ (b, false)
]

-- `is_batch_cancelled`
unfoldable pub is_batch_cancelled : Option JobBatch → Bool
unfolding cancelled
is_batch_cancelled none = false
is_batch_cancelled (some b) = cancelled b

-- The table's row for the batch, if it is there, and the callbacks that have run, in order.
pub record World : Type 0 where
  pub row : Option JobBatch
  pub caught : List String
  pub thened : List String
  pub finalled : List String

-- Where a process stands: what it awaits next, with its local variables. The number is
-- `updated.pending_jobs`, as it was read back.
pub data Pc : Type 0 where
  -- `apply_job_outcome`: the first find, the UPDATE, the second find; the flag is `exc is not None`
  settle count reread : Bool → Pc
  cancelling : ℤ → Pc
  catching : ℤ → List String → Pc
  closing : ℤ → Pc
  checking : Pc
  -- `finalize_empty_batch`: the UPDATE, and the find after it
  closing_empty finding : Pc
  thenning finallying : List String → Pc
  returned raised : Pc
