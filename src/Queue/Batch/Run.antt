-- ===== src/Queue/Batch/Run.antt =====
-- src/arvel/queue/batch.py: the steps of `apply_job_outcome` and `finalize_empty_batch`.
use arvel.Common.{ℕ, String, Bool, not, ◌&&◌, none, some, [], ◌∷◌, ◌++◌, if◌then◌else◌, ◌==◌, ltb}
use arvel.Common.Int.{ℤ, pos, leb_ℤ}
use arvel.Queue.Batch.{
  Options, JobBatch, World, Pc, settle, count, reread, cancelling, catching, closing, checking,
  closing_empty, finding, thenning, finallying, returned, raised, cancelled, record_job_outcome,
  cancel_batch_once, finish_batch_once,
}

-- `raises` says which callbacks raise; `now` is the clock at the step.
module _ (raises : String → Bool) (o : Options) where
  -- after the second find: `if exc is not None and not allow_failures and …`
  unfoldable pub after_count : Bool → ℤ → Pc
  after_count did_fail left =
      if did_fail && not o.allow_failures then cancelling left else closing left

  -- `_finish_batch_once` and the `if` on its result
  unfoldable pub finish_row : ℕ → Pc → World → JobBatch → World × Pc
  unfolding finish_batch_once
  finish_row now won_pc w b =
      let (b', won) = finish_batch_once now b in
      (record w { row = some b' }, if won then won_pc else returned)

  -- a step that has found the row
  unfoldable pub step_row : ℕ → Pc → World → JobBatch → World × Pc
  unfolding after_count record_job_outcome cancel_batch_once finish_row cancelled
  step_row now (settle f) w b = (w, count f)
  step_row now (count f) w b = (record w { row = some (record_job_outcome f b) }, reread f)
  step_row now (reread f) w b = (w, after_count f b.pending_jobs)
  step_row now (cancelling left) w b =
      let (b', won) = cancel_batch_once now b in
      (record w { row = some b' }, if won then catching left o.catch_refs else closing left)
  step_row now (closing left) w b =
      if leb_ℤ left (pos 0) then finish_row now checking w b else (w, returned)
  step_row now checking w b =
      (w, if cancelled b then finallying o.finally_refs else thenning o.then_refs)
  step_row now closing_empty w b = finish_row now finding w b
  step_row now finding w b = (w, thenning o.then_refs)
  step_row now pc w b = (w, pc)

  -- the same steps where the row is gone: `find_or_fail` raises, an UPDATE touches no row; `Step`
  -- below, which keeps the row, does not lead there
  unfoldable pub step_gone : Pc → Pc
  step_gone (settle f) = returned
  step_gone (count f) = reread f
  step_gone (reread f) = raised
  step_gone (cancelling left) = closing left
  step_gone (closing left) = returned
  step_gone checking = raised
  step_gone closing_empty = returned
  step_gone finding = returned
  step_gone pc = pc

  unfoldable pub step_db : ℕ → Pc → World → World × Pc
  unfolding step_row step_gone
  step_db now pc w = elim w.row [ none ↦ (w, step_gone pc) | some b ↦ step_row now pc w b ]

  -- One step of a process; a callback that raises ends it.
  unfoldable pub step : ℕ → Pc → World → World × Pc
  unfolding step_db
  step now (catching left []) w = (w, closing left)
  step now (catching left (r ∷ rs)) w =
      (record w { caught = w.caught ++ r ∷ [] }, if raises r then raised else catching left rs)
  step now (thenning []) w = (w, finallying o.finally_refs)
  step now (thenning (r ∷ rs)) w =
      (record w { thened = w.thened ++ r ∷ [] }, if raises r then raised else thenning rs)
  step now (finallying []) w = (w, returned)
  step now (finallying (r ∷ rs)) w =
      (record w { finalled = w.finalled ++ r ∷ [] }, if raises r then raised else finallying rs)
  step now returned w = (w, returned)
  step now raised w = (w, raised)
  step now pc w = step_db now pc w

-- `Batch.cancel`, which anybody may call at any time
unfoldable pub cancel : ℕ → World → World
unfolding cancel_batch_once
cancel now w = elim w.row [
  | none ↦ w
  | some b ↦ record w { row = some (cancel_batch_once now b).0 }
]

pub record System : Type 0 where
  pub world : World
  pub procs : ℕ → Pc

abbrev pub update : (ℕ → Pc) → ℕ → Pc → ℕ → Pc
update p i pc j = if j == i then pc else p j

unfoldable pub advance : (String → Bool) → Options → ℕ → ℕ → System → System
advance raises o now i s =
    let (w', pc') = step raises o now (s.procs i) s.world in
    record { world = w'; procs = update s.procs i pc' }

-- The scheduler runs any process, or somebody cancels the batch; nobody deletes the row.
pub data Step (raises : String → Bool) (o : Options) (s : System) : System → Type 0 where
  runs : (now i : ℕ) → Step raises o s (advance raises o now i s)
  cancels : (now : ℕ) → Step raises o s (record s { world = cancel now s.world })

pub data Reach (raises : String → Bool) (o : Options) (s : System) : System → Type 0 where
  here : Reach raises o s s
  next : {t u : System} → Reach raises o s t → Step raises o t u → Reach raises o s u

-- the row that `PendingBatch.dispatch` creates for `n` jobs
abbrev pub created : ℕ → JobBatch
created n = record {
  total_jobs = n;
  pending_jobs = pos n;
  failed_jobs = 0;
  cancelled_at = none;
  finished_at = none;
}

-- `PendingBatch.dispatch`: each pushed job settles some time, job `i` with the outcome `outcome i`;
-- an empty batch is finished by `finalize_empty_batch`.
unfoldable pub start : ℕ → (ℕ → Bool) → System
start n outcome = record {
  world = record { row = some (created n); caught = []; thened = []; finalled = [] };
  procs = λ i.
      if ltb i n then settle (outcome i) else if n == 0 && i == 0 then closing_empty else returned;
}
