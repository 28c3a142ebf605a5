-- ===== src/Events/Transaction.antt =====
-- src/arvel/events/dispatcher.py: `transaction`, around a body of the calls that the application makes
-- inside it, and the nesting of src/arvel/database/connections.py: a savepoint opens no buffer.
use arvel.Common.{String, Option, none, some, List, [], ◌∷◌}
use arvel.Events.{Error, exception, cancellation, Event, Arg, Dispatcher}
use arvel.Events.World.{
  Work, fires, enqueues, callback, Run, pure, ◌>>=◌, ◌>>◌, buffer_now, set_buffer, ran,
}
use arvel.Events.Fire.{Seams, failure, after_commit, call_sender, enqueue, dispatch}

-- A body: dispatches an event, hands a callback to `after_commit`, opens a transaction inside, lets one
-- run in a `try` that goes on after an `Exception`, or raises.
mutual
  pub data Action : Type 0 where
    dispatches : Event → List Arg → Action
    defers : String → Option Error → Action
    nested attempts : Body → Action
    raises_error : Error → Action

  pub data Body : Type 0 where
    done : Body
    step : Action → Body → Body

unfoldable pub run_work : Seams → Dispatcher → Work → Run (Option Error)
unfolding failure call_sender
run_work seams d (fires event payload) = do
  fired ← dispatch seams d event payload
  pure (failure fired)
run_work seams d (enqueues o) = enqueue seams o
run_work seams d (callback name e) = call_sender (ran name) e

-- the first failure, which a later one does not replace
abbrev pub earlier : Option Error → Error → Option Error
earlier none e = some e
earlier (some f) e = some f

-- after one callback: an `Exception` is kept for later, any other ends the loop
unfoldable pub go_on :
    Option Error → Option Error → (Option Error → Run (Option Error)) → Run (Option Error)
go_on first none rest = rest first
go_on first (some (exception e)) rest = rest (earlier first (exception e))
go_on first (some (cancellation e)) rest = pure (some (cancellation e))

-- The buffered work after the commit. An exception waits until all of it has run.
unfoldable pub run_works : Seams → Dispatcher → Option Error → List Work → Run (Option Error)
unfolding go_on
run_works seams d first [] = pure first
run_works seams d first (work ∷ works) = do
  e ← run_work seams d work
  go_on first e (λ first'. run_works seams d first' works)

unfoldable pub works_of : Option (List Work) → List Work
works_of none = []
works_of (some works) = works

-- the two ends of the outermost transaction
unfoldable pub close : Seams → Dispatcher → Option Error → Run (Option Error)
unfolding works_of
close seams d (some e) = do set_buffer none; pure (some e)
close seams d none = do works ← buffer_now; set_buffer none; run_works seams d none (works_of works)

module _ (seams : Seams) (d : Dispatcher) where
  -- nested in an open transaction, which owns the flush, or the outermost one
  abbrev pub transaction_in : Run (Option Error) → Option (List Work) → Run (Option Error)
  transaction_in body (some _) = body
  transaction_in body none = do set_buffer (some []); e ← body; close seams d e

  unfoldable pub transaction : Run (Option Error) → Run (Option Error)
  transaction body = buffer_now >>= transaction_in body

-- `except Exception`
abbrev pub caught : Option Error → Option Error
caught none = none
caught (some (exception e)) = none
caught (some (cancellation e)) = some (cancellation e)

abbrev pub unless_failed : Option Error → Run (Option Error) → Run (Option Error)
unless_failed none next = next
unless_failed (some e) next = pure (some e)

unfoldable mutual
  pub run_action : Seams → Dispatcher → Action → Run (Option Error)
  run_action seams d (dispatches event payload) = do
    fired ← dispatch seams d event payload
    pure (failure fired)
  run_action seams d (defers name e) = after_commit (callback name e) (call_sender (ran name) e)
  run_action seams d (nested body) = transaction seams d (run_body seams d body)
  run_action seams d (attempts body) = do
    e ← transaction seams d (run_body seams d body)
    pure (caught e)
  run_action seams d (raises_error e) = pure (some e)

  pub run_body : Seams → Dispatcher → Body → Run (Option Error)
  run_body seams d done = pure none
  run_body seams d (step action body) = do
    e ← run_action seams d action
    unless_failed e (run_body seams d body)
