-- ===== src/Events/FrameBody.antt =====
-- src/arvel/events/dispatcher.py: the works of a buffer, bodies and transactions commute with
-- what was made and buffered before them, too.
use arvel.Common.{
  ◌≡◌, refl, ap, ◌∙◌, false, Option, none, some, List, [], ◌∷◌, Option-cases, is_some, inl, inr,
}
use arvel.Events.{Error, exception, cancellation, Event, Arg, Dispatcher}
use arvel.Events.World.{
  Happening, ran, Work, fires, enqueues, callback, World, world, Run, pure, ◌>>=◌, buffer_now,
  set_buffer,
}
use arvel.Events.Fire.{Seams, failure, call_sender, dispatch}
use arvel.Events.Frame.{
  Framed, after, after_run, pure-Framed, bind-Framed, buffer-Framed, after_commit-Framed,
  call_sender-Framed, enqueue-Framed, dispatch-Framed,
}
use arvel.Events.Transaction.{
  Action, dispatches, defers, nested, attempts, raises_error, Body, done, step, run_work, earlier,
  go_on, run_works, works_of, close, transaction_in, transaction, caught, unless_failed, run_action,
  run_body,
}

module _ (seams : Seams) (d : Dispatcher) where
  module _ (made : List Happening) (works : List Work) where
    dispatched-Framed :
        (event : Event) (payload : List Arg)
        → Framed made works (do fired ← dispatch seams d event payload; pure (failure fired))
    dispatched-Framed event payload =
        bind-Framed made works (dispatch seams d event payload) (λ fired. pure (failure fired))
          (dispatch-Framed made works seams d event payload)
          (λ fired. pure-Framed made works (failure fired))

    pub run_work-Framed : (work : Work) → Framed made works (run_work seams d work)
    unfolding run_work
    run_work-Framed (fires event payload) = dispatched-Framed event payload
    run_work-Framed (enqueues o) = enqueue-Framed made works seams o
    run_work-Framed (callback name e) = call_sender-Framed made works (ran name) e

    go_on-Framed :
        (first e : Option Error) (rest : Option Error → Run (Option Error))
        → ((f : Option Error) → Framed made works (rest f))
        → Framed made works (go_on first e rest)
    unfolding go_on
    go_on-Framed first none rest h = h first
    go_on-Framed first (some (exception e)) rest h = h (earlier first (exception e))
    go_on-Framed first (some (cancellation e)) rest h =
        pure-Framed made works (some (cancellation e))

    pub run_works-Framed :
        (first : Option Error) (ws : List Work) → Framed made works (run_works seams d first ws)
    unfolding run_works
    run_works-Framed first [] = pure-Framed made works first
    run_works-Framed first (w ∷ ws) =
        bind-Framed made works (run_work seams d w)
          (λ e. go_on first e (λ f. run_works seams d f ws)) (run_work-Framed w)
          (λ e. go_on-Framed first e (λ f. run_works seams d f ws) (λ f. run_works-Framed f ws))

    unless_failed-Framed :
        (e : Option Error) (next : Run (Option Error))
        → Framed made works next
        → Framed made works (unless_failed e next)
    unless_failed-Framed none next h = h
    unless_failed-Framed (some e) next h = pure-Framed made works (some e)

    close-Framed :
        (e : Option Error) (w : World)
        → (close seams d e (after made [] w) ≡ after_run made works (close seams d e w))
          × (is_some (close seams d e w).1.buffer ≡ false)
    unfolding close set_buffer buffer_now works_of
    close-Framed (some e) w = (refl, refl)
    close-Framed none w = elim (Option-cases w.buffer) [
      | inl b ↦ rw (b) (run_works-Framed none [] (world w.made none))
      | inr (ws, b) ↦ rw (b) (run_works-Framed none ws (world w.made none))
    ]

  transaction-Framed :
      (run : Run (Option Error))
      → ((made : List Happening) (works : List Work) → Framed made works run)
      → (made : List Happening) (works : List Work) → Framed made works (transaction seams d run)
  unfolding transaction set_buffer
  transaction-Framed run h made works =
      buffer-Framed made works (transaction_in seams d run)
        (λ m.
          let (e, w) = run (world m (some [])) in
          let (commutes, closed) = close-Framed made works e w in
          (ap (λ r. close seams d r.0 r.1) (h made [] (world m (some []))).0 ∙ commutes, closed))
        (λ m ws. h made works (world m (some ws)))

  mutual
    unfolding run_action run_body

    run_action-Framed :
        (action : Action) (made : List Happening) (works : List Work)
        → Framed made works (run_action seams d action)
    run_action-Framed (dispatches event payload) made works =
        dispatched-Framed made works event payload
    run_action-Framed (defers name e) made works =
        after_commit-Framed made works (callback name e) (call_sender (ran name) e)
          (call_sender-Framed made works (ran name) e)
    run_action-Framed (nested body) made works =
        transaction-Framed (run_body seams d body) (run_body-Framed body) made works
    run_action-Framed (attempts body) made works =
        bind-Framed made works (transaction seams d (run_body seams d body)) (λ e. pure (caught e))
          (transaction-Framed (run_body seams d body) (run_body-Framed body) made works)
          (λ e. pure-Framed made works (caught e))
    run_action-Framed (raises_error e) made works = pure-Framed made works (some e)

    pub run_body-Framed :
        (body : Body) (made : List Happening) (works : List Work)
        → Framed made works (run_body seams d body)
    run_body-Framed done made works = pure-Framed made works none
    run_body-Framed (step action body) made works =
        bind-Framed made works (run_action seams d action)
          (λ e. unless_failed e (run_body seams d body)) (run_action-Framed action made works)
          (λ e.
            unless_failed-Framed made works e (run_body seams d body)
              (run_body-Framed body made works))
