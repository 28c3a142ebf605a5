-- ===== src/Events/Commit.antt =====
-- src/arvel/events/dispatcher.py: what a transaction runs, and when, against a description in which each
-- piece of work is run by itself.
use arvel.Common.{
  String, ◌≡◌, refl, sym, ap, ◌∙◌, false, Option, none, some, List, [], ◌∷◌, ◌++◌, is_some,
}
use mathlib.Core.List.{append_assoc, append-nil}
use arvel.Events.{Error, exception, cancellation, Dispatcher}
use arvel.Events.World.{Happening, Work, World, world, Run, buffer_now, set_buffer}
use arvel.Events.Fire.{Seams}
use arvel.Events.Frame.{after, in_front}
use arvel.Events.FrameBody.{run_work-Framed, run_body-Framed}
use arvel.Events.Transaction.{
  Body, attempts, done, step, run_work, earlier, go_on, run_works, works_of, close, transaction,
  run_body,
}

-- what a run by itself comes to: its failure and the calls it makes
abbrev pub Alone : Type 0
Alone = Option Error × List Happening

-- up to a failure that is no `Exception`
abbrev pub up_to_cancellation : Alone → List Alone → List Alone
up_to_cancellation (none, m) rest = (none, m) ∷ rest
up_to_cancellation (some (exception e), m) rest = (some (exception e), m) ∷ rest
up_to_cancellation (some (cancellation e), m) rest = (some (cancellation e), m) ∷ []

abbrev pub all_made : List Alone → List Happening
all_made [] = []
all_made ((e, m) ∷ runs) = m ++ all_made runs

-- the failure that ends the loop, or else the first
abbrev pub surfaces : Option Error → List Alone → Option Error
surfaces first [] = first
surfaces first ((none, m) ∷ runs) = surfaces first runs
surfaces first ((some (exception e), m) ∷ runs) = surfaces (earlier first (exception e)) runs
surfaces first ((some (cancellation e), m) ∷ runs) = some (cancellation e)

module _ (seams : Seams) (d : Dispatcher) where
  -- a piece of work with no transaction open
  abbrev pub alone : Work → Alone
  alone work = let (e, w) = run_work seams d work (world [] none) in (e, w.made)

  abbrev pub each_alone : List Work → List Alone
  each_alone [] = []
  each_alone (work ∷ works) = up_to_cancellation (alone work) (each_alone works)

  -- the calls of an open transaction's body by itself, and the work it leaves in the buffer
  abbrev pub inside : Body → Option Error × World
  inside body = run_body seams d body (world [] (some []))

  -- what the works come to after a commit, with what had been made
  abbrev pub after_all : List Work → List Happening → Option Error × World
  after_all works made =
      (surfaces none (each_alone works), world (made ++ all_made (each_alone works)) none)

  abbrev pub ended : Option Error → List Work → List Happening → Option Error × World
  ended none works made = after_all works made
  ended (some e) works made = (some e, world made none)

  in_front-none : (b : Option (List Work)) → is_some b ≡ false → in_front [] [] b ≡ none
  in_front-none none h = refl
  in_front-none (some ws) h = cc

  -- with no transaction open, a run makes its calls after those made before, and none is open then
  run_work-alone :
      (work : Work) (made : List Happening)
      → run_work seams d work (world made none)
        ≡ ((alone work).0, world (made ++ (alone work).1) none)
  run_work-alone work made =
      let (commutes, closed) = run_work-Framed seams d made [] work (world [] none) in
      let (e, w) = run_work seams d work (world [] none) in
      sym (ap (λ m. run_work seams d work (world m none)) (append-nil made))
      ∙ commutes
      ∙ ap (λ b. (e, world (made ++ w.made) b)) (in_front-none w.buffer closed)

  -- the loop after one piece of work
  go_on_lem :
      (run : Alone) (first : Option Error) (made : List Happening) (runs : List Alone)
      (rest : Option Error → Run (Option Error))
      → ((f : Option Error) (m : List Happening)
          → rest f (world m none) ≡ (surfaces f runs, world (m ++ all_made runs) none))
      → go_on first run.0 rest (world (made ++ run.1) none) ≡ (
        surfaces first (up_to_cancellation run runs),
        world (made ++ all_made (up_to_cancellation run runs)) none,
      )
  unfolding go_on
  go_on_lem (none, m) first made runs rest h =
      h first (made ++ m)
      ∙ ap (λ l. (surfaces first runs, world l none)) (append_assoc made m (all_made runs))
  go_on_lem (some (exception e), m) first made runs rest h =
      h (earlier first (exception e)) (made ++ m)
      ∙ ap (λ l. (surfaces (earlier first (exception e)) runs, world l none))
          (append_assoc made m (all_made runs))
  go_on_lem (some (cancellation e), m) first made runs rest h =
      ap (λ l. (some (cancellation e), world (made ++ l) none)) (sym (append-nil m))

  run_works_lem :
      (works : List Work) (first : Option Error) (made : List Happening)
      → run_works seams d first works (world made none)
        ≡ (surfaces first (each_alone works), world (made ++ all_made (each_alone works)) none)
  unfolding run_works
  run_works_lem [] first made = ap (λ m. (first, world m none)) (sym (append-nil made))
  run_works_lem (work ∷ works) first made =
      ap (λ r. go_on first r.0 (λ f. run_works seams d f works) r.1) (run_work-alone work made)
      ∙ go_on_lem (alone work) first made (each_alone works) (λ f. run_works seams d f works)
          (run_works_lem works)

  works_of-in_front : (b : Option (List Work)) → works_of (in_front [] [] b) ≡ works_of b
  unfolding works_of
  works_of-in_front none = refl
  works_of-in_front (some ws) = refl

  close_lem :
      (e : Option Error) (w : World) (made : List Happening)
      → close seams d e (after made [] w) ≡ ended e (works_of w.buffer) (made ++ w.made)
  unfolding close set_buffer buffer_now
  close_lem (some e) w made = refl
  close_lem none w made =
      ap (λ ws. run_works seams d none ws (world (made ++ w.made) none))
        (works_of-in_front w.buffer)
      ∙ run_works_lem (works_of w.buffer) none (made ++ w.made)

  -- An outermost transaction makes the calls of its body. Where the body raises, it raises the same, and
  -- of the work left in the buffer nothing runs. Where it does not, each piece of work runs once, in
  -- order and as it would by itself, the others failing or not, up to a cancellation; the first failure
  -- surfaces, a cancellation before any. No transaction is open afterwards.
  pub transaction_lem :
      (body : Body) (made : List Happening)
      → let (e, w) = inside body in
        transaction seams d (run_body seams d body) (world made none)
        ≡ ended e (works_of w.buffer) (made ++ w.made)
  unfolding transaction set_buffer buffer_now
  transaction_lem body made =
      let (commutes, opened) = run_body-Framed seams d body made [] (world [] (some [])) in
      let (e, w) = inside body in
      sym (
        ap (λ m. let (e', w') = run_body seams d body (world m (some [])) in close seams d e' w')
          (append-nil made))
      ∙ ap (λ r. close seams d r.0 r.1) commutes
      ∙ close_lem e w made

  inside-attempts :
      (body : Body) (e : String)
      → (inside body).0 ≡ some (exception e)
      → inside (step (attempts body) done) ≡ (none, (inside body).1)
  unfolding run_body transaction buffer_now
  inside-attempts body e h = rw (h) refl

  -- A transaction inside that is rolled back by an exception, which the body catches, leaves its work
  -- in the outer buffer: the outer commit runs it as if the exception had not been.
  pub rolled_back_work_runs :
      (body : Body) (made : List Happening) (e : String)
      → (inside body).0 ≡ some (exception e)
      → transaction seams d (run_body seams d (step (attempts body) done)) (world made none)
        ≡ after_all (works_of (inside body).1.buffer) (made ++ (inside body).1.made)
  rolled_back_work_runs body made e h =
      transaction_lem (step (attempts body) done) made
      ∙ ap (λ r. ended r.0 (works_of r.1.buffer) (made ++ r.1.made)) (inside-attempts body e h)
