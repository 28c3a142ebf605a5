-- ===== src/Support/Pipeline/Tests.antt =====
-- Pipelines over numbers: two transforms, and an onion pipe that does not go on past ten.
use arvel.Common.{ℕ, ◌+◌, ◌*◌, ◌≡◌, refl, none, some, [], ◌∷◌, ◌++◌, if◌then◌else◌, ltb}
use arvel.Support.Pipeline.{
  Outcome, returned, raised, Pipe, onion, then as then_run, via, through, send, carry, adapt,
  adapted,
}
use arvel.Support.Pipeline.Compose.{transforms, in_turn, then-in_turn}

abbrev double : ℕ → Outcome ℕ
double n = returned (n * 2)

abbrev small : ℕ → Outcome ℕ
small n = if ltb n 100 then returned (n + 1) else raised "ValueError"

abbrev capped : Pipe ℕ
capped = record {
  method = λ name. some (onion (λ value next. if ltb value 10 then next value else returned 10));
  itself = none;
}

then-in_turn_example :
    then_run ℕ returned
      (via ℕ "handle" (through ℕ (transforms ℕ (double ∷ small ∷ []) ++ capped ∷ []) (send ℕ 30)))
    ≡ returned 10
unfolding in_turn then_run via through send carry adapt adapted
then-in_turn_example =
    then-in_turn ℕ "handle" (double ∷ small ∷ []) (capped ∷ []) returned
      (λ value. if ltb value 10 then returned value else returned 10) 30 refl
