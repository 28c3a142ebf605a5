-- ===== src/Support/Pipeline/Compose.antt =====
-- src/arvel/support/pipeline.py: the order of the pipes.
use arvel.Common.{String, ◌≡◌, refl, sym, ap, ◌∙◌, Option, none, some, List, [], ◌∷◌, ◌++◌}
use arvel.Support.Pipeline.{
  Outcome, returned, raised, Next, one_parameter, Pipe, continued, as_transform, layer_of, adapt,
  carry, carry_layer, started, then, send, through, via,
}

module _ (Value : Type 0) where
  -- Pipes one after the other are the first ones with the others as their destination.
  pub carry-append :
      (method : String) (ps qs : List (Pipe Value)) (destination after : Next Value)
      → carry Value method qs destination ≡ some after
      → carry Value method (ps ++ qs) destination ≡ carry Value method ps after
  unfolding carry
  carry-append method [] qs destination after h = h
  carry-append method (p ∷ ps) qs destination after h =
      ap (carry_layer Value (adapt Value method p)) (carry-append method ps qs destination after h)

  -- a pipe that is a transform with one parameter
  abbrev pub transform : (Value → Outcome Value) → Pipe Value
  transform fn = record { method = λ name. none; itself = some (one_parameter fn) }

  abbrev pub transforms : List (Value → Outcome Value) → List (Pipe Value)
  transforms [] = []
  transforms (fn ∷ fns) = transform fn ∷ transforms fns

  -- the transforms in turn, up to one that raises, and then the destination
  unfoldable pub in_turn : List (Value → Outcome Value) → Next Value → Next Value
  in_turn [] destination value = destination value
  in_turn (fn ∷ fns) destination value = elim (fn value) [
    | returned v ↦ in_turn fns destination v
    | raised e ↦ raised e
  ]

  abbrev Carried : Option (Next Value) → Next Value → Type 0
  Carried o next = (run : Next Value) × (o ≡ some run) × ((v : Value) → run v ≡ next v)

  continued_lem :
      (o : Outcome Value) (run : Next Value) (fns : List (Value → Outcome Value))
      (destination : Next Value)
      → ((v : Value) → run v ≡ in_turn fns destination v)
      → continued Value o run
        ≡ elim o [ returned v ↦ in_turn fns destination v | raised e ↦ raised e ]
  continued_lem (returned v) run fns destination h = h v
  continued_lem (raised e) run fns destination h = refl

  carry-transforms :
      (method : String) (fns : List (Value → Outcome Value)) (destination : Next Value)
      → Carried (carry Value method (transforms fns) destination) (in_turn fns destination)
  unfolding carry adapt layer_of as_transform in_turn
  carry-transforms method [] destination = (destination, refl, λ v. refl)
  carry-transforms method (fn ∷ fns) destination =
      let (run, e, h) = carry-transforms method fns destination in
      (
        λ v. continued Value (fn v) run,
        ap (carry_layer Value (some (as_transform Value fn))) e,
        λ v. continued_lem (fn v) run fns destination h,
      )

  -- A pipeline whose first pipes are transforms with one parameter, and whose other pipes are callable:
  -- the transforms are applied in turn, the first that raises ending it, and what comes out goes
  -- through the other pipes to the destination, which are not run at all where a transform raised.
  pub then-in_turn :
      (method : String) (fns : List (Value → Outcome Value)) (qs : List (Pipe Value))
      (destination after : Next Value) (value : Value)
      → carry Value method qs destination ≡ some after
      → then Value destination
          (via Value method (through Value (transforms fns ++ qs) (send Value value)))
        ≡ in_turn fns
            (λ v. then Value destination (via Value method (through Value qs (send Value v))))
            value
  unfolding then via through send
  then-in_turn method fns qs destination after value h =
      let (run, e, k) = carry-transforms method fns after in
      ap (λ (o : Option (Next Value)). started Value o value)
        (carry-append method (transforms fns) qs destination after h ∙ e)
      ∙ k value
      ∙ ap (λ (o : Option (Next Value)). in_turn fns (started Value o) value) (sym h)
