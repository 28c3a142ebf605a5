-- ===== src/Support/Pipeline.antt =====
-- src/arvel/support/pipeline.py: `Pipeline`. A callable is its positional parameters and its results; an
-- awaitable result is awaited wherever it appears, so it is the value itself. An exception is a text.
pub mod Compose
mod Tests
use arvel.Common.{ℕ, String, Bool, true, false, Option, none, some, List, [], ◌∷◌, ◌++◌}

module _ (Value : Type 0) where
  pub data Outcome : Type 0 where
    returned : Value → Outcome
    raised : String → Outcome

  -- `next`, and what a pipe becomes: `(value, next)`
  abbrev pub Next : Type 0
  Next = Value → Outcome

  abbrev pub Layer : Type 0
  Layer = Value → Next → Outcome

  -- A callable: with one positional parameter it is a transform of the value; any other, or one whose
  -- signature cannot be read, is called with the value and `next`.
  pub data Callable : Type 0 where
    one_parameter : (Value → Outcome) → Callable
    onion : Layer → Callable

  -- A pipe: its methods by their names, those that are callable, and itself, where it is callable.
  pub record Pipe : Type 0 where
    pub method : String → Option Callable
    pub itself : Option Callable

  -- `_as_transform`: apply it, then always continue
  abbrev pub continued : Outcome → Next → Outcome
  continued (returned value) next = next value
  continued (raised e) next = raised e

  unfoldable pub as_transform : (Value → Outcome) → Layer
  as_transform fn value next = continued (fn value) next

  -- `_arity` decides whether the target is adapted
  unfoldable pub layer_of : Callable → Layer
  unfolding as_transform
  layer_of (one_parameter fn) = as_transform fn
  layer_of (onion layer) = layer

  abbrev pub target : Option Callable → Option Callable → Option Callable
  target (some handler) itself = some handler
  target none itself = itself

  abbrev pub adapted : Option Callable → Option Layer
  unfolding layer_of
  adapted none = none
  adapted (some c) = some (layer_of c)

  -- `_adapt`: no layer stands for the TypeError
  unfoldable pub adapt : String → Pipe → Option Layer
  adapt method pipe = adapted (target (pipe.method method) pipe.itself)

  pub record Pipeline : Type 0 where
    pub passable : Value
    pub pipes : List Pipe
    pub method_name : String

  -- `Pipeline()` with a value sent through no pipes
  unfoldable pub send : Value → Pipeline
  send value = record { passable = value; pipes = []; method_name = "handle" }

  unfoldable pub through : List Pipe → Pipeline → Pipeline
  through pipes p = record p { pipes = pipes }

  unfoldable pub via : String → Pipeline → Pipeline
  via method p = record p { method_name = method }

  -- `_carry`
  abbrev pub carry_layer : Option Layer → Option Next → Option Next
  carry_layer none next = none
  carry_layer (some layer) none = none
  carry_layer (some layer) (some next) = some (λ value. layer value next)

  -- The loop of `then` over the reversed pipes; none where a pipe is not callable, which raises before
  -- any pipe runs.
  unfoldable pub carry : String → List Pipe → Next → Option Next
  unfolding adapt
  carry method [] destination = some destination
  carry method (pipe ∷ pipes) destination =
      carry_layer (adapt method pipe) (carry method pipes destination)

  abbrev pub started : Option Next → Value → Outcome
  started none value = raised "TypeError"
  started (some run) value = run value

  unfoldable pub then : Next → Pipeline → Outcome
  unfolding carry
  then destination p = started (carry p.method_name p.pipes destination) p.passable

  unfoldable pub then_return : Pipeline → Outcome
  unfolding then
  then_return = then returned
