-- ===== src/Events/World.antt =====
-- src/arvel/events/dispatcher.py: what the dispatcher's calls have an effect on, as a state monad: the
-- calls made of listeners, queues and senders, in order, and the after-commit buffer.
use arvel.Common.{String, Option, List, [], ◌∷◌, ◌++◌}
use arvel.Events.{Error, EventObject, Event, Arg}

-- a call that has been made
pub data Happening : Type 0 where
  called queued : String → List Arg → Happening
  enqueued sent : EventObject → Happening
  ran : String → Happening

-- buffered work: a deferred event, the enqueueing of a broadcast, or a callback with what it raises
pub data Work : Type 0 where
  fires : Event → List Arg → Work
  enqueues : EventObject → Work
  callback : String → Option Error → Work

pub record World : Type 0 where
  pub made : List Happening
  pub buffer : Option (List Work)

abbrev pub world : List Happening → Option (List Work) → World
world made buffer = record { made = made; buffer = buffer }

abbrev pub Run : Type 0 → Type 0
Run A = World → A × World

abbrev pub pure : {A : Type 0} → A → Run A
pure a w = (a, w)

infixl 5 ◌>>=◌ ◌>>◌
abbrev pub ◌>>=◌ : {A B : Type 0} → Run A → (A → Run B) → Run B
◌>>=◌ m f w = let (a, w') = m w in f a w'

abbrev pub ◌>>◌ : {A B : Type 0} → Run A → Run B → Run B
m >> k = m >>= λ _. k

unfoldable pub note : Happening → Run (Unit {0})
note h w = (tt, record w { made = w.made ++ h ∷ [] })

-- `self._ac_buffer.get()`
unfoldable pub buffer_now : Run (Option (List Work))
buffer_now w = (w.buffer, w)

-- `self._ac_buffer.set(...)`, and its reset
unfoldable pub set_buffer : Option (List Work) → Run (Unit {0})
set_buffer b w = (tt, record w { buffer = b })
