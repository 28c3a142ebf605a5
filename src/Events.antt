-- ===== src/Events.antt =====
-- src/arvel/events/dispatcher.py: events, listeners, and the maps of `Dispatcher`. A listener is what it
-- returns or raises on its arguments, once its class is resolved; that it uses the dispatcher itself
-- is left out.
pub mod Glob
pub mod Registry
pub mod World
pub mod Fire
pub mod Transaction
pub mod Frame
pub mod FrameBody
pub mod Commit
pub mod Halting
pub mod Gathering
mod Tests
use arvel.Common.{String, Bool, Option, none, some, List, [], ◌++◌, ◌∷◌}
use arvel.Common.Assoc.{Dict, lookup, insert, erase}

-- `Exception`, or another `BaseException`, as a cancellation is
pub data Error : Type 0 where
  exception : String → Error
  cancellation : String → Error

-- what a listener returns: `None`, `False`, or anything else
pub data Value : Type 0 where
  nothing refused : Value
  answer : String → Value

pub record Class : Type 0 where
  pub ident : String
  pub name : String

-- a `ShouldBroadcast`: what `should_broadcast` answers, where it is callable, and whether it is a
-- `ShouldBroadcastNow`
pub record Broadcast : Type 0 where
  pub should : Option Bool
  pub now : Bool

pub record EventObject : Type 0 where
  pub ident : String
  pub of_class : Class
  pub after_commit : Bool
  pub broadcast : Option Broadcast

-- an event as `dispatch` is given it: a text, an instance, or a class by mistake, with what the class
-- has as `after_commit`
pub data Event : Type 0 where
  text : String → Event
  object : EventObject → Event
  class_itself : Class → Bool → Event

pub data Arg : Type 0 where
  key : String → Arg
  instance_of : EventObject → Arg
  item : String → Arg

pub data Reply : Type 0 where
  replies : Value → Reply
  raises : Error → Reply

pub record Listener : Type 0 where
  pub ident : String
  pub should_queue : Bool
  pub handle : List Arg → Reply

-- A dictionary whose keys are texts, classes and instances; the order among them is not looked at.
pub record Table {ℓ} (V : Type ℓ) : Type ℓ where
  pub texts : Dict V
  pub classes : Dict V
  pub objects : Dict V

pub data Key : Type 0 where
  text_key : String → Key
  class_key : Class → Key
  object_key : String → Key

module _ {ℓ} {V : Type ℓ} where
  abbrev pub empty : Table V
  empty = record { texts = []; classes = []; objects = [] }

  unfoldable pub at : Key → Table V → Option V
  at (text_key s) t = lookup s t.texts
  at (class_key c) t = lookup c.ident t.classes
  at (object_key o) t = lookup o t.objects

  unfoldable pub put : Key → V → Table V → Table V
  put (text_key s) v t = record t { texts = insert s v t.texts }
  put (class_key c) v t = record t { classes = insert c.ident v t.classes }
  put (object_key o) v t = record t { objects = insert o v t.objects }

  unfoldable pub drop : Key → Table V → Table V
  drop (text_key s) t = record t { texts = erase s t.texts }
  drop (class_key c) t = record t { classes = erase c.ident t.classes }
  drop (object_key o) t = record t { objects = erase o t.objects }

-- `setdefault(key, []).append(item)`
unfoldable pub appended {ℓ} : {A : Type ℓ} → Option (List A) → A → List A
appended none x = x ∷ []
appended (some xs) x = xs ++ x ∷ []

pub record Dispatcher : Type 0 where
  pub listeners : Table (List Listener)
  pub wildcards : Dict (List Listener)
  pub pushed : Table (List (List Arg))
