-- ===== src/Events/Fire.antt =====
-- src/arvel/events/dispatcher.py: firing an event.
use arvel.Common.{
  String, Bool, true, false, not, Option, none, some, List, [], ◌∷◌, ◌++◌, if◌then◌else◌,
}
use arvel.Events.{
  Error, exception, Value, nothing, refused, answer, Broadcast, EventObject, Event, text, object,
  class_itself, Arg, key, instance_of, Reply, replies, raises, Listener, Dispatcher, at, drop,
}
use arvel.Events.Registry.{gather, key_of, name_of, pushed_key, or_empty}
use arvel.Events.World.{
  Happening, called, queued, enqueued, sent, Work, fires, enqueues, Run, pure, ◌>>=◌, ◌>>◌, note,
  buffer_now, set_buffer,
}

-- What the container has bound, and whether a call of it raises: `queue_dispatcher`,
-- `broadcast_dispatcher` and `broadcast`.
pub record Seams : Type 0 where
  pub queue : Option (String → List Arg → Option Error)
  pub broadcast_dispatcher : Option (EventObject → Option Error)
  pub broadcast : Option (EventObject → Option Error)

-- what `_fire` comes to: the list of outcomes, the one outcome that halts, or an exception
pub data Fired : Type 0 where
  all : List Value → Fired
  one : Value → Fired
  failed : Error → Fired

unfoldable pub keep : Value → Fired → Fired
keep v (all vs) = all (v ∷ vs)
keep v (one u) = one u
keep v (failed e) = failed e

unfoldable pub failure : Fired → Option Error
failure (all vs) = none
failure (one v) = none
failure (failed e) = some e

-- after a call that may raise
unfoldable pub or_failed : Option Error → Run Fired → Run Fired
or_failed none next = next
or_failed (some e) next = pure (failed e)

-- the value of a listener, and what the loop goes on with
unfoldable pub settle : Bool → Reply → Run Fired → Run Fired
unfolding keep
settle halt (raises e) next = pure (failed e)
settle halt (replies nothing) next = do fired ← next; pure (keep nothing fired)
settle true (replies refused) next = pure (one refused)
settle false (replies refused) next = pure (all [])
settle true (replies (answer a)) next = pure (one (answer a))
settle false (replies (answer a)) next = do fired ← next; pure (keep (answer a) fired)

abbrev pub call_args : String → List Arg → Bool → List Arg
call_args name args true = key name ∷ args
call_args name args false = args

-- the queue's dispatch function, where the listener is to be queued and one is bound
unfoldable pub queue_of : Seams → Listener → Option (String → List Arg → Option Error)
queue_of seams l = if l.should_queue then seams.queue else none

abbrev pub run_via :
    Option (String → List Arg → Option Error) → Bool → Listener → List Arg → Run Fired → Run Fired
run_via (some send) halt l args next = do
  note (queued l.ident args)
  or_failed (send l.ident args) next
run_via none halt l args next = do note (called l.ident args); settle halt (l.handle args) next

unfoldable pub run_listener : Seams → Bool → Listener → List Arg → Run Fired → Run Fired
run_listener seams halt l args next = run_via (queue_of seams l) halt l args next

-- the loop of `_fire`
unfoldable pub fire_each : Seams → Bool → String → List Arg → List (Listener × Bool) → Run Fired
unfolding run_listener
fire_each seams halt name args [] = pure (all [])
fire_each seams halt name args ((l, wild) ∷ ls) =
    run_listener seams halt l (call_args name args wild) (fire_each seams halt name args ls)

-- `after_commit`: into the buffer of an open transaction, or at once
abbrev pub into_buffer : Work → Run (Option Error) → Option (List Work) → Run (Option Error)
into_buffer work now none = now
into_buffer work now (some works) = do set_buffer (some (works ++ work ∷ [])); pure none

unfoldable pub after_commit : Work → Run (Option Error) → Run (Option Error)
after_commit work now = buffer_now >>= into_buffer work now

unfoldable pub call_sender : Happening → Option Error → Run (Option Error)
call_sender h e = do note h; pure e

unfoldable pub broadcast_now : Seams → EventObject → Run (Option Error)
unfolding call_sender
broadcast_now seams o = elim seams.broadcast [
  | none ↦ pure none
  | some send ↦ call_sender (sent o) (send o)
]

unfoldable pub enqueue : Seams → EventObject → Run (Option Error)
unfolding call_sender
enqueue seams o = elim seams.broadcast_dispatcher [
  | none ↦ pure none
  | some send ↦ call_sender (enqueued o) (send o)
]

abbrev pub is_wanted : Option Bool → Bool
is_wanted none = true
is_wanted (some b) = b

unfoldable pub broadcast_as : Seams → EventObject → Broadcast → Run (Option Error)
unfolding broadcast_now after_commit enqueue
broadcast_as seams o b =
    if not (is_wanted b.should)
    then pure none
    else if b.now
    then broadcast_now seams o
    else elim seams.broadcast_dispatcher [
      | some _ ↦ after_commit (enqueues o) (enqueue seams o)
      | none ↦ broadcast_now seams o
    ]

-- the broadcast of an event that is a `ShouldBroadcast`
unfoldable pub broadcast_event : Seams → Event → Run (Option Error)
unfolding broadcast_as
broadcast_event seams (text s) = pure none
broadcast_event seams (class_itself c _) = pure none
broadcast_event seams (object o) = elim o.broadcast [
  | none ↦ pure none
  | some b ↦ broadcast_as seams o b
]

unfoldable pub args_of : Event → List Arg → List Arg
args_of (text s) payload = payload
args_of (object o) payload = instance_of o ∷ payload
args_of (class_itself c _) payload = payload

-- `_parse` raises on a class
unfoldable pub parse_error : Event → Option Error
parse_error (text s) = none
parse_error (object o) = none
parse_error (class_itself c _) = some (exception "TypeError")

unfoldable pub fire_parsed : Seams → Dispatcher → Event → List Arg → Bool → Run Fired
fire_parsed seams d event payload halt =
    fire_each seams halt (name_of (key_of event)) (args_of event payload) (gather (key_of event) d)

unfoldable pub fire : Seams → Dispatcher → Event → List Arg → Bool → Run Fired
unfolding or_failed
fire seams d event payload halt = do
  e ← broadcast_event seams event
  or_failed e (or_failed (parse_error event) (fire_parsed seams d event payload halt))

unfoldable pub defers_to_commit : Event → Bool
defers_to_commit (text s) = false
defers_to_commit (object o) = o.after_commit
defers_to_commit (class_itself c b) = b

module _ (seams : Seams) (d : Dispatcher) where
  -- where a transaction is open, an event that defers goes to the buffer
  abbrev pub dispatch_into : Event → List Arg → Option (List Work) → Run Fired
  dispatch_into event payload none = fire seams d event payload false
  dispatch_into event payload (some works) =
      if defers_to_commit event
      then (do set_buffer (some (works ++ fires event payload ∷ [])); pure (all []))
      else fire seams d event payload false

  unfoldable pub dispatch : Event → List Arg → Run Fired
  dispatch event payload = buffer_now >>= dispatch_into event payload

unfoldable pub until : Seams → Dispatcher → Event → List Arg → Run Fired
until seams d event payload = fire seams d event payload true

unfoldable pub dispatch_each : Seams → Dispatcher → Event → List (List Arg) → Run (Option Error)
unfolding failure
dispatch_each seams d event [] = pure none
dispatch_each seams d event (payload ∷ payloads) = do
  fired ← dispatch seams d event payload
  elim (failure fired) [ none ↦ dispatch_each seams d event payloads | some e ↦ pure (some e) ]

-- `flush`: the pushed payloads are taken out before the first is dispatched
unfoldable pub flush : Seams → Event → Dispatcher → Dispatcher × Run (Option Error)
flush seams event d =
    let d' = record d { pushed = drop (pushed_key event) d.pushed } in
    (d', dispatch_each seams d' event (or_empty (at (pushed_key event) d.pushed)))
