-- ===== src/Events/Halting.antt =====
-- src/arvel/events/dispatcher.py: which listeners a dispatch reaches, and what it returns.
use arvel.Common.{
  String, ◌≡◌, refl, Bool, true, false, Option, none, some, List, [], ◌∷◌, Option-cases, inl, inr,
}
use arvel.Events.{
  Error, Value, nothing, refused, answer, text, Arg, Reply, replies, raises, Listener, Dispatcher,
  text_key,
}
use arvel.Events.Registry.{gather, key_of, name_of}
use arvel.Events.World.{called, queued, World, world, Run, note, buffer_now}
use arvel.Events.Fire.{
  Seams, Fired, all, one, keep, or_failed, settle, queue_of, run_via, run_listener, fire_each,
  call_args, broadcast_event, parse_error, args_of, fire_parsed, fire, defers_to_commit, dispatch,
  until,
}

-- the listener returns, or its queue takes it
abbrev pub Quiet : Option (String → List Arg → Option Error) → Listener → List Arg → Type 0
Quiet none l args = (v : Value) × (l.handle args ≡ replies v)
Quiet (some send) l args = send l.ident args ≡ none

-- what the listener does to the list of outcomes: a queued one is not in it
abbrev pub returned : Reply → Value
returned (replies v) = v
returned (raises e) = nothing

abbrev pub with_value : Option (String → List Arg → Option Error) → Value → List Value → List Value
with_value none v vs = v ∷ vs
with_value (some send) v vs = vs

-- up to the first `False`
abbrev pub before_false : List Value → List Value
before_false [] = []
before_false (nothing ∷ vs) = nothing ∷ before_false vs
before_false (refused ∷ vs) = []
before_false (answer a ∷ vs) = answer a ∷ before_false vs

-- the first that is not `None`, or else all of them
abbrev pub first_answer : List Value → Fired
first_answer [] = all []
first_answer (nothing ∷ vs) = keep nothing (first_answer vs)
first_answer (refused ∷ vs) = one refused
first_answer (answer a ∷ vs) = one (answer a)

abbrev pub outcome : Bool → List Value → Fired
outcome false vs = all (before_false vs)
outcome true vs = first_answer vs

settle_lem :
    (halt : Bool) (r : Reply) (v : Value) (next : Run Fired) (w : World) (vs : List Value)
    → r ≡ replies v
    → ((w' : World) → (next w').0 ≡ outcome halt vs)
    → (settle halt r next w).0 ≡ outcome halt (returned r ∷ vs)
unfolding settle keep
settle_lem false r nothing next w vs q h = rw (q, h) refl
settle_lem true r nothing next w vs q h = rw (q, h) refl
settle_lem false r refused next w vs q h = rw (q) refl
settle_lem true r refused next w vs q h = rw (q) refl
settle_lem false r (answer a) next w vs q h = rw (q, h) refl
settle_lem true r (answer a) next w vs q h = rw (q) refl

run_via-lem :
    (queue : Option (String → List Arg → Option Error)) (halt : Bool) (l : Listener)
    (call : List Arg) (next : Run Fired) (w : World) (vs : List Value)
    → Quiet queue l call
    → ((w' : World) → (next w').0 ≡ outcome halt vs)
    → (run_via queue halt l call next w).0
      ≡ outcome halt (with_value queue (returned (l.handle call)) vs)
unfolding or_failed note
run_via-lem none halt l call next w vs (v, q) h =
    settle_lem halt (l.handle call) v next (note (called l.ident call) w).1 vs q h
run_via-lem (some send) halt l call next w vs q h = rw (q) (h (note (queued l.ident call) w).1)

module _ (seams : Seams) (name : String) (args : List Arg) where
  abbrev pub AllQuiet : List (Listener × Bool) → Type 0
  AllQuiet [] = Unit
  AllQuiet ((l, wild) ∷ ls) = Quiet (queue_of seams l) l (call_args name args wild) × AllQuiet ls

  -- what the listeners that run inline return, in order
  abbrev pub values : List (Listener × Bool) → List Value
  values [] = []
  values ((l, wild) ∷ ls) =
      with_value (queue_of seams l) (returned (l.handle (call_args name args wild))) (values ls)

  loop_lem :
      (halt : Bool) (ls : List (Listener × Bool)) (w : World)
      → AllQuiet ls
      → (fire_each seams halt name args ls w).0 ≡ outcome halt (values ls)
  unfolding fire_each run_listener
  loop_lem false [] w q = refl
  loop_lem true [] w q = refl
  loop_lem halt ((l, wild) ∷ ls) w (q, qs) =
      run_via-lem (queue_of seams l) halt l (call_args name args wild)
        (fire_each seams halt name args ls) w (values ls) q (λ w'. loop_lem halt ls w' qs)

module _ (seams : Seams) (d : Dispatcher) (name : String) (payload : List Arg) where
  abbrev pub heard : List (Listener × Bool)
  heard = gather (text_key name) d

  -- Where no listener and no queue raises, dispatching a text returns what the listeners that run inline
  -- return, in the order in which they are gathered, up to the first `False`, whether a transaction is
  -- open or not; and `until` returns the first that is not `None`, `False` included, or else the list of
  -- all of them.
  pub dispatch-until :
      (w : World)
      → AllQuiet seams name payload heard
      → let vs = values seams name payload heard in
        ((dispatch seams d (text name) payload w).0 ≡ all (before_false vs))
        × ((until seams d (text name) payload w).0 ≡ first_answer vs)
  unfolding dispatch until fire fire_parsed broadcast_event parse_error or_failed buffer_now args_of
      key_of name_of defers_to_commit
  dispatch-until w q = (
    elim (Option-cases w.buffer) [
      | inl e ↦ rw (e) (loop_lem seams name payload false heard (world w.made none) q)
      | inr (ws, e) ↦ rw (e) (loop_lem seams name payload false heard (world w.made (some ws)) q)
    ],
    loop_lem seams name payload true heard w q,
  )
