-- ===== src/Events/Tests.antt =====
-- src/arvel/events/dispatcher.py at concrete listeners, patterns and transactions.
use arvel.Common.{◌≡◌, refl, true, false, none, some, [], ◌∷◌, String}
use arvel.Common.Assoc.{lookup}
use arvel.Common.Text.{codes}
use arvel.Events.{
  exception, Value, nothing, refused, answer, text, replies, Listener, Dispatcher, empty,
}
use arvel.Events.Glob.{fnmatch}
use arvel.Events.Registry.{or_empty, gather, key_of}
use arvel.Events.World.{ran, world, buffer_now, set_buffer, note}
use arvel.Events.Fire.{
  queue_of, Seams, all, one, dispatch, until, fire, fire_each, settle, fire_parsed, queue_of,
  parse_error, broadcast_event, after_commit,
}
use arvel.Events.Transaction.{
  Body, defers, raises_error, attempts, done, step, run_body, transaction, works_of, run_work,
  close, run_works,
}
use arvel.Events.Halting.{dispatch-until, before_false, values, first_answer, heard}
use arvel.Events.Commit.{ended, inside, after_all, transaction_lem, rolled_back_work_runs}

abbrev unbound : Seams
unbound = record { queue = none; broadcast_dispatcher = none; broadcast = none }

abbrev returning : String → Value → Listener
returning name v = record { ident = name; should_queue = false; handle = λ args. replies v }

-- a listener to the event, one that refuses, and one to all of its family
abbrev orders : Dispatcher
orders = record {
  listeners = record {
    texts = ("order.paid", returning "mail" nothing ∷ returning "veto" refused ∷ []) ∷ [];
    classes = [];
    objects = [];
  };
  wildcards = ("order.*", returning "log" (answer "logged") ∷ []) ∷ [];
  pushed = empty;
}

fnmatch_family : fnmatch (codes "order.paid") (codes "order.*") ≡ true
unfolding fnmatch
fnmatch_family = refl

fnmatch_set : fnmatch (codes "a7]") (codes "[!b-d][0-9]?") ≡ true
unfolding fnmatch
fnmatch_set = refl

fnmatch_open_bracket : fnmatch (codes "[a") (codes "[a*") ≡ true
unfolding fnmatch
fnmatch_open_bracket = refl

dispatch_stops :
    (dispatch unbound orders (text "order.paid") [] (world [] none)).0 ≡ all (nothing ∷ [])
unfolding dispatch fire gather fnmatch buffer_now broadcast_event parse_error fire_parsed fire_each
    key_of lookup queue_of settle
dispatch_stops = refl

until_refused : (until unbound orders (text "order.paid") [] (world [] none)).0 ≡ one refused
unfolding until gather fnmatch fire broadcast_event parse_error fire_parsed fire_each key_of lookup
    queue_of settle
until_refused = refl

dispatch-until_example :
    let vs = values unbound "order.paid" [] (heard unbound orders "order.paid" []) in
    ((dispatch unbound orders (text "order.paid") [] (world [] (some []))).0
      ≡ all (before_false vs))
    × ((until unbound orders (text "order.paid") [] (world [] (some []))).0 ≡ first_answer vs)
unfolding gather fnmatch lookup or_empty queue_of
dispatch-until_example =
    dispatch-until unbound orders "order.paid" [] (world [] (some []))
      ((nothing, refl), ((refused, refl), ((answer "logged", refl), tt)))

-- a callback that is handed over, and an exception after it
abbrev failing : Body
failing = step (defers "mail" none) (step (raises_error (exception "PaymentError")) done)

abbrev buffering : Body
buffering = step (defers "mail" (some (exception "SmtpError"))) (step (defers "audit" none) done)

transaction_runs_both :
    transaction unbound orders (run_body unbound orders buffering) (world [] none)
    ≡ (some (exception "SmtpError"), world (ran "mail" ∷ ran "audit" ∷ []) none)
unfolding transaction run_body buffer_now close after_commit set_buffer run_works run_work note
transaction_runs_both = refl

transaction_drops :
    transaction unbound orders (run_body unbound orders failing) (world [] none)
    ≡ (some (exception "PaymentError"), world [] none)
unfolding transaction run_body buffer_now close after_commit set_buffer
transaction_drops = refl

transaction_lem_example :
    let (e, w) = inside unbound orders buffering in
    transaction unbound orders (run_body unbound orders buffering) (world (ran "before" ∷ []) none)
    ≡ ended unbound orders e (works_of w.buffer) (ran "before" ∷ w.made)
transaction_lem_example = transaction_lem unbound orders buffering (ran "before" ∷ [])

rolled_back_work_runs_example :
    transaction unbound orders
      (run_body unbound orders (step (attempts failing) done))
      (world [] none)
    ≡ after_all unbound orders
        (works_of (inside unbound orders failing).1.buffer)
        (inside unbound orders failing).1.made
unfolding run_body after_commit buffer_now
rolled_back_work_runs_example = rolled_back_work_runs unbound orders failing [] "PaymentError" refl
