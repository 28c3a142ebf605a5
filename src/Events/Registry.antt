-- ===== src/Events/Registry.antt =====
-- src/arvel/events/dispatcher.py: registering listeners and gathering them.
use arvel.Common.{
  ◌==◌, String, Bool, true, false, Option, none, some, List, [], ◌∷◌, ◌++◌, map, if◌then◌else◌,
}
use arvel.Common.Lists.{any}
use arvel.Common.Text.{codes}
use arvel.Common.Assoc.{Dict, lookup, insert, erase}
use arvel.Events.{
  Event, text, object, class_itself, Listener, Key, text_key, class_key, object_key, at, put, drop,
  appended, empty, Dispatcher, Arg,
}
use arvel.Events.Glob.{fnmatch}

unfoldable pub new : Dispatcher
new = record { listeners = empty; wildcards = []; pushed = empty }

-- `"*" in event`
unfoldable pub has_star : String → Bool
has_star s = any (codes s) (λ c. c == 42)

unfoldable pub listen_directly : Key → Listener → Dispatcher → Dispatcher
unfolding at put appended
listen_directly k listener d = record d {
  listeners = put k (appended (at k d.listeners) listener) d.listeners;
}

unfoldable pub listen : Key → Listener → Dispatcher → Dispatcher
unfolding has_star listen_directly appended
listen (text_key s) listener d =
    if has_star s
    then record d { wildcards = insert s (appended (lookup s d.wildcards) listener) d.wildcards }
    else listen_directly (text_key s) listener d
listen (class_key c) listener d = listen_directly (class_key c) listener d
listen (object_key o) listener d = listen_directly (object_key o) listener d

unfoldable pub forget_wildcards : Key → Dict (List Listener) → Dict (List Listener)
forget_wildcards (text_key s) w = erase s w
forget_wildcards (class_key c) w = w
forget_wildcards (object_key o) w = w

unfoldable pub forget : Key → Dispatcher → Dispatcher
unfolding drop forget_wildcards
forget k d = record d { listeners = drop k d.listeners; wildcards = forget_wildcards k d.wildcards }

-- the name under which a wildcard is matched
unfoldable pub name_of : Key → String
name_of (text_key s) = s
name_of (class_key c) = c.name
name_of (object_key o) = o

unfoldable pub or_empty {ℓ} : {A : Type ℓ} → Option (List A) → List A
or_empty none = []
or_empty (some xs) = xs

abbrev pub marked : Bool → List Listener → List (Listener × Bool)
marked wild ls = map (λ l. (l, wild)) ls

unfoldable pub gather_wildcards : String → Dict (List Listener) → List (Listener × Bool)
unfolding fnmatch
gather_wildcards name [] = []
gather_wildcards name ((pattern_, ls) ∷ w) =
    let rest = gather_wildcards name w in
    if fnmatch (codes name) (codes pattern_) then marked true ls ++ rest else rest

unfoldable pub gather : Key → Dispatcher → List (Listener × Bool)
unfolding gather_wildcards or_empty at name_of
gather k d = marked false (or_empty (at k d.listeners)) ++ gather_wildcards (name_of k) d.wildcards

-- the key of an event: a text, a class itself, or the class of an instance
unfoldable pub key_of : Event → Key
key_of (text s) = text_key s
key_of (object o) = class_key o.of_class
key_of (class_itself c _) = class_key c

unfoldable pub nonempty {ℓ} : {A : Type ℓ} → List A → Bool
nonempty [] = false
nonempty (x ∷ xs) = true

unfoldable pub has_listeners : Event → Dispatcher → Bool
unfolding gather key_of nonempty
has_listeners event d = nonempty (gather (key_of event) d)

-- the key under which an event is pushed
unfoldable pub pushed_key : Event → Key
pushed_key (text s) = text_key s
pushed_key (object o) = object_key o.ident
pushed_key (class_itself c _) = class_key c

unfoldable pub push : Event → List Arg → Dispatcher → Dispatcher
unfolding at put appended pushed_key
push event payload d =
    let k = pushed_key event in
    record d { pushed = put k (appended (at k d.pushed) payload) d.pushed }

unfoldable pub forget_pushed : Dispatcher → Dispatcher
forget_pushed d = record d { pushed = empty }

-- the mapping of a subscriber that has no `subscribe` of its own
unfoldable pub subscribe_event : Key → List Listener → Dispatcher → Dispatcher
unfolding listen
subscribe_event k [] d = d
subscribe_event k (l ∷ ls) d = subscribe_event k ls (listen k l d)

unfoldable pub subscribe : List (Key × List Listener) → Dispatcher → Dispatcher
unfolding subscribe_event
subscribe [] d = d
subscribe ((k, ls) ∷ mapping) d = subscribe mapping (subscribe_event k ls d)
