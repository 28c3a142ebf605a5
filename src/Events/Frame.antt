-- ===== src/Events/Frame.antt =====
-- src/arvel/events/dispatcher.py: no call looks at what was made or buffered before it. A run commutes
-- with putting happenings and works in front.
use arvel.Common.{
  String, ◌≡◌, refl, ap, ◌∙◌, Bool, true, false, Option, none, some, List, [], ◌∷◌, ◌++◌,
  Option-cases, Bool-cases, inl, inr, is_some, not, if◌then◌else◌,
}
use mathlib.Core.List.{append_assoc}
use arvel.Events.{
  Error, nothing, refused, answer, Broadcast, EventObject, Event, text, object, class_itself, Arg,
  Reply, replies, raises, Listener, Dispatcher,
}
use arvel.Events.Registry.{gather, key_of, name_of}
use arvel.Events.World.{
  Happening, called, queued, enqueued, sent, Work, fires, enqueues, World, world, Run, pure, ◌>>=◌,
  ◌>>◌, note, buffer_now, set_buffer,
}
use arvel.Events.Fire.{
  Seams, Fired, all, one, failed, keep, or_failed, settle, queue_of, run_via, run_listener,
  fire_each, call_args, into_buffer, dispatch_into, after_commit, call_sender, broadcast_now,
  enqueue, is_wanted, broadcast_as, broadcast_event, parse_error, args_of, fire_parsed, fire,
  defers_to_commit, dispatch,
}

module _ (made : List Happening) (works : List Work) where
  abbrev pub in_front : Option (List Work) → Option (List Work)
  in_front none = none
  in_front (some ws) = some (works ++ ws)

  abbrev pub after : World → World
  after w = world (made ++ w.made) (in_front w.buffer)

  abbrev pub after_run : {A : Type 0} → A × World → A × World
  after_run (a, w) = (a, after w)

  -- a run that commutes with it, and leaves the buffer open where it was open, and only there
  abbrev pub Framed : {A : Type 0} → Run A → Type 0
  Framed run =
      (w : World)
      → (run (after w) ≡ after_run (run w)) × (is_some (run w).1.buffer ≡ is_some w.buffer)

  pub pure-Framed : {A : Type 0} (a : A) → Framed (pure a)
  pure-Framed a w = (refl, refl)

  pub bind-Framed :
      {A B : Type 0} (m : Run A) (f : A → Run B)
      → Framed m
      → ((a : A) → Framed (f a))
      → Framed (m >>= f)
  bind-Framed m f hm hf w =
      let (a, w') = m w in (ap (λ r. f r.0 r.1) (hm w).0 ∙ (hf a w').0, (hf a w').1 ∙ (hm w).1)

  pub note-Framed : (h : Happening) → Framed (note h)
  unfolding note
  note-Framed h w =
      (ap (λ m. (tt, world (m) (in_front w.buffer))) (append_assoc made w.made (h ∷ [])), refl)

  -- What looks at the buffer commutes where it does with no buffer, and with any that is open.
  pub buffer-Framed :
      {A : Type 0} (f : Option (List Work) → Run A)
      → ((m : List Happening)
          → let w = world (m) (none) in
            (f none (after w) ≡ after_run (f none w)) × (is_some (f none w).1.buffer ≡ false))
      → ((m : List Happening) (ws : List Work)
          → let w = world (m) (some ws) in
            (f (some (works ++ ws)) (after w) ≡ after_run (f (some ws) w))
            × (is_some (f (some ws) w).1.buffer ≡ true))
      → Framed (buffer_now >>= f)
  unfolding buffer_now
  buffer-Framed f hn hs w = elim (Option-cases w.buffer) [
    | inl e ↦ rw (e) (hn w.made)
    | inr (ws, e) ↦ rw (e) (hs w.made ws)
  ]

  pub buffered-Framed :
      {A : Type 0} (a : A) (work : Work) (m : List Happening) (ws : List Work)
      → (do set_buffer (some (works ++ ws ++ work ∷ [])); pure a)
          (world (made ++ m) (some (works ++ ws)))
        ≡ after_run ((do set_buffer (some (ws ++ work ∷ [])); pure a) (world (m) (some ws)))
  unfolding set_buffer
  buffered-Framed a work m ws =
      ap (λ b. (a, world (made ++ m) (some b))) (append_assoc works ws (work ∷ []))

  pub after_commit-Framed :
      (work : Work) (now : Run (Option Error)) → Framed now → Framed (after_commit work now)
  unfolding after_commit set_buffer
  after_commit-Framed work now h =
      buffer-Framed (into_buffer work now) (λ m. h (world (m) (none)))
        (λ m ws. (buffered-Framed none work m ws, refl))

  pub or_failed-Framed :
      (e : Option Error) (next : Run Fired) → Framed next → Framed (or_failed e next)
  unfolding or_failed
  or_failed-Framed none next h = h
  or_failed-Framed (some e) next h = pure-Framed (failed e)

  pub settle-Framed :
      (halt : Bool) (r : Reply) (next : Run Fired) → Framed next → Framed (settle halt r next)
  unfolding settle
  settle-Framed halt (raises e) next h = pure-Framed (failed e)
  settle-Framed halt (replies nothing) next h =
      bind-Framed next (λ f. pure (keep nothing f)) h (λ f. pure-Framed (keep nothing f))
  settle-Framed true (replies refused) next h = pure-Framed (one refused)
  settle-Framed false (replies refused) next h = pure-Framed (all [])
  settle-Framed true (replies (answer a)) next h = pure-Framed (one (answer a))
  settle-Framed false (replies (answer a)) next h =
      bind-Framed next (λ f. pure (keep (answer a) f)) h (λ f. pure-Framed (keep (answer a) f))

  -- a call that is noted, and what comes after it
  pub noted-Framed :
      {A : Type 0} (h : Happening) (next : Run A) → Framed next → Framed (note h >> next)
  noted-Framed h next f = bind-Framed (note h) (λ _. next) (note-Framed h) (λ _. f)

  pub option-Framed :
      {A B : Type 0} (o : Option B) (m : Run A) (f : B → Run A)
      → Framed m
      → ((b : B) → Framed (f b))
      → Framed (elim o [ none ↦ m | some b ↦ f b ])
  option-Framed none m f hm hf = hm
  option-Framed (some b) m f hm hf = hf b

  pub if_Framed :
      {A : Type 0} (b : Bool) (m n : Run A) → Framed m → Framed n → Framed (if b then m else n)
  if_Framed true m n hm hn = hm
  if_Framed false m n hm hn = hn

  run_via-Framed :
      (queue : Option (String → List Arg → Option Error)) (halt : Bool) (l : Listener)
      (args : List Arg) (next : Run Fired)
      → Framed next
      → Framed (run_via queue halt l args next)
  run_via-Framed none halt l args next h =
      noted-Framed (called l.ident args) (settle halt (l.handle args) next)
        (settle-Framed halt (l.handle args) next h)
  run_via-Framed (some send) halt l args next h =
      noted-Framed (queued l.ident args) (or_failed (send l.ident args) next)
        (or_failed-Framed (send l.ident args) next h)

  pub fire_each-Framed :
      (seams : Seams) (halt : Bool) (name : String) (args : List Arg) (ls : List (Listener × Bool))
      → Framed (fire_each seams halt name args ls)
  unfolding fire_each run_listener
  fire_each-Framed seams halt name args [] = pure-Framed (all [])
  fire_each-Framed seams halt name args ((l, wild) ∷ ls) =
      run_via-Framed (queue_of seams l) halt l (call_args name args wild) _
        (fire_each-Framed seams halt name args ls)

  pub call_sender-Framed : (h : Happening) (e : Option Error) → Framed (call_sender h e)
  unfolding call_sender
  call_sender-Framed h e = noted-Framed h (pure e) (pure-Framed e)

  pub broadcast_now-Framed : (seams : Seams) (o : EventObject) → Framed (broadcast_now seams o)
  unfolding broadcast_now
  broadcast_now-Framed seams o =
      option-Framed seams.broadcast (pure none) (λ send. call_sender (sent o) (send o))
        (pure-Framed none) (λ send. call_sender-Framed (sent o) (send o))

  pub enqueue-Framed : (seams : Seams) (o : EventObject) → Framed (enqueue seams o)
  unfolding enqueue
  enqueue-Framed seams o =
      option-Framed seams.broadcast_dispatcher (pure none)
        (λ send. call_sender (enqueued o) (send o)) (pure-Framed none)
        (λ send. call_sender-Framed (enqueued o) (send o))

  pub broadcast_as-Framed :
      (seams : Seams) (o : EventObject) (b : Broadcast) → Framed (broadcast_as seams o b)
  unfolding broadcast_as
  broadcast_as-Framed seams o b = if_Framed (not (is_wanted b.should)) _ _ (pure-Framed none) (
      if_Framed b.now _ _ (broadcast_now-Framed seams o) (
        option-Framed seams.broadcast_dispatcher (broadcast_now seams o)
          (λ _. after_commit (enqueues o) (enqueue seams o)) (broadcast_now-Framed seams o)
          (λ _. after_commit-Framed (enqueues o) (enqueue seams o) (enqueue-Framed seams o))))

  pub broadcast_event-Framed :
      (seams : Seams) (event : Event) → Framed (broadcast_event seams event)
  unfolding broadcast_event
  broadcast_event-Framed seams (text s) = pure-Framed none
  broadcast_event-Framed seams (class_itself c b) = pure-Framed none
  broadcast_event-Framed seams (object o) =
      option-Framed o.broadcast (pure none) (broadcast_as seams o) (pure-Framed none)
        (broadcast_as-Framed seams o)

  module _ (seams : Seams) (d : Dispatcher) where
    fire_parsed-Framed :
        (event : Event) (payload : List Arg) (halt : Bool)
        → Framed (fire_parsed seams d event payload halt)
    unfolding fire_parsed
    fire_parsed-Framed event payload halt =
        fire_each-Framed seams halt (name_of (key_of event)) (args_of event payload)
          (gather (key_of event) d)

    fire-Framed :
        (event : Event) (payload : List Arg) (halt : Bool)
        → Framed (fire seams d event payload halt)
    unfolding fire
    fire-Framed event payload halt = bind-Framed _ _ (broadcast_event-Framed seams event) (λ e.
        or_failed-Framed e _
          (or_failed-Framed (parse_error event) _ (fire_parsed-Framed event payload halt)))

    pub dispatch-Framed :
        (event : Event) (payload : List Arg) → Framed (dispatch seams d event payload)
    unfolding dispatch set_buffer
    dispatch-Framed event payload =
        buffer-Framed (dispatch_into seams d event payload)
          (λ m. fire-Framed event payload false (world (m) (none)))
          (λ m ws. elim (Bool-cases (defers_to_commit event)) [
            | inl e ↦ rw (e) (buffered-Framed (all []) (fires event payload) m ws, refl)
            | inr e ↦ rw (e) (fire-Framed event payload false (world (m) (some ws)))
          ])
