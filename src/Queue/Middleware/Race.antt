-- ===== src/Queue/Middleware/Race.antt =====
-- src/arvel/queue/middleware.py: jobs that `ThrottlesExceptions` runs at the same time.
use mathlib.Core.List.{append_assoc, append-nil}
use arvel.Common.{ℕ, ◌<◌, String, ◌≡◌, refl, sym, ap, ◌∙◌, false, some, List, [], ◌∷◌, ◌++◌, arith}
use arvel.Common.Int.{pos, leb_ℤ}
use arvel.Cache.Value.{Value, int}
use arvel.Cache.Client.{Client}
use arvel.Cache.Repository.{get}
use arvel.Http.RateLimiter.{int_of}
use arvel.Http.RateLimiter.Window.{Logged, ran, HasCount}
use arvel.Queue.Middleware.{returned, failed, Next, throttles_exceptions, throttle_at, after_job}
use arvel.Queue.Middleware.Window.{read_lem}

module _ (c : Client) (key : String) (most decay : ℕ) (error : Value → String) where
  -- Each of these jobs begins while the one before it runs, and then all of them fail, the last one
  -- first.
  unfoldable pub at_once : List Value → Next c (List Value)
  at_once [] s = (returned "none", s)
  at_once (v ∷ vs) s =
      throttles_exceptions c key (pos most) (pos decay)
        (λ s'. (failed (error v), (at_once vs (ran c v s')).1)) s

  began :
      (n : ℕ) (v : Value) (vs : List Value) (s : Logged c)
      → int_of (get c key (int (pos 0)) s.cache).0 ≡ some (pos n)
      → n < most
      → (at_once (v ∷ vs) s).1.rest
        ≡ (at_once vs (ran c v (record s { cache = (get c key (int (pos 0)) s.cache).1 }))).1.rest
  unfolding at_once throttles_exceptions throttle_at after_job
  began n v vs s read h =
      let free : leb_ℤ (pos most) (pos n) ≡ false = ground (arith, h) in rw (read, free) refl

  -- Jobs that begin while the ones before them run, and fail before those do, all run, however many
  -- they are, as long as fewer than `max_exceptions` failures were counted when the first of them
  -- began: the counter is read before a job and goes up after it.
  pub at_once_lem :
      (vs : List Value) (n left : ℕ) (s : Logged c)
      → n < most
      → HasCount c key most decay n left s
      → (at_once vs s).1.rest ≡ s.rest ++ vs
  unfolding at_once
  at_once_lem [] n left s h e = sym (append-nil s.rest)
  at_once_lem (v ∷ vs) n left s h e =
      let (read, same) = read_lem c key decay n left s.cache e in
      let r = (get c key (int (pos 0)) s.cache).1 in
      began n v vs s read h
      ∙ at_once_lem vs n left (ran c v (record s { cache = r })) h (ap (λ t. c.look key t) same ∙ e)
      ∙ append_assoc s.rest (v ∷ []) vs
