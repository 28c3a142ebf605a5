-- ===== src/Queue/Middleware/Window.antt =====
-- src/arvel/queue/middleware.py: which jobs run within one window, where they come one after the other.
use arvel.Common.{
  ℕ, suc, ◌<◌, ◌≤◌, String, ◌≡◌, refl, ap, ◌∙◌, true, false, none, some, List, [], ◌∷◌, ◌++◌, arith,
}
use arvel.Common.Int.{pos, leb_ℤ, ltb_ℤ}
use arvel.Common.Lists.{take}
use arvel.Cache.Value.{Value, int}
use arvel.Cache.Client.{Client}
use arvel.Cache.Repository.{Repo, get}
use arvel.Http.RateLimiter.{hit, hit_with_ttl, available_in, attempts, int_of}
use arvel.Http.RateLimiter.Counter.{counter, hit_lem, hit_with_ttl_lem, attempts_lem}
use arvel.Http.RateLimiter.Window.{
  Move, tried, waited, Logged, ran, unlogged, run, RunsUnder, StopsOver, counter-window, first_run,
}
use arvel.Queue.Middleware.{
  Outcome, failed, released, Next, rate_limited, delay_of, count_failure, after_job,
  throttles_exceptions, throttle_at,
}

module _ (c : Client) (key : String) (decay : ℕ) where
  count_failure-hit : (r : Repo c) → count_failure c key (pos decay) r ≡ (hit c key (pos decay) r).1
  unfolding count_failure hit
  count_failure-hit r = refl

  pub read_lem :
      (n left : ℕ) (r : Repo c)
      → c.look key r.store ≡ counter n left
      → let (v, r') = get c key (int (pos 0)) r in (int_of v ≡ some (pos n)) × (r'.store ≡ r.store)
  unfolding attempts
  read_lem n left r e = attempts_lem c key n left r e

-- what the jobs come to, and what they raise where they fail
module _ (c : Client) (key : String) (most decay : ℕ) (outcome : Value → Outcome)
    (error : Value → String) where
  -- a job that comes to this, keeps its mark, and leaves the cache alone
  abbrev pub job : Outcome → Value → Next c (List Value)
  job o v s = (o, ran c v s)

  abbrev pub limited : Value → Logged c → Outcome × Logged c
  limited v s = rate_limited c key (pos most) (pos decay) (job (outcome v) v) s

  abbrev pub throttled : Value → Logged c → Outcome × Logged c
  throttled v s = throttles_exceptions c key (pos most) (pos decay) (job (failed (error v)) v) s

  abbrev pub limited_once : Value → Logged c → Logged c
  limited_once v s = (limited v s).1

  abbrev pub throttled_once : Value → Logged c → Logged c
  throttled_once v s = (throttled v s).1

  limited_free :
      (v : Value) (s : Logged c)
      → ltb_ℤ (pos most) (hit_with_ttl c key (pos decay) s.cache).0 ≡ false
      → limited v s ≡ (
        outcome v,
        record { cache = (hit_with_ttl c key (pos decay) s.cache).1; rest = s.rest ++ v ∷ [] },
      )
  unfolding rate_limited
  limited_free v s o = rw (o, limited) refl

  limited_full :
      (v : Value) (s : Logged c)
      → ltb_ℤ (pos most) (hit_with_ttl c key (pos decay) s.cache).0 ≡ true
      → let r = (hit_with_ttl c key (pos decay) s.cache).1 in
        limited v s
        ≡ (released (delay_of (available_in c key r).0 (pos decay)), record s { cache = r })
  unfolding rate_limited available_in
  limited_full v s o = rw (o, limited) refl

  limited-RunsUnder : RunsUnder c key most decay limited_once
  limited-RunsUnder n left v s d h e =
      let (count, entry) = hit_with_ttl_lem c key n decay left s.cache d e in
      let went = limited_free v s (ground (arith, count, h)) in
      (
        ap (λ (t : Outcome × Logged c). c.look key t.1.cache.store) went ∙ entry,
        ap (λ (t : Outcome × Logged c). t.1.rest) went,
      )

  limited-StopsOver : StopsOver c key most decay limited_once
  limited-StopsOver n left v s d h e =
      let (count, entry) = hit_with_ttl_lem c key n decay left s.cache d e in
      let refused = limited_full v s (ground (arith, count, h)) in
      (
        suc n,
        omega (arith, h),
        ap (λ (t : Outcome × Logged c). c.look key t.1.cache.store) refused ∙ entry,
        ap (λ (t : Outcome × Logged c). t.1.rest) refused,
      )

  throttled_free :
      (n : ℕ) (v : Value) (s : Logged c)
      → int_of (get c key (int (pos 0)) s.cache).0 ≡ some (pos n)
      → n < most
      → throttled v s ≡ (
        failed (error v),
        record {
          cache = (hit c key (pos decay) (get c key (int (pos 0)) s.cache).1).1;
          rest = s.rest ++ v ∷ [];
        },
      )
  unfolding throttles_exceptions throttle_at after_job
  throttled_free n v s o h =
      let free : leb_ℤ (pos most) (pos n) ≡ false = ground (arith, h) in
      rw (o, free, throttled)
        (ap (λ r. (failed (error v), record { cache = r; rest = s.rest ++ v ∷ [] }))
          (count_failure-hit c key decay (get c key (int (pos 0)) s.cache).1))

  throttled_full :
      (n : ℕ) (v : Value) (s : Logged c)
      → int_of (get c key (int (pos 0)) s.cache).0 ≡ some (pos n)
      → most ≤ n
      → throttled v s
        ≡ (released (pos decay), record s { cache = (get c key (int (pos 0)) s.cache).1 })
  unfolding throttles_exceptions throttle_at
  throttled_full n v s o h =
      let full : leb_ℤ (pos most) (pos n) ≡ true = ground (arith, h) in rw (o, full, throttled) refl

  throttled-RunsUnder : RunsUnder c key most decay throttled_once
  throttled-RunsUnder n left v s d h e =
      let r = (get c key (int (pos 0)) s.cache).1 in
      let (read, same) = read_lem c key decay n left s.cache e in
      let (_, entry) = hit_lem c key n decay left r d (ap (λ t. c.look key t) same ∙ e) in
      let went = throttled_free n v s read h in
      (
        ap (λ (t : Outcome × Logged c). c.look key t.1.cache.store) went ∙ entry,
        ap (λ (t : Outcome × Logged c). t.1.rest) went,
      )

  throttled-StopsOver : StopsOver c key most decay throttled_once
  throttled-StopsOver n left v s d h e =
      let (read, same) = read_lem c key decay n left s.cache e in
      let refused = throttled_full n v s read h in
      (
        n,
        h,
        ap (λ (t : Outcome × Logged c). c.look key t.1.cache.store) refused
            ∙ ap (λ t. c.look key t) same
            ∙ e
            ∙ counter-window c key most decay n left,
        ap (λ (t : Outcome × Logged c). t.1.rest) refused,
      )

  -- Where the key is free, of the jobs that run one after the other within one window, none
  -- beginning before the one ahead of it has ended, `RateLimited` runs the first `max_attempts`,
  -- each once and in order, and no other one, whatever each comes to, and `ThrottlesExceptions`,
  -- where all that run fail, the first `max_exceptions`; the jobs leave the cache alone.
  pub jobs_in_window :
      (ms : List Move) (r : Repo c)
      → waited ms < decay
      → c.look key r.store ≡ none
      → ((run c limited_once ms (unlogged c r)).rest ≡ take most (tried ms))
        × ((run c throttled_once ms (unlogged c r)).rest ≡ take most (tried ms))
  jobs_in_window ms r d e = (
    first_run c key most decay limited_once limited-RunsUnder limited-StopsOver ms r d e,
    first_run c key most decay throttled_once throttled-RunsUnder throttled-StopsOver ms r d e,
  )
