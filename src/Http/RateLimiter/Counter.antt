-- ===== src/Http/RateLimiter/Counter.antt =====
-- src/arvel/http/rate_limiter.py: a counter's entry, and what a hit, a read and the time do to it.
use arvel.Common.{ℕ, zero, suc, ◌-◌, ◌<◌, String, ◌≡◌, Option, none, some, arith, eq_iff}
use arvel.Common.Int.{pos, ◌+ℤ◌, ◌-ℤ◌}
use arvel.Cache.Value.{int}
use arvel.Cache.Client.{Client, Entry}
use arvel.Cache.Repository.{Repo}
use arvel.Cache.Repository.Reads.{elapse}
use arvel.Http.RateLimiter.{hit, hit_with_ttl, attempts}

-- The entry of a counter at `n` with `left` seconds to go; a counter at 0 has none.
abbrev pub counter : ℕ → ℕ → Option Entry
counter zero left = none
counter (suc n) left = some (record { value = int (pos (suc n)); ttl = some (pos left) })

-- The seconds that a counter has left after one more hit: the first hit opens the window.
abbrev pub window : ℕ → ℕ → ℕ → ℕ
window zero decay left = decay
window (suc n) decay left = left

module _ (c : Client) (key : String) where
  pub hit_lem :
      (n decay left : ℕ) (r : Repo c)
      → 0 < decay
      → c.look key r.store ≡ counter n left
      → let (count, r') = hit c key (pos decay) r in
        (count ≡ pos (suc n)) × (c.look key r'.store ≡ counter (suc n) (window n decay left))
  unfolding hit ◌+ℤ◌
  hit_lem zero decay left r h e = ground (
    arith,
    c.incr_result key (pos 1) none r.store,
    c.look-incr key key (pos 1) none r.store,
    c.look-expire key key (pos decay) (c.incr key (pos 1) none r.store).1,
    eq_iff key key,
  )
  hit_lem (suc n) decay left r h e = ground (
    arith,
    c.incr_result key (pos 1) none r.store,
    c.look-incr key key (pos 1) none r.store,
    eq_iff key key,
  )

  pub hit_with_ttl_lem :
      (n decay left : ℕ) (r : Repo c)
      → 0 < decay
      → c.look key r.store ≡ counter n left
      → let (count, r') = hit_with_ttl c key (pos decay) r in
        (count ≡ pos (suc n)) × (c.look key r'.store ≡ counter (suc n) (window n decay left))
  unfolding hit_with_ttl ◌+ℤ◌
  hit_with_ttl_lem zero decay left r h e = ground (
    arith,
    c.incr_result key (pos 1) (some (pos decay)) r.store,
    c.look-incr key key (pos 1) (some (pos decay)) r.store,
    eq_iff key key,
  )
  hit_with_ttl_lem (suc n) decay left r h e = ground (
    arith,
    c.incr_result key (pos 1) (some (pos decay)) r.store,
    c.look-incr key key (pos 1) (some (pos decay)) r.store,
    eq_iff key key,
  )

  pub attempts_lem :
      (n left : ℕ) (r : Repo c)
      → c.look key r.store ≡ counter n left
      → let (k, r') = attempts c key r in (k ≡ some (pos n)) × (r'.store ≡ r.store)
  unfolding attempts
  attempts_lem zero left r e = ground (arith, c.get_lem key r.store)
  attempts_lem (suc n) left r e = ground (arith, c.get_lem key r.store)

  pub elapse_lem :
      (n left m : ℕ) (r : Repo c)
      → m < left
      → c.look key r.store ≡ counter n left
      → c.look key (elapse c m r).store ≡ counter n (left - m)
  unfolding ◌-ℤ◌
  elapse_lem zero left m r h e = ground (arith, c.look-elapse m key r.store)
  elapse_lem (suc n) left m r h e = ground (arith, c.look-elapse m key r.store)

  -- At the end of its window a counter is gone.
  pub window_ends :
      (n left m : ℕ) (r : Repo c)
      → (left < suc m)
      → c.look key r.store ≡ counter n left
      → c.look key (elapse c m r).store ≡ counter 0 0
  window_ends zero left m r h e = ground (arith, c.look-elapse m key r.store)
  window_ends (suc n) left m r h e = ground (arith, c.look-elapse m key r.store)
