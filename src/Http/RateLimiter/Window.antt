-- ===== src/Http/RateLimiter/Window.antt =====
-- src/arvel/http/rate_limiter.py: which attempts pass within one window.
use mathlib.Core.List.{append_assoc, append-nil}
use native.Mathlib.Decide.{dec_lt}
use arvel.Common.{
  ℕ, zero, suc, ◌+◌, ◌-◌, ◌<◌, ◌≤◌, String, ◌≡◌, refl, sym, ap, ◌∙◌, none, some, List, [], ◌∷◌,
  ◌++◌, true, false, arith, leb,
}
use arvel.Common.Int.{pos}
use arvel.Common.Lists.{take}
use arvel.Cache.Value.{Value}
use arvel.Cache.Client.{Client}
use arvel.Cache.Repository.{Repo}
use arvel.Cache.Repository.Reads.{elapse}
use arvel.Http.RateLimiter.{Site, hit, too_many_attempts, attempt_ran, attempt}
use arvel.Http.RateLimiter.Counter.{counter, window, hit_lem, attempts_lem, elapse_lem}

-- What happens to one key: somebody tries, with something of which this is the mark, or time
-- passes.
pub data Move : Type 0 where
  tries : Value → Move
  waits : ℕ → Move

abbrev pub tried : List Move → List Value
tried [] = []
tried (tries v ∷ ms) = v ∷ tried ms
tried (waits _ ∷ ms) = tried ms

abbrev pub waited : List Move → ℕ
waited [] = 0
waited (tries _ ∷ ms) = waited ms
waited (waits n ∷ ms) = n + waited ms

-- The marks of what has run are kept beside the cache, in the order in which it ran.
abbrev pub Logged : Client → Type 0
Logged c = Site c (List Value)

abbrev pub ran : (c : Client) → Value → Logged c → Logged c
ran c v s = record s { rest = s.rest ++ v ∷ [] }

abbrev pub unlogged : (c : Client) → Repo c → Logged c
unlogged c r = record { cache = r; rest = [] }

-- the moves one after the other, with what a try does
unfoldable pub run : (c : Client) → (Value → Logged c → Logged c) → List Move → Logged c → Logged c
run c try [] s = s
run c try (tries v ∷ ms) s = run c try ms (try v s)
run c try (waits n ∷ ms) s = run c try ms (record s { cache = elapse c n s.cache })

module _ (c : Client) (key : String) (most decay : ℕ) where
  abbrev pub HasCount : ℕ → ℕ → Logged c → Type 0
  HasCount n left s = c.look key s.cache.store ≡ counter n left

  -- a try under the limit runs, and counts
  abbrev pub RunsUnder : (Value → Logged c → Logged c) → Type 0
  RunsUnder try =
      (n left : ℕ) (v : Value) (s : Logged c)
      → 0 < decay
      → n < most
      → HasCount n left s
      → HasCount (suc n) (window n decay left) (try v s) × ((try v s).rest ≡ s.rest ++ v ∷ [])

  -- a try over the limit does not run, and the key stays over the limit
  abbrev pub StopsOver : (Value → Logged c → Logged c) → Type 0
  StopsOver try =
      (n left : ℕ) (v : Value) (s : Logged c)
      → 0 < decay
      → most ≤ n
      → HasCount n left s
      → (n' : ℕ) × (most ≤ n')
        × HasCount n' (window n decay left) (try v s)
        × ((try v s).rest ≡ s.rest)

  in_window :
      (n left : ℕ) (ms : List Move)
      → waited ms < decay
      → waited ms < left
      → waited ms < window n decay left
  in_window n left ms d l = ground arith

  take_first :
      (n : ℕ) (v : Value) (vs : List Value)
      → n < most
      → take (most - n) (v ∷ vs) ≡ v ∷ take (most - suc n) vs
  take_first n v vs h =
      let one_more : most - n ≡ suc (most - suc n) = omega (arith, h) in
      ap (λ (k : ℕ). take k (v ∷ vs)) one_more

  take_no_more : (n : ℕ) (vs : List Value) → most ≤ n → take (most - n) vs ≡ []
  take_no_more n vs h =
      let nothing_left : most - n ≡ 0 = omega (arith, h) in ap (λ (k : ℕ). take k vs) nothing_left

  take_nothing : (k : ℕ) → take {A = Value} k [] ≡ []
  take_nothing zero = refl
  take_nothing (suc k) = refl

  module _ (try : Value → Logged c → Logged c) (under : RunsUnder try) (over : StopsOver try) where
    run_lem :
        (ms : List Move) (n left : ℕ) (s : Logged c)
        → waited ms < decay
        → waited ms < left
        → HasCount n left s
        → (run c try ms s).rest ≡ s.rest ++ take (most - n) (tried ms)
    unfolding run
    run_lem [] n left s d l e =
        sym (append-nil s.rest)
        ∙ ap (λ (vs : List Value). s.rest ++ vs) (sym (take_nothing (most - n)))
    run_lem (waits m ∷ ms) n left s d l e =
        run_lem ms n (left - m) (record s { cache = elapse c m s.cache }) (omega arith)
          (omega arith) (elapse_lem c key n left m s.cache (omega arith) e)
    run_lem (tries v ∷ ms) n left s d l e = elim (dec_lt n most) [
      | yes h ↦
          let (next, logged) = under n left v s (omega arith) h e in
          run_lem ms (suc n) (window n decay left) (try v s) d (in_window n left ms d l) next
          ∙ ap (λ (log : List Value). log ++ take (most - suc n) (tried ms)) logged
          ∙ append_assoc s.rest (v ∷ []) (take (most - suc n) (tried ms))
          ∙ ap (λ (vs : List Value). s.rest ++ vs) (sym (take_first n v (tried ms) h))
      | no h ↦
          let (n', still, next, logged) = over n left v s (omega arith) (omega (arith, h)) e in
          run_lem ms n' (window n decay left) (try v s) d (in_window n left ms d l) next
          ∙ ap (λ (vs : List Value). (try v s).rest ++ vs) (take_no_more n' (tried ms) still)
          ∙ ap (λ (log : List Value). log ++ []) logged
          ∙ ap (λ (vs : List Value). s.rest ++ vs)
              (sym (take_no_more n (v ∷ tried ms) (omega (arith, h))))
    ]

    pub first_run :
        (ms : List Move) (r : Repo c)
        → waited ms < decay
        → c.look key r.store ≡ none
        → (run c try ms (unlogged c r)).rest ≡ take most (tried ms)
    first_run ms r d e =
        let all_left : most - 0 ≡ most = omega arith in
        run_lem ms 0 decay (unlogged c r) d d e ∙ ap (λ (k : ℕ). take k (tried ms)) all_left

  pub counter-window : (n left : ℕ) → counter n left ≡ counter n (window n decay left)
  counter-window zero left = refl
  counter-window (suc n) left = refl

  over_limit :
      (n left : ℕ) (r : Repo c)
      → c.look key r.store ≡ counter n left
      → let (over, r') = too_many_attempts c key (pos most) r in
        (over ≡ some (leb most n)) × (r'.store ≡ r.store)
  unfolding too_many_attempts
  over_limit n left r e = ground (arith, attempts_lem c key n left r e)

  -- `attempt`, with a callback that returns its mark and leaves the cache alone
  abbrev pub attempts_once : Value → Logged c → Logged c
  attempts_once v s = (attempt c key (pos most) (λ s'. (some v, ran c v s')) (pos decay) s).1

  attempt_free :
      (v : Value) (s : Logged c)
      → (too_many_attempts c key (pos most) s.cache).0 ≡ some false
      → attempts_once v s ≡ (
          let r = (too_many_attempts c key (pos most) s.cache).1 in
          record { cache = (hit c key (pos decay) r).1; rest = s.rest ++ v ∷ [] })
  unfolding attempt attempt_ran
  attempt_free v s o = rw (o, attempts_once) refl

  attempt_full :
      (v : Value) (s : Logged c)
      → (too_many_attempts c key (pos most) s.cache).0 ≡ some true
      → attempts_once v s ≡ record s { cache = (too_many_attempts c key (pos most) s.cache).1 }
  unfolding attempt
  attempt_full v s o = rw (o, attempts_once) refl

  attempt-RunsUnder : RunsUnder attempts_once
  attempt-RunsUnder n left v s d h e =
      let r' = (too_many_attempts c key (pos most) s.cache).1 in
      let (over, same) = over_limit n left s.cache e in
      let free : leb most n ≡ false = ground (arith, h) in
      let (_, entry) = hit_lem c key n decay left r' d (ap (λ t. c.look key t) same ∙ e) in
      let went = attempt_free v s (over ∙ ap some free) in
      (
        ap (λ (t : Logged c). c.look key t.cache.store) went ∙ entry,
        ap (λ (t : Logged c). t.rest) went,
      )

  attempt-StopsOver : StopsOver attempts_once
  attempt-StopsOver n left v s d h e =
      let (over, same) = over_limit n left s.cache e in
      let full : leb most n ≡ true = ground (arith, h) in
      let refused = attempt_full v s (over ∙ ap some full) in
      (
        n,
        h,
        ap (λ (t : Logged c). c.look key t.cache.store) refused
            ∙ ap (λ t. c.look key t) same
            ∙ e
            ∙ counter-window n left,
        ap (λ (t : Logged c). t.rest) refused,
      )

  -- On a key that is free, of the attempts that are made one after the other within one window,
  -- spread over less than `decay_seconds`, `attempt` runs the callbacks of the first
  -- `max_attempts`, each once and in order, and of no other one, where the callbacks return and
  -- leave the cache alone.
  pub attempts_in_window :
      (ms : List Move) (r : Repo c)
      → waited ms < decay
      → c.look key r.store ≡ none
      → (run c attempts_once ms (unlogged c r)).rest ≡ take most (tried ms)
  attempts_in_window = first_run attempts_once attempt-RunsUnder attempt-StopsOver
