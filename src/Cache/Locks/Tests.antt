-- ===== src/Cache/Locks/Tests.antt =====
-- The lock table at concrete calls.
use arvel.Common.{ℕ, ◌≡◌, refl, true, none, some, [], ◌∷◌, List, String, arith}
use arvel.Common.Int.{ℤ, pos, ◌+ℤ◌}
use arvel.Common.Assoc.{lookup, insert, erase}
use arvel.Cache.Locks.{LockStore, try_acquire, has_expired, release}
use arvel.Cache.Locks.Handle.{
  CacheLock, acquired, timed_out, acquire_failed, returned, raised, get, block,
}
use arvel.Cache.Locks.Handle.Waits.{Ended, block-Ended}
use arvel.Cache.Locks.Spec.{holder, entry}
use arvel.Cache.Locks.Refinement.{call_lem, granted, updated}
use arvel.Cache.Locks.Exclusion.{call, Call, acquires, releases, forces, run, mutual_exclusion}

abbrev held : LockStore
held = ("report", entry "w1" (some (pos 60))) ∷ ("mail", entry "w2" none) ∷ []

abbrev calls : List (ℤ × Call)
calls =
    (pos 3, acquires "report" "w2" none)
    ∷ (pos 4, releases "report" "w2")
    ∷ (pos 5, acquires "report" "w1" (some (pos 5)))
    ∷ (pos 6, forces "mail")
    ∷ (pos 59, acquires "report" "w3" (some (pos 5)))
    ∷ []

mutual_exclusion_example :
    let (granted, locks') = run "report" calls held in
    (granted ≡ 0) × (lookup "report" locks' ≡ some (entry "w1" (some (pos 60))))
unfolding lookup has_expired
mutual_exclusion_example =
    mutual_exclusion "report" "w1" (some (pos 60)) calls held refl
      (refl, refl, (refl, refl, (refl, refl, (refl, refl, (refl, refl, tt)))))

takes_over : (try_acquire (pos 60) "report" "w2" none held).0 ≡ true
unfolding try_acquire lookup
takes_over = refl

call_lem_example :
    let (got, locks') = call (pos 60) (acquires "report" "w2" (some (pos 10))) held in
    (got ≡ granted (acquires "report" "w2" (some (pos 10))) (holder (pos 60) held))
    × ((j : String)
        → holder (pos 60) locks' j
          ≡ updated (pos 60) (acquires "report" "w2" (some (pos 10))) (holder (pos 60) held) j)
call_lem_example = call_lem (pos 60) (acquires "report" "w2" (some (pos 10))) held

abbrev waiting : CacheLock
waiting = record { name = "report"; owner = "w2"; seconds = some (pos 30) }

-- nobody else comes, and no sleep lasts too long
abbrev idle : ℕ → LockStore → LockStore
idle now locks = locks

abbrev punctual : ℕ → ℕ
punctual now = 0

block-Ended_example : Ended waiting 8 (block waiting idle punctual 5 2 6 3 held)
block-Ended_example = block-Ended waiting idle punctual 5 2 6 3 held (omega arith) (omega arith)

waits_in_vain : (block waiting idle punctual 5 2 6 3 held).0 ≡ timed_out 8
unfolding block try_acquire lookup
waits_in_vain = refl

waits_and_gets : (block waiting idle punctual 5 2 6 57 held).0 ≡ acquired 61
unfolding block try_acquire lookup
waits_and_gets = refl

-- a callback that raises leaves the lock free
got_and_given_back :
    let (outcome, locks) = get waiting 70 71 (λ locks'. (raised "OSError", locks')) held in
    (outcome ≡ raised "OSError") × (holder (pos 71) locks "report" ≡ none)
unfolding get try_acquire lookup holder release insert erase ◌+ℤ◌
got_and_given_back = (refl, refl)

get_refused : (get waiting 7 8 (λ locks'. (returned "done", locks')) held).0 ≡ acquire_failed 7
unfolding get try_acquire lookup
get_refused = refl
