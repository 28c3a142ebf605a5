-- ===== src/Auth/Throttle/Collide.antt =====
-- src/arvel/auth/throttle.py: the second key of one identifier is the first key of another one.
use Prim.Native.String.{◌++◌ as ◌+++◌}
use arvel.Common.{String, ◌≡◌, refl, ap, true, false, none, some, eq_iff}
use arvel.Common.Int.{ℤ, pos, leb_ℤ, ◌+ℤ◌}
use arvel.Cache.Value.{int}
use arvel.Cache.Client.{Client}
use arvel.Cache.Repository.{Repo}
use arvel.Cache.Repository.Reads.{get-put}
use arvel.Auth.Throttle.{
  LoginRateLimiter, key_of, until_key, too_many_attempts, record_failure, int_or_zero,
}
use arvel.Auth.Throttle.Lockout.{all_up}

module _ (c : Client) (norm : String → String) where
  same_key :
      (l : LoginRateLimiter) (x y : String)
      → norm y ≡ norm x +++ ":until"
      → key_of c norm l y ≡ until_key c norm l x
  unfolding key_of until_key
  same_key l x y h = ap (λ (s : String). l.prefix +++ ":" +++ s) h

  -- One recorded failure of an identifier locks out at once the identifier that is the same with ":until" behind
  -- it, which has not failed, as long as the limit is no more than a date.
  pub until_locks_out :
      (l : LoginRateLimiter) (x y : String) (now : ℤ) (r : Repo c)
      → norm y ≡ norm x +++ ":until"
      → leb_ℤ l.decay_seconds (pos 0) ≡ false
      → leb_ℤ l.max_attempts (now +ℤ l.decay_seconds) ≡ true
      → (too_many_attempts c norm l true y (record_failure c norm l all_up now x r).1).0 ≡ some true
  unfolding record_failure too_many_attempts int_or_zero
  until_locks_out l x y now r h d m =
      let key = until_key c norm l x in
      let until = int (now +ℤ l.decay_seconds) in
      let r' = record r {
        store =
            c.expire (key_of c norm l x) l.decay_seconds
              (c.incr (key_of c norm l x) (pos 1) none r.store).1;
      } in
      let kept = (get-put c key key until (int (pos 0)) (some l.decay_seconds) r').1 in
      rw (same_key l x y h, kept, (eq_iff key key).1 refl, d, m) refl
