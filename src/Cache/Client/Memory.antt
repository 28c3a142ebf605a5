-- ===== src/Cache/Client/Memory.antt =====
-- A client over a function from keys to entries, which has the documented behaviour: the
-- assumptions on the client can be met.
use arvel.Common.{
  String, ◌≡◌, refl, Bool, true, false, not, Option, none, if◌then◌else◌, str_eq, is_some, arith,
  eq_iff,
}
use arvel.Common.Int.{ℤ}
use arvel.Cache.Value.{Value}
use arvel.Cache.Client.{Entry, Client, stored, aged, value_of, bumped, rearmed, expiry_of}

abbrev Table : Type 0
Table = String → Option Entry

abbrev put_at : String → Option Entry → Table → Table
put_at k o s j = if str_eq k j then o else s j

abbrev set_new_in : String → Value → Option ℤ → Table → Bool × Table
set_new_in k v e s = if is_some (s k) then (false, s) else (true, put_at k (stored v e) s)

abbrev incr_in : String → ℤ → Option ℤ → Table → ℤ × Table
incr_in k by e s = ((bumped by e (s k)).0, put_at k (bumped by e (s k)).1 s)

pub set_new_result_in :
    (k : String) (v : Value) (e : Option ℤ) (s : Table)
    → (set_new_in k v e s).0 ≡ not (is_some (s k))
set_new_result_in k v e s = ground arith

pub look-set_new_in :
    (k j : String) (v : Value) (e : Option ℤ) (s : Table)
    → (set_new_in k v e s).1 j
      ≡ (if str_eq k j then (if is_some (s k) then s k else stored v e) else s j)
look-set_new_in k j v e s = ground (arith, eq_iff k j)

abbrev pub memory : Client
memory = record {
  State = Table;
  look = λ k s. s k;
  get = λ k s. value_of (s k);
  set = λ k v e s. put_at k (stored v e) s;
  set_new = set_new_in;
  delete = λ k s. put_at k none s;
  exists = λ k s. is_some (s k);
  clear = λ s k. none;
  incr = incr_in;
  expire = λ k t s. put_at k (rearmed t (s k)) s;
  get_expire = λ k s. expiry_of (s k);
  elapse = λ n s k. aged n (s k);
  get_lem = λ k s. refl;
  look-set = λ k j v e s. refl;
  set_new_result = set_new_result_in;
  look-set_new = look-set_new_in;
  look-delete = λ k j s. refl;
  exists_lem = λ k s. refl;
  look-clear = λ j s. refl;
  incr_result = λ k by e s h. refl;
  look-incr = λ k j by e s h. refl;
  look-expire = λ k j t s h. refl;
  get_expire_lem = λ k s. refl;
  look-elapse = λ n j s. refl;
}

abbrev pub blank : Table
blank k = none
