-- ===== src/Cache/Repository/Reads.antt =====
-- src/arvel/cache/__init__.py: what `get` returns after each of the writing methods, and how long.
use arvel.Common.{
  ℕ, String, ◌≡◌, not, ◌&&◌, Option, none, some, if◌then◌else◌, str_eq, arith, eq_iff,
}
use arvel.Common.Int.{ℤ, pos, leb_ℤ}
use arvel.Cache.Value.{Value, wrap, unwrap, is_there}
use arvel.Cache.Client.{Client, value_of}
use arvel.Cache.Repository.{Repo, get, put, has, add, pull, is_past}

module _ (c : Client) where
  -- What the repository shows at a key: nothing, or a value.
  unfoldable pub shown : Repo c → String → Option Value
  unfolding unwrap
  shown r key =
      let raw = value_of (c.look key r.store) in if is_there raw then some (unwrap raw) else none

  abbrev pub or_default : Option Value → Value → Value
  or_default none default = default
  or_default (some v) default = v

  pub get_lem :
      (key : String) (default : Value) (r : Repo c)
      → ((get c key default r).0 ≡ or_default (shown r key) default)
        × ((get c key default r).1.store ≡ r.store)
  unfolding get shown
  get_lem key default r = (simp c.get_lem (ground arith), ground arith)

  pub shown-put :
      (key j : String) (v : Value) (ttl : Option ℤ) (r : Repo c)
      → shown (put c key v ttl r).1 j
        ≡ (if str_eq key j then (if is_past ttl then none else some v) else shown r j)
  unfolding put shown
  shown-put key j v ttl r =
      ground
        (arith, c.look-set key j (wrap v) ttl r.store, c.look-delete key j r.store, eq_iff key j)

  -- `get` after `put`: the value that was put, a stored `None` included, or, after a lifetime that is
  -- not positive, the default; another key reads as before. `put` says whether it has stored.
  pub get-put :
      (key j : String) (v default : Value) (ttl : Option ℤ) (r : Repo c)
      → let (kept, r') = put c key v ttl r in
        (kept ≡ not (is_past ttl))
        × ((get c j default r').0 ≡ (
            if str_eq key j then (if is_past ttl then default else v) else (get c j default r).0))
  unfolding put get
  get-put key j v default ttl r = (
    ground arith,
    ground (
      arith,
      c.get_lem j (put c key v ttl r).1.store,
      c.get_lem j r.store,
      c.look-set key j (wrap v) ttl r.store,
      c.look-delete key j r.store,
      eq_iff key j,
    ),
  )

  -- `add` stores exactly where the key is free and the lifetime is not past; then the key reads as
  -- the value. It never replaces an entry, and other keys read as before.
  pub add_lem :
      (key j : String) (v : Value) (ttl : Option ℤ) (r : Repo c)
      → let (added, r') = add c key v ttl r in
        (added ≡ not (is_past ttl) && not (has c key r).0)
        × (shown r' j ≡ (if added && str_eq key j then some v else shown r j))
  unfolding add has shown
  add_lem key j v ttl r = (
    ground (arith, c.set_new_result key (wrap v) ttl r.store, c.exists_lem key r.store),
    ground (
      arith,
      c.set_new_result key (wrap v) ttl r.store,
      c.look-set_new key j (wrap v) ttl r.store,
      eq_iff key j,
    ),
  )

  -- `pull` returns what `get` would, and then the key is gone; other keys read as before.
  pub pull_lem :
      (key j : String) (default : Value) (r : Repo c)
      → let (v, r') = pull c key default r in
        (v ≡ (get c key default r).0) × (shown r' j ≡ (if str_eq key j then none else shown r j))
  unfolding pull get shown
  pull_lem key j default r = (
    ground arith,
    ground (arith, c.get_lem key r.store, c.look-delete key j r.store, eq_iff key j),
  )

  abbrev pub elapse : ℕ → Repo c → Repo c
  elapse n r = record r { store = c.elapse n r.store }

  -- After `put` with a lifetime of `t` seconds the value shows for the first `t` seconds and at no
  -- later time; without a lifetime it shows for ever; a lifetime that is not positive never shows.
  pub put_expires :
      (key : String) (v : Value) (ttl : Option ℤ) (n : ℕ) (r : Repo c)
      → shown (elapse n (put c key v ttl r).1) key
        ≡ elim ttl [ none ↦ some v | some t ↦ if leb_ℤ t (pos n) then none else some v ]
  unfolding put shown
  put_expires key v none n r = ground (
    arith,
    c.look-elapse n key (c.set key (wrap v) none r.store),
    c.look-set key key (wrap v) none r.store,
    eq_iff key key,
  )
  put_expires key v (some t) n r = ground (
    arith,
    c.look-elapse n key (c.set key (wrap v) (some t) r.store),
    c.look-elapse n key (c.delete key r.store),
    c.look-set key key (wrap v) (some t) r.store,
    c.look-delete key key r.store,
    eq_iff key key,
  )
