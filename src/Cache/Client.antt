-- ===== src/Cache/Client.antt =====
-- What arvel uses of the cashews client, which is not part of the repository: the operations, and
-- their documented effect on the entries that a caller can see. An entry is a value with the
-- seconds that it has left, `none` for an entry that does not expire.
pub mod Memory
use arvel.Common.{
  ℕ, String, ◌≡◌, ◌≢◌, Bool, true, false, not, Option, none, some, if◌then◌else◌, str_eq, is_some,
}
use arvel.Common.Int.{ℤ, pos, negsuc, ◌+ℤ◌, ◌-ℤ◌, leb_ℤ}
use arvel.Cache.Value.{Value, none_, int}

pub record Entry : Type 0 where
  pub value : Value
  pub ttl : Option ℤ

-- cashews reads a non-positive `expire` as "no expiry".
abbrev pub ttl_of : Option ℤ → Option ℤ
ttl_of none = none
ttl_of (some t) = if leb_ℤ t (pos 0) then none else some t

abbrev pub stored : Value → Option ℤ → Option Entry
stored v expire = some (record { value = v; ttl = ttl_of expire })

-- The entry after `n` seconds.
abbrev pub aged : ℕ → Option Entry → Option Entry
aged n none = none
aged n (some e) = elim e.ttl [
  | none ↦ some e
  | some t ↦ if leb_ℤ t (pos n) then none else some (record e { ttl = some (t -ℤ pos n) })
]

-- `get`: the value, or `None`
abbrev pub value_of : Option Entry → Value
value_of none = none_
value_of (some e) = e.value

-- `incr` on a missing key or on a number; a new counter gets the expiry, an old one keeps its own.
abbrev pub bumped : ℤ → Option ℤ → Option Entry → ℤ × Option Entry
bumped by expire none = (by, stored (int by) expire)
bumped by expire (some e) = elim e.value [
  | int n ↦ (n +ℤ by, some (record e { value = int (n +ℤ by) }))
  | _ ↦ (by, some e)
]

abbrev pub is_counter : Option Entry → Bool
is_counter none = true
is_counter (some e) = elim e.value [ int n ↦ true | _ ↦ false ]

-- `expire` with a positive timeout
abbrev pub rearmed : ℤ → Option Entry → Option Entry
rearmed t none = none
rearmed t (some e) = some (record e { ttl = some t })

-- `get_expire`: the seconds left, -1 without expiry, -2 for a missing key
abbrev pub expiry_of : Option Entry → ℤ
expiry_of none = negsuc 1
expiry_of (some e) = elim e.ttl [ none ↦ negsuc 0 | some t ↦ t ]

pub record Client : Type 1 where
  pub State : Type 0
  -- what a caller can see at a key
  pub look : String → State → Option Entry
  pub get : String → State → Value
  pub set : String → Value → Option ℤ → State → State
  -- `set(…, exist=False)`
  pub set_new : String → Value → Option ℤ → State → Bool × State
  pub delete : String → State → State
  pub exists : String → State → Bool
  pub clear : State → State
  pub incr : String → ℤ → Option ℤ → State → ℤ × State
  pub expire : String → ℤ → State → State
  pub get_expire : String → State → ℤ
  pub elapse : ℕ → State → State
  pub get_lem : (k : String) (s : State) → get k s ≡ value_of (look k s)
  pub look-set :
      (k j : String) (v : Value) (e : Option ℤ) (s : State)
      → look j (set k v e s) ≡ (if str_eq k j then stored v e else look j s)
  pub set_new_result :
      (k : String) (v : Value) (e : Option ℤ) (s : State)
      → (set_new k v e s).0 ≡ not (is_some (look k s))
  pub look-set_new :
      (k j : String) (v : Value) (e : Option ℤ) (s : State)
      → look j (set_new k v e s).1
        ≡ (if str_eq k j then (if is_some (look k s) then look k s else stored v e) else look j s)
  pub look-delete :
      (k j : String) (s : State) → look j (delete k s) ≡ (if str_eq k j then none else look j s)
  pub exists_lem : (k : String) (s : State) → exists k s ≡ is_some (look k s)
  pub look-clear : (j : String) (s : State) → look j (clear s) ≡ none
  pub incr_result :
      (k : String) (by : ℤ) (e : Option ℤ) (s : State)
      → is_counter (look k s) ≡ true
      → (incr k by e s).0 ≡ (bumped by e (look k s)).0
  pub look-incr :
      (k j : String) (by : ℤ) (e : Option ℤ) (s : State)
      → is_counter (look k s) ≡ true
      → look j (incr k by e s).1 ≡ (if str_eq k j then (bumped by e (look k s)).1 else look j s)
  pub look-expire :
      (k j : String) (t : ℤ) (s : State)
      → leb_ℤ t (pos 0) ≡ false
      → look j (expire k t s) ≡ (if str_eq k j then rearmed t (look k s) else look j s)
  pub get_expire_lem : (k : String) (s : State) → get_expire k s ≡ expiry_of (look k s)
  pub look-elapse : (n : ℕ) (j : String) (s : State) → look j (elapse n s) ≡ aged n (look j s)
