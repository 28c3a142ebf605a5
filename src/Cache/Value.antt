-- ===== src/Cache/Value.antt =====
-- The Python values that a cache entry can hold, and src/arvel/cache/__init__.py's envelope.
use arvel.Common.{String, ◌≡◌, refl, Bool, true, false}
use arvel.Common.Int.{ℤ}

mutual
  pub data Value : Type 0 where
    none_ : Value
    flag : Bool → Value
    int : ℤ → Value
    text : String → Value
    tuple : Values → Value

  pub data Values : Type 0 where
    nil : Values
    cons : Value → Values → Values

-- `_wrap`: a 1-tuple, so that a stored `None` is not the client's `None`
unfoldable pub wrap : Value → Value
wrap v = tuple (cons v nil)

-- `_unwrap`: what another client has written passes through
unfoldable pub unwrap : Value → Value
unwrap (tuple (cons v nil)) = v
unwrap v = v

-- `raw is not None`
abbrev pub is_there : Value → Bool
is_there none_ = false
is_there _ = true

pub unwrap-wrap : (v : Value) → unwrap (wrap v) ≡ v
unfolding wrap unwrap
unwrap-wrap v = refl
