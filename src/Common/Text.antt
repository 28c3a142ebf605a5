-- ===== src/Common/Text.antt =====
-- Texts that the program walks, as lists of code points (ASCII where it matters), with Python's
-- methods on them.
use Prim.Native.Nat.{ℕ, zero, suc, ◌+◌, ◌-◌, ◌*◌}
use Prim.Native.Char.{code}
use Prim.Native.String.{String}
use mathlib.Core.Bool.{Bool, true, false, ◌&&◌, ◌||◌}
use mathlib.Core.Option.{Option, none, some}
use mathlib.Core.List.{List, [], ◌∷◌, ◌++◌}
use arvel.Common.Tests.{◌==◌, leb, ltb, if◌then◌else◌}

abbrev pub codes : String → List ℕ
codes String.[] = []
codes (String.◌∷◌ c s) = code c ∷ codes s

abbrev pub same : List ℕ → List ℕ → Bool
same [] [] = true
same [] (y ∷ ys) = false
same (x ∷ xs) [] = false
same (x ∷ xs) (y ∷ ys) = (x == y) && same xs ys

-- `s.startswith(prefix)`, the prefix first
abbrev pub starts_with : List ℕ → List ℕ → Bool
starts_with [] s = true
starts_with (p ∷ ps) [] = false
starts_with (p ∷ ps) (c ∷ s) = (p == c) && starts_with ps s

-- `s.endswith(c)` for one character
abbrev pub ends_in : ℕ → List ℕ → Bool
ends_in c [] = false
ends_in c (x ∷ []) = x == c
ends_in c (x ∷ y ∷ s) = ends_in c (y ∷ s)

-- `s[:-1]`
abbrev pub but_last : List ℕ → List ℕ
but_last [] = []
but_last (x ∷ []) = []
but_last (x ∷ y ∷ s) = x ∷ but_last (y ∷ s)

-- `s[n:]`
abbrev pub drop {ℓ} : {A : Type ℓ} → ℕ → List A → List A
drop zero s = s
drop (suc n) [] = []
drop (suc n) (x ∷ s) = drop n s

-- `s.replace(c, "")`
abbrev pub without : ℕ → List ℕ → List ℕ
without c [] = []
without c (x ∷ s) = elim (x == c) [ true ↦ without c s | false ↦ x ∷ without c s ]

-- the ASCII whitespace of `str.split` and `str.strip`
abbrev pub is_space : ℕ → Bool
is_space c = (c == 32) || (leb 9 c && leb c 13) || (leb 28 c && leb c 31)

-- `s.split(c)`, with the part that is being read
abbrev pub split_on : ℕ → List ℕ → List ℕ → List (List ℕ)
split_on sep part [] = part ∷ []
split_on sep part (c ∷ s) = elim (c == sep) [
  | true ↦ part ∷ split_on sep [] s
  | false ↦ split_on sep (part ++ c ∷ []) s
]

-- a word that has been read, if it is one
abbrev pub push_word : List ℕ → List (List ℕ) → List (List ℕ)
push_word [] ws = ws
push_word (c ∷ w) ws = (c ∷ w) ∷ ws

-- `s.split()`
abbrev pub words : List ℕ → List ℕ → List (List ℕ)
words word [] = push_word word []
words word (c ∷ s) = elim (is_space c) [
  | true ↦ push_word word (words [] s)
  | false ↦ words (word ++ c ∷ []) s
]

-- `s.partition(c)`: what is before the first `c`, whether there is one, and what is after it
abbrev pub partition : ℕ → List ℕ → List ℕ × Bool × List ℕ
partition sep [] = ([], false, [])
partition sep (c ∷ s) =
    let (before, found, after) = partition sep s in
    if c == sep then ([], true, s) else (c ∷ before, found, after)

abbrev pub lstrip : List ℕ → List ℕ
lstrip [] = []
lstrip (c ∷ s) = let rest = lstrip s in if is_space c then rest else c ∷ s

-- `s.rstrip()`
abbrev pub rstrip : List ℕ → List ℕ
rstrip [] = []
rstrip (c ∷ s) = elim (rstrip s) [ [] ↦ if is_space c then [] else c ∷ [] | (d ∷ r) ↦ c ∷ d ∷ r ]

-- `s.strip()`
abbrev pub strip : List ℕ → List ℕ
strip s = rstrip (lstrip s)

-- `s.lower()`, on ASCII
abbrev pub lower : List ℕ → List ℕ
lower [] = []
lower (c ∷ s) = (if leb b'A' c && leb c b'Z' then c + 32 else c) ∷ lower s

abbrev pub is_digit : ℕ → Bool
is_digit c = leb b'0' c && leb c b'9'

-- decimal digits with single underscores between them: the value so far, and whether the last
-- character was a digit
abbrev pub digits_of : ℕ → Bool → List ℕ → Option ℕ
digits_of acc last [] = if last then some acc else none
digits_of acc last (c ∷ s) = elim (is_digit c) [
  | true ↦ digits_of (acc * 10 + (c - b'0')) true s
  | false ↦ elim ((c == b'_') && last) [ true ↦ digits_of acc false s | false ↦ none ]
]

-- `a <= b` on texts
abbrev pub leb_text : List ℕ → List ℕ → Bool
leb_text [] b = true
leb_text (x ∷ a) [] = false
leb_text (x ∷ a) (y ∷ b) = ltb x y || ((x == y) && leb_text a b)
