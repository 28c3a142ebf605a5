-- ===== src/Events/Glob.antt =====
-- src/arvel/events/dispatcher.py: `fnmatch.fnmatch`, which `_gather` calls: `*`, `?` and `[...]`, on
-- texts as lists of code points.
use arvel.Common.{
  ℕ, zero, suc, ◌==◌, leb, Bool, true, false, not, ◌&&◌, ◌||◌, Option, none, some, List, [], ◌∷◌,
  if◌then◌else◌,
}
use arvel.Common.Lists.{length}

-- a part of a pattern: any text, any character, this one, or one in, or outside, these ranges
pub data Item : Type 0 where
  star any_one : Item
  exactly : ℕ → Item
  within : Bool → List (ℕ × ℕ) → Item

-- what follows `[` up to the closing bracket, which is not the first character
unfoldable pub up_to_bracket : List ℕ → Option (List ℕ)
up_to_bracket [] = none
up_to_bracket (c ∷ s) = elim (c == 93) [
  | true ↦ some []
  | false ↦ elim (up_to_bracket s) [ none ↦ none | some body ↦ some (c ∷ body) ]
]

unfoldable pub after_first : List ℕ → Option (List ℕ)
unfolding up_to_bracket
after_first [] = none
after_first (c ∷ s) = elim (up_to_bracket s) [ none ↦ none | some body ↦ some (c ∷ body) ]

-- the body of a bracket, with the `!` that may begin it
unfoldable pub bracket : List ℕ → Option (List ℕ)
unfolding after_first
bracket [] = none
bracket (c ∷ s) = elim (c == 33) [
  | true ↦ elim (after_first s) [ none ↦ none | some body ↦ some (c ∷ body) ]
  | false ↦ after_first (c ∷ s)
]

-- the ranges `a-b` and the single characters of a body
unfoldable pub ranges : List ℕ → List (ℕ × ℕ)
ranges [] = []
ranges (a ∷ []) = (a, a) ∷ []
ranges (a ∷ b ∷ []) = (a, a) ∷ (b, b) ∷ []
ranges (a ∷ b ∷ c ∷ s) = elim (b == 45) [
  | true ↦ (a, c) ∷ ranges s
  | false ↦ (a, a) ∷ ranges (b ∷ c ∷ s)
]

unfoldable pub set_of : List ℕ → Item
unfolding ranges
set_of [] = within true []
set_of (c ∷ body) = elim (c == 33) [
  | true ↦ within false (ranges body)
  | false ↦ within true (ranges (c ∷ body))
]

-- one character that begins no bracket
unfoldable pub item_of : ℕ → Item
item_of c = if c == 42 then star else if c == 63 then any_one else exactly c

-- The items of a pattern; the number is how many characters belong to a bracket that has been read.
unfoldable pub items : ℕ → List ℕ → List Item
unfolding bracket set_of item_of
items skip [] = []
items (suc skip) (c ∷ s) = items skip s
items zero (c ∷ s) = elim (c == 91) [
  | true ↦ elim (bracket s) [
    | none ↦ exactly c ∷ items zero s
    | some body ↦ set_of body ∷ items (suc (length body)) s
  ]
  | false ↦ item_of c ∷ items zero s
]

unfoldable pub in_ranges : ℕ → List (ℕ × ℕ) → Bool
in_ranges c [] = false
in_ranges c ((lo, hi) ∷ rs) = (leb lo c && leb c hi) || in_ranges c rs

unfoldable pub fits : Item → ℕ → Bool
unfolding in_ranges
fits star c = true
fits any_one c = true
fits (exactly d) c = c == d
fits (within true rs) c = in_ranges c rs
fits (within false rs) c = not (in_ranges c rs)

-- some end of the text satisfies the test
unfoldable pub some_end : (List ℕ → Bool) → List ℕ → Bool
some_end p [] = p []
some_end p (c ∷ s) = p (c ∷ s) || some_end p s

unfoldable pub next_fits : Item → (List ℕ → Bool) → List ℕ → Bool
unfolding fits
next_fits i p [] = false
next_fits i p (c ∷ s) = fits i c && p s

unfoldable pub glob : List Item → List ℕ → Bool
unfolding some_end next_fits
glob [] [] = true
glob [] (c ∷ s) = false
glob (star ∷ is) s = some_end (glob is) s
glob (any_one ∷ is) s = next_fits any_one (glob is) s
glob (exactly d ∷ is) s = next_fits (exactly d) (glob is) s
glob (within b rs ∷ is) s = next_fits (within b rs) (glob is) s

unfoldable pub fnmatch : List ℕ → List ℕ → Bool
unfolding glob items
fnmatch name pattern_ = glob (items zero pattern_) name
