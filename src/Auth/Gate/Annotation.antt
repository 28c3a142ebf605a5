-- ===== src/Auth/Gate/Annotation.antt =====
-- src/arvel/auth/gate.py: whether a callback's first parameter admits `None`, by its annotation.
use arvel.Common.{
  ℕ, String, Bool, true, false, ◌&&◌, ◌||◌, Option, none, some, List, [], ◌∷◌, ◌++◌, ◌==◌,
  if◌then◌else◌,
}
use arvel.Common.Int.{ℤ, pos, ◌+ℤ◌, ◌-ℤ◌, int_eq}
use arvel.Common.Lists.{any}
use arvel.Common.Text.{codes, same, starts_with, ends_in, but_last, drop, without}

-- `depth` after a character
unfoldable pub deeper : ℕ → ℤ → ℤ
deeper c depth =
    if (c == b'[') || (c == b'(')
    then depth +ℤ pos 1
    else (if (c == b']') || (c == b')') then depth -ℤ pos 1 else depth)

-- the loop of `_split_top_level`, with `depth` and `current`
unfoldable pub split_from : ℕ → ℤ → List ℕ → List ℕ → List (List ℕ)
unfolding deeper
split_from sep depth current [] = current ∷ []
split_from sep depth current (c ∷ text) = elim ((c == sep) && int_eq (deeper c depth) (pos 0)) [
  | true ↦ current ∷ split_from sep (deeper c depth) [] text
  | false ↦ split_from sep (deeper c depth) (current ++ c ∷ []) text
]

unfoldable pub split_top_level : List ℕ → ℕ → List (List ℕ)
unfolding split_from
split_top_level text sep = split_from sep (pos 0) [] text

-- `part in ("None", "NoneType")`
unfoldable pub is_none : List ℕ → Bool
is_none s = same s (codes "None") || same s (codes "NoneType")

unfoldable pub annotation_str_is_nullable : List ℕ → Bool
unfolding is_none split_top_level
annotation_str_is_nullable raw =
    let s = without b' ' raw in
    is_none s
    || starts_with (codes "Optional[") s
    || any (split_top_level s b'|') is_none
    || (starts_with (codes "Union[") s
        && ends_in b']' s
        && any (split_top_level (but_last (drop 6 s)) b',') is_none)

-- what an annotation resolves to: a member of a union, or a whole type
pub data Member : Type 0 where
  none_type : Member
  class_type : String → Member

pub data Hint : Type 0 where
  null any_type : Hint
  plain : Member → Hint
  union : List Member → Hint

-- The first parameter: its raw annotation, if it has one, and what `get_type_hints` gives for it.
pub record Parameter : Type 0 where
  pub annotation : Option (List ℕ)
  pub hint : Option Hint

-- `inspect.signature`, which some callables do not have
pub data Signature : Type 0 where
  unreadable : Signature
  parameters : List Parameter → Signature

unfoldable pub is_none_type : Member → Bool
is_none_type none_type = true
is_none_type (class_type _) = false

unfoldable pub hint_accepts : Hint → Bool
unfolding is_none_type
hint_accepts null = true
hint_accepts any_type = true
hint_accepts (plain m) = is_none_type m
hint_accepts (union ms) = any ms is_none_type

unfoldable pub raw_accepts : Option (List ℕ) → Bool
unfolding annotation_str_is_nullable
raw_accepts none = true
raw_accepts (some raw) = annotation_str_is_nullable raw

unfoldable pub accepts_none : Signature → Bool
unfolding hint_accepts raw_accepts
accepts_none unreadable = true
accepts_none (parameters []) = true
accepts_none (parameters (first ∷ _)) = elim first.hint [
  | none ↦ raw_accepts first.annotation
  | some h ↦ hint_accepts h
]
