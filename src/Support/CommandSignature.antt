-- ===== src/Support/CommandSignature.antt =====
-- src/arvel/support/command_signature.py: the tokens of a signature, and their order. A text is its code points.
pub mod Marks
pub mod Forms
pub mod RoundTrip
pub mod Order
mod Tests
use arvel.Common.{
  ℕ, Bool, true, false, not, ◌&&◌, ◌||◌, Option, none, some, List, [], ◌∷◌, ◌++◌, if◌then◌else◌,
  ◌==◌, is_some, map,
}
use arvel.Common.Text.{starts_with, ends_in, but_last, drop, partition}

abbrev pub Text : Type 0
Text = List ℕ

pub record SignatureArg : Type 0 where
  pub name : Text
  pub is_option : Bool
  pub optional : Bool
  pub default : Option Text
  pub variadic : Bool
  pub takes_value : Bool
  pub shortcut : Option Text

-- a positional, by what the dataclass leaves at its defaults
unfoldable pub positional : Text → Bool → Option Text → Bool → SignatureArg
positional name optional default variadic = record {
  name = name;
  is_option = false;
  optional = optional;
  default = default;
  variadic = variadic;
  takes_value = false;
  shortcut = none;
}

unfoldable pub option : Text → Bool → Bool → Option Text → SignatureArg
option name variadic takes_value shortcut = record {
  name = name;
  is_option = true;
  optional = true;
  default = none;
  variadic = variadic;
  takes_value = takes_value;
  shortcut = shortcut;
}

unfoldable pub parse_argument : Text → SignatureArg
unfolding positional
parse_argument body =
    let (name, found, default) = partition b'=' body in
    if found
    then positional name true (some default) false
    else if ends_in b'*' body
    then positional (but_last body) true none true
    else if ends_in b'?' body
    then positional (but_last body) true none false
    else positional body false none false

-- `_parse_option` after the shortcut
unfoldable pub option_body : Option Text → Text → SignatureArg
unfolding option
option_body shortcut body =
    if ends_in b'*' body && ends_in b'=' (but_last body)
    then option (but_last (but_last body)) true true shortcut
    else if ends_in b'=' body
    then option (but_last body) false true shortcut
    else option body false false shortcut

unfoldable pub parse_option : Text → SignatureArg
unfolding option_body
parse_option body =
    let (shortcut, found, rest) = partition b'|' body in
    if found then option_body (some shortcut) rest else option_body none body

pub data Brace : Type 0 where
  opens closes no_brace : Brace

unfoldable pub brace_of : ℕ → Brace
brace_of c = if c == b'{' then opens else if c == b'}' then closes else no_brace

abbrev pub push : Text → List Text → List Text
push [] found = found
push (c ∷ s) found = (c ∷ s) ∷ found

-- `_TOKEN.findall`: what is read since the last opening brace, and the text that is left
unfoldable pub find_from : Option Text → Text → List Text
unfolding brace_of
find_from read [] = []
find_from none (c ∷ s) = elim (brace_of c) [
  | opens ↦ find_from (some []) s
  | closes ↦ find_from none s
  | no_brace ↦ find_from none s
]
find_from (some read) (c ∷ s) = elim (brace_of c) [
  | opens ↦ find_from (some []) s
  | closes ↦ push read (find_from none s)
  | no_brace ↦ find_from (some (read ++ c ∷ [])) s
]

unfoldable pub parse_token : Text → SignatureArg
unfolding parse_option parse_argument
parse_token raw =
    if starts_with (b'-' ∷ b'-' ∷ []) raw then parse_option (drop 2 raw) else parse_argument raw

unfoldable pub parse_signature : Text → List SignatureArg
unfolding find_from parse_token
parse_signature signature = map parse_token (find_from none signature)

-- a positional that may be left out
unfoldable pub may_be_left_out : SignatureArg → Bool
may_be_left_out token = token.optional || is_some token.default || token.variadic

-- the name that is raised about, with `seen_optional`
unfoldable pub validate_from : Bool → List SignatureArg → Option Text
unfolding may_be_left_out
validate_from seen [] = none
validate_from seen (token ∷ tokens) =
    let skipped = validate_from seen tokens in
    let after = validate_from true tokens in
    if token.is_option
    then skipped
    else if may_be_left_out token
    then after
    else if seen
    then some token.name
    else skipped

unfoldable pub validate_positional_order : List SignatureArg → Option Text
unfolding validate_from
validate_positional_order tokens = validate_from false tokens
