-- ===== src/Support/CommandSignature/Forms.antt =====
-- src/arvel/support/command_signature.py: the forms of the grammar, and how one of them is read.
use mathlib.Core.List.{append-nil}
use arvel.Common.{
  ℕ, ◌≡◌, refl, sym, ap, ◌∙◌, Bool, true, false, not, ◌&&◌, Option, none, some, [], ◌∷◌, ◌++◌,
  if◌then◌else◌, ◌==◌, arith, ==_iff,
}
use arvel.Support.CommandSignature.{
  Text, SignatureArg, positional, option, parse_argument, option_body, parse_option, parse_token,
}
use arvel.Support.CommandSignature.Marks.{
  free, free-append, partition_none, partition_at, ends_in_none, ends_in_last, but_last-append,
  braceless,
}

-- the grammar of the module's docstring
pub data Form : Type 0 where
  required : Text → Form
  optional_ : Text → Form
  defaulted : Text → Text → Form
  variadic_ : Text → Form
  flag : Option Text → Text → Form
  valued : Option Text → Text → Form
  multiple : Option Text → Text → Form

-- a name with none of the marks
abbrev pub plain : Text → Bool
plain s = braceless s && (free b'=' s && (free b'|' s && (free b'*' s && free b'?' s)))

-- the name of an argument, which has a first character, no dash
abbrev pub word : Text → Bool
word [] = false
word (c ∷ s) = not (c == b'-') && plain (c ∷ s)

abbrev pub plain_shortcut : Option Text → Bool
plain_shortcut none = true
plain_shortcut (some s) = plain s

abbrev pub good : Form → Bool
good (required name) = word name
good (optional_ name) = word name
good (defaulted name text) = word name && braceless text
good (variadic_ name) = word name
good (flag shortcut name) = plain_shortcut shortcut && plain name
good (valued shortcut name) = plain_shortcut shortcut && plain name
good (multiple shortcut name) = plain_shortcut shortcut && plain name

abbrev pub with_shortcut : Option Text → Text → Text
with_shortcut none body = body
with_shortcut (some s) body = s ++ b'|' ∷ body

abbrev pub dashed : Text → Text
dashed body = b'-' ∷ b'-' ∷ body

abbrev pub printed : Form → Text
printed (required name) = name
printed (optional_ name) = name ++ b'?' ∷ []
printed (defaulted name text) = name ++ b'=' ∷ text
printed (variadic_ name) = name ++ b'*' ∷ []
printed (flag shortcut name) = dashed (with_shortcut shortcut name)
printed (valued shortcut name) = dashed (with_shortcut shortcut (name ++ b'=' ∷ []))
printed (multiple shortcut name) =
    dashed (with_shortcut shortcut ((name ++ b'=' ∷ []) ++ b'*' ∷ []))

-- what the docstring says of each form
abbrev pub meant : Form → SignatureArg
meant (required name) = positional name false none false
meant (optional_ name) = positional name true none false
meant (defaulted name text) = positional name true (some text) false
meant (variadic_ name) = positional name true none true
meant (flag shortcut name) = option name false false shortcut
meant (valued shortcut name) = option name false true shortcut
meant (multiple shortcut name) = option name true true shortcut

argument_token :
    (name mark : Text)
    → word name ≡ true
    → parse_token (name ++ mark) ≡ parse_argument (name ++ mark)
unfolding parse_token
argument_token [] mark h = cc
argument_token (c ∷ s) mark h = ground (arith, h, ==_iff c b'-')

pub word-plain : (name : Text) → word name ≡ true → plain name ≡ true
word-plain [] h = refl
word-plain (c ∷ s) h = ground (arith, h)

parse_option_lem :
    (shortcut : Option Text) (body : Text)
    → plain_shortcut shortcut ≡ true
    → free b'|' body ≡ true
    → parse_option (with_shortcut shortcut body) ≡ option_body shortcut body
unfolding parse_option
parse_option_lem none body h k = rw (partition_none b'|' body k) refl
parse_option_lem (some s) body h k = rw (partition_at b'|' s body (ground (arith, h))) refl

required_lem :
    (name : Text) → plain name ≡ true → parse_argument name ≡ positional name false none false
unfolding parse_argument
required_lem name h =
    ground (arith, h, partition_none b'=' name, ends_in_none b'*' name, ends_in_none b'?' name)

marked_lem :
    (name : Text) (mark : ℕ)
    → plain name ≡ true
    → (mark == b'=') ≡ false
    → parse_argument (name ++ mark ∷ []) ≡ (
        if mark == b'*'
        then positional name true none true
        else if mark == b'?'
        then positional name true none false
        else positional (name ++ mark ∷ []) false none false)
unfolding parse_argument
marked_lem name mark h k = ground (
  arith,
  h,
  partition_none b'=' (name ++ mark ∷ []),
  free-append b'=' name (mark ∷ []),
  ends_in_last b'*' mark name,
  ends_in_last b'?' mark name,
  but_last-append mark name,
)

defaulted_lem :
    (name text : Text)
    → plain name ≡ true
    → parse_argument (name ++ b'=' ∷ text) ≡ positional name true (some text) false
unfolding parse_argument
defaulted_lem name text h = rw (partition_at b'=' name text (ground (arith, h))) refl

valued_lem :
    (shortcut : Option Text) (name : Text)
    → plain name ≡ true
    → option_body shortcut (name ++ b'=' ∷ []) ≡ option name false true shortcut
unfolding option_body
valued_lem shortcut name h =
    ground
      (arith, ends_in_last b'*' b'=' name, ends_in_last b'=' b'=' name, but_last-append b'=' name)

multiple_lem :
    (shortcut : Option Text) (name : Text)
    → option_body shortcut ((name ++ b'=' ∷ []) ++ b'*' ∷ []) ≡ option name true true shortcut
unfolding option_body
multiple_lem shortcut name = ground (
  arith,
  ends_in_last b'*' b'*' (name ++ b'=' ∷ []),
  ends_in_last b'=' b'=' name,
  but_last-append b'*' (name ++ b'=' ∷ []),
  but_last-append b'=' name,
)

flag_lem :
    (shortcut : Option Text) (name : Text)
    → plain name ≡ true
    → option_body shortcut name ≡ option name false false shortcut
unfolding option_body
flag_lem shortcut name h = ground (arith, h, ends_in_none b'*' name, ends_in_none b'=' name)

free-marked :
    (name : Text) (mark : ℕ)
    → plain name ≡ true
    → (mark == b'|') ≡ false
    → free b'|' (name ++ mark ∷ []) ≡ true
free-marked name mark h k = ground (arith, h, k, free-append b'|' name (mark ∷ []))

dashed_token : (body : Text) → parse_token (dashed body) ≡ parse_option body
unfolding parse_token
dashed_token body = refl

pub parse_token-printed : (f : Form) → good f ≡ true → parse_token (printed f) ≡ meant f
parse_token-printed (required name) h =
    ap parse_token (sym (append-nil name))
    ∙ argument_token name [] h
    ∙ ap parse_argument (append-nil name)
    ∙ required_lem name (word-plain name h)
parse_token-printed (optional_ name) h =
    argument_token name (b'?' ∷ []) h ∙ marked_lem name b'?' (word-plain name h) refl
parse_token-printed (defaulted name text) h =
    let named : word name ≡ true = ground (arith, h) in
    argument_token name (b'=' ∷ text) named ∙ defaulted_lem name text (word-plain name named)
parse_token-printed (variadic_ name) h =
    argument_token name (b'*' ∷ []) h ∙ marked_lem name b'*' (word-plain name h) refl
parse_token-printed (flag shortcut name) h =
    let fine : plain name ≡ true = ground (arith, h) in
    dashed_token (with_shortcut shortcut name)
    ∙ parse_option_lem shortcut name (ground (arith, h)) (ground (arith, fine))
    ∙ flag_lem shortcut name fine
parse_token-printed (valued shortcut name) h =
    let fine : plain name ≡ true = ground (arith, h) in
    dashed_token (with_shortcut shortcut (name ++ b'=' ∷ []))
    ∙ parse_option_lem shortcut (name ++ b'=' ∷ []) (ground (arith, h))
        (free-marked name b'=' fine refl)
    ∙ valued_lem shortcut name fine
parse_token-printed (multiple shortcut name) h =
    let fine : plain name ≡ true = ground (arith, h) in
    dashed_token (with_shortcut shortcut ((name ++ b'=' ∷ []) ++ b'*' ∷ []))
    ∙ parse_option_lem shortcut ((name ++ b'=' ∷ []) ++ b'*' ∷ []) (ground (arith, h)) (
        ground (
          arith,
          free-append b'|' (name ++ b'=' ∷ []) (b'*' ∷ []),
          free-marked name b'=' fine refl,
        ))
    ∙ multiple_lem shortcut name
