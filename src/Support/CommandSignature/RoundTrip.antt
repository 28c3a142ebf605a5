-- ===== src/Support/CommandSignature/RoundTrip.antt =====
-- src/arvel/support/command_signature.py: a written signature is read as what it was written from.
use arvel.Common.{
  ◌≡◌, refl, ap, ◌∙◌, Bool, true, ◌&&◌, Option, none, some, List, [], ◌∷◌, ◌++◌, arith, map,
}
use arvel.Support.CommandSignature.{
  Text, SignatureArg, find_from, push, parse_token, parse_signature, brace_of,
}
use arvel.Support.CommandSignature.Marks.{free-append, braceless, find_from_read, find_from_outside}
use arvel.Support.CommandSignature.Forms.{
  Form, required, optional_, defaulted, variadic_, flag, valued, multiple, word, plain_shortcut,
  good, with_shortcut, printed, meant, parse_token-printed, word-plain,
}

braceless-append :
    (s t : Text) → braceless s ≡ true → braceless t ≡ true → braceless (s ++ t) ≡ true
braceless-append s t h k = ground (arith, h, k, free-append b'{' s t, free-append b'}' s t)

shortcut-braceless :
    (shortcut : Option Text) (body : Text)
    → plain_shortcut shortcut ≡ true
    → braceless body ≡ true
    → braceless (with_shortcut shortcut body) ≡ true
shortcut-braceless none body h k = k
shortcut-braceless (some s) body h k =
    braceless-append s (b'|' ∷ body) (ground (arith, h)) (ground (arith, k))

printed-braceless : (f : Form) → good f ≡ true → braceless (printed f) ≡ true
printed-braceless (required name) h = ground (arith, word-plain name h)
printed-braceless (optional_ name) h =
    braceless-append name (b'?' ∷ []) (ground (arith, word-plain name h)) refl
printed-braceless (defaulted name text) h =
    braceless-append name (b'=' ∷ text) (ground (arith, h, word-plain name)) (ground (arith, h))
printed-braceless (variadic_ name) h =
    braceless-append name (b'*' ∷ []) (ground (arith, word-plain name h)) refl
printed-braceless (flag shortcut name) h =
    shortcut-braceless shortcut name (ground (arith, h)) (ground (arith, h))
printed-braceless (valued shortcut name) h =
    shortcut-braceless shortcut (name ++ b'=' ∷ []) (ground (arith, h))
      (braceless-append name (b'=' ∷ []) (ground (arith, h)) refl)
printed-braceless (multiple shortcut name) h =
    shortcut-braceless shortcut ((name ++ b'=' ∷ []) ++ b'*' ∷ []) (ground (arith, h)) (
      braceless-append (name ++ b'=' ∷ []) (b'*' ∷ [])
        (braceless-append name (b'=' ∷ []) (ground (arith, h)) refl) refl)

word-append-push :
    (name mark : Text) (found : List Text)
    → word name ≡ true
    → push (name ++ mark) found ≡ (name ++ mark) ∷ found
word-append-push [] mark found h = cc
word-append-push (c ∷ s) mark found h = refl

push-printed :
    (f : Form) (found : List Text) → good f ≡ true → push (printed f) found ≡ printed f ∷ found
push-printed (required []) found h = cc
push-printed (required (c ∷ s)) found h = refl
push-printed (optional_ name) found h = word-append-push name (b'?' ∷ []) found h
push-printed (defaulted name text) found h =
    word-append-push name (b'=' ∷ text) found (ground (arith, h))
push-printed (variadic_ name) found h = word-append-push name (b'*' ∷ []) found h
push-printed (flag shortcut name) found h = refl
push-printed (valued shortcut name) found h = refl
push-printed (multiple shortcut name) found h = refl

-- each form in braces, with a blank before it
abbrev pub in_braces : List Form → Text
in_braces [] = []
in_braces (f ∷ fs) = b' ' ∷ b'{' ∷ (printed f ++ b'}' ∷ in_braces fs)

abbrev pub all_good : List Form → Bool
all_good [] = true
all_good (f ∷ fs) = good f && all_good fs

tokens_lem :
    (fs : List Form)
    → all_good fs ≡ true
    → map parse_token (find_from none (in_braces fs)) ≡ map meant fs
unfolding find_from brace_of
tokens_lem [] h = refl
tokens_lem (f ∷ fs) h =
    let fine : good f ≡ true = ground (arith, h) in
    ap (λ (found : List Text). map parse_token found)
      (find_from_read [] (printed f) (in_braces fs) (printed-braceless f fine)
        ∙ push-printed f (find_from none (in_braces fs)) fine)
    ∙ ap (λ (t : SignatureArg). t ∷ map parse_token (find_from none (in_braces fs)))
        (parse_token-printed f fine)
    ∙ ap (λ (ts : List SignatureArg). meant f ∷ ts) (tokens_lem fs (ground (arith, h)))

-- A signature that is written from a command and from forms of the grammar, each in braces, is read as
-- those forms, in their order: where the command has no braces, the names and shortcuts have none of the marks
-- of the grammar, the name of an argument is not empty and begins with no dash, and a default has no braces.
pub parse_signature_lem :
    (command : Text) (fs : List Form)
    → braceless command ≡ true
    → all_good fs ≡ true
    → parse_signature (command ++ in_braces fs) ≡ map meant fs
unfolding parse_signature
parse_signature_lem command fs h k =
    ap (λ (found : List Text). map parse_token found) (find_from_outside command (in_braces fs) h)
    ∙ tokens_lem fs k
