-- ===== src/Events/Gathering.antt =====
-- src/arvel/events/dispatcher.py: which listeners an event has after registering and forgetting.
use arvel.Common.{
  String, ◌≡◌, refl, sym, ap, ◌∙◌, Bool, true, false, none, List, [], ◌∷◌, ◌++◌, Bool-cases, inl,
  inr, arith, if◌then◌else◌, eq_iff, str_eq,
}
use mathlib.Core.List.{append_assoc}
use arvel.Common.Text.{codes}
use arvel.Common.Assoc.{Dict, lookup, insert, lookup-insert, erase_fresh, erase-insert}
use arvel.Events.{
  Listener, Key, text_key, class_key, object_key, at, put, drop, appended, Dispatcher,
}
use arvel.Events.Glob.{fnmatch}
use arvel.Events.Registry.{
  has_star, listen_directly, listen, forget_wildcards, forget, name_of, or_empty, marked,
  gather_wildcards, gather,
}

-- nobody listens under this key
abbrev pub Unheard : Key → Dispatcher → Type 0
Unheard (text_key s) d = (lookup s d.listeners.texts ≡ none) × (lookup s d.wildcards ≡ none)
Unheard (class_key c) d = lookup c.ident d.listeners.classes ≡ none
Unheard (object_key o) d = lookup o d.listeners.objects ≡ none

-- Listening to a channel or a pattern that nobody listens to, and forgetting it, leaves the dispatcher as
-- it was.
pub forget-listen :
    (k : Key) (l : Listener) (d : Dispatcher) → Unheard k d → forget k (listen k l d) ≡ d
unfolding forget listen listen_directly drop put at forget_wildcards appended
forget-listen (text_key s) l d (h, h') = elim (Bool-cases (has_star s)) [
  | inl e ↦ rw (e) (
      rw
        (
          erase_fresh s d.listeners.texts h,
          erase-insert s (appended (lookup s d.wildcards) l) d.wildcards h',
        )
        refl)
  | inr e ↦ rw (e) (
      rw
        (
          erase_fresh s d.wildcards h',
          erase-insert s (appended (lookup s d.listeners.texts) l) d.listeners.texts h,
        )
        refl)
]
forget-listen (class_key c) l d h =
    rw
      (erase-insert c.ident (appended (lookup c.ident d.listeners.classes) l) d.listeners.classes h)
      refl
forget-listen (object_key o) l d h =
    rw (erase-insert o (appended (lookup o d.listeners.objects) l) d.listeners.objects h) refl

abbrev pub same_text : String → Key → Bool
same_text s (text_key t) = str_eq s t
same_text s (class_key c) = false
same_text s (object_key o) = false

abbrev pub new_wildcard : String → String → Listener → List (Listener × Bool)
new_wildcard name s l = if fnmatch (codes name) (codes s) then (l, true) ∷ [] else []

-- what a listener to a text adds to what is gathered for a key
abbrev pub heard_by :
    Bool → String → Listener → Key → List (Listener × Bool) → List (Listener × Bool)
heard_by true s l j heard = heard ++ new_wildcard (name_of j) s l
heard_by false s l j heard = if same_text s j then (l, false) ∷ heard else heard

gather_wildcards-insert :
    (name s : String) (l : Listener) (w : Dict (List Listener))
    → lookup s w ≡ none
    → gather_wildcards name (insert s (l ∷ []) w) ≡ gather_wildcards name w ++ new_wildcard name s l
unfolding gather_wildcards insert lookup
gather_wildcards-insert name s l [] h = elim (Bool-cases (fnmatch (codes name) (codes s))) [
  | inl e ↦ rw (e) refl
  | inr e ↦ rw (e) refl
]
gather_wildcards-insert name s l ((t, ls) ∷ w) h = elim (Bool-cases (str_eq t s)) [
  | inl e ↦ ground (arith, e, h)
  | inr e ↦
      let ih = gather_wildcards-insert name s l w (ground (arith, e, h)) in
      rw (e) (elim (Bool-cases (fnmatch (codes name) (codes t))) [
        | inl f ↦ rw (f) (
            ap (λ r. marked true ls ++ r) ih
            ∙ sym (append_assoc (marked true ls) (gather_wildcards name w) (new_wildcard name s l)))
        | inr f ↦ rw (f) ih
      ])
]

direct_lem :
    (s : String) (l : Listener) (d : Dispatcher) (j : Key)
    → lookup s d.listeners.texts ≡ none
    → (rest : List (Listener × Bool))
    → let texts = insert s (l ∷ []) d.listeners.texts in
      let direct = marked false (or_empty (at j d.listeners)) ++ rest in
      marked false (or_empty (at j (record d.listeners { texts = texts }))) ++ rest
      ≡ (if same_text s j then (l, false) ∷ direct else direct)
unfolding at or_empty
direct_lem s l d (text_key t) h rest = elim (Bool-cases (str_eq s t)) [
  | inl e ↦ rw (lookup-insert s t (l ∷ []) d.listeners.texts, e, sym ((eq_iff s t).0 e), h) refl
  | inr e ↦ rw (lookup-insert s t (l ∷ []) d.listeners.texts, e) refl
]
direct_lem s l d (class_key c) h rest = refl
direct_lem s l d (object_key o) h rest = refl

-- A new listener to a text is gathered before everything else where the key is that text, and for no
-- other key; one to a new pattern, whose text has a star, is gathered after everything else, for the
-- keys whose name it matches.
pub gather-listen :
    (s : String) (l : Listener) (d : Dispatcher) (j : Key)
    → Unheard (text_key s) d
    → gather j (listen (text_key s) l d) ≡ heard_by (has_star s) s l j (gather j d)
unfolding gather listen listen_directly put at appended or_empty
gather-listen s l d j (h, h') = elim (Bool-cases (has_star s)) [
  | inl e ↦
      rw (e, h')
        (ap (λ r. marked false (or_empty (at j d.listeners)) ++ r)
            (gather_wildcards-insert (name_of j) s l d.wildcards h')
          ∙ sym (
              append_assoc (marked false (or_empty (at j d.listeners)))
                (gather_wildcards (name_of j) d.wildcards) (new_wildcard (name_of j) s l)))
  | inr e ↦ rw (e, h) (direct_lem s l d j h (gather_wildcards (name_of j) d.wildcards))
]
