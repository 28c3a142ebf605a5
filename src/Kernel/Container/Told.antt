-- ===== src/Kernel/Container/Told.antt =====
-- src/arvel/kernel/container.py: that a class was built with an object, in the log of a resolution.
use mathlib.Core.List.{Memᴰ}
use mathlib.Core.List.Memᴰ.{append_left, append_right}
use arvel.Common.{
  ℕ, String, ◌≡◌, refl, sym, ap, ◌∙◌, Bool, true, false, Option, none, some, List, [], ◌∷◌, ◌++◌,
  if◌then◌else◌, ◌||◌, Bool-cases, inl, inr,
}
use mathlib.Core.Path.{subst}
use arvel.Common.Assoc.{Dict, lookup}
use arvel.Common.Keyed.{find, store}
use arvel.Common.Unseen.{seen_in}
use arvel.Kernel.Container.{Key, of_class, same, Object, key, Happening, built, Registry, Pool}
use arvel.Kernel.Container.Resolve.{
  Param, ClassInfo, Result, made, failed, out_of_fuel, unresolvable, circular, raised, and_then,
  Valued, value, ends, Gathered, args, gave_up, fallback, valued, Again, store_scope, new_object,
  is_scoped, value_of, value_made, value_given, with_rest, with_value, resolve_dependencies,
  construct, autowire, build_class, build, finish, build_finished,
}
use arvel.Kernel.Container.Keeps.{extended_by-keeps}

module _ (r : Registry) (classes : String → ClassInfo) (d name : String) (o : Object) where
  -- the class was built with this object under this name
  abbrev pub BuiltWith : List Happening → Type 0
  BuiltWith log =
      (vs : List (String × Option Object)) × (n : Object) × Memᴰ (built d vs n) log
      × Memᴰ (name, some o) vs

  abbrev pub Told : Pool → Type 0
  Told pool = BuiltWith pool.log

  -- and so where anything is made
  abbrev pub ToldIfMade : Result × Pool → Type 0
  ToldIfMade (made o', pool) = Told pool
  ToldIfMade (failed e, pool) = Unit
  ToldIfMade (out_of_fuel, pool) = Unit

  pub anyway-ToldIfMade : (result : Result) (pool : Pool) → Told pool → ToldIfMade (result, pool)
  anyway-ToldIfMade (made o') pool h = h
  anyway-ToldIfMade (failed e) pool h = tt
  anyway-ToldIfMade out_of_fuel pool h = tt

  pub after_making :
      (pool : Pool) (n : ℕ) (h : Happening)
      → Told pool
      → Told (record pool { next = n; log = pool.log ++ h ∷ [] })
  after_making pool n h (vs, m, told, given) = (vs, m, append_left (h ∷ []) told, given)

  pub in_the_scope :
      (k : Key) (o' : Object) (pool : Pool)
      → Told pool
      → Told (record pool { scope = store_scope k o' pool.scope })
  in_the_scope k o' pool h = h

  pub in_instances :
      (k : Key) (o' : Object) (pool : Pool)
      → is_scoped (find same k r.bindings) ≡ false
      → Told pool
      → Told (record pool { instances = store same k o' pool.instances })
  in_instances k o' pool u h = h

  pub finish-ToldIfMade :
      (k : Key) (x : Result × Pool) (again : Again r classes)
      → ToldIfMade x
      → ToldIfMade (and_then x (finish r classes again k))
  unfolding finish
  finish-ToldIfMade k (made o', pool) again h =
      extended_by-keeps r classes Told after_making in_the_scope in_instances
        (elim (find same k r.extenders) [ none ↦ [] | some es ↦ es ]) o' pool h
  finish-ToldIfMade k (failed e, pool) again h = tt
  finish-ToldIfMade k (out_of_fuel, pool) again h = tt

  abbrev pub NoObject : Result → Type 0
  NoObject (made o') = true ≡ false
  NoObject (failed e) = Unit
  NoObject out_of_fuel = Unit

  pub no_object : (result : Result) (pool : Pool) → NoObject result → ToldIfMade (result, pool)
  no_object (made o') pool h = cc
  no_object (failed e) pool h = tt
  no_object out_of_fuel pool h = tt

  -- a value, or an end without an object
  abbrev pub Decent : Valued → Type 0
  Decent (value v) = Unit
  Decent (ends result) = NoObject result

  fallback-Decent : (q : Param) → Decent (fallback q)
  unfolding fallback
  fallback-Decent q = elim (Bool-cases (q.has_default || q.nullable)) [
    | inl e ↦ rw (e) tt
    | inr e ↦ rw (e) tt
  ]

  valued-Decent : (q : Param) (result : Result) → Decent (valued q result)
  unfolding valued
  valued-Decent q (made o') = tt
  valued-Decent q (failed unresolvable) = fallback-Decent q
  valued-Decent q (failed circular) = tt
  valued-Decent q (failed (raised e)) = tt
  valued-Decent q out_of_fuel = tt

  -- the arguments have the object, where there are arguments
  abbrev pub Given : Gathered × Pool → Type 0
  Given (args vs, pool) = Memᴰ (name, some o) vs
  Given (gave_up result, pool) = NoObject result

  pub if-ToldIfMade :
      (b : Bool) (x y : Result × Pool)
      → ToldIfMade x
      → ToldIfMade y
      → ToldIfMade (if b then x else y)
  if-ToldIfMade true x y h k = h
  if-ToldIfMade false x y h k = k

  module _ (again : Again r classes) where
    value_made-Decent :
        (stack : List String) (top : Dict Object) (q : Param) (i : Option String) (pool : Pool)
        → Decent (value_made r classes again stack top q i pool).0
    value_made-Decent stack top q none pool = fallback-Decent q
    value_made-Decent stack top q (some c) pool =
        valued-Decent q (again stack top (of_class c) pool).0

    value_given-Decent :
        (stack : List String) (top : Dict Object) (q : Param) (v : Option Object) (pool : Pool)
        → Decent (value_given r classes again stack top q v pool).0
    value_given-Decent stack top q (some v) pool = tt
    value_given-Decent stack top q none pool = value_made-Decent stack top q q.injectable pool

    -- an end of the others is one without an object
    abbrev pub Whole : Gathered × Pool → Type 0
    Whole (args vs, pool) = Unit
    Whole (gave_up result, pool) = NoObject result

    rest-Whole :
        (n : String) (v : Option Object) (x : Gathered × Pool)
        → Whole x
        → Whole (with_rest r classes again n v x)
    rest-Whole n v (args vs, pool) h = tt
    rest-Whole n v (gave_up result, pool) h = h

    value-Whole :
        (n : String) (x : Valued × Pool) (rest : Pool → Gathered × Pool)
        → Decent x.0
        → ((pool : Pool) → Whole (rest pool))
        → Whole (with_value r classes again n x rest)
    value-Whole n (ends result, pool) rest h k = h
    value-Whole n (value v, pool) rest h k = rest-Whole n v (rest pool) (k pool)

    pub dependencies-Whole :
        (stack : List String) (top : Dict Object) (ps : List Param) (pool : Pool)
        → Whole (resolve_dependencies r classes again stack top ps pool)
    unfolding resolve_dependencies value_of
    dependencies-Whole stack top [] pool = tt
    dependencies-Whole stack top (q ∷ ps) pool =
        value-Whole q.name (value_given r classes again stack top q (lookup q.name top) pool)
          (resolve_dependencies r classes again stack top ps)
          (value_given-Decent stack top q (lookup q.name top) pool)
          (λ pool'. dependencies-Whole stack top ps pool')

    later-rest :
        (n : String) (v : Option Object) (x : Gathered × Pool)
        → Given x
        → Given (with_rest r classes again n v x)
    later-rest n v (args vs, pool) h = Memᴰ.tail h
    later-rest n v (gave_up result, pool) h = h

    here-Given : (x : Gathered × Pool) → Whole x → Given (with_rest r classes again name (some o) x)
    here-Given (args vs, pool) h = Memᴰ.head refl
    here-Given (gave_up result, pool) h = h

    later-Given :
        (n : String) (x : Valued × Pool) (rest : Pool → Gathered × Pool)
        → Decent x.0
        → ((pool : Pool) → Given (rest pool))
        → Given (with_value r classes again n x rest)
    later-Given n (ends result, pool) rest h k = h
    later-Given n (value v, pool) rest h k = later-rest n v (rest pool) (k pool)

    dependencies-Given :
        (stack : List String) (top : Dict Object) (p : Param) (ps : List Param) (pool : Pool)
        → Memᴰ p ps
        → p.name ≡ name
        → lookup name top ≡ some o
        → Given (resolve_dependencies r classes again stack top ps pool)
    unfolding resolve_dependencies value_of
    dependencies-Given stack top p [] pool m same_name e = elim m [ ]
    dependencies-Given stack top p (q ∷ ps) pool (Memᴰ.head is_q) same_name e =
        let named : q.name ≡ name = ap (λ (x : Param). x.name) (sym is_q) ∙ same_name in
        rw (named, e)
          (here-Given (resolve_dependencies r classes again stack top ps pool)
            (dependencies-Whole stack top ps pool))
    dependencies-Given stack top p (q ∷ ps) pool (Memᴰ.tail m) same_name e =
        later-Given q.name (value_given r classes again stack top q (lookup q.name top) pool)
          (resolve_dependencies r classes again stack top ps)
          (value_given-Decent stack top q (lookup q.name top) pool)
          (λ pool'. dependencies-Given stack top p ps pool' m same_name e)

    construct-ToldIfMade :
        (e : Option String) (x : Gathered × Pool)
        → Given x
        → ToldIfMade (construct r classes again d e x)
    unfolding new_object
    construct-ToldIfMade e (gave_up result, pool) h = no_object result pool h
    construct-ToldIfMade none (args vs, pool) h =
        (vs, pool.next, append_right pool.log (Memᴰ.head refl), h)
    construct-ToldIfMade (some e) (args vs, pool) h = tt

    module _ (p : Param) (ps : List Param) (top : Dict Object)
        (has : (classes d).parameters ≡ some ps) (m : Memᴰ p ps) (same_name : p.name ≡ name)
        (given : lookup name top ≡ some o) where
      build_class-ToldIfMade :
          (stack : List String) (pool : Pool)
          → ToldIfMade (build_class r classes again stack top d pool)
      unfolding build_class
      build_class-ToldIfMade stack pool = if-ToldIfMade (classes d).builtin _ _ tt (
          if-ToldIfMade (seen_in stack d) _ _ tt (
            if-ToldIfMade ((classes d).abstract_ || (classes d).protocol) _ _ tt (
              subst
                (λ (x : Option (List Param)).
                  ToldIfMade (autowire r classes again stack top d x pool))
                (sym has)
                (construct-ToldIfMade (classes d).raises
                  (resolve_dependencies r classes again (d ∷ stack) top ps pool)
                  (dependencies-Given (d ∷ stack) top p ps pool m same_name given)))))

      pub build_finished-ToldIfMade :
          (stack : List String) (k : Key) (pool : Pool)
          → ToldIfMade (build_finished r classes again stack top k (key (of_class d)) pool)
      unfolding build_finished build
      build_finished-ToldIfMade stack k pool =
          finish-ToldIfMade k (build_class r classes again stack top d pool) again
            (build_class-ToldIfMade stack pool)

  pub scope-ToldIfMade :
      (k : Key) (x : Result × Pool)
      → ToldIfMade x
      → ToldIfMade (and_then x (λ o' p. (made o', record p { scope = store_scope k o' p.scope })))
  scope-ToldIfMade k (made o', pool) h = h
  scope-ToldIfMade k (failed e, pool) h = tt
  scope-ToldIfMade k (out_of_fuel, pool) h = tt

  -- a value, told of; or an end without an object
  abbrev pub IsToldValue : Valued × Pool → Type 0
  IsToldValue (value v, pool) = Told pool
  IsToldValue (ends result, pool) = NoObject result

  abbrev pub AreToldArgs : Gathered × Pool → Type 0
  AreToldArgs (args vs, pool) = Told pool
  AreToldArgs (gave_up result, pool) = NoObject result

  pub valued-IsToldValue :
      (q : Param) (x : Result × Pool)
      → q.has_default ≡ false
      → q.nullable ≡ false
      → ToldIfMade x
      → IsToldValue (valued q x.0, x.1)
  unfolding valued fallback
  valued-IsToldValue q (made o', pool) h n t = t
  valued-IsToldValue q (failed unresolvable, pool) h n t = rw (h, n) tt
  valued-IsToldValue q (failed circular, pool) h n t = tt
  valued-IsToldValue q (failed (raised e), pool) h n t = tt
  valued-IsToldValue q (out_of_fuel, pool) h n t = tt
