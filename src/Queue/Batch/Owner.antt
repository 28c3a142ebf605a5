-- ===== src/Queue/Batch/Owner.antt =====
-- src/arvel/queue/batch.py: which process has won the guarded UPDATE of `finished_at`, what it has
-- left to do, and what one step does to that.
use mathlib.Core.List.{append-nil}
use arvel.Common.{
  String, ◌≡◌, ◌⊎◌, inl, inr, ap, ◌∙◌, Bool, true, false, none, some, List, [], ◌++◌, is_some,
}
use arvel.Queue.Batch.{
  Options, World, Pc, settle, count, reread, cancelling, catching, closing, checking, closing_empty,
  finding, thenning, finallying, returned, raised,
}

-- What the other processes can see of the row.
abbrev pub is_present : World → Bool
is_present w = is_some w.row

abbrev pub is_finished : World → Bool
is_finished w = elim w.row [ none ↦ false | some b ↦ is_some b.finished_at ]

abbrev pub is_cancelled : World → Bool
is_cancelled w = elim w.row [ none ↦ false | some b ↦ is_some b.cancelled_at ]

-- The process has won the finish and has not ended.
abbrev pub owns : Pc → Bool
owns checking = true
owns finding = true
owns (thenning _) = true
owns (finallying _) = true
owns _ = false

-- `xs` is the beginning of `ys`.
abbrev pub Begins {ℓ} : {A : Type ℓ} → List A → List A → Type ℓ
Begins {A} xs ys = (rest : List A) × (xs ++ rest ≡ ys)

-- The `then` callbacks have all run, or none has and the batch is cancelled.
abbrev pub ThenSettled : Options → World → Type 0
ThenSettled o w = (w.thened ≡ o.then_refs) ⊎ ((w.thened ≡ []) × (is_cancelled w ≡ true))

-- What the winner has run, by where it stands.
abbrev pub Held : Options → World → Pc → Type 0
Held o w checking = (w.thened ≡ []) × (w.finalled ≡ [])
Held o w finding = (w.thened ≡ []) × (w.finalled ≡ [])
Held o w (thenning rs) = (w.thened ++ rs ≡ o.then_refs) × (w.finalled ≡ [])
Held o w (finallying rs) = (w.finalled ++ rs ≡ o.finally_refs) × ThenSettled o w
Held o w returned = (w.finalled ≡ o.finally_refs) × ThenSettled o w
Held o w raised =
    Begins w.thened o.then_refs
    × Begins w.finalled o.finally_refs
    × ((w.finalled ≡ []) ⊎ ThenSettled o w)
Held o w _ = ⊥

Begins-of_eq : (xs ys : List String) → xs ≡ ys → Begins xs ys
Begins-of_eq xs ys e = ([], append-nil xs ∙ e)

pub Begins-of_nil : (xs ys : List String) → xs ≡ [] → Begins xs ys
Begins-of_nil xs ys e = (ys, ap (λ (l : List String). l ++ ys) e)

pub ThenSettled-Begins : (o : Options) (w : World) → ThenSettled o w → Begins w.thened o.then_refs
ThenSettled-Begins o w (inl e) = Begins-of_eq w.thened o.then_refs e
ThenSettled-Begins o w (inr (e, _)) = Begins-of_nil w.thened o.then_refs e

-- Whatever the winner has run is a beginning of what is due, and no `finally` callback runs before
-- the `then` callbacks are settled.
abbrev pub InOrder : Options → World → Type 0
InOrder o w =
    Begins w.thened o.then_refs
    × Begins w.finalled o.finally_refs
    × ((w.finalled ≡ []) ⊎ ThenSettled o w)

pub Held-InOrder : (o : Options) (w : World) (pc : Pc) → Held o w pc → InOrder o w
Held-InOrder o w checking (t, f) =
    (Begins-of_nil w.thened o.then_refs t, Begins-of_nil w.finalled o.finally_refs f, inl f)
Held-InOrder o w finding (t, f) =
    (Begins-of_nil w.thened o.then_refs t, Begins-of_nil w.finalled o.finally_refs f, inl f)
Held-InOrder o w (thenning rs) (t, f) = ((rs, t), Begins-of_nil w.finalled o.finally_refs f, inl f)
Held-InOrder o w (finallying rs) (f, t) = (ThenSettled-Begins o w t, (rs, f), inr t)
Held-InOrder o w returned (f, t) =
    (ThenSettled-Begins o w t, Begins-of_eq w.finalled o.finally_refs f, inr t)
Held-InOrder o w raised h = h
Held-InOrder o w (settle _) h = absurd h
Held-InOrder o w (count _) h = absurd h
Held-InOrder o w (reread _) h = absurd h
Held-InOrder o w (cancelling _) h = absurd h
Held-InOrder o w (catching _ _) h = absurd h
Held-InOrder o w (closing _) h = absurd h
Held-InOrder o w closing_empty h = absurd h
