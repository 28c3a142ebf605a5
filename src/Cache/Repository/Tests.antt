-- ===== src/Cache/Repository/Tests.antt =====
-- The repository over the dictionary client.
use arvel.Common.{◌≡◌, refl, false, none, some, [], ◌∷◌}
use arvel.Common.Int.{pos}
use arvel.Cache.Value.{int, none_}
use arvel.Cache.Client.Memory.{memory, blank}
use arvel.Cache.Repository.{Repo, Callback, put, remember, many, put_many}
use arvel.Cache.Repository.Reads.{shown, elapse}
use arvel.Cache.Repository.Remember.{Served, remember_lem, remember_past_stays}

abbrev fresh : Repo memory
fresh = record { store = blank; events = []; tasks = [] }

abbrev four : Callback memory
four r = (some (int (pos 4)), r)

abbrev holding : Repo memory
holding = (put memory "a" none_ none fresh).1

remember_lem_example :
    Served memory
      (shown memory fresh "a")
      "a"
      false
      four
      fresh
      (remember memory "a" (some (pos 5)) four fresh)
remember_lem_example = remember_lem memory "a" (some (pos 5)) four fresh

remember_past_stays_example :
    shown memory (elapse memory 1000 (remember memory "a" (some (pos 0)) four fresh).1) "a"
    ≡ some (int (pos 4))
unfolding shown
remember_past_stays_example =
    remember_past_stays memory "a" (some (pos 0)) four (int (pos 4)) 1000 fresh refl refl refl

batch_reads :
    (many memory ("a" ∷ "b" ∷ []) none_ (put_many memory (("a", int (pos 1)) ∷ []) none fresh).1).0
    ≡ ("a", int (pos 1)) ∷ ("b", none_) ∷ []
unfolding many put_many
batch_reads = refl
