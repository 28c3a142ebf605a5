-- ===== src/Pagination/Counting.antt =====
-- src/arvel/pagination/__init__.py: the number of pages, and the page that `Paginator` keeps.
use native.Mathlib.Nat.{div-add-mod, mod-lt}
use arvel.Common.{
  ℕ, zero, suc, ◌≡◌, refl, ◌<◌, ◌≤◌, ◌⊎◌, inl, inr, Option, none, List, ◌+◌, ◌-◌, ◌*◌, ◌/◌, ◌%◌,
  ltb, arith,
}
use arvel.Common.Int.{pos}
use arvel.Common.Lists.{length, take, length-take}
use arvel.Common.Assoc.{Dict}
use arvel.Pagination.Base.{Param, Request, Given, pages, count}
use arvel.Pagination.LengthAware.{LengthAwarePaginator, last_page, at_least_1}
use arvel.Pagination.Simple.{paginator}

ceiling :
    (d s t m : ℕ)
    → s * d + m ≡ t + (s - 1)
    → m < s
    → (t ≤ at_least_1 d * s) × ((at_least_1 d ≡ 1) ⊎ ((at_least_1 d - 1) * s < t))
ceiling zero s t m e l = (grind arith, inl refl)
ceiling (suc k) s t m e l = (grind arith, inr (grind arith))

-- `last_page` is the least number of pages that hold all the items, and at least one.
pub last_page_lem :
    {A : Type 0} (urlencode : Dict Param → List ℕ) (l : LengthAwarePaginator A)
    → 1 ≤ l.pages.size
    → let last = last_page urlencode l in
      (l.total ≤ last * l.pages.size) × ((last ≡ 1) ⊎ ((last - 1) * l.pages.size < l.total))
unfolding last_page
last_page_lem urlencode l s =
    let size = l.pages.size in
    let rows = l.total + (size - 1) in
    ceiling (rows / size) size l.total (rows % size) (div-add-mod rows size) (mod-lt rows s)

-- The page of a query for one row more than `n`: it shows the first `n` rows and no more, and says that
-- there is a next page exactly where there was a row beyond them.
pub paginator_lem :
    {A : Type 0} (request : Option Request) (items : List A) (n : ℕ) (g : Given)
    → let p = paginator request items (pos n) none g in
      (p.pages_of.shown_items ≡ take n items)
      × (count p.pages_of ≤ n)
      × (p.has_more ≡ ltb n (length items))
unfolding paginator count pages
paginator_lem request items n g = (refl, omega (arith, length-take n items), ground arith)
