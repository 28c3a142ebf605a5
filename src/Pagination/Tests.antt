-- ===== src/Pagination/Tests.antt =====
-- Paginators at concrete pages; the encoding of a query is not looked at.
use arvel.Common.{ℕ, ◌≡◌, refl, ◌≤◌, false, none, List, [], ◌∷◌, arith}
use arvel.Common.Int.{pos}
use arvel.Common.Assoc.{Dict}
use arvel.Common.Text.{codes}
use arvel.Pagination.Base.{Param, Given}
use arvel.Pagination.LengthAware.{LengthAwarePaginator, elements, last_page}
use arvel.Pagination.Window.{shows, elements_within, elements_gap}

abbrev encode : Dict Param → List ℕ
encode d = []

-- page `n` of 195 rows in tens, with some pages on each side
abbrev page_at : ℕ → ℕ → LengthAwarePaginator ℕ
page_at n side = record {
  pages = record {
    shown_items = 1 ∷ [];
    size = 10;
    page_name = "page";
    current = pos n;
    base_path = codes "/posts";
    query = [];
    url_fragment = none;
    side = side;
  };
  total = 195;
}

abbrev defaults : Given
defaults = record {
  current_page = none;
  path = none;
  query = [];
  fragment = none;
  page_name = "page";
}

elements_within_example : (1 ≤ 8) × (8 ≤ last_page encode (page_at 6 3))
unfolding last_page elements shows
elements_within_example = elements_within encode (page_at 6 3) 6 8 refl (omega arith) refl

elements_gap_example : shows 9 (elements encode (page_at 6 3)) ≡ false
unfolding last_page
elements_gap_example =
    elements_gap encode (page_at 6 3) (omega arith) refl (omega arith) (omega arith)
