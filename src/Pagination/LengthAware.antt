-- ===== src/Pagination/LengthAware.antt =====
-- src/arvel/pagination/__init__.py: `LengthAwarePaginator`. The pages of a band are natural
-- numbers: where `elements` takes the page `side` below the current one, that page is beyond the window.
use arvel.Common.{
  ℕ, zero, suc, Bool, false, not, ◌||◌, Option, none, some, List, [], ◌∷◌, ◌++◌, ◌+◌, ◌-◌, ◌*◌, ◌/◌,
  if◌then◌else◌, map, ltb,
}
use arvel.Common.Int.{ℤ, pos, ◌+ℤ◌, leb_ℤ, ltb_ℤ, int_eq, pos_part}
use arvel.Common.Assoc.{Dict}
use arvel.Common.Text.{codes}
use arvel.Pagination.Base.{Pages, Param, url, previous_page_url, first_item, last_item}
use arvel.Queue.Schedule.Event.{show_int}

pub record LengthAwarePaginator (A : Type 0) : Type 0 where
  pub pages : Pages A
  pub total : ℕ

-- an element of the page bar: a band of pages with their urls, or the dots between two
pub data Element : Type 0 where
  band : List (ℕ × List ℕ) → Element
  dots : Element

-- `max(1, n)`
abbrev pub at_least_1 : ℕ → ℕ
at_least_1 zero = 1
at_least_1 (suc n) = suc n

-- the numbers from `start`, so many
abbrev pub range : ℕ → ℕ → List ℕ
range start zero = []
range start (suc n) = start ∷ range (suc start) n

pub record Link : Type 0 where
  pub target : Option (List ℕ)
  pub label : List ℕ
  pub active : Bool

module _ {A : Type 0} (urlencode : Dict Param → List ℕ) where
  -- the ceiling of `total / size`, where `size` is positive
  unfoldable pub last_page : LengthAwarePaginator A → ℕ
  last_page l = at_least_1 ((l.total + (l.pages.size - 1)) / l.pages.size)

  unfoldable pub has_more_pages : LengthAwarePaginator A → Bool
  unfolding last_page
  has_more_pages l = ltb_ℤ l.pages.current (pos (last_page l))

  unfoldable pub has_pages : LengthAwarePaginator A → Bool
  unfolding has_more_pages
  has_pages l = not (int_eq l.pages.current (pos 1)) || has_more_pages l

  unfoldable pub next_page_url : LengthAwarePaginator A → Option (List ℕ)
  unfolding has_more_pages
  next_page_url l =
      if has_more_pages l then some (url urlencode l.pages (l.pages.current +ℤ pos 1)) else none

  abbrev pub with_url : LengthAwarePaginator A → ℕ → ℕ × List ℕ
  with_url l page = (page, url urlencode l.pages (pos page))

  -- `_url_range(start, end)`
  unfoldable pub url_range : LengthAwarePaginator A → ℕ → ℕ → Element
  url_range l start end = band (map (with_url l) (range start (end + 1 - start)))

  -- `elements`
  unfoldable pub elements : LengthAwarePaginator A → List Element
  unfolding last_page url_range
  elements l =
      let last = last_page l in
      let side = l.pages.side in
      let window = side * 2 in
      let current = pos_part l.pages.current in
      if ltb last (window + 8)
      then url_range l 1 last ∷ []
      else (if leb_ℤ l.pages.current (pos window)
          then url_range l 1 (window + 2) ∷ dots ∷ url_range l (last - 1) last ∷ []
          else (if ltb_ℤ (pos (last - window)) l.pages.current
              then url_range l 1 2 ∷ dots ∷ url_range l (last - (window + 2)) last ∷ []
              else url_range l 1 2
                ∷ dots
                ∷ url_range l (current - side) (current + side)
                ∷ dots
                ∷ url_range l (last - 1) last
                ∷ []))

  abbrev pub page_link : LengthAwarePaginator A → ℕ × List ℕ → Link
  page_link l (page, target) = record {
    target = some target;
    label = show_int (pos page);
    active = int_eq (pos page) l.pages.current;
  }

  abbrev pub element_links : LengthAwarePaginator A → List Element → List Link
  element_links l [] = []
  element_links l (dots ∷ es) =
      record { target = none; label = codes "..."; active = false } ∷ element_links l es
  element_links l (band ps ∷ es) = map (page_link l) ps ++ element_links l es

  -- `_link_collection`
  unfoldable pub link_collection : LengthAwarePaginator A → List Link
  unfolding elements
  link_collection l =
      record {
        target = previous_page_url urlencode l.pages;
        label = codes "&laquo; Previous";
        active = false;
      }
      ∷ (element_links l (elements l)
          ++ record { target = next_page_url l; label = codes "Next &raquo;"; active = false } ∷ [])

-- the JSON shape of `to_dict`
pub record Shape (B : Type 0) : Type 0 where
  pub current_page : ℤ
  pub data_ : List B
  pub first_page_url : List ℕ
  pub from_item : Option ℤ
  pub last_page_number : ℕ
  pub last_page_url : List ℕ
  pub links : List Link
  pub next_url : Option (List ℕ)
  pub path : List ℕ
  pub per_page : ℕ
  pub prev_page_url : Option (List ℕ)
  pub to_item : Option ℤ
  pub total_items : ℕ

unfoldable pub to_dict :
    {A B : Type 0} → (A → B) → (Dict Param → List ℕ) → LengthAwarePaginator A → Shape B
unfolding last_page link_collection next_page_url url previous_page_url first_item last_item
to_dict serialize urlencode l = record {
  current_page = l.pages.current;
  data_ = map serialize l.pages.shown_items;
  first_page_url = url urlencode l.pages (pos 1);
  from_item = first_item l.pages;
  last_page_number = last_page urlencode l;
  last_page_url = url urlencode l.pages (pos (last_page urlencode l));
  links = link_collection urlencode l;
  next_url = next_page_url urlencode l;
  path = l.pages.base_path;
  per_page = l.pages.size;
  prev_page_url = previous_page_url urlencode l.pages;
  to_item = last_item l.pages;
  total_items = l.total;
}
