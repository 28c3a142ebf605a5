-- ===== src/Pagination/Simple.antt =====
-- src/arvel/pagination/__init__.py: `Paginator`, which knows of the next page by one extra row.
use arvel.Common.{ℕ, suc, ◌-◌, Bool, not, ◌||◌, Option, none, some, List, if◌then◌else◌, map}
use arvel.Common.Int.{ℤ, pos, negsuc, ◌+ℤ◌, ltb_ℤ}
use arvel.Common.Lists.{length, take}
use arvel.Common.Assoc.{Dict}
use arvel.Pagination.Base.{
  Pages, Param, Request, Given, pages, url, previous_page_url, first_item, last_item, on_first_page,
}

pub record Paginator (A : Type 0) : Type 0 where
  pub pages_of : Pages A
  pub has_more : Bool

-- `items[:n]`: a negative bound counts from the end
abbrev pub slice_to {ℓ} : {A : Type ℓ} → ℤ → List A → List A
slice_to (pos n) items = take n items
slice_to (negsuc n) items = take (length items - suc n) items

-- `Paginator.__init__`: where `has_more` is not given, the rows beyond the page tell
unfoldable pub paginator :
    {A : Type 0} → Option Request → List A → ℤ → Option Bool → Given → Paginator A
unfolding pages
paginator request items per_page (some has_more) g = record {
  pages_of = pages request items per_page g;
  has_more = has_more;
}
paginator request items per_page none g = record {
  pages_of = pages request (slice_to per_page items) per_page g;
  has_more = ltb_ℤ per_page (pos (length items));
}

module _ {A : Type 0} where
  unfoldable pub has_pages : Paginator A → Bool
  unfolding on_first_page
  has_pages p = not (on_first_page p.pages_of) || p.has_more

  unfoldable pub next_page_url : (Dict Param → List ℕ) → Paginator A → Option (List ℕ)
  unfolding url
  next_page_url urlencode p =
      if p.has_more then some (url urlencode p.pages_of (p.pages_of.current +ℤ pos 1)) else none

-- the JSON shape of `to_dict`
pub record Shape (B : Type 0) : Type 0 where
  pub current_page : ℤ
  pub data_ : List B
  pub first_page_url : List ℕ
  pub from_item : Option ℤ
  pub next_url : Option (List ℕ)
  pub path : List ℕ
  pub per_page : ℕ
  pub prev_page_url : Option (List ℕ)
  pub to_item : Option ℤ

unfoldable pub to_dict : {A B : Type 0} → (A → B) → (Dict Param → List ℕ) → Paginator A → Shape B
unfolding next_page_url url previous_page_url first_item last_item
to_dict serialize urlencode p = record {
  current_page = p.pages_of.current;
  data_ = map serialize p.pages_of.shown_items;
  first_page_url = url urlencode p.pages_of (pos 1);
  from_item = first_item p.pages_of;
  next_url = next_page_url urlencode p;
  path = p.pages_of.base_path;
  per_page = p.pages_of.size;
  prev_page_url = previous_page_url urlencode p.pages_of;
  to_item = last_item p.pages_of;
}
