-- ===== src/Pagination/Cursor.antt =====
-- src/arvel/pagination/__init__.py: `CursorPaginator`, over cursors that are texts.
use arvel.Common.{ℕ, String, Bool, not, Option, none, some, List, ◌∷◌, ◌++◌, is_some, map}
use arvel.Common.Int.{ℤ}
use arvel.Common.Lists.{length}
use arvel.Common.Assoc.{Dict, insert}
use arvel.Common.Text.{codes}
use arvel.Pagination.Base.{
  Param, text, Request, resolve_current_path, without_slashes, given_or, or_default, positive_size,
  nothing_in,
}

pub record CursorPaginator (A : Type 0) : Type 0 where
  pub rows : List A
  pub size : ℕ
  pub next_cursor : Option (List ℕ)
  pub prev_cursor : Option (List ℕ)
  pub base_path : List ℕ
  pub query : Dict Param
  pub cursor_name : String

-- `CursorPaginator.__init__`
unfoldable pub cursor_paginator :
    {A : Type 0}
    → Option Request
    → List A
    → ℤ
    → Option (List ℕ)
    → Option (List ℕ)
    → Option (List ℕ)
    → Dict Param
    → String
    → CursorPaginator A
unfolding resolve_current_path
cursor_paginator request items per_page next prev path query cursor_name = record {
  rows = items;
  size = positive_size per_page;
  next_cursor = next;
  prev_cursor = prev;
  base_path =
      or_default (without_slashes (given_or path (resolve_current_path request (codes "/"))))
        (codes "/");
  query = query;
  cursor_name = cursor_name;
}

module _ {A : Type 0} where
  unfoldable pub count : CursorPaginator A → ℕ
  count c = length c.rows

  unfoldable pub is_empty : CursorPaginator A → Bool
  is_empty c = nothing_in c.rows

  unfoldable pub is_not_empty : CursorPaginator A → Bool
  unfolding is_empty
  is_not_empty c = not (is_empty c)

  unfoldable pub on_first_page : CursorPaginator A → Bool
  on_first_page c = not (is_some c.prev_cursor)

  unfoldable pub has_more_pages : CursorPaginator A → Bool
  has_more_pages c = is_some c.next_cursor

  -- `_url_for`
  unfoldable pub url_for :
      (Dict Param → List ℕ) → CursorPaginator A → Option (List ℕ) → Option (List ℕ)
  url_for urlencode c none = none
  url_for urlencode c (some cursor) =
      some (c.base_path ++ b'?' ∷ urlencode (insert c.cursor_name (text cursor) c.query))

  unfoldable pub next_page_url : (Dict Param → List ℕ) → CursorPaginator A → Option (List ℕ)
  unfolding url_for
  next_page_url urlencode c = url_for urlencode c c.next_cursor

  unfoldable pub previous_page_url : (Dict Param → List ℕ) → CursorPaginator A → Option (List ℕ)
  unfolding url_for
  previous_page_url urlencode c = url_for urlencode c c.prev_cursor

-- the JSON shape of `to_dict`
pub record Shape (B : Type 0) : Type 0 where
  pub data_ : List B
  pub path : List ℕ
  pub per_page : ℕ
  pub next : Option (List ℕ)
  pub next_url : Option (List ℕ)
  pub prev : Option (List ℕ)
  pub prev_url : Option (List ℕ)

unfoldable pub to_dict :
    {A B : Type 0} → (A → B) → (Dict Param → List ℕ) → CursorPaginator A → Shape B
unfolding next_page_url previous_page_url
to_dict serialize urlencode c = record {
  data_ = map serialize c.rows;
  path = c.base_path;
  per_page = c.size;
  next = c.next_cursor;
  next_url = next_page_url urlencode c;
  prev = c.prev_cursor;
  prev_url = previous_page_url urlencode c;
}
