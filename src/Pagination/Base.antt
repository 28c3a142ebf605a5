-- ===== src/Pagination/Base.antt =====
-- src/arvel/pagination/__init__.py: `AbstractPaginator`, and what it reads of the current request.
use arvel.Common.{
  ℕ, zero, suc, String, Bool, true, false, not, Option, none, some, List, [], ◌∷◌, ◌++◌, ◌==◌,
  if◌then◌else◌,
}
use mathlib.Core.List.{foldl}
use arvel.Common.Int.{ℤ, pos, negsuc, ◌+ℤ◌, ◌-ℤ◌, ◌*ℤ◌, leb_ℤ}
use arvel.Common.Lists.{length}
use arvel.Common.Assoc.{Dict, lookup, insert, erase}
use arvel.Common.Text.{codes}
use arvel.Queue.Schedule.Cron.{int_of}

-- a value of a query parameter
pub data Param : Type 0 where
  text : List ℕ → Param
  page_number : ℤ → Param
  texts : List (List ℕ) → Param

-- the bound request: its path and its query parameters
pub record Request : Type 0 where
  pub path : List ℕ
  pub query_params : Dict (List ℕ)

abbrev pub at_least_one : ℤ → ℤ → ℤ
at_least_one page default = if leb_ℤ (pos 1) page then page else default

abbrev pub page_or : Option ℤ → ℤ → ℤ
page_or none default = default
page_or (some page) default = at_least_one page default

abbrev pub number_or : Option (List ℕ) → ℤ → ℤ
unfolding int_of
number_or none default = default
number_or (some raw) default = page_or (int_of raw) default

-- `resolve_current_page`
unfoldable pub resolve_current_page : Option Request → String → ℤ → ℤ
resolve_current_page none page_name default = default
resolve_current_page (some r) page_name default =
    number_or (lookup page_name r.query_params) default

abbrev pub or_default : List ℕ → List ℕ → List ℕ
or_default [] default = default
or_default (c ∷ s) default = c ∷ s

-- `resolve_current_path`
unfoldable pub resolve_current_path : Option Request → List ℕ → List ℕ
resolve_current_path none default = default
resolve_current_path (some r) default = or_default r.path default

abbrev pub texts_of : Dict (List ℕ) → Dict Param
texts_of [] = []
texts_of ((k, v) ∷ d) = (k, text v) ∷ texts_of d

-- `_request_query_string`
unfoldable pub request_query_string : Option Request → String → Dict Param
request_query_string none exclude = []
request_query_string (some r) exclude = texts_of (erase exclude r.query_params)

-- `path.rstrip("/")`
abbrev pub without_slashes : List ℕ → List ℕ
without_slashes [] = []
without_slashes (c ∷ s) = elim (without_slashes s) [
  | [] ↦ if c == b'/' then [] else c ∷ []
  | (d ∷ r) ↦ c ∷ d ∷ r
]

-- `max(1, per_page)`
abbrev pub positive_size : ℤ → ℕ
positive_size (pos zero) = 1
positive_size (pos (suc n)) = suc n
positive_size (negsuc n) = 1

abbrev pub given_or {ℓ} : {A : Type ℓ} → Option A → A → A
given_or none a = a
given_or (some a) _ = a

pub record Pages (A : Type 0) : Type 0 where
  pub shown_items : List A
  pub size : ℕ
  pub page_name : String
  pub current : ℤ
  pub base_path : List ℕ
  pub query : Dict Param
  pub url_fragment : Option (List ℕ)
  pub side : ℕ

-- what a caller may leave out
pub record Given : Type 0 where
  pub current_page : Option ℤ
  pub path : Option (List ℕ)
  pub query : Dict Param
  pub fragment : Option (List ℕ)
  pub page_name : String

-- `AbstractPaginator.__init__`
unfoldable pub pages : {A : Type 0} → Option Request → List A → ℤ → Given → Pages A
unfolding resolve_current_page resolve_current_path
pages request items per_page g = record {
  shown_items = items;
  size = positive_size per_page;
  page_name = g.page_name;
  current = given_or g.current_page (resolve_current_page request g.page_name (pos 1));
  base_path =
      or_default (without_slashes (given_or g.path (resolve_current_path request (codes "/"))))
        (codes "/");
  query = g.query;
  url_fragment = g.fragment;
  side = 3;
}

abbrev pub put_param : Dict Param → String × Param → Dict Param
put_param d (k, v) = insert k v d

abbrev pub hash : Option (List ℕ) → List ℕ
hash none = []
hash (some []) = []
hash (some (c ∷ s)) = b'#' ∷ c ∷ s

module _ {A : Type 0} where
  unfoldable pub count : Pages A → ℕ
  count p = length p.shown_items

  abbrev pub nothing_in : List A → Bool
  nothing_in [] = true
  nothing_in (x ∷ xs) = false

  unfoldable pub is_empty : Pages A → Bool
  is_empty p = nothing_in p.shown_items

  unfoldable pub is_not_empty : Pages A → Bool
  unfolding is_empty
  is_not_empty p = not (is_empty p)

  unfoldable pub first_item : Pages A → Option ℤ
  unfolding is_empty
  first_item p = if is_empty p then none else some ((p.current -ℤ pos 1) *ℤ pos p.size +ℤ pos 1)

  unfoldable pub last_item : Pages A → Option ℤ
  unfolding is_empty count
  last_item p =
      if is_empty p then none else some ((p.current -ℤ pos 1) *ℤ pos p.size +ℤ pos (count p))

  unfoldable pub on_first_page : Pages A → Bool
  on_first_page p = leb_ℤ p.current (pos 1)

  unfoldable pub set_page_name : String → Pages A → Pages A
  set_page_name name p = record p { page_name = name }

  unfoldable pub append : String → Param → Pages A → Pages A
  append key value p = record p { query = insert key value p.query }

  unfoldable pub appends : Dict Param → Pages A → Pages A
  appends values p = record p { query = foldl put_param p.query values }

  unfoldable pub with_query_string : Option Request → Pages A → Pages A
  unfolding request_query_string
  with_query_string request p = record p {
    query = foldl put_param p.query (request_query_string request p.page_name);
  }

  unfoldable pub fragment : List ℕ → Pages A → Pages A
  fragment value p = record p { url_fragment = some value }

  unfoldable pub on_each_side : ℕ → Pages A → Pages A
  on_each_side n p = record p { side = n }

  -- `url`, over `urlencode(…, doseq=True)`
  unfoldable pub url : (Dict Param → List ℕ) → Pages A → ℤ → List ℕ
  url urlencode p page =
      let shown = at_least_one page (pos 1) in
      p.base_path
      ++ b'?' ∷ (urlencode (insert p.page_name (page_number shown) p.query) ++ hash p.url_fragment)

  unfoldable pub previous_page_url : (Dict Param → List ℕ) → Pages A → Option (List ℕ)
  unfolding url
  previous_page_url urlencode p =
      if leb_ℤ p.current (pos 1) then none else some (url urlencode p (p.current -ℤ pos 1))
