-- ===== src/Pagination/Window.antt =====
-- src/arvel/pagination/__init__.py: which pages the bar of `elements` shows.
use arvel.Common.{
  ℕ, zero, suc, ◌≡◌, refl, ap, sym, ◌∙◌, ◌⊎◌, inl, inr, ◌<◌, ◌≤◌, Bool, true, false, ◌&&◌, ◌||◌,
  List, [], ◌∷◌, ◌+◌, ◌-◌, ◌*◌, if◌then◌else◌, map, ltb, leb, ◌==◌, arith,
}
use arvel.Common.Int.{ℤ, pos, pos_part, leb_ℤ, ltb_ℤ}
use arvel.Common.Assoc.{Dict}
use arvel.Pagination.Base.{Param}
use arvel.Pagination.LengthAware.{
  LengthAwarePaginator, Element, band, dots, range, with_url, url_range, elements, last_page,
}

abbrev pub in_band : ℕ → List (ℕ × List ℕ) → Bool
in_band page [] = false
in_band page ((p, _) ∷ ps) = (p == page) || in_band page ps

-- the bar has a link to the page
unfoldable pub shows : ℕ → List Element → Bool
shows page [] = false
shows page (dots ∷ es) = shows page es
shows page (band ps ∷ es) = in_band page ps || shows page es

-- whether a page is in `_url_range(start, end)`
abbrev covers : ℕ → ℕ → ℕ → Bool
covers start end page = leb start page && ltb page (start + (end + 1 - start))

-- whether a page is in the bar, by its bounds
abbrev bar : ℕ → ℕ → ℤ → ℕ → Bool
bar last side current page =
    let window = side * 2 in
    if ltb last (window + 8)
    then covers 1 last page || false
    else (if leb_ℤ current (pos window)
        then covers 1 (window + 2) page || (covers (last - 1) last page || false)
        else (if ltb_ℤ (pos (last - window)) current
            then covers 1 2 page || (covers (last - (window + 2)) last page || false)
            else covers 1 2 page
              || (covers (pos_part current - side) (pos_part current + side) page
                  || (covers (last - 1) last page || false))))

shows-if :
    (page : ℕ) (b : Bool) (es fs : List Element)
    → shows page (if b then es else fs) ≡ (if b then shows page es else shows page fs)
shows-if page true es fs = refl
shows-if page false es fs = refl

shows-dots : (page : ℕ) (es : List Element) → shows page (dots ∷ es) ≡ shows page es
unfolding shows
shows-dots page es = refl

shows-nil : (page : ℕ) → shows page [] ≡ false
unfolding shows
shows-nil page = refl

bar_within :
    (last side current page : ℕ)
    → 1 ≤ last
    → current ≤ last
    → bar last side (pos current) page ≡ true
    → (1 ≤ page) × (page ≤ last)
bar_within last side current page p q h = ground arith

bar_first : (last side current : ℕ) → 1 ≤ last → bar last side (pos current) 1 ≡ true
bar_first last side current a = ground arith

bar_last : (last side current : ℕ) → 1 ≤ last → bar last side (pos current) last ≡ true
bar_last last side current a = ground arith

bar_near :
    (last side current page : ℕ)
    → side ≤ 2
    → current ≤ last
    → 1 ≤ page
    → page ≤ last
    → current ≤ page + side
    → page ≤ current + side
    → bar last side (pos current) page ≡ true
bar_near last zero current page s a b c d e = ground arith
bar_near last (suc zero) current page s a b c d e = ground arith
bar_near last (suc (suc zero)) current page s a b c d e = ground arith
bar_near last (suc (suc (suc n))) current page s a b c d e = absurd (omega (arith, s))

bar_reach :
    (last side current page : ℕ)
    → side ≤ 2
    → current ≤ last
    → 1 ≤ page
    → page ≤ last
    → (page ≡ 1) ⊎ (page ≡ last) ⊎ ((current ≤ page + side) × (page ≤ current + side))
    → bar last side (pos current) page ≡ true
bar_reach last side current page s a b c near = elim near [
  | inl e ↦ ap (bar last side (pos current)) e ∙ bar_first last side current (omega (arith, b, c))
  | inr (inl e) ↦
      ap (bar last side (pos current)) e ∙ bar_last last side current (omega (arith, b, c))
  | inr (inr (d, e)) ↦ bar_near last side current page s a b c d e
]

bar_gap :
    (last side : ℕ)
    → 3 ≤ side
    → side * 3 + 1 < last
    → side * 2 + 8 ≤ last
    → bar last side (pos (side * 2)) (side * 3) ≡ false
bar_gap last side a b c = ground arith

module _ {A : Type 0} (urlencode : Dict Param → List ℕ) where
  in_band-range :
      (l : LengthAwarePaginator A) (page start n : ℕ)
      → in_band page (map (with_url urlencode l) (range start n))
        ≡ (leb start page && ltb page (start + n))
  in_band-range l page start zero = ground arith
  in_band-range l page start (suc n) = ground (arith, in_band-range l page (suc start) n)

  last_page_positive : (l : LengthAwarePaginator A) → 1 ≤ last_page urlencode l
  unfolding last_page
  last_page_positive l = ground arith

  shows-url_range :
      (l : LengthAwarePaginator A) (page start end : ℕ) (rest : List Element)
      → shows page (url_range urlencode l start end ∷ rest)
        ≡ ((leb start page && ltb page (start + (end + 1 - start))) || shows page rest)
  unfolding shows url_range
  shows-url_range l page start end rest =
      ap (λ (b : Bool). b || shows page rest) (in_band-range l page start (end + 1 - start))

  shows-elements :
      (l : LengthAwarePaginator A) (page : ℕ)
      → shows page (elements urlencode l)
        ≡ bar (last_page urlencode l) l.pages.side l.pages.current page
  unfolding elements
  shows-elements l page = simp (shows-if, shows-dots, shows-nil, shows-url_range)

  shows-elements_at :
      (l : LengthAwarePaginator A) (current page : ℕ)
      → l.pages.current ≡ pos current
      → shows page (elements urlencode l)
        ≡ bar (last_page urlencode l) l.pages.side (pos current) page
  shows-elements_at l current page c =
      shows-elements l page ∙ ap (λ (z : ℤ). bar (last_page urlencode l) l.pages.side z page) c

  -- The bar links only to pages that there are.
  pub elements_within :
      (l : LengthAwarePaginator A) (current page : ℕ)
      → l.pages.current ≡ pos current
      → current ≤ last_page urlencode l
      → shows page (elements urlencode l) ≡ true
      → (1 ≤ page) × (page ≤ last_page urlencode l)
  elements_within l current page c q h =
      bar_within (last_page urlencode l) l.pages.side current page (last_page_positive l) q
        (sym (shows-elements_at l current page c) ∙ h)

  -- With at most two pages on each side, the bar links to the first page, the last page, the current
  -- page and those that are at most `side` from it, as far as they exist.
  pub elements_reach :
      (l : LengthAwarePaginator A) (current page : ℕ)
      → l.pages.side ≤ 2
      → l.pages.current ≡ pos current
      → current ≤ last_page urlencode l
      → 1 ≤ page
      → page ≤ last_page urlencode l
      → (page ≡ 1)
        ⊎ (page ≡ last_page urlencode l)
        ⊎ ((current ≤ page + l.pages.side) × (page ≤ current + l.pages.side))
      → shows page (elements urlencode l) ≡ true
  elements_reach l current page s c q a b near =
      shows-elements_at l current page c
      ∙ bar_reach (last_page urlencode l) l.pages.side current page s q a b near

  -- With three pages or more on each side, the default included, and pages enough: at page
  -- `2 * side` the bar has no link to the page that is `side` after it.
  pub elements_gap :
      (l : LengthAwarePaginator A)
      → 3 ≤ l.pages.side
      → l.pages.current ≡ pos (l.pages.side * 2)
      → l.pages.side * 3 + 1 < last_page urlencode l
      → l.pages.side * 2 + 8 ≤ last_page urlencode l
      → shows (l.pages.side * 3) (elements urlencode l) ≡ false
  elements_gap l s c a b =
      shows-elements_at l (l.pages.side * 2) (l.pages.side * 3) c
      ∙ bar_gap (last_page urlencode l) l.pages.side s a b
