-- ===== src/Pagination/Windows.antt =====
-- The pages of one listing, put together.
use native.Mathlib.Nat.{zero-add, suc-add, zero-mul, suc-mul}
use gov_jobs_backend.Base.{
  ℕ, zero, suc, ◌+◌, ◌*◌, ◌≡◌, sym, ap, ◌∙◌, pos, some, Option, List, [], ◌∷◌, ◌++◌, arith, length,
  take, drop, take_all, String, Option-cases, inl, inr,
}
use gov_jobs_backend.Pagination.{
  PaginationQuery, PaginatedResponse, Selection, DefaultSort, Paginated, page_of, bad_request,
  get_pagination_options, fetch_page, new_page, paginate, last_page_of, sort_key,
}
use gov_jobs_backend.Pagination.Bounds.{last_page_of_lem, get_pagination_options_bounds}

-- LIMIT and OFFSET on an ordered result, with the count of all rows.
abbrev pub window {ℓ} : {T : Type ℓ} → List T → Selection → List T × ℕ
window rows s = (take s.take_rows (drop s.skip_rows rows), length rows)

abbrev pub rows_of {ℓ} : {T : Type ℓ} → Paginated T → List T
rows_of (page_of p) = p.data_rows
rows_of (bad_request key) = []

-- The query for page `n`, with all else as it is.
abbrev pub at_page : ℕ → PaginationQuery → PaginationQuery
at_page n q = record q { page = some (pos n) }

skip-at_page :
    (q : PaginationQuery) (n : ℕ)
    → (get_pagination_options (at_page (suc n) q)).skip ≡ n * (get_pagination_options q).limit
unfolding get_pagination_options
skip-at_page q n = ground arith

module _ {ℓ} {T : Type ℓ} where
  -- The rows of the pages from 1 to `n`, in order.
  unfoldable pub pages :
      (Selection → List T × ℕ)
      → PaginationQuery
      → Option (List (String × String))
      → Option DefaultSort
      → ℕ
      → List T
  pages run q sortable default_sort zero = []
  pages run q sortable default_sort (suc n) =
      pages run q sortable default_sort n
      ++ rows_of (paginate run (at_page (suc n) q) sortable default_sort)

  take-add : (m n : ℕ) (xs : List T) → take (m + n) xs ≡ take m xs ++ take n (drop m xs)
  take-add zero n xs = rw zero-add
  take-add (suc m) n [] = take_all _ [] (omega arith) ∙ sym (take_all n [] (omega arith))
  take-add (suc m) n (x ∷ xs) = rw suc-add (ap (◌∷◌ x) (take-add m n xs))

  module _ (rows : List T) (q : PaginationQuery) (sortable : Option (List (String × String)))
      (default_sort : Option DefaultSort) {p : PaginatedResponse T}
      (accepted : paginate (window rows) q sortable default_sort ≡ page_of p) where
    rows_of-paginate :
        (n : ℕ)
        → rows_of (paginate (window rows) (at_page (suc n) q) sortable default_sort)
          ≡ take (get_pagination_options q).limit (drop (n * (get_pagination_options q).limit) rows)
    unfolding paginate fetch_page new_page
    rows_of-paginate n = rw (← skip-at_page q n) (elim (Option-cases (sort_key q.sort_by)) [
      | inl e ↦ ground arith
      | inr (key, e) ↦ ground arith
    ])

    meta-paginate :
        (p.meta.total ≡ length rows)
        × (p.meta.limit ≡ (get_pagination_options q).limit)
        × (p.meta.last_page ≡ last_page_of (length rows) p.meta.limit)
    unfolding paginate fetch_page new_page
    meta-paginate = elim (Option-cases (sort_key q.sort_by)) [
      | inl e ↦ ground arith
      | inr (key, e) ↦ ground arith
    ]

    pages-eq-take :
        (n : ℕ)
        → pages (window rows) q sortable default_sort n
          ≡ take (n * (get_pagination_options q).limit) rows
    unfolding pages
    pages-eq-take zero = rw zero-mul
    pages-eq-take (suc n) = rw (suc-mul, take-add, pages-eq-take n, rows_of-paginate n)

    -- For a query that is not refused, over a result in its order: the pages from the first to
    -- the last that the meta names hold every row, once and in order; the meta counts the rows.
    pub pages-eq-rows :
        (pages (window rows) q sortable default_sort p.meta.last_page ≡ rows)
        × (p.meta.total ≡ length rows)
    pages-eq-rows =
        let (total, limit, last) = meta-paginate in
        let (_, low, _, _) = get_pagination_options_bounds q in
        let (reach, _) = last_page_of_lem (length rows) p.meta.limit (rw limit low) in
        (pages-eq-take p.meta.last_page ∙ take_all _ rows (rw (last, ← limit) reach), total)
