-- ===== src/Pagination/Tests.antt =====
-- Runs of `paginate` on concrete queries, and the theorems at concrete inputs.
use gov_jobs_backend.Base.{
  ℕ, ◌+◌, ◌*◌, ◌≤◌, ◌≡◌, refl, pos, negsuc, some, none, List, [], ◌∷◌, length, All, String,
}
use gov_jobs_backend.Pagination.{
  PaginationQuery, PaginatedResponse, bad_request, get_pagination_options, max_page_size, paginate,
  is_prototype_member,
}
use gov_jobs_backend.Pagination.Bounds.{get_pagination_options_bounds}
use gov_jobs_backend.Pagination.Windows.{window, pages, pages-eq-rows}
use gov_jobs_backend.Pagination.Sorting.{SafeSelection, asked, paginate-SafeSelection}
use gov_jobs_backend.Pagination.Windows.{rows_of}

abbrev query : PaginationQuery
query = record { page = some (negsuc 4); limit = some (pos 2); sort_by = none; order = none }

abbrev rows : List ℕ
rows = 1 ∷ 2 ∷ 3 ∷ 4 ∷ 5 ∷ []

abbrev sortable : List (String × String)
sortable = ("createdAt", "alert.created_at") ∷ ("name", "alert.name") ∷ []

abbrev by_key : String → PaginationQuery
by_key key = record query { sort_by = some key }

pages_of_five : pages (window rows) query none none 3 ≡ rows
unfolding pages paginate
pages_of_five = refl

unknown_key :
    paginate (window rows) (by_key "password") (some sortable) none ≡ bad_request "password"
unfolding paginate is_prototype_member
unknown_key = refl

get_pagination_options_bounds_example :
    let o = get_pagination_options query in
    (1 ≤ o.page) × (1 ≤ o.limit) × (o.limit ≤ max_page_size) × (o.skip + o.limit ≡ o.page * o.limit)
get_pagination_options_bounds_example = get_pagination_options_bounds query

abbrev first_page : PaginatedResponse ℕ
first_page = record {
  data_rows = 1 ∷ 2 ∷ [];
  meta = record { total = 5; page = 1; last_page = 3; limit = 2 };
}

pages-eq-rows_example :
    (pages (window rows) query none none first_page.meta.last_page ≡ rows)
    × (first_page.meta.total ≡ length rows)
unfolding paginate
pages-eq-rows_example = pages-eq-rows rows query none none {p = first_page} refl

paginate-SafeSelection_example :
    All
      (SafeSelection (some sortable) none (some "name"))
      (rows_of (paginate asked (by_key "name") (some sortable) none))
paginate-SafeSelection_example = paginate-SafeSelection (by_key "name") (some sortable) none
