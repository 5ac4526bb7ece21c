-- ===== src/Pagination/Bounds.antt =====
-- The page, limit and offset that a query is given (`getPaginationOptions`).
use gov_jobs_backend.Base.{ℕ, zero, suc, ◌+◌, ◌-◌, ◌*◌, ◌≤◌, ◌≡◌, ℤ, pos, negsuc, arith}
use gov_jobs_backend.Pagination.{
  PaginationQuery, get_pagination_options, max_page_size, default_page_size, last_page_of,
  at_least_one, at_most, or_default,
}

pub at_least_one_pos : (z : ℤ) → 1 ≤ at_least_one z
at_least_one_pos (pos n) = omega arith
at_least_one_pos (negsuc n) = omega arith

at_least_one-at_most_le : (b : ℕ) (z : ℤ) → 1 ≤ b → at_least_one (at_most b z) ≤ b
at_least_one-at_most_le b (pos n) h = omega arith
at_least_one-at_most_le b (negsuc n) h = omega arith

pub pred-mul-add : (p l : ℕ) → 1 ≤ p → (p - 1) * l + l ≡ p * l
pred-mul-add zero l h = absurd (omega arith)
pred-mul-add (suc p) l h = grind arith

-- Whatever integers a client sends, the page is at least 1, the limit lies between 1 and 100, and
-- the offset is that of the page before: offset plus limit is page times limit.
pub get_pagination_options_bounds :
    (q : PaginationQuery)
    → let o = get_pagination_options q in
      (1 ≤ o.page)
      × (1 ≤ o.limit)
      × (o.limit ≤ max_page_size)
      × (o.skip + o.limit ≡ o.page * o.limit)
unfolding get_pagination_options
get_pagination_options_bounds q =
    let page_pos = at_least_one_pos (or_default q.page 1) in
    (
      page_pos,
      at_least_one_pos _,
      at_least_one-at_most_le max_page_size (or_default q.limit default_page_size) (omega arith),
      pred-mul-add _ _ page_pos,
    )

-- The last page is the least that reaches the total.
pub last_page_of_lem :
    (total limit : ℕ)
    → 1 ≤ limit
    → (total ≤ last_page_of total limit * limit)
      × (last_page_of total limit * limit ≤ total + limit)
unfolding last_page_of
last_page_of_lem total limit h = ground arith
