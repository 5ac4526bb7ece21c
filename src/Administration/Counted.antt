-- ===== src/Administration/Counted.antt =====
-- The counts that are shown beside the users of a page.
use mathlib.Core.Path.{subst}
use gov_jobs_backend.Base.{
  ℕ, ◌+◌, ◌≡◌, refl, ap, ◌∙◌, inl, inr, true, List, [], ◌∷◌, map, any, ◌==◌, ==_refl, if◌then◌else◌,
  Bool-cases, All, Memᴰ, any_of_mem, arith,
}
use gov_jobs_backend.Models.{User, JobAlert}
use gov_jobs_backend.Jobs.Filters.{AllRows}
use gov_jobs_backend.Alerts.{map_paginated}
use gov_jobs_backend.SavedJobs.{SavedJob}
use gov_jobs_backend.Pagination.{
  PaginationQuery, Paginated, page_of, bad_request, Selection, map_page,
}
use gov_jobs_backend.Administration.{
  AdminStore, AdminUserResponse, count_where, count_in_group, counts_by, count_for, alert_counts,
  saved_job_counts, page_rows, to_user, list_users,
}

count_for-count_in_group :
    (id k : ℕ) (counts : List (ℕ × ℕ))
    → count_for id (count_in_group k counts) ≡ count_for id counts + (if k == id then 1 else 0)
unfolding count_for count_in_group
count_for-count_in_group id k [] = ground arith
count_for-count_in_group id k ((i, n) ∷ counts) =
    ground (arith, count_for-count_in_group id k counts)

module _ {ℓ} {A : Type ℓ} (key : A → ℕ) where
  any_same :
      (id k : ℕ) (ids : List ℕ)
      → (k == id) ≡ true
      → any (λ i. i == id) ids ≡ true
      → any (λ i. i == k) ids ≡ true
  any_same id k ids e h =
      let same : id ≡ k = ground arith in subst (λ n. any (λ i. i == n) ids ≡ true) same h

  count_for-counts_by :
      (id : ℕ) (ids : List ℕ) (rows : List A)
      → any (λ i. i == id) ids ≡ true
      → count_for id (counts_by key ids rows) ≡ count_where (λ r. key r == id) rows
  unfolding counts_by count_for
  count_for-counts_by id ids [] h = refl
  count_for-counts_by id ids (row ∷ rows) h = elim (Bool-cases (key row == id)) [
    | inl e ↦
        rw (any_same id (key row) ids e h, counts_by)
          (count_for-count_in_group id (key row) (counts_by key ids rows)
            ∙ rw e (let rest = count_for-counts_by id ids rows h in omega arith))
    | inr e ↦ elim (Bool-cases (any (λ i. i == key row) ids)) [
      | inl listed ↦
          rw (listed, counts_by)
            (count_for-count_in_group id (key row) (counts_by key ids rows)
              ∙ rw e (let rest = count_for-counts_by id ids rows h in omega arith))
      | inr unlisted ↦ rw (unlisted, counts_by) (rw e (count_for-counts_by id ids rows h))
    ]
  ]

-- Every user of a page is among the ids of the page.
every_member : (xs : List User) (P : User → Type 0) → ((u : User) → Memᴰ u xs → P u) → All P xs
every_member [] P f = tt
every_member (x ∷ xs) P f = (f x (Memᴰ.head refl), every_member xs P (λ u m. f u (Memᴰ.tail m)))

mem-ids : {u : User} {xs : List User} → Memᴰ u xs → Memᴰ u.id (map (λ (v : User). v.id) xs)
mem-ids (Memᴰ.head e) = Memᴰ.head (ap (λ (v : User). v.id) e)
mem-ids (Memᴰ.tail m) = Memᴰ.tail (mem-ids m)

mapped_rows :
    (P : AdminUserResponse → Type 0) (f : User → AdminUserResponse) (xs : List User)
    → All (λ u. P (f u)) xs
    → All P (map f xs)
mapped_rows P f [] h = tt
mapped_rows P f (x ∷ xs) (here, later) = (here, mapped_rows P f xs later)

-- The counts of a row are those of the tables.
pub record IsCounted (s : AdminStore) (r : AdminUserResponse) : Type 0 where
  pub alerts_counted : r.alert_count ≡ count_where (λ (a : JobAlert). a.user_id == r.id) s.alerts
  pub saved_counted :
      r.saved_job_count ≡ count_where (λ (j : SavedJob). j.user_id == r.id) s.saved_jobs

module _ (user_created log_created : ℕ → ℕ) where
  abbrev shown : AdminStore → List User → User → AdminUserResponse
  shown s xs u =
      let ids = map (λ (v : User). v.id) xs in
      to_user user_created log_created u (alert_counts ids s.alerts)
        (saved_job_counts ids s.saved_jobs)

  shown-IsCounted :
      (s : AdminStore) (xs : List User) (u : User) → Memᴰ u xs → IsCounted s (shown s xs u)
  unfolding to_user
  shown-IsCounted s xs u m =
      let ids = map (λ (v : User). v.id) xs in
      let listed = any_of_mem (λ i. i == u.id) (mem-ids m) (==_refl u.id) in
      record {
        alerts_counted = count_for-counts_by (λ (a : JobAlert). a.user_id) u.id ids s.alerts listed;
        saved_counted =
            count_for-counts_by (λ (j : SavedJob). j.user_id) u.id ids s.saved_jobs listed;
      }

  page-IsCounted :
      (s : AdminStore) (page : Paginated User)
      → AllRows (IsCounted s) (map_paginated (shown s (page_rows page)) page)
  unfolding map_page
  page-IsCounted s (bad_request key) = tt
  page-IsCounted s (page_of p) =
      mapped_rows (IsCounted s) (shown s p.data_rows) p.data_rows
        (every_member p.data_rows _ (shown-IsCounted s p.data_rows))

  -- Whatever page of users is asked for, each row shows the number of all alerts and of all saved
  -- announcements of its user.
  pub list_users-IsCounted :
      (run : List User → Selection → List User × ℕ) (query : PaginationQuery) (s : AdminStore)
      → AllRows (IsCounted s) (list_users user_created log_created run query s)
  unfolding list_users
  list_users-IsCounted run query s = page-IsCounted s _
