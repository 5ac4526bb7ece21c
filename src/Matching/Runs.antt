-- ===== src/Matching/Runs.antt =====
-- Whole runs of `matchJobs`: what they record, and that a second run records nothing.
use gov_jobs_backend.Base.{
  ℕ, ◌≡◌, refl, ◌∙◌, Bool, true, false, ◌&&◌, ◌||◌, List, [], ◌∷◌, Memᴰ, any, all, filter, ◌==◌,
  ==_refl, Text, any_of_mem, arith,
}
use gov_jobs_backend.Models.{Job, JobAlert, JobAlertMatch}
use gov_jobs_backend.Matching.{
  MatchStore, has_match, insert_matches, match_found, match_jobs, Listings, find_matching_alerts,
  attachments_of, is_among,
}
use gov_jobs_backend.Matching.Records.{
  UniquePairs, insert_matches-UniquePairs, has_match-insert_matches, Added, Added-nothing,
  Added-trans, insert_matches-Added, insert_matches_again, and-eq-true,
}

or_assoc : (x y z : Bool) → (x || y) || z ≡ x || (y || z)
or_assoc true y z = refl
or_assoc false y z = refl

or_true_right : (x y : Bool) → y ≡ true → x || y ≡ true
or_true_right x y h = ground arith

module _ {ℓ} {A : Type ℓ} (p : A → Bool) where
  all_of_members : (xs : List A) → ((x : A) → Memᴰ x xs → p x ≡ true) → all p xs ≡ true
  all_of_members [] h = refl
  all_of_members (x ∷ xs) h =
      rw (h x (Memᴰ.head refl)) (all_of_members xs (λ y m. h y (Memᴰ.tail m)))

module _ (ilike : Text → Text → Bool) (now : ℕ) (uuid : ℕ → ℕ) (documents : Bool)
    (db : Listings) where
  abbrev pub satisfied_by : Job → List JobAlert
  satisfied_by job =
      find_matching_alerts ilike db.alerts job (attachments_of job.id db.attachments) documents

  abbrev run : List Job → MatchStore → MatchStore × List ℕ
  run = match_found ilike now uuid documents db

  match_found-UniquePairs :
      (jobs : List Job) (s : MatchStore)
      → UniquePairs s.matches
      → UniquePairs (run jobs s).0.matches
  unfolding match_found
  match_found-UniquePairs [] s u = u
  match_found-UniquePairs (job ∷ jobs) s u =
      match_found-UniquePairs jobs _
        (insert_matches-UniquePairs now uuid (satisfied_by job) job.id s u)

  match_found-Added : (jobs : List Job) (s : MatchStore) → Added s (run jobs s)
  unfolding match_found
  match_found-Added [] s = Added-nothing s
  match_found-Added (job ∷ jobs) s =
      Added-trans (insert_matches-Added now uuid (satisfied_by job) job.id s)
        (match_found-Added jobs _)

  -- Some announcement of the list has the id, and some alert that it satisfies has the other.
  abbrev pub satisfied_pair : List Job → ℕ → ℕ → Bool
  satisfied_pair jobs alert_id job_id =
      any (λ job. any (λ a. a.id == alert_id) (satisfied_by job) && job.id == job_id) jobs

  has_match-match_found :
      (jobs : List Job) (x y : ℕ) (s : MatchStore)
      → has_match x y (run jobs s).0.matches ≡ has_match x y s.matches || satisfied_pair jobs x y
  unfolding match_found
  has_match-match_found [] x y s = ground arith
  has_match-match_found (job ∷ jobs) x y s =
      has_match-match_found jobs x y (insert_matches now uuid (satisfied_by job) job.id s).0
      ∙ rw (has_match-insert_matches now uuid (satisfied_by job) job.id x y s) (
          or_assoc (has_match x y s.matches)
            (any (λ (a : JobAlert). a.id == x) (satisfied_by job) && job.id == y)
            (satisfied_pair jobs x y))

  -- Every pair of the announcements and the alerts that they satisfy has its row.
  abbrev all_recorded : List Job → List JobAlertMatch → Bool
  all_recorded jobs ms = all (λ job. all (λ a. has_match a.id job.id ms) (satisfied_by job)) jobs

  match_found_again :
      (later : ℕ) (jobs : List Job) (s : MatchStore)
      → all_recorded jobs s.matches ≡ true
      → match_found ilike later uuid documents db jobs s ≡ (s, [])
  unfolding match_found
  match_found_again later [] s h = refl
  match_found_again later (job ∷ jobs) s h =
      let (here, others) = and-eq-true _ (all_recorded jobs s.matches) h in
      rw (insert_matches_again later uuid (satisfied_by job) job.id s here)
        (rw (match_found_again later jobs s others))

  satisfied_pair_of_mem :
      (jobs : List Job) (job : Job) (a : JobAlert)
      → Memᴰ job jobs
      → Memᴰ a (satisfied_by job)
      → satisfied_pair jobs a.id job.id ≡ true
  satisfied_pair_of_mem jobs job a in_jobs in_alerts =
      any_of_mem
        (λ (j : Job). any (λ (b : JobAlert). b.id == a.id) (satisfied_by j) && j.id == job.id)
        in_jobs
        (rw (any_of_mem (λ (b : JobAlert). b.id == a.id) in_alerts (==_refl a.id)) (==_refl job.id))

  all_recorded-match_found :
      (jobs : List Job) (s : MatchStore) → all_recorded jobs (run jobs s).0.matches ≡ true
  all_recorded-match_found jobs s = all_of_members _ jobs (λ job in_jobs.
      all_of_members _ (satisfied_by job) (λ a in_alerts.
        has_match-match_found jobs a.id job.id s
        ∙ or_true_right (has_match a.id job.id s.matches) _
            (satisfied_pair_of_mem jobs job a in_jobs in_alerts)))

  -- Matching the same announcements again, at any time and with the same alerts, changes nothing
  -- and returns no id: no announcement is handed twice to an alert's email.
  pub match_jobs_again :
      (later : ℕ) (ids : List ℕ) (s : MatchStore)
      → let s' = (match_jobs ilike now uuid documents db ids s).0 in
        match_jobs ilike later uuid documents db ids s' ≡ (s', [])
  unfolding match_jobs
  match_jobs_again later ids s =
      let found = filter (λ (j : Job). is_among ids j.id) db.jobs in
      match_found_again later found (run found s).0 (all_recorded-match_found found s)

  -- A run keeps the table's rows as they are and adds rows behind them: unsent, with exactly the
  -- ids that the run returns, and no pair of an alert and an announcement gets a second row.
  pub match_jobs-Added :
      (ids : List ℕ) (s : MatchStore)
      → UniquePairs s.matches
      → Added s (match_jobs ilike now uuid documents db ids s)
        × UniquePairs (match_jobs ilike now uuid documents db ids s).0.matches
  unfolding match_jobs
  match_jobs-Added ids s u =
      let found = filter (λ (j : Job). is_among ids j.id) db.jobs in
      (match_found-Added found s, match_found-UniquePairs found s u)

  -- After a run a pair has a row exactly when it had one before, or the run was given the
  -- announcement's id, the announcement was found, and it satisfies the alert.
  pub has_match-match_jobs :
      (ids : List ℕ) (alert_id job_id : ℕ) (s : MatchStore)
      → has_match alert_id job_id (match_jobs ilike now uuid documents db ids s).0.matches
        ≡ has_match alert_id job_id s.matches
          || satisfied_pair (filter (λ j. is_among ids j.id) db.jobs) alert_id job_id
  unfolding match_jobs
  has_match-match_jobs ids alert_id job_id s =
      has_match-match_found (filter (λ (j : Job). is_among ids j.id) db.jobs) alert_id job_id s
