-- ===== src/SavedJobs/Sets.antt =====
-- The saved announcements of the users are sets, whatever requests come.
use mathlib.Core.Bool.{false≢true}
use mathlib.Core.Path.{subst}
use gov_jobs_backend.Base.{
  ℕ, ◌+◌, ◌≤◌, ◌≡◌, refl, ap, ◌∙◌, inl, inr, Bool, true, false, ◌&&◌, ◌||◌, not, List, [], ◌∷◌,
  ◌++◌, map, filter, ◌==◌, if◌then◌else◌, Bool-cases, arith,
}
use gov_jobs_backend.Models.{Job}
use gov_jobs_backend.SavedJobs.{
  SavedJob, SavedStore, is_saved, has_saved, job_exists, insert_saved, save, remove, find_ids,
}

-- Who saved what.
abbrev pub Saved : Type 0
Saved = ℕ → ℕ → Bool

unfoldable pub times : ℕ → List ℕ → ℕ
times n [] = 0
times n (m ∷ ms) = (if m == n then 1 else 0) + times n ms

abbrev pub ids_in : ℕ → List SavedJob → List ℕ
ids_in user_id rows = map (λ row. row.job_id) (filter (λ row. row.user_id == user_id) rows)

-- The list of ids of each user holds what the user saved, once.
pub record Represents (s : SavedStore) (f : Saved) : Type 0 where
  pub listed :
      (user_id job_id : ℕ) → times job_id (find_ids user_id s) ≡ (if f user_id job_id then 1 else 0)

pub data Request : Type 0 where
  save_request : ℕ → ℕ → ℕ → Request
  remove_request : ℕ → ℕ → Request

abbrev pub handle : Request → SavedStore → SavedStore
handle (save_request now user_id job_id) s = (save now user_id job_id s).0
handle (remove_request user_id job_id) s = remove user_id job_id s

unfoldable pub handle_all : List Request → SavedStore → SavedStore
handle_all [] s = s
handle_all (r ∷ rs) s = handle_all rs (handle r s)

-- The same requests on sets: an announcement that is not there is not saved.
abbrev pub specified : List Job → Request → Saved → Saved
specified jobs (save_request now user_id job_id) f u j =
    f u j || (job_exists job_id jobs && (u == user_id && j == job_id))
specified jobs (remove_request user_id job_id) f u j = f u j && not (u == user_id && j == job_id)

unfoldable pub specified_all : List Job → List Request → Saved → Saved
specified_all jobs [] f = f
specified_all jobs (r ∷ rs) f = specified_all jobs rs (specified jobs r f)

times-append :
    (u j : ℕ) (rows : List SavedJob) (row : SavedJob)
    → times j (ids_in u (rows ++ row ∷ []))
      ≡ times j (ids_in u rows) + (if is_saved u j row then 1 else 0)
unfolding times
times-append u j [] row = ground arith
times-append u j (r ∷ rows) row = ground (arith, times-append u j rows row)

times_unsaved :
    (u j : ℕ) (rows : List SavedJob) → has_saved u j rows ≡ false → times j (ids_in u rows) ≡ 0
unfolding times has_saved
times_unsaved u j [] h = refl
times_unsaved u j (r ∷ rows) h = ground (arith, times_unsaved u j rows)

times_saved :
    (u j : ℕ) (rows : List SavedJob) → has_saved u j rows ≡ true → 1 ≤ times j (ids_in u rows)
unfolding times has_saved
times_saved u j [] h = absurd (false≢true h)
times_saved u j (r ∷ rows) h = ground (arith, times_saved u j rows)

times-filter :
    (user_id job_id u j : ℕ) (rows : List SavedJob)
    → times j (ids_in u (filter (λ row. not (is_saved user_id job_id row)) rows))
      ≡ (if u == user_id && j == job_id then 0 else times j (ids_in u rows))
unfolding times
times-filter user_id job_id u j [] = ground arith
times-filter user_id job_id u j (r ∷ rows) = ground (arith, times-filter user_id job_id u j rows)

times_unsaved_at :
    (user_id job_id u j : ℕ) (rows : List SavedJob)
    → has_saved user_id job_id rows ≡ false
    → (u == user_id && j == job_id) ≡ true
    → times j (ids_in u rows) ≡ 0
times_unsaved_at user_id job_id u j rows h q =
    let same_user : user_id ≡ u = ground arith in
    let same_job : job_id ≡ j = ground arith in
    times_unsaved u j rows (
      subst (λ n. has_saved u n rows ≡ false) same_job
        (subst (λ n. has_saved n job_id rows ≡ false) same_user h))

times_saved_at :
    (user_id job_id u j : ℕ) (rows : List SavedJob)
    → has_saved user_id job_id rows ≡ true
    → (u == user_id && j == job_id) ≡ true
    → 1 ≤ times j (ids_in u rows)
times_saved_at user_id job_id u j rows h q =
    let same_user : user_id ≡ u = ground arith in
    let same_job : job_id ≡ j = ground arith in
    times_saved u j rows (
      subst (λ n. has_saved u n rows ≡ true) same_job
        (subst (λ n. has_saved n job_id rows ≡ true) same_user h))

-- A bit that is set, or not, by what is counted.
added_once :
    (n : ℕ) (f exists same : Bool)
    → n ≡ (if f then 1 else 0)
    → exists ≡ true
    → (same ≡ true → n ≡ 0)
    → n + (if same then 1 else 0) ≡ (if f || (exists && same) then 1 else 0)
added_once n f exists true before e never = let zero_now = never refl in ground arith
added_once n f exists false before e never = ground arith

kept_once :
    (n : ℕ) (f exists same : Bool)
    → n ≡ (if f then 1 else 0)
    → (same ≡ true → 1 ≤ n)
    → n ≡ (if f || (exists && same) then 1 else 0)
kept_once n f exists true before once = let one_now = once refl in ground arith
kept_once n f exists false before once = ground arith

removed_once :
    (n : ℕ) (f same : Bool)
    → n ≡ (if f then 1 else 0)
    → (if same then 0 else n) ≡ (if f && not same then 1 else 0)
removed_once n true true before = refl
removed_once n false true before = refl
removed_once n true false before = before
removed_once n false false before = before

abbrev new_saved : ℕ → ℕ → ℕ → ℕ → SavedJob
new_saved id user_id job_id now = record {
  id = id;
  user_id = user_id;
  job_id = job_id;
  created_at = now;
}

is_saved-flip :
    (u j : ℕ) (row : SavedJob) → is_saved u j row ≡ (u == row.user_id && j == row.job_id)
is_saved-flip u j row = ground arith

unsaved_job : (f exists same : Bool) → exists ≡ false → f ≡ f || (exists && same)
unsaved_job true exists same e = refl
unsaved_job false exists same e = rw e refl

save-Represents :
    (now user_id job_id : ℕ) (s : SavedStore) (f : Saved)
    → Represents s f
    → Represents
        (save now user_id job_id s).0
        (specified s.jobs (save_request now user_id job_id) f)
unfolding save insert_saved find_ids
save-Represents now user_id job_id s f r = elim (Bool-cases (job_exists job_id s.jobs)) [
  | inr e ↦
      rw (e, save)
        (record {
          listed = λ u j.
              r.listed u j ∙ ap (λ (b : Bool). if b then 1 else 0) (unsaved_job (f u j) _ _ e);
        })
  | inl e ↦ elim (Bool-cases (has_saved user_id job_id s.saved)) [
    | inl h ↦
        rw (e, h, save)
          (record {
            listed = λ u j.
                kept_once (times j (find_ids u s)) (f u j) (job_exists job_id s.jobs)
                  (u == user_id && j == job_id) (r.listed u j)
                  (times_saved_at user_id job_id u j s.saved h);
          })
    | inr h ↦
        rw (e, h, save)
          (record {
            listed = λ u j.
                times-append u j s.saved (new_saved s.drawn user_id job_id now)
                ∙ ap (λ (b : Bool). times j (ids_in u s.saved) + (if b then 1 else 0))
                    (is_saved-flip u j (new_saved s.drawn user_id job_id now))
                ∙ added_once (times j (find_ids u s)) (f u j) (job_exists job_id s.jobs)
                    (u == user_id && j == job_id) (r.listed u j) e
                    (times_unsaved_at user_id job_id u j s.saved h);
          })
  ]
]

remove-Represents :
    (user_id job_id : ℕ) (s : SavedStore) (f : Saved)
    → Represents s f
    → Represents (remove user_id job_id s) (specified s.jobs (remove_request user_id job_id) f)
unfolding remove find_ids
remove-Represents user_id job_id s f r = record {
  listed = λ u j.
      times-filter user_id job_id u j s.saved
      ∙ removed_once (times j (find_ids u s)) (f u j) (u == user_id && j == job_id) (r.listed u j);
}

save-jobs : (now user_id job_id : ℕ) (s : SavedStore) → (save now user_id job_id s).0.jobs ≡ s.jobs
unfolding save insert_saved
save-jobs now user_id job_id s = elim (Bool-cases (job_exists job_id s.jobs)) [
  | inr e ↦ rw (e, save) refl
  | inl e ↦ elim (Bool-cases (has_saved user_id job_id s.saved)) [
    | inl h ↦ rw (e, h, save) refl
    | inr h ↦ rw (e, h, save) refl
  ]
]

handle-jobs : (r : Request) (s : SavedStore) → (handle r s).jobs ≡ s.jobs
unfolding remove
handle-jobs (remove_request user_id job_id) s = refl
handle-jobs (save_request now user_id job_id) s = save-jobs now user_id job_id s

handle-Represents :
    (r : Request) (s : SavedStore) (f : Saved)
    → Represents s f
    → Represents (handle r s) (specified s.jobs r f)
handle-Represents (save_request now user_id job_id) s f r = save-Represents now user_id job_id s f r
handle-Represents (remove_request user_id job_id) s f r = remove-Represents user_id job_id s f r

-- From a table that lists what every user saved once, any requests lead to one that lists once
-- what the same requests leave saved when each is an operation on sets: saving adds an
-- announcement that exists, removing takes it out, and either may be repeated.
pub handle_all-Represents :
    (rs : List Request) (s : SavedStore) (f : Saved)
    → Represents s f
    → Represents (handle_all rs s) (specified_all s.jobs rs f)
unfolding handle_all specified_all
handle_all-Represents [] s f r = r
handle_all-Represents (q ∷ rs) s f r =
    subst
      (λ js. Represents (handle_all rs (handle q s)) (specified_all js rs (specified s.jobs q f)))
      (handle-jobs q s)
      (handle_all-Represents rs (handle q s) (specified s.jobs q f) (handle-Represents q s f r))
