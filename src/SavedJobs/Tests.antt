-- ===== src/SavedJobs/Tests.antt =====
-- A user who saves an announcement twice, one that is not there, and removes the first.
use gov_jobs_backend.Base.{◌≡◌, refl, false, List, [], ◌∷◌}
use gov_jobs_backend.Samples.{job}
use gov_jobs_backend.SavedJobs.{SavedStore, save, not_found, find_ids}
use gov_jobs_backend.SavedJobs.Sets.{
  Represents, Request, save_request, remove_request, handle_all, specified_all,
  handle_all-Represents, times,
}

abbrev store : SavedStore
store = record { jobs = job ∷ []; saved = []; drawn = 1 }

abbrev requests : List Request
requests =
    save_request 10 7 1
    ∷ save_request 11 7 1
    ∷ save_request 12 7 99
    ∷ save_request 13 8 1
    ∷ remove_request 7 1
    ∷ []

saved_once : find_ids 7 (handle_all (save_request 10 7 1 ∷ save_request 11 7 1 ∷ []) store) ≡ 1 ∷ []
unfolding find_ids handle_all save
saved_once = refl

unknown_job : (save 10 7 99 store).1 ≡ not_found
unfolding save
unknown_job = refl

nobody : Represents store (λ u j. false)
unfolding find_ids times
nobody = record { listed = λ u j. refl }

handle_all-Represents_example :
    Represents (handle_all requests store) (specified_all store.jobs requests (λ u j. false))
handle_all-Represents_example = handle_all-Represents requests store (λ u j. false) nobody
