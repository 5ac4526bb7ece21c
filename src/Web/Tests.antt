-- ===== src/Web/Tests.antt =====
-- A demoted administrator, an API key, and a filter for provinces.
use gov_jobs_backend.Base.{
  ℕ, ◌≡◌, ◌≢◌, ◌↔◌, refl, Bool, true, false, Option, none, some, List, [], ◌∷◌, any, length, ◌==◌,
  ==_iff, if◌then◌else◌, Attempt, ok, error, Text, text_eq, codes, trim, pos, ap, arith,
}
use gov_jobs_backend.Models.{User, admin}
use gov_jobs_backend.Samples.{somchai}
use gov_jobs_backend.Sessions.{find_user}
use gov_jobs_backend.Web.Guards.{
  crashed, one, is_blank, internal_api_key_guard, AuthenticatedUser, same_role, insufficient,
  roles_guard,
}
use gov_jobs_backend.Web.Admitted.{ComparesSafely, internal_api_key_guard_iff, roles_guard_iff}
use gov_jobs_backend.Notifications.{join_with}
use gov_jobs_backend.Web.Queries.{repeated, once, to_number_array}
use gov_jobs_backend.Web.Repeated.{to_number_array-join_with}

abbrev caller : AuthenticatedUser
caller = record { id = 7; role = admin }

demoted : (roles_guard (some (admin ∷ [])) none (somchai ∷ []) (some caller)).1 ≡ error insufficient
unfolding roles_guard
demoted = refl

some_role : admin ∷ [] ≢ []
some_role h = cc

roles_guard_iff_example :
    ((roles_guard (some (admin ∷ [])) none (somchai ∷ []) (some caller)).1 ≡ ok true) ↔ (
      (u : User) × (find_user 7 (somchai ∷ []) ≡ some u)
      × (any (same_role u.role) (admin ∷ []) ≡ true))
roles_guard_iff_example = roles_guard_iff (some (admin ∷ [])) none (somchai ∷ []) caller some_role

-- `timingSafeEqual`
abbrev equal : List ℕ → List ℕ → Attempt Text Bool
equal a b =
    if length a == length b
    then ok (text_eq a b)
    else error (codes "Input buffers must have the same")

equal-ComparesSafely : ComparesSafely equal
equal-ComparesSafely = record {
  same_length = λ a b h. rw ((==_iff (length a) (length b)).1 h) refl;
  other_length = λ a b h. (codes "Input buffers must have the same", rw h refl);
}

internal_api_key_guard_iff_example :
    ((internal_api_key_guard (λ s. s) equal (some (codes "k1")) (one (codes "k2")) ≡ ok true)
      ↔ ((is_blank (trim (codes "k1")) ≡ false) × (codes "k2" ≡ codes "k1")))
    × ((e : Text)
        → internal_api_key_guard (λ s. s) equal (some (codes "k1")) (one (codes "k2"))
          ≢ error (crashed e))
internal_api_key_guard_iff_example =
    internal_api_key_guard_iff (λ s. s) equal equal-ComparesSafely
      (record { distinguishes = λ a b latin1 e. e }) (some (codes "k1")) (one (codes "k2"))
      (omega arith, (omega arith, tt))

provinces :
    to_number_array (repeated (codes "1, 2" ∷ codes "x" ∷ codes "2" ∷ []))
    ≡ some (pos 1 ∷ pos 2 ∷ [])
unfolding to_number_array gov_jobs_backend.Base.is_space
provinces = refl

provinces_joined : to_number_array (once (codes "1, 2,x,2")) ≡ some (pos 1 ∷ pos 2 ∷ [])
unfolding to_number_array gov_jobs_backend.Base.is_space
provinces_joined = refl

to_number_array-join_with_example :
    to_number_array (repeated (codes "1, 2" ∷ codes "x" ∷ codes "2" ∷ []))
    ≡ to_number_array (once (join_with (codes ",") (codes "1, 2" ∷ codes "x" ∷ codes "2" ∷ [])))
to_number_array-join_with_example =
    to_number_array-join_with (codes "1, 2" ∷ codes "x" ∷ codes "2" ∷ [])
