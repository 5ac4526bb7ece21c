-- ===== src/Alerts/Links.antt =====
-- Switching an alert off from its email: src/modules/job-alerts/unsubscribe.service.ts.
use gov_jobs_backend.Base.{
  Bool, true, false, not, ◌==◌, Option, none, some, List, [], ◌∷◌, if◌then◌else◌, String, str_eq,
  codes, text_eq, trim,
}
use gov_jobs_backend.Models.{JobAlert}
use gov_jobs_backend.Crawler.{update_where}

pub record UnsubscribeResult : Type 0 where
  pub alert_name : String
  pub changed : Bool

pub record PeekResult : Type 0 where
  pub alert_name : String
  pub is_active : Bool

unfoldable pub with_token : String → List JobAlert → Option JobAlert
with_token token [] = none
with_token token (a ∷ alerts) =
    if str_eq a.unsubscribe_token token then some a else with_token token alerts

-- A blank token finds nothing.
unfoldable pub find_by_token : String → List JobAlert → Option JobAlert
unfolding with_token trim text_eq
find_by_token token alerts =
    if text_eq (trim (codes token)) [] then none else with_token token alerts

-- `none` is the answer 404.
abbrev pub peek_result : Option JobAlert → Option PeekResult
peek_result none = none
peek_result (some a) = some (record { alert_name = a.name; is_active = a.is_active })

unfoldable pub peek : String → List JobAlert → Option PeekResult
unfolding find_by_token
peek token alerts = peek_result (find_by_token token alerts)

abbrev pub switch_off : JobAlert → JobAlert
switch_off a = record a { is_active = false }

abbrev pub unsubscribe_found :
    Option JobAlert → List JobAlert → List JobAlert × Option UnsubscribeResult
unsubscribe_found none alerts = (alerts, none)
unsubscribe_found (some a) alerts =
    if not a.is_active then (alerts, some (record { alert_name = a.name; changed = false })) else (
      update_where (λ b. b.id == a.id) switch_off alerts,
      some (record { alert_name = a.name; changed = true }),
    )

unfoldable pub unsubscribe : String → List JobAlert → List JobAlert × Option UnsubscribeResult
unfolding find_by_token
unsubscribe token alerts = unsubscribe_found (find_by_token token alerts) alerts
