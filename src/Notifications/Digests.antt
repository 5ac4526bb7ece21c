-- ===== src/Notifications/Digests.antt =====
-- What `dispatchDigests` of src/modules/notifications/notification-dispatch.service.ts queues.
use mathlib.Core.Path.{subst}
use gov_jobs_backend.Base.{
  ℕ, ◌+◌, ◌≡◌, ◌≢◌, refl, sym, ap, inl, inr, Bool, true, false, ◌&&◌, Bool-cases, none, some, List,
  [], ◌∷◌, ◌++◌, any, filter, length, All, ◌==◌, ==_iff, if◌then◌else◌, Text, arith,
}
use gov_jobs_backend.Models.{JobAlert, JobAlertMatch, AlertFrequency, immediate, daily, weekly}
use gov_jobs_backend.Dates.Calendar.{local_date_string, iso_week_key}
use gov_jobs_backend.Alerts.Owners.{UniqueIds}
use gov_jobs_backend.Notifications.{
  EmailJob, is_unnotified, is_due, find_alert, pending_of, digest_row, digests_of, dispatch_digests,
}
use gov_jobs_backend.Notifications.Groups.{occurrences, occurrences-append, match_ids_of}

-- What is to be sent at the frequency.
abbrev pub due_matches : AlertFrequency → List JobAlert → List JobAlertMatch → List JobAlertMatch
due_matches frequency alerts =
    filter (λ m. is_unnotified m && is_due frequency (find_alert m.job_alert_id alerts))

abbrev pub sent_ids : List EmailJob → List ℕ
sent_ids [] = []
sent_ids (e ∷ jobs) = e.match_ids ++ sent_ids jobs

find_alert_absent :
    (id : ℕ) (alerts : List JobAlert)
    → any (λ b. b.id == id) alerts ≡ false
    → find_alert id alerts ≡ none
unfolding find_alert
find_alert_absent id [] h = refl
find_alert_absent id (a ∷ alerts) h = ground (arith, find_alert_absent id alerts)

module _ (uuid_text : ℕ → Text) (sha256_hex : Text → Text) where
  abbrev pendings : ℕ → List JobAlertMatch → List JobAlertMatch
  pendings = pending_of uuid_text sha256_hex

  -- The matches of one alert, beside those of the others.
  due_matches-cons :
      (x : ℕ) (frequency : AlertFrequency) (a : JobAlert) (alerts : List JobAlert)
      (matches : List JobAlertMatch)
      → any (λ b. b.id == a.id) alerts ≡ false
      → occurrences x (match_ids_of (due_matches frequency (a ∷ alerts) matches))
        ≡ occurrences x
            (match_ids_of (if is_due frequency (some a) then pendings a.id matches else []))
          + occurrences x (match_ids_of (due_matches frequency alerts matches))
  unfolding find_alert pending_of
  due_matches-cons x frequency a alerts [] fresh = elim (Bool-cases (is_due frequency (some a))) [
    | inl e ↦ rw e refl
    | inr e ↦ rw e refl
  ]
  due_matches-cons x frequency a alerts (m ∷ matches) fresh =
      let later = due_matches-cons x frequency a alerts matches fresh in
      elim (Bool-cases (a.id == m.job_alert_id)) [
        | inl mine ↦
            let same = (==_iff a.id m.job_alert_id).0 mine in
            let absent : find_alert m.job_alert_id alerts ≡ none =
              find_alert_absent m.job_alert_id alerts
                (subst (λ i. any (λ b. b.id == i) alerts ≡ false) same fresh) in
            let mine' : m.job_alert_id == a.id ≡ true = (==_iff m.job_alert_id a.id).1 (sym same) in
            elim (Bool-cases (is_due frequency (some a))) [
              | inl due ↦ elim (Bool-cases (is_unnotified m)) [
                | inl u ↦ rw (mine, mine', absent, due, u) (omega (arith, rw due at later))
                | inr u ↦ rw (mine, mine', absent, due, u) (rw due at later)
              ]
              | inr due ↦ elim (Bool-cases (is_unnotified m)) [
                | inl u ↦ rw (mine, absent, due, u) (rw due at later)
                | inr u ↦ rw (mine, absent, due, u) (rw due at later)
              ]
            ]
        | inr other ↦
            let other' : m.job_alert_id == a.id ≡ false = ground (arith, other) in
            elim (Bool-cases (is_due frequency (some a))) [
              | inl due ↦
                  elim (Bool-cases
                    (is_unnotified m && is_due frequency (find_alert m.job_alert_id alerts))) [
                      | inl r ↦ rw (other, other', due, r) (omega (arith, rw due at later))
                      | inr r ↦ rw (other, other', due, r) (rw due at later)
                    ]
              | inr due ↦
                  elim (Bool-cases
                    (is_unnotified m && is_due frequency (find_alert m.job_alert_id alerts))) [
                      | inl r ↦ rw (other, due, r) (omega (arith, rw due at later))
                      | inr r ↦ rw (other, due, r) (rw due at later)
                    ]
            ]
      ]

  -- Some digest is for the alert.
  abbrev pub is_for : ℕ → List EmailJob → Bool
  is_for id digests = any (λ e. e.job_alert_id == id) digests

  -- No two digests are for one alert.
  abbrev pub OnePerAlert : List EmailJob → Type 0
  OnePerAlert [] = Unit
  OnePerAlert (e ∷ digests) = (is_for e.job_alert_id digests ≡ false) × OnePerAlert digests

  -- A digest holds all that is pending for its alert, and that is something.
  abbrev pub Whole : List JobAlertMatch → EmailJob → Type 0
  Whole matches e =
      (e.match_ids ≡ match_ids_of (pendings e.job_alert_id matches)) × (e.match_ids ≢ [])

  pub record Digested (frequency : AlertFrequency) (alerts : List JobAlert)
      (matches : List JobAlertMatch) (digests : List EmailJob) : Type 0 where
    pub once :
        (x : ℕ)
        → occurrences x (sent_ids digests)
          ≡ occurrences x (match_ids_of (due_matches frequency alerts matches))
    pub one_per_alert : OnePerAlert digests
    pub whole : All (Whole matches) digests

  is_for-digest_row :
      (id : ℕ) (a : JobAlert) (period_key : Text) (ms : List JobAlertMatch)
      (digests : List EmailJob)
      → a.id == id ≡ false
      → is_for id digests ≡ false
      → is_for id (digest_row uuid_text sha256_hex a period_key ms ++ digests) ≡ false
  is_for-digest_row id a period_key [] digests other h = h
  is_for-digest_row id a period_key (m ∷ ms) digests other h = rw (other, h) refl

  nothing_due :
      (frequency : AlertFrequency) (matches : List JobAlertMatch)
      → match_ids_of (due_matches frequency [] matches) ≡ []
  unfolding find_alert
  nothing_due frequency [] = refl
  nothing_due frequency (m ∷ matches) = elim (Bool-cases (is_unnotified m)) [
    | inl e ↦ rw e (nothing_due frequency matches)
    | inr e ↦ rw e (nothing_due frequency matches)
  ]

  is_for-digests_of :
      (id : ℕ) (frequency : AlertFrequency) (period_key : Text) (alerts : List JobAlert)
      (matches : List JobAlertMatch)
      → any (λ b. b.id == id) alerts ≡ false
      → is_for id (digests_of uuid_text sha256_hex frequency period_key alerts matches) ≡ false
  unfolding digests_of
  is_for-digests_of id frequency period_key [] matches fresh = refl
  is_for-digests_of id frequency period_key (a ∷ alerts) matches fresh =
      let later =
        is_for-digests_of id frequency period_key alerts matches (ground (arith, fresh)) in
      elim (Bool-cases (is_due frequency (some a))) [
        | inl due ↦ rw due (
            is_for-digest_row id a period_key (pendings a.id matches)
              (digests_of uuid_text sha256_hex frequency period_key alerts matches)
              (ground (arith, fresh)) later)
        | inr due ↦ rw due later
      ]

  -- The digest of one alert before those of the others.
  Digested-cons :
      (frequency : AlertFrequency) (a : JobAlert) (alerts : List JobAlert)
      (matches : List JobAlertMatch) (period_key : Text) (ms : List JobAlertMatch)
      (digests : List EmailJob)
      → pendings a.id matches ≡ ms
      → is_for a.id digests ≡ false
      → ((x : ℕ)
          → occurrences x (match_ids_of (due_matches frequency (a ∷ alerts) matches))
            ≡ occurrences x (match_ids_of ms)
              + occurrences x (match_ids_of (due_matches frequency alerts matches)))
      → Digested frequency alerts matches digests
      → Digested frequency
          (a ∷ alerts)
          matches
          (digest_row uuid_text sha256_hex a period_key ms ++ digests)
  Digested-cons frequency a alerts matches period_key [] digests same fresh split later = record {
    once = λ x. omega (arith, later.once x, split x);
    one_per_alert = later.one_per_alert;
    whole = later.whole;
  }
  Digested-cons frequency a alerts matches period_key (m ∷ ms) digests same fresh split later =
      record {
        once = λ x. omega (
          arith,
          later.once x,
          split x,
          occurrences-append x (match_ids_of ms) (sent_ids digests),
        );
        one_per_alert = (fresh, later.one_per_alert);
        whole = ((ap match_ids_of (sym same), λ e. cc), later.whole);
      }

  digests_of-Digested :
      (frequency : AlertFrequency) (period_key : Text) (alerts : List JobAlert)
      (matches : List JobAlertMatch)
      → UniqueIds alerts
      → Digested frequency alerts matches
          (digests_of uuid_text sha256_hex frequency period_key alerts matches)
  unfolding digests_of
  digests_of-Digested frequency period_key [] matches u = record {
    once = λ x. ap (occurrences x) (sym (nothing_due frequency matches));
    one_per_alert = tt;
    whole = tt;
  }
  digests_of-Digested frequency period_key (a ∷ alerts) matches (fresh, u) =
      let later = digests_of-Digested frequency period_key alerts matches u in
      let rest = digests_of uuid_text sha256_hex frequency period_key alerts matches in
      let new = is_for-digests_of a.id frequency period_key alerts matches fresh in
      let split = λ (x : ℕ). due_matches-cons x frequency a alerts matches fresh in
      elim (Bool-cases (is_due frequency (some a))) [
        | inl due ↦ rw due (
            Digested-cons frequency a alerts matches period_key (pendings a.id matches) rest refl
              new (λ x. rw due at split x) later)
        | inr due ↦ rw due (record {
          once = λ x. omega (arith, later.once x, rw due at split x);
          one_per_alert = later.one_per_alert;
          whole = later.whole;
        })
      ]

  -- For alerts with different ids: of the matches, those that were not notified and whose alert is
  -- active and has the frequency stand in the digests, each exactly once; an alert has at most one
  -- digest, which is not empty and holds all that is pending for it; the digests are counted, and
  -- there is none for IMMEDIATE.
  pub dispatch_digests-Digested :
      (frequency : AlertFrequency) (now : ℕ) (alerts : List JobAlert) (matches : List JobAlertMatch)
      → UniqueIds alerts
      → let r = dispatch_digests uuid_text sha256_hex frequency now alerts matches in
        (frequency ≢ immediate → Digested frequency alerts matches r.0)
        × (frequency ≡ immediate → r.0 ≡ [])
        × (r.1 ≡ length r.0)
  unfolding dispatch_digests
  dispatch_digests-Digested immediate now alerts matches u = (λ h. absurd (h refl), λ e. refl, refl)
  dispatch_digests-Digested daily now alerts matches u =
      (λ h. digests_of-Digested daily (local_date_string now) alerts matches u, λ e. cc, refl)
  dispatch_digests-Digested weekly now alerts matches u =
      (λ h. digests_of-Digested weekly (iso_week_key now) alerts matches u, λ e. cc, refl)
