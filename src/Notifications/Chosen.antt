-- ===== src/Notifications/Chosen.antt =====
-- Which matches `dispatchImmediate` of src/modules/notifications/notification-dispatch.service.ts
-- is about, said of each match by itself.
use gov_jobs_backend.Base.{
  ℕ, ◌≡◌, ◌↔◌, Option-cases, refl, sym, ap, ◌∙◌, inl, inr, true, ◌&&◌, Bool, Bool-cases, Option,
  none, some, List, [], ◌∷◌, filter, ◌==◌, ==_iff, Memᴰ, mem_of_any, any_of_mem, Text,
}
use mathlib.Core.Bool.{false≢true}
use mathlib.Core.Path.{subst}
use gov_jobs_backend.Models.{JobAlert, JobAlertMatch, AlertFrequency, immediate, daily, weekly}
use gov_jobs_backend.Matching.{Listings, is_among}
use gov_jobs_backend.Matching.Records.{and-eq-true}
use gov_jobs_backend.Notifications.{
  is_unnotified, same_frequency, is_due, find_alert, immediate_matches,
}

-- The match was asked for, was not notified, and its alert is active and IMMEDIATE.
abbrev pub IsDueNow : Listings → List ℕ → JobAlertMatch → Type 0
IsDueNow db match_ids m =
    Memᴰ m.id match_ids
    × (m.notified_at ≡ none)
    × ((a : JobAlert) × (find_alert m.job_alert_id db.alerts ≡ some a)
        × (a.is_active ≡ true)
        × (a.frequency ≡ immediate))

-- The second list has those of the first for which `P` holds, in order and each as often.
pub data Chosen (P : JobAlertMatch → Type 0)
    : List JobAlertMatch → List JobAlertMatch → Type 0 where
  no_more : Chosen P [] []
  taken :
      {ms ns : List JobAlertMatch}
      → (m : JobAlertMatch) → P m
      → Chosen P ms ns
      → Chosen P (m ∷ ms) (m ∷ ns)
  left_out :
      {ms ns : List JobAlertMatch}
      → (m : JobAlertMatch) → (P m → ⊥)
      → Chosen P ms ns
      → Chosen P (m ∷ ms) ns

unnotified_iff : (m : JobAlertMatch) → (is_unnotified m ≡ true) ↔ (m.notified_at ≡ none)
unnotified_iff m = elim (Option-cases m.notified_at) [
  | inl e ↦ rw e (λ h. refl, λ h. refl)
  | inr (at, e) ↦ rw e (λ h. absurd (false≢true h), λ h. cc)
]

same_frequency_iff : (f : AlertFrequency) → (same_frequency f immediate ≡ true) ↔ (f ≡ immediate)
same_frequency_iff immediate = (λ h. refl, λ h. refl)
same_frequency_iff daily = (λ h. absurd (false≢true h), λ h. cc)
same_frequency_iff weekly = (λ h. absurd (false≢true h), λ h. cc)

due_of_alert :
    (o : Option JobAlert)
    → (is_due immediate o ≡ true)
      ↔ ((a : JobAlert) × (o ≡ some a) × (a.is_active ≡ true) × (a.frequency ≡ immediate))
due_of_alert none = (λ h. absurd (false≢true h), λ (a, e, on, f). cc)
due_of_alert (some a) = (
  λ h.
      let (on, f) = and-eq-true a.is_active _ h in
      (a, refl, on, (same_frequency_iff a.frequency).0 f),
  λ (b, e, on, f). let same : a ≡ b = cc in rw (same, on, f) refl,
)

among_iff : (ids : List ℕ) (id : ℕ) → (is_among ids id ≡ true) ↔ Memᴰ id ids
among_iff ids id = (
  λ h.
      let (x, m, e) = mem_of_any (◌==◌ id) ids h in
      subst (λ y. Memᴰ y ids) (sym ((==_iff id x).0 e)) m,
  λ m. any_of_mem (◌==◌ id) m ((==_iff id id).1 refl),
)

module _ (db : Listings) (match_ids : List ℕ) where
  -- The code's test of one match.
  abbrev pub passes : JobAlertMatch → Bool
  passes m =
      (is_among match_ids m.id && is_unnotified m)
      && is_due immediate (find_alert m.job_alert_id db.alerts)

  passes_iff : (m : JobAlertMatch) → (passes m ≡ true) ↔ IsDueNow db match_ids m
  passes_iff m = (
    λ h.
        let (first, due) = and-eq-true (is_among match_ids m.id && is_unnotified m) _ h in
        let (asked, fresh) = and-eq-true (is_among match_ids m.id) _ first in
        (
          (among_iff match_ids m.id).0 asked,
          (unnotified_iff m).0 fresh,
          (due_of_alert (find_alert m.job_alert_id db.alerts)).0 due,
        ),
    λ (asked, fresh, due).
        rw
          (
            (among_iff match_ids m.id).1 asked,
            (unnotified_iff m).1 fresh,
            (due_of_alert (find_alert m.job_alert_id db.alerts)).1 due,
          )
          refl,
  )

  filter-Chosen : (ms : List JobAlertMatch) → Chosen (IsDueNow db match_ids) ms (filter passes ms)
  filter-Chosen [] = no_more
  filter-Chosen (m ∷ ms) = elim (Bool-cases (passes m)) [
    | inl e ↦ rw e (taken m ((passes_iff m).0 e) (filter-Chosen ms))
    | inr e ↦
        rw e (
          left_out m (λ due. absurd (false≢true (sym e ∙ (passes_iff m).1 due))) (filter-Chosen ms))
  ]

  filter_twice :
      (p q : JobAlertMatch → Bool) (ms : List JobAlertMatch)
      → filter q (filter p ms) ≡ filter (λ m. p m && q m) ms
  filter_twice p q [] = refl
  filter_twice p q (m ∷ ms) = elim (Bool-cases (p m)) [
    | inl e ↦ elim (Bool-cases (q m)) [
      | inl f ↦ rw (e, f) (ap (◌∷◌ m) (filter_twice p q ms))
      | inr f ↦ rw (e, f) (filter_twice p q ms)
    ]
    | inr e ↦ rw e (filter_twice p q ms)
  ]

  -- The two filters of the code leave exactly the matches that are due.
  pub immediate_matches-Chosen :
      (uuid_text : ℕ → Text) (sha256_hex : Text → Text) (ms : List JobAlertMatch)
      → Chosen (IsDueNow db match_ids) ms (immediate_matches uuid_text sha256_hex db match_ids ms)
  unfolding immediate_matches
  immediate_matches-Chosen uuid_text sha256_hex ms =
      subst (Chosen (IsDueNow db match_ids) ms) (sym (filter_twice _ _ ms)) (filter-Chosen ms)
