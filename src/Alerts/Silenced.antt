-- ===== src/Alerts/Silenced.antt =====
-- What a click on the link of src/modules/job-alerts/unsubscribe.service.ts does, once or twice.
use mathlib.Core.Path.{subst}
use mathlib.Core.Bool.{false≢true}
use gov_jobs_backend.Base.{
  ℕ, ◌≡◌, ◌≢◌, refl, sym, ap, ◌∙◌, inl, inr, Bool, true, false, not, Bool-cases, Option, none, some,
  List, [], ◌∷◌, any, filter, All, ◌==◌, ==_refl, if◌then◌else◌, String, str_eq, Text, codes,
  text_eq, trim, arith,
}
use gov_jobs_backend.Models.{Job, JobAttachment, JobAlert}
use gov_jobs_backend.Crawler.{update_where}
use gov_jobs_backend.Matching.{alert_matches, find_matching_alerts, build_haystack}
use gov_jobs_backend.Matching.Records.{and-eq-true}
use gov_jobs_backend.Alerts.Links.{
  UnsubscribeResult, with_token, find_by_token, peek, switch_off, unsubscribe,
}
use gov_jobs_backend.Alerts.Owners.{UniqueIds}
use gov_jobs_backend.Alerts.Floors.{All-filter_to}

abbrev off_if : (JobAlert → Bool) → JobAlert → JobAlert
off_if p a = if p a then switch_off a else a

abbrev off_found : (JobAlert → Bool) → Option JobAlert → Option JobAlert
off_found p none = none
off_found p (some a) = some (off_if p a)

off_if-token :
    (p : JobAlert → Bool) (a : JobAlert) → (off_if p a).unsubscribe_token ≡ a.unsubscribe_token
off_if-token p a = elim (Bool-cases (p a)) [ inl e ↦ rw e | inr e ↦ rw e ]

with_token-update :
    (p : JobAlert → Bool) (token : String) (alerts : List JobAlert)
    → with_token token (update_where p switch_off alerts) ≡ off_found p (with_token token alerts)
unfolding with_token update_where
with_token-update p token [] = refl
with_token-update p token (x ∷ alerts) = elim (Bool-cases (str_eq x.unsubscribe_token token)) [
  | inl e ↦
      let e' : str_eq (off_if p x).unsubscribe_token token ≡ true =
        ap (λ t. str_eq t token) (off_if-token p x) ∙ e in
      rw (e, e')
  | inr e ↦
      let e' : str_eq (off_if p x).unsubscribe_token token ≡ false =
        ap (λ t. str_eq t token) (off_if-token p x) ∙ e in
      rw (e, e') (with_token-update p token alerts)
]

find_by_token-update :
    (p : JobAlert → Bool) (token : String) (alerts : List JobAlert)
    → find_by_token token (update_where p switch_off alerts)
      ≡ off_found p (find_by_token token alerts)
unfolding find_by_token
find_by_token-update p token alerts = elim (Bool-cases (text_eq (trim (codes token)) [])) [
  | inl blank ↦ rw blank
  | inr word ↦ rw word (with_token-update p token alerts)
]

alert_matches_active :
    (ilike : Text → Text → Bool) (job : Job) (haystack : Text) (a : JobAlert)
    → alert_matches ilike job haystack a ≡ true
    → a.is_active ≡ true
unfolding alert_matches
alert_matches_active ilike job haystack a h = (and-eq-true a.is_active _ h).0

-- The rows under the id are off.
abbrev pub Off : ℕ → List JobAlert → Type 0
Off id = All (λ b. b.id ≡ id → b.is_active ≡ false)

absent-Off :
    (id : ℕ) (alerts : List JobAlert) → any (λ b. b.id == id) alerts ≡ false → Off id alerts
absent-Off id [] h = tt
absent-Off id (a ∷ alerts) h = (λ same. ground arith, absent-Off id alerts (ground arith))

any_of-with_token :
    (token : String) (alerts : List JobAlert) (a : JobAlert)
    → with_token token alerts ≡ some a
    → any (λ b. b.id == a.id) alerts ≡ true
unfolding with_token
any_of-with_token token [] a e = ground arith
any_of-with_token token (x ∷ alerts) a e = elim (Bool-cases (str_eq x.unsubscribe_token token)) [
  | inl hit ↦
      let same : x ≡ a = ground arith in
      subst (λ (y : JobAlert). any (λ b. b.id == y.id) (x ∷ alerts) ≡ true) same
        (rw (==_refl x.id) refl)
  | inr miss ↦ let later = any_of-with_token token alerts a (ground arith) in ground arith
]

with_token-Off :
    (token : String) (alerts : List JobAlert) (a : JobAlert)
    → UniqueIds alerts
    → with_token token alerts ≡ some a
    → a.is_active ≡ false
    → Off a.id alerts
unfolding with_token
with_token-Off token [] a u e off = tt
with_token-Off token (x ∷ alerts) a (fresh, u) e off =
    elim (Bool-cases (str_eq x.unsubscribe_token token)) [
      | inl hit ↦
          let same : x ≡ a = ground arith in
          subst (λ y. Off y.id (x ∷ alerts)) same
            (λ i. ap (λ (y : JobAlert). y.is_active) same ∙ off, absent-Off x.id alerts fresh)
      | inr miss ↦
          let later : with_token token alerts ≡ some a = ground arith in
          let there = any_of-with_token token alerts a later in
          (
            λ same. absurd (
                false≢true
                  (sym (subst (λ i. any (λ b. b.id == i) alerts ≡ false) same fresh) ∙ there)),
            with_token-Off token alerts a u later off,
          )
    ]

find_by_token-with_token :
    (token : String) (alerts : List JobAlert) (a : JobAlert)
    → find_by_token token alerts ≡ some a
    → with_token token alerts ≡ some a
unfolding find_by_token
find_by_token-with_token token alerts a e = ground arith

updated-Off :
    (id : ℕ) (alerts : List JobAlert) → Off id (update_where (λ b. b.id == id) switch_off alerts)
unfolding update_where
updated-Off id [] = tt
updated-Off id (x ∷ alerts) = (
  elim (Bool-cases (x.id == id)) [
    | inl e ↦ rw e (λ same. refl)
    | inr e ↦ rw e (λ same. ground arith)
  ],
  updated-Off id alerts,
)

updated-others :
    (id : ℕ) (alerts : List JobAlert)
    → filter (λ b. not (b.id == id)) (update_where (λ b. b.id == id) switch_off alerts)
      ≡ filter (λ b. not (b.id == id)) alerts
unfolding update_where
updated-others id [] = refl
updated-others id (x ∷ alerts) = ground (arith, updated-others id alerts)

-- What a request with the token of `a` gives and leaves: the alert is off, the page and a second
-- request find it so, and the other alerts are as they were.
pub record Switched (token : String) (a : JobAlert) (alerts : List JobAlert)
    (r : List JobAlert × Option UnsubscribeResult) : Type 0 where
  pub answer : r.1 ≡ some (record { alert_name = a.name; changed = a.is_active })
  pub peeked : peek token r.0 ≡ some (record { alert_name = a.name; is_active = false })
  pub again : unsubscribe token r.0 ≡ (r.0, some (record { alert_name = a.name; changed = false }))
  pub others : filter (λ b. not (b.id == a.id)) r.0 ≡ filter (λ b. not (b.id == a.id)) alerts
  pub off : Off a.id r.0

-- The token of an alert that is off: nothing is written.
unsubscribe_off :
    (token : String) (alerts : List JobAlert) (a : JobAlert)
    → find_by_token token alerts ≡ some a
    → a.is_active ≡ false
    → unsubscribe token alerts ≡ (alerts, some (record { alert_name = a.name; changed = false }))
unfolding unsubscribe
unsubscribe_off token alerts a found off = rw found (rw off)

unsubscribe_on :
    (token : String) (alerts : List JobAlert) (a : JobAlert)
    → find_by_token token alerts ≡ some a
    → a.is_active ≡ true
    → unsubscribe token alerts ≡ (
      update_where (λ b. b.id == a.id) switch_off alerts,
      some (record { alert_name = a.name; changed = true }),
    )
unfolding unsubscribe
unsubscribe_on token alerts a found on = rw found (rw on)

peek_found :
    (token : String) (alerts : List JobAlert) (a : JobAlert)
    → find_by_token token alerts ≡ some a
    → peek token alerts ≡ some (record { alert_name = a.name; is_active = a.is_active })
unfolding peek
peek_found token alerts a found = rw found

pub unsubscribe-Switched :
    (token : String) (alerts : List JobAlert) (a : JobAlert)
    → UniqueIds alerts
    → find_by_token token alerts ≡ some a
    → Switched token a alerts (unsubscribe token alerts)
unsubscribe-Switched token alerts a u found = elim (Bool-cases a.is_active) [
  | inr off ↦
      subst (Switched token a alerts) (sym (unsubscribe_off token alerts a found off)) (record {
        answer = ap (λ b. some (record { alert_name = a.name; changed = b })) (sym off);
        peeked =
            peek_found token alerts a found
            ∙ ap (λ b. some (record { alert_name = a.name; is_active = b })) off;
        again = unsubscribe_off token alerts a found off;
        others = refl;
        off = with_token-Off token alerts a u (find_by_token-with_token token alerts a found) off;
      })
  | inl on ↦
      let p : JobAlert → Bool = λ b. b.id == a.id in
      let next = update_where p switch_off alerts in
      let found' : find_by_token token next ≡ some (switch_off a) =
        find_by_token-update p token alerts
        ∙ (ap (off_found p) found
            ∙ ap (λ b. some (if b then switch_off a else a)) (==_refl a.id)) in
      subst (Switched token a alerts) (sym (unsubscribe_on token alerts a found on)) (record {
        answer = ap (λ b. some (record { alert_name = a.name; changed = b })) (sym on);
        peeked = peek_found token next (switch_off a) found';
        again = unsubscribe_off token next (switch_off a) found' refl;
        others = updated-others a.id alerts;
        off = updated-Off a.id alerts;
      })
]

-- For a token that is some alert's, ids being different: the request answers with the alert's name
-- and whether it was on; it is off afterwards, for the matcher too, which finds it for no
-- announcement; a second request answers without an error that nothing was to do and changes
-- nothing; and every other alert is as it was.
pub unsubscribe_silences :
    (ilike : Text → Text → Bool) (token : String) (alerts : List JobAlert) (a : JobAlert)
    → UniqueIds alerts
    → find_by_token token alerts ≡ some a
    → Switched token a alerts (unsubscribe token alerts)
      × ((job : Job) (attachments : List JobAttachment) (include_documents : Bool)
          → All
              (λ b. b.id ≢ a.id)
              (find_matching_alerts ilike
                (unsubscribe token alerts).0
                job
                attachments
                include_documents))
unfolding find_matching_alerts
unsubscribe_silences ilike token alerts a u found =
    let done = unsubscribe-Switched token alerts a u found in
    (
      done,
      λ job attachments include_documents.
          All-filter_to (λ b. b.id ≡ a.id → b.is_active ≡ false) (λ b. b.id ≢ a.id)
            (alert_matches ilike job (build_haystack job attachments include_documents))
            (unsubscribe token alerts).0
            (λ b off matches same. false≢true (
              sym (off same)
              ∙ alert_matches_active ilike job (build_haystack job attachments include_documents) b
                  matches))
            done.off,
    )
