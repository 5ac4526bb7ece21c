-- ===== src/Sending/Again.antt =====
-- What the worker of src/modules/notifications/email-notification.processor.ts leaves when it ends,
-- and what a second delivery of its job does.
use mathlib.Core.Path.{subst}
use gov_jobs_backend.Base.{
  ℕ, ◌≡◌, ◌⊎◌, refl, sym, ap, ◌∙◌, inl, inr, Bool, true, not, Bool-cases, Option, none, some, List,
  [], ◌∷◌, ◌++◌, All, ◌==◌, ==_iff, if◌then◌else◌, String, Text, Attempt, ok, error, arith,
}
use gov_jobs_backend.Models.{Job, JobAlert, JobAlertMatch}
use gov_jobs_backend.Crawler.{update_where}
use gov_jobs_backend.Matching.{is_among}
use gov_jobs_backend.Sessions.Accounts.{EmailLog}
use gov_jobs_backend.Notifications.{EmailJob, is_unnotified, find_alert}
use gov_jobs_backend.Sending.{
  EmailMessage, MailSettings, MailStore, Outside, log_answer, send, pending_ids, marked, mailed,
  mark_sent, send_jobs, jobs_of, send_pending, pending_among, process_alert, process,
}

find_alert-id :
    (id : ℕ) (alerts : List JobAlert) (a : JobAlert) → find_alert id alerts ≡ some a → a.id ≡ id
unfolding find_alert
find_alert-id id [] a e = ground arith
find_alert-id id (x ∷ alerts) a e = elim (Bool-cases (x.id == id)) [
  | inl hit ↦
      let same : x ≡ a = ground arith in
      subst (λ (y : JobAlert). y.id ≡ id) same ((==_iff x.id id).0 hit)
  | inr miss ↦ find_alert-id id alerts a (ground arith)
]

module _ (settings : MailSettings) (outside : Outside) (now : ℕ) where
  -- The mark on the alert is found again.
  find_alert-mailed :
      (id : ℕ) (alerts : List JobAlert) (a : JobAlert)
      → find_alert id alerts ≡ some a
      → find_alert id (update_where (λ b. b.id == id) (mailed settings outside now) alerts)
        ≡ some (mailed settings outside now a)
  unfolding find_alert update_where
  find_alert-mailed id [] a e = ground arith
  find_alert-mailed id (x ∷ alerts) a e = elim (Bool-cases (x.id == id)) [
    | inl hit ↦
        let same : x ≡ a = ground arith in
        rw (hit, hit) (ap (λ y. some (mailed settings outside now y)) same)
    | inr miss ↦ rw (miss, miss) (find_alert-mailed id alerts a (ground arith))
  ]

  -- Where the marking selects all that is pending, nothing is pending afterwards.
  nothing_pending :
      (match_ids : List ℕ) (selected : ℕ → Bool) (rows : List JobAlertMatch)
      → All (λ m. selected m.id ≡ true) (pending_among settings outside now match_ids rows)
      → pending_among settings outside now match_ids
          (update_where (λ m. selected m.id) (marked settings outside now) rows)
        ≡ []
  unfolding update_where
  nothing_pending match_ids selected [] h = refl
  nothing_pending match_ids selected (m ∷ rows) h = elim (Bool-cases (is_among match_ids m.id)) [
    | inr out ↦
        let later = nothing_pending match_ids selected rows (rw out at h) in
        elim (Bool-cases (selected m.id)) [
          | inl sel ↦ rw (sel, out) later
          | inr sel ↦ rw (sel, out) later
        ]
    | inl among ↦ elim (Bool-cases (is_unnotified m)) [
      | inl u ↦
          let (sel, rest) = rw u at rw among at h in
          rw (sel, among) (nothing_pending match_ids selected rows rest)
      | inr u ↦
          let later = nothing_pending match_ids selected rows (rw u at rw among at h) in
          elim (Bool-cases (selected m.id)) [
            | inl sel ↦ rw (sel, among) later
            | inr sel ↦ rw (sel, among) (rw u later)
          ]
    ]
  ]

  among_more :
      (id : ℕ) (ids : List ℕ) (ms : List JobAlertMatch)
      → All (λ m. is_among ids m.id ≡ true) ms
      → All (λ m. is_among (id ∷ ids) m.id ≡ true) ms
  among_more id ids [] h = tt
  among_more id ids (m ∷ ms) (here, later) = (ground (arith, here), among_more id ids ms later)

  each_among :
      (ms : List JobAlertMatch)
      → All (λ m. is_among (pending_ids settings outside now ms) m.id ≡ true) ms
  each_among [] = tt
  each_among (m ∷ ms) =
      (ground arith, among_more m.id (pending_ids settings outside now ms) ms (each_among ms))

  -- What one delivery leaves: a message is accepted or nothing is marked, and an exception marks
  -- nothing; after a delivery that ended without one, another changes nothing and sends nothing.
  pub record Delivered (job : EmailJob) (s : MailStore) (r : MailStore × Attempt Text ℕ)
      : Type 0 where
    pub marked_if_accepted :
        ((message : EmailMessage) × (r.0.accepted ≡ s.accepted ++ message ∷ []))
        ⊎ ((r.0.accepted ≡ s.accepted) × (r.0.matches ≡ s.matches) × (r.0.alerts ≡ s.alerts))
    pub unmarked_if_failed :
        (e : Text)
        → r.1 ≡ error e
        → (r.0.accepted ≡ s.accepted) × (r.0.matches ≡ s.matches) × (r.0.alerts ≡ s.alerts)
    pub again : (n : ℕ) → r.1 ≡ ok n → process settings outside now job r.0 ≡ (r.0, ok 0)

  -- Nothing was to do.
  Delivered-idle :
      (job : EmailJob) (s : MailStore)
      → process settings outside now job s ≡ (s, ok 0)
      → Delivered job s (s, ok 0)
  Delivered-idle job s idle = record {
    marked_if_accepted = inr (refl, refl, refl);
    unmarked_if_failed = λ e h. cc;
    again = λ n h. idle;
  }

  -- After the marking, the job finds its alert and nothing pending.
  process_marked :
      (job : EmailJob) (s : MailStore) (a : JobAlert)
      → a.id ≡ job.job_alert_id
      → a.is_active ≡ true
      → find_alert a.id s.alerts ≡ some (mailed settings outside now a)
      → pending_among settings outside now job.match_ids s.matches ≡ []
      → process settings outside now job s ≡ (s, ok 0)
  unfolding process
  process_marked job s a same on found empty =
      ap (λ i. process_alert settings outside now job (find_alert i s.alerts) s) (sym same)
      ∙ (ap (λ o. process_alert settings outside now job o s) found ∙ rw on (rw empty refl))

  Delivered-answer :
      (job : EmailJob) (s : MailStore) (a : JobAlert) (pending : List JobAlertMatch)
      (jobs : List Job) (id : ℕ) (message : EmailMessage) (logs : List EmailLog) (drawn : ℕ)
      (answer : Attempt Text (Option String))
      → a.id ≡ job.job_alert_id
      → a.is_active ≡ true
      → find_alert a.id s.alerts ≡ some a
      → pending_among settings outside now job.match_ids s.matches ≡ pending
      → Delivered job s (
          mark_sent settings outside now a pending jobs (
            log_answer settings outside now id message answer
              (record s { logs = logs; drawn = drawn })))
  Delivered-answer job s a pending jobs id message logs drawn (error e) same on found is_pending =
      record {
        marked_if_accepted = inr (refl, refl, refl);
        unmarked_if_failed = λ e h. (refl, refl, refl);
        again = λ n h. cc;
      }
  Delivered-answer job s a pending jobs id message logs drawn (ok message_id) same on found
        is_pending =
      record {
        marked_if_accepted = inl (message, refl);
        unmarked_if_failed = λ e h. cc;
        again = λ n h. process_marked job _ a same on (find_alert-mailed a.id s.alerts a found) (
            nothing_pending job.match_ids (is_among (pending_ids settings outside now pending))
              s.matches
              (subst (All (λ m. is_among (pending_ids settings outside now pending) m.id ≡ true))
                (sym is_pending) (each_among pending)));
      }

  Delivered-jobs :
      (job : EmailJob) (s : MailStore) (a : JobAlert) (pending : List JobAlertMatch)
      (jobs : List Job)
      → a.id ≡ job.job_alert_id
      → a.is_active ≡ true
      → find_alert a.id s.alerts ≡ some a
      → pending_among settings outside now job.match_ids s.matches ≡ pending
      → process settings outside now job s
        ≡ send_jobs settings outside now job.kind a pending jobs s
      → Delivered job s (send_jobs settings outside now job.kind a pending jobs s)
  unfolding send
  Delivered-jobs job s a pending [] same on found is_pending runs = Delivered-idle job s runs
  Delivered-jobs job s a pending (j ∷ jobs) same on found is_pending runs =
      Delivered-answer job s a pending (j ∷ jobs) _ _ _ _ _ same on found is_pending

  Delivered-pending :
      (job : EmailJob) (s : MailStore) (a : JobAlert) (pending : List JobAlertMatch)
      → a.id ≡ job.job_alert_id
      → a.is_active ≡ true
      → find_alert a.id s.alerts ≡ some a
      → pending_among settings outside now job.match_ids s.matches ≡ pending
      → process settings outside now job s ≡ send_pending settings outside now job.kind a pending s
      → Delivered job s (send_pending settings outside now job.kind a pending s)
  Delivered-pending job s a [] same on found is_pending runs = Delivered-idle job s runs
  Delivered-pending job s a (m ∷ pending) same on found is_pending runs =
      Delivered-jobs job s a (m ∷ pending) (jobs_of settings outside now (m ∷ pending) s.jobs) same
        on found is_pending runs

  process_found :
      (job : EmailJob) (s : MailStore) (o : Option JobAlert)
      → find_alert job.job_alert_id s.alerts ≡ o
      → process settings outside now job s ≡ process_alert settings outside now job o s
  unfolding process
  process_found job s o e = ap (λ p. process_alert settings outside now job p s) e

  Delivered-alert :
      (job : EmailJob) (s : MailStore) (o : Option JobAlert)
      → find_alert job.job_alert_id s.alerts ≡ o
      → Delivered job s (process_alert settings outside now job o s)
  Delivered-alert job s none e = Delivered-idle job s (process_found job s none e)
  Delivered-alert job s (some a) e =
      let next =
        send_pending settings outside now job.kind a
          (pending_among settings outside now job.match_ids s.matches) s in
      let branch : Bool → MailStore × Attempt Text ℕ = λ b. if not b then (s, ok 0) else next in
      elim (Bool-cases a.is_active) [
        | inr off ↦
            subst (λ b. Delivered job s (branch b)) (sym off)
              (Delivered-idle job s (process_found job s (some a) e ∙ ap branch off))
        | inl on ↦
            let same = find_alert-id job.job_alert_id s.alerts a e in
            subst (λ b. Delivered job s (branch b)) (sym on)
              (Delivered-pending job s a
                (pending_among settings outside now job.match_ids s.matches) same on
                (ap (λ i. find_alert i s.alerts) same ∙ e) refl
                (process_found job s (some a) e ∙ ap branch on))
      ]

  -- Whatever the provider answers to a delivery of a job: matches and alert are marked only in a
  -- delivery whose message it accepted, and an exception leaves both as they were, for the retry;
  -- after a delivery that ended without one, the same job sends nothing and changes nothing.
  pub process-Delivered :
      (job : EmailJob) (s : MailStore) → Delivered job s (process settings outside now job s)
  unfolding process
  process-Delivered job s = Delivered-alert job s (find_alert job.job_alert_id s.alerts) refl
