-- ===== src/Portals/Requests.antt =====
-- The retries of `fetchText` and `fetchJson`.
use mathlib.Core.Path.{subst}
use gov_jobs_backend.Base.{
  Attempt, ok, error, Attempt-cases, ℕ, zero, suc, ◌+◌, ◌*◌, ◌≤◌, ◌<◌, ◌≡◌, inl, inr, Text, arith,
}
use gov_jobs_backend.Portals.{
  Fault, source_unavailable, job_validation, unexpected, FetchResponse, Wire, given_up, asked,
  backed_off, fetch_from, fetch,
}

abbrev pub HasFailed {ℓ} : {A : Type ℓ} → Attempt Fault A → Type ℓ
HasFailed x = (e : Fault) × (x ≡ error e)

-- Of the attempts `good first`, `good (first + 1)`, …, of which `limit` are allowed: all before the
-- last one made failed, and the result is what that one gave, or that the source is unavailable.
pub data Outcome {ℓ} {A : Type ℓ} (good : ℕ → Attempt Fault A) (first limit : ℕ)
    : Attempt Fault A → ℕ → Type ℓ where
  answered :
      (k : ℕ) (a : A)
      → k < limit
      → ((j : ℕ) → j < k → HasFailed (good (first + j)))
      → good (first + k) ≡ ok a
      → Outcome good first limit (ok a) (first + suc k)
  refused :
      (m : Text)
      → ((j : ℕ) → j < limit → HasFailed (good (first + j)))
      → Outcome good first limit (error (source_unavailable m)) (first + limit)

module _ {ℓ} {A : Type ℓ} (good : ℕ → Attempt Fault A) where
  one_failed : (first : ℕ) → HasFailed (good first) → (j : ℕ) → j < 1 → HasFailed (good (first + j))
  one_failed first h zero q = subst (λ n. HasFailed (good n)) (omega arith) h
  one_failed first h (suc j) q = absurd (omega arith)

  one_more_failed :
      (first k : ℕ)
      → HasFailed (good first)
      → ((j : ℕ) → j < k → HasFailed (good (suc first + j)))
      → (j : ℕ) → j < suc k
      → HasFailed (good (first + j))
  one_more_failed first k h later zero q = subst (λ n. HasFailed (good n)) (omega arith) h
  one_more_failed first k h later (suc j) q =
      subst (λ n. HasFailed (good n)) (omega arith) (later j (omega arith))

  refused_now :
      (name : Text) (first : ℕ) (e : Fault)
      → good first ≡ error e
      → Outcome good first 1 (error (given_up name e)) (suc first)
  refused_now name first e h =
      let at_last = λ (m : Text).
        subst (Outcome good first 1 (error (source_unavailable m))) (omega arith)
          (refused m (one_failed first (e, h))) in
      elim e as (λ e. Outcome good first 1 (error (given_up name e)) (suc first)) [
        | source_unavailable m ↦ at_last m
        | job_validation m ↦ at_last _
        | unexpected m ↦ at_last _
      ]

  answered_now :
      (first limit : ℕ) (a : A)
      → good first ≡ ok a
      → 0 < limit
      → Outcome good first limit (ok a) (suc first)
  answered_now first limit a h q =
      subst (Outcome good first limit (ok a)) (omega arith)
        (answered 0 a q (λ j r. absurd (omega arith)) (subst (λ n. good n ≡ ok a) (omega arith) h))

  later_result :
      (first limit : ℕ) (e : Fault) (r : Attempt Fault A) (n : ℕ)
      → good first ≡ error e
      → Outcome good (suc first) limit r n
      → Outcome good first (suc limit) r n
  later_result first limit e _ _ h (answered k a q before last) =
      subst (Outcome good first (suc limit) (ok a)) (omega arith) (
        answered (suc k) a (omega arith) (one_more_failed first k (e, h) before)
          (subst (λ n. good n ≡ ok a) (omega arith) last))
  later_result first limit e _ _ h (refused m before) =
      subst (Outcome good first (suc limit) (error (source_unavailable m))) (omega arith)
        (refused m (one_more_failed first limit (e, h) before))

module _ {ℓ} {A : Type ℓ} (answer : ℕ → Text → FetchResponse) (pause_ms : ℕ) (name url : Text)
    (read : FetchResponse → Attempt Fault A) where
  abbrev pub good : ℕ → Attempt Fault A
  good n = read (answer n url)

  pub fetch_from-Outcome :
      (left attempt : ℕ) (w : Wire)
      → let (r, w') = fetch_from answer pause_ms name url read left attempt w in
        Outcome good w.made (suc left) r w'.made
  unfolding fetch_from
  fetch_from-Outcome zero attempt w = elim (Attempt-cases (good w.made)) [
    | inl (a, h) ↦ rw (h, fetch_from) (answered_now good w.made 1 a h (omega arith))
    | inr (e, h) ↦ rw (h, fetch_from) (refused_now good name w.made e h)
  ]
  fetch_from-Outcome (suc left) attempt w = elim (Attempt-cases (good w.made)) [
    | inl (a, h) ↦ rw (h, fetch_from) (answered_now good w.made (suc (suc left)) a h (omega arith))
    | inr (e, h) ↦
        rw (h, fetch_from)
          (later_result good w.made (suc left) e _ _ h (
            fetch_from-Outcome left (suc attempt)
              (backed_off answer pause_ms attempt (asked answer pause_ms w))))
  ]

  -- A fetch makes at most three requests: it gives what the first good answer gives, or that the
  -- source is unavailable after three answers that were no good.
  pub fetch-Outcome :
      (w : Wire)
      → let (r, w') = fetch answer pause_ms name url read w in Outcome good w.made 3 r w'.made
  unfolding fetch
  fetch-Outcome w = fetch_from-Outcome 2 1 w

  -- Two failures are waited for, one second and then two, besides the pauses.
  pub fetch_waits :
      (w : Wire)
      → let (r, w') = fetch answer pause_ms name url read w in
        w'.waited ≤ w.waited + 3 * pause_ms + 3000
  unfolding fetch fetch_from
  fetch_waits w =
      let n : ℕ = w.made in
      elim (Attempt-cases (good n)) [
        | inl (a, h) ↦ rw (h, fetch_from) (omega arith)
        | inr (e, h) ↦
            rw (h, fetch_from)
              (elim (Attempt-cases (good (suc n))) [
                | inl (a, h') ↦ rw (h', fetch_from) (omega arith)
                | inr (e', h') ↦
                    rw (h', fetch_from)
                      (elim (Attempt-cases (good (suc (suc n)))) [
                        | inl (a, h'') ↦ rw (h'', fetch_from) (omega arith)
                        | inr (e'', h'') ↦ rw (h'', fetch_from) (omega arith)
                      ])
              ])
      ]
