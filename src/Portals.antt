-- ===== src/Portals.antt =====
-- Reading the portals: the requests of the three crawlers under src/modules/crawler, their listings
-- and what `crawl` makes of them. The answer to each request and the clock's waits are explicit.
pub mod Requests
pub mod Listings
pub mod Normal
pub mod Markup
pub mod Dol
pub mod Mdes
pub mod Values
pub mod Ocsc
pub mod Reference
mod Tests
use gov_jobs_backend.Base.{
  Attempt, ok, error, ℕ, zero, suc, ◌+◌, ◌*◌, ◌-◌, ◌^◌, Bool, true, false, Option, none, some, List,
  [], ◌∷◌, ◌++◌, ◌==◌, if◌then◌else◌, Text, codes, trim, print_number,
}

-- What is thrown: `SourceUnavailableError`, `JobValidationError` and any other, with its message.
pub data Fault : Type 0 where
  source_unavailable : Text → Fault
  job_validation : Text → Fault
  unexpected : Text → Fault

-- What `fetch` comes to: it throws, or it answers with `ok`, the status and the body, of which
-- reading may throw too.
pub data FetchResponse : Type 0 where
  no_response : Text → FetchResponse
  response : Bool → ℕ → Attempt Text Text → FetchResponse

-- The requests made so far, and the milliseconds waited between them.
pub record Wire : Type 0 where
  pub made : ℕ
  pub waited : ℕ

abbrev pub max_attempts : ℕ
max_attempts = 3

-- `String(error.message)`.
abbrev pub message : Fault → Text
message (source_unavailable m) = m
message (job_validation m) = m
message (unexpected m) = m

-- `replace(/\/$/, "")`.
unfoldable pub strip_slash : Text → Text
strip_slash [] = []
strip_slash (c ∷ []) = if c == b'/' then [] else c ∷ []
strip_slash (c ∷ d ∷ s) = c ∷ strip_slash (d ∷ s)

module _ (name : Text) where
  abbrev pub returned : ℕ → Text → Fault
  returned status what =
      source_unavailable
        (codes "GET " ++ (name ++ (codes " returned " ++ (print_number status ++ what))))

  abbrev pub non_blank : Text → Text → Fault → Attempt Fault Text
  non_blank [] body blank = error blank
  non_blank (c ∷ s) body blank = ok body

  -- The body of an answer, `blank` being what an empty one throws.
  unfoldable pub read_body : Fault → FetchResponse → Attempt Fault Text
  unfolding print_number trim
  read_body blank (no_response e) = error (unexpected e)
  read_body blank (response false status body) = error (returned status [])
  read_body blank (response true status (error e)) = error (unexpected e)
  read_body blank (response true status (ok body)) = non_blank (trim body) body blank

  -- The body of `fetchText`.
  unfoldable pub read_page : FetchResponse → Attempt Fault Text
  unfolding read_body
  read_page =
      read_body (source_unavailable (codes "GET " ++ (name ++ codes " returned an empty body")))

  -- What the last attempt throws.
  abbrev pub given_up : Fault → Fault
  given_up (source_unavailable m) = source_unavailable m
  given_up (job_validation m) =
      source_unavailable (codes "GET " ++ (name ++ (codes " failed: " ++ m)))
  given_up (unexpected m) = source_unavailable (codes "GET " ++ (name ++ (codes " failed: " ++ m)))

abbrev pub backoff_ms : ℕ → ℕ
backoff_ms attempt = 1000 * 2 ^ (attempt - 1)

-- The answer to the n-th request, by its URL, and the pause before each.
module _ (answer : ℕ → Text → FetchResponse) (pause_ms : ℕ) where
  abbrev pub asked : Wire → Wire
  asked w = record { made = suc w.made; waited = w.waited + pause_ms }

  abbrev pub backed_off : ℕ → Wire → Wire
  backed_off attempt w = record w { waited = w.waited + backoff_ms attempt }

  module _ {ℓ} {A : Type ℓ} (name url : Text) (read : FetchResponse → Attempt Fault A) where
    -- From the attempt on, after which `left` more are allowed.
    unfoldable pub fetch_from : ℕ → ℕ → Wire → Attempt Fault A × Wire
    fetch_from zero attempt w = elim (read (answer w.made url)) [
      | ok body ↦ (ok body, asked w)
      | error e ↦ (error (given_up name e), asked w)
    ]
    fetch_from (suc left) attempt w = elim (read (answer w.made url)) [
      | ok body ↦ (ok body, asked w)
      | error e ↦ fetch_from left (suc attempt) (backed_off attempt (asked w))
    ]

    unfoldable pub fetch : Wire → Attempt Fault A × Wire
    unfolding fetch_from
    fetch = fetch_from (max_attempts - 1) 1

  -- `fetchText` of the two HTML portals.
  unfoldable pub fetch_text : Text → Wire → Attempt Fault Text × Wire
  unfolding fetch read_page
  fetch_text url = fetch url url (read_page url)
