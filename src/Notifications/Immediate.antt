-- ===== src/Notifications/Immediate.antt =====
-- What `dispatchImmediate` of src/modules/notifications/notification-dispatch.service.ts queues.
use gov_jobs_backend.Base.{ℕ, ◌≡◌, List, [], ◌∷◌, map, length, All, Text}
use gov_jobs_backend.Models.{JobAlertMatch}
use gov_jobs_backend.Matching.{Listings}
use gov_jobs_backend.Notifications.{EmailJob, Group, members, announcement_key, immediate_email}
use gov_jobs_backend.Notifications.Chosen.{IsDueNow, Chosen}
use gov_jobs_backend.Notifications.Groups.{occurrences, match_ids_of, held}

-- UUIDs are 36 characters, different for different rows.
pub record IsUuidText (uuid_text : ℕ → Text) : Type 0 where
  pub long : (n : ℕ) → length (uuid_text n) ≡ 36
  pub different : (m n : ℕ) → uuid_text m ≡ uuid_text n → m ≡ n

module _ (uuid_text : ℕ → Text) (sha256_hex : Text → Text) (uuids : IsUuidText uuid_text)
    (db : Listings) where
  -- Two matches of one alert and one announcement.
  abbrev pub SameNews : JobAlertMatch → JobAlertMatch → Type 0
  SameNews m n =
      (m.job_alert_id ≡ n.job_alert_id)
      × (announcement_key uuid_text sha256_hex db m ≡ announcement_key uuid_text sha256_hex db n)

  -- The emails are about different news.
  abbrev pub Apart : List Group → Type 0
  Apart [] = Unit
  Apart (g ∷ groups) = All (λ h. SameNews g.first h.first → ⊥) groups × Apart groups

  abbrev Uniform : Group → Type 0
  Uniform g = All (λ m. SameNews m g.first) (members g)

  -- The emails `r` for the matches that were asked for.
  pub record Mailed (match_ids : List ℕ) (matches : List JobAlertMatch) (r : List EmailJob × ℕ)
      : Type 0 where
    pub due : List JobAlertMatch
    pub chosen : Chosen (IsDueNow db match_ids) matches due
    pub groups : List Group
    pub emails : r.0 ≡ map (immediate_email uuid_text sha256_hex) groups
    pub count : r.1 ≡ length groups
    pub once : (x : ℕ) → occurrences x (held groups) ≡ occurrences x (match_ids_of due)
    pub uniform : All Uniform groups
    pub apart : Apart groups
