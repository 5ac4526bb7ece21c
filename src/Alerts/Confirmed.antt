-- ===== src/Alerts/Confirmed.antt =====
-- What the pages of src/modules/job-alerts/unsubscribe.controller.ts show before and after the form
-- is sent.
use gov_jobs_backend.Base.{
  ℕ, ◌≡◌, refl, ap, inl, inr, Bool, true, false, not, ◌||◌, Bool-cases, some, List, [], ◌∷◌, ◌++◌,
  All, ◌==◌, String, Text,
}
use gov_jobs_backend.Models.{JobAlert}
use gov_jobs_backend.Alerts.Links.{find_by_token, peek}
use gov_jobs_backend.Alerts.Owners.{UniqueIds}
use gov_jobs_backend.Alerts.Silenced.{unsubscribe-Switched}
use gov_jobs_backend.Alerts.Pages.{page_of, escape_char, escape_html, confirm, post_unsubscribe}

-- Neither the start nor the end of a tag, nor a quotation mark.
abbrev is_inert : ℕ → Bool
is_inert c = not (c == b'<' || c == b'>' || c == b'"' || c == b'\'')

All-append : (P : ℕ → Type 0) (xs ys : Text) → All P xs → All P ys → All P (xs ++ ys)
All-append P [] ys p q = q
All-append P (x ∷ xs) ys (here, later) q = (here, All-append P xs ys later q)

unescaped-inert :
    (c : ℕ)
    → (c == b'<') ≡ false
    → (c == b'>') ≡ false
    → (c == b'"') ≡ false
    → (c == b'\'') ≡ false
    → All (λ x. is_inert x ≡ true) (c ∷ [])
unescaped-inert c l g q a = (rw (l, g, q, a) refl, tt)

escape_char-inert : (c : ℕ) → All (λ x. is_inert x ≡ true) (escape_char c)
escape_char-inert c = elim (Bool-cases (c == b'&')) [
  | inl e ↦ rw e (refl, (refl, (refl, (refl, (refl, tt)))))
  | inr e ↦ rw e (elim (Bool-cases (c == b'<')) [
    | inl e ↦ rw e (refl, (refl, (refl, (refl, tt))))
    | inr l ↦ rw l (elim (Bool-cases (c == b'>')) [
      | inl e ↦ rw e (refl, (refl, (refl, (refl, tt))))
      | inr g ↦ rw g (elim (Bool-cases (c == b'"')) [
        | inl e ↦ rw e (refl, (refl, (refl, (refl, (refl, (refl, tt))))))
        | inr q ↦ rw q (elim (Bool-cases (c == b'\'')) [
          | inl e ↦ rw e (refl, (refl, (refl, (refl, (refl, tt)))))
          | inr a ↦ rw a (unescaped-inert c l g q a)
        ])
      ])
    ])
  ])
]

-- What is escaped has no markup, in the text of an element as in an attribute.
pub escape_html-inert : (value : Text) → All (λ x. is_inert x ≡ true) (escape_html value)
unfolding escape_html
escape_html-inert [] = tt
escape_html-inert (c ∷ value) =
    All-append _ (escape_char c) (escape_html value) (escape_char-inert c) (escape_html-inert value)

confirm_peeked :
    (token : String) (alerts : List JobAlert) (name : String) (on : Bool)
    → peek token alerts ≡ some (record { alert_name = name; is_active = on })
    → confirm token alerts ≡ some (page_of token (record { alert_name = name; is_active = on }))
unfolding confirm
confirm_peeked token alerts name on e = rw e refl

-- For a token that is some alert's, ids being different: sending the form of its page, whose token
-- is in the body, answers with the alert's name; the page shown afterwards says that the alert is
-- off, and sending the form again changes nothing.
pub post_unsubscribe_confirmed :
    (token : String) (alerts : List JobAlert) (a : JobAlert)
    → UniqueIds alerts
    → find_by_token token alerts ≡ some a
    → (confirm token (post_unsubscribe "" token alerts).0
        ≡ some (page_of token (record { alert_name = a.name; is_active = false })))
      × ((post_unsubscribe "" token (post_unsubscribe "" token alerts).0).0
          ≡ (post_unsubscribe "" token alerts).0)
unfolding post_unsubscribe
post_unsubscribe_confirmed token alerts a u found =
    let done = unsubscribe-Switched token alerts a u found in
    (confirm_peeked token _ a.name false done.peeked, ap (λ p. p.0) done.again)
