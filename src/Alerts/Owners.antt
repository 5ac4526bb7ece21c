-- ===== src/Alerts/Owners.antt =====
-- That a request to src/modules/job-alerts/job-alerts.service.ts neither reads nor changes the alerts
-- of other users.
use mathlib.Core.Path.{subst}
use gov_jobs_backend.Base.{
  ℕ, ◌≡◌, refl, ap, ◌∙◌, inl, inr, Bool, true, false, not, Bool-cases, some, List, [], ◌∷◌, ◌++◌,
  any, filter, All, ◌==◌, ==_iff, arith,
}
use gov_jobs_backend.Models.{JobAlert}
use gov_jobs_backend.Crawler.{update_where}
use gov_jobs_backend.Alerts.{AlertStore, get_owned, belongs_to}

abbrev pub own : ℕ → List JobAlert → List JobAlert
own user_id = filter (belongs_to user_id)

abbrev pub foreign : ℕ → List JobAlert → List JobAlert
foreign user_id = filter (λ a. not (belongs_to user_id a))

-- The store without the alerts of others.
abbrev pub only_own : ℕ → AlertStore → AlertStore
only_own user_id s = record s { alerts = own user_id s.alerts }

-- The primary key.
abbrev pub UniqueIds : List JobAlert → Type 0
UniqueIds [] = Unit
UniqueIds (a ∷ alerts) = (any (λ b. b.id == a.id) alerts ≡ false) × UniqueIds alerts

-- The rows under an id are the user's.
abbrev pub Owned : ℕ → ℕ → List JobAlert → Type 0
Owned user_id id = All (λ b. b.id == id ≡ true → belongs_to user_id b ≡ true)

absent-Owned :
    (user_id id : ℕ) (alerts : List JobAlert)
    → any (λ b. b.id == id) alerts ≡ false
    → Owned user_id id alerts
absent-Owned user_id id [] h = tt
absent-Owned user_id id (a ∷ alerts) h =
    (λ e. ground arith, absent-Owned user_id id alerts (ground arith))

any_of-get_owned :
    (user_id id : ℕ) (alerts : List JobAlert) (a : JobAlert)
    → get_owned user_id id alerts ≡ some a
    → any (λ b. b.id == id) alerts ≡ true
unfolding get_owned
any_of-get_owned user_id id [] a e = ground arith
any_of-get_owned user_id id (x ∷ alerts) a e = elim (Bool-cases (x.id == id)) [
  | inl hit ↦ rw hit
  | inr miss ↦ rw miss (any_of-get_owned user_id id alerts a (ground arith))
]

pub get_owned-Owned :
    (user_id id : ℕ) (alerts : List JobAlert) (a : JobAlert)
    → UniqueIds alerts
    → get_owned user_id id alerts ≡ some a
    → Owned user_id id alerts
unfolding get_owned
get_owned-Owned user_id id [] a u e = tt
get_owned-Owned user_id id (x ∷ alerts) a (fresh, u) e = elim (Bool-cases (x.id == id)) [
  | inr miss ↦ (λ hit. ground arith, get_owned-Owned user_id id alerts a u (ground arith))
  | inl hit ↦
      let same : x.id ≡ id = (==_iff x.id id).0 hit in
      let fresh' : any (λ b. b.id == id) alerts ≡ false =
        subst (λ i. any (λ b. b.id == i) alerts ≡ false) same fresh in
      elim (Bool-cases (belongs_to user_id x)) [
        | inl mine ↦ (λ h. mine, absent-Owned user_id id alerts fresh')
        | inr foreign_row ↦
            let there = any_of-get_owned user_id id alerts a (ground arith) in ground arith
      ]
]

-- What is looked up stands among the own rows.
pub get_owned-own :
    (user_id id : ℕ) (alerts : List JobAlert)
    → get_owned user_id id (own user_id alerts) ≡ get_owned user_id id alerts
unfolding get_owned
get_owned-own user_id id [] = refl
get_owned-own user_id id (x ∷ alerts) = elim (Bool-cases (belongs_to user_id x)) [
  | inl mine ↦ ground (arith, get_owned-own user_id id alerts)
  | inr foreign_row ↦ ground (arith, get_owned-own user_id id alerts)
]

module _ (user_id id : ℕ) where
  pub own-update :
      (f : JobAlert → JobAlert)
      → ((a : JobAlert) → (f a).user_id ≡ a.user_id)
      → (alerts : List JobAlert)
      → own user_id (update_where (λ b. b.id == id) f alerts)
        ≡ update_where (λ b. b.id == id) f (own user_id alerts)
  unfolding update_where
  own-update f keeps [] = refl
  own-update f keeps (x ∷ alerts) = elim (Bool-cases (x.id == id)) [
    | inl hit ↦ elim (Bool-cases (belongs_to user_id x)) [
      | inl mine ↦
          let mine' : belongs_to user_id (f x) ≡ true = ap (λ i. i == user_id) (keeps x) ∙ mine in
          rw (hit, mine, mine') (rw (hit, own-update f keeps alerts))
      | inr other ↦
          let other' : belongs_to user_id (f x) ≡ false =
            ap (λ i. i == user_id) (keeps x) ∙ other in
          rw (hit, other, other') (own-update f keeps alerts)
    ]
    | inr miss ↦ elim (Bool-cases (belongs_to user_id x)) [
      | inl mine ↦ rw (miss, mine) (rw (miss, own-update f keeps alerts))
      | inr other ↦ rw (miss, other) (own-update f keeps alerts)
    ]
  ]

  pub foreign-update :
      (f : JobAlert → JobAlert)
      → ((a : JobAlert) → (f a).user_id ≡ a.user_id)
      → (alerts : List JobAlert) → Owned user_id id alerts
      → foreign user_id (update_where (λ b. b.id == id) f alerts) ≡ foreign user_id alerts
  unfolding update_where
  foreign-update f keeps [] h = refl
  foreign-update f keeps (x ∷ alerts) (here, later) = elim (Bool-cases (x.id == id)) [
    | inl hit ↦
        let mine = here hit in
        let mine' : belongs_to user_id (f x) ≡ true = ap (λ i. i == user_id) (keeps x) ∙ mine in
        rw (hit, mine, mine') (foreign-update f keeps alerts later)
    | inr miss ↦ ground (arith, foreign-update f keeps alerts later)
  ]

  pub own-delete :
      (alerts : List JobAlert)
      → own user_id (filter (λ b. not (b.id == id)) alerts)
        ≡ filter (λ b. not (b.id == id)) (own user_id alerts)
  own-delete [] = refl
  own-delete (x ∷ alerts) = elim (Bool-cases (x.id == id)) [
    | inl hit ↦ ground (arith, own-delete alerts)
    | inr miss ↦ ground (arith, own-delete alerts)
  ]

  pub foreign-delete :
      (alerts : List JobAlert)
      → Owned user_id id alerts
      → foreign user_id (filter (λ b. not (b.id == id)) alerts) ≡ foreign user_id alerts
  foreign-delete [] h = refl
  foreign-delete (x ∷ alerts) (here, later) = elim (Bool-cases (x.id == id)) [
    | inl hit ↦ let mine = here hit in ground (arith, foreign-delete alerts later)
    | inr miss ↦ ground (arith, foreign-delete alerts later)
  ]

pub filter-append_one :
    (p : JobAlert → Bool) (alerts : List JobAlert) (a : JobAlert)
    → filter p (alerts ++ a ∷ []) ≡ filter p alerts ++ filter p (a ∷ [])
filter-append_one p [] a = refl
filter-append_one p (x ∷ alerts) a = elim (Bool-cases (p x)) [
  | inl e ↦ rw e (ap (◌∷◌ x) (filter-append_one p alerts a))
  | inr e ↦ rw e (filter-append_one p alerts a)
]
