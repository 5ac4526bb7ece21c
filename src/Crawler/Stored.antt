-- ===== src/Crawler/Stored.antt =====
-- The rows of announcements after one round of `persist`.
use mathlib.Core.Path.{subst}
use mathlib.Core.Bool.{false≢true}
use mathlib.Core.Option
use gov_jobs_backend.Base.{
  ℕ, ◌<◌, ◌≡◌, refl, sym, ap, ◌∙◌, inl, inr, Bool, true, false, ◌||◌, some, List, [], ◌∷◌, Memᴰ,
  any, ◌==◌, if◌then◌else◌, Bool-cases, All, String, str_eq_iff, mem-cases, any_of_mem, arith,
}
use gov_jobs_backend.Models.{JobSource, ocsc, dol, admin_court, doe, mdes, same_source, Job}
use gov_jobs_backend.Crawler.{JobStore, update_where, has_key, find_job}

pub same_source_eq : (a b : JobSource) → same_source a b ≡ true → a ≡ b
same_source_eq a b h = ground arith

pub has_key_eq :
    (source : JobSource) (e : String) (j : Job)
    → has_key source e j ≡ true
    → (j.source ≡ source) × (j.external_id ≡ e)
has_key_eq source e j h = (same_source_eq _ _ (ground arith), (str_eq_iff _ _).0 (ground arith))

pub same_source_refl : (a : JobSource) → same_source a a ≡ true
same_source_refl ocsc = refl
same_source_refl dol = refl
same_source_refl admin_court = refl
same_source_refl doe = refl
same_source_refl mdes = refl

pub has_key_of_eq :
    (source : JobSource) (e : String) (j : Job)
    → j.source ≡ source
    → j.external_id ≡ e
    → has_key source e j ≡ true
has_key_of_eq source e j a b = rw (a, b, same_source_refl source, (str_eq_iff e e).1 refl)

pub find_job-some :
    (source : JobSource) (e : String) (js : List Job) (r : Job)
    → find_job source e js ≡ some r
    → Memᴰ r js × (r.source ≡ source) × (r.external_id ≡ e)
unfolding find_job
find_job-some source e [] r h = cc
find_job-some source e (j ∷ js) r h = elim (Bool-cases (has_key source e j)) [
  | inl hit ↦
      let same : j ≡ r = ground arith in
      let (a, b) = has_key_eq source e j hit in
      (
        Memᴰ.head (sym same),
        ap (λ (k : Job). k.source) (sym same) ∙ a,
        ap (λ (k : Job). k.external_id) (sym same) ∙ b,
      )
  | inr miss ↦ let (m, a, b) = find_job-some source e js r (ground arith) in (Memᴰ.tail m, a, b)
]

pub or-eq-false : (x y : Bool) → x || y ≡ false → (x ≡ false) × (y ≡ false)
or-eq-false x y h = ground arith

==_sym : (a b : ℕ) → (a == b) ≡ true → (b == a) ≡ true
==_sym a b h = ground arith

-- The primary key.
abbrev pub UniqueIds : List Job → Type 0
UniqueIds [] = Unit
UniqueIds (j ∷ js) = (any (λ k. k.id == j.id) js ≡ false) × UniqueIds js

-- The unique constraint on (source, external_id).
abbrev pub UniqueKeys : List Job → Type 0
UniqueKeys [] = Unit
UniqueKeys (j ∷ js) = (any (has_key j.source j.external_id) js ≡ false) × UniqueKeys js

pub record IsJobTable (s : JobStore) : Type 0 where
  pub unique_ids : UniqueIds s.jobs
  pub unique_keys : UniqueKeys s.jobs
  pub below : All (λ j. j.id < s.drawn) s.jobs

untouched :
    (js : List Job) (i : ℕ) (f : Job → Job)
    → any (λ j. j.id == i) js ≡ false
    → update_where (λ j. j.id == i) f js ≡ js
unfolding update_where
untouched [] i f h = refl
untouched (j ∷ js) i f h =
    let (here, later) = or-eq-false (j.id == i) _ h in rw (here, untouched js i f later)

other_id :
    (js : List Job) (j r : Job)
    → any (λ k. k.id == j.id) js ≡ false
    → Memᴰ r js
    → (j.id == r.id) ≡ false
other_id js j r new m = elim (Bool-cases (j.id == r.id)) [
  | inl same ↦
      absurd
        (false≢true (sym new ∙ any_of_mem (λ (k : Job). k.id == j.id) m (==_sym j.id r.id same)))
  | inr other ↦ other
]

pub same_row :
    (js : List Job) (q r : Job)
    → UniqueIds js
    → Memᴰ q js
    → Memᴰ r js
    → (q.id == r.id) ≡ true
    → q ≡ r
same_row [] q r u mq mr e = elim mq [ ]
same_row (j ∷ js) q r (new, u) mq mr e = elim (mem-cases mq) [
  | inl a ↦ elim (mem-cases mr) [
    | inl b ↦ a ∙ sym b
    | inr later ↦ absurd (
        false≢true
          (sym (other_id js j r new later) ∙ subst (λ (x : Job). (x.id == r.id) ≡ true) a e))
  ]
  | inr later ↦ elim (mem-cases mr) [
    | inl b ↦ absurd (
        false≢true (
          sym (other_id js j q new later)
          ∙ ==_sym q.id j.id (subst (λ (x : Job). (q.id == x.id) ≡ true) b e)))
    | inr later' ↦ same_row js q r u later later' e
  ]
]

-- A change of the row found touches no other row.
pub refreshes_one :
    (js : List Job) (r : Job) (f g : Job → Job)
    → UniqueIds js
    → Memᴰ r js
    → f r ≡ g r
    → update_where (λ j. j.id == r.id) f js ≡ update_where (λ j. j.id == r.id) g js
unfolding update_where
refreshes_one [] r f g u m same = elim m [ ]
refreshes_one (j ∷ js) r f g (new, u) m same = elim (mem-cases m) [
  | inl e ↦
      let free : any (λ (k : Job). k.id == r.id) js ≡ false =
        subst (λ (x : Job). any (λ (k : Job). k.id == x.id) js ≡ false) (sym e) new in
      let changed : f j ≡ g j = ap f (sym e) ∙ same ∙ ap g e in
      rw (untouched js r.id f free, untouched js r.id g free, changed)
  | inr later ↦ rw (other_id js j r new later, refreshes_one js r f g u later same)
]

-- A change that keeps the keys keeps the constraints.
module _ (p : Job → Bool) (f : Job → Job) (keeps_id : (j : Job) → (f j).id ≡ j.id)
    (keeps_source : (j : Job) → (f j).source ≡ j.source)
    (keeps_external_id : (j : Job) → (f j).external_id ≡ j.external_id) where
  any-update_where :
      (q : Job → Bool)
      → ((j : Job) → q (f j) ≡ q j)
      → (js : List Job) → any q (update_where p f js) ≡ any q js
  unfolding update_where
  any-update_where q same [] = refl
  any-update_where q same (j ∷ js) = elim (Bool-cases (p j)) [
    | inl e ↦ rw (e, same j, any-update_where q same js)
    | inr e ↦ rw (e, any-update_where q same js)
  ]

  row-id : (j : Job) → (if p j then f j else j).id ≡ j.id
  row-id j = elim (Bool-cases (p j)) [ inl e ↦ rw e (keeps_id j) | inr e ↦ rw e ]

  row-source : (j : Job) → (if p j then f j else j).source ≡ j.source
  row-source j = elim (Bool-cases (p j)) [ inl e ↦ rw e (keeps_source j) | inr e ↦ rw e ]

  row-external_id : (j : Job) → (if p j then f j else j).external_id ≡ j.external_id
  row-external_id j = elim (Bool-cases (p j)) [ inl e ↦ rw e (keeps_external_id j) | inr e ↦ rw e ]

  keeps_has_key :
      (source : JobSource) (e : String) (j : Job) → has_key source e (f j) ≡ has_key source e j
  keeps_has_key source e j = rw (keeps_source j, keeps_external_id j)

  pub update_where-UniqueIds : (js : List Job) → UniqueIds js → UniqueIds (update_where p f js)
  unfolding update_where
  update_where-UniqueIds [] u = tt
  update_where-UniqueIds (j ∷ js) (new, u) = (
    rw (row-id j)
        (any-update_where (λ k. k.id == j.id) (λ k. ap (λ i. i == j.id) (keeps_id k)) js ∙ new),
    update_where-UniqueIds js u,
  )

  pub update_where-UniqueKeys : (js : List Job) → UniqueKeys js → UniqueKeys (update_where p f js)
  unfolding update_where
  update_where-UniqueKeys [] u = tt
  update_where-UniqueKeys (j ∷ js) (new, u) = (
    rw (row-source j, row-external_id j)
        (any-update_where (has_key j.source j.external_id) (keeps_has_key j.source j.external_id) js
          ∙ new),
    update_where-UniqueKeys js u,
  )

  pub update_where-below :
      (n : ℕ) (js : List Job) → All (λ j. j.id < n) js → All (λ j. j.id < n) (update_where p f js)
  unfolding update_where
  update_where-below n [] b = tt
  update_where-below n (j ∷ js) (h, b) = (rw (row-id j) h, update_where-below n js b)

  pub find_job-update_where :
      (source : JobSource) (e : String) (js : List Job)
      → find_job source e (update_where p f js)
        ≡ Option.map (λ j. if p j then f j else j) (find_job source e js)
  unfolding update_where find_job
  find_job-update_where source e [] = refl
  find_job-update_where source e (j ∷ js) = elim (Bool-cases (has_key source e j)) [
    | inl hit ↦ rw (row-source j, row-external_id j) (rw hit)
    | inr miss ↦ rw (row-source j, row-external_id j) (rw (miss, find_job-update_where source e js))
  ]
