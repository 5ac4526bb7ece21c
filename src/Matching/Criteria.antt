-- ===== src/Matching/Criteria.antt =====
-- Which alerts an announcement satisfies, said without the query.
use mathlib.Core.Path.{subst}
use mathlib.Core.Bool.{false≢true}
use gov_jobs_backend.Base.{
  ℕ, ◌≤◌, ◌≡◌, refl, sym, ap, ◌∙◌, ◌↔◌, ◌⊎◌, inl, inr, Bool, true, false, ◌&&◌, ◌||◌, Option, none,
  some, List, [], ◌∷◌, map, Memᴰ, any, leb, ◌==◌, ==_iff, ==_refl, leb_iff, Text, includes,
  any_of_mem, mem-cases, mem_of_any, mem-filter, mem_of_filter,
}
use gov_jobs_backend.Models.{Job, JobAttachment, JobAlert}
use gov_jobs_backend.Matching.{
  overlap, is_nil, accepts_type, keyword_hits, alert_matches, find_matching_alerts, build_haystack,
}
use gov_jobs_backend.Matching.Like.{IsLike, keyword_hits_lem}

-- An item that both lists hold.
abbrev pub Common : List ℕ → List ℕ → Type 0
Common xs ys = (x : ℕ) × Memᴰ x xs × Memᴰ x ys

-- OR within a criterion, AND across them; an empty criterion asks for nothing. `fold` is the case
-- folding of ILIKE.
pub record Satisfies (fold : ℕ → ℕ) (job : Job) (haystack : Text) (alert : JobAlert) : Type 0 where
  pub active : alert.is_active ≡ true
  pub discovered_since : alert.match_from ≤ job.first_seen_at
  pub keyword :
      (alert.keywords ≡ [])
      ⊎ ((k : Text) × Memᴰ k alert.keywords × (includes (map fold k) (map fold haystack) ≡ true))
  pub job_type :
      (alert.job_types ≡ [])
      ⊎ ((job.content.job_type_id ≡ none)
          ⊎ ((t : ℕ) × (job.content.job_type_id ≡ some t) × Memᴰ t alert.job_types))
  pub education : (alert.educations ≡ []) ⊎ Common alert.educations job.content.education_level_ids
  pub province :
      (alert.provinces ≡ [])
      ⊎ ((job.content.province_ids ≡ []) ⊎ Common alert.provinces job.content.province_ids)

is_nil_iff : {A : Type 0} (xs : List A) → (is_nil xs ≡ true) ↔ (xs ≡ [])
is_nil_iff [] = (λ p. refl, λ p. refl)
is_nil_iff (x ∷ xs) = (λ p. cc, λ p. cc)

or_iff : {P Q : Type 0} (a b : Bool) → (a ≡ true) ↔ P → (b ≡ true) ↔ Q → (a || b ≡ true) ↔ (P ⊎ Q)
or_iff true b p q = (λ h. inl (p.0 refl), λ h. refl)
or_iff false b p q =
    (λ h. inr (q.0 h), λ h. elim h [ inl x ↦ absurd (false≢true (p.1 x)) | inr y ↦ q.1 y ])

overlap_iff : (xs ys : List ℕ) → (overlap xs ys ≡ true) ↔ Common xs ys
unfolding overlap
overlap_iff xs ys = (
  λ h.
      let (x, in_xs, hit) = mem_of_any (λ x. any (◌==◌ x) ys) xs h in
      let (y, in_ys, same) = mem_of_any (◌==◌ x) ys hit in
      (x, in_xs, subst (λ z. Memᴰ z ys) (sym ((==_iff x y).0 same)) in_ys),
  λ (x, in_xs, in_ys).
      any_of_mem (λ z. any (◌==◌ z) ys) in_xs (any_of_mem (◌==◌ x) in_ys (==_refl x)),
)

and_iff : {P Q : Type 0} (a b : Bool) → (a ≡ true) ↔ P → (b ≡ true) ↔ Q → (a && b ≡ true) ↔ (P × Q)
and_iff true b p q = (λ h. (p.0 refl, q.0 h), λ (x, y). q.1 y)
and_iff false b p q = (λ h. absurd (false≢true h), λ (x, y). absurd (false≢true (p.1 x)))

single_type_iff :
    (types : List ℕ) (t : ℕ)
    → (overlap types (t ∷ []) ≡ true) ↔ ((u : ℕ) × (some t ≡ some u) × Memᴰ u types)
single_type_iff types t = (
  λ h.
      let (x, in_types, in_one) = (overlap_iff types (t ∷ [])).0 h in
      (x, ap some (sym (only in_one)), in_types),
  λ (u, same, in_types).
      let e : u ≡ t = cc in (overlap_iff types (t ∷ [])).1 (u, in_types, Memᴰ.head e),
)
  where
    only : {x : ℕ} → Memᴰ x (t ∷ []) → x ≡ t
    only m = elim (mem-cases m) [ inl e ↦ e | inr n ↦ elim n [ ] ]

accepts_type_iff :
    (types : List ℕ) (t : Option ℕ)
    → (accepts_type types t ≡ true)
      ↔ ((types ≡ []) ⊎ ((t ≡ none) ⊎ ((u : ℕ) × (t ≡ some u) × Memᴰ u types)))
accepts_type_iff types none = (λ h. inr (inl refl), λ h. refl)
accepts_type_iff types (some t) =
    or_iff (is_nil types) (overlap types (t ∷ [])) (is_nil_iff types) (
      λ h. inr ((single_type_iff types t).0 h),
      λ e. elim e [ inl p ↦ cc | inr u ↦ (single_type_iff types t).1 u ],
    )

module _ (fold : ℕ → ℕ) (ilike : Text → Text → Bool) (law : IsLike fold ilike) where
  keywords_iff :
      (haystack : Text) (keywords : List Text)
      → (any (keyword_hits ilike haystack) keywords ≡ true)
        ↔ ((k : Text) × Memᴰ k keywords × (includes (map fold k) (map fold haystack) ≡ true))
  keywords_iff haystack keywords = (
    λ h.
        let (k, m, hit) = mem_of_any (keyword_hits ilike haystack) keywords h in
        (k, m, sym (keyword_hits_lem fold ilike law haystack k) ∙ hit),
    λ (k, m, hit).
        any_of_mem (keyword_hits ilike haystack) m
          (keyword_hits_lem fold ilike law haystack k ∙ hit),
  )

  alert_matches_iff :
      (job : Job) (haystack : Text) (alert : JobAlert)
      → (alert_matches ilike job haystack alert ≡ true) ↔ Satisfies fold job haystack alert
  unfolding alert_matches
  alert_matches_iff job haystack alert =
      let (to, from) =
        and_iff alert.is_active _ (λ h. h, λ h. h)
          (and_iff (leb alert.match_from job.first_seen_at) _ (leb_iff _ _) (
            and_iff (is_nil alert.keywords || any (keyword_hits ilike haystack) alert.keywords) _
              (or_iff (is_nil alert.keywords) _ (is_nil_iff _)
                (keywords_iff haystack alert.keywords))
              (and_iff (accepts_type alert.job_types job.content.job_type_id) _
                (accepts_type_iff _ _)
                (and_iff
                  (is_nil alert.educations
                    || overlap alert.educations job.content.education_level_ids)
                  _ (or_iff (is_nil alert.educations) _ (is_nil_iff _) (overlap_iff _ _))
                  (or_iff (is_nil alert.provinces) _ (is_nil_iff _) (
                    or_iff (is_nil job.content.province_ids) _ (is_nil_iff _)
                      (overlap_iff _ _))))))) in
      (
        λ h.
            let (a, (b, (c, (d, (e, f))))) = to h in
            record {
              active = a;
              discovered_since = b;
              keyword = c;
              job_type = d;
              education = e;
              province = f;
            },
        λ s.
            from (
              s.active,
              (s.discovered_since, (s.keyword, (s.job_type, (s.education, s.province)))),
            ),
      )

  -- Where `ilike` is what PostgreSQL documents of ILIKE, `findMatchingAlerts` returns exactly the
  -- alerts of the table that are active, are no younger than the announcement's discovery, and
  -- whose four criteria the announcement meets: a keyword that stands in its texts, its position
  -- type, an education and a province, where no province is every province and no type every type.
  pub find_matching_alerts_iff :
      (alerts : List JobAlert) (job : Job) (attachments : List JobAttachment) (documents : Bool)
      (alert : JobAlert)
      → Memᴰ alert (find_matching_alerts ilike alerts job attachments documents)
        ↔ (Memᴰ alert alerts × Satisfies fold job (build_haystack job attachments documents) alert)
  unfolding find_matching_alerts
  find_matching_alerts_iff alerts job attachments documents alert =
      let (to, from) = alert_matches_iff job (build_haystack job attachments documents) alert in
      let test = alert_matches ilike job (build_haystack job attachments documents) in
      (
        λ m. let (listed, hit) = mem_of_filter test alerts m in (listed, to hit),
        λ (listed, s). mem-filter test listed (from s),
      )
