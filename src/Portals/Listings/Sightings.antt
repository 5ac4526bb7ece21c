-- ===== src/Portals/Listings/Sightings.antt =====
-- Which announcements a listing has: its pages as the portal answers them, and their entries without
-- repetitions.
use mathlib.Core.List.{append_assoc, append-nil}
use mathlib.Core.Path.{subst}
use gov_jobs_backend.Base.{
  Attempt, ok, error, Attempt-cases, ℕ, zero, suc, ◌+◌, ◌*◌, ◌≤◌, ◌≡◌, refl, sym, ap, ◌∙◌, Bool,
  true, false, not, ◌&&◌, ◌||◌, List, [], ◌∷◌, ◌++◌, filter, ◌==◌, Bool-cases, inl, inr, String,
  str_eq, str_eq_iff, Text, arith, if◌then◌else◌,
}
use gov_jobs_backend.Portals.{Fault, FetchResponse, Wire, fetch_text}
use gov_jobs_backend.Portals.Listings.{Portal, id_of, has_entry, add_entries, collect_from}
use gov_jobs_backend.Portals.Listings.Accounts.{fetch_text_made, str_eq_sym}

filter-filter {ℓ} :
    {A : Type ℓ} (p q r : A → Bool)
    → ((x : A) → r x ≡ (q x && p x))
    → (xs : List A) → filter p (filter q xs) ≡ filter r xs
filter-filter p q r same [] = refl
filter-filter p q r same (x ∷ xs) =
    let later = filter-filter p q r same xs in
    elim (Bool-cases (q x)) [
      | inr e ↦ rw (same x, e) later
      | inl e ↦ elim (Bool-cases (p x)) [
        | inl f ↦ rw (same x, e, f) (ap (◌∷◌ x) later)
        | inr f ↦ rw (same x, e, f) later
      ]
    ]

module _ {ℓ κ} {E : Type ℓ} {D : Type κ} (portal : Portal E D) where
  -- The first entry of each id, in order.
  unfoldable pub first_sightings : List E → List E
  first_sightings [] = []
  first_sightings (e ∷ es) =
      e ∷ filter (λ f. not (str_eq (id_of portal f) (id_of portal e))) (first_sightings es)

  has_entry-append :
      (id : String) (es : List E) (e : E)
      → has_entry portal id (es ++ e ∷ []) ≡ (has_entry portal id es || str_eq (id_of portal e) id)
  has_entry-append id [] e = elim (Bool-cases (str_eq (id_of portal e) id)) [
    | inl h ↦ rw h refl
    | inr h ↦ rw h refl
  ]
  has_entry-append id (f ∷ es) e = elim (Bool-cases (str_eq (id_of portal f) id)) [
    | inl h ↦ rw h refl
    | inr h ↦ rw h (has_entry-append id es e)
  ]

  add_entries-append :
      (entries ps qs : List E)
      → add_entries portal entries (ps ++ qs)
        ≡ add_entries portal (add_entries portal entries ps) qs
  unfolding add_entries
  add_entries-append entries [] qs = refl
  add_entries-append entries (p ∷ ps) qs =
      add_entries-append
        (if has_entry portal (id_of portal p) entries then entries else entries ++ p ∷ []) ps qs

  unseen_again :
      (entries : List E) (e : E)
      → has_entry portal (id_of portal e) entries ≡ true
      → (x : E)
      → not (has_entry portal (id_of portal x) entries) ≡ (
          not (str_eq (id_of portal x) (id_of portal e))
          && not (has_entry portal (id_of portal x) entries))
  unseen_again entries e h x = elim (Bool-cases (str_eq (id_of portal x) (id_of portal e))) [
    | inl same ↦
        let there : has_entry portal (id_of portal x) entries ≡ true =
          subst (λ id. has_entry portal id entries ≡ true)
            (sym ((str_eq_iff (id_of portal x) (id_of portal e)).0 same)) h in
        rw (same, there) refl
    | inr other ↦ rw other refl
  ]

  not_or : (a b : Bool) → not (a || b) ≡ (not b && not a)
  not_or true true = refl
  not_or true false = refl
  not_or false true = refl
  not_or false false = refl

  unseen_yet :
      (entries : List E) (e x : E)
      → not (has_entry portal (id_of portal x) (entries ++ e ∷ [])) ≡ (
          not (str_eq (id_of portal x) (id_of portal e))
          && not (has_entry portal (id_of portal x) entries))
  unseen_yet entries e x =
      ap not (has_entry-append (id_of portal x) entries e)
      ∙ (not_or (has_entry portal (id_of portal x) entries) _
          ∙ ap (λ b. not b && not (has_entry portal (id_of portal x) entries))
              (str_eq_sym (id_of portal e) (id_of portal x)))

  -- What the accumulating loop comes to.
  add_entries-first_sightings :
      (entries es : List E)
      → add_entries portal entries es
        ≡ entries
          ++ filter (λ f. not (has_entry portal (id_of portal f) entries)) (first_sightings es)
  unfolding add_entries first_sightings
  add_entries-first_sightings entries [] = sym (append-nil entries)
  add_entries-first_sightings entries (e ∷ es) =
      elim (Bool-cases (has_entry portal (id_of portal e) entries)) [
        | inl h ↦ rw h (
            add_entries-first_sightings entries es
            ∙ ap (◌++◌ entries)
                (sym (filter-filter _ _ _ (unseen_again entries e h) (first_sightings es))))
        | inr h ↦ rw h (
            add_entries-first_sightings (entries ++ e ∷ []) es
            ∙ (append_assoc entries (e ∷ []) _
                ∙ ap (λ (xs : List E). entries ++ e ∷ xs)
                    (sym (filter-filter _ _ _ (unseen_yet entries e) (first_sightings es)))))
      ]

  keep_all : (es : List E) → filter (λ f. not false) es ≡ es
  keep_all [] = refl
  keep_all (e ∷ es) = ap (◌∷◌ e) (keep_all es)

  pub add_entries-none : (es : List E) → add_entries portal [] es ≡ first_sightings es
  add_entries-none es = add_entries-first_sightings [] es ∙ keep_all (first_sightings es)

  module _ (nfc : Text → Text) (answer : ℕ → Text → FetchResponse) (pause_ms : ℕ) where
    abbrev listed_page : ℕ → Wire → Attempt Fault Text × Wire
    listed_page page w = fetch_text answer pause_ms (portal.listing_url page) w

    abbrev pub with_page : List E → Attempt Fault (List E) → Attempt Fault (List E)
    with_page ps (ok rest) = ok (ps ++ rest)
    with_page ps (error f) = error f

    -- The entries of a listing from a page on, of at most so many pages: page after page, until one
    -- has no entry, or, but for the first page, does not answer. Where the first page does not
    -- answer or one cannot be parsed, the listing is an exception.
    pub data Pages : ℕ → ℕ → Wire → Attempt Fault (List E) → Wire → Type ℓ where
      all_read : {page : ℕ} {w : Wire} → Pages 0 page w (ok []) w
      one_read :
          {left page : ℕ} {w w' : Wire} {rest : Attempt Fault (List E)}
          → (body : Text) (p : E) (ps : List E) → (listed_page page w).0 ≡ ok body
          → portal.parse_listing body ≡ ok (p ∷ ps)
          → Pages left (suc page) (listed_page page w).1 rest w'
          → Pages (suc left) page w (with_page (p ∷ ps) rest) w'
      past_the_end :
          {left page : ℕ} {w : Wire}
          → (body : Text) → (listed_page page w).0 ≡ ok body
          → portal.parse_listing body ≡ ok []
          → Pages (suc left) page w (ok []) (listed_page page w).1
      cut_short :
          {left page : ℕ} {w : Wire}
          → (f : Fault) → (page == 1) ≡ false
          → (listed_page page w).0 ≡ error f
          → Pages (suc left) page w (ok []) (listed_page page w).1
      unavailable :
          {left page : ℕ} {w : Wire}
          → (f : Fault) → (page == 1) ≡ true
          → (listed_page page w).0 ≡ error f
          → Pages (suc left) page w (error f) (listed_page page w).1
      unreadable :
          {left page : ℕ} {w : Wire}
          → (body : Text) (f : Fault) → (listed_page page w).0 ≡ ok body
          → portal.parse_listing body ≡ error f
          → Pages (suc left) page w (error f) (listed_page page w).1

    abbrev added_to : List E → Attempt Fault (List E) → Attempt Fault (List E)
    added_to entries (ok es) = ok (add_entries portal entries es)
    added_to entries (error f) = error f

    added_to-with_page :
        (entries ps : List E) (rest : Attempt Fault (List E))
        → added_to (add_entries portal entries ps) rest ≡ added_to entries (with_page ps rest)
    added_to-with_page entries ps (ok rest) = ap ok (sym (add_entries-append entries ps rest))
    added_to-with_page entries ps (error f) = refl

    -- The pages that the loop reads, what it makes of them, and how many requests it makes.
    pub record Collected (left page : ℕ) (entries : List E) (w : Wire)
        (r : Attempt Fault (List E) × Wire) : Type ℓ where
      pub listed : Attempt Fault (List E)
      pub pages : Pages left page w listed r.1
      pub result : r.0 ≡ added_to entries listed
      pub made : r.1.made ≤ w.made + 3 * left

    abbrev loop : ℕ → ℕ → List E → Wire → Attempt Fault (List E) × Wire
    loop = collect_from portal nfc answer pause_ms

    pub collect_from-Collected :
        (left page : ℕ) (entries : List E) (w : Wire)
        → Collected left page entries w (loop left page entries w)
    unfolding collect_from add_entries
    collect_from-Collected zero page entries w = record {
      listed = ok [];
      pages = all_read;
      result = refl;
      made = omega arith;
    }
    collect_from-Collected (suc left) page entries w =
        let html = listed_page page w in
        let made = fetch_text_made answer pause_ms (portal.listing_url page) w in
        elim (Attempt-cases html.0) [
          | inr (f, q) ↦ elim (Bool-cases (page == 1)) [
            | inl h ↦
                rw (q, h, collect_from)
                  (record {
                    listed = error f;
                    pages = unavailable f h q;
                    result = refl;
                    made = omega arith;
                  })
            | inr h ↦
                rw (q, h, collect_from)
                  (record {
                    listed = ok [];
                    pages = cut_short f h q;
                    result = refl;
                    made = omega arith;
                  })
          ]
          | inl (body, q) ↦ elim (Attempt-cases (portal.parse_listing body)) [
            | inr (f, p) ↦
                rw (q, p, collect_from)
                  (record {
                    listed = error f;
                    pages = unreadable body f q p;
                    result = refl;
                    made = omega arith;
                  })
            | inl ([], p) ↦
                rw (q, p, collect_from)
                  (record {
                    listed = ok [];
                    pages = past_the_end body q p;
                    result = refl;
                    made = omega arith;
                  })
            | inl (e ∷ es, p) ↦
                let rest =
                  collect_from-Collected left (suc page) (add_entries portal entries (e ∷ es))
                    html.1 in
                let fewer = rest.made in
                rw (q, p, collect_from)
                  (record {
                    listed = with_page (e ∷ es) rest.listed;
                    pages = one_read body e es q p rest.pages;
                    result = rest.result ∙ added_to-with_page entries (e ∷ es) rest.listed;
                    made = omega arith;
                  })
          ]
        ]
