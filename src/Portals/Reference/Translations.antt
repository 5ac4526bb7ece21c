-- ===== src/Portals/Reference/Translations.antt =====
-- Synchronising keeps the rows of the taxonomies apart, and what the source does not publish.
use gov_jobs_backend.Base.{
  ℕ, ◌≡◌, refl, ◌∙◌, inl, inr, Option, List, [], ◌∷◌, Bool-cases, Attempt-cases, Text, length, ◌+◌,
}
use gov_jobs_backend.Emails.{ReferenceItem}
use gov_jobs_backend.Portals.{FetchResponse, Wire}
use gov_jobs_backend.Portals.Ocsc.{fetch_json}
use gov_jobs_backend.Portals.Reference.{
  OcscRawReferenceRow, Endpoint, items_from, same_item, upsert_one, upsert_all, rows_of, upsert,
  repeats, sync_from, sync_reference, reference_endpoints,
}

-- Row by row, the second table starts with the rows of the first: the same keys and translations.
pub data Extends : List ReferenceItem → List ReferenceItem → Type 0 where
  new_rows : (rows : List ReferenceItem) → Extends [] rows
  kept_row :
      {rows rows' : List ReferenceItem}
      → (a b : ReferenceItem) → b.source ≡ a.source
      → b.kind ≡ a.kind
      → b.external_id ≡ a.external_id
      → b.name_en ≡ a.name_en
      → Extends rows rows'
      → Extends (a ∷ rows) (b ∷ rows')

Extends-refl : (rows : List ReferenceItem) → Extends rows rows
Extends-refl [] = new_rows []
Extends-refl (a ∷ rows) = kept_row a a refl refl refl refl (Extends-refl rows)

Extends-trans : {a b c : List ReferenceItem} → Extends a b → Extends b c → Extends a c
Extends-trans (new_rows b) f = new_rows _
Extends-trans (kept_row a b p q r s e) (kept_row b' c p' q' r' s' f) =
    kept_row a c (p' ∙ p) (q' ∙ q) (r' ∙ r) (s' ∙ s) (Extends-trans e f)

upsert_one-Extends :
    (item : ReferenceItem) (rows : List ReferenceItem) → Extends rows (upsert_one item rows)
unfolding upsert_one
upsert_one-Extends item [] = new_rows _
upsert_one-Extends item (row ∷ rows) = elim (Bool-cases (same_item row item)) [
  | inl h ↦ rw (h, upsert_one) (kept_row _ _ refl refl refl refl (Extends-refl rows))
  | inr h ↦ rw (h, upsert_one) (kept_row _ _ refl refl refl refl (upsert_one-Extends item rows))
]

upsert_all-Extends : (items rows : List ReferenceItem) → Extends rows (upsert_all items rows)
unfolding upsert_all
upsert_all-Extends [] rows = Extends-refl rows
upsert_all-Extends (item ∷ items) rows =
    Extends-trans (upsert_one-Extends item rows) (upsert_all-Extends items (upsert_one item rows))

module _ (parse : Text → Option (Option (List OcscRawReferenceRow)))
    (answer : ℕ → Text → FetchResponse) (api_base_url : Text) where
  sync_from-Extends :
      (endpoints : List Endpoint) (total : ℕ) (table : List ReferenceItem) (w : Wire)
      → let (r, table', w') = sync_from parse answer api_base_url endpoints total table w in
        Extends table table'
  unfolding sync_from upsert
  sync_from-Extends [] total table w = Extends-refl table
  sync_from-Extends (endpoint ∷ later) total table w =
      let body = fetch_json parse answer api_base_url endpoint.path w in
      elim (Attempt-cases body.0) [
        | inr (e, h) ↦ rw (h, sync_from) (Extends-refl table)
        | inl (rows, h) ↦
            let items = items_from endpoint 0 (rows_of rows) in
            elim (Bool-cases (repeats items)) [
              | inl r ↦ rw (h, sync_from) (rw r (Extends-refl table))
              | inr r ↦
                  rw (h, sync_from)
                    (rw r (
                      Extends-trans (upsert_all-Extends items table) (
                        sync_from-Extends later (total + length items) (upsert_all items table)
                          body.1)))
            ]
      ]

  -- However the portal answers, also where it fails halfway, synchronising removes no row, and every
  -- row there was keeps its key and its translation.
  pub sync_reference-Extends :
      (table : List ReferenceItem) (w : Wire)
      → let (r, table', w') = sync_reference parse answer api_base_url table w in
        Extends table table'
  unfolding sync_reference
  sync_reference-Extends = sync_from-Extends reference_endpoints 0
