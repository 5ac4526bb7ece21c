-- ===== src/Portals/Reference.antt =====
-- The taxonomies that OCSC publishes: `syncReference` of src/modules/crawler/ocsc/ocsc.crawler.ts,
-- with the table of src/models/reference/entities/reference-item.entity.ts. What a body is as JSON
-- is the parameter `parse`.
pub mod Translations
use gov_jobs_backend.Base.{
  ℕ, suc, ◌+◌, Bool, true, false, ◌&&◌, Option, none, some, List, [], ◌∷◌, ◌++◌, length, any, ◌==◌,
  if◌then◌else◌, Attempt, ok, error, Text, codes, trim,
}
use gov_jobs_backend.Models.{JobSource, ocsc, same_source}
use gov_jobs_backend.Emails.{
  ReferenceItem, ReferenceKind, province, education_level, job_type, job_category, job_level,
  job_selection, job_condition, same_kind, or_text,
}
use gov_jobs_backend.Portals.{Fault, unexpected, FetchResponse, Wire}
use gov_jobs_backend.Portals.Values.{Scalar, scalar_text}
use gov_jobs_backend.Portals.Ocsc.{fetch_json}

-- A row of a lookup endpoint: its id, and its properties by name.
pub record OcscRawReferenceRow : Type 0 where
  pub id : ℕ
  pub property : Text → Scalar

pub record Endpoint : Type 0 where
  pub kind : ReferenceKind
  pub path : Text
  pub label_field : Text

abbrev pub reference_endpoints : List Endpoint
reference_endpoints =
    record { kind = province; path = codes "/provinces"; label_field = codes "province" }
    ∷ record {
      kind = education_level;
      path = codes "/educationlevels";
      label_field = codes "educationLevel";
    }
    ∷ record { kind = job_type; path = codes "/jobtypes"; label_field = codes "jobType" }
    ∷ record {
      kind = job_category;
      path = codes "/jobcategories";
      label_field = codes "jobCategory";
    }
    ∷ record { kind = job_level; path = codes "/joblevels"; label_field = codes "jobLevel" }
    ∷ record {
      kind = job_selection;
      path = codes "/jobselections";
      label_field = codes "jobSelection";
    }
    ∷ record {
      kind = job_condition;
      path = codes "/jobconditions";
      label_field = codes "jobCondition";
    }
    ∷ []

-- The rows as items, in the order the endpoint lists them.
unfoldable pub items_from : Endpoint → ℕ → List OcscRawReferenceRow → List ReferenceItem
unfolding scalar_text trim
items_from endpoint index [] = []
items_from endpoint index (row ∷ rows) =
    record {
      source = ocsc;
      kind = endpoint.kind;
      external_id = row.id;
      name_th = trim (or_text (scalar_text (row.property endpoint.label_field)) []);
      name_en = none;
      sort_order = index;
    }
    ∷ items_from endpoint (suc index) rows

abbrev pub same_item : ReferenceItem → ReferenceItem → Bool
same_item a b =
    same_source a.source b.source && (same_kind a.kind b.kind && a.external_id == b.external_id)

-- `ON CONFLICT (source, kind, external_id) DO UPDATE` of the columns that the item has: not
-- `name_en`.
unfoldable pub upsert_one : ReferenceItem → List ReferenceItem → List ReferenceItem
upsert_one item [] = item ∷ []
upsert_one item (row ∷ rows) = elim (same_item row item) [
  | true ↦ record row { name_th = item.name_th; sort_order = item.sort_order } ∷ rows
  | false ↦ row ∷ upsert_one item rows
]

unfoldable pub upsert_all : List ReferenceItem → List ReferenceItem → List ReferenceItem
unfolding upsert_one
upsert_all [] table = table
upsert_all (item ∷ items) table = upsert_all items (upsert_one item table)

-- One statement cannot touch a row twice.
unfoldable pub repeats : List ReferenceItem → Bool
repeats [] = false
repeats (item ∷ items) = if any (same_item item) items then true else repeats items

abbrev pub upsert_error : Fault
upsert_error = unexpected (codes "ON CONFLICT DO UPDATE command cannot affect row a second time")

-- The rows of one endpoint, `none` where the body was no array.
abbrev pub rows_of : Option (List OcscRawReferenceRow) → List OcscRawReferenceRow
rows_of none = []
rows_of (some rows) = rows

unfoldable pub upsert : List ReferenceItem → List ReferenceItem → Attempt Fault (List ReferenceItem)
unfolding upsert_all repeats
upsert items table = if repeats items then error upsert_error else ok (upsert_all items table)

module _ (parse : Text → Option (Option (List OcscRawReferenceRow)))
    (answer : ℕ → Text → FetchResponse) (api_base_url : Text) where
  -- From an endpoint on: the items synchronised, the table, and the requests.
  unfoldable pub sync_from :
      List Endpoint → ℕ → List ReferenceItem → Wire → Attempt Fault ℕ × List ReferenceItem × Wire
  unfolding fetch_json items_from upsert
  sync_from [] total table w = (ok total, table, w)
  sync_from (endpoint ∷ later) total table w =
      let (body, w') = fetch_json parse answer api_base_url endpoint.path w in
      elim body [
        | error e ↦ (error e, table, w')
        | ok rows ↦
            let items = items_from endpoint 0 (rows_of rows) in
            elim (upsert items table) [
              | error e ↦ (error e, table, w')
              | ok table' ↦ sync_from later (total + length items) table' w'
            ]
      ]

  unfoldable pub sync_reference :
      List ReferenceItem → Wire → Attempt Fault ℕ × List ReferenceItem × Wire
  unfolding sync_from
  sync_reference = sync_from reference_endpoints 0
