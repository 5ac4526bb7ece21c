-- ===== src/Taxonomies.antt =====
-- The taxonomies for the filters of the search: src/modules/reference/reference.service.ts with
-- reference.response.ts, read through the cache. The order of `kind` is that of its enum type.
pub mod Fresh
mod Tests
use gov_jobs_backend.Base.{
  ℕ, ◌+◌, Bool, true, false, ◌&&◌, ◌||◌, Option, none, some, List, [], ◌∷◌, ◌++◌, map, filter, ◌==◌,
  leb, ltb, if◌then◌else◌, Text, codes, Attempt, ok, error,
}
use gov_jobs_backend.Models.{JobSource, ocsc, dol, admin_court, doe, mdes, same_source}
use gov_jobs_backend.Emails.{
  ReferenceItem, ReferenceKind, province, education_level, job_type, job_category, job_level,
  job_selection, job_condition, same_kind,
}
use gov_jobs_backend.Caching.{CacheConfig, CacheStore, Remote, remember, forget}

pub record ReferenceOption : Type 0 where
  pub id : ℕ
  pub name_th : Text
  pub name_en : Option Text

pub record ReferenceResponse : Type 0 where
  pub provinces : List ReferenceOption
  pub education_levels : List ReferenceOption
  pub job_types : List ReferenceOption
  pub job_categories : List ReferenceOption
  pub job_levels : List ReferenceOption
  pub job_selections : List ReferenceOption
  pub job_conditions : List ReferenceOption

abbrev pub kind_number : ReferenceKind → ℕ
kind_number province = 0
kind_number education_level = 1
kind_number job_type = 2
kind_number job_category = 3
kind_number job_level = 4
kind_number job_selection = 5
kind_number job_condition = 6

abbrev pub comes_before : ReferenceItem → ReferenceItem → Bool
comes_before a b =
    ltb (kind_number a.kind) (kind_number b.kind)
    || (kind_number a.kind == kind_number b.kind && leb a.sort_order b.sort_order)

-- `order: { kind: "ASC", sortOrder: "ASC" }`
unfoldable pub insert_item : ReferenceItem → List ReferenceItem → List ReferenceItem
insert_item a [] = a ∷ []
insert_item a (b ∷ items) = if comes_before a b then a ∷ b ∷ items else b ∷ insert_item a items

unfoldable pub in_order : List ReferenceItem → List ReferenceItem
unfolding insert_item
in_order [] = []
in_order (a ∷ items) = insert_item a (in_order items)

abbrev pub to_option : ReferenceItem → ReferenceOption
to_option item = record { id = item.external_id; name_th = item.name_th; name_en = item.name_en }

unfoldable pub by_kind : ReferenceKind → List ReferenceItem → List ReferenceOption
by_kind kind items = map to_option (filter (λ item. same_kind item.kind kind) items)

unfoldable pub load : JobSource → List ReferenceItem → ReferenceResponse
unfolding in_order by_kind
load source table =
    let items = in_order (filter (λ item. same_source item.source source) table) in
    record {
      provinces = by_kind province items;
      education_levels = by_kind education_level items;
      job_types = by_kind job_type items;
      job_categories = by_kind job_category items;
      job_levels = by_kind job_level items;
      job_selections = by_kind job_selection items;
      job_conditions = by_kind job_condition items;
    }

abbrev pub source_text : JobSource → Text
source_text ocsc = codes "OCSC"
source_text dol = codes "DOL"
source_text admin_court = codes "ADMIN_COURT"
source_text doe = codes "DOE"
source_text mdes = codes "MDES"

abbrev pub cache_key : JobSource → Text
cache_key source = codes "reference:" ++ source_text source

abbrev pub or_ocsc : Option JobSource → JobSource
or_ocsc none = ocsc
or_ocsc (some source) = source

-- `table` is what the database holds when it is asked, `read_at` and `written_at` the clock.
module _ (config : CacheConfig) (remote : Remote ReferenceResponse) where
  unfoldable pub find_all :
      Option JobSource
      → Attempt Text (List ReferenceItem)
      → ℕ
      → ℕ
      → CacheStore ReferenceResponse
      → CacheStore ReferenceResponse × Attempt Text ReferenceResponse
  unfolding remember load
  find_all source table read_at written_at s =
      remember config remote (cache_key (or_ocsc source))
        (elim table [ ok rows ↦ ok (load (or_ocsc source) rows) | error e ↦ error e ]) (some 3600)
        read_at written_at s

  unfoldable pub invalidate :
      Option JobSource → CacheStore ReferenceResponse → CacheStore ReferenceResponse
  unfolding forget
  invalidate source s = forget config remote (cache_key (or_ocsc source)) s
