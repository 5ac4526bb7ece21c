-- ===== src/Taxonomies/Tests.antt =====
-- Provinces that were cached before the table changed.
use gov_jobs_backend.Base.{◌≡◌, refl, none, some, List, [], ◌∷◌, codes, Attempt, ok, error, Text}
use gov_jobs_backend.Models.{ocsc}
use gov_jobs_backend.Emails.{ReferenceItem, province}
use gov_jobs_backend.Caching.{CacheConfig, CacheStore, no_client}
use gov_jobs_backend.Taxonomies.{ReferenceResponse, load, find_all, invalidate}

abbrev bangkok : ReferenceItem
bangkok = record {
  source = ocsc;
  kind = province;
  external_id = 10;
  name_th = codes "กรุงเทพมหานคร";
  name_en = some (codes "Bangkok");
  sort_order = 0;
}

abbrev config : CacheConfig
config = record { prefix = codes "gov-jobs"; ttl_seconds = 300 }

abbrev stale : CacheStore ReferenceResponse
stale = (find_all config no_client none (ok []) 0 0 (record { memory = []; calls = [] })).0

cached : (find_all config no_client none (ok (bangkok ∷ [])) 1000 1000 stale).1 ≡ ok (load ocsc [])
unfolding find_all load gov_jobs_backend.Base.text_eq
cached = refl

shown_after_a_crawl :
    (find_all config no_client none
      (ok (bangkok ∷ []))
      1000
      1000
      (invalidate config no_client none stale)).1
    ≡ ok (load ocsc (bangkok ∷ []))
unfolding find_all invalidate load gov_jobs_backend.Base.text_eq
shown_after_a_crawl = refl
