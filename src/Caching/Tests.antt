-- ===== src/Caching/Tests.antt =====
-- A value computed at one second and asked for at two.
use gov_jobs_backend.Base.{ℕ, ◌+◌, ◌*◌, ◌≤◌, ◌<◌, ◌≡◌, refl, none, [], codes, ok, error}
use gov_jobs_backend.Caching.{CacheConfig, CacheStore, no_client, namespaced, read, remember}
use gov_jobs_backend.Caching.Remembered.{remember_until_expiry}

abbrev config : CacheConfig
config = record { prefix = codes "gov-jobs"; ttl_seconds = 60 }

abbrev empty_store : CacheStore ℕ
empty_store = record { memory = []; calls = [] }

misses : (read config no_client (namespaced config (codes "reference")) 1000 empty_store).1 ≡ none
unfolding read
misses = refl

remember_until_expiry_example :
    let s' = (remember config no_client (codes "reference") (ok 7) none 1000 1005 empty_store).0 in
    let again =
      remember config no_client (codes "reference") (error (codes "down")) none 2000 2005 s' in
    (2000 < 1005 + 60 * 1000 → again ≡ (s', ok 7))
    × (1005 + 60 * 1000 ≤ 2000 → again.1 ≡ error (codes "down"))
remember_until_expiry_example =
    remember_until_expiry config (codes "reference") 7 none 1000 1005 empty_store misses
      (error (codes "down")) none 2000 2005
