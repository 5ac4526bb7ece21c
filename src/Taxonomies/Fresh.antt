-- ===== src/Taxonomies/Fresh.antt =====
-- What the taxonomies show after a crawl has refreshed them.
use gov_jobs_backend.Base.{
  ℕ, ◌≡◌, refl, inl, inr, Option, none, List, [], ◌∷◌, Bool-cases, Text, text_eq, Attempt, ok,
  error,
}
use gov_jobs_backend.Models.{JobSource}
use gov_jobs_backend.Emails.{ReferenceItem}
use gov_jobs_backend.Caching.{
  CacheConfig, CacheStore, MemoryEntry, no_client, get_entry, delete_entry, namespaced, read,
  remember, forget,
}
use gov_jobs_backend.Taxonomies.{ReferenceResponse, load, cache_key, or_ocsc, find_all, invalidate}

get_entry-delete_entry :
    {V : Type 0} (key : Text) (memory : List (Text × MemoryEntry V))
    → get_entry key (delete_entry key memory) ≡ none
unfolding get_entry delete_entry
get_entry-delete_entry key [] = refl
get_entry-delete_entry key ((k, e) ∷ memory) = elim (Bool-cases (text_eq k key)) [
  | inl h ↦ rw h (get_entry-delete_entry key memory)
  | inr h ↦ rw (h, get_entry) (rw h (get_entry-delete_entry key memory))
]

module _ (config : CacheConfig) where
  -- Without a remote store: once a source was invalidated, the next answer is what the database
  -- holds then, whatever was cached before and however old it was; if the database fails, so does
  -- the answer.
  pub find_all-invalidate :
      (source : Option JobSource) (table : Attempt Text (List ReferenceItem))
      (read_at written_at : ℕ) (s : CacheStore ReferenceResponse)
      → (find_all config no_client source table read_at written_at
          (invalidate config no_client source s)).1
        ≡ elim table [ ok rows ↦ ok (load (or_ocsc source) rows) | error e ↦ error e ]
  unfolding find_all invalidate remember forget read
  find_all-invalidate source (ok rows) read_at written_at s =
      rw (get_entry-delete_entry (namespaced config (cache_key (or_ocsc source))) s.memory) refl
  find_all-invalidate source (error e) read_at written_at s =
      rw (get_entry-delete_entry (namespaced config (cache_key (or_ocsc source))) s.memory) refl
