-- ===== src/Caching/Remembered.antt =====
-- How long src/shared/cache/cache.service.ts answers with a value, without a remote store.
use gov_jobs_backend.Base.{
  ℕ, ◌+◌, ◌*◌, ◌≤◌, ◌<◌, ◌≡◌, refl, sym, ap, ◌∙◌, true, false, Option, none, some, leb, Text,
  text_eq_iff, Attempt, ok, error, arith,
}
use gov_jobs_backend.Caching.{
  CacheConfig, no_client, CacheStore, get_entry, namespaced, ttl_or, read, write, or_computed,
  remember,
}

module _ {ℓ} {V : Type ℓ} (config : CacheConfig) where
  fresh_entry :
      (key : Text) (v : V) (at ttl now : ℕ) (s : CacheStore V)
      → now < at + ttl * 1000
      → read config no_client key now (write config no_client key v ttl at s)
        ≡ (write config no_client key v ttl at s, some v)
  unfolding read write get_entry
  fresh_entry key v at ttl now s h = rw ((text_eq_iff key key).1 refl) (rw late refl)
    where
      late : leb (at + ttl * 1000) now ≡ false
      late = ground arith

  stale_entry :
      (key : Text) (v : V) (at ttl now : ℕ) (s : CacheStore V)
      → at + ttl * 1000 ≤ now
      → (read config no_client key now (write config no_client key v ttl at s)).1 ≡ none
  unfolding read write get_entry
  stale_entry key v at ttl now s h = rw ((text_eq_iff key key).1 refl) (rw late refl)
    where
      late : leb (at + ttl * 1000) now ≡ true
      late = ground arith

  computed_store :
      (key : Text) (v : V) (ttl at : ℕ) (r : CacheStore V × Option V)
      → r.1 ≡ none
      → (or_computed config no_client key (ok v) ttl at r).0
        ≡ write config no_client key v ttl at r.0
  computed_store key v ttl at (s, none) h = refl
  computed_store key v ttl at (s, some w) h = ground arith

  computed_answer :
      (key : Text) (factory : Attempt Text V) (ttl at : ℕ) (r : CacheStore V × Option V)
      → r.1 ≡ none
      → (or_computed config no_client key factory ttl at r).1 ≡ factory
  computed_answer key (ok v) ttl at (s, none) h = refl
  computed_answer key (error e) ttl at (s, none) h = refl
  computed_answer key factory ttl at (s, some w) h = ground arith

  -- Without a remote store: a value that was computed on a miss is the answer, and nothing is
  -- computed or written, until its time to live has passed since it was written; from then on the
  -- answer is what the factory gives, its exception included.
  pub remember_until_expiry :
      (key : Text) (v : V) (ttl_seconds : Option ℕ) (read_at at : ℕ) (s : CacheStore V)
      → (read config no_client (namespaced config key) read_at s).1 ≡ none
      → (factory : Attempt Text V) (ttl_again : Option ℕ) (now at_again : ℕ)
      → let s' = (remember config no_client key (ok v) ttl_seconds read_at at s).0 in
        let again = remember config no_client key factory ttl_again now at_again s' in
        let expiry = at + ttl_or ttl_seconds config.ttl_seconds * 1000 in
        (now < expiry → again ≡ (s', ok v)) × (expiry ≤ now → again.1 ≡ factory)
  unfolding remember
  remember_until_expiry key v ttl_seconds read_at at s miss factory ttl_again now at_again =
      let ns : Text = namespaced config key in
      let ttl : ℕ = ttl_or ttl_seconds config.ttl_seconds in
      let r = read config no_client ns read_at s in
      let stored = computed_store ns v ttl at r miss in
      let answer : CacheStore V × Option V → CacheStore V × Attempt Text V =
        or_computed config no_client ns factory (ttl_or ttl_again config.ttl_seconds) at_again in
      (
        λ early.
            ap answer
              (ap (read config no_client ns now) stored ∙ fresh_entry ns v at ttl now r.0 early)
            ∙ ap (λ (x : CacheStore V). (x, ok v)) (sym stored),
        λ late. computed_answer ns factory (ttl_or ttl_again config.ttl_seconds) at_again _ (
            ap (λ (x : CacheStore V). (read config no_client ns now x).1) stored
            ∙ stale_entry ns v at ttl now r.0 late),
      )
