-- ===== src/Caching.antt =====
-- The read-through cache: src/shared/cache/cache.service.ts. What the remote store answers and the
-- value that is computed are parameters.
pub mod Remembered
mod Tests
use gov_jobs_backend.Base.{
  ℕ, ◌+◌, ◌*◌, Bool, true, false, not, Option, none, some, List, [], ◌∷◌, ◌++◌, ◌==◌, leb, filter,
  if◌then◌else◌, Text, text_eq, codes, Attempt, ok, error,
}

pub record CacheConfig : Type 0 where
  pub prefix : Text
  pub ttl_seconds : ℕ

pub record MemoryEntry {ℓ} (V : Type ℓ) : Type ℓ where
  pub value : V
  pub expires_at : ℕ

-- What `redis.get` answers: the value, null, or an exception. Without credentials there is no client.
pub data Remote {ℓ} (V : Type ℓ) : Type ℓ where
  no_client : Remote V
  client : (Text → Attempt Text (Option V)) → Remote V

-- A call that changes the remote store; its failure is only logged.
pub data RemoteCall {ℓ} (V : Type ℓ) : Type ℓ where
  set_call : Text → V → ℕ → RemoteCall V
  del_call : Text → RemoteCall V

pub record CacheStore {ℓ} (V : Type ℓ) : Type ℓ where
  pub memory : List (Text × MemoryEntry V)
  pub calls : List (RemoteCall V)

unfoldable pub get_entry {ℓ} :
    {V : Type ℓ} → Text → List (Text × MemoryEntry V) → Option (MemoryEntry V)
get_entry key [] = none
get_entry key ((k, e) ∷ memory) = if text_eq k key then some e else get_entry key memory

unfoldable pub delete_entry {ℓ} :
    {V : Type ℓ} → Text → List (Text × MemoryEntry V) → List (Text × MemoryEntry V)
delete_entry key [] = []
delete_entry key ((k, e) ∷ memory) =
    let rest = delete_entry key memory in if text_eq k key then rest else (k, e) ∷ rest

-- `Map.set` on a list whose first entry of a key counts.
abbrev pub set_entry {ℓ} :
    {V : Type ℓ} → Text → MemoryEntry V → List (Text × MemoryEntry V) → List (Text × MemoryEntry V)
set_entry key e memory = (key, e) ∷ delete_entry key memory

abbrev pub namespaced : CacheConfig → Text → Text
namespaced config key = config.prefix ++ (codes ":" ++ key)

abbrev pub ttl_or : Option ℕ → ℕ → ℕ
ttl_or none default_ttl = default_ttl
ttl_or (some ttl) default_ttl = ttl

module _ {ℓ} {V : Type ℓ} (config : CacheConfig) (remote : Remote V) where
  -- An exception reads as a miss.
  abbrev pub or_miss : Attempt Text (Option V) → Option V
  or_miss (ok v) = v
  or_miss (error e) = none

  -- An entry that has expired is dropped.
  abbrev pub unless_expired :
      Text → ℕ → Option (MemoryEntry V) → CacheStore V → CacheStore V × Option V
  unless_expired key now none s = (s, none)
  unless_expired key now (some e) s =
      if leb e.expires_at now
      then (record s { memory = delete_entry key s.memory }, none)
      else (s, some e.value)

  abbrev pub read_from : Remote V → Text → ℕ → CacheStore V → CacheStore V × Option V
  read_from (client get) key now s = (s, or_miss (get key))
  read_from no_client key now s = unless_expired key now (get_entry key s.memory) s

  unfoldable pub read : Text → ℕ → CacheStore V → CacheStore V × Option V
  unfolding get_entry delete_entry
  read key now s = read_from remote key now s

  abbrev pub write_to : Remote V → Text → V → ℕ → ℕ → CacheStore V → CacheStore V
  write_to (client get) key value ttl now s = record s {
    calls = s.calls ++ set_call key value ttl ∷ [];
  }
  write_to no_client key value ttl now s = record s {
    memory = set_entry key (record { value = value; expires_at = now + ttl * 1000 }) s.memory;
  }

  unfoldable pub write : Text → V → ℕ → ℕ → CacheStore V → CacheStore V
  unfolding delete_entry
  write key value ttl now s = write_to remote key value ttl now s

  -- What was read, or what the factory gives; its exception is passed on and nothing is written.
  abbrev pub or_computed :
      Text → Attempt Text V → ℕ → ℕ → CacheStore V × Option V → CacheStore V × Attempt Text V
  or_computed key factory ttl now (s, some v) = (s, ok v)
  or_computed key (error e) ttl now (s, none) = (s, error e)
  or_computed key (ok v) ttl now (s, none) = (write key v ttl now s, ok v)

  -- `read_at` and `written_at` are the two readings of the clock.
  unfoldable pub remember :
      Text → Attempt Text V → Option ℕ → ℕ → ℕ → CacheStore V → CacheStore V × Attempt Text V
  unfolding read write
  remember key factory ttl_seconds read_at written_at s =
      or_computed (namespaced config key) factory (ttl_or ttl_seconds config.ttl_seconds) written_at
        (read (namespaced config key) read_at s)

  abbrev pub forget_remote : Remote V → Text → CacheStore V → CacheStore V
  forget_remote no_client key s = s
  forget_remote (client get) key s = record s { calls = s.calls ++ del_call key ∷ [] }

  unfoldable pub forget : Text → CacheStore V → CacheStore V
  unfolding delete_entry
  forget key s =
      forget_remote remote (namespaced config key)
        (record s { memory = delete_entry (namespaced config key) s.memory })
