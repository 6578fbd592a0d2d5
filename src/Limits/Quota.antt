-- ===== src/Limits/Quota.antt =====
-- lib/memory/QuotaChecker.js: the fragment quota of an API key and the ten-second cache of its
-- usage. The database is a parameter: what each query answers, or that it throws. What the checker
-- sends to its client is kept as a list of statements, in the order sent.
pub mod Laws
mod Tests
use memento_mcp.Base.{
  ℕ, ◌+◌, ◌-◌, String, Option, none, some, Bool, true, false, not, List, [], ◌∷◌, ◌++◌, ltb, leb,
  length, if◌then◌else◌, Dict, truthy,
}
use memento_mcp.Base.Maps

abbrev pub cache_ttl_ms : ℕ
cache_ttl_ms = 10000

abbrev pub cache_max : ℕ
cache_max = 1000

-- `resetAt` is always null and is left out.
pub record UsageResult : Type 0 where
  pub limit : Option ℕ
  pub current : ℕ
  pub remaining : Option ℕ

pub record CacheEntry : Type 0 where
  pub value : UsageResult
  pub expires_at : ℕ

abbrev pub Cache : Type 0
Cache = Dict CacheEntry

-- `_cacheGet`: an expired entry is deleted.
pub cache_get : Cache → String → ℕ → Cache × Option UsageResult
cache_get cache key now = elim (Maps.get key cache) [
  | none ↦ (cache, none)
  | some e ↦ if ltb e.expires_at now then (Maps.delete key cache, none) else (cache, some e.value)
]

-- `_usageCache.delete(_usageCache.keys().next().value)`.
pub evict_oldest : Cache → Cache
evict_oldest [] = []
evict_oldest ((key, e) ∷ cache) = Maps.delete key ((key, e) ∷ cache)

-- `_cacheSet`.
pub cache_set : Cache → String → UsageResult → ℕ → Cache
unfolding evict_oldest
cache_set cache key value now =
    let room = if leb cache_max (length cache) then evict_oldest cache else cache in
    Maps.put key (record { value = value; expires_at = now + cache_ttl_ms }) room

pub invalidate_usage_cache : Option String → Cache → Cache
invalidate_usage_cache key_id cache = elim (truthy key_id) [
  | none ↦ cache
  | some key ↦ Maps.delete key cache
]

-- A query's answer, or that it throws.
pub data Answer {ℓ} (A : Type ℓ) : Type ℓ where
  row : A → Answer A
  throws : Answer A

-- What the database holds for a key: no row, a row without a limit, or a limit; and how many live
-- fragments the key has. `connects` answers the pool's connect, `opens` BEGIN and SET LOCAL, and
-- `commits` COMMIT.
pub record Database : Type 0 where
  pub has_pool : Bool
  pub connects : Bool
  pub opens : Bool
  pub limit_row : String → Answer (Option (Option ℕ))
  pub count_row : String → Answer ℕ
  pub commits : Bool

pub data Statement : Type 0 where
  begin set_local select_limit select_count commit rollback release : Statement

pub data Error : Type 0 where
  database_error : Error
  fragment_limit_exceeded : ℕ → ℕ → Error

pub data Result {ℓ} (A : Type ℓ) : Type ℓ where
  ok : A → Result A
  thrown : Error → Result A

-- `limit - current`, at least 0.
abbrev pub usage_of : ℕ → ℕ → UsageResult
usage_of limit current = record {
  limit = some limit;
  current = current;
  remaining = some (limit - current);
}

abbrev pub unlimited : UsageResult
unlimited = record { limit = none; current = 0; remaining = none }

-- COMMIT, and the value if it does not throw.
commit_with {ℓ} : {A : Type ℓ} → Database → A → List Statement → Result A × List Statement
commit_with db a sent =
    if db.commits then (ok a, sent ++ commit ∷ []) else (thrown database_error, sent ++ commit ∷ [])

usage_counted : Database → ℕ → Answer ℕ → Result UsageResult × List Statement
unfolding commit_with
usage_counted db limit throws =
    (thrown database_error, begin ∷ set_local ∷ select_limit ∷ select_count ∷ [])
usage_counted db limit (row n) =
    commit_with db (usage_of limit n) (begin ∷ set_local ∷ select_limit ∷ select_count ∷ [])

-- The `try` block of `getUsage`: its value, and what it sent.
usage_row : Database → String → Answer (Option (Option ℕ)) → Result UsageResult × List Statement
unfolding commit_with usage_counted
usage_row db key throws = (thrown database_error, begin ∷ set_local ∷ select_limit ∷ [])
usage_row db key (row none) = commit_with db unlimited (begin ∷ set_local ∷ select_limit ∷ [])
usage_row db key (row (some none)) =
    commit_with db unlimited (begin ∷ set_local ∷ select_limit ∷ [])
usage_row db key (row (some (some limit))) = usage_counted db limit (db.count_row key)

-- `catch` rolls back and throws again; `finally` releases the client. The connect stands before both:
-- when it throws, nothing is sent.
end_query {ℓ} : {A : Type ℓ} → Result A × List Statement → Result A × List Statement
end_query (ok a, sent) = (ok a, sent ++ release ∷ [])
end_query (thrown e, sent) = (thrown e, sent ++ rollback ∷ release ∷ [])

query_usage : Database → String → Result UsageResult × List Statement
unfolding usage_row end_query
query_usage db key =
    if db.connects
    then end_query (
        if db.opens
        then usage_row db key (db.limit_row key)
        else (thrown database_error, begin ∷ []))
    else (thrown database_error, [])

-- Only a value that was read is stored.
store_usage :
    Cache
    → String
    → ℕ
    → Result UsageResult × List Statement
    → Cache × Result UsageResult × List Statement
unfolding cache_set
store_usage cache key now (ok u, sent) = (cache_set cache key u now, ok u, sent)
store_usage cache key now (thrown e, sent) = (cache, thrown e, sent)

-- On a cache miss the database is read, if there is a pool.
usage_miss :
    Database → String → ℕ → Cache × Option UsageResult → Cache × Result UsageResult × List Statement
unfolding query_usage store_usage
usage_miss db key now (cache, some u) = (cache, ok u, [])
usage_miss db key now (cache, none) =
    if db.has_pool
    then store_usage cache key now (query_usage db key)
    else (cache, ok unlimited, [])

pub get_usage : Database → Cache → Option String → ℕ → Cache × Result UsageResult × List Statement
unfolding usage_miss cache_get
get_usage db cache key_id now = elim (truthy key_id) [
  | none ↦ (cache, ok unlimited, [])
  | some key ↦ usage_miss db key now (cache_get cache key now)
]

check_counted : Database → ℕ → Answer ℕ → Result (Unit {0}) × List Statement
unfolding commit_with
check_counted db limit throws =
    (thrown database_error, begin ∷ set_local ∷ select_limit ∷ select_count ∷ [])
check_counted db limit (row n) =
    if leb limit n
    then (
      thrown (fragment_limit_exceeded n limit),
      begin ∷ set_local ∷ select_limit ∷ select_count ∷ rollback ∷ [],
    )
    else commit_with db tt (begin ∷ set_local ∷ select_limit ∷ select_count ∷ [])

check_row : Database → String → Answer (Option (Option ℕ)) → Result (Unit {0}) × List Statement
unfolding commit_with check_counted
check_row db key throws = (thrown database_error, begin ∷ set_local ∷ select_limit ∷ [])
check_row db key (row none) = commit_with db tt (begin ∷ set_local ∷ select_limit ∷ [])
check_row db key (row (some none)) = commit_with db tt (begin ∷ set_local ∷ select_limit ∷ [])
check_row db key (row (some (some limit))) = check_counted db limit (db.count_row key)

check_key : Database → String → Result (Unit {0}) × List Statement
unfolding check_row end_query
check_key db key =
    if not db.has_pool
    then (ok tt, [])
    else if not db.connects
    then (thrown database_error, [])
    else end_query (
        if db.opens
        then check_row db key (db.limit_row key)
        else (thrown database_error, begin ∷ []))

pub check : Database → Option String → Result (Unit {0}) × List Statement
unfolding check_key
check db key_id = elim (truthy key_id) [ none ↦ (ok tt, []) | some key ↦ check_key db key ]
