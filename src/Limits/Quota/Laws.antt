-- ===== src/Limits/Quota/Laws.antt =====
-- The quota check and the usage report against each other, and the cache's bounds.
use memento_mcp.Base.{
  ℕ, ◌+◌, ◌≤◌, ◌≡◌, String, Option, none, some, true, leb, if◌then◌else◌, List, [], ◌∷◌, eq_refl,
  get-put, length-put, length-delete-le, length, arith, inl, inr, Option-cases, ◌↔◌, ◌≢◌, truthy,
}
use memento_mcp.Base.Maps
use memento_mcp.Limits.Quota.{
  UsageResult, CacheEntry, Cache, cache_get, evict_oldest, cache_set, cache_max, cache_ttl_ms, row,
  Database, Statement, Result, ok, thrown, usage_of, unlimited, query_usage, store_usage,
  usage_miss, get_usage, check,
}

abbrev entry : UsageResult → ℕ → CacheEntry
entry u now = record { value = u; expires_at = now + cache_ttl_ms }

length-cache_set :
    (cache : Cache) (key : String) (u : UsageResult) (now : ℕ)
    → length cache ≤ cache_max
    → length (cache_set cache key u now) ≤ cache_max
unfolding cache_set evict_oldest Maps.delete
length-cache_set [] key u now h = ground (arith, length-put key (entry u now) [])
length-cache_set ((k, e) ∷ cache) key u now h = ground (
  arith,
  eq_refl k,
  length-put key (entry u now) ((k, e) ∷ cache),
  length-delete-le k cache,
  length-put key (entry u now) (Maps.delete k cache),
)

length-cache_get :
    (cache : Cache) (key : String) (now : ℕ) → length (cache_get cache key now).0 ≤ length cache
unfolding cache_get
length-cache_get cache key now = ground (arith, length-delete-le key cache)

length-store_usage :
    (key : String) (now : ℕ) (cache : Cache) (r : Result UsageResult × List Statement)
    → length cache ≤ cache_max
    → length (store_usage cache key now r).0 ≤ cache_max
unfolding store_usage
length-store_usage key now cache (ok u, sent) h = length-cache_set cache key u now h
length-store_usage key now cache (thrown e, sent) h = h

length-usage_miss :
    (db : Database) (key : String) (now : ℕ) (cache : Cache) (o : Option UsageResult)
    → length cache ≤ cache_max
    → length (usage_miss db key now (cache, o)).0 ≤ cache_max
unfolding usage_miss
length-usage_miss db key now cache (some u) h = h
length-usage_miss db key now cache none h =
    ground (arith, length-store_usage key now cache (query_usage db key) h)

-- A usage report never leaves more than 1000 entries in the cache, whatever the database answers.
pub get_usage-cache_bounded :
    (db : Database) (cache : Cache) (key_id : Option String) (now : ℕ)
    → length cache ≤ cache_max
    → length (get_usage db cache key_id now).0 ≤ cache_max
unfolding get_usage
get_usage-cache_bounded db cache key_id now h = elim (Option-cases (truthy key_id)) [
  | inl e ↦ rw (e, get_usage) h
  | inr (key, e) ↦
      rw (e, get_usage)
        (length-usage_miss db key now (cache_get cache key now).0 (cache_get cache key now).1
          (omega (arith, length-cache_get cache key now)))
]

-- A stored report is served for ten seconds, that moment included, and not afterwards.
pub cache_get-cache_set :
    (cache : Cache) (key : String) (u : UsageResult) (now later : ℕ)
    → (cache_get (cache_set cache key u now) key later).1
      ≡ (if leb later (now + cache_ttl_ms) then some u else none)
unfolding cache_get cache_set
cache_get-cache_set cache key u now later = ground (
  arith,
  get-put key key (entry u now)
      (if leb cache_max (length cache) then evict_oldest cache else cache),
  eq_refl key,
)

-- Where the database answers and nothing is cached for the key, the check lets a call through
-- exactly when the usage report does not say that nothing remains.
pub check-get_usage :
    (db : Database) (cache : Cache) (key_id : Option String) (key : String) (now n : ℕ)
    (limit : Option (Option ℕ))
    → truthy key_id ≡ some key
    → (cache_get cache key now).1 ≡ none
    → db.has_pool ≡ true
    → db.connects ≡ true
    → db.opens ≡ true
    → db.commits ≡ true
    → db.limit_row key ≡ row limit
    → db.count_row key ≡ row n
    → (u : UsageResult) × ((get_usage db cache key_id now).1 ≡ ok u)
      × (((check db key_id).0 ≡ ok tt) ↔ (u.remaining ≢ some 0))
unfolding get_usage check usage_miss store_usage query_usage
check-get_usage db cache key_id key now n none k c p x o m l r =
    (unlimited, ground arith, (λ h. λ e. cc, λ h. ground arith))
check-get_usage db cache key_id key now n (some none) k c p x o m l r =
    (unlimited, ground arith, (λ h. λ e. cc, λ h. ground arith))
check-get_usage db cache key_id key now n (some (some limit)) k c p x o m l r =
    (usage_of limit n, ground arith, (λ h. λ e. ground arith, λ h. ground arith))

-- The last two statements sent.
abbrev pub last_two : List Statement → List Statement
last_two [] = []
last_two (x ∷ y ∷ []) = x ∷ y ∷ []
last_two (x ∷ rest) = last_two rest
