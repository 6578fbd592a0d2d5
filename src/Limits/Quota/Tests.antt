-- ===== src/Limits/Quota/Tests.antt =====
-- Quota checks against concrete databases.
use memento_mcp.Base.{◌≡◌, refl, ◌≢◌, ◌↔◌, ◌≤◌, some, [], true, length, arith}
use memento_mcp.Base.Maps
use memento_mcp.Limits.Quota.{
  UsageResult, Database, row, ok, cache_max, cache_get, get_usage, check,
}
use memento_mcp.Limits.Quota.Laws.{get_usage-cache_bounded, check-get_usage}

-- Seven of ten fragments are used.
abbrev database : Database
database = record {
  has_pool = true;
  connects = true;
  opens = true;
  limit_row = λ k. row (some (some 10));
  count_row = λ k. row 7;
  commits = true;
}

get_usage-cache_bounded_example : length (get_usage database [] (some "key") 0).0 ≤ cache_max
get_usage-cache_bounded_example = get_usage-cache_bounded database [] (some "key") 0 (omega arith)

check-get_usage_example :
    (u : UsageResult) × ((get_usage database [] (some "key") 0).1 ≡ ok u)
    × (((check database (some "key")).0 ≡ ok tt) ↔ (u.remaining ≢ some 0))
unfolding cache_get Maps.get
check-get_usage_example =
    check-get_usage database [] (some "key") "key" 0 7 (some (some 10)) refl refl refl refl refl
      refl refl refl
