-- ===== src/Limits/RateLimiter.antt =====
-- lib/rate-limiter.js: the sliding-window limiter and the pair of limiters for addresses and keys.
-- `Date.now()` is an argument. `hits[0] <= now - windowMs` is read over the natural numbers as
-- `hits[0] + windowMs <= now`, which is the same test and needs no negative cutoff.
pub mod Window
pub mod Reference
mod Tests
use Prim.Native.String.{◌++◌ as str_append}
use memento_mcp.Base.{
  ℕ, ◌+◌, String, Option, none, some, List, [], ◌∷◌, ◌++◌, Bool, true, false, leb, length, or_else,
  if◌then◌else◌, Dict, str_eq,
}
use memento_mcp.Base.Maps

pub record RateLimiter : Type 0 where
  pub window_ms : ℕ
  pub max_requests : ℕ
  pub buckets : Dict (List ℕ)

-- The constructor.
pub new : ℕ → ℕ → RateLimiter
new window_ms max_requests = record {
  window_ms = window_ms;
  max_requests = max_requests;
  buckets = [];
}

-- `while (hits.length > 0 && hits[0] <= cutoff) hits.shift()`.
pub shift_expired : ℕ → ℕ → List ℕ → List ℕ
shift_expired window now [] = []
shift_expired window now (h ∷ hits) =
    let rest = shift_expired window now hits in if leb (h + window) now then rest else h ∷ hits

-- `this._buckets.get(key)`, or the new empty bucket.
abbrev pub bucket : String → RateLimiter → List ℕ
bucket key r = or_else (Maps.get key r.buckets) []

pub allow : RateLimiter → String → ℕ → RateLimiter × Bool
allow r key now =
    let hits = shift_expired r.window_ms now (bucket key r) in
    if leb r.max_requests (length hits)
    then (record r { buckets = Maps.put key hits r.buckets }, false)
    else (record r { buckets = Maps.put key (hits ++ now ∷ []) r.buckets }, true)

-- The loop of `cleanup` over the buckets.
pub cleanup_buckets : ℕ → ℕ → Dict (List ℕ) → Dict (List ℕ)
cleanup_buckets window now [] = []
cleanup_buckets window now ((key, hits) ∷ m) = elim (shift_expired window now hits) [
  | [] ↦ cleanup_buckets window now m
  | h ∷ hs ↦ (key, h ∷ hs) ∷ cleanup_buckets window now m
]

pub cleanup : RateLimiter → ℕ → RateLimiter
unfolding cleanup_buckets
cleanup r now = record r { buckets = cleanup_buckets r.window_ms now r.buckets }

pub size : RateLimiter → ℕ
size r = length r.buckets

pub destroy : RateLimiter → RateLimiter
destroy r = record r { buckets = [] }

pub record DualRateLimiter : Type 0 where
  pub ip_limiter : RateLimiter
  pub key_limiter : RateLimiter

-- A key that is absent or empty falls back to the address.
abbrev key_of : Option String → Option String
key_of none = none
key_of (some k) = if str_eq k "" then none else some k

pub dual_allow : DualRateLimiter → String → Option String → ℕ → DualRateLimiter × Bool
dual_allow d client_ip key_id now = elim (key_of key_id) [
  | none ↦
      let (r, ok) = allow d.ip_limiter (str_append "ip:" client_ip) now in
      (record d { ip_limiter = r }, ok)
  | some k ↦
      let (r, ok) = allow d.key_limiter (str_append "key:" k) now in
      (record d { key_limiter = r }, ok)
]

pub dual_cleanup : DualRateLimiter → ℕ → DualRateLimiter
dual_cleanup d now = record {
  ip_limiter = cleanup d.ip_limiter now;
  key_limiter = cleanup d.key_limiter now;
}
