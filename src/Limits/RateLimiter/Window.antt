-- ===== src/Limits/RateLimiter/Window.antt =====
-- Facts about one bucket of lib/rate-limiter.js: what dropping its expired times changes.
use memento_mcp.Base.{
  ℕ, ◌+◌, ◌≤◌, ◌<◌, ◌≡◌, refl, String, none, List, [], ◌∷◌, ◌++◌, ltb, length, or_else, Dict,
  eq_iff, arith, count_if, All, count_if-append,
}
use memento_mcp.Base.Maps
use memento_mcp.Base.Maps.{Unique, put-Unique}
use memento_mcp.Limits.RateLimiter.{shift_expired, cleanup_buckets}

-- How many of the times lie in the window that ends at `now`.
pub recent : ℕ → ℕ → List ℕ → ℕ
recent w now hits = count_if (λ h. ltb now (h + w)) hits

-- Oldest first.
abbrev pub Sorted : List ℕ → Type 0
Sorted [] = Unit
Sorted (h ∷ hs) = All (λ x. h ≤ x) hs × Sorted hs

pub recent-shift_expired :
    (w now later : ℕ) (hits : List ℕ)
    → now ≤ later
    → recent w later (shift_expired w now hits) ≡ recent w later hits
unfolding recent shift_expired
recent-shift_expired w now later [] h = refl
recent-shift_expired w now later (x ∷ hits) h =
    ground (arith, recent-shift_expired w now later hits h)

recent_of_head :
    (w now h : ℕ) (hits : List ℕ)
    → now < h + w
    → All (λ x. h ≤ x) hits
    → recent w now hits ≡ length hits
unfolding recent
recent_of_head w now h [] l a = refl
recent_of_head w now h (x ∷ hits) l a = ground (arith, recent_of_head w now h hits l a.1)

pub length-shift_expired :
    (w now : ℕ) (hits : List ℕ)
    → Sorted hits
    → length (shift_expired w now hits) ≡ recent w now hits
unfolding recent shift_expired
length-shift_expired w now [] s = refl
length-shift_expired w now (x ∷ hits) s =
    ground (arith, length-shift_expired w now hits s.1, recent_of_head w now x hits)

pub shift_expired-Sorted :
    (w now : ℕ) (hits : List ℕ) → Sorted hits → Sorted (shift_expired w now hits)
unfolding shift_expired
shift_expired-Sorted w now [] s = tt
shift_expired-Sorted w now (x ∷ hits) s = ground (arith, shift_expired-Sorted w now hits s.1)

pub shift_expired-le :
    (w now last : ℕ) (hits : List ℕ)
    → All (λ x. x ≤ last) hits
    → All (λ x. x ≤ last) (shift_expired w now hits)
unfolding shift_expired
shift_expired-le w now last [] a = tt
shift_expired-le w now last (x ∷ hits) a = ground (arith, shift_expired-le w now last hits a.1)

pub All-snoc : (P : ℕ → Type 0) (hits : List ℕ) (t : ℕ) → All P hits → P t → All P (hits ++ t ∷ [])
All-snoc P [] t a p = (p, tt)
All-snoc P (x ∷ hits) t a p = (a.0, All-snoc P hits t a.1 p)

pub Sorted-snoc :
    (hits : List ℕ) (t : ℕ) → Sorted hits → All (λ x. x ≤ t) hits → Sorted (hits ++ t ∷ [])
Sorted-snoc [] t s a = (tt, tt)
Sorted-snoc (x ∷ hits) t s a = (All-snoc (λ y. x ≤ y) hits t s.0 a.0, Sorted-snoc hits t s.1 a.1)

pub All-le_trans : (m n : ℕ) (hits : List ℕ) → m ≤ n → All (λ x. x ≤ m) hits → All (λ x. x ≤ n) hits
All-le_trans m n [] h a = tt
All-le_trans m n (x ∷ hits) h a = (omega arith, All-le_trans m n hits h a.1)

get-cleanup_none :
    (w now : ℕ) (k : String) (m : Dict (List ℕ))
    → Maps.get k m ≡ none
    → Maps.get k (cleanup_buckets w now m) ≡ none
unfolding cleanup_buckets Maps.get
get-cleanup_none w now k [] h = refl
get-cleanup_none w now k ((j, hits) ∷ m) h = ground (arith, get-cleanup_none w now k m)

pub bucket-cleanup :
    (w now : ℕ) (k : String) (m : Dict (List ℕ))
    → Unique m
    → or_else (Maps.get k (cleanup_buckets w now m)) []
      ≡ shift_expired w now (or_else (Maps.get k m) [])
unfolding cleanup_buckets Maps.get shift_expired
bucket-cleanup w now k [] u = refl
bucket-cleanup w now k ((j, hits) ∷ m) u =
    ground (arith, eq_iff j k, bucket-cleanup w now k m u.1, get-cleanup_none w now k m)

pub cleanup-Unique : (w now : ℕ) (m : Dict (List ℕ)) → Unique m → Unique (cleanup_buckets w now m)
unfolding cleanup_buckets
cleanup-Unique w now [] u = tt
cleanup-Unique w now ((j, hits) ∷ m) u =
    ground (arith, cleanup-Unique w now m u.1, get-cleanup_none w now j m)

pub recent-snoc :
    (w later t : ℕ) (hits : List ℕ) (earlier : List ℕ)
    → recent w later hits ≡ recent w later earlier
    → recent w later (hits ++ t ∷ []) ≡ recent w later (t ∷ earlier)
unfolding recent
recent-snoc w later t hits earlier h =
    ground (arith, count_if-append (λ x. ltb later (x + w)) hits (t ∷ []))
