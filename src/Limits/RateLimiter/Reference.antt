-- ===== src/Limits/RateLimiter/Reference.antt =====
-- lib/rate-limiter.js against a reference that keeps every admitted call for ever and counts
-- those of the window anew at each call.
use memento_mcp.Base.{
  ◌∙◌, eq_refl, ℕ, ◌≤◌, ◌≡◌, refl, ap, String, List, [], ◌∷◌, ◌++◌, Bool, true, false, ltb, leb,
  length, or_else, if◌then◌else◌, Dict, str_eq, eq_iff, arith, get-put, inl, inr, Bool-cases, All,
}
use memento_mcp.Base.Maps
use memento_mcp.Base.Maps.{Unique, put-Unique}
use memento_mcp.Limits.RateLimiter.{
  RateLimiter, new, shift_expired, allow, cleanup_buckets, cleanup,
}
use memento_mcp.Limits.RateLimiter.Window.{
  recent, recent-snoc, Sorted, recent-shift_expired, length-shift_expired, shift_expired-Sorted,
  shift_expired-le, Sorted-snoc, All-snoc, All-le_trans, bucket-cleanup, cleanup-Unique,
}

pub data Call : Type 0 where
  request : String → Call
  sweep : Call

-- Calls with their times, which do not run backwards.
abbrev pub Ordered : ℕ → List (ℕ × Call) → Type 0
Ordered last [] = Unit
Ordered last ((now, c) ∷ cs) = (last ≤ now) × Ordered now cs

unfoldable pub step : RateLimiter → ℕ × Call → RateLimiter × List Bool
step r (now, request key) = let (s, ok) = allow r key now in (s, ok ∷ [])
step r (now, sweep) = (cleanup r now, [])

-- The answers of the limiter to a sequence of calls.
unfoldable pub run : RateLimiter → List (ℕ × Call) → List Bool
unfolding step
run r [] = []
run r (c ∷ cs) = (step r c).1 ++ run (step r c).0 cs

-- The times of a key's admitted calls.
abbrev pub times : String → List (String × ℕ) → List ℕ
times key [] = []
times key ((k, t) ∷ log) = if str_eq k key then t ∷ times key log else times key log

-- A request is admitted if fewer than `limit` of its key's admitted calls lie in the window.
pub admits : ℕ → ℕ → List (String × ℕ) → String → ℕ → Bool
admits window limit log key now = ltb (recent window now (times key log)) limit

pub reference_run : ℕ → ℕ → List (String × ℕ) → List (ℕ × Call) → List Bool
unfolding admits
reference_run window limit log [] = []
reference_run window limit log ((now, sweep) ∷ cs) = reference_run window limit log cs
reference_run window limit log ((now, request key) ∷ cs) =
    admits window limit log key now
    ∷ reference_run window limit (if admits window limit log key now then (key, now) ∷ log else log)
        cs

abbrev limiter : ℕ → ℕ → Dict (List ℕ) → RateLimiter
limiter window limit buckets = record {
  window_ms = window;
  max_requests = limit;
  buckets = buckets;
}

abbrev hits_of : String → Dict (List ℕ) → List ℕ
hits_of key m = or_else (Maps.get key m) []

record Agrees (window last : ℕ) (m : Dict (List ℕ)) (log : List (String × ℕ)) : Type 0 where
  unique : Unique m
  sorted : (k : String) → Sorted (hits_of k m)
  late : (k : String) → All (λ t. t ≤ last) (hits_of k m)
  counts :
      (k : String) (later : ℕ)
      → last ≤ later
      → recent window later (hits_of k m) ≡ recent window later (times k log)

hits_of-put :
    (m : Dict (List ℕ)) (key k : String) (hits : List ℕ)
    → hits_of k (Maps.put key hits m) ≡ (if str_eq key k then hits else hits_of k m)
hits_of-put m key k hits = ground (arith, get-put key k hits m)

-- Replacing one bucket keeps the agreement, if the new times agree with the new log.
put-Agrees :
    (window last now : ℕ) (m : Dict (List ℕ)) (log log' : List (String × ℕ)) (key : String)
    (hits : List ℕ)
    → last ≤ now
    → Agrees window last m log
    → Sorted hits
    → All (λ t. t ≤ now) hits
    → ((later : ℕ) → now ≤ later → recent window later hits ≡ recent window later (times key log'))
    → ((k : String) → str_eq key k ≡ false → times k log' ≡ times k log)
    → Agrees window now (Maps.put key hits m) log'
put-Agrees window last now m log log' key hits order a s l same others = record {
  unique = put-Unique key hits m a.unique;
  sorted = λ k. elim (Bool-cases (str_eq key k)) [
    | inl e ↦ rw (hits_of-put m key k hits) (rw e s)
    | inr e ↦ rw (hits_of-put m key k hits) (rw e (a.sorted k))
  ];
  late = λ k. elim (Bool-cases (str_eq key k)) [
    | inl e ↦ rw (hits_of-put m key k hits) (rw e l)
    | inr e ↦
        rw (hits_of-put m key k hits) (rw e (All-le_trans last now (hits_of k m) order (a.late k)))
  ];
  counts = λ k later h. elim (Bool-cases (str_eq key k)) [
    | inl e ↦ rw (hits_of-put m key k hits) (rw e (rw (← (eq_iff key k).0 e) (same later h)))
    | inr e ↦
        rw (hits_of-put m key k hits) (rw e (rw (others k e) (a.counts k later (omega arith))))
  ];
}

-- One request: the answer is the reference's, and the states agree afterwards.
allow-Agrees :
    (window limit last now : ℕ) (m : Dict (List ℕ)) (log : List (String × ℕ)) (key : String)
    → last ≤ now
    → Agrees window last m log
    → let ok = admits window limit log key now in
      (m' : Dict (List ℕ)) × (allow (limiter window limit m) key now
        ≡ (limiter window limit m', ok))
      × Agrees window now m' (if ok then (key, now) ∷ log else log)
unfolding allow admits
allow-Agrees window limit last now m log key order a = elim (Bool-cases (leb limit (length kept))) [
  | inl full ↦ (
    Maps.put key kept m,
    rw (full, admits_false full),
    rw (admits_false full) (
        put-Agrees window last now m log log key kept order a kept_sorted kept_late kept_counts
          (λ k e. refl)),
  )
  | inr room ↦ (
    Maps.put key (kept ++ now ∷ []) m,
    rw (room, admits_true room),
    rw (admits_true room) (
        put-Agrees window last now m log ((key, now) ∷ log) key (kept ++ now ∷ []) order a
          (Sorted-snoc kept now kept_sorted kept_late)
          (All-snoc (λ t. t ≤ now) kept now kept_late (omega arith))
          (λ later h.
            rw (eq_refl key)
              (recent-snoc window later now kept (times key log) (kept_counts later h)))
          (λ k e. rw e)),
  )
]
  where
    kept : List ℕ
    kept = shift_expired window now (hits_of key m)

    kept_sorted : Sorted kept
    kept_sorted = shift_expired-Sorted window now (hits_of key m) (a.sorted key)

    kept_late : All (λ t. t ≤ now) kept
    kept_late =
        shift_expired-le window now now (hits_of key m)
          (All-le_trans last now (hits_of key m) order (a.late key))

    kept_counts :
        (later : ℕ) → now ≤ later → recent window later kept ≡ recent window later (times key log)
    kept_counts later h =
        recent-shift_expired window now later (hits_of key m) h ∙ a.counts key later (omega arith)

    length-kept : length kept ≡ recent window now (times key log)
    length-kept =
        length-shift_expired window now (hits_of key m) (a.sorted key) ∙ a.counts key now order

    admits_false :
        leb limit (length kept) ≡ true → ltb (recent window now (times key log)) limit ≡ false
    admits_false h = ground (arith, length-kept)

    admits_true :
        leb limit (length kept) ≡ false → ltb (recent window now (times key log)) limit ≡ true
    admits_true h = ground (arith, length-kept)

-- A sweep of the buckets changes nothing that later calls can see.
cleanup-Agrees :
    (window last now : ℕ) (m : Dict (List ℕ)) (log : List (String × ℕ))
    → last ≤ now
    → Agrees window last m log
    → Agrees window now (cleanup_buckets window now m) log
cleanup-Agrees window last now m log order a = record {
  unique = cleanup-Unique window now m a.unique;
  sorted = λ k.
      rw (bucket-cleanup window now k m a.unique)
        (shift_expired-Sorted window now (hits_of k m) (a.sorted k));
  late = λ k. rw (bucket-cleanup window now k m a.unique) (
      shift_expired-le window now now (hits_of k m)
        (All-le_trans last now (hits_of k m) order (a.late k)));
  counts = λ k later h.
      rw (bucket-cleanup window now k m a.unique)
        (recent-shift_expired window now later (hits_of k m) h ∙ a.counts k later (omega arith));
}

run-Agrees :
    (window limit last : ℕ) (m : Dict (List ℕ)) (log : List (String × ℕ)) (cs : List (ℕ × Call))
    → Ordered last cs
    → Agrees window last m log
    → run (limiter window limit m) cs ≡ reference_run window limit log cs
unfolding run reference_run cleanup
run-Agrees window limit last m log [] o a = refl
run-Agrees window limit last m log ((now, sweep) ∷ cs) o a =
    run-Agrees window limit now (cleanup_buckets window now m) log cs o.1
      (cleanup-Agrees window last now m log o.0 a)
run-Agrees window limit last m log ((now, request key) ∷ cs) o a =
    let (m', answer, b) = allow-Agrees window limit last now m log key o.0 a in
    rw answer
      (ap (◌∷◌ (admits window limit log key now)) (run-Agrees window limit now m' _ cs o.1 b))

empty-Agrees : (window : ℕ) → Agrees window 0 [] []
unfolding Maps.get
empty-Agrees window = record {
  unique = tt;
  sorted = λ k. tt;
  late = λ k. tt;
  counts = λ k later h. refl;
}

-- A new limiter answers every sequence of requests and sweeps whose times do not run backwards as
-- the reference does: a request is admitted exactly when fewer than `limit` admitted requests of
-- its key lie in the window that ends at it. Neither the dropping of old times nor the sweeps show.
pub run-reference_run :
    (window limit : ℕ) (cs : List (ℕ × Call))
    → Ordered 0 cs
    → run (new window limit) cs ≡ reference_run window limit [] cs
unfolding new
run-reference_run window limit cs o = run-Agrees window limit 0 [] [] cs o (empty-Agrees window)
