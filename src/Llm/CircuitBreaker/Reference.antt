-- ===== src/Llm/CircuitBreaker/Reference.antt =====
-- lib/llm/util/circuit-breaker.js against a reference that never forgets a failure before the next
-- success, and never changes its state when it is asked.
use memento_mcp.Base.{
  ap₂, ℕ, suc, ◌+◌, ◌≤◌, ◌≡◌, refl, ◌∙◌, String, Option, none, some, List, [], ◌∷◌, ◌++◌, Bool,
  false, leb, ltb, length, count_if, keep_if, if◌then◌else◌, Dict, str_eq, eq_iff, get-put,
  get-delete, arith, length-append, length-keep_if, count_if-append, Bool-cases, inl, inr,
}
use memento_mcp.Base.Maps
use memento_mcp.Llm.CircuitBreaker.{
  Config, Breaker, closed, get_mem_state, half_open, mem_is_open, mem_record_failure,
  mem_record_success, mem_reset,
}

pub data Event : Type 0 where
  asked failed succeeded reset : String → Event

abbrev pub Ordered : ℕ → List (ℕ × Event) → Type 0
Ordered last [] = Unit
Ordered last ((now, e) ∷ es) = (last ≤ now) × Ordered now es

unfoldable pub step : Config → Dict Breaker → ℕ × Event → Dict Breaker × List Bool
step c m (now, asked k) = let (m', answer) = mem_is_open c m k now in (m', answer ∷ [])
step c m (now, failed k) = (mem_record_failure c m k now, [])
step c m (now, succeeded k) = (mem_record_success m k, [])
step c m (now, reset k) = (mem_reset m k, [])

-- The answers to the questions among the events.
unfoldable pub run : Config → Dict Breaker → List (ℕ × Event) → List Bool
unfolding step
run c m [] = []
run c m (e ∷ es) = (step c m e).1 ++ run c (step c m e).0 es

-- All failures since the last success, newest first, and the last failure that opened the breaker.
pub record History : Type 0 where
  pub failures : List ℕ
  pub opened : Option ℕ

abbrev pub none_yet : History
none_yet = record { failures = []; opened = none }

-- The failures whose window has not passed.
pub recent : Config → ℕ → List ℕ → ℕ
recent c now ts = count_if (λ t. leb now (t + c.failure_window_ms)) ts

-- A failure opens the breaker if, with it, the threshold is reached within the window.
pub with_failure : Config → ℕ → History → History
with_failure c now h = record {
  failures = now ∷ h.failures;
  opened = if leb c.failure_threshold (suc (recent c now h.failures)) then some now else h.opened;
}

-- Open for `open_duration_ms` from the last failure that opened it.
pub is_open : Config → Option ℕ → ℕ → Bool
is_open c none now = false
is_open c (some t) now = ltb now (t + c.open_duration_ms)

abbrev update : String → History → (String → History) → String → History
update k h f j = if str_eq k j then h else f j

unfoldable pub breaker_reference : Config → (String → History) → List (ℕ × Event) → List Bool
unfolding with_failure is_open
breaker_reference c f [] = []
breaker_reference c f ((now, asked k) ∷ es) = is_open c (f k).opened now ∷ breaker_reference c f es
breaker_reference c f ((now, failed k) ∷ es) =
    breaker_reference c (update k (with_failure c now (f k)) f) es
breaker_reference c f ((now, succeeded k) ∷ es) = breaker_reference c (update k none_yet f) es
breaker_reference c f ((now, reset k) ∷ es) = breaker_reference c (update k none_yet f) es

-- From `last` on, a breaker shows what its history does.
record Shows (c : Config) (last : ℕ) (b : Breaker) (h : History) : Type 0 where
  counts : (later : ℕ) → last ≤ later → recent c later b.failures ≡ recent c later h.failures
  opens : (later : ℕ) → last ≤ later → is_open c b.opened_at later ≡ is_open c h.opened later

abbrev Agrees : Config → ℕ → Dict Breaker → (String → History) → Type 0
Agrees c last m f = (k : String) → Shows c last (get_mem_state k m) (f k)

Shows-later :
    (c : Config) (last now : ℕ) (b : Breaker) (h : History)
    → last ≤ now
    → Shows c last b h
    → Shows c now b h
Shows-later c last now b h order s = record {
  counts = λ later l. s.counts later (omega arith);
  opens = λ later l. s.opens later (omega arith);
}

-- A write of one breaker keeps the agreement, if the new one shows the new history.
put-Agrees :
    (c : Config) (last now : ℕ) (m : Dict Breaker) (f : String → History) (k : String) (b : Breaker)
    (h : History)
    → last ≤ now
    → Agrees c last m f
    → Shows c now b h
    → Agrees c now (Maps.put k b m) (update k h f)
put-Agrees c last now m f k b h order a s j = elim (Bool-cases (str_eq k j)) [
  | inl e ↦ rw (get-put k j b m) (rw e s)
  | inr e ↦
      rw (get-put k j b m) (rw e (Shows-later c last now (get_mem_state j m) (f j) order (a j)))
]

recent-keep :
    (c : Config) (now later : ℕ) (ts : List ℕ)
    → now ≤ later
    → recent c later (keep_if (λ t. leb now (t + c.failure_window_ms)) ts) ≡ recent c later ts
unfolding recent
recent-keep c now later [] h = refl
recent-keep c now later (t ∷ ts) h = ground (arith, recent-keep c now later ts h)

length-kept :
    (c : Config) (now : ℕ) (ts : List ℕ)
    → length (keep_if (λ t. leb now (t + c.failure_window_ms)) ts) ≡ recent c now ts
unfolding recent
length-kept c now ts = length-keep_if (λ t. leb now (t + c.failure_window_ms)) ts

recent-snoc :
    (c : Config) (later now : ℕ) (ts us : List ℕ)
    → recent c later ts ≡ recent c later us
    → recent c later (ts ++ now ∷ []) ≡ recent c later (now ∷ us)
unfolding recent
recent-snoc c later now ts us h =
    ground (arith, count_if-append (λ t. leb later (t + c.failure_window_ms)) ts (now ∷ []))

closed-Shows : (c : Config) (now : ℕ) → Shows c now closed none_yet
unfolding is_open
closed-Shows c now = record { counts = λ later l. refl; opens = λ later l. refl }

stays_shut :
    (c : Config) (now later : ℕ) (o : Option ℕ)
    → now ≤ later
    → is_open c (half_open c o now).0 later ≡ is_open c o later
unfolding is_open half_open
stays_shut c now later none l = refl
stays_shut c now later (some t) l = ground arith

answers : (c : Config) (now : ℕ) (o : Option ℕ) → (half_open c o now).1 ≡ is_open c o now
unfolding is_open half_open
answers c now none = refl
answers c now (some t) = ground arith

-- To ask changes no history.
asked-Agrees :
    (c : Config) (last now : ℕ) (m : Dict Breaker) (f : String → History) (k : String) (b : Breaker)
    → last ≤ now
    → Agrees c last m f
    → Shows c now b (f k)
    → Agrees c now (Maps.put k b m) f
asked-Agrees c last now m f k b order a s j = elim (Bool-cases (str_eq k j)) [
  | inl e ↦ rw (get-put k j b m) (rw e (rw (← (eq_iff k j).0 e) s))
  | inr e ↦
      rw (get-put k j b m) (rw e (Shows-later c last now (get_mem_state j m) (f j) order (a j)))
]

delete-Agrees :
    (c : Config) (last now : ℕ) (m : Dict Breaker) (f : String → History) (k : String)
    → last ≤ now
    → Agrees c last m f
    → Agrees c now (Maps.delete k m) (update k none_yet f)
delete-Agrees c last now m f k order a j = elim (Bool-cases (str_eq k j)) [
  | inl e ↦ rw (get-delete k j m) (rw e (closed-Shows c now))
  | inr e ↦
      rw (get-delete k j m) (rw e (Shows-later c last now (get_mem_state j m) (f j) order (a j)))
]

-- The breaker after a failure.
failure-Shows :
    (c : Config) (last now : ℕ) (b : Breaker) (h : History)
    → last ≤ now
    → Shows c last b h
    → let kept = keep_if (λ t. leb now (t + c.failure_window_ms)) b.failures ++ now ∷ [] in
      Shows c now
        (record {
          failures = kept;
          opened_at = if leb c.failure_threshold (length kept) then some now else b.opened_at;
        })
        (with_failure c now h)
unfolding with_failure
failure-Shows c last now b h order s = record {
  counts = λ later l.
      recent-snoc c later now (keep_if (λ t. leb now (t + c.failure_window_ms)) b.failures)
        h.failures (recent-keep c now later b.failures l ∙ s.counts later (omega arith));
  opens = λ later l. ground (
    arith,
    s.opens later,
    length-append (keep_if (λ t. leb now (t + c.failure_window_ms)) b.failures) (now ∷ []),
    length-kept c now b.failures,
    s.counts now,
  );
}

asked-Shows :
    (c : Config) (last now : ℕ) (b : Breaker) (h : History)
    → last ≤ now
    → Shows c last b h
    → Shows c now (record b { opened_at = (half_open c b.opened_at now).0 }) h
      × ((half_open c b.opened_at now).1 ≡ is_open c h.opened now)
asked-Shows c last now b h order s = (
  record {
    counts = λ later l. s.counts later (omega arith);
    opens = λ later l. stays_shut c now later b.opened_at l ∙ s.opens later (omega arith);
  },
  answers c now b.opened_at ∙ s.opens now order,
)

-- One event: the answers are the same, and the states agree afterwards.
run-Agrees :
    (c : Config) (last : ℕ) (m : Dict Breaker) (f : String → History) (es : List (ℕ × Event))
    → Ordered last es
    → Agrees c last m f
    → run c m es ≡ breaker_reference c f es
unfolding run breaker_reference mem_is_open mem_record_failure mem_record_success mem_reset
run-Agrees c last m f [] o a = refl
run-Agrees c last m f ((now, asked k) ∷ es) o a =
    let (shows, same) = asked-Shows c last now (get_mem_state k m) (f k) o.0 (a k) in
    ap₂ ◌∷◌ same (run-Agrees c now _ f es o.1 (asked-Agrees c last now m f k _ o.0 a shows))
run-Agrees c last m f ((now, failed k) ∷ es) o a = run-Agrees c now _ _ es o.1 (
    put-Agrees c last now m f k _ _ o.0 a
      (failure-Shows c last now (get_mem_state k m) (f k) o.0 (a k)))
run-Agrees c last m f ((now, succeeded k) ∷ es) o a =
    run-Agrees c now _ _ es o.1
      (put-Agrees c last now m f k closed none_yet o.0 a (closed-Shows c now))
run-Agrees c last m f ((now, reset k) ∷ es) o a =
    run-Agrees c now _ _ es o.1 (delete-Agrees c last now m f k o.0 a)

-- Starting from no state, and over every sequence of events whose times do not run backwards, the
-- breaker answers as the reference: a provider is open exactly during the open duration from its
-- last failure that, with the earlier ones since its last success or reset, reached the threshold
-- within the window. The trimming of old failures and the half-open reset do not show.
pub run-breaker_reference :
    (c : Config) (es : List (ℕ × Event))
    → Ordered 0 es
    → run c [] es ≡ breaker_reference c (λ k. none_yet) es
unfolding Maps.get
run-breaker_reference c es o = run-Agrees c 0 [] (λ k. none_yet) es o (λ k. closed-Shows c 0)
