-- ===== src/Llm/CircuitBreaker.antt =====
-- lib/llm/util/circuit-breaker.js with the states in memory (REDIS_ENABLED is false). The three
-- environment variables are the record `Config`, and `Date.now()` is an argument. The differences of
-- times are read over the natural numbers as sums on the other side, which is the same test.
pub mod Reference
mod Tests
use memento_mcp.Base.{
  ℕ, ◌+◌, String, Option, none, some, List, [], ◌∷◌, ◌++◌, Bool, true, false, leb, length, keep_if,
  or_else, if◌then◌else◌, Dict,
}
use memento_mcp.Base.Maps

pub record Config : Type 0 where
  pub failure_threshold : ℕ
  pub open_duration_ms : ℕ
  pub failure_window_ms : ℕ

pub record Breaker : Type 0 where
  pub failures : List ℕ
  pub opened_at : Option ℕ

abbrev pub closed : Breaker
closed = record { failures = []; opened_at = none }

-- `getMemState`, whose new entry is stored by each caller below.
abbrev pub get_mem_state : String → Dict Breaker → Breaker
get_mem_state name m = or_else (Maps.get name m) closed

-- What `memIsOpen` makes of the time of opening: after the duration it is forgotten (half-open).
pub half_open : Config → Option ℕ → ℕ → Option ℕ × Bool
half_open c none now = (none, false)
half_open c (some t) now =
    if leb (t + c.open_duration_ms) now then (none, false) else (some t, true)

pub mem_is_open : Config → Dict Breaker → String → ℕ → Dict Breaker × Bool
unfolding half_open
mem_is_open c m name now =
    let s = get_mem_state name m in
    let (opened, answer) = half_open c s.opened_at now in
    (Maps.put name (record s { opened_at = opened }) m, answer)

pub mem_record_failure : Config → Dict Breaker → String → ℕ → Dict Breaker
mem_record_failure c m name now =
    let s = get_mem_state name m in
    let failures = keep_if (λ ts. leb now (ts + c.failure_window_ms)) s.failures ++ now ∷ [] in
    let opened = if leb c.failure_threshold (length failures) then some now else s.opened_at in
    Maps.put name (record { failures = failures; opened_at = opened }) m

pub mem_record_success : Dict Breaker → String → Dict Breaker
mem_record_success m name = Maps.put name closed m

pub mem_reset : Dict Breaker → String → Dict Breaker
mem_reset m name = Maps.delete name m
