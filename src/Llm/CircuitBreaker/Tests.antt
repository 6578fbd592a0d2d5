-- ===== src/Llm/CircuitBreaker/Tests.antt =====
-- One provider's failures at concrete times.
use memento_mcp.Base.{ℕ, ◌≡◌, refl, List, [], ◌∷◌, true, false, arith}
use memento_mcp.Base.Maps
use memento_mcp.Llm.CircuitBreaker.{Config, mem_is_open, mem_record_failure}
use memento_mcp.Llm.CircuitBreaker.Reference.{
  Event, asked, failed, none_yet, run, breaker_reference, run-breaker_reference,
}

abbrev config : Config
config = record { failure_threshold = 2; open_duration_ms = 100; failure_window_ms = 50 }

abbrev events : List (ℕ × Event)
events =
    (0, failed "openai")
    ∷ (10, failed "groq")
    ∷ (40, failed "openai")
    ∷ (41, asked "openai")
    ∷ (42, asked "groq")
    ∷ (140, asked "openai")
    ∷ (150, failed "openai")
    ∷ (151, asked "openai")
    ∷ []

run-events : run config [] events ≡ true ∷ false ∷ false ∷ false ∷ []
unfolding run mem_is_open mem_record_failure Maps.get Maps.put
run-events = refl

breaker_example : run config [] events ≡ breaker_reference config (λ k. none_yet) events
breaker_example = run-breaker_reference config events (omega arith)
