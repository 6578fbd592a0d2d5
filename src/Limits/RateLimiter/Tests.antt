-- ===== src/Limits/RateLimiter/Tests.antt =====
-- Runs of the limiters of lib/rate-limiter.js at concrete inputs.
use memento_mcp.Base.{ℕ, ◌≡◌, refl, List, [], ◌∷◌, Bool, true, false, arith}
use memento_mcp.Base.Maps
use memento_mcp.Limits.RateLimiter.{new, shift_expired, allow, cleanup}
use memento_mcp.Limits.RateLimiter.Reference.{
  Call, request, sweep, run, reference_run, run-reference_run,
}

abbrev burst : List (ℕ × Call)
burst =
    (0, request "a")
    ∷ (10, request "a")
    ∷ (20, request "b")
    ∷ (30, request "a")
    ∷ (90, sweep)
    ∷ (101, request "a")
    ∷ (102, request "a")
    ∷ (111, request "a")
    ∷ []

abbrev answers : List Bool
answers = true ∷ true ∷ true ∷ false ∷ true ∷ false ∷ true ∷ []

run-burst : run (new 100 2) burst ≡ answers
unfolding run new allow cleanup shift_expired Maps.get Maps.put
run-burst = refl

run-reference_run_example : run (new 100 2) burst ≡ reference_run 100 2 [] burst
run-reference_run_example = run-reference_run 100 2 burst (omega arith)
