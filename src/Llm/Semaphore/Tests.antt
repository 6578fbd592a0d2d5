-- ===== src/Llm/Semaphore/Tests.antt =====
-- Two callers for one slot.
use memento_mcp.Base.{◌≡◌, refl, [], ◌∷◌}
use memento_mcp.Llm.Semaphore.{
  World, start, create_semaphore, acquire, release, acquires, Reach, begin, next,
}
use memento_mcp.Llm.Semaphore.Bounds.{Inv, Reach-start-Inv}

abbrev contended : World
contended = record { sem = record { limit = 1; active = 1; waiters = 2 ∷ [] }; holders = 1 ∷ [] }

contended_reached : Reach (start 1) contended
unfolding create_semaphore acquire
contended_reached = next (next begin (acquires (start 1) 1)) (acquires _ 2)

Reach-start-Inv_example : Inv contended
Reach-start-Inv_example = Reach-start-Inv 1 contended_reached

-- The slot goes to the one who waits.
handed_over : (release contended.sem).0.active ≡ 1
unfolding release
handed_over = refl
