-- ===== src/Llm/Semaphore.antt =====
-- lib/llm/util/semaphore.js. A waiter is the number of its timer. The asynchronous part is a step
-- relation: a call that acquires, a holder that releases, a timer that fires. `_active--` runs only
-- for a slot that is held, so the truncated difference is exact there (`Semaphore.Bounds`).
pub mod Bounds
mod Tests
use memento_mcp.Base.{
  ℕ, ◌+◌, ◌-◌, ◌≡◌, String, Option, none, some, List, [], ◌∷◌, ◌++◌, Bool, true, false, ltb, leb,
  ◌==◌, length, or_else, if◌then◌else◌, Dict, max, min, maxb,
}
use memento_mcp.Base.Maps

pub record Semaphore : Type 0 where
  pub limit : ℕ
  pub active : ℕ
  pub waiters : List ℕ

pub create_semaphore : ℕ → Semaphore
create_semaphore limit = record { limit = limit; active = 0; waiters = [] }

-- `acquire`: the slot is given at once, or the caller waits.
pub acquire : Semaphore → ℕ → Semaphore × Bool
acquire s timer =
    if ltb s.active s.limit
    then (record s { active = s.active + 1 }, true)
    else (record s { waiters = s.waiters ++ timer ∷ [] }, false)

-- `findIndex` and `splice`: the first waiter with the timer is taken out.
pub take_out : ℕ → List ℕ → List ℕ
take_out timer [] = []
take_out timer (w ∷ ws) = if w == timer then ws else w ∷ take_out timer ws

-- The callback of `setTimeout`.
pub time_out : Semaphore → ℕ → Semaphore
unfolding take_out
time_out s timer = record s { waiters = take_out timer s.waiters }

pub release_to : Semaphore → List ℕ → Semaphore × Option ℕ
release_to s [] = (record s { active = s.active - 1 }, none)
release_to s (w ∷ ws) = (record s { waiters = ws }, some w)

-- `release`: the slot goes to the first waiter, who is returned, or is free again.
pub release : Semaphore → Semaphore × Option ℕ
unfolding release_to
release s = release_to s s.waiters

-- `getSemaphore`: the first limit of a key is kept.
pub get_semaphore : Dict Semaphore → String → ℕ → Dict Semaphore × Semaphore
unfolding create_semaphore
get_semaphore cache key limit = elim (Maps.get key cache) [
  | some s ↦ (cache, s)
  | none ↦ (Maps.put key (create_semaphore limit) cache, create_semaphore limit)
]

-- A semaphore among its callers: who holds a slot.
pub record World : Type 0 where
  pub sem : Semaphore
  pub holders : List ℕ

abbrev pub start : ℕ → World
start limit = record { sem = create_semaphore limit; holders = [] }

abbrev pub add_if : Bool → ℕ → List ℕ → List ℕ
add_if b c cs = if b then c ∷ cs else cs

abbrev pub add_some : Option ℕ → List ℕ → List ℕ
add_some none cs = cs
add_some (some c) cs = c ∷ cs

-- A caller that holds a slot, between the others.
pub data Holds (c : ℕ) : List ℕ → List ℕ → Type 0 where
  here : {cs : List ℕ} → Holds c (c ∷ cs) cs
  there : {d : ℕ} {cs rest : List ℕ} → Holds c cs rest → Holds c (d ∷ cs) (d ∷ rest)

-- Any caller may acquire, any waiter's timer may fire, and whoever holds a slot may release it.
pub data Step : World → World → Type 0 where
  acquires :
      (w : World) (c : ℕ)
      → Step w
          (record { sem = (acquire w.sem c).0; holders = add_if (acquire w.sem c).1 c w.holders })
  times_out : (w : World) (c : ℕ) → Step w (record w { sem = time_out w.sem c })
  releases :
      (w : World) (c : ℕ) (others : List ℕ)
      → Holds c w.holders others
      → Step w (record { sem = (release w.sem).0; holders = add_some (release w.sem).1 others })

pub data Reach (w : World) : World → Type 0 where
  begin : Reach w w
  next : {v u : World} → Reach w v → Step v u → Reach w u
