-- ===== src/Llm/Semaphore/Bounds.antt =====
-- What holds of a semaphore and its callers at every moment.
use memento_mcp.Base.{ℕ, suc, ◌≤◌, ◌≡◌, refl, ◌⊎◌, ap, inl, inr, List, [], ◌∷◌, length, arith}
use memento_mcp.Llm.Semaphore.{
  Semaphore, create_semaphore, acquire, time_out, release_to, release, World, start, add_some,
  Holds, here, there, Step, acquires, times_out, releases, Reach, begin, next,
}

pub record Inv (w : World) : Type 0 where
  pub counted : length w.holders ≡ w.sem.active
  pub capped : w.sem.active ≤ w.sem.limit
  pub busy : (w.sem.waiters ≡ []) ⊎ (w.sem.active ≡ w.sem.limit)

Holds-length : {c : ℕ} {cs rest : List ℕ} → Holds c cs rest → length cs ≡ suc (length rest)
Holds-length here = refl
Holds-length (there h) = ap suc (Holds-length h)

release-Inv :
    (s : Semaphore) (ws : List ℕ) (cs others : List ℕ)
    → s.waiters ≡ ws
    → length cs ≡ suc (length others)
    → Inv (record { sem = s; holders = cs })
    → Inv (record { sem = (release_to s ws).0; holders = add_some (release_to s ws).1 others })
unfolding release_to
release-Inv s [] cs others e h v = record {
  counted = ground arith;
  capped = ground arith;
  busy = inl e;
}
release-Inv s (w ∷ ws) cs others e h v = record {
  counted = ground arith;
  capped = ground arith;
  busy = inr (ground arith);
}

Step-Inv : {v w : World} → Step v w → Inv v → Inv w
unfolding acquire release time_out
Step-Inv (acquires w c) v = ground arith
Step-Inv (times_out w c) v = ground arith
Step-Inv (releases w c others h) v =
    release-Inv w.sem w.sem.waiters w.holders others refl (Holds-length h) v

Reach-Inv : {v w : World} → Reach v w → Inv v → Inv w
Reach-Inv begin v = v
Reach-Inv (next r s) v = Step-Inv s (Reach-Inv r v)

-- However calls, timers and releases are interleaved, the number of callers that hold a slot is the
-- active count and never above the limit, and nobody waits while a slot is free.
pub Reach-start-Inv : (limit : ℕ) {w : World} → Reach (start limit) w → Inv w
unfolding create_semaphore
Reach-start-Inv limit r =
    Reach-Inv r (record { counted = refl; capped = omega arith; busy = inl refl })
