-- ===== src/Llm/Chain/Laws.antt =====
-- The chain of providers: which provider answers, what is done to the semaphores, and the timeouts.
use memento_mcp.Base.{
  ℕ, ◌≤◌, ◌≡◌, refl, ◌⊎◌, ◌↔◌, inl, inr, Bool-cases, String, List, [], ◌∷◌, ◌++◌, Option, some,
  Bool, true, false, arith, includes, str_eq, Outcome, ok, err, first_some, or_else, min, max,
}
use memento_mcp.Llm.Chain.{
  result, fails, available, Entry, Deadline, is_over, Note, Error, deadline_passed, wait_timed_out,
  Effect, acquired, released, called, join, build_from, find_provider, build_chain, failure,
  call_loop, call_chain, llm_json, with_provider_timeout_cap,
}

-- Every slot that is taken is given back before anything else is taken, and a provider is called
-- only with its slot held.
abbrev pub Bracketed : List Effect → Type 0
Bracketed [] = Unit
Bracketed (acquired k ∷ released j ∷ rest) = (k ≡ j) × Bracketed rest
Bracketed (acquired k ∷ called j ∷ released l ∷ rest) = (k ≡ j) × (k ≡ l) × Bracketed rest
Bracketed _ = ⊥

module _ {V : Type 0} where
  call_loop-Bracketed :
      (d : Deadline) (errors : List Note) (es : List (Entry V))
      → Bracketed (call_loop true d errors es).effects
  unfolding call_loop
  call_loop-Bracketed d errors [] = tt
  call_loop-Bracketed d errors (e ∷ es) = ground (
    arith,
    call_loop-Bracketed d (errors ++ failure e) es,
    call_loop-Bracketed d (errors ++ deadline_passed ∷ []) es,
    call_loop-Bracketed d (errors ++ wait_timed_out e.name ∷ []) es,
  )

  call_chain-Bracketed :
      (d : Deadline) (o : Outcome Error (List (Entry V))) → Bracketed (call_chain true d o).effects
  unfolding call_chain
  call_chain-Bracketed d (err x) = tt
  call_chain-Bracketed d (ok []) = tt
  call_chain-Bracketed d (ok (e ∷ es)) = call_loop-Bracketed d [] (e ∷ es)

  -- The provider is called, in time and with a slot if slots are used, and answers `v`.
  abbrev pub Serves : Bool → Deadline → Entry V → V → Type 0
  Serves concurrency d e v =
      (is_over d e.called_at ≡ false)
      × ((concurrency ≡ false) ⊎ (e.slot ≡ true) × (is_over d e.waited_until ≡ false))
      × (e.reply ≡ result v)

  -- The provider is passed over: its call fails, or there is no slot for it, or the wait for the
  -- slot ends too late for the call.
  abbrev pub Passes : Bool → Deadline → Entry V → Type 0
  Passes concurrency d e =
      (is_over d e.called_at ≡ false)
      × (((concurrency ≡ false) ⊎ (e.slot ≡ true) × (is_over d e.waited_until ≡ false))
            × ((m : String) × (e.reply ≡ fails m))
          ⊎ (concurrency ≡ true) × (e.slot ≡ false) × (is_over d e.waited_until ≡ false)
          ⊎ (concurrency ≡ true) × (e.slot ≡ true) × (is_over d e.waited_until ≡ true))

  -- Some provider answers `v`, and all before it are passed over.
  abbrev pub First : Bool → Deadline → List (Entry V) → V → Type 0
  First concurrency d [] v = ⊥
  First concurrency d (e ∷ es) v =
      Serves concurrency d e v ⊎ Passes concurrency d e × First concurrency d es v

  call_loop_sound :
      (c : Bool) (d : Deadline) (errors : List Note) (es : List (Entry V)) (v : V)
      → (call_loop c d errors es).outcome ≡ ok v
      → First c d es v
  unfolding call_loop
  call_loop_sound c d errors [] v h = absurd (cc)
  call_loop_sound c d errors (e ∷ es) v h = ground (
    arith,
    call_loop_sound c d (errors ++ failure e) es v,
    call_loop_sound c d (errors ++ deadline_passed ∷ []) es v,
    call_loop_sound c d (errors ++ wait_timed_out e.name ∷ []) es v,
  )

  call_loop_complete :
      (c : Bool) (d : Deadline) (errors : List Note) (es : List (Entry V)) (v : V)
      → First c d es v
      → (call_loop c d errors es).outcome ≡ ok v
  unfolding call_loop
  call_loop_complete c d errors [] v h = absurd h
  call_loop_complete c d errors (e ∷ es) v (inl s) = ground arith
  call_loop_complete c d errors (e ∷ es) v (inr p) = ground (
    arith,
    call_loop_complete c d (errors ++ failure e) es v,
    call_loop_complete c d (errors ++ deadline_passed ∷ []) es v,
    call_loop_complete c d (errors ++ wait_timed_out e.name ∷ []) es v,
  )

  -- With semaphores every slot that a request takes is given back, also when the call fails or the
  -- deadline passes, and no provider is called without its slot.
  pub llm_json-Bracketed :
      (d : Deadline) (bare : Entry V) (fallbacks : List (Entry V))
      → Bracketed (llm_json true d bare fallbacks).effects
  unfolding llm_json
  llm_json-Bracketed d bare fallbacks = call_chain-Bracketed d (build_chain d bare fallbacks)

  -- A request over a chain returns `v` exactly when some provider of the chain is called in time,
  -- with a slot if slots are used, and answers `v`, and every provider before it is passed over.
  pub call_chain-First :
      (concurrency : Bool) (d : Deadline) (es : List (Entry V)) (v : V)
      → ((call_chain concurrency d (ok es)).outcome ≡ ok v) ↔ First concurrency d es v
  unfolding call_chain
  call_chain-First c d [] v = (λ h. absurd (cc), λ h. absurd h)
  call_chain-First c d (e ∷ es) v =
      (call_loop_sound c d [] (e ∷ es) v, call_loop_complete c d [] (e ∷ es) v)

  -- No key of the list is among the seen ones or comes twice, and every entry is known and available.
  abbrev pub IsChain : List String → List (Entry V) → Type 0
  IsChain seen [] = Unit
  IsChain seen (e ∷ es) =
      (includes seen e.key ≡ false)
      × (e.known ≡ true)
      × (e.check ≡ available)
      × IsChain (e.key ∷ seen) es

  -- A chain for more seen keys is one for fewer.
  IsChain-fewer :
      (seen more : List String) (es : List (Entry V))
      → ((k : String) → includes more k ≡ false → includes seen k ≡ false)
      → IsChain more es
      → IsChain seen es
  IsChain-fewer seen more [] sub h = tt
  IsChain-fewer seen more (e ∷ es) sub h = (
    sub e.key h.0,
    h.1,
    h.2,
    IsChain-fewer (e.key ∷ seen) (e.key ∷ more) es (λ k n. ground (arith, sub k)) h.3,
  )

  IsChain-cons :
      (k : String) (seen : List String) (es : List (Entry V))
      → IsChain (k ∷ seen) es
      → IsChain seen es
  IsChain-cons k seen es h = IsChain-fewer seen (k ∷ seen) es (λ j n. ground arith) h

  join-IsChain :
      (d : Deadline) (seen : List String) (e : Entry V) (rest : Outcome Error (List (Entry V)))
      (out : List (Entry V))
      → includes seen e.key ≡ false
      → ((es : List (Entry V)) → rest ≡ ok es → IsChain (e.key ∷ seen) es)
      → join d e rest ≡ ok out
      → IsChain seen out
  join-IsChain d seen e (err x) out new tail h = absurd (ground arith)
  join-IsChain d seen e (ok es) out new tail h =
      ground (arith, tail es refl, IsChain-cons e.key seen es)

  build_from-IsChain :
      (d : Deadline) (seen : List String) (es out : List (Entry V))
      → build_from d seen es ≡ ok out
      → IsChain seen out
  unfolding build_from
  build_from-IsChain d seen [] out h = ground arith
  build_from-IsChain d seen (e ∷ es) out h = elim (Bool-cases (str_eq e.name "")) [
    | inl unnamed ↦ build_from-IsChain d seen es out (rw unnamed at h)
    | inr named ↦ elim (Bool-cases (includes seen e.key)) [
      | inl old ↦ build_from-IsChain d seen es out (rw (named, old) at h)
      | inr new ↦
          join-IsChain d seen e (build_from d (e.key ∷ seen) es) out new
            (λ rest k. build_from-IsChain d (e.key ∷ seen) es rest k) (rw (named, new) at h)
    ]
  ]

  -- A chain that is built holds no key twice, and only providers that are known and were found
  -- available.
  pub build_chain-IsChain :
      (d : Deadline) (bare : Entry V) (fallbacks out : List (Entry V))
      → build_chain d bare fallbacks ≡ ok out
      → IsChain [] out
  unfolding build_chain
  build_chain-IsChain d bare fallbacks out h =
      build_from-IsChain d [] (or_else (find_provider bare.name fallbacks) bare ∷ fallbacks) out h

-- With what remains of the chain known and positive, a call's timeout lies between 1 and what
-- remains; it is never more than the first of the configured timeouts that is set, if that is
-- positive.
pub timeout_bounds :
    (options provider global : Option ℕ) (left : ℕ)
    → 1 ≤ left
    → (t : ℕ) × (with_provider_timeout_cap options provider global (some left) ≡ some t)
      × (1 ≤ t)
      × (t ≤ left)
      × (1 ≤ or_else (first_some options (first_some provider global)) left
          → t ≤ or_else (first_some options (first_some provider global)) left)
unfolding with_provider_timeout_cap
timeout_bounds options provider global left h = (
  max 1 (min (or_else (first_some options (first_some provider global)) left) left),
  refl,
  omega arith,
  omega arith,
  λ k. omega arith,
)
