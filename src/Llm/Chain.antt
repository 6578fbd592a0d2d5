-- ===== src/Llm/Chain.antt =====
-- lib/llm/index.js: the chain of providers (`buildChain`), the calls along it (`llmJson`) and the
-- timeout of one call (`withProviderTimeoutCap`). Outside the model are the providers, the hash in a
-- chain key and the clock: an entry carries whether it is an object (or a bare name), its key, the key
-- that is built again from its provider for the semaphore, whether `createProvider` knows it, what its
-- availability check answers and when, and what its call comes to. `none` for the chain timeout is
-- a value that is not positive, or a call without a start.
pub mod Laws
mod Tests
use memento_mcp.Base.{
  ℕ, ◌+◌, ◌-◌, ◌≡◌, String, Option, none, some, List, [], ◌∷◌, ◌++◌, Bool, true, false, leb,
  includes, str_eq, if◌then◌else◌, min, max, Outcome, ok, err, ◌||◌, ◌&&◌, is_text, first_some,
  or_else,
}

-- What a call of a provider comes to: its answer, or its error's message.
pub data Reply (V : Type 0) : Type 0 where
  result : V → Reply V
  fails : String → Reply V

-- An availability check answers, throws, or is cut off by the chain's deadline.
pub data Check : Type 0 where
  available unavailable throws cut_off : Check

pub record Entry (V : Type 0) : Type 0 where
  pub name : String
  pub is_object : Bool
  pub key : String
  pub slot_key : String
  pub known : Bool
  pub checked_at : ℕ
  pub check : Check
  pub called_at : ℕ
  pub slot : Bool
  pub waited_until : ℕ
  pub reply : Reply V

-- The chain's start and its timeout.
pub record Deadline : Type 0 where
  pub started_at : ℕ
  pub timeout_ms : Option ℕ

-- `remainingMs !== null && remainingMs <= 0`.
pub is_over : Deadline → ℕ → Bool
is_over d now = elim d.timeout_ms [ none ↦ false | some t ↦ leb (d.started_at + t) now ]

-- `getRemainingChainMs`, where it is positive.
pub remaining_ms : Deadline → ℕ → Option ℕ
remaining_ms d now = elim d.timeout_ms [ none ↦ none | some t ↦ some (d.started_at + t - now) ]

-- What a provider leaves in `errors`: the deadline, a wait that timed out, or its own message.
pub data Note : Type 0 where
  deadline_passed : Note
  wait_timed_out : String → Note
  failed_with : String → String → Note

pub data Error : Type 0 where
  chain_deadline_exceeded : Error
  no_provider_available : Error
  all_providers_failed : List Note → Error

-- What the loop of `llmJson` does to the semaphores and the providers, in order.
pub data Effect : Type 0 where
  acquired released called : String → Effect

pub record Run (V : Type 0) : Type 0 where
  pub effects : List Effect
  pub outcome : Outcome Error V

module _ {V : Type 0} where
  -- One entry that is new: it joins the chain if it is known and available, a check that throws
  -- passes it over, and the deadline ends everything.
  abbrev pub join :
      Deadline → Entry V → Outcome Error (List (Entry V)) → Outcome Error (List (Entry V))
  join d e rest =
      if e.known
      then if is_over d e.checked_at then err chain_deadline_exceeded else elim e.check [
        | available ↦ elim rest [ ok es ↦ ok (e ∷ es) | err x ↦ err x ]
        | unavailable ↦ rest
        | throws ↦ rest
        | cut_off ↦ err chain_deadline_exceeded
      ]
      else rest

  -- The loop of `buildChain` over the entries, with the keys seen before.
  pub build_from : Deadline → List String → List (Entry V) → Outcome Error (List (Entry V))
  build_from d seen [] = ok []
  build_from d seen (e ∷ es) =
      let skip = build_from d seen es in
      let rest = build_from d (e.key ∷ seen) es in
      if str_eq e.name "" then skip else if includes seen e.key then skip else join d e rest

  -- `LLM_FALLBACKS.find(f => f.provider === LLM_PRIMARY)`.
  pub find_provider : String → List (Entry V) → Option (Entry V)
  find_provider name [] = none
  find_provider name (e ∷ es) =
      if e.is_object && str_eq e.name name then some e else find_provider name es

  -- `buildChain`: the primary's own fallback entry if it has one, else the bare one, goes first.
  pub build_chain : Deadline → Entry V → List (Entry V) → Outcome Error (List (Entry V))
  unfolding build_from find_provider
  build_chain d bare fallbacks =
      build_from d [] (or_else (find_provider bare.name fallbacks) bare ∷ fallbacks)

  abbrev pub after : List Effect → Run V → Run V
  after done r = record { effects = done ++ r.effects; outcome = r.outcome }

  -- The answer of a call that was made, or the rest of the chain.
  abbrev pub answer_or : List Effect → Reply V → Run V → Run V
  answer_or done (result v) rest = record { effects = done; outcome = ok v }
  answer_or done (fails message) rest = after done rest

  abbrev pub give_up : List Note → Run V
  give_up errors = record { effects = []; outcome = err (all_providers_failed errors) }

  -- What the provider's call leaves in `errors`.
  abbrev pub failure : Entry V → List Note
  failure e = elim e.reply [ result v ↦ [] | fails message ↦ failed_with e.name message ∷ [] ]

  -- With a semaphore: a wait that times out is noted, or ends the chain if the deadline has passed;
  -- after a wait that ends too late the call is not made, and the slot is given back.
  pub call_loop : Bool → Deadline → List Note → List (Entry V) → Run V
  call_loop concurrency d errors [] = give_up errors
  call_loop concurrency d errors (e ∷ es) =
      let rest = call_loop concurrency d (errors ++ failure e) es in
      let late = call_loop concurrency d (errors ++ deadline_passed ∷ []) es in
      let blocked = call_loop concurrency d (errors ++ wait_timed_out e.name ∷ []) es in
      let over = give_up (errors ++ deadline_passed ∷ []) in
      if is_over d e.called_at
      then over
      else if concurrency
      then if e.slot
        then if is_over d e.waited_until
          then after (acquired e.slot_key ∷ released e.slot_key ∷ []) late
          else answer_or (acquired e.slot_key ∷ called e.slot_key ∷ released e.slot_key ∷ [])
              e.reply rest
        else if is_over d e.waited_until
        then over
        else blocked
      else answer_or (called e.slot_key ∷ []) e.reply rest

  -- `llmJson` over the chain that was built.
  pub call_chain : Bool → Deadline → Outcome Error (List (Entry V)) → Run V
  unfolding call_loop
  call_chain concurrency d (err x) = record { effects = []; outcome = err x }
  call_chain concurrency d (ok []) = record { effects = []; outcome = err no_provider_available }
  call_chain concurrency d (ok (e ∷ es)) = call_loop concurrency d [] (e ∷ es)

  pub llm_json : Bool → Deadline → Entry V → List (Entry V) → Run V
  unfolding call_chain build_chain
  llm_json concurrency d bare fallbacks = call_chain concurrency d (build_chain d bare fallbacks)

-- `withProviderTimeoutCap`: the first of the caller's, the provider's and the global timeout, capped
-- to what remains of the chain, and at least 1 if there is a cap.
pub with_provider_timeout_cap : Option ℕ → Option ℕ → Option ℕ → Option ℕ → Option ℕ
with_provider_timeout_cap options provider global remaining =
    let configured = first_some options (first_some provider global) in
    elim remaining [
      | none ↦ configured
      | some left ↦ some (max 1 (min (or_else configured left) left))
    ]
