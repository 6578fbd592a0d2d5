-- ===== src/Memory/Remember.antt =====
-- lib/memory/processors/MemoryRememberer.js: one fragment through its gates (the session's memory,
-- the idempotency key, the dry run, the quota, the policy) and what is done once it is stored. The
-- factory, the stores and the checks it calls are parameters: each answers or throws. A run lists
-- the effects in their order.
pub mod Data
pub mod Rows
pub mod Stores
pub mod Paths
pub mod Gates
mod Tests
pub use Data.*
use memento_mcp.Base.{
  ℕ, String, Option, none, some, List, [], ◌∷◌, ◌++◌, Bool, true, false, if◌then◌else◌, ltb, leb,
  truthy, is_some, or_else, first_some, includes, not, ◌&&◌, str_eq, is_text, map, Outcome, ok, err,
}

-- `for (const oldId of params.supersedes)`: what throws is logged.
pub supersede_all : String → List String → List Effect
supersede_all id [] = []
supersede_all id (old ∷ olds) =
    if str_eq old id then supersede_all id olds else superseded old ∷ supersede_all id olds

pub is_low : Fragment → Bool
is_low f = ltb (or_else f.importance 500) 300

-- The end of both paths: the links, the tier of an unimportant fragment, the case event.
pub settle : Config → Params → Fragment → String → String → List String → List String → Run Answer
unfolding supersede_all is_low
settle config params f id scope warnings conflicts =
    let lowered = is_low f && not (is_some (truthy params.ttl_tier)) in
    record {
      effects =
          auto_linked ∷ supersede_all id params.supersedes
          ++ ((if lowered then ttl_lowered id ∷ [] else [])
              ++ (if is_some (truthy f.case_id) && config.case_events
                  then case_recorded id ∷ []
                  else []));
      outcome = ok (
          stored (record {
            id = id;
            ttl_tier = if lowered then "short" else f.ttl_tier;
            scope = scope;
            conflicts = conflicts;
            warnings = warnings;
            low_importance = is_low f;
          }));
    }

-- What follows the insert: the index, the post-processor and the conflicts can throw.
pub finalize : Config → World → Params → Fragment → String → List String → String → Run Answer
unfolding settle
finalize config w params f scope warnings id = ask w.index (λ u. after (indexed ∷ []) (
    ask w.post_process (λ v.
      after (post_processed ∷ []) (
        ask w.detect_conflicts (λ conflicts. settle config params f id scope warnings conflicts)))))

-- `store.insert` and what follows.
pub insert_fragment : Config → World → Params → Fragment → String → List String → Run Answer
unfolding finalize
insert_fragment config w params f scope warnings =
    ask w.insert (λ id. after (inserted id ∷ []) (finalize config w params f scope warnings id))

-- The gate: the warnings, or the violations a hard gate refuses. Only the refusal leaves the `try`;
-- what `check` throws, or the gate's lookup after the warnings are kept, is logged.
pub hard_gate : World → Option String → List String → Outcome Error (List String)
hard_gate w none vs = ok vs
hard_gate w (some key) vs = elim w.get_hard_gate [
  | err message ↦ ok vs
  | ok true ↦ err (policy_violation vs)
  | ok false ↦ ok vs
]

pub policy_of : World → Option String → Outcome String (List String) → Outcome Error (List String)
unfolding hard_gate
policy_of w key_id (err message) = ok []
policy_of w key_id (ok []) = ok []
policy_of w key_id (ok (v ∷ vs)) = hard_gate w key_id (v ∷ vs)

pub policy_gate : Config → World → Option String → Outcome Error (List String)
unfolding policy_of
policy_gate config w key_id =
    if config.policy_active then policy_of w key_id w.check_policy else ok []

-- The gate and the insert, outside a transaction.
pub gated_insert : Config → World → Params → Fragment → Outcome Error (List String) → Run Answer
unfolding insert_fragment
gated_insert config w params f (err e) = throw [] e
gated_insert config w params f (ok warnings) =
    insert_fragment config w params f "permanent" warnings

-- The transaction once the limit is checked: the write, and its commit.
pub write_fragment : Config → World → Transaction → Params → Fragment → Run Answer
unfolding finalize
write_fragment config w tx params f = elim tx.write [
  | err message ↦ throw (rolled_back ∷ released ∷ []) (thrown message)
  | ok id ↦ elim tx.commit [
    | err message ↦ throw (written id ∷ rolled_back ∷ released ∷ []) (thrown message)
    | ok u ↦
        after (written id ∷ committed id ∷ released ∷ [])
          (finalize config w params f "persistent" [] id)
  ]
]

-- The limit against the count; a key that has reached it is rolled back twice, by the check and by
-- the handler of its error.
pub limited_write :
    Config → World → Transaction → Params → Fragment → ℕ → Outcome String ℕ → Run Answer
unfolding write_fragment
limited_write config w tx params f limit (err message) =
    throw (rolled_back ∷ released ∷ []) (thrown message)
limited_write config w tx params f limit (ok count) =
    if leb limit count
    then throw (rolled_back ∷ rolled_back ∷ released ∷ []) (fragment_limit_exceeded count limit)
    else write_fragment config w tx params f

pub write_row :
    Config
    → World
    → Transaction
    → Params
    → Fragment
    → Outcome String (Option (Option ℕ))
    → Run Answer
unfolding limited_write
write_row config w tx params f (err message) = throw (rolled_back ∷ released ∷ []) (thrown message)
write_row config w tx params f (ok none) = write_fragment config w tx params f
write_row config w tx params f (ok (some none)) = write_fragment config w tx params f
write_row config w tx params f (ok (some (some limit))) =
    limited_write config w tx params f limit tx.count

-- `_rememberAtomic`: without a pool, the checks and the insert outside a transaction.
pub remember_atomic : Config → World → Transaction → Params → Fragment → Run Answer
unfolding insert_fragment write_row
remember_atomic config w tx params f =
    if tx.pool
    then elim tx.set_up [
      | err message ↦ throw (rolled_back ∷ released ∷ []) (thrown message)
      | ok u ↦ write_row config w tx params f tx.limit_row
    ]
    else ask w.check_quota (λ u. insert_fragment config w params f "persistent" [])

-- `atomicRemember && keyId`.
pub is_atomic : Config → Params → Bool
is_atomic config params = config.atomic && is_some (truthy params.key_id)

-- The fragment is made with its case, and goes on to either path.
pub create_and_store : Config → World → Transaction → Params → Run Answer
unfolding gated_insert policy_gate remember_atomic is_atomic
create_and_store config w tx params = ask (w.create params) (λ f.
    if is_atomic config params
    then remember_atomic config w tx params f
    else gated_insert config w params f (policy_gate config w params.key_id))

abbrev pub with_case : Params → String → Params
with_case params case_id = record params { case_id = some case_id }

-- A procedure or a decision after errors: they are put in a new case together.
pub fill_case : Config → World → Transaction → Params → List String → Run Answer
unfolding create_and_store
fill_case config w tx params [] = create_and_store config w tx params
fill_case config w tx params (e ∷ es) =
    after (map case_filled (e ∷ es)) (create_and_store config w tx (with_case params w.random_uuid))

-- The case of the session and the topic, if there is one; else an error starts one.
pub find_case : Config → World → Transaction → Params → Run Answer
unfolding fill_case
find_case config w tx params = ask w.find_case_id (λ found. elim (truthy found) [
  | some c ↦ create_and_store config w tx (with_case params c)
  | none ↦
      if is_text "error" params.kind
      then create_and_store config w tx (with_case params w.random_uuid)
      else ask w.find_error_fragments (λ ids. fill_case config w tx params ids)
])

abbrev pub auto_case_types : List String
auto_case_types = "error" ∷ "procedure" ∷ "decision" ∷ []

pub needs_case : Params → Bool
needs_case params =
    not (is_some (truthy params.case_id))
    && (is_some (truthy params.session_id)
        && (is_some (truthy params.topic) && includes auto_case_types (or_else params.kind "")))

pub assign_case : Config → World → Transaction → Params → Run Answer
unfolding find_case needs_case
assign_case config w tx params =
    if needs_case params then find_case config w tx params else create_and_store config w tx params

-- The quota, checked first unless the transaction will.
pub check_first : Config → World → Transaction → Params → Run Answer
unfolding assign_case
check_first config w tx params =
    if is_atomic config params
    then assign_case config w tx params
    else ask w.check_quota (λ u. assign_case config w tx params)

-- The plan of a dry run: what the checks throw is left out.
pub policy_warnings : Config → World → List String
policy_warnings config w =
    if config.policy_active then elim w.check_policy [ err message ↦ [] | ok vs ↦ vs ] else []

pub dry_run_or_store : Config → World → Transaction → Params → Run Answer
unfolding check_first policy_warnings
dry_run_or_store config w tx params =
    if params.dry_run
    then ask (w.create params) (λ f. return (simulated (policy_warnings config w)))
    else check_first config w tx params

-- An idempotency key that is known returns the fragment it was given to.
pub find_existing : Config → World → Transaction → Params → Run Answer
unfolding dry_run_or_store
find_existing config w tx params =
    if is_some (truthy params.idempotency_key)
    then ask w.find_by_idempotency_key (λ found. elim found [
      | some id ↦ return (existing id)
      | none ↦ dry_run_or_store config w tx params
    ])
    else dry_run_or_store config w tx params

-- `scope === "session" && sessionId`.
pub in_session_scope : Params → Bool
in_session_scope params =
    str_eq (or_else (truthy params.scope) "permanent") "session"
    && is_some (truthy params.session_id)

-- `remember(params)`.
pub remember : Config → World → Transaction → Params → Run Answer
unfolding find_existing in_session_scope
remember config w tx params =
    if in_session_scope params
    then ask (w.create params) (λ f.
      ask w.working_memory
        (λ u. after (remembered_in_session f.id ∷ []) (return (in_session f.id))))
    else find_existing config w tx params
