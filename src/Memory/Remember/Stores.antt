-- ===== src/Memory/Remember/Stores.antt =====
-- What a call of `remember` stores: one row at most, and the one it answers with.
use memento_mcp.Base.{
  ℕ, refl, inl, inr, String, Option, none, some, List, [], ◌∷◌, leb, truthy, is_some, is_text, map,
  arith, Bool-cases, Option-cases, Outcome, Outcome-cases, ok, err,
}
use memento_mcp.Memory.Remember.{
  Params, Fragment, Config, World, Transaction, case_filled, Error, simulated, return,
  insert_fragment, policy_gate, gated_insert, write_fragment, limited_write, write_row,
  remember_atomic, is_atomic, create_and_store, with_case, fill_case, find_case, needs_case,
  assign_case, check_first, policy_warnings, dry_run_or_store, find_existing, in_session_scope,
  remember,
}
use memento_mcp.Memory.Remember.Rows.{
  RunStores, if_RunStores, ask-RunStores, after-RunStores, Finishes-Stores, finalize-Finishes, kept,
  Stores, case_filled-kept,
}

insert_fragment-RunStores :
    (config : Config) (w : World) (params : Params) (f : Fragment) (scope : String)
    (warnings : List String)
    → RunStores (insert_fragment config w params f scope warnings)
unfolding insert_fragment
insert_fragment-RunStores config w params f scope warnings =
    ask-RunStores w.insert _
      (λ id. Finishes-Stores id _ _ (finalize-Finishes config w params f scope warnings id))

gated_insert-RunStores :
    (config : Config) (w : World) (params : Params) (f : Fragment) (o : Outcome Error (List String))
    → RunStores (gated_insert config w params f o)
unfolding gated_insert
gated_insert-RunStores config w params f (err e) = omega arith
gated_insert-RunStores config w params f (ok ws) =
    insert_fragment-RunStores config w params f "permanent" ws

write_fragment-RunStores :
    (config : Config) (w : World) (tx : Transaction) (params : Params) (f : Fragment)
    → RunStores (write_fragment config w tx params f)
unfolding write_fragment
write_fragment-RunStores config w tx params f = elim (Outcome-cases tx.write) [
  | inr e ↦ rw e.1 (omega arith)
  | inl e ↦ elim (Outcome-cases tx.commit) [
    | inr c ↦ rw (e.1, c.1) (omega arith)
    | inl c ↦
        rw (e.1, c.1)
          (Finishes-Stores e.0 _ _ (finalize-Finishes config w params f "persistent" [] e.0))
  ]
]

write_row-RunStores :
    (config : Config) (w : World) (tx : Transaction) (params : Params) (f : Fragment)
    (row : Outcome String (Option (Option ℕ)))
    → RunStores (write_row config w tx params f row)
unfolding write_row limited_write
write_row-RunStores config w tx params f (err message) = omega arith
write_row-RunStores config w tx params f (ok none) = write_fragment-RunStores config w tx params f
write_row-RunStores config w tx params f (ok (some none)) =
    write_fragment-RunStores config w tx params f
write_row-RunStores config w tx params f (ok (some (some limit))) = elim (Outcome-cases tx.count) [
  | inr e ↦ rw e.1 (omega arith)
  | inl e ↦ elim (Bool-cases (leb limit e.0)) [
    | inl b ↦ rw (e.1, b) (omega arith)
    | inr b ↦ rw (e.1, b) (write_fragment-RunStores config w tx params f)
  ]
]

remember_atomic-RunStores :
    (config : Config) (w : World) (tx : Transaction) (params : Params) (f : Fragment)
    → RunStores (remember_atomic config w tx params f)
unfolding remember_atomic
remember_atomic-RunStores config w tx params f = elim (Bool-cases tx.pool) [
  | inr p ↦ rw p (
      ask-RunStores w.check_quota _
        (λ u. insert_fragment-RunStores config w params f "persistent" []))
  | inl p ↦ elim (Outcome-cases tx.set_up) [
    | inr e ↦ rw (p, e.1) (omega arith)
    | inl e ↦ rw (p, e.1) (write_row-RunStores config w tx params f tx.limit_row)
  ]
]

create_and_store-RunStores :
    (config : Config) (w : World) (tx : Transaction) (params : Params)
    → RunStores (create_and_store config w tx params)
unfolding create_and_store
create_and_store-RunStores config w tx params = ask-RunStores (w.create params) _ (λ f.
    elim (Bool-cases (is_atomic config params)) [
      | inl b ↦ rw b (remember_atomic-RunStores config w tx params f)
      | inr b ↦ rw b (gated_insert-RunStores config w params f (policy_gate config w params.key_id))
    ])

fill_case-RunStores :
    (config : Config) (w : World) (tx : Transaction) (params : Params) (ids : List String)
    → RunStores (fill_case config w tx params ids)
unfolding fill_case
fill_case-RunStores config w tx params [] = create_and_store-RunStores config w tx params
fill_case-RunStores config w tx params (e ∷ es) =
    after-RunStores (map case_filled (e ∷ es)) _ (case_filled-kept (e ∷ es))
      (create_and_store-RunStores config w tx (with_case params w.random_uuid))

assign_case-RunStores :
    (config : Config) (w : World) (tx : Transaction) (params : Params)
    → RunStores (assign_case config w tx params)
unfolding assign_case find_case
assign_case-RunStores config w tx params = elim (Bool-cases (needs_case params)) [
  | inr n ↦ rw n (create_and_store-RunStores config w tx params)
  | inl n ↦ rw n (
      ask-RunStores w.find_case_id _ (λ found. elim (Option-cases (truthy found)) [
        | inr c ↦ rw c.1 (create_and_store-RunStores config w tx (with_case params c.0))
        | inl c ↦ elim (Bool-cases (is_text "error" params.kind)) [
          | inl b ↦
              rw (c, b) (create_and_store-RunStores config w tx (with_case params w.random_uuid))
          | inr b ↦
              rw (c, b)
                (ask-RunStores w.find_error_fragments _
                  (λ ids. fill_case-RunStores config w tx params ids))
        ]
      ]))
]

check_first-RunStores :
    (config : Config) (w : World) (tx : Transaction) (params : Params)
    → RunStores (check_first config w tx params)
unfolding check_first
check_first-RunStores config w tx params =
    if_RunStores (is_atomic config params) _ _ (assign_case-RunStores config w tx params)
      (ask-RunStores w.check_quota _ (λ u. assign_case-RunStores config w tx params))

dry_run_or_store-RunStores :
    (config : Config) (w : World) (tx : Transaction) (params : Params)
    → RunStores (dry_run_or_store config w tx params)
unfolding dry_run_or_store
dry_run_or_store-RunStores config w tx params =
    if_RunStores params.dry_run _ _
      (ask-RunStores (w.create params) (λ f. return (simulated (policy_warnings config w)))
        (λ f. refl))
      (check_first-RunStores config w tx params)

find_existing-RunStores :
    (config : Config) (w : World) (tx : Transaction) (params : Params)
    → RunStores (find_existing config w tx params)
unfolding find_existing
find_existing-RunStores config w tx params =
    elim (Bool-cases (is_some (truthy params.idempotency_key))) [
      | inr b ↦ rw b (dry_run_or_store-RunStores config w tx params)
      | inl b ↦ rw b (
          ask-RunStores w.find_by_idempotency_key _ (λ found. elim (Option-cases found) [
            | inl n ↦ rw n (dry_run_or_store-RunStores config w tx params)
            | inr n ↦ rw n.1 refl
          ]))
    ]

-- Whatever is answered or thrown on the way, a call leaves one row stored at most. When it answers
-- with a stored fragment, exactly that one is; when it answers with a fragment of the session, with
-- one known by its idempotency key or with the plan of a dry run, none is.
pub remember-Stores :
    (config : Config) (w : World) (tx : Transaction) (params : Params)
    → let r = remember config w tx params in Stores (kept r.effects) r.outcome
unfolding remember
remember-Stores config w tx params = elim (Bool-cases (in_session_scope params)) [
  | inl b ↦
      rw b (ask-RunStores (w.create params) _ (λ f. ask-RunStores w.working_memory _ (λ u. refl)))
  | inr b ↦ rw b (find_existing-RunStores config w tx params)
]
