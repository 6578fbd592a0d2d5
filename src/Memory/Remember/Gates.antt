-- ===== src/Memory/Remember/Gates.antt =====
-- What must hold before `remember` stores a fragment: the quota, and the policy where it is asked.
use memento_mcp.Base.{
  ◌≡◌, refl, ◌⊎◌, inl, inr, String, Option, none, some, List, [], ◌∷◌, Bool, true, false, truthy,
  is_some, arith, Outcome, ok, err,
}
use memento_mcp.Memory.Remember.{
  Params, Config, World, Transaction, Error, policy_violation, existing, simulated, return,
  finalize, insert_fragment, hard_gate, policy_of, policy_gate, write_fragment, limited_write,
  write_row, remember_atomic, is_atomic, create_and_store, check_first, policy_warnings,
  dry_run_or_store, find_existing, in_session_scope, remember,
}
use memento_mcp.Memory.Remember.Rows.{kept}
use memento_mcp.Memory.Remember.Paths.{
  Guarded, if_Guarded, weaken, ask-Guarded, assign_case-Guarded, GatePassed,
}

-- All that must hold: neither the session's scope nor a dry run, and the gates of the path.
pub record Permitted (config : Config) (w : World) (tx : Transaction) (params : Params)
    : Type 0 where
  pub scope : in_session_scope params ≡ false
  pub real : params.dry_run ≡ false
  pub quota : (is_atomic config params ≡ true) ⊎ (w.check_quota ≡ ok tt)
  pub gate : GatePassed config w tx params

check_first-Guarded :
    (config : Config) (w : World) (tx : Transaction) (params : Params)
    → Guarded
        (((is_atomic config params ≡ true) ⊎ (w.check_quota ≡ ok tt))
          × GatePassed config w tx params)
        (check_first config w tx params)
unfolding check_first
check_first-Guarded config w tx params =
    let G =
      ((is_atomic config params ≡ true) ⊎ (w.check_quota ≡ ok tt))
      × GatePassed config w tx params in
    if_Guarded G (is_atomic config params) _ _
      (λ b. weaken (λ h. (inl b, h)) (assign_case-Guarded config w tx params))
      (λ b.
        ask-Guarded G w.check_quota _
          (λ u e. weaken (λ h. (inr e, h)) (assign_case-Guarded config w tx params)))

dry_run-Guarded :
    (config : Config) (w : World) (tx : Transaction) (params : Params)
    → in_session_scope params ≡ false
    → Guarded (Permitted config w tx params) (dry_run_or_store config w tx params)
unfolding dry_run_or_store
dry_run-Guarded config w tx params s =
    let G = Permitted config w tx params in
    if_Guarded G params.dry_run _ _
      (λ b.
        ask-Guarded G (w.create params) (λ f. return (simulated (policy_warnings config w)))
          (λ f e. inl refl))
      (λ b.
        weaken (λ h. record { scope = s; real = b; quota = h.0; gate = h.1 })
          (check_first-Guarded config w tx params))

known-Guarded :
    (config : Config) (w : World) (tx : Transaction) (params : Params) (found : Option String)
    → in_session_scope params ≡ false
    → Guarded
        (Permitted config w tx params)
        (elim found [ some id ↦ return (existing id) | none ↦ dry_run_or_store config w tx params ])
known-Guarded config w tx params (some id) s = inl refl
known-Guarded config w tx params none s = dry_run-Guarded config w tx params s

-- A fragment is left stored only when the call is neither for the session's memory nor a dry run and
-- the gates of its path were passed: outside the atomic path the quota check passes and the policy
-- gate refuses nothing; on the atomic path the key's row in the transaction has no limit or a count
-- below it, or, without a pool, the quota check passes.
pub remember-Permitted :
    (config : Config) (w : World) (tx : Transaction) (params : Params)
    → (kept (remember config w tx params).effects ≡ []) ⊎ Permitted config w tx params
unfolding remember find_existing
remember-Permitted config w tx params =
    let G = Permitted config w tx params in
    if_Guarded G (in_session_scope params) _ _
      (λ s.
        ask-Guarded G (w.create params) _
          (λ f e. ask-Guarded G w.working_memory _ (λ u k. inl refl)))
      (λ s.
        if_Guarded G (is_some (truthy params.idempotency_key)) _ _
          (λ b.
            ask-Guarded G w.find_by_idempotency_key _
              (λ found e. known-Guarded config w tx params found s))
          (λ b. dry_run-Guarded config w tx params s))

not_both :
    {o : Outcome Error (List String)} {e : Error} {ws : List String} → o ≡ err e → o ≡ ok ws → ⊥
not_both h k = cc

-- Outside the atomic path, with the policy active, a fragment that breaks a rule is not stored when
-- the call has a key and the lookup of the key's hard gate answers that it is set.
pub remember-hard_gate :
    (config : Config) (w : World) (tx : Transaction) (params : Params) (key v : String)
    (vs : List String)
    → is_atomic config params ≡ false
    → config.policy_active ≡ true
    → params.key_id ≡ some key
    → w.check_policy ≡ ok (v ∷ vs)
    → w.get_hard_gate ≡ ok true
    → kept (remember config w tx params).effects ≡ []
unfolding policy_gate policy_of hard_gate
remember-hard_gate config w tx params key v vs a p k c g =
    let refuses : policy_gate config w params.key_id ≡ err (policy_violation (v ∷ vs)) =
      ground (arith, p, k, c, g) in
    elim (remember-Permitted config w tx params) [
      | inl h ↦ h
      | inr h ↦ elim h.gate [
        | inl passed ↦ elim (not_both refuses passed.1.1) [ ]
        | inr atomic ↦ cc
      ]
    ]

-- Other answers of the policy and of the hard gate.
abbrev pub with_policy : World → Outcome String (List String) → Outcome String Bool → World
with_policy w violations gate = record w { check_policy = violations; get_hard_gate = gate }

-- On the atomic path the policy is not asked: whatever the rules find and whatever the key's hard
-- gate says, the fragment is made and stored alike.
pub create_and_store-with_policy :
    (config : Config) (w : World) (tx : Transaction) (params : Params)
    (violations : Outcome String (List String)) (gate : Outcome String Bool)
    → is_atomic config params ≡ true
    → create_and_store config (with_policy w violations gate) tx params
      ≡ create_and_store config w tx params
unfolding create_and_store remember_atomic insert_fragment finalize write_row limited_write
    write_fragment
create_and_store-with_policy config w tx params violations gate a = rw a refl
