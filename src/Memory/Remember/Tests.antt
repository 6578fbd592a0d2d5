-- ===== src/Memory/Remember/Tests.antt =====
-- An error without a resolution, remembered by a key with a hard gate, on either path.
use memento_mcp.Base.{none, some, [], ◌∷◌, Bool, true, false, ◌≡◌, refl, ◌⊎◌, ok, err}
use memento_mcp.Memory.Remember.{
  Params, Config, World, Transaction, policy_violation, is_atomic, create_and_store, remember,
  find_existing, in_session_scope, dry_run_or_store, check_first, assign_case, find_case,
  needs_case, gated_insert, policy_gate, policy_of, hard_gate, finalize, settle, supersede_all,
  is_low, remember_atomic, write_row, limited_write, write_fragment,
}
use memento_mcp.Memory.Remember.Rows.{kept, Stores}
use memento_mcp.Memory.Remember.Stores.{remember-Stores}
use memento_mcp.Memory.Remember.Gates.{
  Permitted, remember-Permitted, remember-hard_gate, with_policy, create_and_store-with_policy,
}

abbrev params : Params
params = record {
  scope = none;
  agent_id = none;
  key_id = some "k";
  session_id = some "s";
  idempotency_key = some "i";
  dry_run = false;
  kind = some "error";
  topic = some "build";
  case_id = none;
  supersedes = "old" ∷ [];
  ttl_tier = none;
}

abbrev world : World
world = record {
  create =
      λ p. ok (record { id = "f"; case_id = p.case_id; importance = some 200; ttl_tier = "warm" });
  working_memory = ok tt;
  find_by_idempotency_key = ok none;
  check_quota = ok tt;
  find_case_id = ok none;
  find_error_fragments = ok [];
  random_uuid = "case";
  check_policy = ok ("errorHasResolutionPath" ∷ []);
  get_hard_gate = ok true;
  insert = ok "f";
  index = ok tt;
  post_process = ok tt;
  detect_conflicts = ok [];
}

abbrev transaction : Transaction
transaction = record {
  pool = true;
  set_up = ok tt;
  limit_row = ok (some (some 10));
  count = ok 9;
  write = ok "f";
  commit = ok tt;
}

abbrev config_with : Bool → Config
config_with atomic = record { atomic = atomic; policy_active = true; case_events = true }

remember-params :
    (remember (config_with false) world transaction params).outcome
    ≡ err (policy_violation ("errorHasResolutionPath" ∷ []))
unfolding remember find_existing in_session_scope dry_run_or_store check_first assign_case find_case
    needs_case is_atomic create_and_store gated_insert policy_gate policy_of hard_gate
remember-params = refl

remember-params_atomic :
    kept (remember (config_with true) world transaction params).effects ≡ "f" ∷ []
unfolding remember find_existing in_session_scope dry_run_or_store check_first assign_case find_case
    needs_case is_atomic create_and_store remember_atomic write_row limited_write write_fragment
    finalize settle supersede_all is_low
remember-params_atomic = refl

remember-Stores_example :
    Stores
      (kept (remember (config_with true) world transaction params).effects)
      (remember (config_with true) world transaction params).outcome
remember-Stores_example = remember-Stores (config_with true) world transaction params

remember-Permitted_example :
    (kept (remember (config_with true) world transaction params).effects ≡ [])
    ⊎ Permitted (config_with true) world transaction params
remember-Permitted_example = remember-Permitted (config_with true) world transaction params

not_atomic : is_atomic (config_with false) params ≡ false
unfolding is_atomic
not_atomic = refl

atomic : is_atomic (config_with true) params ≡ true
unfolding is_atomic
atomic = refl

remember-hard_gate_example :
    kept (remember (config_with false) world transaction params).effects ≡ []
remember-hard_gate_example =
    remember-hard_gate (config_with false) world transaction params "k" "errorHasResolutionPath" []
      not_atomic refl refl refl refl

create_and_store-with_policy_example :
    create_and_store (config_with true) (with_policy world (ok []) (ok false)) transaction params
    ≡ create_and_store (config_with true) world transaction params
create_and_store-with_policy_example =
    create_and_store-with_policy (config_with true) world transaction params (ok []) (ok false)
      atomic
