-- ===== src/Symbolic/Orchestrator/Tests.antt =====
-- An explanation, and an evaluation that throws.
use memento_mcp.Base.{
  String, Option, none, some, List, [], ◌∷◌, true, false, ◌≡◌, refl, ◌↔◌, Outcome, ok, err,
}
use memento_mcp.Symbolic.Orchestrator.{
  Candidate, RulePack, get_rule_pack, default_loader, evaluate_loaded, eval_error, error_result,
  above_half, rule_pack_v1, explain_all, build_reason_codes, all_reasons, push_if, has_layer_tag,
  same_case, is_active, Config, Input, race, version_of, evaluate_input, evaluate,
  direct_keyword_match, graph_neighbor_1hop, case_cohort_member,
}
use memento_mcp.Symbolic.Orchestrator.Laws.{Asks, Breaks, IsDegraded, Coherent, evaluate-Breaks}
use memento_mcp.Symbolic.Orchestrator.Reasons.{results_of}

abbrev config : Config
config = record { enabled = true; rule_version = "v1" }

abbrev candidate : Candidate
candidate = record {
  id = some "f";
  case_id = some "c";
  ema_activation = some (record { numerator = 9; denominator = 10 });
}

abbrev input : Input
input = record {
  mode = "explain";
  candidates = some candidate ∷ none ∷ [];
  ctx = record { search_path = "L2:3" ∷ "Graph:1" ∷ []; case_context = some "c" };
  rule_version = none;
}

abbrev broken_pack : String → Outcome String (Option RulePack)
broken_pack version = ok (some (λ mode candidates ctx. err "no table"))

abbrev inherited : List String
inherited = "constructor" ∷ "toString" ∷ []

evaluate-input :
    results_of (evaluate config (default_loader inherited) false (some input))
    ≡ record {
      fragment_id = some "f";
      reasons = direct_keyword_match ∷ graph_neighbor_1hop ∷ case_cohort_member ∷ [];
    }
      ∷ record { fragment_id = none; reasons = direct_keyword_match ∷ graph_neighbor_1hop ∷ [] }
      ∷ []
unfolding evaluate version_of evaluate_input evaluate_loaded default_loader get_rule_pack
    rule_pack_v1 race explain_all build_reason_codes all_reasons push_if has_layer_tag same_case
    is_active above_half
evaluate-input = refl

-- An inherited name is taken for a version whose evaluation throws.
evaluate-inherited :
    evaluate config
      (default_loader inherited)
      false
      (some (record input { rule_version = some "toString" }))
    ≡ ok (error_result eval_error true "toString")
unfolding evaluate version_of evaluate_input evaluate_loaded default_loader get_rule_pack race
evaluate-inherited = refl

evaluate-Breaks_example :
    ((m : String)
      → (evaluate config broken_pack false (some input) ≡ err m)
        ↔ (Asks config (some input) × (broken_pack (version_of config (some input)) ≡ err m)))
    × (IsDegraded (evaluate config broken_pack false (some input))
        ↔ Breaks config broken_pack false (some input))
    × Coherent (evaluate config broken_pack false (some input))
evaluate-Breaks_example = evaluate-Breaks config broken_pack false (some input)
