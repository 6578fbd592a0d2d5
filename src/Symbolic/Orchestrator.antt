-- ===== src/Symbolic/Orchestrator.antt =====
-- lib/symbolic/SymbolicOrchestrator.js with its rule packs (lib/symbolic/rules/index.js) and the
-- reason codes of lib/symbolic/rules/v1/explain.js. The clock is left out, and which side wins the
-- race with the timeout is an argument. The names that a plain object inherits are a parameter.
pub mod Laws
pub mod Reasons
mod Tests
use text.Mathlib.Text.{starts_with}
use memento_mcp.Base.{
  ℕ, ◌*◌, String, Option, none, some, List, [], ◌∷◌, ◌++◌, Bool, true, false, if◌then◌else◌, truthy,
  first_some, not, is_text, str_eq, includes, ◌||◌, ltb, take, map, or_else, Outcome, ok, err,
}

pub data Code : Type 0 where
  direct_keyword_match semantic_similarity graph_neighbor_1hop : Code
  temporal_proximity case_cohort_member recent_activity_ema : Code

-- A positive number is a fraction, as every finite float is; 0, a negative one and NaN, which the
-- code treats alike, are 0/1.
pub record Number : Type 0 where
  pub numerator : ℕ
  pub denominator : ℕ

pub record Candidate : Type 0 where
  pub id : Option String
  pub case_id : Option String
  pub ema_activation : Option Number

pub record SearchContext : Type 0 where
  pub search_path : List String
  pub case_context : Option String

pub data ErrorCode : Type 0 where
  unsupported_mode rule_version_unsupported timeout eval_error : ErrorCode

abbrev pub max_reasons_per_fragment : ℕ
max_reasons_per_fragment = 3

-- `hasLayerTag`.
pub has_layer_tag : List String → String → Bool
has_layer_tag [] prefix = false
has_layer_tag (p ∷ ps) prefix = if starts_with p prefix then true else has_layer_tag ps prefix

-- `if (cond) reasons.push(code)`.
pub push_if : Bool → Code → List Code
push_if b code = if b then code ∷ [] else []

-- The case is the caller's, `caseContext && fragment && fragment.case_id === caseContext`.
pub same_case : Option Candidate → SearchContext → Bool
same_case none ctx = false
same_case (some f) ctx = elim (truthy ctx.case_context) [
  | none ↦ false
  | some c ↦ is_text c f.case_id
]

-- `EMA > 0.5`; what is not a number counts as 0.
pub above_half : Option Number → Bool
above_half none = false
above_half (some x) = ltb x.denominator (2 * x.numerator)

pub is_active : Option Candidate → Bool
unfolding above_half
is_active none = false
is_active (some f) = above_half f.ema_activation

-- The codes that hold, before the list is cut.
pub all_reasons : Option Candidate → SearchContext → List Code
unfolding push_if
all_reasons f ctx =
    push_if (has_layer_tag ctx.search_path "L2:") direct_keyword_match
    ++ (push_if (has_layer_tag ctx.search_path "L3:" || has_layer_tag ctx.search_path "HotCache:")
          semantic_similarity
        ++ (push_if (has_layer_tag ctx.search_path "Graph:") graph_neighbor_1hop
            ++ (push_if (has_layer_tag ctx.search_path "Temporal:") temporal_proximity
                ++ (push_if (same_case f ctx) case_cohort_member
                    ++ push_if (is_active f) recent_activity_ema))))

-- `buildReasonCodes(fragment, searchContext)`.
pub build_reason_codes : Option Candidate → SearchContext → List Code
build_reason_codes f ctx = take max_reasons_per_fragment (all_reasons f ctx)

pub record Explained : Type 0 where
  pub fragment_id : Option String
  pub reasons : List Code

abbrev pub candidate_id : Option Candidate → Option String
candidate_id none = none
candidate_id (some f) = f.id

pub explain_all : List (Option Candidate) → SearchContext → List Explained
explain_all [] ctx = []
explain_all (f ∷ fs) ctx =
    record { fragment_id = candidate_id f; reasons = build_reason_codes f ctx } ∷ explain_all fs ctx

abbrev pub supported_modes : List String
supported_modes = "recall" ∷ "remember" ∷ "link" ∷ "explain" ∷ "shadow" ∷ []

-- `rulePackV1.evaluate(mode, candidates, ctx)`.
pub rule_pack_v1 : String → List (Option Candidate) → SearchContext → List Explained
unfolding explain_all
rule_pack_v1 mode candidates ctx =
    if not (includes supported_modes mode)
    then []
    else if str_eq mode "explain" || str_eq mode "shadow"
    then explain_all candidates ctx
    else []

-- A rule pack: what its evaluation comes to, a list or a thrown message.
abbrev pub RulePack : Type 0
RulePack = String → List (Option Candidate) → SearchContext → Outcome String (List Explained)

-- `getRulePack(version)`. `RULE_PACKS` is a plain object, so an inherited name finds a value too; it
-- has no `evaluate`, and the call of it throws.
pub get_rule_pack : List String → String → Option RulePack
unfolding rule_pack_v1
get_rule_pack inherited version =
    if str_eq version ""
    then none
    else if str_eq version "v1"
    then some (λ mode candidates ctx. ok (rule_pack_v1 mode candidates ctx))
    else if includes inherited version
    then some (λ mode candidates ctx. err "rulePack.evaluate is not a function")
    else none

-- The loader of the rule packs; the default one does not throw.
pub default_loader : List String → String → Outcome String (Option RulePack)
unfolding get_rule_pack
default_loader inherited version = ok (get_rule_pack inherited version)

pub record Config : Type 0 where
  pub enabled : Bool
  pub rule_version : String

pub record Input : Type 0 where
  pub mode : String
  pub candidates : List (Option Candidate)
  pub ctx : SearchContext
  pub rule_version : Option String

-- What `evaluate` returns; `ok` in the source is that there is no error code.
pub record Evaluation : Type 0 where
  pub results : List Explained
  pub degraded : Bool
  pub error_code : Option ErrorCode
  pub rule_version : String

-- `_noopResult` and `_errorResult`.
pub noop_result : String → Evaluation
noop_result version = record {
  results = [];
  degraded = false;
  error_code = none;
  rule_version = version;
}

pub error_result : ErrorCode → Bool → String → Evaluation
error_result code degraded version = record {
  results = [];
  degraded = degraded;
  error_code = some code;
  rule_version = version;
}

-- The race: the timeout comes first, or the evaluation ends.
pub race : Bool → Outcome String (List Explained) → String → Evaluation
unfolding error_result
race true o version = error_result timeout true version
race false (ok results) version = record {
  results = results;
  degraded = false;
  error_code = none;
  rule_version = version;
}
race false (err message) version =
    if str_eq message "TIMEOUT"
    then error_result timeout true version
    else error_result eval_error true version

-- `(input && input.ruleVersion) || config.ruleVersion`.
pub version_of : Config → Option Input → String
version_of config none = config.rule_version
version_of config (some input) = or_else (truthy input.rule_version) config.rule_version

-- What the loader gave: it stands before the `try`, so that what it throws is thrown.
pub evaluate_loaded :
    Bool → String → Input → Outcome String (Option RulePack) → Outcome String Evaluation
unfolding race
evaluate_loaded timed_out version input (err message) = err message
evaluate_loaded timed_out version input (ok none) =
    ok (error_result rule_version_unsupported false version)
evaluate_loaded timed_out version input (ok (some pack)) =
    ok (race timed_out (pack input.mode input.candidates input.ctx) version)

-- The guards on the mode and the version, and the race.
pub evaluate_input :
    (String → Outcome String (Option RulePack)) → Bool → String → Input → Outcome String Evaluation
unfolding evaluate_loaded
evaluate_input load timed_out version input =
    if includes supported_modes input.mode
    then evaluate_loaded timed_out version input (load version)
    else ok (error_result unsupported_mode false version)

-- `evaluate(input)`.
pub evaluate :
    Config
    → (String → Outcome String (Option RulePack))
    → Bool
    → Option Input
    → Outcome String Evaluation
unfolding noop_result version_of evaluate_input
evaluate config load timed_out input =
    let version = version_of config input in
    if config.enabled
    then elim input [
      | none ↦ ok (error_result unsupported_mode false version)
      | some i ↦ evaluate_input load timed_out version i
    ]
    else ok (noop_result version)
