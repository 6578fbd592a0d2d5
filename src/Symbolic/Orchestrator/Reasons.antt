-- ===== src/Symbolic/Orchestrator/Reasons.antt =====
-- The reasons that the first version of the rules gives for a candidate.
use text.Mathlib.Text.{starts_with}
use memento_mcp.Base.{
  ℕ, zero, suc, ◌*◌, ◌<◌, String, Option, none, some, List, [], ◌∷◌, ◌++◌, Bool, true, false,
  Outcome, ok, err, ◌≡◌, ◌≢◌, ◌⊎◌, is_text, truthy, ◌||◌,
}
use memento_mcp.Symbolic.Orchestrator.{
  Code, direct_keyword_match, semantic_similarity, graph_neighbor_1hop, temporal_proximity,
  case_cohort_member, recent_activity_ema, Number, Candidate, SearchContext, has_layer_tag, push_if,
  same_case, is_active, Explained, candidate_id, Evaluation,
}

-- The search went through a layer whose tag has the prefix.
pub data Tagged (prefix : String) : List String → Type 0 where
  here : {p : String} {ps : List String} → starts_with p prefix ≡ true → Tagged prefix (p ∷ ps)
  there : {p : String} {ps : List String} → Tagged prefix ps → Tagged prefix (p ∷ ps)

pub record InCase (f : Option Candidate) (ctx : SearchContext) : Type 0 where
  pub candidate : Candidate
  pub given : f ≡ some candidate
  pub case : String
  pub current : ctx.case_context ≡ some case
  pub named : case ≢ ""
  pub same : candidate.case_id ≡ some case

pub record Active (f : Option Candidate) : Type 0 where
  pub candidate : Candidate
  pub given : f ≡ some candidate
  pub number : Number
  pub activation : candidate.ema_activation ≡ some number
  pub above : number.denominator < 2 * number.numerator

-- When a code is a reason.
abbrev pub Holds : Option Candidate → SearchContext → Code → Type 0
Holds f ctx direct_keyword_match = Tagged "L2:" ctx.search_path
Holds f ctx semantic_similarity = Tagged "L3:" ctx.search_path ⊎ Tagged "HotCache:" ctx.search_path
Holds f ctx graph_neighbor_1hop = Tagged "Graph:" ctx.search_path
Holds f ctx temporal_proximity = Tagged "Temporal:" ctx.search_path
Holds f ctx case_cohort_member = InCase f ctx
Holds f ctx recent_activity_ema = Active f

-- The first `n` of the codes that hold, in their order.
abbrev pub FirstOf : (Code → Type 0) → ℕ → List Code → List Code → Type 0
FirstOf P zero cs out = out ≡ []
FirstOf P (suc n) [] out = out ≡ []
FirstOf P (suc n) (c ∷ cs) out =
    (P c × ((rest : List Code) × (out ≡ c ∷ rest) × FirstOf P n cs rest))
    ⊎ ((P c → ⊥) × FirstOf P (suc n) cs out)

abbrev pub codes : List Code
codes =
    direct_keyword_match ∷ semantic_similarity ∷ graph_neighbor_1hop ∷ temporal_proximity
    ∷ case_cohort_member ∷ recent_activity_ema ∷ []

-- The tests of the code, by their codes.
abbrev test : Option Candidate → SearchContext → Code → Bool
test f ctx direct_keyword_match = has_layer_tag ctx.search_path "L2:"
test f ctx semantic_similarity =
    has_layer_tag ctx.search_path "L3:" || has_layer_tag ctx.search_path "HotCache:"
test f ctx graph_neighbor_1hop = has_layer_tag ctx.search_path "Graph:"
test f ctx temporal_proximity = has_layer_tag ctx.search_path "Temporal:"
test f ctx case_cohort_member = same_case f ctx
test f ctx recent_activity_ema = is_active f

abbrev picked : (Code → Bool) → List Code → List Code
picked t [] = []
picked t (c ∷ cs) = push_if (t c) c ++ picked t cs

-- The test for the case, on its two identifiers.
abbrev in_case : Option String → Option String → Bool
in_case o p = elim (truthy o) [ none ↦ false | some c ↦ is_text c p ]

-- An explanation for each candidate, in order: the first three reasons.
abbrev pub Explains : SearchContext → List (Option Candidate) → List Explained → Type 0
Explains ctx [] [] = Unit
Explains ctx (f ∷ fs) (e ∷ es) =
    (e.fragment_id ≡ candidate_id f) × FirstOf (Holds f ctx) 3 codes e.reasons × Explains ctx fs es
Explains ctx _ _ = ⊥

-- The results of an evaluation that does not throw.
abbrev pub results_of : Outcome String Evaluation → List Explained
results_of (err message) = []
results_of (ok e) = e.results
