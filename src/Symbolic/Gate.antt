-- ===== src/Symbolic/Gate.antt =====
-- lib/symbolic/rules/v1/proactive-gate.js, lib/symbolic/ClaimConflictDetector.js and
-- lib/symbolic/LinkIntegrityChecker.js: what is asked before a link is made. The queries behind
-- them (the claims' store and the search for cycles) are parameters: each answers or throws.
pub mod Laws
pub mod Cycles
mod Tests
use memento_mcp.Base.{
  ℕ, String, Option, none, some, List, [], ◌∷◌, Bool, true, false, if◌then◌else◌, truthy, is_some,
  is_text, str_eq, includes, not, ◌&&◌, leb, length, map, Outcome, ok, err,
}

-- A row of `findPolarityConflicts`.
pub record Row : Type 0 where
  pub f1 : String
  pub f2 : String
  pub subject : String
  pub predicate : String
  pub object : Option String

pub record Conflict : Type 0 where
  pub conflict_with : String
  pub subject : String
  pub predicate : String
  pub object : Option String

pub data Severity : Type 0 where
  no_conflict low medium high : Severity

-- The result of the detector; the error is the message it absorbed. `warned` is the severity that
-- was recorded in the metric.
pub record Detection : Type 0 where
  pub conflicts : List Conflict
  pub severity : Severity
  pub error : Option String
  pub warned : Option Severity

-- `_severityFromRows`.
pub severity_from_rows : List Row → Severity
severity_from_rows rows =
    if leb 4 (length rows) then high else if leb 2 (length rows) then medium else low

pub conflict_of : String → Row → Conflict
conflict_of id r = record {
  conflict_with = if str_eq r.f1 id then r.f2 else r.f1;
  subject = r.subject;
  predicate = r.predicate;
  object = r.object;
}

abbrev pub no_detection : Option String → Detection
no_detection error = record { conflicts = []; severity = no_conflict; error = error; warned = none }

pub detected : String → Outcome String (List Row) → Detection
unfolding severity_from_rows conflict_of
detected id (err message) = no_detection (some message)
detected id (ok []) = no_detection none
detected id (ok (r ∷ rs)) = record {
  conflicts = map (conflict_of id) (r ∷ rs);
  severity = severity_from_rows (r ∷ rs);
  error = none;
  warned = some (severity_from_rows (r ∷ rs));
}

-- `detectPolarityConflicts(fragmentId, keyId)`; the query is `findPolarityConflicts`.
pub detect_polarity_conflicts :
    (String → Option String → Outcome String (List Row)) → String → Option String → Detection
unfolding detected
detect_polarity_conflicts query id key_id =
    if str_eq id "" then no_detection none else detected id (query id key_id)

pub record Source : Type 0 where
  pub case_id : Option String

pub record Target : Type 0 where
  pub id : Option String
  pub case_id : Option String
  pub quarantine_state : Option String

pub data Reason : Type 0 where
  invalid_target quarantine cohort_mismatch polarity_conflict allowed : Reason

-- Both are in a case, and the cases differ.
pub other_cohort : Option Source → Target → Bool
other_cohort none t = false
other_cohort (some s) t = elim (truthy s.case_id) [
  | none ↦ false
  | some c ↦ elim (truthy t.case_id) [ none ↦ false | some d ↦ not (str_eq c d) ]
]

-- The detector's answer: a failure lets the link through.
pub conflict_reason : Outcome String Detection → Reason
conflict_reason (err message) = allowed
conflict_reason (ok d) = elim d.conflicts [ [] ↦ allowed | c ∷ cs ↦ polarity_conflict ]

pub target_reason :
    Option (String → Option String → Outcome String Detection)
    → Option Source
    → Target
    → String
    → Option String
    → Reason
unfolding other_cohort conflict_reason
target_reason detector source t id key_id =
    if is_some (truthy t.quarantine_state) && not (is_text "released" t.quarantine_state)
    then quarantine
    else if other_cohort source t
    then cohort_mismatch
    else elim detector [ none ↦ allowed | some detect ↦ conflict_reason (detect id key_id) ]

-- `evaluateProactiveGate({ source, target, keyId }, { detector })`: the link is let through when
-- the reason is `allowed` ("ok" in the source).
pub evaluate_proactive_gate :
    Option (String → Option String → Outcome String Detection)
    → Option Source
    → Option Target
    → Option String
    → Reason
unfolding target_reason
evaluate_proactive_gate detector source none key_id = invalid_target
evaluate_proactive_gate detector source (some t) key_id = elim (truthy t.id) [
  | none ↦ invalid_target
  | some id ↦ target_reason detector source t id key_id
]

-- `DIRECTIONAL_RELATIONS`.
abbrev pub directional_relations : List String
directional_relations = "caused_by" ∷ "resolved_by" ∷ "superseded_by" ∷ "preceded_by" ∷ []

pub data CycleReason : Type 0 where
  non_directional no_linker cycle_detected no_cycle failed : CycleReason

pub record CycleCheck : Type 0 where
  pub has_cycle : Bool
  pub reason : CycleReason

pub cycle_answer : Outcome String Bool → CycleCheck
cycle_answer (err message) = record { has_cycle = false; reason = failed }
cycle_answer (ok true) = record { has_cycle = true; reason = cycle_detected }
cycle_answer (ok false) = record { has_cycle = false; reason = no_cycle }

-- `checkCycle(fromId, toId, relationType, agentId, keyId)`; the linker is `wouldCreateCycle`.
pub check_cycle :
    Option (String → String → String → Option String → Outcome String Bool)
    → String
    → String
    → String
    → String
    → Option String
    → CycleCheck
unfolding cycle_answer
check_cycle linker from_id to_id relation agent_id key_id =
    if includes directional_relations relation
    then elim linker [
      | none ↦ record { has_cycle = false; reason = no_linker }
      | some would_create_cycle ↦ cycle_answer (would_create_cycle from_id to_id agent_id key_id)
    ]
    else record { has_cycle = false; reason = non_directional }
