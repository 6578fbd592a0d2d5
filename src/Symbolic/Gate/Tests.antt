-- ===== src/Symbolic/Gate/Tests.antt =====
-- The gate asked for a link to a fragment in dispute, and for one that is not.
use memento_mcp.Base.{
  String, Option, none, some, List, [], ◌∷◌, true, ◌≡◌, refl, inr, ◌↔◌, Outcome, ok, str_eq,
  if◌then◌else◌,
}
use memento_mcp.Symbolic.Gate.{
  Row, Target, allowed, cohort_mismatch, evaluate_proactive_gate, target_reason, other_cohort,
  conflict_reason, detect_polarity_conflicts, detected, check_cycle, cycle_answer, cycle_detected,
}
use memento_mcp.Symbolic.Gate.Laws.{gate, IsLinkable, gate-IsLinkable, Reports, detect-Reports}
use memento_mcp.Symbolic.Gate.Cycles.{Linker, IsExplained, FindsCycle, check_cycle-FindsCycle}

abbrev row : Row
row = record { f1 = "a"; f2 = "b"; subject = "s"; predicate = "p"; object = none }

-- Only the fragment `b` is in a conflict.
abbrev query : String → Option String → Outcome String (List Row)
query id key_id = if str_eq id "b" then ok (row ∷ []) else ok []

abbrev target_in : String → Option String → Target
target_in id case_id = record {
  id = some id;
  case_id = case_id;
  quarantine_state = some "released";
}

gate-cohort :
    gate query (some (record { case_id = some "c" })) (target_in "a" (some "d")) none
    ≡ cohort_mismatch
unfolding evaluate_proactive_gate target_reason other_cohort
gate-cohort = refl

gate-allowed : gate query none (target_in "a" none) none ≡ allowed
unfolding evaluate_proactive_gate target_reason other_cohort conflict_reason
    detect_polarity_conflicts detected
gate-allowed = refl

check_cycle-cycle :
    check_cycle (some (λ a b c d. ok true)) "a" "b" "caused_by" "default" none
    ≡ record { has_cycle = true; reason = cycle_detected }
unfolding check_cycle cycle_answer
check_cycle-cycle = refl

-- A linker that finds a cycle everywhere.
abbrev finds_all : Option Linker
finds_all = some (λ a b c d. ok true)

gate-IsLinkable_example :
    (gate query none (target_in "b" none) none ≡ allowed)
    ↔ IsLinkable query none (target_in "b" none) none
gate-IsLinkable_example = gate-IsLinkable query none (target_in "b" none) none

detect-Reports_example : Reports "b" (row ∷ []) (detect_polarity_conflicts query "b" none)
detect-Reports_example = detect-Reports query "b" none (row ∷ []) refl refl (inr refl, tt)

check_cycle-FindsCycle_example :
    (((check_cycle finds_all "a" "b" "caused_by" "default" none).has_cycle ≡ true)
      ↔ FindsCycle finds_all "a" "b" "caused_by" "default" none)
    × IsExplained finds_all "a" "b" "caused_by" "default" none
        (check_cycle finds_all "a" "b" "caused_by" "default" none)
check_cycle-FindsCycle_example = check_cycle-FindsCycle finds_all "a" "b" "caused_by" "default" none
