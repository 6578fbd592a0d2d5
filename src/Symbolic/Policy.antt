-- ===== src/Symbolic/Policy.antt =====
-- lib/symbolic/PolicyRules.js and lib/symbolic/rules/v1/policy.js: the five rules a fragment is
-- checked by before it is stored. The regular expressions are run by the language, so the three
-- searches are parameters.
pub mod Laws
mod Tests
use memento_mcp.Base.{
  ℕ, String, Option, none, some, List, [], ◌∷◌, ◌++◌, Bool, true, false, if◌then◌else◌, is_text,
  truthy, is_some, not, ◌&&◌, ltb, length, or_else,
}

-- `.test` of the three regular expressions.
pub record Patterns : Type 0 where
  pub step_marker : String → Bool
  pub cause_fix : String → Bool
  pub rationale : String → Bool

-- `linked_to` is absent when it is not an array; `assertion_rejected` is its comparison with true.
pub record PolicyFragment : Type 0 where
  pub kind : Option String
  pub content : Option String
  pub linked_to : Option (List String)
  pub case_id : Option String
  pub resolution_status : Option String
  pub assertion_status : Option String
  pub assertion_rejected : Bool

pub data Severity : Type 0 where
  low medium high : Severity

pub data Rule : Type 0 where
  decision_has_rationale error_has_resolution_path procedure_has_step_markers : Rule
  case_id_has_resolution_status assertion_not_contradictory : Rule

pub record Violation : Type 0 where
  pub rule : Rule
  pub severity : Severity

pub linked_count : PolicyFragment → ℕ
linked_count f = length (or_else f.linked_to [])

-- `if (cond) violations.push(v)`.
pub push_if : Bool → Rule → Severity → List Violation
push_if b rule severity = if b then record { rule = rule; severity = severity } ∷ [] else []

module _ (p : Patterns) where
  pub lacks_rationale : PolicyFragment → Bool
  unfolding linked_count
  lacks_rationale f =
      is_text "decision" f.kind
      && (ltb (linked_count f) 2 && not (p.rationale (or_else f.content "")))

  pub lacks_resolution : PolicyFragment → Bool
  lacks_resolution f =
      is_text "error" f.kind
      && (not (p.cause_fix (or_else f.content "")) && not (is_some (truthy f.resolution_status)))

  pub lacks_steps : PolicyFragment → Bool
  lacks_steps f = is_text "procedure" f.kind && not (p.step_marker (or_else f.content ""))

  pub lacks_status : PolicyFragment → Bool
  lacks_status f = is_some (truthy f.case_id) && not (is_some (truthy f.resolution_status))

  pub contradicts : PolicyFragment → Bool
  contradicts f = is_text "verified" f.assertion_status && f.assertion_rejected

  -- `check(fragment)`.
  pub check : Option PolicyFragment → List Violation
  unfolding push_if
  check none = []
  check (some f) =
      push_if (lacks_rationale f) decision_has_rationale medium
      ++ (push_if (lacks_resolution f) error_has_resolution_path low
          ++ (push_if (lacks_steps f) procedure_has_step_markers low
              ++ (push_if (lacks_status f) case_id_has_resolution_status medium
                  ++ push_if (contradicts f) assertion_not_contradictory high)))
