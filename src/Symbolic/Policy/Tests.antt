-- ===== src/Symbolic/Policy/Tests.antt =====
-- Fragments that break rules, and one that breaks none.
use memento_mcp.Base.{String, none, some, [], ◌∷◌, false, ◌≡◌, refl, ◌↔◌, ◌≤◌, length, str_eq}
use memento_mcp.Symbolic.Policy.{
  Patterns, PolicyFragment, check, linked_count, push_if, lacks_rationale, lacks_resolution,
  lacks_steps, lacks_status, contradicts, case_id_has_resolution_status, error_has_resolution_path,
  low, medium,
}
use memento_mcp.Symbolic.Policy.Laws.{IsSound, check-IsSound}

abbrev words : Patterns
words = record {
  step_marker = str_eq "1. ";
  cause_fix = str_eq "fix";
  rationale = str_eq "because";
}

-- An error of a case, with the text given.
abbrev error_with : String → PolicyFragment
error_with content = record {
  kind = some "error";
  content = some content;
  linked_to = none;
  case_id = some "c";
  resolution_status = none;
  assertion_status = some "verified";
  assertion_rejected = false;
}

check-error_with :
    check words (some (error_with "crash"))
    ≡ record { rule = error_has_resolution_path; severity = low }
      ∷ record { rule = case_id_has_resolution_status; severity = medium }
      ∷ []
unfolding check push_if lacks_rationale lacks_resolution lacks_steps lacks_status contradicts
    linked_count
check-error_with = refl

check-IsSound_example :
    ((check words (some (error_with "fix")) ≡ []) ↔ IsSound words (error_with "fix"))
    × (length (check words (some (error_with "fix"))) ≤ 3)
check-IsSound_example = check-IsSound words (error_with "fix")
