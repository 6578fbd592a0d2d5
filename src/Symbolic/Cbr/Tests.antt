-- ===== src/Symbolic/Cbr/Tests.antt =====
-- A recall over four candidates by the key `k`.
use memento_mcp.Base.{String, Option, none, some, List, [], ◌∷◌, ◌≡◌, refl, ◌+◌, length}
use memento_mcp.Symbolic.KeyId.{text, normalize_cbr}
use memento_mcp.Symbolic.Cbr.{
  Fragment, filter, filter_from, put_result, blocked, tenant_match, unresolved, tenant,
}
use memento_mcp.Symbolic.Cbr.Laws.{Selects, IsEligible, filter-Selects}

abbrev case_of : String → Option String → Option String → Fragment
case_of id key_id status = record {
  id = id;
  key_id = key_id;
  case_id = some "c";
  quarantine_state = none;
  resolution_status = status;
}

abbrev candidates : List Fragment
candidates =
    case_of "1" (some "k") (some "resolved")
    ∷ case_of "2" (some "k") (some "open")
    ∷ case_of "3" none none
    ∷ []

filter-candidates : filter candidates (text "k") ≡ record {
  kept = case_of "1" (some "k") (some "resolved") ∷ [];
  recorded = unresolved ∷ tenant ∷ [];
}
unfolding filter filter_from put_result blocked tenant_match normalize_cbr
filter-candidates = refl

filter-Selects_example :
    Selects (IsEligible (normalize_cbr (text "k"))) (filter candidates (text "k")).kept candidates
    × (length (filter candidates (text "k")).kept + length (filter candidates (text "k")).recorded
        ≡ length candidates)
filter-Selects_example = filter-Selects candidates (text "k")
