-- ===== src/Symbolic/Cbr.antt =====
-- lib/symbolic/CbrEligibility.js: which candidates of a case-based recall a caller may see. The
-- metric that is recorded for a candidate is part of the result.
pub mod Laws
mod Tests
use memento_mcp.Base.{
  String, Option, none, some, List, [], ◌∷◌, Bool, true, false, if◌then◌else◌, same_text, is_text,
  truthy, is_some, not, ◌&&◌,
}
use memento_mcp.Symbolic.KeyId.{RawKeyId, normalize_cbr}

pub record Fragment : Type 0 where
  pub id : String
  pub key_id : Option String
  pub case_id : Option String
  pub quarantine_state : Option String
  pub resolution_status : Option String

-- Why a candidate is left out.
pub data Block : Type 0 where
  tenant no_case quarantine unresolved : Block

-- `_tenantMatch`.
pub tenant_match : Fragment → Option String → Bool
tenant_match f key_id = same_text f.key_id key_id

-- The tests of the loop's body, in their order.
pub blocked : Option String → Fragment → Option Block
unfolding tenant_match
blocked key_id f =
    if not (tenant_match f key_id)
    then some tenant
    else if not (is_some (truthy f.case_id))
    then some no_case
    else if is_text "soft" f.quarantine_state
    then some quarantine
    else if is_some (truthy f.resolution_status) && not (is_text "resolved" f.resolution_status)
    then some unresolved
    else none

-- The candidates let through, and the reasons recorded for the others.
pub record Filtered : Type 0 where
  pub kept : List Fragment
  pub recorded : List Block

-- The end of the loop's body: the fragment is pushed, or its reason recorded.
pub put_result : Fragment → Option Block → Filtered → Filtered
put_result f none rest = record rest { kept = f ∷ rest.kept }
put_result f (some b) rest = record rest { recorded = b ∷ rest.recorded }

pub filter_from : Option String → List Fragment → Filtered
filter_from key_id [] = record { kept = []; recorded = [] }
filter_from key_id (f ∷ fs) = put_result f (blocked key_id f) (filter_from key_id fs)

-- `filter(candidates, sq)`.
pub filter : List Fragment → RawKeyId → Filtered
filter candidates raw = filter_from (normalize_cbr raw) candidates
