-- ===== src/Rbac/Tests.antt =====
-- A reader's key, and the name of a member of `Object.prototype`.
use memento_mcp.Base.{String, none, some, List, [], ◌∷◌, ◌≡◌, refl, ◌↔◌}
use memento_mcp.Base.Maps
use memento_mcp.Rbac.{
  permission, allowed, unknown_tool, denied, required_for, required_of, holds, decide,
  check_permission,
}
use memento_mcp.Rbac.Laws.{MayCall, check_permission-MayCall}

abbrev members : List String
members = "constructor" ∷ "toString" ∷ []

check_permission-remember :
    check_permission members (some ("read" ∷ [])) "remember" ≡ denied (permission "write")
unfolding check_permission required_for required_of decide holds Maps.get
check_permission-remember = refl

check_permission-unknown_tool : check_permission members none "drop" ≡ unknown_tool
unfolding check_permission required_for required_of decide Maps.get
check_permission-unknown_tool = refl

check_permission-members : check_permission members none "toString" ≡ allowed
unfolding check_permission required_for required_of decide Maps.get
check_permission-members = refl

check_permission-MayCall_example :
    (check_permission members none "toString" ≡ allowed) ↔ MayCall members none "toString"
check_permission-MayCall_example = check_permission-MayCall members none "toString"
