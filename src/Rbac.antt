-- ===== src/Rbac.antt =====
-- lib/rbac.js: which permission a tool needs, and whether a key has it. The table is a plain object,
-- so a name that it does not list but inherits from `Object.prototype` is found there too.
pub mod Laws
mod Tests
use memento_mcp.Base.{
  String, Option, none, some, List, [], ◌∷◌, Bool, true, false, if◌then◌else◌, includes, or_else,
  ◌||◌,
}
use memento_mcp.Base.Maps
use memento_mcp.Base.Maps.{Dict}

-- `TOOL_PERMISSIONS`.
abbrev pub tool_permissions : Dict String
tool_permissions =
    ("remember", "write")
    ∷ ("batch_remember", "write")
    ∷ ("recall", "read")
    ∷ ("forget", "write")
    ∷ ("link", "write")
    ∷ ("amend", "write")
    ∷ ("reflect", "write")
    ∷ ("context", "read")
    ∷ ("tool_feedback", "write")
    ∷ ("memory_stats", "read")
    ∷ ("memory_consolidate", "admin")
    ∷ ("graph_explore", "read")
    ∷ ("fragment_history", "read")
    ∷ ("reconstruct_history", "read")
    ∷ ("search_traces", "read")
    ∷ ("get_skill_guide", "read")
    ∷ ("check_update", "admin")
    ∷ ("apply_update", "admin")
    ∷ ("session_rotate", "read")
    ∷ []

-- What `TOOL_PERMISSIONS[toolName]` finds: a permission, a member of `Object.prototype`, or nothing.
pub data Required : Type 0 where
  permission : String → Required
  inherited : Required
  unlisted : Required

-- What the table gives, else the prototype; the names of its members are the language's, a parameter.
pub required_of : List String → String → Option String → Required
required_of members tool (some p) = permission p
required_of members tool none = if includes members tool then inherited else unlisted

pub required_for : List String → String → Required
unfolding required_of
required_for members tool = required_of members tool (Maps.get tool tool_permissions)

pub data Decision : Type 0 where
  allowed unknown_tool : Decision
  denied : Required → Decision

-- `permissions.includes(required)`: a member of the prototype is no text of the list.
pub holds : List String → Required → Bool
holds ps (permission p) = includes ps p
holds ps inherited = false
holds ps unlisted = false

pub decide : Option (List String) → Required → Decision
unfolding holds
decide permissions unlisted = unknown_tool
decide none (permission p) = allowed
decide none inherited = allowed
decide (some ps) (permission p) =
    if holds ps (permission p)
    then allowed
    else if includes ps "admin"
    then allowed
    else denied (permission p)
decide (some ps) inherited =
    if holds ps inherited
    then allowed
    else if includes ps "admin"
    then allowed
    else denied inherited

-- `checkPermission(permissions, toolName)`; without permissions it is the master key.
pub check_permission : List String → Option (List String) → String → Decision
unfolding required_for decide
check_permission members permissions tool = decide permissions (required_for members tool)
