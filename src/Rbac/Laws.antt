-- ===== src/Rbac/Laws.antt =====
-- When a tool may be called.
use memento_mcp.Base.{
  String, Option, none, some, List, true, if◌then◌else◌, includes, ◌≡◌, refl, sym, subst, ◌⊎◌, inl,
  inr, ◌↔◌, arith, Bool-cases,
}
use memento_mcp.Base.Maps
use memento_mcp.Rbac.{
  tool_permissions, permission, inherited, unlisted, required_for, required_of, allowed, holds,
  decide, check_permission,
}

-- The key is the master's, an administrator's, or holds the permission.
abbrev pub Grants : Option (List String) → Option String → Type 0
Grants none p = Unit
Grants (some ps) none = includes ps "admin" ≡ true
Grants (some ps) (some p) = (includes ps "admin" ≡ true) ⊎ (includes ps p ≡ true)

-- What is found in the table, and who may call.
abbrev pub Finds : List String → Option (List String) → String → Option String → Type 0
Finds members permissions tool (some p) = Grants permissions (some p)
Finds members permissions tool none = (includes members tool ≡ true) × Grants permissions none

-- The tool is listed, with a permission that is granted; or it is a member of the prototype, and the
-- key is the master's or an administrator's.
abbrev pub MayCall : List String → Option (List String) → String → Type 0
MayCall members permissions tool = Finds members permissions tool (Maps.get tool tool_permissions)

permission_lem :
    (permissions : Option (List String)) (p : String)
    → (decide permissions (permission p) ≡ allowed) ↔ Grants permissions (some p)
unfolding decide holds
permission_lem none p = (λ h. tt, λ h. refl)
permission_lem (some ps) p = (λ h. ground arith, λ h. ground arith)

inherited_lem :
    (permissions : Option (List String))
    → (decide permissions inherited ≡ allowed) ↔ Grants permissions none
unfolding decide holds
inherited_lem none = (λ h. tt, λ h. refl)
inherited_lem (some ps) = (λ h. ground arith, λ h. ground arith)

unlisted_lem : (permissions : Option (List String)) → decide permissions unlisted ≡ allowed → ⊥
unfolding decide
unlisted_lem none h = cc
unlisted_lem (some ps) h = cc

decide-Finds :
    (members : List String) (permissions : Option (List String)) (tool : String) (o : Option String)
    → (decide permissions (required_of members tool o) ≡ allowed) ↔ Finds members permissions tool o
unfolding required_of
decide-Finds members permissions tool (some p) = permission_lem permissions p
decide-Finds members permissions tool none = elim (Bool-cases (includes members tool)) [
  | inl e ↦ (
    λ h. (
      e,
      (inherited_lem permissions).0
          (subst (λ b. decide permissions (if b then inherited else unlisted) ≡ allowed) e h),
    ),
    λ h.
        subst (λ b. decide permissions (if b then inherited else unlisted) ≡ allowed) (sym e)
          ((inherited_lem permissions).1 h.1),
  )
  | inr e ↦ (
    λ h.
        elim (unlisted_lem permissions
          (subst (λ b. decide permissions (if b then inherited else unlisted) ≡ allowed) e h)) [ ],
    λ h. cc,
  )
]

-- A call is let through exactly when the tool is listed and the key is the master's, an
-- administrator's or holds the tool's permission; or the tool is unlisted but its name is that of a
-- member of `Object.prototype`, and the key is the master's or an administrator's.
pub check_permission-MayCall :
    (members : List String) (permissions : Option (List String)) (tool : String)
    → (check_permission members permissions tool ≡ allowed) ↔ MayCall members permissions tool
unfolding check_permission required_for
check_permission-MayCall members permissions tool =
    decide-Finds members permissions tool (Maps.get tool tool_permissions)
