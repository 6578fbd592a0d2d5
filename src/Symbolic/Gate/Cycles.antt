-- ===== src/Symbolic/Gate/Cycles.antt =====
-- When a cycle is reported, and why not otherwise.
use memento_mcp.Base.{
  Bool, includes, String, Option, none, some, true, false, eq_iff, Outcome, ok, err, ◌≡◌, refl, ap,
  ◌⊎◌, inl, inr, ◌↔◌, arith, Bool-cases, or_else,
}
use memento_mcp.Symbolic.Gate.{
  CycleCheck, cycle_detected, non_directional, no_linker, failed, check_cycle, cycle_answer,
  directional_relations,
}

-- The relations with a direction.
abbrev pub HasDirection : String → Type 0
HasDirection relation =
    (relation ≡ "caused_by")
    ⊎ (relation ≡ "resolved_by")
    ⊎ (relation ≡ "superseded_by")
    ⊎ (relation ≡ "preceded_by")

includes-HasDirection :
    (relation : String) → includes directional_relations relation ≡ true → HasDirection relation
includes-HasDirection relation h = ground (
  arith,
  h,
  eq_iff "caused_by" relation,
  eq_iff "resolved_by" relation,
  eq_iff "superseded_by" relation,
  eq_iff "preceded_by" relation,
)

HasDirection-includes :
    (relation : String) → HasDirection relation → includes directional_relations relation ≡ true
HasDirection-includes relation h = ground (
  arith,
  h,
  eq_iff "caused_by" relation,
  eq_iff "resolved_by" relation,
  eq_iff "superseded_by" relation,
  eq_iff "preceded_by" relation,
)

-- A linker that finds a cycle for a relation with a direction.
pub record FindsCycle
    (linker : Option (String → String → String → Option String → Outcome String Bool))
    (from_id to_id relation agent_id : String) (key_id : Option String) : Type 0 where
  pub directional : HasDirection relation
  pub would_create_cycle : String → String → String → Option String → Outcome String Bool
  pub given : linker ≡ some would_create_cycle
  pub found : would_create_cycle from_id to_id agent_id key_id ≡ ok true

cycle_answer-found : (o : Outcome String Bool) → (cycle_answer o).has_cycle ≡ true → o ≡ ok true
unfolding cycle_answer
cycle_answer-found (err m) h = cc
cycle_answer-found (ok true) h = refl
cycle_answer-found (ok false) h = cc

module _ (from_id to_id relation agent_id : String) (key_id : Option String) where
  cycle_found :
      (linker : Option (String → String → String → Option String → Outcome String Bool))
      → (check_cycle linker from_id to_id relation agent_id key_id).has_cycle ≡ true
      → FindsCycle linker from_id to_id relation agent_id key_id
  unfolding check_cycle
  cycle_found none h = ground arith
  cycle_found (some f) h = record {
    directional = includes-HasDirection relation (ground arith);
    would_create_cycle = f;
    given = refl;
    found = cycle_answer-found (f from_id to_id agent_id key_id) (ground arith);
  }

  found_cycle :
      (linker : Option (String → String → String → Option String → Outcome String Bool))
      → FindsCycle linker from_id to_id relation agent_id key_id
      → (check_cycle linker from_id to_id relation agent_id key_id).has_cycle ≡ true
  unfolding check_cycle cycle_answer
  found_cycle linker h = rw (HasDirection-includes relation h.directional, h.given, h.found)

-- A linker whose search throws.
abbrev pub Linker : Type 0
Linker = String → String → String → Option String → Outcome String Bool

pub record Throws (linker : Option Linker) (from_id to_id agent_id : String)
    (key_id : Option String) : Type 0 where
  pub would_create_cycle : Linker
  pub given : linker ≡ some would_create_cycle
  pub message : String
  pub thrown : would_create_cycle from_id to_id agent_id key_id ≡ err message

-- The reason tells which check decided.
pub record IsExplained (linker : Option Linker) (from_id to_id relation agent_id : String)
    (key_id : Option String) (c : CycleCheck) : Type 0 where
  pub cycle : (c.has_cycle ≡ true) ↔ (c.reason ≡ cycle_detected)
  pub undirected : (c.reason ≡ non_directional) ↔ (HasDirection relation → ⊥)
  pub unlinked : (c.reason ≡ no_linker) ↔ (HasDirection relation × (linker ≡ none))
  pub threw :
      (c.reason ≡ failed) ↔ (HasDirection relation × Throws linker from_id to_id agent_id key_id)

module _ (from_id to_id relation agent_id : String) (key_id : Option String) where
  no_direction :
      (linker : Option Linker)
      → includes directional_relations relation ≡ false
      → IsExplained linker from_id to_id relation agent_id key_id
          (record { has_cycle = false; reason = non_directional })
  no_direction linker e =
      let no : HasDirection relation → ⊥ =
        λ h. ground (arith, HasDirection-includes relation h, e) in
      record {
        cycle = (λ h. cc, λ h. cc);
        undirected = (λ h. no, λ h. refl);
        unlinked = (λ h. cc, λ h. absurd (no h.0));
        threw = (λ h. cc, λ h. absurd (no h.0));
      }

  no_linker_there :
      HasDirection relation
      → IsExplained none from_id to_id relation agent_id key_id
          (record { has_cycle = false; reason = no_linker })
  no_linker_there d = record {
    cycle = (λ h. cc, λ h. cc);
    undirected = (λ h. cc, λ h. absurd (h d));
    unlinked = (λ h. (d, refl), λ h. refl);
    threw = (λ h. cc, λ h. ground (arith, h.1.given));
  }

  no_throw :
      (f : Linker) (b : Bool)
      → f from_id to_id agent_id key_id ≡ ok b
      → Throws (some f) from_id to_id agent_id key_id
      → ⊥
  no_throw f b e h =
      let same : f ≡ h.would_create_cycle = ap (λ o. or_else o f) h.given in
      let other : f from_id to_id agent_id key_id ≡ err h.message = rw same h.thrown in
      ground (arith, e, other)

  searched :
      (f : Linker) (o : Outcome String Bool)
      → HasDirection relation
      → f from_id to_id agent_id key_id ≡ o
      → IsExplained (some f) from_id to_id relation agent_id key_id (cycle_answer o)
  unfolding cycle_answer
  searched f (err m) d e = record {
    cycle = (λ h. cc, λ h. cc);
    undirected = (λ h. cc, λ h. absurd (h d));
    unlinked = (λ h. cc, λ h. cc);
    threw = (
      λ h. (d, record { would_create_cycle = f; given = refl; message = m; thrown = e }),
      λ h. refl,
    );
  }
  searched f (ok true) d e = record {
    cycle = (λ h. refl, λ h. refl);
    undirected = (λ h. cc, λ h. absurd (h d));
    unlinked = (λ h. cc, λ h. cc);
    threw = (λ h. cc, λ h. absurd (no_throw f true e h.1));
  }
  searched f (ok false) d e = record {
    cycle = (λ h. cc, λ h. cc);
    undirected = (λ h. cc, λ h. absurd (h d));
    unlinked = (λ h. cc, λ h. cc);
    threw = (λ h. cc, λ h. absurd (no_throw f false e h.1));
  }

  directed :
      (linker : Option Linker)
      → includes directional_relations relation ≡ true
      → IsExplained linker from_id to_id relation agent_id key_id
          (check_cycle linker from_id to_id relation agent_id key_id)
  unfolding check_cycle
  directed none e = rw e (no_linker_there (includes-HasDirection relation e))
  directed (some f) e =
      rw e (searched f (f from_id to_id agent_id key_id) (includes-HasDirection relation e) refl)

  check_cycle-IsExplained :
      (linker : Option Linker)
      → IsExplained linker from_id to_id relation agent_id key_id
          (check_cycle linker from_id to_id relation agent_id key_id)
  unfolding check_cycle
  check_cycle-IsExplained linker = elim (Bool-cases (includes directional_relations relation)) [
    | inl e ↦ directed linker e
    | inr e ↦ rw e (no_direction linker e)
  ]

-- A cycle is reported exactly when the relation is one of `caused_by`, `resolved_by`,
-- `superseded_by` and `preceded_by`, and a linker is there that finds one. The reason is
-- `cycle_detected` exactly then, `non_directional` for any other relation, `no_linker` where none is
-- there, and `error` where the linker throws, which is no cycle.
pub check_cycle-FindsCycle :
    (linker : Option Linker) (from_id to_id relation agent_id : String) (key_id : Option String)
    → (((check_cycle linker from_id to_id relation agent_id key_id).has_cycle ≡ true)
        ↔ FindsCycle linker from_id to_id relation agent_id key_id)
      × IsExplained linker from_id to_id relation agent_id key_id
          (check_cycle linker from_id to_id relation agent_id key_id)
check_cycle-FindsCycle linker from_id to_id relation agent_id key_id = (
  (
    cycle_found from_id to_id relation agent_id key_id linker,
    found_cycle from_id to_id relation agent_id key_id linker,
  ),
  check_cycle-IsExplained from_id to_id relation agent_id key_id linker,
)
