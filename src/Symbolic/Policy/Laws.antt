-- ===== src/Symbolic/Policy/Laws.antt =====
-- What the five rules accept, and how many of them a fragment can break.
use memento_mcp.Base.{
  String, Option, none, some, List, [], ◌++◌, Bool, true, false, is_text, truthy, length, or_else,
  ◌≡◌, refl, ◌⊎◌, inl, inr, ◌↔◌, ◌≤◌, ◌+◌, arith, eq_iff, str_eq, eq_refl, length-append,
  Option-cases,
}
use memento_mcp.Symbolic.Policy.{
  Patterns, PolicyFragment, Violation, linked_count, push_if, lacks_rationale, lacks_resolution,
  lacks_steps, lacks_status, contradicts, check, Rule, Severity, low, medium, high,
  decision_has_rationale, error_has_resolution_path, procedure_has_step_markers,
  case_id_has_resolution_status, assertion_not_contradictory,
}

-- What the rules ask of a fragment.
pub record IsSound (p : Patterns) (f : PolicyFragment) : Type 0 where
  pub decision :
      f.kind ≡ some "decision" → (2 ≤ linked_count f) ⊎ (p.rationale (or_else f.content "") ≡ true)
  pub error :
      f.kind ≡ some "error"
      → (p.cause_fix (or_else f.content "") ≡ true)
        ⊎ ((s : String) × (truthy f.resolution_status ≡ some s))
  pub procedure : f.kind ≡ some "procedure" → p.step_marker (or_else f.content "") ≡ true
  pub settled :
      (c : String)
      → truthy f.case_id ≡ some c
      → (s : String) × (truthy f.resolution_status ≡ some s)
  pub assertion : f.assertion_status ≡ some "verified" → f.assertion_rejected ≡ false

is_text-some : (t : String) (o : Option String) → o ≡ some t → is_text t o ≡ true
is_text-some t none h = cc
is_text-some t (some u) h = ground (arith, eq_iff u t)

is_text-eq : (t : String) (o : Option String) → is_text t o ≡ true → o ≡ some t
is_text-eq t none h = cc
is_text-eq t (some u) h = ground (arith, eq_iff u t)

is_text-other :
    (a b : String) (o : Option String)
    → str_eq a b ≡ false
    → is_text a o ≡ true
    → is_text b o ≡ false
is_text-other a b none n h = refl
is_text-other a b (some u) n h = ground (arith, eq_iff u a, eq_iff u b, eq_refl a)

length-append_five :
    (a b c d e : List Violation)
    → length (a ++ (b ++ (c ++ (d ++ e))))
      ≡ length a + (length b + length c) + (length d + length e)
length-append_five a b c d e = omega (
  arith,
  length-append a (b ++ (c ++ (d ++ e))),
  length-append b (c ++ (d ++ e)),
  length-append c (d ++ e),
  length-append d e,
)

push_if-empty :
    (b : Bool) (r : Rule) (s : Severity) (rest : List Violation)
    → push_if b r s ++ rest ≡ []
    → (b ≡ false) × (rest ≡ [])
unfolding push_if
push_if-empty true r s rest h = cc
push_if-empty false r s rest h = (refl, h)

push_if-length : (b : Bool) (r : Rule) (s : Severity) → length (push_if b r s) ≤ 1
unfolding push_if
push_if-length true r s = omega arith
push_if-length false r s = omega arith

push_if-true : (b : Bool) (r : Rule) (s : Severity) → push_if b r s ≡ [] → b ≡ false
unfolding push_if
push_if-true true r s h = cc
push_if-true false r s h = refl

push_if-false : (b : Bool) (r : Rule) (s : Severity) → b ≡ false → push_if b r s ≡ []
unfolding push_if
push_if-false true r s h = cc
push_if-false false r s h = refl

module _ (p : Patterns) (f : PolicyFragment) where
  decision_lem :
      lacks_rationale p f ≡ false
      → f.kind ≡ some "decision"
      → (2 ≤ linked_count f) ⊎ (p.rationale (or_else f.content "") ≡ true)
  unfolding lacks_rationale
  decision_lem h k = ground (arith, is_text-some "decision" f.kind k)

  error_lem :
      lacks_resolution p f ≡ false
      → f.kind ≡ some "error"
      → (p.cause_fix (or_else f.content "") ≡ true)
        ⊎ ((s : String) × (truthy f.resolution_status ≡ some s))
  unfolding lacks_resolution
  error_lem h k = elim (Option-cases (truthy f.resolution_status)) [
    | inl e ↦ inl (ground (arith, is_text-some "error" f.kind k))
    | inr e ↦ inr e
  ]

  procedure_lem :
      lacks_steps p f ≡ false
      → f.kind ≡ some "procedure"
      → p.step_marker (or_else f.content "") ≡ true
  unfolding lacks_steps
  procedure_lem h k = ground (arith, is_text-some "procedure" f.kind k)

  settled_lem :
      lacks_status p f ≡ false
      → (c : String) → truthy f.case_id ≡ some c
      → (s : String) × (truthy f.resolution_status ≡ some s)
  unfolding lacks_status
  settled_lem h c k = elim (Option-cases (truthy f.resolution_status)) [
    | inl e ↦ ground arith
    | inr e ↦ e
  ]

  assertion_lem :
      contradicts p f ≡ false → f.assertion_status ≡ some "verified" → f.assertion_rejected ≡ false
  unfolding contradicts
  assertion_lem h k = ground (arith, is_text-some "verified" f.assertion_status k)

  accepted_lem : check p (some f) ≡ [] → IsSound p f
  unfolding check
  accepted_lem h =
      let a = push_if-empty (lacks_rationale p f) decision_has_rationale medium _ h in
      let b = push_if-empty (lacks_resolution p f) error_has_resolution_path low _ a.1 in
      let c = push_if-empty (lacks_steps p f) procedure_has_step_markers low _ b.1 in
      let d = push_if-empty (lacks_status p f) case_id_has_resolution_status medium _ c.1 in
      record {
        decision = decision_lem a.0;
        error = error_lem b.0;
        procedure = procedure_lem c.0;
        settled = settled_lem d.0;
        assertion =
            assertion_lem (push_if-true (contradicts p f) assertion_not_contradictory high d.1);
      }

  accepts_lem : IsSound p f → check p (some f) ≡ []
  unfolding check lacks_rationale lacks_resolution lacks_steps lacks_status contradicts
  accepts_lem h =
      let status = Option-cases (truthy f.resolution_status) in
      let r : lacks_rationale p f ≡ false =
        ground (arith, h.decision, is_text-eq "decision" f.kind) in
      let e : lacks_resolution p f ≡ false =
        ground (arith, h.error, is_text-eq "error" f.kind, status) in
      let s : lacks_steps p f ≡ false =
        ground (arith, h.procedure, is_text-eq "procedure" f.kind) in
      let t : lacks_status p f ≡ false = elim (Option-cases (truthy f.case_id)) [
        | inl e ↦ ground (arith, e)
        | inr e ↦ ground (arith, h.settled e.0 e.1)
      ] in
      let c : contradicts p f ≡ false =
        ground (arith, h.assertion, is_text-eq "verified" f.assertion_status) in
      rw (
        push_if-false (lacks_rationale p f) decision_has_rationale medium r,
        push_if-false (lacks_resolution p f) error_has_resolution_path low e,
        push_if-false (lacks_steps p f) procedure_has_step_markers low s,
        push_if-false (lacks_status p f) case_id_has_resolution_status medium t,
        push_if-false (contradicts p f) assertion_not_contradictory high c,
      )

  -- The three rules on the kind exclude each other.
  kinds_exclude :
      length (push_if (lacks_rationale p f) decision_has_rationale medium)
        + (length (push_if (lacks_resolution p f) error_has_resolution_path low)
            + length (push_if (lacks_steps p f) procedure_has_step_markers low))
      ≤ 1
  unfolding push_if lacks_rationale lacks_resolution lacks_steps
  kinds_exclude = ground (
    arith,
    is_text-other "decision" "error" f.kind refl,
    is_text-other "decision" "procedure" f.kind refl,
    is_text-other "error" "procedure" f.kind refl,
  )

  check-length : length (check p (some f)) ≤ 3
  unfolding check
  check-length = omega (
    arith,
    length-append_five (push_if (lacks_rationale p f) decision_has_rationale medium)
        (push_if (lacks_resolution p f) error_has_resolution_path low)
        (push_if (lacks_steps p f) procedure_has_step_markers low)
        (push_if (lacks_status p f) case_id_has_resolution_status medium)
        (push_if (contradicts p f) assertion_not_contradictory high),
    kinds_exclude,
    push_if-length (lacks_status p f) case_id_has_resolution_status medium,
    push_if-length (contradicts p f) assertion_not_contradictory high,
  )

-- The rules accept a fragment exactly when it is sound: a decision has two links or a rationale, an
-- error has a cause or fix in its text or a resolution status, a procedure has step markers, a case
-- has a resolution status, and nothing is both verified and rejected. At most three rules are broken
-- at once, since those on the kind exclude each other.
pub check-IsSound :
    (p : Patterns) (f : PolicyFragment)
    → ((check p (some f) ≡ []) ↔ IsSound p f) × (length (check p (some f)) ≤ 3)
check-IsSound p f = ((accepted_lem p f, accepts_lem p f), check-length p f)
