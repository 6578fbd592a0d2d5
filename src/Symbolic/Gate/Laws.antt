-- ===== src/Symbolic/Gate/Laws.antt =====
-- When a link is let through, and what the detector reports.
use memento_mcp.Base.{
  ℕ, String, Option, none, some, List, [], ◌∷◌, true, false, truthy, is_text, str_eq, eq_iff,
  eq_refl, length, map, Outcome, ok, err, ◌≡◌, refl, ap, ◌⊎◌, inl, inr, ◌↔◌, ◌≤◌, arith,
  Option-cases, All, sym, subst,
}
use memento_mcp.Symbolic.Gate.{
  Row, Conflict, Severity, no_conflict, low, medium, high, Detection, severity_from_rows,
  conflict_of, detected, detect_polarity_conflicts, Source, Target, Reason, allowed, other_cohort,
  conflict_reason, target_reason, evaluate_proactive_gate,
}

-- The case of the source, if there is one.
abbrev pub source_case : Option Source → Option String
source_case none = none
source_case (some s) = truthy s.case_id

-- A target that a link may be made to.
pub record IsLinkable (query : String → Option String → Outcome String (List Row))
    (source : Option Source) (t : Target) (key_id : Option String) : Type 0 where
  pub id : String
  pub named : truthy t.id ≡ some id
  pub released : (truthy t.quarantine_state ≡ none) ⊎ (t.quarantine_state ≡ some "released")
  pub cohort : (c d : String) → source_case source ≡ some c → truthy t.case_id ≡ some d → c ≡ d
  pub undisputed : (query id key_id ≡ ok []) ⊎ ((m : String) × (query id key_id ≡ err m))

-- The gate with the detector the source gives it.
abbrev pub gate :
    (String → Option String → Outcome String (List Row))
    → Option Source
    → Target
    → Option String
    → Reason
gate query source t key_id =
    evaluate_proactive_gate (some (λ id k. ok (detect_polarity_conflicts query id k))) source
      (some t) key_id

is_text-eq : (t : String) (o : Option String) → is_text t o ≡ true → o ≡ some t
is_text-eq t none h = cc
is_text-eq t (some u) h = ap some ((eq_iff u t).0 h)

truthy-nonempty : (o : Option String) (k : String) → truthy o ≡ some k → str_eq k "" ≡ false
truthy-nonempty none k h = cc
truthy-nonempty (some t) k h = ground arith

other_cohort-same :
    (source : Option Source) (t : Target)
    → other_cohort source t ≡ false
    → (c d : String) → source_case source ≡ some c
    → truthy t.case_id ≡ some d
    → c ≡ d
unfolding other_cohort
other_cohort-same none t h c d hc hd = cc
other_cohort-same (some s) t h c d hc hd = ground (arith, eq_iff c d)

same-other_cohort :
    (source : Option Source) (t : Target)
    → ((c d : String) → source_case source ≡ some c → truthy t.case_id ≡ some d → c ≡ d)
    → other_cohort source t ≡ false
unfolding other_cohort
same-other_cohort none t h = refl
same-other_cohort (some s) t h = elim (Option-cases (truthy s.case_id)) [
  | inl e ↦ ground (arith, e)
  | inr e ↦ elim (Option-cases (truthy t.case_id)) [
    | inl f ↦ ground (arith, e.1, f)
    | inr f ↦ ground (arith, e.1, f.1, h e.0 f.0 e.1 f.1, eq_refl e.0)
  ]
]

detected-allowed :
    (id : String) (o : Outcome String (List Row))
    → (conflict_reason (ok (detected id o)) ≡ allowed)
      ↔ ((o ≡ ok []) ⊎ ((m : String) × (o ≡ err m)))
unfolding conflict_reason detected
detected-allowed id (err m) = (λ h. inr (m, refl), λ h. refl)
detected-allowed id (ok []) = (λ h. inl refl, λ h. refl)
detected-allowed id (ok (r ∷ rs)) = (λ h. cc, λ h. elim h [ inl e ↦ cc | inr e ↦ cc ])

module _ (query : String → Option String → Outcome String (List Row)) (source : Option Source)
    (t : Target) (key_id : Option String) where
  linkable :
      (id : String)
      → truthy t.id ≡ some id
      → gate query source t key_id ≡ allowed
      → IsLinkable query source t key_id
  unfolding evaluate_proactive_gate target_reason detect_polarity_conflicts
  linkable id n h = record {
    id = id;
    named = n;
    released = elim (Option-cases (truthy t.quarantine_state)) [
      | inl e ↦ inl e
      | inr e ↦ inr (is_text-eq "released" t.quarantine_state (ground (arith, n, e.1)))
    ];
    cohort = other_cohort-same source t (ground (arith, n));
    undisputed =
        (detected-allowed id (query id key_id)).0 (ground (arith, n, truthy-nonempty t.id id n));
  }

  gate_sound : gate query source t key_id ≡ allowed → IsLinkable query source t key_id
  unfolding evaluate_proactive_gate
  gate_sound h = elim (Option-cases (truthy t.id)) [
    | inl e ↦ ground (arith, e)
    | inr e ↦ linkable e.0 e.1 h
  ]

  gate_complete : IsLinkable query source t key_id → gate query source t key_id ≡ allowed
  unfolding evaluate_proactive_gate target_reason detect_polarity_conflicts
  gate_complete h = ground (
    arith,
    same-other_cohort source t h.cohort,
    h.named,
    truthy-nonempty t.id h.id h.named,
    (detected-allowed h.id (query h.id key_id)).1 h.undisputed,
    h.released,
    eq_refl "released",
  )

-- With the detector of the code, the gate lets a link through exactly when the target has an
-- identifier, is in no quarantine but a released one, is in the source's case when both are in one,
-- and the query for conflicts finds none or fails.
pub gate-IsLinkable :
    (query : String → Option String → Outcome String (List Row)) (source : Option Source)
    (t : Target) (key_id : Option String)
    → (gate query source t key_id ≡ allowed) ↔ IsLinkable query source t key_id
gate-IsLinkable query source t key_id =
    (gate_sound query source t key_id, gate_complete query source t key_id)

-- The row's pair is the fragment and the conflict.
abbrev pub Pairs : String → Row → Conflict → Type 0
Pairs id r c = ((r.f1 ≡ id) × (r.f2 ≡ c.conflict_with)) ⊎ ((r.f1 ≡ c.conflict_with) × (r.f2 ≡ id))

abbrev pub AllPairs : String → List Row → List Conflict → Type 0
AllPairs id [] [] = Unit
AllPairs id (r ∷ rs) (c ∷ cs) = Pairs id r c × AllPairs id rs cs
AllPairs id _ _ = ⊥

-- The severity that a number of conflicts has.
abbrev pub SeverityOf : Severity → ℕ → Type 0
SeverityOf no_conflict n = n ≡ 0
SeverityOf low n = n ≡ 1
SeverityOf medium n = (2 ≤ n) × (n ≤ 3)
SeverityOf high n = 4 ≤ n

pairs_lem : (id : String) (r : Row) → (r.f1 ≡ id) ⊎ (r.f2 ≡ id) → Pairs id r (conflict_of id r)
unfolding conflict_of
pairs_lem id r (inl e) = ground (arith, e, eq_iff r.f1 id)
pairs_lem id r (inr e) = ground (arith, e, eq_iff r.f1 id)

map-AllPairs :
    (id : String) (rs : List Row)
    → All (λ r. (r.f1 ≡ id) ⊎ (r.f2 ≡ id)) rs
    → AllPairs id rs (map (conflict_of id) rs)
unfolding conflict_of
map-AllPairs id [] h = tt
map-AllPairs id (r ∷ rs) h = (pairs_lem id r h.0, map-AllPairs id rs h.1)

severity_lem :
    (r : Row) (rs : List Row) → SeverityOf (severity_from_rows (r ∷ rs)) (length (r ∷ rs))
unfolding severity_from_rows
severity_lem r [] = refl
severity_lem r (a ∷ []) = omega arith
severity_lem r (a ∷ b ∷ []) = omega arith
severity_lem r (a ∷ b ∷ c ∷ rest) =
    let e : severity_from_rows (r ∷ a ∷ b ∷ c ∷ rest) ≡ high = ground arith in
    subst (λ s. SeverityOf s (length (r ∷ a ∷ b ∷ c ∷ rest))) (sym e) (omega arith)

-- Each conflict is the other fragment of its row, the severity is the one for that many conflicts,
-- and it is what the metric records, unless there are none.
abbrev pub Reports : String → List Row → Detection → Type 0
Reports id rows d =
    AllPairs id rows d.conflicts
    × SeverityOf d.severity (length rows)
    × (d.warned ≡ (elim rows [ [] ↦ none | r ∷ rs ↦ some d.severity ]))

detected-Reports :
    (id : String) (rows : List Row)
    → All (λ r. (r.f1 ≡ id) ⊎ (r.f2 ≡ id)) rows
    → Reports id rows (detected id (ok rows))
unfolding detected
detected-Reports id [] h = (tt, refl, refl)
detected-Reports id (r ∷ rs) h = (map-AllPairs id (r ∷ rs) h, severity_lem r rs, refl)

-- When the rows the query answers are pairs that the fragment is in, the detector names the other
-- fragment of each pair, in order; its severity is none, low for one, medium for two or three and
-- high for more conflicts, and is what the metric records unless there are none.
pub detect-Reports :
    (query : String → Option String → Outcome String (List Row)) (id : String)
    (key_id : Option String) (rows : List Row)
    → str_eq id "" ≡ false
    → query id key_id ≡ ok rows
    → All (λ r. (r.f1 ≡ id) ⊎ (r.f2 ≡ id)) rows
    → Reports id rows (detect_polarity_conflicts query id key_id)
unfolding detect_polarity_conflicts
detect-Reports query id key_id rows n e h =
    let d : detect_polarity_conflicts query id key_id ≡ detected id (ok rows) = rw (n, e) in
    subst (Reports id rows) (sym d) (detected-Reports id rows h)
