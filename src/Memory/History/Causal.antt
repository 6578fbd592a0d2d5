-- ===== src/Memory/History/Causal.antt =====
-- Which links the causal chains follow.
use memento_mcp.Base.{
  String, List, [], ◌∷◌, ◌++◌, true, eq_iff, or_else, keep_if, ap, ◌≡◌, refl, ◌⊎◌, inl, inr, ◌↔◌,
  Bool-cases, arith,
}
use memento_mcp.Base.Members.{Memᴰ-keep_if}
use mathlib.Core.List.{Memᴰ}
use mathlib.Core.List.Memᴰ
use memento_mcp.Memory.History.{
  Link, Edge, is_causal, is_causal_link, link_of, event_links, all_causal_links,
}

abbrev pub Causal : String → Type 0
Causal t = (t ≡ "caused_by") ⊎ (t ≡ "resolved_by")

-- A link of a causal type, or an edge of the events of one as a link.
abbrev pub IsCausal : List Link → List Edge → Link → Type 0
IsCausal links dag l =
    (Memᴰ l links × Causal l.relation_type)
    ⊎ ((e : Edge) × Memᴰ e dag
        × Causal e.edge_type
        × (l ≡ record {
          from_id = e.from_event_id;
          to_id = e.to_event_id;
          relation_type = e.edge_type;
          weight = or_else e.confidence 1000;
          from_dag = true;
        }))

is_causal_lem : (t : String) → (is_causal t ≡ true) ↔ Causal t
unfolding is_causal
is_causal_lem t = (
  λ h. ground (arith, h, eq_iff t "caused_by", eq_iff t "resolved_by"),
  λ h. ground (arith, h, eq_iff t "caused_by", eq_iff t "resolved_by"),
)

event_links-from :
    (dag : List Edge) (l : Link)
    → Memᴰ l (event_links dag)
    → (e : Edge) × Memᴰ e dag × (is_causal e.edge_type ≡ true) × (l ≡ link_of e)
unfolding event_links
event_links-from [] l m = elim m [ ]
event_links-from (e ∷ es) l m = elim (Bool-cases (is_causal e.edge_type)) [
  | inl h ↦ elim (Memᴰ.cases_cons (rw h at m)) [
    | inl p ↦ (e, Memᴰ.head refl, h, p)
    | inr m' ↦ let (x, n, c, p) = event_links-from es l m' in (x, Memᴰ.tail n, c, p)
  ]
  | inr h ↦ let (x, n, c, p) = event_links-from es l (rw h at m) in (x, Memᴰ.tail n, c, p)
]

event_links-in :
    (dag : List Edge) (e : Edge)
    → Memᴰ e dag
    → is_causal e.edge_type ≡ true
    → Memᴰ (link_of e) (event_links dag)
unfolding event_links
event_links-in [] e m h = elim m [ ]
event_links-in (x ∷ es) e m h = elim (Memᴰ.cases_cons m) [
  | inl p ↦ let c : is_causal x.edge_type ≡ true = rw p at h in rw c (Memᴰ.head (ap link_of p))
  | inr m' ↦ elim (Bool-cases (is_causal x.edge_type)) [
    | inl c ↦ rw c (Memᴰ.tail (event_links-in es e m' h))
    | inr c ↦ rw c (event_links-in es e m' h)
  ]
]

module _ {A : Type 0} where
  append-or : (xs ys : List A) (a : A) → Memᴰ a (xs ++ ys) → Memᴰ a xs ⊎ Memᴰ a ys
  append-or [] ys a m = inr m
  append-or (x ∷ xs) ys a m = elim (Memᴰ.cases_cons m) [
    | inl p ↦ inl (Memᴰ.head p)
    | inr m' ↦ elim (append-or xs ys a m') [ inl n ↦ inl (Memᴰ.tail n) | inr n ↦ inr n ]
  ]

  append-left : (xs ys : List A) (a : A) → Memᴰ a xs → Memᴰ a (xs ++ ys)
  append-left [] ys a m = elim m [ ]
  append-left (x ∷ xs) ys a m = elim (Memᴰ.cases_cons m) [
    | inl p ↦ Memᴰ.head p
    | inr m' ↦ Memᴰ.tail (append-left xs ys a m')
  ]

  append-right : (xs ys : List A) (a : A) → Memᴰ a ys → Memᴰ a (xs ++ ys)
  append-right [] ys a m = m
  append-right (x ∷ xs) ys a m = Memᴰ.tail (append-right xs ys a m)

pub all_causal_links-IsCausal :
    (links : List Link) (dag : List Edge) (l : Link)
    → Memᴰ l (all_causal_links links dag) ↔ IsCausal links dag l
unfolding all_causal_links is_causal_link link_of
all_causal_links-IsCausal links dag l = (
  λ m. elim (append-or (keep_if is_causal_link links) (event_links dag) l m) [
    | inl k ↦
        let (n, c) = (Memᴰ-keep_if is_causal_link l links).0 k in
        inl (n, (is_causal_lem l.relation_type).0 c)
    | inr k ↦
        let (e, n, c, p) = event_links-from dag l k in
        inr (e, n, (is_causal_lem e.edge_type).0 c, p)
  ],
  λ h. elim h [
    | inl k ↦
        append-left (keep_if is_causal_link links) (event_links dag) l
          ((Memᴰ-keep_if is_causal_link l links).1 (k.0, (is_causal_lem l.relation_type).1 k.1))
    | inr (e, n, c, p) ↦
        append-right (keep_if is_causal_link links) (event_links dag) l
          (rw p (event_links-in dag e n ((is_causal_lem e.edge_type).1 c)))
  ],
)
