-- ===== src/Memory/History/Chains.antt =====
-- The chains that are built: one for every root that leads to a fragment, each with what it reaches.
use memento_mcp.Base.{
  suc, ◌<◌, ◌≡◌, ◌≢◌, refl, sym, ◌∙◌, ap, subst, String, some, List, [], ◌∷◌, Bool, true, false,
  not, if◌then◌else◌, Dict, str_eq, eq_iff, includes, is_text, length, map, All, Bool-cases, inl,
  inr, ◌⊎◌, ◌↔◌, arith,
}
use memento_mcp.Base.Maps
use memento_mcp.Base.Members.{includes-Memᴰ, Memᴰ-keep_if}
use mathlib.Core.List.{Memᴰ}
use mathlib.Core.List.Memᴰ
use memento_mcp.Memory.History.{
  Fragment, Link, Edge, Placed, Chain, all_causal_links, distinct, roots, has_resolution, chain_of,
  add_found, add_chain, chains_from, fragment_map, build_causal_chains,
}
use memento_mcp.Memory.History.Causal.{IsCausal, all_causal_links-IsCausal}
use memento_mcp.Memory.History.Walk.{walk_ends}
use memento_mcp.Memory.History.Reach.{Reaches}
use memento_mcp.Memory.History.Found.{Occurs, walk-Occurs}

-- A link leaves the identifier and none leads to it.
pub IsRoot : List Link → String → Type 0
IsRoot ls r = ((l : Link) × Memᴰ l ls × (l.from_id ≡ r)) × ((l : Link) → Memᴰ l ls → l.to_id ≢ r)

head_or_rest :
    (b : Bool) {y x : String} {rest : List String}
    → Memᴰ y (if b then rest else x ∷ rest)
    → (y ≡ x) ⊎ Memᴰ y rest
head_or_rest true m = inr m
head_or_rest false m = Memᴰ.cases_cons m

distinct_from : (seen xs : List String) (y : String) → Memᴰ y (distinct seen xs) → Memᴰ y xs
unfolding distinct
distinct_from seen [] y m = elim m [ ]
distinct_from seen (x ∷ xs) y m = elim (head_or_rest (includes seen x) m) [
  | inl e ↦ Memᴰ.head e
  | inr m' ↦ Memᴰ.tail (distinct_from (if includes seen x then seen else x ∷ seen) xs y m')
]

distinct_all :
    (seen xs : List String) (y : String)
    → Memᴰ y xs
    → includes seen y ≡ false
    → Memᴰ y (distinct seen xs)
unfolding distinct
distinct_all seen [] y m h = elim m [ ]
distinct_all seen (x ∷ xs) y m h = elim (Bool-cases (includes seen x)) [
  | inl s ↦ elim (Memᴰ.cases_cons m) [
    | inl p ↦ ground (arith, s, h, ap (includes seen) p)
    | inr m' ↦ rw s (distinct_all seen xs y m' h)
  ]
  | inr s ↦ elim (Bool-cases (str_eq x y)) [
    | inl e ↦ rw s (Memᴰ.head (sym ((eq_iff x y).0 e)))
    | inr e ↦ elim (Memᴰ.cases_cons m) [
      | inl p ↦ rw s (Memᴰ.head p)
      | inr m' ↦ rw s (Memᴰ.tail (distinct_all (x ∷ seen) xs y m' (rw (e, h) refl)))
    ]
  ]
]

roots-IsRoot : (ls : List Link) (r : String) → Memᴰ r (roots ls) → IsRoot ls r
unfolding roots IsRoot
roots-IsRoot ls r m =
    let (m', fresh) =
      (Memᴰ-keep_if (λ id. not (includes (map (λ l. l.to_id) ls) id)) r
          (distinct [] (map (λ l. l.from_id) ls))).0
        m in
    (
      Memᴰ.of_map (λ l. l.from_id) ls (distinct_from [] (map (λ l. l.from_id) ls) r m'),
      λ l k e. ground (
        arith,
        fresh,
        (includes-Memᴰ (map (λ l. l.to_id) ls) r).1
            (subst (λ z. Memᴰ z (map (λ l. l.to_id) ls)) e (Memᴰ.map (λ l. l.to_id) k)),
      ),
    )

IsRoot-roots : (ls : List Link) (r : String) → IsRoot ls r → Memᴰ r (roots ls)
unfolding roots IsRoot
IsRoot-roots ls r ((l, m, e), fresh) =
    (Memᴰ-keep_if (λ id. not (includes (map (λ l. l.to_id) ls) id)) r
        (distinct [] (map (λ l. l.from_id) ls))).1
      (
        distinct_all [] (map (λ l. l.from_id) ls) r
            (subst (λ z. Memᴰ z (map (λ l. l.from_id) ls)) e (Memᴰ.map (λ l. l.from_id) m)) refl,
        not_target (Bool-cases (includes (map (λ l. l.to_id) ls) r)),
      )
  where
    not_target :
        (includes (map (λ l. l.to_id) ls) r ≡ true) ⊎ (includes (map (λ l. l.to_id) ls) r ≡ false)
        → not (includes (map (λ l. l.to_id) ls) r) ≡ true
    not_target (inl h) =
        let (k, mk, ek) =
          Memᴰ.of_map (λ l. l.to_id) ls ((includes-Memᴰ (map (λ l. l.to_id) ls) r).0 h) in
        absurd (fresh k mk ek)
    not_target (inr h) = rw h refl

-- The chain of a root: the fragments that the links reach from it, and whether one is resolved.
pub record IsChain (ls : List Link) (frags : Dict Fragment) (c : Chain) : Type 0 where
  pub rooted : IsRoot ls c.root_id
  pub reached :
      (f : Fragment)
      → Occurs f c.chain ↔ ((y : String) × Reaches ls c.root_id y × (Maps.get y frags ≡ some f))
  pub counted : (c.chain_length ≡ length c.chain) × (0 < c.chain_length)
  pub resolved :
      (c.is_resolved ≡ true)
      ↔ ((f : Fragment) × Occurs f c.chain × (is_text "resolved" f.resolution_status ≡ true))

resolved_from :
    (ps : List Placed)
    → has_resolution ps ≡ true
    → (f : Fragment) × Occurs f ps × (is_text "resolved" f.resolution_status ≡ true)
unfolding has_resolution
resolved_from [] h = ground (arith, h)
resolved_from (p ∷ ps) h = elim (Bool-cases (is_text "resolved" p.fragment.resolution_status)) [
  | inl e ↦ (p.fragment, (p, Memᴰ.head refl, refl), e)
  | inr e ↦ let (f, (q, m, k), r) = resolved_from ps (rw e at h) in (f, (q, Memᴰ.tail m, k), r)
]

resolved_in :
    (ps : List Placed) (q : Placed)
    → Memᴰ q ps
    → is_text "resolved" q.fragment.resolution_status ≡ true
    → has_resolution ps ≡ true
unfolding has_resolution
resolved_in [] q m h = elim m [ ]
resolved_in (p ∷ ps) q m h = elim (Memᴰ.cases_cons m) [
  | inl e ↦
      ground (arith, ap (λ (x : Placed). is_text "resolved" x.fragment.resolution_status) e, h)
  | inr m' ↦ ground (arith, resolved_in ps q m' h)
]

chain_of-IsChain :
    (ls : List Link) (frags : Dict Fragment) (root : String) (p : Placed) (ps : List Placed)
    → IsRoot ls root
    → ((f : Fragment)
        → Occurs f (p ∷ ps) ↔ ((y : String) × Reaches ls root y × (Maps.get y frags ≡ some f)))
    → IsChain ls frags (chain_of root (p ∷ ps))
unfolding chain_of
chain_of-IsChain ls frags root p ps r o = record {
  rooted = r;
  reached = o;
  counted = (refl, omega arith);
  resolved = (
    resolved_from (p ∷ ps),
    λ (f, (q, m, e), h).
        resolved_in (p ∷ ps) q m
          (ap (λ (x : Fragment). is_text "resolved" x.resolution_status) e ∙ h),
  );
}

-- Every root that leads to a fragment has a chain.
HasChain : List Link → Dict Fragment → List Chain → String → Type 0
HasChain ls frags chains r =
    (y : String) (f : Fragment)
    → Reaches ls r y
    → Maps.get y frags ≡ some f
    → (c : Chain) × Memᴰ c chains × (c.root_id ≡ r)

add_found-IsChain :
    (ls : List Link) (frags : Dict Fragment) (root : String) (ps : List Placed)
    (chains : List Chain)
    → IsRoot ls root
    → ((f : Fragment)
        → Occurs f ps ↔ ((y : String) × Reaches ls root y × (Maps.get y frags ≡ some f)))
    → All (IsChain ls frags) chains
    → All (IsChain ls frags) (add_found root ps chains)
unfolding add_found
add_found-IsChain ls frags root [] chains r o h = h
add_found-IsChain ls frags root (p ∷ ps) chains r o h = (chain_of-IsChain ls frags root p ps r o, h)

add_found-HasChain :
    (ls : List Link) (frags : Dict Fragment) (root : String) (ps : List Placed)
    (chains : List Chain)
    → ((f : Fragment)
        → Occurs f ps ↔ ((y : String) × Reaches ls root y × (Maps.get y frags ≡ some f)))
    → HasChain ls frags (add_found root ps chains) root
unfolding add_found HasChain chain_of
add_found-HasChain ls frags root [] chains o y f r e =
    let (p, m, k) = (o f).1 (y, r, e) in absurd (Memᴰ.not-nil m)
add_found-HasChain ls frags root (p ∷ ps) chains o y f r e =
    (chain_of root (p ∷ ps), Memᴰ.head refl, refl)

later :
    (ls : List Link) (frags : Dict Fragment) (root : String) (ps : List Placed)
    (chains : List Chain) (r : String)
    → HasChain ls frags chains r
    → HasChain ls frags (add_found root ps chains) r
unfolding add_found HasChain
later ls frags root [] chains r h y f k e = h y f k e
later ls frags root (p ∷ ps) chains r h y f k e = let (c, m, q) = h y f k e in (c, Memᴰ.tail m, q)

chains_from-IsChain :
    (ls : List Link) (frags : Dict Fragment) (rs : List String)
    → ((r : String) → Memᴰ r rs → IsRoot ls r)
    → (chains : List Chain) × (chains_from ls frags rs ≡ some chains)
      × All (IsChain ls frags) chains
      × ((r : String) → Memᴰ r rs → HasChain ls frags chains r)
unfolding chains_from add_chain
chains_from-IsChain ls frags [] roots = ([], refl, tt, λ r m. elim m [ ])
chains_from-IsChain ls frags (root ∷ rs) roots =
    let (chains, e, good, has) = chains_from-IsChain ls frags rs (λ r m. roots r (Memᴰ.tail m)) in
    let (t, ends) = walk_ends ls frags root in
    let o : (f : Fragment)
        → Occurs f t.found ↔ ((y : String) × Reaches ls root y × (Maps.get y frags ≡ some f)) =
      walk-Occurs ls frags root (suc (length ls)) t ends in
    (
      add_found root t.found chains,
      rw (ends, e) refl,
      add_found-IsChain ls frags root t.found chains (roots root (Memᴰ.head refl)) o good,
      λ r m. elim (Memᴰ.cases_cons m) [
        | inl q ↦
            subst (HasChain ls frags (add_found root t.found chains)) (sym q)
              (add_found-HasChain ls frags root t.found chains o)
        | inr m' ↦ later ls frags root t.found chains r (has r m')
      ],
    )

-- The causal chains of a timeline are always found: the loops end. Every chain starts at a root, an
-- identifier that a causal link or edge leaves and none leads to; it holds the fragments of the
-- timeline that the links reach from the root, in any number of steps, and no others; its length is
-- their number, and it is resolved exactly if one of them is. Every root that leads to a fragment has
-- a chain. The links followed are those, and the edges of the events, whose type is `caused_by` or
-- `resolved_by`, and no others.
pub build_causal_chains-IsChain :
    (fragments : List Fragment) (links : List Link) (dag : List Edge)
    → let ls = all_causal_links links dag in
      let frags = fragment_map fragments in
      (chains : List Chain) × (build_causal_chains fragments links dag ≡ some chains)
      × All (IsChain ls frags) chains
      × ((r y : String) (f : Fragment)
          → IsRoot ls r
          → Reaches ls r y
          → Maps.get y frags ≡ some f
          → (c : Chain) × Memᴰ c chains × (c.root_id ≡ r))
      × ((l : Link) → Memᴰ l ls ↔ IsCausal links dag l)
unfolding build_causal_chains HasChain
build_causal_chains-IsChain fragments links dag =
    let ls : List Link = all_causal_links links dag in
    let frags : Dict Fragment = fragment_map fragments in
    let (chains, e, good, has) = chains_from-IsChain ls frags (roots ls) (roots-IsRoot ls) in
    (
      chains,
      e,
      good,
      λ r y f h. has r (IsRoot-roots ls r h) y f,
      all_causal_links-IsCausal links dag,
    )
