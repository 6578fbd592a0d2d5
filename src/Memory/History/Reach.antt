-- ===== src/Memory/History/Reach.antt =====
-- A search sees what the links reach from its root.
use memento_mcp.Base.{
  ℕ, zero, suc, ◌≡◌, refl, sym, ◌∙◌, ap, subst, String, some, List, [], ◌∷◌, ◌++◌, Bool, true,
  false, if◌then◌else◌, Dict, or_else, str_eq, eq_iff, eq_refl, includes, keep_if, Bool-cases, inl,
  inr, ◌⊎◌, ◌↔◌, arith,
}
use memento_mcp.Base.Maps
use mathlib.Core.List.{Memᴰ}
use mathlib.Core.List.Memᴰ
use memento_mcp.Memory.History.{
  Fragment, Link, Placed, Search, outgoing, unvisited_targets, visit, walk, search_from, place,
}
use memento_mcp.Memory.History.Walk.{leaves, outgoing-leaves}
use memento_mcp.Base.Members.{includes-append, Memᴰ-keep_if}

-- What the links lead to from a root, in any number of steps.
pub data Reaches (ls : List Link) (root : String) : String → Type 0 where
  start : Reaches ls root root
  follow : {l : Link} → Reaches ls root l.from_id → Memᴰ l ls → Reaches ls root l.to_id

-- What is pushed is the target of one of the links.
pushed_from :
    (v : List String) (ls : List Link) (y : String)
    → includes (unvisited_targets v ls) y ≡ true
    → (l : Link) × Memᴰ l ls × (l.to_id ≡ y)
unfolding unvisited_targets
pushed_from v [] y h = ground (arith, h)
pushed_from v (l ∷ ls) y h = elim (Bool-cases (str_eq l.to_id y)) [
  | inl e ↦ (l, Memᴰ.head refl, (eq_iff l.to_id y).0 e)
  | inr e ↦
      let (k, m, e') =
        pushed_from v ls y (later (includes v l.to_id) (unvisited_targets v ls) l.to_id y e h) in
      (k, Memᴰ.tail m, e')
]
  where
    later :
        (b : Bool) (ts : List String) (t y : String)
        → str_eq t y ≡ false
        → includes (if b then ts else t ∷ ts) y ≡ true
        → includes ts y ≡ true
    later true ts t y e h = h
    later false ts t y e h = ground (arith, e, h)

-- Every target is visited or pushed.
pushed_all :
    (v : List String) (ls : List Link) (l : Link)
    → Memᴰ l ls
    → (includes v l.to_id ≡ true) ⊎ (includes (unvisited_targets v ls) l.to_id ≡ true)
unfolding unvisited_targets
pushed_all v [] l m = elim m [ ]
pushed_all v (k ∷ ls) l m = elim (Memᴰ.cases_cons m) [
  | inl e ↦ ground (arith, eq_iff k.to_id l.to_id, ap (λ (x : Link). x.to_id) e)
  | inr m' ↦ ground (arith, pushed_all v ls l m')
]

-- The state of a search from a root: what it saw is reachable, and nothing that it saw leads out.
record Inv (ls : List Link) (root : String) (q v : List String) : Type 0 where
  queued : (y : String) → includes q y ≡ true → Reaches ls root y
  seen : (y : String) → includes v y ≡ true → Reaches ls root y
  rooted : (includes v root ≡ true) ⊎ (includes q root ≡ true)
  closed :
      (l : Link)
      → Memᴰ l ls
      → includes v l.from_id ≡ true
      → (includes v l.to_id ≡ true) ⊎ (includes q l.to_id ≡ true)

Inv-start : (ls : List Link) (root : String) → Inv ls root (root ∷ []) []
Inv-start ls root = record {
  queued = λ y h. subst (Reaches ls root) ((eq_iff root y).0 (ground (arith, h))) start;
  seen = λ y h. ground (arith, h);
  rooted = inr (rw (eq_refl root) refl);
  closed = λ l m h. ground (arith, h);
}

-- An identifier that was seen is dropped from the queue.
Inv-drop :
    (ls : List Link) (root x : String) (q v : List String)
    → includes v x ≡ true
    → Inv ls root (x ∷ q) v
    → Inv ls root q v
Inv-drop ls root x q v h inv = record {
  queued = λ y k. inv.queued y (ground (arith, k));
  seen = inv.seen;
  rooted = ground (arith, inv.rooted, eq_iff x root, h);
  closed = λ l m k. ground (arith, inv.closed l m k, eq_iff x l.to_id, h);
}

next :
    (ls : List Link) (root x : String) (l : Link) {y : String}
    → Reaches ls root x
    → Memᴰ l (keep_if (leaves x) ls)
    → l.to_id ≡ y
    → Reaches ls root y
next ls root x l r m e =
    let (m', h) = (Memᴰ-keep_if (leaves x) l ls).0 m in
    subst (Reaches ls root) e
      (follow (subst (Reaches ls root) (sym ((eq_iff l.from_id x).0 h)) r) m')

-- One that is new is seen, and its targets are queued.
Inv-add :
    (ls : List Link) (root x : String) (q v : List String)
    → Inv ls root (x ∷ q) v
    → Inv ls root (q ++ unvisited_targets (v ++ x ∷ []) (keep_if (leaves x) ls)) (v ++ x ∷ [])
Inv-add ls root x q v inv =
    let ts : List String = unvisited_targets (v ++ x ∷ []) (keep_if (leaves x) ls) in
    let in_queue : (y : String)
        → includes (q ++ ts) y ≡ (if includes q y then true else includes ts y) =
      includes-append q ts in
    let in_visited : (y : String)
        → includes (v ++ x ∷ []) y ≡ (if includes v y then true else includes (x ∷ []) y) =
      includes-append v (x ∷ []) in
    record {
      queued = λ y k. elim (Bool-cases (includes q y)) [
        | inl h ↦ inv.queued y (ground (arith, h))
        | inr h ↦
            let (l, m, e) =
              pushed_from (v ++ x ∷ []) (keep_if (leaves x) ls) y
                (ground (arith, in_queue y, k, h)) in
            next ls root x l (inv.queued x (rw (eq_refl x) refl)) m e
      ];
      seen = λ y k. elim (Bool-cases (includes v y)) [
        | inl h ↦ inv.seen y h
        | inr h ↦ inv.queued y (ground (arith, in_visited y, k, h))
      ];
      rooted = ground (arith, in_visited root, in_queue root, inv.rooted);
      closed = λ l m k. elim (Bool-cases (includes v l.from_id)) [
        | inl h ↦ ground (arith, inv.closed l m h, in_visited l.to_id, in_queue l.to_id)
        | inr h ↦
            let leaving : str_eq l.from_id x ≡ true =
              ground (arith, in_visited l.from_id, k, h, eq_iff x l.from_id, eq_iff l.from_id x) in
            ground (
              arith,
              in_queue l.to_id,
              pushed_all (v ++ x ∷ []) (keep_if (leaves x) ls) l
                  ((Memᴰ-keep_if (leaves x) l ls).1 (m, leaving)),
            )
      ];
    }

-- What a state of the search knows of the fragments: those of the identifiers seen, in their order.
unfoldable pub places : Dict Fragment → List String → List Placed → List Placed
places frags [] c = c
places frags (x ∷ v) c = places frags v (place (Maps.get x frags) c)

places-append :
    (frags : Dict Fragment) (v : List String) (x : String) (c : List Placed)
    → places frags (v ++ x ∷ []) c ≡ place (Maps.get x frags) (places frags v c)
unfolding places
places-append frags [] x c = refl
places-append frags (y ∷ v) x c = places-append frags v x (place (Maps.get y frags) c)

Good : List Link → Dict Fragment → String → Search → Type 0
Good ls frags root s = Inv ls root s.queue s.visited × (s.found ≡ places frags s.visited [])

Good-visit :
    (ls : List Link) (frags : Dict Fragment) (root x : String) (q : List String) (s : Search)
    → x ∷ q ≡ s.queue
    → Good ls frags root s
    → Good ls frags root (visit (outgoing ls) frags x (record s { queue = q }))
unfolding visit Good
Good-visit ls frags root x q s e (inv, placed) =
    let inv' : Inv ls root (x ∷ q) s.visited = subst (λ p. Inv ls root p s.visited) (sym e) inv in
    elim (Bool-cases (includes s.visited x)) [
      | inl h ↦ rw h (Inv-drop ls root x q s.visited h inv', placed)
      | inr h ↦
          rw (h, outgoing-leaves ls x)
            (
              Inv-add ls root x q s.visited inv',
              ap (place (Maps.get x frags)) placed ∙ sym (places-append frags s.visited x []),
            )
    ]

Good-walk :
    (ls : List Link) (frags : Dict Fragment) (root : String) (fuel : ℕ) (q : List String)
    (s t : Search)
    → q ≡ s.queue
    → Good ls frags root s
    → walk (outgoing ls) frags fuel q s ≡ some t
    → Good ls frags root t × (t.queue ≡ [])
unfolding walk
Good-walk ls frags root fuel [] s t e good h =
    subst (λ (u : Search). Good ls frags root u × (u.queue ≡ [])) (ap (λ o. or_else o s) h)
      (good, sym e)
Good-walk ls frags root zero (x ∷ q) s t e good h = ground (arith, h)
Good-walk ls frags root (suc fuel) (x ∷ q) s t e good h =
    let s' : Search = visit (outgoing ls) frags x (record s { queue = q }) in
    Good-walk ls frags root fuel s'.queue s' t refl (Good-visit ls frags root x q s e good) h

-- At the end every identifier that is reachable was seen.
complete :
    (ls : List Link) (root : String) (v : List String) (y : String)
    → Inv ls root [] v
    → Reaches ls root y
    → includes v y ≡ true
complete ls root v y inv start = ground (arith, inv.rooted)
complete ls root v y inv (follow {l} r m) =
    ground (arith, inv.closed l m (complete ls root v l.from_id inv r))

-- A search that ends has seen what is reachable, and nothing else.
pub walk-Reaches :
    (ls : List Link) (frags : Dict Fragment) (root : String) (fuel : ℕ) (t : Search)
    → walk (outgoing ls) frags fuel (root ∷ []) (search_from root) ≡ some t
    → (t.found ≡ places frags t.visited [])
      × ((y : String) → (includes t.visited y ≡ true) ↔ Reaches ls root y)
unfolding Good search_from places
walk-Reaches ls frags root fuel t h =
    let ((inv, placed), empty) =
      Good-walk ls frags root fuel (root ∷ []) (search_from root) t refl (Inv-start ls root, refl)
        h in
    (
      placed,
      λ y. (
        inv.seen y,
        complete ls root t.visited y (subst (λ q. Inv ls root q t.visited) empty inv),
      ),
    )
