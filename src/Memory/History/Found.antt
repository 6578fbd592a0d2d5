-- ===== src/Memory/History/Found.antt =====
-- A search places the fragments of what it sees.
use memento_mcp.Base.{
  ℕ, ◌≡◌, refl, sym, ◌∙◌, ap, subst, String, Option, none, some, List, [], ◌∷◌, true, Dict, or_else,
  str_eq, eq_iff, eq_refl, includes, length, Bool-cases, inl, inr, ◌⊎◌, ◌↔◌, arith,
}
use memento_mcp.Base.Maps
use mathlib.Core.List.{Memᴰ}
use mathlib.Core.List.Memᴰ
use memento_mcp.Memory.History.{Fragment, Link, Placed, Search, outgoing, walk, search_from, place}
use memento_mcp.Memory.History.Reach.{Reaches, places, walk-Reaches}

-- A fragment stands in a chain.
abbrev pub Occurs : Fragment → List Placed → Type 0
Occurs f c = (p : Placed) × Memᴰ p c × (p.fragment ≡ f)

placed_from :
    (o : Option Fragment) (c : List Placed) (f : Fragment)
    → Occurs f (place o c)
    → Occurs f c ⊎ (o ≡ some f)
unfolding place
placed_from none c f h = inl h
placed_from (some g) c f (p, m, e) = elim (Memᴰ.append_cases c m) [
  | inl m' ↦ inl (p, m', e)
  | inr m' ↦ inr (ap some (sym (ap (λ (q : Placed). q.fragment) (Memᴰ.eq_of_singleton m')) ∙ e))
]

placed_kept :
    (o : Option Fragment) (c : List Placed) (f : Fragment) → Occurs f c → Occurs f (place o c)
unfolding place
placed_kept none c f h = h
placed_kept (some g) c f (p, m, e) = (p, Memᴰ.append_left _ m, e)

placed_new :
    (o : Option Fragment) (c : List Placed) (f : Fragment) → o ≡ some f → Occurs f (place o c)
unfolding place
placed_new none c f e = ground (arith, e)
placed_new (some g) c f e = (
  record { fragment = g; chain_position = length c },
  Memᴰ.append_right c (Memᴰ.head refl),
  ap (λ o. or_else o g) e,
)

places_from :
    (frags : Dict Fragment) (v : List String) (c : List Placed) (f : Fragment)
    → Occurs f (places frags v c)
    → Occurs f c ⊎ ((y : String) × (includes v y ≡ true) × (Maps.get y frags ≡ some f))
unfolding places
places_from frags [] c f h = inl h
places_from frags (x ∷ v) c f h = elim (places_from frags v (place (Maps.get x frags) c) f h) [
  | inl k ↦ elim (placed_from (Maps.get x frags) c f k) [
    | inl k' ↦ inl k'
    | inr e ↦ inr (x, rw (eq_refl x) refl, e)
  ]
  | inr (y, k, e) ↦ inr (y, ground (arith, k), e)
]

places_kept :
    (frags : Dict Fragment) (v : List String) (c : List Placed) (f : Fragment)
    → Occurs f c
    → Occurs f (places frags v c)
unfolding places
places_kept frags [] c f h = h
places_kept frags (x ∷ v) c f h =
    places_kept frags v (place (Maps.get x frags) c) f (placed_kept (Maps.get x frags) c f h)

places_all :
    (frags : Dict Fragment) (v : List String) (c : List Placed) (f : Fragment) (y : String)
    → includes v y ≡ true
    → Maps.get y frags ≡ some f
    → Occurs f (places frags v c)
unfolding places
places_all frags [] c f y h e = ground (arith, h)
places_all frags (x ∷ v) c f y h e = elim (Bool-cases (str_eq x y)) [
  | inl k ↦
      places_kept frags v (place (Maps.get x frags) c) f
        (placed_new (Maps.get x frags) c f (ap (λ z. Maps.get z frags) ((eq_iff x y).0 k) ∙ e))
  | inr k ↦ places_all frags v (place (Maps.get x frags) c) f y (ground (arith, h, k)) e
]

-- A search that ends found the fragments of the identifiers that are reachable, and no others.
pub walk-Occurs :
    (ls : List Link) (frags : Dict Fragment) (root : String) (fuel : ℕ) (t : Search)
    → walk (outgoing ls) frags fuel (root ∷ []) (search_from root) ≡ some t
    → (f : Fragment)
    → Occurs f t.found ↔ ((y : String) × Reaches ls root y × (Maps.get y frags ≡ some f))
walk-Occurs ls frags root fuel t h f =
    let (placed, seen) = walk-Reaches ls frags root fuel t h in
    (
      λ o. elim (places_from frags t.visited [] f (subst (Occurs f) placed o)) [
        | inl (p, m, e) ↦ absurd (Memᴰ.not-nil m)
        | inr (y, k, e) ↦ (y, (seen y).0 k, e)
      ],
      λ (y, r, e).
          subst (Occurs f) (sym placed) (places_all frags t.visited [] f y ((seen y).1 r) e),
    )
