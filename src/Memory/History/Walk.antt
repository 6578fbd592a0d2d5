-- ===== src/Memory/History/Walk.antt =====
-- The search of one chain ends within its fuel: a round takes one identifier out of the queue, and
-- every link is followed at most once.
use memento_mcp.Base.{
  ℕ, zero, suc, ◌+◌, ◌≤◌, ◌≡◌, refl, sym, ◌∙◌, ap, String, some, List, [], ◌∷◌, ◌++◌, Bool, false,
  not, if◌then◌else◌, Dict, or_else, str_eq, eq_iff, includes, length, keep_if, count_if,
  count_if-le, length-append, get-put, String-cases, Bool-cases, inl, inr, arith,
}
use memento_mcp.Base.Maps
use memento_mcp.Base.Members.{includes-append}
use mathlib.Core.List.{append-nil, append_assoc}
use memento_mcp.Memory.History.{
  Fragment, Link, Search, outgoing, outgoing_from, unvisited_targets, visit, walk, search_from,
}

abbrev pub leaves : String → Link → Bool
leaves x l = str_eq l.from_id x

pushed :
    (m : Dict (List Link)) (a x : String) (l : Link) (ks : List Link)
    → or_else (if str_eq a x then some (or_else (Maps.get a m) [] ++ l ∷ []) else Maps.get x m) []
        ++ ks
      ≡ or_else (Maps.get x m) [] ++ (if str_eq a x then l ∷ ks else ks)
pushed m a x l ks = elim (String-cases a x) [
  | inl (p, e) ↦ rw (e, p) (append_assoc (or_else (Maps.get x m) []) (l ∷ []) ks)
  | inr (n, e) ↦ rw e refl
]

-- The index holds the links that leave an identifier.
get-outgoing_from :
    (ls : List Link) (m : Dict (List Link)) (x : String)
    → or_else (Maps.get x (outgoing_from ls m)) []
      ≡ or_else (Maps.get x m) [] ++ keep_if (leaves x) ls
unfolding outgoing_from
get-outgoing_from [] m x = sym (append-nil (or_else (Maps.get x m) []))
get-outgoing_from (l ∷ ls) m x =
    let links : List Link = or_else (Maps.get l.from_id m) [] ++ l ∷ [] in
    get-outgoing_from ls (Maps.put l.from_id links m) x
    ∙ rw (get-put l.from_id x links m) (pushed m l.from_id x l (keep_if (leaves x) ls))

-- The links that have not been followed.
abbrev pub remaining : List String → List Link → ℕ
remaining v ls = count_if (λ l. not (includes v l.from_id)) ls

remaining-visit :
    (v : List String) (x : String) (ls : List Link)
    → includes v x ≡ false
    → remaining (v ++ x ∷ []) ls + length (keep_if (leaves x) ls) ≡ remaining v ls
remaining-visit v x [] h = refl
remaining-visit v x (l ∷ ls) h = ground (
  arith,
  includes-append v (x ∷ []) l.from_id,
  eq_iff l.from_id x,
  eq_iff x l.from_id,
  h,
  remaining-visit v x ls h,
)

length-unvisited_targets-le :
    (v : List String) (ls : List Link) → length (unvisited_targets v ls) ≤ length ls
unfolding unvisited_targets
length-unvisited_targets-le v [] = omega arith
length-unvisited_targets-le v (l ∷ ls) = ground (arith, length-unvisited_targets-le v ls)

pub outgoing-leaves :
    (ls : List Link) (x : String) → or_else (Maps.get x (outgoing ls)) [] ≡ keep_if (leaves x) ls
unfolding outgoing Maps.get
outgoing-leaves ls x = get-outgoing_from ls [] x

-- The work left: what is in the queue, and the links that have not been followed.
abbrev work : List Link → Search → ℕ
work ls s = length s.queue + remaining s.visited ls

work-visit :
    (ls : List Link) (frags : Dict Fragment) (x : String) (s : Search)
    → work ls (visit (outgoing ls) frags x s) ≤ work ls s
unfolding visit
work-visit ls frags x s = elim (Bool-cases (includes s.visited x)) [
  | inl h ↦ rw h (omega arith)
  | inr h ↦
      rw (h, outgoing-leaves ls x)
        (omega (
          arith,
          remaining-visit s.visited x ls h,
          length-append s.queue (unvisited_targets (s.visited ++ x ∷ []) (keep_if (leaves x) ls)),
          length-unvisited_targets-le (s.visited ++ x ∷ []) (keep_if (leaves x) ls),
        ))
]

walk_enough :
    (ls : List Link) (frags : Dict Fragment) (fuel : ℕ) (q : List String) (s : Search)
    → q ≡ s.queue
    → work ls s ≤ fuel
    → (t : Search) × (walk (outgoing ls) frags fuel q s ≡ some t)
unfolding walk
walk_enough ls frags fuel [] s e le = (s, refl)
walk_enough ls frags zero (x ∷ q) s e le =
    let longer : suc (length q) ≡ length s.queue = ap length e in
    let wrong : ⊥ = omega (arith, le, longer) in elim wrong [ ]
walk_enough ls frags (suc fuel) (x ∷ q) s e le =
    let s' : Search = visit (outgoing ls) frags x (record s { queue = q }) in
    walk_enough ls frags fuel s'.queue s' refl (
      let longer : suc (length q) ≡ length s.queue = ap length e in
      let shorter : work ls s' ≤ work ls (record s { queue = q }) =
        work-visit ls frags x (record s { queue = q }) in
      omega (arith, le, longer, shorter))

-- The search from any identifier ends within its fuel.
pub walk_ends :
    (ls : List Link) (frags : Dict Fragment) (root : String)
    → (t : Search) × (walk (outgoing ls) frags (suc (length ls)) (root ∷ []) (search_from root)
        ≡ some t)
unfolding search_from
walk_ends ls frags root =
    walk_enough ls frags (suc (length ls)) (root ∷ []) (search_from root) refl
      (omega (arith, count_if-le (λ l. not (includes [] l.from_id)) ls))
