-- ===== src/Memory/History.antt =====
-- lib/memory/HistoryReconstructor.js: the causal chains of a case, a breadth-first search along the
-- links from every root. The rows of the queries are inputs.
-- The search runs on fuel: one more than the number of links is enough for every root.

pub mod Data
mod Reconstruct
mod Walk
mod Reach
mod Found
mod Causal
mod Chains
mod Tests
pub use Data.*
use memento_mcp.Base.{
  ℕ, zero, suc, ◌+◌, String, Option, none, some, List, [], ◌∷◌, ◌++◌, map, Bool, true, false, not,
  ◌&&◌, ◌||◌, if◌then◌else◌, Dict, or_else, str_eq, is_text, includes, length, keep_if, min,
  Outcome, ok, err, is_some, truthy,
}
use memento_mcp.Base.Maps

pub is_causal : String → Bool
is_causal t = str_eq t "caused_by" || str_eq t "resolved_by"

pub is_causal_link : Link → Bool
is_causal_link l = is_causal l.relation_type

pub link_of : Edge → Link
link_of e = record {
  from_id = e.from_event_id;
  to_id = e.to_event_id;
  relation_type = e.edge_type;
  weight = or_else e.confidence 1000;
  from_dag = true;
}

pub event_links : List Edge → List Link
event_links [] = []
event_links (e ∷ es) = if is_causal e.edge_type then link_of e ∷ event_links es else event_links es

pub all_causal_links : List Link → List Edge → List Link
all_causal_links links dag = keep_if is_causal_link links ++ event_links dag

-- `new Map(fragments.map(f => [f.id, f]))`.
pub fragment_map_from : List Fragment → Dict Fragment → Dict Fragment
fragment_map_from [] m = m
fragment_map_from (f ∷ fs) m = fragment_map_from fs (Maps.put f.id f m)

pub fragment_map : List Fragment → Dict Fragment
fragment_map fs = fragment_map_from fs []

-- The links that leave each identifier, in their order.
pub outgoing_from : List Link → Dict (List Link) → Dict (List Link)
outgoing_from [] m = m
outgoing_from (l ∷ ls) m =
    outgoing_from ls (Maps.put l.from_id (or_else (Maps.get l.from_id m) [] ++ l ∷ []) m)

pub outgoing : List Link → Dict (List Link)
outgoing ls = outgoing_from ls []

-- `[...new Set(ids)]`, with the identifiers seen before.
pub distinct : List String → List String → List String
distinct seen [] = []
distinct seen (x ∷ xs) =
    let rest = distinct (if includes seen x then seen else x ∷ seen) xs in
    if includes seen x then rest else x ∷ rest

pub roots : List Link → List String
roots ls =
    keep_if (λ id. not (includes (map (λ l. l.to_id) ls) id))
      (distinct [] (map (λ l. l.from_id) ls))

pub place : Option Fragment → List Placed → List Placed
place none chain = chain
place (some f) chain = chain ++ record { fragment = f; chain_position = length chain } ∷ []

pub unvisited_targets : List String → List Link → List String
unvisited_targets visited [] = []
unvisited_targets visited (l ∷ ls) =
    if includes visited l.to_id
    then unvisited_targets visited ls
    else l.to_id ∷ unvisited_targets visited ls

-- The queue, the visited set and the chain of a search.
pub record Search : Type 0 where
  pub queue : List String
  pub visited : List String
  pub found : List Placed

-- One round of the loop: the head of the queue has been taken out.
pub visit : Dict (List Link) → Dict Fragment → String → Search → Search
visit out frags x s =
    if includes s.visited x
    then s
    else (let visited' = s.visited ++ x ∷ [] in
        record {
          queue = s.queue ++ unvisited_targets visited' (or_else (Maps.get x out) []);
          visited = visited';
          found = place (Maps.get x frags) s.found;
        })

-- The loop; `none` when the fuel is used up.
pub walk : Dict (List Link) → Dict Fragment → ℕ → List String → Search → Option Search
walk out frags fuel [] s = some s
walk out frags zero (x ∷ rest) s = none
walk out frags (suc fuel) (x ∷ rest) s =
    let s' = visit out frags x (record s { queue = rest }) in walk out frags fuel s'.queue s'

pub search_from : String → Search
search_from root = record { queue = root ∷ []; visited = []; found = [] }

pub has_resolution : List Placed → Bool
has_resolution [] = false
has_resolution (p ∷ ps) = is_text "resolved" p.fragment.resolution_status || has_resolution ps

pub chain_of : String → List Placed → Chain
chain_of root placed = record {
  root_id = root;
  chain = placed;
  chain_length = length placed;
  is_resolved = has_resolution placed;
}

-- A root whose search finds no fragment has no chain.
pub add_found : String → List Placed → List Chain → List Chain
add_found root [] chains = chains
add_found root (p ∷ ps) chains = chain_of root (p ∷ ps) ∷ chains

pub add_chain : String → Option Search → Option (List Chain) → Option (List Chain)
add_chain root none rest = none
add_chain root (some s) none = none
add_chain root (some s) (some chains) = some (add_found root s.found chains)

pub chains_from : List Link → Dict Fragment → List String → Option (List Chain)
chains_from ls frags [] = some []
chains_from ls frags (root ∷ rest) =
    add_chain root (walk (outgoing ls) frags (suc (length ls)) (root ∷ []) (search_from root))
      (chains_from ls frags rest)

pub build_causal_chains : List Fragment → List Link → List Edge → Option (List Chain)
build_causal_chains fragments links dag =
    let ls = all_causal_links links dag in chains_from ls (fragment_map fragments) (roots ls)
