-- ===== src/Memory/History/Tests.antt =====
-- A case with a chain that ends resolved, a fragment beside it, and two links in a circle.
use memento_mcp.Base.{
  ◌↔◌, ◌≡◌, refl, String, Option, none, some, List, [], ◌∷◌, All, map, ok, err, true, false,
}
use memento_mcp.Base.Maps
use mathlib.Core.List.{Memᴰ}
use memento_mcp.Memory.History.{
  Fragment, Link, Chain, History, all_causal_links, fragment_map, build_causal_chains, chains_from,
  roots, distinct, is_causal_link, is_causal, event_links, fragment_map_from, outgoing,
  outgoing_from, add_chain, add_found, chain_of, walk, visit, unvisited_targets, search_from, place,
  has_resolution,
}
use memento_mcp.Memory.History.Reach.{Reaches}
use memento_mcp.Memory.History.Causal.{IsCausal}
use memento_mcp.Memory.History.Chains.{IsRoot, IsChain, build_causal_chains-IsChain}
use memento_mcp.Memory.History.Reconstruct.{Queries, reconstruct, IsHistory, reconstruct_returns}

abbrev fragment : String → Option String → Fragment
fragment id status = record {
  id = id;
  content = none;
  created_at = none;
  resolution_status = status;
}

abbrev link : String → String → String → Link
link a b type = record {
  from_id = a;
  to_id = b;
  relation_type = type;
  weight = 1000;
  from_dag = false;
}

abbrev timeline : List Fragment
timeline =
    fragment "a" (some "open")
    ∷ fragment "b" none
    ∷ fragment "c" (some "resolved")
    ∷ fragment "d" none
    ∷ []

abbrev links : List Link
links =
    link "a" "b" "caused_by"
    ∷ link "b" "c" "resolved_by"
    ∷ link "a" "c" "caused_by"
    ∷ link "b" "d" "related"
    ∷ link "x" "y" "caused_by"
    ∷ link "y" "x" "caused_by"
    ∷ []

abbrev ids : Option (List Chain) → List (List String)
ids none = []
ids (some []) = []
ids (some (c ∷ cs)) = map (λ p. p.fragment.id) c.chain ∷ ids (some cs)

chains : ids (build_causal_chains timeline links []) ≡ ("a" ∷ "b" ∷ "c" ∷ []) ∷ []
unfolding build_causal_chains chains_from roots distinct all_causal_links is_causal_link is_causal
    event_links fragment_map fragment_map_from outgoing outgoing_from add_chain add_found chain_of
    walk visit unvisited_targets search_from place has_resolution Maps.get Maps.put
chains = refl

-- An error that is resolved by a fix which is caused by it: a circle has no root, and so no chain.
circle :
    ids
      (build_causal_chains timeline (link "a" "c" "resolved_by" ∷ link "c" "a" "caused_by" ∷ []) [])
    ≡ []
unfolding build_causal_chains chains_from roots distinct all_causal_links is_causal_link is_causal
    event_links fragment_map fragment_map_from outgoing outgoing_from add_chain add_found chain_of
    walk visit unvisited_targets search_from place has_resolution Maps.get Maps.put
circle = refl

build_causal_chains-IsChain_example :
    let ls = all_causal_links links [] in
    let frags = fragment_map timeline in
    (chains : List Chain) × (build_causal_chains timeline links [] ≡ some chains)
    × All (IsChain ls frags) chains
    × ((r y : String) (f : Fragment)
        → IsRoot ls r
        → Reaches ls r y
        → Maps.get y frags ≡ some f
        → (c : Chain) × Memᴰ c chains × (c.root_id ≡ r))
    × ((l : Link) → Memᴰ l ls ↔ IsCausal links [] l)
build_causal_chains-IsChain_example = build_causal_chains-IsChain timeline links []

-- The case events cannot be read, and the history is built without them.
abbrev queries : Queries
queries = record {
  timeline = ok timeline;
  fetch_links = λ ids. ok links;
  case_store = true;
  get_by_case = err "down";
  get_edges_by_events = λ ids. err "down";
  get_evidence_by_event = λ id. err "down";
}

reconstruct_returns_example :
    (h : History) × (reconstruct queries (some "case") none ≡ ok h) × IsHistory timeline h
reconstruct_returns_example =
    reconstruct_returns queries (some "case") none timeline refl refl (λ ids. (links, refl))
