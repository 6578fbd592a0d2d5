-- ===== src/Memory/History/Reconstruct.antt =====
-- lib/memory/HistoryReconstructor.js: `reconstruct` around the causal chains, and the branches that
-- are still unresolved. A query is what it answers or the message it throws; its SQL, which applies
-- the filters and the limit, and the summary text are left out.
use memento_mcp.Base.{
  String, Option, none, some, List, [], ◌∷◌, ◌++◌, map, Bool, true, not, ◌&&◌, ◌||◌, if◌then◌else◌,
  str_eq, is_text, includes, keep_if, Outcome, ok, err, is_some, truthy, ◌≡◌, refl, ◌⊎◌, inl, inr,
  Bool-cases,
}
use memento_mcp.Memory.History.{
  Fragment, Link, Edge, CaseEvent, Chain, Branch, fragment_branch, event_branch, History,
  build_causal_chains,
}
use memento_mcp.Base.Members.{Memᴰ-keep_if}
use mathlib.Core.List.{Memᴰ}
use memento_mcp.Memory.History.Chains.{build_causal_chains-IsChain}

pub chain_ids : Chain → List String
chain_ids c = map (λ p. p.fragment.id) c.chain

-- `chains.flatMap(c => c.chain.map(n => n.id))`, over the chains that pass a test.
pub ids_of_chains : (Chain → Bool) → List Chain → List String
ids_of_chains p [] = []
ids_of_chains p (c ∷ cs) = if p c then chain_ids c ++ ids_of_chains p cs else ids_of_chains p cs

pub resolved_from_ids : List Edge → List String
resolved_from_ids dag =
    map (λ e. e.from_event_id) (keep_if (λ e. str_eq e.edge_type "resolved_by") dag)

pub is_open_branch : List String → Fragment → Bool
is_open_branch resolved f = is_text "open" f.resolution_status && not (includes resolved f.id)

pub is_unresolved_error : List String → CaseEvent → Bool
is_unresolved_error resolved e =
    str_eq e.event_type "error_observed" && not (includes resolved e.event_id)

pub detect_unresolved_branches :
    List Fragment → List Chain → List CaseEvent → List Edge → List Branch
detect_unresolved_branches fragments chains events dag =
    map fragment_branch
      (keep_if (is_open_branch (ids_of_chains (λ c. c.is_resolved) chains)) fragments)
    ++ map event_branch (keep_if (is_unresolved_error (resolved_from_ids dag)) events)

-- What the database answers. `case_store`: whether a store of case events was injected.
pub record Queries : Type 0 where
  pub timeline : Outcome String (List Fragment)
  pub fetch_links : List String → Outcome String (List Link)
  pub case_store : Bool
  pub get_by_case : Outcome String (List CaseEvent)
  pub get_edges_by_events : List String → Outcome String (List Edge)
  pub get_evidence_by_event : String → Outcome String (List Fragment)

pub data Error : Type 0 where
  scope_required search_unfinished : Error
  query_failed : String → Error

-- `.catch(() => [])`.
pub or_empty : {A : Type 0} → Outcome String (List A) → List A
or_empty (err message) = []
or_empty (ok rows) = rows

pub queried : {A : Type 0} → Outcome String A → Outcome Error A
queried (err message) = err (query_failed message)
queried (ok a) = ok a

pub events_of : Queries → Option String → List CaseEvent
events_of q none = []
events_of q (some case_id) = if q.case_store then or_empty q.get_by_case else []

pub dag_of : Queries → List CaseEvent → List Edge
dag_of q [] = []
dag_of q (e ∷ es) = or_empty (q.get_edges_by_events (map (λ x. x.event_id) (e ∷ es)))

pub with_evidence : Queries → CaseEvent → CaseEvent
with_evidence q e = record e { evidence = or_empty (q.get_evidence_by_event e.event_id) }

-- `_fetchLinks`: without identifiers there is no query.
pub links_of : Queries → List String → Outcome Error (List Link)
links_of q [] = ok []
links_of q (id ∷ ids) = queried (q.fetch_links (id ∷ ids))

pub history_of :
    List Fragment → List CaseEvent → List Edge → Option (List Chain) → Outcome Error History
history_of timeline events dag none = err search_unfinished
history_of timeline events dag (some chains) =
    let chained = ids_of_chains (λ c. true) chains in
    ok (record {
      ordered_timeline = timeline;
      causal_chains = chains;
      unresolved_branches = detect_unresolved_branches timeline chains events dag;
      supporting_fragments = keep_if (λ f. not (includes chained f.id)) timeline;
      case_events = events;
      event_dag = dag;
    })

pub empty_history : History
empty_history = record {
  ordered_timeline = [];
  causal_chains = [];
  unresolved_branches = [];
  supporting_fragments = [];
  case_events = [];
  event_dag = [];
}

pub linked :
    List Fragment → List CaseEvent → List Edge → Outcome Error (List Link) → Outcome Error History
linked timeline events dag (err e) = err e
linked timeline events dag (ok links) =
    history_of timeline events dag (build_causal_chains timeline links dag)

pub assemble : Queries → List CaseEvent → List Fragment → Outcome Error History
assemble q [] [] = ok empty_history
assemble q [] (f ∷ fs) = linked (f ∷ fs) [] [] (links_of q (map (λ x. x.id) (f ∷ fs)))
assemble q (e ∷ es) fs =
    linked fs (map (with_evidence q) (e ∷ es)) (dag_of q (e ∷ es)) (links_of q (map (λ x. x.id) fs))

pub after_timeline : Queries → Option String → Outcome Error (List Fragment) → Outcome Error History
after_timeline q case_id (err e) = err e
after_timeline q case_id (ok timeline) = assemble q (events_of q case_id) timeline

-- `reconstruct`, given the case and the entity that were asked for.
pub reconstruct : Queries → Option String → Option String → Outcome Error History
reconstruct q case_id entity =
    if is_some (truthy case_id) || is_some (truthy entity)
    then after_timeline q (truthy case_id) (queried q.timeline)
    else err scope_required

-- What a history is for a timeline: nothing of it is lost, and each fragment is in a chain or supports.
pub record IsHistory (timeline : List Fragment) (h : History) : Type 0 where
  pub whole : h.ordered_timeline ≡ timeline
  pub sorted :
      (f : Fragment)
      → Memᴰ f timeline
      → (includes (ids_of_chains (λ c. true) h.causal_chains) f.id ≡ true)
        ⊎ Memᴰ f h.supporting_fragments

history_of-IsHistory :
    (fs : List Fragment) (events : List CaseEvent) (dag : List Edge) (chains : List Chain)
    → (h : History) × (history_of fs events dag (some chains) ≡ ok h) × IsHistory fs h
unfolding history_of
history_of-IsHistory fs events dag chains =
    let chained : List String = ids_of_chains (λ c. true) chains in
    (
      _,
      refl,
      record {
        whole = refl;
        sorted = λ f m. elim (Bool-cases (includes chained f.id)) [
          | inl e ↦ inl e
          | inr e ↦ inr ((Memᴰ-keep_if (λ g. not (includes chained g.id)) f fs).1 (m, rw e refl))
        ];
      },
    )

linked-IsHistory :
    (fs : List Fragment) (events : List CaseEvent) (dag : List Edge)
    (links : Outcome Error (List Link))
    → (ls : List Link) × (links ≡ ok ls)
    → (h : History) × (linked fs events dag links ≡ ok h) × IsHistory fs h
unfolding linked
linked-IsHistory fs events dag links (ls, e) =
    let (chains, built, good, has, causal) = build_causal_chains-IsChain fs ls dag in
    rw (e, built) (history_of-IsHistory fs events dag chains)

links_of-answers :
    (q : Queries) (ids : List String)
    → ((ids : List String) → (ls : List Link) × (q.fetch_links ids ≡ ok ls))
    → (ls : List Link) × (links_of q ids ≡ ok ls)
unfolding links_of queried
links_of-answers q [] a = ([], refl)
links_of-answers q (id ∷ ids) a = let (ls, e) = a (id ∷ ids) in (ls, rw e refl)

assemble-IsHistory :
    (q : Queries) (events : List CaseEvent) (fs : List Fragment)
    → ((ids : List String) → (ls : List Link) × (q.fetch_links ids ≡ ok ls))
    → (h : History) × (assemble q events fs ≡ ok h) × IsHistory fs h
unfolding assemble empty_history
assemble-IsHistory q [] [] a =
    (empty_history, refl, record { whole = refl; sorted = λ f m. elim m [ ] })
assemble-IsHistory q [] (f ∷ fs) a =
    linked-IsHistory (f ∷ fs) [] [] (links_of q (map (λ x. x.id) (f ∷ fs)))
      (links_of-answers q (map (λ x. x.id) (f ∷ fs)) a)
assemble-IsHistory q (e ∷ es) fs a =
    linked-IsHistory fs (map (with_evidence q) (e ∷ es)) (dag_of q (e ∷ es))
      (links_of q (map (λ x. x.id) fs)) (links_of-answers q (map (λ x. x.id) fs) a)

-- For a case or an entity, when the timeline and the links can be read, `reconstruct` returns a
-- history, whatever the links are (cycles too) and even if every query of case events fails: the
-- timeline as it was read, each of its fragments in a chain or among the supporting ones.
pub reconstruct_returns :
    (q : Queries) (case_id entity : Option String) (fs : List Fragment)
    → is_some (truthy case_id) || is_some (truthy entity) ≡ true
    → q.timeline ≡ ok fs
    → ((ids : List String) → (ls : List Link) × (q.fetch_links ids ≡ ok ls))
    → (h : History) × (reconstruct q case_id entity ≡ ok h) × IsHistory fs h
unfolding reconstruct after_timeline queried events_of assemble links_of with_evidence dag_of
reconstruct_returns q case_id entity fs scope read a =
    rw (scope, read) (assemble-IsHistory q (events_of q (truthy case_id)) fs a)
