-- ===== src/Memory/History/Data.antt =====
-- The rows that lib/memory/HistoryReconstructor.js reads and the chains it answers.
use memento_mcp.Base.{ℕ, String, Option, List, Bool}

pub record Fragment : Type 0 where
  pub id : String
  pub content : Option String
  pub created_at : Option String
  pub resolution_status : Option String

-- A row of fragment_links, or an edge of the case's events as a link; the weight is in thousandths.
pub record Link : Type 0 where
  pub from_id : String
  pub to_id : String
  pub relation_type : String
  pub weight : ℕ
  pub from_dag : Bool

-- A row of case_event_edges.
pub record Edge : Type 0 where
  pub from_event_id : String
  pub to_event_id : String
  pub edge_type : String
  pub confidence : Option ℕ

pub record CaseEvent : Type 0 where
  pub event_id : String
  pub event_type : String
  pub summary : Option String
  pub evidence : List Fragment

-- A fragment with its `_chain_position`.
pub record Placed : Type 0 where
  pub fragment : Fragment
  pub chain_position : ℕ

pub record Chain : Type 0 where
  pub root_id : String
  pub chain : List Placed
  pub chain_length : ℕ
  pub is_resolved : Bool

-- An open fragment, or an error event that nothing resolved.
pub data Branch : Type 0 where
  fragment_branch : Fragment → Branch
  event_branch : CaseEvent → Branch

pub record History : Type 0 where
  pub ordered_timeline : List Fragment
  pub causal_chains : List Chain
  pub unresolved_branches : List Branch
  pub supporting_fragments : List Fragment
  pub case_events : List CaseEvent
  pub event_dag : List Edge
