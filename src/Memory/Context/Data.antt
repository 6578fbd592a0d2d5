-- ===== src/Memory/Context/Data.antt =====
-- The data of lib/memory/ContextBuilder.js. A fragment carries the length of its content.
use memento_mcp.Base.{ℕ, String, Option, List, Bool, Dict, Outcome}

pub record Fragment : Type 0 where
  pub id : Option String
  pub type : Option String
  pub chars : ℕ
  pub is_anchor : Bool
  pub is_truncated : Bool

-- `contextInjection` of the configuration, the score by which the extras are sorted,
-- and that of the ranking.
pub record Config : Type 0 where
  pub max_core_fragments : Option ℕ
  pub max_wm_fragments : Option ℕ
  pub type_slots : Dict ℕ
  pub score : Fragment → ℕ
  pub rank_score : Fragment → ℕ

-- The core memory while it is filled.
pub record Core : Type 0 where
  pub groups : Dict (List Fragment)
  pub used_chars : ℕ
  pub type_counters : Dict ℕ
  pub total_added : ℕ

-- What the loads answer: a recall for each type and for `session_reflect`, the working memory of the
-- session (none without a session), and the anchors.
pub record Loads : Type 0 where
  pub recall_type : String → List Fragment
  pub recall_reflect : List Fragment
  pub working_memory : Option (List Fragment)
  pub anchors : Outcome String (List Fragment)

pub record Context : Type 0 where
  pub fragments : List Fragment
  pub total_tokens : ℕ
  pub count : ℕ
  pub anchor_tokens : ℕ
  pub core_tokens : ℕ
  pub wm_tokens : ℕ
  pub wm_count : ℕ
  pub anchor_count : ℕ
