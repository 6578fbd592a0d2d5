-- ===== src/Memory/Batch/Data.antt =====
-- The data of lib/memory/BatchRememberProcessor.js: the limits, the parameters and results, the
-- database as it answers, and the statements it is sent.
use memento_mcp.Base.{ℕ, String, Option, List, Bool, Outcome}

abbrev pub max_batch : ℕ
max_batch = 200

abbrev pub max_rows_chunk : ℕ
max_rows_chunk = 500

abbrev pub max_bytes_chunk : ℕ
max_bytes_chunk = 262144

-- An element of `params.fragments`, and what the factory makes of it.
pub record Item : Type 0 where
  pub content : Option String
  pub kind : Option String
  pub topic : Option String
  pub workspace : Option String

pub record Fragment : Type 0 where
  pub id : String
  pub content_bytes : ℕ
  pub agent_id : String
  pub key_id : Option String
  pub workspace : Option String

-- An entry of `results`; it stands at its index.
pub record Result : Type 0 where
  pub id : Option String
  pub success : Bool
  pub error : Option String

-- An entry of `validFragments`.
pub record Valid : Type 0 where
  pub index : ℕ
  pub fragment : Fragment

pub record Params : Type 0 where
  pub fragments : List Item
  pub agent_id : Option String
  pub key_id : Option String
  pub workspace : Option String
  pub default_workspace : Option String

-- What a batch comes to; the quota's fields are there when it refused all.
pub record Refusal : Type 0 where
  pub fragment_limit : ℕ
  pub current_count : ℕ
  pub rejected_by_quota : ℕ

pub record Output : Type 0 where
  pub results : List Result
  pub inserted : ℕ
  pub skipped : ℕ
  pub refusal : Option Refusal

pub data Error : Type 0 where
  empty_batch batch_too_large pool_unavailable : Error
  database : String → Error

-- The statements that begin and end a transaction, with a commit that throws apart, the inserts
-- with their rows, and the release of the connection.
pub data Statement : Type 0 where
  begin commit failed_commit rollback release : Statement
  insert_rows : List Valid → Statement

-- `FragmentFactory`: the reason a content is refused for, and the fragment or the message thrown.
pub record Factory : Type 0 where
  pub validate : String → Option String → Option String → Option String
  pub create : Item → Outcome String Fragment

-- The database's answers: the key's row with its limit, the count of its fragments, and for the
-- chunk at an index the identifiers returned. A query can throw. The queries that set the
-- transaction up are answered together.
pub record Database : Type 0 where
  pub connected : Bool
  pub limit_row_a : Outcome String (Option (Option ℕ))
  pub count_a : Outcome String ℕ
  pub set_up : Outcome String (Unit {0})
  pub limit_row_b : Outcome String (Option (Option ℕ))
  pub count_b : Outcome String ℕ
  pub commits : Outcome String (Unit {0})
  pub insert : ℕ → List Valid → Outcome String (List (Option String))
