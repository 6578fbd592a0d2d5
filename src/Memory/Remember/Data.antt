-- ===== src/Memory/Remember/Data.antt =====
-- The data of lib/memory/processors/MemoryRememberer.js: the parameters, what the calls answer, the
-- effects and the answers, and the runs that the steps are composed of.
use memento_mcp.Base.{ℕ, String, Option, List, [], ◌++◌, Bool, Outcome, ok, err}

-- `session_id` is the first that is given of `sessionId` and `_sessionId`.
pub record Params : Type 0 where
  pub scope : Option String
  pub agent_id : Option String
  pub key_id : Option String
  pub session_id : Option String
  pub idempotency_key : Option String
  pub dry_run : Bool
  pub kind : Option String
  pub topic : Option String
  pub case_id : Option String
  pub supersedes : List String
  pub ttl_tier : Option String

-- What the factory makes; the importance is in thousandths.
pub record Fragment : Type 0 where
  pub id : String
  pub case_id : Option String
  pub importance : Option ℕ
  pub ttl_tier : String

-- The settings: `MEMENTO_REMEMBER_ATOMIC`, the policy's switch, and whether there is a store of case
-- events.
pub record Config : Type 0 where
  pub atomic : Bool
  pub policy_active : Bool
  pub case_events : Bool

-- What the calls answer; a message is what a call throws. `create` is given the case the fragment is
-- put in.
pub record World : Type 0 where
  pub create : Params → Outcome String Fragment
  pub working_memory : Outcome String (Unit {0})
  pub find_by_idempotency_key : Outcome String (Option String)
  pub check_quota : Outcome String (Unit {0})
  pub find_case_id : Outcome String (Option String)
  pub find_error_fragments : Outcome String (List String)
  pub random_uuid : String
  pub check_policy : Outcome String (List String)
  pub get_hard_gate : Outcome String Bool
  pub insert : Outcome String String
  pub index : Outcome String (Unit {0})
  pub post_process : Outcome String (Unit {0})
  pub detect_conflicts : Outcome String (List String)

-- The transaction of the atomic path.
pub record Transaction : Type 0 where
  pub pool : Bool
  pub set_up : Outcome String (Unit {0})
  pub limit_row : Outcome String (Option (Option ℕ))
  pub count : Outcome String ℕ
  pub write : Outcome String String
  pub commit : Outcome String (Unit {0})

-- The changes made, in order. A write in a transaction is kept only by its commit.
pub data Effect : Type 0 where
  remembered_in_session inserted written committed : String → Effect
  rolled_back released indexed post_processed auto_linked : Effect
  case_filled superseded ttl_lowered case_recorded : String → Effect

pub data Error : Type 0 where
  thrown : String → Error
  fragment_limit_exceeded : ℕ → ℕ → Error
  policy_violation : List String → Error

pub record Stored : Type 0 where
  pub id : String
  pub ttl_tier : String
  pub scope : String
  pub conflicts : List String
  pub warnings : List String
  pub low_importance : Bool

-- The results: a fragment of the session, the one an idempotency key found, the plan of a dry run
-- with its warnings, or a fragment that was stored.
pub data Answer : Type 0 where
  in_session existing : String → Answer
  simulated : List String → Answer
  stored : Stored → Answer

pub record Run (A : Type 0) : Type 0 where
  pub effects : List Effect
  pub outcome : Outcome Error A

-- One call after another.
abbrev pub after : {A : Type 0} → List Effect → Run A → Run A
after es r = record { effects = es ++ r.effects; outcome = r.outcome }

abbrev pub throw : {A : Type 0} → List Effect → Error → Run A
throw es e = record { effects = es; outcome = err e }

abbrev pub return : {A : Type 0} → A → Run A
return a = record { effects = []; outcome = ok a }

-- A call that leaves no effect but its answer.
abbrev pub ask : {A B : Type 0} → Outcome String A → (A → Run B) → Run B
ask (err message) next = throw [] (thrown message)
ask (ok a) next = next a
