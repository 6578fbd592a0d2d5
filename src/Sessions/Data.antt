-- ===== src/Sessions/Data.antt =====
-- The data of lib/sessions.js: a session as it is kept in memory and in Redis, the settings, the
-- calls of the Redis client, and the two maps of sessions.
use memento_mcp.Base.{ℕ, String, Option, List, Bool, Dict}

-- The fields of a Streamable HTTP session without its sockets and timers.
pub record Session : Type 0 where
  pub session_id : String
  pub authenticated : Bool
  pub key_id : Option String
  pub group_key_ids : Option (List String)
  pub permissions : Option (List String)
  pub default_workspace : Option String
  pub mode : Option String
  pub created_at : ℕ
  pub expires_at : ℕ
  pub last_accessed_at : ℕ
  pub last_reflected_at : Option ℕ
  pub negotiated_version : Option String

pub record LegacySession : Type 0 where
  pub legacy_authenticated : Bool
  pub legacy_created_at : ℕ
  pub legacy_expires_at : ℕ
  pub legacy_last_accessed_at : ℕ

-- What a session is created for.
pub record Context : Type 0 where
  pub ctx_authenticated : Bool
  pub ctx_key_id : Option String
  pub ctx_group_key_ids : Option (List String)
  pub ctx_permissions : Option (List String)
  pub ctx_default_workspace : Option String
  pub ctx_mode : Option String

-- `SESSION_TTL_MS`, `CACHE_SESSION_TTL` (in seconds), `REDIS_ENABLED` and `IDLE_REFLECT_HOURS`.
pub record Config : Type 0 where
  pub session_ttl_ms : ℕ
  pub cache_session_ttl : ℕ
  pub redis_enabled : Bool
  pub idle_reflect_hours : ℕ

-- The calls of the Redis client, at a time and on the server's state; `none` when a call throws.
pub record Redis (S : Type 0) : Type 0 where
  pub setex : ℕ → String → ℕ → Session → S → Option S
  pub lookup : ℕ → String → S → Option (Option Session)
  pub del : ℕ → String → S → Option S

pub record Store (S : Type 0) : Type 0 where
  pub streamable : Dict Session
  pub legacy : Dict LegacySession
  pub redis_state : S

pub data Reason : Type 0 where
  session_not_found session_expired : Reason

-- `{ valid: false, reason }` or `{ valid: true, session }`.
pub data Validation (A : Type 0) : Type 0 where
  invalid : Reason → Validation A
  valid : A → Validation A

-- What `rotateSession` returns.
pub record Rotated : Type 0 where
  pub old_session_id : String
  pub new_session_id : String
  pub rotated_expires_at : ℕ
  pub rotated_key_id : Option String
  pub rotated_workspace : Option String
