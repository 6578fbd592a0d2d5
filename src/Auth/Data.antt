-- ===== src/Auth/Data.antt =====
-- The data of lib/auth.js and of the key checks of lib/admin/ApiKeyStore.js.
use memento_mcp.Base.{ℕ, String, Option, List, Bool, Outcome}

-- A row of api_keys with the calls of the day.
pub record KeyRow : Type 0 where
  pub id : String
  pub status : String
  pub permissions : Option (List String)
  pub daily_limit : ℕ
  pub usage_today : ℕ
  pub default_workspace : Option String
  pub default_mode : Option String

pub record KeyInfo : Type 0 where
  pub key_id : String
  pub group_key_ids : List String
  pub permissions : Option (List String)
  pub default_workspace : Option String
  pub default_mode : Option String

pub data Refusal : Type 0 where
  inactive limit_exceeded : Refusal

-- `{ valid: false, reason? }` or `{ valid: true, keyId, ... }`.
pub data KeyCheck : Type 0 where
  key_invalid : Option Refusal → KeyCheck
  key_valid : KeyInfo → KeyCheck

pub data AuthError : Type 0 where
  nonapikey_oauth_denied invalid_key : AuthError

-- The master, an OAuth client without a key, or an API key, by OAuth or by itself.
pub data AuthResult : Type 0 where
  master : AuthResult
  oauth_client : Option String → AuthResult
  keyed : Bool → KeyInfo → AuthResult
  denied : AuthError → AuthResult

-- The settings, the SHA-256 digest of a text, and what the queries answer or throw.
pub record World : Type 0 where
  pub access_key : String
  pub auth_disabled : Bool
  pub reject_nonapikey_oauth : Bool
  pub digest : String → String
  pub row_by_hash : String → Outcome String (Option KeyRow)
  pub row_by_id : String → Outcome String (Option KeyRow)
  pub group_members : String → Outcome String (List String)

-- The header memento-access-key, the token of the Authorization header, and `params.accessKey` of
-- an `initialize` message.
pub record AuthRequest : Type 0 where
  pub legacy_key : Option String
  pub bearer : Option String
  pub init_access_key : Option String
