-- ===== src/OAuth.antt =====
-- lib/oauth.js with the stores in memory (REDIS_ENABLED is false): authorization codes, access and
-- refresh tokens. A call of `Date.now()` within one request is the argument `now`, and the random
-- strings that a request draws are arguments. What the module calls outside is the record `Env`.
pub mod Authorize
pub mod Handlers
use memento_mcp.Base.{
  Outcome, ok, err, ◌>>=◌, ◌>>◌, ◌≡◌, refl, ◌⊎◌, inl, inr, ℕ, ◌+◌, ◌*◌, String, Option, none, some,
  Bool, true, false, List, ltb, is_some, first_some, or_else, if◌then◌else◌, Dict, truthy, includes,
  str_eq, not, ◌||◌,
}
use memento_mcp.Base.Maps

-- `CODE_TTL_MS`.
abbrev pub code_ttl_ms : ℕ
code_ttl_ms = 600000

pub record CodeData : Type 0 where
  pub client_id : Option String
  pub redirect_uri : String
  pub code_challenge : String
  pub scope : String
  pub state : Option String
  pub is_api_key : Bool
  pub bound_key_id : Option String
  pub resource : Option String
  pub created_at : ℕ
  pub expires_at : ℕ

pub data TokenType : Type 0 where
  access refresh : TokenType

pub record TokenData : Type 0 where
  pub type : TokenType
  pub client_id : Option String
  pub scope : String
  pub is_api_key : Bool
  pub bound_key_id : Option String
  pub resource : Option String
  pub created_at : ℕ
  pub expires_at : ℕ

pub record Store : Type 0 where
  pub auth_codes : Dict CodeData
  pub access_tokens : Dict TokenData

-- A lookup that may find nothing or throw.
pub data Lookup : Type 0 where
  found : String → Lookup
  missing : Lookup
  broken : Lookup

-- `Client` is a registered client (lib/admin/OAuthClientStore.js), and the API keys are those of
-- lib/admin/ApiKeyStore.js: both live in the database. `parse_url` is `new URL`, with the host name
-- and the origin; `challenge_of` is the base64url text of the SHA-256 digest.
pub record Env : Type 1 where
  pub Client : Type 0
  pub is_access_key : Option String → Bool
  pub api_key_of : Option String → Lookup
  pub client_of : Option String → Outcome String (Option Client)
  pub named_key : Client → Option String
  pub key_by_id : String → Lookup
  pub registered_uri : Client → String → Bool
  pub parse_url : String → Option (String × String)
  pub trusted_origins : List String
  pub allowed_uris : List String
  pub challenge_of : String → String
  pub token_ttl_ms : ℕ
  pub refresh_ttl_seconds : ℕ

pub data Error : Type 0 where
  unsupported_response_type redirect_uri_required code_challenge_required : Error
  unsupported_challenge_method invalid_client redirect_uri_not_registered : Error
  redirect_uri_not_allowed refresh_token_required invalid_refresh_token : Error
  refresh_token_expired unsupported_grant_type code_required code_verifier_required : Error
  invalid_code code_expired redirect_uri_mismatch code_verifier_failed : Error
  no_token invalid_token token_expired : Error
  -- Thrown: the client store, and `new URL`.
  client_store_failed invalid_url : Error

abbrev pub Result {ℓ} : Type ℓ → Type ℓ
Result A = Outcome Error A

abbrev pub require : Option String → Error → Result String
require o e = elim (truthy o) [ none ↦ err e | some t ↦ ok t ]

pub record AuthorizeParams : Type 0 where
  pub response_type : Option String
  pub client_id : Option String
  pub redirect_uri : Option String
  pub code_challenge : Option String
  pub code_challenge_method : Option String
  pub state : Option String
  pub scope : Option String
  pub resource : Option String

pub record TokenParams : Type 0 where
  pub grant_type : Option String
  pub code : Option String
  pub redirect_uri : Option String
  pub code_verifier : Option String
  pub refresh_token : Option String
  pub client_secret : Option String
  pub resource : Option String

-- The answer of `/token`.
pub record Grant : Type 0 where
  pub access_token : String
  pub refresh_token : String
  pub expires_in : ℕ
  pub scope : String

-- What `validateAccessToken` says of a valid token.
pub record TokenInfo : Type 0 where
  pub client_id : Option String
  pub scope : String
  pub is_api_key : Bool
  pub bound_key_id : Option String
