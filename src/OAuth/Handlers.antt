-- ===== src/OAuth/Handlers.antt =====
-- The handlers of lib/oauth.js over the stores in memory.
pub mod Codes
pub mod Tokens
mod Tests
use memento_mcp.Base.{
  ok, err, ◌>>=◌, ◌>>◌, unless_error, ℕ, ◌+◌, ◌*◌, ◌/◌, String, Option, none, some, Bool, true,
  false, List, ltb, is_some, first_some, or_else, if◌then◌else◌, Dict, truthy, includes, is_text,
  same_text, str_eq, not, ◌||◌,
}
use memento_mcp.Base.Maps
use memento_mcp.OAuth.{
  CodeData, TokenData, TokenType, access, refresh, Store, Lookup, found, missing, broken, Env,
  Error, Result, require, AuthorizeParams, TokenParams, Grant, TokenInfo, code_ttl_ms,
  unsupported_response_type, redirect_uri_required, code_challenge_required,
  unsupported_challenge_method, invalid_client, redirect_uri_not_registered,
  redirect_uri_not_allowed, refresh_token_required, invalid_refresh_token, refresh_token_expired,
  unsupported_grant_type, code_required, code_verifier_required, invalid_code, code_expired,
  redirect_uri_mismatch, code_verifier_failed, no_token, invalid_token, token_expired,
}

-- `verifyCodeChallenge`.
pub verify_code_challenge : Env → String → String → Bool
verify_code_challenge env verifier challenge = str_eq (env.challenge_of verifier) challenge

-- The API key that the client's secret names, if it does.
pub secret_key : Env → Option String → Option String
secret_key env secret = elim (truthy secret) [
  | none ↦ none
  | some t ↦ elim (env.api_key_of (some t)) [ found k ↦ some k | missing ↦ none | broken ↦ none ]
]

-- A token of either type from what a code or an older token carried.
pub token_data :
    TokenType → Option String → String → Bool → Option String → Option String → ℕ → ℕ → TokenData
token_data type client scope is_key bound resource now ttl = record {
  type = type;
  client_id = client;
  scope = scope;
  is_api_key = is_some bound || is_key;
  bound_key_id = bound;
  resource = resource;
  created_at = now;
  expires_at = now + ttl;
}

pub grant_of : Env → String → String → String → Grant
grant_of env a r scope = record {
  access_token = a;
  refresh_token = r;
  expires_in = env.token_ttl_ms / 1000;
  scope = scope;
}

-- The refresh branch of `handleToken`, the token found: it is replaced by the two new ones.
rotate : Env → Store → TokenParams → String → TokenData → String → String → ℕ → Store × Result Grant
unfolding token_data secret_key grant_of
rotate env s p old d a r now =
    let bound = first_some (truthy (secret_key env p.client_secret)) (truthy d.bound_key_id) in
    let resource = first_some (truthy p.resource) (truthy d.resource) in
    let new_access =
      token_data access d.client_id d.scope d.is_api_key bound resource now env.token_ttl_ms in
    let new_refresh =
      token_data refresh d.client_id d.scope d.is_api_key bound resource now
        (env.refresh_ttl_seconds * 1000) in
    (
      record s {
        access_tokens =
            Maps.delete old (Maps.put r new_refresh (Maps.put a new_access s.access_tokens));
      },
      ok (grant_of env a r d.scope),
    )

-- Only a refresh token that has not expired is rotated; an expired one is deleted.
refresh_found :
    Env
    → Store
    → TokenParams
    → String
    → TokenType
    → TokenData
    → String
    → String
    → ℕ
    → Store × Result Grant
unfolding rotate
refresh_found env s p old access d a r now = (s, err invalid_refresh_token)
refresh_found env s p old refresh d a r now =
    if ltb d.expires_at now
    then (record s { access_tokens = Maps.delete old s.access_tokens }, err refresh_token_expired)
    else rotate env s p old d a r now

pub refresh_grant : Env → Store → TokenParams → String → String → ℕ → Store × Result Grant
unfolding refresh_found
refresh_grant env s p a r now = elim (truthy p.refresh_token) [
  | none ↦ (s, err refresh_token_required)
  | some old ↦ elim (Maps.get old s.access_tokens) [
    | none ↦ (s, err invalid_refresh_token)
    | some d ↦ refresh_found env s p old d.type d a r now
  ]
]

-- The checks of a code's data.
pub code_checks : Env → TokenParams → String → CodeData → ℕ → Result (Unit {0})
unfolding verify_code_challenge
code_checks env p verifier d now = do
  unless_error (not (ltb d.expires_at now)) code_expired
  unless_error (same_text (some d.redirect_uri) p.redirect_uri) redirect_uri_mismatch
  unless_error (verify_code_challenge env verifier d.code_challenge) code_verifier_failed

-- The two tokens that a code buys: the refresh token lives 24 times as long.
issue : Env → Store → TokenParams → CodeData → String → String → ℕ → Store × Result Grant
unfolding token_data secret_key grant_of
issue env s p d a r now =
    let bound = first_some (truthy (secret_key env p.client_secret)) (truthy d.bound_key_id) in
    let resource = first_some (truthy p.resource) (truthy d.resource) in
    let new_access =
      token_data access d.client_id d.scope d.is_api_key bound resource now env.token_ttl_ms in
    let new_refresh =
      token_data refresh d.client_id d.scope d.is_api_key bound resource now
        (env.token_ttl_ms * 24) in
    (
      record s { access_tokens = Maps.put r new_refresh (Maps.put a new_access s.access_tokens) },
      ok (grant_of env a r d.scope),
    )

-- A code is deleted as soon as it is read, whatever the checks say.
pub redeem :
    Env
    → Store
    → TokenParams
    → String
    → String
    → Option CodeData
    → String
    → String
    → ℕ
    → Store × Result Grant
unfolding code_checks issue
redeem env s p code verifier none a r now = (s, err invalid_code)
redeem env s p code verifier (some d) a r now =
    let s' = record s { auth_codes = Maps.delete code s.auth_codes } in
    elim (code_checks env p verifier d now) [
      | ok _ ↦ issue env s' p d a r now
      | err e ↦ (s', err e)
    ]

pub code_grant : Env → Store → TokenParams → String → String → ℕ → Store × Result Grant
unfolding redeem
code_grant env s p a r now = elim (truthy p.code) [
  | none ↦ (s, err code_required)
  | some code ↦ elim (truthy p.code_verifier) [
    | none ↦ (s, err code_verifier_required)
    | some verifier ↦ redeem env s p code verifier (Maps.get code s.auth_codes) a r now
  ]
]

-- `handleToken`: `a` and `r` are the random strings drawn for the access and the refresh token.
pub handle_token : Env → Store → TokenParams → String → String → ℕ → Store × Result Grant
unfolding refresh_grant code_grant
handle_token env s p a r now =
    if is_text "refresh_token" p.grant_type
    then refresh_grant env s p a r now
    else if is_text "authorization_code" p.grant_type
    then code_grant env s p a r now
    else (s, err unsupported_grant_type)

token_found : Store → String → TokenType → TokenData → ℕ → Store × Result TokenInfo
token_found s token refresh d now = (s, err invalid_token)
token_found s token access d now =
    if ltb d.expires_at now
    then (record s { access_tokens = Maps.delete token s.access_tokens }, err token_expired)
    else (
      s,
      ok (record {
        client_id = d.client_id;
        scope = d.scope;
        is_api_key = d.is_api_key;
        bound_key_id = truthy d.bound_key_id;
      }),
    )

-- `validateAccessToken`.
pub validate_access_token : Store → Option String → ℕ → Store × Result TokenInfo
unfolding token_found
validate_access_token s token now = elim (truthy token) [
  | none ↦ (s, err no_token)
  | some t ↦ elim (Maps.get t s.access_tokens) [
    | none ↦ (s, err invalid_token)
    | some d ↦ token_found s t d.type d now
  ]
]

-- `cleanupExpiredOAuthData`.
pub cleanup_expired_oauth_data : Store → ℕ → Store
cleanup_expired_oauth_data s now = record {
  auth_codes = Maps.retain (λ d. not (ltb d.expires_at now)) s.auth_codes;
  access_tokens = Maps.retain (λ d. not (ltb d.expires_at now)) s.access_tokens;
}
