-- ===== src/OAuth/Authorize.antt =====
-- `handleAuthorize` of lib/oauth.js: who asks for a code, where it may be sent, and the code that is kept.
use memento_mcp.Base.{
  ok, err, ◌>>=◌, ◌>>◌, unless_error, ℕ, ◌+◌, String, Option, none, some, Bool, true, false,
  or_else, if◌then◌else◌, truthy, includes, is_text, str_eq, ◌||◌,
}
use memento_mcp.Base.Maps
use memento_mcp.OAuth.{
  CodeData, Store, found, missing, broken, Env, Result, require, AuthorizeParams, code_ttl_ms,
  unsupported_response_type, redirect_uri_required, code_challenge_required,
  unsupported_challenge_method, invalid_client, redirect_uri_not_registered,
  redirect_uri_not_allowed, client_store_failed, invalid_url,
}

-- `isAllowedRedirectUri`: a text that is no URL is refused before the list is read.
unfoldable pub is_allowed_redirect_uri : Env → String → Bool
is_allowed_redirect_uri env uri = elim (env.parse_url uri) [
  | none ↦ false
  | some (host, origin) ↦
      str_eq host "localhost"
      || str_eq host "127.0.0.1"
      || includes env.trusted_origins origin
      || includes env.allowed_uris uri
]

-- Who asks for a code: the registered client, if there is one, and the API key behind it.
pub record Caller (env : Env) : Type 0 where
  pub oauth_client : Option env.Client
  pub is_api_key : Bool
  pub bound_key_id : Option String

-- A client named `apikey:<uuid>` is bound to that key, if the key is valid.
unfoldable pub named_caller : (env : Env) → env.Client → Option String → Caller env
named_caller env c none = record { oauth_client = some c; is_api_key = false; bound_key_id = none }
named_caller env c (some id) = elim (env.key_by_id id) [
  | found k ↦ record { oauth_client = some c; is_api_key = true; bound_key_id = some id }
  | missing ↦ record { oauth_client = some c; is_api_key = false; bound_key_id = none }
  | broken ↦ record { oauth_client = some c; is_api_key = false; bound_key_id = none }
]

-- Without a registration only a trusted address is served.
unfoldable pub registered_caller : (env : Env) → Option String → String → Result (Caller env)
unfolding named_caller is_allowed_redirect_uri
registered_caller env client_id uri = elim (env.client_of client_id) [
  | err message ↦ err client_store_failed
  | ok (some c) ↦ ok (named_caller env c (env.named_key c))
  | ok none ↦
      if is_allowed_redirect_uri env uri
      then ok (record { oauth_client = none; is_api_key = false; bound_key_id = none })
      else err invalid_client
]

unfoldable pub resolve_caller : (env : Env) → Option String → String → Result (Caller env)
unfolding registered_caller
resolve_caller env client_id uri =
    if env.is_access_key client_id
    then ok (record { oauth_client = none; is_api_key = false; bound_key_id = none })
    else elim (env.api_key_of client_id) [
      | found k ↦ ok (record { oauth_client = none; is_api_key = true; bound_key_id = none })
      | missing ↦ registered_caller env client_id uri
      | broken ↦ registered_caller env client_id uri
    ]

unfoldable pub check_redirect_uri : (env : Env) → Caller env → String → Result (Unit {0})
unfolding is_allowed_redirect_uri
check_redirect_uri env caller uri = elim caller.oauth_client [
  | some c ↦ unless_error (env.registered_uri c uri) redirect_uri_not_registered
  | none ↦ unless_error (is_allowed_redirect_uri env uri) redirect_uri_not_allowed
]

-- The data of a new code, or the first check that fails.
unfoldable pub authorize_checks : Env → AuthorizeParams → ℕ → Result CodeData
unfolding resolve_caller check_redirect_uri
authorize_checks env p now = do
  unless_error (is_text "code" p.response_type) unsupported_response_type
  uri ← require p.redirect_uri redirect_uri_required
  challenge ← require p.code_challenge code_challenge_required
  unless_error (is_text "S256" p.code_challenge_method) unsupported_challenge_method
  caller ← resolve_caller env p.client_id uri
  check_redirect_uri env caller uri
  ok (record {
    client_id = p.client_id;
    redirect_uri = uri;
    code_challenge = challenge;
    scope = or_else (truthy p.scope) "mcp";
    state = p.state;
    is_api_key = caller.is_api_key;
    bound_key_id = truthy caller.bound_key_id;
    resource = truthy p.resource;
    created_at = now;
    expires_at = now + code_ttl_ms;
  })

-- `handleAuthorize`: `code` is the random string drawn. The answer is the code and the address; the
-- URL that joins them is left out, but the parse of the address, which throws when it is no URL, is
-- not: the code is kept by then.
unfoldable pub handle_authorize :
    Env → Store → AuthorizeParams → String → ℕ → Store × Result (String × String)
unfolding authorize_checks
handle_authorize env s p code now = elim (authorize_checks env p now) [
  | ok d ↦ (
    record s { auth_codes = Maps.put code d s.auth_codes },
    elim (env.parse_url d.redirect_uri) [
      | none ↦ err invalid_url
      | some parts ↦ ok (code, d.redirect_uri)
    ],
  )
  | err e ↦ (s, err e)
]
