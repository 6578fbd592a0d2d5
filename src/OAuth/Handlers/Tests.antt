-- ===== src/OAuth/Handlers/Tests.antt =====
-- One authorization from the code to the refresh, at concrete requests.
use memento_mcp.Base.{
  ok, err, String, ap, eq_iff, or_else, ℕ, ◌+◌, ◌≤◌, ◌≡◌, refl, ◌↔◌, none, some, [], false,
  if◌then◌else◌, leb, truthy, first_some, arith,
}
use memento_mcp.Base.Maps
use memento_mcp.OAuth.{
  Env, Store, CodeData, TokenData, access, refresh, AuthorizeParams, TokenParams, Grant, TokenInfo,
  missing, invalid_code, invalid_refresh_token, token_expired,
}
use memento_mcp.OAuth.Handlers.{
  handle_token, secret_key, validate_access_token, cleanup_expired_oauth_data,
}
use memento_mcp.OAuth.Authorize.{handle_authorize}
use memento_mcp.OAuth.Handlers.Codes.{Redeems, redeem_twice, redeem_sound, authorize_redeem}
use memento_mcp.OAuth.Handlers.Tokens.{
  redeem_validate, Refreshes, refresh_twice, refresh_sound, validate-cleanup,
}

-- No registered clients and no API keys; the challenge of a verifier is the verifier.
abbrev env : Env
env = record {
  Client = ℕ;
  is_access_key = λ c. false;
  api_key_of = λ c. missing;
  client_of = λ c. ok none;
  named_key = λ c. none;
  key_by_id = λ k. missing;
  registered_uri = λ c u. false;
  parse_url = λ u. some ("localhost", u);
  trusted_origins = [];
  allowed_uris = [];
  challenge_of = λ v. v;
  token_ttl_ms = 3600000;
  refresh_ttl_seconds = 604800;
}

abbrev empty : Store
empty = record { auth_codes = []; access_tokens = [] }

abbrev asks : AuthorizeParams
asks = record {
  response_type = some "code";
  client_id = some "client";
  redirect_uri = some "http://localhost/cb";
  code_challenge = some "v";
  code_challenge_method = some "S256";
  state = none;
  scope = none;
  resource = none;
}

abbrev redeems : TokenParams
redeems = record {
  grant_type = some "authorization_code";
  code = some "c";
  redirect_uri = some "http://localhost/cb";
  code_verifier = some "v";
  refresh_token = none;
  client_secret = none;
  resource = none;
}

abbrev refreshes : TokenParams
refreshes = record {
  grant_type = some "refresh_token";
  code = none;
  redirect_uri = none;
  code_verifier = none;
  refresh_token = some "r";
  client_secret = none;
  resource = none;
}

redeems-Redeems : Redeems redeems "c" "v"
redeems-Redeems = record { grant_type = refl; the_code = refl; the_verifier = refl }

refreshes-Refreshes : Refreshes refreshes "r"
refreshes-Refreshes = record { grant_type = refl; the_token = refl }

authorized : Store
authorized = (handle_authorize env empty asks "c" 0).0

granted : Store
granted = (handle_token env authorized redeems "a" "r" 1000).0

redeem_twice_example :
    (handle_token env (handle_token env authorized redeems "a" "r" 1000).0 redeems "b" "t" 2000).1
    ≡ err invalid_code
redeem_twice_example =
    redeem_twice env authorized redeems redeems "c" "v" "v" "a" "r" "b" "t" 1000 2000
      redeems-Redeems redeems-Redeems

abbrev first_grant : Grant
first_grant = record { access_token = "a"; refresh_token = "r"; expires_in = 3600; scope = "mcp" }

redeem_sound_example :
    (code : String) × (v : String) × Redeems redeems code v
    × ((d : CodeData) × (Maps.get code authorized.auth_codes ≡ some d)
        × (1000 ≤ d.expires_at)
        × (redeems.redirect_uri ≡ some d.redirect_uri)
        × (env.challenge_of v ≡ d.code_challenge))
unfolding authorized handle_authorize handle_token Maps.get Maps.put Maps.delete
redeem_sound_example =
    redeem_sound env authorized redeems "a" "r" 1000 first_grant
      (λ p.
        ground (arith, (eq_iff "authorization_code" "refresh_token").1 (ap (λ o. or_else o "") p)))
      refl

authorize_redeem_example :
    (handle_token env (handle_authorize env empty asks "c" 0).0 redeems "a" "r" 1000).1
    ≡ ok first_grant
unfolding handle_authorize
authorize_redeem_example =
    authorize_redeem env empty asks redeems "c" "http://localhost/cb" "v" "a" "r" 0 1000 refl
      redeems-Redeems refl refl (omega arith)

redeem_validate_example :
    (d : CodeData) × (info : TokenInfo) × (Maps.get "c" authorized.auth_codes ≡ some d)
    × (info.client_id ≡ d.client_id)
    × (info.scope ≡ d.scope)
    × ((validate_access_token
          (handle_token env authorized redeems "a" "r" 1000).0
          (some "a")
          5000).1
        ≡ (if leb 5000 (1000 + 3600000) then ok info else err token_expired))
unfolding authorized handle_authorize handle_token Maps.get Maps.put Maps.delete
redeem_validate_example =
    redeem_validate env authorized redeems "c" "v" "a" "r" 1000 5000 first_grant redeems-Redeems
      refl refl refl

abbrev second_grant : Grant
second_grant = record { access_token = "b"; refresh_token = "t"; expires_in = 3600; scope = "mcp" }

refresh_twice_example :
    (handle_token env (handle_token env granted refreshes "b" "t" 2000).0 refreshes "x" "y" 3000).1
    ≡ err invalid_refresh_token
unfolding granted authorized handle_authorize handle_token Maps.get Maps.put Maps.delete
refresh_twice_example =
    refresh_twice env granted refreshes refreshes "r" "b" "t" "x" "y" 2000 3000 second_grant
      refreshes-Refreshes refreshes-Refreshes refl

refresh_sound_example :
    (d t : TokenData) × (Maps.get "r" granted.access_tokens ≡ some d)
    × (d.type ≡ refresh)
    × (2000 ≤ d.expires_at)
    × (Maps.get "b" (handle_token env granted refreshes "b" "t" 2000).0.access_tokens ≡ some t)
    × (t.type ≡ access)
    × (t.client_id ≡ d.client_id)
    × (t.scope ≡ d.scope)
    × (t.bound_key_id ≡ first_some (truthy (secret_key env none)) (truthy d.bound_key_id))
unfolding granted authorized handle_authorize handle_token Maps.get Maps.put Maps.delete
refresh_sound_example =
    refresh_sound env granted refreshes "r" "b" "t" 2000 second_grant refreshes-Refreshes refl refl
      refl

abbrev held : TokenInfo
held = record { client_id = some "client"; scope = "mcp"; is_api_key = false; bound_key_id = none }

validate-cleanup_example :
    ((validate_access_token (cleanup_expired_oauth_data granted 2000) (some "a") 3000).1 ≡ ok held)
    ↔ ((validate_access_token granted (some "a") 3000).1 ≡ ok held)
unfolding granted authorized handle_authorize handle_token Maps.get Maps.put Maps.delete
validate-cleanup_example =
    validate-cleanup granted (some "a") 2000 3000 held (refl, (refl, tt)) (omega arith)
