-- ===== src/Auth.antt =====
-- lib/auth.js: what `validateAuthentication` makes of the keys and tokens of a request, with the
-- checks of API keys of lib/admin/ApiKeyStore.js under it. The digest of a key, the rows of the queries
-- and the token that the pattern finds in the Authorization header are given. Extending a token's
-- life in Redis, counting the day's calls and the metrics are left out.
pub mod Data
mod Justified
mod Decision
mod Tests
pub use Data.*
use memento_mcp.Base.{
  ℕ, String, Option, none, some, List, [], ◌∷◌, Bool, true, false, not, ◌&&◌, str_eq, leb,
  if◌then◌else◌, Outcome, ok, err, truthy, is_some,
}
use memento_mcp.OAuth.{Store, TokenInfo, Result}
use memento_mcp.OAuth.Handlers.{validate_access_token}

module _ (w : World) where
  pub safe_compare : String → String → Bool
  safe_compare a b = str_eq (w.digest a) (w.digest b)

  -- `key && safeCompare(key, ACCESS_KEY)`.
  pub is_access_key : Option String → Bool
  is_access_key none = false
  is_access_key (some k) = safe_compare k w.access_key

  -- `getGroupKeyIds`: a key without a group is its own.
  pub group_of : String → List String → List String
  group_of id [] = id ∷ []
  group_of id (g ∷ gs) = g ∷ gs

  pub key_info : KeyRow → Outcome String (List String) → Outcome String KeyCheck
  key_info row (err message) = err message
  key_info row (ok members) = ok (
      key_valid (record {
        key_id = row.id;
        group_key_ids = group_of row.id members;
        permissions = row.permissions;
        default_workspace = row.default_workspace;
        default_mode = row.default_mode;
      }))

  pub check_row : Option KeyRow → Outcome String KeyCheck
  check_row none = ok (key_invalid none)
  check_row (some row) =
      if not (str_eq row.status "active")
      then ok (key_invalid (some inactive))
      else if leb row.daily_limit row.usage_today
      then ok (key_invalid (some limit_exceeded))
      else key_info row (w.group_members row.id)

  pub check_queried : Outcome String (Option KeyRow) → Outcome String KeyCheck
  check_queried (err message) = err message
  check_queried (ok row) = check_row row

  pub validate_api_key_from_db : String → Outcome String KeyCheck
  validate_api_key_from_db raw = check_queried (w.row_by_hash (w.digest raw))

  -- By identifier the daily limit is not asked for, and an exception makes the key invalid.
  pub or_invalid : Outcome String KeyCheck → KeyCheck
  or_invalid (err message) = key_invalid none
  or_invalid (ok c) = c

  pub check_row_by_id : Option KeyRow → KeyCheck
  check_row_by_id none = key_invalid none
  check_row_by_id (some row) =
      if not (str_eq row.status "active")
      then key_invalid (some inactive)
      else or_invalid (key_info row (w.group_members row.id))

  pub found_by_id : Outcome String (Option KeyRow) → KeyCheck
  found_by_id (err message) = key_invalid none
  found_by_id (ok row) = check_row_by_id row

  pub validate_api_key_by_id : Option String → KeyCheck
  validate_api_key_by_id none = key_invalid none
  validate_api_key_by_id (some id) = found_by_id (w.row_by_id id)

  -- The last way for an OAuth token: without an API key.
  pub plain_oauth : TokenInfo → AuthResult
  plain_oauth info =
      if w.reject_nonapikey_oauth && is_some (truthy (some w.access_key)) && not w.auth_disabled
      then denied nonapikey_oauth_denied
      else oauth_client info.client_id

  pub client_key : TokenInfo → Outcome String KeyCheck → AuthResult
  client_key info (ok (key_valid k)) = keyed true k
  client_key info (ok (key_invalid r)) = plain_oauth info
  client_key info (err message) = plain_oauth info

  -- `client_id` is the text of the key then.
  pub by_client_id : TokenInfo → Option String → AuthResult
  by_client_id info none = plain_oauth info
  by_client_id info (some id) =
      if info.is_api_key then client_key info (validate_api_key_from_db id) else plain_oauth info

  -- The answer for a bound key leaves its default mode out.
  pub bound_key : TokenInfo → KeyCheck → AuthResult
  bound_key info (key_valid k) = keyed true (record k { default_mode = none })
  bound_key info (key_invalid r) = by_client_id info info.client_id

  pub oauth_result : TokenInfo → AuthResult
  oauth_result info = bound_key info (validate_api_key_by_id (truthy info.bound_key_id))

  -- After the header: the key in the parameters of `initialize`.
  pub init_result : AuthRequest → AuthResult
  init_result q = if is_access_key (truthy q.init_access_key) then master else denied invalid_key

  pub db_result : AuthRequest → Outcome String KeyCheck → AuthResult
  db_result q (ok (key_valid k)) = keyed false k
  db_result q (ok (key_invalid r)) = init_result q
  db_result q (err message) = init_result q

  pub token_result : AuthRequest → String → Store × Result TokenInfo → Store × AuthResult
  token_result q token (s, ok info) = (s, oauth_result info)
  token_result q token (s, err e) = (s, db_result q (validate_api_key_from_db token))

  pub bearer_result : AuthRequest → Option String → ℕ → Store → Store × AuthResult
  bearer_result q none now s = (s, init_result q)
  bearer_result q (some token) now s =
      if safe_compare token w.access_key
      then (s, master)
      else token_result q token (validate_access_token s (some token) now)

  pub validate_authentication : AuthRequest → ℕ → Store → Store × AuthResult
  validate_authentication q now s =
      if str_eq w.access_key ""
      then (s, master)
      else if is_access_key (truthy q.legacy_key)
      then (s, master)
      else bearer_result q q.bearer now s

  -- For the routes of the administration: the access key alone.
  pub validate_master_key : Option String → Bool
  validate_master_key bearer =
      if str_eq w.access_key "" then w.auth_disabled else is_access_key bearer
