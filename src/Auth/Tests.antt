-- ===== src/Auth/Tests.antt =====
-- Requests with a key of the database, with the access key, and with nothing.
use memento_mcp.Base.{
  ◌≡◌, refl, String, none, some, [], ◌∷◌, true, false, str_eq, if◌then◌else◌, ok, err,
}
use memento_mcp.OAuth.{Store}
use memento_mcp.Auth.{
  World, KeyRow, AuthRequest, master, validate_authentication, safe_compare, is_access_key,
  bearer_result,
}
use memento_mcp.Auth.Decision.{Decision, validate_authentication-Decision}

-- The texts are their own digests, and one key may call twice a day.
abbrev row : KeyRow
row = record {
  id = "1";
  status = "active";
  permissions = some ("read" ∷ []);
  daily_limit = 2;
  usage_today = 1;
  default_workspace = none;
  default_mode = none;
}

abbrev world : World
world = record {
  access_key = "secret";
  auth_disabled = false;
  reject_nonapikey_oauth = true;
  digest = λ t. t;
  row_by_hash = λ h. ok (if str_eq h "k1" then some row else none);
  row_by_id = λ id. err "down";
  group_members = λ id. ok [];
}

abbrev bearing : String → AuthRequest
bearing token = record { legacy_key = none; bearer = some token; init_access_key = none }

abbrev no_tokens : Store
no_tokens = record { auth_codes = []; access_tokens = [] }

is_master : (validate_authentication world (bearing "secret") 0 no_tokens).1 ≡ master
unfolding validate_authentication is_access_key bearer_result safe_compare
is_master = refl

validate_authentication-Decision_example :
    Decision world
      (bearing "k1")
      0
      no_tokens
      (validate_authentication world (bearing "k1") 0 no_tokens).1
validate_authentication-Decision_example =
    validate_authentication-Decision world (bearing "k1") 0 no_tokens (λ a b e. e)
