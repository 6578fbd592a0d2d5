-- ===== src/Sessions/RotateHandler.antt =====
-- lib/handlers/session-handler.js: POST /session/rotate, which asks for the Origin, the rotation
-- limit of the address, the credentials and the session header before it rotates. The two patterns of
-- a local Origin are a parameter; what `validateAuthentication` decides, the address that `extractIp`
-- finds, the limit, and the trimmed reason of the body are fields of the request. The answer 500
-- stands for an exception that `rotateSession` has no other way to throw, and is left out.
use memento_mcp.Base.{
  ℕ, String, Option, none, some, List, [], ◌∷◌, Bool, true, str_eq, includes, if◌then◌else◌, ◌||◌,
  Dict, Outcome, ok, err, truthy, or_else,
}
use memento_mcp.Limits.Rotate.{Entry, Verdict, check_rotate_rate_limit}
use memento_mcp.Sessions.{
  Config, Redis, Store, Rotated, Reason, session_not_found, session_expired, rotate_session,
}

pub record RotateRequest : Type 0 where
  pub origin : Option String
  pub remote_address : String
  pub ip : String
  pub authorized : Bool
  pub session_header : Option String
  pub body_reason : Option String

pub data RotateResponse : Type 0 where
  origin_forbidden unauthorized bad_request not_found expired : RotateResponse
  too_many_requests : ℕ → RotateResponse
  rotated : Rotated → String → RotateResponse

-- `origins`: the entries of ALLOWED_ORIGINS and of ADMIN_ALLOWED_ORIGINS.
unfoldable pub is_listed : List String → String → Bool
is_listed [] origin = true
is_listed (o ∷ origins) origin = includes (o ∷ origins) origin

unfoldable pub is_rotate_origin_allowed :
    (String → Bool) → List String → Option String → String → Bool
is_rotate_origin_allowed is_local origins none address =
    str_eq address "127.0.0.1" || str_eq address "::1" || str_eq address "::ffff:127.0.0.1"
is_rotate_origin_allowed is_local origins (some origin) address =
    str_eq origin "http://localhost"
    || str_eq origin "https://localhost"
    || is_local origin
    || is_listed origins origin

unfoldable pub reply : String → Outcome Reason Rotated → RotateResponse
reply reason (err session_not_found) = not_found
reply reason (err session_expired) = expired
reply reason (ok r) = rotated r reason

module _ {S : Type 0} (redis : Redis S) (cfg : Config) where
  unfoldable pub rotate_named :
      ℕ → Option String → String → String → Store S → Store S × RotateResponse
  rotate_named now none new_id reason st = (st, bad_request)
  rotate_named now (some id) new_id reason st =
      let (st', outcome) = rotate_session redis cfg now id new_id st in (st', reply reason outcome)

  unfoldable pub rotate_limited :
      ℕ
      → RotateRequest
      → String
      → Dict Entry × Verdict
      → Store S
      → (Dict Entry × Store S) × RotateResponse
  rotate_limited now q new_id (limits, verdict) st =
      if verdict.allowed
      then (if q.authorized
          then (let (st', response) =
                rotate_named now (truthy q.session_header) new_id
                  (or_else (truthy q.body_reason) "explicit_rotate") st in
              ((limits, st'), response))
          else ((limits, st), unauthorized))
      else ((limits, st), too_many_requests verdict.retry_after)

  unfoldable pub handle_session_rotate :
      (String → Bool)
      → List String
      → ℕ
      → ℕ
      → RotateRequest
      → String
      → Dict Entry × Store S
      → (Dict Entry × Store S) × RotateResponse
  handle_session_rotate is_local origins limit now q new_id (limits, st) =
      if is_rotate_origin_allowed is_local origins (truthy q.origin) q.remote_address
      then rotate_limited now q new_id (check_rotate_rate_limit limits q.ip limit now) st
      else ((limits, st), origin_forbidden)
