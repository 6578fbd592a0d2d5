-- ===== src/Sessions/Spec/Handler.antt =====
-- POST /session/rotate, from the request to the sessions.
use memento_mcp.Base.{ℕ, ◌≡◌, String, Option, some, List, Bool, true, false, ltb, Dict, truthy}
use memento_mcp.Limits.Rotate.{Entry, check_rotate_rate_limit}
use memento_mcp.Sessions.{Session, Config, Redis, Store, Rotated}
use memento_mcp.Sessions.RotateHandler.{
  RotateRequest, RotateResponse, rotated, is_rotate_origin_allowed,
}
use memento_mcp.Sessions.Spec.{RedisLaws, spec_put, spec_remove, view}
use memento_mcp.Sessions.Spec.Rotation.{Finds, carried}

abbrev old_of : String → RotateResponse → String
old_of d (rotated r reason) = r.old_session_id
old_of d other = d

module _ {S : Type 0} (redis : Redis S) (cfg : Config) (laws : RedisLaws redis) where
  -- A session was found that had not expired, and it was replaced.
  pub record IsReplaced (now : ℕ) (header : Option String) (new_id : String) (r : Rotated)
      (st st' : Store S) : Type 0 where
    pub named : header ≡ some r.old_session_id
    pub session : Session
    pub found : Finds redis cfg now r.old_session_id st session
    pub live : ltb session.expires_at now ≡ false
    pub replaced :
        (t : ℕ) (j : String)
        → view redis cfg st' t j
          ≡ spec_remove cfg r.old_session_id
              (spec_put cfg new_id (carried cfg now new_id session) (view redis cfg st))
              t
              j

  -- A request that may rotate: its Origin is allowed, its address within the limit, its credentials
  -- are valid, and its header names a session in memory or in Redis that has not expired.
  pub record Accepted (is_local : String → Bool) (origins : List String) (limit now : ℕ)
      (q : RotateRequest) (limits : Dict Entry) (st : Store S) : Type 0 where
    pub allowed :
        is_rotate_origin_allowed is_local origins (truthy q.origin) q.remote_address ≡ true
    pub within : (check_rotate_rate_limit limits q.ip limit now).1.allowed ≡ true
    pub authorized : q.authorized ≡ true
    pub id : String
    pub header : truthy q.session_header ≡ some id
    pub session : Session
    pub found : Finds redis cfg now id st session
    pub live : ltb session.expires_at now ≡ false

  -- The answer to a request: a new session where it may rotate, and then the old one is replaced;
  -- any other where it may not.
  abbrev pub Answers :
      Type 0 → ℕ → Option String → String → RotateResponse → Store S → Store S → Type 0
  Answers Accepts now header new_id (rotated r reason) st st' =
      Accepts × IsReplaced now header new_id r st st'
  Answers Accepts now header new_id _ st st' = Accepts → ⊥
