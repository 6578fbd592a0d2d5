-- ===== src/Sessions/Spec.antt =====
-- The abstract view of the sessions: for every identifier and every later time, the session that a
-- request of that time would be served with, wherever it is kept. What a sweep notes in
-- `lastReflectedAt` is forgotten. The operations act on this view alone, and a run lists the answers
-- of a sequence of requests.
mod Steps
mod Validate
mod Sweep
mod Looks
pub mod Runs
pub mod Rotation
pub mod Restart
pub mod Handler
mod Tests
use memento_mcp.Base.{
  ℕ, ◌≤◌, ◌≡◌, ◌≢◌, String, Option, none, some, List, [], ◌∷◌, Bool, true, false, not, ltb,
  if◌then◌else◌, str_eq, is_some, ◌&&◌, same_text, truthy,
}
use memento_mcp.Base.Maps
use memento_mcp.Sessions.{
  Session, Config, Context, Redis, Store, Validation, valid, invalid, touch, session_of,
  get_session, delete_session, create_streamable_session_with_id, validate_streamable_session,
}
use memento_mcp.Sessions.Ends.{cleanup_expired_sessions, handle_mcp_delete}

-- What the code relies on of Redis: an operation on one key leaves the others, a delete succeeds,
-- and a key that is not there, or is deleted, does not come back by itself.
pub record RedisLaws {S : Type 0} (redis : Redis S) : Type 0 where
  pub setex_other :
      (now : ℕ) (id : String) (ttl : ℕ) (s : Session) (r r' : S) (t : ℕ) (j : String)
      → redis.setex now id ttl s r ≡ some r'
      → id ≢ j
      → get_session redis t j r' ≡ get_session redis t j r
  pub del_other :
      (now : ℕ) (id : String) (r r' : S) (t : ℕ) (j : String)
      → redis.del now id r ≡ some r'
      → id ≢ j
      → get_session redis t j r' ≡ get_session redis t j r
  pub del_same :
      (now : ℕ) (id : String) (r : S) (t : ℕ)
      → get_session redis t id (delete_session redis now id r).0 ≡ none
  pub stays_away :
      (now : ℕ) (id : String) (r : S) (t : ℕ)
      → now ≤ t
      → get_session redis now id r ≡ none
      → get_session redis t id r ≡ none

-- A session without the note of the last reflection.
pub forget : Session → Session
forget s = record s { last_reflected_at = none }

abbrev pub View : Type 0
View = ℕ → String → Option Session

-- A session in memory serves until it expires; one in Redis serves as long as Redis has it.
pub served : ℕ → Option Session → Option Session → Option Session
served t (some s) kept = if ltb s.expires_at t then none else some (forget s)
served t none none = none
served t none (some s) = some (forget s)

module _ (cfg : Config) where
  pub spec_put : String → Session → View → View
  spec_put id s v t j = if str_eq id j then served t (some s) none else v t j

  pub spec_remove : String → View → View
  spec_remove id v t j = if str_eq id j then none else v t j

  pub spec_found : ℕ → String → Option Session → View → View
  spec_found now id none v = spec_remove id v
  spec_found now id (some s) v = spec_put id (touch cfg now s) v

  pub spec_answer : ℕ → Option Session → Option Session
  spec_answer now none = none
  spec_answer now (some s) = some (touch cfg now s)

  pub spec_delete_found : ℕ → String → Option (Option String) → Option Session → View → View × ℕ
  spec_delete_found now id auth none v = (spec_remove id v, 400)
  spec_delete_found now id none (some s) v = (spec_put id (touch cfg now s) v, 401)
  spec_delete_found now id (some requester) (some s) v =
      if is_some requester && not (same_text requester s.key_id)
      then (spec_put id (touch cfg now s) v, 403)
      else (spec_remove id v, 200)

  pub spec_delete_named : ℕ → Option String → Option (Option String) → View → View × ℕ
  spec_delete_named now none auth v = (v, 400)
  spec_delete_named now (some id) auth v = spec_delete_found now id auth (v now id) v

-- The requests, each at its time: an initialisation, a call in a session, a DELETE, the sweep.
pub data Request : Type 0 where
  create_session : ℕ → String → Context → Request
  call_session : ℕ → String → Request
  delete_session_request : ℕ → Bool → Option String → Option (Option String) → Request
  sweep_sessions : ℕ → (String → Bool) → Request

pub time_of : Request → ℕ
time_of (create_session now id ctx) = now
time_of (call_session now id) = now
time_of (delete_session_request now o id auth) = now
time_of (sweep_sessions now reflects) = now

-- What the client learns: the session it is served with, or a status.
pub data Answer : Type 0 where
  done : Answer
  serves : Option Session → Answer
  status : ℕ → Answer

pub served_with : Validation Session → Option Session
served_with (invalid reason) = none
served_with (valid s) = some (forget s)

module _ {S : Type 0} (redis : Redis S) (cfg : Config) where
  pub kept_in_redis : ℕ → String → S → Option Session
  kept_in_redis t id r = if cfg.redis_enabled then get_session redis t id r else none

  pub view : Store S → View
  view st t id = served t (Maps.get id st.streamable) (kept_in_redis t id st.redis_state)

  pub answered : Store S × Validation Session → Store S × Answer
  answered (st, v) = (st, serves (served_with v))

  pub with_status : Store S × ℕ → Store S × Answer
  with_status (st, code) = (st, status code)

  pub step : Request → Store S → Store S × Answer
  step (create_session now id ctx) st =
      (create_streamable_session_with_id redis cfg now id ctx st, done)
  step (call_session now id) st = answered (validate_streamable_session redis cfg now id st)
  step (delete_session_request now o id auth) st =
      with_status (handle_mcp_delete redis cfg now o id auth st)
  step (sweep_sessions now reflects) st = (cleanup_expired_sessions redis cfg now reflects st, done)

  pub run : List Request → Store S → List Answer
  run [] st = []
  run (q ∷ qs) st = let (st', a) = step q st in a ∷ run qs st'

module _ (cfg : Config) where
  pub spec_status : View × ℕ → View × Answer
  spec_status (v, code) = (v, status code)

  pub spec_step : Request → View → View × Answer
  spec_step (create_session now id ctx) v = (spec_put cfg id (session_of cfg now id ctx) v, done)
  spec_step (call_session now id) v =
      (spec_found cfg now id (v now id) v, serves (spec_answer cfg now (v now id)))
  spec_step (delete_session_request now o id auth) v =
      spec_status (if o then spec_delete_named cfg now (truthy id) auth v else (v, 403))
  spec_step (sweep_sessions now reflects) v = (v, done)

  pub spec_run : List Request → View → List Answer
  spec_run [] v = []
  spec_run (q ∷ qs) v = let (v', a) = spec_step q v in a ∷ spec_run qs v'

-- The requests come in the order of their times, none before `now`.
pub InOrder : ℕ → List Request → Type 0
InOrder now [] = Unit
InOrder now (q ∷ qs) = (now ≤ time_of q) × InOrder (time_of q) qs
