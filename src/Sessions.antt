-- ===== src/Sessions.antt =====
-- lib/sessions.js: the sessions of the server, in memory and written through to Redis, with the
-- calls of lib/redis.js under them. A call is one step with one reading of
-- the clock. The Redis client is a parameter, and so is a new random identifier. `autoReflect`, whose
-- failure a close ignores, sockets and their heartbeats have no effect on the two maps and are left
-- out here.
pub mod Data
mod Ends
mod Legacy
mod RotateHandler
mod Spec
pub use Data.*
use memento_mcp.Base.{
  ℕ, ◌+◌, ◌-◌, ◌*◌, ◌/◌, String, Option, none, some, List, [], ◌∷◌, ◌++◌, map, Bool, true, false,
  not, ltb, maxb, ◌==◌, if◌then◌else◌, Dict, is_some, or_else, first_some, length, Outcome, ok, err,
  ◌&&◌, ◌||◌, same_text,
}
use memento_mcp.Base.Maps

pub session_of : Config → ℕ → String → Context → Session
session_of cfg now id ctx = record {
  session_id = id;
  authenticated = ctx.ctx_authenticated;
  key_id = ctx.ctx_key_id;
  group_key_ids = ctx.ctx_group_key_ids;
  permissions = ctx.ctx_permissions;
  default_workspace = ctx.ctx_default_workspace;
  mode = ctx.ctx_mode;
  created_at = now;
  expires_at = now + cfg.session_ttl_ms;
  last_accessed_at = now;
  last_reflected_at = none;
  negotiated_version = none;
}

-- The context that `rotateSession` carries over.
pub context_of : Session → Context
context_of s = record {
  ctx_authenticated = s.authenticated;
  ctx_key_id = s.key_id;
  ctx_group_key_ids = s.group_key_ids;
  ctx_permissions = s.permissions;
  ctx_default_workspace = s.default_workspace;
  ctx_mode = s.mode;
}

-- `lastAccessedAt = now; expiresAt = now + SESSION_TTL_MS`.
pub touch : Config → ℕ → Session → Session
touch cfg now s = record s { last_accessed_at = now; expires_at = now + cfg.session_ttl_ms }

pub renewed : Config → ℕ → Option Session → Option Session
renewed cfg now none = none
renewed cfg now (some s) = some (touch cfg now s)

module _ {S : Type 0} (redis : Redis S) where
  -- The three calls of lib/redis.js, which catch what the client throws.
  pub saved : Option S → S → S × Bool
  saved none s = (s, false)
  saved (some s') s = (s', true)

  pub save_session : ℕ → String → Session → ℕ → S → S × Bool
  save_session now id kept ttl s = saved (redis.setex now id ttl kept s) s

  pub get_session : ℕ → String → S → Option Session
  get_session now id s = or_else (redis.lookup now id s) none

  pub delete_session : ℕ → String → S → S × Bool
  delete_session now id s = saved (redis.del now id s) s

  module _ (cfg : Config) where
    -- `if (REDIS_ENABLED) await saveSessionToRedis(...)`.
    pub write_through : ℕ → String → Session → ℕ → S → S
    write_through now id kept ttl s =
        if cfg.redis_enabled then (save_session now id kept ttl s).0 else s

    pub create_streamable_session_with_id : ℕ → String → Context → Store S → Store S
    create_streamable_session_with_id now id ctx st =
        let kept = session_of cfg now id ctx in
        record st {
          streamable = Maps.put id kept st.streamable;
          redis_state = write_through now id kept cfg.cache_session_ttl st.redis_state;
        }

    -- `session.close({ preserveRedis })`.
    pub close : ℕ → Bool → String → Store S → Store S
    close now preserve id st = record st {
      streamable = Maps.delete id st.streamable;
      redis_state =
          if cfg.redis_enabled && not preserve
          then (delete_session now id st.redis_state).0
          else st.redis_state;
    }

    pub close_streamable_session : ℕ → Bool → String → Store S → Store S
    close_streamable_session now preserve id st =
        if Maps.has id st.streamable then close now preserve id st else st

    -- What Redis has for a session that is not in memory, with its times renewed.
    pub restored : ℕ → String → S → Option Session
    restored now id s = if cfg.redis_enabled then renewed cfg now (get_session now id s) else none

    -- A session found in Redis joins the map, and its renewed copy is written back.
    pub join : ℕ → String → Option Session → Store S → Store S
    join now id none st = st
    join now id (some s) st = record st {
      streamable = Maps.put id s st.streamable;
      redis_state = (save_session now id s ((cfg.session_ttl_ms + 999) / 1000) st.redis_state).0;
    }

    pub restore : ℕ → String → Store S → Store S
    restore now id st =
        if Maps.has id st.streamable then st else join now id (restored now id st.redis_state) st

    -- The times of a valid session slide on, in memory and in Redis.
    pub extend : ℕ → String → Session → Store S → Store S
    extend now id s st = record st {
      streamable = Maps.put id (touch cfg now s) st.streamable;
      redis_state =
          write_through now id (touch cfg now s) (maxb ((cfg.session_ttl_ms + 999) / 1000) 60)
            st.redis_state;
    }

    pub validate_found : ℕ → String → Option Session → Store S → Store S × Validation Session
    validate_found now id none st = (st, invalid session_not_found)
    validate_found now id (some s) st =
        if ltb s.expires_at now
        then (close_streamable_session now false id st, invalid session_expired)
        else (extend now id s st, valid (touch cfg now s))

    pub validate_streamable_session : ℕ → String → Store S → Store S × Validation Session
    validate_streamable_session now id st =
        let st' = restore now id st in validate_found now id (Maps.get id st'.streamable) st'

    -- The old session's end: the one in memory is closed, one only in Redis is deleted there.
    pub end_old : ℕ → String → Store S → Store S
    end_old now id st =
        if Maps.has id st.streamable
        then close now false id st
        else if cfg.redis_enabled
        then record st { redis_state = (delete_session now id st.redis_state).0 }
        else st

    pub expiry_of : ℕ → Option Session → ℕ
    expiry_of now none = now + cfg.session_ttl_ms
    expiry_of now (some s) = s.expires_at

    -- The new session is in the map before the old one ends.
    pub replace : ℕ → String → String → Session → Store S → Store S × Rotated
    replace now old_id new_id s st =
        let st' =
          end_old now old_id (create_streamable_session_with_id now new_id (context_of s) st) in
        (
          st',
          record {
            old_session_id = old_id;
            new_session_id = new_id;
            rotated_expires_at = expiry_of now (Maps.get new_id st'.streamable);
            rotated_key_id = s.key_id;
            rotated_workspace = s.default_workspace;
          },
        )

    pub rotate_found :
        ℕ → String → String → Option Session → Store S → Store S × Outcome Reason Rotated
    rotate_found now old_id new_id none st = (st, err session_not_found)
    rotate_found now old_id new_id (some s) st =
        if ltb s.expires_at now
        then (close_streamable_session now false old_id st, err session_expired)
        else let (st', answer) = replace now old_id new_id s st in (st', ok answer)

    -- The session in memory, or the one that Redis has, as it stands there.
    pub existing : ℕ → String → Store S → Option Session
    existing now id st =
        first_some (Maps.get id st.streamable)
          (if cfg.redis_enabled then get_session now id st.redis_state else none)

    pub rotate_session : ℕ → String → String → Store S → Store S × Outcome Reason Rotated
    rotate_session now old_id new_id st = rotate_found now old_id new_id (existing now old_id st) st
