-- ===== src/Sessions/Legacy.antt =====
-- lib/sessions.js: the Legacy SSE sessions, which live in memory only, the heartbeat of both kinds,
-- and the lists that the health and shutdown calls read. The response object of a session is left out;
-- whether a ping could be written is an argument.
use memento_mcp.Base.{
  ℕ, suc, ◌+◌, ◌≡◌, String, Option, none, some, List, ◌++◌, map, Bool, false, ltb, leb,
  if◌then◌else◌, length, length-append, length-map, ap₂, ◌∙◌,
}
use memento_mcp.Base.Maps
use memento_mcp.Sessions.{
  Session, LegacySession, Config, Store, Validation, valid, invalid, session_not_found,
  session_expired,
}

pub touch_legacy : Config → ℕ → LegacySession → LegacySession
touch_legacy cfg now s = record s {
  legacy_last_accessed_at = now;
  legacy_expires_at = now + cfg.session_ttl_ms;
}

pub record SessionCounts : Type 0 where
  pub streamable_count : ℕ
  pub legacy_count : ℕ
  pub total_count : ℕ

pub data SessionType : Type 0 where
  streamable_type legacy_type : SessionType

pub record SessionInfo : Type 0 where
  pub info_id : String
  pub info_type : SessionType
  pub info_authenticated : Bool
  pub info_key_id : Option String
  pub info_created_at : ℕ
  pub info_expires_at : ℕ
  pub info_last_accessed_at : ℕ

pub info_of : String × Session → SessionInfo
info_of (id, s) = record {
  info_id = id;
  info_type = streamable_type;
  info_authenticated = s.authenticated;
  info_key_id = s.key_id;
  info_created_at = s.created_at;
  info_expires_at = s.expires_at;
  info_last_accessed_at = s.last_accessed_at;
}

pub legacy_info_of : String × LegacySession → SessionInfo
legacy_info_of (id, s) = record {
  info_id = id;
  info_type = legacy_type;
  info_authenticated = s.legacy_authenticated;
  info_key_id = none;
  info_created_at = s.legacy_created_at;
  info_expires_at = s.legacy_expires_at;
  info_last_accessed_at = s.legacy_last_accessed_at;
}

module _ {S : Type 0} where
  pub create_legacy_sse_session : Config → ℕ → String → Store S → Store S
  create_legacy_sse_session cfg now id st = record st {
    legacy =
        Maps.put id
          (record {
            legacy_authenticated = false;
            legacy_created_at = now;
            legacy_expires_at = now + cfg.session_ttl_ms;
            legacy_last_accessed_at = now;
          })
          st.legacy;
  }

  pub close_legacy_sse_session : String → Store S → Store S
  close_legacy_sse_session id st =
      if Maps.has id st.legacy then record st { legacy = Maps.delete id st.legacy } else st

  pub validate_legacy :
      Config → ℕ → String → Option LegacySession → Store S → Store S × Validation LegacySession
  validate_legacy cfg now id none st = (st, invalid session_not_found)
  validate_legacy cfg now id (some s) st =
      if ltb s.legacy_expires_at now
      then (close_legacy_sse_session id st, invalid session_expired)
      else (
        record st { legacy = Maps.put id (touch_legacy cfg now s) st.legacy },
        valid (touch_legacy cfg now s),
      )

  pub validate_legacy_sse_session :
      Config → ℕ → String → Store S → Store S × Validation LegacySession
  validate_legacy_sse_session cfg now id st = validate_legacy cfg now id (Maps.get id st.legacy) st

  pub get_session_counts : Store S → SessionCounts
  get_session_counts st = record {
    streamable_count = length st.streamable;
    legacy_count = length st.legacy;
    total_count = length st.streamable + length st.legacy;
  }

  pub list_all_sessions : Store S → List SessionInfo
  list_all_sessions st = map info_of st.streamable ++ map legacy_info_of st.legacy

  pub get_legacy_session : String → Store S → Option LegacySession
  get_legacy_session id st = Maps.get id st.legacy

  pub get_all_session_ids : Store S → List String × List String
  get_all_session_ids st = (map (λ e. e.0) st.streamable, map (λ e. e.0) st.legacy)

  -- The list has as many entries as the total says.
  pub length-list_all_sessions :
      (st : Store S) → length (list_all_sessions st) ≡ (get_session_counts st).total_count
  unfolding list_all_sessions get_session_counts
  length-list_all_sessions st =
      length-append (map info_of st.streamable) (map legacy_info_of st.legacy)
      ∙ ap₂ ◌+◌ (length-map info_of st.streamable) (length-map legacy_info_of st.legacy)

-- What `res.write(": ping")` comes to.
pub data Ping : Type 0 where
  taken refused throws : Ping

-- One beat: the failures counted so far, and whether the session is closed.
pub beat : ℕ → ℕ → Ping → ℕ × Bool
beat max_failures failures taken = (0, leb max_failures 0)
beat max_failures failures refused = (suc failures, leb max_failures (suc failures))
beat max_failures failures throws = (suc failures, leb max_failures (suc failures))
