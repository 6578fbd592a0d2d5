-- ===== src/Sessions/Ends.antt =====
-- What ends sessions: the periodic `cleanupExpiredSessions` of lib/sessions.js, `handleMcpDelete` of
-- lib/handlers/mcp-handler.js and the shutdown of server.js. The outcomes of `autoReflect`, whether
-- the Origin passes and what `validateAuthentication` answers (the caller's key, or none when it
-- refuses) are arguments.
use memento_mcp.Base.{
  ℕ, ◌-◌, ◌*◌, String, Option, none, some, [], ◌∷◌, Bool, true, false, not, ltb, ◌==◌,
  if◌then◌else◌, Dict, is_some, ◌&&◌, ◌||◌, same_text, truthy,
}
use memento_mcp.Base.Maps
use memento_mcp.Sessions.{
  Session, LegacySession, Config, Redis, Store, Validation, valid, invalid,
  close_streamable_session, validate_streamable_session,
}

module _ {S : Type 0} (redis : Redis S) (cfg : Config) where
  -- The periodic sweep. `reflects` says for which sessions `autoReflect` succeeds.
  pub idle_threshold_ms : ℕ
  idle_threshold_ms = cfg.idle_reflect_hours * 3600 * 1000

  -- `lastAccessedAt || createdAt`.
  pub last_access : Session → ℕ
  last_access s = if s.last_accessed_at == 0 then s.created_at else s.last_accessed_at

  pub needs_reflect : ℕ → Option ℕ → Bool
  needs_reflect now none = true
  needs_reflect now (some t) = t == 0 || ltb idle_threshold_ms (now - t)

  pub reflects_now : ℕ → Session → Bool
  reflects_now now s =
      ltb idle_threshold_ms (now - last_access s) && needs_reflect now s.last_reflected_at

  unfoldable pub sweep_one : ℕ → (String → Bool) → String → Session → Store S → Store S
  sweep_one now reflects id s st =
      if ltb s.expires_at now
      then close_streamable_session redis cfg now false id st
      else if reflects_now now s && reflects id
      then record st {
        streamable = Maps.put id (record s { last_reflected_at = some now }) st.streamable;
      }
      else st

  unfoldable pub sweep : ℕ → (String → Bool) → Dict Session → Store S → Store S
  sweep now reflects [] st = st
  sweep now reflects ((id, s) ∷ rest) st = sweep now reflects rest (sweep_one now reflects id s st)

  pub is_live_legacy : ℕ → LegacySession → Bool
  is_live_legacy now s = not (ltb s.legacy_expires_at now)

  unfoldable pub cleanup_expired_sessions : ℕ → (String → Bool) → Store S → Store S
  cleanup_expired_sessions now reflects st =
      let st' = sweep now reflects st.streamable st in
      record st' { legacy = Maps.retain (is_live_legacy now) st'.legacy }

  -- `handleMcpDelete`, after the Origin check: the status it answers.
  unfoldable pub delete_validated :
      ℕ → String → Option (Option String) → Store S × Validation Session → Store S × ℕ
  delete_validated now id auth (st, invalid reason) = (st, 400)
  delete_validated now id none (st, valid s) = (st, 401)
  delete_validated now id (some requester) (st, valid s) =
      if is_some requester && not (same_text requester s.key_id)
      then (st, 403)
      else (close_streamable_session redis cfg now false id st, 200)

  unfoldable pub delete_named : ℕ → Option String → Option (Option String) → Store S → Store S × ℕ
  delete_named now none auth st = (st, 400)
  delete_named now (some id) auth st =
      delete_validated now id auth (validate_streamable_session redis cfg now id st)

  unfoldable pub handle_mcp_delete :
      ℕ → Bool → Option String → Option (Option String) → Store S → Store S × ℕ
  handle_mcp_delete now origin_allowed id auth st =
      if origin_allowed then delete_named now (truthy id) auth st else (st, 403)

  -- The shutdown of server.js closes every session and leaves what Redis has.
  unfoldable pub close_all : ℕ → Dict Session → Store S → Store S
  close_all now [] st = st
  close_all now ((id, s) ∷ rest) st =
      close_all now rest (close_streamable_session redis cfg now true id st)

  unfoldable pub shut_down : ℕ → Store S → Store S
  shut_down now st = record (close_all now st.streamable st) { legacy = [] }
