-- ===== src/Sessions/Spec/Rotation.antt =====
-- What `rotateSession` leaves behind.
use memento_mcp.Base.{
  ℕ, ◌+◌, ◌≡◌, refl, String, none, some, true, if◌then◌else◌, Option, or_else, ◌⊎◌, arith,
  Option-cases, inl, inr,
}
use memento_mcp.Base.Maps
use memento_mcp.Sessions.{Session, Config, Redis, Store, existing, get_session}
use memento_mcp.Sessions.Spec.{RedisLaws}

-- The session that a rotation puts in the place of `s`.
abbrev pub carried : Config → ℕ → String → Session → Session
carried cfg now id s = record {
  session_id = id;
  authenticated = s.authenticated;
  key_id = s.key_id;
  group_key_ids = s.group_key_ids;
  permissions = s.permissions;
  default_workspace = s.default_workspace;
  mode = s.mode;
  created_at = now;
  expires_at = now + cfg.session_ttl_ms;
  last_accessed_at = now;
  last_reflected_at = none;
  negotiated_version = none;
}

-- The session is in memory, or it is not and Redis, which is enabled, answers it.
abbrev pub Finds : {S : Type 0} → Redis S → Config → ℕ → String → Store S → Session → Type 0
Finds redis cfg now id st s =
    (Maps.get id st.streamable ≡ some s)
    ⊎ (Maps.get id st.streamable ≡ none)
      × (cfg.redis_enabled ≡ true)
      × (redis.lookup now id st.redis_state ≡ some (some s))

module _ {S : Type 0} (redis : Redis S) (cfg : Config) (laws : RedisLaws redis) where
  answered_by :
      (now : ℕ) (id : String) (st : Store S) (s : Session) (o : Option (Option Session))
      → redis.lookup now id st.redis_state ≡ o
      → (if cfg.redis_enabled then or_else o none else none) ≡ some s
      → (cfg.redis_enabled ≡ true) × (redis.lookup now id st.redis_state ≡ some (some s))
  answered_by now id st s none e h = ground (arith, e)
  answered_by now id st s (some none) e h = ground (arith, e)
  answered_by now id st s (some (some x)) e h = (ground arith, ground (arith, e))

  pub existing-Finds :
      (now : ℕ) (id : String) (st : Store S) (s : Session)
      → existing redis cfg now id st ≡ some s
      → Finds redis cfg now id st s
  unfolding existing get_session
  existing-Finds now id st s h = elim (Option-cases (Maps.get id st.streamable)) [
    | inl a ↦
        let (on, e) =
          answered_by now id st s (redis.lookup now id st.redis_state) refl (rw a at h) in
        inr (a, on, e)
    | inr (x, a) ↦ inl (ground (arith, a))
  ]
