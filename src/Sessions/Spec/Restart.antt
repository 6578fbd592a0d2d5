-- ===== src/Sessions/Spec/Restart.antt =====
-- A restart of the server between two requests of a session.
use memento_mcp.Base.{
  ℕ, ◌+◌, ◌*◌, ◌/◌, ◌<◌, ◌≡◌, refl, ◌∙◌, ap, String, Option, none, some, [], ◌∷◌, true, false, ltb,
  maxb, Dict, eq_refl, arith,
}
use memento_mcp.Base.Maps
use memento_mcp.Sessions.{
  Session, Config, Redis, Store, valid, touch, get_session, save_session, write_through, close,
  close_streamable_session, extend, join, restore, restored, renewed, validate_found,
  validate_streamable_session,
}
use memento_mcp.Sessions.Ends.{close_all, shut_down}

-- What a restart relies on: a save succeeds, and Redis has the value until its time to live is over.
pub record RedisKeeps {S : Type 0} (redis : Redis S) : Type 0 where
  pub setex_same :
      (now : ℕ) (id : String) (ttl : ℕ) (s : Session) (r : S) (t : ℕ)
      → t < now + ttl * 1000
      → get_session redis t id (save_session redis now id s ttl r).0 ≡ some s

-- The maps of a new process are empty.
pub restarted : {S : Type 0} → Store S → Store S
restarted st = record { streamable = []; legacy = []; redis_state = st.redis_state }

covers : (ttl now t : ℕ) → t < now + ttl → t < now + maxb ((ttl + 999) / 1000) 60 * 1000
covers ttl now t lt = ground arith

module _ {S : Type 0} (redis : Redis S) (cfg : Config) (keeps : RedisKeeps redis) where
  redis-close :
      (now : ℕ) (id : String) (st : Store S)
      → (close_streamable_session redis cfg now true id st).redis_state ≡ st.redis_state
  unfolding close_streamable_session close
  redis-close now id st = ground arith

  redis-close_all :
      (now : ℕ) (m : Dict Session) (st : Store S)
      → (close_all redis cfg now m st).redis_state ≡ st.redis_state
  unfolding close_all
  redis-close_all now [] st = refl
  redis-close_all now ((id, s) ∷ m) st =
      redis-close_all now m (close_streamable_session redis cfg now true id st)
      ∙ redis-close now id st

  redis-shut_down :
      (now : ℕ) (st : Store S) → (shut_down redis cfg now st).redis_state ≡ st.redis_state
  unfolding shut_down
  redis-shut_down now st = redis-close_all now st.streamable st

  redis-extend :
      (now : ℕ) (id : String) (s : Session) (st : Store S)
      → cfg.redis_enabled ≡ true
      → (t : ℕ) → t < now + cfg.session_ttl_ms
      → get_session redis t id (extend redis cfg now id s st).redis_state ≡ some (touch cfg now s)
  unfolding extend write_through
  redis-extend now id s st on t lt = ground (
    arith,
    on,
    keeps.setex_same now id (maxb ((cfg.session_ttl_ms + 999) / 1000) 60) (touch cfg now s)
        st.redis_state t (covers cfg.session_ttl_ms now t lt),
  )

  -- A session that was valid is in Redis, as the client was served with it.
  redis-validate_found :
      (now : ℕ) (id : String) (o : Option Session) (st : Store S) (s : Session)
      → cfg.redis_enabled ≡ true
      → (validate_found redis cfg now id o st).1 ≡ valid s
      → (t : ℕ) → t < now + cfg.session_ttl_ms
      → get_session redis t id (validate_found redis cfg now id o st).0.redis_state ≡ some s
  unfolding validate_found
  redis-validate_found now id none st s on h t lt = ground (arith, h)
  redis-validate_found now id (some s') st s on h t lt =
      ground (arith, h, redis-extend now id s' st on t lt)

  served_from :
      (now : ℕ) (id : String) (st : Store S) (s : Session)
      → cfg.redis_enabled ≡ true
      → (validate_streamable_session redis cfg now id st).1 ≡ valid s
      → (t : ℕ) → t < now + cfg.session_ttl_ms
      → get_session redis t id (validate_streamable_session redis cfg now id st).0.redis_state
        ≡ some s
  unfolding validate_streamable_session
  served_from now id st s on h t lt =
      let st' : Store S = restore redis cfg now id st in
      redis-validate_found now id (Maps.get id st'.streamable) st' s on h t lt

  restored_lem :
      (now : ℕ) (id : String) (s : Session) (r : S)
      → cfg.redis_enabled ≡ true
      → get_session redis now id r ≡ some s
      → restored redis cfg now id r ≡ some (touch cfg now s)
  unfolding restored renewed
  restored_lem now id s r on h = ground (arith, on, h)

  fresh_live : (now : ℕ) (s : Session) → ltb (touch cfg now s).expires_at now ≡ false
  unfolding touch
  fresh_live now s = ground arith

  -- The first request of the new process.
  valid_again :
      (now : ℕ) (id : String) (s : Session) (st : Store S)
      → cfg.redis_enabled ≡ true
      → get_session redis now id st.redis_state ≡ some s
      → (validate_streamable_session redis cfg now id (restarted st)).1 ≡ valid (touch cfg now s)
  unfolding restarted validate_streamable_session restore join validate_found Maps.get Maps.put
      touch
  valid_again now id s st on h =
      rw (restored_lem now id s st.redis_state on h, eq_refl id, fresh_live now s) refl

  -- With Redis enabled, where saves succeed and last for their time, a session that a request
  -- was served with serves again after a shutdown and a start with the same settings, within
  -- `SESSION_TTL_MS` of that request: it is valid, with all its fields but the times.
  pub restart-validate :
      (now down later : ℕ) (id : String) (st : Store S) (s : Session)
      → cfg.redis_enabled ≡ true
      → (validate_streamable_session redis cfg now id st).1 ≡ valid s
      → later < now + cfg.session_ttl_ms
      → (validate_streamable_session redis cfg later id (
          restarted
            (shut_down redis cfg down (validate_streamable_session redis cfg now id st).0))).1
        ≡ valid (touch cfg later s)
  restart-validate now down later id st s on h lt =
      let st' : Store S = (validate_streamable_session redis cfg now id st).0 in
      valid_again later id s (shut_down redis cfg down st') on (
        ap (get_session redis later id) (redis-shut_down down st')
        ∙ served_from now id st s on h later lt)
