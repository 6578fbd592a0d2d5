-- ===== src/Sessions/Spec/Steps.antt =====
-- The view after each operation on the sessions.
use memento_mcp.Base.{
  ℕ, ◌+◌, ◌/◌, maxb, ◌≡◌, ◌≢◌, refl, sym, String, Option, none, some, true, false, ltb, eq_iff,
  arith, get-put, get-delete, String-cases, inl, inr,
}
use memento_mcp.Base.Maps
use memento_mcp.Sessions.{
  Session, Config, Context, Redis, Store, valid, invalid, touch, session_of, saved, save_session,
  delete_session, write_through, close, extend, join, create_streamable_session_with_id,
  close_streamable_session, validate_found, session_expired,
}
use memento_mcp.Sessions.Spec.{RedisLaws, View, served, spec_put, spec_remove, kept_in_redis, view}

module _ {S : Type 0} (redis : Redis S) (cfg : Config) (laws : RedisLaws redis) where
  kept-saved :
      (now : ℕ) (id : String) (ttl : ℕ) (s : Session) (r : S) (t : ℕ) (j : String)
      → id ≢ j
      → (o : Option S) → redis.setex now id ttl s r ≡ o
      → kept_in_redis redis cfg t j (saved redis o r).0 ≡ kept_in_redis redis cfg t j r
  unfolding kept_in_redis saved
  kept-saved now id ttl s r t j n none e = refl
  kept-saved now id ttl s r t j n (some r') e = rw (laws.setex_other now id ttl s r r' t j e n)

  pub kept-write_through :
      (now : ℕ) (id : String) (s : Session) (ttl : ℕ) (r : S) (t : ℕ) (j : String)
      → id ≢ j
      → kept_in_redis redis cfg t j (write_through redis cfg now id s ttl r)
        ≡ kept_in_redis redis cfg t j r
  unfolding write_through save_session
  kept-write_through now id s ttl r t j n =
      ground (arith, kept-saved now id ttl s r t j n (redis.setex now id ttl s r) refl)

  pub kept-deleted :
      (now : ℕ) (id : String) (r : S) (t : ℕ) (j : String)
      → id ≢ j
      → (o : Option S) → redis.del now id r ≡ o
      → kept_in_redis redis cfg t j (saved redis o r).0 ≡ kept_in_redis redis cfg t j r
  unfolding kept_in_redis saved
  kept-deleted now id r t j n none e = refl
  kept-deleted now id r t j n (some r') e = rw (laws.del_other now id r r' t j e n)

  -- A session that is put into the map serves from there.
  pub view-put :
      (id : String) (s : Session) (r' : S) (st : Store S) (t : ℕ) (j : String)
      → (id ≢ j → kept_in_redis redis cfg t j r' ≡ kept_in_redis redis cfg t j st.redis_state)
      → view redis cfg
          (record st { streamable = Maps.put id s st.streamable; redis_state = r' })
          t
          j
        ≡ spec_put cfg id s (view redis cfg st) t j
  unfolding view spec_put served
  view-put id s r' st t j other = rw (get-put id j s st.streamable) (ground (arith, eq_iff id j))

  kept-close :
      (now : ℕ) (id : String) (st : Store S) (t : ℕ) (j : String)
      → id ≢ j
      → kept_in_redis redis cfg t j (close redis cfg now false id st).redis_state
        ≡ kept_in_redis redis cfg t j st.redis_state
  unfolding close delete_session
  kept-close now id st t j n =
      ground
        (arith, kept-deleted now id st.redis_state t j n (redis.del now id st.redis_state) refl)

  kept-close_same :
      (now : ℕ) (id : String) (st : Store S) (t : ℕ)
      → kept_in_redis redis cfg t id (close redis cfg now false id st).redis_state ≡ none
  unfolding close kept_in_redis
  kept-close_same now id st t = ground (arith, laws.del_same now id st.redis_state t)

  -- A closed session serves no more, from memory or from Redis.
  pub view-close :
      (now : ℕ) (id : String) (st : Store S) (t : ℕ) (j : String)
      → view redis cfg (close redis cfg now false id st) t j
        ≡ spec_remove cfg id (view redis cfg st) t j
  unfolding view spec_remove close served
  view-close now id st t j = rw (get-delete id j st.streamable) (elim (String-cases id j) [
    | inl (p, e) ↦ rw (e, sym p, kept-close_same now id st t) refl
    | inr (n, e) ↦ rw (e, kept-close now id st t j n) refl
  ])

  pub view-create :
      (now : ℕ) (id : String) (ctx : Context) (st : Store S) (t : ℕ) (j : String)
      → view redis cfg (create_streamable_session_with_id redis cfg now id ctx st) t j
        ≡ spec_put cfg id (session_of cfg now id ctx) (view redis cfg st) t j
  unfolding create_streamable_session_with_id
  view-create now id ctx st t j =
      let s : Session = session_of cfg now id ctx in
      view-put id s (write_through redis cfg now id s cfg.cache_session_ttl st.redis_state) st t j
        (kept-write_through now id s cfg.cache_session_ttl st.redis_state t j)

  pub view-extend :
      (now : ℕ) (id : String) (s : Session) (st : Store S) (t : ℕ) (j : String)
      → view redis cfg (extend redis cfg now id s st) t j
        ≡ spec_put cfg id (touch cfg now s) (view redis cfg st) t j
  unfolding extend
  view-extend now id s st t j =
      let ttl : ℕ = maxb ((cfg.session_ttl_ms + 999) / 1000) 60 in
      let s' : Session = touch cfg now s in
      view-put id s' (write_through redis cfg now id s' ttl st.redis_state) st t j
        (kept-write_through now id s' ttl st.redis_state t j)

  -- A copy that Redis gave back.
  pub view-join :
      (now : ℕ) (id : String) (s : Session) (st : Store S) (t : ℕ) (j : String)
      → cfg.redis_enabled ≡ true
      → view redis cfg (join redis cfg now id (some s) st) t j
        ≡ spec_put cfg id s (view redis cfg st) t j
  unfolding join save_session
  view-join now id s st t j e =
      let ttl : ℕ = (cfg.session_ttl_ms + 999) / 1000 in
      view-put id s (saved redis (redis.setex now id ttl s st.redis_state) st.redis_state).0 st t j
        (λ n.
          kept-saved now id ttl s st.redis_state t j n (redis.setex now id ttl s st.redis_state)
            refl)

  pub put_put :
      (id : String) (s s' : Session) (v w : View) (t : ℕ) (j : String)
      → w t j ≡ spec_put cfg id s' v t j
      → spec_put cfg id s w t j ≡ spec_put cfg id s v t j
  unfolding spec_put
  put_put id s s' v w t j h = ground (arith, h)

  -- A session in memory that has not expired.
  pub found_live :
      (now : ℕ) (id : String) (s : Session) (st : Store S)
      → ltb s.expires_at now ≡ false
      → validate_found redis cfg now id (some s) st
        ≡ (extend redis cfg now id s st, valid (touch cfg now s))
  unfolding validate_found
  found_live now id s st e = rw e refl

  pub found_expired :
      (now : ℕ) (id : String) (s : Session) (st : Store S)
      → Maps.get id st.streamable ≡ some s
      → ltb s.expires_at now ≡ true
      → validate_found redis cfg now id (some s) st
        ≡ (close redis cfg now false id st, invalid session_expired)
  unfolding validate_found close_streamable_session
  found_expired now id s st h e = rw (e, h) refl
