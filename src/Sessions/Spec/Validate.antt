-- ===== src/Sessions/Spec/Validate.antt =====
-- `validateStreamableSession` as the view shows it.
use memento_mcp.Base.{
  ℕ, ◌≤◌, ◌≡◌, refl, sym, ◌∙◌, String-cases, String, Option, none, some, true, false, ltb, eq_refl,
  arith, get-put, Bool-cases, Option-cases, inl, inr,
}
use memento_mcp.Base.Maps
use memento_mcp.Sessions.{
  Session, Config, Redis, Store, Validation, valid, invalid, touch, extend, join, restore, restored,
  renewed, validate_found, validate_streamable_session,
}
use memento_mcp.Sessions.Spec.{
  RedisLaws, View, forget, served, spec_put, spec_remove, spec_found, spec_answer, kept_in_redis,
  view, served_with,
}
use memento_mcp.Sessions.Spec.Steps.{
  view-close, view-extend, view-join, put_put, found_live, found_expired,
}

module _ {S : Type 0} (redis : Redis S) (cfg : Config) (laws : RedisLaws redis) where
  -- A session that is valid is in memory.
  unfoldable pub There : String → Store S → Validation Session → Type 0
  There id st (invalid reason) = Unit
  There id st (valid s) = Maps.get id st.streamable ≡ some s

  -- A result is what the view asks for.
  unfoldable pub Follows : ℕ → String → Store S → Store S × Validation Session → Type 0
  Follows now id st (st', v) =
      ((t : ℕ) (j : String)
        → now ≤ t
        → view redis cfg st' t j
          ≡ spec_found cfg now id (view redis cfg st now id) (view redis cfg st) t j)
      × (served_with v ≡ spec_answer cfg now (view redis cfg st now id))
      × There id st' v

  touch-forget :
      (now : ℕ) (id : String) (s : Session) (v : View) (t : ℕ) (j : String)
      → spec_put cfg id (touch cfg now s) v t j ≡ spec_put cfg id (touch cfg now (forget s)) v t j
  unfolding spec_put served forget touch
  touch-forget now id s v t j = ground arith

  touch_live : (now : ℕ) (s : Session) → ltb (touch cfg now s).expires_at now ≡ false
  unfolding touch
  touch_live now s = ground arith

  extend_there :
      (now : ℕ) (id : String) (s : Session) (st : Store S)
      → Maps.get id (extend redis cfg now id s st).streamable ≡ some (touch cfg now s)
  unfolding extend
  extend_there now id s st = rw (get-put id id (touch cfg now s) st.streamable, eq_refl id) refl

  in_memory :
      (now : ℕ) (id : String) (s : Session) (st : Store S)
      → Maps.get id st.streamable ≡ some s
      → Follows now id st (validate_found redis cfg now id (some s) st)
  unfolding Follows view served spec_found spec_answer There served_with forget spec_put touch
  in_memory now id s st h = elim (Bool-cases (ltb s.expires_at now)) [
    | inl e ↦
        rw (found_expired redis cfg laws now id s st h e, h, e)
          ((λ t j le. view-close redis cfg laws now id st t j), refl, tt)
    | inr e ↦
        rw (found_live redis cfg laws now id s st e, h, e)
          (
            (λ t j le.
                view-extend redis cfg laws now id s st t j
                ∙ touch-forget now id s (view redis cfg st) t j),
            refl,
            extend_there now id s st,
          )
  ]

  -- A session that Redis gives back is in memory then, with its times renewed.
  in_redis :
      (now : ℕ) (id : String) (s : Session) (st : Store S)
      → cfg.redis_enabled ≡ true
      → Maps.get id st.streamable ≡ none
      → kept_in_redis redis cfg now id st.redis_state ≡ some s
      → Follows now id st (
          let st' = join redis cfg now id (some (touch cfg now s)) st in
          validate_found redis cfg now id (Maps.get id st'.streamable) st')
  unfolding Follows view served spec_found spec_answer There served_with forget spec_put touch join
  in_redis now id s st on h k =
      let s' : Session = touch cfg now s in
      let st' : Store S = join redis cfg now id (some s') st in
      rw
        (
          get-put id id s' st.streamable,
          eq_refl id,
          found_live redis cfg laws now id s' st' (touch_live now s),
          h,
          k,
        )
        (
          (λ t j le.
              view-extend redis cfg laws now id s' st' t j
              ∙ put_put redis cfg laws id (touch cfg now s') s' (view redis cfg st)
                  (view redis cfg st') t j (view-join redis cfg laws now id s' st t j on)
              ∙ touch-forget now id s (view redis cfg st) t j),
          refl,
          extend_there now id s' st',
        )

  stays :
      (now : ℕ) (id : String) (r : S) (t : ℕ)
      → now ≤ t
      → kept_in_redis redis cfg now id r ≡ none
      → kept_in_redis redis cfg t id r ≡ none
  unfolding kept_in_redis
  stays now id r t le k = ground (arith, laws.stays_away now id r t le)

  nothing_there :
      (now : ℕ) (id : String) (st : Store S) (t : ℕ) (j : String)
      → now ≤ t
      → Maps.get id st.streamable ≡ none
      → kept_in_redis redis cfg now id st.redis_state ≡ none
      → view redis cfg st t j ≡ spec_remove cfg id (view redis cfg st) t j
  unfolding view spec_remove served
  nothing_there now id st t j le h k = elim (String-cases id j) [
    | inl (p, e) ↦ rw (e, sym p, h, stays now id st.redis_state t le k) refl
    | inr (n, e) ↦ rw e refl
  ]

  in_neither :
      (now : ℕ) (id : String) (st : Store S)
      → Maps.get id st.streamable ≡ none
      → kept_in_redis redis cfg now id st.redis_state ≡ none
      → Follows now id st (validate_found redis cfg now id none st)
  unfolding Follows view served spec_found spec_answer There served_with spec_remove validate_found
  in_neither now id st h k = rw (h, k) ((λ t j le. nothing_there now id st t j le h k), refl, tt)

  restored-kept_in_redis :
      (now : ℕ) (id : String) (r : S)
      → restored redis cfg now id r ≡ renewed cfg now (kept_in_redis redis cfg now id r)
  unfolding restored kept_in_redis renewed
  restored-kept_in_redis now id r = ground arith

  kept_enabled :
      (now : ℕ) (id : String) (s : Session) (r : S)
      → kept_in_redis redis cfg now id r ≡ some s
      → cfg.redis_enabled ≡ true
  unfolding kept_in_redis
  kept_enabled now id s r k = ground arith

  off_memory :
      (now : ℕ) (id : String) (st : Store S)
      → Maps.get id st.streamable ≡ none
      → (o : Option Session) → kept_in_redis redis cfg now id st.redis_state ≡ o
      → Follows now id st (validate_streamable_session redis cfg now id st)
  unfolding validate_streamable_session restore renewed join
  off_memory now id st h none k =
      rw (h, restored-kept_in_redis now id st.redis_state, k, h) (in_neither now id st h k)
  off_memory now id st h (some s) k =
      rw (h, restored-kept_in_redis now id st.redis_state, k)
        (in_redis now id s st (kept_enabled now id s st.redis_state k) h k)

  -- Validation does to the view what it promises, and answers as the view has it.
  pub validate-Follows :
      (now : ℕ) (id : String) (st : Store S)
      → Follows now id st (validate_streamable_session redis cfg now id st)
  unfolding validate_streamable_session restore
  validate-Follows now id st = elim (Option-cases (Maps.get id st.streamable)) [
    | inl h ↦ off_memory now id st h (kept_in_redis redis cfg now id st.redis_state) refl
    | inr (s, h) ↦ rw (h, h) (in_memory now id s st h)
  ]
