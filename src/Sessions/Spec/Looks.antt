-- ===== src/Sessions/Spec/Looks.antt =====
-- The store looks like a view from a time on, and still does after a validation.
use memento_mcp.Base.{ℕ, ◌≤◌, ◌≡◌, ◌∙◌, String, Option, none, some, arith}
use memento_mcp.Base.Maps.{Unique, put-Unique, delete-Unique}
use memento_mcp.Base.Maps
use memento_mcp.Sessions.{
  Session, Config, Redis, Store, touch, extend, join, restore, restored, validate_found, close,
  close_streamable_session, validate_streamable_session,
}
use memento_mcp.Sessions.Spec.{
  RedisLaws, View, spec_put, spec_remove, spec_found, spec_answer, view, served_with,
}
use memento_mcp.Sessions.Spec.Validate.{There, Follows, validate-Follows}

module _ {S : Type 0} (redis : Redis S) (cfg : Config) (laws : RedisLaws redis) where
  Unique-validate_found :
      (now : ℕ) (id : String) (o : Option Session) (st : Store S)
      → Unique st.streamable
      → Unique (validate_found redis cfg now id o st).0.streamable
  unfolding validate_found extend close_streamable_session close
  Unique-validate_found now id none st u = u
  Unique-validate_found now id (some s) st u =
      ground (
        arith,
        u,
        put-Unique id (touch cfg now s) st.streamable u,
        delete-Unique id st.streamable u,
      )

  Unique-join :
      (now : ℕ) (id : String) (o : Option Session) (st : Store S)
      → Unique st.streamable
      → Unique (join redis cfg now id o st).streamable
  unfolding join
  Unique-join now id none st u = u
  Unique-join now id (some s) st u = put-Unique id s st.streamable u

  Unique-validate :
      (now : ℕ) (id : String) (st : Store S)
      → Unique st.streamable
      → Unique (validate_streamable_session redis cfg now id st).0.streamable
  unfolding validate_streamable_session restore
  Unique-validate now id st u =
      let st' : Store S = restore redis cfg now id st in
      Unique-validate_found now id (Maps.get id st'.streamable) st'
        (ground (arith, u, Unique-join now id (restored redis cfg now id st.redis_state) st u))

  -- From `now` on, the store looks like the view.
  unfoldable pub Looks : ℕ → Store S → View → Type 0
  Looks now st v =
      ((t : ℕ) (j : String) → now ≤ t → view redis cfg st t j ≡ v t j) × Unique st.streamable

  pub same_put :
      (id : String) (s : Session) (v w : View) (t : ℕ) (j : String)
      → v t j ≡ w t j
      → spec_put cfg id s v t j ≡ spec_put cfg id s w t j
  unfolding spec_put
  same_put id s v w t j h = ground (arith, h)

  pub same_found :
      (now : ℕ) (id : String) (o : Option Session) (v w : View) (t : ℕ) (j : String)
      → v t j ≡ w t j
      → spec_found cfg now id o v t j ≡ spec_found cfg now id o w t j
  unfolding spec_found spec_put spec_remove
  same_found now id none v w t j h = ground (arith, h)
  same_found now id (some s) v w t j h = ground (arith, h)

  pub Looks-validate :
      (now : ℕ) (id : String) (st : Store S) (v : View)
      → Looks now st v
      → Looks now
          (validate_streamable_session redis cfg now id st).0
          (spec_found cfg now id (v now id) v)
        × (served_with (validate_streamable_session redis cfg now id st).1
            ≡ spec_answer cfg now (v now id))
        × There redis cfg laws id
            (validate_streamable_session redis cfg now id st).0
            (validate_streamable_session redis cfg now id st).1
  unfolding Looks Follows
  Looks-validate now id st v (h, u) =
      let (follows, answer, there) = validate-Follows redis cfg laws now id st in
      rw⁻¹ (h now id (omega arith)) (
        (
          (λ t j le.
              follows t j le
              ∙ same_found now id (view redis cfg st now id) (view redis cfg st) v t j (h t j le)),
          Unique-validate now id st u,
        ),
        answer,
        there,
      )
