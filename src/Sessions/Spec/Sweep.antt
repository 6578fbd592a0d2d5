-- ===== src/Sessions/Spec/Sweep.antt =====
-- The periodic sweep, which no request notices.
use memento_mcp.Base.{
  ℕ, ◌≤◌, ◌≡◌, ◌≢◌, refl, sym, ◌∙◌, String, none, some, [], ◌∷◌, Bool, true, false, ltb, Dict,
  eq_refl, eq_iff, arith, get-put, get-delete, Bool-cases, String-cases, inl, inr, ◌&&◌,
}
use memento_mcp.Base.Maps.{Unique, put-Unique, delete-Unique}
use memento_mcp.Base.Maps
use memento_mcp.Sessions.{Session, Config, Redis, Store, close, close_streamable_session}
use memento_mcp.Sessions.Ends.{reflects_now, sweep_one, sweep, cleanup_expired_sessions}
use memento_mcp.Sessions.Spec.{RedisLaws, forget, served, spec_put, spec_remove, view}
use memento_mcp.Sessions.Spec.Steps.{view-close, view-put}

module _ {S : Type 0} (redis : Redis S) (cfg : Config) (laws : RedisLaws redis) where
  -- What the sweep of one entry can be.
  pub sweep_one-cases :
      (P : Store S → Type 0) (now : ℕ) (reflects : String → Bool) (id : String) (s : Session)
      (st : Store S)
      → Maps.get id st.streamable ≡ some s
      → P st
      → (ltb s.expires_at now ≡ true → P (close redis cfg now false id st))
      → P (record st {
        streamable = Maps.put id (record s { last_reflected_at = some now }) st.streamable;
      })
      → P (sweep_one redis cfg now reflects id s st)
  unfolding sweep_one close_streamable_session
  sweep_one-cases P now reflects id s st h same closed noted =
      elim (Bool-cases (ltb s.expires_at now)) [
        | inl e ↦ rw (e, h) (closed e)
        | inr e ↦ rw e (elim (Bool-cases (reflects_now redis cfg now s && reflects id)) [
          | inl f ↦ rw f noted
          | inr f ↦ rw f same
        ])
      ]

  expired_view :
      (now : ℕ) (id : String) (s : Session) (st : Store S) (t : ℕ) (j : String)
      → now ≤ t
      → Maps.get id st.streamable ≡ some s
      → ltb s.expires_at now ≡ true
      → spec_remove cfg id (view redis cfg st) t j ≡ view redis cfg st t j
  unfolding spec_remove view served
  expired_view now id s st t j le h e = elim (String-cases id j) [
    | inl (p, q) ↦ rw (q, sym p, h) (ground (arith))
    | inr (n, q) ↦ rw q refl
  ]

  noted_view :
      (now : ℕ) (id : String) (s : Session) (st : Store S) (t : ℕ) (j : String)
      → Maps.get id st.streamable ≡ some s
      → spec_put cfg id (record s { last_reflected_at = some now }) (view redis cfg st) t j
        ≡ view redis cfg st t j
  unfolding spec_put view served forget
  noted_view now id s st t j h = elim (String-cases id j) [
    | inl (p, q) ↦ rw (q, sym p, h) refl
    | inr (n, q) ↦ rw q refl
  ]

  view-sweep_one :
      (now : ℕ) (reflects : String → Bool) (id : String) (s : Session) (st : Store S) (t : ℕ)
      (j : String)
      → now ≤ t
      → Maps.get id st.streamable ≡ some s
      → view redis cfg (sweep_one redis cfg now reflects id s st) t j ≡ view redis cfg st t j
  view-sweep_one now reflects id s st t j le h =
      sweep_one-cases (λ st'. view redis cfg st' t j ≡ view redis cfg st t j) now reflects id s st h
        refl (λ e. view-close redis cfg laws now id st t j ∙ expired_view now id s st t j le h e)
        (view-put redis cfg laws id (record s { last_reflected_at = some now }) st.redis_state st t
            j (λ n. refl)
          ∙ noted_view now id s st t j h)

  -- The other sessions stay as they are.
  get-sweep_one :
      (now : ℕ) (reflects : String → Bool) (id : String) (s : Session) (st : Store S) (j : String)
      → id ≢ j
      → Maps.get id st.streamable ≡ some s
      → Maps.get j (sweep_one redis cfg now reflects id s st).streamable ≡ Maps.get j st.streamable
  unfolding close
  get-sweep_one now reflects id s st j n h =
      sweep_one-cases (λ st'. Maps.get j st'.streamable ≡ Maps.get j st.streamable) now reflects id
        s st h refl (λ e. ground (arith, get-delete id j st.streamable, eq_iff id j))
        (ground (
          arith,
          get-put id j (record s { last_reflected_at = some now }) st.streamable,
          eq_iff id j,
        ))

  Unique-sweep_one :
      (now : ℕ) (reflects : String → Bool) (id : String) (s : Session) (st : Store S)
      → Unique st.streamable
      → Maps.get id st.streamable ≡ some s
      → Unique (sweep_one redis cfg now reflects id s st).streamable
  unfolding close
  Unique-sweep_one now reflects id s st u h =
      sweep_one-cases (λ st'. Unique st'.streamable) now reflects id s st h u
        (λ e. delete-Unique id st.streamable u)
        (put-Unique id (record s { last_reflected_at = some now }) st.streamable u)

  -- The entries still to be visited are in the map.
  pub Present : Dict Session → Store S → Type 0
  Present m st =
      (j : String) (s : Session) → Maps.get j m ≡ some s → Maps.get j st.streamable ≡ some s

  Present-rest :
      (now : ℕ) (reflects : String → Bool) (id : String) (s : Session) (m : Dict Session)
      (st : Store S)
      → Maps.get id m ≡ none
      → Present ((id, s) ∷ m) st
      → Present m (sweep_one redis cfg now reflects id s st)
  unfolding Present Maps.get
  Present-rest now reflects id s m st absent h j s' k =
      let first : Maps.get id st.streamable ≡ some s = h id s (rw (eq_refl id) refl) in
      elim (String-cases id j) [
        | inl (p, e) ↦ ground (arith, absent, k, p)
        | inr (n, e) ↦ get-sweep_one now reflects id s st j n first ∙ h j s' (rw e k)
      ]

  pub view-sweep :
      (now : ℕ) (reflects : String → Bool) (m : Dict Session) (st : Store S)
      → Unique m
      → Present m st
      → (t : ℕ) (j : String) → now ≤ t
      → view redis cfg (sweep redis cfg now reflects m st) t j ≡ view redis cfg st t j
  unfolding sweep Present Maps.get
  view-sweep now reflects [] st u h t j le = refl
  view-sweep now reflects ((id, s) ∷ m) st u h t j le =
      let first : Maps.get id st.streamable ≡ some s = h id s (rw (eq_refl id) refl) in
      view-sweep now reflects m (sweep_one redis cfg now reflects id s st) u.1
        (Present-rest now reflects id s m st u.0 h) t j le
      ∙ view-sweep_one now reflects id s st t j le first

  pub Unique-sweep :
      (now : ℕ) (reflects : String → Bool) (m : Dict Session) (st : Store S)
      → Unique m
      → Present m st
      → Unique st.streamable
      → Unique (sweep redis cfg now reflects m st).streamable
  unfolding sweep Present Maps.get
  Unique-sweep now reflects [] st u h v = v
  Unique-sweep now reflects ((id, s) ∷ m) st u h v =
      let first : Maps.get id st.streamable ≡ some s = h id s (rw (eq_refl id) refl) in
      Unique-sweep now reflects m (sweep_one redis cfg now reflects id s st) u.1
        (Present-rest now reflects id s m st u.0 h) (Unique-sweep_one now reflects id s st v first)

  -- The sweep takes nothing from anybody who could still be served.
  pub view-cleanup :
      (now : ℕ) (reflects : String → Bool) (st : Store S)
      → Unique st.streamable
      → (t : ℕ) (j : String) → now ≤ t
      → view redis cfg (cleanup_expired_sessions redis cfg now reflects st) t j
        ≡ view redis cfg st t j
  unfolding cleanup_expired_sessions Present view
  view-cleanup now reflects st u t j le =
      view-sweep now reflects st.streamable st u (λ j s h. h) t j le

  pub Unique-cleanup :
      (now : ℕ) (reflects : String → Bool) (st : Store S)
      → Unique st.streamable
      → Unique (cleanup_expired_sessions redis cfg now reflects st).streamable
  unfolding cleanup_expired_sessions Present
  Unique-cleanup now reflects st u = Unique-sweep now reflects st.streamable st u (λ j s h. h) u
